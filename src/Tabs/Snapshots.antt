-- ===== src/Tabs/Snapshots.antt =====
-- tabModel.ts, the workspace switch: the number of remembered workspaces.
use ninfer_studio.Base.{
  ◌+◌, ◌≤◌, ltb, String, ===_refl, Dict, put, delete, or_else, length, length-put, length-delete,
  List, [], ◌∷◌, Option, none, some, Bool, false, not, ◌&&◌, ◌≡◌, refl, ap, ◌∙◌, arith, Bool-cases,
  inl, inr,
}
use ninfer_studio.FileKind.{FileKind}
use ninfer_studio.Tabs.State.{Tab, Tabs, Snapshot, is_ready, is_set}
use ninfer_studio.Tabs.Disk.{read_disk}
use ninfer_studio.Tabs.Actions.{read_all}
use ninfer_studio.Tabs.Workspace.{
  max_ws_snapshots, snapshot, oldest_dropped, remember, same_ws, leave, emptied, restored, enter,
  remembered, switch_workspace,
}

per_ws-read_disk :
    (s : Tabs) (id path : String) (kind : FileKind) (force : Bool)
    → (read_disk s id path kind force).0.per_ws ≡ s.per_ws
unfolding read_disk
per_ws-read_disk s id path kind force = ground arith

per_ws-read_all : (ts : List Tab) (s : Tabs) → (read_all ts s).0.per_ws ≡ s.per_ws
unfolding read_all
per_ws-read_all [] s = refl
per_ws-read_all (t ∷ ts) s =
    per_ws-read_all ts (read_disk s t.id t.path t.kind false).0
    ∙ per_ws-read_disk s t.id t.path t.kind false

length-delete_head :
    (k : String) (w : Snapshot) (m : Dict Snapshot) → length (delete k ((k, w) ∷ m)) ≤ length m
unfolding delete
length-delete_head k w m = rw (===_refl k) (length-delete k m)

length-oldest_dropped :
    (m : Dict Snapshot)
    → length m ≤ max_ws_snapshots + 1
    → length (oldest_dropped m) ≤ max_ws_snapshots
length-oldest_dropped [] h = omega arith
length-oldest_dropped ((k, w) ∷ m) h = omega (arith, length-delete_head k w m)

length-remember :
    (ws : String) (snap : Snapshot) (m : Dict Snapshot)
    → length m ≤ max_ws_snapshots
    → length (remember ws snap m) ≤ max_ws_snapshots
unfolding remember
length-remember ws snap m h = elim (Bool-cases (ltb max_ws_snapshots (length (put ws snap m)))) [
  | inl e ↦ rw e (length-oldest_dropped (put ws snap m) (omega (arith, length-put ws snap m)))
  | inr e ↦ rw e (ground arith)
]

length-leave :
    (s : Tabs) (next : Option String)
    → length s.per_ws ≤ max_ws_snapshots
    → length (leave s next) ≤ max_ws_snapshots
unfolding leave
length-leave s next h = elim (Bool-cases (is_set s.prev_ws && not (same_ws s.prev_ws next))) [
  | inl e ↦ rw e (length-remember (or_else s.prev_ws "") (snapshot s) s.per_ws h)
  | inr e ↦ rw e h
]

length-enter :
    (s : Tabs) (ws : String) (found : Option Snapshot)
    → length s.per_ws ≤ max_ws_snapshots
    → length (enter s ws found).0.per_ws ≤ max_ws_snapshots
unfolding enter
length-enter s ws none h = h
length-enter s ws (some snap) h = elim (Bool-cases (is_ready (restored s ws snap))) [
  | inl e ↦
      rw e (
        omega
          (arith, ap length (per_ws-read_all _ (restored s ws snap)), length-delete ws s.per_ws))
  | inr e ↦ rw e (omega (arith, length-delete ws s.per_ws))
]

-- A workspace switch leaves at most eight workspaces remembered, if there were at most eight.
pub switch_workspace-length :
    (s : Tabs) (next : Option String)
    → length s.per_ws ≤ max_ws_snapshots
    → length (switch_workspace s next).0.per_ws ≤ max_ws_snapshots
unfolding switch_workspace
switch_workspace-length s next h =
    length-enter (emptied s next) (or_else next "") (remembered (emptied s next) next)
      (length-leave s next h)
