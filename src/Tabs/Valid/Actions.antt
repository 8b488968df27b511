-- ===== src/Tabs/Valid/Actions.antt =====
-- tabModel.ts: the invariant and the handlers of the user's and the screen's actions.
use ninfer_studio.Base.{
  All-pair, ltb, leb, length, String, ◌===◌, ===_refl, put, or_else, List, [], ◌∷◌, ◌++◌, filter,
  find, any, All, All-append, All-imp, Option, none, some, Bool, true, false, not, ◌&&◌, ◌||◌, ◌≡◌,
  refl, arith, eq_iff, Bool-cases, Option-cases, inl, inr,
}
use ninfer_studio.Tabs.State.{Tab, Tabs, has_id, is_ready, is_set, find_tab}
use ninfer_studio.Tabs.Disk.{read_disk}
use ninfer_studio.Tabs.Git.{refresh_git_status}
use ninfer_studio.Tabs.Save.{is_code}
use ninfer_studio.Tabs.Actions.{
  max_tabs, rechecks, set_active, fresh_tab, add_tab, open_file, reload_tab, Choice, reload, keep,
  resolve_conflict, refreshes, read_all, refresh_open_tabs, is_polled, poll,
}
use ninfer_studio.Tabs.Valid.{
  IsSynced, IsOther, HasDistinctIds, IsValid, patch_tab-IsConsistent, IsSynced-put_other,
  get-put_id, All-any-false,
}
use ninfer_studio.Tabs.Valid.Disk.{read_disk-IsValid, refresh_git_status-IsValid}

pub set_active-IsValid : (s : Tabs) (id : Option String) → IsValid s → IsValid (set_active s id).0
unfolding set_active
set_active-IsValid s id v = elim (Bool-cases (is_set id)) [
  | inr e ↦ rw e same
  | inl e ↦ elim (Option-cases (find_tab (or_else id "") s.tabs)) [
    | inl missing ↦ rw (e, missing) (refresh_git_status-IsValid s' same)
    | inr (t, found) ↦ elim (Bool-cases (rechecks t)) [
      | inl again ↦
          rw (e, found, again)
            (refresh_git_status-IsValid _ (read_disk-IsValid s' t.id t.path t.kind false same))
      | inr once ↦ rw (e, found, once) (refresh_git_status-IsValid s' same)
    ]
  ]
]
  where
    s' : Tabs
    s' = record s { active = id; notice = none }

    same : IsValid s'
    same = record { current = v.current; stored = v.stored }

HasDistinctIds-snoc :
    (ts : List Tab) (t : Tab)
    → All (λ u. has_id t.id u ≡ false) ts
    → HasDistinctIds ts
    → HasDistinctIds (ts ++ (t ∷ []))
HasDistinctIds-snoc [] t h d = (tt, tt)
HasDistinctIds-snoc (u ∷ ts) t (p, h) (q, d) = (
  All-append (IsOther u.id) ts (t ∷ []) q (ground (arith, eq_iff u.id t.id, eq_iff t.id u.id), tt),
  HasDistinctIds-snoc ts t h d,
)

add_tab-IsValid :
    (s : Tabs) (id path : String)
    → any (has_id id) s.tabs ≡ false
    → IsValid s
    → IsValid (add_tab s id path).0
unfolding add_tab
add_tab-IsValid s id path new v =
    read_disk-IsValid _ id path tab.kind false (refresh_git_status-IsValid s' added)
  where
    tab : Tab
    tab = fresh_tab id path

    s' : Tabs
    s' = record s {
      docs = put id [] s.docs;
      tabs = s.tabs ++ (tab ∷ []);
      active = some id;
      notice = none;
    }

    others : All (λ u. has_id id u ≡ false) s.tabs
    others = All-any-false (has_id id) s.tabs new

    added : IsValid s'
    added = record {
      current = record {
        distinct = HasDistinctIds-snoc s.tabs tab others v.current.distinct;
        synced =
            All-append (IsSynced (put id [] s.docs)) s.tabs (tab ∷ [])
              (All-imp (λ u. (has_id id u ≡ false) × IsSynced s.docs u)
                (IsSynced (put id [] s.docs)) s.tabs
                (λ u (o, h). IsSynced-put_other id [] s.docs u o h)
                (All-pair _ _ s.tabs others v.current.synced))
              (([], get-put_id id [] s.docs tab (===_refl id), λ _ _. refl), tt);
      };
      stored = v.stored;
    }

pub open_file-IsValid :
    (s : Tabs) (id path : String)
    → any (has_id id) s.tabs ≡ false
    → ltb (length s.tabs) max_tabs ≡ true
    → IsValid s
    → IsValid ((open_file s id path).0).0
unfolding open_file
open_file-IsValid s id path new room v = elim (Bool-cases (is_ready s)) [
  | inr e ↦ rw e v
  | inl e ↦ elim (Option-cases (find (λ t. t.path === path) s.tabs)) [
    | inr (t, found) ↦ rw (e, found) (set_active-IsValid s (some t.id) v)
    | inl missing ↦
        let below : leb max_tabs (length s.tabs) ≡ false = ground arith in
        rw (e, missing, below) (add_tab-IsValid s id path new v)
  ]
]

pub reload_tab-IsValid :
    (s : Tabs) (id : String) (agreed : Bool) → IsValid s → IsValid (reload_tab s id agreed).0
unfolding reload_tab
reload_tab-IsValid s id agreed v = elim (Option-cases (find_tab id s.tabs)) [
  | inl missing ↦ rw (missing, reload_tab) v
  | inr (t, found) ↦ elim (Bool-cases (not (is_ready s) || (t.dirty && not agreed))) [
    | inl stop ↦ rw (found, reload_tab, stop) v
    | inr go ↦ rw (found, reload_tab, go) (read_disk-IsValid s id t.path t.kind true v)
  ]
]

pub resolve_conflict-IsValid :
    (s : Tabs) (id : String) (choice : Choice)
    → IsValid s
    → IsValid (resolve_conflict s id choice).0
unfolding resolve_conflict
resolve_conflict-IsValid s id keep v = record {
  current = patch_tab-IsConsistent id _ s.tabs s.docs (λ t. refl) (λ t h. h) v.current;
  stored = v.stored;
}
resolve_conflict-IsValid s id reload v = reload_tab-IsValid s id true v

pub read_all-IsValid : (ts : List Tab) (s : Tabs) → IsValid s → IsValid (read_all ts s).0
unfolding read_all
read_all-IsValid [] s v = v
read_all-IsValid (t ∷ ts) s v =
    read_all-IsValid ts (read_disk s t.id t.path t.kind false).0
      (read_disk-IsValid s t.id t.path t.kind false v)

pub refresh_open_tabs-IsValid : (s : Tabs) → IsValid s → IsValid (refresh_open_tabs s).0
unfolding refresh_open_tabs
refresh_open_tabs-IsValid s v = elim (Bool-cases (is_ready s)) [
  | inl e ↦ rw e (read_all-IsValid (filter refreshes s.tabs) s v)
  | inr e ↦ rw e v
]

pub poll-IsValid : (s : Tabs) → IsValid s → IsValid (poll s).0
unfolding poll
poll-IsValid s v = elim (Bool-cases (is_ready s)) [
  | inr e ↦ rw e v
  | inl e ↦ elim (Option-cases (find_tab (or_else s.active "") s.tabs)) [
    | inl missing ↦ rw (e, missing) fetched
    | inr (t, found) ↦
        elim (Bool-cases
          (is_set s.active && is_code t.kind && not t.truncated && is_polled t.status)) [
            | inl go ↦
                rw (e, found, go)
                  (read_disk-IsValid (refresh_git_status s).0 t.id t.path t.kind false fetched)
            | inr stop ↦ rw (e, found, stop) fetched
          ]
  ]
]
  where
    fetched : IsValid (refresh_git_status s).0
    fetched = refresh_git_status-IsValid s v
