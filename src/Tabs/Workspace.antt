-- ===== src/Tabs/Workspace.antt =====
-- tabModel.ts, the effect that runs when `activeWsDir` changes.
use ninfer_studio.Base.{
  ℕ, ◌+◌, Text, ltb, String, ◌===◌, Dict, get, put, delete, or_else, if◌then◌else◌, length, List,
  [], ◌∷◌, map, filter, Option, none, some, Bool, true, false, not, ◌&&◌,
}
use ninfer_studio.Tabs.State.{
  Status, loading, ready, Tab, Snapshot, Tabs, Request, is_ready, is_set, live_doc,
}
use ninfer_studio.Tabs.Save.{is_code}
use ninfer_studio.Tabs.Actions.{read_all}

abbrev pub max_ws_snapshots : ℕ
max_ws_snapshots = 8

abbrev pub settled_status : Status → Status
settled_status loading = ready
settled_status other = other

-- A tab as the snapshot keeps it.
abbrev pub stored_tab : Tabs → Tab → Tab
stored_tab s t = record t {
  doc = live_doc s t;
  status = settled_status t.status;
  image = none;
  linting = false;
  diags = [];
  git_status = none;
}

-- A loop of `set` calls.
unfoldable pub put_all : Dict Text → Dict Text → Dict Text
put_all [] m = m
put_all ((k, v) ∷ pairs) m = put_all pairs (put k v m)

unfoldable pub snapshot : Tabs → Snapshot
unfolding put_all
snapshot s = record {
  tabs = map (stored_tab s) s.tabs;
  docs = put_all (map (λ t. (t.id, live_doc s t)) s.tabs) [];
  active = s.active;
}

abbrev pub oldest_dropped : Dict Snapshot → Dict Snapshot
oldest_dropped [] = []
oldest_dropped ((k, w) ∷ m) = delete k ((k, w) ∷ m)

-- Storing a snapshot, and dropping the first one where there are more than eight.
unfoldable pub remember : String → Snapshot → Dict Snapshot → Dict Snapshot
remember ws snap m =
    let m' = put ws snap m in if ltb max_ws_snapshots (length m') then oldest_dropped m' else m'

abbrev pub same_ws : Option String → Option String → Bool
same_ws none none = true
same_ws (some a) (some b) = a === b
same_ws _ _ = false

-- The workspace that is left, if any, is remembered.
unfoldable pub leave : Tabs → Option String → Dict Snapshot
unfolding remember snapshot
leave s next =
    if is_set s.prev_ws && not (same_ws s.prev_ws next)
    then remember (or_else s.prev_ws "") (snapshot s) s.per_ws
    else s.per_ws

-- What is read again after a restore.
abbrev pub rereads : Tab → Bool
rereads t = if is_code t.kind then not t.truncated else true

-- Everything is reset, and nothing open.
abbrev pub emptied : Tabs → Option String → Tabs
emptied s next = record s {
  active_ws = next;
  gen = s.gen + 1;
  per_ws = leave s next;
  prev_ws = next;
  read_seq = [];
  docs = [];
  status_map = [];
  notice = none;
  tabs = [];
  active = none;
}

-- The snapshot is taken out of the map, and what it holds is put back.
abbrev pub restored : Tabs → String → Snapshot → Tabs
restored s ws snap = record s {
  per_ws = delete ws s.per_ws;
  docs = put_all snap.docs [];
  tabs = snap.tabs;
  active = snap.active;
}

unfoldable pub enter : Tabs → String → Option Snapshot → Tabs × List Request
enter s ws none = (s, [])
enter s ws (some snap) =
    if is_ready (restored s ws snap)
    then read_all (filter rereads snap.tabs) (restored s ws snap)
    else (restored s ws snap, [])

abbrev pub remembered : Tabs → Option String → Option Snapshot
remembered s next = if is_set next then get (or_else next "") s.per_ws else none

-- The effect, for the new value of `activeWsDir`.
unfoldable pub switch_workspace : Tabs → Option String → Tabs × List Request
switch_workspace s next =
    enter (emptied s next) (or_else next "") (remembered (emptied s next) next)
