-- ===== src/Tabs/Actions.antt =====
-- tabModel.ts: what the user and the screen do with tabs.
use ninfer_studio.Base.{
  ℕ, Text, units, text_eq, leb, String, ◌===◌, get, put, delete, or_else, if◌then◌else◌, length,
  List, [], ◌∷◌, ◌++◌, filter, find, Option, none, some, Bool, true, false, not, ◌&&◌, ◌||◌,
}
use ninfer_studio.FileKind.{file_kind}
use ninfer_studio.Tabs.State.{
  Status, loading, ready, notfound, conflict, Tab, Tabs, Request, has_id, is_ready, is_set,
  patch_tab, find_tab,
}
use ninfer_studio.Tabs.Disk.{read_disk, is_binary, is_image}
use ninfer_studio.Tabs.Git.{refresh_git_status}
use ninfer_studio.Tabs.Save.{is_code, and_then}

abbrev pub max_tabs : ℕ
max_tabs = 24

abbrev pub is_shown : Status → Bool
is_shown ready = true
is_shown conflict = true
is_shown notfound = true
is_shown _ = false

-- Is the tab read again when it is activated?
abbrev pub rechecks : Tab → Bool
rechecks t = (is_code t.kind || is_image t.kind) && not t.truncated && is_shown t.status

-- `setActive`
unfoldable pub set_active : Tabs → Option String → Tabs × List Request
set_active s id =
    let s' = record s { active = id; notice = none } in
    if is_set id
    then elim (find_tab (or_else id "") s.tabs) [
      | none ↦ refresh_git_status s'
      | some t ↦
          if rechecks t
          then and_then (read_disk s' t.id t.path t.kind false) refresh_git_status
          else refresh_git_status s'
    ]
    else (s', [])

abbrev pub fresh_tab : String → String → Tab
fresh_tab id path =
    let fk = file_kind (units path) in
    record {
      id = id;
      path = path;
      kind = fk.kind;
      lang = fk.lang;
      doc = [];
      doc_rev = 0;
      base = [];
      base_bytes = none;
      dirty = false;
      status = (if is_binary fk.kind then Status.binary else loading);
      error_text = none;
      truncated = false;
      disk_changed = false;
      diags = [];
      linting = false;
      git_status = none;
      image = none;
    }

abbrev pub too_many : Text
too_many = units "Too many open tabs (24) — close a dirty tab first."

-- A tab that may make room for a new one.
abbrev pub is_victim : Option String → Tab → Bool
is_victim active t = not (elim active [ none ↦ false | some a ↦ t.id === a ]) && not t.dirty

-- The end of `openFile`. The tab list is the one in the state: the list that `openFile` takes the
-- victim out of is a local of its own, and is not written back.
unfoldable pub add_tab : Tabs → String → String → Tabs × List Request
add_tab s id path =
    let tab = fresh_tab id path in
    let s' = record s {
      docs = put id [] s.docs;
      tabs = s.tabs ++ (tab ∷ []);
      active = some id;
      notice = none;
    } in
    and_then (refresh_git_status s') (λ s''. read_disk s'' id path tab.kind false)

-- `openFile`, where `id` is the new random id. The Boolean is its result.
unfoldable pub open_file : Tabs → String → String → (Tabs × List Request) × Bool
open_file s id path =
    if is_ready s
    then elim (find (λ t. t.path === path) s.tabs) [
      | some t ↦ (set_active s (some t.id), true)
      | none ↦
          if leb max_tabs (length s.tabs)
          then elim (find (is_victim s.active) s.tabs) [
            | none ↦ ((record s { notice = some too_many }, []), false)
            | some victim ↦ (
              add_tab
                  (record s {
                    docs = delete victim.id s.docs;
                    read_seq = delete victim.id s.read_seq;
                  })
                  id path,
              true,
            )
          ]
          else (add_tab s id path, true)
    ]
    else ((s, []), false)

-- `closeTab`; `agreed` is the user's answer where the tab is dirty.
unfoldable pub close_tab : Tabs → String → Bool → Tabs
close_tab s id agreed = elim (find_tab id s.tabs) [
  | none ↦ s
  | some t ↦ if t.dirty && not agreed then s else record s {
    docs = delete id s.docs;
    read_seq = delete id s.read_seq;
    tabs = filter (λ x. not (has_id id x)) s.tabs;
    active = (elim s.active [ none ↦ none | some a ↦ if a === id then none else some a ]);
  }
]

abbrev pub mark_dirty : Tab → Tab
mark_dirty t = if t.dirty || t.truncated then t else record t { dirty = true }

-- `onDocChange`
unfoldable pub on_doc_change : Tabs → String → Text → Tabs
on_doc_change s id doc =
    if (elim (get id s.docs) [ none ↦ false | some old ↦ text_eq old doc ])
    then s
    else elim (find_tab id s.tabs) [
      | none ↦ record s { docs = put id doc s.docs }
      | some t ↦
          if not t.truncated && not t.dirty && not (text_eq doc t.base)
          then record s { docs = put id doc s.docs; tabs = patch_tab id mark_dirty s.tabs }
          else record s { docs = put id doc s.docs }
    ]

-- `reloadTab`; `agreed` is `skipConfirm`, or the user's answer where the tab is dirty.
unfoldable pub reload_tab : Tabs → String → Bool → Tabs × List Request
reload_tab s id agreed = elim (find_tab id s.tabs) [
  | none ↦ (s, [])
  | some t ↦
      if not (is_ready s) || (t.dirty && not agreed)
      then (s, [])
      else read_disk s id t.path t.kind true
]

pub data Choice : Type 0 where
  reload keep : Choice

-- `resolveConflict`
unfoldable pub resolve_conflict : Tabs → String → Choice → Tabs × List Request
resolve_conflict s id keep = (
  record s { tabs = patch_tab id (λ t. record t { disk_changed = false; status = ready }) s.tabs },
  [],
)
resolve_conflict s id reload = reload_tab s id true

-- Is the tab read again when all are?
abbrev pub refreshes : Tab → Bool
refreshes t = ((is_code t.kind && not t.truncated) || is_image t.kind) && is_shown t.status

-- One `readDisk` for each tab.
unfoldable pub read_all : List Tab → Tabs → Tabs × List Request
read_all [] s = (s, [])
read_all (t ∷ ts) s = and_then (read_disk s t.id t.path t.kind false) (read_all ts)

-- `refreshOpenTabs`
unfoldable pub refresh_open_tabs : Tabs → Tabs × List Request
refresh_open_tabs s = if is_ready s then read_all (filter refreshes s.tabs) s else (s, [])

abbrev pub is_polled : Status → Bool
is_polled ready = true
is_polled conflict = true
is_polled _ = false

-- One tick of the poll while a run is active.
unfoldable pub poll : Tabs → Tabs × List Request
poll s =
    if is_ready s
    then and_then (refresh_git_status s) (λ s'. elim (find_tab (or_else s.active "") s.tabs) [
      | none ↦ (s', [])
      | some t ↦
          if is_set s.active && is_code t.kind && not t.truncated && is_polled t.status
          then read_disk s' t.id t.path t.kind false
          else (s', [])
    ])
    else (s, [])
