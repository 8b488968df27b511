-- ===== src/Tests/Tabs.antt =====
-- tabModel.ts on concrete tabs.
use ninfer_studio.Base.{
  List, ◌≤◌, arith, ◌+◌, units, text_eq, String, get, length, replicate, [], ◌∷◌, none, some, true,
  false, ◌≡◌, refl,
}
use ninfer_studio.FileKind.{code, Lang}
use ninfer_studio.Tabs.State.{ready, Tab, Tabs, Read, find_tab}
use ninfer_studio.Tabs.Disk.{Body, in_conflict, read_content}
use ninfer_studio.Tabs.Actions.{open_file}
use ninfer_studio.Tabs.Workspace.{max_ws_snapshots, switch_workspace, leave, enter}
use ninfer_studio.Tabs.Step.{Event, step, step_all, Run, here, next, start}
use ninfer_studio.Tabs.Valid.{IsValid}
use ninfer_studio.Tabs.Valid.Reach.{reachable-IsValid}
use ninfer_studio.Tabs.Snapshots.{switch_workspace-length}
use ninfer_studio.Tabs.Late.{switch_workspace-late}
use ninfer_studio.Tabs.Disk.{Reply}
use ninfer_studio.Tabs.Edits.{read_content-keeps_edits, read_content-drops_edits}
use ninfer_studio.Tabs.Cap.{open_file-over_cap}

-- A workspace is chosen, a file is opened, and its text is edited.
abbrev chosen : Tabs
chosen = (step start (Event.switch (some "/w"))).0

abbrev opened : Tabs
opened = (step chosen (Event.open_path "t1" "a.ts")).0

abbrev edited : Tabs
edited = (step opened (Event.edit "t1" (units "x"))).0

edited-Run : Run start edited
unfolding step switch_workspace leave enter get
edited-Run =
    next (next (next here (Event.switch (some "/w")) tt) (Event.open_path "t1" "a.ts") (refl, refl))
      (Event.edit "t1" (units "x")) tt

reachable-IsValid_example : IsValid edited
reachable-IsValid_example = reachable-IsValid edited edited-Run

-- A tab with unsaved changes.
abbrev draft : Tab
draft = record {
  id = "t1";
  path = "a.ts";
  kind = code;
  lang = Lang.typescript;
  doc = units "old";
  doc_rev = 1;
  base = units "old";
  base_bytes = none;
  dirty = true;
  status = ready;
  error_text = none;
  truncated = false;
  disk_changed = false;
  diags = [];
  linting = false;
  git_status = none;
  image = none;
}

abbrev drafting : Tabs
drafting = record start {
  active_ws = some "/w";
  tabs = draft ∷ [];
  active = some "t1";
  docs = ("t1", units "new") ∷ [];
}

abbrev asked : Read
asked = record { id = "t1"; path = "a.ts"; kind = code; force = false; gen = 0; seq = 1 }

abbrev answer : String → Body
answer s = record {
  error_field = none;
  content = some (units s);
  binary = none;
  truncated = false;
  data_url = none;
  size = none;
  mime = none;
}

read_content-keeps_edits_example :
    ((read_content drafting asked (answer "other")).docs ≡ drafting.docs)
    × (find_tab "t1" (read_content drafting asked (answer "other")).tabs ≡ some (in_conflict draft))
unfolding units text_eq
read_content-keeps_edits_example =
    read_content-keeps_edits drafting asked (answer "other") draft (tt, tt) refl (refl, refl, refl)
      refl refl refl

read_content-drops_edits_example :
    (get "t1" (read_content drafting asked (answer "old")).docs ≡ some (units "old"))
    × ((u : Tab) × (find_tab "t1" (read_content drafting asked (answer "old")).tabs ≡ some u)
        × (u.dirty ≡ true))
unfolding units text_eq
read_content-drops_edits_example =
    read_content-drops_edits drafting asked (answer "old") draft refl (refl, refl, refl) refl refl
      refl refl

-- As many tabs as the cap allows, all saved, or all with unsaved changes.
abbrev saved_tabs : Tabs
saved_tabs = record drafting { tabs = replicate 24 (record draft { dirty = false }); active = none }

open_file-over_cap_example :
    length (open_file saved_tabs "t2" "b.ts").0.0.tabs ≡ length saved_tabs.tabs + 1
open_file-over_cap_example =
    open_file-over_cap saved_tabs "t2" "b.ts" (record draft { dirty = false }) refl refl refl refl

abbrev draft_tabs : Tabs
draft_tabs = record drafting { tabs = replicate 24 draft; active = none }

-- The path of another file is opened in between.
abbrev in_between : List Event
in_between = Event.open_path "t9" "z.ts" ∷ Event.tick ∷ []

switch_workspace-late_example :
    step
      (step_all (switch_workspace drafting (some "/v")).0 in_between)
      (Event.read_answer asked (Reply.body (answer "old")))
    ≡ (step_all (switch_workspace drafting (some "/v")).0 in_between, [])
switch_workspace-late_example =
    switch_workspace-late drafting (some "/v") in_between
      (Event.read_answer asked (Reply.body (answer "old"))) (omega arith)

switch_workspace-length_example :
    length (switch_workspace drafting (some "/v")).0.per_ws ≤ max_ws_snapshots
switch_workspace-length_example = switch_workspace-length drafting (some "/v") (omega arith)
