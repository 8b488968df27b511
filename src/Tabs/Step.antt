-- ===== src/Tabs/Step.antt =====
-- tabModel.ts: one step of the hook, for each thing that can happen, and its runs.
use ninfer_studio.Base.{
  Text, String, Dict, List, [], ◌∷◌, Option, none, Bool, true, false, ◌≡◌, ltb, length, any,
}
use ninfer_studio.Tabs.State.{Tabs, Read, Write, Lint, GitQuery, Request, has_id}
use ninfer_studio.Tabs.Disk.{Reply, read_replied, image_replied}
use ninfer_studio.Tabs.Git.{refresh_git_status, git_replied}
use ninfer_studio.Tabs.Save.{LintReply, save_tab, write_replied, lint_replied}
use ninfer_studio.Tabs.Actions.{
  Choice, max_tabs, set_active, open_file, close_tab, on_doc_change, reload_tab, resolve_conflict,
  refresh_open_tabs, poll,
}
use ninfer_studio.Tabs.Workspace.{switch_workspace}

-- What the user does, what the screen does, and what answers.
pub data Event : Type 0 where
  open_path : String → String → Event
  close : String → Bool → Event
  activate : Option String → Event
  edit : String → Text → Event
  save : Option String → Event
  reload : String → Bool → Event
  resolve : String → Choice → Event
  refresh_all refresh_git tick : Event
  switch : Option String → Event
  set_backend : Bool → Event
  read_answer image_answer : Read → Reply → Event
  write_answer : Write → Reply → Bool → Event
  lint_answer : Lint → LintReply → Event
  git_answer : GitQuery → Option (Dict String) → Event

unfoldable pub step : Tabs → Event → Tabs × List Request
step s (open_path id path) = (open_file s id path).0
step s (close id agreed) = (close_tab s id agreed, [])
step s (activate id) = set_active s id
step s (edit id doc) = (on_doc_change s id doc, [])
step s (save id) = save_tab s id
step s (reload id agreed) = reload_tab s id agreed
step s (resolve id choice) = resolve_conflict s id choice
step s refresh_all = refresh_open_tabs s
step s refresh_git = refresh_git_status s
step s tick = poll s
step s (switch next) = switch_workspace s next
step s (set_backend b) = (record s { backend = b }, [])
step s (read_answer r reply) = read_replied s r reply
step s (image_answer r reply) = (image_replied s r reply, [])
step s (write_answer w reply has_lint) = write_replied s w reply has_lint
step s (lint_answer l reply) = (lint_replied s l reply, [])
step s (git_answer q letters) = (git_replied s q letters, [])

-- A new tab gets an id of its own, and the open tabs are fewer than the cap. The other events can
-- come at any time; an answer may be late, doubled, or to a request that was never sent.
abbrev pub IsAllowed : Tabs → Event → Type 0
IsAllowed s (open_path id path) =
    (any (has_id id) s.tabs ≡ false) × (ltb (length s.tabs) max_tabs ≡ true)
IsAllowed s _ = Unit

-- The state behind a list of events, whatever they are.
abbrev pub step_all : Tabs → List Event → Tabs
step_all s [] = s
step_all s (e ∷ events) = step_all (step s e).0 events

pub data Run (s : Tabs) : Tabs → Type 0 where
  here : Run s s
  next : {t : Tabs} → Run s t → (e : Event) → IsAllowed t e → Run s (step t e).0

-- Before the first render.
abbrev pub start : Tabs
start = record {
  active_ws = none;
  backend = true;
  tabs = [];
  active = none;
  notice = none;
  status_map = [];
  gen = 0;
  read_seq = [];
  git_seq = 0;
  lint_seq = [];
  docs = [];
  per_ws = [];
  prev_ws = none;
}
