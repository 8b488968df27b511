-- ===== src/Tabs/Late.antt =====
-- tabModel.ts: answers that come after the workspace was changed.
use ninfer_studio.Base.{
  ℕ, ◌+◌, ◌≤◌, ◌<◌, ◌==◌, String, Dict, Text, or_else, find, List, [], ◌∷◌, Option, none, some,
  Bool, true, false, not, ◌&&◌, ◌||◌, ◌≡◌, refl, ◌∙◌, arith, Bool-cases, Option-cases, inl, inr,
  leb, length, ◌===◌,
}
use ninfer_studio.FileKind.{FileKind}
use ninfer_studio.Tabs.State.{
  Tab, Tabs, Read, Write, Lint, GitQuery, Request, Snapshot, is_ready, is_set, find_tab,
}
use ninfer_studio.Tabs.Disk.{
  Reply, still_valid, read_disk, read_failed, read_content, read_replied, image_replied,
}
use ninfer_studio.Tabs.Git.{refresh_git_status, git_replied}
use ninfer_studio.Tabs.Save.{
  LintReply, save_tab, save_found, write_done, write_replied, lint_replied, run_lint, and_then,
  is_code,
}
use ninfer_studio.Tabs.Actions.{
  Choice, is_polled, max_tabs, is_victim, rechecks, set_active, add_tab, open_file, close_tab,
  on_doc_change, reload_tab, resolve_conflict, read_all, refresh_open_tabs, poll,
}
use ninfer_studio.Tabs.Workspace.{switch_workspace, enter, emptied, remembered, restored}
use ninfer_studio.Tabs.Step.{Event, step, step_all}

abbrev Keeps : Tabs → Tabs → Type 0
Keeps s t = t.gen ≡ s.gen

gen-read_disk :
    (s : Tabs) (id path : String) (kind : FileKind) (force : Bool)
    → Keeps s (read_disk s id path kind force).0
unfolding read_disk
gen-read_disk s id path kind force = ground arith

gen-refresh_git_status : (s : Tabs) → Keeps s (refresh_git_status s).0
unfolding refresh_git_status
gen-refresh_git_status s = ground arith

gen-read_all : (ts : List Tab) (s : Tabs) → Keeps s (read_all ts s).0
unfolding read_all
gen-read_all [] s = refl
gen-read_all (t ∷ ts) s =
    gen-read_all ts (read_disk s t.id t.path t.kind false).0
    ∙ gen-read_disk s t.id t.path t.kind false

gen-close_tab : (s : Tabs) (id : String) (agreed : Bool) → Keeps s (close_tab s id agreed)
unfolding close_tab
gen-close_tab s id agreed = ground arith

gen-on_doc_change : (s : Tabs) (id : String) (doc : Text) → Keeps s (on_doc_change s id doc)
unfolding on_doc_change
gen-on_doc_change s id doc = ground arith

gen-save_tab : (s : Tabs) (id : Option String) → Keeps s (save_tab s id).0
unfolding save_tab save_found
gen-save_tab s id = ground arith

gen-git_replied :
    (s : Tabs) (q : GitQuery) (letters : Option (Dict String)) → Keeps s (git_replied s q letters)
unfolding git_replied
gen-git_replied s q letters = ground arith

gen-lint_replied : (s : Tabs) (l : Lint) (reply : LintReply) → Keeps s (lint_replied s l reply)
unfolding lint_replied
gen-lint_replied s l reply = ground arith

gen-image_replied : (s : Tabs) (r : Read) (reply : Reply) → Keeps s (image_replied s r reply)
unfolding image_replied
gen-image_replied s r reply = ground arith

gen-read_replied : (s : Tabs) (r : Read) (reply : Reply) → Keeps s (read_replied s r reply).0
unfolding read_replied read_failed read_content
gen-read_replied s r reply = ground arith

gen-write_replied :
    (s : Tabs) (w : Write) (reply : Reply) (b : Bool) → Keeps s (write_replied s w reply b).0
unfolding write_replied write_done run_lint refresh_git_status
gen-write_replied s w reply b = ground arith

gen-and_then :
    (s : Tabs) (a : Tabs × List Request) (f : Tabs → Tabs × List Request)
    → Keeps s a.0
    → Keeps a.0 (f a.0).0
    → Keeps s (and_then a f).0
gen-and_then s a f h k = k ∙ h

gen-set_active : (s : Tabs) (id : Option String) → Keeps s (set_active s id).0
unfolding set_active
gen-set_active s id = elim (Bool-cases (is_set id)) [
  | inr e ↦ rw e refl
  | inl e ↦ elim (Option-cases (find_tab (or_else id "") s.tabs)) [
    | inl missing ↦ rw (e, missing) (gen-refresh_git_status s')
    | inr (t, found) ↦ elim (Bool-cases (rechecks t)) [
      | inl again ↦
          rw (e, found, again)
            (gen-and_then s (read_disk s' t.id t.path t.kind false) refresh_git_status
              (gen-read_disk s' t.id t.path t.kind false)
              (gen-refresh_git_status (read_disk s' t.id t.path t.kind false).0))
      | inr shown ↦ rw (e, found, shown) (gen-refresh_git_status s')
    ]
  ]
]
  where
    s' : Tabs
    s' = record s { active = id; notice = none }

gen-add_tab : (s : Tabs) (id path : String) → Keeps s (add_tab s id path).0
unfolding add_tab
gen-add_tab s id path = gen-read_disk _ id path _ false ∙ gen-refresh_git_status _

gen-open_file : (s : Tabs) (id path : String) → Keeps s (open_file s id path).0.0
unfolding open_file
gen-open_file s id path = elim (Bool-cases (is_ready s)) [
  | inr held ↦ rw held refl
  | inl open_ ↦ elim (Option-cases (find (λ t. t.path === path) s.tabs)) [
    | inr (t, found) ↦ rw (open_, found) (gen-set_active s (some t.id))
    | inl new ↦ elim (Bool-cases (leb max_tabs (length s.tabs))) [
      | inr room ↦ rw (open_, new, room) (gen-add_tab s id path)
      | inl full ↦ elim (Option-cases (find (is_victim s.active) s.tabs)) [
        | inl nobody ↦ rw (open_, new, full, nobody) refl
        | inr (victim, found) ↦ rw (open_, new, full, found) (gen-add_tab _ id path)
      ]
    ]
  ]
]

gen-reload_tab : (s : Tabs) (id : String) (agreed : Bool) → Keeps s (reload_tab s id agreed).0
unfolding reload_tab
gen-reload_tab s id agreed = elim (Option-cases (find_tab id s.tabs)) [
  | inl missing ↦ rw (missing, reload_tab) refl
  | inr (t, found) ↦ elim (Bool-cases (not (is_ready s) || (t.dirty && not agreed))) [
    | inl held ↦ rw (found, reload_tab, held) refl
    | inr go ↦ rw (found, reload_tab, go) (gen-read_disk s id t.path t.kind true)
  ]
]

gen-resolve_conflict :
    (s : Tabs) (id : String) (choice : Choice) → Keeps s (resolve_conflict s id choice).0
unfolding resolve_conflict
gen-resolve_conflict s id Choice.keep = refl
gen-resolve_conflict s id Choice.reload = gen-reload_tab s id true

gen-refresh_open_tabs : (s : Tabs) → Keeps s (refresh_open_tabs s).0
unfolding refresh_open_tabs
gen-refresh_open_tabs s = elim (Bool-cases (is_ready s)) [
  | inl e ↦ rw e (gen-read_all _ s)
  | inr e ↦ rw e refl
]

gen-poll : (s : Tabs) → Keeps s (poll s).0
unfolding poll
gen-poll s = elim (Bool-cases (is_ready s)) [
  | inr e ↦ rw e refl
  | inl e ↦ elim (Option-cases (find_tab (or_else s.active "") s.tabs)) [
    | inl missing ↦ rw (e, missing) (gen-refresh_git_status s)
    | inr (t, found) ↦
        elim (Bool-cases
          (is_set s.active && is_code t.kind && not t.truncated && is_polled t.status)) [
            | inl again ↦
                rw (e, found, again)
                  (gen-read_disk (refresh_git_status s).0 t.id t.path t.kind false
                    ∙ gen-refresh_git_status s)
            | inr quiet ↦ rw (e, found, quiet) (gen-refresh_git_status s)
          ]
  ]
]

gen-enter : (s : Tabs) (ws : String) (found : Option Snapshot) → Keeps s (enter s ws found).0
unfolding enter
gen-enter s ws none = refl
gen-enter s ws (some snap) = elim (Bool-cases (is_ready (restored s ws snap))) [
  | inl e ↦ rw e (gen-read_all _ (restored s ws snap))
  | inr e ↦ rw e refl
]

gen-switch_workspace : (s : Tabs) (ws : Option String) → (switch_workspace s ws).0.gen ≡ s.gen + 1
unfolding switch_workspace
gen-switch_workspace s ws = gen-enter (emptied s ws) (or_else ws "") (remembered (emptied s ws) ws)

gen-step : (s : Tabs) (e : Event) → s.gen ≤ (step s e).0.gen
unfolding step
gen-step s (Event.open_path id path) = omega (arith, gen-open_file s id path)
gen-step s (Event.close id agreed) = omega (arith, gen-close_tab s id agreed)
gen-step s (Event.activate id) = omega (arith, gen-set_active s id)
gen-step s (Event.edit id doc) = omega (arith, gen-on_doc_change s id doc)
gen-step s (Event.save id) = omega (arith, gen-save_tab s id)
gen-step s (Event.reload id agreed) = omega (arith, gen-reload_tab s id agreed)
gen-step s (Event.resolve id choice) = omega (arith, gen-resolve_conflict s id choice)
gen-step s Event.refresh_all = omega (arith, gen-refresh_open_tabs s)
gen-step s Event.refresh_git = omega (arith, gen-refresh_git_status s)
gen-step s Event.tick = omega (arith, gen-poll s)
gen-step s (Event.switch ws) = omega (arith, gen-switch_workspace s ws)
gen-step s (Event.set_backend b) = omega arith
gen-step s (Event.read_answer r reply) = omega (arith, gen-read_replied s r reply)
gen-step s (Event.image_answer r reply) = omega (arith, gen-image_replied s r reply)
gen-step s (Event.write_answer w reply b) = omega (arith, gen-write_replied s w reply b)
gen-step s (Event.lint_answer l reply) = omega (arith, gen-lint_replied s l reply)
gen-step s (Event.git_answer q letters) = omega (arith, gen-git_replied s q letters)

gen-step_all : (events : List Event) (s : Tabs) → s.gen ≤ (step_all s events).gen
gen-step_all [] s = omega arith
gen-step_all (e ∷ events) s = omega (arith, gen-step s e, gen-step_all events (step s e).0)

-- The event is an answer to a request of generation `g`, or an older one.
abbrev pub IsAnswerOf : ℕ → Event → Type 0
IsAnswerOf g (Event.read_answer r reply) = r.gen ≤ g
IsAnswerOf g (Event.image_answer r reply) = r.gen ≤ g
IsAnswerOf g (Event.write_answer w reply has_lint) = w.gen ≤ g
IsAnswerOf g (Event.lint_answer l reply) = l.gen ≤ g
IsAnswerOf g (Event.git_answer q letters) = q.gen ≤ g
IsAnswerOf g _ = ⊥

step-late : (t : Tabs) (g : ℕ) (e : Event) → g < t.gen → IsAnswerOf g e → step t e ≡ (t, [])
unfolding step read_replied image_replied write_replied lint_replied git_replied still_valid
step-late t g (Event.read_answer r reply) h old =
    let stale : (r.gen == t.gen) ≡ false = ground arith in rw stale refl
step-late t g (Event.image_answer r reply) h old =
    let stale : (r.gen == t.gen) ≡ false = ground arith in rw stale refl
step-late t g (Event.write_answer w reply has_lint) h old =
    let stale : (w.gen == t.gen) ≡ false = ground arith in rw stale refl
step-late t g (Event.lint_answer l reply) h old =
    let stale : (l.gen == t.gen) ≡ false = ground arith in rw stale refl
step-late t g (Event.git_answer q none) h old = refl
step-late t g (Event.git_answer q (some letters)) h old =
    let stale : (q.gen == t.gen) ≡ false = ground arith in rw stale refl
step-late t g (Event.open_path _ _) h old = elim old [ ]
step-late t g (Event.close _ _) h old = elim old [ ]
step-late t g (Event.activate _) h old = elim old [ ]
step-late t g (Event.edit _ _) h old = elim old [ ]
step-late t g (Event.save _) h old = elim old [ ]
step-late t g (Event.reload _ _) h old = elim old [ ]
step-late t g (Event.resolve _ _) h old = elim old [ ]
step-late t g Event.refresh_all h old = elim old [ ]
step-late t g Event.refresh_git h old = elim old [ ]
step-late t g Event.tick h old = elim old [ ]
step-late t g (Event.switch _) h old = elim old [ ]
step-late t g (Event.set_backend _) h old = elim old [ ]

-- Once the workspace has changed, an answer to a request that was sent before changes nothing and
-- sends nothing, whatever events happened in between.
pub switch_workspace-late :
    (s : Tabs) (ws : Option String) (events : List Event) (e : Event)
    → IsAnswerOf s.gen e
    → step (step_all (switch_workspace s ws).0 events) e
      ≡ (step_all (switch_workspace s ws).0 events, [])
switch_workspace-late s ws events e old =
    let switched = (switch_workspace s ws).0 in
    step-late (step_all switched events) s.gen e
      (omega (arith, gen-step_all events switched, gen-switch_workspace s ws)) old
