-- ===== src/Tabs/Valid/Reach.antt =====
-- tabModel.ts: the invariant and the runs of the hook.
use ninfer_studio.Tabs.State.{Tabs}
use ninfer_studio.Tabs.Step.{Event, step, IsAllowed, Run, here, next, start}
use ninfer_studio.Tabs.Valid.{IsValid}
use ninfer_studio.Tabs.Valid.Disk.{
  read_replied-IsValid, image_replied-IsValid, refresh_git_status-IsValid, git_replied-IsValid,
}
use ninfer_studio.Tabs.Valid.Save.{save_tab-IsValid, write_replied-IsValid, lint_replied-IsValid}
use ninfer_studio.Tabs.Valid.Actions.{
  set_active-IsValid, open_file-IsValid, reload_tab-IsValid, resolve_conflict-IsValid,
  refresh_open_tabs-IsValid, poll-IsValid,
}
use ninfer_studio.Tabs.Valid.Edit.{close_tab-IsValid, on_doc_change-IsValid}
use ninfer_studio.Tabs.Valid.Workspace.{switch_workspace-IsValid}

-- Every event that is allowed keeps the state valid: the tabs' ids are distinct, every tab has a
-- live text, and a tab whose live text differs from the last known text on disk is marked dirty or
-- is read-only; and all that holds in the remembered workspaces.
step-IsValid : (s : Tabs) (e : Event) → IsAllowed s e → IsValid s → IsValid (step s e).0
unfolding step
step-IsValid s (Event.open_path id path) (new, room) v = open_file-IsValid s id path new room v
step-IsValid s (Event.close id agreed) _ v = close_tab-IsValid s id agreed v
step-IsValid s (Event.activate id) _ v = set_active-IsValid s id v
step-IsValid s (Event.edit id doc) _ v = on_doc_change-IsValid s id doc v
step-IsValid s (Event.save id) _ v = save_tab-IsValid s id v
step-IsValid s (Event.reload id agreed) _ v = reload_tab-IsValid s id agreed v
step-IsValid s (Event.resolve id choice) _ v = resolve_conflict-IsValid s id choice v
step-IsValid s Event.refresh_all _ v = refresh_open_tabs-IsValid s v
step-IsValid s Event.refresh_git _ v = refresh_git_status-IsValid s v
step-IsValid s Event.tick _ v = poll-IsValid s v
step-IsValid s (Event.switch ws) _ v = switch_workspace-IsValid s ws v
step-IsValid s (Event.set_backend b) _ v = record { current = v.current; stored = v.stored }
step-IsValid s (Event.read_answer r reply) _ v = read_replied-IsValid s r reply v
step-IsValid s (Event.image_answer r reply) _ v = image_replied-IsValid s r reply v
step-IsValid s (Event.write_answer w reply has_lint) _ v =
    write_replied-IsValid s w reply has_lint v
step-IsValid s (Event.lint_answer l reply) _ v = lint_replied-IsValid s l reply v
step-IsValid s (Event.git_answer q letters) _ v = git_replied-IsValid s q letters v

start-IsValid : IsValid start
start-IsValid = record { current = record { distinct = tt; synced = tt }; stored = tt }

Run-IsValid : {s t : Tabs} → Run s t → IsValid s → IsValid t
Run-IsValid here v = v
Run-IsValid (next r e allowed) v = step-IsValid _ e allowed (Run-IsValid r v)

-- Every state that a run from the first render reaches is valid, where each opened path brings a new
-- id and is opened below the tab cap.
pub reachable-IsValid : (s : Tabs) → Run start s → IsValid s
reachable-IsValid s r = Run-IsValid r start-IsValid
