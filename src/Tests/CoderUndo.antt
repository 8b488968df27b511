-- ===== src/Tests/CoderUndo.antt =====
-- useCoderUndo.ts with answers that are given in order.
use ninfer_studio.Base.{Text, units, List, [], ◌∷◌, true, false, ◌≡◌, refl}
use ninfer_studio.GitStatus.{Exec, finished, threw}
use ninfer_studio.CoderUndo.{
  last_commit, ran, entry, loaded_commits, refreshed_map, commit, parent_of, checkout_parent,
  existed_before, shell_of, undo_file_edit, undo_last_commit, reset_soft,
}
use ninfer_studio.CoderUndo.Order.{is_sound, undo_file_edit-is_sound}

abbrev answer_next : List Exec → Text → Exec × List Exec
answer_next [] cmd = (threw (units "offline"), [])
answer_next (r ∷ rs) cmd = (r, rs)

abbrev ok : Exec
ok = finished 0 [] []

-- A file that the last commit created.
abbrev created : List Exec
created = finished 0 (units "a1\n") [] ∷ ok ∷ finished 128 [] (units "fatal") ∷ ok ∷ ok ∷ []

undo_file_edit-is_sound_example :
    is_sound (undo_file_edit answer_next false (units "/w") true created (units "a.ts")) ≡ true
undo_file_edit-is_sound_example =
    undo_file_edit-is_sound answer_next false (units "/w") true created (units "a.ts")

-- The connection fails behind the checkout: no entry is made and nothing is read again.
abbrev cut : List Exec
cut = finished 0 (units "a1\n") [] ∷ ok ∷ ok ∷ ok ∷ []

cut_run :
    undo_file_edit answer_next false (units "/w") true cut (units "a.ts")
    ≡ entry false (units "a.ts")
      ∷ ran (last_commit (units "a.ts")) (finished 0 (units "a1\n") [])
      ∷ ran (parent_of (units "a1")) ok
      ∷ ran (existed_before (units "a1") (units "a.ts")) ok
      ∷ ran (checkout_parent (units "a1") (units "a.ts")) ok
      ∷ ran (commit (units "a.ts")) (threw (units "offline"))
      ∷ []
unfolding undo_file_edit units
cut_run = refl

commit_text :
    shell_of (commit (units "a'b"))
    ≡ units "git add -A -- 'a'\\''b' && git commit -m 'undo: revert a'\\''b'"
unfolding shell_of units
commit_text = refl

reset_run :
    undo_last_commit answer_next false (units "/w") (units "0123456789" ∷ []) true (ok ∷ [])
    ≡ entry false (units "0123456") ∷ ran reset_soft ok ∷ loaded_commits ∷ refreshed_map ∷ []
unfolding undo_last_commit units
reset_run = refl
