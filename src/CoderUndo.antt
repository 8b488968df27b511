-- ===== src/CoderUndo.antt =====
-- hooks/useCoderUndo.ts: the undo of a commit and of a file. What `coderExec` runs for is a function
-- on a world of any type; the answer of `window.confirm` is an input.
pub mod Order
use ninfer_studio.Base.{
  ℕ, Text, units, trim, is_blank, take, ◌==◌, if◌then◌else◌, List, [], ◌∷◌, ◌++◌, Bool, true, false,
}
use ninfer_studio.GitStatus.{Exec, finished, threw, or_text}
use ninfer_studio.GitStatus.Quote.{shell_quote}

-- The commands, with the hash and the path that they are made of.
pub data Command : Type 0 where
  reset_soft : Command
  last_commit discard remove commit : Text → Command
  parent_of : Text → Command
  existed_before checkout_parent : Text → Text → Command

-- What a handler does, in order; `entry` is a call of `addLog`, an error where the flag is set.
pub data Step : Type 0 where
  ran : Command → Exec → Step
  entry : Bool → Text → Step
  loaded_commits refreshed_map refreshed_tabs : Step

-- `q`
unfoldable pub q : Text → Text
unfolding shell_quote
q s = shell_quote s

unfoldable pub shell_of : Command → Text
unfolding units q
shell_of reset_soft = units "git reset --soft HEAD~1"
shell_of (last_commit path) = units "git log -1 --format=%H -- " ++ q path
shell_of (discard path) = units "git checkout -- " ++ q path
shell_of (remove path) = units "git rm -f -- " ++ q path
shell_of (commit path) =
    units "git add -A -- "
    ++ (q path ++ (units " && git commit -m " ++ q (units "undo: revert " ++ path)))
shell_of (parent_of hash) = units "git rev-parse " ++ (hash ++ units "^")
shell_of (existed_before hash path) = units "git cat-file -e " ++ (hash ++ (units "^:" ++ q path))
shell_of (checkout_parent hash path) = units "git checkout " ++ (hash ++ (units "^ -- " ++ q path))

-- `refresh`
abbrev pub refresh : List Step
refresh = loaded_commits ∷ refreshed_map ∷ refreshed_tabs ∷ []

unfoldable pub failure : Text → Text → Text → Text
failure other stdout stderr = take 300 (or_text (or_text stderr stdout) other)

module _ {W : Type 0} (coder_exec : W → Text → Exec × W) where
  -- The answer to a command, and the world behind it.
  abbrev pub ask : W → Command → Exec × W
  ask w c = coder_exec w (shell_of c)

  unfoldable pub after_reset : Exec → List Step
  unfolding units failure
  after_reset (threw message) = entry true message ∷ []
  after_reset (finished code out err) =
      if code == 0 then [] else entry true (failure (units "undo failed") out err) ∷ []

  -- `undoLastCommit`; the commits are their hashes.
  unfoldable pub undo_last_commit : Bool → Text → List Text → Bool → W → List Step
  unfolding after_reset shell_of
  undo_last_commit running dir [] confirmed w = []
  undo_last_commit running dir (top ∷ commits) confirmed w =
      let r = ask w reset_soft in
      if running
      then []
      else if is_blank dir
      then []
      else if confirmed
      then entry false (take 7 top)
        ∷ ran reset_soft r.0
        ∷ (after_reset r.0 ++ (loaded_commits ∷ refreshed_map ∷ []))
      else []

  unfoldable pub after_commit : Text → Exec → List Step
  unfolding units failure
  after_commit path (threw message) = []
  after_commit path (finished code out err) =
      if code == 0
      then entry false (units "reverted last edit to " ++ path) ∷ refresh
      else entry true (failure (units "commit failed") out err) ∷ refresh

  unfoldable pub after_revert : Text → Exec → W → List Step
  unfolding units failure after_commit shell_of
  after_revert path (threw message) w = []
  after_revert path (finished code out err) w =
      let c = ask w (commit path) in
      if code == 0
      then ran (commit path) c.0 ∷ after_commit path c.0
      else entry true (failure (units "undo failed") out err) ∷ []

  -- A file that the commit created is removed.
  unfoldable pub after_existed : Text → Text → Exec → W → List Step
  unfolding after_revert shell_of
  after_existed hash path (threw message) w = []
  after_existed hash path (finished code out err) w =
      let old = ask w (checkout_parent hash path) in
      let gone = ask w (remove path) in
      if code == 0
      then ran (checkout_parent hash path) old.0 ∷ after_revert path old.0 old.1
      else ran (remove path) gone.0 ∷ after_revert path gone.0 gone.1

  unfoldable pub after_parent : Text → Text → Exec → W → List Step
  unfolding units after_existed shell_of
  after_parent hash path (threw message) w = []
  after_parent hash path (finished code out err) w =
      let r = ask w (existed_before hash path) in
      if code == 0
      then ran (existed_before hash path) r.0 ∷ after_existed hash path r.0 r.1
      else entry true
          (units "cannot undo root-commit change to " ++ (path ++ units " (no prior version)"))
        ∷ []

  unfoldable pub after_discard : Text → Exec → List Step
  unfolding units
  after_discard path (threw message) = []
  after_discard path (finished code out err) =
      if code == 0
      then entry false (units "discarded working changes to " ++ path) ∷ refresh
      else entry true (units "no commit and cannot discard changes for " ++ path) ∷ []

  unfoldable pub after_last : Text → Exec → W → List Step
  unfolding after_parent after_discard trim shell_of
  after_last path (threw message) w = []
  after_last path (finished code out err) w =
      let hash = trim out in
      let d = ask w (discard path) in
      let r = ask w (parent_of hash) in
      if is_blank hash
      then ran (discard path) d.0 ∷ after_discard path d.0
      else ran (parent_of hash) r.0 ∷ after_parent hash path r.0 r.1

  -- `undoFileEdit`
  unfoldable pub undo_file_edit : Bool → Text → Bool → W → Text → List Step
  unfolding after_last shell_of
  undo_file_edit running dir confirmed w path =
      let r = ask w (last_commit path) in
      if running
      then []
      else if is_blank dir
      then []
      else if confirmed
      then entry false path ∷ ran (last_commit path) r.0 ∷ after_last path r.0 r.1
      else []
