-- ===== src/Tests/Checkpoints.antt =====
-- useCoderCheckpoints.ts on a conversation with five automatic checkpoints and one that was asked for.
use Prim.Native.String.{String}
use ninfer_studio.Base.{◌≤◌, length, List, [], ◌∷◌, Bool, true, false, ◌≡◌, refl}
use ninfer_studio.Coder.Store.{Checkpoint}
use ninfer_studio.Coder.Store.Checkpoints.{max_auto_checkpoints, with_checkpoint, is_commit}
use ninfer_studio.Coder.Store.Checkpoints.Capped.{autos, with_checkpoint-auto_cap}

abbrev saved : String → Bool → Checkpoint
saved name is_auto = record {
  id = name;
  time = 0;
  label = [];
  commit = "";
  message_count = 0;
  ledger_count = 0;
  todos = [];
  auto = is_auto;
}

abbrev history : List Checkpoint
history =
    saved "a" true
    ∷ saved "b" false
    ∷ saved "c" true
    ∷ saved "d" true
    ∷ saved "e" true
    ∷ saved "f" true
    ∷ []

with_checkpoint-auto_cap_example :
    length (autos (with_checkpoint history (saved "g" true))) ≤ max_auto_checkpoints
with_checkpoint-auto_cap_example = with_checkpoint-auto_cap history (saved "g" true) refl

sixth_run :
    with_checkpoint history (saved "g" true)
    ≡ saved "b" false
      ∷ saved "c" true
      ∷ saved "d" true
      ∷ saved "e" true
      ∷ saved "f" true
      ∷ saved "g" true
      ∷ []
unfolding with_checkpoint
sixth_run = refl

commit_run : is_commit "0aF93" ≡ true
unfolding is_commit
commit_run = refl

no_commit_run : is_commit "0aF9" ≡ false
unfolding is_commit
no_commit_run = refl
