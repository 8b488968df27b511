-- ===== src/Tests/Coder.antt =====
-- coderTools.ts on concrete commands and tool names.
use ninfer_studio.Base.{
  Bool, trim, none, All, replicate, units, text_eq, is_blank, is_space, starts_with, [], ◌∷◌, ◌++◌,
  some, true, false, ◌≡◌, refl,
}
use ninfer_studio.Coder.Commands.{
  words, composes, is_read_only_command, is_read_only_command-git_log_output,
}
use ninfer_studio.Coder.Approved.{
  normalize_command, spaced, is_approved_command, is_approved_command-followed,
}
use ninfer_studio.Coder.Store.{ConvMeta, CoderStore, prune_store_for_storage}
use ninfer_studio.Coder.Store.Bounds.{IsSmallWorkspace, prune_store_for_storage-IsSmallWorkspace}
use ninfer_studio.Message.{user, plain}
use ninfer_studio.Coder.Store.Saving.{Saving}
use ninfer_studio.Coder.Tools.{
  ask, deny, Perms, row, mcp_name, tier_reason, denied, check_computer_use_perm,
  check_computer_use_perm-server,
}
use ninfer_studio.Coder.Tools.Denied.{is_denied, check_computer_use_perm-under_denied}

is_read_only_command-git_log_output_example :
    is_read_only_command (units "git log --output=" ++ units "src/main.ts") ≡ true
unfolding units is_space composes
is_read_only_command-git_log_output_example =
    is_read_only_command-git_log_output (units "src/main.ts") refl

-- The server `files` is denied, and one folder is.
abbrev perms : Perms
perms = record {
  tools = (units "mcp__files", some deny) ∷ (units "bash", some ask) ∷ [];
  deny_paths = units "/etc/" ∷ [];
}

check_computer_use_perm-server_example :
    check_computer_use_perm perms (mcp_name (units "files") (units "read")) (units "/home/x")
    ≡ denied (tier_reason (mcp_name (units "files") (units "read")))
unfolding units row text_eq
check_computer_use_perm-server_example =
    check_computer_use_perm-server perms (units "files") (units "read") (units "/home/x") refl refl
      refl refl refl

-- A long conversation in a workspace of a prefixed path.
abbrev talk : ConvMeta
talk = record {
  worktree = none;
  bound_paths = [];
  id = "v1";
  title = units "New conversation";
  updated_at = 0;
  messages = replicate 100 (plain user (units "hi"));
  ledger = [];
  todos = [];
  last_prompt_tokens = 0;
  archived = false;
  checkpoints = [];
}

abbrev stored : CoderStore
stored = record {
  active_ws = "C:/tmp";
  active_conv = "";
  workspaces =
      (
        "//?/C:/tmp",
        record {
          expanded = true;
          conversations = ("v1", talk) ∷ [];
          order = "v1" ∷ [];
          active_conv = none;
        },
      )
      ∷ [];
}

prune_store_for_storage-IsSmallWorkspace_example :
    All
      (IsSmallWorkspace (prune_store_for_storage stored))
      (prune_store_for_storage stored).workspaces
prune_store_for_storage-IsSmallWorkspace_example = prune_store_for_storage-IsSmallWorkspace stored

-- Two stores are asked for, and the timer fires between them.
abbrev emptied : CoderStore
emptied = record { active_ws = ""; active_conv = ""; workspaces = [] }

abbrev saving : Saving
saving = record { pending = none; timer = false; disk = none }

-- Only the store without workspaces fits.
abbrev fits : CoderStore → Bool
fits s = is_blank s.workspaces

is_approved_command-followed_example :
    is_approved_command
      (units "npm test" ++ (32 ∷ units "; rm -rf ~"))
      (units "ls" ∷ units "npm  test" ∷ [])
    ≡ true
unfolding units words is_approved_command normalize_command spaced starts_with text_eq
is_approved_command-followed_example =
    is_approved_command-followed (units "npm test") (units "; rm -rf ~")
      (units "ls" ∷ units "npm  test" ∷ []) refl refl

check_computer_use_perm-under_denied_example :
    (is_denied (check_computer_use_perm perms (units "read") (units "/et" ++ (b'c' ∷ []))) ≡ true)
    × (is_denied (
          check_computer_use_perm perms
            (units "read")
            ((units "/et" ++ (b'c' ∷ [])) ++ (b'/' ∷ units "passwd")))
        ≡ true)
unfolding units trim
check_computer_use_perm-under_denied_example =
    check_computer_use_perm-under_denied perms (units "read") (units "/etc/") (units "/et")
      (units "passwd") b'c' 1 [] [] refl refl refl
