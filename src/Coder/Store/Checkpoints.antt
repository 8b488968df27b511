-- ===== src/Coder/Store/Checkpoints.antt =====
-- hooks/useCoderCheckpoints.ts: what a checkpoint does to the stored conversation. The checkpoint is
-- an input, with the id and the commit that it has; so are the times and what `coderExec` returns.
pub mod Capped
use Prim.Native.Char.{Char, code}
use Prim.Native.String.{String}
use ninfer_studio.Base.{
  ℕ, zero, suc, ◌+◌, ◌-◌, ◌≤◌, Text, ltb, leb, ◌==◌, ◌===◌, get, put, if◌then◌else◌, length, take,
  drop, List, [], ◌∷◌, ◌++◌, map, filter, any, Option, none, some, Bool, true, false, not, ◌&&◌,
  ◌||◌,
}
use ninfer_studio.Message.{Message}
use ninfer_studio.GitStatus.{Exec, finished, threw}
use ninfer_studio.Coder.Store.{Checkpoint, ConvMeta, WsData, CoderStore, LogEntry, TodoItem}

abbrev pub max_auto_checkpoints : ℕ
max_auto_checkpoints = 5

-- The items that `drop`, the set of ids of the oldest automatic ones, does not hold.
abbrev pub is_dropped : List Checkpoint → Checkpoint → Bool
is_dropped old c = any (λ o. o.id === c.id) old

-- The oldest automatic checkpoints, where there are too many.
abbrev pub too_old : List Checkpoint → List Checkpoint
too_old cs =
    take (length (filter (λ c. c.auto) cs) - max_auto_checkpoints) (filter (λ c. c.auto) cs)

-- The list that `createCheckpoint` stores.
unfoldable pub with_checkpoint : List Checkpoint → Checkpoint → List Checkpoint
with_checkpoint cs cp =
    let list = cs ++ (cp ∷ []) in
    if cp.auto && ltb max_auto_checkpoints (length (filter (λ c. c.auto) list))
    then filter (λ c. not (is_dropped (too_old list) c)) list
    else list

-- A change of one conversation; without the workspace or the conversation, nothing changes.
unfoldable pub change_conversation :
    String → String → (ConvMeta → ConvMeta) → CoderStore → CoderStore
change_conversation ws conv f s = elim (get ws s.workspaces) [
  | none ↦ s
  | some wsd ↦ elim (get conv wsd.conversations) [
    | none ↦ s
    | some meta ↦ record s {
      workspaces =
          put ws (record wsd { conversations = put conv (f meta) wsd.conversations }) s.workspaces;
    }
  ]
]

-- The updates of the store by `createCheckpoint` and `deleteCheckpoint`.
unfoldable pub create_checkpoint : String → String → Checkpoint → CoderStore → CoderStore
unfolding change_conversation with_checkpoint
create_checkpoint ws conv cp s =
    if ws === "" || conv === ""
    then s
    else change_conversation ws conv
        (λ m. record m { checkpoints = with_checkpoint m.checkpoints cp }) s

unfoldable pub delete_checkpoint : String → String → String → CoderStore → CoderStore
unfolding change_conversation
delete_checkpoint ws conv id s =
    if ws === "" || conv === ""
    then s
    else change_conversation ws conv
        (λ m. record m { checkpoints = filter (λ c. not (c.id === id)) m.checkpoints }) s

-- `/^[0-9a-f]{5,40}$/i`
unfoldable pub is_commit_digit : ℕ → Bool
is_commit_digit c = (leb 48 c && leb c 57) || (leb 65 c && leb c 70) || (leb 97 c && leb c 102)

unfoldable pub hex_digits : String → Option ℕ
unfolding is_commit_digit
hex_digits String.[] = some 0
hex_digits (String.◌∷◌ c s) =
    let rest : Option ℕ = elim (hex_digits s) [ none ↦ none | some n ↦ some (suc n) ] in
    if is_commit_digit (code c) then rest else none

unfoldable pub is_commit : String → Bool
unfolding hex_digits
is_commit s = elim (hex_digits s) [ none ↦ false | some n ↦ leb 5 n && leb n 40 ]

-- What `restoreCheckpoint` sets.
pub record Restored : Type 0 where
  pub messages : List Message
  pub todos : List TodoItem
  pub ledger : List LogEntry
  pub store : CoderStore
  pub reset_failed : Bool

abbrev pub after_restore :
    String
    → String
    → Checkpoint
    → LogEntry
    → ℕ
    → List Message
    → List LogEntry
    → CoderStore
    → Bool
    → Restored
after_restore ws conv cp entry now messages ledger s failed = record {
  messages = take cp.message_count messages;
  todos = cp.todos;
  ledger = take cp.ledger_count ledger ++ (entry ∷ []);
  store =
      change_conversation ws conv
        (λ m. record m {
          messages = take cp.message_count messages;
          todos = cp.todos;
          updated_at = now;
        })
        s;
  reset_failed = failed;
}

abbrev pub reset_failed_of : Exec → Option Bool
reset_failed_of (threw message) = none
reset_failed_of (finished exit out err) = some (not (exit == 0))

-- `restoreCheckpoint`; `none` where it leaves early or throws.
unfoldable pub restore_checkpoint :
    Bool
    → String
    → String
    → Checkpoint
    → Bool
    → Exec
    → LogEntry
    → ℕ
    → List Message
    → List LogEntry
    → CoderStore
    → Option Restored
unfolding is_commit change_conversation
restore_checkpoint running ws conv cp confirmed reset entry now messages ledger s =
    if running || ws === "" || conv === "" || not confirmed
    then none
    else if cp.commit === ""
    then some (after_restore ws conv cp entry now messages ledger s false)
    else if is_commit cp.commit
    then elim (reset_failed_of reset) [
      | none ↦ none
      | some failed ↦ some (after_restore ws conv cp entry now messages ledger s failed)
    ]
    else none
