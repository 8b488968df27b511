-- ===== src/Coder/Store.antt =====
-- apps/web/src/lib/coderStore.ts: the stored conversations, by workspace. A key is a native string;
-- an absent list is the empty one.
pub mod Bounds
pub mod Checkpoints
pub mod Saving
use Prim.Native.Char.{Char, code}
use Prim.Native.String.{String}
use ninfer_studio.Base.{
  ℕ, zero, suc, ◌+◌, Text, units, decimal, ltb, ◌==◌, ◌===◌, Dict, get, put, delete, spread,
  or_else, if◌then◌else◌, length, take_last, List, [], ◌∷◌, ◌++◌, map, Option, none, some, Bool,
  true, false, not, ◌&&◌, ◌||◌,
}
use ninfer_studio.Message.{Message}

-- `LogEntry`, `TodoItem`, `Checkpoint`, `ConvMeta`, `WsData`, `CoderStore`
pub record LogEntry : Type 0 where
  pub id : String
  pub time : ℕ
  pub type : String
  pub label : Text
  pub detail : Option Text
  pub duration_ms : Option ℕ
  pub provider : Option String

pub data TodoStatus : Type 0 where
  pending in_progress completed : TodoStatus

pub record TodoItem : Type 0 where
  pub content : Text
  pub status : TodoStatus

pub record Checkpoint : Type 0 where
  pub id : String
  pub time : ℕ
  pub label : Text
  pub commit : String
  pub message_count : ℕ
  pub ledger_count : ℕ
  pub todos : List TodoItem
  pub auto : Bool

pub record ConvMeta : Type 0 where
  pub worktree : Option String
  pub bound_paths : List String
  pub id : String
  pub title : Text
  pub updated_at : ℕ
  pub messages : List Message
  pub ledger : List LogEntry
  pub todos : List TodoItem
  pub last_prompt_tokens : ℕ
  pub archived : Bool
  pub checkpoints : List Checkpoint

pub record WsData : Type 0 where
  pub expanded : Bool
  pub conversations : Dict ConvMeta
  pub order : List String
  pub active_conv : Option String

pub record CoderStore : Type 0 where
  pub active_ws : String
  pub active_conv : String
  pub workspaces : Dict WsData

-- The last `n` items, where there are more.
abbrev pub capped : {A : Type 0} → ℕ → List A → List A
capped n xs = if ltb n (length xs) then take_last n xs else xs

-- The body of the loops of `pruneStoreForStorage`.
unfoldable pub prune_conversation : Bool → ConvMeta → ConvMeta
prune_conversation is_active conv = record conv {
  ledger = capped (if is_active then 300 else 50) conv.ledger;
  checkpoints = capped (if is_active then 10 else 2) conv.checkpoints;
  messages = (if is_active then conv.messages else capped 60 conv.messages);
}

abbrev pub is_active_conversation : CoderStore → String → String → Bool
is_active_conversation s ws conv = ws === s.active_ws && conv === s.active_conv

abbrev pub prune_entry : CoderStore → String → String × ConvMeta → String × ConvMeta
prune_entry s ws (id, conv) = (id, prune_conversation (is_active_conversation s ws id) conv)

abbrev pub prune_workspace : CoderStore → String × WsData → String × WsData
prune_workspace s (key, ws) =
    (key, record ws { conversations = map (prune_entry s key) ws.conversations })

-- `pruneStoreForStorage`
unfoldable pub prune_store_for_storage : CoderStore → CoderStore
unfolding prune_conversation
prune_store_for_storage s = record s { workspaces = map (prune_workspace s) s.workspaces }

-- What stands behind a prefix.
unfoldable pub behind : String → String → Option String
behind String.[] s = some s
behind (String.◌∷◌ c p) String.[] = none
behind (String.◌∷◌ c p) (String.◌∷◌ d s) = if code c == code d then behind p s else none

-- `replace(/\//g, "\\")`
unfoldable pub backslashed : String → String
backslashed String.[] = String.[]
backslashed (String.◌∷◌ c s) =
    if code c == b'/' then String.◌∷◌ "\\" (backslashed s) else String.◌∷◌ c (backslashed s)

unfoldable pub first_behind : List String → String → Option String
unfolding behind
first_behind [] s = none
first_behind (p ∷ ps) s = elim (behind p s) [ some rest ↦ some rest | none ↦ first_behind ps s ]

abbrev pub unc_path : String → String
unc_path s = String.◌∷◌ "\\" (String.◌∷◌ "\\" (backslashed s))

-- `stripExtPrefix`
unfoldable pub strip_ext_prefix : String → String
unfolding first_behind backslashed
strip_ext_prefix p = elim (first_behind ("\\\\?\\" ∷ "\\\\?/" ∷ "//?/" ∷ []) p) [
  | none ↦ p
  | some rest ↦ elim (first_behind ("UNC\\" ∷ "UNC/" ∷ []) rest) [
    | none ↦ rest
    | some share ↦ unc_path share
  ]
]

-- `todoSystemBlock`
abbrev pub mark_of : TodoStatus → ℕ
mark_of completed = b'x'
mark_of in_progress = b'~'
mark_of pending = b' '

unfoldable pub todo_lines : ℕ → List TodoItem → Text
todo_lines n [] = []
todo_lines n (t ∷ []) = decimal n ++ units ". [" ++ (mark_of t.status ∷ (units "] " ++ t.content))
todo_lines n (t ∷ u ∷ todos) =
    decimal n
    ++ units ". ["
    ++ (mark_of t.status
        ∷ (units "] " ++ t.content ++ units "\n" ++ todo_lines (n + 1) (u ∷ todos)))

abbrev pub no_tasks : Text
no_tasks =
    units
      "(no active tasks — the task list was cleared; do not resume work from an earlier plan unless the user asks or re-adds a task)"

unfoldable pub todo_system_block : List TodoItem → Text
unfolding todo_lines
todo_system_block todos =
    units
      "\n\n# Current task list (live — maintained by todo_write, editable by the user; keep it in sync with your actual progress)\n"
    ++ (elim todos [ [] ↦ no_tasks | ◌∷◌ t ts ↦ todo_lines 1 (t ∷ ts) ])
    ++ units "\n"

abbrev pub first_of : List String → String
first_of [] = ""
first_of (id ∷ ids) = id

abbrev pub first_key : {V : Type 0} → Dict V → String
first_key [] = ""
first_key ((k, v) ∷ m) = k

abbrev pub holds : {V : Type 0} → String → Dict V → Bool
holds k m = elim (get k m) [ none ↦ false | some _ ↦ true ]

-- The conversations of a prefixed entry that its plain twin does not have.
unfoldable pub merge_conversations : WsData → Dict ConvMeta → WsData
merge_conversations merged [] = merged
merge_conversations merged ((cid, conv) ∷ convs) =
    let added = record merged {
      conversations = put cid conv merged.conversations;
      order = merged.order ++ (cid ∷ []);
    } in
    merge_conversations (if holds cid merged.conversations then merged else added) convs

unfoldable pub merge_twin : WsData → WsData → WsData
unfolding merge_conversations
merge_twin twin ws =
    let merged =
      merge_conversations (record twin { expanded = twin.expanded || ws.expanded })
        ws.conversations in
    record merged {
      active_conv = some (
          if not (or_else twin.active_conv "" === "")
            && holds (or_else twin.active_conv "") merged.conversations
          then or_else twin.active_conv ""
          else first_of merged.order);
    }

-- One round of the loop over the entries.
unfoldable pub plain_entry : Dict WsData → String × WsData → Dict WsData
unfolding merge_twin strip_ext_prefix
plain_entry workspaces (key, ws) =
    let plain = strip_ext_prefix key in
    let rest = delete key workspaces in
    if plain === key then workspaces else elim (get plain rest) [
      | none ↦ put plain ws rest
      | some twin ↦ put plain (merge_twin twin ws) rest
    ]

unfoldable pub plain_entries : Dict WsData → Dict WsData → Dict WsData
unfolding plain_entry
plain_entries workspaces [] = workspaces
plain_entries workspaces (e ∷ entries) = plain_entries (plain_entry workspaces e) entries

-- The active conversation of a workspace that is there.
abbrev pub candidate_of : String → WsData → String
candidate_of active ws =
    let own = or_else ws.active_conv "" in
    let candidate = if active === "" then own else active in
    if not (candidate === "") && holds candidate ws.conversations
    then candidate
    else if not (own === "") && holds own ws.conversations
    then own
    else first_of ws.order

abbrev pub at_first : Dict WsData → CoderStore
at_first [] = record { active_ws = ""; active_conv = ""; workspaces = [] }
at_first ((key, ws) ∷ m) = record {
  active_ws = key;
  active_conv = (if key === "" then "" else or_else ws.active_conv (first_of ws.order));
  workspaces = (key, ws) ∷ m;
}

abbrev pub at_active : String → String → WsData → Dict WsData → CoderStore
at_active key active ws workspaces = record {
  active_ws = key;
  active_conv = candidate_of active ws;
  workspaces = put key (record ws { active_conv = some (candidate_of active ws) }) workspaces;
}

-- `normalizeStore`
unfoldable pub normalize_store : CoderStore → CoderStore
unfolding plain_entries strip_ext_prefix
normalize_store s =
    let workspaces = plain_entries s.workspaces s.workspaces in
    let key = strip_ext_prefix s.active_ws in
    if key === "" then at_first workspaces else elim (get key workspaces) [
      | none ↦ at_first workspaces
      | some ws ↦ at_active key s.active_conv ws workspaces
    ]
