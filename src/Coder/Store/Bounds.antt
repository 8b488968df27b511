-- ===== src/Coder/Store/Bounds.antt =====
-- coderStore.ts: the sizes of what is stored, and the workspace that is open after a load.
use Prim.Native.String.{String}
use ninfer_studio.Base.{
  ℕ, ◌-◌, ◌≤◌, ltb, ◌===◌, ===_refl, Dict, get, put, get-put, if◌then◌else◌, length, length-drop,
  List, [], ◌∷◌, map, All, Option, none, some, Bool, true, false, ◌≡◌, ◌⊎◌, refl, ap, ◌∙◌, arith,
  Bool-cases, Option-cases, inl, inr,
}
use ninfer_studio.Coder.Store.{
  ConvMeta, WsData, CoderStore, capped, prune_conversation, is_active_conversation, prune_entry,
  prune_workspace, prune_store_for_storage, strip_ext_prefix, plain_entries, at_first, at_active,
  candidate_of, holds, normalize_store,
}

length-capped : {A : Type 0} (n : ℕ) (xs : List A) → length (capped n xs) ≤ n
length-capped n xs = elim (Bool-cases (ltb n (length xs))) [
  | inl e ↦ rw e (let short = length-drop (length xs - n) xs in omega arith)
  | inr e ↦ rw e (ground arith)
]

-- A conversation is small enough to be stored.
abbrev pub IsSmall : Bool → ConvMeta → Type 0
IsSmall is_active conv =
    (length conv.ledger ≤ (if is_active then 300 else 50))
    × (length conv.checkpoints ≤ (if is_active then 10 else 2))
    × ((is_active ≡ true) ⊎ (length conv.messages ≤ 60))

prune_conversation-IsSmall : (b : Bool) (conv : ConvMeta) → IsSmall b (prune_conversation b conv)
unfolding prune_conversation
prune_conversation-IsSmall true conv =
    (length-capped 300 conv.ledger, length-capped 10 conv.checkpoints, inl refl)
prune_conversation-IsSmall false conv = (
  length-capped 50 conv.ledger,
  length-capped 2 conv.checkpoints,
  inr (length-capped 60 conv.messages),
)

abbrev pub IsSmallEntry : CoderStore → String → String × ConvMeta → Type 0
IsSmallEntry s ws e = IsSmall (is_active_conversation s ws e.0) e.1

abbrev pub IsSmallWorkspace : CoderStore → String × WsData → Type 0
IsSmallWorkspace s e = All (IsSmallEntry s e.0) e.1.conversations

prune_entries-IsSmall :
    (s : CoderStore) (ws : String) (convs : Dict ConvMeta)
    → All (IsSmallEntry s ws) (map (prune_entry s ws) convs)
prune_entries-IsSmall s ws [] = tt
prune_entries-IsSmall s ws ((id, conv) ∷ convs) = (
  prune_conversation-IsSmall (is_active_conversation s ws id) conv,
  prune_entries-IsSmall s ws convs,
)

prune_workspaces-IsSmall :
    (s : CoderStore) (m : Dict WsData) → All (IsSmallWorkspace s) (map (prune_workspace s) m)
prune_workspaces-IsSmall s [] = tt
prune_workspaces-IsSmall s ((key, ws) ∷ m) =
    (prune_entries-IsSmall s key ws.conversations, prune_workspaces-IsSmall s m)

-- After pruning, the active conversation has at most 300 ledger entries and 10 checkpoints, and
-- every other one at most 50 ledger entries, 2 checkpoints and 60 messages.
pub prune_store_for_storage-IsSmallWorkspace :
    (s : CoderStore)
    → All (IsSmallWorkspace (prune_store_for_storage s)) (prune_store_for_storage s).workspaces
unfolding prune_store_for_storage
prune_store_for_storage-IsSmallWorkspace s = prune_workspaces-IsSmall s s.workspaces

-- The workspace that is named as open is there, or the store has none.
abbrev pub IsOpen : CoderStore → Type 0
IsOpen s = (s.workspaces ≡ []) ⊎ (holds s.active_ws s.workspaces ≡ true)

holds-get : (k : String) (m : Dict WsData) (ws : WsData) → get k m ≡ some ws → holds k m ≡ true
holds-get k m ws e = ap (λ (o : Option WsData). elim o [ none ↦ false | some _ ↦ true ]) e

get-cons : (k : String) (ws : WsData) (m : Dict WsData) → get k ((k, ws) ∷ m) ≡ some ws
unfolding get
get-cons k ws m = rw (===_refl k) refl

get-put_self : (k : String) (ws : WsData) (m : Dict WsData) → get k (put k ws m) ≡ some ws
get-put_self k ws m = get-put k k ws m ∙ rw (===_refl k) refl

at_first-IsOpen : (m : Dict WsData) → IsOpen (at_first m)
at_first-IsOpen [] = inl refl
at_first-IsOpen ((key, ws) ∷ m) = inr (holds-get key ((key, ws) ∷ m) ws (get-cons key ws m))

at_active-IsOpen :
    (key active : String) (ws : WsData) (m : Dict WsData) → IsOpen (at_active key active ws m)
at_active-IsOpen key active ws m =
    let chosen = record ws { active_conv = some (candidate_of active ws) } in
    inr (holds-get key (put key chosen m) chosen (get-put_self key chosen m))

-- A store that is loaded opens a workspace that it has, where it has any.
pub normalize_store-IsOpen : (s : CoderStore) → IsOpen (normalize_store s)
unfolding normalize_store
normalize_store-IsOpen s = elim (Bool-cases (key === "")) [
  | inl e ↦ rw e (at_first-IsOpen workspaces)
  | inr e ↦ elim (Option-cases (get key workspaces)) [
    | inl missing ↦ rw (e, missing) (at_first-IsOpen workspaces)
    | inr (ws, found) ↦ rw (e, found) (at_active-IsOpen key s.active_conv ws workspaces)
  ]
]
  where
    key : String
    key = strip_ext_prefix s.active_ws

    workspaces : Dict WsData
    workspaces = plain_entries s.workspaces s.workspaces
