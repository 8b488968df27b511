-- ===== src/Agent/Compact.antt =====
-- agentLoop.ts, `isCompactedMsg` and `compactedContext`.
use ninfer_studio.Base.{
  units, trim_start, starts_with, if◌then◌else◌, List, [], ◌∷◌, ◌++◌, Option, none, some, or_else,
  Bool, true, false, ◌&&◌, ◌||◌, any, ◌≡◌, refl, ap, ◌∙◌, Bool-cases, Option-cases, inl, inr,
}
use ninfer_studio.Message.{Message, is_user}
use ninfer_studio.Chat.Sanitize.{id_is}

unfoldable pub is_compacted_msg : Message → Bool
unfolding trim_start starts_with units
is_compacted_msg m =
    if id_is m.display_name "Compaction Summary"
    then true
    else is_user m.role
      && (starts_with (units "<compacted-summary>") (trim_start m.content)
          || starts_with (units "This is an automatically generated checkpoint")
              (trim_start m.content))

-- The loop from the end: the slice from the last checkpoint on.
unfoldable pub from_checkpoint : List Message → Option (List Message)
from_checkpoint [] = none
from_checkpoint (m ∷ rest) = elim (from_checkpoint rest) [
  | some slice ↦ some slice
  | none ↦ if is_compacted_msg m then some (m ∷ rest) else none
]

unfoldable pub compacted_context : List Message → List Message
unfolding from_checkpoint
compacted_context msgs = or_else (from_checkpoint msgs) msgs

from_checkpoint-none :
    (msgs : List Message) → from_checkpoint msgs ≡ none → any is_compacted_msg msgs ≡ false
unfolding from_checkpoint
from_checkpoint-none [] h = refl
from_checkpoint-none (m ∷ rest) h = elim (Option-cases (from_checkpoint rest)) [
  | inl e ↦ elim (Bool-cases (is_compacted_msg m)) [
    | inl c ↦ absurd (cc (rw (e, c) at h))
    | inr c ↦ rw c (from_checkpoint-none rest e)
  ]
  | inr (slice, e) ↦ absurd (cc (rw e at h))
]

-- What a slice from the last checkpoint is.
abbrev pub IsLastCheckpoint : List Message → List Message → Type 0
IsLastCheckpoint msgs slice =
    (before : List Message) × (m : Message) × (rest : List Message) × (msgs ≡ before ++ (m ∷ rest))
    × (slice ≡ m ∷ rest)
    × (is_compacted_msg m ≡ true)
    × (any is_compacted_msg rest ≡ false)

from_checkpoint-some :
    (msgs slice : List Message) → from_checkpoint msgs ≡ some slice → IsLastCheckpoint msgs slice
unfolding from_checkpoint
from_checkpoint-some [] slice h = absurd (cc h)
from_checkpoint-some (m ∷ rest) slice h = elim (Option-cases (from_checkpoint rest)) [
  | inr (found, e) ↦
      let (before, k, behind, split, same, c, last) =
        from_checkpoint-some rest slice (e ∙ (rw e at h)) in
      (m ∷ before, k, behind, ap (m ∷◌) split, same, c, last)
  | inl e ↦ elim (Bool-cases (is_compacted_msg m)) [
    | inl c ↦
        let it : some (m ∷ rest) ≡ some slice = rw (e, c) at h in
        ([], m, rest, refl, cc it, c, from_checkpoint-none rest e)
    | inr c ↦ absurd (cc (rw (e, c) at h))
  ]
]

-- Where a checkpoint is in the transcript, the context is the part from the last checkpoint on.
pub compacted_context-last :
    (msgs : List Message)
    → any is_compacted_msg msgs ≡ true
    → IsLastCheckpoint msgs (compacted_context msgs)
unfolding compacted_context
compacted_context-last msgs h = elim (Option-cases (from_checkpoint msgs)) [
  | inl e ↦ absurd (cc (from_checkpoint-none msgs e, h))
  | inr (slice, e) ↦ rw e (from_checkpoint-some msgs slice e)
]
