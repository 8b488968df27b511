-- ===== src/Observations/Pack/Places.antt =====
-- observationPack.ts, `packForRequest`: the places of the tool messages.
use ninfer_studio.Base.{
  ℕ, zero, suc, ◌<◌, length, drop, filter, get_elem?, List, [], ◌∷◌, some, All, Bool, true, ◌≡◌,
  refl, sym, ap, ◌∙◌, inl, inr, arith, Bool-cases,
}
use ninfer_studio.Message.{Message, is_tool}
use ninfer_studio.Observations.Pack.{tool_indices}

abbrev pub is_tool_message : Message → Bool
is_tool_message m = is_tool m.role

-- How many tool messages stand behind place `i`.
abbrev pub later : List Message → ℕ → ℕ
later ms i = length (filter is_tool_message (drop (suc i) ms))

length-tool_indices :
    (i : ℕ) (ms : List Message) → length (tool_indices i ms) ≡ length (filter is_tool_message ms)
unfolding tool_indices
length-tool_indices i [] = refl
length-tool_indices i (m ∷ ms) = ground (arith, length-tool_indices (suc i) ms)

drop-next :
    (ms rest : List Message) (m : Message) (k : ℕ)
    → drop k ms ≡ m ∷ rest
    → (get_elem? ms k ≡ some m) × (drop (suc k) ms ≡ rest)
drop-next [] rest m zero e = absurd (cc e)
drop-next [] rest m (suc k) e = absurd (cc e)
drop-next (x ∷ ms) rest m zero e = (cc e, cc e)
drop-next (x ∷ ms) rest m (suc k) e = drop-next ms rest m k e

abbrev pub Above : ℕ → List ℕ → Type 0
Above i places = All (λ j. i < j) places

Above-tool_indices : (i k : ℕ) (ms : List Message) → i < k → Above i (tool_indices k ms)
unfolding tool_indices
Above-tool_indices i k [] h = tt
Above-tool_indices i k (m ∷ ms) h = elim (Bool-cases (is_tool m.role)) [
  | inl e ↦ rw e (h, Above-tool_indices i (suc k) ms (omega (arith, h)))
  | inr e ↦ rw e (Above-tool_indices i (suc k) ms (omega (arith, h)))
]

-- A tool message at the place, with so many behind it.
pub record IsPlace (ms : List Message) (i n : ℕ) : Type 0 where
  pub message : Message
  pub found : get_elem? ms i ≡ some message
  pub tool : is_tool message.role ≡ true
  pub enough : later ms i ≡ n

abbrev pub Places : List Message → List ℕ → Type 0
Places ms [] = Unit
Places ms (i ∷ places) = IsPlace ms i (length places) × Above i places × Places ms places

pub tool_indices-Places :
    (ms rest : List Message) (k : ℕ) → drop k ms ≡ rest → Places ms (tool_indices k rest)
unfolding tool_indices
tool_indices-Places ms [] k e = tt
tool_indices-Places ms (m ∷ rest) k e =
    let (found, next) = drop-next ms rest m k e in
    let others = tool_indices-Places ms rest (suc k) next in
    elim (Bool-cases (is_tool m.role)) [
      | inl t ↦ rw t (
        record {
          message = m;
          found = found;
          tool = t;
          enough =
              ap (λ (xs : List Message). length (filter is_tool_message xs)) next
              ∙ sym (length-tool_indices (suc k) rest);
        },
        Above-tool_indices k (suc k) rest (omega arith),
        others,
      )
      | inr f ↦ rw f others
    ]
