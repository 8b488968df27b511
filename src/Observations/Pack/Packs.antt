-- ===== src/Observations/Pack/Packs.antt =====
-- observationPack.ts, `packForRequest`: which messages it changes, and how.
use ninfer_studio.Base.{
  ℕ, ◌≤◌, ◌<◌, leb, Text, get_elem?, List, [], ◌∷◌, Option, none, some, All, Bool, true, false, ◌≡◌,
  ◌⊎◌,
}
use ninfer_studio.Message.{Message, is_tool}
use ninfer_studio.Observations.Excerpt.{byte_length}
use ninfer_studio.Observations.Pack.Places.{later, Above, Places}
use ninfer_studio.Observations.Pack.{
  Packable, Outcome, sent, rejected, Passed, cached, with_content, pack_threshold_bytes,
  pack_full_sends, packed_content,
}

module _ (extract : Message → Option Packable) (hash : Text → Text) (stores : Text → Text → Bool)
    (ms : List Message) (cache : List (Text × Text)) where
  -- A text that was decided on before, or the placeholder of a large one.
  abbrev pub IsFrom : Message → Text → Type 0
  IsFrom m c =
      (cached m.content cache ≡ some c)
      ⊎ ((p : Packable) × (extract m ≡ some p)
          × (leb (byte_length p.text) pack_threshold_bytes ≡ false)
          × (c ≡ packed_content extract hash stores m p))

  -- The message at place `i` is sent as it is, or it is a tool message with at least two behind it
  -- and has another content.
  abbrev pub IsPacked : ℕ → Message → Message → Type 0
  IsPacked i m n =
      (n ≡ m)
      ⊎ ((c : Text) × (is_tool m.role ≡ true)
          × (pack_full_sends ≤ later ms i)
          × (n ≡ with_content c m)
          × IsFrom m c)

  abbrev pub At : ℕ → Option Message → Option Message → Type 0
  At i none none = Unit
  At i (some m) (some n) = IsPacked i m n
  At i none (some _) = ⊥
  At i (some _) none = ⊥

  -- At every place.
  abbrev pub Packs : List Message → Type 0
  Packs out = (i : ℕ) → At i (get_elem? ms i) (get_elem? out i)

  abbrev AboveAll : ℕ → List (ℕ × Packable) → Type 0
  AboveAll i es = All (λ (e : ℕ × Packable). i < e.0) es

  -- A large tool message that was not changed so far, with at least two behind it.
  record IsEligible (out : List Message) (i : ℕ) (p : Packable) : Type 0 where
    message : Message
    given : get_elem? ms i ≡ some message
    unchanged : get_elem? out i ≡ some message
    tool : is_tool message.role ≡ true
    enough : pack_full_sends ≤ later ms i
    packable : extract message ≡ some p
    large : leb (byte_length p.text) pack_threshold_bytes ≡ false

  abbrev Eligible : List Message → List (ℕ × Packable) → Type 0
  Eligible out [] = Unit
  Eligible out ((i, p) ∷ es) = IsEligible out i p × AboveAll i es × Eligible out es

  -- What the first pass over `places` makes of `out`.
  record Fine (places : List ℕ) (out : List Message) (r : Passed) : Type 0 where
    packs : Packs r.out
    eligible : Eligible r.out r.eligible
    kept : (j : ℕ) → Above j places → get_elem? r.out j ≡ get_elem? out j
    above : (j : ℕ) → Above j places → AboveAll j r.eligible

  abbrev Same : List Message → List ℕ → Type 0
  Same out places = All (λ j. get_elem? out j ≡ get_elem? ms j) places

  -- What is sent packs the messages, or the database did not take a text.
  abbrev pub Sends : Outcome → Type 0
  Sends (sent out mem) = Packs out
  Sends (rejected mem) = (id : Text) × (text : Text) × (stores id text ≡ false)
