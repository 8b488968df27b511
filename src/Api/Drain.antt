-- ===== src/Api/Drain.antt =====
-- The inner loop of the reader, in api/chat.ts, api/responses.ts and agentRuns.ts: the complete
-- pieces of the buffer are cut off one by one.
use Prim.Native.Nat.{◌≤◌}
use ninfer_studio.Base.{
  ℕ, zero, suc, Text, length, List, [], ◌∷◌, ◌++◌, Option, none, some, Option-cases, ◌≡◌, refl, sym,
  ap, ◌∙◌, inl, inr, arith,
}
use ninfer_studio.Api.Splitter.{Splitter}

follow : (Text → List Text × Text) → Text → Option (Text × Text) → List Text × Text
follow rest buf none = ([], buf)
follow rest buf (some (l, r)) = (l ∷ (rest r).0, (rest r).1)

module _ (sep : Splitter) where
  open sep use {cut, cut_append, cut_shorter}

  -- The complete pieces, and what stays in the buffer. `k` bounds the number of pieces.
  unfoldable drain_on : ℕ → Text → List Text × Text
  unfolding follow
  drain_on zero buf = ([], buf)
  drain_on (suc k) buf = follow (drain_on k) buf (cut buf)

  unfoldable pub drain : Text → List Text × Text
  unfolding drain_on
  drain buf = drain_on (length buf) buf

  drain_on-none : (k : ℕ) (buf : Text) → cut buf ≡ none → drain_on k buf ≡ ([], buf)
  unfolding drain_on follow
  drain_on-none zero buf e = refl
  drain_on-none (suc k) buf e = rw e refl

  drain_on-some :
      (k : ℕ) (buf l r : Text)
      → cut buf ≡ some (l, r)
      → drain_on (suc k) buf ≡ (l ∷ (drain_on k r).0, (drain_on k r).1)
  unfolding drain_on follow
  drain_on-some k buf l r e = rw e refl

  cut-empty : (buf : Text) → length buf ≤ 0 → cut buf ≡ none
  cut-empty buf h = elim (Option-cases (cut buf)) [
    | inl e ↦ e
    | inr ((l, r), e) ↦ let short = cut_shorter buf l r e in absurd (omega (arith, short, h))
  ]

  drain_on-enough :
      (k j : ℕ) (buf : Text) → length buf ≤ k → length buf ≤ j → drain_on k buf ≡ drain_on j buf
  drain_on-enough zero j buf h h' =
      let e = cut-empty buf h in drain_on-none zero buf e ∙ sym (drain_on-none j buf e)
  drain_on-enough (suc k) zero buf h h' =
      let e = cut-empty buf h' in drain_on-none (suc k) buf e ∙ sym (drain_on-none zero buf e)
  drain_on-enough (suc k) (suc j) buf h h' = elim (Option-cases (cut buf)) [
    | inl e ↦ drain_on-none (suc k) buf e ∙ sym (drain_on-none (suc j) buf e)
    | inr ((l, r), e) ↦
        let short = cut_shorter buf l r e in
        drain_on-some k buf l r e
        ∙ ap (λ (d : List Text × Text). (l ∷ d.0, d.1))
            (drain_on-enough k j r (omega (arith, short, h)) (omega (arith, short, h')))
        ∙ sym (drain_on-some j buf l r e)
  ]

  pub drain-none : (buf : Text) → cut buf ≡ none → drain buf ≡ ([], buf)
  unfolding drain
  drain-none buf e = drain_on-none (length buf) buf e

  drain-some : (buf l r : Text) → cut buf ≡ some (l, r) → drain buf ≡ (l ∷ (drain r).0, (drain r).1)
  unfolding drain
  drain-some buf l r e =
      let short = cut_shorter buf l r e in
      drain_on-enough (length buf) (suc (length buf)) buf (omega arith) (omega arith)
      ∙ drain_on-some (length buf) buf l r e
      ∙ ap (λ (d : List Text × Text). (l ∷ d.0, d.1))
          (drain_on-enough (length buf) (length r) r (omega (arith, short)) (omega arith))

  -- What is left behind the pieces of `p`, with more text behind it.
  abbrev pub then_more : List Text × Text → Text → List Text × Text
  then_more p b = (p.0 ++ (drain (p.1 ++ b)).0, (drain (p.1 ++ b)).1)

  drain-append_on : (k : ℕ) (a b : Text) → length a ≤ k → drain (a ++ b) ≡ then_more (drain a) b
  drain-append_on zero a b h = rw (drain-none a (cut-empty a h)) refl
  drain-append_on (suc k) a b h = elim (Option-cases (cut a)) [
    | inl e ↦ rw (drain-none a e) refl
    | inr ((l, r), e) ↦
        let short = cut_shorter a l r e in
        drain-some (a ++ b) l (r ++ b) (cut_append a b l r e)
        ∙ ap (λ (d : List Text × Text). (l ∷ d.0, d.1))
            (drain-append_on k r b (omega (arith, short, h)))
        ∙ sym (ap (λ d. then_more d b) (drain-some a l r e))
  ]

  pub drain-append : (a b : Text) → drain (a ++ b) ≡ then_more (drain a) b
  drain-append a b = drain-append_on (length a) a b (omega arith)

  drain-rest_on : (k : ℕ) (a : Text) → length a ≤ k → cut (drain a).1 ≡ none
  drain-rest_on zero a h = let e = cut-empty a h in rw (drain-none a e) e
  drain-rest_on (suc k) a h = elim (Option-cases (cut a)) [
    | inl e ↦ rw (drain-none a e) e
    | inr ((l, r), e) ↦
        let short = cut_shorter a l r e in
        ap (λ (d : List Text × Text). cut d.1) (drain-some a l r e)
        ∙ drain-rest_on k r (omega (arith, short, h))
  ]

  -- No complete piece stays in the buffer.
  pub drain-rest : (a : Text) → cut (drain a).1 ≡ none
  drain-rest a = drain-rest_on (length a) a (omega arith)
