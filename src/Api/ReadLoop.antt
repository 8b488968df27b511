-- ===== src/Api/ReadLoop.antt =====
-- The loop around a reader, in api/chat.ts, api/responses.ts and agentRuns.ts: each chunk is
-- appended to the buffer, and each complete piece is cut off and handled.
use ninfer_studio.Base.{
  Text, List, [], ◌∷◌, ◌++◌, append_assoc, append-nil, none, all, and_left, and_right, Bool, true,
  ◌≡◌, refl, sym, ap, ◌∙◌,
}
use ninfer_studio.Api.Splitter.{Splitter}
use ninfer_studio.Api.Drain.{drain, drain-none, drain-append, drain-rest, then_more}

-- What a handler of one piece comes to: the loop goes on, or it is left with a result.
pub data Verdict {ℓ κ} (S : Type ℓ) (E : Type κ) : Type (ℓ ⊔ κ) where
  going : S → Verdict S E
  left : E → Verdict S E

abbrev pub onwards {ℓ κ μ} :
    {S : Type ℓ} {T : Type κ} {E : Type μ} → (S → Verdict T E) → Verdict S E → Verdict T E
onwards f (going s) = f s
onwards f (left e) = left e

pub onwards-onwards {ℓ} :
    {S T U E : Type ℓ} (f : T → Verdict U E) (g : S → Verdict T E) (v : Verdict S E)
    → onwards f (onwards g v) ≡ onwards (λ s. onwards f (g s)) v
onwards-onwards f g (going s) = refl
onwards-onwards f g (left e) = refl

pub onwards-going {ℓ} : {S E : Type ℓ} (v : Verdict S E) → onwards (λ s. going s) v ≡ v
onwards-going (going s) = refl
onwards-going (left e) = refl

pub onwards_congr {ℓ} :
    {S T E : Type ℓ} {f g : S → Verdict T E}
    → ((s : S) → f s ≡ g s)
    → (v : Verdict S E) → onwards f v ≡ onwards g v
onwards_congr h (going s) = h s
onwards_congr h (left e) = refl

-- `P` holds of the state that the loop goes on with, or `Q` of the result that it is left with.
abbrev pub Comes {ℓ κ} : {S E : Type ℓ} → (S → Type κ) → (E → Type κ) → Verdict S E → Type κ
Comes P Q (going s) = P s
Comes P Q (left e) = Q e

pub Comes-onwards {ℓ κ} :
    {S T E : Type ℓ} (P : S → Type κ) (R : T → Type κ) (Q : E → Type κ) (f : S → Verdict T E)
    (v : Verdict S E)
    → ((s : S) → P s → Comes R Q (f s))
    → Comes P Q v
    → Comes R Q (onwards f v)
Comes-onwards P R Q f (going s) h p = h s p
Comes-onwards P R Q f (left e) h p = p

-- `join('')`
abbrev pub joined : List Text → Text
joined [] = []
joined (c ∷ chunks) = c ++ joined chunks

module _ {ℓ} {S E : Type ℓ} (handle : Text → S → Verdict S E) where
  unfoldable pub handle_all : List Text → S → Verdict S E
  handle_all [] s = going s
  handle_all (l ∷ pieces) s = onwards (handle_all pieces) (handle l s)

  pub handle_all-append :
      (xs ys : List Text) (s : S)
      → handle_all (xs ++ ys) s ≡ onwards (handle_all ys) (handle_all xs s)
  unfolding handle_all
  handle_all-append [] ys s = refl
  handle_all-append (x ∷ xs) ys s =
      onwards_congr (handle_all-append xs ys) (handle x s)
      ∙ sym (onwards-onwards (handle_all ys) (handle_all xs) (handle x s))

  module _ (sep : Splitter) where
    open sep use {cut}

    -- The state behind all chunks, with the text that no separator ended.
    unfoldable pub read_loop : Text → S → List Text → Verdict (S × Text) E
    unfolding handle_all
    read_loop buf s [] = going (s, buf)
    read_loop buf s (c ∷ chunks) =
        let found = drain sep (buf ++ c) in
        onwards (λ t. read_loop found.1 t chunks) (handle_all found.0 s)

    -- All of `pieces` are handled, and the rest is kept.
    settle : List Text × Text → S → Verdict (S × Text) E
    settle pieces s = onwards (λ t. going (t, pieces.1)) (handle_all pieces.0 s)

    settle-then_more :
        (found : List Text × Text) (b : Text) (s : S)
        → settle (then_more sep found b) s
          ≡ onwards (settle (drain sep (found.1 ++ b))) (handle_all found.0 s)
    unfolding settle
    settle-then_more found b s =
        let more = drain sep (found.1 ++ b) in
        ap (onwards (λ t. going (t, more.1))) (handle_all-append found.0 more.0 s)
        ∙ onwards-onwards (λ t. going (t, more.1)) (handle_all more.0) (handle_all found.0 s)

    read_loop-settle :
        (buf : Text) (s : S) (chunks : List Text)
        → cut buf ≡ none
        → read_loop buf s chunks ≡ settle (drain sep (buf ++ joined chunks)) s
    unfolding read_loop settle handle_all
    read_loop-settle buf s [] e =
        ap (λ d. settle d s) (sym (ap (drain sep) (append-nil buf) ∙ drain-none sep buf e))
    read_loop-settle buf s (c ∷ chunks) e =
        let found = drain sep (buf ++ c) in
        onwards_congr (λ t. read_loop-settle found.1 t chunks (drain-rest sep (buf ++ c)))
          (handle_all found.0 s)
        ∙ sym (settle-then_more found (joined chunks) s)
        ∙ ap (λ d. settle d s)
            (sym (drain-append sep (buf ++ c) (joined chunks))
              ∙ ap (drain sep) (append_assoc buf c (joined chunks)))

    -- The bounds of the chunks do not matter.
    pub read_loop-joined :
        (s : S) (chunks : List Text)
        → cut [] ≡ none
        → read_loop [] s chunks ≡ read_loop [] s (joined chunks ∷ [])
    read_loop-joined s chunks e =
        read_loop-settle [] s chunks e
        ∙ ap (λ t. settle (drain sep t) s) (sym (append-nil (joined chunks)))
        ∙ sym (read_loop-settle [] s (joined chunks ∷ []) e)

    module _ {κ} (P : S → Type κ) (Q : E → Type κ)
        (kept : (l : Text) (s : S) → P s → Comes P Q (handle l s)) where
      pub handle_all-Comes : (pieces : List Text) (s : S) → P s → Comes P Q (handle_all pieces s)
      unfolding handle_all
      handle_all-Comes [] s p = p
      handle_all-Comes (l ∷ pieces) s p =
          Comes-onwards P P Q (handle_all pieces) (handle l s) (handle_all-Comes pieces)
            (kept l s p)

      -- What every piece preserves holds behind the loop.
      pub read_loop-Comes :
          (buf : Text) (s : S) (chunks : List Text)
          → P s
          → Comes (λ t. P t.0) Q (read_loop buf s chunks)
      unfolding read_loop
      read_loop-Comes buf s [] p = p
      read_loop-Comes buf s (c ∷ chunks) p =
          let found = drain sep (buf ++ c) in
          Comes-onwards P (λ t. P t.0) Q (λ t. read_loop found.1 t chunks) (handle_all found.0 s)
            (λ t. read_loop-Comes found.1 t chunks) (handle_all-Comes found.0 s p)

    module _ {κ} (P : S → Type κ) (Q : E → Type κ) (ok : Text → Bool)
        (kept : (l : Text) (s : S) → ok l ≡ true → P s → Comes P Q (handle l s)) where
      handle_all-Comes-ok :
          (pieces : List Text) (s : S)
          → all ok pieces ≡ true
          → P s
          → Comes P Q (handle_all pieces s)
      unfolding handle_all
      handle_all-Comes-ok [] s h p = p
      handle_all-Comes-ok (l ∷ pieces) s h p =
          let rest = and_right (ok l) (all ok pieces) h in
          Comes-onwards P P Q (handle_all pieces) (handle l s)
            (λ t. handle_all-Comes-ok pieces t rest)
            (kept l s (and_left (ok l) (all ok pieces) h) p)

      -- The same, where only the pieces that pass a test are known to preserve it; what stays in
      -- the buffer is what no separator ended.
      pub read_loop-Comes-ok :
          (s : S) (chunks : List Text)
          → cut [] ≡ none
          → all ok (drain sep (joined chunks)).0 ≡ true
          → P s
          → Comes (λ t. P t.0 × (t.1 ≡ (drain sep (joined chunks)).1)) Q (read_loop [] s chunks)
      unfolding settle
      read_loop-Comes-ok s chunks e h p =
          let found = drain sep (joined chunks) in
          rw (read_loop-settle [] s chunks e) (
            Comes-onwards P (λ t. P t.0 × (t.1 ≡ found.1)) Q (λ t. going (t, found.1))
              (handle_all found.0 s) (λ t q. (q, refl)) (handle_all-Comes-ok found.0 s h p))
