-- ===== src/Api/Request/Fence.antt =====
-- api/chat.ts, `buildChatRequest`: the fence around an attached file.
use Prim.Native.Nat.{◌≤◌, ◌<◌, ◌+◌, max}
use ninfer_studio.Base.{
  ℕ, zero, suc, Text, starts_with, includes, replicate, ◌==◌, if◌then◌else◌, [], ◌∷◌, ◌≡◌, refl,
  arith, Bool-cases, inl, inr, false,
}
use ninfer_studio.Api.Request.Messages.{longest_run, fence_of}

-- How many backquotes a text starts with.
leading : Text → ℕ
leading [] = 0
leading (c ∷ s) = let more = leading s + 1 in if c == b'`' then more else 0

longest_run-best : (run best : ℕ) (s : Text) → best ≤ longest_run run best s
unfolding longest_run
longest_run-best run best [] = omega arith
longest_run-best run best (c ∷ s) =
    let more = longest_run-best (run + 1) best s in
    let closed = longest_run-best 0 (max run best) s in ground (arith, more, closed)

longest_run-leading : (run best : ℕ) (s : Text) → run + leading s ≤ longest_run run best s
unfolding longest_run leading
longest_run-leading run best [] = omega arith
longest_run-leading run best (c ∷ s) =
    let more = longest_run-leading (run + 1) best s in
    let closed = longest_run-best 0 (max run best) s in ground (arith, more, closed)

starts_with-replicate :
    (n : ℕ) (s : Text) → leading s < n → starts_with (replicate n b'`') s ≡ false
unfolding starts_with leading
starts_with-replicate zero s h = absurd (omega arith)
starts_with-replicate (suc n) [] h = refl
starts_with-replicate (suc n) (c ∷ s) h = ground (arith, starts_with-replicate n s)

includes-replicate :
    (run best n : ℕ) (s : Text) → longest_run run best s < n → includes (replicate n b'`') s ≡ false
unfolding longest_run includes
includes-replicate run best n [] h = refl
includes-replicate run best n (c ∷ s) h =
    let short = longest_run-leading run best (c ∷ s) in
    let here = starts_with-replicate n (c ∷ s) (omega (arith, short, h)) in
    rw here (elim (Bool-cases (c == b'`')) [
      | inl e ↦ includes-replicate (run + 1) best n s (ground arith)
      | inr e ↦ includes-replicate 0 (max run best) n s (ground arith)
    ])

-- The fence around an attached file does not occur in the text that it encloses.
pub includes-fence_of : (text : Text) → includes (fence_of text) text ≡ false
unfolding fence_of
includes-fence_of text =
    includes-replicate 0 0 (max 3 (longest_run 0 0 text + 1)) text (omega arith)
