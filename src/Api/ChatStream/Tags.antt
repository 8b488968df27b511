-- ===== src/Api/ChatStream/Tags.antt =====
-- api/chat.ts, `pushContent`: no closing think tag stays in what is shown or held back.
use Prim.Native.Nat.{◌<◌, ◌≤◌, ◌+◌}
use ninfer_studio.Base.{
  ℕ, zero, suc, Text, units, starts_with, includes, take, drop, length, length-append, any,
  any-stricter, or_false, [], ◌∷◌, ◌++◌, Option, none, some, Bool, true, false, Bool-cases, ltb,
  ◌||◌, ◌≡◌, refl, sym, subst, append_assoc, ap, ap₂, tests, ◌∙◌, inl, inr, arith,
}
use ninfer_studio.Api.ChatStream.Think.{
  think_tags, tag_holdback, shifted, last_index_of, later, close_of, leak,
}

unfoldable pub has_tag : Text → Bool
unfolding includes think_tags
has_tag s = any (λ tag. includes tag s) think_tags

includes-drop : (tag s : Text) (k : ℕ) → includes tag s ≡ false → includes tag (drop k s) ≡ false
unfolding includes
includes-drop tag s zero h = h
includes-drop tag [] (suc k) h = h
includes-drop tag (c ∷ s) (suc k) h = includes-drop tag s k (or_false _ _ h).1

starts_with-take :
    (tag s : Text) (k : ℕ) → starts_with tag s ≡ false → starts_with tag (take k s) ≡ false
unfolding starts_with
starts_with-take [] s k h = absurd (cc h)
starts_with-take (c ∷ tag) s zero h = refl
starts_with-take (c ∷ tag) [] (suc k) h = refl
starts_with-take (c ∷ tag) (d ∷ s) (suc k) h = ground (arith, starts_with-take tag s k)

includes-take : (tag s : Text) (k : ℕ) → includes tag s ≡ false → includes tag (take k s) ≡ false
unfolding includes
includes-take tag s zero h = refl
includes-take tag [] (suc k) h = refl
includes-take tag (c ∷ s) (suc k) h =
    let here = starts_with-take tag (c ∷ s) (suc k) (or_false _ _ h).0 in
    let behind : includes tag (take k s) ≡ false = includes-take tag s k (or_false _ _ h).1 in
    ground (arith, here, behind)

-- The last place, if there is one, lies in front of `k`.
abbrev Before : Option ℕ → ℕ → Type 0
Before none k = Unit
Before (some i) k = i < k

Before-zero : (o : Option ℕ) → Before o 0 → o ≡ none
Before-zero none h = refl
Before-zero (some i) h = absurd (omega (arith, h))

Before-shifted : (b : Bool) (o : Option ℕ) (k : ℕ) → Before (shifted b o) (suc k) → Before o k
Before-shifted b none k h = tt
Before-shifted b (some i) k h = omega (arith, h)

shifted-none : (b : Bool) (o : Option ℕ) → shifted b o ≡ none → (b ≡ false) × (o ≡ none)
shifted-none true none h = absurd (cc h)
shifted-none false none h = (refl, refl)
shifted-none b (some i) h = absurd (cc h)

last_index_of-none : (tag s : Text) → last_index_of tag s ≡ none → includes tag s ≡ false
unfolding last_index_of includes
last_index_of-none tag [] h = refl
last_index_of-none tag (c ∷ s) h =
    let parts = shifted-none (starts_with tag (c ∷ s)) (last_index_of tag s) h in
    rw parts.0 (last_index_of-none tag s parts.1)

last_index_of-Before :
    (tag s : Text) (k : ℕ) → Before (last_index_of tag s) k → includes tag (drop k s) ≡ false
unfolding last_index_of includes
last_index_of-Before tag [] k h = includes-drop tag [] k refl
last_index_of-Before tag (c ∷ s) zero h =
    last_index_of-none tag (c ∷ s) (Before-zero (last_index_of tag (c ∷ s)) h)
last_index_of-Before tag (c ∷ s) (suc k) h =
    last_index_of-Before tag s k
      (Before-shifted (starts_with tag (c ∷ s)) (last_index_of tag s) k h)

-- Where `leak` cuts.
abbrev cut_point : Option (ℕ × ℕ) → ℕ
cut_point none = 0
cut_point (some (i, n)) = i + n

later-Before :
    (o p : Option ℕ) (m n : ℕ)
    → 0 < m
    → 0 < n
    → Before o (cut_point (later (later none o m) p n))
      × Before p (cut_point (later (later none o m) p n))
later-Before none none m n hm hn = (tt, tt)
later-Before none (some j) m n hm hn = (tt, omega arith)
later-Before (some i) none m n hm hn = (omega arith, tt)
later-Before (some i) (some j) m n hm hn = elim (Bool-cases (ltb i j)) [
  | inl e ↦ rw e (omega (tests), omega arith)
  | inr e ↦ rw e (omega arith, ground arith)
]

leak-drop : (best : Option (ℕ × ℕ)) (buf : Text) → (leak best buf).1 ≡ drop (cut_point best) buf
leak-drop none buf = refl
leak-drop (some (i, n)) buf = refl

pub leak-has_tag : (buf : Text) → has_tag (leak (close_of none think_tags buf) buf).1 ≡ false
unfolding has_tag close_of think_tags
leak-has_tag buf =
    let best = close_of none think_tags buf in
    let short = units "</think>" in
    let long = units "</thinking>" in
    let before =
      later-Before (last_index_of short buf) (last_index_of long buf) 8 11 (omega arith)
        (omega arith) in
    let clean_of_short = last_index_of-Before short buf (cut_point best) before.0 in
    let clean_of_long = last_index_of-Before long buf (cut_point best) before.1 in
    ap has_tag (leak-drop best buf) ∙ ap₂ (λ a b. a || (b || false)) clean_of_short clean_of_long

has_tag-take : (s : Text) (k : ℕ) → has_tag s ≡ false → has_tag (take k s) ≡ false
unfolding has_tag
has_tag-take s k h =
    any-stricter (λ tag. includes tag s) (λ tag. includes tag (take k s)) think_tags
      (λ tag. includes-take tag s k) h

has_tag-drop : (s : Text) (k : ℕ) → has_tag s ≡ false → has_tag (drop k s) ≡ false
unfolding has_tag
has_tag-drop s k h =
    any-stricter (λ tag. includes tag s) (λ tag. includes tag (drop k s)) think_tags
      (λ tag. includes-drop tag s k) h

starts_with-append :
    (tag s t : Text)
    → length tag ≤ length s
    → starts_with tag s ≡ false
    → starts_with tag (s ++ t) ≡ false
unfolding starts_with
starts_with-append [] s t h e = absurd (cc e)
starts_with-append (c ∷ tag) [] t h e = absurd (omega (arith, h))
starts_with-append (c ∷ tag) (d ∷ s) t h e = ground (arith, starts_with-append tag s t)

-- A tag over the bound of two texts lies in the first of them with the next part, if that is long.
includes-span :
    (tag o b t : Text)
    → length tag ≤ suc (length b)
    → includes tag (o ++ b) ≡ false
    → includes tag (b ++ t) ≡ false
    → includes tag (o ++ (b ++ t)) ≡ false
unfolding includes
includes-span tag [] b t n h k = k
includes-span tag (c ∷ o) b t n h k =
    let parts = or_false (starts_with tag (c ∷ (o ++ b))) (includes tag (o ++ b)) h in
    let long : length tag ≤ length (c ∷ (o ++ b)) = omega (arith, n, length-append o b) in
    let here : starts_with tag (c ∷ (o ++ (b ++ t))) ≡ false =
      subst (λ x. starts_with tag (c ∷ x) ≡ false) (append_assoc o b t)
        (starts_with-append tag (c ∷ (o ++ b)) t long parts.0) in
    ap₂ (λ a b. a || b) here (includes-span tag o b t n parts.1 k)

pub has_tag-span :
    (o b t : Text)
    → tag_holdback ≤ length b
    → has_tag (o ++ b) ≡ false
    → has_tag (b ++ t) ≡ false
    → has_tag (o ++ (b ++ t)) ≡ false
unfolding has_tag tag_holdback think_tags units
has_tag-span o b t n h k =
    let short = units "</think>" in
    let long = units "</thinking>" in
    let hs = or_false (includes short (o ++ b)) (includes long (o ++ b) || false) h in
    let ks = or_false (includes short (b ++ t)) (includes long (b ++ t) || false) k in
    let hl = or_false (includes long (o ++ b)) false hs.1 in
    let kl = or_false (includes long (b ++ t)) false ks.1 in
    ap₂ (λ x y. x || (y || false)) (includes-span short o b t (omega (arith, n)) hs.0 ks.0)
      (includes-span long o b t (omega (arith, n)) hl.0 kl.0)

take-prefix : (a b : Text) → take (length a) (a ++ b) ≡ a
take-prefix [] b = refl
take-prefix (c ∷ a) b = ap (λ s. c ∷ s) (take-prefix a b)

drop-prefix : (a b : Text) → drop (length a) (a ++ b) ≡ b
drop-prefix [] b = refl
drop-prefix (c ∷ a) b = drop-prefix a b

pub has_tag-first : (a b : Text) → has_tag (a ++ b) ≡ false → has_tag a ≡ false
has_tag-first a b h = ap has_tag (sym (take-prefix a b)) ∙ has_tag-take (a ++ b) (length a) h

pub has_tag-second : (a b : Text) → has_tag (a ++ b) ≡ false → has_tag b ≡ false
has_tag-second a b h = ap has_tag (sym (drop-prefix a b)) ∙ has_tag-drop (a ++ b) (length a) h
