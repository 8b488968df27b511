-- ===== src/Api/Splitter.antt =====
-- The read loop that api/chat.ts, api/responses.ts and agentRuns.ts share: what arrives is appended
-- to a buffer, and the pieces in front of a separator are cut off and handled one at a time.
use Prim.Native.Nat.{◌<◌, ◌≤◌}
use ninfer_studio.Base.{
  ℕ, Text, ◌==◌, ◌&&◌, length, [], ◌∷◌, ◌++◌, Option, none, some, Bool, true, false, ◌≡◌, refl,
  arith,
}

-- A separator. `cut` gives the text in front of its first occurrence, and the text behind it.
pub record Splitter : Type 0 where
  pub cut : Text → Option (Text × Text)
  pub cut_append : (a b l r : Text) → cut a ≡ some (l, r) → cut (a ++ b) ≡ some (l, r ++ b)
  pub cut_shorter : (a l r : Text) → cut a ≡ some (l, r) → length r < length a

-- The cut at the first place, if the separator stands there, and else the one behind it.
abbrev cut_at : Bool → ℕ → Text → Option (Text × Text) → Option (Text × Text)
cut_at true c s later = some ([], s)
cut_at false c s none = none
cut_at false c s (some (l, r)) = some (c ∷ l, r)

-- `indexOf('\n')` and the two slices.
unfoldable pub cut_line : Text → Option (Text × Text)
cut_line [] = none
cut_line (c ∷ s) = cut_at (c == 10) c s (cut_line s)

-- `indexOf('\n\n')` and the two slices.
unfoldable pub cut_frame : Text → Option (Text × Text)
cut_frame [] = none
cut_frame (c ∷ []) = none
cut_frame (c ∷ d ∷ s) = cut_at (c == 10 && d == 10) c s (cut_frame (d ∷ s))

cut_at-append :
    (t : Bool) (c : ℕ) (s b : Text) (o p : Option (Text × Text))
    → ((l r : Text) → o ≡ some (l, r) → p ≡ some (l, r ++ b))
    → (l r : Text) → cut_at t c s o ≡ some (l, r)
    → cut_at t c (s ++ b) p ≡ some (l, r ++ b)
cut_at-append true c s b o p later l r h = cc
cut_at-append false c s b none p later l r h = absurd (cc h)
cut_at-append false c s b (some (m, q)) p later l r h = rw (later m q refl) cc

cut_at-shorter :
    (t : Bool) (c : ℕ) (s : Text) (o : Option (Text × Text))
    → ((l r : Text) → o ≡ some (l, r) → length r ≤ length s)
    → (l r : Text) → cut_at t c s o ≡ some (l, r)
    → length r ≤ length s
cut_at-shorter true c s o later l r h = ground arith
cut_at-shorter false c s none later l r h = absurd (cc h)
cut_at-shorter false c s (some (m, q)) later l r h = let short = later m q refl in ground arith

pub cut_line-append :
    (a b l r : Text) → cut_line a ≡ some (l, r) → cut_line (a ++ b) ≡ some (l, r ++ b)
unfolding cut_line
cut_line-append [] b l r h = absurd (cc h)
cut_line-append (c ∷ s) b l r h =
    cut_at-append (c == 10) c s b (cut_line s) (cut_line (s ++ b)) (cut_line-append s b) l r h

pub cut_line-shorter : (a l r : Text) → cut_line a ≡ some (l, r) → length r < length a
unfolding cut_line
cut_line-shorter [] l r h = absurd (cc h)
cut_line-shorter (c ∷ s) l r h =
    let behind : (m q : Text) → cut_line s ≡ some (m, q) → length q ≤ length s =
      λ m q e. let short = cut_line-shorter s m q e in omega (arith, short) in
    let short = cut_at-shorter (c == 10) c s (cut_line s) behind l r h in omega (arith, short)

pub cut_frame-append :
    (a b l r : Text) → cut_frame a ≡ some (l, r) → cut_frame (a ++ b) ≡ some (l, r ++ b)
unfolding cut_frame
cut_frame-append [] b l r h = absurd (cc h)
cut_frame-append (c ∷ []) b l r h = absurd (cc h)
cut_frame-append (c ∷ d ∷ s) b l r h =
    cut_at-append (c == 10 && d == 10) c s b (cut_frame (d ∷ s)) (cut_frame (d ∷ s ++ b))
      (cut_frame-append (d ∷ s) b) l r h

pub cut_frame-shorter : (a l r : Text) → cut_frame a ≡ some (l, r) → length r < length a
unfolding cut_frame
cut_frame-shorter [] l r h = absurd (cc h)
cut_frame-shorter (c ∷ []) l r h = absurd (cc h)
cut_frame-shorter (c ∷ d ∷ s) l r h =
    let behind : (m q : Text) → cut_frame (d ∷ s) ≡ some (m, q) → length q ≤ length s =
      λ m q e. let short = cut_frame-shorter (d ∷ s) m q e in omega (arith, short) in
    let short = cut_at-shorter (c == 10 && d == 10) c s (cut_frame (d ∷ s)) behind l r h in
    omega (arith, short)

unfoldable pub lines : Splitter
lines = record { cut = cut_line; cut_append = cut_line-append; cut_shorter = cut_line-shorter }

unfoldable pub frames : Splitter
frames = record { cut = cut_frame; cut_append = cut_frame-append; cut_shorter = cut_frame-shorter }
