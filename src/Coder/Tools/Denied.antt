-- ===== src/Coder/Tools/Denied.antt =====
-- chatHelpers.ts, `checkComputerUsePerm`: what is under a denied path.
use mathlib.Core.List.{reverse, reverse-cons, reverse-append, reverse-reverse}
use ninfer_studio.Base.{
  ℕ, zero, suc, Text, text_eq, text_eq_refl, trim, is_blank, starts_with, ◌==◌, List, [], ◌∷◌, ◌++◌,
  append_assoc, any, any-append, find, replicate, some, Bool, true, false, or_true, ◌≡◌, refl, sym,
  ap, ◌∙◌, arith, Bool-cases, inl, inr,
}
use ninfer_studio.Coder.Tools.{
  Perms, mcp_tool_tier, is_deny, denied, Verdict, drop_slashes, clean_path, denies,
  check_computer_use_perm,
}

abbrev pub slashes : ℕ → Text
slashes n = replicate n b'/'

abbrev pub is_denied : Verdict → Bool
is_denied (denied reason) = true
is_denied _ = false

drop_slashes-reverse : (n : ℕ) (s : Text) → drop_slashes (reverse (slashes n) ++ s) ≡ drop_slashes s
unfolding drop_slashes
drop_slashes-reverse zero s = refl
drop_slashes-reverse (suc n) s =
    ap (λ (t : Text). drop_slashes (t ++ s)) (reverse-cons b'/' (slashes n))
    ∙ ap drop_slashes (append_assoc (reverse (slashes n)) (b'/' ∷ []) s)
    ∙ drop_slashes-reverse n (b'/' ∷ s)

-- The slashes at the end are taken off, and nothing else.
clean_path-slashes :
    (d q : Text) (c n : ℕ)
    → trim d ≡ (q ++ (c ∷ [])) ++ slashes n
    → (c == b'/') ≡ false
    → clean_path d ≡ q ++ (c ∷ [])
unfolding clean_path drop_slashes
clean_path-slashes d q c n e other =
    let path = q ++ (c ∷ []) in
    let turned : reverse path ≡ c ∷ reverse q = reverse-append q (c ∷ []) in
    let stays : drop_slashes (c ∷ reverse q) ≡ c ∷ reverse q = rw other refl in
    ap (λ (t : Text). reverse (drop_slashes (reverse t))) e
    ∙ ap (λ (t : Text). reverse (drop_slashes t)) (reverse-append path (slashes n))
    ∙ ap reverse (drop_slashes-reverse n (reverse path))
    ∙ ap (λ (t : Text). reverse (drop_slashes t)) turned
    ∙ ap reverse (stays ∙ sym turned)
    ∙ reverse-reverse path

starts_with-append : (p s : Text) → starts_with p (p ++ s) ≡ true
unfolding starts_with
starts_with-append [] s = refl
starts_with-append (c ∷ p) s = ground (arith, starts_with-append p s)

is_blank-last : (q : Text) (c : ℕ) → is_blank (q ++ (c ∷ [])) ≡ false
is_blank-last [] c = refl
is_blank-last (d ∷ q) c = refl

is_blank-longer : (q : Text) (c : ℕ) (s : Text) → is_blank ((q ++ (c ∷ [])) ++ s) ≡ false
is_blank-longer [] c s = refl
is_blank-longer (d ∷ q) c s = refl

find-any :
    (p : Text → Bool) (ds : List Text) → any p ds ≡ true → (hit : Text) × (find p ds ≡ some hit)
find-any p [] h = absurd (cc h)
find-any p (d ∷ ds) h = elim (Bool-cases (p d)) [
  | inl e ↦ (d, rw e refl)
  | inr e ↦
      let rest : any p ds ≡ true = rw e at h in
      let (hit, found) = find-any p ds rest in (hit, rw e found)
]

check_computer_use_perm-found :
    (perms : Perms) (name target : Text)
    → is_blank target ≡ false
    → any (denies target) perms.deny_paths ≡ true
    → is_denied (check_computer_use_perm perms name target) ≡ true
unfolding check_computer_use_perm
check_computer_use_perm-found perms name target b h =
    let (hit, found) = find-any (denies target) perms.deny_paths h in
    elim (Bool-cases (is_deny (mcp_tool_tier perms name))) [
      | inl d ↦ rw d refl
      | inr d ↦ rw (d, b, found) refl
    ]

any-middle :
    (p : Text → Bool) (front back : List Text) (d : Text)
    → p d ≡ true
    → any p (front ++ (d ∷ back)) ≡ true
any-middle p front back d h = any-append p front (d ∷ back) ∙ rw h (or_true (any p front))

-- A denied path with any spaces around it and any number of slashes at its end denies, for every
-- tool, the path without them, and everything below it; the path must not consist of slashes only.
pub check_computer_use_perm-under_denied :
    (perms : Perms) (name d q rest : Text) (c n : ℕ) (front back : List Text)
    → perms.deny_paths ≡ front ++ (d ∷ back)
    → trim d ≡ (q ++ (c ∷ [])) ++ slashes n
    → (c == b'/') ≡ false
    → (is_denied (check_computer_use_perm perms name (q ++ (c ∷ []))) ≡ true)
      × (is_denied (check_computer_use_perm perms name ((q ++ (c ∷ [])) ++ (b'/' ∷ rest))) ≡ true)
check_computer_use_perm-under_denied perms name d q rest c n front back listed e other =
    let path = q ++ (c ∷ []) in
    let below = path ++ (b'/' ∷ rest) in
    let clean = clean_path-slashes d q c n e other in
    let filled = is_blank-last q c in
    let itself : denies path d ≡ true = rw (clean, filled, text_eq_refl path) refl in
    let prefix : starts_with (path ++ (b'/' ∷ [])) below ≡ true =
      ap (starts_with (path ++ (b'/' ∷ []))) (sym (append_assoc path (b'/' ∷ []) rest))
      ∙ starts_with-append (path ++ (b'/' ∷ [])) rest in
    let under : denies below d ≡ true = rw (clean, filled, prefix) (or_true (text_eq below path)) in
    (
      check_computer_use_perm-found perms name path filled
          (ap (any (denies path)) listed ∙ any-middle (denies path) front back d itself),
      check_computer_use_perm-found perms name below (is_blank-longer q c (b'/' ∷ rest))
          (ap (any (denies below)) listed ∙ any-middle (denies below) front back d under),
    )
