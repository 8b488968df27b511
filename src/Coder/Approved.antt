-- ===== src/Coder/Approved.antt =====
-- coderTools.ts, `normalizeCommand` and `isApprovedCommand`.
use ninfer_studio.Base.{
  Text, is_space, is_blank, text_eq, starts_with, List, [], ◌∷◌, ◌++◌, append_assoc, append-nil,
  or_true, text_eq_sound, any, Bool, true, false, ◌||◌, ◌≡◌, refl, sym, ap, ◌∙◌, arith, Bool-cases,
  inl, inr,
}
use ninfer_studio.Coder.Commands.{words_from, words}

-- The words with one space between them.
unfoldable pub spaced : List Text → Text
spaced [] = []
spaced (w ∷ []) = w
spaced (w ∷ v ∷ ws) = w ++ (32 ∷ spaced (v ∷ ws))

-- `cmd.replace(/\s+/g, ' ').trim()`
unfoldable pub normalize_command : Text → Text
unfolding spaced words
normalize_command cmd = spaced (words cmd)

abbrev pub matches : Text → Text → Bool
matches c a = text_eq c a || starts_with (a ++ (32 ∷ [])) c

unfoldable pub is_approved_command : Text → List Text → Bool
unfolding normalize_command
is_approved_command cmd approved =
    any (λ a. matches (normalize_command cmd) (normalize_command a)) approved

starts_with-append : (p s : Text) → starts_with p (p ++ s) ≡ true
unfolding starts_with
starts_with-append [] s = refl
starts_with-append (c ∷ p) s = ground (arith, starts_with-append p s)

-- The words of a text with a space in it are those before it and those behind it.
words_from-append :
    (s : Text) (word r : Text)
    → words_from word (s ++ (32 ∷ r)) ≡ words_from word s ++ words_from [] r
unfolding words_from is_space
words_from-append [] word r = elim (Bool-cases (is_blank word)) [
  | inl e ↦ rw e refl
  | inr e ↦ rw e refl
]
words_from-append (c ∷ s) word r = elim (Bool-cases (is_space c)) [
  | inl e ↦ elim (Bool-cases (is_blank word)) [
    | inl b ↦ rw (e, b) (words_from-append s [] r)
    | inr b ↦ rw (e, b) (ap (word ∷◌) (words_from-append s [] r))
  ]
  | inr e ↦ rw e (words_from-append s (word ++ (c ∷ [])) r)
]

spaced-append :
    (a b : Text) (us bs : List Text)
    → spaced ((a ∷ us) ++ (b ∷ bs)) ≡ spaced (a ∷ us) ++ (32 ∷ spaced (b ∷ bs))
unfolding spaced
spaced-append a b [] bs = refl
spaced-append a b (c ∷ us) bs =
    rw (append_assoc) (ap (λ (t : Text). a ++ (32 ∷ t)) (spaced-append c b us bs))

starts_with-longer : (p s t : Text) → starts_with p s ≡ true → starts_with p (s ++ t) ≡ true
unfolding starts_with
starts_with-longer [] s t h = refl
starts_with-longer (c ∷ p) [] t h = absurd (cc h)
starts_with-longer (c ∷ p) (d ∷ s) t h = ground (arith, h, starts_with-longer p s t)

-- What matches an entry still does with a space and more text behind it.
matches-longer : (a x y : Text) → matches x a ≡ true → matches (x ++ (32 ∷ y)) a ≡ true
matches-longer a x y h = elim (Bool-cases (text_eq x a)) [
  | inl e ↦
      let same = text_eq_sound x a e in
      let prefix : starts_with (a ++ (32 ∷ [])) (a ++ (32 ∷ y)) ≡ true =
        ap (starts_with (a ++ (32 ∷ []))) (sym (append_assoc a (32 ∷ []) y))
        ∙ starts_with-append (a ++ (32 ∷ [])) y in
      let moved : starts_with (a ++ (32 ∷ [])) (x ++ (32 ∷ y)) ≡ true =
        ap (λ (b : Text). starts_with (a ++ (32 ∷ [])) (b ++ (32 ∷ y))) same ∙ prefix in
      rw moved (or_true (text_eq (x ++ (32 ∷ y)) a))
  | inr e ↦
      let prefix : starts_with (a ++ (32 ∷ [])) x ≡ true = rw e at h in
      rw (starts_with-longer (a ++ (32 ∷ [])) x (32 ∷ y) prefix)
        (or_true (text_eq (x ++ (32 ∷ y)) a))
]

any-longer :
    (x y : Text) (approved : List Text)
    → any (λ a. matches x (normalize_command a)) approved ≡ true
    → any (λ a. matches (x ++ (32 ∷ y)) (normalize_command a)) approved ≡ true
any-longer x y [] h = h
any-longer x y (a ∷ approved) h = elim (Bool-cases (matches x (normalize_command a))) [
  | inl e ↦ rw (matches-longer (normalize_command a) x y e) refl
  | inr e ↦
      let rest : any (λ b. matches x (normalize_command b)) approved ≡ true = rw e at h in
      rw (any-longer x y approved rest) (or_true (matches (x ++ (32 ∷ y)) (normalize_command a)))
]

any-spaced :
    (us ws : List Text) (approved : List Text)
    → is_blank us ≡ false
    → any (λ a. matches (spaced us) (normalize_command a)) approved ≡ true
    → any (λ a. matches (spaced (us ++ ws)) (normalize_command a)) approved ≡ true
any-spaced [] ws approved e h = absurd (cc e)
any-spaced (u ∷ us) [] approved e h = rw (append-nil us) h
any-spaced (u ∷ us) (w ∷ ws) approved e h =
    ap (λ (t : Text). any (λ a. matches t (normalize_command a)) approved) (spaced-append u w us ws)
    ∙ any-longer (spaced (u ∷ us)) (spaced (w ∷ ws)) approved h

-- Whatever list of commands is approved: where a command that is not blank passes, so does that
-- command followed by a space and any text, whatever else the text runs.
pub is_approved_command-followed :
    (cmd r : Text) (approved : List Text)
    → is_blank (words cmd) ≡ false
    → is_approved_command cmd approved ≡ true
    → is_approved_command (cmd ++ (32 ∷ r)) approved ≡ true
unfolding is_approved_command normalize_command words
is_approved_command-followed cmd r approved h k =
    ap (λ (ws : List Text). any (λ a. matches (spaced ws) (normalize_command a)) approved)
      (words_from-append cmd [] r)
    ∙ any-spaced (words_from [] cmd) (words_from [] r) approved h k
