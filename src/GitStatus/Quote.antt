-- ===== src/GitStatus/Quote.antt =====
-- gitStatus.ts: `shellQuote`, and how a POSIX shell reads it back.
use ninfer_studio.Base.{
  ℕ, Text, ◌==◌, if◌then◌else◌, [], ◌∷◌, ◌++◌, Option, none, some, Bool, true, false, Bool-cases,
  ◌≡◌, refl, sym, ==_iff, ap, ◌∙◌, inl, inr,
}

-- `replace(/'/g, "'\\''")`
unfoldable pub escape_quotes : Text → Text
escape_quotes [] = []
escape_quotes (c ∷ s) =
    let rest = escape_quotes s in if c == b'\'' then b'\'' ∷ 92 ∷ b'\'' ∷ b'\'' ∷ rest else c ∷ rest

unfoldable pub shell_quote : Text → Text
unfolding escape_quotes
shell_quote s = b'\'' ∷ (escape_quotes s ++ (b'\'' ∷ []))

abbrev pub read_more : ℕ → Option Text → Option Text
read_more c none = none
read_more c (some s) = some (c ∷ s)

-- The word that the shell reads, where every character of the source is quoted: between single
-- quotes each stands for itself, and outside them only one behind a backslash does.
unfoldable pub sh_word : Bool → Text → Option Text
sh_word true [] = none
sh_word false [] = some []
sh_word true (c ∷ s) =
    let outside = sh_word false s in
    let inside = read_more c (sh_word true s) in if c == b'\'' then outside else inside
sh_word false (c ∷ []) = none
sh_word false (c ∷ d ∷ s) =
    let inside = sh_word true (d ∷ s) in
    let escaped = read_more d (sh_word false s) in
    if c == b'\'' then inside else if c == 92 then escaped else none

escape_quotes-quote :
    (c : ℕ) (s : Text)
    → (c == b'\'') ≡ true
    → escape_quotes (c ∷ s) ≡ b'\'' ∷ 92 ∷ b'\'' ∷ b'\'' ∷ escape_quotes s
unfolding escape_quotes
escape_quotes-quote c s e = rw e refl

escape_quotes-other :
    (c : ℕ) (s : Text) → (c == b'\'') ≡ false → escape_quotes (c ∷ s) ≡ c ∷ escape_quotes s
unfolding escape_quotes
escape_quotes-other c s e = rw e refl

sh_word_open : (s : Text) → sh_word false (b'\'' ∷ s) ≡ sh_word true s
unfolding sh_word
sh_word_open [] = refl
sh_word_open (c ∷ s) = refl

sh_word_close_escape_open :
    (s : Text) → sh_word true (b'\'' ∷ 92 ∷ b'\'' ∷ b'\'' ∷ s) ≡ read_more b'\'' (sh_word true s)
unfolding sh_word
sh_word_close_escape_open s = ap (read_more b'\'') (sh_word_open s)

sh_word_inside :
    (c : ℕ) (s : Text) → (c == b'\'') ≡ false → sh_word true (c ∷ s) ≡ read_more c (sh_word true s)
unfolding sh_word
sh_word_inside c s e = rw e refl

sh_word-escape_quotes : (s : Text) → sh_word true (escape_quotes s ++ (b'\'' ∷ [])) ≡ some s
unfolding sh_word escape_quotes
sh_word-escape_quotes [] = refl
sh_word-escape_quotes (c ∷ s) = elim (Bool-cases (c == b'\'')) [
  | inl e ↦
      ap (λ t. sh_word true (t ++ (b'\'' ∷ []))) (escape_quotes-quote c s e)
      ∙ sh_word_close_escape_open (escape_quotes s ++ (b'\'' ∷ []))
      ∙ ap (read_more b'\'') (sh_word-escape_quotes s)
      ∙ ap (λ d. some (d ∷ s)) (sym ((==_iff c b'\'').0 e))
  | inr e ↦
      ap (λ t. sh_word true (t ++ (b'\'' ∷ []))) (escape_quotes-other c s e)
      ∙ sh_word_inside c (escape_quotes s ++ (b'\'' ∷ [])) e
      ∙ ap (read_more c) (sh_word-escape_quotes s)
]

-- Whatever characters a text has, the shell reads its quoted form as one word, which is the text.
pub sh_word-shell_quote : (s : Text) → sh_word false (shell_quote s) ≡ some s
unfolding shell_quote
sh_word-shell_quote s = sh_word_open (escape_quotes s ++ (b'\'' ∷ [])) ∙ sh_word-escape_quotes s
