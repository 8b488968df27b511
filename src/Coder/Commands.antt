-- ===== src/Coder/Commands.antt =====
-- coderTools.ts, `isReadOnlyCommand`: the commands that plan mode lets through.
use ninfer_studio.Base.{
  ℕ, Text, units, text_eq, is_space, is_blank, starts_with, ◌==◌, leb, if◌then◌else◌, length,
  String, List, [], ◌∷◌, ◌++◌, filter, any, all, Bool, true, false, not, ◌&&◌, ◌||◌, ◌≡◌, refl,
  arith, any-append, append-nil, append_assoc, ap, ◌∙◌,
}
use ninfer_studio.FileKind.{file_name_from}

-- `cmd.trim().split(/\s+/).filter(Boolean)`; `word` is what stands before, back to the last space.
unfoldable pub words_from : Text → Text → List Text
words_from word [] = if is_blank word then [] else word ∷ []
words_from word (c ∷ s) =
    let rest = words_from [] s in
    let longer = words_from (word ++ (c ∷ [])) s in
    if is_space c then (if is_blank word then rest else word ∷ rest) else longer

unfoldable pub words : Text → List Text
unfolding words_from is_space
words s = words_from [] s

-- The characters of the pattern of shell composition.
unfoldable pub composes : ℕ → Bool
composes c =
    c == b'>' || c == b'|' || c == b';' || c == b'&' || c == b'`' || c == b'(' || c == 10 || c == 13

abbrev pub is_one_of : List String → Text → Bool
is_one_of names w = any (λ s. text_eq (units s) w) names

-- `READONLY_BASH`
abbrev pub readonly_bash : List String
readonly_bash =
    "find" ∷ "ls" ∷ "cat" ∷ "head" ∷ "tail" ∷ "wc" ∷ "grep" ∷ "rg" ∷ "fd" ∷ "file" ∷ "stat" ∷ "du"
    ∷ "df" ∷ "tree" ∷ "pwd" ∷ "which" ∷ "uname" ∷ "date" ∷ "sort" ∷ "uniq" ∷ "diff" ∷ "nl"
    ∷ "basename" ∷ "dirname" ∷ "realpath" ∷ "readlink" ∷ "md5sum" ∷ "sha256sum" ∷ []

-- `READONLY_GIT`
abbrev pub readonly_git : List String
readonly_git =
    "status" ∷ "log" ∷ "diff" ∷ "show" ∷ "blame" ∷ "shortlog" ∷ "describe" ∷ "ls-files"
    ∷ "rev-parse" ∷ []

abbrev pub has_prefix : String → List Text → Bool
has_prefix p ws = any (starts_with (units p)) ws

unfoldable pub git_is_read_only : List Text → Bool
unfolding units text_eq starts_with
git_is_read_only [] = false
git_is_read_only (first ∷ []) = false
git_is_read_only (first ∷ sub ∷ args) =
    is_one_of readonly_git sub
    && not (text_eq sub (units "diff") && has_prefix "--output" (first ∷ sub ∷ args))

abbrev pub second_output : List Text → Bool
second_output args = leb 2 (length (filter (λ w. not (starts_with (units "-") w)) args))

-- The flags that make a listed program write, or run another.
unfoldable pub flags_write : Text → List Text → List Text → Bool
unfolding units text_eq starts_with
flags_write first ws args =
    (text_eq first (units "find")
      && any (is_one_of ("-delete" ∷ "-exec" ∷ "-execdir" ∷ "-ok" ∷ "-okdir" ∷ [])) ws)
    || (text_eq first (units "fd")
        && any (is_one_of ("-x" ∷ "-X" ∷ "--exec" ∷ "--exec-batch" ∷ [])) ws)
    || (text_eq first (units "rg") && has_prefix "--pre" ws)
    || (text_eq first (units "sort")
        && any (λ w. text_eq w (units "-o") || starts_with (units "--output") w) ws)
    || (text_eq first (units "uniq") && second_output args)

unfoldable pub words_read_only : List Text → Bool
unfolding git_is_read_only flags_write file_name_from
words_read_only [] = false
words_read_only (w ∷ args) =
    let first = file_name_from w w in
    if text_eq first (units "git")
    then git_is_read_only (w ∷ args)
    else is_one_of readonly_bash first && not (flags_write first (w ∷ args) args)

unfoldable pub is_read_only_command : Text → Bool
unfolding words_read_only words composes
is_read_only_command cmd =
    if is_blank cmd || any composes cmd then false else words_read_only (words cmd)

command_tests :
    (is_read_only_command (units "git log -3") ≡ true)
    × (is_read_only_command (units "/usr/bin/find . -name x") ≡ true)
    × (is_read_only_command (units "find . -delete") ≡ false)
    × (is_read_only_command (units "ls | sh") ≡ false)
    × (is_read_only_command (units "git diff --output=x") ≡ false)
    × (is_read_only_command (units "uniq a b") ≡ false)
unfolding is_read_only_command units
command_tests = (refl, refl, refl, refl, refl, refl)

-- No character of the text is a space or composes commands.
abbrev pub is_one_word : Text → Bool
is_one_word p = all (λ c. not (is_space c) && not (composes c)) p

any-composes : (p : Text) → is_one_word p ≡ true → any composes p ≡ false
any-composes [] h = refl
any-composes (c ∷ p) h = ground (arith, any-composes p)

words_from-one :
    (word p : Text)
    → is_blank word ≡ false
    → is_one_word p ≡ true
    → words_from word p ≡ (word ++ p) ∷ []
unfolding words_from
words_from-one word [] e h = rw (e, append-nil word) refl
words_from-one word (c ∷ p) e h =
    let here : is_space c ≡ false = ground arith in
    let rest : is_one_word p ≡ true = ground arith in
    rw here (words_from-one (word ++ (c ∷ [])) p (longer word) rest ∙ rw append_assoc refl)
  where
    longer : (w : Text) → is_blank (w ++ (c ∷ [])) ≡ false
    longer [] = refl
    longer (d ∷ w) = refl

is_read_only_command-words :
    (cmd : Text) (ws : List Text)
    → is_blank cmd ≡ false
    → any composes cmd ≡ false
    → words cmd ≡ ws
    → words_read_only ws ≡ true
    → is_read_only_command cmd ≡ true
unfolding is_read_only_command
is_read_only_command-words cmd ws filled fine e h = rw (filled, fine, e) h

words-git_log : (w : Text) → words_read_only (units "git" ∷ units "log" ∷ w ∷ []) ≡ true
unfolding words_read_only units
words-git_log w = refl

-- The command `git log --output=p` is let through, for any one word `p`.
pub is_read_only_command-git_log_output :
    (p : Text) → is_one_word p ≡ true → is_read_only_command (units "git log --output=" ++ p) ≡ true
is_read_only_command-git_log_output p h =
    is_read_only_command-words (units "git log --output=" ++ p)
      (units "git" ∷ units "log" ∷ (units "--output=" ++ p) ∷ []) (unfold units in refl)
      (any-append composes (units "git log --output=") p
        ∙ (unfold units composes in any-composes p h))
      (unfold words words_from units is_space in
        ap (λ (ws : List Text). units "git" ∷ units "log" ∷ ws)
          (words_from-one (units "--output=") p refl h))
      (words-git_log (units "--output=" ++ p))
