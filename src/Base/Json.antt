-- ===== src/Base/Json.antt =====
-- `JSON.stringify` on strings.
use Prim.Native.Nat.{ℕ, ◌+◌, ◌/◌, ◌%◌}
use mathlib.Core.Bool.{◌&&◌, ◌||◌}
use mathlib.Core.List.{[], ◌∷◌, ◌++◌}
use ninfer_studio.Base.Tests.{ltb, leb, ◌==◌, if◌then◌else◌}
use ninfer_studio.Base.Texts.{Text, units}

hex_digit : ℕ → ℕ
hex_digit d = if ltb d 10 then 48 + d else 87 + d

unicode_escape : ℕ → Text
unfolding hex_digit
unicode_escape c =
    92
    ∷ b'u'
    ∷ hex_digit (c / 4096)
    ∷ hex_digit (c / 256 % 16)
    ∷ hex_digit (c / 16 % 16)
    ∷ hex_digit (c % 16)
    ∷ []

-- A code unit that is not part of a surrogate pair.
quoted : ℕ → Text
unfolding unicode_escape
quoted c =
    if c == b'"' || c == 92
    then 92 ∷ c ∷ []
    else if c == 8
    then 92 ∷ b'b' ∷ []
    else if c == 9
    then 92 ∷ b't' ∷ []
    else if c == 10
    then 92 ∷ b'n' ∷ []
    else if c == 12
    then 92 ∷ b'f' ∷ []
    else if c == 13
    then 92 ∷ b'r' ∷ []
    else if ltb c 32 || (leb 55296 c && leb c 57343)
    then unicode_escape c
    else c ∷ []

quoted_all : Text → Text
unfolding quoted
quoted_all [] = []
quoted_all (c ∷ []) = quoted c
quoted_all (c ∷ d ∷ s) =
    let rest = quoted_all (d ∷ s) in
    let behind_pair = quoted_all s in
    if leb 55296 c && leb c 56319 && leb 56320 d && leb d 57343
    then c ∷ d ∷ behind_pair
    else quoted c ++ rest

unfoldable pub json_string : Text → Text
unfolding quoted_all
json_string s = b'"' ∷ (quoted_all s ++ (b'"' ∷ []))

-- `JSON.stringify({ error })`
unfoldable pub json_error : Text → Text
unfolding json_string units
json_error s = units "{\"error\":" ++ json_string s ++ units "}"
