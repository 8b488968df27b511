-- ===== src/Base/Decimal.antt =====
-- Decimal digits, as a number reads inside a template string.
use Prim.Native.Nat.{ℕ, zero, suc, ◌+◌, ◌/◌, ◌%◌}
use Prim.Native.String.{String, ◌++◌}
use mathlib.Core.List.{[], ◌∷◌}
use ninfer_studio.Base.Tests.{ltb, ◌==◌, if◌then◌else◌}
use ninfer_studio.Base.Texts.{Text}

-- `fuel` bounds the number of digits.
decimal_from : ℕ → ℕ → Text → Text
decimal_from zero n acc = acc
decimal_from (suc fuel) n acc =
    let rest = decimal_from fuel (n / 10) ((48 + n % 10) ∷ acc) in
    if ltb n 10 then (48 + n) ∷ acc else rest

unfoldable pub decimal : ℕ → Text
unfolding decimal_from
decimal n = decimal_from (suc n) n []

digit : ℕ → String
digit n =
    if n == 0
    then "0"
    else if n == 1
    then "1"
    else if n == 2
    then "2"
    else if n == 3
    then "3"
    else if n == 4
    then "4"
    else if n == 5
    then "5"
    else if n == 6
    then "6"
    else if n == 7
    then "7"
    else if n == 8
    then "8"
    else "9"

decimal_name_from : ℕ → ℕ → String → String
unfolding digit
decimal_name_from zero n acc = acc
decimal_name_from (suc fuel) n acc =
    let rest = decimal_name_from fuel (n / 10) (digit (n % 10) ++ acc) in
    if ltb n 10 then digit n ++ acc else rest

-- The digits inside an id or a name.
unfoldable pub decimal_name : ℕ → String
unfolding decimal_name_from
decimal_name n = decimal_name_from (suc n) n ""
