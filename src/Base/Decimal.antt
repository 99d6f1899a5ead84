-- ===== src/Base/Decimal.antt =====
-- `strconv.ParseInt(s, 10, 64)`: a sign, and then decimal digits, within the range of an int64.
use Prim.Native.Nat.{◌%◌}
use mathlib.Core.List.{◌++◌}
use Prim.Native.Nat.{◌/◌}
use Prim.Native.Nat.{suc}
use everwas.Base.Tests.{ltb, leb, ◌==◌, if◌then◌else◌}
use everwas.Base.Int.{ℤ, pos, sub_ℕ, two_63}
use everwas.Base.Text.{Text}
use Prim.Native.Nat.{ℕ, zero, suc, ◌+◌, ◌-◌, ◌*◌, ◌/◌, ◌%◌}
use mathlib.Core.Bool.{Bool, true, false, ◌&&◌}
use mathlib.Core.Option.{Option, none, some}
use mathlib.Core.List.{[], ◌∷◌, ◌++◌}

digits : ℕ → Text → Option ℕ
digits acc [] = some acc
digits acc (c ∷ s) =
    let rest = digits (acc * 10 + (c - b'0')) s in if leb b'0' c && leb c b'9' then rest else none

-- At least one digit.
magnitude : Text → Option ℕ
unfolding digits
magnitude [] = none
magnitude (c ∷ s) = digits 0 (c ∷ s)

in_range : Bool → Option ℕ → Option ℤ
in_range negative none = none
in_range true (some n) = if leb n two_63 then some (sub_ℕ 0 n) else none
in_range false (some n) = if ltb n two_63 then some (pos n) else none

unfoldable pub parse_int64 : Text → Option ℤ
unfolding magnitude in_range
parse_int64 [] = none
parse_int64 (c ∷ s) =
    if c == b'-'
    then in_range true (magnitude s)
    else if c == b'+'
    then in_range false (magnitude s)
    else in_range false (magnitude (c ∷ s))

-- A digit is written per round, so as many rounds as the number is large are enough.
show_digits : ℕ → ℕ → Text
show_digits zero n = []
show_digits (suc fuel) n =
    let rest = show_digits fuel (n / 10) in
    if ltb n 10 then (b'0' + n) ∷ [] else rest ++ (b'0' + n % 10) ∷ []

-- `%d` of a number that is not negative.
unfoldable pub show_ℕ : ℕ → Text
unfolding show_digits
show_ℕ n = show_digits (suc n) n
