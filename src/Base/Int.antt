-- ===== src/Base/Int.antt =====
-- Go's signed 64-bit integers: `int`, `int64`, `time.Duration`, and `time.Time` in nanoseconds.
use Prim.Native.Nat.{ℕ, suc, ◌+◌, ◌-◌, ◌*◌, ◌/◌, ◌%◌, min}
use mathlib.Core.Bool.{Bool}
use everwas.Base.Tests.{ltb, leb, if◌then◌else◌}

-- `negsuc n` is -(n + 1).
pub data ℤ : Type 0 where
  pos : ℕ → ℤ
  negsuc : ℕ → ℤ

abbrev pub pos_part : ℤ → ℕ
pos_part (pos n) = n
pos_part (negsuc n) = 0

abbrev pub neg_part : ℤ → ℕ
neg_part (pos n) = 0
neg_part (negsuc n) = suc n

-- a - b, as an integer.
abbrev pub sub_ℕ : ℕ → ℕ → ℤ
sub_ℕ a b = if leb b a then pos (a - b) else negsuc (b - a - 1)

abbrev pub leb_ℤ : ℤ → ℤ → Bool
leb_ℤ a b = leb (pos_part a + neg_part b) (pos_part b + neg_part a)

abbrev pub ltb_ℤ : ℤ → ℤ → Bool
ltb_ℤ a b = ltb (pos_part a + neg_part b) (pos_part b + neg_part a)

abbrev pub two_63 : ℕ
two_63 = 9223372036854775808

abbrev pub two_64 : ℕ
two_64 = 18446744073709551616

-- The signed reading of a 64-bit pattern.
abbrev pub signed : ℕ → ℤ
signed w = if ltb w two_63 then pos w else negsuc (two_64 - 1 - w)

-- Two's complement wrap-around of an integer.
abbrev pub wrap_int64 : ℤ → ℤ
wrap_int64 (pos n) = signed (n % two_64)
wrap_int64 (negsuc n) = signed (two_64 - 1 - n % two_64)

abbrev pub add_int64 : ℤ → ℤ → ℤ
add_int64 a b = wrap_int64 (sub_ℕ (pos_part a + pos_part b) (neg_part a + neg_part b))

abbrev pub sub_int64 : ℤ → ℤ → ℤ
sub_int64 a b = wrap_int64 (sub_ℕ (pos_part a + neg_part b) (neg_part a + pos_part b))

-- A duration of one second, in nanoseconds.
abbrev pub second : ℕ
second = 1000000000

-- `t.Sub(u)` of two instants, which saturates at the bounds of a Duration.
abbrev pub time_sub : ℕ → ℕ → ℤ
time_sub t u =
    if leb u t then pos (min (t - u) (two_63 - 1)) else negsuc (min (u - t - 1) (two_63 - 1))

-- `time.Duration(n) * time.Second`.
abbrev pub seconds : ℤ → ℤ
seconds (pos n) = wrap_int64 (pos (n * second))
seconds (negsuc n) = wrap_int64 (negsuc (suc n * second - 1))

-- `t.Add(d)`; an instant before the zero instant is read as the zero instant.
abbrev pub time_add : ℕ → ℤ → ℕ
time_add t (pos d) = t + d
time_add t (negsuc d) = t - suc d

-- `t.Unix()` and `time.Unix(n, 0)`: the zero instant is 62135596800 seconds before the epoch.
abbrev pub epoch : ℕ
epoch = 62135596800

abbrev pub unix : ℕ → ℤ
unix t = sub_ℕ (t / second) epoch

abbrev pub unix_time : ℤ → ℕ
unix_time n = pos_part (add_int64 n (pos epoch)) * second
