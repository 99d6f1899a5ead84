-- ===== src/Wire/MsgId.antt =====
-- agent/internal/wire/msgid.go. The clock's millisecond and what `crypto/rand` returns are arguments; an
-- error of `rand.Read`, on which the source panics, is `none`.
mod Bits
pub mod RoundTrip
use Prim.Native.Nat.{bit_and, bit_or}
use everwas.Base.{ℕ, zero, suc, ◌*◌, ◌/◌, ◌%◌, ◌^◌, Option, none, some, List, [], ◌∷◌, map}
use everwas.Base.Text.{Text, codes}

-- The base32 alphabet of ULIDs, with no I, L, O, U.
abbrev pub crockford : Text
crockford = codes "0123456789ABCDEFGHJKMNPQRSTVWXYZ"

-- `crockford[i]`; every index that is used is below 32.
abbrev pub char_at : Text → ℕ → ℕ
char_at [] i = 0
char_at (c ∷ s) zero = c
char_at (c ∷ s) (suc i) = char_at s i

-- Shifts of a byte.
abbrev pub shr : ℕ → ℕ → ℕ
shr x k = x / 2 ^ k

abbrev pub shl : ℕ → ℕ → ℕ
shl x k = x * 2 ^ k % 256

pub record Bytes16 : Type 0 where
  pub b0 : ℕ
  pub b1 : ℕ
  pub b2 : ℕ
  pub b3 : ℕ
  pub b4 : ℕ
  pub b5 : ℕ
  pub b6 : ℕ
  pub b7 : ℕ
  pub b8 : ℕ
  pub b9 : ℕ
  pub b10 : ℕ
  pub b11 : ℕ
  pub b12 : ℕ
  pub b13 : ℕ
  pub b14 : ℕ
  pub b15 : ℕ

-- The indices into the alphabet, in the order of the result.
pub indices : Bytes16 → List ℕ
indices b =
    shr (bit_and b.b0 224) 5
    ∷ bit_and b.b0 31
    ∷ shr (bit_and b.b1 248) 3
    ∷ bit_or (shl (bit_and b.b1 7) 2) (shr (bit_and b.b2 192) 6)
    ∷ shr (bit_and b.b2 62) 1
    ∷ bit_or (shl (bit_and b.b2 1) 4) (shr (bit_and b.b3 240) 4)
    ∷ bit_or (shl (bit_and b.b3 15) 1) (shr (bit_and b.b4 128) 7)
    ∷ shr (bit_and b.b4 124) 2
    ∷ bit_or (shl (bit_and b.b4 3) 3) (shr (bit_and b.b5 224) 5)
    ∷ bit_and b.b5 31
    ∷ shr (bit_and b.b6 248) 3
    ∷ bit_or (shl (bit_and b.b6 7) 2) (shr (bit_and b.b7 192) 6)
    ∷ shr (bit_and b.b7 62) 1
    ∷ bit_or (shl (bit_and b.b7 1) 4) (shr (bit_and b.b8 240) 4)
    ∷ bit_or (shl (bit_and b.b8 15) 1) (shr (bit_and b.b9 128) 7)
    ∷ shr (bit_and b.b9 124) 2
    ∷ bit_or (shl (bit_and b.b9 3) 3) (shr (bit_and b.b10 224) 5)
    ∷ bit_and b.b10 31
    ∷ shr (bit_and b.b11 248) 3
    ∷ bit_or (shl (bit_and b.b11 7) 2) (shr (bit_and b.b12 192) 6)
    ∷ shr (bit_and b.b12 62) 1
    ∷ bit_or (shl (bit_and b.b12 1) 4) (shr (bit_and b.b13 240) 4)
    ∷ bit_or (shl (bit_and b.b13 15) 1) (shr (bit_and b.b14 128) 7)
    ∷ shr (bit_and b.b14 124) 2
    ∷ bit_or (shl (bit_and b.b14 3) 3) (shr (bit_and b.b15 224) 5)
    ∷ bit_and b.b15 31
    ∷ []

unfoldable pub encode : Bytes16 → Text
unfolding indices
encode b = map (char_at crockford) (indices b)

-- The ten random bytes.
pub record Random : Type 0 where
  pub r0 : ℕ
  pub r1 : ℕ
  pub r2 : ℕ
  pub r3 : ℕ
  pub r4 : ℕ
  pub r5 : ℕ
  pub r6 : ℕ
  pub r7 : ℕ
  pub r8 : ℕ
  pub r9 : ℕ

pub msg_bytes : ℕ → Random → Bytes16
msg_bytes ms r = record {
  b0 = ms / 2 ^ 40 % 256;
  b1 = ms / 2 ^ 32 % 256;
  b2 = ms / 2 ^ 24 % 256;
  b3 = ms / 2 ^ 16 % 256;
  b4 = ms / 2 ^ 8 % 256;
  b5 = ms % 256;
  b6 = r.r0;
  b7 = r.r1;
  b8 = r.r2;
  b9 = r.r3;
  b10 = r.r4;
  b11 = r.r5;
  b12 = r.r6;
  b13 = r.r7;
  b14 = r.r8;
  b15 = r.r9;
}

unfoldable pub new_msg_id : ℕ → Option Random → Option Text
unfolding msg_bytes encode
new_msg_id ms none = none
new_msg_id ms (some r) = some (encode (msg_bytes ms r))
