-- ===== src/Wire/MsgId/Bits.antt =====
-- The masks, shifts and ors of agent/internal/wire/msgid.go as arithmetic.
use Prim.Native.Nat.{bit_and, bit_or}
use mathlib.Core.Path.{ap₂}
use everwas.Base.{
  ℕ, zero, suc, ◌+◌, ◌*◌, ◌/◌, ◌%◌, ◌<◌, ◌≡◌, refl, sym, ◌∙◌, Bool, true, ◌&&◌, ◌==◌, ==_iff, arith,
}
use everwas.Wire.MsgId.{shr, shl}

-- Whether two functions give the same on every number under a bound.
unfoldable pub agree : (f g : ℕ → ℕ) → ℕ → Bool
agree f g zero = true
agree f g (suc bound) = agree f g bound && f bound == g bound

pub byte_table : (n : ℕ) (f g : ℕ → ℕ) → agree f g n ≡ true → (x : ℕ) → x < n → f x ≡ g x
unfolding agree
byte_table (suc bound) f g t x h =
    let (b, e) = both in ground (arith, byte_table bound f g b x, (==_iff (f bound) (g bound)).0 e)
  where
    both : (agree f g bound ≡ true) × (f bound == g bound ≡ true)
    both = ground (arith, t)
byte_table zero f g t x h = absurd (omega arith)

-- The masks and shifts of one byte.
pub record Masks (b : ℕ) : Type 0 where
  pub m224 : shr (bit_and b 224) 5 ≡ b / 32
  pub m31 : bit_and b 31 ≡ b % 32
  pub m248 : shr (bit_and b 248) 3 ≡ b / 8
  pub m7 : shl (bit_and b 7) 2 ≡ b % 8 * 4
  pub m192 : shr (bit_and b 192) 6 ≡ b / 64
  pub m62 : shr (bit_and b 62) 1 ≡ b / 2 % 32
  pub m1 : shl (bit_and b 1) 4 ≡ b % 2 * 16
  pub m240 : shr (bit_and b 240) 4 ≡ b / 16
  pub m15 : shl (bit_and b 15) 1 ≡ b % 16 * 2
  pub m128 : shr (bit_and b 128) 7 ≡ b / 128
  pub m124 : shr (bit_and b 124) 2 ≡ b / 4 % 32
  pub m3 : shl (bit_and b 3) 3 ≡ b % 4 * 8

pub masks : (b : ℕ) → b < 256 → Masks b
unfolding agree
masks b h = record {
  m224 = byte_table 256 (λ b. shr (bit_and b 224) 5) (λ b. b / 32) refl b h;
  m31 = byte_table 256 (λ b. bit_and b 31) (λ b. b % 32) refl b h;
  m248 = byte_table 256 (λ b. shr (bit_and b 248) 3) (λ b. b / 8) refl b h;
  m7 = byte_table 256 (λ b. shl (bit_and b 7) 2) (λ b. b % 8 * 4) refl b h;
  m192 = byte_table 256 (λ b. shr (bit_and b 192) 6) (λ b. b / 64) refl b h;
  m62 = byte_table 256 (λ b. shr (bit_and b 62) 1) (λ b. b / 2 % 32) refl b h;
  m1 = byte_table 256 (λ b. shl (bit_and b 1) 4) (λ b. b % 2 * 16) refl b h;
  m240 = byte_table 256 (λ b. shr (bit_and b 240) 4) (λ b. b / 16) refl b h;
  m15 = byte_table 256 (λ b. shl (bit_and b 15) 1) (λ b. b % 16 * 2) refl b h;
  m128 = byte_table 256 (λ b. shr (bit_and b 128) 7) (λ b. b / 128) refl b h;
  m124 = byte_table 256 (λ b. shr (bit_and b 124) 2) (λ b. b / 4 % 32) refl b h;
  m3 = byte_table 256 (λ b. shl (bit_and b 3) 3) (λ b. b % 4 * 8) refl b h;
}

-- The two parts of an index that straddles two bytes share no bit, so `|` adds them.
or_at :
    (d : ℕ) (z hi lo : ℕ)
    → agree (λ z. bit_or (z / d * d) (z % d)) (λ z. z) 32 ≡ true
    → z < 32
    → z / d * d ≡ hi
    → z % d ≡ lo
    → bit_or hi lo ≡ z
or_at d z hi lo t small h l =
    ap₂ bit_or (sym h) (sym l) ∙ byte_table 32 (λ z. bit_or (z / d * d) (z % d)) (λ z. z) t z small

pub or_4 : (hi lo : ℕ) → hi < 8 → lo < 4 → bit_or (hi * 4) lo ≡ hi * 4 + lo
unfolding agree
or_4 hi lo h l = or_at 4 (hi * 4 + lo) (hi * 4) lo refl (omega arith) (omega arith) (omega arith)

pub or_16 : (hi lo : ℕ) → hi < 2 → lo < 16 → bit_or (hi * 16) lo ≡ hi * 16 + lo
unfolding agree
or_16 hi lo h l =
    or_at 16 (hi * 16 + lo) (hi * 16) lo refl (omega arith) (omega arith) (omega arith)

pub or_2 : (hi lo : ℕ) → hi < 16 → lo < 2 → bit_or (hi * 2) lo ≡ hi * 2 + lo
unfolding agree
or_2 hi lo h l = or_at 2 (hi * 2 + lo) (hi * 2) lo refl (omega arith) (omega arith) (omega arith)

pub or_8 : (hi lo : ℕ) → hi < 4 → lo < 8 → bit_or (hi * 8) lo ≡ hi * 8 + lo
unfolding agree
or_8 hi lo h l = or_at 8 (hi * 8 + lo) (hi * 8) lo refl (omega arith) (omega arith) (omega arith)
