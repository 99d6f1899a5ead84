-- ===== src/Wire/MsgId/RoundTrip.antt =====
-- The text of agent/internal/wire/msgid.go is the 128-bit number in base 32, and can be read back.
use Prim.Native.Nat.{bit_and, bit_or}
use mathlib.Core.Path.{ap₂}
use everwas.Base.{
  ℕ, suc, ◌+◌, ◌*◌, ◌/◌, ◌%◌, ◌<◌, ◌≡◌, refl, ap, ◌∙◌, some, List, [], ◌∷◌, ◌++◌, map, ◌==◌, arith,
  length, if◌then◌else◌,
}
use everwas.Base.Text.{Text}
use everwas.Wire.MsgId.Bits.{agree, byte_table, masks, or_4, or_16, or_2, or_8}
use everwas.Wire.MsgId.{
  Bytes16, Random, crockford, char_at, shr, shl, indices, encode, msg_bytes, new_msg_id,
}

-- Digits of a number, the most significant first.
abbrev pub number : ℕ → ℕ → List ℕ → ℕ
number base acc [] = acc
number base acc (d ∷ ds) = number base (acc * base + d) ds

abbrev AllBelow : ℕ → List ℕ → Type 0
AllBelow n [] = Unit {0}
AllBelow n (d ∷ ds) = (d < n) × AllBelow n ds

-- Five bytes are eight indices.
abbrev group : ℕ → ℕ → ℕ → ℕ → ℕ → List ℕ
group a b c d e =
    shr (bit_and a 248) 3
    ∷ bit_or (shl (bit_and a 7) 2) (shr (bit_and b 192) 6)
    ∷ shr (bit_and b 62) 1
    ∷ bit_or (shl (bit_and b 1) 4) (shr (bit_and c 240) 4)
    ∷ bit_or (shl (bit_and c 15) 1) (shr (bit_and d 128) 7)
    ∷ shr (bit_and d 124) 2
    ∷ bit_or (shl (bit_and d 3) 3) (shr (bit_and e 224) 5)
    ∷ bit_and e 31
    ∷ []

abbrev sums : ℕ → ℕ → ℕ → ℕ → ℕ → List ℕ
sums a b c d e =
    a / 8
    ∷ (a % 8 * 4 + b / 64)
    ∷ (b / 2 % 32)
    ∷ (b % 2 * 16 + c / 16)
    ∷ (c % 16 * 2 + d / 128)
    ∷ (d / 4 % 32)
    ∷ (d % 4 * 8 + e / 32)
    ∷ e % 32
    ∷ []

module _ (a b c d e : ℕ) (ha : a < 256) (hb : b < 256) (hc : c < 256) (hd : d < 256)
    (he : e < 256) where
  group-sums : group a b c d e ≡ sums a b c d e
  group-sums =
      let p = masks a ha in
      let q = masks b hb in
      let r = masks c hc in
      let s = masks d hd in
      let t = masks e he in
      ground (
        arith,
        p.m248,
        p.m7,
        q.m192,
        q.m62,
        q.m1,
        r.m240,
        r.m15,
        s.m128,
        s.m124,
        s.m3,
        t.m224,
        t.m31,
        or_4 (a % 8) (b / 64) (omega arith) (omega arith),
        or_16 (b % 2) (c / 16) (omega arith) (omega arith),
        or_2 (c % 16) (d / 128) (omega arith) (omega arith),
        or_8 (d % 4) (e / 32) (omega arith) (omega arith),
      )

  sums-number : (acc : ℕ) → number 32 acc (sums a b c d e) ≡ number 256 acc (a ∷ b ∷ c ∷ d ∷ e ∷ [])
  sums-number acc = omega arith

  sums-AllBelow : AllBelow 32 (sums a b c d e)
  sums-AllBelow = omega arith

number-append :
    (base acc : ℕ) (xs ys : List ℕ)
    → number base acc (xs ++ ys) ≡ number base (number base acc xs) ys
number-append base acc [] ys = refl
number-append base acc (x ∷ xs) ys = number-append base (acc * base + x) xs ys

AllBelow-append : (n : ℕ) (xs ys : List ℕ) → AllBelow n xs → AllBelow n ys → AllBelow n (xs ++ ys)
AllBelow-append n [] ys h k = k
AllBelow-append n (x ∷ xs) ys h k = (h.0, AllBelow-append n xs ys h.1 k)

abbrev pub IsBytes : Bytes16 → Type 0
IsBytes b =
    (b.b0 < 256)
    × (b.b1 < 256)
    × (b.b2 < 256)
    × (b.b3 < 256)
    × (b.b4 < 256)
    × (b.b5 < 256)
    × (b.b6 < 256)
    × (b.b7 < 256)
    × (b.b8 < 256)
    × (b.b9 < 256)
    × (b.b10 < 256)
    × (b.b11 < 256)
    × (b.b12 < 256)
    × (b.b13 < 256)
    × (b.b14 < 256)
    × (b.b15 < 256)

abbrev pub bytes : Bytes16 → List ℕ
bytes b =
    b.b0 ∷ b.b1 ∷ b.b2 ∷ b.b3 ∷ b.b4 ∷ b.b5 ∷ b.b6 ∷ b.b7 ∷ b.b8 ∷ b.b9 ∷ b.b10 ∷ b.b11 ∷ b.b12
    ∷ b.b13 ∷ b.b14 ∷ b.b15 ∷ []

module _ (b : Bytes16) (h : IsBytes b) where
  indices-sums :
      indices b
      ≡ (b.b0 / 32 ∷ b.b0 % 32 ∷ [])
        ++ (sums b.b1 b.b2 b.b3 b.b4 b.b5
            ++ (sums b.b6 b.b7 b.b8 b.b9 b.b10 ++ sums b.b11 b.b12 b.b13 b.b14 b.b15))
  unfolding indices
  indices-sums =
      let m = masks b.b0 (h.0) in
      ap₂ (λ (x y : ℕ). x ∷ y ∷ indices_tail) m.m224 m.m31
      ∙ ap (λ (t : List ℕ). b.b0 / 32 ∷ b.b0 % 32 ∷ t)
          (ap₂ ◌++◌ (group-sums b.b1 b.b2 b.b3 b.b4 b.b5 h.1 h.2 h.3 h.4 h.5) (
            ap₂ ◌++◌ (group-sums b.b6 b.b7 b.b8 b.b9 b.b10 h.6 h.7 h.8 h.9 h.10)
              (group-sums b.b11 b.b12 b.b13 b.b14 b.b15 h.11 h.12 h.13 h.14 h.15)))
    where
      indices_tail : List ℕ
      indices_tail =
          group b.b1 b.b2 b.b3 b.b4 b.b5
          ++ (group b.b6 b.b7 b.b8 b.b9 b.b10 ++ group b.b11 b.b12 b.b13 b.b14 b.b15)

  indices-AllBelow : AllBelow 32 (indices b)
  indices-AllBelow = rw indices-sums (
    omega arith,
    (
      omega arith,
      AllBelow-append 32 (sums b.b1 b.b2 b.b3 b.b4 b.b5)
          (sums b.b6 b.b7 b.b8 b.b9 b.b10 ++ sums b.b11 b.b12 b.b13 b.b14 b.b15)
          (sums-AllBelow b.b1 b.b2 b.b3 b.b4 b.b5 h.1 h.2 h.3 h.4 h.5)
          (AllBelow-append 32 (sums b.b6 b.b7 b.b8 b.b9 b.b10) (sums b.b11 b.b12 b.b13 b.b14 b.b15)
            (sums-AllBelow b.b6 b.b7 b.b8 b.b9 b.b10 h.6 h.7 h.8 h.9 h.10)
            (sums-AllBelow b.b11 b.b12 b.b13 b.b14 b.b15 h.11 h.12 h.13 h.14 h.15)),
    ),
  )

  indices-number : number 32 0 (indices b) ≡ number 256 0 (bytes b)
  indices-number =
      let s1 = sums b.b1 b.b2 b.b3 b.b4 b.b5 in
      let s2 = sums b.b6 b.b7 b.b8 b.b9 b.b10 in
      let s3 = sums b.b11 b.b12 b.b13 b.b14 b.b15 in
      let start : (0 * 32 + b.b0 / 32) * 32 + b.b0 % 32 ≡ 0 * 256 + b.b0 = omega arith in
      rw indices-sums (
        ap (λ n. number 32 n (s1 ++ (s2 ++ s3))) start
        ∙ number-append 32 (0 * 256 + b.b0) s1 (s2 ++ s3)
        ∙ ap (λ n. number 32 n (s2 ++ s3))
            (sums-number b.b1 b.b2 b.b3 b.b4 b.b5 h.1 h.2 h.3 h.4 h.5 (0 * 256 + b.b0))
        ∙ number-append 32 (number 256 0 (b.b0 ∷ b.b1 ∷ b.b2 ∷ b.b3 ∷ b.b4 ∷ b.b5 ∷ [])) s2 s3
        ∙ ap (λ n. number 32 n s3) (sums-number b.b6 b.b7 b.b8 b.b9 b.b10 h.6 h.7 h.8 h.9 h.10 _)
        ∙ sums-number b.b11 b.b12 b.b13 b.b14 b.b15 h.11 h.12 h.13 h.14 h.15 _)

-- The place of a character in the alphabet.
abbrev pub position : Text → ℕ → ℕ
position [] c = 0
position (d ∷ s) c = if d == c then 0 else suc (position s c)

position-char_at : (i : ℕ) → i < 32 → position crockford (char_at crockford i) ≡ i
unfolding agree
position-char_at i h =
    byte_table 32 (λ i. position crockford (char_at crockford i)) (λ i. i) refl i h

positions :
    (is : List ℕ) → AllBelow 32 is → map (position crockford) (map (char_at crockford) is) ≡ is
positions [] h = refl
positions (i ∷ is) h = ap₂ ◌∷◌ (position-char_at i h.0) (positions is h.1)

-- A text read back as a number in base 32.
abbrev pub read : Text → ℕ
read t = number 32 0 (map (position crockford) t)

read-encode : (b : Bytes16) → IsBytes b → read (encode b) ≡ number 256 0 (bytes b)
unfolding encode
read-encode b h =
    ap (number 32 0) (positions (indices b) (indices-AllBelow b h)) ∙ indices-number b h

abbrev pub random_number : Random → ℕ
random_number r =
    number 256 0 (r.r0 ∷ r.r1 ∷ r.r2 ∷ r.r3 ∷ r.r4 ∷ r.r5 ∷ r.r6 ∷ r.r7 ∷ r.r8 ∷ r.r9 ∷ [])

abbrev pub IsRandom : Random → Type 0
IsRandom r =
    (r.r0 < 256)
    × (r.r1 < 256)
    × (r.r2 < 256)
    × (r.r3 < 256)
    × (r.r4 < 256)
    × (r.r5 < 256)
    × (r.r6 < 256)
    × (r.r7 < 256)
    × (r.r8 < 256)
    × (r.r9 < 256)

-- An id is the 128-bit number of the millisecond, as 48 bits, and the ten random bytes: read back in
-- base 32 it gives them again, for every millisecond below 2^48 and every ten bytes.
pub read-new_msg_id :
    (ms : ℕ) (r : Random)
    → ms < 281474976710656
    → IsRandom r
    → (t : Text) × (new_msg_id ms (some r) ≡ some t)
      × (length t ≡ 26)
      × (read t ≡ ms * 1208925819614629174706176 + random_number r)
unfolding new_msg_id indices
read-new_msg_id ms r small h = (
  encode (msg_bytes ms r),
  refl,
  refl,
  read-encode (msg_bytes ms r) (
    omega arith,
    omega arith,
    omega arith,
    omega arith,
    omega arith,
    omega arith,
    h.0,
    h.1,
    h.2,
    h.3,
    h.4,
    h.5,
    h.6,
    h.7,
    h.8,
    h.9,
  )
      ∙ omega arith,
)
