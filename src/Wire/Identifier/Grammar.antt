-- ===== src/Wire/Identifier/Grammar.antt =====
-- The grammar that agent/internal/wire/identifier.go accepts: dot-separated segments of letters, digits,
-- underscores and dashes, none of them empty.
use everwas.Base.{
  ℕ, ◌≤◌, ◌≡◌, ◌≢◌, ◌↔◌, ◌⊎◌, inl, inr, refl, true, false, none, List, [], ◌∷◌, ◌==◌, length, arith,
  Bool-cases,
}
use everwas.Base.Text.{Text, split}
use everwas.Wire.Identifier.{check_char, check_chars, check_segments, valid_identifier}

abbrev pub Between : ℕ → ℕ → ℕ → Type 0
Between lo hi c = (lo ≤ c) × (c ≤ hi)

abbrev pub IsTokenChar : ℕ → Type 0
IsTokenChar c =
    Between b'a' b'z' c ⊎ (Between b'A' b'Z' c ⊎ (Between b'0' b'9' c ⊎ ((c ≡ b'_') ⊎ (c ≡ b'-'))))

-- A token character, and then the end, a dot with more behind it, or more.
abbrev pub IsDotted : Text → Type 0
IsDotted [] = ⊥
IsDotted (c ∷ []) = IsTokenChar c
IsDotted (c ∷ d ∷ s) = IsTokenChar c × (((d ≡ b'.') × IsDotted s) ⊎ IsDotted (d ∷ s))

-- What the two loops of the check ask together.
abbrev pub Passes : Text → Type 0
Passes s = (check_chars s ≡ none) × (check_segments (split b'.' s) ≡ none)

token_char : (c : ℕ) → check_char c ≡ none → c ≢ b'.' → IsTokenChar c
unfolding check_char
token_char c h n = ground arith

char_token : (c : ℕ) → IsTokenChar c → (check_char c ≡ none) × (c == b'.' ≡ false)
unfolding check_char
char_token c h = ground arith

split-ne-nil : (sep : ℕ) (s : Text) → (p : Text) × (ps : List Text) × (split sep s ≡ p ∷ ps)
unfolding split
split-ne-nil sep [] = ([], [], refl)
split-ne-nil sep (c ∷ s) = elim (Bool-cases (c == sep)) [
  | inl e ↦ ([], split sep s, rw (e, split) refl)
  | inr n ↦ let (p, ps, e) = split-ne-nil sep s in (c ∷ p, ps, rw (n, split, e) refl)
]

Passes-head : (c : ℕ) (s : Text) → Passes (c ∷ s) → IsTokenChar c
unfolding check_chars split check_segments
Passes-head c s (h, k) = token_char c (ground arith) (λ e. ground arith)

Passes-tail : (c d : ℕ) (s : Text) → Passes (c ∷ d ∷ s) → ((d ≡ b'.') × Passes s) ⊎ Passes (d ∷ s)
unfolding check_chars split check_segments
Passes-tail c d s (h, k) = let (p, ps, e) = split-ne-nil b'.' s in ground arith

Passes-IsDotted : (s : Text) → Passes s → IsDotted s
Passes-IsDotted [] (h, k) = unfold split check_segments in cc
Passes-IsDotted (c ∷ []) h = Passes-head c [] h
Passes-IsDotted (c ∷ d ∷ s) h = (
  Passes-head c (d ∷ s) h,
  elim (Passes-tail c d s h) [
    | inl q ↦ inl (q.0, Passes-IsDotted s q.1)
    | inr q ↦ inr (Passes-IsDotted (d ∷ s) q)
  ],
)

Passes-cons : (c d : ℕ) (s : Text) → IsTokenChar c → Passes (d ∷ s) → Passes (c ∷ d ∷ s)
unfolding check_chars split check_segments
Passes-cons c d s h k =
    let (ok, n) = char_token c h in
    let (p, ps, e) = split-ne-nil b'.' s in
    elim (Bool-cases (d == b'.')) [ inl dot ↦ ground arith | inr more ↦ ground arith ]

dot_char : (d : ℕ) → d ≡ b'.' → (check_char d ≡ none) × (d == b'.' ≡ true)
unfolding check_char
dot_char d e = ground arith

Passes-dot : (c d : ℕ) (s : Text) → IsTokenChar c → d ≡ b'.' → Passes s → Passes (c ∷ d ∷ s)
unfolding check_chars split check_segments
Passes-dot c d s h e k =
    let (ok, n) = char_token c h in let (ok', n') = dot_char d e in ground arith

IsDotted-Passes : (s : Text) → IsDotted s → Passes s
IsDotted-Passes [] h = absurd h
IsDotted-Passes (c ∷ []) h =
    let (ok, n) = char_token c h in unfold check_chars split check_segments in ground arith
IsDotted-Passes (c ∷ d ∷ s) (h, inl q) = Passes-dot c d s h q.0 (IsDotted-Passes s q.1)
IsDotted-Passes (c ∷ d ∷ s) (h, inr q) = Passes-cons c d s h (IsDotted-Passes (d ∷ s) q)

-- The check accepts exactly the texts of 1 to 128 bytes that are dot-separated, non-empty segments of
-- letters, digits, underscores and dashes.
pub valid_identifier_iff :
    (s : Text) → (valid_identifier s ≡ none) ↔ (IsDotted s × (length s ≤ 128))
unfolding valid_identifier
valid_identifier_iff [] = ((λ h. cc), (λ h. absurd h.0))
valid_identifier_iff (c ∷ s) = (
  (λ h. (Passes-IsDotted (c ∷ s) (ground arith), ground arith)),
  (λ h. ground (arith, IsDotted-Passes (c ∷ s) h.0)),
)
