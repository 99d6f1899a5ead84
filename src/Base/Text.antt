-- ===== src/Base/Text.antt =====
-- Go's strings as lists of bytes, and the parts of package strings that the agent calls.
use Prim.Native.Nat.{◌+◌, ℕ}
use Prim.Native.Char.{code}
use Prim.Native.String.{String}
use mathlib.Core.Path.{◌≡◌, refl}
use mathlib.Core.Logic.{◌↔◌}
use mathlib.Core.Bool.{Bool, true, false, ◌&&◌, ◌||◌}
use mathlib.Core.Option.{Option, none, some}
use mathlib.Core.List.{List, [], ◌∷◌, ◌++◌}
use native.Mathlib.Omega.{arith}
use everwas.Base.Lists.{contains}
use everwas.Base.Tests.{ltb, if◌then◌else◌, leb, ◌==◌}

abbrev pub Text : Type 0
Text = List ℕ

-- A literal's code points: its bytes, since every literal of the agent that is used here is ASCII.
abbrev pub codes : String → Text
codes String.[] = []
codes (String.◌∷◌ c s) = code c ∷ codes s

-- `s == t` on strings.
unfoldable pub text_eq : Text → Text → Bool
text_eq [] [] = true
text_eq [] (b ∷ t) = false
text_eq (a ∷ s) [] = false
text_eq (a ∷ s) (b ∷ t) = a == b && text_eq s t

pub text_eq_refl : (s : Text) → text_eq s s ≡ true
unfolding text_eq
text_eq_refl [] = refl
text_eq_refl (a ∷ s) = ground (arith, text_eq_refl s)

text_eq_sound : (s t : Text) → text_eq s t ≡ true → s ≡ t
unfolding text_eq
text_eq_sound [] [] h = refl
text_eq_sound [] (b ∷ t) h = ground arith
text_eq_sound (a ∷ s) [] h = ground arith
text_eq_sound (a ∷ s) (b ∷ t) h = ground (arith, text_eq_sound s t)

pub text_eq_iff : (s t : Text) → (text_eq s t ≡ true) ↔ (s ≡ t)
text_eq_iff s t = (text_eq_sound s t, λ e. ground (arith, text_eq_refl s))

-- Whether a text occurs in a list: a `map[string]bool` as a set, or a linear search.
unfoldable pub member : Text → List Text → Bool
member v [] = false
member v (x ∷ xs) = text_eq x v || member v xs

pub member-append :
    (v : Text) (xs ys : List Text) → member v (xs ++ ys) ≡ (member v xs || member v ys)
unfolding member
member-append v [] ys = refl
member-append v (x ∷ xs) ys = ground (arith, member-append v xs ys)

-- `strings.Cut(s, sep)` for a separator of one byte: what stands before and after its first occurrence.
unfoldable pub cut : ℕ → Text → Option (Text × Text)
cut sep [] = none
cut sep (c ∷ s) = elim (c == sep) [
  | true ↦ some ([], s)
  | false ↦ elim (cut sep s) [ none ↦ none | some (l, r) ↦ some (c ∷ l, r) ]
]

-- What `cut` returns are the two halves, and the first has no separator.
pub cut-some :
    (sep : ℕ) (s l r : Text)
    → cut sep s ≡ some (l, r)
    → (s ≡ l ++ sep ∷ r) × (contains sep l ≡ false)
unfolding cut contains
cut-some sep [] l r h = ground arith
cut-some sep (c ∷ s) [] r h = ground arith
cut-some sep (c ∷ s) (d ∷ l) r h = ground (arith, cut-some sep s l r)

-- ASCII white space, which `strings.TrimSpace` takes off both ends.
unfoldable pub is_space : ℕ → Bool
is_space c = c == b' ' || leb 9 c && leb c 13

-- `strings.Split(s, sep)` for a separator of one byte: the pieces between its occurrences.
unfoldable pub split : ℕ → Text → List Text
split sep [] = [] ∷ []
split sep (c ∷ s) = elim (c == sep) [
  | true ↦ [] ∷ split sep s
  | false ↦ elim (split sep s) [ [] ↦ (c ∷ []) ∷ [] | p ∷ ps ↦ (c ∷ p) ∷ ps ]
]

-- White space off the front, and off the back.
unfoldable pub trim_left : Text → Text
unfolding is_space
trim_left [] = []
trim_left (c ∷ s) = let rest = trim_left s in if is_space c then rest else c ∷ s

unfoldable pub trim_right : Text → Text
unfolding is_space
trim_right [] = []
trim_right (c ∷ s) =
    let rest = trim_right s in
    elim rest [ [] ↦ if is_space c then [] else c ∷ [] | d ∷ t ↦ c ∷ d ∷ t ]

-- `strings.TrimSpace` on ASCII text.
unfoldable pub trim_space : Text → Text
unfolding trim_left trim_right
trim_space s = trim_left (trim_right s)

-- `strings.HasPrefix(s, p)`.
unfoldable pub has_prefix : Text → Text → Bool
has_prefix s [] = true
has_prefix [] (b ∷ p) = false
has_prefix (a ∷ s) (b ∷ p) = a == b && has_prefix s p

-- `strings.Contains(s, part)`.
unfoldable pub contains_text : Text → Text → Bool
unfolding has_prefix
contains_text part [] = has_prefix [] part
contains_text part (c ∷ cs) = has_prefix (c ∷ cs) part || contains_text part cs

-- `strings.ToLower` of ASCII text.
abbrev pub to_lower : Text → Text
to_lower [] = []
to_lower (c ∷ cs) = (if leb 65 c && leb c 90 then c + 32 else c) ∷ to_lower cs

-- `s < t` on strings.
unfoldable pub text_lt : Text → Text → Bool
text_lt s [] = false
text_lt [] (b ∷ t) = true
text_lt (a ∷ s) (b ∷ t) = ltb a b || (a == b && text_lt s t)

unfoldable pub insert_sorted : Text → List Text → List Text
unfolding text_lt
insert_sorted s [] = s ∷ []
insert_sorted s (t ∷ ts) =
    let rest = insert_sorted s ts in if text_lt t s then t ∷ rest else s ∷ t ∷ ts

-- `sort.Strings(out)`.
unfoldable pub sort_texts : List Text → List Text
unfolding insert_sorted
sort_texts [] = []
sort_texts (s ∷ ss) = insert_sorted s (sort_texts ss)

-- `strings.Join(words, sep)`.
unfoldable pub join_texts : Text → List Text → Text
join_texts sep [] = []
join_texts sep (w ∷ []) = w
join_texts sep (w ∷ v ∷ ws) = w ++ sep ++ join_texts sep (v ∷ ws)
