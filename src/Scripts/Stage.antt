-- ===== src/Scripts/Stage.antt =====
-- agent/internal/scripts/stage.go: where a script body is staged.
use everwas.Base.{ℕ, Bool, ◌&&◌, ◌||◌, [], ◌∷◌, take, length, ltb, leb, ◌==◌, if◌then◌else◌}
use everwas.Base.Text.{Text, codes, text_eq}

abbrev pub is_safe : ℕ → Bool
is_safe c =
    (leb b'a' c && leb c b'z')
    || (leb b'A' c && leb c b'Z')
    || (leb b'0' c && leb c b'9')
    || (c == b'-' || (c == b'_' || c == b'.'))

-- The loop, on ASCII text: other runes are each one underscore.
unfoldable pub safe_codes : Text → Text
safe_codes [] = []
safe_codes (c ∷ s) = (if is_safe c then c else b'_') ∷ safe_codes s

-- `strings.Trim(s, ".")`.
unfoldable pub trim_dots_left : Text → Text
trim_dots_left [] = []
trim_dots_left (c ∷ s) = let rest = trim_dots_left s in if c == b'.' then rest else c ∷ s

unfoldable pub trim_dots_right : Text → Text
trim_dots_right [] = []
trim_dots_right (c ∷ s) = elim (trim_dots_right s) [
  | [] ↦ if c == b'.' then [] else c ∷ []
  | d ∷ t ↦ c ∷ d ∷ t
]

unfoldable pub safe_name : Text → Text
unfolding safe_codes trim_dots_left trim_dots_right
safe_name job_id =
    let trimmed = trim_dots_left (trim_dots_right (safe_codes job_id)) in
    let name = if text_eq trimmed [] then codes "job" else trimmed in
    if ltb 96 (length name) then take 96 name else name
