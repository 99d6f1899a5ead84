-- ===== src/Wire/Identifier.antt =====
-- agent/internal/wire/identifier.go. The loop over runes is one over bytes: a rune of more than one byte
-- is refused at its first byte, which is at least 128, by the same branch.
pub mod Grammar
use everwas.Base.{
  ℕ, Bool, ◌&&◌, ◌||◌, Option, none, some, List, [], ◌∷◌, ltb, leb, ◌==◌, if◌then◌else◌, length,
}
use everwas.Base.Text.{Text, split}

pub data IdentifierError : Type 0 where
  empty too_long wildcard whitespace bad_char empty_segment : IdentifierError

abbrev pub max_identifier_len : ℕ
max_identifier_len = 128

unfoldable pub check_char : ℕ → Option IdentifierError
check_char r =
    if leb b'a' r && leb r b'z' || (leb b'A' r && leb r b'Z' || leb b'0' r && leb r b'9')
    then none
    else if r == b'.' || (r == b'_' || r == b'-')
    then none
    else if r == b'*' || r == b'>'
    then some wildcard
    else if r == b' ' || (r == 9 || (r == 13 || (r == 10 || (r == 11 || r == 12))))
    then some whitespace
    else some bad_char

-- The error of the first character that has one.
unfoldable pub check_chars : Text → Option IdentifierError
check_chars [] = none
check_chars (r ∷ s) =
    let rest = check_chars s in elim (check_char r) [ none ↦ rest | some e ↦ some e ]

unfoldable pub check_segments : List Text → Option IdentifierError
check_segments [] = none
check_segments (tok ∷ toks) = if length tok == 0 then some empty_segment else check_segments toks

-- `none` is a nil error.
unfoldable pub valid_identifier : Text → Option IdentifierError
unfolding check_chars check_segments
valid_identifier s =
    if length s == 0
    then some empty
    else if ltb max_identifier_len (length s)
    then some too_long
    else elim (check_chars s) [ none ↦ check_segments (split b'.' s) | some e ↦ some e ]

-- The error of `CheckIdentifier` names the field, and wraps the same error.
unfoldable pub check_identifier : Text → Text → Option (Text × IdentifierError)
unfolding valid_identifier
check_identifier field s = elim (valid_identifier s) [ none ↦ none | some e ↦ some (field, e) ]
