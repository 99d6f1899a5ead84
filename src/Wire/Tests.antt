-- ===== src/Wire/Tests.antt =====
-- Runs of agent/internal/wire at concrete inputs.
use everwas.Base.{◌≤◌, ◌≡◌, ◌↔◌, refl, some, none, length}
use everwas.Base.Text.{codes, split}
use everwas.Wire.Identifier.{check_char, valid_identifier, empty_segment, wildcard}
use everwas.Wire.Identifier.Grammar.{IsDotted, valid_identifier_iff}
use everwas.Wire.MsgId.{Random}

valid_identifier_iff_example :
    (valid_identifier (codes "a.b") ≡ none)
    ↔ (IsDotted (codes "a.b") × (length (codes "a.b") ≤ 128))
valid_identifier_iff_example = valid_identifier_iff (codes "a.b")

refused :
    (valid_identifier (codes "a..b") ≡ some empty_segment)
    × (valid_identifier (codes "a.>") ≡ some wildcard)
unfolding valid_identifier check_char split
refused = (refl, refl)

abbrev dice : Random
dice = record { r0 = 0; r1 = 1; r2 = 2; r3 = 3; r4 = 4; r5 = 5; r6 = 6; r7 = 7; r8 = 8; r9 = 255 }
