-- ===== src/Netcert/Phase.antt =====
-- agent/internal/netcert/netcert.go: where a certificate is in its life. A fraction of a float64 is compared
-- exactly, by cross-multiplication. `n` is the number that renewalOffset reads from the hash of the device.
pub mod Order
mod Tests
use everwas.Base.{
  ℕ, ◌+◌, ◌*◌, ◌/◌, Bool, true, false, not, Option, none, some, ltb, leb, if◌then◌else◌,
}
use everwas.Base.Int.{ℤ, pos, pos_part, leb_ℤ, time_sub}
use everwas.Base.Text.{Text}

-- What the device holds; the three paths are those of its directory.
pub record Material : Type 0 where
  pub not_before : ℕ
  pub not_after : ℕ
  pub serial : Text
  pub issued : Bool

pub data Phase : Type 0 where
  fresh due urgent expired : Phase

-- 2^32 - 1.
abbrev pub max_uint32 : ℕ
max_uint32 = 4294967295

abbrev pub life : Material → ℤ
life m = time_sub m.not_after m.not_before

abbrev pub elapsed : ℕ → Material → ℕ
elapsed now m = pos_part (time_sub now m.not_before)

-- `elapsed >= UrgentAt`, seven eighths of the life.
abbrev pub past_urgent : ℕ → Material → Bool
past_urgent now m = leb (7 * pos_part (life m)) (8 * elapsed now m)

-- `elapsed >= RenewAt+renewalOffset(id)`: half of the life and up to a twentieth of it more.
abbrev pub past_renewal : ℕ → ℕ → Material → Bool
past_renewal n now m =
    leb (pos_part (life m) * (10 * max_uint32 + n)) (elapsed now m * (20 * max_uint32))

unfoldable pub phase_at : ℕ → ℕ → Option Material → Phase
phase_at n now none = expired
phase_at n now (some m) =
    if leb_ℤ (life m) (pos 0)
    then expired
    else if not (ltb now m.not_after)
    then expired
    else if ltb now m.not_before
    then due
    else if past_urgent now m
    then urgent
    else if past_renewal n now m
    then due
    else fresh

-- `time.Duration(float64(life)*RenewAt)` drops the odd nanosecond.
unfoldable pub due_for_renewal : ℕ → Option Material → Bool
due_for_renewal now none = true
due_for_renewal now (some m) =
    if leb_ℤ (life m) (pos 0)
    then true
    else if ltb now m.not_before
    then true
    else leb (pos_part (life m) / 2) (elapsed now m)
