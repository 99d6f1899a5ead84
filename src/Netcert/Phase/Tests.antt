-- ===== src/Netcert/Phase/Tests.antt =====
-- Certificates of agent/internal/netcert at concrete moments.
use everwas.Base.{◌≡◌, ◌*◌, refl, true, false, some, []}
use everwas.Base.Int.{second}
use everwas.Netcert.Phase.{Material, fresh, urgent, phase_at, due_for_renewal}

-- A life of 80 days.
abbrev held : Material
held = record { not_before = 0; not_after = 6912000 * second; serial = []; issued = false }

-- At half of its life the certificate of a device with the greatest offset is fresh, and is renewed.
renewed_fresh :
    (phase_at 4294967295 (3456000 * second) (some held) ≡ fresh)
    × (due_for_renewal (3456000 * second) (some held) ≡ true)
unfolding phase_at due_for_renewal
renewed_fresh = (refl, refl)

late_urgent : phase_at 9 (6220800 * second) (some held) ≡ urgent
unfolding phase_at
late_urgent = refl
