-- ===== src/Sched/Misfire.antt =====
-- agent/internal/sched/misfire.go and jitter.go. A cron schedule is its `Next`, from the third-party
-- cron package: the next fire after an instant, or the zero instant.
pub mod Scan
use Prim.Native.Nat.{bit_xor}
use everwas.Base.{
  ℕ, zero, suc, ◌+◌, ◌-◌, ◌*◌, ◌/◌, ◌%◌, ◌^◌, Bool, true, false, not, ◌&&◌, ◌||◌, List, [], ◌∷◌,
  ◌++◌, ltb, leb, ◌==◌, if◌then◌else◌,
}
use everwas.Base.Int.{ℤ, pos, negsuc, leb_ℤ, ltb_ℤ, time_sub, seconds, second, two_64, pos_part}
use everwas.Base.Text.{Text}

abbrev pub max_scan : ℕ
max_scan = 20000

abbrev pub fire_slack : ℕ
fire_slack = 60 * second

abbrev pub misfire_jitter_s : ℤ
misfire_jitter_s = pos 60

pub data MisfireAction : Type 0 where
  misfire_none misfire_run misfire_skip : MisfireAction

unfoldable pub decide_misfire : ℕ → ℕ → ℤ → MisfireAction
decide_misfire missed_at now grace_s =
    if missed_at == 0
    then misfire_none
    else if leb_ℤ grace_s (pos 0)
    then misfire_skip
    else if leb_ℤ (time_sub now missed_at) (seconds grace_s)
    then misfire_run
    else misfire_skip

-- The loop, with the last fire found and the count; `next` is called once a turn.
unfoldable pub scan : (ℕ → ℕ) → ℕ → ℕ → ℕ → ℕ → ℕ → ℕ × ℕ
scan next now zero t last_fire count = (last_fire, count)
scan next now (suc limit) t last_fire count =
    let n = next t in
    let rest = scan next now limit n n (suc count) in
    if n == 0 || (not (ltb t n) || ltb now n) then (last_fire, count) else rest

unfoldable pub last_missed : (ℕ → ℕ) → ℕ → ℕ → ℕ → ℕ × ℕ
unfolding scan
last_missed next since now scan_limit = scan next now scan_limit since 0 0

abbrev pub fnv_prime : ℕ
fnv_prime = 1099511628211

abbrev pub fnv_offset : ℕ
fnv_offset = 14695981039346656037

-- `fnv.New64`: multiply, then xor with the byte.
unfoldable pub fnv_64 : ℕ → Text → ℕ
fnv_64 h [] = h
fnv_64 h (b ∷ bs) = fnv_64 (bit_xor (h * fnv_prime % two_64) b) bs

unfoldable pub jitter : Text → Text → ℤ → ℤ
unfolding fnv_64
jitter agent_id entry_id jitter_s =
    if leb_ℤ jitter_s (pos 0)
    then pos 0
    else seconds (pos (fnv_64 fnv_offset (agent_id ++ entry_id) % pos_part jitter_s))
