-- ===== src/Shell/Flow/Bounds.antt =====
-- The count of agent/internal/shell/flow.go: how much can be in flight, and the two thresholds.
use everwas.Base.{
  ℕ, ◌+◌, ◌-◌, ◌≤◌, ◌<◌, ◌≡◌, Bool, true, false, not, ◌&&◌, some, List, [], ◌∷◌, arith,
}
use everwas.Base.Int.{ℤ, pos, negsuc, leb_ℤ, two_63, pos_part}
use everwas.Shell.Flow.{
  FlowController, Call, call_sent, call_ack, call_release, max_frame_bytes, sent, ack, step,
}

-- The count and the thresholds as plain numbers, and the hysteresis: a running reader is at most at
-- the upper threshold, a paused one above the lower.
pub record IsBalanced (a b u : ℕ) (f : FlowController) : Type 0 where
  pub above : f.pause_above ≡ pos a
  pub below : f.resume_below ≡ pos b
  pub count : f.unacked ≡ pos u
  pub running_low : f.paused ≡ false → u ≤ a
  pub paused_high : f.paused ≡ true → b < u

-- The count after an acknowledgement of `n` bytes.
abbrev pub acked : ℕ → ℤ → ℕ
acked u (pos n) = u - n
acked u (negsuc n) = u

-- Where no sum overflows, `sent` adds, and it pauses exactly when the count passes the upper
-- threshold while running.
pub sent-IsBalanced :
    (a b u n : ℕ) (f : FlowController)
    → b ≤ a
    → u + n < two_63
    → IsBalanced a b u f
    → IsBalanced a b (u + n) (sent n f).0
unfolding sent
sent-IsBalanced a b u n f ba small h = ground (arith, h.above, h.below, h.count)

-- An acknowledgement subtracts, never below 0, and it resumes exactly when a paused count falls to
-- the lower threshold; one of no bytes, or of fewer, changes nothing.
pub ack-IsBalanced :
    (a b u : ℕ) (n : ℤ) (f f' : FlowController) (resumed : Bool)
    → u < two_63
    → pos_part n < two_63
    → b ≤ a
    → IsBalanced a b u f
    → ack n f ≡ some (f', resumed)
    → IsBalanced a b (acked u n) f'
      × (resumed ≡ (f.paused && not f'.paused))
      × (resumed ≡ (f.paused && leb_ℤ (pos (acked u n)) (pos b)))
unfolding ack
ack-IsBalanced a b u (pos n) f f' resumed small range ba h e =
    ground (arith, h.above, h.below, h.count, h.running_low, h.paused_high)
ack-IsBalanced a b u (negsuc n) f f' resumed small range ba h e =
    ground (arith, h.above, h.below, h.count, h.running_low, h.paused_high)

-- A session that reads a frame only while it is not paused, in which acknowledgements are int64
-- values, and that has not been torn down.
abbrev pub Obeys : List Call → FlowController → Type 0
Obeys [] f = Unit {0}
Obeys (call_sent n ∷ cs) f = (f.paused ≡ false) × (n ≤ max_frame_bytes) × Obeys cs (sent n f).0
Obeys (call_ack n ∷ cs) f =
    (pos_part n < two_63) × ((f' : FlowController) → step (call_ack n) f ≡ some f' → Obeys cs f')
Obeys (call_release ∷ cs) f = ⊥

-- A count that one frame past the upper threshold bounds.
abbrev InFlight : FlowController → Type 0
InFlight f = (u : ℕ) × (u ≤ 524288 + max_frame_bytes) × IsBalanced 524288 262144 u f
