-- ===== src/Shell/Ring.antt =====
-- agent/internal/shell/ring.go. A method runs under the ring's mutex, so it is one step; a method
-- that mutates the ring returns the new one.

pub mod Refine
pub mod Gap
use everwas.Base.{
  ℕ, ◌-◌, Bool, true, false, List, [], ◌∷◌, ◌++◌, ltb, leb, ◌==◌, if◌then◌else◌, length, drop,
}
use everwas.Base.Text.{Text}

pub record Ring : Type 0 where
  pub max : ℕ
  pub buf : Text
  pub dropped : Bool

-- How much output is held while the transport is disconnected.
abbrev pub ring_bytes : ℕ
ring_bytes = 262144

unfoldable pub new_ring : ℕ → Ring
new_ring max = record { max = max; buf = []; dropped = false }

unfoldable pub write : Text → Ring → Ring
write p r =
    if length p == 0
    then r
    else if leb r.max (length p)
    then record r { buf = drop (length p - r.max) p; dropped = true }
    else let buf = r.buf ++ p in
      if ltb r.max (length buf)
      then record r { buf = drop (length buf - r.max) buf; dropped = true }
      else record r { buf = buf }

unfoldable pub drain : Ring → (Text × Bool) × Ring
drain r = ((r.buf, r.dropped), record r { buf = []; dropped = false })

unfoldable pub size : Ring → ℕ
size r = length r.buf

-- What a session does with its ring, one call at a time.
pub data Call : Type 0 where
  call_write : Text → Call
  call_drain : Call

-- The drained blocks, oldest first, with their flags, and the ring that is left.
unfoldable pub run : List Call → Ring → List (Text × Bool) × Ring
unfolding write drain
run [] r = ([], r)
run (call_write p ∷ calls) r = run calls (write p r)
run (call_drain ∷ calls) r =
    let (block, r') = drain r in let (blocks, r'') = run calls r' in (block ∷ blocks, r'')

unfoldable pub write_all : List Text → Ring → Ring
unfolding write
write_all [] r = r
write_all (p ∷ ps) r = write_all ps (write p r)
