-- ===== src/Shell/Ring/Gap.antt =====
-- The gap flag of agent/internal/shell/ring.go: when it is raised, and what it stands for.
use everwas.Base.{
  drop_le, true, ◌<◌, ℕ, ◌-◌, ◌≤◌, ◌≡◌, sym, ap, ◌∙◌, Bool, false, ◌||◌, ◌&&◌, not, List, [], ◌∷◌,
  ◌++◌, append_assoc, append-nil, arith, ltb, leb, ◌==◌, length, keep_last, length-append,
  length-drop, any_of,
}
use everwas.Base.Text.{Text}
use everwas.Shell.Ring.{Ring, Call, call_write, call_drain, new_ring, write, drain, run, write_all}
use everwas.Shell.Ring.Refine.{flat, buf-write, max-write, length-keep_last}

-- A block that fills the whole ring by itself.
abbrev pub fills : ℕ → Text → Bool
fills max p = not (length p == 0) && leb max (length p)

dropped-write :
    (p : Text) (r : Ring)
    → length r.buf ≤ r.max
    → (write p r).dropped ≡ (r.dropped || (fills r.max p || ltb r.max (length (r.buf ++ p))))
unfolding write
dropped-write p r h = ground (arith, length-append r.buf p)

-- What a write leaves in the buffer overflows later exactly when the whole text would have, unless
-- the flag is up already.
overflow-write :
    (p q : Text) (r : Ring)
    → length r.buf ≤ r.max
    → (ltb r.max (length (r.buf ++ p)) || ltb r.max (length ((write p r).buf ++ q)))
      ≡ (ltb r.max (length (r.buf ++ p)) || ltb r.max (length (r.buf ++ (p ++ q))))
overflow-write p q r h = rw (buf-write p r h) (
    ground (
      arith,
      length-append r.buf p,
      length-append r.buf (p ++ q),
      length-append p q,
      length-append (keep_last r.max (r.buf ++ p)) q,
      length-drop (length (r.buf ++ p) - r.max) (r.buf ++ p),
    ))

-- The flag after any writes: it was up, or a block filled the ring by itself, or more bytes came
-- than the ring holds.
pub dropped-write_all :
    (ps : List Text) (r : Ring)
    → length r.buf ≤ r.max
    → (write_all ps r).dropped
      ≡ (r.dropped || (any_of (fills r.max) ps || ltb r.max (length (r.buf ++ flat ps))))
unfolding write_all
dropped-write_all [] r h = rw append-nil (ground arith)
dropped-write_all (p ∷ ps) r h =
    let bound : length (write p r).buf ≤ r.max =
      rw (buf-write p r h) (length-keep_last r.max (r.buf ++ p)) in
    let ih = rw (max-write p r) at (dropped-write_all ps (write p r) (rw (max-write p r) bound)) in
    ih
    ∙ rw (dropped-write p r h) (
        ground (
          arith,
          overflow-write p (flat ps) r h,
          length-append r.buf p,
          length-append r.buf (p ++ flat ps),
          length-append p (flat ps),
        ))

-- A write that leaves the flag down has kept every byte.
pub lossless-write :
    (p : Text) (r : Ring)
    → (write p r).dropped ≡ false
    → ((write p r).buf ≡ r.buf ++ p) × (r.dropped ≡ false)
unfolding write
lossless-write [] r h = (sym (append-nil r.buf), h)
lossless-write (c ∷ p) r h = (ground arith, ground arith)

abbrev pub written : List Call → Text
written [] = []
written (call_write p ∷ calls) = p ++ written calls
written (call_drain ∷ calls) = written calls

abbrev pub drained : List (Text × Bool) → Text
drained [] = []
drained ((p, gap) ∷ blocks) = p ++ drained blocks

abbrev pub gaps : List (Text × Bool) → Bool
gaps [] = false
gaps ((p, gap) ∷ blocks) = gap || gaps blocks

-- If the flag is down at the end, it was down before the first drain.
run_lossless_flag :
    (calls : List Call) (r : Ring)
    → gaps (run calls r).0 ≡ false
    → (run calls r).1.dropped ≡ false
    → r.dropped ≡ false
unfolding run
run_lossless_flag [] r g h = h
run_lossless_flag (call_write p ∷ calls) r g h =
    (lossless-write p r (run_lossless_flag calls (write p r) g h)).1
run_lossless_flag (call_drain ∷ calls) r g h = ground arith

-- Over any sequence of writes and drains in which no drain reported a gap and none is pending, the
-- drained blocks in order, followed by the buffer, are the old buffer followed by every written byte.
pub run_lossless :
    (calls : List Call) (r : Ring)
    → gaps (run calls r).0 ≡ false
    → (run calls r).1.dropped ≡ false
    → drained (run calls r).0 ++ (run calls r).1.buf ≡ r.buf ++ written calls
unfolding run
run_lossless [] r g h = sym (append-nil r.buf)
run_lossless (call_write p ∷ calls) r g h =
    run_lossless calls (write p r) g h
    ∙ rw ((lossless-write p r (run_lossless_flag calls (write p r) g h)).0)
        (append_assoc r.buf p (written calls))
run_lossless (call_drain ∷ calls) r g h =
    append_assoc r.buf (drained (run calls (drain r).1).0) (run calls (drain r).1).1.buf
    ∙ ap (λ t. r.buf ++ t) (run_lossless calls (drain r).1 (ground arith) h)

-- A block that fills an empty ring exactly is drained whole, and still reported as a gap.
pub exact_fill_gap :
    (p : Text) → 0 < length p → (drain (write p (new_ring (length p)))).0 ≡ (p, true)
unfolding drain write new_ring
exact_fill_gap p h = ground (arith, drop_le (length p - length p) p)
