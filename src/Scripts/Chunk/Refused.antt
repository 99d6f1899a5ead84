-- ===== src/Scripts/Chunk/Refused.antt =====
-- When a call of the sink of agent/internal/scripts/chunk.go fails: exactly when a chunk of it was refused.
use everwas.Base.{
  ◌<◌, ◌≤◌, ℕ, zero, suc, ◌+◌, ◌-◌, ◌≡◌, refl, Bool, true, false, ◌||◌, none, some, List, [], ◌∷◌,
  ◌++◌, min, take, drop, length, any_of, arith, Bool-cases, Option-cases, inl, inr, ltb, ◌==◌,
}
use everwas.Base.Text.{Text}
use everwas.Scripts.Chunk.{
  new_chunk_sink, stop, Chunk, ChunkSink, Emitted, send, write_loop, write, eof, next_chunk,
}
use everwas.Scripts.Chunk.Capture.{Call, call_write, call_eof, call_stop, step, run, join}

any_of-append :
    (p : Chunk → Bool) (cs ds : List Chunk) → any_of p (cs ++ ds) ≡ (any_of p cs || any_of p ds)
any_of-append p [] ds = refl
any_of-append p (c ∷ cs) ds = ground (arith, any_of-append p cs ds)

module _ (refuses : Chunk → Bool) where
  write_loop-failed :
      (fuel : ℕ) (stream p : Text) (s : ChunkSink) (o : Emitted)
      → write_loop refuses fuel stream p s ≡ some o
      → o.failed ≡ any_of refuses o.chunks
  unfolding write_loop send
  write_loop-failed zero stream p s o e = ground (arith, e)
  write_loop-failed (suc fuel) stream [] s o e = ground (arith, e)
  write_loop-failed (suc fuel) stream (b ∷ p) s o e =
      let n = min (length (b ∷ p)) s.max_chunk in
      let s' : ChunkSink = record s { seq = suc s.seq; written = s.written + n } in
      let c = next_chunk stream (take n (b ∷ p)) false s in
      elim (Bool-cases (refuses c)) [
        | inl r ↦ let e' = rw r at e in ground (arith, e')
        | inr r ↦ elim (Option-cases (write_loop refuses fuel stream (drop n (b ∷ p)) s')) [
          | inl q ↦ let e' = rw (r, q) at e in ground (arith, e')
          | inr (a, q) ↦
              let h = write_loop-failed fuel stream (drop n (b ∷ p)) s' a q in
              let e' = rw (r, q) at e in ground (arith, e')
        ]
      ]

  write-failed :
      (stream p : Text) (s : ChunkSink) (o : Emitted)
      → write refuses stream p s ≡ some o
      → o.failed ≡ any_of refuses o.chunks
  unfolding write
  write-failed stream p s o e = elim (Bool-cases (length p == 0 || (s.truncated || s.stopped))) [
    | inl idle ↦ let e' = rw idle at e in ground (arith, e')
    | inr busy ↦ elim (Bool-cases (ltb (s.cap_bytes - s.written) (length p))) [
      | inl over ↦
          let e' = rw (busy, over) at e in
          write_loop-failed (suc (length p)) stream (take (s.cap_bytes - s.written) p)
            (record s { truncated = true }) o e'
      | inr all ↦ let e' = rw (busy, all) at e in write_loop-failed (suc (length p)) stream p s o e'
    ]
  ]

  step-failed :
      (c : Call) (s : ChunkSink) (o : Emitted)
      → step refuses c s ≡ some o
      → o.failed ≡ any_of refuses o.chunks
  unfolding step eof send stop
  step-failed (call_write stream p) s o e = write-failed stream p s o e
  step-failed (call_eof stream) s o e = ground (arith, e)
  step-failed call_stop s o e = ground (arith, e)

  -- A run of calls fails exactly when the publisher refused one of the chunks that it emitted.
  pub run-failed :
      (cs : List Call) (s : ChunkSink) (o : Emitted)
      → run refuses cs s ≡ some o
      → o.failed ≡ any_of refuses o.chunks
  unfolding run
  run-failed [] s o e = ground (arith, e)
  run-failed (c ∷ cs) s o e = elim (Option-cases (step refuses c s)) [
    | inl q ↦ let e' : none ≡ some o = rw (run, q) at e in absurd (ground (arith, e'))
    | inr (a, q) ↦ elim (Option-cases (run refuses cs a.sink)) [
      | inl t ↦ let e' : none ≡ some o = rw (run, q, t) at e in absurd (ground (arith, e'))
      | inr (b, t) ↦
          let e' : join a (some b) ≡ some o = rw (run, q, t) at e in
          ground (
            arith,
            e',
            step-failed c s a q,
            run-failed cs a.sink b t,
            any_of-append refuses a.chunks b.chunks,
          )
    ]
  ]

pub new_chunk_sink-fits :
    (job entry : Text)
    → (0 < (new_chunk_sink job entry).max_chunk)
      × ((new_chunk_sink job entry).written ≤ (new_chunk_sink job entry).cap_bytes)
unfolding new_chunk_sink
new_chunk_sink-fits job entry = (omega arith, omega arith)
