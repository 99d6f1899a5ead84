-- ===== src/Scripts/Chunk/Frames.antt =====
-- One call of `write` of agent/internal/scripts/chunk.go: what it emits, and that it ends.
use everwas.Base.{
  ℕ, zero, suc, ◌+◌, ◌-◌, ◌≤◌, ◌<◌, ◌≡◌, refl, sym, ap, ◌∙◌, min, Bool, true, false, ◌||◌, ◌&&◌,
  not, some, List, [], ◌∷◌, ◌++◌, ltb, ◌==◌, if◌then◌else◌, length, take, drop, arith,
  take-append-drop, length-take, length-drop, Bool-cases, inl, inr, take_all,
}
use everwas.Base.Text.{Text}
use everwas.Scripts.Chunk.{Chunk, ChunkSink, Emitted, next_chunk, send, write_loop, write}

abbrev pub payload : List Chunk → Text
payload [] = []
payload (c ∷ cs) = c.body ++ payload cs

-- The chunks are data chunks of a job's stream, numbered on from `seq`, each with at least one byte
-- and at most `max`.
abbrev pub Framed : Text → Text → ℕ → Text → ℕ → List Chunk → Type 0
Framed job entry max stream seq [] = Unit {0}
Framed job entry max stream seq (c ∷ cs) =
    (c.seq ≡ suc seq)
    × (0 < length c.body)
    × (length c.body ≤ max)
    × (c.eof ≡ false)
    × (c.stream ≡ stream)
    × (c.job_id ≡ job)
    × (c.entry_id ≡ entry)
    × Framed job entry max stream (suc seq) cs

-- What the loop emits of `p`: everything, or, where a chunk was refused, all up to that chunk, which
-- is emitted and not counted.
pub record IsLoop (stream p : Text) (s : ChunkSink) (o : Emitted) : Type 0 where
  pub framed : Framed s.job_id s.entry_id s.max_chunk stream s.seq o.chunks
  pub whole : o.failed ≡ false → payload o.chunks ≡ p
  pub counted : o.failed ≡ false → o.sink.written ≡ s.written + length p
  pub within : o.sink.written ≤ s.written + length p
  pub numbered : o.sink.seq ≡ s.seq + length o.chunks
  pub same : record o.sink { seq = s.seq; written = s.written } ≡ s

module _ (refuses : Chunk → Bool) where
  IsLoop-step :
      (stream : Text) (b : ℕ) (p : Text) (s : ChunkSink) (n : ℕ) (rest : Emitted)
      → 0 < n
      → n ≤ s.max_chunk
      → n ≤ length (b ∷ p)
      → IsLoop stream (drop n (b ∷ p)) (record s { seq = suc s.seq; written = s.written + n }) rest
      → IsLoop stream
          (b ∷ p)
          s
          (record rest { chunks = next_chunk stream (take n (b ∷ p)) false s ∷ rest.chunks })
  IsLoop-step stream b p s n rest pos fits short h = record {
    framed = (
      refl,
      omega (arith, length-take n (b ∷ p)),
      omega (arith, length-take n (b ∷ p)),
      refl,
      refl,
      refl,
      refl,
      h.framed,
    );
    whole = λ e. rw (h.whole e) (take-append-drop n (b ∷ p));
    counted = λ e. omega (arith, h.counted e, length-drop n (b ∷ p));
    within = omega (arith, h.within, length-drop n (b ∷ p));
    numbered = omega (arith, h.numbered);
    same = ap (λ (t : ChunkSink). record t { seq = s.seq; written = s.written }) h.same;
  }

  IsLoop-refused :
      (stream : Text) (b : ℕ) (p : Text) (s : ChunkSink) (n : ℕ)
      → 0 < n
      → n ≤ s.max_chunk
      → n ≤ length (b ∷ p)
      → refuses (next_chunk stream (take n (b ∷ p)) false s) ≡ true
      → IsLoop stream (b ∷ p) s (send refuses stream (take n (b ∷ p)) false s)
  unfolding send
  IsLoop-refused stream b p s n pos fits short r = record {
    framed = (
      refl,
      omega (arith, length-take n (b ∷ p)),
      omega (arith, length-take n (b ∷ p)),
      refl,
      refl,
      refl,
      refl,
      tt,
    );
    whole = λ e. absurd (cc e);
    counted = λ e. absurd (cc e);
    within = omega arith;
    numbered = omega arith;
    same = refl;
  }

  -- With more rounds than bytes, and a chunk size that is not 0, the loop ends.
  write_loop_lem :
      (fuel : ℕ) (stream p : Text) (s : ChunkSink)
      → 0 < s.max_chunk
      → length p < fuel
      → (o : Emitted) × (write_loop refuses fuel stream p s ≡ some o) × IsLoop stream p s o
  unfolding write_loop
  write_loop_lem zero stream p s pos enough = absurd (omega arith)
  write_loop_lem (suc fuel) stream [] s pos enough = (
    record { chunks = []; failed = false; sink = s },
    refl,
    record {
      framed = tt;
      whole = λ e. refl;
      counted = λ e. omega arith;
      within = omega arith;
      numbered = omega arith;
      same = refl;
    },
  )
  write_loop_lem (suc fuel) stream (b ∷ p) s pos enough =
      let n = min (length (b ∷ p)) s.max_chunk in
      let first = send refuses stream (take n (b ∷ p)) false s in
      let (rest, e, h) =
        write_loop_lem fuel stream (drop n (b ∷ p))
          (record s { seq = suc s.seq; written = s.written + n }) pos
          (omega (arith, length-drop n (b ∷ p))) in
      elim (Bool-cases first.failed) [
        | inl r ↦
            (first, rw r, IsLoop-refused stream b p s n (omega arith) (omega arith) (omega arith) r)
        | inr r ↦ (
          record rest { chunks = next_chunk stream (take n (b ∷ p)) false s ∷ rest.chunks },
          rw (r, e),
          IsLoop-step stream b p s n rest (omega arith) (omega arith) (omega arith) h,
        )
      ]

-- The bytes of a block that the cap leaves.
abbrev pub kept : ChunkSink → Text → Text
kept s p = if s.truncated || s.stopped then [] else take (s.cap_bytes - s.written) p

pub record IsWrite (stream p : Text) (s : ChunkSink) (o : Emitted) : Type 0 where
  pub framed : Framed s.job_id s.entry_id s.max_chunk stream s.seq o.chunks
  pub whole : o.failed ≡ false → payload o.chunks ≡ kept s p
  pub counted : o.failed ≡ false → o.sink.written ≡ s.written + length (kept s p)
  pub within : o.sink.written ≤ s.cap_bytes
  pub numbered : o.sink.seq ≡ s.seq + length o.chunks
  pub flag :
      o.sink.truncated
      ≡ (s.truncated || (not s.stopped && ltb (s.cap_bytes - s.written) (length p)))
  pub same : record o.sink { seq = s.seq; written = s.written; truncated = s.truncated } ≡ s

take-nil : (n : ℕ) → take {A = ℕ} n [] ≡ []
take-nil zero = refl
take-nil (suc n) = refl

pub kept-nil : (s : ChunkSink) → kept s [] ≡ []
kept-nil s = ground (arith, take-nil (s.cap_bytes - s.written))

IsWrite-idle :
    (stream p : Text) (s : ChunkSink)
    → s.written ≤ s.cap_bytes
    → (length p == 0 || (s.truncated || s.stopped)) ≡ true
    → IsWrite stream p s (record { chunks = []; failed = false; sink = s })
IsWrite-idle stream [] s fits idle = record {
  framed = tt;
  whole = λ e. sym (kept-nil s);
  counted = λ e. rw (kept-nil s) (omega arith);
  within = fits;
  numbered = omega arith;
  flag = ground arith;
  same = refl;
}
IsWrite-idle stream (b ∷ p) s fits idle = record {
  framed = tt;
  whole = λ e. ground arith;
  counted = λ e. ground arith;
  within = fits;
  numbered = omega arith;
  flag = ground arith;
  same = refl;
}

-- From a loop over what the cap leaves to the whole call.
IsWrite-loop :
    (stream p p' : Text) (s : ChunkSink) (cut : Bool) (o : Emitted)
    → s.written ≤ s.cap_bytes
    → s.truncated ≡ false
    → s.stopped ≡ false
    → cut ≡ ltb (s.cap_bytes - s.written) (length p)
    → p' ≡ take (s.cap_bytes - s.written) p
    → IsLoop stream p' (record s { truncated = cut }) o
    → IsWrite stream p s o
IsWrite-loop stream p p' s cut o fits t d c e h = record {
  framed = h.framed;
  whole = λ w. h.whole w ∙ e ∙ left_whole;
  counted = λ w. rw (← left_whole) (rw (← e) (h.counted w));
  within =
      let short : length p' ≤ s.cap_bytes - s.written =
        rw e (omega (arith, length-take (s.cap_bytes - s.written) p)) in
      omega (arith, h.within);
  numbered = h.numbered;
  flag = ap (λ (t : ChunkSink). t.truncated) h.same ∙ c ∙ ground arith;
  same = ap (λ (t : ChunkSink). record t { truncated = s.truncated }) h.same;
}
  where
    left_whole : take (s.cap_bytes - s.written) p ≡ kept s p
    left_whole = rw (t, d) refl

module _ (refuses : Chunk → Bool) where
  write_fresh :
      (stream p : Text) (s : ChunkSink)
      → 0 < s.max_chunk
      → s.written ≤ s.cap_bytes
      → (length p == 0 || (s.truncated || s.stopped)) ≡ false
      → (o : Emitted) × (write refuses stream p s ≡ some o) × IsWrite stream p s o
  unfolding write
  write_fresh stream p s pos fits busy =
      let left = s.cap_bytes - s.written in
      let t : s.truncated ≡ false = ground arith in
      let d : s.stopped ≡ false = ground arith in
      elim (Bool-cases (ltb left (length p))) [
        | inl over ↦
            let (o, e, h) =
              write_loop_lem refuses (suc (length p)) stream (take left p)
                (record s { truncated = true }) pos (omega (arith, length-take left p)) in
            (
              o,
              rw (busy, over) e,
              IsWrite-loop stream p (take left p) s true o fits t d (sym over) refl h,
            )
        | inr all ↦
            let (o, e, h) = write_loop_lem refuses (suc (length p)) stream p s pos (omega arith) in
            let whole : p ≡ take left p = sym (take_all left p (ground arith)) in
            let s' : s ≡ record s { truncated = false } = ground arith in
            (
              o,
              rw (busy, all) e,
              IsWrite-loop stream p p s false o fits t d (sym all) whole (rw s' at h),
            )
      ]

  -- Within the cap and with chunks that are not empty, `write` ends: it emits, framed and numbered on,
  -- what the cap leaves of the block, and raises the flag exactly when bytes were left out.
  pub write_total :
      (stream p : Text) (s : ChunkSink)
      → 0 < s.max_chunk
      → s.written ≤ s.cap_bytes
      → (o : Emitted) × (write refuses stream p s ≡ some o) × IsWrite stream p s o
  write_total stream p s pos fits =
      elim (Bool-cases (length p == 0 || (s.truncated || s.stopped))) [
        | inl idle ↦ (
          record { chunks = []; failed = false; sink = s },
          unfold write in rw idle,
          IsWrite-idle stream p s fits idle,
        )
        | inr busy ↦ write_fresh stream p s pos fits busy
      ]
