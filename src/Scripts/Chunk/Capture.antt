-- ===== src/Scripts/Chunk/Capture.antt =====
-- A whole job's output through the sink of agent/internal/scripts/chunk.go: what the server can
-- reassemble from the chunks.
use everwas.Base.{
  inr, inl, Option-cases, ℕ, suc, ◌+◌, ◌-◌, ◌≤◌, ◌<◌, ◌≡◌, refl, sym, ap, ◌∙◌, Bool, false, ◌||◌,
  ◌&&◌, not, Option, none, some, List, [], ◌∷◌, ◌++◌, ltb, append-nil, append_assoc, length, take,
  arith, length-take, length-append, take_all, take-append_le, take-append_ge,
}
use everwas.Base.Text.{Text}
use everwas.Scripts.Chunk.{Chunk, ChunkSink, Emitted, write, eof, stop}
use everwas.Scripts.Chunk.Frames.{payload, kept, kept-nil, Framed, IsWrite, write_total}

-- What a runner does with a sink.
pub data Call : Type 0 where
  call_write : Text → Text → Call
  call_eof : Text → Call
  call_stop : Call

abbrev pub join : Emitted → Option Emitted → Option Emitted
join first none = none
join first (some rest) = some (record {
  chunks = first.chunks ++ rest.chunks;
  failed = first.failed || rest.failed;
  sink = rest.sink;
})

module _ (refuses : Chunk → Bool) where
  unfoldable pub step : Call → ChunkSink → Option Emitted
  step (call_write stream p) s = write refuses stream p s
  step (call_eof stream) s = some (eof refuses stream s)
  step call_stop s = some (record { chunks = []; failed = false; sink = stop s })

  -- The runner's calls in order; an error of one is logged, and the next is made all the same.
  unfoldable pub run : List Call → ChunkSink → Option Emitted
  run [] s = some (record { chunks = []; failed = false; sink = s })
  run (c ∷ cs) s = elim (step c s) [ none ↦ none | some o ↦ join o (run cs o.sink) ]

join-join :
    (a b o : Emitted)
    → join a (join b (some o))
      ≡ join (record b { chunks = a.chunks ++ b.chunks; failed = a.failed || b.failed }) (some o)
join-join a b o = ground (arith, append_assoc a.chunks b.chunks o.chunks)

-- The calls of one part of a run and then those of the next.
pub run-append :
    (refuses : Chunk → Bool) (cs ds : List Call) (s : ChunkSink) (o o' : Emitted)
    → run refuses cs s ≡ some o
    → run refuses ds o.sink ≡ some o'
    → run refuses (cs ++ ds) s ≡ join o (some o')
unfolding run
run-append refuses [] ds s o o' e e' = ground (arith, e')
run-append refuses (c ∷ cs) ds s o o' e e' = elim (Option-cases (step refuses c s)) [
  | inl q ↦ let e0 : none ≡ some o = rw (run, q) at e in absurd (ground (arith, e0))
  | inr (a, q) ↦ elim (Option-cases (run refuses cs a.sink)) [
    | inl t ↦ let e0 : none ≡ some o = rw (run, q, t) at e in absurd (ground (arith, e0))
    | inr (b, t) ↦
        let e0 : join a (some b) ≡ some o = rw (run, q, t) at e in
        let both : Emitted = record b {
          chunks = a.chunks ++ b.chunks;
          failed = a.failed || b.failed;
        } in
        let same : both ≡ o = ground (arith, e0) in
        let k : b.sink ≡ o.sink = ground (arith, e0) in
        let rest = run-append refuses cs ds a.sink b o' t (rw k e') in
        rw (run, q, rest) (join-join a b o' ∙ ap (λ t. join t (some o')) same)
  ]
]

pub run-write :
    (refuses : Chunk → Bool) (stream p : Text) (s : ChunkSink) (o : Emitted)
    → write refuses stream p s ≡ some o
    → run refuses (call_write stream p ∷ []) s
      ≡ some (record { chunks = o.chunks ++ []; failed = o.failed || false; sink = o.sink })
unfolding run step
run-write refuses stream p s o e =
    let q : step refuses (call_write stream p) s ≡ some o = e in rw (run, q) refl

-- The bytes handed over before the sink is stopped.
abbrev pub handed_over : List Call → Text
handed_over [] = []
handed_over (call_write stream p ∷ cs) = p ++ handed_over cs
handed_over (call_eof stream ∷ cs) = handed_over cs
handed_over (call_stop ∷ cs) = []

-- The sequence numbers go up by one, both streams together.
abbrev pub Numbered : ℕ → List Chunk → Type 0
Numbered seq [] = Unit {0}
Numbered seq (c ∷ cs) = (c.seq ≡ suc seq) × Numbered (suc seq) cs

Numbered-append :
    (cs ds : List Chunk) (n m : ℕ)
    → Numbered n cs
    → m ≡ n + length cs
    → Numbered m ds
    → Numbered n (cs ++ ds)
Numbered-append [] ds n m h e k = let e' : m ≡ n = omega arith in rw e' at k
Numbered-append (c ∷ cs) ds n m h e k = (h.0, Numbered-append cs ds (suc n) m h.1 (omega arith) k)

Framed-Numbered :
    (job entry : Text) (max : ℕ) (stream : Text) (n : ℕ) (cs : List Chunk)
    → Framed job entry max stream n cs
    → Numbered n cs
Framed-Numbered job entry max stream n [] h = tt
Framed-Numbered job entry max stream n (c ∷ cs) h =
    (h.0, Framed-Numbered job entry max stream (suc n) cs h.7)

payload-append : (cs ds : List Chunk) → payload (cs ++ ds) ≡ payload cs ++ payload ds
payload-append [] ds = refl
payload-append (c ∷ cs) ds =
    ap (λ t. c.body ++ t) (payload-append cs ds)
    ∙ sym (append_assoc c.body (payload cs) (payload ds))

-- What a call leaves for the calls after it.
record IsStep (c : Call) (rest : List Call) (s : ChunkSink) (o : Emitted) : Type 0 where
  numbered : Numbered s.seq o.chunks
  seq : o.sink.seq ≡ s.seq + length o.chunks
  fits : o.sink.written ≤ o.sink.cap_bytes
  max_chunk : o.sink.max_chunk ≡ s.max_chunk
  bytes :
      o.failed ≡ false
      → payload o.chunks ++ kept o.sink (handed_over rest) ≡ kept s (handed_over (c ∷ rest))
  flag :
      o.failed ≡ false
      → (o.sink.truncated
          || (not o.sink.stopped
              && ltb (o.sink.cap_bytes - o.sink.written) (length (handed_over rest))))
        ≡ (s.truncated
            || (not s.stopped && ltb (s.cap_bytes - s.written) (length (handed_over (c ∷ rest)))))

kept-append :
    (s s' : ChunkSink) (p q : Text)
    → s'.cap_bytes ≡ s.cap_bytes
    → s'.stopped ≡ s.stopped
    → s'.written ≡ s.written + length (kept s p)
    → s'.truncated ≡ (s.truncated || (not s.stopped && ltb (s.cap_bytes - s.written) (length p)))
    → kept s p ++ kept s' q ≡ kept s (p ++ q)
kept-append s s' p q cap d w t =
    let left = s.cap_bytes - s.written in
    ground (
      arith,
      take-append_le left p q,
      take-append_ge left p q,
      take_all left p,
      append-nil (take left p),
      length-take left p,
    )

IsStep-write :
    (stream p : Text) (rest : List Call) (s : ChunkSink) (o : Emitted)
    → IsWrite stream p s o
    → s.written ≤ s.cap_bytes
    → IsStep (call_write stream p) rest s o
IsStep-write stream p rest s o h fits =
    let cap : o.sink.cap_bytes ≡ s.cap_bytes = ap (λ (t : ChunkSink). t.cap_bytes) h.same in
    let d : o.sink.stopped ≡ s.stopped = ap (λ (t : ChunkSink). t.stopped) h.same in
    record {
      numbered = Framed-Numbered s.job_id s.entry_id s.max_chunk stream s.seq o.chunks h.framed;
      seq = h.numbered;
      fits = omega (arith, h.within, cap);
      max_chunk = ap (λ (t : ChunkSink). t.max_chunk) h.same;
      bytes = λ w.
          rw (h.whole w) (kept-append s o.sink p (handed_over rest) cap d (h.counted w) h.flag);
      flag = λ w. ground (
        arith,
        h.counted w,
        h.flag,
        length-append p (handed_over rest),
        length-take (s.cap_bytes - s.written) p,
      );
    }

module _ (refuses : Chunk → Bool) where
  step_lem :
      (c : Call) (rest : List Call) (s : ChunkSink)
      → 0 < s.max_chunk
      → s.written ≤ s.cap_bytes
      → (o : Emitted) × (step refuses c s ≡ some o) × IsStep c rest s o
  unfolding step
  step_lem (call_write stream p) rest s pos fits =
      let (o, e, h) = write_total refuses stream p s pos fits in
      (o, e, IsStep-write stream p rest s o h fits)
  step_lem (call_eof stream) rest s pos fits = (
    eof refuses stream s,
    refl,
    unfold eof in
        record {
          numbered = (refl, tt);
          seq = omega arith;
          fits = fits;
          max_chunk = refl;
          bytes = λ w. refl;
          flag = λ w. refl;
        },
  )
  step_lem call_stop rest s pos fits = (
    record { chunks = []; failed = false; sink = stop s },
    refl,
    unfold stop in
        record {
          numbered = tt;
          seq = omega arith;
          fits = fits;
          max_chunk = refl;
          bytes = λ w. ground (arith, kept-nil s);
          flag = λ w. ground arith;
        },
  )

  -- Whatever a runner writes, in whatever pieces on the two streams, all calls end; the chunks are
  -- numbered on without a gap; and, if the publisher took every chunk, their bytes in that order are
  -- the first bytes handed over before the sink was stopped, as many as the cap leaves, and the sink
  -- says that it truncated exactly when that is not all of them.
  pub run_captures :
      (cs : List Call) (s : ChunkSink)
      → 0 < s.max_chunk
      → s.written ≤ s.cap_bytes
      → (o : Emitted) × (run refuses cs s ≡ some o)
        × Numbered s.seq o.chunks
        × (o.sink.written ≤ o.sink.cap_bytes)
        × (o.failed ≡ false → payload o.chunks ≡ kept s (handed_over cs))
        × (o.failed ≡ false
            → o.sink.truncated ≡ (
                s.truncated
                || (not s.stopped && ltb (s.cap_bytes - s.written) (length (handed_over cs)))))
  unfolding run
  run_captures [] s pos fits = (
    record { chunks = []; failed = false; sink = s },
    refl,
    tt,
    fits,
    (λ w. sym (kept-nil s)),
    (λ w. ground arith),
  )
  run_captures (c ∷ cs) s pos fits =
      let (o, e, h) = step_lem c cs s pos fits in
      let (o', e', n', f', b', t') = run_captures cs o.sink (rw h.max_chunk pos) h.fits in
      (
        record { chunks = o.chunks ++ o'.chunks; failed = o.failed || o'.failed; sink = o'.sink },
        rw (e, run, e') refl,
        Numbered-append o.chunks o'.chunks s.seq o.sink.seq h.numbered h.seq n',
        f',
        (λ w.
            rw (payload-append o.chunks o'.chunks)
              (rw (b' (ground arith)) (h.bytes (ground arith)))),
        (λ w. t' (ground arith) ∙ h.flag (ground arith)),
      )
