-- ===== src/Shell/Session/Output.antt =====
-- The output of a session of agent/internal/shell/session.go across any outages of the link.
use everwas.Base.Int.{pos, add_int64}
use everwas.Base.{
  ℕ, zero, suc, ◌≤◌, ◌≡◌, refl, sym, ap, ◌∙◌, min, Bool, true, false, ◌||◌, Option, none, some,
  List, [], ◌∷◌, ◌++◌, if◌then◌else◌, length, take, drop, arith, append_assoc, append-nil,
  take-append-drop, length-drop,
}
use everwas.Base.Text.{Text}
use everwas.Shell.Ring.{Ring, write, drain}
use everwas.Shell.Ring.Gap.{lossless-write}
use everwas.Shell.Flow.{max_frame_bytes, sent}
use everwas.Shell.Session.{
  down_since, publish_ctl, flush_since, Session, Link, Out, frame, gap, closed, publish_rounds,
  publish_frames, mark_disconnected, resume, flush, emit,
}

abbrev pub frames_of : List Out → Text
frames_of [] = []
frames_of (frame p ∷ outs) = p ++ frames_of outs
frames_of (gap ∷ outs) = frames_of outs
frames_of (closed reason code ∷ outs) = frames_of outs

abbrev pub has_gap : List Out → Bool
has_gap [] = false
has_gap (frame p ∷ outs) = has_gap outs
has_gap (gap ∷ outs) = true
has_gap (closed reason code ∷ outs) = has_gap outs

pub frames_of-append : (os ps : List Out) → frames_of (os ++ ps) ≡ frames_of os ++ frames_of ps
frames_of-append [] ps = refl
frames_of-append (frame p ∷ os) ps =
    ap (λ t. p ++ t) (frames_of-append os ps) ∙ sym (append_assoc p (frames_of os) (frames_of ps))
frames_of-append (gap ∷ os) ps = frames_of-append os ps
frames_of-append (closed reason code ∷ os) ps = frames_of-append os ps

pub has_gap-append : (os ps : List Out) → has_gap (os ++ ps) ≡ (has_gap os || has_gap ps)
has_gap-append [] ps = refl
has_gap-append (frame p ∷ os) ps = has_gap-append os ps
has_gap-append (gap ∷ os) ps = refl
has_gap-append (closed reason code ∷ os) ps = has_gap-append os ps

-- What a session holds back: nothing while the link was not seen to be down.
abbrev pub Held : Option ℕ → Ring → Type 0
Held none r = (r.buf ≡ []) × (r.dropped ≡ false)
Held (some t) r = Unit {0}

-- Every publish of a handler gets through while the link is up.
abbrev pub IsReliable : Link → Type 0
IsReliable link = (link.control ≡ true) × (link.held_back ≡ none) × (link.fresh ≡ none)

record IsPublished (p : Text) (s : Session) (outs : List Out) (s' : Session) : Type 0 where
  frames : frames_of outs ≡ p
  whole : has_gap outs ≡ false
  buf : s'.buf ≡ s.buf
  down : s'.disconnected_at ≡ s.disconnected_at

publish_rounds-IsPublished :
    (fuel : ℕ) (p : Text) (s : Session)
    → length p ≤ fuel
    → IsPublished p s (publish_rounds fuel none p s).0 (publish_rounds fuel none p s).1
unfolding publish_rounds
publish_rounds-IsPublished zero [] s h = record {
  frames = refl;
  whole = refl;
  buf = refl;
  down = refl;
}
publish_rounds-IsPublished zero (b ∷ p) s h = absurd (omega arith)
publish_rounds-IsPublished (suc fuel) [] s h = record {
  frames = refl;
  whole = refl;
  buf = refl;
  down = refl;
}
publish_rounds-IsPublished (suc fuel) (b ∷ p) s h =
    let n = min (length (b ∷ p)) max_frame_bytes in
    let s' : Session = record s {
      flow = (sent n s.flow).0;
      bytes_out = add_int64 s.bytes_out (pos n);
    } in
    let k =
      publish_rounds-IsPublished fuel (drop n (b ∷ p)) s' (omega (arith, length-drop n (b ∷ p))) in
    record {
      frames = ap (λ t. take n (b ∷ p) ++ t) k.frames ∙ take-append-drop n (b ∷ p);
      whole = k.whole;
      buf = k.buf;
      down = k.down;
    }

-- What a step does with what was held back and what was read, if it lost nothing.
pub record IsLossless (p : Text) (s : Session) (outs : List Out) (s' : Session) : Type 0 where
  pub held : Held s'.disconnected_at s'.buf
  pub bytes :
      has_gap outs ≡ false
      → s'.buf.dropped ≡ false
      → (frames_of outs ++ s'.buf.buf ≡ s.buf.buf ++ p) × (s.buf.dropped ≡ false)

-- A handler that publishes no output and leaves the ring alone.
pub IsLossless-idle :
    (s : Session) (outs : List Out) (s' : Session)
    → Held s.disconnected_at s.buf
    → frames_of outs ≡ []
    → s'.buf ≡ s.buf
    → s'.disconnected_at ≡ s.disconnected_at
    → IsLossless [] s outs s'
IsLossless-idle s outs s' h f b d = record {
  held = rw (b, d) h;
  bytes = λ g k. (rw (f, b) (sym (append-nil s.buf.buf)), rw b at k);
}

-- A gap that is announced.
announced :
    (dropped : Bool) (link : Link) (outs : List Out)
    → link.control ≡ true
    → has_gap ((if dropped then publish_ctl link gap else []) ++ outs) ≡ false
    → (dropped ≡ false)
      × (frames_of ((if dropped then publish_ctl link gap else []) ++ outs) ≡ frames_of outs)
announced true link outs c g = let g' : true ≡ false = rw c at g in absurd (ground (arith, g'))
announced false link outs c g = (refl, refl)

resume-IsLossless :
    (link : Link) (s : Session)
    → IsReliable link
    → IsLossless [] s (resume link s).0 (resume link s).1
      × ((resume link s).1.disconnected_at ≡ none)
unfolding resume drain publish_frames
resume-IsLossless link s (c, b, f) =
    let s' : Session = record s {
      disconnected_at = none;
      buf = record s.buf { buf = []; dropped = false };
    } in
    let k = publish_rounds-IsPublished (length s.buf.buf) s.buf.buf s' (omega arith) in
    let outs : List Out =
      (if s.buf.dropped then publish_ctl link gap else [])
      ++ (publish_rounds (length s.buf.buf) none s.buf.buf s').0 in
    rw b (
      record {
        held = rw (k.down, k.buf) (refl, refl);
        bytes = λ g d.
            let (kept, same) =
              announced s.buf.dropped link (publish_rounds (length s.buf.buf) none s.buf.buf s').0 c
                g in
            (
              ap (λ t. frames_of outs ++ t) (ap (λ (r : Ring). r.buf) k.buf)
                  ∙ append-nil (frames_of outs)
                  ∙ same
                  ∙ k.frames
                  ∙ sym (append-nil s.buf.buf),
              kept,
            );
      },
      k.down,
    )

pub flush_since-IsLossless :
    (since : Option ℕ) (link : Link) (s : Session)
    → IsReliable link
    → s.disconnected_at ≡ since
    → Held since s.buf
    → IsLossless [] s (flush_since since link s).0 (flush_since since link s).1
      × ((flush_since since link s).1.disconnected_at ≡ none)
unfolding flush_since
flush_since-IsLossless none link s r q h =
    (record { held = rw q h; bytes = λ g k. (sym (append-nil s.buf.buf), h.1) }, q)
flush_since-IsLossless (some t) link s r q h = resume-IsLossless link s r

-- A read block that goes out at once, when nothing is held back.
fresh-IsLossless :
    (works : Option ℕ) (p : Text) (s : Session) (outs : List Out) (s' : Session)
    → works ≡ none
    → IsLossless [] s outs s'
    → s'.disconnected_at ≡ none
    → let (frames, s'') = publish_frames works p s' in IsLossless p s (outs ++ frames) s''
unfolding publish_frames
fresh-IsLossless works p s outs s' w h q =
    let k : IsPublished p s' (publish_frames works p s').0 (publish_frames works p s').1 =
      rw w (publish_rounds-IsPublished (length p) p s' (omega arith)) in
    let (empty, clean) : (s'.buf.buf ≡ []) × (s'.buf.dropped ≡ false) = rw q at h.held in
    record {
      held = rw (k.down, k.buf) h.held;
      bytes = λ g d.
          let (frames, s'') = publish_frames works p s' in
          let (same, kept) = h.bytes (ground (arith, g, has_gap-append outs frames)) clean in
          let left : s''.buf.buf ≡ [] = ap (λ (r : Ring). r.buf) k.buf ∙ empty in
          let out : frames_of outs ≡ s.buf.buf =
            sym (append-nil (frames_of outs))
            ∙ ap (λ t. frames_of outs ++ t) (sym empty)
            ∙ same
            ∙ append-nil s.buf.buf in
          (
            ap (λ t. frames_of (outs ++ frames) ++ t) left
                ∙ append-nil (frames_of (outs ++ frames))
                ∙ frames_of-append outs frames
                ∙ ap (λ t. t ++ frames_of frames) out
                ∙ ap (λ t. s.buf.buf ++ t) k.frames,
            kept,
          );
    }

pub Held-down : (now : ℕ) (since : Option ℕ) (r : Ring) → Held (down_since now since) r
Held-down now none r = tt
Held-down now (some t) r = tt

-- A read block that is held back.
down-IsLossless :
    (p : Text) (now : ℕ) (s : Session)
    → let s' = mark_disconnected now s in IsLossless p s [] (record s' { buf = write p s'.buf })
unfolding mark_disconnected
down-IsLossless p now s = record {
  held = Held-down now s.disconnected_at (write p s.buf);
  bytes = λ g d. lossless-write p s.buf d;
}

-- The two branches on the link.
pub if-IsLossless :
    (up : Bool) (p : Text) (s : Session) (x y : List Out × Session)
    → IsLossless p s x.0 x.1
    → IsLossless p s y.0 y.1
    → IsLossless p s (if up then x else y).0 (if up then x else y).1
if-IsLossless true p s x y h k = h
if-IsLossless false p s x y h k = k

pub emit-IsLossless :
    (link : Link) (p : Text) (s : Session)
    → IsReliable link
    → Held s.disconnected_at s.buf
    → IsLossless p s (emit link p s).0 (emit link p s).1
unfolding emit flush
emit-IsLossless link p s r h =
    let (k, q) = flush_since-IsLossless s.disconnected_at link s r refl h in
    if-IsLossless link.connected p s _ _
      (fresh-IsLossless link.fresh p s (flush link s).0 (flush link s).1 r.2 k q)
      (down-IsLossless p link.now s)
