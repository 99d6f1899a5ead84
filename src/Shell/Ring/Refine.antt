-- ===== src/Shell/Ring/Refine.antt =====
-- The ring buffer of agent/internal/shell/ring.go against the list of all bytes written to it.
use everwas.Base.{
  ℕ, ◌+◌, ◌-◌, ◌≤◌, ◌≡◌, sym, ap, ◌∙◌, List, [], ◌∷◌, ◌++◌, append_assoc, append-nil, arith, length,
  drop, keep_last, length-append, length-drop, drop_le, drop-append_ge, drop-append_le, drop-drop,
}
use everwas.Base.Text.{Text}
use everwas.Shell.Ring.{Ring, write, write_all}

abbrev pub flat : List Text → Text
flat [] = []
flat (p ∷ ps) = p ++ flat ps

-- Cutting twice cuts to the longer cut.
keep_last-drop :
    (n k : ℕ) (xs : Text) → k ≤ length xs - n → keep_last n (drop k xs) ≡ keep_last n xs
keep_last-drop n k xs h =
    drop-drop (length (drop k xs) - n) k xs
    ∙ ap (λ t. drop t xs)
        (let e : k + (length (drop k xs) - n) ≡ length xs - n = omega (arith, length-drop k xs) in
          e)

-- Bytes that were already cut off the front do not come back.
pub keep_last-append :
    (n : ℕ) (xs ys : Text) → keep_last n (keep_last n xs ++ ys) ≡ keep_last n (xs ++ ys)
keep_last-append n xs ys =
    ap (keep_last n) (sym (drop-append_le (length xs - n) xs ys (omega arith)))
    ∙ keep_last-drop n (length xs - n) (xs ++ ys) (omega (arith, length-append xs ys))

-- One write keeps the last `max` bytes of the buffer followed by the new bytes.
pub buf-write :
    (p : Text) (r : Ring) → length r.buf ≤ r.max → (write p r).buf ≡ keep_last r.max (r.buf ++ p)
unfolding write
buf-write [] r h = sym (
    drop_le (length (r.buf ++ []) - r.max) (r.buf ++ []) (omega (arith, length-append r.buf []))
    ∙ append-nil r.buf)
buf-write (c ∷ p) r h = ground (
  arith,
  length-append r.buf (c ∷ p),
  drop-append_ge (length (r.buf ++ c ∷ p) - r.max) (length (c ∷ p) - r.max) r.buf (c ∷ p),
  drop_le (length (r.buf ++ c ∷ p) - r.max) (r.buf ++ c ∷ p),
)

pub max-write : (p : Text) (r : Ring) → (write p r).max ≡ r.max
unfolding write
max-write p r = ground arith

pub length-keep_last : (n : ℕ) (xs : Text) → length (keep_last n xs) ≤ n
length-keep_last n xs = omega (arith, length-drop (length xs - n) xs)

length-write : (p : Text) (r : Ring) → length r.buf ≤ r.max → length (write p r).buf ≤ r.max
length-write p r h = rw (buf-write p r h) (length-keep_last r.max (r.buf ++ p))

-- Whatever is written to a ring within its bound, the buffer stays within the bound and holds the
-- last `max` bytes of what it held followed by all that was written.
pub buf-write_all :
    (ps : List Text) (r : Ring)
    → length r.buf ≤ r.max
    → ((write_all ps r).buf ≡ keep_last r.max (r.buf ++ flat ps))
      × (length (write_all ps r).buf ≤ r.max)
unfolding write_all
buf-write_all [] r h =
    (sym (rw (append-nil r.buf) (drop_le (length r.buf - r.max) r.buf (omega arith))), h)
buf-write_all (p ∷ ps) r h =
    let ih = buf-write_all ps (write p r) (rw (max-write p r) (length-write p r h)) in
    let e : (write_all ps (write p r)).buf ≡ keep_last r.max ((write p r).buf ++ flat ps) =
      rw (max-write p r) at (ih.0) in
    (
      e
          ∙ rw (buf-write p r h) (keep_last-append r.max (r.buf ++ p) (flat ps))
          ∙ ap (keep_last r.max) (append_assoc r.buf p (flat ps)),
      rw (max-write p r) at (ih.1),
    )
