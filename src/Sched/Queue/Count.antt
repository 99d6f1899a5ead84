-- ===== src/Sched/Queue/Count.antt =====
-- How the items of the queue of agent/internal/sched/sched.go are counted.
use everwas.Base.{
  ℕ, ◌+◌, ◌≤◌, ◌<◌, Bool, ◌≡◌, refl, inl, inr, none, some, List, [], ◌∷◌, arith, ltb, leb, length,
  if◌then◌else◌, Option-cases, Bool-cases,
}
use everwas.Sched.Queue.{FireItem, peek, pop}

unfoldable pub count : (FireItem → Bool) → List FireItem → ℕ
count p [] = 0
count p (it ∷ q) = (if p it then 1 else 0) + count p q

pub peek-none : (q : List FireItem) → peek q ≡ none → q ≡ []
unfolding peek
peek-none [] h = refl
peek-none (it ∷ q) h = elim (Option-cases (peek q)) [
  | inl e ↦ absurd (ground (arith, e))
  | inr (n, e) ↦ absurd (ground (arith, e))
]

-- The items of a queue, apart from the first of least `at`.
pub count-pop :
    (p : FireItem → Bool) (q : List FireItem) (m : FireItem)
    → peek q ≡ some m
    → count p q ≡ (if p m then 1 else 0) + count p (pop q)
unfolding peek pop count
count-pop p [] m h = ground arith
count-pop p (it ∷ q) m h = elim (Option-cases (peek q)) [
  | inl e ↦ let z = peek-none q e in ground (arith, e, z)
  | inr (n, e) ↦ elim (Bool-cases (ltb n.at it.at)) [
    | inl l ↦ ground (arith, e, l, count-pop p q n e)
    | inr l ↦ ground (arith, e, l)
  ]
]

abbrev pub is_due : ℕ → FireItem → Bool
is_due now it = leb it.at now

-- The first item of least `at` is due if any is.
pub peek-due :
    (now : ℕ) (q : List FireItem) (m : FireItem)
    → peek q ≡ some m
    → now < m.at
    → count (is_due now) q ≡ 0
unfolding peek count
peek-due now [] m h lt = ground arith
peek-due now (it ∷ q) m h lt = elim (Option-cases (peek q)) [
  | inl e ↦ let z = peek-none q e in ground (arith, e, z)
  | inr (n, e) ↦ elim (Bool-cases (ltb n.at it.at)) [
    | inl l ↦ ground (arith, e, l, peek-due now q n e)
    | inr l ↦ ground (arith, e, l, peek-due now q n e)
  ]
]

pub count_le : (p : FireItem → Bool) (q : List FireItem) → count p q ≤ length q
unfolding count
count_le p [] = ground arith
count_le p (it ∷ q) = ground (arith, count_le p q)
