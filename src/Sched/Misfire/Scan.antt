-- ===== src/Sched/Misfire/Scan.antt =====
-- What the scan of agent/internal/sched/misfire.go finds.
use everwas.Base.{
  ◌++◌, ◌%◌, Bool-cases, leb, ◌==◌, ◌||◌, not, sym, ℕ, zero, suc, ◌+◌, ◌-◌, ◌*◌, ◌≤◌, ◌<◌, ◌≡◌,
  refl, ◌⊎◌, inl, inr, arith, ltb,
}
use everwas.Base.Int.{ℤ, pos, negsuc, two_63, second, pos_part}
use everwas.Base.Text.{Text}
use everwas.Sched.Misfire.{fnv_offset, fnv_64, scan, last_missed, jitter}

-- The documented behaviour of `cron.Schedule.Next` for a schedule that fires at the instants `fires`: the
-- first of them after the argument, or the zero instant if there is none.
pub record IsNext (fires : ℕ → Type 0) (next : ℕ → ℕ) : Type 0 where
  pub later : (t : ℕ) → (next t ≡ 0 → ⊥) → (t < next t) × fires (next t)
  pub first : (t u : ℕ) → t < u → fires u → (next t ≡ 0 → ⊥) × (next t ≤ u)

-- The last fire and the number found so far, before the rest of the window.
pub record Found (fires : ℕ → Type 0) (since now last_fire : ℕ) : Type 0 where
  pub fired : (last_fire ≡ 0) ⊎ ((since < last_fire) × (last_fire ≤ now) × fires last_fire)
  pub latest : (u : ℕ) → since < u → u ≤ now → fires u → u ≤ last_fire

le_or_lt : (u t : ℕ) → (u ≤ t) ⊎ (t < u)
le_or_lt u t = elim (Bool-cases (leb u t)) [
  | inl e ↦ inl (ground (arith, e))
  | inr e ↦ inr (ground (arith, e))
]

-- Where the loop stands: at `since`, or at the last fire that it found.
record Stands (fires : ℕ → Type 0) (since now t last_fire : ℕ) : Type 0 where
  pub from : since ≤ t
  pub at : ((t ≡ since) × (last_fire ≡ 0)) ⊎ ((t ≡ last_fire) × (since < t) × (t ≤ now) × fires t)
  pub passed : (u : ℕ) → since < u → u ≤ t → fires u → u ≤ last_fire

Stands-Found :
    (fires : ℕ → Type 0) (since now t last_fire : ℕ)
    → Stands fires since now t last_fire
    → ((u : ℕ) → t < u → u ≤ now → fires u → ⊥)
    → Found fires since now last_fire
Stands-Found fires since now t last_fire s none_left = record {
  fired = elim s.at [
    | inl (a, b) ↦ inl b
    | inr (a, b, c, d) ↦ inr (omega (arith, a, b), omega (arith, a, c), rw (sym a) d)
  ];
  latest = λ u lo hi f. elim (le_or_lt u t) [
    | inl le ↦ s.passed u lo le f
    | inr lt ↦ absurd (none_left u lt hi f)
  ];
}

Stands-next :
    (fires : ℕ → Type 0) (next : ℕ → ℕ) (since now t last_fire : ℕ)
    → IsNext fires next
    → Stands fires since now t last_fire
    → (next t ≡ 0 → ⊥)
    → next t ≤ now
    → Stands fires since now (next t) (next t)
Stands-next fires next since now t last_fire n s some_next le =
    let (lt, f) = n.later t some_next in
    record {
      from = omega (arith, s.from);
      at = inr (refl, omega (arith, s.from), le, f);
      passed = λ u lo hi f. hi;
    }

scan-Found :
    (fires : ℕ → Type 0) (next : ℕ → ℕ) (since now limit t last_fire count : ℕ)
    → IsNext fires next
    → Stands fires since now t last_fire
    → ((scan next now limit t last_fire count).1 ≤ count + limit)
      × ((scan next now limit t last_fire count).1 < count + limit
          → Found fires since now (scan next now limit t last_fire count).0)
unfolding scan
scan-Found fires next since now zero t last_fire count n s =
    (omega arith, λ lt. absurd (omega arith))
scan-Found fires next since now (suc limit) t last_fire count n s =
    elim (Bool-cases (next t == 0 || (not (ltb t (next t)) || ltb now (next t)))) [
      | inl stop ↦ (
        ground (arith, stop),
        λ lt. rw stop (
            Stands-Found fires since now t last_fire s (λ u after hi f.
              let (some_next, le) = n.first t u after f in
              let (later, g) = n.later t some_next in ground (arith, stop, some_next))),
      )
      | inr go ↦
          let some_next : next t ≡ 0 → ⊥ = ground (arith, go) in
          let le : next t ≤ now = ground (arith, go) in
          let (b, f) =
            scan-Found fires next since now limit (next t) (next t) (suc count) n
              (Stands-next fires next since now t last_fire n s some_next le) in
          (ground (arith, go, b), λ lt. rw go (f (ground (arith, go, lt))))
    ]

-- The scan from the last fire on record to now, for a schedule whose `Next` is lawful, takes at most the
-- limit of steps; where it took fewer, it found the latest fire of that window, or none and there is none.
pub last_missed-Found :
    (fires : ℕ → Type 0) (next : ℕ → ℕ) (since now scan_limit : ℕ)
    → IsNext fires next
    → ((last_missed next since now scan_limit).1 ≤ scan_limit)
      × ((last_missed next since now scan_limit).1 < scan_limit
          → Found fires since now (last_missed next since now scan_limit).0)
unfolding last_missed
last_missed-Found fires next since now scan_limit n =
    let (b, f) = scan-Found fires next since now scan_limit since 0 0 n (record {
      from = omega arith;
      at = inl (refl, refl);
      passed = λ u lo hi f. absurd (omega arith);
    }) in
    (omega (arith, b), λ lt. f (omega (arith, lt)))

-- The offset of an agent and an entry is not negative and less than the spread, for one that fits in a
-- Duration; without a spread it is 0.
pub jitter_bounds :
    (agent_id entry_id : Text) (jitter_s : ℤ)
    → pos_part jitter_s * second < two_63
    → (jitter agent_id entry_id jitter_s ≡ pos (pos_part (jitter agent_id entry_id jitter_s)))
      × (pos_part (jitter agent_id entry_id jitter_s) ≤ (pos_part jitter_s - 1) * second)
unfolding jitter
jitter_bounds agent_id entry_id (negsuc j) small = ground arith
jitter_bounds agent_id entry_id (pos zero) small = ground arith
jitter_bounds agent_id entry_id (pos (suc j)) small =
    let offset = fnv_64 fnv_offset (agent_id ++ entry_id) % suc j in
    let le : offset ≤ j = omega arith in ground (arith, le)
