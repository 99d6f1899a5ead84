-- ===== src/Update/Tracker/Denylist.antt =====
-- The denylist of agent/internal/update/rollback.go.
use everwas.Base.{
  ◌⊎◌, keep_last, arith, suc, ◌++◌, ◌-◌, drop, drop-append_le, length-drop, ℕ, Bool, true, false,
  ◌≡◌, refl, List, [], ◌∷◌, ◌≤◌, length,
}
use everwas.Base.Text.{text_eq_refl, member-append, Text, member, trim_space}
use everwas.Update.State.{append_denied, is_empty, max_denied_tracked}
use everwas.Update.Disk.{Disk, Op, load, save, drop_starts, drop_marker}
use everwas.Update.Tracker.{write_probation, begin_update, denied, known_state}

module _ (faults : Op → Bool) where
  -- An update begins with the denylist that the host had, whatever calls fail on the way.
  pub denied-begin_update :
      (now : ℕ) (new prev target backup : Text) (d : Disk)
      → denied faults (begin_update faults now new prev target backup d).1 ≡ denied faults d
  unfolding denied begin_update load save write_probation drop_marker drop_starts known_state
  denied-begin_update now new prev target backup d = ground arith

length-snoc : (list : List Text) (w : Text) → length (list ++ w ∷ []) ≡ suc (length list)
length-snoc [] w = refl
length-snoc (x ∷ list) w = ground (arith, length-snoc list w)

-- The new entry survives the cut of a list that was within its bound.
member-keep_last :
    (list : List Text) (w : Text) (n : ℕ)
    → length list ≤ n
    → 1 ≤ n
    → (member w (keep_last n (list ++ w ∷ [])) ≡ true) × (length (keep_last n (list ++ w ∷ [])) ≤ n)
unfolding member
member-keep_last list w n small some_room =
    let k = length (list ++ w ∷ []) - n in
    let le : k ≤ length list = omega (arith, length-snoc list w) in
    let e = drop-append_le k list (w ∷ []) le in
    (
      rw e (ground (arith, member-append w (drop k list) (w ∷ []), text_eq_refl w)),
      omega (arith, length-drop k (list ++ w ∷ []), length-snoc list w),
    )

-- A version that is not blank is on the list once it is denied. A list of at most 32 stays one: it is the
-- list that was there, which had the version, or that list with the version at its end and its oldest entry
-- dropped where it was full.
pub append_denied_lem :
    (list : List Text) (v : Text)
    → length list ≤ max_denied_tracked
    → is_empty (trim_space v) ≡ false
    → (member (trim_space v) (append_denied list v) ≡ true)
      × (length (append_denied list v) ≤ max_denied_tracked)
      × ((append_denied list v ≡ list)
          ⊎ (append_denied list v
              ≡ drop (length list - (max_denied_tracked - 1)) (list ++ trim_space v ∷ [])))
unfolding append_denied
append_denied_lem list v small set =
    let (m, l) = member-keep_last list (trim_space v) max_denied_tracked small (omega arith) in
    ground (arith, set, m, l, length-snoc list (trim_space v))
