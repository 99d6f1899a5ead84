-- ===== src/Patch/Plan/Safe.antt =====
-- What the plans of agent/internal/patch/ids.go hand to a package manager.
use everwas.Base.{
  Each-snoc, append-nil, ◌≡◌, refl, sym, ◌∙◌, ap, Bool, true, false, List, [], ◌∷◌, ◌++◌, arith,
  Each, Option-cases, Bool-cases, inl, inr, ◌⊎◌,
}
use everwas.Base.Text.{Text, member, member-append, text_eq_refl, cut, cut-some}
use everwas.Patch.Plan.{
  has_name, AptPlan, PacmanPlan, choose, chosen, refused, Choice, is_alnum, check_pkg_name,
  check_pkg_version, split_pkg_version_id, fail_id, has_failed, Failed, apt_step, apt_loop,
  apt_install_plan, pacman_step, pacman_loop, pacman_install_plan, PlanError,
}

-- A word that no package manager reads as an option: it begins with a lower-case letter or a digit.
abbrev pub IsWord : Text → Type 0
IsWord [] = ⊥
IsWord (c ∷ cs) = is_alnum false c ≡ true

check_pkg_name-IsWord :
    (name rest : Text) → check_pkg_name name false ≡ true → IsWord (name ++ rest)
unfolding check_pkg_name
check_pkg_name-IsWord [] rest h = ground arith
check_pkg_name-IsWord (c ∷ cs) rest h = ground (arith, h)

-- What an id is that is chosen.
pub record IsChosen (offered : Text → Text → Bool) (id name version : Text) : Type 0 where
  pub whole : id ≡ name ++ 61 ∷ version
  pub name_ok : check_pkg_name name false ≡ true
  pub version_ok : check_pkg_version version ≡ true
  pub is_offered : offered id name ≡ true

pub choose-IsChosen :
    (offered : Text → Text → Bool) (id name version : Text)
    → choose offered id ≡ chosen name version
    → IsChosen offered id name version
unfolding choose split_pkg_version_id
choose-IsChosen offered id name version h = elim (Option-cases (cut 61 id)) [
  | inl n ↦ absurd (ground (arith, n))
  | inr ((l, r), e) ↦
      let halves : (l ≡ name) × (r ≡ version) = ground (arith, e) in
      let whole : id ≡ name ++ 61 ∷ version =
        (cut-some 61 id l r e).0
        ∙ (ap (λ l. l ++ 61 ∷ r) halves.0 ∙ ap (λ r. name ++ 61 ∷ r) halves.1) in
      record {
        whole = whole;
        name_ok = ground (arith, e);
        version_ok = ground (arith, e);
        is_offered = ground (arith, e);
      }
]

pub Choice-cases :
    (c : Choice)
    → ((e : PlanError) × (c ≡ refused e))
      ⊎ ((name : Text) × ((version : Text) × (c ≡ chosen name version)))
Choice-cases (refused e) = inl (e, refl)
Choice-cases (chosen name version) = inr (name, (version, refl))

-- An id has an answer: it is one of the specs, or it failed.
abbrev pub Answered : List Text → Failed → Text → Type 0
Answered specs failed id = (member id specs ≡ true) ⊎ (has_failed id failed ≡ true)

abbrev pub AptSpec : List Text → Text → Type 0
AptSpec offered spec = (member spec offered ≡ true) × IsWord spec

has_failed-append :
    (id : Text) (m n : Failed) → has_failed id m ≡ true → has_failed id (m ++ n) ≡ true
unfolding has_failed
has_failed-append id [] n h = ground arith
has_failed-append id ((k, e) ∷ m) n h = ground (arith, h, has_failed-append id m n)

has_failed-snoc :
    (id : Text) (e : PlanError) (m : Failed) → has_failed id (m ++ (id, e) ∷ []) ≡ true
unfolding has_failed
has_failed-snoc id e [] = ground (arith, text_eq_refl id)
has_failed-snoc id e ((k, f) ∷ m) = ground (arith, has_failed-snoc id e m)

pub has_failed-fail_id :
    (id x : Text) (e : PlanError) (m : Failed)
    → (has_failed id (fail_id id e m) ≡ true)
      × (has_failed x m ≡ true → has_failed x (fail_id id e m) ≡ true)
unfolding fail_id
has_failed-fail_id id x e m =
    ground (arith, has_failed-snoc id e m, has_failed-append x m ((id, e) ∷ []))

member-snoc : (x : Text) (xs : List Text) → member x (xs ++ x ∷ []) ≡ true
unfolding member
member-snoc x xs = ground (arith, member-append x xs (x ∷ []), text_eq_refl x)

-- A step keeps the specs safe, answers its id, and keeps every answer.
apt_step-AptSpec :
    (offered : List Text) (id : Text) (plan : AptPlan)
    → Each (AptSpec offered) plan.specs
    → Each (AptSpec offered) (apt_step offered id plan).specs
      × Answered (apt_step offered id plan).specs (apt_step offered id plan).failed id
      × ((x : Text)
          → Answered plan.specs plan.failed x
          → Answered (apt_step offered id plan).specs (apt_step offered id plan).failed x)
unfolding apt_step
apt_step-AptSpec offered id plan h =
    elim (Choice-cases (choose (λ id name. member id offered) id)) [
      | inl (e, c) ↦
          let f = has_failed-fail_id id id e plan.failed in
          let q : apt_step offered id plan ≡ record plan { failed = fail_id id e plan.failed } =
            ground (arith, c) in
          rw q (
            h,
            inr f.0,
            λ x a. elim a [
              | inl m ↦ inl m
              | inr m ↦ inr ((has_failed-fail_id id x e plan.failed).1 m)
            ],
          )
      | inr (name, (version, c)) ↦
          let k = choose-IsChosen (λ id name. member id offered) id name version c in
          let spec = name ++ 61 ∷ version in
          let in_offer : member spec offered ≡ true = rw (sym k.whole) k.is_offered in
          let q : apt_step offered id plan ≡ record plan {
            specs = plan.specs ++ spec ∷ [];
            want = (name, version) ∷ plan.want;
            id_by_name = (name, id) ∷ plan.id_by_name;
          } =
            ground (arith, c) in
          rw q (
            Each-snoc (AptSpec offered) plan.specs spec h
                (in_offer, check_pkg_name-IsWord name (61 ∷ version) k.name_ok),
            inl (rw k.whole (member-snoc spec plan.specs)),
            λ x a. elim a [
              | inl m ↦ inl (ground (arith, m, member-append x plan.specs (spec ∷ [])))
              | inr m ↦ inr m
            ],
          )
    ]

pub apt_loop-AptSpec :
    (offered ids : List Text) (plan : AptPlan)
    → Each (AptSpec offered) plan.specs
    → Each (AptSpec offered) (apt_loop offered ids plan).specs
      × Each (Answered (apt_loop offered ids plan).specs (apt_loop offered ids plan).failed) ids
      × ((x : Text)
          → Answered plan.specs plan.failed x
          → Answered (apt_loop offered ids plan).specs (apt_loop offered ids plan).failed x)
unfolding apt_loop
apt_loop-AptSpec offered [] plan h = (h, tt, λ x a. a)
apt_loop-AptSpec offered (id ∷ ids) plan h =
    let (safe, here, keeps) = apt_step-AptSpec offered id plan h in
    let (all_safe, answered, later) =
      apt_loop-AptSpec offered ids (apt_step offered id plan) safe in
    (all_safe, (later id here, answered), λ x a. later x (keeps x a))

-- Whatever ids the server asks for, every spec that apt is given is, as a whole, an id that the host's own
-- scan offers, and begins with a lower-case letter or a digit, so that apt reads none as an option; and
-- every id that was asked for is one of the specs or has a failure on record.
pub apt_install_plan_lem :
    (ids offered : List Text) (failed : Failed)
    → Each (AptSpec offered) (apt_install_plan ids offered failed).specs
      × Each
          (Answered
            (apt_install_plan ids offered failed).specs
            (apt_install_plan ids offered failed).failed)
          ids
unfolding apt_install_plan
apt_install_plan_lem ids offered failed =
    let start : AptPlan = record { specs = []; want = []; id_by_name = []; failed = failed } in
    let (safe, answered, later) = apt_loop-AptSpec offered ids start tt in (safe, answered)

abbrev pub PacmanName : List Text → Text → Type 0
PacmanName offered_names name = (member name offered_names ≡ true) × IsWord name

pacman_step-PacmanName :
    (offered_names : List Text) (id : Text) (plan : PacmanPlan)
    → Each (PacmanName offered_names) plan.names
    → Each (PacmanName offered_names) (pacman_step offered_names id plan).names
unfolding pacman_step
pacman_step-PacmanName offered_names id plan h =
    elim (Choice-cases (choose (λ id name. member name offered_names) id)) [
      | inl (e, c) ↦
          let q : (pacman_step offered_names id plan).names ≡ plan.names = ground (arith, c) in
          rw q h
      | inr (name, (version, c)) ↦
          let k = choose-IsChosen (λ id name. member name offered_names) id name version c in
          elim (Bool-cases (has_name name plan.id_by_name)) [
            | inl seen ↦
                let q : (pacman_step offered_names id plan).names ≡ plan.names =
                  ground (arith, c, seen) in
                rw q h
            | inr fresh ↦
                let q : (pacman_step offered_names id plan).names ≡ plan.names ++ name ∷ [] =
                  ground (arith, c, fresh) in
                let word : IsWord name =
                  rw (sym (append-nil name)) (check_pkg_name-IsWord name [] k.name_ok) in
                rw q (Each-snoc (PacmanName offered_names) plan.names name h (k.is_offered, word))
          ]
    ]

pacman_loop-PacmanName :
    (offered_names ids : List Text) (plan : PacmanPlan)
    → Each (PacmanName offered_names) plan.names
    → Each (PacmanName offered_names) (pacman_loop offered_names ids plan).names
unfolding pacman_loop
pacman_loop-PacmanName offered_names [] plan h = h
pacman_loop-PacmanName offered_names (id ∷ ids) plan h =
    pacman_loop-PacmanName offered_names ids (pacman_step offered_names id plan)
      (pacman_step-PacmanName offered_names id plan h)

-- Whatever ids the server asks for, every name that pacman is given is one that the host's own scan offers,
-- and begins with a lower-case letter or a digit, so that pacman reads none as an option.
pub pacman_install_plan_lem :
    (ids offered_names : List Text) (failed : Failed)
    → Each (PacmanName offered_names) (pacman_install_plan ids offered_names failed).names
unfolding pacman_install_plan
pacman_install_plan_lem ids offered_names failed =
    pacman_loop-PacmanName offered_names ids
      (record { names = []; id_by_name = []; failed = failed }) tt
