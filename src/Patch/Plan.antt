-- ===== src/Patch/Plan.antt =====
-- agent/internal/patch/ids.go, with `splitPkgVersionID` of apt_parse.go and `fail` of patch.go: the install
-- plans of apt and pacman. The loops over runes are loops over bytes, since a byte of another rune than an
-- ASCII one is refused as that rune is. A map is an association list whose first pair of a key counts.
pub mod Safe
mod Tests
use everwas.Base.{
  ℕ, Bool, true, false, not, ◌&&◌, ◌||◌, Option, none, some, List, [], ◌∷◌, ◌++◌, ltb, leb, ◌==◌,
  if◌then◌else◌, length, is_some,
}
use everwas.Base.Text.{text_eq, Text, codes, member, cut}
use everwas.Update.State.{is_empty}

abbrev pub max_pkg_token_len : ℕ
max_pkg_token_len = 256

pub data PlanError : Type 0 where
  bad_update_id not_offered malformed_id self_package timeout_too_short : PlanError

abbrev is_between : ℕ → ℕ → ℕ → Bool
is_between lo hi c = leb lo c && leb c hi

abbrev pub is_alnum : Bool → ℕ → Bool
is_alnum allow_upper c =
    is_between 97 122 c || (is_between 48 57 c || (allow_upper && is_between 65 90 c))

-- '@', '.', '_', '+' and '-'.
abbrev pub is_name_char : Bool → ℕ → Bool
is_name_char allow_upper c =
    is_alnum allow_upper c || (c == 64 || (c == 46 || (c == 95 || (c == 43 || c == 45))))

-- '.', ':', '+', '~', '^', '_' and '-'.
abbrev pub is_version_char : ℕ → Bool
is_version_char c =
    is_alnum true c
    || (c == 46 || (c == 58 || (c == 43 || (c == 126 || (c == 94 || (c == 95 || c == 45))))))

unfoldable pub all_chars : (ℕ → Bool) → Text → Bool
all_chars p [] = true
all_chars p (c ∷ cs) = p c && all_chars p cs

-- Whether the error is nil.
unfoldable pub check_pkg_name : Text → Bool → Bool
unfolding all_chars
check_pkg_name [] allow_upper = false
check_pkg_name (c ∷ cs) allow_upper =
    not (ltb max_pkg_token_len (length (c ∷ cs)))
    && (is_alnum allow_upper c && all_chars (is_name_char allow_upper) cs)

unfoldable pub check_pkg_version : Text → Bool
unfolding all_chars
check_pkg_version [] = false
check_pkg_version (c ∷ cs) =
    not (ltb max_pkg_token_len (length (c ∷ cs)))
    && (not (c == 45) && all_chars is_version_char (c ∷ cs))

unfoldable pub split_pkg_version_id : Text → Option (Text × Text)
split_pkg_version_id id = elim (cut 61 id) [
  | none ↦ none
  | some (name, version) ↦ if is_empty name || is_empty version then none else some (name, version)
]

abbrev pub Failed : Type 0
Failed = List (Text × PlanError)

unfoldable pub has_failed : Text → Failed → Bool
has_failed id [] = false
has_failed id ((k, e) ∷ m) = text_eq k id || has_failed id m

-- An earlier failure stays.
unfoldable pub fail_id : Text → PlanError → Failed → Failed
unfolding has_failed
fail_id id e m = if has_failed id m then m else m ++ (id, e) ∷ []

pub data Choice : Type 0 where
  refused : PlanError → Choice
  chosen : Text → Text → Choice

-- What both loops ask of an id; `offered` is asked about the id and the name.
unfoldable pub choose : (Text → Text → Bool) → Text → Choice
unfolding split_pkg_version_id check_pkg_name check_pkg_version
choose offered id = elim (split_pkg_version_id id) [
  | none ↦ refused bad_update_id
  | some (name, version) ↦
      if not (check_pkg_name name false)
      then refused bad_update_id
      else if not (check_pkg_version version)
      then refused bad_update_id
      else if not (offered id name)
      then refused not_offered
      else chosen name version
]

pub record AptPlan : Type 0 where
  pub specs : List Text
  pub want : List (Text × Text)
  pub id_by_name : List (Text × Text)
  pub failed : Failed

unfoldable pub apt_step : List Text → Text → AptPlan → AptPlan
unfolding choose fail_id
apt_step offered id plan = elim (choose (λ id name. member id offered) id) [
  | refused e ↦ record plan { failed = fail_id id e plan.failed }
  | chosen name version ↦ record plan {
    specs = plan.specs ++ (name ++ 61 ∷ version) ∷ [];
    want = (name, version) ∷ plan.want;
    id_by_name = (name, id) ∷ plan.id_by_name;
  }
]

unfoldable pub apt_loop : List Text → List Text → AptPlan → AptPlan
unfolding apt_step
apt_loop offered [] plan = plan
apt_loop offered (id ∷ ids) plan = apt_loop offered ids (apt_step offered id plan)

unfoldable pub apt_install_plan : List Text → List Text → Failed → AptPlan
unfolding apt_loop
apt_install_plan ids offered failed =
    apt_loop offered ids (record { specs = []; want = []; id_by_name = []; failed = failed })

pub record PacmanPlan : Type 0 where
  pub names : List Text
  pub id_by_name : List (Text × Text)
  pub failed : Failed

unfoldable pub has_name : Text → List (Text × Text) → Bool
has_name name [] = false
has_name name ((k, id) ∷ m) = text_eq k name || has_name name m

unfoldable pub pacman_step : List Text → Text → PacmanPlan → PacmanPlan
unfolding choose fail_id has_name
pacman_step offered_names id plan = elim (choose (λ id name. member name offered_names) id) [
  | refused e ↦ record plan { failed = fail_id id e plan.failed }
  | chosen name version ↦ if has_name name plan.id_by_name then plan else record plan {
    names = plan.names ++ name ∷ [];
    id_by_name = (name, id) ∷ plan.id_by_name;
  }
]

unfoldable pub pacman_loop : List Text → List Text → PacmanPlan → PacmanPlan
unfolding pacman_step
pacman_loop offered_names [] plan = plan
pacman_loop offered_names (id ∷ ids) plan =
    pacman_loop offered_names ids (pacman_step offered_names id plan)

unfoldable pub pacman_install_plan : List Text → List Text → Failed → PacmanPlan
unfolding pacman_loop
pacman_install_plan ids offered_names failed =
    pacman_loop offered_names ids (record { names = []; id_by_name = []; failed = failed })

-- The names of the ids of a scan.
unfoldable pub pacman_offered_names : List Text → List Text
unfolding split_pkg_version_id
pacman_offered_names [] = []
pacman_offered_names (id ∷ ids) =
    let rest = pacman_offered_names ids in
    elim (split_pkg_version_id id) [ none ↦ rest | some (name, version) ↦ name ∷ rest ]
