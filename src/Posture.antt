-- ===== src/Posture.antt =====
-- agent/internal/posture/posture.go: the checks of a machine's security state, isolated from one another. A
-- check is what its Run does; results with one name may stand in any order in the source.
pub mod Verdicts
mod Tests
use everwas.Base.{
  ℕ, suc, Bool, true, false, not, ◌&&◌, Option, none, some, List, [], ◌∷◌, ◌++◌, map, if◌then◌else◌,
}
use everwas.Base.Text.{Text, codes, text_lt}
use everwas.Update.State.{is_empty}

pub data Status : Type 0 where
  pass fail not_applicable unknown : Status

pub data NotAssessedReason : Type 0 where
  reason_not_applicable reason_undetermined : NotAssessedReason

abbrev pub assessed : Status → Bool
assessed pass = true
assessed fail = true
assessed not_applicable = false
assessed unknown = false

-- The evidence is a map; the duration is its milliseconds.
pub record Result : Type 0 where
  pub check : Text
  pub category : Text
  pub status : Status
  pub detail : Text
  pub evidence : List (Text × Text)
  pub took_ms : ℕ

-- What Run does: it returns a result, or panics.
pub data Outcome : Type 0 where
  finds : Result → Outcome
  panics : Outcome

-- `timed_out` is whether the context has ended when Run returns.
pub record Check : Type 0 where
  pub name : Text
  pub category : Text
  pub outcome : Outcome
  pub timed_out : Bool
  pub took_ms : ℕ

abbrev pub timeout_note : Text
timeout_note = codes " (timed out after 30s)"

-- The result before its duration is set.
unfoldable pub assess : Check → Outcome → Result
assess c panics = record {
  check = c.name;
  category = [];
  status = unknown;
  detail = codes "the check failed to run";
  evidence = [];
  took_ms = 0;
}
assess c (finds r) = record r {
  check = if is_empty r.check then c.name else r.check;
  category = c.category;
  detail = if c.timed_out && not (assessed r.status) then r.detail ++ timeout_note else r.detail;
}

unfoldable pub run_one : Check → Result
unfolding assess
run_one c = record (assess c c.outcome) { took_ms = c.took_ms }

unfoldable pub insert_result : Result → List Result → List Result
unfolding text_lt
insert_result r [] = r ∷ []
insert_result r (s ∷ ss) =
    let rest = insert_result r ss in if text_lt s.check r.check then s ∷ rest else r ∷ s ∷ ss

unfoldable pub sort_results : List Result → List Result
unfolding insert_result
sort_results [] = []
sort_results (r ∷ rs) = insert_result r (sort_results rs)

unfoldable pub run : List Check → List Result
unfolding sort_results run_one
run cs = sort_results (map run_one cs)

-- `MarshalJSON`: the status on the wire, and the reason.
abbrev pub wire_status : Status → Text × Option NotAssessedReason
wire_status pass = (codes "pass", none)
wire_status fail = (codes "fail", none)
wire_status not_applicable = (codes "not_assessed", some reason_not_applicable)
wire_status unknown = (codes "not_assessed", some reason_undetermined)

pub record Summary : Type 0 where
  pub passed : List Text
  pub failed : List Text
  pub not_assessed : List Text
  pub assessed_count : ℕ

abbrev pub add_result : Result → Status → Summary → Summary
add_result r pass s = record s {
  passed = s.passed ++ r.check ∷ [];
  assessed_count = suc s.assessed_count;
}
add_result r fail s = record s {
  failed = s.failed ++ r.check ∷ [];
  assessed_count = suc s.assessed_count;
}
add_result r not_applicable s = record s { not_assessed = s.not_assessed ++ r.check ∷ [] }
add_result r unknown s = record s { not_assessed = s.not_assessed ++ r.check ∷ [] }

unfoldable pub add_results : List Result → Summary → Summary
add_results [] s = s
add_results (r ∷ rs) s = add_results rs (add_result r r.status s)

unfoldable pub summarize : List Result → Summary
unfolding add_results
summarize rs =
    add_results rs (record { passed = []; failed = []; not_assessed = []; assessed_count = 0 })
