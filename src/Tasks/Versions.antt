-- ===== src/Tasks/Versions.antt =====
-- eyeflow-server/src/tasks/services/version-lifecycle.service.ts. The table of versions is a map by
-- id; the two queries on project and status are the fields of `Repository`, and the digest is an
-- argument. A method that throws leaves the table as it was.
pub mod Invariants
pub mod Reachable
mod Examples
use eyeflow.Common.{
  ℕ, ◌≤◌, ◌≡◌, String, Bool, true, false, not, ◌&&◌, Option, none, some, List, [], ◌∷◌,
  if◌then◌else◌, any,
}
use eyeflow.Common.Eq.{◌==◌, string_equality}
use eyeflow.Common.JsMap.{lookup, insert}

pub data ProjectVersionStatus : Type 0 where
  draft validating valid active executing archived : ProjectVersionStatus

abbrev pub same_status : ProjectVersionStatus → ProjectVersionStatus → Bool
same_status draft draft = true
same_status validating validating = true
same_status valid valid = true
same_status active active = true
same_status executing executing = true
same_status archived archived = true
same_status _ _ = false

-- The columns that the service reads or writes; a checksum that is not set is empty.
pub record ProjectVersion : Type 0 where
  pub id : String
  pub project_id : String
  pub version : ℕ
  pub status : ProjectVersionStatus
  pub ir_binary : String
  pub ir_checksum : String
  pub validated_by : Option String
  pub validated_at : Option ℕ
  pub validation_reason : Option String
  pub change_reason : Option String
  pub archived_at : Option ℕ

abbrev pub Versions : Type 0
Versions = List (String × ProjectVersion)

pub data LifecycleError : Type 0 where
  bad_request not_found conflict : LifecycleError

pub data Outcome : Type 0 where
  failed : LifecycleError → Outcome
  done : Versions → ProjectVersion → Outcome

-- `findOne` on a project and a status, in any order and with the highest version first.
pub record Repository : Type 0 where
  pub find_one : String → ProjectVersionStatus → Versions → Option ProjectVersion
  pub find_latest : String → ProjectVersionStatus → Versions → Option ProjectVersion

pub record PromoteVersionInput : Type 0 where
  pub project_id : String
  pub validated_by : String
  pub validation_reason : Option String
  pub change_reason : Option String

abbrev pub allowed_transitions : ProjectVersionStatus → List ProjectVersionStatus
allowed_transitions draft = validating ∷ archived ∷ []
allowed_transitions validating = valid ∷ draft ∷ []
allowed_transitions valid = active ∷ archived ∷ []
allowed_transitions active = archived ∷ executing ∷ []
allowed_transitions executing = active ∷ []
allowed_transitions archived = []

-- `assertTransitionAllowed` does not throw.
unfoldable pub is_transition_allowed : ProjectVersionStatus → ProjectVersionStatus → Bool
is_transition_allowed current next = any (λ s. same_status s next) (allowed_transitions current)

unfoldable pub save : ProjectVersion → Versions → Outcome
unfolding insert
save v rows = done (insert v.id v rows) v

unfoldable pub submit_for_validation : (String → String) → String → Versions → Outcome
unfolding lookup is_transition_allowed save
submit_for_validation sha256 id rows = elim (lookup id rows) [
  | none ↦ failed not_found
  | some v ↦
      if is_transition_allowed v.status validating
      then (let computed = sha256 v.ir_binary in
          if not (v.ir_checksum == "") && not (v.ir_checksum == computed)
          then failed conflict
          else save (record v { ir_checksum = computed; status = validating }) rows)
      else failed bad_request
]

unfoldable pub mark_validated : ℕ → String → String → Option String → Versions → Outcome
unfolding lookup is_transition_allowed save
mark_validated now id by reason rows = elim (lookup id rows) [
  | none ↦ failed not_found
  | some v ↦
      if is_transition_allowed v.status valid
      then save
          (record v {
            status = valid;
            validated_by = some by;
            validated_at = some now;
            validation_reason = reason;
          })
          rows
      else failed bad_request
]

-- `changeReason ?? candidate.changeReason`
abbrev first_given : Option String → Option String → Option String
first_given none old = old
first_given (some new) old = some new

unfoldable pub archive_current : ℕ → Option ProjectVersion → Versions → Versions
unfolding insert
archive_current now none rows = rows
archive_current now (some current) rows =
    insert current.id (record current { status = archived; archived_at = some now }) rows

unfoldable pub promote_to_active : Repository → ℕ → PromoteVersionInput → Versions → Outcome
unfolding is_transition_allowed save archive_current
promote_to_active repo now input rows = elim (repo.find_latest input.project_id valid rows) [
  | none ↦ failed not_found
  | some candidate ↦
      if is_transition_allowed candidate.status active
      then save
          (record candidate {
            status = active;
            validated_by = some input.validated_by;
            validated_at = some now;
            validation_reason = input.validation_reason;
            change_reason = first_given input.change_reason candidate.change_reason;
          })
          (archive_current now (repo.find_one input.project_id active rows) rows)
      else failed bad_request
]

unfoldable pub archive_version : ℕ → String → Versions → Outcome
unfolding lookup is_transition_allowed save
archive_version now id rows = elim (lookup id rows) [
  | none ↦ failed not_found
  | some v ↦
      if is_transition_allowed v.status archived
      then save (record v { status = archived; archived_at = some now }) rows
      else failed bad_request
]

unfoldable pub get_active_version : Repository → String → Versions → Option ProjectVersion
get_active_version repo project rows = repo.find_one project active rows

-- `none` is the exception for an unknown id.
unfoldable pub verify_ir_integrity : (String → String) → String → Versions → Option Bool
unfolding lookup
verify_ir_integrity sha256 id rows = elim (lookup id rows) [
  | none ↦ none
  | some v ↦ some (sha256 v.ir_binary == v.ir_checksum)
]
