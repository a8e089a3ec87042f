-- ===== src/Tasks/Versions/Reachable.antt =====
-- The tables that sequences of calls lead to
-- (eyeflow-server/src/tasks/services/version-lifecycle.service.ts).
use eyeflow.Common.{ℕ, String, Option}
use eyeflow.Tasks.Versions.{
  Versions, Repository, PromoteVersionInput, submit_for_validation, mark_validated,
  promote_to_active, archive_version,
}
use eyeflow.Tasks.Versions.Invariants.{
  IsQuery, IsSingle, table_after, submit_for_validation-Kept, mark_validated-Kept,
  archive_version-Kept, promote_to_active-Kept,
}

-- One call of the service, at any time and with any arguments.
pub data Step (sha256 : String → String) (repo : Repository) (rows : Versions)
    : Versions → Type 0 where
  submitted :
      (id : String)
      → Step sha256 repo rows (table_after rows (submit_for_validation sha256 id rows))
  marked :
      (now : ℕ) (id by : String) (reason : Option String)
      → Step sha256 repo rows (table_after rows (mark_validated now id by reason rows))
  promoted :
      (now : ℕ) (input : PromoteVersionInput)
      → Step sha256 repo rows (table_after rows (promote_to_active repo now input rows))
  retired :
      (now : ℕ) (id : String)
      → Step sha256 repo rows (table_after rows (archive_version now id rows))

pub data Reach (sha256 : String → String) (repo : Repository) (rows : Versions)
    : Versions → Type 0 where
  here : Reach sha256 repo rows rows
  next :
      {t u : Versions} → Reach sha256 repo rows t → Step sha256 repo t u → Reach sha256 repo rows u

Step-IsSingle :
    (sha256 : String → String) (repo : Repository) {s t : Versions}
    → IsQuery repo.find_one
    → IsQuery repo.find_latest
    → IsSingle s
    → Step sha256 repo s t
    → IsSingle t
Step-IsSingle sha256 repo {s} one latest v (submitted id) =
    (submit_for_validation-Kept sha256 id s v).kept
Step-IsSingle sha256 repo {s} one latest v (marked now id by reason) =
    (mark_validated-Kept now id by reason s v).kept
Step-IsSingle sha256 repo {s} one latest v (promoted now input) =
    (promote_to_active-Kept repo now input s one latest v).kept
Step-IsSingle sha256 repo {s} one latest v (retired now id) = (archive_version-Kept now id s v).kept

-- From a table whose rows stand under their ids and in which no project has two active versions,
-- every sequence of calls, failed ones included, leads to such a table. Each query on a project and a
-- status answers a stored row that fits, and nothing only where no row fits.
pub Reach-IsSingle :
    (sha256 : String → String) (repo : Repository) {s t : Versions}
    → IsQuery repo.find_one
    → IsQuery repo.find_latest
    → IsSingle s
    → Reach sha256 repo s t
    → IsSingle t
Reach-IsSingle sha256 repo one latest v here = v
Reach-IsSingle sha256 repo one latest v (next r step) =
    Step-IsSingle sha256 repo one latest (Reach-IsSingle sha256 repo one latest v r) step
