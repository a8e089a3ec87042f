-- ===== src/Tasks/Versions/Invariants.antt =====
-- What every sequence of the service's calls keeps
-- (eyeflow-server/src/tasks/services/version-lifecycle.service.ts).
use eyeflow.Common.{
  ℕ, ◌≡◌, ◌≢◌, refl, ◌∙◌, inl, inr, String, Bool, true, false, Option, none, some, arith,
  Option-cases, if◌then◌else◌,
}
use eyeflow.Common.Eq.{string_equality}
use eyeflow.Common.JsMap.{lookup, insert, lookup-insert}
use eyeflow.Tasks.Versions.{
  ProjectVersionStatus, same_status, draft, validating, valid, active, executing, archived,
  ProjectVersion, Versions, Repository, PromoteVersionInput, Outcome, failed, done, LifecycleError,
  bad_request, not_found, conflict, save, submit_for_validation, mark_validated, archive_current,
  promote_to_active, archive_version,
}

-- Rows are stored under their ids.
abbrev pub IsKeyed : Versions → Type 0
IsKeyed rows = (id : String) (v : ProjectVersion) → lookup id rows ≡ some v → v.id ≡ id

abbrev pub IsFit : String → ProjectVersionStatus → ProjectVersion → Type 0
IsFit p st v = (v.project_id ≡ p) × (v.status ≡ st)

-- What the queries promise of such a table: a stored row that fits, and none only if no row fits.
pub record IsQuery (find : String → ProjectVersionStatus → Versions → Option ProjectVersion)
    : Type 0 where
  pub fits :
      (p : String) (st : ProjectVersionStatus) (rows : Versions) (v : ProjectVersion)
      → IsKeyed rows
      → find p st rows ≡ some v
      → (lookup v.id rows ≡ some v) × IsFit p st v
  pub missing :
      (p : String) (st : ProjectVersionStatus) (rows : Versions) (id : String) (v : ProjectVersion)
      → IsKeyed rows
      → find p st rows ≡ none
      → lookup id rows ≡ some v
      → ¬ IsFit p st v

-- Rows are stored under their ids, and no project has two active versions.
pub record IsSingle (rows : Versions) : Type 0 where
  pub keyed : IsKeyed rows
  pub single :
      (i j : String) (v w : ProjectVersion)
      → lookup i rows ≡ some v
      → lookup j rows ≡ some w
      → v.project_id ≡ w.project_id
      → v.status ≡ active
      → w.status ≡ active
      → i ≡ j

status_same : (a : ProjectVersionStatus) → ¬ (same_status a a ≡ false)
status_same draft h = cc
status_same validating h = cc
status_same valid h = cc
status_same active h = cc
status_same executing h = cc
status_same archived h = cc

status_apart : (a b : ProjectVersionStatus) → same_status a b ≡ false → a ≢ b
status_apart a b h e = let same = rw e at h in status_same b same

-- Saving a row that is not active, under its id.
insert-IsSingle :
    (v : ProjectVersion) (rows : Versions)
    → same_status v.status active ≡ false
    → IsSingle rows
    → IsSingle (insert v.id v rows)
insert-IsSingle v rows other s =
    let inactive = status_apart v.status active other in
    record {
      keyed = λ i w h.
          let old = s.keyed i w in
          ground (arith, lookup-insert v.id i v rows, string_equality.test_iff v.id i);
      single = λ i j a b h k p x y.
          let old = s.single i j a b in
          ground (arith, lookup-insert v.id i v rows, lookup-insert v.id j v rows);
    }

abbrev HasNoActive : String → Versions → Type 0
HasNoActive p rows =
    (j : String) (w : ProjectVersion)
    → lookup j rows ≡ some w
    → w.project_id ≡ p
    → w.status ≢ active

-- Saving an active row of a project that has none.
insert_active-IsSingle :
    (v : ProjectVersion) (rows : Versions)
    → HasNoActive v.project_id rows
    → IsSingle rows
    → IsSingle (insert v.id v rows)
insert_active-IsSingle v rows alone s = record {
  keyed = λ i w h.
      let old = s.keyed i w in
      ground (arith, lookup-insert v.id i v rows, string_equality.test_iff v.id i);
  single = λ i j a b h k p x y.
      let old = s.single i j a b in
      let left = alone i a in
      let right = alone j b in
      ground (
        arith,
        lookup-insert v.id i v rows,
        lookup-insert v.id j v rows,
        string_equality.test_iff v.id i,
        string_equality.test_iff v.id j,
      );
}

-- The table after a call.
abbrev pub table_after : Versions → Outcome → Versions
table_after rows (failed e) = rows
table_after rows (done t v) = t

-- The table after the call is still one.
pub record Kept (rows : Versions) (o : Outcome) : Type 0 where
  pub kept : IsSingle (table_after rows o)

if-Kept :
    {rows : Versions} (b : Bool) {x y : Outcome}
    → Kept rows x
    → Kept rows y
    → Kept rows (if b then x else y)
if-Kept true k l = k
if-Kept false k l = l

failed-Kept : {rows : Versions} (e : LifecycleError) → IsSingle rows → Kept rows (failed e)
failed-Kept e s = record { kept = s }

save-Kept :
    {rows : Versions} (v : ProjectVersion)
    → same_status v.status active ≡ false
    → IsSingle rows
    → Kept rows (save v rows)
unfolding save
save-Kept {rows} v h s = record { kept = insert-IsSingle v rows h s }

pub submit_for_validation-Kept :
    (sha256 : String → String) (id : String) (rows : Versions)
    → IsSingle rows
    → Kept rows (submit_for_validation sha256 id rows)
unfolding submit_for_validation
submit_for_validation-Kept sha256 id rows s = elim (Option-cases (lookup id rows)) [
  | inl unknown ↦ rw (unknown, submit_for_validation) (failed-Kept not_found s)
  | inr (v, e) ↦
      rw (e, submit_for_validation)
        (if-Kept _ (if-Kept _ (failed-Kept conflict s) (save-Kept _ refl s))
          (failed-Kept bad_request s))
]

pub mark_validated-Kept :
    (now : ℕ) (id by : String) (reason : Option String) (rows : Versions)
    → IsSingle rows
    → Kept rows (mark_validated now id by reason rows)
unfolding mark_validated
mark_validated-Kept now id by reason rows s = elim (Option-cases (lookup id rows)) [
  | inl unknown ↦ rw (unknown, mark_validated) (failed-Kept not_found s)
  | inr (v, e) ↦ rw (e, mark_validated) (if-Kept _ (save-Kept _ refl s) (failed-Kept bad_request s))
]

pub archive_version-Kept :
    (now : ℕ) (id : String) (rows : Versions)
    → IsSingle rows
    → Kept rows (archive_version now id rows)
unfolding archive_version
archive_version-Kept now id rows s = elim (Option-cases (lookup id rows)) [
  | inl unknown ↦ rw (unknown, archive_version) (failed-Kept not_found s)
  | inr (v, e) ↦
      rw (e, archive_version) (if-Kept _ (save-Kept _ refl s) (failed-Kept bad_request s))
]

save_active-Kept :
    {rows t : Versions} (v : ProjectVersion)
    → HasNoActive v.project_id t
    → IsSingle t
    → Kept rows (save v t)
unfolding save
save_active-Kept {t = t} v alone s = record { kept = insert_active-IsSingle v t alone s }

archive_current-HasNoActive :
    (repo : Repository) (now : ℕ) (p : String) (rows : Versions)
    → IsQuery repo.find_one
    → IsSingle rows
    → IsSingle (archive_current now (repo.find_one p active rows) rows)
      × HasNoActive p (archive_current now (repo.find_one p active rows) rows)
unfolding archive_current
archive_current-HasNoActive repo now p rows q s =
    elim (Option-cases (repo.find_one p active rows)) [
      | inl nobody ↦
          rw (nobody, archive_current)
            (s, λ j w h k x. q.missing p active rows j w s.keyed nobody h (k, x))
      | inr (current, e) ↦
          let (stored, (mine, running)) = q.fits p active rows current s.keyed e in
          rw (e, archive_current)
            (
              insert-IsSingle _ rows refl s,
              λ j w h k x.
                  let gone = record current { status = archived; archived_at = some now } in
                  let only = s.single current.id j current w stored in
                  ground (
                    arith,
                    lookup-insert current.id j gone rows,
                    string_equality.test_iff current.id j,
                  ),
            )
    ]

pub promote_to_active-Kept :
    (repo : Repository) (now : ℕ) (input : PromoteVersionInput) (rows : Versions)
    → IsQuery repo.find_one
    → IsQuery repo.find_latest
    → IsSingle rows
    → Kept rows (promote_to_active repo now input rows)
unfolding promote_to_active
promote_to_active-Kept repo now input rows one latest s =
    elim (Option-cases (repo.find_latest input.project_id valid rows)) [
      | inl nobody ↦ rw (nobody, promote_to_active) (failed-Kept not_found s)
      | inr (v, e) ↦
          let (t, alone) = archive_current-HasNoActive repo now input.project_id rows one s in
          let mine = (latest.fits input.project_id valid rows v s.keyed e).1.0 in
          rw (e, promote_to_active)
            (if-Kept _ (save_active-Kept _ (λ j w h k. alone j w h (k ∙ mine)) t)
              (failed-Kept bad_request s))
    ]
