-- ===== src/Tasks/Versions/Examples.antt =====
-- A small table of versions (eyeflow-server/src/tasks/services/version-lifecycle.service.ts).
use mathlib.Core.Path.{subst}
use eyeflow.Common.{
  ℕ, ◌≡◌, refl, sym, ◌∙◌, inl, inr, String, Bool, true, false, ◌&&◌, Option, none, some, [], ◌∷◌,
  arith, Bool-cases, if◌then◌else◌,
}
use eyeflow.Common.Eq.{◌==◌, string_equality}
use eyeflow.Common.JsMap.{lookup}
use eyeflow.Tasks.Versions.{
  ProjectVersionStatus, same_status, draft, validating, valid, active, executing, archived,
  ProjectVersion, Versions, Repository, PromoteVersionInput, promote_to_active, verify_ir_integrity,
  get_active_version,
}
use eyeflow.Tasks.Versions.Invariants.{IsKeyed, IsFit, IsQuery, IsSingle, table_after}
use eyeflow.Tasks.Versions.Reachable.{Step, Reach, Reach-IsSingle}

abbrev is_fit : String → ProjectVersionStatus → ProjectVersion → Bool
is_fit p st v = (v.project_id == p) && same_status v.status st

-- The first of the keys whose row fits.
find_key : String → ProjectVersionStatus → Versions → Versions → Option ProjectVersion
find_key p st rows [] = none
find_key p st rows ((k, old) ∷ rest) =
    let later = find_key p st rows rest in
    elim (lookup k rows) [ none ↦ later | some v ↦ if is_fit p st v then some v else later ]

status_iff : (a b : ProjectVersionStatus) → same_status a b ≡ true → a ≡ b
status_iff draft draft h = refl
status_iff validating validating h = refl
status_iff valid valid h = refl
status_iff active active h = refl
status_iff executing executing h = refl
status_iff archived archived h = refl
status_iff a b h = cc

status_self : (a : ProjectVersionStatus) → same_status a a ≡ true
status_self draft = refl
status_self validating = refl
status_self valid = refl
status_self active = refl
status_self executing = refl
status_self archived = refl

find_key-fits :
    (p : String) (st : ProjectVersionStatus) (rows rest : Versions) (v : ProjectVersion)
    → IsKeyed rows
    → find_key p st rows rest ≡ some v
    → (lookup v.id rows ≡ some v) × IsFit p st v
unfolding find_key
find_key-fits p st rows [] v keyed h = absurd (cc)
find_key-fits p st rows ((k, old) ∷ rest) v keyed h =
    let ih = find_key-fits p st rows rest v keyed in
    let stored = keyed k v in
    let project = string_equality.test_iff v.project_id p in
    let status = status_iff v.status st in (ground arith, (ground arith, ground arith))

IsFit-is_fit :
    (p : String) (st : ProjectVersionStatus) (v : ProjectVersion)
    → IsFit p st v
    → is_fit p st v ≡ true
IsFit-is_fit p st v fit =
    let project = (string_equality.test_iff v.project_id p).1 fit.0 in
    let status = status_self st in ground arith

find_key-first :
    (p : String) (st : ProjectVersionStatus) (rows rest : Versions) (k : String)
    (old v : ProjectVersion)
    → lookup k rows ≡ some v
    → is_fit p st v ≡ true
    → find_key p st rows ((k, old) ∷ rest) ≡ some v
unfolding find_key
find_key-first p st rows rest k old v stored fit = ground arith

find_key-later :
    (p : String) (st : ProjectVersionStatus) (rows rest : Versions) (k : String)
    (old : ProjectVersion)
    → find_key p st rows ((k, old) ∷ rest) ≡ none
    → find_key p st rows rest ≡ none
unfolding find_key
find_key-later p st rows rest k old h = ground arith

find_key-missing :
    (p : String) (st : ProjectVersionStatus) (rows rest : Versions) (id : String)
    (v : ProjectVersion)
    → find_key p st rows rest ≡ none
    → lookup id rows ≡ some v
    → is_fit p st v ≡ true
    → lookup id rest ≡ none
unfolding lookup
find_key-missing p st rows [] id v h stored fit = refl
find_key-missing p st rows ((k, old) ∷ rest) id v h stored fit = elim (Bool-cases (k == id)) [
  | inl same ↦
      let key = (string_equality.test_iff k id).0 same in
      let stored' = subst (λ x. lookup x rows ≡ some v) (sym key) stored in
      let found = find_key-first p st rows rest k old v stored' fit in
      let clash = sym h ∙ found in cc
  | inr other ↦
      rw other
        (find_key-missing p st rows rest id v (find_key-later p st rows rest k old h) stored fit)
]

abbrev find : String → ProjectVersionStatus → Versions → Option ProjectVersion
find p st rows = find_key p st rows rows

find-IsQuery : IsQuery find
find-IsQuery = record {
  fits = λ p st rows v keyed h. find_key-fits p st rows rows v keyed h;
  missing = λ p st rows id v keyed h stored fit.
      let absent = find_key-missing p st rows rows id v h stored (IsFit-is_fit p st v fit) in
      let clash = sym absent ∙ stored in cc;
}

abbrev version : String → ℕ → ProjectVersionStatus → ProjectVersion
version id number status = record {
  id = id;
  project_id = "p";
  version = number;
  status = status;
  ir_binary = "01";
  ir_checksum = "";
  validated_by = none;
  validated_at = none;
  validation_reason = none;
  change_reason = none;
  archived_at = none;
}

abbrev table : Versions
table = ("a", version "a" 1 active) ∷ ("b", version "b" 2 valid) ∷ []

table-IsSingle : IsSingle table
unfolding lookup
table-IsSingle = record {
  keyed = λ i v h. ground (arith, string_equality.test_iff "a" i, string_equality.test_iff "b" i);
  single = λ i j v w h k p x y. ground (
    arith,
    string_equality.test_iff "a" i,
    string_equality.test_iff "b" i,
    string_equality.test_iff "a" j,
    string_equality.test_iff "b" j,
  );
}

abbrev finder : Repository
finder = record { find_one = find; find_latest = find }

abbrev promotion : PromoteVersionInput
promotion = record {
  project_id = "p";
  validated_by = "ana";
  validation_reason = none;
  change_reason = none;
}

promoted-IsSingle : IsSingle (table_after table (promote_to_active finder 9 promotion table))
promoted-IsSingle =
    Reach-IsSingle (λ text. text) finder find-IsQuery find-IsQuery table-IsSingle
      (Reach.next Reach.here (Step.promoted 9 promotion))

-- The former active version is archived.
promoted_active :
    get_active_version finder "p" (table_after table (promote_to_active finder 9 promotion table))
    ≡ lookup "b" (table_after table (promote_to_active finder 9 promotion table))
unfolding get_active_version promote_to_active find_key lookup
promoted_active = refl

tampered : verify_ir_integrity (λ text. text) "a" table ≡ some false
unfolding verify_ir_integrity
tampered = refl
