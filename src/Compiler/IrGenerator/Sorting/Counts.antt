-- ===== src/Compiler/IrGenerator/Sorting/Counts.antt =====
-- Degrees as counts of dependencies that are left, for
-- eyeflow-server/src/compiler/ir-generator/services/ir-optimizer.service.ts.
use eyeflow.Common.{
  ℕ, suc, ◌+◌, ◌≡◌, refl, sym, ap, ◌∙◌, inl, inr, String, true, false, none, List, [], ◌∷◌, ◌++◌,
  arith, length, ◌||◌, Bool-cases, if◌then◌else◌,
}
use eyeflow.Common.Eq.{◌==◌, eq_same, nat_equality, string_equality}
use eyeflow.Common.JsMap.{lookup, insert, lookup-insert}
use eyeflow.Compiler.IrGenerator.{IrInstruction}
use eyeflow.Compiler.IrGenerator.Optimizer.{contains}
use eyeflow.Compiler.IrGenerator.Sorting.{
  Degrees, degree, zero_degrees, count_dependencies, count_edges, dependencies_of, total_length,
}

-- How often an id occurs.
abbrev pub count : String → List String → ℕ
count id [] = 0
count id (i ∷ is) = let rest = count id is in if i == id then suc rest else rest

pub degree-insert :
    (id other : String) (d : ℕ) (degrees : Degrees)
    → degree other (insert id d degrees) ≡ (if id == other then d else degree other degrees)
degree-insert id other d degrees = let l = lookup-insert id other d degrees in ground arith

degree-count_dependencies :
    (id : String) (ids : List String) (degrees : Degrees)
    → degree id (count_dependencies ids degrees) ≡ degree id degrees + count id ids
unfolding count_dependencies
degree-count_dependencies id [] degrees = omega arith
degree-count_dependencies id (to ∷ rest) degrees =
    let ih = degree-count_dependencies id rest (insert to (degree to degrees + 1) degrees) in
    let step = degree-insert to id (degree to degrees + 1) degrees in
    elim (Bool-cases (to == id)) [
      | inl same ↦
          let d = ap (λ t. degree t degrees) ((string_equality.test_iff to id).0 same) in
          let step' = rw same at step in rw same (omega arith)
      | inr other ↦ let step' = rw other at step in rw other (omega arith)
    ]

-- What `f` adds up to over the edges of the nodes that are not in `done`.
abbrev pub remaining : (List String → ℕ) → List String → List (String × List String) → ℕ
remaining f done [] = 0
remaining f done ((id, dependencies) ∷ edges) =
    let rest = remaining f done edges in if contains id done then rest else f dependencies + rest

pub degree-count_edges :
    (id : String) (edges : List (String × List String)) (degrees : Degrees)
    → degree id (count_edges edges degrees) ≡ degree id degrees + remaining (count id) [] edges
unfolding count_edges
degree-count_edges id [] degrees = omega arith
degree-count_edges id ((from, ids) ∷ edges) degrees =
    let ih = degree-count_edges id edges (count_dependencies ids degrees) in
    let step = degree-count_dependencies id ids degrees in omega arith

pub degree-zero_degrees :
    (id : String) (nodes : List (String × IrInstruction)) (degrees : Degrees)
    → degree id degrees ≡ 0
    → degree id (zero_degrees nodes degrees) ≡ 0
unfolding zero_degrees
degree-zero_degrees id [] degrees h = h
degree-zero_degrees id ((node, i) ∷ nodes) degrees h =
    degree-zero_degrees id nodes (insert node 0 degrees)
      (let step = degree-insert node id 0 degrees in ground arith)

pub remaining-total_length :
    (edges : List (String × List String)) → remaining length [] edges ≡ total_length edges
unfolding total_length
remaining-total_length [] = refl
remaining-total_length ((id, ids) ∷ edges) = let ih = remaining-total_length edges in omega arith

-- No key occurs twice.
abbrev pub HasUniqueKeys {ℓ} : {V : Type ℓ} → List (String × V) → Type ℓ
HasUniqueKeys [] = Unit
HasUniqueKeys ((k, v) ∷ m) = (lookup k m ≡ none) × HasUniqueKeys m

pub insert-HasUniqueKeys {ℓ} :
    {V : Type ℓ} (k : String) (v : V) (m : List (String × V))
    → HasUniqueKeys m
    → HasUniqueKeys (insert k v m)
unfolding insert lookup
insert-HasUniqueKeys k v [] h = (refl, tt)
insert-HasUniqueKeys k v ((j, w) ∷ m) h = elim (Bool-cases (j == k)) [
  | inl same ↦ rw same h
  | inr other ↦
      let l = lookup-insert k j v m in
      rw other (
        (let iff = string_equality.test_iff j k in
            let iff' = string_equality.test_iff k j in let absent = h.0 in ground arith),
        insert-HasUniqueKeys k v m h.1,
      )
]

contains-append_one :
    (k v : String) (done : List String)
    → contains k (done ++ v ∷ []) ≡ (contains k done || (v == k))
contains-append_one k v [] = ground arith
contains-append_one k v (d ∷ ds) = let ih = contains-append_one k v ds in ground arith

contains-append_one_other :
    (k v : String) (done : List String)
    → (k == v) ≡ false
    → contains k (done ++ v ∷ []) ≡ contains k done
contains-append_one_other k v done h =
    let c = contains-append_one k v done in
    let iff = string_equality.test_iff v k in
    let iff' = string_equality.test_iff k v in ground arith

remaining-other :
    (f : List String → ℕ) (v : String) (done : List String) (edges : List (String × List String))
    → lookup v edges ≡ none
    → remaining f (done ++ v ∷ []) edges ≡ remaining f done edges
unfolding lookup
remaining-other f v done [] h = refl
remaining-other f v done ((k, ids) ∷ edges) h = elim (Bool-cases (k == v)) [
  | inl same ↦ let clash = rw same at h in cc
  | inr other ↦
      let ih = remaining-other f v done edges (rw other at h) in
      let c = contains-append_one_other k v done other in
      rw c (ap (λ n. if contains k done then n else f ids + n) ih)
]

-- Taking a node out leaves the rest of what was remaining.
pub remaining-take :
    (f : List String → ℕ) (v : String) (done : List String) (edges : List (String × List String))
    → f [] ≡ 0
    → HasUniqueKeys edges
    → contains v done ≡ false
    → remaining f done edges ≡ f (dependencies_of v edges) + remaining f (done ++ v ∷ []) edges
unfolding lookup
remaining-take f v done [] none_left unique fresh = omega arith
remaining-take f v done ((k, ids) ∷ edges) none_left unique fresh = elim (Bool-cases (k == v)) [
  | inl same ↦
      let e = (string_equality.test_iff k v).0 same in
      let known = contains-append_one v v done in
      let unseen : contains k done ≡ false = ap (λ t. contains t done) e ∙ fresh in
      let listed : contains k (done ++ v ∷ []) ≡ true =
        ap (λ t. contains t (done ++ v ∷ [])) e
        ∙ known
        ∙ ap (λ b. contains v done || b) (eq_same v)
        ∙ ap (λ b. b || true) fresh in
      let rest = remaining-other f v done edges (ap (λ t. lookup t edges) (sym e) ∙ unique.0) in
      rw (same, unseen, listed) (omega arith)
  | inr other ↦
      let c = contains-append_one_other k v done other in
      let ih = remaining-take f v done edges none_left unique.1 fresh in
      elim (Bool-cases (contains k done)) [
        | inl known ↦ rw (other, c, known) (omega arith)
        | inr unknown ↦ rw (other, c, unknown) (omega arith)
      ]
]
