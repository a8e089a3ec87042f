-- ===== src/Compiler/IrGenerator/Sorting/Order.antt =====
-- In which order `topologicalSort` gives the ids:
-- eyeflow-server/src/compiler/ir-generator/services/ir-optimizer.service.ts.
use mathlib.Core.Path.{subst}
use eyeflow.Common.{
  ℕ, zero, suc, ◌+◌, ◌<◌, ◌≡◌, refl, sym, ap, ◌∙◌, inl, inr, String, true, some, List, [], ◌∷◌,
  ◌++◌, append_assoc, append-nil, arith, length, In, In-append_right, Bool-cases,
}
use eyeflow.Common.Eq.{◌==◌, string_equality}
use eyeflow.Common.JsMap.{lookup}
use eyeflow.Compiler.IrGenerator.{IrInstruction}
use eyeflow.Compiler.IrGenerator.Dependencies.{In-contains}
use eyeflow.Compiler.IrGenerator.Optimizer.{contains, build_dependency_graph}
use eyeflow.Compiler.IrGenerator.Sorting.{
  Degrees, dependencies_of, process_queue, initial_degrees, sources, run_queue, total_length,
}
use eyeflow.Compiler.IrGenerator.Sorting.Counts.{count, remaining, HasUniqueKeys}
use eyeflow.Compiler.IrGenerator.Sorting.Termination.{
  IsCounted, release-queue, take-IsCounted, initial-IsCounted, extend_graph-HasUniqueKeys,
}

count-In : (v : String) (ids : List String) → In v ids → 0 < count v ids
count-In v [] m = elim m [ ]
count-In v (i ∷ is) (inl same) =
    let here : (i == v) ≡ true = (string_equality.test_iff i v).1 (sym same) in
    rw here (omega arith)
count-In v (i ∷ is) (inr later) =
    let ih = count-In v is later in
    elim (Bool-cases (i == v)) [ inl same ↦ rw same (omega arith) | inr other ↦ rw other ih ]

remaining-none :
    (v k : String) (done ids : List String) (edges : List (String × List String))
    → remaining (count v) done edges ≡ 0
    → lookup k edges ≡ some ids
    → In v ids
    → contains k done ≡ true
unfolding lookup
remaining-none v k done ids [] h found m = cc
remaining-none v k done ids ((j, js) ∷ edges) h found m = elim (Bool-cases (j == k)) [
  | inl same ↦
      let e = (string_equality.test_iff j k).0 same in
      let found' = rw same at found in
      elim (Bool-cases (contains j done)) [
        | inl known ↦ ap (λ t. contains t done) (sym e) ∙ known
        | inr fresh ↦
            let same_ids : js ≡ ids = cc in
            let some_left = count-In v js (subst (In v) (sym same_ids) m) in
            let h' = rw fresh at h in absurd (omega arith)
      ]
  | inr other ↦
      let found' = rw other at found in
      let rest : remaining (count v) done edges ≡ 0 = elim (Bool-cases (contains j done)) [
        | inl known ↦ rw known at h
        | inr fresh ↦ let h' = rw fresh at h in omega arith
      ] in
      remaining-none v k done ids edges rest found' m
]

module _ (edges : List (String × List String)) where
  -- All nodes that depend on `v` are in `before`.
  abbrev HasDependents : String → List String → Type 0
  HasDependents v before =
      (k : String) (ids : List String) → lookup k edges ≡ some ids → In v ids → In k before

  -- Every node of the list comes after all nodes that depend on it, after `before`.
  abbrev pub IsDependentsFirst : List String → List String → Type 0
  IsDependentsFirst before [] = Unit
  IsDependentsFirst before (v ∷ rest) =
      HasDependents v before × IsDependentsFirst (before ++ v ∷ []) rest

  append_one-IsDependentsFirst :
      (before xs : List String) (v : String)
      → IsDependentsFirst before xs
      → HasDependents v (before ++ xs)
      → IsDependentsFirst before (xs ++ v ∷ [])
  append_one-IsDependentsFirst before [] v h d =
      (λ k ids found m. subst (In k) (append-nil before) (d k ids found m), tt)
  append_one-IsDependentsFirst before (x ∷ xs) v h d = (
    h.0,
    append_one-IsDependentsFirst (before ++ x ∷ []) xs v h.1
        (λ k ids found m. subst (In k) (sym (append_assoc before (x ∷ []) xs)) (d k ids found m)),
  )

  process_queue-IsDependentsFirst :
      HasUniqueKeys edges
      → (fuel : ℕ) (degrees : Degrees) (queue result : List String)
      → IsCounted (λ u. remaining (count u) result edges) [] degrees (result ++ queue)
      → IsDependentsFirst [] result
      → IsDependentsFirst [] (process_queue edges fuel degrees queue result).result
  unfolding process_queue
  process_queue-IsDependentsFirst unique zero degrees [] result h ordered = ordered
  process_queue-IsDependentsFirst unique (suc fuel) degrees [] result h ordered = ordered
  process_queue-IsDependentsFirst unique zero degrees (v ∷ queue) result h ordered = ordered
  process_queue-IsDependentsFirst unique (suc fuel) degrees (v ∷ queue) result h ordered =
      let (taken, total) = take-IsCounted edges degrees v queue result unique h in
      let (after, short) =
        release-queue (dependencies_of v edges) degrees (result ++ v ∷ []) queue
          (λ u. remaining (count u) (result ++ v ∷ []) edges) taken in
      let free : remaining (count v) result edges ≡ 0 =
        let c = h.counted v in
        let z = h.settled v (In-append_right v result (v ∷ queue) (inl refl)) in omega arith in
      process_queue-IsDependentsFirst unique fuel _ _ (result ++ v ∷ []) after (
        append_one-IsDependentsFirst [] result v ordered (λ k ids found m.
          In-contains k result (remaining-none v k result ids edges free found m)))

-- In the order that the topological sort finds, every instruction comes after all instructions that
-- depend on it: what is needed comes after what needs it.
pub run_queue-IsDependentsFirst :
    (is : List IrInstruction)
    → IsDependentsFirst
        (build_dependency_graph is).edges
        []
        (run_queue (build_dependency_graph is)).result
unfolding run_queue build_dependency_graph
run_queue-IsDependentsFirst is =
    let g = build_dependency_graph is in
    process_queue-IsDependentsFirst g.edges
      (extend_graph-HasUniqueKeys is (record { nodes = []; edges = [] }) tt)
      (length (sources (initial_degrees g)) + total_length g.edges) (initial_degrees g)
      (sources (initial_degrees g)) [] (initial-IsCounted g) tt
