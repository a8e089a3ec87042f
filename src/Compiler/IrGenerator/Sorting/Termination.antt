-- ===== src/Compiler/IrGenerator/Sorting/Termination.antt =====
-- The loop of `topologicalSort` ends, and gives no id twice:
-- eyeflow-server/src/compiler/ir-generator/services/ir-optimizer.service.ts.
use mathlib.Core.Path.{subst}
use eyeflow.Common.{
  ℕ, zero, suc, ◌+◌, ◌≤◌, ◌≡◌, refl, sym, ap, inl, inr, String, Bool, true, false, Option, none,
  some, List, [], ◌∷◌, ◌++◌, append_assoc, arith, length, length-append, In, In-append,
  In-append_left, In-append_right, or_else, Bool-cases, if◌then◌else◌, nat_eq_iff,
}
use eyeflow.Common.Eq.{◌==◌, eq_same, nat_equality, string_equality}
use eyeflow.Common.JsMap.{lookup, insert}
use eyeflow.Compiler.IrGenerator.{IrInstruction}
use eyeflow.Compiler.IrGenerator.Dependencies.{In-contains}
use eyeflow.Compiler.IrGenerator.Optimizer.{
  contains, DependencyGraph, extend_graph, build_dependency_graph,
}
use eyeflow.Compiler.IrGenerator.Sorting.{
  Degrees, degree, lower, release, dependencies_of, process_queue, sources, initial_degrees,
  zero_degrees, count_dependencies, count_edges, total_length, run_queue,
}
use eyeflow.Compiler.IrGenerator.Sorting.Counts.{
  count, degree-insert, degree-count_edges, degree-zero_degrees, remaining, remaining-total_length,
  HasUniqueKeys, insert-HasUniqueKeys, remaining-take,
}

-- No id occurs twice.
abbrev pub NoRepeat : List String → Type 0
NoRepeat [] = Unit
NoRepeat (x ∷ xs) = (¬ (In x xs)) × NoRepeat xs

NoRepeat-append_one :
    (w : String) (xs : List String) → NoRepeat xs → ¬ (In w xs) → NoRepeat (xs ++ w ∷ [])
NoRepeat-append_one w [] h out = (λ m. elim m [ ], tt)
NoRepeat-append_one w (x ∷ xs) h out = (
  λ m. elim (In-append x xs (w ∷ []) m) [
    | inl early ↦ h.0 early
    | inr last ↦ elim last [ inl same ↦ out (inl (sym same)) | inr later ↦ elim later [ ] ]
  ],
  NoRepeat-append_one w xs h.1 (λ m. out (inr m)),
)

NoRepeat-middle :
    (xs : List String) (v : String) (ys : List String) → NoRepeat (xs ++ v ∷ ys) → ¬ (In v xs)
NoRepeat-middle [] v ys h m = elim m [ ]
NoRepeat-middle (x ∷ xs) v ys h (inl same) = h.0 (In-append_right x xs (v ∷ ys) (inl (sym same)))
NoRepeat-middle (x ∷ xs) v ys h (inr later) = NoRepeat-middle xs v ys h.1 later

NoRepeat-left : (xs ys : List String) → NoRepeat (xs ++ ys) → NoRepeat xs
NoRepeat-left [] ys h = tt
NoRepeat-left (x ∷ xs) ys h = (λ m. h.0 (In-append_left x xs ys m), NoRepeat-left xs ys h.1)

-- Every degree is what is left of its node: `base` outside the list that is being released. What
-- was sent to the queue has degree 0 and was sent once.
pub record IsCounted (base : String → ℕ) (ids : List String) (degrees : Degrees)
    (sent : List String) : Type 0 where
  pub counted : (u : String) → degree u degrees ≡ base u + count u ids
  pub settled : (u : String) → In u sent → degree u degrees ≡ 0
  pub once : NoRepeat sent

lower-degree :
    (w : String) (degrees : Degrees) (n : ℕ)
    → degree w degrees ≡ suc n
    → lower (lookup w degrees) ≡ n
lower-degree w degrees n h = go (lookup w degrees) h
  where
    go : (o : Option ℕ) → or_else o 0 ≡ suc n → lower o ≡ n
    go none e = absurd (omega arith)
    go (some zero) e = absurd (omega arith)
    go (some (suc m)) e = omega arith

module _ (base : String → ℕ) (w : String) (ids : List String) (degrees : Degrees)
    (sent : List String) (h : IsCounted base (w ∷ ids) degrees sent) where
  degree_before : degree w degrees ≡ suc (base w + count w ids)
  degree_before =
      let here = h.counted w in
      let own : count w (w ∷ ids) ≡ suc (count w ids) =
        ap (λ b. if b then suc (count w ids) else count w ids) (eq_same w) in
      omega arith

  counted_after :
      (u : String) → degree u (insert w (base w + count w ids) degrees) ≡ base u + count u ids
  counted_after u =
      let step = degree-insert w u (base w + count w ids) degrees in
      let before = h.counted u in
      elim (Bool-cases (w == u)) [
        | inl same ↦
            let e = ap (λ t. base t + count t ids) ((string_equality.test_iff w u).0 same) in
            let step' = rw same at step in omega arith
        | inr other ↦
            let step' = rw other at step in let before' = rw other at before in omega arith
      ]

  -- What was sent before is another node, and keeps its degree.
  not_sent : ¬ (In w sent)
  not_sent m =
      let zero_degree = h.settled w m in let positive = degree_before in absurd (omega arith)

  settled_after : (u : String) → In u sent → degree u (insert w (base w + count w ids) degrees) ≡ 0
  settled_after u m = elim (Bool-cases (w == u)) [
    | inl same ↦
        absurd (not_sent (subst (λ t. In t sent) (sym ((string_equality.test_iff w u).0 same)) m))
    | inr other ↦
        let step = degree-insert w u (base w + count w ids) degrees in
        let before = h.settled u m in let step' = rw other at step in omega arith
  ]

  -- One dependency is released.
  release_one-IsCounted :
      IsCounted base ids
        (insert w (lower (lookup w degrees)) degrees)
        (if lower (lookup w degrees) == 0 then sent ++ w ∷ [] else sent)
  release_one-IsCounted =
      let n = base w + count w ids in
      let low = lower-degree w degrees n degree_before in
      rw low (elim (Bool-cases (n == 0)) [
        | inl zeroed ↦ rw zeroed (record {
          counted = counted_after;
          settled = λ u m. elim (In-append u sent (w ∷ []) m) [
            | inl early ↦ settled_after u early
            | inr last ↦ elim last [
              | inl same ↦
                  let own = counted_after u in
                  let z = (nat_eq_iff n 0).0 zeroed in
                  let e = ap (λ t. base t + count t ids) same in omega arith
              | inr later ↦ elim later [ ]
            ]
          ];
          once = NoRepeat-append_one w sent h.once not_sent;
        })
        | inr left ↦
            rw left (record { counted = counted_after; settled = settled_after; once = h.once })
      ])

push-append :
    (b : Bool) (done queue : List String) (w : String)
    → (if b then done ++ queue ++ w ∷ [] else done ++ queue)
      ≡ done ++ (if b then queue ++ w ∷ [] else queue)
push-append true done queue w = append_assoc done queue (w ∷ [])
push-append false done queue w = refl

push-length :
    (b : Bool) (queue : List String) (w : String)
    → length (if b then queue ++ w ∷ [] else queue) ≤ length queue + 1
push-length true queue w = let l = length-append queue (w ∷ []) in omega arith
push-length false queue w = omega arith

pub release-queue :
    (ids : List String) (degrees : Degrees) (done queue : List String)
    → (base : String → ℕ) → IsCounted base ids degrees (done ++ queue)
    → IsCounted base [] (release ids degrees queue).0 (done ++ (release ids degrees queue).1)
      × (length (release ids degrees queue).1 ≤ length queue + length ids)
unfolding release
release-queue [] degrees done queue base h = (h, omega arith)
release-queue (w ∷ ids) degrees done queue base h =
    let d = lower (lookup w degrees) in
    let one = release_one-IsCounted base w ids degrees (done ++ queue) h in
    let longer = if d == 0 then queue ++ w ∷ [] else queue in
    let (counted, short) =
      release-queue ids (insert w d degrees) done longer base
        (subst (IsCounted base ids (insert w d degrees)) (push-append (d == 0) done queue w) one) in
    (counted, let l = push-length (d == 0) queue w in omega arith)

pub take-IsCounted :
    (edges : List (String × List String)) (degrees : Degrees) (v : String)
    (queue result : List String)
    → HasUniqueKeys edges
    → IsCounted (λ u. remaining (count u) result edges) [] degrees (result ++ v ∷ queue)
    → (IsCounted
        (λ u. remaining (count u) (result ++ v ∷ []) edges)
        (dependencies_of v edges)
        degrees
        (result ++ v ∷ [] ++ queue))
      × (remaining length result edges
          ≡ length (dependencies_of v edges) + remaining length (result ++ v ∷ []) edges)
take-IsCounted edges degrees v queue result unique h =
    let fresh : contains v result ≡ false = elim (Bool-cases (contains v result)) [
      | inl hit ↦ absurd (NoRepeat-middle result v queue h.once (In-contains v result hit))
      | inr miss ↦ miss
    ] in
    let same : result ++ v ∷ queue ≡ result ++ v ∷ [] ++ queue =
      sym (append_assoc result (v ∷ []) queue) in
    (
      record {
        counted = λ u.
            let before = h.counted u in
            let taken = remaining-take (count u) v result edges refl unique fresh in omega arith;
        settled = λ u m. h.settled u (subst (In u) (sym same) m);
        once = subst NoRepeat same h.once;
      },
      remaining-take length v result edges refl unique fresh,
    )

process_queue-finished :
    (edges : List (String × List String))
    → HasUniqueKeys edges
    → (fuel : ℕ) (degrees : Degrees) (queue result : List String)
    → IsCounted (λ u. remaining (count u) result edges) [] degrees (result ++ queue)
    → length queue + remaining length result edges ≤ fuel
    → ((process_queue edges fuel degrees queue result).finished ≡ true)
      × NoRepeat (process_queue edges fuel degrees queue result).result
unfolding process_queue
process_queue-finished edges unique zero degrees [] result h enough =
    (refl, NoRepeat-left result [] h.once)
process_queue-finished edges unique (suc fuel) degrees [] result h enough =
    (refl, NoRepeat-left result [] h.once)
process_queue-finished edges unique zero degrees (v ∷ queue) result h enough = absurd (omega arith)
process_queue-finished edges unique (suc fuel) degrees (v ∷ queue) result h enough =
    let (taken, total) = take-IsCounted edges degrees v queue result unique h in
    let (after, short) =
      release-queue (dependencies_of v edges) degrees (result ++ v ∷ []) queue
        (λ u. remaining (count u) (result ++ v ∷ []) edges) taken in
    process_queue-finished edges unique fuel _ _ (result ++ v ∷ []) after (omega arith)

zero_degrees-HasUniqueKeys :
    (nodes : List (String × IrInstruction)) (degrees : Degrees)
    → HasUniqueKeys degrees
    → HasUniqueKeys (zero_degrees nodes degrees)
unfolding zero_degrees
zero_degrees-HasUniqueKeys [] degrees h = h
zero_degrees-HasUniqueKeys ((id, i) ∷ nodes) degrees h =
    zero_degrees-HasUniqueKeys nodes (insert id 0 degrees) (insert-HasUniqueKeys id 0 degrees h)

count_dependencies-HasUniqueKeys :
    (ids : List String) (degrees : Degrees)
    → HasUniqueKeys degrees
    → HasUniqueKeys (count_dependencies ids degrees)
unfolding count_dependencies
count_dependencies-HasUniqueKeys [] degrees h = h
count_dependencies-HasUniqueKeys (id ∷ ids) degrees h =
    count_dependencies-HasUniqueKeys ids _
      (insert-HasUniqueKeys id (degree id degrees + 1) degrees h)

count_edges-HasUniqueKeys :
    (edges : List (String × List String)) (degrees : Degrees)
    → HasUniqueKeys degrees
    → HasUniqueKeys (count_edges edges degrees)
unfolding count_edges
count_edges-HasUniqueKeys [] degrees h = h
count_edges-HasUniqueKeys ((id, ids) ∷ edges) degrees h =
    count_edges-HasUniqueKeys edges _ (count_dependencies-HasUniqueKeys ids degrees h)

lookup-behind :
    (k id : String) (d : ℕ) (degrees : Degrees)
    → lookup k degrees ≡ none
    → lookup id degrees ≡ some 0
    → (if k == id then some d else lookup id degrees) ≡ some 0
lookup-behind k id d degrees absent found = elim (Bool-cases (k == id)) [
  | inl same ↦ let e = ap (λ t. lookup t degrees) ((string_equality.test_iff k id).0 same) in cc
  | inr other ↦ rw other found
]

sources-lookup :
    (id : String) (degrees : Degrees)
    → HasUniqueKeys degrees
    → In id (sources degrees)
    → lookup id degrees ≡ some 0
unfolding sources lookup
sources-lookup id [] unique m = elim m [ ]
sources-lookup id ((k, d) ∷ degrees) unique m = elim (Bool-cases (d == 0)) [
  | inl zeroed ↦ elim (rw zeroed at m) [
    | inl same ↦
        let here = (string_equality.test_iff k id).1 (sym same) in
        rw here (ap some ((nat_eq_iff d 0).0 zeroed))
    | inr later ↦ lookup-behind k id d degrees unique.0 (sources-lookup id degrees unique.1 later)
  ]
  | inr positive ↦
      lookup-behind k id d degrees unique.0 (sources-lookup id degrees unique.1 (rw positive at m))
]

sources-NoRepeat : (degrees : Degrees) → HasUniqueKeys degrees → NoRepeat (sources degrees)
unfolding sources
sources-NoRepeat [] unique = tt
sources-NoRepeat ((k, d) ∷ degrees) unique = elim (Bool-cases (d == 0)) [
  | inl zeroed ↦ rw zeroed (
    λ m. let clash = sources-lookup k degrees unique.1 m in let absent = unique.0 in cc,
    sources-NoRepeat degrees unique.1,
  )
  | inr positive ↦ rw positive (sources-NoRepeat degrees unique.1)
]

pub extend_graph-HasUniqueKeys :
    (is : List IrInstruction) (g : DependencyGraph)
    → HasUniqueKeys g.edges
    → HasUniqueKeys (extend_graph is g).edges
unfolding extend_graph
extend_graph-HasUniqueKeys [] g h = h
extend_graph-HasUniqueKeys (i ∷ is) g h =
    extend_graph-HasUniqueKeys is _ (insert-HasUniqueKeys i.id i.dependencies g.edges h)

pub initial-IsCounted :
    (g : DependencyGraph)
    → IsCounted
        (λ u. remaining (count u) [] g.edges)
        []
        (initial_degrees g)
        (sources (initial_degrees g))
unfolding initial_degrees lookup
initial-IsCounted g =
    let unique =
      count_edges-HasUniqueKeys g.edges (zero_degrees g.nodes [])
        (zero_degrees-HasUniqueKeys g.nodes [] tt) in
    record {
      counted = λ u.
          let total = degree-count_edges u g.edges (zero_degrees g.nodes []) in
          let none_yet = degree-zero_degrees u g.nodes [] refl in omega arith;
      settled = λ u m. ap (λ o. or_else o 0) (sources-lookup u (initial_degrees g) unique m);
      once = sources-NoRepeat (initial_degrees g) unique;
    }

-- The topological sort of the instructions' own graph ends with an empty queue, also if the
-- dependencies run in a circle or name ids that do not exist, and the order it finds holds no id
-- twice.
pub run_queue-finished :
    (is : List IrInstruction)
    → ((run_queue (build_dependency_graph is)).finished ≡ true)
      × NoRepeat (run_queue (build_dependency_graph is)).result
unfolding run_queue build_dependency_graph
run_queue-finished is =
    let g = build_dependency_graph is in
    let whole = remaining-total_length g.edges in
    process_queue-finished g.edges
      (extend_graph-HasUniqueKeys is (record { nodes = []; edges = [] }) tt)
      (length (sources (initial_degrees g)) + total_length g.edges) (initial_degrees g)
      (sources (initial_degrees g)) [] (initial-IsCounted g) (omega arith)
