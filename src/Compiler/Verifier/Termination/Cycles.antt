-- ===== src/Compiler/Verifier/Termination/Cycles.antt =====
-- What an accepted program without LOOP cannot do
-- (eyeflow-server/src/compiler/stages/stage-5-formal-verifier.service.ts, `checkTermination`).
use mathlib.Core.Path.{subst}
use eyeflow.Common.{
  ℕ, ◌≡◌, refl, sym, ap, ◌⊎◌, inl, inr, Option, none, some, List, [], ◌∷◌, length, In, Bool-cases,
  false,
}
use eyeflow.Common.Eq.{◌==◌, nat_equality}
use eyeflow.Common.JsMap.{lookup, insert, lookup-insert}
use eyeflow.Compiler.Ir.{IrInstruction}
use eyeflow.Compiler.Verifier.Termination.{
  Graph, successors, search_all, nodes_of, indices, graph_of, run_search, fresh_search,
  loop_headers, check_termination, successors_from, successors_by,
}
use eyeflow.Compiler.Verifier.Termination.Fuel.{run_search-exhausted}
use eyeflow.Compiler.Verifier.Termination.Order.{IsClosed, IsFinished, search_all_order}

-- One or more steps along the edges of the graph.
pub data Walk (g : Graph) : ℕ → ℕ → Type 0 where
  edge : {a b : ℕ} → In b (successors g a) → Walk g a b
  then : {a b c : ℕ} → In b (successors g a) → Walk g b c → Walk g a c

fresh-IsFinished : (g : Graph) → IsFinished g fresh_search []
unfolding lookup
fresh-IsFinished g = record { listed = λ n h. cc; finished = λ n m. elim m [ ]; closed = tt }

moved : (g : Graph) (a n m : ℕ) → a ≡ n → In m (successors g a) → In m (successors g n)
moved g a n m e = subst (λ x. In m (successors g x)) e

-- A walk that starts at a listed node stays in the rest of the list.
Walk-In :
    (g : Graph) (order : List ℕ)
    → IsClosed g order
    → {a b : ℕ} → Walk g a b
    → In a order
    → In b order
Walk-In g [] closed w m = elim m [ ]
Walk-In g (n ∷ ns) closed {a} (edge {b = b} e) (inl here) = inr (closed.0 b (moved g a n b here e))
Walk-In g (n ∷ ns) closed {a} (then {b = b} e rest) (inl here) =
    inr (Walk-In g ns closed.1 rest (closed.0 b (moved g a n b here e)))
Walk-In g (n ∷ ns) closed w (inr old) = inr (Walk-In g ns closed.1 w old)

-- From the head of a closed list a walk leads into its tail.
Walk-tail : (g : Graph) (n : ℕ) (ns : List ℕ) → IsClosed g (n ∷ ns) → {b : ℕ} → Walk g n b → In b ns
Walk-tail g n ns closed (edge {b = b} e) = closed.0 b e
Walk-tail g n ns closed (then {b = b} e rest) = Walk-In g ns closed.1 rest (closed.0 b e)

no_cycle : (g : Graph) (order : List ℕ) → IsClosed g order → (a : ℕ) → In a order → ¬ Walk g a a
no_cycle g [] closed a m w = elim m [ ]
no_cycle g (n ∷ ns) closed a (inl here) w =
    let w' = subst (λ x. Walk g x x) here w in
    no_cycle g ns closed.1 n (Walk-tail g n ns closed w') w'
no_cycle g (n ∷ ns) closed a (inr old) w = no_cycle g ns closed.1 a old w

-- An entry for another node does not change a node's successors.
successors-insert :
    (node n : ℕ) (ns : List ℕ) (g : Graph)
    → (node == n) ≡ false
    → successors (insert node ns g) n ≡ successors g n
unfolding successors
successors-insert node n ns g other =
    let e : lookup n (insert node ns g) ≡ lookup n g = rw (lookup-insert node n ns g, other) refl in
    ap (λ (o : Option (List ℕ)). elim o [ none ↦ [] | some ms ↦ ms ]) e

module _ {V : Type 0} where
  -- Only instructions have successors.
  successors_from-In :
      (program is : List (IrInstruction V)) (g : Graph) (n m : ℕ)
      → In m (successors (successors_from program is g) n)
      → In m (successors g n) ⊎ In n (indices is)
  unfolding successors_from indices successors
  successors_from-In program [] g n m k = inl k
  successors_from-In program (i ∷ is) g n m k =
      let ns = successors_by program i.opcode i in
      elim (successors_from-In program is (insert i.index ns g) n m k) [
        | inl before ↦ elim (Bool-cases (i.index == n)) [
          | inl here ↦ inr (inl (sym ((nat_equality.test_iff i.index n).0 here)))
          | inr other ↦ inl (subst (In m) (successors-insert i.index n ns g other) before)
        ]
        | inr later ↦ inr (inr later)
      ]

  graph_of-In :
      (program : List (IrInstruction V)) (n m : ℕ)
      → In m (successors (graph_of program) n)
      → In n (indices program)
  unfolding graph_of successors lookup
  graph_of-In program n m k = elim (successors_from-In program program [] n m k) [
    | inl never ↦ elim never [ ]
    | inr here ↦ here
  ]

  Walk-indices :
      (program : List (IrInstruction V)) {a b : ℕ}
      → Walk (graph_of program) a b
      → In a (indices program)
  Walk-indices program {a} (edge {b = b} e) = graph_of-In program a b e
  Walk-indices program {a} (then {b = b} e rest) = graph_of-In program a b e

-- In a program without LOOP that rule 1 accepts, no walk of one or more steps along the edges of
-- the control-flow graph comes back to the node it started from.
pub check_termination-acyclic :
    {V : Type 0} (program : List (IrInstruction V))
    → loop_headers program ≡ []
    → check_termination program ≡ []
    → (n : ℕ) → ¬ Walk (graph_of program) n n
unfolding check_termination run_search
check_termination-acyclic program no_loops accepted n w =
    let g = graph_of program in
    let s = λ (headers : List ℕ).
      search_all (length (nodes_of g)) g headers (indices program) fresh_search in
    let accepted' = subst (λ h. (s h).errors ≡ []) no_loops accepted in
    let enough = subst (λ h. (s h).exhausted ≡ false) no_loops (run_search-exhausted program) in
    let (p, listed) =
      (search_all_order (length (nodes_of g)) g (indices program) fresh_search []
          (accepted', enough)).1
        (fresh-IsFinished g) (λ n h. cc) in
    no_cycle g p.order' p.valid.closed n (listed n (Walk-indices program w)) w
