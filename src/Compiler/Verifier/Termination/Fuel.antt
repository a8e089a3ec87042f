-- ===== src/Compiler/Verifier/Termination/Fuel.antt =====
-- The fuel of the search suffices: every call paints a node of the graph that was white
-- (eyeflow-server/src/compiler/stages/stage-5-formal-verifier.service.ts, `checkTermination`).
use mathlib.Core.Path.{subst}
use eyeflow.Common.{
  ℕ, zero, suc, ◌≤◌, ◌<◌, ◌≡◌, ◌≢◌, refl, sym, ◌⊎◌, inl, inr, false, none, some, List, [], ◌∷◌,
  ◌++◌, arith, length, In, In-append_left, In-append_right, Bool-cases, Option-cases, if◌then◌else◌,
  is_some,
}
use eyeflow.Common.Eq.{◌==◌, nat_equality}
use eyeflow.Common.JsMap.{lookup, insert, lookup-insert}
use eyeflow.Compiler.Ir.{IrInstruction}
use eyeflow.Compiler.Verifier.Termination.{
  Color, gray, black, Search, Graph, successors, paint, visit_successor, visit_successors, dfs,
  search_all, nodes_of, indices, graph_of, run_search, fresh_search, successors_from, successors_by,
  loop_headers,
}

-- How many of the nodes are white.
pub white : Search → List ℕ → ℕ
white s [] = 0
white s (n ∷ ns) = if is_some (lookup n s.color) then white s ns else suc (white s ns)

-- What is painted stays painted.
abbrev pub Extends : Search → Search → Type 0
Extends s t = (n : ℕ) → lookup n s.color ≢ none → lookup n t.color ≢ none

white-Extends : (s t : Search) (ns : List ℕ) → Extends s t → white t ns ≤ white s ns
unfolding white
white-Extends s t [] h = omega arith
white-Extends s t (n ∷ ns) h = ground (arith, white-Extends s t ns h, h n)

paint-Extends : (node : ℕ) (c : Color) (s : Search) → Extends s (paint node c s)
unfolding paint
paint-Extends node c s n h = ground (arith, lookup-insert node n c s.color)

white-paint :
    (node : ℕ) (c : Color) (s : Search) (ns : List ℕ)
    → In node ns
    → lookup node s.color ≡ none
    → white (paint node c s) ns < white s ns
unfolding white
white-paint node c s [] m h = elim m [ ]
white-paint node c s (n ∷ ns) (inl here) h =
    let less = white-Extends s (paint node c s) ns (paint-Extends node c s) in
    let at_node : lookup n (paint node c s).color ≡ some c =
      unfold paint in ground (arith, lookup-insert node n c s.color) in
    ground arith
white-paint node c s (n ∷ ns) (inr there) h =
    let more = paint-Extends node c s n in ground (arith, white-paint node c s ns there h)

white-length : (s : Search) (ns : List ℕ) → white s ns ≤ length ns
unfolding white
white-length s [] = omega arith
white-length s (n ∷ ns) = ground (arith, white-length s ns)

successors-In : (g : Graph) (node n : ℕ) → In n (successors g node) → In n (nodes_of g)
unfolding successors nodes_of lookup
successors-In [] node n m = m
successors-In ((k, ns) ∷ g) node n m = elim (Bool-cases (k == node)) [
  | inl here ↦
      let e : successors ((k, ns) ∷ g) node ≡ ns = ground arith in
      inr (In-append_left n ns (nodes_of g) (subst (In n) e m))
  | inr there ↦
      let e : successors ((k, ns) ∷ g) node ≡ successors g node = ground arith in
      inr (In-append_right n ns (nodes_of g) (successors-In g node n (subst (In n) e m)))
]

-- A call with fuel for every white node neither runs out nor loses a painted node.
abbrev pub Suffices : ℕ → List ℕ → (ℕ → List ℕ → Search → Search) → Type 0
Suffices fuel ns visit =
    (node : ℕ) (path : List ℕ) (s : Search)
    → In node ns
    → lookup node s.color ≡ none
    → s.exhausted ≡ false
    → white s ns ≤ fuel
    → ((visit node path s).exhausted ≡ false) × Extends s (visit node path s)

visit_successor_fuel :
    (fuel : ℕ) (ns : List ℕ) (visit : ℕ → List ℕ → Search → Search) (headers path : List ℕ)
    (succ : ℕ) (s : Search)
    → Suffices fuel ns visit
    → In succ ns
    → s.exhausted ≡ false
    → white s ns ≤ fuel
    → ((visit_successor visit headers path succ s).exhausted ≡ false)
      × Extends s (visit_successor visit headers path succ s)
unfolding visit_successor
visit_successor_fuel fuel ns visit headers path succ s enough m ok w =
    elim (Option-cases (lookup succ s.color)) [
      | inl fresh ↦ rw (fresh, visit_successor) (enough succ (path ++ succ ∷ []) s m fresh ok w)
      | inr (gray, e) ↦ rw (e, visit_successor) (ok, λ n h. h)
      | inr (black, e) ↦ rw (e, visit_successor) (ok, λ n h. h)
    ]

visit_successors_fuel :
    (fuel : ℕ) (ns : List ℕ) (visit : ℕ → List ℕ → Search → Search) (headers path : List ℕ)
    (succs : List ℕ) (s : Search)
    → Suffices fuel ns visit
    → ((n : ℕ) → In n succs → In n ns)
    → s.exhausted ≡ false
    → white s ns ≤ fuel
    → ((visit_successors visit headers path succs s).exhausted ≡ false)
      × Extends s (visit_successors visit headers path succs s)
unfolding visit_successors
visit_successors_fuel fuel ns visit headers path [] s enough inside ok w = (ok, λ n h. h)
visit_successors_fuel fuel ns visit headers path (succ ∷ rest) s enough inside ok w =
    let s' = visit_successor visit headers path succ s in
    let (ok', grows) =
      visit_successor_fuel fuel ns visit headers path succ s enough (inside succ (inl refl)) ok w in
    let fewer = white-Extends s s' ns grows in
    let (ok'', grows') =
      visit_successors_fuel fuel ns visit headers path rest s' enough (λ n m. inside n (inr m)) ok'
        (omega arith) in
    (ok'', λ n h. grows' n (grows n h))

dfs_fuel :
    (fuel : ℕ) (g : Graph) (headers : List ℕ) → Suffices fuel (nodes_of g) (dfs fuel g headers)
unfolding dfs
dfs_fuel zero g headers node path s m fresh ok w =
    let less = white-paint node gray s (nodes_of g) m fresh in absurd (omega arith)
dfs_fuel (suc fuel) g headers node path s m fresh ok w =
    let s' = paint node gray s in
    let less = white-paint node gray s (nodes_of g) m fresh in
    let (ok', grows) =
      visit_successors_fuel fuel (nodes_of g) (dfs fuel g headers) headers path (successors g node)
        s' (dfs_fuel fuel g headers) (successors-In g node) (unfold paint in ok) (omega arith) in
    let t = visit_successors (dfs fuel g headers) headers path (successors g node) s' in
    (
      unfold paint in ok',
      λ n h. paint-Extends node black t n (grows n (paint-Extends node gray s n h)),
    )

search_all_fuel :
    (g : Graph) (headers nodes : List ℕ) (s : Search)
    → ((n : ℕ) → In n nodes → In n (nodes_of g))
    → s.exhausted ≡ false
    → (search_all (length (nodes_of g)) g headers nodes s).exhausted ≡ false
unfolding search_all
search_all_fuel g headers [] s inside ok = ok
search_all_fuel g headers (node ∷ nodes) s inside ok = elim (Option-cases (lookup node s.color)) [
  | inl fresh ↦
      rw (search_all, fresh)
        (search_all_fuel g headers nodes _ (λ n m. inside n (inr m))
          (dfs_fuel (length (nodes_of g)) g headers node (node ∷ []) s (inside node (inl refl))
            fresh ok (white-length s (nodes_of g))).0)
  | inr (c, e) ↦ rw (search_all, e) (search_all_fuel g headers nodes s (λ n m. inside n (inr m)) ok)
]

abbrev pub IsKey : ℕ → Graph → Type 0
IsKey n g = lookup n g ≢ none

IsKey-In : (n : ℕ) (g : Graph) → IsKey n g → In n (nodes_of g)
unfolding lookup nodes_of
IsKey-In n [] h = absurd (h refl)
IsKey-In n ((k, ns) ∷ g) h = elim (Bool-cases (k == n)) [
  | inl here ↦ inl (sym ((nat_equality.test_iff k n).0 here))
  | inr there ↦
      inr (In-append_right n ns (nodes_of g) (IsKey-In n g (λ e. h (rw (there, lookup) e))))
]

IsKey-insert : (node n : ℕ) (ns : List ℕ) (g : Graph) → IsKey n g → IsKey n (insert node ns g)
IsKey-insert node n ns g h = ground (arith, lookup-insert node n ns g)

module _ {V : Type 0} where
  successors_from-IsKey :
      (program is : List (IrInstruction V)) (g : Graph) (n : ℕ)
      → IsKey n g ⊎ In n (indices is)
      → IsKey n (successors_from program is g)
  unfolding successors_from indices
  successors_from-IsKey program [] g n (inl old) = old
  successors_from-IsKey program [] g n (inr new) = elim new [ ]
  successors_from-IsKey program (i ∷ is) g n (inl old) =
      successors_from-IsKey program is _ n
        (inl (IsKey-insert i.index n (successors_by program i.opcode i) g old))
  successors_from-IsKey program (i ∷ is) g n (inr (inl here)) =
      let ns = successors_by program i.opcode i in
      successors_from-IsKey program is _ n
        (inl (ground (arith, lookup-insert i.index n ns g, nat_equality.test_iff i.index n)))
  successors_from-IsKey program (i ∷ is) g n (inr (inr there)) =
      successors_from-IsKey program is _ n (inr there)

  pub graph_of-IsKey :
      (program : List (IrInstruction V)) (n : ℕ)
      → In n (indices program)
      → IsKey n (graph_of program)
  unfolding graph_of
  graph_of-IsKey program n m = successors_from-IsKey program program [] n (inr m)

-- The search of every program ends within its fuel, one call for each node of the graph.
pub run_search-exhausted :
    {V : Type 0} (program : List (IrInstruction V)) → (run_search program).exhausted ≡ false
unfolding run_search
run_search-exhausted program =
    search_all_fuel (graph_of program) (loop_headers program) (indices program) fresh_search
      (λ n m. IsKey-In n (graph_of program) (graph_of-IsKey program n m)) refl
