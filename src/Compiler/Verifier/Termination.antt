-- ===== src/Compiler/Verifier/Termination.antt =====
-- Rule 1, `checkTermination` of
-- eyeflow-server/src/compiler/stages/stage-5-formal-verifier.service.ts: a depth-first search of the
-- control-flow graph. The recursion takes fuel; the child Fuel is about it.
pub mod Fuel
pub mod Order
pub mod Cycles
use eyeflow.Common.{
  ℕ, zero, suc, ◌+◌, String, Bool, true, false, not, Option, none, some, List, [], ◌∷◌, ◌++◌,
  if◌then◌else◌, length, any, is_some, get_elem?, last?, map,
}
use eyeflow.Common.Eq.{◌==◌, nat_equality}
use eyeflow.Common.JsMap.{lookup, insert}
use eyeflow.Compiler.Ir.{
  IrOpcode, branch, loop, jump, return, LoopOperands, Operands, IrInstruction, is_loop,
}
use eyeflow.Compiler.Verifier.{VerificationError, error, issue_at, push_if}

abbrev pub given : Option ℕ → List ℕ
given none = []
given (some n) = n ∷ []

module _ {V : Type 0} where
  -- Falling through leads only to an instruction that exists.
  fall_through : List (IrInstruction V) → ℕ → List ℕ
  fall_through program next = if is_some (get_elem? program next) then next ∷ [] else []

  loop_targets : Option (Operands V) → List ℕ
  loop_targets none = []
  loop_targets (some ops) = given ops.as_loop.body_start_index ++ given ops.as_loop.exit_index

  successors_by : List (IrInstruction V) → IrOpcode → IrInstruction V → List ℕ
  unfolding fall_through loop_targets
  successors_by program branch i = given i.target_instruction ++ fall_through program (i.index + 1)
  successors_by program jump i = given i.target_instruction
  successors_by program loop i = loop_targets i.operands
  successors_by program return i = []
  successors_by program _ i = fall_through program (i.index + 1)

  -- The map that the first loop fills.
  successors_from :
      List (IrInstruction V) → List (IrInstruction V) → List (ℕ × List ℕ) → List (ℕ × List ℕ)
  unfolding successors_by insert
  successors_from program [] m = m
  successors_from program (i ∷ is) m =
      successors_from program is (insert i.index (successors_by program i.opcode i) m)

  unfoldable pub loop_headers : List (IrInstruction V) → List ℕ
  loop_headers [] = []
  loop_headers (i ∷ is) = if is_loop i.opcode then i.index ∷ loop_headers is else loop_headers is

pub data Color : Type 0 where
  gray black : Color

-- White nodes are absent from `color`; `exhausted` says that the fuel ran out.
pub record Search : Type 0 where
  pub color : List (ℕ × Color)
  pub errors : List VerificationError
  pub exhausted : Bool

abbrev pub Graph : Type 0
Graph = List (ℕ × List ℕ)

-- `successors.get(node) ?? []`
unfoldable pub successors : Graph → ℕ → List ℕ
unfolding lookup
successors g node = elim (lookup node g) [ none ↦ [] | some ns ↦ ns ]

unfoldable pub paint : ℕ → Color → Search → Search
unfolding insert
paint node c s = record s { color = insert node c s.color }

from_first : ℕ → List ℕ → List ℕ
from_first node [] = []
from_first node (n ∷ ns) = if n == node then n ∷ ns else from_first node ns

-- `path.slice(path.indexOf(node))`: from the first occurrence; the last element if there is none.
unfoldable pub slice_from : ℕ → List ℕ → List ℕ
unfolding from_first
slice_from node path = elim (any (λ n. n == node) path) [
  | true ↦ from_first node path
  | false ↦ elim (last? path) [ none ↦ [] | some n ↦ n ∷ [] ]
]

unfoldable pub is_covered : List ℕ → ℕ → List ℕ → Bool
unfolding slice_from
is_covered headers succ path = any (λ n. any (λ h. h == n) headers) (slice_from succ path)

-- One round of the loop over the successors; `visit` is the recursive call.
unfoldable pub visit_successor :
    (ℕ → List ℕ → Search → Search) → List ℕ → List ℕ → ℕ → Search → Search
unfolding lookup is_covered
visit_successor visit headers path succ s = elim (lookup succ s.color) [
  | some gray ↦ record s {
    errors =
        s.errors ++ push_if (not (is_covered headers succ path)) (issue_at "TERM-001" error succ);
  }
  | some black ↦ s
  | none ↦ visit succ (path ++ succ ∷ []) s
]

unfoldable pub visit_successors :
    (ℕ → List ℕ → Search → Search) → List ℕ → List ℕ → List ℕ → Search → Search
unfolding visit_successor
visit_successors visit headers path [] s = s
visit_successors visit headers path (succ ∷ rest) s =
    visit_successors visit headers path rest (visit_successor visit headers path succ s)

unfoldable pub dfs : ℕ → Graph → List ℕ → ℕ → List ℕ → Search → Search
unfolding visit_successors paint successors
dfs zero g headers node path s = record s { exhausted = true }
dfs (suc fuel) g headers node path s =
    paint node black
      (visit_successors (dfs fuel g headers) headers path (successors g node) (paint node gray s))

-- The last loop: a search from every instruction whose node is still white.
unfoldable pub search_all : ℕ → Graph → List ℕ → List ℕ → Search → Search
unfolding dfs lookup
search_all fuel g headers [] s = s
search_all fuel g headers (node ∷ nodes) s =
    search_all fuel g headers nodes
      (elim (lookup node s.color) [ some _ ↦ s | none ↦ dfs fuel g headers node (node ∷ []) s ])

-- Every node of the graph: the keys and what they lead to.
unfoldable pub nodes_of : Graph → List ℕ
nodes_of [] = []
nodes_of ((node, ns) ∷ g) = node ∷ (ns ++ nodes_of g)

abbrev pub fresh_search : Search
fresh_search = record { color = []; errors = []; exhausted = false }

unfoldable pub indices : {V : Type 0} → List (IrInstruction V) → List ℕ
indices [] = []
indices (i ∷ is) = i.index ∷ indices is

unfoldable pub graph_of : {V : Type 0} → List (IrInstruction V) → Graph
unfolding successors_from
graph_of program = successors_from program program []

-- One call for each node is enough.
unfoldable pub run_search : {V : Type 0} → List (IrInstruction V) → Search
unfolding graph_of indices nodes_of search_all loop_headers
run_search program =
    let g = graph_of program in
    search_all (length (nodes_of g)) g (loop_headers program) (indices program) fresh_search

unfoldable pub check_termination : {V : Type 0} → List (IrInstruction V) → List VerificationError
unfolding run_search
check_termination program = (run_search program).errors
