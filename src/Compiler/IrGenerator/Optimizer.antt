-- ===== src/Compiler/IrGenerator/Optimizer.antt =====
-- The passes of eyeflow-server/src/compiler/ir-generator/services/ir-optimizer.service.ts up to the
-- dependency graph. `stringify` is `JSON.stringify` of a list of operands. The module
-- Sorting has what follows.
use text.Mathlib.Text.{starts_with}
use eyeflow.Common.{
  ℕ, zero, suc, max, String, Bool, not, ◌||◌, List, [], ◌∷◌, ◌++◌, length, keep, any, is_some,
  if◌then◌else◌,
}
use eyeflow.Common.Eq.{◌==◌, string_equality}
use eyeflow.Common.JsMap.{lookup, insert}
use eyeflow.Compiler.IrGenerator.{Operand, IrInstruction}

-- Counts that the source subtracts can be negative.
pub data ℤ : Type 0 where
  pos negsuc : ℕ → ℤ

unfoldable pub subtract : ℕ → ℕ → ℤ
subtract a zero = pos a
subtract zero (suc b) = negsuc b
subtract (suc a) (suc b) = subtract a b

pub record Eliminated : Type 0 where
  pub instructions : List IrInstruction
  pub eliminated_count : ℤ

abbrev pub contains : String → List String → Bool
contains id ids = any (λ i. i == id) ids

-- `set.add(id)`
unfoldable pub add : String → List String → List String
add id ids = if contains id ids then ids else ids ++ id ∷ []

unfoldable pub add_all : List String → List String → List String
unfolding add
add_all [] ids = ids
add_all (new ∷ rest) ids = add_all rest (add new ids)

-- The ids that some instruction depends on.
unfoldable pub used_by_dependent : List IrInstruction → List String → List String
unfolding add_all
used_by_dependent [] ids = ids
used_by_dependent (i ∷ is) ids = used_by_dependent is (add_all i.dependencies ids)

abbrev pub is_used : List String → IrInstruction → Bool
is_used used i = contains i.id used || starts_with i.id "return"

-- A pass that would leave nothing leaves everything.
abbrev pub unless_empty : List IrInstruction → List IrInstruction → List IrInstruction
unless_empty [] instructions = instructions
unless_empty (i ∷ is) instructions = i ∷ is

unfoldable pub perform_dce : List IrInstruction → Eliminated
unfolding used_by_dependent subtract
perform_dce instructions =
    let filtered = keep (is_used (used_by_dependent instructions [])) instructions in
    record {
      instructions = unless_empty filtered instructions;
      eliminated_count = subtract (length instructions) (max (length filtered) 1);
    }

module _ (stringify : List Operand → String) where
  abbrev pub operand_key : IrInstruction → String
  operand_key i = stringify i.operands

  -- The loop of `performCSE`: `seen` maps a key to an id.
  unfoldable pub collect_removed :
      List IrInstruction → List (String × String) → List String → List String
  unfolding lookup insert add
  collect_removed [] seen removed = removed
  collect_removed (i ∷ is) seen removed =
      let again = collect_removed is seen (add i.id removed) in
      let first = collect_removed is (insert (operand_key i) i.id seen) removed in
      if is_some (lookup (operand_key i) seen) then again else first

  abbrev pub survives : List String → IrInstruction → Bool
  survives removed i = not (contains i.id removed)

  unfoldable pub perform_cse : List IrInstruction → Eliminated
  unfolding collect_removed
  perform_cse instructions =
      let removed = collect_removed instructions [] [] in
      record {
        instructions = keep (survives removed) instructions;
        eliminated_count = pos (length removed);
      }

-- Nothing is moved.
unfoldable pub perform_licm : List IrInstruction → List IrInstruction × ℕ
perform_licm instructions = (instructions, 0)

pub record DependencyGraph : Type 0 where
  pub nodes : List (String × IrInstruction)
  pub edges : List (String × List String)

unfoldable pub extend_graph : List IrInstruction → DependencyGraph → DependencyGraph
unfolding insert
extend_graph [] g = g
extend_graph (i ∷ is) g =
    extend_graph is
      (record { nodes = insert i.id i g.nodes; edges = insert i.id i.dependencies g.edges })

unfoldable pub build_dependency_graph : List IrInstruction → DependencyGraph
unfolding extend_graph
build_dependency_graph instructions = extend_graph instructions (record { nodes = []; edges = [] })

-- The instructions that `optimize` leaves.
unfoldable pub optimized_instructions :
    (List Operand → String) → List IrInstruction → List IrInstruction
unfolding perform_dce perform_cse perform_licm
optimized_instructions stringify instructions =
    let live = (perform_dce instructions).instructions in
    let distinct = (perform_cse stringify live).instructions in (perform_licm distinct).0
