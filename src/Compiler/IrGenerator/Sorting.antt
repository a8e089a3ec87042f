-- ===== src/Compiler/IrGenerator/Sorting.antt =====
-- `topologicalSort` and the end of `optimize` in
-- eyeflow-server/src/compiler/ir-generator/services/ir-optimizer.service.ts. The loop over the queue
-- takes fuel; `finished` says whether the queue ran empty.
pub mod Counts
pub mod Termination
pub mod Order
mod Examples
use eyeflow.Common.{
  ℕ, zero, suc, ◌+◌, String, Bool, true, false, Option, none, some, List, [], ◌∷◌, ◌++◌, map,
  length, or_else, if◌then◌else◌,
}
use eyeflow.Common.Eq.{◌==◌, nat_equality, string_equality}
use eyeflow.Common.JsMap.{lookup, insert}
use eyeflow.Compiler.IrGenerator.{Operand, IrInstruction}
use eyeflow.Compiler.IrGenerator.Optimizer.{
  DependencyGraph, build_dependency_graph, optimized_instructions,
}

abbrev pub Degrees : Type 0
Degrees = List (String × ℕ)

-- `inDegree.get(id) || 0`
abbrev pub degree : String → Degrees → ℕ
degree id degrees = or_else (lookup id degrees) 0

unfoldable pub zero_degrees : List (String × IrInstruction) → Degrees → Degrees
unfolding insert
zero_degrees [] degrees = degrees
zero_degrees ((id, i) ∷ nodes) degrees = zero_degrees nodes (insert id 0 degrees)

unfoldable pub count_dependencies : List String → Degrees → Degrees
unfolding insert lookup
count_dependencies [] degrees = degrees
count_dependencies (to ∷ rest) degrees =
    count_dependencies rest (insert to (degree to degrees + 1) degrees)

unfoldable pub count_edges : List (String × List String) → Degrees → Degrees
unfolding count_dependencies
count_edges [] degrees = degrees
count_edges ((id, dependencies) ∷ edges) degrees =
    count_edges edges (count_dependencies dependencies degrees)

-- The keys with degree 0, in the order of the map.
unfoldable pub sources : Degrees → List String
sources [] = []
sources ((id, d) ∷ degrees) = let rest = sources degrees in if d == 0 then id ∷ rest else rest

-- `(inDegree.get(id) || 1) - 1`
abbrev pub lower : Option ℕ → ℕ
lower none = 0
lower (some zero) = 0
lower (some (suc d)) = d

-- The loop over the dependencies of a node that was taken from the queue.
unfoldable pub release : List String → Degrees → List String → Degrees × List String
unfolding insert lookup
release [] degrees queue = (degrees, queue)
release (id ∷ rest) degrees queue =
    let d = lower (lookup id degrees) in
    release rest (insert id d degrees) (if d == 0 then queue ++ id ∷ [] else queue)

pub record Sorted : Type 0 where
  pub result : List String
  pub finished : Bool

abbrev pub dependencies_of : String → List (String × List String) → List String
dependencies_of id edges = or_else (lookup id edges) []

unfoldable pub process_queue :
    List (String × List String) → ℕ → Degrees → List String → List String → Sorted
unfolding release lookup
process_queue edges fuel degrees [] result = record { result = result; finished = true }
process_queue edges zero degrees (id ∷ queue) result = record { result = result; finished = false }
process_queue edges (suc fuel) degrees (id ∷ queue) result =
    let (after, longer) = release (dependencies_of id edges) degrees queue in
    process_queue edges fuel after longer (result ++ id ∷ [])

unfoldable pub total_length : List (String × List String) → ℕ
total_length [] = 0
total_length ((id, dependencies) ∷ edges) = length dependencies + total_length edges

unfoldable pub initial_degrees : DependencyGraph → Degrees
unfolding zero_degrees count_edges
initial_degrees graph = count_edges graph.edges (zero_degrees graph.nodes [])

-- Fuel for the nodes of degree 0 and one more node for each dependency.
unfoldable pub run_queue : DependencyGraph → Sorted
unfolding initial_degrees sources process_queue total_length
run_queue graph =
    let degrees = initial_degrees graph in
    let queue = sources degrees in
    process_queue graph.edges (length queue + total_length graph.edges) degrees queue []

abbrev pub ids_unless_empty : List String → List IrInstruction → List String
ids_unless_empty [] instructions = map (λ i. i.id) instructions
ids_unless_empty (id ∷ ids) instructions = id ∷ ids

unfoldable pub topological_sort : List IrInstruction → DependencyGraph → List String
unfolding run_queue
topological_sort instructions graph = ids_unless_empty (run_queue graph).result instructions

pub record IrOptimizationResult : Type 0 where
  pub optimized_instructions : List IrInstruction
  pub dependency_graph : DependencyGraph
  pub instruction_order : List String

unfoldable pub optimize : (List Operand → String) → List IrInstruction → IrOptimizationResult
unfolding topological_sort optimized_instructions build_dependency_graph
optimize stringify instructions =
    let left = optimized_instructions stringify instructions in
    let graph = build_dependency_graph left in
    record {
      optimized_instructions = left;
      dependency_graph = graph;
      instruction_order = topological_sort left graph;
    }
