-- ===== src/Compiler/IrGenerator/Sorting/Examples.antt =====
-- A result that depends on a constant, and a circle
-- (eyeflow-server/src/compiler/ir-generator/services/ir-optimizer.service.ts).
use eyeflow.Common.{◌≡◌, refl, String, true, List, [], ◌∷◌}
use eyeflow.Compiler.IrGenerator.{transform, Operand, text, IrInstruction}
use eyeflow.Compiler.IrGenerator.Optimizer.{build_dependency_graph}
use eyeflow.Compiler.IrGenerator.Sorting.{run_queue, optimize}
use eyeflow.Compiler.IrGenerator.Sorting.Order.{IsDependentsFirst, run_queue-IsDependentsFirst}
use eyeflow.Compiler.IrGenerator.Sorting.Termination.{NoRepeat, run_queue-finished}

abbrev of_id : String → List String → IrInstruction
of_id id dependencies = record {
  id = id;
  opcode = transform;
  operands = text id ∷ [];
  result_registers = [];
  dependencies = dependencies;
}

abbrev stringify : List Operand → String
stringify (text t ∷ os) = t
stringify _ = "other"

abbrev program : List IrInstruction
program = of_id "rate" [] ∷ of_id "return_sum" ("rate" ∷ []) ∷ []

-- The instruction that depends on the other comes first.
program_order : (optimize stringify program).instruction_order ≡ "return_sum" ∷ "rate" ∷ []
unfolding optimize
program_order = refl

abbrev circle : List IrInstruction
circle = of_id "return_a" ("b" ∷ []) ∷ of_id "b" ("c" ∷ []) ∷ of_id "c" ("b" ∷ []) ∷ []

-- The nodes of the circle are left out of the order.
circle_order : (run_queue (build_dependency_graph circle)).result ≡ "return_a" ∷ []
unfolding run_queue build_dependency_graph
circle_order = refl

circle_finished :
    ((run_queue (build_dependency_graph circle)).finished ≡ true)
    × NoRepeat (run_queue (build_dependency_graph circle)).result
circle_finished = run_queue-finished circle

program-IsDependentsFirst :
    IsDependentsFirst
      (build_dependency_graph program).edges
      []
      (run_queue (build_dependency_graph program)).result
program-IsDependentsFirst = run_queue-IsDependentsFirst program
