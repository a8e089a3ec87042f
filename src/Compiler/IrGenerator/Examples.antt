-- ===== src/Compiler/IrGenerator/Examples.antt =====
-- Two constants and a sum that depends on one of them
-- (eyeflow-server/src/compiler/ir-generator/services/ir-optimizer.service.ts).
use eyeflow.Common.{
  ℕ, ◌≤◌, ◌≡◌, refl, inl, inr, String, false, none, some, List, [], ◌∷◌, length, map, In,
}
use eyeflow.Common.Eq.{◌==◌, string_equality}
use eyeflow.Compiler.IrGenerator.{
  transform, Operand, text, IrInstruction, constant, ClassifiedVariable, OptimizationPlan,
}
use eyeflow.Compiler.IrGenerator.Folding.{fold_constants}
use eyeflow.Compiler.IrGenerator.Optimizer.{perform_dce, perform_cse, optimized_instructions}
use eyeflow.Compiler.IrGenerator.Dependencies.{perform_dce-closed}
use eyeflow.Compiler.IrGenerator.Elimination.{IsUnique, first_of_each, perform_cse-first_of_each}
use eyeflow.Compiler.IrGenerator.Collapse.{fold_constants-collapse}

abbrev stringify : List Operand → String
stringify [] = "[]"
stringify (text t ∷ os) = t
stringify (o ∷ os) = "other"

abbrev decimal : ℕ → String
decimal n = "0"

abbrev a_constant : ClassifiedVariable
a_constant = record {
  variable_type = "int";
  classification = constant;
  source_operation = none;
  depends_on = [];
}

abbrev plan : OptimizationPlan
plan = record { classifications_map = some (("rate", a_constant) ∷ ("limit", a_constant) ∷ []) }

different : (s t : String) → (s == t) ≡ false → ¬ (s ≡ t)
different s t h e = let yes = (string_equality.test_iff s t).1 e in cc

plan-IsUnique : IsUnique (fold_constants decimal plan).instructions
unfolding fold_constants
plan-IsUnique = (
  λ m. elim m [
    | inl same ↦ different "const_rate" "const_limit" refl same
    | inr later ↦ elim later [ ]
  ],
  (λ m. elim m [ ], tt),
)

plan_collapse :
    length (perform_cse stringify (fold_constants decimal plan).instructions).instructions ≤ 1
plan_collapse = fold_constants-collapse stringify decimal plan plan-IsUnique

plan_first :
    (perform_cse stringify (fold_constants decimal plan).instructions).instructions
    ≡ first_of_each stringify (fold_constants decimal plan).instructions []
plan_first =
    perform_cse-first_of_each stringify (fold_constants decimal plan).instructions plan-IsUnique

abbrev of_id : String → List String → IrInstruction
of_id id dependencies = record {
  id = id;
  opcode = transform;
  operands = [];
  result_registers = [];
  dependencies = dependencies;
}

abbrev rate : IrInstruction
rate = of_id "const_rate" []

abbrev sum : IrInstruction
sum = record (of_id "return_sum" ("const_rate" ∷ "const_limit" ∷ [])) { operands = text "sum" ∷ [] }

abbrev limit : IrInstruction
limit = of_id "const_limit" []

abbrev program : List IrInstruction
program = rate ∷ limit ∷ sum ∷ []

sum_kept : In sum (perform_dce program).instructions
unfolding perform_dce
sum_kept = inr (inr (inl refl))

limit_kept : In limit (perform_dce program).instructions
limit_kept = perform_dce-closed program sum limit sum_kept (inr (inl refl)) (inr (inl refl))

-- The sum still depends on the constant that is gone.
limit_lost :
    map (λ i. i.id) (optimized_instructions stringify program) ≡ "const_rate" ∷ "return_sum" ∷ []
unfolding optimized_instructions
limit_lost = refl
