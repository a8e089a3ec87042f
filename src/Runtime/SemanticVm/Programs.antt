-- ===== src/Runtime/SemanticVm/Programs.antt =====
-- `validateIRCompatibility` and `executeMonolithic` of
-- eyeflow-server/src/runtime/semantic-vm.service.ts.
use eyeflow.Common.{
  ℕ, ◌-◌, String, Bool, true, false, Option, none, some, List, [], ◌∷◌, ◌++◌, any, length,
  if◌then◌else◌, get_elem?,
}
use eyeflow.Common.Eq.{◌==◌, nat_equality, string_equality}
use eyeflow.Compiler.Ir.{IrInstruction, ResolvedIr, is_loop}
use eyeflow.Runtime.Host.{Host, get}
use eyeflow.Runtime.SemanticVm.{
  ServiceCall, ExecutionContext, no_instruction, Outcome, ok, thrown, and_then, Services,
  initialize_context, load_inputs,
}
use eyeflow.Runtime.SemanticVm.Instructions.{execute_instruction}
use eyeflow.Runtime.SemanticVm.Loops.{handle_bounded_loop}

pub record ExecutionResult (V : Type 0) : Type 0 where
  pub output : V
  pub duration_ms : ℕ
  pub instructions_executed : ℕ
  pub services_called : List ServiceCall
  pub distributed_slices_completed : Option ℕ

-- Whether the program may run: `major_of` is `parseInt` of the text before the first dot, `none` its
-- NaN. An absent version is the empty text.
unfoldable pub validate_ir_compatibility : (String → Option ℕ) → ℕ → String → Bool
validate_ir_compatibility major_of svm_major compiler_version =
    if compiler_version == ""
    then true
    else if compiler_version == "fallback"
    then true
    else elim (major_of compiler_version) [ none ↦ true | some major ↦ major == svm_major ]

module _ {host : Host} {World : Type 0} (services : Services host World) where
  abbrev Value : Type 0
  Value = host.values.Value

  abbrev Context : Type 0
  Context = ExecutionContext host World

  -- One entry of the order: the indices that a loop consumed are added to `processed`.
  unfoldable pub execute_entry :
      ResolvedIr Value → IrInstruction Value → List ℕ → Context → Outcome (List ℕ × Context)
  unfolding execute_instruction handle_bounded_loop and_then
  execute_entry ir i processed c = elim (is_loop i.opcode) [
    | true ↦ and_then (handle_bounded_loop services ir i c) (λ d. ok (processed ++ d.0, d.1))
    | false ↦ and_then (execute_instruction services i c) (λ d. ok (processed, d))
  ]

  unfoldable pub run_order : ResolvedIr Value → List ℕ → List ℕ → Context → Outcome Context
  unfolding execute_entry and_then
  run_order ir [] processed c = ok c
  run_order ir (at ∷ order) processed c =
      let rest = run_order ir order in
      elim (any (λ p. p == at) processed) [
        | true ↦ rest processed c
        | false ↦ elim (get_elem? ir.instructions at) [
          | none ↦ thrown no_instruction
          | some i ↦
              and_then (execute_entry ir i processed (record c { current_instruction_index = at }))
                (λ d. rest d.0 d.1)
        ]
      ]

  unfoldable pub execute_monolithic :
      ResolvedIr Value → ℕ → List (String × Value) → World → Outcome (ExecutionResult Value)
  unfolding run_order initialize_context load_inputs and_then get
  execute_monolithic ir output_register user_inputs world =
      let (w1, began) = services.clock world in
      let c = load_inputs user_inputs (initialize_context {host = host} w1) in
      and_then (run_order ir ir.instruction_order [] c) (λ d.
        let (w2, ended) = services.clock d.world in
        ok (record {
          output = get host output_register d.registers;
          duration_ms = ended - began;
          instructions_executed = length ir.instruction_order;
          services_called = d.services_called;
          distributed_slices_completed = none;
        }))
