-- ===== src/Runtime/SemanticVm/Examples.antt =====
-- A program with a LOOP on the virtual machine
-- (eyeflow-server/src/runtime/semantic-vm.service.ts).
use eyeflow.Common.{ℕ, ◌*◌, ◌≤◌, ◌≡◌, refl, String, true, Option, none, some, [], ◌∷◌, length}
use eyeflow.Compiler.Ir.{
  load_resource, loop, call_service, branch, Operands, IrInstruction, ResolvedIr, ServiceManifest,
}
use eyeflow.Compiler.Verifier.{VerificationReport}
use eyeflow.Compiler.Verifier.Rules.{verify}
use eyeflow.Runtime.Samples.{host}
use eyeflow.Runtime.SemanticVm.Samples.{services, plain}
use eyeflow.Runtime.SemanticVm.{
  ExecutionContext, version_incompatible, Outcome, ok, thrown, initialize_context, load_inputs,
}
use eyeflow.Runtime.SemanticVm.Outcomes.{Meets, IsOperational}
use eyeflow.Runtime.SemanticVm.Effects.{Effect, targets}
use eyeflow.Runtime.SemanticVm.Frame.{execute_instruction-Effect}
use eyeflow.Runtime.SemanticVm.Instructions.{execute_instruction}
use eyeflow.Runtime.SemanticVm.Programs.{ExecutionResult, execute_monolithic}
use eyeflow.Runtime.SemanticVm.Distributed.{execute}
use eyeflow.Runtime.SemanticVm.Budget.{execute_monolithic-services_called}
use eyeflow.Runtime.SemanticVm.Steering.{steer}
use eyeflow.Runtime.SemanticVm.Unsteered.{execute_monolithic-steer}
use eyeflow.Runtime.SemanticVm.Accepted.{verify-IsOperational}

abbrev load_it : IrInstruction ℕ
load_it = record (plain 0 load_resource) { dest = some 1 }

abbrev loop_operands : Operands ℕ
loop_operands = record {
  as_loop = record {
    max_iterations = some 3;
    timeout_ms = some 5000;
    body_start_index = some 2;
    exit_index = some 3;
    convergence_predicate = none;
    fallback_instruction = some 4;
  };
  values = [];
}

abbrev loop_it : IrInstruction ℕ
loop_it = record (plain 1 loop) { operands = some loop_operands }

abbrev call_it : IrInstruction ℕ
call_it = record (plain 2 call_service) {
  dest = some 2;
  src = 1 ∷ [];
  service_id = some "classify";
  dispatch_metadata = some (record {
    format = "HTTP";
    selected_descriptor =
        some (record { system_prompt = none; max_tokens = none; credentials_vault_path = none });
    target_tier = "CENTRAL";
  });
}

abbrev workflow : ResolvedIr ℕ
workflow = record {
  instructions =
      load_it ∷ loop_it ∷ call_it ∷ record (plain 3 branch) { target_instruction = some 0 } ∷ [];
  instruction_order = 0 ∷ 1 ∷ 2 ∷ 3 ∷ [];
  input_register = 0;
}

-- The loop calls the service three times; the entry of its body is then skipped.
abbrev calls_of : Outcome (ExecutionResult ℕ) → Option ℕ
calls_of (ok r) = some (length r.services_called)
calls_of (thrown e) = none

workflow_calls : calls_of (execute_monolithic services workflow 2 (("claim", 5) ∷ []) 0) ≡ some 3
unfolding execute_monolithic
workflow_calls = refl

workflow_bound :
    Meets
      (λ r. length r.services_called ≤ 4 * (5 * 4))
      (λ e. Unit)
      (execute_monolithic services workflow 2 (("claim", 5) ∷ []) 0)
workflow_bound = execute_monolithic-services_called services workflow 2 (("claim", 5) ∷ []) 0

workflow_steered :
    execute_monolithic services (steer 7 none workflow) 2 (("claim", 5) ∷ []) 0
    ≡ execute_monolithic services workflow 2 (("claim", 5) ∷ []) 0
workflow_steered = execute_monolithic-steer services 7 none workflow 2 (("claim", 5) ∷ []) 0

abbrev no_service : String → Option (ServiceManifest ℕ)
no_service id = none

abbrev report : VerificationReport
report = record { passed = true; errors = []; warnings = [] }

workflow_passes : verify host.values no_service workflow ≡ some report
unfolding verify
workflow_passes = refl

workflow-IsOperational :
    Meets
      (λ r. length r.services_called ≤ 4 * (5 * 4))
      IsOperational
      (execute_monolithic services workflow 2 (("claim", 5) ∷ []) 0)
workflow-IsOperational =
    verify-IsOperational services no_service workflow report workflow_passes refl 2
      (("claim", 5) ∷ []) 0

abbrev begun : ExecutionContext host ℕ
begun = load_inputs (("claim", 5) ∷ []) (initialize_context 0)

call_effect :
    Meets
      (Effect (targets services call_it) begun)
      IsOperational
      (execute_instruction services call_it begun)
call_effect = execute_instruction-Effect services call_it begun

-- A version of another major is refused.
abbrev major_of : String → Option ℕ
major_of v = some 2

refused :
    execute services none major_of 1 "2.0.0" workflow none 2 [] 0 ≡ thrown version_incompatible
unfolding execute
refused = refl
