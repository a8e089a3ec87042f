-- ===== src/Compiler/Verifier/Examples.antt =====
-- Small programs for the formal verifier
-- (eyeflow-server/src/compiler/stages/stage-5-formal-verifier.service.ts).
use eyeflow.Common.{
  ℕ, ◌≡◌, refl, ◌⊎◌, inl, inr, String, true, false, Option, none, some, List, [], ◌∷◌, leb, ltb,
  nat_eq,
}
use eyeflow.Compiler.Ir.{
  IrOpcode, branch, jump, loop, llm_call, load_resource, transform, return, Operands, IrInstruction,
  ResolvedIr, ServiceManifest, Values, truthy,
}
use eyeflow.Compiler.Verifier.{VerificationReport}
use eyeflow.Compiler.Verifier.Rules.{verify}
use eyeflow.Compiler.Verifier.Termination.{
  successors, graph_of, run_search, loop_headers, check_termination,
}
use eyeflow.Compiler.Verifier.Termination.Fuel.{run_search-exhausted}
use eyeflow.Compiler.Verifier.Termination.Cycles.{Walk, check_termination-acyclic}
use eyeflow.Compiler.Verifier.Loops.{IsBounded, verify-IsBounded}
use eyeflow.Compiler.Verifier.Calls.{IsSafe, verify-IsSafe}
use eyeflow.Compiler.Verifier.Reads.{IsDefined, verify-IsDefined}

abbrev numbers : Values
numbers = record {
  Value = ℕ;
  gt = λ a b. ltb b a;
  ge = λ a b. leb b a;
  lt = ltb;
  le = leb;
  same = nat_eq;
}

abbrev no_service : String → Option (ServiceManifest ℕ)
no_service id = none

abbrev plain : ℕ → IrOpcode → IrInstruction ℕ
plain index opcode = record {
  index = index;
  opcode = opcode;
  dest = none;
  src = [];
  operands = none;
  service_id = none;
  dispatch_metadata = none;
  target_instruction = none;
}

abbrev goto : ℕ → IrOpcode → ℕ → IrInstruction ℕ
goto index opcode target = record (plain index opcode) { target_instruction = some target }

abbrev load_it : IrInstruction ℕ
load_it = record (plain 0 load_resource) { dest = some 1 }

abbrev transform_it : IrInstruction ℕ
transform_it = record (plain 3 transform) { src = 1 ∷ 0 ∷ []; dest = some 2 }

abbrev loop_operands : Operands ℕ
loop_operands = record {
  as_loop = record {
    max_iterations = some 3;
    timeout_ms = some 5000;
    body_start_index = some 2;
    exit_index = some 3;
    convergence_predicate = some (record { register_index = 2; operator = truthy; value = none });
    fallback_instruction = none;
  };
  values = [];
}

abbrev loop_it : IrInstruction ℕ
loop_it = record (plain 1 loop) { operands = some loop_operands }

abbrev call_it : IrInstruction ℕ
call_it = record (plain 2 llm_call) {
  dispatch_metadata = some (record {
    format = "LLM_CALL";
    selected_descriptor = some (record {
      system_prompt = some "Classify the claim.";
      max_tokens = some 256;
      credentials_vault_path = some "vault/llm";
    });
    target_tier = "CENTRAL";
  });
}

-- The body of the loop, 2, goes on to 3; LOOP is at 1.
abbrev workflow : ResolvedIr ℕ
workflow = record {
  instructions = load_it ∷ loop_it ∷ call_it ∷ transform_it ∷ plain 4 return ∷ [];
  instruction_order = 0 ∷ 1 ∷ 2 ∷ 3 ∷ 4 ∷ [];
  input_register = 0;
}

abbrev report : VerificationReport
report = record { passed = true; errors = []; warnings = [] }

workflow_passes : verify numbers no_service workflow ≡ some report
unfolding verify
workflow_passes = refl

-- A call without a descriptor makes the verifier throw.
unresolved_throws :
    verify numbers no_service (record workflow {
      instructions =
          (record call_it {
            dispatch_metadata = some (record {
              format = "LLM_CALL";
              selected_descriptor = none;
              target_tier = "CENTRAL";
            });
          })
          ∷ [];
    })
    ≡ none
unfolding verify
unresolved_throws = refl

-- The `dest` of a BRANCH counts as defined, though the virtual machine writes nothing there.
branch_defines :
    verify numbers no_service (record {
      instructions =
          record (plain 0 branch) { dest = some 1 } ∷ record transform_it { index = 1 } ∷ [];
      instruction_order = 0 ∷ 1 ∷ [];
      input_register = 0;
    })
    ≡ some report
unfolding verify
branch_defines = refl

workflow_loop : IsBounded (some loop_operands)
workflow_loop =
    verify-IsBounded numbers no_service workflow report workflow_passes refl loop_it
      (inr (inl refl)) refl

workflow_call : IsSafe call_it.dispatch_metadata
workflow_call =
    verify-IsSafe numbers no_service workflow report workflow_passes refl call_it
      (inr (inr (inl refl))) refl

workflow_read : (1 ≡ workflow.input_register) ⊎ IsDefined workflow.instructions (0 ∷ 1 ∷ 2 ∷ []) 1
workflow_read =
    verify-IsDefined numbers no_service workflow report workflow_passes refl (0 ∷ 1 ∷ 2 ∷ []) 3
      (4 ∷ []) refl transform_it refl 1 (inl refl)

abbrev straight : List (IrInstruction ℕ)
straight = load_it ∷ goto 1 branch 3 ∷ goto 2 jump 4 ∷ transform_it ∷ plain 4 return ∷ []

straight_loops : loop_headers straight ≡ []
unfolding loop_headers
straight_loops = refl

straight_accepted : check_termination straight ≡ []
unfolding check_termination
straight_accepted = refl

straight_acyclic : ¬ Walk (graph_of straight) 1 1
straight_acyclic = check_termination-acyclic straight straight_loops straight_accepted 1

-- The branch at 0 and the jump at 1 run in a circle, and the only LOOP is at 2.
abbrev circle_loop : IrInstruction ℕ
circle_loop = record (plain 2 loop) {
  operands = some (record loop_operands {
    as_loop = record loop_operands.as_loop { body_start_index = some 1; exit_index = some 3 };
  });
}

abbrev circle : List (IrInstruction ℕ)
circle = goto 0 branch 2 ∷ goto 1 jump 0 ∷ circle_loop ∷ plain 3 return ∷ []

circle_accepted : check_termination circle ≡ []
unfolding check_termination
circle_accepted = refl

circle-Walk : Walk (graph_of circle) 0 0
unfolding graph_of successors
circle-Walk = Walk.then {a = 0} {b = 1} (inr (inl refl)) (Walk.edge {a = 1} {b = 0} (inl refl))

circle_search : (run_search circle).exhausted ≡ false
circle_search = run_search-exhausted circle
