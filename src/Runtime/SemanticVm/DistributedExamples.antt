-- ===== src/Runtime/SemanticVm/DistributedExamples.antt =====
-- A plan with a slice that waits for another, and a slice whose node is down
-- (eyeflow-server/src/runtime/semantic-vm.service.ts).
use eyeflow.Common.{ℕ, ◌≡◌, ◌≢◌, refl, String, Bool, true, false, none, some, [], ◌∷◌}
use eyeflow.Common.Eq.{◌==◌, string_equality}
use eyeflow.Compiler.Ir.{load_resource, return, IrInstruction, ResolvedIr}
use eyeflow.Runtime.Samples.{host}
use eyeflow.Runtime.SemanticVm.{ExecutionContext, ok, initialize_context}
use eyeflow.Runtime.SemanticVm.Outcomes.{Meets}
use eyeflow.Runtime.SemanticVm.Samples.{services, plain}
use eyeflow.Runtime.SemanticVm.Slices.{
  central_node_id, SyncPoint, fail, ExecutionSlice, DistributedExecutionPlan, SliceResultPayload,
  Nodes, merge_result,
}
use eyeflow.Runtime.SemanticVm.Distributed.{handle_remote_slice_failure, execute_distributed}
use eyeflow.Runtime.SemanticVm.Dependents.{
  without_dependents, execute_distributed-without_dependents,
}
use eyeflow.Runtime.SemanticVm.Fallback.{handle_remote_slice_failure-unmerged}

-- Every dispatch is rejected.
abbrev nodes : Nodes ℕ ℕ
nodes = record {
  dispatch = λ world node payload. (world, none);
  mark_offline = λ world node. world;
}

abbrev load_it : IrInstruction ℕ
load_it = record (plain 0 load_resource) { dest = some 1 }

abbrev slice_on : String → Bool → ExecutionSlice ℕ
slice_on node is_root = record {
  slice_id = node;
  node_id = node;
  is_root = is_root;
  instructions = load_it ∷ [];
  instruction_order = 0 ∷ [];
  input_bindings = [];
  output_registers = 1 ∷ [];
  estimated_duration_ms = 10;
  checksum = "";
}

abbrev central : ExecutionSlice ℕ
central = record (slice_on central_node_id true) { instructions = []; instruction_order = 0 ∷ [] }

abbrev edge : ExecutionSlice ℕ
edge = slice_on "edge" true

abbrev sync : SyncPoint ℕ
sync = record {
  pause_before_instruction = 0;
  await_slice_ids = "edge" ∷ [];
  inbound_flows = (record { from_node_id = "edge"; from_register = 1; to_register = 5 }) ∷ [];
  on_timeout = fail;
  default_value = none;
}

abbrev plan : DistributedExecutionPlan ℕ
plan = record {
  plan_id = "p";
  is_distributed = true;
  slices = central ∷ edge ∷ slice_on "later" false ∷ [];
  sync_points = sync ∷ [];
}

abbrev program : ResolvedIr ℕ
program = record {
  instructions = plain 0 return ∷ [];
  instruction_order = 0 ∷ [];
  input_register = 0;
}

plan_without :
    execute_distributed services nodes program 5 [] (without_dependents plan) 0
    ≡ execute_distributed services nodes program 5 [] plan 0
plan_without = execute_distributed-without_dependents services nodes program 5 [] plan 0

-- What the edge's fallback answers: the loaded resource in register 1.
abbrev fallback : SliceResultPayload ℕ
fallback = record {
  node_id = central_node_id;
  succeeded = true;
  output_registers = (1, 9) ∷ [];
  audit_events = [];
}

fallback_answers : (handle_remote_slice_failure services nodes edge 0).1 ≡ ok fallback
unfolding handle_remote_slice_failure
fallback_answers = refl

different : (s t : String) → (s == t) ≡ false → s ≢ t
different s t h e = let yes = (string_equality.test_iff s t).1 e in cc

abbrev begun : ExecutionContext host ℕ
begun = initialize_context 0

fallback_unmerged :
    Meets
      (λ d. d.registers ≡ begun.registers)
      (λ e. ⊥)
      (merge_result services sync (ok fallback) begun)
fallback_unmerged =
    handle_remote_slice_failure-unmerged services nodes edge 0 fallback fallback_answers sync begun
      (different "edge" central_node_id refl, tt)
