-- ===== src/Runtime/SemanticVm/Distributed.antt =====
-- `executeDistributed`, `handleRemoteSliceFailure` and `execute` of
-- eyeflow-server/src/runtime/semantic-vm.service.ts.
use eyeflow.Common.{
  ℕ, ◌+◌, ◌-◌, ◌*◌, String, Bool, true, not, ◌&&◌, Option, none, some, List, [], ◌∷◌, map, keep,
  leb, get_elem?, if◌then◌else◌, length,
}
use eyeflow.Common.Eq.{nat_equality, string_equality}
use eyeflow.Common.JsMap.{insert}
use eyeflow.Compiler.Ir.{ResolvedIr}
use eyeflow.Runtime.Host.{Host, get}
use eyeflow.Runtime.SemanticVm.{
  ExecutionContext, no_instruction, version_incompatible, Outcome, ok, thrown, and_then, Services,
  initialize_context, load_inputs,
}
use eyeflow.Runtime.SemanticVm.Instructions.{execute_instruction}
use eyeflow.Runtime.SemanticVm.Programs.{
  ExecutionResult, execute_monolithic, validate_ir_compatibility,
}
use eyeflow.Runtime.SemanticVm.Slices.{
  central_node_id, SyncPoint, ExecutionSlice, DistributedExecutionPlan, SliceDispatchPayload,
  SliceResultPayload, Nodes, find_instruction, sort_sync, is_central, find_central, Pending,
  extract_input_registers, process_sync_point,
}

-- The slices that are dispatched at the start.
abbrev pub is_dispatched : {V : Type 0} → ExecutionSlice V → Bool
is_dispatched s = not (is_central s) && s.is_root

module _ {host : Host} {World : Type 0} (services : Services host World)
    (nodes : Nodes host.values.Value World) where
  abbrev Value : Type 0
  Value = host.values.Value

  abbrev Context : Type 0
  Context = ExecutionContext host World

  -- The slice runs on the central node, without services loaded before.
  unfoldable pub run_slice : ExecutionSlice Value → List ℕ → Context → Outcome Context
  unfolding execute_instruction find_instruction and_then
  run_slice slice [] c = ok c
  run_slice slice (index ∷ order) c =
      let rest = run_slice slice order in
      let bare : Services host World = record services {
        pre_loaded = record { wasm = []; mcp = []; native = []; docker = [] };
      } in
      elim (find_instruction index slice.instructions) [
        | none ↦ thrown no_instruction
        | some i ↦ and_then (execute_instruction bare i c) rest
      ]

  abbrev pub slice_result : ExecutionSlice Value → Context → SliceResultPayload Value
  slice_result slice c = record {
    node_id = central_node_id;
    succeeded = true;
    output_registers = map (λ r. (r, get host r c.registers)) slice.output_registers;
    audit_events = map (λ s. (s.service_id, s.duration_ms)) c.services_called;
  }

  -- An exception of the run rejects the promise.
  unfoldable pub report_slice :
      ExecutionSlice Value → World → Outcome Context → World × Outcome (SliceResultPayload Value)
  unfolding get
  report_slice slice offline (thrown e) = (offline, thrown e)
  report_slice slice offline (ok c) = (c.world, ok (slice_result slice c))

  -- The fallback of a slice whose dispatch is rejected; its own registers start empty.
  unfoldable pub handle_remote_slice_failure :
      ExecutionSlice Value → World → World × Outcome (SliceResultPayload Value)
  unfolding run_slice report_slice initialize_context
  handle_remote_slice_failure slice world =
      let offline = nodes.mark_offline world slice.node_id in
      report_slice slice offline
        (run_slice slice slice.instruction_order (initialize_context offline))

  abbrev payload_of : String → ExecutionSlice Value → Context → SliceDispatchPayload Value
  payload_of plan_id slice c = record {
    plan_id = plan_id;
    slice_id = slice.slice_id;
    instructions = slice.instructions;
    instruction_order = slice.instruction_order;
    register_values = extract_input_registers services slice.input_bindings c;
    timeout_ms = slice.estimated_duration_ms * 3 + 2000;
    checksum = slice.checksum;
  }

  unfoldable pub settle_dispatch :
      ExecutionSlice Value
      → World × Option (SliceResultPayload Value)
      → World × Outcome (SliceResultPayload Value)
  unfolding handle_remote_slice_failure
  settle_dispatch slice (world, some result) = (world, ok result)
  settle_dispatch slice (world, none) = handle_remote_slice_failure slice world

  -- The slices are dispatched one after the other, and answer in the order of the plan. A slice id
  -- that comes again replaces the promise kept under it.
  unfoldable pub dispatch_slices :
      String → List (ExecutionSlice Value) → Context → Pending Value → Context × Pending Value
  unfolding settle_dispatch insert
  dispatch_slices plan_id [] c pending = (c, pending)
  dispatch_slices plan_id (s ∷ ss) c pending =
      let (after, outcome) =
        settle_dispatch s (nodes.dispatch c.world s.node_id (payload_of plan_id s c)) in
      let c' : Context = record c { world = after } in
      dispatch_slices plan_id ss c' (insert s.slice_id outcome pending)

  -- The sync points that stand before an instruction; those after it are left.
  unfoldable pub sync_before :
      ℕ
      → List (SyncPoint Value)
      → Pending Value
      → Context
      → Outcome (List (SyncPoint Value) × Context)
  unfolding process_sync_point and_then
  sync_before index [] pending c = ok ([], c)
  sync_before index (p ∷ ps) pending c =
      let rest = sync_before index ps pending in
      if leb p.pause_before_instruction index
      then and_then (process_sync_point services p pending c) rest
      else ok (p ∷ ps, c)

  unfoldable pub sync_rest : List (SyncPoint Value) → Pending Value → Context → Outcome Context
  unfolding process_sync_point and_then
  sync_rest [] pending c = ok c
  sync_rest (p ∷ ps) pending c =
      and_then (process_sync_point services p pending c) (sync_rest ps pending)

  unfoldable pub run_central :
      ResolvedIr Value → List ℕ → List (SyncPoint Value) → Pending Value → Context → Outcome Context
  unfolding sync_before sync_rest execute_instruction and_then
  run_central ir [] points pending c = sync_rest points pending c
  run_central ir (at ∷ order) points pending c =
      let rest = run_central ir order in
      and_then (sync_before at points pending c) (λ d. elim (get_elem? ir.instructions at) [
        | none ↦ thrown no_instruction
        | some i ↦
            and_then
              (execute_instruction services i (record d.1 { current_instruction_index = at }))
              (λ e. rest d.0 pending e)
      ])

  -- The clock is read before and after.
  unfoldable pub run_plan :
      ResolvedIr Value
      → ℕ
      → List (String × Value)
      → DistributedExecutionPlan Value
      → ExecutionSlice Value
      → World
      → Outcome (ExecutionResult Value)
  unfolding dispatch_slices run_central initialize_context load_inputs and_then get
  run_plan ir output_register user_inputs plan central world =
      let (w1, began) = services.clock world in
      let c = load_inputs user_inputs (initialize_context {host = host} w1) in
      let (d, pending) = dispatch_slices plan.plan_id (keep is_dispatched plan.slices) c [] in
      and_then (run_central ir central.instruction_order (sort_sync plan.sync_points) pending d)
        (λ e.
          let (w2, ended) = services.clock e.world in
          ok (record {
            output = get host output_register e.registers;
            duration_ms = ended - began;
            instructions_executed = length central.instruction_order;
            services_called = e.services_called;
            distributed_slices_completed = some (length pending);
          }))

  unfoldable pub execute_distributed :
      ResolvedIr Value
      → ℕ
      → List (String × Value)
      → DistributedExecutionPlan Value
      → World
      → Outcome (ExecutionResult Value)
  unfolding run_plan execute_monolithic find_central
  execute_distributed ir output_register user_inputs plan world = elim (find_central plan.slices) [
    | none ↦ execute_monolithic services ir output_register user_inputs world
    | some central ↦ run_plan ir output_register user_inputs plan central world
  ]

module _ {host : Host} {World : Type 0} (services : Services host World)
    (dispatcher : Option (Nodes host.values.Value World)) where
  -- A plan is followed only if it is distributed and there is a dispatcher.
  unfoldable pub execute_by_plan :
      Option (Nodes host.values.Value World)
      → ResolvedIr host.values.Value
      → Option (DistributedExecutionPlan host.values.Value)
      → ℕ
      → List (String × host.values.Value)
      → World
      → Outcome (ExecutionResult host.values.Value)
  unfolding execute_distributed execute_monolithic
  execute_by_plan (some nodes) ir (some plan) output_register user_inputs world =
      if plan.is_distributed
      then execute_distributed services nodes ir output_register user_inputs plan world
      else execute_monolithic services ir output_register user_inputs world
  execute_by_plan (some nodes) ir none output_register user_inputs world =
      execute_monolithic services ir output_register user_inputs world
  execute_by_plan none ir plan output_register user_inputs world =
      execute_monolithic services ir output_register user_inputs world

  unfoldable pub execute :
      (String → Option ℕ)
      → ℕ
      → String
      → ResolvedIr host.values.Value
      → Option (DistributedExecutionPlan host.values.Value)
      → ℕ
      → List (String × host.values.Value)
      → World
      → Outcome (ExecutionResult host.values.Value)
  unfolding validate_ir_compatibility execute_by_plan
  execute major_of svm_major compiler_version ir plan output_register user_inputs world =
      if validate_ir_compatibility major_of svm_major compiler_version
      then execute_by_plan dispatcher ir plan output_register user_inputs world
      else thrown version_incompatible
