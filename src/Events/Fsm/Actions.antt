-- ===== src/Events/Fsm/Actions.antt =====
-- On-entry actions of eyeflow-server/src/events/event-state-machine.service.ts: `executeAction`,
-- `startWindowTimer`, `buildPropagatedEvent` and `resetInstance`. The clock enters as `now`, hashing
-- as `sign`.
use eyeflow.Common.{
  ℕ, String, Bool, not, ◌||◌, Option, none, some, List, [], ◌∷◌, ◌++◌, if◌then◌else◌, length, keep,
  any, or_else, max, leb,
}
use eyeflow.Common.Eq.{◌==◌, string_equality}
use eyeflow.Common.JsMap.{lookup, insert}
use eyeflow.Common.Json.{Json, null}
use eyeflow.Events.Correlation.{start_window, cancel_window, remaining_ms}
use eyeflow.Events.Condition.{given}
use eyeflow.Events.Approval.{HumanApprovalGateDescriptor, register_gate}
use eyeflow.Events.Fsm.{
  central_node_id, TrendConfig, EventStateMachineDescriptor, MatchedValue, FsmRuntimeState,
  PropagatedEvent, Shown, output, matched, missing, Effect, removed, propagated, DeployedFsm,
  EventStateMachines,
}

unfoldable pub forget : String → List String → List String
forget id = keep (λ i. not (i == id))

module _ {N : Type 0} where
  -- Writing to the object of an instance.
  unfoldable pub modify :
      String → (FsmRuntimeState N → FsmRuntimeState N) → EventStateMachines N → EventStateMachines N
  unfolding lookup insert
  modify id f s = elim (lookup id s.heap) [
    | none ↦ s
    | some i ↦ record s { heap = insert id (f i) s.heap }
  ]

  abbrev pub emit : Effect N → EventStateMachines N → EventStateMachines N
  emit e s = record s { effects = s.effects ++ e ∷ [] }

  -- `instances.delete(instanceId)` in the map of a machine.
  unfoldable pub drop_instance :
      String → String → List (String × DeployedFsm N) → List (String × DeployedFsm N)
  unfolding lookup insert forget
  drop_instance machine id ds = elim (lookup machine ds) [
    | none ↦ ds
    | some d ↦ insert machine (record d { instances = forget id d.instances }) ds
  ]

  unfoldable pub reset_instance : String → String → EventStateMachines N → EventStateMachines N
  unfolding drop_instance cancel_window
  reset_instance machine id s = record s {
    windows = (cancel_window id s.windows).0;
    effects = s.effects ++ removed id machine ∷ [];
    deployed = drop_instance machine id s.deployed;
  }

  unfoldable pub run_start_window_timer :
      ℕ → String → EventStateMachineDescriptor N → EventStateMachines N → EventStateMachines N
  unfolding start_window modify
  run_start_window_timer now id d s =
      let (windows, entry) = start_window now id d.machine_id d.window_ms s.windows in
      modify id
        (λ i. record i {
          window_started_at = some entry.started_at;
          window_expires_at = some entry.expires_at;
        })
        (record s { windows = windows })

  -- The loop over `computeTrends`.
  trends :
      List TrendConfig
      → List (String × MatchedValue N)
      → List (String × (Json N × Option String))
      → List (String × (Json N × Option String))
  unfolding lookup insert
  trends [] values signals = signals
  trends (t ∷ ts) values signals = elim (lookup t.metric_name values) [
    | none ↦ trends ts values signals
    | some m ↦ trends ts values (insert t.metric_name (m.value, t.unit) signals)
  ]

  total_conditions : EventStateMachineDescriptor N → ℕ
  total_conditions d = length (
      keep
        (λ t. not (any (λ f. f == d.initial_state) t.from_states) || leb 1 (length t.from_states))
        d.transitions)

  unfoldable pub build_propagated_event :
      (String → PropagatedEvent N → String)
      → ℕ
      → FsmRuntimeState N
      → EventStateMachineDescriptor N
      → Bool
      → EventStateMachines N
      → PropagatedEvent N
  unfolding trends total_conditions remaining_ms
  build_propagated_event sign now i d is_full s =
      let cfg = d.enriched_event_config in
      let event : PropagatedEvent N = record {
        machine_id = i.machine_id;
        source_node_id = central_node_id;
        workflow_id = i.workflow_id;
        timestamp = now;
        satisfaction =
            if is_full then (1, 1) else (length i.matched_values, max (total_conditions d) 1);
        matched_values = if cfg.include_matched_values then i.matched_values else [];
        started_at = or_else i.window_started_at now;
        window_ms = d.window_ms;
        remaining_ms = remaining_ms now i.instance_id s.windows;
        local_actions_taken = if cfg.include_local_actions_taken then i.local_actions_taken else [];
        precursor_signals = trends cfg.compute_trends i.matched_values [];
        signature = none;
      } in
      elim (given cfg.signature_algorithm) [
        | none ↦ event
        | some algorithm ↦ record event { signature = some (sign algorithm event) }
      ]

  from_matched : Option (MatchedValue N) → Shown N
  from_matched none = missing
  from_matched (some m) = matched m

  -- `stepOutputs[path] ?? matchedValues[path]`
  show : FsmRuntimeState N → String → Shown N
  unfolding lookup from_matched
  show i path = elim (lookup path i.step_outputs) [
    | some null ↦ from_matched (lookup path i.matched_values)
    | some v ↦ output v
    | none ↦ from_matched (lookup path i.matched_values)
  ]

  snapshot : FsmRuntimeState N → List String → List (String × Shown N) → List (String × Shown N)
  unfolding show insert
  snapshot i [] shown = shown
  snapshot i (path ∷ paths) shown = snapshot i paths (insert path (show i path) shown)

  unfoldable pub run_human_approval_gate :
      ℕ
      → String
      → EventStateMachineDescriptor N
      → HumanApprovalGateDescriptor
      → EventStateMachines N
      → EventStateMachines N
  unfolding snapshot register_gate modify lookup insert
  run_human_approval_gate now id d gate s = elim (lookup id s.heap) [
    | none ↦ s
    | some i ↦
        modify id
          (λ j. record j {
            pending_approval_gates = insert gate.gate_id now j.pending_approval_gates;
          })
          (record s {
            approvals =
                (register_gate now gate id i.machine_id d.machine_id
                  (snapshot i gate.context_to_show []) s.approvals).0;
          })
  ]

  unfoldable pub store_output :
      String → String → Json N → EventStateMachines N → EventStateMachines N
  unfolding modify insert
  store_output id instruction v =
      modify id (λ i. record i { step_outputs = insert instruction v i.step_outputs })

  unfoldable pub propagate :
      (String → PropagatedEvent N → String)
      → ℕ
      → String
      → EventStateMachineDescriptor N
      → Bool
      → EventStateMachines N
      → EventStateMachines N
  unfolding build_propagated_event lookup
  propagate sign now id d is_full s = elim (lookup id s.heap) [
    | none ↦ s
    | some i ↦ emit (propagated (build_propagated_event sign now i d is_full s)) s
  ]
