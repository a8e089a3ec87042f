-- ===== src/Events/Fsm/Execution.antt =====
-- `executeAction` and `executeTransition` of
-- eyeflow-server/src/events/event-state-machine.service.ts. `now` is the clock that a handler reads, `sign`
-- the hash of an event.
use eyeflow.Common.{ℕ, zero, suc, ◌+◌, String, true, false, Option, none, some, List, [], ◌∷◌, ◌++◌}
use eyeflow.Common.Eq.{string_equality}
use eyeflow.Common.JsMap.{lookup, insert}
use eyeflow.Common.Json.{Json, bool, num, text, arr, obj, nil, end, field, Engine}
use eyeflow.Events.Correlation.{cancel_window}
use eyeflow.Events.Condition.{TriggerEvent, fields_of, extract_value}
use eyeflow.Events.Fsm.{
  ActuatorControlParams, SamplingRateParams, SubAction, ml_score, crm_query, llm_call, EntryAction,
  start_window_timer, cancel_window_timer, reset_sampling_rate, log, propagate_partial,
  propagate_enriched, reset_fsm, unknown, increase_sampling_rate, control_actuator, ml_score_call,
  parallel_fetch, human_approval_gate, EventTransition, EventStateMachineDescriptor,
  FsmRuntimeState, PropagatedEvent, saved, EventStateMachines,
}
use eyeflow.Events.Fsm.Actions.{
  modify, emit, reset_instance, run_start_window_timer, run_human_approval_gate, store_output,
  propagate,
}

module _ (js : Engine) where
  -- The outputs that the unfinished calls store.
  llm_stub : String → Json js.Num
  llm_stub instruction =
      obj (field "_stub" (bool true) (field "instructionId" (text instruction) end))

  bare_stub : Json js.Num
  bare_stub = obj (field "_stub" (bool true) end)

  ml_stub : Json js.Num
  ml_stub = obj (field "score" (num js.zero_num) (field "_stub" (bool true) end))

  crm_stub : Json js.Num
  crm_stub =
      obj (field "rows" (arr nil) (field "count" (num js.zero_num) (field "_stub" (bool true) end)))

  fetch_each : String → List SubAction → EventStateMachines js.Num → EventStateMachines js.Num
  unfolding bare_stub ml_stub crm_stub store_output
  fetch_each id [] s = s
  fetch_each id (ml_score i ∷ rest) s = fetch_each id rest (store_output id i ml_stub s)
  fetch_each id (crm_query i ∷ rest) s = fetch_each id rest (store_output id i crm_stub s)
  fetch_each id (llm_call i ∷ rest) s = fetch_each id rest (store_output id i bare_stub s)

  sample : SamplingRateParams → FsmRuntimeState js.Num → FsmRuntimeState js.Num
  sample p i = record i {
    active_sampling_rate_changes =
        i.active_sampling_rate_changes
        ++ record {
          driver_id = p.driver_id;
          previous_debounce_ms = 0;
          new_debounce_ms = p.new_debounce_ms;
        }
          ∷ [];
  }

  -- A window of 0 ms is falsy.
  cancellable : ℕ → Option ℕ → Option ℕ
  cancellable now none = none
  cancellable now (some zero) = none
  cancellable now (some (suc ms)) = some (now + suc ms)

  actuate : ℕ → ActuatorControlParams js.Num → FsmRuntimeState js.Num → FsmRuntimeState js.Num
  unfolding cancellable
  actuate now p i = record i {
    local_actions_taken =
        i.local_actions_taken
        ++ record {
          action_type = p.command_type;
          actuator_id = p.actuator_id;
          value = p.value;
          executed_at = now;
          cancellable_until = cancellable now p.cancellation_window_ms;
        }
          ∷ [];
  }

  -- `repo.save(instance)` takes the object as it is now.
  unfoldable pub save_instance : String → EventStateMachines js.Num → EventStateMachines js.Num
  unfolding lookup
  save_instance id s = elim (lookup id s.heap) [ none ↦ s | some i ↦ emit (saved i) s ]

  unfoldable pub record_match :
      ℕ
      → EventTransition js.Num
      → TriggerEvent js.Num
      → FsmRuntimeState js.Num
      → FsmRuntimeState js.Num
  unfolding insert extract_value
  record_match now t event i = elim (extract_value js (fields_of t.condition) event) [
    | none ↦ i
    | some v ↦ record i {
      matched_values =
          insert (fields_of t.condition).metric_name (record { value = v; timestamp = now })
            i.matched_values;
    }
  ]

module _ (js : Engine) (sign : String → PropagatedEvent js.Num → String) where
  unfoldable pub execute_action :
      ℕ
      → String
      → EventStateMachineDescriptor js.Num
      → EntryAction js.Num
      → EventStateMachines js.Num
      → EventStateMachines js.Num
  unfolding llm_stub ml_stub crm_stub fetch_each sample actuate modify run_start_window_timer
      run_human_approval_gate store_output
  execute_action now id d start_window_timer s = run_start_window_timer now id d s
  execute_action now id d cancel_window_timer s = record s {
    windows = (cancel_window id s.windows).0;
  }
  execute_action now id d (increase_sampling_rate none) s = s
  execute_action now id d (increase_sampling_rate (some p)) s = modify id (sample js p) s
  execute_action now id d reset_sampling_rate s =
      modify id (λ i. record i { active_sampling_rate_changes = [] }) s
  execute_action now id d (control_actuator none) s = s
  execute_action now id d (control_actuator (some p)) s = modify id (actuate js now p) s
  execute_action now id d log s = s
  execute_action now id d propagate_partial s = propagate sign now id d false s
  execute_action now id d propagate_enriched s =
      reset_instance d.machine_id id
        (propagate sign now id d true (record s { windows = (cancel_window id s.windows).0 }))
  execute_action now id d reset_fsm s = reset_instance d.machine_id id s
  execute_action now id d (llm_call none) s = s
  execute_action now id d (llm_call (some i)) s = store_output id i (llm_stub js i) s
  execute_action now id d (ml_score_call none) s = s
  execute_action now id d (ml_score_call (some i)) s = store_output id i (ml_stub js) s
  execute_action now id d (crm_query none) s = s
  execute_action now id d (crm_query (some i)) s = store_output id i (crm_stub js) s
  execute_action now id d (parallel_fetch none) s = s
  execute_action now id d (parallel_fetch (some subs)) s = fetch_each js id subs s
  execute_action now id d (human_approval_gate none) s = s
  execute_action now id d (human_approval_gate (some g)) s = run_human_approval_gate now id d g s
  execute_action now id d unknown s = s

  unfoldable pub execute_actions :
      ℕ
      → String
      → EventStateMachineDescriptor js.Num
      → List (EntryAction js.Num)
      → EventStateMachines js.Num
      → EventStateMachines js.Num
  unfolding execute_action
  execute_actions now id d [] s = s
  execute_actions now id d (a ∷ rest) s =
      execute_actions now id d rest (execute_action now id d a s)

  unfoldable pub execute_transition :
      ℕ
      → String
      → EventStateMachineDescriptor js.Num
      → EventTransition js.Num
      → TriggerEvent js.Num
      → EventStateMachines js.Num
      → EventStateMachines js.Num
  unfolding modify save_instance record_match execute_actions
  execute_transition now id d t event s =
      let entered =
        modify id (λ i. record i { current_state = t.to_state; last_transition_at = now }) s in
      execute_actions now id d t.on_entry
        (modify id (record_match js now t event) (save_instance js id entered))
