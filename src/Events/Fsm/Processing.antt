-- ===== src/Events/Fsm/Processing.antt =====
-- The processing of an event in eyeflow-server/src/events/event-state-machine.service.ts. A handler
-- runs to its end before the next one starts; `uuid` makes the ids.
use eyeflow.Common.{
  ℕ, suc, String, Bool, not, ◌&&◌, ◌||◌, Option, none, some, List, [], ◌∷◌, ◌++◌, if◌then◌else◌,
  length, keep, any, leb, head?,
}
use eyeflow.Common.Eq.{◌==◌, string_equality}
use eyeflow.Common.JsMap.{lookup, insert}
use eyeflow.Common.Json.{Engine}
use eyeflow.Events.Correlation.{Windows, is_window_active}
use eyeflow.Events.Condition.{TriggerEvent, condition_matches}
use eyeflow.Events.Fsm.{
  EventTransition, EventStateMachineDescriptor, FsmRuntimeState, PropagatedEvent, DeployedFsm,
  EventStateMachines, is_elapsed, is_within, priority_of, is_remote,
}
use eyeflow.Events.Fsm.Execution.{execute_transition, save_instance}

module _ (js : Engine) where
  -- `candidates.sort(…)` is stable.
  unfoldable pub insert_by_priority :
      EventTransition js.Num → List (EventTransition js.Num) → List (EventTransition js.Num)
  insert_by_priority t [] = t ∷ []
  insert_by_priority t (u ∷ us) =
      if leb (priority_of t) (priority_of u) then t ∷ u ∷ us else u ∷ insert_by_priority t us

  unfoldable pub sort_by_priority : List (EventTransition js.Num) → List (EventTransition js.Num)
  unfolding insert_by_priority
  sort_by_priority [] = []
  sort_by_priority (t ∷ ts) = insert_by_priority t (sort_by_priority ts)

  abbrev pub leaves : String → EventTransition js.Num → Bool
  leaves state t = any (λ f. f == state) t.from_states && not (is_elapsed t.guard)

  -- The loop over the sorted candidates: the first that matches, and whose guard lets it pass.
  unfoldable pub first_passing :
      ℕ
      → FsmRuntimeState js.Num
      → TriggerEvent js.Num
      → Windows
      → List (EventTransition js.Num)
      → Option (EventTransition js.Num)
  first_passing now i event ws [] = none
  first_passing now i event ws (t ∷ ts) =
      let rest = first_passing now i event ws ts in
      if condition_matches js t.condition event i.step_outputs
        && (not (is_within t.guard) || is_window_active now i.instance_id ws)
      then some t
      else rest

  unfoldable pub choose_transition :
      ℕ
      → FsmRuntimeState js.Num
      → EventStateMachineDescriptor js.Num
      → TriggerEvent js.Num
      → Windows
      → Option (EventTransition js.Num)
  unfolding sort_by_priority first_passing
  choose_transition now i d event ws =
      first_passing now i event ws (sort_by_priority (keep (leaves i.current_state) d.transitions))

  new_instance : ℕ → String → String → String → String → FsmRuntimeState js.Num
  new_instance now id machine workflow state = record {
    machine_id = machine;
    instance_id = id;
    workflow_id = workflow;
    current_state = state;
    window_started_at = none;
    window_expires_at = none;
    matched_values = [];
    step_outputs = [];
    pending_approval_gates = [];
    local_actions_taken = [];
    active_sampling_rate_changes = [];
    created_at = now;
    last_transition_at = now;
  }

  -- The first transition, in the descriptor's order, that can start an instance.
  unfoldable pub starting_transition :
      EventStateMachineDescriptor js.Num → TriggerEvent js.Num → Option (EventTransition js.Num)
  starting_transition d event = head? (
      keep (λ t. leaves d.initial_state t && condition_matches js t.condition event [])
        d.transitions)

  abbrev pub is_interested : EventStateMachineDescriptor js.Num → String → Bool
  is_interested d driver =
      leb (length d.subscribed_driver_ids) 0 || any (λ i. i == driver) d.subscribed_driver_ids

module _ (js : Engine) (sign : String → PropagatedEvent js.Num → String) where
  unfoldable pub evaluate_instance :
      ℕ
      → EventStateMachineDescriptor js.Num
      → TriggerEvent js.Num
      → String
      → EventStateMachines js.Num
      → EventStateMachines js.Num
  unfolding lookup choose_transition execute_transition
  evaluate_instance now d event id s = elim (lookup id s.heap) [
    | none ↦ s
    | some i ↦ elim (choose_transition js now i d event s.windows) [
      | none ↦ s
      | some t ↦ execute_transition js sign now id d t event s
    ]
  ]

  evaluate_instances :
      ℕ
      → EventStateMachineDescriptor js.Num
      → TriggerEvent js.Num
      → List String
      → EventStateMachines js.Num
      → EventStateMachines js.Num
  unfolding evaluate_instance
  evaluate_instances now d event [] s = s
  evaluate_instances now d event (id ∷ ids) s =
      evaluate_instances now d event ids (evaluate_instance now d event id s)

  -- `id` is the fresh id, used if an instance starts.
  unfoldable pub maybe_start_new_instance :
      ℕ
      → String
      → String
      → TriggerEvent js.Num
      → EventStateMachines js.Num
      → EventStateMachines js.Num
  unfolding lookup insert new_instance starting_transition save_instance execute_transition
  maybe_start_new_instance now id machine event s = elim (lookup machine s.deployed) [
    | none ↦ s
    | some entry ↦ elim (starting_transition js entry.descriptor event) [
      | none ↦ s
      | some t ↦ execute_transition js sign now id entry.descriptor t event (
          save_instance js id (record s {
            heap =
                insert id
                  (new_instance js now id machine entry.workflow_id entry.descriptor.initial_state)
                  s.heap;
            deployed =
                insert machine (record entry { instances = entry.instances ++ id ∷ [] }) s.deployed;
          }))
    ]
  ]

  -- The loop of `handleIncomingEvent` over the machines; `uuid n` is the n-th fresh id.
  unfoldable pub handle_each :
      (ℕ → String)
      → ℕ
      → TriggerEvent js.Num
      → ℕ
      → List (String × DeployedFsm js.Num)
      → EventStateMachines js.Num
      → EventStateMachines js.Num
  unfolding evaluate_instances maybe_start_new_instance
  handle_each uuid now event n [] s = s
  handle_each uuid now event n ((machine, entry) ∷ rest) s =
      handle_each uuid now event (suc n) rest (
        if not (is_remote entry.descriptor) && is_interested js entry.descriptor event.driver_id
        then maybe_start_new_instance now (uuid n) machine event
            (evaluate_instances now entry.descriptor event entry.instances s)
        else s)

  unfoldable pub handle_incoming_event :
      (ℕ → String) → ℕ → TriggerEvent js.Num → EventStateMachines js.Num → EventStateMachines js.Num
  unfolding handle_each
  handle_incoming_event uuid now event s = handle_each uuid now event 0 s.deployed s
