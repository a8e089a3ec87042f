-- ===== src/Events/Fsm/Examples.antt =====
-- Small runs of a machine (eyeflow-server/src/events/event-state-machine.service.ts).
use mathlib.Core.Path.{subst}
use eyeflow.Common.{
  ℕ, ◌≡◌, ◌≢◌, ◌≤◌, refl, ap, inr, String, true, false, none, some, List, [], ◌∷◌, In, inl,
}
use eyeflow.Common.Eq.{string_equality}
use eyeflow.Common.JsMap.{lookup}
use eyeflow.Events.Samples.{engine, above, reading}
use eyeflow.Events.Correlation.{Windows, is_window_active}
use eyeflow.Events.Condition.{condition_matches, simple_matches}
use eyeflow.Events.Approval.{start}
use eyeflow.Events.Fsm.{
  EntryAction, propagate_enriched, start_window_timer, log, TransitionGuard, always, within_window,
  window_elapsed, EventTransition, EventStateMachineDescriptor, FsmRuntimeState, PropagatedEvent,
  removed, propagated, DeployedFsm, EventStateMachines, priority_of,
}
use eyeflow.Events.Fsm.Execution.{execute_action}
use eyeflow.Events.Fsm.Processing.{leaves, choose_transition}
use eyeflow.Events.Fsm.Lifecycle.{undeploy_workflow, handle_window_expiry}
use eyeflow.Events.Fsm.Choice.{passes, choose_transition-some, choose_transition-none}
use eyeflow.Events.Fsm.Expiry.{IsGone, handle_window_expiry-IsGone, propagate_enriched-effects}
use eyeflow.Events.Fsm.Deployment.{IsMap, undeploy_workflow-lookup}

abbrev transition : ℕ → TransitionGuard → ℕ → List (EntryAction ℕ) → EventTransition ℕ
transition limit guard priority actions = record {
  from_states = "IDLE" ∷ [];
  to_state = "ALERT";
  condition = above limit;
  guard = guard;
  on_entry = actions;
  priority = some priority;
}

abbrev late : EventTransition ℕ
late = transition 20 always 7 (log ∷ [])

abbrev early : EventTransition ℕ
early = transition 10 within_window 3 (propagate_enriched ∷ [])

abbrev machine : EventStateMachineDescriptor ℕ
machine = record {
  machine_id = "m";
  initial_state = "IDLE";
  expired_state = "EXPIRED";
  window_ms = 50;
  transitions = late ∷ early ∷ transition 0 window_elapsed 1 (log ∷ start_window_timer ∷ []) ∷ [];
  enriched_event_config = record {
    include_matched_values = true;
    compute_trends = [];
    include_local_actions_taken = false;
    signature_algorithm = none;
  };
  target_node_id = none;
  subscribed_driver_ids = [];
}

abbrev instance_i : FsmRuntimeState ℕ
instance_i = record {
  machine_id = "m";
  instance_id = "i";
  workflow_id = "w";
  current_state = "IDLE";
  window_started_at = some 10;
  window_expires_at = some 60;
  matched_values = [];
  step_outputs = [];
  pending_approval_gates = [];
  local_actions_taken = [];
  active_sampling_rate_changes = [];
  created_at = 10;
  last_transition_at = 10;
}

abbrev open_window : Windows
open_window =
    (
      "i",
      record {
        instance_id = "i";
        machine_id = "m";
        started_at = 10;
        expires_at = 60;
        window_ms = 50;
      },
    )
    ∷ []

abbrev running : DeployedFsm ℕ
running = record { workflow_id = "w"; descriptor = machine; instances = "i" ∷ [] }

abbrev service : EventStateMachines ℕ
service = record {
  deployed = ("m", running) ∷ [];
  heap = ("i", instance_i) ∷ [];
  windows = open_window;
  approvals = start;
  effects = [];
  listening = true;
}

chosen_25 : choose_transition engine 20 instance_i machine (reading 25) open_window ≡ some early
unfolding choose_transition condition_matches simple_matches is_window_active
chosen_25 = refl

chosen_25_least :
    In early machine.transitions
    × (leaves engine "IDLE" early ≡ true)
    × (passes engine 20 instance_i (reading 25) open_window early ≡ true)
    × ((u : EventTransition ℕ)
        → In u machine.transitions
        → leaves engine "IDLE" u ≡ true
        → passes engine 20 instance_i (reading 25) open_window u ≡ true
        → priority_of early ≤ priority_of u)
chosen_25_least =
    choose_transition-some engine 20 instance_i machine (reading 25) open_window early chosen_25

chosen_5 : choose_transition engine 20 instance_i machine (reading 5) open_window ≡ none
unfolding choose_transition condition_matches simple_matches is_window_active
chosen_5 = refl

late-leaves : leaves engine "IDLE" late ≡ true
late-leaves = refl

late_refuses_5 : passes engine 20 instance_i (reading 5) open_window late ≡ false
late_refuses_5 =
    choose_transition-none engine 20 instance_i machine (reading 5) open_window late chosen_5
      (inl refl) late-leaves

abbrev unsigned : String → PropagatedEvent ℕ → String
unsigned algorithm e = ""

running_m : lookup "m" service.deployed ≡ some running
unfolding lookup
running_m = refl

heap_i : lookup "i" service.heap ≡ some instance_i
unfolding lookup
heap_i = refl

expired_i : IsGone "m" "i" (handle_window_expiry engine unsigned 60 "i" "m" service)
expired_i =
    handle_window_expiry-IsGone engine unsigned 60 "i" "m" service running instance_i running_m refl
      (inl refl) heap_i

matched_i :
    let s' = execute_action engine unsigned 20 "i" machine propagate_enriched service in
    IsGone "m" "i" s'
    × ((e : PropagatedEvent ℕ) × (s'.effects ≡ propagated e ∷ removed "i" "m" ∷ [])
        × (e.satisfaction ≡ (1, 1))
        × (e.remaining_ms ≡ 0))
matched_i = propagate_enriched-effects engine unsigned 20 "i" machine service instance_i heap_i refl

service-IsMap : IsMap service.deployed
unfolding IsMap lookup
service-IsMap k f (inl here) =
    let key : "m" ≡ k = cc in
    let same : running ≡ f = cc in
    subst (λ x. lookup x service.deployed ≡ some f) key (ap some same)
service-IsMap k f (inr there) = elim there [ ]

undeployed_m :
    let s' = undeploy_workflow engine "w" service in
    ((e : DeployedFsm ℕ)
      → lookup "m" service.deployed ≡ some e
      → e.workflow_id ≡ "w"
      → (lookup "m" s'.deployed ≡ none)
        × ((id : String) → In id e.instances → lookup id s'.windows ≡ none))
    × ((e : DeployedFsm ℕ)
        → lookup "m" service.deployed ≡ some e
        → e.workflow_id ≢ "w"
        → lookup "m" s'.deployed ≡ some e)
    × (lookup "m" service.deployed ≡ none → lookup "m" s'.deployed ≡ none)
undeployed_m = undeploy_workflow-lookup engine "w" "m" service service-IsMap
