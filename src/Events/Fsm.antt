-- ===== src/Events/Fsm.antt =====
-- The data of eyeflow-server/src/events/event-state-machine.service.ts: descriptors
-- (eyeflow-server/src/compiler/interfaces/event-state-machine.interface.ts), instances and the
-- service's state. `N` is the type of JavaScript numbers.
pub mod Actions
pub mod Execution
pub mod Processing
pub mod Lifecycle
pub mod Choice
pub mod Expiry
pub mod Deployment
mod Examples
use eyeflow.Common.Eq.{◌==◌, string_equality}
use eyeflow.Common.{
  ℕ, String, Bool, true, false, not, ◌&&◌, Option, none, some, List, [], ◌∷◌, or_else,
}
use eyeflow.Common.Json.{Json}
use eyeflow.Events.Correlation.{Windows}
use eyeflow.Events.Condition.{ConditionDescriptor}
use eyeflow.Events.Approval.{HumanApprovalGateDescriptor, Approvals}

abbrev pub central_node_id : String
central_node_id = "central-nestjs"

pub data Scalar (N : Type 0) : Type 0 where
  number : N → Scalar N
  string : String → Scalar N

pub record ActuatorControlParams (N : Type 0) : Type 0 where
  pub actuator_id : String
  pub command_type : String
  pub value : Option (Scalar N)
  pub cancellation_window_ms : Option ℕ

pub record SamplingRateParams : Type 0 where
  pub driver_id : String
  pub new_debounce_ms : ℕ

-- A sub-action of PARALLEL_FETCH, told apart by its fields, with its `instructionId`.
pub data SubAction : Type 0 where
  ml_score crm_query llm_call : String → SubAction

-- `params` is absent, or cast to the type that the action's kind wants; of the descriptors of the
-- LLM, ML and CRM calls only the `instructionId` is read.
pub data EntryAction (N : Type 0) : Type 0 where
  start_window_timer cancel_window_timer reset_sampling_rate log : EntryAction N
  propagate_partial propagate_enriched reset_fsm unknown : EntryAction N
  increase_sampling_rate : Option SamplingRateParams → EntryAction N
  control_actuator : Option (ActuatorControlParams N) → EntryAction N
  llm_call ml_score_call crm_query : Option String → EntryAction N
  parallel_fetch : Option (List SubAction) → EntryAction N
  human_approval_gate : Option HumanApprovalGateDescriptor → EntryAction N

pub data TransitionGuard : Type 0 where
  within_window window_elapsed always : TransitionGuard

pub record EventTransition (N : Type 0) : Type 0 where
  pub from_states : List String
  pub to_state : String
  pub condition : ConditionDescriptor N
  pub guard : TransitionGuard
  pub on_entry : List (EntryAction N)
  pub priority : Option ℕ

pub record TrendConfig : Type 0 where
  pub metric_name : String
  pub unit : Option String

pub record PropagationConfig : Type 0 where
  pub include_matched_values : Bool
  pub compute_trends : List TrendConfig
  pub include_local_actions_taken : Bool
  pub signature_algorithm : Option String

pub record EventStateMachineDescriptor (N : Type 0) : Type 0 where
  pub machine_id : String
  pub initial_state : String
  pub expired_state : String
  pub window_ms : ℕ
  pub transitions : List (EventTransition N)
  pub enriched_event_config : PropagationConfig
  pub target_node_id : Option String
  pub subscribed_driver_ids : List String

pub record MatchedValue (N : Type 0) : Type 0 where
  pub value : Json N
  pub timestamp : ℕ

pub record LocalAction (N : Type 0) : Type 0 where
  pub action_type : String
  pub actuator_id : String
  pub value : Option (Scalar N)
  pub executed_at : ℕ
  pub cancellable_until : Option ℕ

pub record SamplingRateChange : Type 0 where
  pub driver_id : String
  pub previous_debounce_ms : ℕ
  pub new_debounce_ms : ℕ

pub record FsmRuntimeState (N : Type 0) : Type 0 where
  pub machine_id : String
  pub instance_id : String
  pub workflow_id : String
  pub current_state : String
  pub window_started_at : Option ℕ
  pub window_expires_at : Option ℕ
  pub matched_values : List (String × MatchedValue N)
  pub step_outputs : List (String × Json N)
  pub pending_approval_gates : List (String × ℕ)
  pub local_actions_taken : List (LocalAction N)
  pub active_sampling_rate_changes : List SamplingRateChange
  pub created_at : ℕ
  pub last_transition_at : ℕ

-- `satisfaction` is a quotient: its numerator and its denominator.
pub record PropagatedEvent (N : Type 0) : Type 0 where
  pub machine_id : String
  pub source_node_id : String
  pub workflow_id : String
  pub timestamp : ℕ
  pub satisfaction : ℕ × ℕ
  pub matched_values : List (String × MatchedValue N)
  pub started_at : ℕ
  pub window_ms : ℕ
  pub remaining_ms : ℕ
  pub local_actions_taken : List (LocalAction N)
  pub precursor_signals : List (String × (Json N × Option String))
  pub signature : Option String

-- What an approver is shown at a path.
pub data Shown (N : Type 0) : Type 0 where
  output : Json N → Shown N
  matched : MatchedValue N → Shown N
  missing : Shown N

-- The calls of the repository and of `PropagatedEventService`, in their order.
pub data Effect (N : Type 0) : Type 0 where
  saved : FsmRuntimeState N → Effect N
  removed : String → String → Effect N
  propagated : PropagatedEvent N → Effect N
  remote_deploy : String → EventStateMachineDescriptor N → Effect N

-- `instances` holds the ids of the running instances, in the order of the source's map.
pub record DeployedFsm (N : Type 0) : Type 0 where
  pub workflow_id : String
  pub descriptor : EventStateMachineDescriptor N
  pub instances : List String

-- An instance is an object that outlives its entry in `instances`: `heap` holds all that were made.
pub record EventStateMachines (N : Type 0) : Type 0 where
  pub deployed : List (String × DeployedFsm N)
  pub heap : List (String × FsmRuntimeState N)
  pub windows : Windows
  pub approvals : Approvals (Shown N)
  pub effects : List (Effect N)
  pub listening : Bool

abbrev pub is_elapsed : TransitionGuard → Bool
is_elapsed window_elapsed = true
is_elapsed _ = false

abbrev pub is_within : TransitionGuard → Bool
is_within within_window = true
is_within _ = false

-- `a.priority ?? 99`
abbrev pub priority_of : {N : Type 0} → EventTransition N → ℕ
priority_of t = or_else t.priority 99

-- The machine runs on another node.
abbrev pub is_remote : {N : Type 0} → EventStateMachineDescriptor N → Bool
is_remote d = elim d.target_node_id [
  | none ↦ false
  | some node ↦ not (node == "") && not (node == central_node_id)
]
