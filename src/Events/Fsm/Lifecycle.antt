-- ===== src/Events/Fsm/Lifecycle.antt =====
-- Expiry of a window, deployment and shutdown in
-- eyeflow-server/src/events/event-state-machine.service.ts.
use eyeflow.Common.{
  ℕ, String, true, false, ◌&&◌, none, some, List, [], ◌∷◌, ◌++◌, if◌then◌else◌, any, or_else,
}
use eyeflow.Common.Eq.{◌==◌, string_equality}
use eyeflow.Common.JsMap.{lookup, insert, delete}
use eyeflow.Common.Json.{Engine}
use eyeflow.Events.Correlation.{Windows, cancel_window, expire_window, cancel_all}
use eyeflow.Events.Fsm.{
  EntryAction, EventTransition, EventStateMachineDescriptor, PropagatedEvent, remote_deploy,
  DeployedFsm, EventStateMachines, is_elapsed, is_remote,
}
use eyeflow.Events.Fsm.Actions.{modify, reset_instance}
use eyeflow.Events.Fsm.Execution.{execute_actions}

unfoldable pub cancel_windows : List String → Windows → Windows
unfolding cancel_window
cancel_windows [] ws = ws
cancel_windows (id ∷ ids) ws = cancel_windows ids (cancel_window id ws).0

module _ (js : Engine) where
  -- The actions of every WINDOW_ELAPSED transition from the state that the window ended in.
  unfoldable pub elapsed_actions :
      String → List (EventTransition js.Num) → List (EntryAction js.Num)
  elapsed_actions state [] = []
  elapsed_actions state (t ∷ ts) =
      if any (λ f. f == state) t.from_states && is_elapsed t.guard
      then t.on_entry ++ elapsed_actions state ts
      else elapsed_actions state ts

  unfoldable pub deploy_fsm :
      String
      → EventStateMachineDescriptor js.Num
      → EventStateMachines js.Num
      → EventStateMachines js.Num
  unfolding insert
  deploy_fsm workflow d s =
      let entry : DeployedFsm js.Num = record {
        workflow_id = workflow;
        descriptor = d;
        instances = [];
      } in
      let registered = record s { deployed = insert d.machine_id entry s.deployed } in
      if is_remote d
      then record registered {
        effects = s.effects ++ remote_deploy (or_else d.target_node_id "") d ∷ [];
      }
      else record registered { listening = true }

  -- The loop of `undeployWorkflow` over the machines that it found.
  unfoldable pub undeploy_each :
      String
      → List (String × DeployedFsm js.Num)
      → EventStateMachines js.Num
      → EventStateMachines js.Num
  unfolding delete cancel_windows
  undeploy_each workflow [] s = s
  undeploy_each workflow ((machine, entry) ∷ rest) s = undeploy_each workflow rest (
      if entry.workflow_id == workflow
      then record s {
        windows = cancel_windows entry.instances s.windows;
        deployed = delete machine s.deployed;
      }
      else s)

  unfoldable pub undeploy_workflow : String → EventStateMachines js.Num → EventStateMachines js.Num
  unfolding undeploy_each
  undeploy_workflow workflow s = undeploy_each workflow s.deployed s

  unfoldable pub on_module_destroy : EventStateMachines js.Num → EventStateMachines js.Num
  unfolding cancel_all
  on_module_destroy s = record s { listening = false; windows = cancel_all s.windows }

module _ (js : Engine) (sign : String → PropagatedEvent js.Num → String) where
  -- The timer's callback: the window is gone before `onExpired` runs.
  unfoldable pub handle_window_expiry :
      ℕ → String → String → EventStateMachines js.Num → EventStateMachines js.Num
  unfolding lookup expire_window modify elapsed_actions execute_actions reset_instance
  handle_window_expiry now id machine s₀ =
      let s = record s₀ { windows = expire_window id s₀.windows } in
      elim (lookup machine s.deployed) [
        | none ↦ s
        | some entry ↦
            if any (λ i. i == id) entry.instances
            then (elim (lookup id s.heap) [
              | none ↦ s
              | some i ↦ reset_instance entry.descriptor.machine_id id (
                  execute_actions js sign now id entry.descriptor
                    (elapsed_actions js i.current_state entry.descriptor.transitions)
                    (modify id
                      (λ j. record j {
                        current_state = entry.descriptor.expired_state;
                        last_transition_at = now;
                      })
                      s))
            ])
            else s
      ]
