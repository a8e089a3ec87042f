-- ===== src/Events/Approval.antt =====
-- eyeflow-server/src/events/human-approval.service.ts. The clock enters as `now`; a timer is its
-- handle with the arguments of its callback. The subscribers of `approvalEvents$` run inside
-- `next`, before the gate is deleted: their effect on this service is the argument `subscribers`.
pub mod Timers
pub mod Reachable
pub mod Decisions
mod Examples
use eyeflow.Common.{
  ℕ, suc, ◌+◌, String, Bool, true, false, not, Option, none, some, List, [], ◌∷◌, ◌++◌, keep,
  length, is_some, nat_eq, map, if◌then◌else◌, or_else,
}
use eyeflow.Common.Eq.{◌==◌, string_equality}
use eyeflow.Common.JsMap.{lookup, insert, delete}

pub data GateStatus : Type 0 where
  pending approved rejected timed_out : GateStatus

pub data ApprovalDecision : Type 0 where
  approve reject : ApprovalDecision

abbrev pub status_of : ApprovalDecision → GateStatus
status_of approve = approved
status_of reject = rejected

pub record HumanApprovalGateDescriptor : Type 0 where
  pub gate_id : String
  pub assignee_rule : String
  pub timeout_ms : ℕ
  pub on_timeout : Option String
  pub context_to_show : List String
  pub description : Option String

-- `C` is the type of the values shown to the approver.
pub record PendingApprovalGate (C : Type 0) : Type 0 where
  pub gate_id : String
  pub instance_id : String
  pub machine_id : String
  pub workflow_id : String
  pub assignee_rule : String
  pub description : Option String
  pub context_snapshot : List (String × C)
  pub created_at : ℕ
  pub expires_at : ℕ
  pub timeout_handle : ℕ
  pub status : GateStatus

pub record ApprovalResult : Type 0 where
  pub gate_id : String
  pub decision : ApprovalDecision
  pub decided_by : String
  pub decided_at : String
  pub comment : Option String

-- The synthetic trigger events: a decision with the gate's context, or a timeout.
pub data ApprovalEvent (C : Type 0) : Type 0 where
  decided : String → ApprovalResult → List (String × C) → ApprovalEvent C
  gate_timed_out : String → String → Option String → ApprovalEvent C

pub record Timer : Type 0 where
  pub handle : ℕ
  pub gate_id : String
  pub strategy : Option String

pub record Approvals (C : Type 0) : Type 0 where
  pub gates : List (String × PendingApprovalGate C)
  pub timers : List Timer
  pub next_handle : ℕ

unfoldable pub clear_timeout : ℕ → List Timer → List Timer
clear_timeout h = keep (λ t. not (nat_eq t.handle h))

abbrev pub is_pending : GateStatus → Bool
is_pending pending = true
is_pending _ = false

module _ {C : Type 0} where
  unfoldable pub cancel_gate : String → Approvals C → Approvals C × Bool
  unfolding lookup delete clear_timeout
  cancel_gate gate_id s = elim (lookup gate_id s.gates) [
    | none ↦ (s, false)
    | some gate ↦ (
      record s {
        gates = delete gate_id s.gates;
        timers = clear_timeout gate.timeout_handle s.timers;
      },
      true,
    )
  ]

  -- `setTimeout` and `gates.set`, once an older gate of this id is gone.
  unfoldable pub open_gate :
      ℕ
      → HumanApprovalGateDescriptor
      → String
      → String
      → String
      → List (String × C)
      → Approvals C
      → Approvals C × PendingApprovalGate C
  unfolding insert
  open_gate now d instance_id machine_id workflow_id context s =
      let gate : PendingApprovalGate C = record {
        gate_id = d.gate_id;
        instance_id = instance_id;
        machine_id = machine_id;
        workflow_id = workflow_id;
        assignee_rule = d.assignee_rule;
        description = d.description;
        context_snapshot = context;
        created_at = now;
        expires_at = now + d.timeout_ms;
        timeout_handle = s.next_handle;
        status = pending;
      } in
      (
        record {
          gates = insert d.gate_id gate s.gates;
          timers =
              record { handle = s.next_handle; gate_id = d.gate_id; strategy = d.on_timeout }
              ∷ s.timers;
          next_handle = suc s.next_handle;
        },
        gate,
      )

  -- `has` is tested by `cancelGate` itself, which does nothing for an unknown gate.
  unfoldable pub register_gate :
      ℕ
      → HumanApprovalGateDescriptor
      → String
      → String
      → String
      → List (String × C)
      → Approvals C
      → Approvals C × PendingApprovalGate C
  unfolding cancel_gate open_gate
  register_gate now d instance_id machine_id workflow_id context s =
      open_gate now d instance_id machine_id workflow_id context (cancel_gate d.gate_id s).0

  -- The new state and the events emitted.
  unfoldable pub resolve :
      (ApprovalEvent C → Approvals C → Approvals C)
      → ApprovalResult
      → Approvals C
      → Approvals C × List (ApprovalEvent C)
  unfolding lookup insert delete clear_timeout
  resolve subscribers result s = elim (lookup result.gate_id s.gates) [
    | none ↦ (s, [])
    | some gate ↦
        if is_pending gate.status
        then (let decision : ApprovalEvent C =
              decided gate.workflow_id result gate.context_snapshot in
            let marked = record s {
              gates =
                  insert result.gate_id (record gate { status = status_of result.decision })
                    s.gates;
              timers = clear_timeout gate.timeout_handle s.timers;
            } in
            let after = subscribers decision marked in
            (record after { gates = delete result.gate_id after.gates }, decision ∷ []))
        else (s, [])
  ]

  -- The callback of a timer that has fired, and so is armed no more.
  unfoldable pub handle_timeout :
      (ApprovalEvent C → Approvals C → Approvals C)
      → Timer
      → Approvals C
      → Approvals C × List (ApprovalEvent C)
  unfolding lookup insert delete clear_timeout
  handle_timeout subscribers t s₀ =
      let s = record s₀ { timers = clear_timeout t.handle s₀.timers } in
      elim (lookup t.gate_id s.gates) [
        | none ↦ (s, [])
        | some gate ↦
            if is_pending gate.status
            then (let timeout : ApprovalEvent C =
                  gate_timed_out gate.workflow_id t.gate_id t.strategy in
                let marked = record s {
                  gates = insert t.gate_id (record gate { status = timed_out }) s.gates;
                } in
                let after = subscribers timeout marked in
                (record after { gates = delete t.gate_id after.gates }, timeout ∷ []))
            else (s, [])
      ]

  -- The loop of `cancelAllForInstance` over the gates that it found.
  cancel_each : String → List (String × PendingApprovalGate C) → Approvals C → Approvals C
  unfolding cancel_gate
  cancel_each instance_id [] s = s
  cancel_each instance_id ((gate_id, gate) ∷ rest) s =
      cancel_each instance_id rest
        (if gate.instance_id == instance_id then (cancel_gate gate_id s).0 else s)

  unfoldable pub cancel_all_for_instance : String → Approvals C → Approvals C
  unfolding cancel_each
  cancel_all_for_instance instance_id s = cancel_each instance_id s.gates s

  unfoldable pub list_pending : Approvals C → List (PendingApprovalGate C)
  list_pending s = keep (λ g. is_pending g.status) (map (λ e. e.1) s.gates)

  unfoldable pub get_gate : String → Approvals C → Option (PendingApprovalGate C)
  unfolding lookup
  get_gate gate_id s = lookup gate_id s.gates

  -- The numbers of pending gates and of all.
  unfoldable pub summary : Approvals C → ℕ × ℕ
  unfolding list_pending
  summary s = (length (list_pending s), length s.gates)

  unfoldable pub start : Approvals C
  start = record { gates = []; timers = []; next_handle = 0 }
