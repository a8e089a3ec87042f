-- ===== src/Events/Approval/Examples.antt =====
-- Small runs of the approval service (eyeflow-server/src/events/human-approval.service.ts).
use eyeflow.Common.{ℕ, ◌≡◌, refl, none, some, [], ◌∷◌, In, inl}
use eyeflow.Common.Eq.{string_equality}
use eyeflow.Common.JsMap.{lookup}
use eyeflow.Events.Approval.{
  pending, approve, reject, HumanApprovalGateDescriptor, PendingApprovalGate, ApprovalResult,
  ApprovalEvent, decided, gate_timed_out, Timer, Approvals, register_gate, resolve, handle_timeout,
  start,
}
use eyeflow.Events.Approval.Timers.{IsSound, without}
use eyeflow.Events.Approval.Reachable.{Step, Reach, Reach-IsSound}
use eyeflow.Events.Approval.Decisions.{resolve-deletes, resolve-resolve, handle_timeout-emits}

abbrev request : HumanApprovalGateDescriptor
request = record {
  gate_id = "g";
  assignee_rule = "role:doctor";
  timeout_ms = 50;
  on_timeout = some "ABORT";
  context_to_show = [];
  description = none;
}

abbrev opened : Approvals ℕ × PendingApprovalGate ℕ
opened = register_gate 10 request "i" "m" "w" [] start

abbrev waiting : Approvals ℕ
waiting = opened.0

waiting-Reach : Reach waiting
waiting-Reach = Reach.next Reach.here (Step.registered 10 request "i" "m" "w" [])

waiting-IsSound : IsSound waiting
waiting-IsSound = Reach-IsSound waiting-Reach

waiting_lookup : lookup "g" waiting.gates ≡ some opened.1
unfolding register_gate start
waiting_lookup = refl

abbrev yes : ApprovalResult
yes = record {
  gate_id = "g";
  decision = approve;
  decided_by = "ana";
  decided_at = "today";
  comment = none;
}

abbrev no_way : ApprovalResult
no_way = record yes { decision = reject }

approved_once :
    let (s', events) = resolve (λ _ a. a) yes waiting in
    (events ≡ decided opened.1.workflow_id yes opened.1.context_snapshot ∷ [])
    × (resolve (λ _ a. a) no_way s' ≡ (s', []))
approved_once = resolve-resolve yes no_way opened.1 waiting-Reach waiting_lookup refl

-- A subscriber that answers a decision by opening a gate of the same id.
abbrev again : ApprovalEvent ℕ → Approvals ℕ → Approvals ℕ
again e s = (register_gate 20 request "i" "m" "w" [] s).0

waiting_pending : opened.1.status ≡ pending
unfolding register_gate
waiting_pending = refl

reopened_lost : lookup "g" (resolve again yes waiting).0.gates ≡ none
reopened_lost = resolve-deletes again yes waiting opened.1 waiting_lookup waiting_pending

abbrev timer : Timer
timer = record { handle = 0; gate_id = "g"; strategy = some "ABORT" }

timer_armed : In timer waiting.timers
unfolding register_gate start
timer_armed = inl refl

timed_out_once :
    (g : PendingApprovalGate ℕ) × (lookup "g" waiting.gates ≡ some g)
    × (handle_timeout (λ _ a. a) timer waiting
        ≡ (without "g" 0 waiting, gate_timed_out g.workflow_id "g" (some "ABORT") ∷ []))
timed_out_once = handle_timeout-emits timer waiting-Reach timer_armed
