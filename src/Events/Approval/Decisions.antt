-- ===== src/Events/Approval/Decisions.antt =====
-- What a decision and a timeout emit (eyeflow-server/src/events/human-approval.service.ts).
use eyeflow.Common.{◌≡◌, ap, ◌∙◌, none, some, [], ◌∷◌, arith, In}
use eyeflow.Common.Eq.{string_equality}
use eyeflow.Common.JsMap.{lookup, insert, lookup-delete, delete-insert}
use eyeflow.Events.Approval.{
  pending, timed_out, status_of, clear_timeout, PendingApprovalGate, ApprovalResult, ApprovalEvent,
  decided, gate_timed_out, Timer, Approvals, resolve, handle_timeout,
}
use eyeflow.Events.Approval.Timers.{without}
use eyeflow.Events.Approval.Reachable.{Reach, Reach-IsSound, resolve-missing}

module _ {C : Type 0} where
  resolve_pending :
      (f : ApprovalEvent C → Approvals C → Approvals C) (r : ApprovalResult) (s : Approvals C)
      (g : PendingApprovalGate C)
      → lookup r.gate_id s.gates ≡ some g
      → g.status ≡ pending
      → (resolve f r s).1 ≡ decided g.workflow_id r g.context_snapshot ∷ []
  unfolding resolve
  resolve_pending f r s g e p = ground arith

-- After a decision on a pending gate its id is unknown, whatever the subscribers do inside `next`: a
-- gate that a subscriber registers under the same id, in answer to the decision, is deleted too.
pub resolve-deletes :
    {C : Type 0} (f : ApprovalEvent C → Approvals C → Approvals C) (r : ApprovalResult)
    (s : Approvals C) (g : PendingApprovalGate C)
    → lookup r.gate_id s.gates ≡ some g
    → g.status ≡ pending
    → lookup r.gate_id (resolve f r s).0.gates ≡ none
unfolding resolve
resolve-deletes f r s g e p =
    let marked = record s {
      gates = insert r.gate_id (record g { status = status_of r.decision }) s.gates;
      timers = clear_timeout g.timeout_handle s.timers;
    } in
    let after = f (decided g.workflow_id r g.context_snapshot) marked in
    ground (
      arith,
      lookup-delete r.gate_id r.gate_id after.gates,
      string_equality.test_iff r.gate_id r.gate_id,
    )

-- A gate is decided once: the first decision emits one event with the gate's workflow and context,
-- and a second decision on the same gate, whatever it says, emits nothing and changes nothing, if
-- no subscriber calls back into the service. The state is one the service reaches.
pub resolve-resolve :
    {C : Type 0} {s : Approvals C} (r r' : ApprovalResult) (g : PendingApprovalGate C)
    → Reach s
    → lookup r.gate_id s.gates ≡ some g
    → r'.gate_id ≡ r.gate_id
    → let (s', events) = resolve (λ _ a. a) r s in
      (events ≡ decided g.workflow_id r g.context_snapshot ∷ [])
      × (resolve (λ _ a. a) r' s' ≡ (s', []))
resolve-resolve {s} r r' g reach e same =
    let p = ((Reach-IsSound reach).listed r.gate_id g e).0 in
    let s' = (resolve (λ _ a. a) r s).0 in
    (
      resolve_pending (λ _ a. a) r s g e p,
      resolve-missing (λ _ a. a) r' s'
          (ap (λ i. lookup i s'.gates) same ∙ resolve-deletes (λ _ a. a) r s g e p),
    )

-- A timer that fires in a reached state emits exactly one timeout event, for its own gate and with
-- that gate's workflow; the gate leaves the map and the timer is armed no more, if no subscriber
-- calls back into the service.
pub handle_timeout-emits :
    {C : Type 0} {s : Approvals C} (t : Timer)
    → Reach s
    → In t s.timers
    → (g : PendingApprovalGate C) × (lookup t.gate_id s.gates ≡ some g)
      × (handle_timeout (λ _ a. a) t s
          ≡ (without t.gate_id t.handle s, gate_timed_out g.workflow_id t.gate_id t.strategy ∷ []))
unfolding handle_timeout without
handle_timeout-emits {s} t reach m =
    let v = Reach-IsSound reach in
    let (g, e, _) = v.owned t m in
    let p = (v.listed t.gate_id g e).0 in
    (g, e, ground (arith, delete-insert t.gate_id (record g { status = timed_out }) s.gates))
