-- ===== src/Events/Approval/Reachable.antt =====
-- The gates and timers that the service can reach
-- (eyeflow-server/src/events/human-approval.service.ts), where no subscriber calls back into it.
use mathlib.Core.Path.{subst}
use eyeflow.Common.{
  ℕ, ◌≡◌, sym, ap, ◌∙◌, inl, inr, String, none, some, List, [], ◌∷◌, arith, In, Option-cases,
  Bool-cases,
}
use eyeflow.Common.Eq.{◌==◌, string_equality}
use eyeflow.Common.JsMap.{lookup, delete-insert}
use eyeflow.Events.Approval.{
  pending, timed_out, status_of, HumanApprovalGateDescriptor, PendingApprovalGate, ApprovalResult,
  Timer, Approvals, ApprovalEvent, cancel_gate, register_gate, resolve, handle_timeout, cancel_each,
  cancel_all_for_instance, start,
}
use eyeflow.Events.Approval.Timers.{
  IsSound, without, without-IsSound, cancel_gate-IsSound, cancel_gate-missing, open_gate-IsSound,
}

module _ {C : Type 0} where
  -- With no subscriber, a decision and a timeout remove the gate and its timer.
  pub resolve-without :
      (r : ApprovalResult) (s : Approvals C) (g : PendingApprovalGate C)
      → lookup r.gate_id s.gates ≡ some g
      → g.status ≡ pending
      → (resolve (λ _ a. a) r s).0 ≡ without r.gate_id g.timeout_handle s
  unfolding resolve without
  resolve-without r s g e p =
      ground (arith, delete-insert r.gate_id (record g { status = status_of r.decision }) s.gates)

  pub handle_timeout-without :
      (t : Timer) (s : Approvals C) (g : PendingApprovalGate C)
      → lookup t.gate_id s.gates ≡ some g
      → g.status ≡ pending
      → (handle_timeout (λ _ a. a) t s).0 ≡ without t.gate_id t.handle s
  unfolding handle_timeout without
  handle_timeout-without t s g e p =
      ground (arith, delete-insert t.gate_id (record g { status = timed_out }) s.gates)

  pub resolve-missing :
      (f : ApprovalEvent C → Approvals C → Approvals C) (r : ApprovalResult) (s : Approvals C)
      → lookup r.gate_id s.gates ≡ none
      → resolve f r s ≡ (s, [])
  unfolding resolve
  resolve-missing f r s missing = rw (missing, resolve)

  resolve-IsSound :
      (r : ApprovalResult) (s : Approvals C) → IsSound s → IsSound (resolve (λ _ a. a) r s).0
  resolve-IsSound r s v = elim (Option-cases (lookup r.gate_id s.gates)) [
    | inl missing ↦ subst IsSound (sym (ap (λ p. p.0) (resolve-missing (λ _ a. a) r s missing))) v
    | inr (g, e) ↦
        subst IsSound (sym (resolve-without r s g e (v.listed r.gate_id g e).0))
          (without-IsSound r.gate_id g s e v)
  ]

  handle_timeout-IsSound :
      (t : Timer) (s : Approvals C)
      → In t s.timers
      → IsSound s
      → IsSound (handle_timeout (λ _ a. a) t s).0
  handle_timeout-IsSound t s m v =
      let (g, e, same) = v.owned t m in
      subst IsSound
        (sym (
          handle_timeout-without t s g e (v.listed t.gate_id g e).0
          ∙ ap (λ h. without t.gate_id h s) (sym same)))
        (without-IsSound t.gate_id g s e v)

  cancel_each-IsSound :
      (i : String) (gs : List (String × PendingApprovalGate C)) (s : Approvals C)
      → IsSound s
      → IsSound (cancel_each i gs s)
  unfolding cancel_each
  cancel_each-IsSound i [] s v = v
  cancel_each-IsSound i ((k, g) ∷ gs) s v = elim (Bool-cases (g.instance_id == i)) [
    | inl mine ↦ rw mine (cancel_each-IsSound i gs (cancel_gate k s).0 (cancel_gate-IsSound k s v))
    | inr other ↦ rw other (cancel_each-IsSound i gs s v)
  ]

  -- The calls of the service, and a timer that fires.
  pub data Step (s : Approvals C) : Approvals C → Type 0 where
    registered :
        (now : ℕ) (d : HumanApprovalGateDescriptor) (i m w : String) (c : List (String × C))
        → Step s (register_gate now d i m w c s).0
    resolved : (r : ApprovalResult) → Step s (resolve (λ _ a. a) r s).0
    fired : (t : Timer) → In t s.timers → Step s (handle_timeout (λ _ a. a) t s).0
    cancelled : (i : String) → Step s (cancel_gate i s).0
    reset : (i : String) → Step s (cancel_all_for_instance i s)

  pub data Reach : Approvals C → Type 0 where
    here : Reach start
    next : {s t : Approvals C} → Reach s → Step s t → Reach t

  Step-IsSound : {s t : Approvals C} → IsSound s → Step s t → IsSound t
  unfolding register_gate cancel_all_for_instance
  Step-IsSound {s} v (registered now d i m w c) =
      open_gate-IsSound now d i m w c (cancel_gate d.gate_id s).0 (cancel_gate-missing d.gate_id s)
        (cancel_gate-IsSound d.gate_id s v)
  Step-IsSound {s} v (resolved r) = resolve-IsSound r s v
  Step-IsSound {s} v (fired t m) = handle_timeout-IsSound t s m v
  Step-IsSound {s} v (cancelled i) = cancel_gate-IsSound i s v
  Step-IsSound {s} v (reset i) = cancel_each-IsSound i s.gates s v

  start-IsSound : IsSound {C = C} start
  unfolding start lookup
  start-IsSound = record {
    owned = λ t m. elim m [ ];
    listed = λ i g e. cc;
    armed = λ i g e. cc;
    apart = λ i j g h e f c. cc;
  }

-- Over every sequence of registrations (also of a known id), decisions, cancellations, resets and
-- timers that fire, if no subscriber calls back into the service: an armed timer always belongs to a gate of the map, every gate there is pending
-- with its own timer armed, and no two gates share one.
pub Reach-IsSound : {C : Type 0} {s : Approvals C} → Reach s → IsSound s
Reach-IsSound here = start-IsSound
Reach-IsSound (next r step) = Step-IsSound (Reach-IsSound r) step
