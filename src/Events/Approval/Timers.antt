-- ===== src/Events/Approval/Timers.antt =====
-- Gates and their timers (eyeflow-server/src/events/human-approval.service.ts), where no subscriber
-- calls back into the service.
use eyeflow.Common.{
  ℕ, ◌<◌, ◌≡◌, ◌≢◌, ◌↔◌, refl, sym, ◌∙◌, inl, inr, String, not, none, some, List, arith, In,
  In-keep, Option-cases, nat_eq, Bool-cases,
}
use eyeflow.Common.Eq.{◌==◌, string_equality}
use eyeflow.Common.JsMap.{lookup, delete, lookup-insert, lookup-delete}
use eyeflow.Events.Approval.{
  pending, HumanApprovalGateDescriptor, PendingApprovalGate, Timer, Approvals, clear_timeout,
  cancel_gate, open_gate,
}

In-clear_timeout :
    (h : ℕ) (t : Timer) (ts : List Timer) → In t (clear_timeout h ts) ↔ (In t ts × (t.handle ≢ h))
unfolding clear_timeout
In-clear_timeout h t ts =
    let k = In-keep (λ u. not (nat_eq u.handle h)) t ts in
    (
      λ m. ((k.0 m).0, let e = (k.0 m).1 in ground arith),
      λ m. k.1 (m.0, let e = m.1 in ground arith),
    )

module _ {C : Type 0} where
  -- Every armed timer belongs to a pending gate of the map, every gate of the map is pending and
  -- has its timer armed, and no two gates share one.
  pub record IsSound (s : Approvals C) : Type 0 where
    pub owned :
        (t : Timer)
        → In t s.timers
        → (g : PendingApprovalGate C) × (lookup t.gate_id s.gates ≡ some g)
          × (g.timeout_handle ≡ t.handle)
    pub listed :
        (i : String) (g : PendingApprovalGate C)
        → lookup i s.gates ≡ some g
        → (g.status ≡ pending) × (g.timeout_handle < s.next_handle)
    pub armed :
        (i : String) (g : PendingApprovalGate C)
        → lookup i s.gates ≡ some g
        → (t : Timer) × In t s.timers × (t.gate_id ≡ i) × (t.handle ≡ g.timeout_handle)
    pub apart :
        (i j : String) (g h : PendingApprovalGate C)
        → lookup i s.gates ≡ some g
        → lookup j s.gates ≡ some h
        → g.timeout_handle ≡ h.timeout_handle
        → i ≡ j

  -- The map and the timers without one gate and its timer.
  unfoldable pub without : String → ℕ → Approvals C → Approvals C
  without i h s = record s { gates = delete i s.gates; timers = clear_timeout h s.timers }

  lookup-without :
      (i j : String) (g : PendingApprovalGate C) (m : List (String × PendingApprovalGate C))
      → lookup j (delete i m) ≡ some g
      → (lookup j m ≡ some g) × (i ≢ j)
  lookup-without i j g m e = ground (arith, lookup-delete i j m, string_equality.test_iff i j)

  pub without-IsSound :
      (i : String) (g : PendingApprovalGate C) (s : Approvals C)
      → lookup i s.gates ≡ some g
      → IsSound s
      → IsSound (without i g.timeout_handle s)
  unfolding without
  without-IsSound i g s at_i v = record {
    owned = λ t m.
        let (old, other) = (In-clear_timeout g.timeout_handle t s.timers).0 m in
        let (h, at_h, same) = v.owned t old in
        (
          h,
          ground (arith, lookup-delete i t.gate_id s.gates, string_equality.test_iff i t.gate_id),
          same,
        );
    listed = λ j h e. v.listed j h (lookup-without i j h s.gates e).0;
    armed = λ j h e.
        let (old, different) = lookup-without i j h s.gates e in
        let (t, m, of_j, same) = v.armed j h old in
        (
          t,
          (In-clear_timeout g.timeout_handle t s.timers).1
              (m, λ clash. different (v.apart i j g h at_i old (sym clash ∙ same))),
          of_j,
          same,
        );
    apart = λ j k h l ej ek.
        v.apart j k h l (lookup-without i j h s.gates ej).0 (lookup-without i k l s.gates ek).0;
  }

  pub cancel_gate-IsSound : (i : String) (s : Approvals C) → IsSound s → IsSound (cancel_gate i s).0
  unfolding cancel_gate without
  cancel_gate-IsSound i s v = elim (Option-cases (lookup i s.gates)) [
    | inl missing ↦ rw (missing, cancel_gate) v
    | inr (g, e) ↦ rw (e, cancel_gate) (without-IsSound i g s e v)
  ]

  pub cancel_gate-missing :
      (i : String) (s : Approvals C) → lookup i (cancel_gate i s).0.gates ≡ none
  unfolding cancel_gate
  cancel_gate-missing i s = ground (arith, lookup-delete i i s.gates, string_equality.test_iff i i)

  pub open_gate-IsSound :
      (now : ℕ) (d : HumanApprovalGateDescriptor) (i m w : String) (c : List (String × C))
      (s : Approvals C)
      → lookup d.gate_id s.gates ≡ none
      → IsSound s
      → IsSound (open_gate now d i m w c s).0
  unfolding open_gate
  open_gate-IsSound now d i m w c s absent v =
      let g = (open_gate now d i m w c s).1 in
      let at = λ (j : String). lookup-insert d.gate_id j g s.gates in
      let same = λ (j : String). string_equality.test_iff d.gate_id j in
      record {
        owned = λ t m. elim m [
          | inl new ↦ (g, ground (arith, at t.gate_id, same t.gate_id), ground arith)
          | inr old ↦
              let (h, e, same_h) = v.owned t old in
              (h, ground (arith, at t.gate_id, same t.gate_id), same_h)
        ];
        listed = λ j h e. ground (arith, at j, same j, v.listed j h);
        armed = λ j h e. elim (Bool-cases (d.gate_id == j)) [
          | inl here ↦ (
            record { handle = s.next_handle; gate_id = d.gate_id; strategy = d.on_timeout },
            inl refl,
            (same j).0 here,
            ground (arith, at j),
          )
          | inr elsewhere ↦
              let (t, m, of_j, same_t) = v.armed j h (ground (arith, at j)) in
              (t, inr m, of_j, same_t)
        ];
        apart = λ j k h l ej ek clash.
            ground (arith, at j, at k, same j, same k, v.listed j h, v.listed k l, v.apart j k h l);
      }
