-- ===== src/Events/Fsm/Expiry.antt =====
-- The end of an instance: reset, full match and expiry of its window, in
-- eyeflow-server/src/events/event-state-machine.service.ts.
use mathlib.Core.Path.{subst}
use eyeflow.Common.{
  ℕ, ◌≡◌, ◌≢◌, refl, sym, ap, ◌∙◌, inl, inr, String, Bool, true, false, not, none, some, List, [],
  ◌∷◌, ◌++◌, arith, In, In-keep, any-In, Option-cases, if◌then◌else◌, append_assoc,
}
use eyeflow.Common.Eq.{◌==◌, string_equality}
use eyeflow.Common.JsMap.{lookup, lookup-insert}
use eyeflow.Common.Json.{Engine}
use eyeflow.Events.Correlation.{cancel_window, expire_window, remaining_ms}
use eyeflow.Events.Correlation.Laws.{lookup-cancel_window}
use eyeflow.Events.Fsm.{
  propagate_enriched, EventStateMachineDescriptor, FsmRuntimeState, PropagatedEvent, removed,
  propagated, DeployedFsm, EventStateMachines,
}
use eyeflow.Events.Fsm.Actions.{
  modify, forget, drop_instance, reset_instance, build_propagated_event, propagate,
}
use eyeflow.Events.Fsm.Execution.{execute_action, execute_actions}
use eyeflow.Events.Fsm.Lifecycle.{elapsed_actions, handle_window_expiry}

-- No window is left for the instance, and its machine runs it no more.
pub record IsGone {N : Type 0} (machine id : String) (s : EventStateMachines N) : Type 0 where
  pub no_window : lookup id s.windows ≡ none
  pub not_running : (e : DeployedFsm N) → lookup machine s.deployed ≡ some e → ¬ (In id e.instances)

not-In-forget : (id : String) (ids : List String) → ¬ (In id (forget id ids))
unfolding forget
not-In-forget id ids m =
    let kept = ((In-keep (λ i. not (i == id)) id ids).0 m).1 in
    ground (arith, string_equality.test_iff id id)

module _ {N : Type 0} where
  pub drop_instance_other :
      (machine id other : String) (ds : List (String × DeployedFsm N))
      → machine ≢ other
      → lookup other (drop_instance machine id ds) ≡ lookup other ds
  unfolding drop_instance
  drop_instance_other machine id other ds h = elim (Option-cases (lookup machine ds)) [
    | inl absent ↦ rw (absent, drop_instance)
    | inr (d, e) ↦
        rw (e, drop_instance)
          (lookup-insert machine other (record d { instances = forget id d.instances }) ds
            ∙ ap
                (λ b.
                  if b
                  then some (record d { instances = forget id d.instances })
                  else lookup other ds)
                {x = machine == other} {y = false}
                (let iff = string_equality.test_iff machine other in ground arith))
  ]

  drop_instance_self :
      (machine id : String) (ds : List (String × DeployedFsm N)) (e : DeployedFsm N)
      → lookup machine (drop_instance machine id ds) ≡ some e
      → ¬ (In id e.instances)
  unfolding drop_instance
  drop_instance_self machine id ds e h m = elim (Option-cases (lookup machine ds)) [
    | inl absent ↦ let clash = rw (absent, drop_instance) at h in cc
    | inr (d, at) ↦
        let found : some (record d { instances = forget id d.instances }) ≡ some e = ground (
          arith,
          lookup-insert machine machine (record d { instances = forget id d.instances }) ds,
          string_equality.test_iff machine machine,
        ) in
        let same : forget id d.instances ≡ e.instances = cc in
        not-In-forget id d.instances (subst (In id) (sym same) m)
  ]

  reset_instance-IsGone :
      (machine id : String) (s : EventStateMachines N)
      → IsGone machine id (reset_instance machine id s)
  unfolding reset_instance
  reset_instance-IsGone machine id s = record {
    no_window =
        lookup-cancel_window id id s.windows
        ∙ ap (λ b. if b then none else lookup id s.windows)
            ((string_equality.test_iff id id).1 refl);
    not_running = λ e h. drop_instance_self machine id s.deployed e h;
  }

-- When the window of a running instance ends, the instance ends, whatever state it was in and
-- whatever the WINDOW_ELAPSED transitions do: afterwards it has no window and does not run. The
-- machine is keyed by its own id and the instance is an object of the heap.
pub handle_window_expiry-IsGone :
    (js : Engine) (sign : String → PropagatedEvent js.Num → String) (now : ℕ) (id machine : String)
    (s : EventStateMachines js.Num) (entry : DeployedFsm js.Num) (i : FsmRuntimeState js.Num)
    → lookup machine s.deployed ≡ some entry
    → entry.descriptor.machine_id ≡ machine
    → In id entry.instances
    → lookup id s.heap ≡ some i
    → IsGone machine id (handle_window_expiry js sign now id machine s)
unfolding handle_window_expiry
handle_window_expiry-IsGone js sign now id machine s entry i at_machine keyed running at_heap =
    subst (λ m. IsGone m id (handle_window_expiry js sign now id machine s)) keyed
      (rw
        (
          at_machine,
          any-In (λ j. j == id) id entry.instances running
              ((string_equality.test_iff id id).1 refl),
          at_heap,
          handle_window_expiry,
        )
        (reset_instance-IsGone entry.descriptor.machine_id id (
          execute_actions js sign now id entry.descriptor
            (elapsed_actions js i.current_state entry.descriptor.transitions)
            (modify id
              (λ j. record j {
                current_state = entry.descriptor.expired_state;
                last_transition_at = now;
              })
              (record s { windows = expire_window id s.windows })))))

build_propagated_event-satisfaction :
    {N : Type 0} (sign : String → PropagatedEvent N → String) (now : ℕ) (i : FsmRuntimeState N)
    (d : EventStateMachineDescriptor N) (s : EventStateMachines N)
    → (build_propagated_event sign now i d true s).satisfaction ≡ (1, 1)
unfolding build_propagated_event
build_propagated_event-satisfaction sign now i d s = ground arith

build_propagated_event-remaining_ms :
    {N : Type 0} (sign : String → PropagatedEvent N → String) (now : ℕ) (i : FsmRuntimeState N)
    (d : EventStateMachineDescriptor N) (is_full : Bool) (s : EventStateMachines N)
    → lookup i.instance_id s.windows ≡ none
    → (build_propagated_event sign now i d is_full s).remaining_ms ≡ 0
unfolding build_propagated_event remaining_ms
build_propagated_event-remaining_ms sign now i d is_full s none_left = ground arith

-- PROPAGATE_ENRICHED on an instance of the heap, stored under its own id: afterwards the instance has
-- no window and its machine runs it no more, and the effects are those before, one propagated event
-- with satisfaction 1 and no time left on the window, and then the removal from the repository.
pub propagate_enriched-effects :
    (js : Engine) (sign : String → PropagatedEvent js.Num → String) (now : ℕ) (id : String)
    (d : EventStateMachineDescriptor js.Num) (s : EventStateMachines js.Num)
    (i : FsmRuntimeState js.Num)
    → lookup id s.heap ≡ some i
    → i.instance_id ≡ id
    → let s' = execute_action js sign now id d propagate_enriched s in
      IsGone d.machine_id id s'
      × ((e : PropagatedEvent js.Num) × (s'.effects
            ≡ s.effects ++ propagated e ∷ removed id d.machine_id ∷ [])
          × (e.satisfaction ≡ (1, 1))
          × (e.remaining_ms ≡ 0))
unfolding execute_action propagate reset_instance
propagate_enriched-effects js sign now id d s i at_heap own =
    let cancelled = record s { windows = (cancel_window id s.windows).0 } in
    let no_window : lookup id cancelled.windows ≡ none =
      ground (arith, lookup-cancel_window id id s.windows, string_equality.test_iff id id) in
    let none_left : lookup i.instance_id cancelled.windows ≡ none =
      ap (λ j. lookup j cancelled.windows) own ∙ no_window in
    (
      reset_instance-IsGone d.machine_id id (propagate sign now id d true cancelled),
      (
        build_propagated_event sign now i d true cancelled,
        rw (at_heap, propagate) (append_assoc s.effects _ _),
        build_propagated_event-satisfaction sign now i d cancelled,
        build_propagated_event-remaining_ms sign now i d true cancelled none_left,
      ),
    )
