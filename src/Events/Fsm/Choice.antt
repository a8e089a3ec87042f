-- ===== src/Events/Fsm/Choice.antt =====
-- Which transition a running instance takes on an event: `evaluateInstance` of
-- eyeflow-server/src/events/event-state-machine.service.ts.
use mathlib.Core.Path.{subst}
use mathlib.Core.Bool.{false≢true}
use eyeflow.Common.{
  ℕ, ◌≤◌, ◌≡◌, ◌↔◌, refl, sym, ap, ◌∙◌, ◌⊎◌, inl, inr, Bool, true, false, not, ◌&&◌, ◌||◌, none,
  some, List, [], ◌∷◌, arith, In, In-keep, keep, leb, Bool-cases,
}
use eyeflow.Common.Json.{Engine}
use eyeflow.Events.Correlation.{Windows, is_window_active}
use eyeflow.Events.Condition.{TriggerEvent, condition_matches}
use eyeflow.Events.Fsm.{
  EventTransition, EventStateMachineDescriptor, FsmRuntimeState, is_within, priority_of,
}
use eyeflow.Events.Fsm.Processing.{
  insert_by_priority, sort_by_priority, leaves, first_passing, choose_transition,
}

module _ (js : Engine) where
  -- The condition matches, and a transition that wants the window finds it active.
  abbrev pub passes :
      ℕ → FsmRuntimeState js.Num → TriggerEvent js.Num → Windows → EventTransition js.Num → Bool
  passes now i event ws t =
      condition_matches js t.condition event i.step_outputs
      && (not (is_within t.guard) || is_window_active now i.instance_id ws)

  abbrev AllIn : (EventTransition js.Num → Type 0) → List (EventTransition js.Num) → Type 0
  AllIn P ts = (u : EventTransition js.Num) → In u ts → P u

  abbrev IsSorted : List (EventTransition js.Num) → Type 0
  IsSorted [] = Unit
  IsSorted (t ∷ ts) = AllIn (λ u. priority_of t ≤ priority_of u) ts × IsSorted ts

  In-insert_by_priority :
      (t u : EventTransition js.Num) (ts : List (EventTransition js.Num))
      → In u (insert_by_priority js t ts) ↔ ((u ≡ t) ⊎ In u ts)
  unfolding insert_by_priority
  In-insert_by_priority t u [] = (λ m. m, λ m. m)
  In-insert_by_priority t u (v ∷ vs) = elim (Bool-cases (leb (priority_of t) (priority_of v))) [
    | inl before ↦ rw before (λ m. m, λ m. m)
    | inr after ↦
        let ih = In-insert_by_priority t u vs in
        rw after (
          λ m. elim m [
            | inl here ↦ inr (inl here)
            | inr there ↦ elim (ih.0 there) [ inl new ↦ inl new | inr old ↦ inr (inr old) ]
          ],
          λ m. elim m [
            | inl new ↦ inr (ih.1 (inl new))
            | inr old ↦ elim old [ inl here ↦ inl here | inr there ↦ inr (ih.1 (inr there)) ]
          ],
        )
  ]

  In-sort_by_priority :
      (u : EventTransition js.Num) (ts : List (EventTransition js.Num))
      → In u (sort_by_priority js ts) ↔ In u ts
  unfolding sort_by_priority
  In-sort_by_priority u [] = (λ m. m, λ m. m)
  In-sort_by_priority u (t ∷ ts) =
      let (to, from) = In-insert_by_priority t u (sort_by_priority js ts) in
      let ih = In-sort_by_priority u ts in
      (
        λ m. elim (to m) [ inl here ↦ inl here | inr there ↦ inr (ih.0 there) ],
        λ m. from (elim m [ inl here ↦ inl here | inr there ↦ inr (ih.1 there) ]),
      )

  insert_by_priority-IsSorted :
      (t : EventTransition js.Num) (ts : List (EventTransition js.Num))
      → IsSorted ts
      → IsSorted (insert_by_priority js t ts)
  unfolding insert_by_priority
  insert_by_priority-IsSorted t [] h = (λ u m. elim m [ ], tt)
  insert_by_priority-IsSorted t (v ∷ vs) h =
      elim (Bool-cases (leb (priority_of t) (priority_of v))) [
        | inl before ↦ rw before (
          λ u m. elim m [
            | inl here ↦ ground arith
            | inr there ↦ let le = h.0 u there in ground arith
          ],
          h,
        )
        | inr after ↦ rw after (
          λ u m. elim ((In-insert_by_priority t u vs).0 m) [
            | inl new ↦ ground arith
            | inr old ↦ h.0 u old
          ],
          insert_by_priority-IsSorted t vs h.1,
        )
      ]

  sort_by_priority-IsSorted :
      (ts : List (EventTransition js.Num)) → IsSorted (sort_by_priority js ts)
  unfolding sort_by_priority
  sort_by_priority-IsSorted [] = tt
  sort_by_priority-IsSorted (t ∷ ts) =
      insert_by_priority-IsSorted t (sort_by_priority js ts) (sort_by_priority-IsSorted ts)

  module _ (now : ℕ) (i : FsmRuntimeState js.Num) (event : TriggerEvent js.Num) (ws : Windows) where
    first_passing-some :
        (t : EventTransition js.Num) (ts : List (EventTransition js.Num))
        → IsSorted ts
        → first_passing js now i event ws ts ≡ some t
        → In t ts
          × (passes now i event ws t ≡ true)
          × AllIn (λ u. passes now i event ws u ≡ true → priority_of t ≤ priority_of u) ts
    unfolding first_passing
    first_passing-some t [] h e = cc
    first_passing-some t (v ∷ vs) h e = elim (Bool-cases (passes now i event ws v)) [
      | inl ok ↦
          let found : some v ≡ some t = rw ok at e in
          let same : v ≡ t = cc in
          subst
            (λ x.
              In x (v ∷ vs)
              × (passes now i event ws x ≡ true)
              × AllIn (λ u. passes now i event ws u ≡ true → priority_of x ≤ priority_of u)
                  (v ∷ vs))
            same
            (inl refl, ok, λ u m p. elim m [ inl here ↦ ground arith | inr there ↦ h.0 u there ])
      | inr skip ↦
          let (m, p, least) = first_passing-some t vs h.1 (rw skip at e) in
          (
            inr m,
            p,
            λ u mu pu. elim mu [
              | inl here ↦
                  absurd (false≢true (sym skip ∙ sym (ap (passes now i event ws) here) ∙ pu))
              | inr there ↦ least u there pu
            ],
          )
    ]

    first_passing-none :
        (ts : List (EventTransition js.Num))
        → first_passing js now i event ws ts ≡ none
        → AllIn (λ u. passes now i event ws u ≡ false) ts
    unfolding first_passing
    first_passing-none [] e = λ u m. elim m [ ]
    first_passing-none (v ∷ vs) e = elim (Bool-cases (passes now i event ws v)) [
      | inl ok ↦ let clash = rw ok at e in cc
      | inr skip ↦ λ u m. elim m [
        | inl here ↦ ap (passes now i event ws) here ∙ skip
        | inr there ↦ first_passing-none vs (rw skip at e) u there
      ]
    ]

-- The transition that an event makes a running instance take leaves the instance's state, is not
-- timer-driven, matches, finds the window active if it wants one, and no transition with these
-- properties has a smaller priority.
pub choose_transition-some :
    (js : Engine) (now : ℕ) (i : FsmRuntimeState js.Num) (d : EventStateMachineDescriptor js.Num)
    (event : TriggerEvent js.Num) (ws : Windows) (t : EventTransition js.Num)
    → choose_transition js now i d event ws ≡ some t
    → In t d.transitions
      × (leaves js i.current_state t ≡ true)
      × (passes js now i event ws t ≡ true)
      × ((u : EventTransition js.Num)
          → In u d.transitions
          → leaves js i.current_state u ≡ true
          → passes js now i event ws u ≡ true
          → priority_of t ≤ priority_of u)
unfolding choose_transition
choose_transition-some js now i d event ws t e =
    let candidates = keep (leaves js i.current_state) d.transitions in
    let (m, p, least) =
      first_passing-some js now i event ws t (sort_by_priority js candidates)
        (sort_by_priority-IsSorted js candidates) e in
    let kept =
      (In-keep (leaves js i.current_state) t d.transitions).0
        ((In-sort_by_priority js t candidates).0 m) in
    (
      kept.0,
      kept.1,
      p,
      λ u mu lu pu.
          least u
            ((In-sort_by_priority js u candidates).1
              ((In-keep (leaves js i.current_state) u d.transitions).1 (mu, lu)))
            pu,
    )

-- An event leaves a running instance alone only if no transition that leaves its state on events
-- both matches and finds the window that it wants.
pub choose_transition-none :
    (js : Engine) (now : ℕ) (i : FsmRuntimeState js.Num) (d : EventStateMachineDescriptor js.Num)
    (event : TriggerEvent js.Num) (ws : Windows) (u : EventTransition js.Num)
    → choose_transition js now i d event ws ≡ none
    → In u d.transitions
    → leaves js i.current_state u ≡ true
    → passes js now i event ws u ≡ false
unfolding choose_transition
choose_transition-none js now i d event ws u e m l =
    let candidates = keep (leaves js i.current_state) d.transitions in
    first_passing-none js now i event ws (sort_by_priority js candidates) e u (
      (In-sort_by_priority js u candidates).1
        ((In-keep (leaves js i.current_state) u d.transitions).1 (m, l)))
