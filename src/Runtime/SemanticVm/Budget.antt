-- ===== src/Runtime/SemanticVm/Budget.antt =====
-- How many services a run can call: `executeMonolithic` and `handleBoundedLoop` of
-- eyeflow-server/src/runtime/semantic-vm.service.ts.
use eyeflow.Common.{
  ℕ, zero, suc, ◌+◌, ◌-◌, ◌*◌, ◌≤◌, ◌<◌, min, ◌≡◌, refl, ap, inl, inr, String, true, List, [], ◌∷◌,
  arith, length, length-keep, In, get_elem?, In-get_elem?, any, ltb, Bool-cases, Option-cases,
}
use eyeflow.Common.Eq.{◌==◌, nat_equality}
use eyeflow.Compiler.Ir.{LoopOperands, IrInstruction, ResolvedIr, is_loop}
use eyeflow.Runtime.Host.{Host}
use eyeflow.Runtime.SemanticVm.{
  ExecutionContext, Fault, no_instruction, Services, initialize_context, load_inputs, set,
}
use eyeflow.Runtime.SemanticVm.Outcomes.{
  Meets, and_then-Meets, Meets-weaken, Meets-relax, IsOperational,
}
use eyeflow.Runtime.SemanticVm.Effects.{targets, Effect}
use eyeflow.Runtime.SemanticVm.Frame.{execute_instruction-Effect}
use eyeflow.Runtime.SemanticVm.Loops.{
  in_body, body_indices, execute_body, has_converged, time_out, rounds, run_loop,
  handle_bounded_loop,
}
use eyeflow.Runtime.SemanticVm.Programs.{execute_entry, run_order, execute_monolithic}

five_rounds : (k b n : ℕ) → k ≤ 5 → b ≤ n → k * b ≤ 5 * n
five_rounds k b n h l = grind arith

module _ {host : Host} {World : Type 0} (services : Services host World) where
  abbrev Value : Type 0
  Value = host.values.Value

  abbrev Context : Type 0
  Context = ExecutionContext host World

  -- At most `n` calls more than in `c`.
  abbrev Within : ℕ → Context → Context → Type 0
  Within n c d = length d.services_called ≤ length c.services_called + n

  execute_body-Within :
      (ir : ResolvedIr Value) (body : List ℕ) (c : Context)
      → Meets (Within (length body) c) IsOperational (execute_body services ir body c)
  unfolding execute_body
  execute_body-Within ir [] c = omega arith
  execute_body-Within ir (at ∷ rest) c = elim (Option-cases (get_elem? ir.instructions at)) [
    | inl missing ↦ rw (missing, execute_body) tt
    | inr (i, found) ↦
        rw (found, execute_body)
          (and_then-Meets
            (Effect (targets services i) (record c { current_instruction_index = i.index }))
            (Within (suc (length rest)) c) IsOperational _ _
            (execute_instruction-Effect services i _)
            (λ d e.
              let one = e.calls in
              Meets-weaken (Within (length rest) d) (Within (suc (length rest)) c) IsOperational _
                (λ a h. omega arith) (execute_body-Within ir rest d)))
  ]

  time_out-Within :
      (ops : LoopOperands Value) (n : ℕ) (c : Context)
      → Meets (Within n c) IsOperational (time_out services ops c)
  unfolding time_out
  time_out-Within ops n c = elim (Option-cases ops.fallback_instruction) [
    | inl absent ↦ rw (absent, time_out) tt
    | inr (f, given) ↦ rw (given, time_out) (omega arith)
  ]

  rounds-Within :
      (ir : ResolvedIr Value) (ops : LoopOperands Value) (body : List ℕ) (timeout start n : ℕ)
      (c : Context)
      → Meets
          (Within (n * length body) c)
          IsOperational
          (rounds services ir ops body timeout start n c)
  unfolding rounds
  rounds-Within ir ops body timeout start zero c = omega arith
  rounds-Within ir ops body timeout start (suc n) c =
      elim (Bool-cases (ltb timeout ((services.clock c.world).1 - start))) [
        | inl late ↦
            let late_context : Context = record c { world = (services.clock c.world).0 } in
            rw (late, rounds) (time_out-Within ops (suc n * length body) late_context)
        | inr early ↦
            rw (early, rounds)
              (and_then-Meets (Within (length body) c) (Within (suc n * length body) c)
                IsOperational _ _ (execute_body-Within ir body _)
                (λ d h. elim (Bool-cases (has_converged services ops.convergence_predicate d)) [
                  | inl done ↦ rw done (grind arith)
                  | inr again ↦ rw again (
                      Meets-weaken (Within (n * length body) d) (Within (suc n * length body) c)
                        IsOperational _ (λ a k. grind arith)
                        (rounds-Within ir ops body timeout start n d))
                ]))
      ]

  load_inputs-calls :
      (inputs : List (String × Value)) (c : Context)
      → (load_inputs inputs c).services_called ≡ c.services_called
  unfolding load_inputs set
  load_inputs-calls [] c = refl
  load_inputs-calls ((name, value) ∷ inputs) c = load_inputs-calls inputs _

  -- The list of consumed indices plays no part.
  abbrev pub WithinPair : ℕ → Context → List ℕ × Context → Type 0
  WithinPair n c d = Within n c d.1

  pub run_loop-Within :
      (ir : ResolvedIr Value) (ops : LoopOperands Value) (n : ℕ) (c : Context)
      → Meets
          (WithinPair (5 * length ir.instruction_order) c)
          IsOperational
          (run_loop services ir ops n c)
  unfolding run_loop body_indices
  run_loop-Within ir ops n c =
      let N = length ir.instruction_order in
      let body = body_indices services ir ops in
      let short : length body ≤ N =
        length-keep (in_body ops.body_start_index ops.exit_index) ir.instruction_order in
      let product : min n 5 * length body ≤ 5 * N =
        five_rounds (min n 5) (length body) N (omega arith) short in
      and_then-Meets (Within (min n 5 * length body) c) (WithinPair (5 * N) c) IsOperational _ _
        (rounds-Within ir ops body _ _ (min n 5) _) (λ d h. omega arith)

  module _ (G : Fault → Type 0) (relax : (e : Fault) → IsOperational e → G e)
      (ir : ResolvedIr Value)
      (ready : (i : IrInstruction Value)
        → In i ir.instructions
        → is_loop i.opcode ≡ true
        → (c : Context)
        → Meets
            (WithinPair (5 * length ir.instruction_order) c)
            G
            (handle_bounded_loop services ir i c)) where
    execute_entry-Within :
        0 < length ir.instruction_order
        → (i : IrInstruction Value) → In i ir.instructions
        → (processed : List ℕ) (c : Context)
        → Meets
            (WithinPair (5 * length ir.instruction_order) c)
            G
            (execute_entry services ir i processed c)
    unfolding execute_entry
    execute_entry-Within some_entry i m processed c =
        let B = WithinPair (5 * length ir.instruction_order) c in
        elim (Bool-cases (is_loop i.opcode)) [
          | inl looping ↦
              rw (looping, execute_entry)
                (and_then-Meets B B G _ _ (ready i m looping c) (λ d h. h))
          | inr plain ↦
              rw (plain, execute_entry)
                (and_then-Meets (Effect (targets services i) c) B G _ _
                  (Meets-relax (Effect (targets services i) c) IsOperational G _ relax
                    (execute_instruction-Effect services i c))
                  (λ d e. let one = e.calls in omega arith))
        ]

    pub run_order-Within :
        (order processed : List ℕ) (c : Context)
        → length order ≤ length ir.instruction_order
        → Meets
            (Within (length order * (5 * length ir.instruction_order)) c)
            G
            (run_order services ir order processed c)
    unfolding run_order
    run_order-Within [] processed c fits = omega arith
    run_order-Within (at ∷ order) processed c fits =
        let K = 5 * length ir.instruction_order in
        elim (Bool-cases (any (λ p. p == at) processed)) [
          | inl done ↦
              rw (done, run_order)
                (Meets-weaken (Within (length order * K) c) (Within (suc (length order) * K) c) G _
                  (λ a h. grind arith) (run_order-Within order processed c (omega arith)))
          | inr new ↦ elim (Option-cases (get_elem? ir.instructions at)) [
            | inl missing ↦ rw (new, missing, run_order) (relax no_instruction tt)
            | inr (i, found) ↦
                rw (new, found, run_order)
                  (and_then-Meets (WithinPair K c) (Within (suc (length order) * K) c) G _ _
                    (execute_entry-Within (omega arith) i (In-get_elem? i at ir.instructions found)
                      processed _)
                    (λ d h.
                      Meets-weaken (Within (length order * K) d.1)
                        (Within (suc (length order) * K) c) G _ (λ a k. grind arith)
                        (run_order-Within order d.0 d.1 (omega arith))))
          ]
        ]

    -- The calls of the whole run.
    pub execute_monolithic-Within :
        (output_register : ℕ) (user_inputs : List (String × Value)) (world : World)
        → Meets
            (λ r.
              length r.services_called
              ≤ length ir.instruction_order * (5 * length ir.instruction_order))
            G
            (execute_monolithic services ir output_register user_inputs world)
    unfolding execute_monolithic initialize_context
    execute_monolithic-Within output_register user_inputs world =
        let K = length ir.instruction_order * (5 * length ir.instruction_order) in
        let begun : Context = initialize_context (services.clock world).0 in
        let none_yet = ap length (load_inputs-calls user_inputs begun) in
        and_then-Meets (Within K (load_inputs user_inputs begun))
          (λ r. length r.services_called ≤ K) G _ _
          (run_order-Within ir.instruction_order [] (load_inputs user_inputs begun) (omega arith))
          (λ d h. omega arith)

  handle_bounded_loop-Within :
      (ir : ResolvedIr Value) (i : IrInstruction Value) (c : Context)
      → Meets
          (WithinPair (5 * length ir.instruction_order) c)
          (λ e. Unit)
          (handle_bounded_loop services ir i c)
  unfolding handle_bounded_loop
  handle_bounded_loop-Within ir i c = elim (Option-cases i.operands) [
    | inl absent ↦ rw (absent, handle_bounded_loop) tt
    | inr (ops, there) ↦ elim (Option-cases ops.as_loop.max_iterations) [
      | inl unbounded ↦ rw (there, unbounded, handle_bounded_loop) tt
      | inr (n, bounded) ↦
          rw (there, bounded, handle_bounded_loop)
            (Meets-relax (WithinPair (5 * length ir.instruction_order) c) IsOperational (λ e. Unit)
              _ (λ e h. tt) (run_loop-Within ir ops.as_loop n c))
    ]
  ]

  -- A run that ends without exception has called services at most five times the square of the
  -- number of entries of the instruction order, whatever the LOOP instructions ask for.
  pub execute_monolithic-services_called :
      (ir : ResolvedIr Value) (output_register : ℕ) (user_inputs : List (String × Value))
      (world : World)
      → Meets
          (λ r.
            length r.services_called
            ≤ length ir.instruction_order * (5 * length ir.instruction_order))
          (λ e. Unit)
          (execute_monolithic services ir output_register user_inputs world)
  execute_monolithic-services_called ir =
      execute_monolithic-Within (λ e. Unit) (λ e h. tt) ir
        (λ i m looping c. handle_bounded_loop-Within ir i c)
