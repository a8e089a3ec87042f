-- ===== src/Runtime/SemanticVm/Unsteered.antt =====
-- A program with other targets runs alike: `executeMonolithic` of
-- eyeflow-server/src/runtime/semantic-vm.service.ts.
use eyeflow.Common.{
  ℕ, zero, suc, ◌-◌, ◌≡◌, refl, sym, ap, ◌∙◌, inl, inr, String, Bool, true, false, Option, none,
  some, List, [], ◌∷◌, ◌++◌, length, get_elem?, any, ltb, min, or_else, Bool-cases, Option-cases,
  if◌then◌else◌,
}
use eyeflow.Common.Eq.{◌==◌, nat_equality}
use eyeflow.Compiler.Ir.{LoopOperands, Operands, IrInstruction, ResolvedIr, is_loop}
use eyeflow.Runtime.Host.{Host, get}
use eyeflow.Runtime.SemanticVm.{
  ExecutionContext, Outcome, ok, Services, initialize_context, load_inputs,
}
use eyeflow.Runtime.SemanticVm.Loops.{
  body_indices, execute_body, has_converged, time_out, rounds, run_loop, handle_bounded_loop,
}
use eyeflow.Runtime.SemanticVm.Programs.{
  ExecutionResult, execute_entry, run_order, execute_monolithic,
}
use eyeflow.Runtime.SemanticVm.Steering.{
  map_outcome, and_then-agree, map_outcome-same, get_elem?-map, steer_fallback, steer_loop,
  steer_operands, steer_instruction, steer, unplaced, placed, execute_instruction-steer,
  execute_body-steer,
}

module _ {host : Host} {World : Type 0} (services : Services host World) (fallback : ℕ)
    (target : Option ℕ) where
  abbrev Value : Type 0
  Value = host.values.Value

  abbrev Context : Type 0
  Context = ExecutionContext host World

  time_out-steer :
      (ops : LoopOperands Value) (c : Context)
      → map_outcome unplaced (time_out services (steer_loop fallback target ops) c)
        ≡ map_outcome unplaced (time_out services ops c)
  unfolding time_out
  time_out-steer ops c = go ops.fallback_instruction
    where
      go :
          (f : Option ℕ)
          → map_outcome unplaced (
              time_out services (record ops { fallback_instruction = steer_fallback fallback f }) c)
            ≡ map_outcome unplaced (time_out services (record ops { fallback_instruction = f }) c)
      go none = refl
      go (some f) = refl

  converge-agree :
      (b : Bool) (d : Context) (o o' : Outcome Context)
      → map_outcome unplaced o ≡ map_outcome unplaced o'
      → map_outcome unplaced (if b then ok d else o) ≡ map_outcome unplaced (if b then ok d else o')
  converge-agree true d o o' h = refl
  converge-agree false d o o' h = h

  rounds-steer :
      (ir : ResolvedIr Value) (ops : LoopOperands Value) (body : List ℕ) (timeout start n : ℕ)
      (c : Context)
      → map_outcome unplaced (
          rounds services
            (steer fallback target ir)
            (steer_loop fallback target ops)
            body
            timeout
            start
            n
            c)
        ≡ map_outcome unplaced (rounds services ir ops body timeout start n c)
  unfolding rounds
  rounds-steer ir ops body timeout start zero c = refl
  rounds-steer ir ops body timeout start (suc n) c =
      let timed : Context = record c { world = (services.clock c.world).0 } in
      let steered : Context → Outcome Context =
        rounds services (steer fallback target ir) (steer_loop fallback target ops) body timeout
          start n in
      let plain : Context → Outcome Context = rounds services ir ops body timeout start n in
      let next : (Context → Outcome Context) → Context → Outcome Context =
        λ again d. if has_converged services ops.convergence_predicate d then ok d else again d in
      elim (Bool-cases (ltb timeout ((services.clock c.world).1 - start))) [
        | inl late ↦ rw (late, rounds) (time_out-steer ops timed)
        | inr early ↦
            rw (early, rounds)
              (and_then-agree (λ d. d) unplaced
                (execute_body services (steer fallback target ir) body timed)
                (execute_body services ir body timed) (next steered) (next plain)
                (ap (map_outcome (λ d. d))
                  (execute_body-steer services fallback target ir body timed))
                (λ a a' same.
                  ap (λ d. map_outcome unplaced (next steered d)) same
                  ∙ converge-agree (has_converged services ops.convergence_predicate a') a' _ _
                      (rounds-steer ir ops body timeout start n a')))
      ]

  -- Consumed indices and context, without the instruction index.
  abbrev unplaced_pair : List ℕ × Context → List ℕ × Context
  unplaced_pair d = (d.0, unplaced d.1)

  run_loop-steer :
      (ir : ResolvedIr Value) (ops : LoopOperands Value) (n : ℕ) (c : Context)
      → map_outcome unplaced_pair
          (run_loop services (steer fallback target ir) (steer_loop fallback target ops) n c)
        ≡ map_outcome unplaced_pair (run_loop services ir ops n c)
  unfolding run_loop body_indices
  run_loop-steer ir ops n c =
      let body = body_indices services ir ops in
      let pack : Context → Outcome (List ℕ × Context) = λ d. ok (body, d) in
      and_then-agree unplaced unplaced_pair _ _ pack pack
        (rounds-steer ir ops body (or_else ops.timeout_ms 5000) (services.clock c.world).1 (min n 5)
          (record c { world = (services.clock c.world).0 }))
        (λ a a' same. ap (λ d. ok (body, d)) same)

  handle_bounded_loop-steer :
      (ir : ResolvedIr Value) (i : IrInstruction Value) (c : Context)
      → map_outcome unplaced_pair (
          handle_bounded_loop services
            (steer fallback target ir)
            (steer_instruction fallback target i)
            c)
        ≡ map_outcome unplaced_pair (handle_bounded_loop services ir i c)
  unfolding handle_bounded_loop
  handle_bounded_loop-steer ir i c = go i.operands
    where
      go :
          (operands : Option (Operands Value))
          → map_outcome unplaced_pair (
              handle_bounded_loop services
                (steer fallback target ir)
                (record i {
                  operands = steer_operands fallback target operands;
                  target_instruction = target;
                })
                c)
            ≡ map_outcome unplaced_pair
                (handle_bounded_loop services ir (record i { operands = operands }) c)
      go none = refl
      go (some ops) = elim (Option-cases ops.as_loop.max_iterations) [
        | inl unbounded ↦ rw (unbounded, handle_bounded_loop) refl
        | inr (n, bounded) ↦ rw (bounded, handle_bounded_loop) (run_loop-steer ir ops.as_loop n c)
      ]

  execute_entry-steer :
      (ir : ResolvedIr Value) (i : IrInstruction Value) (processed : List ℕ) (c : Context)
      → map_outcome unplaced_pair (
          execute_entry services
            (steer fallback target ir)
            (steer_instruction fallback target i)
            processed
            c)
        ≡ map_outcome unplaced_pair (execute_entry services ir i processed c)
  unfolding execute_entry
  execute_entry-steer ir i processed c =
      let consume : List ℕ × Context → Outcome (List ℕ × Context) =
        λ d. ok (processed ++ d.0, d.1) in
      let keep_all : Context → Outcome (List ℕ × Context) = λ d. ok (processed, d) in
      elim (Bool-cases (is_loop i.opcode)) [
        | inl looping ↦
            rw (looping, execute_entry)
              (and_then-agree unplaced_pair unplaced_pair _ _ consume consume
                (handle_bounded_loop-steer ir i c)
                (λ a a' same. ap (λ d. ok (processed ++ d.0, d.1)) same))
        | inr plain ↦
            rw (plain, execute_entry)
              (and_then-agree (λ d. d) unplaced_pair _ _ keep_all keep_all
                (ap (map_outcome (λ d. d)) (execute_instruction-steer services fallback target i c))
                (λ a a' same. ap (λ d. ok (processed, unplaced d)) same))
      ]

  run_order-steer :
      (ir : ResolvedIr Value) (order processed : List ℕ) (c c' : Context)
      → unplaced c ≡ unplaced c'
      → map_outcome unplaced (run_order services (steer fallback target ir) order processed c)
        ≡ map_outcome unplaced (run_order services ir order processed c')
  unfolding run_order
  run_order-steer ir [] processed c c' h = ap ok h
  run_order-steer ir (at ∷ order) processed c c' h =
      let read = get_elem?-map (steer_instruction fallback target) ir.instructions at in
      let same_place : placed at c ≡ placed at c' = ap (placed at) h in
      elim (Bool-cases (any (λ p. p == at) processed)) [
        | inl done ↦ rw (done, run_order) (run_order-steer ir order processed c c' h)
        | inr new ↦ elim (Option-cases (get_elem? ir.instructions at)) [
          | inl missing ↦ rw (new, read, missing, run_order) refl
          | inr (i, found) ↦
              let go : List ℕ × Context → Outcome Context =
                λ d. run_order services (steer fallback target ir) order d.0 d.1 in
              let go' : List ℕ × Context → Outcome Context =
                λ d. run_order services ir order d.0 d.1 in
              rw (new, read, found, run_order)
                (and_then-agree unplaced_pair unplaced _ _ go go'
                  (execute_entry-steer ir i processed (placed at c)
                    ∙ ap (λ d. map_outcome unplaced_pair (execute_entry services ir i processed d))
                        same_place)
                  (λ a a' same.
                    run_order-steer ir order a.0 a.1 a'.1 (ap (λ d. d.1) same)
                    ∙ ap (λ ps. map_outcome unplaced (run_order services ir order ps a'.1))
                        (ap (λ d. d.0) same)))
        ]
      ]

  -- A run does not read the targets of branches and jumps, nor the instruction that a LOOP falls back
  -- to: with all targets replaced by one, and every fallback that is given by another, every run of a
  -- program ends alike, with the same result or the same exception.
  pub execute_monolithic-steer :
      (ir : ResolvedIr Value) (output_register : ℕ) (user_inputs : List (String × Value))
      (world : World)
      → execute_monolithic services (steer fallback target ir) output_register user_inputs world
        ≡ execute_monolithic services ir output_register user_inputs world
  unfolding execute_monolithic
  execute_monolithic-steer ir output_register user_inputs world =
      let c : Context = load_inputs user_inputs (initialize_context (services.clock world).0) in
      let finish : Context → Outcome (ExecutionResult Value) = λ d. ok (record {
        output = get host output_register d.registers;
        duration_ms = (services.clock d.world).1 - (services.clock world).1;
        instructions_executed = length ir.instruction_order;
        services_called = d.services_called;
        distributed_slices_completed = none;
      }) in
      sym (map_outcome-same _)
      ∙ and_then-agree unplaced (λ r. r) _ _ finish finish
          (run_order-steer ir ir.instruction_order [] c c refl)
          (λ a a' same. ap (λ d. finish d) same)
      ∙ map_outcome-same _
