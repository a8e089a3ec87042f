-- ===== src/Runtime/SemanticVm/Loops.antt =====
-- LOOP: `handleBoundedLoop` and `_evaluateLoopPredicate` of
-- eyeflow-server/src/runtime/semantic-vm.service.ts.
use eyeflow.Common.{
  ℕ, zero, suc, ◌-◌, min, Bool, false, not, ◌&&◌, Option, none, some, List, [], ◌∷◌, keep, leb, ltb,
  if◌then◌else◌, or_else, get_elem?,
}
use eyeflow.Compiler.Ir.{
  exists, truthy, eq, ne, lt, le, gt, ge, LoopConvergencePredicate, LoopOperands, IrInstruction,
  ResolvedIr, max_loop_iterations,
}
use eyeflow.Runtime.Host.{Host, get}
use eyeflow.Runtime.SemanticVm.{
  ExecutionContext, missing_loop_operands, loop_timeout, no_instruction, Outcome, ok, thrown,
  and_then, Services,
}
use eyeflow.Runtime.SemanticVm.Instructions.{execute_instruction}

-- A comparison with a bound that is absent is false.
abbrev pub in_body : Option ℕ → Option ℕ → ℕ → Bool
in_body (some first) (some exit) index = leb first index && ltb index exit
in_body _ _ index = false

module _ {host : Host} {World : Type 0} (services : Services host World) where
  abbrev Value : Type 0
  Value = host.values.Value

  abbrev Context : Type 0
  Context = ExecutionContext host World

  unfoldable pub evaluate_loop_predicate : Value → LoopConvergencePredicate Value → Bool
  evaluate_loop_predicate value p =
      let js = host.values in
      let other = or_else p.value host.undefined in
      elim p.operator [
        | exists ↦ not (host.is_nullish value)
        | truthy ↦ host.is_truthy value
        | eq ↦ js.same value other
        | ne ↦ not (js.same value other)
        | lt ↦ js.lt value other
        | le ↦ js.le value other
        | gt ↦ js.gt value other
        | ge ↦ js.ge value other
        | _ ↦ false
      ]

  unfoldable pub has_converged : Option (LoopConvergencePredicate Value) → Context → Bool
  unfolding evaluate_loop_predicate get
  has_converged none c = false
  has_converged (some p) c = evaluate_loop_predicate (get host p.register_index c.registers) p

  -- The indices of the body, and what they stand for; `none` is `undefined`.
  unfoldable pub body_indices : ResolvedIr Value → LoopOperands Value → List ℕ
  body_indices ir ops = keep (in_body ops.body_start_index ops.exit_index) ir.instruction_order

  -- One round of the body.
  unfoldable pub execute_body : ResolvedIr Value → List ℕ → Context → Outcome Context
  unfolding execute_instruction and_then
  execute_body ir [] c = ok c
  execute_body ir (at ∷ rest) c = elim (get_elem? ir.instructions at) [
    | none ↦ thrown no_instruction
    | some i ↦
        and_then (execute_instruction services i (record c { current_instruction_index = i.index }))
          (execute_body ir rest)
  ]

  -- A loop that times out goes on after it if a fallback is given.
  unfoldable pub time_out : LoopOperands Value → Context → Outcome Context
  time_out ops c = elim ops.fallback_instruction [
    | none ↦ thrown loop_timeout
    | some f ↦ ok (record c { current_instruction_index = f })
  ]

  -- At most `n` more rounds, since `start`.
  unfoldable pub rounds :
      ResolvedIr Value → LoopOperands Value → List ℕ → ℕ → ℕ → ℕ → Context → Outcome Context
  unfolding time_out execute_body has_converged and_then
  rounds ir ops body timeout start zero c = ok c
  rounds ir ops body timeout start (suc n) c =
      let again = rounds ir ops body timeout start n in
      let (after, now) = services.clock c.world in
      let c' : Context = record c { world = after } in
      if ltb timeout (now - start)
      then time_out ops c'
      else and_then (execute_body ir body c')
          (λ d. if has_converged ops.convergence_predicate d then ok d else again d)

  unfoldable pub run_loop :
      ResolvedIr Value → LoopOperands Value → ℕ → Context → Outcome (List ℕ × Context)
  unfolding rounds body_indices and_then
  run_loop ir ops max_iterations c =
      let (after, start) = services.clock c.world in
      let body = body_indices ir ops in
      and_then
        (rounds ir ops body (or_else ops.timeout_ms 5000) start
          (min max_iterations max_loop_iterations) (record c { world = after }))
        (λ d. ok (body, d))

  -- The indices of the body are returned, for the caller to skip.
  unfoldable pub handle_bounded_loop :
      ResolvedIr Value → IrInstruction Value → Context → Outcome (List ℕ × Context)
  unfolding run_loop
  handle_bounded_loop ir i c = elim i.operands [
    | none ↦ thrown missing_loop_operands
    | some ops ↦ elim ops.as_loop.max_iterations [
      | none ↦ thrown missing_loop_operands
      | some n ↦ run_loop ir ops.as_loop n c
    ]
  ]
