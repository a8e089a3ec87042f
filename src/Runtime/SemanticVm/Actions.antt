-- ===== src/Runtime/SemanticVm/Actions.antt =====
-- CALL_ACTION: `handleCallAction` of eyeflow-server/src/runtime/semantic-vm.service.ts, over
-- eyeflow-server/src/runtime/physical-control.service.ts. The secret that is written into the payload
-- is left out: nothing here reads the payload.
use eyeflow.Common.{ℕ, String, Bool, true, false, Option, none, some, List, [], ◌∷◌, or_else}
use eyeflow.Compiler.Ir.{Operands, IrInstruction}
use eyeflow.Runtime.Host.{Host, Registers}
use eyeflow.Runtime.PhysicalControl.{
  PhysicalActionOperands, PhysicalActionResult, PhysicalOutcome, blocked, failed, reported,
  PhysicalContext, execute_physical_action, waits,
}
use eyeflow.Runtime.SemanticVm.{
  ExecutionContext, missing_dest, action_blocked, action_failed, Outcome, ok, thrown, Services, set,
  append_audit,
}
use eyeflow.Runtime.SemanticVm.Calls.{text_of}

-- The type of the audit event after the action.
abbrev pub verdict : Option Bool → String
verdict none = "ACTION_TAKEN"
verdict (some true) = "POSTCONDITION_PASSED"
verdict (some false) = "POSTCONDITION_FAILED"

module _ {host : Host} {World : Type 0} (services : Services host World) where
  abbrev Value : Type 0
  Value = host.values.Value

  abbrev Context : Type 0
  Context = ExecutionContext host World

  abbrev text_or_undefined : Option String → Value
  text_or_undefined none = host.undefined
  text_or_undefined (some t) = host.text t

  abbrev flag_or_undefined : Option Bool → Value
  flag_or_undefined none = host.undefined
  flag_or_undefined (some b) = host.boolean b

  unfoldable pub value_of_result : PhysicalActionResult → Value
  value_of_result r = host.object (
      ("cancelled", host.boolean r.cancelled)
      ∷ ("executed", host.boolean r.executed)
      ∷ ("postconditionPassed", flag_or_undefined r.postcondition_passed)
      ∷ ("durationMs", host.number r.duration_ms)
      ∷ ("target", host.text r.target)
      ∷ ("command", host.text r.command)
      ∷ [])

  -- The executor that the virtual machine passes: it only logs.
  unfoldable pub stub_executor : PhysicalActionOperands Value → World → World × Option Value
  stub_executor ops world = (
    world,
    some (
        host.object (
          ("executed", host.boolean true)
          ∷ ("target", text_or_undefined ops.target)
          ∷ ("command", text_or_undefined ops.command)
          ∷ [])),
  )

  -- The answer of the vault goes into the payload only.
  unfoldable pub resolve_secret : Option String → World → World
  resolve_secret path world = elim services.vault [
    | none ↦ world
    | some fetch_secret ↦ elim (text_of path) [ none ↦ world | some p ↦ (fetch_secret world p).0 ]
  ]

  -- The bus is asked only if there is a window.
  unfoldable pub ask_cancellation : Option ℕ → World → World × Bool
  ask_cancellation ms world = elim (waits host ms) [
    | false ↦ (world, false)
    | true ↦ services.wait_cancellation world (or_else ms 0)
  ]

  -- What becomes of the action's outcome.
  unfoldable pub finish_action :
      ℕ → ℕ → Context → World → Registers host → PhysicalOutcome → Outcome Context
  unfolding set append_audit value_of_result
  finish_action index dest c world registers blocked = thrown action_blocked
  finish_action index dest c world registers failed = thrown action_failed
  finish_action index dest c world registers (reported r) =
      let c' : Context = record c { world = world; registers = registers } in
      ok (
        set dest (value_of_result r)
          (append_audit services index (verdict r.postcondition_passed) c'))

  unfoldable pub call_physical :
      PhysicalContext host → ℕ → ℕ → PhysicalActionOperands Value → Context → Outcome Context
  unfolding execute_physical_action finish_action stub_executor ask_cancellation
  call_physical control index dest ops c =
      let (w1, began) = services.clock c.world in
      let (w2, cancelled) = ask_cancellation ops.cancellation_window_ms w1 in
      let (w3, ended) = services.clock w2 in
      let ((world, registers), outcome) =
        execute_physical_action host (stub_executor ops) control ops began ended cancelled w3
          c.registers in
      finish_action index dest c world registers outcome

  -- Without the service, the action only counts as executed.
  unfoldable pub act_on :
      Option (PhysicalContext host)
      → ℕ
      → ℕ
      → PhysicalActionOperands Value
      → Context
      → Outcome Context
  unfolding call_physical set
  act_on (some control) index dest ops c = call_physical control index dest ops c
  act_on none index dest ops c = ok (
      set dest
        (host.object (
          ("action", host.text "executed")
          ∷ ("target", text_or_undefined ops.target)
          ∷ ("command", text_or_undefined ops.command)
          ∷ []))
        c)

  unfoldable pub call_action_with : ℕ → ℕ → List (String × Value) → Context → Outcome Context
  unfolding append_audit resolve_secret act_on
  call_action_with index dest operands c =
      let intended = append_audit services index "PHYSICAL_ACTION" c in
      let c' : Context = record intended {
        world = resolve_secret (services.secret_path operands) intended.world;
      } in
      act_on services.physical_control index dest (services.as_action operands) c'

  abbrev pub values_of : Option (Operands Value) → List (String × Value)
  values_of none = []
  values_of (some ops) = ops.values

  unfoldable pub handle_call_action : IrInstruction Value → Context → Outcome Context
  unfolding call_action_with
  handle_call_action i c = elim i.dest [
    | none ↦ thrown missing_dest
    | some dest ↦ call_action_with i.index dest (values_of i.operands) c
  ]
