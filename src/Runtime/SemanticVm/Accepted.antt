-- ===== src/Runtime/SemanticVm/Accepted.antt =====
-- Programs that the verifier (eyeflow-server/src/compiler/stages/stage-5-formal-verifier.service.ts)
-- passes, on the virtual machine (eyeflow-server/src/runtime/semantic-vm.service.ts).
use eyeflow.Common.{ℕ, ◌*◌, ◌≤◌, ◌≡◌, String, true, Option, none, some, List, length}
use eyeflow.Compiler.Ir.{Operands, IrInstruction, ResolvedIr, ServiceManifest}
use eyeflow.Compiler.Verifier.{VerificationReport}
use eyeflow.Compiler.Verifier.Rules.{verify}
use eyeflow.Compiler.Verifier.Loops.{IsBounded, verify-IsBounded}
use eyeflow.Runtime.Host.{Host}
use eyeflow.Runtime.SemanticVm.{ExecutionContext, Services}
use eyeflow.Runtime.SemanticVm.Outcomes.{Meets, IsOperational}
use eyeflow.Runtime.SemanticVm.Loops.{handle_bounded_loop}
use eyeflow.Runtime.SemanticVm.Programs.{execute_monolithic}
use eyeflow.Runtime.SemanticVm.Budget.{WithinPair, run_loop-Within, execute_monolithic-Within}

module _ {host : Host} {World : Type 0} (services : Services host World) where
  abbrev Value : Type 0
  Value = host.values.Value

  handle_bounded_loop-ready :
      (ir : ResolvedIr Value) (i : IrInstruction Value)
      → IsBounded i.operands
      → (c : ExecutionContext host World)
      → Meets
          (WithinPair services (5 * length ir.instruction_order) c)
          IsOperational
          (handle_bounded_loop services ir i c)
  unfolding handle_bounded_loop IsBounded
  handle_bounded_loop-ready ir i bounded c = go i.operands bounded
    where
      go :
          (operands : Option (Operands Value))
          → IsBounded operands
          → Meets
              (WithinPair services (5 * length ir.instruction_order) c)
              IsOperational
              (handle_bounded_loop services ir (record i { operands = operands }) c)
      go none h = absurd h
      go (some ops) h =
          let (n, bound, small) = h.0 in
          rw (bound, handle_bounded_loop) (run_loop-Within services ir ops.as_loop n c)

  -- A program that the formal verifier passes never makes the virtual machine throw the exception
  -- about missing operands of a LOOP, on any inputs and with any services.
  pub verify-IsOperational :
      (get_service : String → Option (ServiceManifest Value)) (ir : ResolvedIr Value)
      (report : VerificationReport)
      → verify host.values get_service ir ≡ some report
      → report.passed ≡ true
      → (output_register : ℕ) (user_inputs : List (String × Value)) (world : World)
      → Meets
          (λ r.
            length r.services_called
            ≤ length ir.instruction_order * (5 * length ir.instruction_order))
          IsOperational
          (execute_monolithic services ir output_register user_inputs world)
  verify-IsOperational get_service ir report e passed =
      execute_monolithic-Within services IsOperational (λ e h. h) ir
        (λ i m looping c.
          handle_bounded_loop-ready ir i
            (verify-IsBounded host.values get_service ir report e passed i m looping) c)
