-- ===== src/Runtime/SemanticVm/Samples.antt =====
-- Services and instructions for the examples about
-- eyeflow-server/src/runtime/semantic-vm.service.ts.
use eyeflow.Common.{ℕ, suc, true, false, Option, none, some, []}
use eyeflow.Compiler.Ir.{IrOpcode, IrInstruction}
use eyeflow.Runtime.Samples.{host, outside}
use eyeflow.Runtime.PhysicalControl.{PhysicalActionOperands}
use eyeflow.Runtime.SemanticVm.{ExecutorCall, ExecutorResult, Services}

-- The world counts the readings of the clock; the executor answers its number of calls.
abbrev pub tick : ℕ → ℕ × ℕ
tick world = (suc world, world)

abbrev pub answer : ℕ → ExecutorCall ℕ → ℕ × Option (ExecutorResult ℕ)
answer world call = (suc world, some (record { outputs = world; duration_ms = 3 }))

abbrev pub no_action : PhysicalActionOperands ℕ
no_action = record {
  target = none;
  command = none;
  time_window = none;
  cancellation_window_ms = none;
  postcondition = none;
  requires_human_approval = false;
}

abbrev pub services : Services host ℕ
services = record {
  clock = tick;
  executors = some answer;
  vault = none;
  physical_control = some outside;
  wait_cancellation = λ world ms. (world, false);
  has_audit_chain = true;
  pre_loaded = record { wasm = []; mcp = []; native = []; docker = [] };
  register_name = λ r. "r";
  first_code = λ key. some 100;
  resource = 9;
  as_action = λ operands. no_action;
  secret_path = λ operands. none;
}

abbrev pub plain : ℕ → IrOpcode → IrInstruction ℕ
plain index opcode = record {
  index = index;
  opcode = opcode;
  dest = none;
  src = [];
  operands = none;
  service_id = none;
  dispatch_metadata = none;
  target_instruction = none;
}
