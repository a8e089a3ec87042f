-- ===== src/Runtime/SemanticVm.antt =====
-- eyeflow-server/src/runtime/semantic-vm.service.ts: context, memory and the services that the
-- virtual machine is given. The executor registry, the vault, the waiting for a cancellation and the
-- clock are parameters over a world of their own; a call that rejects answers `none`.
pub mod Calls
pub mod Actions
pub mod Instructions
pub mod Loops
pub mod Programs
pub mod Slices
pub mod Distributed
pub mod Dependents
pub mod Fallback
pub mod Outcomes
pub mod Effects
pub mod Frame
pub mod Budget
pub mod Steering
pub mod Unsteered
pub mod Accepted
mod Samples
mod Examples
mod DistributedExamples
use eyeflow.Common.{
  ℕ, zero, suc, ◌+◌, ◌/◌, ◌%◌, String, Bool, true, false, Option, none, some, List, [], ◌∷◌, ◌++◌,
  if◌then◌else◌,
}
use eyeflow.Common.Eq.{◌==◌, nat_equality}
use eyeflow.Common.JsMap.{insert}
use eyeflow.Compiler.Ir.{DispatchMetadata}
use eyeflow.Runtime.Host.{Host, Registers}
use eyeflow.Runtime.PhysicalControl.{PhysicalActionOperands, PhysicalContext}

pub record ServiceCall : Type 0 where
  pub service_id : String
  pub format : String
  pub duration_ms : ℕ
  pub node_id : Option String

-- An event of the audit chain: its instruction and its type. An `append` that throws is not
-- modelled.
pub record Audit : Type 0 where
  pub instruction_id : ℕ
  pub event_type : String

-- `memory` gives the byte at an offset. `callStack` and `startTime` are never read.
pub record ExecutionContext (host : Host) (World : Type 0) : Type 0 where
  pub registers : Registers host
  pub memory : ℕ → ℕ
  pub current_instruction_index : ℕ
  pub services_called : List ServiceCall
  pub audited : List Audit
  pub world : World

-- The exceptions; `no_instruction` is the TypeError on a missing entry of `instructions`.
pub data Fault : Type 0 where
  missing_dest missing_src missing_service null_register out_of_range : Fault
  unknown_format service_not_found call_failed action_blocked action_failed : Fault
  missing_loop_operands loop_timeout no_instruction version_incompatible slice_failed : Fault

pub data Outcome {ℓ} (A : Type ℓ) : Type ℓ where
  ok : A → Outcome A
  thrown : Fault → Outcome A

unfoldable pub and_then {ℓ κ} : {A : Type ℓ} {B : Type κ} → Outcome A → (A → Outcome B) → Outcome B
and_then (ok a) f = f a
and_then (thrown e) f = thrown e

-- What the registry's `execute` is given.
pub record ExecutorCall (V : Type 0) : Type 0 where
  pub dispatch : DispatchMetadata
  pub inputs : List (String × V)
  pub secrets : List (String × V)

pub record ExecutorResult (V : Type 0) : Type 0 where
  pub outputs : V
  pub duration_ms : ℕ

-- The services that are loaded before the run; a connection says whether it is open.
pub record PreLoadedServices : Type 0 where
  pub wasm : List String
  pub mcp : List (String × Bool)
  pub native : List String
  pub docker : List String

-- The service's optional collaborators, and what it takes from the platform: `register_name i` is
-- the text r followed by i, `first_code` is `charCodeAt(0)`, `resource` the constant object of
-- LOAD_RESOURCE, `as_action` and `secret_path` read the operands of a CALL_ACTION.
pub record Services (host : Host) (World : Type 0) : Type 0 where
  pub clock : World → World × ℕ
  pub executors :
      Option
        (World → ExecutorCall host.values.Value → World × Option (ExecutorResult host.values.Value))
  pub vault : Option (World → String → World × Option host.values.Value)
  pub physical_control : Option (PhysicalContext host)
  pub wait_cancellation : World → ℕ → World × Bool
  pub has_audit_chain : Bool
  pub pre_loaded : PreLoadedServices
  pub register_name : ℕ → String
  pub first_code : String → Option ℕ
  pub resource : host.values.Value
  pub as_action : List (String × host.values.Value) → PhysicalActionOperands host.values.Value
  pub secret_path : List (String × host.values.Value) → Option String

-- `registers.set(i, null)` for the registers from `first` on.
unfoldable pub blank : (host : Host) → ℕ → ℕ → Registers host
blank host zero first = []
blank host (suc n) first = (first, host.null) ∷ blank host n (suc first)

module _ {host : Host} {World : Type 0} where
  -- `context.registers.set(r, v)`
  unfoldable pub set :
      ℕ → host.values.Value → ExecutionContext host World → ExecutionContext host World
  unfolding insert
  set r v c = record c { registers = insert r v c.registers }

  unfoldable pub append_audit :
      Services host World → ℕ → String → ExecutionContext host World → ExecutionContext host World
  append_audit services index event c = record c {
    audited =
        if services.has_audit_chain
        then c.audited ++ (record { instruction_id = index; event_type = event }) ∷ []
        else c.audited;
  }

  unfoldable pub initialize_context : World → ExecutionContext host World
  unfolding blank
  initialize_context world = record {
    registers = blank host 256 0;
    memory = λ offset. 0;
    current_instruction_index = 0;
    services_called = [];
    audited = [];
    world = world;
  }

  -- Every input goes to register 0.
  unfoldable pub load_inputs :
      List (String × host.values.Value) → ExecutionContext host World → ExecutionContext host World
  unfolding set
  load_inputs [] c = c
  load_inputs ((name, value) ∷ inputs) c = load_inputs inputs (set 0 value c)

-- `memory.writeInt32LE(value, offset)`
unfoldable pub write_int32_le : ℕ → ℕ → (ℕ → ℕ) → ℕ → ℕ
write_int32_le value offset memory at =
    if at == offset
    then value % 256
    else if at == offset + 1
    then value / 256 % 256
    else if at == offset + 2
    then value / 65536 % 256
    else if at == offset + 3
    then value / 16777216 % 256
    else memory at
