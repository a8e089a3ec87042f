-- ===== src/Compiler/IrGenerator.antt =====
-- Instructions of eyeflow-server/src/compiler/ir-generator/interfaces/ir.interface.ts, and the
-- classified variables of eyeflow-server/src/compiler/optimizer/interfaces/optimizer.interface.ts. An
-- instruction keeps what the passes here read or write.
pub mod Folding
pub mod Optimizer
pub mod Dependencies
pub mod Elimination
pub mod Collapse
pub mod Sorting
mod Examples
use eyeflow.Common.{ℕ, String, Bool, Option, List}

pub data IrOpcode : Type 0 where
  load_resource unload_resource read write transform branch loop : IrOpcode
  parallel_spawn parallel_wait parallel_barrier call_function call_api call_action : IrOpcode
  validate coerce nop return throw : IrOpcode

pub data RegisterType : Type 0 where
  int float string buffer object any : RegisterType

pub record Register : Type 0 where
  pub id : String
  pub register_type : RegisterType
  pub value : String

pub data Operand : Type 0 where
  register : Register → Operand
  text : String → Operand
  number : ℕ → Operand
  boolean : Bool → Operand
  null : Operand

pub record IrInstruction : Type 0 where
  pub id : String
  pub opcode : IrOpcode
  pub operands : List Operand
  pub result_registers : List Register
  pub dependencies : List String

pub data DataClassification : Type 0 where
  constant compile_time_computed runtime_dynamic : DataClassification

-- A list that is absent is empty.
pub record ClassifiedVariable : Type 0 where
  pub variable_type : String
  pub classification : DataClassification
  pub source_operation : Option String
  pub depends_on : List String

-- `classificationsMap`, by name; `none` is a plan without the map.
pub record OptimizationPlan : Type 0 where
  pub classifications_map : Option (List (String × ClassifiedVariable))
