-- ===== src/Compiler/Ir.antt =====
-- Instructions of eyeflow-server/src/compiler/interfaces/ir.interface.ts, and what the formal
-- verifier reads of a service's manifest
-- (eyeflow-server/src/compiler/interfaces/service-manifest.interface.ts). Indices, registers and
-- bounds are natural numbers.
use eyeflow.Common.{ℕ, String, Bool, true, false, Option, List}

pub data IrOpcode : Type 0 where
  load_resource store_memory validate branch loop jump : IrOpcode
  call_service call_action call_mcp transform aggregate filter : IrOpcode
  parallel_spawn parallel_merge llm_call trigger event_state_machine : IrOpcode
  propagate_event handle_propagated remote_command handle_remote_cmd return : IrOpcode

pub data RegisterType : Type 0 where
  int float string buffer object any : RegisterType

abbrev pub max_loop_iterations : ℕ
max_loop_iterations = 5

pub data PredicateOperator : Type 0 where
  gt ge lt le eq ne exists not_exists in_list matches truthy : PredicateOperator

-- A value that is absent is `undefined`.
pub record LoopConvergencePredicate (V : Type 0) : Type 0 where
  pub register_index : ℕ
  pub operator : PredicateOperator
  pub value : Option V

-- `operands` seen as `LoopOperands`; a field that is absent is `none`.
pub record LoopOperands (V : Type 0) : Type 0 where
  pub max_iterations : Option ℕ
  pub timeout_ms : Option ℕ
  pub body_start_index : Option ℕ
  pub exit_index : Option ℕ
  pub convergence_predicate : Option (LoopConvergencePredicate V)
  pub fallback_instruction : Option ℕ

-- One object, as the two casts of the program see it. `V` is the type of operand values.
pub record Operands (V : Type 0) : Type 0 where
  pub as_loop : LoopOperands V
  pub values : List (String × V)

-- The fields of an LLM call's descriptor; a prompt that is no text is `none`.
pub record LlmCallDescriptor : Type 0 where
  pub system_prompt : Option String
  pub max_tokens : Option ℕ
  pub credentials_vault_path : Option String

-- The virtual machine tests whether there is a descriptor.
pub record DispatchMetadata : Type 0 where
  pub format : String
  pub selected_descriptor : Option LlmCallDescriptor
  pub target_tier : String

pub record IrInstruction (V : Type 0) : Type 0 where
  pub index : ℕ
  pub opcode : IrOpcode
  pub dest : Option ℕ
  pub src : List ℕ
  pub operands : Option (Operands V)
  pub service_id : Option String
  pub dispatch_metadata : Option DispatchMetadata
  pub target_instruction : Option ℕ

pub record ResolvedIr (V : Type 0) : Type 0 where
  pub instructions : List (IrInstruction V)
  pub instruction_order : List ℕ
  pub input_register : ℕ

-- `bare_subject` is the subject without its first `$r`.
pub record Predicate (V : Type 0) : Type 0 where
  pub subject : String
  pub bare_subject : String
  pub operator : PredicateOperator
  pub value : Option V
  pub strict_at_compile_time : Bool

pub data SafetyLevel : Type 0 where
  warn error block : SafetyLevel

pub record SafetyConstraint (V : Type 0) : Type 0 where
  pub id : String
  pub predicate : Predicate V
  pub level : SafetyLevel

pub record ServiceManifest (V : Type 0) : Type 0 where
  pub preconditions : List (Predicate V)
  pub safety_constraints : List (SafetyConstraint V)
  pub is_reversible : Option Bool
  pub requires_human_confirmation : Bool

-- Comparison of operand values, as JavaScript does it.
pub record Values : Type 1 where
  pub Value : Type 0
  pub gt : Value → Value → Bool
  pub ge : Value → Value → Bool
  pub lt : Value → Value → Bool
  pub le : Value → Value → Bool
  pub same : Value → Value → Bool

abbrev pub is_loop : IrOpcode → Bool
is_loop loop = true
is_loop _ = false

abbrev pub is_llm_call : IrOpcode → Bool
is_llm_call llm_call = true
is_llm_call _ = false

abbrev pub is_branch : IrOpcode → Bool
is_branch branch = true
is_branch _ = false
