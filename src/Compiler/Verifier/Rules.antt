-- ===== src/Compiler/Verifier/Rules.antt =====
-- Rules 2 to 7 and `verify` of
-- eyeflow-server/src/compiler/stages/stage-5-formal-verifier.service.ts.
use eyeflow.Common.{
  ℕ, zero, suc, String, Bool, true, false, not, ◌&&◌, Option, none, some, List, [], ◌∷◌, ◌++◌,
  if◌then◌else◌, ltb, is_some, get_elem?,
}
use Prim.Native.String
use eyeflow.Common.Eq.{◌==◌, nat_equality, string_equality}
use eyeflow.Common.JsMap.{lookup, insert}
use eyeflow.Compiler.Ir.{
  IrOpcode, validate, call_service, call_mcp, call_action, llm_call, load_resource, transform,
  aggregate, filter, RegisterType, buffer, object, any, max_loop_iterations, Operands,
  LlmCallDescriptor, DispatchMetadata, IrInstruction, ResolvedIr, PredicateOperator, gt, ge, lt, le,
  eq, ne, exists, not_exists, Predicate, SafetyLevel, block, SafetyConstraint, ServiceManifest,
  Values, is_loop, is_llm_call, is_branch,
}
use eyeflow.Compiler.Verifier.{
  VerificationSeverity, error, warn, VerificationError, VerificationReport, issue_at, issue_of,
  push_if, report_of,
}
use eyeflow.Compiler.Verifier.Termination.{check_termination}

-- `!n || n <= 0`, and `!text`, of a field that may be absent.
abbrev pub is_unset : Option ℕ → Bool
is_unset none = true
is_unset (some zero) = true
is_unset (some (suc n)) = false

abbrev pub is_blank : Option String → Bool
is_blank none = true
is_blank (some s) = s == ""

unfoldable pub iteration_issues : ℕ → Option ℕ → List VerificationError
iteration_issues index none = issue_at "LOOP-002" error index ∷ []
iteration_issues index (some n) =
    push_if (ltb max_loop_iterations n) (issue_at "LOOP-003" error index)

-- The body of the loop over the LOOP instructions.
unfoldable pub loop_issues : {V : Type 0} → ℕ → Option (Operands V) → List VerificationError
unfolding iteration_issues
loop_issues index none = issue_at "LOOP-001" error index ∷ []
loop_issues index (some ops) =
    let l = ops.as_loop in
    iteration_issues index l.max_iterations
    ++ push_if (is_unset l.timeout_ms) (issue_at "LOOP-004" error index)
    ++ push_if (is_unset l.fallback_instruction && not (is_some l.convergence_predicate))
        (issue_at "LOOP-005" warn index)

unfoldable pub check_loop_bounds : {V : Type 0} → List (IrInstruction V) → List VerificationError
unfolding loop_issues
check_loop_bounds [] = []
check_loop_bounds (i ∷ is) =
    (if is_loop i.opcode then loop_issues i.index i.operands else []) ++ check_loop_bounds is

-- `none` is UNKNOWN.
unfoldable pub infer_dest_type : IrOpcode → Option RegisterType
infer_dest_type load_resource = some any
infer_dest_type transform = some object
infer_dest_type filter = some object
infer_dest_type aggregate = some object
infer_dest_type call_service = some object
infer_dest_type call_action = some object
infer_dest_type call_mcp = some object
infer_dest_type llm_call = some object
infer_dest_type validate = some object
infer_dest_type _ = none

-- The type of each register that has been written.
abbrev pub Lattice : Type 0
Lattice = List (ℕ × Option RegisterType)

unfoldable pub unwritten : Lattice → ℕ → List ℕ → List VerificationError
unfolding lookup
unwritten lattice index [] = []
unwritten lattice index (r ∷ rs) =
    push_if (not (is_some (lookup r lattice))) (issue_at "TYPE-001" error index)
    ++ unwritten lattice index rs

abbrev is_buffer : Option (Option RegisterType) → Bool
is_buffer (some (some buffer)) = true
is_buffer _ = false

unfoldable pub validate_issues : Lattice → IrOpcode → ℕ → List ℕ → List VerificationError
unfolding lookup
validate_issues lattice validate index (r ∷ rs) =
    push_if (is_buffer (lookup r lattice)) (issue_at "TYPE-002" warn index)
validate_issues lattice _ index _ = []

unfoldable pub define : {V : Type 0} → IrInstruction V → Lattice → Lattice
unfolding insert infer_dest_type
define i lattice = elim i.dest [
  | none ↦ lattice
  | some r ↦ insert r (infer_dest_type i.opcode) lattice
]

unfoldable pub flow_issues :
    {V : Type 0} → List (IrInstruction V) → List ℕ → Lattice → List VerificationError
unfolding unwritten validate_issues define
flow_issues program [] lattice = []
flow_issues program (at ∷ order) lattice = elim (get_elem? program at) [
  | none ↦ flow_issues program order lattice
  | some i ↦
      (unwritten lattice i.index i.src ++ validate_issues lattice i.opcode i.index i.src)
      ++ flow_issues program order (define i lattice)
]

unfoldable pub check_type_flow : {V : Type 0} → ResolvedIr V → List VerificationError
unfolding flow_issues
check_type_flow ir =
    flow_issues ir.instructions ir.instruction_order ((ir.input_register, none) ∷ [])

-- The issues of a descriptor.
unfoldable pub descriptor_issues : ℕ → LlmCallDescriptor → List VerificationError
descriptor_issues index d =
    push_if (is_blank d.system_prompt) (issue_at "LLM-003" error index)
    ++ push_if (is_unset d.max_tokens) (issue_at "LLM-004" error index)
    ++ push_if (is_blank d.credentials_vault_path) (issue_at "LLM-005" error index)

-- `none` is the exception of reading a field of a descriptor that is not there.
unfoldable pub format_issues :
    ℕ → String → Option LlmCallDescriptor → Option (List VerificationError)
unfolding descriptor_issues
format_issues index format descriptor =
    if format == "LLM_CALL"
    then elim descriptor [ none ↦ none | some d ↦ some (descriptor_issues index d) ]
    else some (issue_at "LLM-002" error index ∷ [])

unfoldable pub llm_issues : ℕ → Option DispatchMetadata → Option (List VerificationError)
unfolding format_issues
llm_issues index none = some (issue_at "LLM-001" error index ∷ [])
llm_issues index (some meta) = format_issues index meta.format meta.selected_descriptor

-- Two lists of issues in turn, if neither throws.
unfoldable pub chain :
    Option (List VerificationError)
    → Option (List VerificationError)
    → Option (List VerificationError)
chain none later = none
chain (some here) none = none
chain (some here) (some later) = some (here ++ later)

unfoldable pub check_llm_call_safety :
    {V : Type 0} → List (IrInstruction V) → Option (List VerificationError)
unfolding llm_issues chain
check_llm_call_safety [] = some []
check_llm_call_safety (i ∷ is) =
    chain (if is_llm_call i.opcode then llm_issues i.index i.dispatch_metadata else some [])
      (check_llm_call_safety is)

unfoldable pub reported : Option (List VerificationError) → Option VerificationReport
unfolding report_of
reported none = none
reported (some issues) = some (report_of issues)

-- Rules 5 to 7 read the registry.
module _ (values : Values) (get_service : String → Option (ServiceManifest values.Value)) where
  abbrev Instruction : Type 0
  Instruction = IrInstruction values.Value

  unfoldable pub fails : PredicateOperator → values.Value → values.Value → Bool
  fails gt actual expected = not (values.gt actual expected)
  fails ge actual expected = not (values.ge actual expected)
  fails lt actual expected = not (values.lt actual expected)
  fails le actual expected = not (values.le actual expected)
  fails eq actual expected = not (values.same actual expected)
  fails ne actual expected = values.same actual expected
  fails _ actual expected = false

  unfoldable pub operands_of : Instruction → List (String × values.Value)
  operands_of i = elim i.operands [ none ↦ [] | some ops ↦ ops.values ]

  -- The part of `evaluatePredicateStatically` after its two early returns.
  unfoldable pub compare_issue :
      Predicate values.Value → Option values.Value → Option values.Value → Bool
  unfolding fails
  compare_issue p (some expected) (some actual) = fails p.operator actual expected
  compare_issue p _ _ = p.strict_at_compile_time

  -- Whether there is an explanation, that is, the predicate is not proved.
  unfoldable pub evaluate_predicate_statically : Predicate values.Value → Instruction → Bool
  unfolding operands_of compare_issue lookup
  evaluate_predicate_statically p i =
      let op = operands_of i in
      elim p.operator [
        | exists ↦ not (is_some (lookup p.subject op)) && not (is_some (lookup p.bare_subject op))
        | not_exists ↦ false
        | _ ↦ compare_issue p p.value (lookup p.subject op)
      ]

  abbrev has_preconditions : IrOpcode → Bool
  has_preconditions call_service = true
  has_preconditions call_mcp = true
  has_preconditions llm_call = true
  has_preconditions _ = false

  -- The registry's answer for the instruction's service, if it names one.
  unfoldable pub service_of : Option String → Option (ServiceManifest values.Value)
  service_of none = none
  service_of (some id) = if id == "" then none else get_service id

  abbrev name_of : Option String → String
  name_of none = ""
  name_of (some id) = id

  unfoldable pub precondition_issues :
      Instruction → List (Predicate values.Value) → List VerificationError
  unfolding evaluate_predicate_statically
  precondition_issues i [] = []
  precondition_issues i (p ∷ ps) =
      push_if (evaluate_predicate_statically p i) (
        issue_of "PRE-001" (if p.strict_at_compile_time then error else warn) i.index
          (name_of i.service_id))
      ++ precondition_issues i ps

  unfoldable pub check_preconditions : List Instruction → List VerificationError
  unfolding service_of precondition_issues
  check_preconditions [] = []
  check_preconditions (i ∷ is) =
      (if has_preconditions i.opcode
        then elim (service_of i.service_id) [
          | none ↦ []
          | some service ↦ precondition_issues i service.preconditions
        ]
        else [])
      ++ check_preconditions is

  abbrev severity_of : SafetyLevel → VerificationSeverity
  severity_of block = error
  severity_of SafetyLevel.error = error
  severity_of SafetyLevel.warn = warn

  unfoldable pub constraint_issues :
      Instruction → List (SafetyConstraint values.Value) → List VerificationError
  unfolding evaluate_predicate_statically
  constraint_issues i [] = []
  constraint_issues i (c ∷ cs) =
      push_if (evaluate_predicate_statically c.predicate i)
        (issue_of (String.◌++◌ "SAFE-" c.id) (severity_of c.level) i.index (name_of i.service_id))
      ++ constraint_issues i cs

  unfoldable pub check_safety_constraints : List Instruction → List VerificationError
  unfolding service_of constraint_issues
  check_safety_constraints [] = []
  check_safety_constraints (i ∷ is) =
      elim (service_of i.service_id) [
        | none ↦ []
        | some service ↦ constraint_issues i service.safety_constraints
      ]
      ++ check_safety_constraints is

  -- `instructions[index - 1]?.opcode === BRANCH`; there is no instruction at -1.
  unfoldable pub follows_branch : List Instruction → ℕ → Bool
  follows_branch program zero = false
  follows_branch program (suc n) = elim (get_elem? program n) [
    | none ↦ false
    | some before ↦ is_branch before.opcode
  ]

  abbrev is_irreversible : ServiceManifest values.Value → Bool
  is_irreversible service = elim service.is_reversible [ none ↦ false | some b ↦ not b ]

  -- `program` is the whole of `ir.instructions`, the other list what is left of the loop.
  unfoldable pub check_non_reversible_fallbacks :
      List Instruction → List Instruction → List VerificationError
  unfolding service_of follows_branch
  check_non_reversible_fallbacks program [] = []
  check_non_reversible_fallbacks program (i ∷ is) =
      elim (service_of i.service_id) [
        | none ↦ []
        | some service ↦
            push_if
              (is_irreversible service
                && not service.requires_human_confirmation
                && not (follows_branch program i.index))
              (issue_of "REV-001" warn i.index (name_of i.service_id))
      ]
      ++ check_non_reversible_fallbacks program is

  unfoldable pub issues_of : ResolvedIr values.Value → Option (List VerificationError)
  unfolding check_termination check_loop_bounds check_type_flow check_llm_call_safety chain
      check_preconditions check_safety_constraints check_non_reversible_fallbacks
  issues_of ir =
      chain
        (some (
          check_termination ir.instructions
          ++ check_loop_bounds ir.instructions
          ++ check_type_flow ir))
        (chain (check_llm_call_safety ir.instructions) (
          some (
            check_preconditions ir.instructions
            ++ check_safety_constraints ir.instructions
            ++ check_non_reversible_fallbacks ir.instructions ir.instructions)))

  -- `none` is an exception of rule 4.
  unfoldable pub verify : ResolvedIr values.Value → Option VerificationReport
  unfolding issues_of reported
  verify ir = reported (issues_of ir)
