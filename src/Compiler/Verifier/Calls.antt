-- ===== src/Compiler/Verifier/Calls.antt =====
-- What an accepted program guarantees of its LLM calls
-- (eyeflow-server/src/compiler/stages/stage-5-formal-verifier.service.ts, `verify`).
use eyeflow.Common.{
  ℕ, ◌<◌, ◌≡◌, ◌≢◌, refl, sym, String, true, false, Option, none, some, List, [], ◌∷◌, ◌++◌, In,
  if◌then◌else◌, Bool-cases, Option-cases, inl, inr,
}
use eyeflow.Common.Eq.{◌==◌, string_equality}
use eyeflow.Compiler.Ir.{
  LlmCallDescriptor, DispatchMetadata, IrInstruction, ResolvedIr, ServiceManifest, Values,
  is_llm_call,
}
use eyeflow.Compiler.Verifier.{VerificationReport, error, issue_at, push_if}
use eyeflow.Compiler.Verifier.Rules.{
  is_unset, is_blank, descriptor_issues, format_issues, llm_issues, check_llm_call_safety, verify,
}
use eyeflow.Compiler.Verifier.Loops.{
  IsErrorFree, IsErrorFree-append, push_if-IsErrorFree, set_positive, IsClean, chain-IsClean,
  verify-parts,
}

-- The descriptor has a prompt, a token bound and a vault path.
pub IsBoundedCall : LlmCallDescriptor → Type 0
IsBoundedCall d =
    ((p : String) × (d.system_prompt ≡ some p) × (p ≢ ""))
    × ((n : ℕ) × (d.max_tokens ≡ some n) × (0 < n))
    × ((v : String) × (d.credentials_vault_path ≡ some v) × (v ≢ ""))

-- The metadata are there, with a descriptor of the right format.
pub IsSafe : Option DispatchMetadata → Type 0
IsSafe none = ⊥
IsSafe (some meta) =
    (meta.format ≡ "LLM_CALL")
    × ((d : LlmCallDescriptor) × (meta.selected_descriptor ≡ some d) × IsBoundedCall d)

set_text : (t : Option String) → is_blank t ≡ false → (s : String) × (t ≡ some s) × (s ≢ "")
set_text none h = absurd (cc)
set_text (some s) h = (s, refl, λ e. let e' = (string_equality.test_iff s "").1 e in cc)

descriptor_issues-IsBoundedCall :
    (index : ℕ) (d : LlmCallDescriptor) → IsErrorFree (descriptor_issues index d) → IsBoundedCall d
unfolding descriptor_issues IsBoundedCall
descriptor_issues-IsBoundedCall index d h =
    let prompts = push_if (is_blank d.system_prompt) (issue_at "LLM-003" error index) in
    let tokens = push_if (is_unset d.max_tokens) (issue_at "LLM-004" error index) in
    let vaults = push_if (is_blank d.credentials_vault_path) (issue_at "LLM-005" error index) in
    let (two, c) = IsErrorFree-append (prompts ++ tokens) vaults h in
    let (a, b) = IsErrorFree-append prompts tokens two in
    (
      set_text d.system_prompt (push_if-IsErrorFree _ "LLM-003" index a),
      set_positive d.max_tokens (push_if-IsErrorFree _ "LLM-004" index b),
      set_text d.credentials_vault_path (push_if-IsErrorFree _ "LLM-005" index c),
    )

format_issues-IsBoundedCall :
    (index : ℕ) (format : String) (descriptor : Option LlmCallDescriptor)
    → IsClean (format_issues index format descriptor)
    → (format ≡ "LLM_CALL") × ((d : LlmCallDescriptor) × (descriptor ≡ some d) × IsBoundedCall d)
unfolding format_issues IsClean
format_issues-IsBoundedCall index format descriptor h = elim (Bool-cases (format == "LLM_CALL")) [
  | inl right ↦ elim (Option-cases descriptor) [
    | inl absent ↦ absurd (rw (right, absent, format_issues) at h)
    | inr (d, there) ↦ (
      (string_equality.test_iff format "LLM_CALL").0 right,
      (d, there, descriptor_issues-IsBoundedCall index d (rw (right, there, format_issues) at h)),
    )
  ]
  | inr wrong ↦ let clash = rw (wrong, format_issues) at h in cc
]

llm_issues-IsSafe :
    (index : ℕ) (meta : Option DispatchMetadata) → IsClean (llm_issues index meta) → IsSafe meta
unfolding llm_issues IsSafe IsClean
llm_issues-IsSafe index none h = cc
llm_issues-IsSafe index (some meta) h =
    format_issues-IsBoundedCall index meta.format meta.selected_descriptor h

check_llm_call_safety-IsSafe :
    {V : Type 0} (program : List (IrInstruction V))
    → IsClean (check_llm_call_safety program)
    → (i : IrInstruction V) → In i program
    → is_llm_call i.opcode ≡ true
    → IsSafe i.dispatch_metadata
unfolding check_llm_call_safety
check_llm_call_safety-IsSafe [] h i m calls = elim m [ ]
check_llm_call_safety-IsSafe (j ∷ js) h i m calls =
    let (here, later) =
      chain-IsClean
        (if is_llm_call j.opcode then llm_issues j.index j.dispatch_metadata else some [])
        (check_llm_call_safety js) h in
    elim m [
      | inl same ↦
          let calls' : is_llm_call j.opcode ≡ true = rw (sym same) calls in
          rw same (llm_issues-IsSafe j.index j.dispatch_metadata (rw calls' at here))
      | inr there ↦ check_llm_call_safety-IsSafe js later i there calls
    ]

-- In a program that `verify` passes, every LLM_CALL instruction has a descriptor of the format
-- LLM_CALL with a system prompt and a vault path that are not empty and a positive token bound.
pub verify-IsSafe :
    (values : Values) (get_service : String → Option (ServiceManifest values.Value))
    (ir : ResolvedIr values.Value) (report : VerificationReport)
    → verify values get_service ir ≡ some report
    → report.passed ≡ true
    → (i : IrInstruction values.Value) → In i ir.instructions
    → is_llm_call i.opcode ≡ true
    → IsSafe i.dispatch_metadata
verify-IsSafe values get_service ir report e h i m calls =
    check_llm_call_safety-IsSafe ir.instructions (verify-parts values get_service ir report e h).1.1
      i m calls
