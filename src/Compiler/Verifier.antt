-- ===== src/Compiler/Verifier.antt =====
-- eyeflow-server/src/compiler/stages/stage-5-formal-verifier.service.ts. The texts of the messages
-- are left out; `get_service` is the registry's lookup.
pub mod Termination
pub mod Rules
pub mod Loops
pub mod Calls
pub mod Reads
mod Examples
use eyeflow.Common.{
  ℕ, zero, suc, ◌+◌, String, Bool, true, false, Option, none, some, List, [], ◌∷◌, ◌++◌, keep,
}

pub data VerificationSeverity : Type 0 where
  error warn info : VerificationSeverity

pub record VerificationError : Type 0 where
  pub rule_id : String
  pub severity : VerificationSeverity
  pub instruction_index : Option ℕ
  pub service_id : Option String

pub record VerificationReport : Type 0 where
  pub passed : Bool
  pub errors : List VerificationError
  pub warnings : List VerificationError

abbrev pub is_error : VerificationSeverity → Bool
is_error error = true
is_error _ = false

abbrev pub is_warning : VerificationSeverity → Bool
is_warning warn = true
is_warning _ = false

abbrev pub issue_at : String → VerificationSeverity → ℕ → VerificationError
issue_at rule severity index = record {
  rule_id = rule;
  severity = severity;
  instruction_index = some index;
  service_id = none;
}

abbrev pub issue_of : String → VerificationSeverity → ℕ → String → VerificationError
issue_of rule severity index service = record {
  rule_id = rule;
  severity = severity;
  instruction_index = some index;
  service_id = some service;
}

-- `cond ? [e] : []`, for an issue that is pushed under a test.
abbrev pub push_if : Bool → VerificationError → List VerificationError
push_if true e = e ∷ []
push_if false e = []

abbrev is_empty : List VerificationError → Bool
is_empty [] = true
is_empty (e ∷ es) = false

-- What `verify` makes of the issues of its rules.
unfoldable pub report_of : List VerificationError → VerificationReport
report_of issues =
    let errors = keep (λ e. is_error e.severity) issues in
    record {
      passed = is_empty errors;
      errors = errors;
      warnings = keep (λ e. is_warning e.severity) issues;
    }
