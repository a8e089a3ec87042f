-- ===== src/Compiler/Verifier/Loops.antt =====
-- What an accepted program guarantees of its LOOP instructions
-- (eyeflow-server/src/compiler/stages/stage-5-formal-verifier.service.ts, `verify`).
use eyeflow.Common.{
  ℕ, zero, suc, ◌<◌, ◌≤◌, ◌≡◌, refl, sym, ap, ◌∙◌, String, Bool, true, false, not, ◌&&◌, Option,
  none, some, List, [], ◌∷◌, ◌++◌, arith, keep, In, ltb, if◌then◌else◌, is_some, Bool-cases, inl,
  inr,
}
use eyeflow.Common.Eq.{string_equality}
use eyeflow.Compiler.Ir.{Operands, IrInstruction, ResolvedIr, ServiceManifest, Values, is_loop}
use eyeflow.Compiler.Verifier.{
  error, warn, VerificationError, VerificationReport, is_error, issue_at, push_if, report_of,
}
use eyeflow.Compiler.Verifier.Rules.{
  is_unset, iteration_issues, loop_issues, check_loop_bounds, chain, reported,
  check_llm_call_safety, issues_of, verify, check_type_flow,
}
use eyeflow.Compiler.Verifier.Termination.{check_termination}

-- No issue of the list aborts the compilation.
abbrev pub IsErrorFree : List VerificationError → Type 0
IsErrorFree es = keep (λ e. is_error e.severity) es ≡ []

pub IsErrorFree-append :
    (xs ys : List VerificationError) → IsErrorFree (xs ++ ys) → IsErrorFree xs × IsErrorFree ys
IsErrorFree-append [] ys h = (refl, h)
IsErrorFree-append (x ∷ xs) ys h = elim (Bool-cases (is_error x.severity)) [
  | inl bad ↦ let clash = rw (bad, keep) at h in cc
  | inr fine ↦
      let (a, b) = IsErrorFree-append xs ys (rw (fine, keep) at h) in (rw (keep, fine) a, b)
]

pub push_if-IsErrorFree :
    (b : Bool) (rule : String) (index : ℕ)
    → IsErrorFree (push_if b (issue_at rule error index))
    → b ≡ false
push_if-IsErrorFree false rule index h = refl
push_if-IsErrorFree true rule index h = cc

-- What spec and comments ask of a LOOP: at most five rounds, and a positive timeout.
unfoldable pub IsBounded : {V : Type 0} → Option (Operands V) → Type 0
IsBounded none = ⊥
IsBounded (some ops) =
    ((n : ℕ) × (ops.as_loop.max_iterations ≡ some n) × (n ≤ 5))
    × ((t : ℕ) × (ops.as_loop.timeout_ms ≡ some t) × (0 < t))

iteration_issues-bound :
    (index : ℕ) (m : Option ℕ)
    → IsErrorFree (iteration_issues index m)
    → (n : ℕ) × (m ≡ some n) × (n ≤ 5)
unfolding iteration_issues
iteration_issues-bound index none h = absurd (cc)
iteration_issues-bound index (some n) h =
    let small = push_if-IsErrorFree (ltb 5 n) "LOOP-003" index h in (n, refl, ground arith)

pub set_positive : (t : Option ℕ) → is_unset t ≡ false → (n : ℕ) × (t ≡ some n) × (0 < n)
set_positive none h = absurd (cc)
set_positive (some zero) h = absurd (cc)
set_positive (some (suc n)) h = (suc n, refl, omega arith)

loop_issues-IsBounded :
    {V : Type 0} (index : ℕ) (ops : Option (Operands V))
    → IsErrorFree (loop_issues index ops)
    → IsBounded ops
unfolding loop_issues IsBounded
loop_issues-IsBounded index none h = cc
loop_issues-IsBounded index (some ops) h =
    let l = ops.as_loop in
    let timeouts = push_if (is_unset l.timeout_ms) (issue_at "LOOP-004" error index) in
    let fallbacks =
      push_if (is_unset l.fallback_instruction && not (is_some l.convergence_predicate))
        (issue_at "LOOP-005" warn index) in
    let bounds = iteration_issues index l.max_iterations in
    let (first, _) = IsErrorFree-append (bounds ++ timeouts) fallbacks h in
    let (a, b) = IsErrorFree-append bounds timeouts first in
    (
      iteration_issues-bound index l.max_iterations a,
      set_positive l.timeout_ms (push_if-IsErrorFree _ "LOOP-004" index b),
    )

check_loop_bounds-IsBounded :
    {V : Type 0} (program : List (IrInstruction V))
    → IsErrorFree (check_loop_bounds program)
    → (i : IrInstruction V) → In i program
    → is_loop i.opcode ≡ true
    → IsBounded i.operands
unfolding check_loop_bounds
check_loop_bounds-IsBounded [] h i m looping = elim m [ ]
check_loop_bounds-IsBounded (j ∷ js) h i m looping =
    let (here, later) =
      IsErrorFree-append (if is_loop j.opcode then loop_issues j.index j.operands else [])
        (check_loop_bounds js) h in
    elim m [
      | inl same ↦
          let looping' : is_loop j.opcode ≡ true = rw (sym same) looping in
          rw same (loop_issues-IsBounded j.index j.operands (rw looping' at here))
      | inr there ↦ check_loop_bounds-IsBounded js later i there looping
    ]

-- The issues of an accepted program hold no error.
passed-IsErrorFree :
    (issues : List VerificationError) → (report_of issues).passed ≡ true → IsErrorFree issues
unfolding report_of
passed-IsErrorFree issues h = ground (arith)

-- No exception, and no error among the issues.
unfoldable pub IsClean : Option (List VerificationError) → Type 0
IsClean none = ⊥
IsClean (some issues) = IsErrorFree issues

pub chain-IsClean :
    (here later : Option (List VerificationError))
    → IsClean (chain here later)
    → IsClean here × IsClean later
unfolding chain IsClean
chain-IsClean none later h = absurd h
chain-IsClean (some here) none h = absurd h
chain-IsClean (some here) (some later) h = IsErrorFree-append here later h

reported-IsClean :
    (issues : Option (List VerificationError)) (report : VerificationReport)
    → reported issues ≡ some report
    → report.passed ≡ true
    → IsClean issues
unfolding reported IsClean
reported-IsClean none report e h = absurd (cc)
reported-IsClean (some issues) report e h =
    let same : report_of issues ≡ report = cc in
    passed-IsErrorFree issues (ap (λ r. r.passed) same ∙ h)

module _ (values : Values) (get_service : String → Option (ServiceManifest values.Value)) where
  -- `verify` passes a program only if each of the four rules below finds no error.
  pub verify-parts :
      (ir : ResolvedIr values.Value) (report : VerificationReport)
      → verify values get_service ir ≡ some report
      → report.passed ≡ true
      → (IsErrorFree (check_termination ir.instructions)
          × IsErrorFree (check_loop_bounds ir.instructions))
        × (IsErrorFree (check_type_flow ir) × IsClean (check_llm_call_safety ir.instructions))
  unfolding verify issues_of IsClean
  verify-parts ir report e h =
      let is = ir.instructions in
      let t = check_termination is in
      let l = check_loop_bounds is in
      let f = check_type_flow ir in
      let clean = reported-IsClean (issues_of values get_service ir) report e h in
      let (first, rest) = chain-IsClean (some (t ++ l ++ f)) (chain _ _) clean in
      let calls = (chain-IsClean (check_llm_call_safety is) _ rest).0 in
      let (two, flow) = IsErrorFree-append (t ++ l) f first in
      (IsErrorFree-append t l two, (flow, calls))

  -- In a program that `verify` passes, every LOOP instruction has operands with a maximal number of
  -- iterations of at most five and a timeout greater than zero.
  pub verify-IsBounded :
      (ir : ResolvedIr values.Value) (report : VerificationReport)
      → verify values get_service ir ≡ some report
      → report.passed ≡ true
      → (i : IrInstruction values.Value) → In i ir.instructions
      → is_loop i.opcode ≡ true
      → IsBounded i.operands
  verify-IsBounded ir report e h i m looping =
      check_loop_bounds-IsBounded ir.instructions (verify-parts ir report e h).0.1 i m looping
