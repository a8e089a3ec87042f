-- ===== src/Compiler/Verifier/Reads.antt =====
-- What an accepted program guarantees of the source registers of its instructions
-- (eyeflow-server/src/compiler/stages/stage-5-formal-verifier.service.ts, `checkTypeFlow`).
use mathlib.Core.Path.{subst}
use eyeflow.Common.{
  ℕ, ◌≡◌, ◌≢◌, refl, sym, ◌⊎◌, inl, inr, String, true, not, Option, none, some, List, [], ◌∷◌, ◌++◌,
  In, get_elem?, is_some, Bool-cases, Option-cases,
}
use eyeflow.Common.Eq.{◌==◌, nat_equality}
use eyeflow.Common.JsMap.{lookup, lookup-insert}
use eyeflow.Compiler.Ir.{IrInstruction, ResolvedIr, ServiceManifest, Values}
use eyeflow.Compiler.Verifier.{VerificationReport, error, issue_at, push_if}
use eyeflow.Compiler.Verifier.Rules.{
  Lattice, unwritten, validate_issues, define, infer_dest_type, flow_issues, check_type_flow,
  verify,
}
use eyeflow.Compiler.Verifier.Loops.{
  IsErrorFree, IsErrorFree-append, push_if-IsErrorFree, verify-parts,
}

-- The register is the `dest` of an instruction at one of the positions.
pub record IsDefined {V : Type 0} (program : List (IrInstruction V)) (order : List ℕ) (r : ℕ)
    : Type 0 where
  pub position : ℕ
  pub earlier : In position order
  pub definer : IrInstruction V
  pub found : get_elem? program position ≡ some definer
  pub defines : definer.dest ≡ some r

known-read :
    (lattice : Lattice) (index : ℕ) (src : List ℕ)
    → IsErrorFree (unwritten lattice index src)
    → (r : ℕ) → In r src
    → lookup r lattice ≢ none
unfolding unwritten
known-read lattice index [] h r m = elim m [ ]
known-read lattice index (s ∷ ss) h r m =
    let (here, later) =
      IsErrorFree-append
        (push_if (not (is_some (lookup s lattice))) (issue_at "TYPE-001" error index))
        (unwritten lattice index ss) h in
    elim m [
      | inl same ↦
          let known = push_if-IsErrorFree _ "TYPE-001" index here in
          subst (λ x. lookup x lattice ≢ none) (sym same)
            (λ absent. let clash = rw absent at known in cc)
      | inr there ↦ known-read lattice index ss later r there
    ]

-- A register is in the map after `define` if it was before or if it is the `dest`.
define-cases :
    {V : Type 0} (i : IrInstruction V) (lattice : Lattice) (r : ℕ)
    → lookup r (define i lattice) ≢ none
    → (lookup r lattice ≢ none) ⊎ (i.dest ≡ some r)
unfolding define
define-cases i lattice r h = elim (Option-cases i.dest) [
  | inl nothing ↦ inl (rw nothing at h)
  | inr (d, e) ↦ elim (Bool-cases (d == r)) [
    | inl same ↦ inr (rw (sym ((nat_equality.test_iff d r).0 same)) e)
    | inr other ↦ inl (λ absent.
        rw e at h (rw (lookup-insert d r (infer_dest_type i.opcode) lattice, other) absent))
  ]
]

module _ {V : Type 0} (program : List (IrInstruction V)) where
  later :
      (at : ℕ) (order : List ℕ) (r : ℕ)
      → IsDefined program order r
      → IsDefined program (at ∷ order) r
  later at order r w = record {
    position = w.position;
    earlier = inr w.earlier;
    definer = w.definer;
    found = w.found;
    defines = w.defines;
  }

  flow_issues-IsDefined :
      (before : List ℕ) (at : ℕ) (after : List ℕ) (lattice : Lattice)
      → IsErrorFree (flow_issues program (before ++ at ∷ after) lattice)
      → (i : IrInstruction V) → get_elem? program at ≡ some i
      → (r : ℕ) → In r i.src
      → (lookup r lattice ≢ none) ⊎ IsDefined program before r
  unfolding flow_issues
  flow_issues-IsDefined [] at after lattice h i found r m =
      let own = unwritten lattice i.index i.src in
      let types = validate_issues lattice i.opcode i.index i.src in
      let all = IsErrorFree-append (own ++ types) _ (rw (found, flow_issues) at h) in
      inl (known-read lattice i.index i.src (IsErrorFree-append own types all.0).0 r m)
  flow_issues-IsDefined (b ∷ before) at after lattice h i found r m =
      elim (Option-cases (get_elem? program b)) [
        | inl nothing ↦
            elim (flow_issues-IsDefined before at after lattice (rw (nothing, flow_issues) at h) i
              found r m) [ inl known ↦ inl known | inr w ↦ inr (later b before r w) ]
        | inr (j, e) ↦
            let here =
              unwritten lattice j.index j.src ++ validate_issues lattice j.opcode j.index j.src in
            let rest = (IsErrorFree-append here _ (rw (e, flow_issues) at h)).1 in
            elim (flow_issues-IsDefined before at after (define j lattice) rest i found r m) [
              | inl known ↦ elim (define-cases j lattice r known) [
                | inl old ↦ inl old
                | inr writes ↦ inr (record {
                  position = b;
                  earlier = inl refl;
                  definer = j;
                  found = e;
                  defines = writes;
                })
              ]
              | inr w ↦ inr (later b before r w)
            ]
      ]

-- In a program that `verify` passes, every register of the `src` list of an instruction at a
-- position of the instruction order is the input register or the `dest` of an instruction at an
-- earlier position, of whatever opcode. Registers that an instruction reads in other ways are not
-- covered.
pub verify-IsDefined :
    (values : Values) (get_service : String → Option (ServiceManifest values.Value))
    (ir : ResolvedIr values.Value) (report : VerificationReport)
    → verify values get_service ir ≡ some report
    → report.passed ≡ true
    → (before : List ℕ) (at : ℕ) (after : List ℕ) → ir.instruction_order ≡ before ++ at ∷ after
    → (i : IrInstruction values.Value) → get_elem? ir.instructions at ≡ some i
    → (r : ℕ) → In r i.src
    → (r ≡ ir.input_register) ⊎ IsDefined ir.instructions before r
unfolding check_type_flow lookup
verify-IsDefined values get_service ir report e h before at after order i found r m =
    let initial : Lattice = (ir.input_register, none) ∷ [] in
    let flow = (verify-parts values get_service ir report e h).1.0 in
    let flow' = subst (λ o. IsErrorFree (flow_issues ir.instructions o initial)) order flow in
    elim (flow_issues-IsDefined ir.instructions before at after initial flow' i found r m) [
      | inl known ↦ elim (Bool-cases (ir.input_register == r)) [
        | inl same ↦ inl (sym ((nat_equality.test_iff ir.input_register r).0 same))
        | inr other ↦ absurd (known (rw (lookup, other) refl))
      ]
      | inr w ↦ inr w
    ]
