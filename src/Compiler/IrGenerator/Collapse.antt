-- ===== src/Compiler/IrGenerator/Collapse.antt =====
-- Folded constants under common subexpression elimination:
-- eyeflow-server/src/compiler/ir-generator/services/constant-folding.service.ts and
-- eyeflow-server/src/compiler/ir-generator/services/ir-optimizer.service.ts.
use eyeflow.Common.{
  ℕ, suc, ◌≤◌, ◌≡◌, refl, sym, ap, ◌∙◌, inl, inr, String, true, none, some, List, [], ◌∷◌, ◌++◌,
  arith, length, is_some, All, Bool-cases, Option-cases, if◌then◌else◌,
}
use eyeflow.Common.Eq.{eq_same, string_equality}
use eyeflow.Common.JsMap.{lookup, insert, lookup-insert}
use eyeflow.Compiler.IrGenerator.{Operand, IrInstruction, ClassifiedVariable, OptimizationPlan}
use eyeflow.Compiler.IrGenerator.Folding.{
  is_constant, is_computed, generate_from, generate_constant_instructions, precompute_from,
  precompute_expressions, fold_constants,
}
use eyeflow.Compiler.IrGenerator.Optimizer.{operand_key, perform_cse}
use eyeflow.Compiler.IrGenerator.Elimination.{IsUnique, first_of_each, perform_cse-first_of_each}

abbrev HasNoOperands : IrInstruction → Type 0
HasNoOperands i = i.operands ≡ []

All-append :
    (P : IrInstruction → Type 0) (xs ys : List IrInstruction)
    → All P xs
    → All P ys
    → All P (xs ++ ys)
All-append P [] ys h k = k
All-append P (x ∷ xs) ys h k = (h.0, All-append P xs ys h.1 k)

module _ (decimal : ℕ → String) where
  generate_from-HasNoOperands :
      (index : ℕ) (entries : List (String × ClassifiedVariable))
      → All HasNoOperands (generate_from decimal index entries)
  unfolding generate_from
  generate_from-HasNoOperands index [] = tt
  generate_from-HasNoOperands index ((name, v) ∷ rest) =
      elim (Bool-cases (is_constant v.classification)) [
        | inl held ↦ rw (held, generate_from) (refl, generate_from-HasNoOperands (suc index) rest)
        | inr other ↦ rw (other, generate_from) (generate_from-HasNoOperands index rest)
      ]

  precompute_from-HasNoOperands :
      (index : ℕ) (entries : List (String × ClassifiedVariable))
      → All HasNoOperands (precompute_from decimal index entries)
  unfolding precompute_from
  precompute_from-HasNoOperands index [] = tt
  precompute_from-HasNoOperands index ((name, v) ∷ rest) =
      elim (Bool-cases (is_computed v.classification)) [
        | inl held ↦
            rw (held, precompute_from) (refl, precompute_from-HasNoOperands (suc index) rest)
        | inr other ↦ rw (other, precompute_from) (precompute_from-HasNoOperands index rest)
      ]

  fold_constants-HasNoOperands :
      (plan : OptimizationPlan) → All HasNoOperands (fold_constants decimal plan).instructions
  unfolding fold_constants generate_constant_instructions precompute_expressions
  fold_constants-HasNoOperands plan = elim (Option-cases plan.classifications_map) [
    | inl absent ↦
        rw (absent, fold_constants, generate_constant_instructions, precompute_expressions) tt
    | inr (entries, there) ↦
        rw (there, fold_constants, generate_constant_instructions, precompute_expressions)
          (All-append HasNoOperands (generate_from decimal 0 entries)
            (precompute_from decimal 100 entries) (generate_from-HasNoOperands 0 entries)
            (precompute_from-HasNoOperands 100 entries))
  ]

module _ (stringify : List Operand → String) where
  -- Once the key of empty operands is known, none is kept; otherwise one at most.
  first_of_each-none :
      (is : List IrInstruction) (seen : List (String × String))
      → All HasNoOperands is
      → is_some (lookup (stringify []) seen) ≡ true
      → first_of_each stringify is seen ≡ []
  first_of_each-none [] seen h known = refl
  first_of_each-none (i ∷ is) seen h known =
      let known' : is_some (lookup (operand_key stringify i) seen) ≡ true =
        ap (λ os. is_some (lookup (stringify os) seen)) h.0 ∙ known in
      rw known' (first_of_each-none is seen h.1 known)

  first_of_each-one :
      (is : List IrInstruction) → All HasNoOperands is → length (first_of_each stringify is []) ≤ 1
  unfolding lookup insert
  first_of_each-one [] h = omega arith
  first_of_each-one (i ∷ is) h =
      let key = operand_key stringify i in
      let known : is_some (lookup (stringify []) (insert key i.id [])) ≡ true =
        ap (λ os. is_some (lookup (stringify os) (insert key i.id []))) (sym h.0)
        ∙ ap is_some (lookup-insert key key i.id [])
        ∙ ap (λ b. is_some (if b then some i.id else none)) (eq_same key) in
      let nothing = first_of_each-none is (insert key i.id []) h.1 known in
      let short = ap length nothing in omega arith

  -- Of the instructions that constant folding makes of a plan, common subexpression elimination
  -- leaves at most one, however many constants the plan has, as all of them have no operands; their
  -- ids are distinct.
  pub fold_constants-collapse :
      (decimal : ℕ → String) (plan : OptimizationPlan)
      → IsUnique (fold_constants decimal plan).instructions
      → length (perform_cse stringify (fold_constants decimal plan).instructions).instructions ≤ 1
  fold_constants-collapse decimal plan unique =
      let same =
        ap length
          (perform_cse-first_of_each stringify (fold_constants decimal plan).instructions unique) in
      let one =
        first_of_each-one (fold_constants decimal plan).instructions
          (fold_constants-HasNoOperands decimal plan) in
      omega arith
