-- ===== src/Runtime/SemanticVm/Dependents.antt =====
-- Slices that wait for others, in distributed runs:
-- eyeflow-server/src/runtime/semantic-vm.service.ts.
use eyeflow.Common.{
  ℕ, ◌≡◌, refl, sym, ap, ◌∙◌, inl, inr, String, Bool, true, false, not, ◌&&◌, ◌||◌, List, [], ◌∷◌,
  keep, Bool-cases, Option-cases,
}
use eyeflow.Compiler.Ir.{ResolvedIr}
use eyeflow.Runtime.Host.{Host}
use eyeflow.Runtime.SemanticVm.{Services}
use eyeflow.Runtime.SemanticVm.Slices.{
  ExecutionSlice, DistributedExecutionPlan, Nodes, is_central, find_central,
}
use eyeflow.Runtime.SemanticVm.Distributed.{is_dispatched, run_plan, execute_distributed}

keep_yes {ℓ} :
    {A : Type ℓ} (p : A → Bool) (x : A) (xs : List A) → p x ≡ true → keep p (x ∷ xs) ≡ x ∷ keep p xs
keep_yes p x xs h = rw (h, keep) refl

keep_no {ℓ} :
    {A : Type ℓ} (p : A → Bool) (x : A) (xs : List A) → p x ≡ false → keep p (x ∷ xs) ≡ keep p xs
keep_no p x xs h = rw (h, keep) refl

module _ {V : Type 0} where
  abbrev takes_part : ExecutionSlice V → Bool
  takes_part s = is_central s || s.is_root

  keep_dispatched :
      (ss : List (ExecutionSlice V))
      → keep is_dispatched (keep takes_part ss) ≡ keep is_dispatched ss
  keep_dispatched [] = refl
  keep_dispatched (s ∷ ss) =
      let ih = keep_dispatched ss in
      elim (Bool-cases (is_central s)) [
        | inl central ↦
            let out = ap (λ b. not b && s.is_root) central in
            ap (keep is_dispatched) (keep_yes takes_part s ss (ap (λ b. b || s.is_root) central))
            ∙ keep_no is_dispatched s (keep takes_part ss) out
            ∙ ih
            ∙ sym (keep_no is_dispatched s ss out)
        | inr remote ↦ elim (Bool-cases s.is_root) [
          | inl root ↦
              let goes = ap (λ b. not b && s.is_root) remote ∙ root in
              ap (keep is_dispatched)
                (keep_yes takes_part s ss (ap (λ b. b || s.is_root) remote ∙ root))
              ∙ keep_yes is_dispatched s (keep takes_part ss) goes
              ∙ ap (λ rest. s ∷ rest) ih
              ∙ sym (keep_yes is_dispatched s ss goes)
          | inr dependent ↦
              ap (keep is_dispatched)
                (keep_no takes_part s ss (ap (λ b. b || s.is_root) remote ∙ dependent))
              ∙ ih
              ∙ sym (keep_no is_dispatched s ss (ap (λ b. not b && s.is_root) remote ∙ dependent))
        ]
      ]

  find_central-keep :
      (ss : List (ExecutionSlice V)) → find_central (keep takes_part ss) ≡ find_central ss
  unfolding find_central
  find_central-keep [] = refl
  find_central-keep (s ∷ ss) =
      let ih = find_central-keep ss in
      elim (Bool-cases (is_central s)) [
        | inl central ↦
            ap find_central (keep_yes takes_part s ss (ap (λ b. b || s.is_root) central))
            ∙ rw central refl
        | inr remote ↦ elim (Bool-cases s.is_root) [
          | inl root ↦
              ap find_central (keep_yes takes_part s ss (ap (λ b. b || s.is_root) remote ∙ root))
              ∙ rw remote ih
          | inr dependent ↦
              ap find_central
                (keep_no takes_part s ss (ap (λ b. b || s.is_root) remote ∙ dependent))
              ∙ rw remote ih
        ]
      ]

  -- The plan without the remote slices that are no roots.
  abbrev pub without_dependents : DistributedExecutionPlan V → DistributedExecutionPlan V
  without_dependents plan = record plan { slices = keep takes_part plan.slices }

module _ {host : Host} {World : Type 0} (services : Services host World)
    (nodes : Nodes host.values.Value World) where
  -- A remote slice that waits for another one, and so is no root of the plan, is never run: a
  -- distributed run ends alike without these slices.
  pub execute_distributed-without_dependents :
      (ir : ResolvedIr host.values.Value) (output_register : ℕ)
      (user_inputs : List (String × host.values.Value))
      (plan : DistributedExecutionPlan host.values.Value) (world : World)
      → execute_distributed services nodes ir output_register user_inputs
          (without_dependents plan)
          world
        ≡ execute_distributed services nodes ir output_register user_inputs plan world
  unfolding execute_distributed run_plan
  execute_distributed-without_dependents ir output_register user_inputs plan world =
      let found = find_central-keep plan.slices in
      let same = keep_dispatched plan.slices in
      elim (Option-cases (find_central plan.slices)) [
        | inl absent ↦ rw (found, absent, execute_distributed) refl
        | inr (central, there) ↦ rw (found, there, execute_distributed) (rw (same, run_plan) refl)
      ]
