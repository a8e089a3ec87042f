-- ===== src/Runtime/SemanticVm/Steering.antt =====
-- The targets of branches, jumps and fallbacks on the virtual machine:
-- eyeflow-server/src/runtime/semantic-vm.service.ts.
use eyeflow.Common.{
  ℕ, zero, suc, ◌≡◌, refl, sym, ap, ◌∙◌, inl, inr, Option, none, some, List, [], ◌∷◌, map,
  get_elem?, Option-cases,
}
use eyeflow.Common.Eq.{nat_equality}
use eyeflow.Compiler.Ir.{
  IrOpcode, call_action, store_memory, load_resource, validate, branch, loop, jump, call_service,
  call_mcp, transform, aggregate, filter, parallel_spawn, parallel_merge, llm_call, trigger,
  event_state_machine, propagate_event, handle_propagated, remote_command, handle_remote_cmd,
  return, LoopOperands, Operands, IrInstruction, ResolvedIr,
}
use eyeflow.Runtime.Host.{Host}
use eyeflow.Runtime.SemanticVm.{ExecutionContext, Outcome, ok, thrown, and_then, Services}
use eyeflow.Runtime.SemanticVm.Calls.{handle_call_service}
use eyeflow.Runtime.SemanticVm.Actions.{handle_call_action}
use eyeflow.Runtime.SemanticVm.Instructions.{
  handle_load_resource, handle_validate, handle_transform, handle_filter, handle_aggregate,
  store_from, handle_store_memory, perform_opcode, execute_instruction,
}
use eyeflow.Runtime.SemanticVm.Loops.{execute_body}

-- The outcome, seen through `f`.
abbrev pub map_outcome {ℓ κ} : {A : Type ℓ} {B : Type κ} → (A → B) → Outcome A → Outcome B
map_outcome f (ok a) = ok (f a)
map_outcome f (thrown e) = thrown e

ok-injective {ℓ} : {A : Type ℓ} (a b : A) → ok a ≡ ok b → a ≡ b
ok-injective a b h = cc

-- Two steps that agree through `view`, followed by two that agree on what agrees.
pub and_then-agree {ℓ κ ℓ' κ'} :
    {A : Type ℓ} {S : Type κ} {B : Type ℓ'} {R : Type κ'} (view : A → S) (r : B → R)
    (o o' : Outcome A) (f f' : A → Outcome B)
    → map_outcome view o ≡ map_outcome view o'
    → ((a a' : A) → view a ≡ view a' → map_outcome r (f a) ≡ map_outcome r (f' a'))
    → map_outcome r (and_then o f) ≡ map_outcome r (and_then o' f')
unfolding and_then
and_then-agree view r (ok a) (ok a') f f' h k = k a a' (ok-injective (view a) (view a') h)
and_then-agree view r (ok a) (thrown e') f f' h k = cc
and_then-agree view r (thrown e) (ok a') f f' h k = cc
and_then-agree view r (thrown e) (thrown e') f f' h k = cc

pub map_outcome-same {ℓ} : {A : Type ℓ} (o : Outcome A) → map_outcome (λ a. a) o ≡ o
map_outcome-same (ok a) = refl
map_outcome-same (thrown e) = refl

pub get_elem?-map {ℓ κ} :
    {A : Type ℓ} {B : Type κ} (f : A → B) (xs : List A) (n : ℕ)
    → get_elem? (map f xs) n ≡ elim (get_elem? xs n) [ none ↦ none | some a ↦ some (f a) ]
get_elem?-map f [] n = refl
get_elem?-map f (x ∷ xs) zero = refl
get_elem?-map f (x ∷ xs) (suc n) = get_elem?-map f xs n

abbrev pub steer_fallback : ℕ → Option ℕ → Option ℕ
steer_fallback fallback none = none
steer_fallback fallback (some f) = some fallback

module _ {V : Type 0} (fallback : ℕ) (target : Option ℕ) where
  abbrev pub steer_loop : LoopOperands V → LoopOperands V
  steer_loop ops = record ops {
    fallback_instruction = steer_fallback fallback ops.fallback_instruction;
  }

  abbrev pub steer_operands : Option (Operands V) → Option (Operands V)
  steer_operands none = none
  steer_operands (some ops) = some (record ops { as_loop = steer_loop ops.as_loop })

  abbrev pub steer_instruction : IrInstruction V → IrInstruction V
  steer_instruction i = record i {
    target_instruction = target;
    operands = steer_operands i.operands;
  }

  -- All targets are replaced by `target`, and all fallbacks that are given by `fallback`.
  abbrev pub steer : ResolvedIr V → ResolvedIr V
  steer ir = record ir { instructions = map steer_instruction ir.instructions }

module _ {host : Host} {World : Type 0} where
  abbrev pub placed : ℕ → ExecutionContext host World → ExecutionContext host World
  placed at c = record c { current_instruction_index = at }

  -- A context without its instruction index.
  abbrev pub unplaced : ExecutionContext host World → ExecutionContext host World
  unplaced c = record c { current_instruction_index = 0 }

module _ {host : Host} {World : Type 0} (services : Services host World) (fallback : ℕ)
    (target : Option ℕ) where
  abbrev Value : Type 0
  Value = host.values.Value

  abbrev Context : Type 0
  Context = ExecutionContext host World

  pub execute_instruction-steer :
      (i : IrInstruction Value) (c : Context)
      → execute_instruction services (steer_instruction fallback target i) c
        ≡ execute_instruction services i c
  unfolding execute_instruction perform_opcode handle_load_resource handle_validate handle_transform
      handle_filter handle_aggregate store_from handle_store_memory handle_call_service
      handle_call_action
  execute_instruction-steer i c = go i.opcode i.operands
    where
      go :
          (op : IrOpcode) (operands : Option (Operands Value))
          → perform_opcode services op
              (record i {
                operands = steer_operands fallback target operands;
                target_instruction = target;
              })
              c
            ≡ perform_opcode services op (record i { operands = operands }) c
      go load_resource operands = refl
      go validate operands = refl
      go branch operands = refl
      go loop operands = refl
      go jump operands = refl
      go call_service operands = refl
      go call_mcp operands = refl
      go transform operands = refl
      go aggregate operands = refl
      go filter operands = refl
      go parallel_spawn operands = refl
      go parallel_merge operands = refl
      go llm_call operands = refl
      go trigger operands = refl
      go event_state_machine operands = refl
      go propagate_event operands = refl
      go handle_propagated operands = refl
      go remote_command operands = refl
      go handle_remote_cmd operands = refl
      go return operands = refl
      go call_action none = refl
      go call_action (some ops) = refl
      go store_memory none = refl
      go store_memory (some ops) = refl

  pub execute_body-steer :
      (ir : ResolvedIr Value) (body : List ℕ) (c : Context)
      → execute_body services (steer fallback target ir) body c ≡ execute_body services ir body c
  unfolding execute_body
  execute_body-steer ir [] c = refl
  execute_body-steer ir (at ∷ rest) c =
      let read = get_elem?-map (steer_instruction fallback target) ir.instructions at in
      elim (Option-cases (get_elem? ir.instructions at)) [
        | inl missing ↦ rw (read, missing, execute_body) refl
        | inr (i, found) ↦
            let c' : Context = record c { current_instruction_index = i.index } in
            let agree =
              and_then-agree (λ d. d) (λ d. d)
                (execute_instruction services (steer_instruction fallback target i) c')
                (execute_instruction services i c')
                (execute_body services (steer fallback target ir) rest)
                (execute_body services ir rest)
                (ap (map_outcome (λ d. d)) (execute_instruction-steer i c'))
                (λ a a' same.
                  ap (λ o. map_outcome (λ d. d) o)
                    (execute_body-steer ir rest a ∙ ap (execute_body services ir rest) same)) in
            rw (read, found, execute_body) (sym (map_outcome-same _) ∙ agree ∙ map_outcome-same _)
      ]
