-- ===== src/Runtime/SemanticVm/Frame.antt =====
-- Every instruction keeps to its own registers: `executeInstruction` of
-- eyeflow-server/src/runtime/semantic-vm.service.ts.
use eyeflow.Common.{
  ℕ, ◌≡◌, refl, ap, ◌∙◌, inl, inr, String, Bool, Option, none, some, List, [], ◌∷◌, ◌++◌, arith,
  length, In, Bool-cases, Option-cases, ltb, ◌&&◌,
}
use eyeflow.Common.Eq.{nat_equality}
use eyeflow.Common.JsMap.{lookup}
use eyeflow.Compiler.Ir.{
  IrOpcode, load_resource, store_memory, validate, branch, loop, jump, call_service, call_action,
  call_mcp, transform, aggregate, filter, parallel_spawn, parallel_merge, llm_call, trigger,
  event_state_machine, propagate_event, handle_propagated, remote_command, handle_remote_cmd,
  return, IrInstruction,
}
use eyeflow.Runtime.Host.{Host, Registers, get}
use eyeflow.Runtime.PhysicalControl.{
  PhysicalActionOperands, Postcondition, PhysicalOutcome, blocked, failed, reported,
  PhysicalContext, write_output, perform, window_allows, waits, execute_physical_action,
}
use eyeflow.Runtime.SemanticVm.{ExecutionContext, ok, Services, set, append_audit}
use eyeflow.Runtime.SemanticVm.Outcomes.{Meets, IsOperational}
use eyeflow.Runtime.SemanticVm.Effects.{
  given, post_register, insert-frame, Effect, no_change-Effect, write-Effect, Fits, action_targets,
  targets, transfer-Fits, handle_call_service-Fits,
}
use eyeflow.Runtime.SemanticVm.Actions.{
  stub_executor, finish_action, call_physical, act_on, call_action_with, values_of,
  handle_call_action,
}
use eyeflow.Runtime.SemanticVm.Instructions.{
  handle_load_resource, handle_validate, store_from, handle_store_memory, perform_opcode,
  first_source, as_list, all_sources, key_of, int32_limit, handle_transform, handle_filter,
  handle_aggregate, execute_instruction,
}

module _ (host : Host) where
  write_output-frame :
      (post : Option (Postcondition host.values.Value)) (output : host.values.Value)
      (registers : Registers host) (r : ℕ)
      → ¬ (In r (post_register post))
      → lookup r (write_output host post output registers) ≡ lookup r registers
  unfolding write_output
  write_output-frame none output registers r outside = refl
  write_output-frame (some post) output registers r outside =
      elim (Option-cases post.register_index) [
        | inl absent ↦ rw (absent, write_output) refl
        | inr (s, there) ↦
            rw (there, write_output)
              (insert-frame r s output registers (λ same. rw there at outside (inl same)))
      ]

  -- A physical action writes no register but that of its postcondition.
  execute_physical_action-frame :
      {World : Type 0} (executor : World → World × Option host.values.Value)
      (outside : PhysicalContext host) (ops : PhysicalActionOperands host.values.Value)
      (began ended : ℕ) (cancelled : Bool) (world : World) (registers : Registers host) (r : ℕ)
      → ¬ (In r (post_register ops.postcondition))
      → lookup r
          (execute_physical_action host executor outside ops began ended cancelled world
            registers).0.1
        ≡ lookup r registers
  unfolding execute_physical_action perform
  execute_physical_action-frame executor outside ops began ended cancelled world registers r h =
      elim (Bool-cases (window_allows host outside.calendar began ops.time_window)) [
        | inr shut ↦ rw (shut, execute_physical_action) refl
        | inl fits ↦ elim (Bool-cases (waits host ops.cancellation_window_ms && cancelled)) [
          | inl stop ↦ rw (fits, stop, execute_physical_action) refl
          | inr go ↦ elim (Option-cases (executor world).1) [
            | inl refused ↦ rw (fits, go, refused, execute_physical_action, perform) refl
            | inr (output, answered) ↦
                rw (fits, go, answered, execute_physical_action, perform)
                  (write_output-frame ops.postcondition output registers r h)
          ]
        ]
      ]

module _ {host : Host} {World : Type 0} (services : Services host World) where
  abbrev Value : Type 0
  Value = host.values.Value

  abbrev Context : Type 0
  Context = ExecutionContext host World

  finish_action-Fits :
      (index dest : ℕ) (ts : List ℕ) (c c1 : Context) (world : World) (registers : Registers host)
      (outcome : PhysicalOutcome)
      → c1.services_called ≡ c.services_called
      → ((r : ℕ) → ¬ (In r ts) → lookup r registers ≡ lookup r c.registers)
      → Fits services (dest ∷ ts) c (finish_action services index dest c1 world registers outcome)
  unfolding finish_action set append_audit
  finish_action-Fits index dest ts c c1 world registers blocked calls frame = tt
  finish_action-Fits index dest ts c c1 world registers failed calls frame = tt
  finish_action-Fits index dest ts c c1 world registers (reported result) calls frame = record {
    frame = λ r outside.
        insert-frame r dest _ registers (λ same. outside (inl same))
        ∙ frame r (λ m. outside (inr m));
    calls = let e = ap length calls in omega arith;
  }

  act_on-Fits :
      (control : Option (PhysicalContext host)) (index dest : ℕ)
      (ops : PhysicalActionOperands Value) (c : Context)
      → Fits services
          (dest ∷ post_register ops.postcondition)
          c
          (act_on services control index dest ops c)
  unfolding act_on call_physical set
  act_on-Fits none index dest ops c = write-Effect dest _ _ c _ refl (omega arith)
  act_on-Fits (some control) index dest ops c =
      finish_action-Fits index dest (post_register ops.postcondition) c c _ _ _ refl (
        execute_physical_action-frame host (stub_executor services ops) control ops _ _ _ _
          c.registers)

  call_action_with-Fits :
      (index dest : ℕ) (operands : List (String × Value)) (c : Context)
      → Fits services
          (dest ∷ post_register (services.as_action operands).postcondition)
          c
          (call_action_with services index dest operands c)
  unfolding call_action_with append_audit
  call_action_with-Fits index dest operands c =
      transfer-Fits services _ c _ _ refl refl
        (act_on-Fits services.physical_control index dest (services.as_action operands) _)

  handle_call_action-Fits :
      (i : IrInstruction Value) (c : Context)
      → Fits services
          (given i.dest ++ action_targets services call_action i.operands)
          c
          (handle_call_action services i c)
  unfolding handle_call_action
  handle_call_action-Fits i c = elim (Option-cases i.dest) [
    | inl absent ↦ rw (absent, handle_call_action) tt
    | inr (dest, there) ↦
        rw (there, handle_call_action)
          (call_action_with-Fits i.index dest (values_of services i.operands) c)
  ]

  handle_load_resource-Fits :
      (i : IrInstruction Value) (ts : List ℕ) (c : Context)
      → Fits services (given i.dest ++ ts) c (handle_load_resource services i c)
  unfolding handle_load_resource set
  handle_load_resource-Fits i ts c = elim (Option-cases i.dest) [
    | inl absent ↦ rw (absent, handle_load_resource) tt
    | inr (dest, there) ↦
        rw (there, handle_load_resource) (write-Effect dest ts _ c _ refl (omega arith))
  ]

  handle_validate-Fits :
      (i : IrInstruction Value) (ts : List ℕ) (c : Context)
      → Fits services ts c (handle_validate services i c)
  unfolding handle_validate
  handle_validate-Fits i ts c = go i.src
    where
      go : (rs : List ℕ) → Fits services ts c (handle_validate services (record i { src = rs }) c)
      go [] = tt
      go (r ∷ rs) = elim (Bool-cases (host.is_nullish (get host r c.registers))) [
        | inl nullish ↦ rw nullish tt
        | inr there ↦ rw there (no_change-Effect ts c c refl refl)
      ]

  store_from-Fits :
      (f : ℕ → List ℕ → Context → Value) (i : IrInstruction Value) (ts : List ℕ) (c : Context)
      → Fits services (given i.dest ++ ts) c (store_from services f i c)
  unfolding store_from set
  store_from-Fits f i ts c = go i.src i.dest
    where
      go :
          (rs : List ℕ) (dest : Option ℕ)
          → Fits services
              (given dest ++ ts)
              c
              (store_from services f (record i { src = rs; dest = dest }) c)
      go [] dest = tt
      go (r ∷ rs) none = tt
      go (r ∷ rs) (some dest) = write-Effect dest ts _ c _ refl (omega arith)

  handle_store_memory-Fits :
      (i : IrInstruction Value) (ts : List ℕ) (c : Context)
      → Fits services ts c (handle_store_memory services i c)
  unfolding handle_store_memory
  handle_store_memory-Fits i ts c = go i.src
    where
      go :
          (rs : List ℕ)
          → Fits services ts c (handle_store_memory services (record i { src = rs }) c)
      go [] = tt
      go (r ∷ rs) = elim (Option-cases (key_of services i.operands)) [
        | inl no_key ↦ rw (no_key, handle_store_memory) tt
        | inr (key, k) ↦ elim (Option-cases (services.first_code key)) [
          | inl empty ↦ rw (k, empty, handle_store_memory) tt
          | inr (code, coded) ↦ elim (Bool-cases (ltb r int32_limit)) [
            | inl small ↦
                rw (k, coded, small, handle_store_memory) (no_change-Effect ts c _ refl refl)
            | inr large ↦ rw (k, coded, large, handle_store_memory) tt
          ]
        ]
      ]

  -- An instruction that does not throw changes no register but its destination and, for a
  -- CALL_ACTION, the register of its postcondition, and adds at most one entry to the calls; if it
  -- throws, then not the exception about missing operands of a LOOP.
  pub execute_instruction-Effect :
      (i : IrInstruction Value) (c : Context)
      → Meets (Effect (targets services i) c) IsOperational (execute_instruction services i c)
  unfolding execute_instruction perform_opcode handle_transform handle_filter handle_aggregate
  execute_instruction-Effect i c = go i.opcode
    where
      still : (ts : List ℕ) → Fits services ts c (ok c)
      still ts = no_change-Effect ts c c refl refl

      go :
          (op : IrOpcode)
          → Fits services
              (given i.dest ++ action_targets services op i.operands)
              c
              (perform_opcode services op i c)
      go load_resource = handle_load_resource-Fits i [] c
      go validate = handle_validate-Fits i _ c
      go call_service = handle_call_service-Fits services i [] c
      go call_action = handle_call_action-Fits i c
      go call_mcp = handle_call_service-Fits services i [] c
      go transform = store_from-Fits (first_source services) i [] c
      go filter = store_from-Fits (as_list services) i [] c
      go aggregate = store_from-Fits (all_sources services) i [] c
      go store_memory = handle_store_memory-Fits i _ c
      go llm_call = handle_call_service-Fits services i [] c
      go parallel_spawn = still _
      go parallel_merge = still _
      go branch = still _
      go jump = still _
      go loop = still _
      go return = still _
      go trigger = still _
      go event_state_machine = still _
      go propagate_event = still _
      go handle_propagated = still _
      go remote_command = still _
      go handle_remote_cmd = still _
