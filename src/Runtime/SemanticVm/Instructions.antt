-- ===== src/Runtime/SemanticVm/Instructions.antt =====
-- `executeInstruction` and the handlers without services, in
-- eyeflow-server/src/runtime/semantic-vm.service.ts.
use eyeflow.Common.{
  ℕ, ◌-◌, ◌*◌, ◌%◌, String, Option, none, some, List, [], ◌∷◌, map, if◌then◌else◌, ltb,
}
use eyeflow.Common.Eq.{string_equality}
use eyeflow.Common.JsMap.{lookup}
use eyeflow.Compiler.Ir.{
  IrOpcode, load_resource, store_memory, validate, branch, loop, call_service, call_action,
  call_mcp, transform, aggregate, filter, parallel_spawn, parallel_merge, llm_call, return,
  Operands, IrInstruction,
}
use eyeflow.Runtime.Host.{Host, get}
use eyeflow.Runtime.SemanticVm.{
  ExecutionContext, missing_dest, missing_src, null_register, out_of_range, Outcome, ok, thrown,
  Services, set, write_int32_le,
}
use eyeflow.Runtime.SemanticVm.Calls.{handle_call_service}
use eyeflow.Runtime.SemanticVm.Actions.{handle_call_action, values_of}

abbrev pub memory_size : ℕ
memory_size = 10 * 1024 * 1024

abbrev pub int32_limit : ℕ
int32_limit = 2147483648

module _ {host : Host} {World : Type 0} (services : Services host World) where
  abbrev Value : Type 0
  Value = host.values.Value

  abbrev Context : Type 0
  Context = ExecutionContext host World

  unfoldable pub handle_load_resource : IrInstruction Value → Context → Outcome Context
  unfolding set
  handle_load_resource i c = elim i.dest [
    | none ↦ thrown missing_dest
    | some dest ↦ ok (set dest services.resource c)
  ]

  unfoldable pub handle_validate : IrInstruction Value → Context → Outcome Context
  unfolding get
  handle_validate i c = elim i.src [
    | [] ↦ thrown missing_src
    | r ∷ rs ↦ if host.is_nullish (get host r c.registers) then thrown null_register else ok c
  ]

  -- TRANSFORM, FILTER and AGGREGATE store what `f` makes of their sources.
  unfoldable pub store_from :
      (ℕ → List ℕ → Context → Value) → IrInstruction Value → Context → Outcome Context
  unfolding set
  store_from f i c = elim i.src [
    | [] ↦ thrown missing_src
    | r ∷ rs ↦ elim i.dest [ none ↦ thrown missing_src | some dest ↦ ok (set dest (f r rs c) c) ]
  ]

  -- What the three store: the first source, as an array, and all sources.
  abbrev pub first_source : ℕ → List ℕ → Context → Value
  first_source r rs c = get host r c.registers

  abbrev pub as_list : ℕ → List ℕ → Context → Value
  as_list r rs c =
      let v = get host r c.registers in
      elim (host.as_array v) [ none ↦ host.array (v ∷ []) | some vs ↦ v ]

  abbrev pub all_sources : ℕ → List ℕ → Context → Value
  all_sources r rs c = host.array (map (λ s. get host s c.registers) (r ∷ rs))

  unfoldable pub handle_transform : IrInstruction Value → Context → Outcome Context
  unfolding store_from get
  handle_transform = store_from first_source

  unfoldable pub handle_filter : IrInstruction Value → Context → Outcome Context
  unfolding store_from get
  handle_filter = store_from as_list

  unfoldable pub handle_aggregate : IrInstruction Value → Context → Outcome Context
  unfolding store_from get
  handle_aggregate = store_from all_sources

  -- `operands?.key ?? 'default'`; a key that is no text is `none`.
  abbrev pub key_of : Option (Operands Value) → Option String
  key_of operands = elim (lookup "key" (values_of services operands)) [
    | none ↦ some "default"
    | some v ↦ if host.is_nullish v then some "default" else host.as_text v
  ]

  -- The number of the register is written, not its value.
  unfoldable pub handle_store_memory : IrInstruction Value → Context → Outcome Context
  unfolding write_int32_le
  handle_store_memory i c = elim i.src [
    | [] ↦ thrown missing_src
    | r ∷ rs ↦ elim (key_of i.operands) [
      | none ↦ thrown out_of_range
      | some key ↦ elim (services.first_code key) [
        | none ↦ thrown out_of_range
        | some code ↦
            let offset = code % (memory_size - 4) in
            if ltb r int32_limit
            then ok (record c { memory = write_int32_le r offset c.memory })
            else thrown out_of_range
      ]
    ]
  ]

  -- Every other opcode is only logged.
  unfoldable pub perform_opcode : IrOpcode → IrInstruction Value → Context → Outcome Context
  unfolding handle_load_resource handle_validate handle_call_service handle_call_action
      handle_transform handle_filter handle_aggregate handle_store_memory
  perform_opcode load_resource i c = handle_load_resource i c
  perform_opcode validate i c = handle_validate i c
  perform_opcode call_service i c = handle_call_service services i c
  perform_opcode call_action i c = handle_call_action services i c
  perform_opcode call_mcp i c = handle_call_service services i c
  perform_opcode transform i c = handle_transform i c
  perform_opcode filter i c = handle_filter i c
  perform_opcode aggregate i c = handle_aggregate i c
  perform_opcode store_memory i c = handle_store_memory i c
  perform_opcode parallel_spawn i c = ok c
  perform_opcode parallel_merge i c = ok c
  perform_opcode branch i c = ok c
  perform_opcode loop i c = ok c
  perform_opcode llm_call i c = handle_call_service services i c
  perform_opcode return i c = ok c
  perform_opcode _ i c = ok c

  unfoldable pub execute_instruction : IrInstruction Value → Context → Outcome Context
  unfolding perform_opcode
  execute_instruction i c = perform_opcode i.opcode i c
