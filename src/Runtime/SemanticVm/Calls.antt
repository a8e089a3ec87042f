-- ===== src/Runtime/SemanticVm/Calls.antt =====
-- CALL_SERVICE, CALL_MCP and LLM_CALL: `handleCallService` of
-- eyeflow-server/src/runtime/semantic-vm.service.ts.
use eyeflow.Common.{
  ℕ, ◌-◌, String, Bool, true, false, Option, none, some, List, [], ◌∷◌, ◌++◌, map, any,
  if◌then◌else◌,
}
use eyeflow.Common.Eq.{◌==◌, string_equality, nat_equality}
use eyeflow.Common.JsMap.{insert, lookup}
use eyeflow.Compiler.Ir.{LlmCallDescriptor, DispatchMetadata, IrInstruction}
use eyeflow.Runtime.Host.{Host, Registers, get}
use eyeflow.Runtime.SemanticVm.{
  ServiceCall, ExecutionContext, missing_service, missing_dest, unknown_format, service_not_found,
  call_failed, Outcome, ok, thrown, and_then, ExecutorCall, ExecutorResult, Services, set,
  append_audit,
}

-- `!text` of a field that may be absent.
abbrev pub text_of : Option String → Option String
text_of none = none
text_of (some s) = if s == "" then none else some s

module _ {host : Host} {World : Type 0} (services : Services host World) where
  abbrev Value : Type 0
  Value = host.values.Value

  abbrev Context : Type 0
  Context = ExecutionContext host World

  -- The source registers from the second on.
  unfoldable pub bind_sources :
      List ℕ → Registers host → List (String × Value) → List (String × Value)
  unfolding insert get
  bind_sources [] registers inputs = inputs
  bind_sources (r ∷ rs) registers inputs =
      bind_sources rs registers (insert (services.register_name r) (get host r registers) inputs)

  -- The first source register is bound under a second name.
  unfoldable pub inputs_of_sources : List ℕ → Registers host → List (String × Value)
  unfolding bind_sources insert get
  inputs_of_sources [] registers = []
  inputs_of_sources (r ∷ rs) registers =
      let value = get host r registers in
      bind_sources rs registers (insert "input" value (insert (services.register_name r) value []))

  -- `context.registers.forEach`
  unfoldable pub expose_registers : Registers host → List (String × Value) → List (String × Value)
  unfolding insert
  expose_registers [] inputs = inputs
  expose_registers ((r, v) ∷ rest) inputs =
      expose_registers rest
        (if host.is_nullish v then inputs else insert (services.register_name r) v inputs)

  -- The vault's answer is kept under its path; a failed fetch is only logged.
  unfoldable pub fetch_secrets : ℕ → Option String → Context → Context × List (String × Value)
  unfolding append_audit
  fetch_secrets index path c = elim services.vault [
    | none ↦ (c, [])
    | some fetch_secret ↦ elim (text_of path) [
      | none ↦ (c, [])
      | some p ↦
          let (after, answer) = fetch_secret c.world p in
          let c' : Context = record c { world = after } in
          elim answer [
            | none ↦ (c', [])
            | some secret ↦
                (append_audit services index "VAULT_SECRET_FETCHED" c', (p, secret) ∷ [])
          ]
    ]
  ]

  abbrev node_of : String → Option String
  node_of tier = if tier == "CENTRAL" then some "central-nestjs" else none

  -- The result goes to its register, the call to the list.
  unfoldable pub record_call : ℕ → Value → ServiceCall → World → Context → Context
  unfolding set
  record_call dest v call after c = record (set dest v c) {
    world = after;
    services_called = c.services_called ++ call ∷ [];
  }

  -- `none` is a rejected `execute`.
  unfoldable pub finish_call :
      ℕ
      → String
      → DispatchMetadata
      → Context
      → World
      → Option (ExecutorResult Value)
      → Outcome Context
  unfolding record_call
  finish_call dest service_id dispatch c after none = thrown call_failed
  finish_call dest service_id dispatch c after (some result) = ok (
      record_call dest result.outputs
        (record {
          service_id = service_id;
          format = dispatch.format;
          duration_ms = result.duration_ms;
          node_id = node_of dispatch.target_tier;
        })
        after c)

  -- Path 1, over the executor registry.
  unfoldable pub call_executor :
      (World → ExecutorCall Value → World × Option (ExecutorResult Value))
      → ℕ
      → List ℕ
      → ℕ
      → String
      → DispatchMetadata
      → LlmCallDescriptor
      → Context
      → Outcome Context
  unfolding inputs_of_sources expose_registers fetch_secrets finish_call
  call_executor execute index src dest service_id dispatch descriptor c =
      let inputs = expose_registers c.registers (inputs_of_sources src c.registers) in
      let (c1, secrets) = fetch_secrets index descriptor.credentials_vault_path c in
      let (after, answer) =
        execute c1.world (record { dispatch = dispatch; inputs = inputs; secrets = secrets }) in
      finish_call dest service_id dispatch c1 after answer

  abbrev pub is_open : Option Bool → Bool
  is_open none = false
  is_open (some connected) = connected

  -- `throw` if the service is not there.
  unfoldable pub found : Bool → String → Outcome String
  found true name = ok name
  found false name = thrown service_not_found

  -- `callWASM`, `callMCP`, `callNative` and `callDocker`: the name under which the arguments return.
  unfoldable pub legacy_call : String → String → Outcome String
  unfolding lookup found
  legacy_call format id =
      let p = services.pre_loaded in
      if format == "WASM"
      then found (any (λ w. w == id) p.wasm) "wasmResult"
      else if format == "MCP"
      then found (is_open (lookup id p.mcp)) "mcpResult"
      else if format == "NATIVE"
      then found (any (λ w. w == id) p.native) "nativeResult"
      else if format == "DOCKER"
      then found (any (λ w. w == id) p.docker) "dockerResult"
      else thrown unknown_format

  -- Path 2, over the services loaded before the run.
  unfoldable pub call_pre_loaded :
      ℕ → List ℕ → ℕ → String → DispatchMetadata → Context → Outcome Context
  unfolding legacy_call record_call get and_then
  call_pre_loaded began src dest service_id dispatch c =
      let args = map (λ r. get host r c.registers) src in
      and_then (legacy_call dispatch.format service_id) (λ name.
        let (after, ended) = services.clock c.world in
        ok (
          record_call dest (host.object ((name, host.array args) ∷ []))
            (record {
              service_id = service_id;
              format = dispatch.format;
              duration_ms = ended - began;
              node_id = none;
            })
            after c))

  -- Path 1 is taken if there are a registry and a descriptor.
  unfoldable pub dispatch_on :
      Option (World → ExecutorCall Value → World × Option (ExecutorResult Value))
      → Option LlmCallDescriptor
      → ℕ
      → ℕ
      → List ℕ
      → ℕ
      → String
      → DispatchMetadata
      → Context
      → Outcome Context
  unfolding call_executor call_pre_loaded
  dispatch_on (some execute) (some descriptor) began index src dest service_id dispatch c =
      call_executor execute index src dest service_id dispatch descriptor c
  dispatch_on (some execute) none began index src dest service_id dispatch c =
      call_pre_loaded began src dest service_id dispatch c
  dispatch_on none descriptor began index src dest service_id dispatch c =
      call_pre_loaded began src dest service_id dispatch c

  unfoldable pub dispatch_call :
      ℕ → List ℕ → ℕ → String → DispatchMetadata → Context → Outcome Context
  unfolding dispatch_on
  dispatch_call index src dest service_id dispatch c =
      let (after, began) = services.clock c.world in
      let c' : Context = record c { world = after } in
      dispatch_on services.executors dispatch.selected_descriptor began index src dest service_id
        dispatch c'

  unfoldable pub handle_call_service : IrInstruction Value → Context → Outcome Context
  unfolding dispatch_call
  handle_call_service i c = elim (text_of i.service_id) [
    | none ↦ thrown missing_service
    | some service_id ↦ elim i.dispatch_metadata [
      | none ↦ thrown missing_service
      | some dispatch ↦ elim i.dest [
        | none ↦ thrown missing_dest
        | some dest ↦ dispatch_call i.index i.src dest service_id dispatch c
      ]
    ]
  ]
