-- ===== src/Runtime/SemanticVm/Effects.antt =====
-- What one instruction may change: its own registers, and one entry of the list of calls, in
-- eyeflow-server/src/runtime/semantic-vm.service.ts.
use eyeflow.Common.{
  ℕ, ◌+◌, ◌≤◌, ◌≡◌, ◌≢◌, refl, ap, ◌∙◌, inl, inr, String, Bool, true, false, Option, none, some,
  List, [], ◌∷◌, ◌++◌, arith, length, length-append, In, if◌then◌else◌, nat_eq_iff, any,
  Option-cases,
}
use eyeflow.Common.Eq.{◌==◌, nat_equality, string_equality}
use eyeflow.Common.JsMap.{lookup, insert, lookup-insert}
use eyeflow.Compiler.Ir.{
  IrOpcode, call_action, Operands, IrInstruction, LlmCallDescriptor, DispatchMetadata,
}
use eyeflow.Runtime.Host.{Host}
use eyeflow.Runtime.PhysicalControl.{Postcondition}
use eyeflow.Runtime.SemanticVm.{
  ServiceCall, ExecutionContext, unknown_format, Outcome, thrown, ExecutorCall, ExecutorResult,
  Services, set, append_audit,
}
use eyeflow.Runtime.SemanticVm.Outcomes.{Meets, and_then-Meets, Meets-weaken, IsOperational}
use eyeflow.Runtime.SemanticVm.Calls.{
  text_of, fetch_secrets, found, is_open, record_call, finish_call, call_executor, legacy_call,
  call_pre_loaded, dispatch_on, dispatch_call, handle_call_service,
}
use eyeflow.Runtime.SemanticVm.Actions.{values_of}

abbrev pub given : Option ℕ → List ℕ
given none = []
given (some r) = r ∷ []

abbrev pub post_register : {V : Type 0} → Option (Postcondition V) → List ℕ
post_register none = []
post_register (some p) = given p.register_index

pub insert-frame :
    {V : Type 0} (r dest : ℕ) (v : V) (m : List (ℕ × V))
    → r ≢ dest
    → lookup r (insert dest v m) ≡ lookup r m
insert-frame r dest v m other =
    let l = lookup-insert dest r v m in ground (arith, nat_eq_iff dest r)

module _ {host : Host} {World : Type 0} where
  -- `d` is `c` but for the registers `ts` and at most one more call.
  pub record Effect (ts : List ℕ) (c d : ExecutionContext host World) : Type 0 where
    pub frame : (r : ℕ) → ¬ (In r ts) → lookup r d.registers ≡ lookup r c.registers
    pub calls : length d.services_called ≤ length c.services_called + 1

  pub no_change-Effect :
      (ts : List ℕ) (c d : ExecutionContext host World)
      → d.registers ≡ c.registers
      → d.services_called ≡ c.services_called
      → Effect ts c d
  no_change-Effect ts c d registers calls = record {
    frame = λ r outside. ap (λ m. lookup r m) registers;
    calls = let e = ap length calls in omega arith;
  }

  pub write-Effect :
      (dest : ℕ) (ts : List ℕ) (v : host.values.Value) (c d : ExecutionContext host World)
      → d.registers ≡ insert dest v c.registers
      → length d.services_called ≤ length c.services_called + 1
      → Effect (dest ∷ ts) c d
  write-Effect dest ts v c d registers calls = record {
    frame = λ r outside.
        ap (λ m. lookup r m) registers
        ∙ insert-frame r dest v c.registers (λ same. outside (inl same));
    calls = calls;
  }

module _ {host : Host} {World : Type 0} (services : Services host World) where
  abbrev Value : Type 0
  Value = host.values.Value

  abbrev Context : Type 0
  Context = ExecutionContext host World

  abbrev pub action_targets : IrOpcode → Option (Operands Value) → List ℕ
  action_targets call_action operands =
      post_register (services.as_action (values_of services operands)).postcondition
  action_targets _ operands = []

  -- The registers that an instruction may write.
  abbrev pub targets : IrInstruction Value → List ℕ
  targets i = given i.dest ++ action_targets i.opcode i.operands

  fetch_secrets-registers :
      (index : ℕ) (path : Option String) (c : Context)
      → ((fetch_secrets services index path c).0.registers ≡ c.registers)
        × ((fetch_secrets services index path c).0.services_called ≡ c.services_called)
  unfolding fetch_secrets append_audit
  fetch_secrets-registers index path c = elim (Option-cases services.vault) [
    | inl absent ↦ rw (absent, fetch_secrets) (refl, refl)
    | inr (fetch, present) ↦ elim (Option-cases (text_of path)) [
      | inl blank ↦ rw (present, blank, fetch_secrets) (refl, refl)
      | inr (p, given_path) ↦ elim (Option-cases (fetch c.world p).1) [
        | inl refused ↦ rw (present, given_path, refused, fetch_secrets) (refl, refl)
        | inr (secret, found) ↦ rw (present, given_path, found, fetch_secrets) (refl, refl)
      ]
    ]
  ]

  -- An outcome of one instruction.
  abbrev pub Fits : List ℕ → Context → Outcome Context → Type 0
  Fits ts c = Meets (Effect ts c) IsOperational

  record_call-Effect :
      (dest : ℕ) (ts : List ℕ) (v : Value) (call : ServiceCall) (after : World) (c c1 : Context)
      → c1.registers ≡ c.registers
      → c1.services_called ≡ c.services_called
      → Effect (dest ∷ ts) c (record_call services dest v call after c1)
  unfolding record_call set
  record_call-Effect dest ts v call after c c1 registers calls =
      let one = length-append c1.services_called (call ∷ []) in
      let same = ap length calls in
      write-Effect dest ts v c _ (ap (insert dest v) registers) (omega arith)

  call_executor-Fits :
      (execute : World → ExecutorCall Value → World × Option (ExecutorResult Value)) (index : ℕ)
      (src : List ℕ) (dest : ℕ) (id : String) (dispatch : DispatchMetadata)
      (descriptor : LlmCallDescriptor) (ts : List ℕ) (c : Context)
      → Fits (dest ∷ ts) c (call_executor services execute index src dest id dispatch descriptor c)
  unfolding call_executor finish_call
  call_executor-Fits execute index src dest id dispatch descriptor ts c =
      let (registers, calls) = fetch_secrets-registers index descriptor.credentials_vault_path c in
      let fetched : Context × List (String × Value) =
        fetch_secrets services index descriptor.credentials_vault_path c in
      go fetched.0 _ _ registers calls
    where
      go :
          (c1 : Context) (after : World) (answer : Option (ExecutorResult Value))
          → c1.registers ≡ c.registers
          → c1.services_called ≡ c.services_called
          → Fits (dest ∷ ts) c (finish_call services dest id dispatch c1 after answer)
      go c1 after none registers calls = tt
      go c1 after (some result) registers calls =
          record_call-Effect dest ts result.outputs _ after c c1 registers calls

  abbrev Named : Outcome String → Type 0
  Named = Meets (λ name. Unit) IsOperational

  found-Named : (b : Bool) (name : String) → Named (found services b name)
  unfolding found
  found-Named true name = tt
  found-Named false name = tt

  choice-Named :
      (a b c d : Bool) (p q r s : Outcome String)
      → Named p
      → Named q
      → Named r
      → Named s
      → Named (
          if a then p else if b then q else if c then r else if d then s else thrown unknown_format)
  choice-Named true b c d p q r s hp hq hr hs = hp
  choice-Named false true c d p q r s hp hq hr hs = hq
  choice-Named false false true d p q r s hp hq hr hs = hr
  choice-Named false false false true p q r s hp hq hr hs = hs
  choice-Named false false false false p q r s hp hq hr hs = tt

  -- A call of a service loaded before the run fails by an exception of its own.
  legacy_call-Named : (format id : String) → Named (legacy_call services format id)
  unfolding legacy_call
  legacy_call-Named format id =
      let p = services.pre_loaded in
      choice-Named (format == "WASM") (format == "MCP") (format == "NATIVE") (format == "DOCKER") _
        _ _ _ (found-Named (any (λ w. w == id) p.wasm) "wasmResult")
        (found-Named (is_open services (lookup id p.mcp)) "mcpResult")
        (found-Named (any (λ w. w == id) p.native) "nativeResult")
        (found-Named (any (λ w. w == id) p.docker) "dockerResult")

  call_pre_loaded-Fits :
      (began : ℕ) (src : List ℕ) (dest : ℕ) (id : String) (dispatch : DispatchMetadata)
      (ts : List ℕ) (c : Context)
      → Fits (dest ∷ ts) c (call_pre_loaded services began src dest id dispatch c)
  unfolding call_pre_loaded
  call_pre_loaded-Fits began src dest id dispatch ts c =
      and_then-Meets (λ name. Unit) (Effect (dest ∷ ts) c) IsOperational _ _
        (legacy_call-Named dispatch.format id)
        (λ name u. record_call-Effect dest ts _ _ _ c c refl refl)

  dispatch_on-Fits :
      (executors : Option (World → ExecutorCall Value → World × Option (ExecutorResult Value)))
      (descriptor : Option LlmCallDescriptor) (began index : ℕ) (src : List ℕ) (dest : ℕ)
      (id : String) (dispatch : DispatchMetadata) (ts : List ℕ) (c : Context)
      → Fits
          (dest ∷ ts)
          c
          (dispatch_on services executors descriptor began index src dest id dispatch c)
  unfolding dispatch_on
  dispatch_on-Fits (some execute) (some descriptor) began index src dest id dispatch ts c =
      call_executor-Fits execute index src dest id dispatch descriptor ts c
  dispatch_on-Fits (some execute) none began index src dest id dispatch ts c =
      call_pre_loaded-Fits began src dest id dispatch ts c
  dispatch_on-Fits none descriptor began index src dest id dispatch ts c =
      call_pre_loaded-Fits began src dest id dispatch ts c

  -- An effect from a context with the same registers and calls.
  pub transfer-Fits :
      (ts : List ℕ) (c c1 : Context) (o : Outcome Context)
      → c1.registers ≡ c.registers
      → c1.services_called ≡ c.services_called
      → Fits ts c1 o
      → Fits ts c o
  transfer-Fits ts c c1 o registers calls h =
      Meets-weaken (Effect ts c1) (Effect ts c) IsOperational o
        (λ d e. record {
          frame = λ r outside. e.frame r outside ∙ ap (λ m. lookup r m) registers;
          calls = let same = ap length calls in let n = e.calls in omega arith;
        })
        h

  pub handle_call_service-Fits :
      (i : IrInstruction Value) (ts : List ℕ) (c : Context)
      → Fits (given i.dest ++ ts) c (handle_call_service services i c)
  unfolding handle_call_service dispatch_call
  handle_call_service-Fits i ts c = elim (Option-cases (text_of i.service_id)) [
    | inl absent ↦ rw (absent, handle_call_service) tt
    | inr (id, named) ↦ elim (Option-cases i.dispatch_metadata) [
      | inl absent ↦ rw (named, absent, handle_call_service) tt
      | inr (dispatch, resolved) ↦ elim (Option-cases i.dest) [
        | inl absent ↦ rw (named, resolved, absent, handle_call_service) tt
        | inr (dest, written) ↦
            rw (named, resolved, written, handle_call_service, dispatch_call)
              (transfer-Fits (dest ∷ ts) c _ _ refl refl (
                dispatch_on-Fits services.executors dispatch.selected_descriptor _ i.index i.src
                  dest id dispatch ts _))
      ]
    ]
  ]
