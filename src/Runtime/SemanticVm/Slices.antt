-- ===== src/Runtime/SemanticVm/Slices.antt =====
-- Distributed runs: `executeDistributed` and its helpers in
-- eyeflow-server/src/runtime/semantic-vm.service.ts, over the plans of
-- eyeflow-server/src/compiler/interfaces/distributed-execution.interface.ts. The dispatcher and the
-- registry of nodes are parameters; a slice is dispatched, and its fallback run, when its promise is
-- made. Fields of a plan and of a result that no code of the machine reads are left out, among them
-- the `timeoutMs` and `resumeAtInstruction` of a sync point.
use eyeflow.Common.{
  ℕ, String, Bool, Option, none, some, List, [], ◌∷◌, ◌++◌, leb, or_else, if◌then◌else◌,
}
use eyeflow.Common.Eq.{◌==◌, nat_equality, string_equality}
use eyeflow.Common.JsMap.{lookup, insert}
use eyeflow.Compiler.Ir.{IrInstruction}
use eyeflow.Runtime.Host.{Host, get}
use eyeflow.Runtime.SemanticVm.{
  ServiceCall, ExecutionContext, slice_failed, Outcome, ok, thrown, and_then, Services, set,
}

-- `CENTRAL_NODE_ID`
abbrev pub central_node_id : String
central_node_id = "central-nestjs"

pub record DataFlow : Type 0 where
  pub from_node_id : String
  pub from_register : ℕ
  pub to_register : ℕ

pub data TimeoutPolicy : Type 0 where
  fail use_default skip : TimeoutPolicy

pub record SyncPoint (V : Type 0) : Type 0 where
  pub pause_before_instruction : ℕ
  pub await_slice_ids : List String
  pub inbound_flows : List DataFlow
  pub on_timeout : TimeoutPolicy
  pub default_value : Option V

-- An input binding without a register takes the data of the trigger.
pub record ExecutionSlice (V : Type 0) : Type 0 where
  pub slice_id : String
  pub node_id : String
  pub is_root : Bool
  pub instructions : List (IrInstruction V)
  pub instruction_order : List ℕ
  pub input_bindings : List (ℕ × Option ℕ)
  pub output_registers : List ℕ
  pub estimated_duration_ms : ℕ
  pub checksum : String

pub record DistributedExecutionPlan (V : Type 0) : Type 0 where
  pub plan_id : String
  pub is_distributed : Bool
  pub slices : List (ExecutionSlice V)
  pub sync_points : List (SyncPoint V)

pub record SliceDispatchPayload (V : Type 0) : Type 0 where
  pub plan_id : String
  pub slice_id : String
  pub instructions : List (IrInstruction V)
  pub instruction_order : List ℕ
  pub register_values : List (ℕ × V)
  pub timeout_ms : ℕ
  pub checksum : String

-- An audit event of a node: the opcode and the duration.
pub record SliceResultPayload (V : Type 0) : Type 0 where
  pub node_id : String
  pub succeeded : Bool
  pub output_registers : List (ℕ × V)
  pub audit_events : List (String × ℕ)

-- `none` is a dispatch that is rejected.
pub record Nodes (V World : Type 0) : Type 0 where
  pub dispatch : World → String → SliceDispatchPayload V → World × Option (SliceResultPayload V)
  pub mark_offline : World → String → World

module _ {V : Type 0} where
  unfoldable pub find_instruction : ℕ → List (IrInstruction V) → Option (IrInstruction V)
  find_instruction index [] = none
  find_instruction index (i ∷ is) = if i.index == index then some i else find_instruction index is

  unfoldable pub insert_sync : SyncPoint V → List (SyncPoint V) → List (SyncPoint V)
  insert_sync p [] = p ∷ []
  insert_sync p (q ∷ qs) =
      if leb p.pause_before_instruction q.pause_before_instruction
      then p ∷ q ∷ qs
      else q ∷ insert_sync p qs

  -- The stable sort by the instruction that a point stands before.
  unfoldable pub sort_sync : List (SyncPoint V) → List (SyncPoint V)
  unfolding insert_sync
  sort_sync [] = []
  sort_sync (p ∷ ps) = insert_sync p (sort_sync ps)

  abbrev pub is_central : ExecutionSlice V → Bool
  is_central s = s.node_id == central_node_id

  unfoldable pub find_central : List (ExecutionSlice V) → Option (ExecutionSlice V)
  find_central [] = none
  find_central (s ∷ ss) = if is_central s then some s else find_central ss

-- What is pending: the outcome of each slice's promise.
abbrev pub Pending : Type 0 → Type 0
Pending V = List (String × Outcome (SliceResultPayload V))

module _ {host : Host} {World : Type 0} (services : Services host World) where
  abbrev Value : Type 0
  Value = host.values.Value

  abbrev Context : Type 0
  Context = ExecutionContext host World

  unfoldable pub extract_input_registers : List (ℕ × Option ℕ) → Context → List (ℕ × Value)
  unfolding insert get
  extract_input_registers [] c = []
  extract_input_registers ((register, source) ∷ bindings) c =
      (register, get host (or_else source 0) c.registers) ∷ extract_input_registers bindings c

  unfoldable pub apply_default : Value → List DataFlow → Context → Context
  unfolding set
  apply_default value [] c = c
  apply_default value (f ∷ fs) c = apply_default value fs (set f.to_register value c)

  unfoldable pub apply_default_values : SyncPoint Value → Context → Context
  unfolding apply_default
  apply_default_values p c = elim p.default_value [
    | none ↦ c
    | some value ↦ apply_default value p.inbound_flows c
  ]

  -- The flows from the node that answered.
  unfoldable pub merge_flows : SliceResultPayload Value → List DataFlow → Context → Context
  unfolding set lookup
  merge_flows r [] c = c
  merge_flows r (f ∷ fs) c =
      if f.from_node_id == r.node_id
      then merge_flows r fs
          (set f.to_register (or_else (lookup f.from_register r.output_registers) host.undefined) c)
      else merge_flows r fs c

  unfoldable pub remote_calls : String → List (String × ℕ) → List ServiceCall
  remote_calls node [] = []
  remote_calls node ((opcode, duration) ∷ events) =
      (record {
        service_id = opcode;
        format = "REMOTE";
        duration_ms = duration;
        node_id = some node;
      })
      ∷ remote_calls node events

  -- One result of a sync point.
  unfoldable pub merge_result :
      SyncPoint Value → Outcome (SliceResultPayload Value) → Context → Outcome Context
  unfolding apply_default_values merge_flows remote_calls
  merge_result p (thrown e) c = elim p.on_timeout [
    | fail ↦ thrown slice_failed
    | use_default ↦ ok (apply_default_values p c)
    | skip ↦ ok c
  ]
  merge_result p (ok r) c =
      if r.succeeded
      then ok (record (merge_flows r p.inbound_flows c) {
        services_called = c.services_called ++ remote_calls r.node_id r.audit_events;
      })
      else elim p.on_timeout [ fail ↦ thrown slice_failed | use_default ↦ ok c | skip ↦ ok c ]

  unfoldable pub merge_results :
      SyncPoint Value → List String → Pending Value → Context → Outcome Context
  unfolding merge_result lookup and_then
  merge_results p [] pending c = ok c
  merge_results p (id ∷ ids) pending c =
      let rest = merge_results p ids pending in
      elim (lookup id pending) [
        | none ↦ rest c
        | some result ↦ and_then (merge_result p result c) rest
      ]

  unfoldable pub process_sync_point : SyncPoint Value → Pending Value → Context → Outcome Context
  unfolding merge_results
  process_sync_point p pending c = merge_results p p.await_slice_ids pending c
