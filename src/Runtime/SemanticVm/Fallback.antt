-- ===== src/Runtime/SemanticVm/Fallback.antt =====
-- The result of a slice that the central node ran itself:
-- eyeflow-server/src/runtime/semantic-vm.service.ts.
use eyeflow.Common.{◌≡◌, ◌≢◌, refl, sym, ap, ◌∙◌, inl, inr, true, List, [], ◌∷◌, All, Bool-cases}
use eyeflow.Common.Eq.{◌==◌, string_equality}
use eyeflow.Runtime.Host.{Host}
use eyeflow.Runtime.SemanticVm.{ExecutionContext, Outcome, ok, thrown, Services}
use eyeflow.Runtime.SemanticVm.Outcomes.{Meets}
use eyeflow.Runtime.SemanticVm.Slices.{
  central_node_id, DataFlow, SyncPoint, ExecutionSlice, SliceResultPayload, Nodes, merge_flows,
  merge_result,
}
use eyeflow.Runtime.SemanticVm.Distributed.{slice_result, report_slice, handle_remote_slice_failure}

-- The flow starts on another node than the central one.
abbrev IsRemote : DataFlow → Type 0
IsRemote f = f.from_node_id ≢ central_node_id

module _ {host : Host} {World : Type 0} (services : Services host World)
    (nodes : Nodes host.values.Value World) where
  abbrev Value : Type 0
  Value = host.values.Value

  abbrev Context : Type 0
  Context = ExecutionContext host World

  merge_flows-central :
      (r : SliceResultPayload Value) (flows : List DataFlow) (c : Context)
      → r.node_id ≡ central_node_id
      → All IsRemote flows
      → merge_flows services r flows c ≡ c
  unfolding merge_flows
  merge_flows-central r [] c here remote = refl
  merge_flows-central r (f ∷ fs) c here remote = elim (Bool-cases (f.from_node_id == r.node_id)) [
    | inl same ↦
        absurd (remote.0 ((string_equality.test_iff f.from_node_id r.node_id).0 same ∙ here))
    | inr other ↦ rw other (merge_flows-central r fs c here remote.1)
  ]

  report_slice-central :
      (slice : ExecutionSlice Value) (offline : World) (o : Outcome Context)
      (r : SliceResultPayload Value)
      → (report_slice services nodes slice offline o).1 ≡ ok r
      → (r.node_id ≡ central_node_id) × (r.succeeded ≡ true)
  unfolding report_slice
  report_slice-central slice offline (thrown e) r h = absurd (cc)
  report_slice-central slice offline (ok c) r h =
      let same : slice_result services nodes slice c ≡ r = cc in
      (ap (λ t. t.node_id) (sym same), ap (λ t. t.succeeded) (sym same))

  -- When the dispatch of a slice fails and the central node runs the slice itself, the result changes
  -- no register at its sync point, whose flows come from other nodes: the work is done and lost.
  pub handle_remote_slice_failure-unmerged :
      (slice : ExecutionSlice Value) (world : World) (r : SliceResultPayload Value)
      → (handle_remote_slice_failure services nodes slice world).1 ≡ ok r
      → (p : SyncPoint Value) (c : Context) → All IsRemote p.inbound_flows
      → Meets (λ d. d.registers ≡ c.registers) (λ e. ⊥) (merge_result services p (ok r) c)
  unfolding handle_remote_slice_failure merge_result
  handle_remote_slice_failure-unmerged slice world r h p c remote =
      let (here, success) = report_slice-central slice _ _ r h in
      rw (success, merge_result)
        (ap (λ d. d.registers) (merge_flows-central r p.inbound_flows c here remote))
