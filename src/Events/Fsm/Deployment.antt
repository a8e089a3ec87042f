-- ===== src/Events/Fsm/Deployment.antt =====
-- Undeploying a workflow (eyeflow-server/src/events/event-state-machine.service.ts,
-- `undeployWorkflow`).
use mathlib.Core.Path.{subst}
use eyeflow.Common.{
  ◌≡◌, ◌≢◌, sym, ap, ◌∙◌, inl, inr, String, none, some, List, [], ◌∷◌, arith, In, Bool-cases,
  Option-cases,
}
use eyeflow.Common.Eq.{◌==◌, string_equality}
use eyeflow.Common.JsMap.{lookup, lookup-delete}
use eyeflow.Common.Json.{Engine}
use eyeflow.Events.Correlation.{Windows, cancel_window}
use eyeflow.Events.Correlation.Laws.{lookup-cancel_window}
use eyeflow.Events.Fsm.{DeployedFsm, EventStateMachines}
use eyeflow.Events.Fsm.Lifecycle.{cancel_windows, undeploy_each, undeploy_workflow}

-- Cancelling windows opens none.
cancel_windows-none :
    (ids : List String) (id : String) (ws : Windows)
    → lookup id ws ≡ none
    → lookup id (cancel_windows ids ws) ≡ none
unfolding cancel_windows
cancel_windows-none [] id ws h = h
cancel_windows-none (i ∷ ids) id ws h =
    cancel_windows-none ids id (cancel_window i ws).0 (ground (arith, lookup-cancel_window i id ws))

cancel_windows-In :
    (ids : List String) (id : String) (ws : Windows)
    → In id ids
    → lookup id (cancel_windows ids ws) ≡ none
unfolding cancel_windows
cancel_windows-In [] id ws m = elim m [ ]
cancel_windows-In (i ∷ ids) id ws (inl here) =
    cancel_windows-none ids id (cancel_window i ws).0
      (ground (arith, lookup-cancel_window i id ws, string_equality.test_iff i id))
cancel_windows-In (i ∷ ids) id ws (inr there) =
    cancel_windows-In ids id (cancel_window i ws).0 there

In-lookup :
    {V : Type 0} (k : String) (v : V) (m : List (String × V)) → lookup k m ≡ some v → In (k, v) m
unfolding lookup
In-lookup k v [] h = cc
In-lookup k v ((j, w) ∷ m) h = elim (Bool-cases (j == k)) [
  | inl here ↦
      let found : some w ≡ some v = rw here at h in
      let same : w ≡ v = cc in let key : j ≡ k = (string_equality.test_iff j k).0 here in inl cc
  | inr there ↦ inr (In-lookup k v m (rw there at h))
]

module _ (js : Engine) (workflow : String) where
  -- The loop only removes machines, and opens no window.
  undeploy_each-lookup :
      (m : String) (e : DeployedFsm js.Num) (es : List (String × DeployedFsm js.Num))
      (s : EventStateMachines js.Num)
      → lookup m (undeploy_each js workflow es s).deployed ≡ some e
      → lookup m s.deployed ≡ some e
  unfolding undeploy_each
  undeploy_each-lookup m e [] s h = h
  undeploy_each-lookup m e ((k, f) ∷ es) s h =
      let before = undeploy_each-lookup m e es _ h in ground (arith, lookup-delete k m s.deployed)

  undeploy_each-absent :
      (m : String) (es : List (String × DeployedFsm js.Num)) (s : EventStateMachines js.Num)
      → lookup m s.deployed ≡ none
      → lookup m (undeploy_each js workflow es s).deployed ≡ none
  undeploy_each-absent m es s h =
      elim (Option-cases (lookup m (undeploy_each js workflow es s).deployed)) [
        | inl absent ↦ absent
        | inr (e, found) ↦ let old = undeploy_each-lookup m e es s found in cc
      ]

  undeploy_each-windows :
      (id : String) (es : List (String × DeployedFsm js.Num)) (s : EventStateMachines js.Num)
      → lookup id s.windows ≡ none
      → lookup id (undeploy_each js workflow es s).windows ≡ none
  unfolding undeploy_each
  undeploy_each-windows id [] s h = h
  undeploy_each-windows id ((k, f) ∷ es) s h =
      undeploy_each-windows id es _ (ground (arith, cancel_windows-none f.instances id s.windows h))

  undeploy_each-gone :
      (m : String) (e : DeployedFsm js.Num) (es : List (String × DeployedFsm js.Num))
      (s : EventStateMachines js.Num)
      → In (m, e) es
      → e.workflow_id ≡ workflow
      → (lookup m (undeploy_each js workflow es s).deployed ≡ none)
        × ((id : String)
            → In id e.instances
            → lookup id (undeploy_each js workflow es s).windows ≡ none)
  unfolding undeploy_each
  undeploy_each-gone m e [] s at mine = elim at [ ]
  undeploy_each-gone m e ((k, f) ∷ es) s (inl here) mine =
      let key : k ≡ m = cc in
      let same : e ≡ f = cc in
      let of_f : f.workflow_id ≡ workflow = ap (λ x. x.workflow_id) (sym same) ∙ mine in
      let due = (string_equality.test_iff f.workflow_id workflow).1 of_f in
      (
        undeploy_each-absent m es _
            (ground (arith, due, lookup-delete k m s.deployed, string_equality.test_iff k m)),
        λ id at. undeploy_each-windows id es _ (
            ground (
              arith,
              due,
              cancel_windows-In f.instances id s.windows (subst (λ x. In id x.instances) same at),
            )),
      )
  undeploy_each-gone m e ((k, f) ∷ es) s (inr there) mine = undeploy_each-gone m e es _ there mine

-- Every entry is the one that its key finds: no key comes twice, as in a JavaScript map.
unfoldable pub IsMap : {V : Type 0} → List (String × V) → Type 0
IsMap {V = V} m = (k : String) (v : V) → In (k, v) m → lookup k m ≡ some v

module _ (js : Engine) (workflow : String) where
  -- A machine of which no entry is of the workflow stays.
  undeploy_each-kept :
      (m : String) (e : DeployedFsm js.Num) (es : List (String × DeployedFsm js.Num))
      (s : EventStateMachines js.Num)
      → ((f : DeployedFsm js.Num) → In (m, f) es → f.workflow_id ≢ workflow)
      → lookup m s.deployed ≡ some e
      → lookup m (undeploy_each js workflow es s).deployed ≡ some e
  unfolding undeploy_each
  undeploy_each-kept m e [] s other h = h
  undeploy_each-kept m e ((k, f) ∷ es) s other h =
      undeploy_each-kept m e es _ (λ g there. other g (inr there))
        (elim (Bool-cases (f.workflow_id == workflow)) [
          | inl mine ↦
              let due = (string_equality.test_iff f.workflow_id workflow).0 mine in
              let apart : k ≢ m = λ same. other f (inl (ap (λ x. (x, f)) (sym same))) due in
              rw mine (ground (arith, lookup-delete k m s.deployed, string_equality.test_iff k m))
          | inr not_mine ↦ rw not_mine h
        ])

  undeploy_workflow-kept :
      (m : String) (e : DeployedFsm js.Num) (s : EventStateMachines js.Num)
      → IsMap s.deployed
      → lookup m s.deployed ≡ some e
      → e.workflow_id ≢ workflow
      → lookup m (undeploy_workflow js workflow s).deployed ≡ some e
  unfolding undeploy_workflow IsMap
  undeploy_workflow-kept m e s unique h other =
      undeploy_each-kept m e s.deployed s
        (λ f at mine.
          let same : f ≡ e = let found = unique m f at in cc in
          other (ap (λ x. x.workflow_id) (sym same) ∙ mine))
        h

-- `undeployWorkflow` removes exactly the machines of the workflow: a deployed machine is gone if it is
-- of the workflow, and then none of the instances that it ran has a window; it stays as it was if it
-- is of another one; and a machine that was not deployed is not deployed after. No key of the map
-- of deployed machines comes twice.
pub undeploy_workflow-lookup :
    (js : Engine) (workflow m : String) (s : EventStateMachines js.Num)
    → IsMap s.deployed
    → let s' = undeploy_workflow js workflow s in
      ((e : DeployedFsm js.Num)
        → lookup m s.deployed ≡ some e
        → e.workflow_id ≡ workflow
        → (lookup m s'.deployed ≡ none)
          × ((id : String) → In id e.instances → lookup id s'.windows ≡ none))
      × ((e : DeployedFsm js.Num)
          → lookup m s.deployed ≡ some e
          → e.workflow_id ≢ workflow
          → lookup m s'.deployed ≡ some e)
      × (lookup m s.deployed ≡ none → lookup m s'.deployed ≡ none)
unfolding undeploy_workflow
undeploy_workflow-lookup js workflow m s unique = (
  λ e h mine. undeploy_each-gone js workflow m e s.deployed s (In-lookup m e s.deployed h) mine,
  λ e h other. undeploy_workflow-kept js workflow m e s unique h other,
  λ h. undeploy_each-absent js workflow m s.deployed s h,
)
