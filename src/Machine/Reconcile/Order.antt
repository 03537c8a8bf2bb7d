-- ===== src/Machine/Reconcile/Order.antt =====
-- One reconcile of a machine (controller/machine/scope.go, controller/machine/ipam.go): what its
-- success and its end promise.
use cluster_api_provider_tin.Prelude.{
  ℕ, String, ◌≡◌, refl, ◌∙◌, ap, ◌⊎◌, inl, inr, true, false, some, List, [], ◌∷◌, arith, Bool-cases,
  eq_iff,
}
use cluster_api_provider_tin.Objects.{Hardware, NodeAddress, Workflow, WorkflowState, state_success}
use cluster_api_provider_tin.Kube.{
  Env, FinalizerLaws, Result, ok, err, requeue_requested, Call, HardwareAddress, ScopeState, Scope,
  pure, raise, lift, gets, ask, attempt, modify, ◌>>=◌,
}
use cluster_api_provider_tin.Machine.Ownership.{machine_finalizer, machine_legacy_finalizer}
use cluster_api_provider_tin.Machine.Workflow.{ensure_workflow}
use cluster_api_provider_tin.Machine.Workflow.Calls.{ensure_workflow-Sends}
use cluster_api_provider_tin.Machine.Reconcile.{
  patch, add_finalizer, machine_address, set_status, is_provisioned, on_state, on_workflow,
  reconcile_workflow, reconcile_body, reconcile,
}

abbrev pub internal_address : String → List NodeAddress
internal_address ip = record { kind = "InternalIP"; address = ip } ∷ []

-- A reconcile that gets as far as the status of a machine with a reserved address, and succeeds
-- there, reports that address and no other.
set_status_reserved :
    (e : Env) (hw : Hardware) (ip : HardwareAddress) (s : ScopeState)
    → s.reserved_address ≡ some ip
    → (set_status e hw s).1.machine.status.addresses ≡ internal_address ip.address
unfolding set_status machine_address patch gets lift modify ask ◌>>=◌
set_status_reserved e hw ip s reserved = rw reserved refl

on_state_ready :
    (e : Env) (sc : Scope) (hw : Hardware) (state : WorkflowState) (s : ScopeState)
    → ((on_state e sc hw state s).1.machine ≡ s.machine) ⊎ (state ≡ state_success)
unfolding on_state pure raise
on_state_ready e sc hw state_success s = inr refl
on_state_ready e sc hw _ s = inl refl

on_workflow_ready :
    (e : Env) (sc : Scope) (hw : Hardware) (r : Result Workflow) (s : ScopeState)
    → ((on_workflow e sc hw r s).1.machine ≡ s.machine)
      ⊎ ((wf : Workflow) × (r ≡ ok wf) × (wf.state ≡ state_success))
unfolding on_workflow pure raise
on_workflow_ready e sc hw (ok wf) s = elim (on_state_ready e sc hw wf.state s) [
  | inl same ↦ inl same
  | inr won ↦ inr (wf, refl, won)
]
on_workflow_ready e sc hw (err requeue_requested) s = inl refl
on_workflow_ready e sc hw (err x) s = inl refl

ensured_ready :
    (e : Env) (sc : Scope) (hw : Hardware) (s : ScopeState)
    → let (r, t) = ensure_workflow e sc hw s in
      ((on_workflow e sc hw r t).1.machine ≡ s.machine)
      ⊎ ((wf : Workflow) × (r ≡ ok wf) × (wf.state ≡ state_success))
ensured_ready e sc hw s =
    let (new, p, q) =
      (ensure_workflow-Sends {Q = λ c. Unit} (λ c p. tt) (λ c p. tt) (λ c p. tt) e sc hw).at s in
    elim (on_workflow_ready e sc hw (ensure_workflow e sc hw s).0 (ensure_workflow e sc hw s).1) [
      | inl same ↦ inl (same ∙ ap (λ t. t.machine) p)
      | inr won ↦ inr won
    ]

-- The last step of a reconcile leaves the machine as it is, its readiness included, unless the
-- Hardware is provisioned already or its Workflow has succeeded.
pub reconcile_workflow_ready :
    (e : Env) (sc : Scope) (now : ℕ) (hw : Hardware) (s : ScopeState)
    → ((reconcile_workflow e sc now hw s).1.machine ≡ s.machine)
      ⊎ (is_provisioned hw ≡ true)
      ⊎ ((wf : Workflow) × ((ensure_workflow e sc hw s).0 ≡ ok wf) × (wf.state ≡ state_success))
unfolding reconcile_workflow attempt ◌>>=◌
reconcile_workflow_ready e sc now hw s = elim (Bool-cases (is_provisioned hw)) [
  | inl provisioned ↦ inr (inl provisioned)
  | inr fresh ↦ elim (ensured_ready e sc hw s) [
    | inl same ↦ inl (rw fresh same)
    | inr won ↦ inr (inr won)
  ]
]

-- However a reconcile goes, its last call writes the machine with the finalizer on and the legacy
-- one off, and its result is that of the body: an error of that last write is dropped.
pub reconcile_finalizer :
    (e : Env) (sc : Scope) (now : ℕ) (s : ScopeState)
    → FinalizerLaws e
    → let (r, s') = reconcile e sc now s in
      (r ≡ (reconcile_body e sc now s).0)
      × (s'.trace ≡ Call.patch_machine s'.machine ∷ (reconcile_body e sc now s).1.trace)
      × (e.contains_finalizer s'.machine.meta.finalizers machine_finalizer ≡ true)
      × (e.contains_finalizer s'.machine.meta.finalizers machine_legacy_finalizer ≡ false)
unfolding reconcile add_finalizer patch attempt modify gets ask lift ◌>>=◌
reconcile_finalizer e sc now s laws =
    let fs = (reconcile_body e sc now s).1.machine.meta.finalizers in
    let without = e.remove_finalizer fs machine_legacy_finalizer in
    (
      refl,
      refl,
      laws.contains-add_self without machine_finalizer,
      laws.contains-add_ne without machine_finalizer machine_legacy_finalizer
            (λ p. ground (arith, eq_iff machine_finalizer machine_legacy_finalizer))
          ∙ laws.contains-remove_self fs machine_legacy_finalizer,
    )
