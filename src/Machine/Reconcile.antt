-- ===== src/Machine/Reconcile.antt =====
-- controller/machine/scope.go: one reconcile of a machine that is not being deleted.
pub mod Order
pub mod Claiming
pub mod Preparation
use cluster_api_provider_tin.Prelude.{
  ℕ, String, str_append, Bool, true, false, Option, none, some, List, [], ◌∷◌, ◌==◌, lookup,
  if◌then◌else◌,
}
use cluster_api_provider_tin.Objects.{
  Hardware, TinkerbellMachine, InitializationStatus, NodeAddress, Workflow, WorkflowState,
  state_none, state_failed, state_timeout, state_preparing, state_pending, state_running,
  state_post, state_success,
}
use cluster_api_provider_tin.Kube.{
  Env, Error, Result, ok, err, requeue_requested, workflow_failed, workflow_timeout, Call,
  HardwareAddress, ScopeState, Scope, Exec, pure, raise, lift, gets, ask, attempt, modify, continue,
  ◌>>=◌, ◌>>◌,
}
use cluster_api_provider_tin.Machine.Interfaces.{hardware_ip}
use cluster_api_provider_tin.Machine.Ownership.{
  machine_finalizer, machine_legacy_finalizer, hardware_provisioned_annotation,
  take_hardware_ownership, ensure_hardware_user_data, mark_hardware_provisioned,
}
use cluster_api_provider_tin.Machine.Selection.{hardware_for_machine}
use cluster_api_provider_tin.Machine.Ipam.{reconcile_ipam}
use cluster_api_provider_tin.Machine.Recovery.{recovery_timeout, reconcile_in_place_recovery}
use cluster_api_provider_tin.Machine.Workflow.{ensure_workflow}

abbrev with_finalizers : TinkerbellMachine → List String → TinkerbellMachine
with_finalizers m fs = let meta = m.meta in record m { meta = record meta { finalizers = fs } }

-- `fmt.Sprintf("%s://%s/%s", ProviderIDScheme, hw.Namespace, hw.Name)`
abbrev pub provider_id_of : Hardware → String
provider_id_of hw =
    str_append "tinkerbell://" (str_append hw.meta.namespace (str_append "/" hw.meta.name))

-- The writes of ensureHardware to the machine.
unfoldable pub bind_hardware : Hardware → TinkerbellMachine → TinkerbellMachine
bind_hardware hw m =
    let spec = m.spec in
    let status = m.status in
    record m {
      spec = record spec { hardware_name = hw.meta.name; provider_id = provider_id_of hw };
      status = record status {
        target_namespace =
            if status.target_namespace == "" then hw.meta.namespace else status.target_namespace;
      };
    }

unfoldable pub mark_ready : TinkerbellMachine → TinkerbellMachine
mark_ready m =
    let status = m.status in
    record m {
      status = record status {
        ready = true;
        initialization = some (record { provisioned = some true });
      };
    }

abbrev with_address : String → TinkerbellMachine → TinkerbellMachine
with_address ip m =
    let status = m.status in
    record m {
      status = record status { addresses = record { kind = "InternalIP"; address = ip } ∷ [] };
    }

abbrev pub change_machine : (TinkerbellMachine → TinkerbellMachine) → Exec (Unit {0})
change_machine f = modify (λ s. record s { machine = f s.machine })

-- `v, found := annotations[key]; found && v == "true"`
abbrev is_true : Option String → Bool
is_true none = false
is_true (some v) = v == "true"

unfoldable pub is_provisioned : Hardware → Bool
is_provisioned hw = is_true (lookup hardware_provisioned_annotation hw.meta.annotations)

module _ (e : Env) where
  unfoldable pub patch : Exec (Unit {0})
  patch = do m ← gets (λ s. s.machine); ask (Call.patch_machine m) (λ t. e.patch_machine t m)

  unfoldable pub add_finalizer : Exec (Unit {0})
  add_finalizer = do
    change_machine (λ m. with_finalizers m (
        e.add_finalizer (e.remove_finalizer m.meta.finalizers machine_legacy_finalizer)
          machine_finalizer))
    patch

  unfoldable pub remove_finalizer : Exec (Unit {0})
  remove_finalizer = do
    change_machine (λ m. with_finalizers m (
        e.remove_finalizer (e.remove_finalizer m.meta.finalizers machine_finalizer)
          machine_legacy_finalizer))
    patch

  abbrev reserved_or : Option HardwareAddress → Result String → Result String
  reserved_or none r = r
  reserved_or (some ip) r = ok ip.address

  unfoldable pub machine_address : ScopeState → Hardware → Result String
  machine_address s hw = reserved_or s.reserved_address (hardware_ip e hw)

  unfoldable pub set_status : Hardware → Exec (Unit {0})
  set_status hw = do
    r ← gets (λ s. machine_address s hw)
    ip ← lift r
    change_machine (with_address ip)
    patch

module _ (e : Env) (sc : Scope) where
  watch_namespace : Hardware → Exec (Unit {0})
  watch_namespace hw =
      if sc.has_watch_manager
      then ask (Call.ensure_watch hw.meta.namespace) (λ t. e.ensure_watch t hw.meta.namespace)
      else pure tt

  unfoldable pub ensure_hardware : Exec Hardware
  unfolding watch_namespace
  ensure_hardware = do
    found ← hardware_for_machine e
    hw ← take_hardware_ownership e found
    change_machine (bind_hardware hw)
    watch_namespace hw
    m ← gets (λ s. s.machine)
    ensure_hardware_user_data e sc hw m.spec.provider_id

  -- The switch on the Workflow's state.
  on_state : Hardware → WorkflowState → Exec (Unit {0})
  on_state hw state_failed = raise workflow_failed
  on_state hw state_timeout = raise workflow_timeout
  on_state hw state_success = do change_machine mark_ready; mark_hardware_provisioned e hw; pure tt
  on_state hw _ = pure tt

  on_workflow : Hardware → Result Workflow → Exec (Unit {0})
  unfolding on_state
  on_workflow hw (ok wf) = on_state hw wf.state
  on_workflow hw (err requeue_requested) = pure tt
  on_workflow hw (err x) = raise x

  -- The method `reconcile`; `now` is the time at which the recovery looks at the clock.
  unfoldable pub reconcile_workflow : ℕ → Hardware → Exec (Unit {0})
  unfolding is_provisioned on_workflow
  reconcile_workflow now hw =
      if is_provisioned hw
      then (change_machine mark_ready >> reconcile_in_place_recovery e sc hw now recovery_timeout)
      else do wf ← attempt (ensure_workflow e sc hw); on_workflow hw wf

  unfoldable pub reconcile_body : ℕ → Exec (Unit {0})
  reconcile_body now = do
    hw ← ensure_hardware
    hw' ← reconcile_ipam e sc hw
    set_status e hw'
    reconcile_workflow now hw'

  -- The method `Reconcile`: the deferred addFinalizer runs last, and its error is only logged.
  unfoldable pub reconcile : ℕ → Exec (Unit {0})
  unfolding reconcile_body
  reconcile now = do r ← attempt (reconcile_body now); attempt (add_finalizer e); lift r
