-- ===== src/Machine/Deletion.antt =====
-- controller/machine/scope.go: the deletion of a machine with what depends on it.
pub mod Dependencies
pub mod GivenUp
pub mod Cleanup
pub mod Order
pub mod PowerOff
use cluster_api_provider_tin.Prelude.{
  String, Bool, true, false, Option, none, some, List, [], ◌==◌, if◌then◌else◌,
}
use cluster_api_provider_tin.Objects.{NamespacedName, Hardware, TinkerbellMachine}
use cluster_api_provider_tin.Kube.{
  Env, Error, Result, ok, err, is_not_found, Call, Scope, Exec, pure, raise, lift, gets, ask,
  attempt, modify, continue, ◌>>=◌, ◌>>◌,
}
use cluster_api_provider_tin.Machine.Interfaces.{has_bmc}
use cluster_api_provider_tin.Machine.Ownership.{release_hardware}
use cluster_api_provider_tin.Machine.Ipam.{release_ip_address_claim}
use cluster_api_provider_tin.Machine.Bmc.{ensure_bmc_job_completion_for_delete}
use cluster_api_provider_tin.Machine.Template.{remove_template}
use cluster_api_provider_tin.Machine.Tasks.{remove_tasks}
use cluster_api_provider_tin.Machine.Workflow.{remove_workflow}
use cluster_api_provider_tin.Machine.Reconcile.{change_machine, remove_finalizer}

-- The machine's own namespace where no target namespace was recorded.
abbrev pub default_namespace : TinkerbellMachine → TinkerbellMachine
default_namespace m =
    let status = m.status in
    record m {
      status = record status {
        target_namespace =
            if status.target_namespace == "" then m.meta.namespace else status.target_namespace;
      };
    }

abbrev pub hardware_key : TinkerbellMachine → NamespacedName
hardware_key m = record { namespace = m.status.target_namespace; name = m.spec.hardware_name }

abbrev unless_missing : Result (Unit {0}) → Exec (Unit {0})
unless_missing (ok u) = pure tt
unless_missing (err x) = if is_not_found x then pure tt else raise x

module _ (e : Env) (sc : Scope) where
  unfoldable pub remove_dependencies : Exec (Unit {0})
  remove_dependencies = do
    template ← attempt (remove_template e sc)
    unless_missing template
    remove_tasks e []
    workflow ← attempt (remove_workflow e sc)
    unless_missing workflow

  unfoldable pub release_claim_and_finalizer : Exec (Unit {0})
  release_claim_and_finalizer = do release_ip_address_claim e; remove_finalizer e

  pub power_off : Hardware → Exec (Unit {0})
  power_off hw = if has_bmc e hw then ensure_bmc_job_completion_for_delete e sc hw else pure tt

  -- The branches of DeleteMachineWithDependencies on the Hardware that was looked for. The source
  -- writes the two branches on hasBMC one after the other; they differ in the power off alone.
  unfoldable pub delete_with_hardware : Result Hardware → Exec (Unit {0})
  unfolding power_off
  delete_with_hardware (err x) =
      if is_not_found x then (remove_dependencies >> release_claim_and_finalizer) else raise x
  delete_with_hardware (ok hw) = do
    remove_dependencies
    power_off hw
    release_hardware e hw
    release_claim_and_finalizer

  pub get_hardware_for_machine : Exec Hardware
  get_hardware_for_machine = do
    m ← gets (λ s. s.machine)
    ask (Call.get_hardware (hardware_key m)) (λ t. e.get_hardware t (hardware_key m))

  unfoldable pub delete_machine_with_dependencies : Exec (Unit {0})
  unfolding get_hardware_for_machine
  delete_machine_with_dependencies = do
    change_machine default_namespace
    hw ← attempt get_hardware_for_machine
    delete_with_hardware hw
