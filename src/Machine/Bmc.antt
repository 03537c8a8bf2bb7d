-- ===== src/Machine/Bmc.antt =====
-- controller/machine/bmc.go, and the ownership marks of scope.go: the bmc Jobs of a machine.
pub mod Calls
use cluster_api_provider_tin.Prelude.{
  String, str_append, Bool, true, false, ◌&&◌, ◌||◌, not, List, [], ◌∷◌, ◌==◌, none, insert,
  if◌then◌else◌,
}
use cluster_api_provider_tin.Objects.{
  NamespacedName, ObjectMeta, Hardware, TinkerbellMachine, Job, PowerAction, hard_off, power_on,
  JobConditionType, completed, failed, object_key,
}
use cluster_api_provider_tin.Kube.{
  Env, Error, Result, ok, err, is_not_found, power_off_pending, power_off_failed, Call, Scope, Exec,
  pure, raise, lift, gets, ask, attempt, continue, ◌>>=◌, ◌>>◌,
}
use cluster_api_provider_tin.Machine.Claims.{label_machine_name, label_machine_namespace}

abbrev pub named : String → String → ObjectMeta
named ns n = record {
  name = n;
  namespace = ns;
  uid = "";
  labels = [];
  annotations = [];
  finalizers = [];
  deletion_timestamp = none;
  owner_references = [];
}

-- The name and namespace of the machine's Workflow and Template.
abbrev pub machine_key : TinkerbellMachine → NamespacedName
machine_key m = record { namespace = m.status.target_namespace; name = m.meta.name }

-- The labels that setResourceOwnership always writes.
abbrev pub with_owner_labels : TinkerbellMachine → ObjectMeta → ObjectMeta
with_owner_labels m meta = record meta {
  labels =
      insert label_machine_namespace m.meta.namespace
        (insert label_machine_name m.meta.name meta.labels);
}

abbrev pub poweroff_name : TinkerbellMachine → String
poweroff_name m = str_append m.meta.name "-poweroff"

abbrev pub poweroff_key : TinkerbellMachine → NamespacedName
poweroff_key m = record { namespace = m.status.target_namespace; name = poweroff_name m }

abbrev pub recovery_name : TinkerbellMachine → String
recovery_name m = str_append m.meta.name "-inplace-recovery"

unfoldable pub new_bmc_job : TinkerbellMachine → String → Hardware → List PowerAction → Job
new_bmc_job m name hw operations = record {
  meta = named m.status.target_namespace name;
  hardware_ref = object_key hw.meta;
  operations = operations;
  conditions = [];
}

module _ (e : Env) (sc : Scope) where
  unfoldable pub resource_ownership : TinkerbellMachine → ObjectMeta → Result ObjectMeta
  resource_ownership m meta =
      if not sc.external_tinkerbell && (meta.namespace == m.meta.namespace)
      then e.set_controller_reference m.meta (with_owner_labels m meta)
      else ok (with_owner_labels m meta)

  -- A Job of the machine with its ownership, created.
  unfoldable pub create_owned_job : Job → Exec (Unit {0})
  unfolding resource_ownership
  create_owned_job job = do
    m ← gets (λ s. s.machine)
    meta ← lift (resource_ownership m job.meta)
    let job' = record job { meta = meta }
    ask (Call.create_job job') (λ t. e.create_job t job')

  unfoldable pub create_power_off_job : Hardware → Exec (Unit {0})
  create_power_off_job hw = do
    m ← gets (λ s. s.machine)
    create_owned_job (new_bmc_job m (poweroff_name m) hw (hard_off ∷ []))
    raise power_off_pending

  unfoldable pub power_off_found : Hardware → Result Job → Exec (Unit {0})
  unfolding create_power_off_job
  power_off_found hw (err x) = if is_not_found x then create_power_off_job hw else raise x
  power_off_found hw (ok job) =
      if e.has_true_condition job completed
      then pure tt
      else if e.has_true_condition job failed
      then raise power_off_failed
      else raise power_off_pending

  unfoldable pub ensure_bmc_job_completion_for_delete : Hardware → Exec (Unit {0})
  unfolding power_off_found
  ensure_bmc_job_completion_for_delete hw = do
    m ← gets (λ s. s.machine)
    let key = poweroff_key m
    found ← attempt (ask (Call.get_job key) (λ t. e.get_job t key))
    power_off_found hw found
