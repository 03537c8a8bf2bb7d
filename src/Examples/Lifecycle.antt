-- ===== src/Examples/Lifecycle.antt =====
-- The theorems on reconciles, recoveries and deletions, at concrete objects.
use cluster_api_provider_tin.Prelude.{◌≡◌, refl, ◌⊎◌, true, false, none, List, [], ◌∷◌, lookup}
use cluster_api_provider_tin.Objects.{
  ObjectMeta, condition_false, Machine, Workflow, state_success, Job, hard_off, power_on, completed,
}
use cluster_api_provider_tin.Kube.{
  ok, err, api, already_exists, Call, ScopeState, pure, raise, lift, gets, ask, attempt, modify,
  ◌>>=◌,
}
use cluster_api_provider_tin.Machine.Interfaces.{has_bmc}
use cluster_api_provider_tin.Machine.Claims.{get_ip_address_claim}
use cluster_api_provider_tin.Machine.Ipam.{ipam_reservation, release_ip_address_claim}
use cluster_api_provider_tin.Machine.Ownership.{
  machine_finalizer, machine_legacy_finalizer, release_hardware,
}
use cluster_api_provider_tin.Machine.Bmc.{
  recovery_name, with_owner_labels, new_bmc_job, resource_ownership, create_owned_job, poweroff_key,
  ensure_bmc_job_completion_for_delete,
}
use cluster_api_provider_tin.Machine.Recovery.{
  update_in_progress_annotation, recovery_timeout, in_place_update_stalled, is_updating,
  is_attempted, recover, create_power_cycle_job, mark_recovery_attempted,
}
use cluster_api_provider_tin.Machine.Recovery.Budget.{
  IsDue, jobs, recover-jobs, recover_once, recover_already_exists,
}
use cluster_api_provider_tin.Machine.Workflow.{ensure_workflow, remove_workflow}
use cluster_api_provider_tin.Machine.Reconcile.{
  is_provisioned, reconcile_workflow, reconcile_body, reconcile, remove_finalizer, patch,
}
use cluster_api_provider_tin.Machine.Reconcile.Order.{reconcile_workflow_ready, reconcile_finalizer}
use cluster_api_provider_tin.Machine.Deletion.{
  default_namespace, hardware_key, delete_machine_with_dependencies, remove_dependencies,
  delete_with_hardware, release_claim_and_finalizer,
}
use cluster_api_provider_tin.Machine.Deletion.Cleanup.{Deletion, CleanedUp}
use cluster_api_provider_tin.Machine.Deletion.PowerOff.{delete_with_hardware_powers_off}
use cluster_api_provider_tin.Machine.Deletion.Order.{delete_machine_order}
use cluster_api_provider_tin.Machine.Template.{remove_template}
use cluster_api_provider_tin.Machine.Tasks.{remove_tasks}
use cluster_api_provider_tin.Examples.World.{
  world, world_with_job, world-FinalizerLaws, meta_of, server_a, scope, start, contains,
}

abbrev updating : Machine
updating =
    let meta = meta_of "m1" in
    record {
      meta = record meta { annotations = (update_in_progress_annotation, "") ∷ [] };
      cluster_name = "cluster";
      data_secret_name = none;
      version = "v1.33.0";
      conditions =
          record {
            kind = "UpToDate";
            status = condition_false;
            reason = "";
            last_transition = 1000;
          }
          ∷ [];
    }

due : IsDue world server_a 2500 recovery_timeout updating start.machine
unfolding is_updating is_attempted in_place_update_stalled has_bmc lookup
due = record { updating = refl; not_attempted = refl; stalled = refl; reachable = refl }

IsDue-world_with_job : IsDue world_with_job server_a 2500 recovery_timeout updating start.machine
unfolding is_updating is_attempted in_place_update_stalled has_bmc lookup
IsDue-world_with_job = record {
  updating = refl;
  not_attempted = refl;
  stalled = refl;
  reachable = refl;
}

is_updating_lem : is_updating updating ≡ true
unfolding is_updating lookup
is_updating_lem = refl

recovered :
    (recover world scope server_a 2500 recovery_timeout updating start.machine start).0 ≡ ok tt
unfolding recover is_updating is_attempted in_place_update_stalled has_bmc lookup
    create_power_cycle_job create_owned_job resource_ownership mark_recovery_attempted pure raise
    lift gets ask attempt modify ◌>>=◌ new_bmc_job
recovered = refl

recover-jobs_example :
    (jobs (recover world scope server_a 2500 recovery_timeout updating start.machine start).1.trace
      ≡ jobs start.trace)
    ⊎ IsDue world server_a 2500 recovery_timeout updating start.machine
recover-jobs_example = recover-jobs world scope server_a 2500 recovery_timeout updating start

recover_once_example :
    let s' = (recover world scope server_a 2500 recovery_timeout updating start.machine start).1 in
    recover world scope server_a 9000 recovery_timeout updating s'.machine s' ≡ (ok tt, s')
recover_once_example =
    recover_once world scope server_a 2500 9000 recovery_timeout updating updating start due
      recovered is_updating_lem

abbrev recovery_job : Job
recovery_job =
    new_bmc_job start.machine (recovery_name start.machine) server_a (hard_off ∷ power_on ∷ [])

abbrev owned_meta : ObjectMeta
owned_meta = with_owner_labels start.machine recovery_job.meta

owned : resource_ownership world_with_job scope start.machine recovery_job.meta ≡ ok owned_meta
unfolding resource_ownership new_bmc_job
owned = refl

job_exists : (t : List Call) (j : Job) → world_with_job.create_job t j ≡ err (api already_exists)
job_exists t j = refl

recover_already_exists_example :
    is_attempted
      (recover world_with_job scope server_a 2500 recovery_timeout updating start.machine
        start).1.machine
    ≡ true
recover_already_exists_example =
    recover_already_exists world_with_job scope server_a 2500 recovery_timeout updating start
      owned_meta IsDue-world_with_job owned job_exists

reconcile_workflow_ready_example :
    ((reconcile_workflow world scope 100 server_a start).1.machine ≡ start.machine)
    ⊎ (is_provisioned server_a ≡ true)
    ⊎ ((wf : Workflow) × ((ensure_workflow world scope server_a start).0 ≡ ok wf)
        × (wf.state ≡ state_success))
reconcile_workflow_ready_example = reconcile_workflow_ready world scope 100 server_a start

reconcile_finalizer_example :
    let (r, s') = reconcile world scope 100 start in
    (r ≡ (reconcile_body world scope 100 start).0)
    × (s'.trace ≡ Call.patch_machine s'.machine ∷ (reconcile_body world scope 100 start).1.trace)
    × (world.contains_finalizer s'.machine.meta.finalizers machine_finalizer ≡ true)
    × (world.contains_finalizer s'.machine.meta.finalizers machine_legacy_finalizer ≡ false)
reconcile_finalizer_example = reconcile_finalizer world scope 100 start world-FinalizerLaws

delete_machine_order_example :
    let key = hardware_key (default_namespace start.machine) in
    let s' : ScopeState = record start {
      machine = default_namespace start.machine;
      trace = Call.get_hardware key ∷ start.trace;
    } in
    let r = delete_machine_with_dependencies world scope start in
    Deletion world server_a s' r × CleanedUp world s' r
delete_machine_order_example = delete_machine_order world scope server_a start refl

reachable_bmc : has_bmc world server_a ≡ true
unfolding has_bmc
reachable_bmc = refl

deleted : (delete_with_hardware world scope (ok server_a) start).0 ≡ ok tt
unfolding delete_with_hardware remove_dependencies gets ◌>>=◌ attempt remove_template ask pure
    remove_tasks remove_workflow has_bmc ensure_bmc_job_completion_for_delete release_hardware
    ipam_reservation get_ip_address_claim lookup lift release_claim_and_finalizer
    release_ip_address_claim contains remove_finalizer modify raise patch
deleted = refl

delete_with_hardware_powers_off_example :
    let s' = (remove_dependencies world scope start).1 in
    (job : Job) × (world.get_job s'.trace (poweroff_key s'.machine) ≡ ok job)
    × (world.has_true_condition job completed ≡ true)
delete_with_hardware_powers_off_example =
    delete_with_hardware_powers_off world scope server_a start reachable_bmc deleted
