-- ===== src/Setup/Start.antt =====
-- The start of the program (main.go), with the set-up of its two controllers
-- (SetupWithManager in controller/machine and controller/cluster).
use cluster_api_provider_tin.Prelude.{
  Bool, true, false, Option, none, some, List, [], ◌∷◌, ◌++◌, if◌then◌else◌,
}
use cluster_api_provider_tin.Watch.{WatchManager, set_controller}
use cluster_api_provider_tin.Watch.Start.{WatchedKind, workflow_kind, task_kind, job_kind}
use cluster_api_provider_tin.Setup.{
  Config, init_flags, manager_options, client_go, infrastructure_v1beta1, infrastructure_v1beta2,
  cluster_v1, ipam_v1, tinkerbell_group, bmc_group, cluster_webhook, cluster_template_webhook,
  machine_webhook, machine_template_webhook, MachineWatch, machines, tinkerbell_clusters, clusters,
  ip_address_claims, owned_by_machine, labelled_for_machine, parse_flags, add_to_scheme,
  new_manager, build_cluster_controller, cluster_mapper, build_machine_controller, complete_webhook,
  add_readyz_check, add_healthz_check, start_manager, SetupEnv, Startup, pure, ◌>>=◌, ◌>>◌,
  TinkerbellClientResult, call, build_tinkerbell_client,
}

abbrev pub owned_kinds : List WatchedKind → List MachineWatch
owned_kinds [] = []
owned_kinds (k ∷ ks) = owned_by_machine k ∷ labelled_for_machine k ∷ owned_kinds ks

-- The watches that the builder of the machine controller gathers.
unfoldable pub machine_watches : Bool → List MachineWatch
machine_watches external =
    (machines ∷ tinkerbell_clusters ∷ clusters ∷ ip_address_claims ∷ [])
    ++ (if external then [] else owned_kinds (workflow_kind ∷ task_kind ∷ job_kind ∷ []))

abbrev pub with_controller : Option WatchManager → Option WatchManager
with_controller none = none
with_controller (some wm) = some (set_controller true wm)

module _ (e : SetupEnv) where
  unfoldable pub new_scheme : Startup (Unit {0})
  new_scheme = do
    call e (add_to_scheme client_go)
    call e (add_to_scheme infrastructure_v1beta1)
    call e (add_to_scheme infrastructure_v1beta2)
    call e (add_to_scheme cluster_v1)
    call e (add_to_scheme ipam_v1)
    call e (add_to_scheme tinkerbell_group)
    call e (add_to_scheme bmc_group)

  -- SetupWithManager of the machine controller, with the watch manager as it leaves it.
  unfoldable pub setup_machine_controller :
      Config → TinkerbellClientResult → Startup TinkerbellClientResult
  setup_machine_controller c r = do
    call e cluster_mapper
    call e (
        build_machine_controller c.tinkerbell_machine_concurrency c.watch_filter_value
          (machine_watches r.external))
    pure (record r { watch_manager = with_controller r.watch_manager })

  unfoldable pub setup_reconcilers : Config → Startup TinkerbellClientResult
  setup_reconcilers c = do
    r ← build_tinkerbell_client e c
    call e (build_cluster_controller c.tinkerbell_cluster_concurrency c.watch_filter_value)
    setup_machine_controller c r

  unfoldable pub setup_webhooks : Startup (Unit {0})
  setup_webhooks = do
    call e (complete_webhook cluster_webhook true)
    call e (complete_webhook cluster_template_webhook false)
    call e (complete_webhook machine_webhook true)
    call e (complete_webhook machine_template_webhook true)

  unfoldable pub add_health_checks : Startup (Unit {0})
  add_health_checks = do call e add_readyz_check; call e add_healthz_check

  -- All that main does before it starts the manager.
  unfoldable pub prepare : Config → Startup TinkerbellClientResult
  prepare c = do
    new_scheme
    call e (new_manager (manager_options c))
    r ← setup_reconcilers c
    setup_webhooks
    add_health_checks
    pure r

  unfoldable pub run : Config → Startup TinkerbellClientResult
  run c = do r ← prepare c; call e start_manager; pure r

  -- main, with the clients that the machine controller has while the manager runs.
  unfoldable pub main : Startup TinkerbellClientResult
  main = do call e parse_flags; run (e.parsed init_flags)
