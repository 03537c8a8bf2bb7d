-- ===== src/Examples/Startup.antt =====
-- The theorem on the start of the program, with a kubeconfig of an external cluster.
use cluster_api_provider_tin.Prelude.{◌≡◌, refl, true, some, [], ◌==◌, if◌then◌else◌}
use cluster_api_provider_tin.Watch.{WatchManager, set_controller, set_context}
use cluster_api_provider_tin.Setup.{
  Config, init_flags, contents, not_exist, SetupEnv, done, new_watch_manager, pure, call, ◌>>=◌,
  rest_config, client_for, build_tinkerbell_client,
}
use cluster_api_provider_tin.Setup.Start.{
  new_scheme, setup_machine_controller, setup_reconcilers, setup_webhooks, add_health_checks,
  prepare, run, main,
}
use cluster_api_provider_tin.Setup.Runs.{Outcomes}
use cluster_api_provider_tin.Setup.Ready.{Started, main-Outcomes}

-- Every call succeeds, and one file is there.
abbrev environment : SetupEnv
environment = record {
  parsed = λ c. record c { watch_namespace = "default"; external_kubeconfig = "/kubeconfig" };
  read_file = λ path. if path == "/kubeconfig" then contents "clusters: []" else not_exist;
  parses_kubeconfig = λ text. true;
  succeeds = λ c. true;
}

abbrev configuration : Config
configuration = record init_flags {
  watch_namespace = "default";
  external_kubeconfig = "/kubeconfig";
}

abbrev watch_manager : WatchManager
watch_manager = record new_watch_manager { has_controller = true; has_context = true }

external_start :
    (main environment []).0 ≡ done (record { external = true; watch_manager = some watch_manager })
unfolding main run prepare new_scheme setup_reconcilers setup_machine_controller setup_webhooks
    add_health_checks pure call ◌>>=◌ build_tinkerbell_client client_for rest_config set_controller
    set_context
external_start = refl

main-Outcomes_example :
    Outcomes environment configuration (Started environment configuration) (main environment [])
main-Outcomes_example = main-Outcomes environment
