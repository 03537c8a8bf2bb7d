-- ===== src/Setup.antt =====
-- main.go: the settings of the program and its clients of the Tinkerbell cluster, and RestConfig of
-- pkg/cluster/cluster.go. What the file system, client-go and the manager answer is an argument.
pub mod Start
pub mod Runs
pub mod Ready
use cluster_api_provider_tin.Prelude.{
  ℕ, ◌*◌, String, Bool, true, false, Option, none, some, List, [], ◌∷◌, ◌==◌, if◌then◌else◌,
}
use cluster_api_provider_tin.Watch.{WatchManager, set_context}
use cluster_api_provider_tin.Watch.Start.{WatchedKind}

-- An int, and a duration in nanoseconds; `negsuc n` is -(n + 1).
pub data ℤ : Type 0 where
  pos negsuc : ℕ → ℤ

pub record Config : Type 0 where
  pub enable_leader_election : Bool
  pub metrics_bind_address : String
  pub leader_election_namespace : String
  pub watch_namespace : String
  pub health_addr : String
  pub watch_filter_value : String
  pub webhook_cert_dir : String
  pub tinkerbell_cluster_concurrency : ℤ
  pub tinkerbell_machine_concurrency : ℤ
  pub tinkerbell_hardware_concurrency : ℤ
  pub tinkerbell_template_concurrency : ℤ
  pub tinkerbell_workflow_concurrency : ℤ
  pub webhook_port : ℤ
  pub sync_period : ℤ
  pub leader_election_lease_duration : ℤ
  pub leader_election_renew_deadline : ℤ
  pub leader_election_retry_period : ℤ
  pub external_kubeconfig : String

abbrev seconds : ℕ → ℤ
seconds n = pos (n * 1000000000)

-- What initFlags gives each field, before the flags are parsed.
abbrev pub init_flags : Config
init_flags = record {
  enable_leader_election = false;
  metrics_bind_address = "localhost:8080";
  leader_election_namespace = "";
  watch_namespace = "";
  health_addr = ":9440";
  watch_filter_value = "";
  webhook_cert_dir = "/tmp/k8s-webhook-server/serving-certs";
  tinkerbell_cluster_concurrency = pos 10;
  tinkerbell_machine_concurrency = pos 10;
  tinkerbell_hardware_concurrency = pos 10;
  tinkerbell_template_concurrency = pos 10;
  tinkerbell_workflow_concurrency = pos 10;
  webhook_port = pos 9443;
  sync_period = seconds 600;
  leader_election_lease_duration = seconds 15;
  leader_election_renew_deadline = seconds 10;
  leader_election_retry_period = seconds 2;
  external_kubeconfig = "/var/run/secrets/external-tinkerbell/kubeconfig";
}

-- ctrl.Options, less the scheme and the broadcaster of events, which are always the same.
pub record ManagerOptions : Type 0 where
  pub metrics_bind_address : String
  pub leader_election : Bool
  pub leader_election_id : String
  pub leader_election_namespace : String
  pub lease_duration : ℤ
  pub renew_deadline : ℤ
  pub retry_period : ℤ
  pub health_probe_bind_address : String
  pub default_namespaces : List String

unfoldable pub manager_options : Config → ManagerOptions
manager_options c = record {
  metrics_bind_address = c.metrics_bind_address;
  leader_election = c.enable_leader_election;
  leader_election_id = "controller-leader-election-capt";
  leader_election_namespace = c.leader_election_namespace;
  lease_duration = c.leader_election_lease_duration;
  renew_deadline = c.leader_election_renew_deadline;
  retry_period = c.leader_election_retry_period;
  health_probe_bind_address = c.health_addr;
  default_namespaces = if c.watch_namespace == "" then [] else c.watch_namespace ∷ [];
}

-- The schemes that newScheme adds.
pub data SchemeGroup : Type 0 where
  client_go infrastructure_v1beta1 infrastructure_v1beta2 cluster_v1 ipam_v1 tinkerbell_group
        bmc_group :
      SchemeGroup

-- The objects whose webhooks are set up, and whether a converter goes with them.
pub data WebhookKind : Type 0 where
  cluster_webhook cluster_template_webhook machine_webhook machine_template_webhook : WebhookKind

-- What the machine controller watches besides TinkerbellMachines.
pub data MachineWatch : Type 0 where
  machines tinkerbell_clusters clusters ip_address_claims : MachineWatch
  owned_by_machine labelled_for_machine : WatchedKind → MachineWatch

-- The calls that the start makes of third-party code, and what can end it.
pub data SetupCall : Type 0 where
  parse_flags : SetupCall
  add_to_scheme : SchemeGroup → SetupCall
  new_manager : ManagerOptions → SetupCall
  new_direct_client : SetupCall
  -- The concurrency and the label value of the watches.
  build_cluster_controller : ℤ → String → SetupCall
  cluster_mapper : SetupCall
  build_machine_controller : ℤ → String → List MachineWatch → SetupCall
  complete_webhook : WebhookKind → Bool → SetupCall
  add_readyz_check add_healthz_check start_manager : SetupCall

pub data RestError : Type 0 where
  no_config read_failed parse_failed : RestError

pub data SetupError : Type 0 where
  call_failed : SetupCall → SetupError
  external_config : RestError → SetupError

-- What os.ReadFile answers.
pub data FileAnswer : Type 0 where
  contents : String → FileAnswer
  not_exist unreadable : FileAnswer

-- What the start reads and calls: the settings that the flags, the environment and a file give
-- over the defaults, the kubeconfig at a cleaned path, and whether each call succeeds.
pub record SetupEnv : Type 0 where
  pub parsed : Config → Config
  pub read_file : String → FileAnswer
  -- clientcmd.RESTConfigFromKubeConfig.
  pub parses_kubeconfig : String → Bool
  pub succeeds : SetupCall → Bool

pub data Outcome (A : Type 0) : Type 0 where
  done : A → Outcome A
  exits : SetupError → Outcome A

-- The calls made so far, the latest first.
abbrev pub Startup : Type 0 → Type 0
Startup A = List SetupCall → Outcome A × List SetupCall

module _ {A : Type 0} where
  unfoldable pub pure : A → Startup A
  pure a t = (done a, t)

  unfoldable pub exit : SetupError → Startup A
  exit x t = (exits x, t)

module _ {A B : Type 0} where
  abbrev pub continue : Outcome A → (A → Startup B) → Startup B
  continue (done a) f t = f a t
  continue (exits x) f t = (exits x, t)

  infixl 10 ◌>>=◌ ◌>>◌
  unfoldable pub ◌>>=◌ : Startup A → (A → Startup B) → Startup B
  ◌>>=◌ m f t = continue (m t).0 f (m t).1

  abbrev pub ◌>>◌ : Startup A → Startup B → Startup B
  m >> n = m >>= λ _. n

-- The clients of the Tinkerbell cluster: those of the manager, or of an external cluster.
pub record TinkerbellClientResult : Type 0 where
  pub external : Bool
  pub watch_manager : Option WatchManager

abbrev pub new_watch_manager : WatchManager
new_watch_manager = record {
  has_controller = false;
  has_context = false;
  namespaces = [];
  failures = [];
  cancelled = [];
}

module _ (e : SetupEnv) where
  unfoldable pub call : SetupCall → Startup (Unit {0})
  call c t = (if e.succeeds c then done tt else exits (call_failed c), c ∷ t)

  abbrev from_file : FileAnswer → Option RestError
  from_file not_exist = some no_config
  from_file unreadable = some read_failed
  from_file (contents data') =
      if data' == ""
      then some no_config
      else if e.parses_kubeconfig data'
      then none
      else some parse_failed

  -- RestConfig: the error, or none if there is a configuration.
  unfoldable pub rest_config : String → Option RestError
  rest_config location = if location == "" then some no_config else from_file (e.read_file location)

  unfoldable pub client_for : Option RestError → Startup TinkerbellClientResult
  client_for (some no_config) = pure (record { external = false; watch_manager = none })
  client_for (some x) = exit (external_config x)
  client_for none = do
    call new_direct_client
    pure (record { external = true; watch_manager = some (set_context true new_watch_manager) })

  unfoldable pub build_tinkerbell_client : Config → Startup TinkerbellClientResult
  unfolding rest_config client_for
  build_tinkerbell_client c = client_for (rest_config c.external_kubeconfig)
