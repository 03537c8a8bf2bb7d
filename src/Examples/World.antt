-- ===== src/Examples/World.antt =====
-- A small world: one management cluster and one Tinkerbell cluster with two Hardware.
use cluster_api_provider_tin.Prelude.{
  String, ◌≡◌, refl, ◌≢◌, Bool, true, false, ◌||◌, none, some, List, [], ◌∷◌, ◌++◌, arith, ◌==◌,
  eq_iff, eq_refl, if◌then◌else◌,
}
use cluster_api_provider_tin.Objects.{
  nonneg, ObjectMeta, Hardware, NetworkInterface, state_success, BootOptions, mode_none,
  IpPoolReference, TinkerbellMachineConfig, TinkerbellMachine, TinkerbellCluster, IpAddressClaim,
  IpAddress, Job, hard_off, completed, object_key,
}
use cluster_api_provider_tin.Kube.{
  Env, FinalizerLaws, ok, err, api, not_found, already_exists, ipv4_family, ScopeState, Scope,
}
use cluster_api_provider_tin.Machine.Claims.{
  annotation_mac_address, annotation_hardware_name, annotation_hardware_namespace,
}

-- Finalizers as controllerutil keeps them.
unfoldable pub contains : List String → String → Bool
contains [] f = false
contains (g ∷ gs) f = (g == f) || contains gs f

abbrev pub add : List String → String → List String
add fs f = if contains fs f then fs else fs ++ (f ∷ [])

unfoldable pub remove : List String → String → List String
remove [] f = []
remove (g ∷ gs) f = let rest = remove gs f in if g == f then rest else g ∷ rest

contains-snoc :
    (fs : List String) (f g : String) → contains (fs ++ (f ∷ [])) g ≡ (contains fs g || (f == g))
unfolding contains
contains-snoc [] f g = ground arith
contains-snoc (h ∷ fs) f g = ground (arith, contains-snoc fs f g)

contains-add_self_lem : (fs : List String) (f : String) → contains (add fs f) f ≡ true
contains-add_self_lem fs f = ground (arith, contains-snoc fs f f, eq_refl f)

contains-add_ne_lem :
    (fs : List String) (f g : String) → f ≢ g → contains (add fs f) g ≡ contains fs g
contains-add_ne_lem fs f g h = ground (arith, contains-snoc fs f g, eq_iff f g)

contains-remove_self_lem : (fs : List String) (f : String) → contains (remove fs f) f ≡ false
unfolding contains remove
contains-remove_self_lem [] f = refl
contains-remove_self_lem (g ∷ gs) f = ground (arith, contains-remove_self_lem gs f)

contains-remove_ne_lem :
    (fs : List String) (f g : String) → f ≢ g → contains (remove fs f) g ≡ contains fs g
unfolding contains remove
contains-remove_ne_lem [] f g h = refl
contains-remove_ne_lem (k ∷ ks) f g h =
    ground (arith, eq_iff k f, eq_iff k g, contains-remove_ne_lem ks f g h)

abbrev pub meta_of : String → ObjectMeta
meta_of name = record {
  name = name;
  namespace = "default";
  uid = name;
  labels = [];
  annotations = [];
  finalizers = [];
  deletion_timestamp = none;
  owner_references = [];
}

abbrev interface_with : String → NetworkInterface
interface_with address = record {
  ipam = some (record {
    ipv4 = some (record { address = address; prefix = "24"; gateway = ""; other = [] });
    ipv6 = none;
  });
  other = [];
}

abbrev pub server_a : Hardware
server_a = record {
  meta = meta_of "server-a";
  agent_id = "";
  network_interfaces =
      ("02:00:00:00:00:01", interface_with "10.0.0.1")
      ∷ ("02:00:00:00:00:02", interface_with "10.0.0.2")
      ∷ [];
  instance_spec = none;
  bmc = some (record { connection = some "bmc-a" });
  storage_devices = "/dev/sda" ∷ [];
}

abbrev pub server_b : Hardware
server_b = record server_a { meta = meta_of "server-b" }

abbrev pub no_boot_options : BootOptions
no_boot_options = record { iso_url = ""; boot_mode = mode_none; customboot_config = [] }

abbrev pub pool : IpPoolReference
pool = record { name = "pool"; kind = "InClusterIPPool"; api_group = "ipam.cluster.x-k8s.io" }

abbrev pub config : TinkerbellMachineConfig
config = record {
  template_inline = "tasks: []";
  template_ref = none;
  hardware_affinity = none;
  boot_options = no_boot_options;
  address_from_pool = some pool;
}

abbrev pub machine_named : String → TinkerbellMachine
machine_named name = record {
  meta = meta_of name;
  spec = record { config = config; hardware_name = "server-a"; provider_id = "" };
  status = record {
    ready = false;
    initialization = none;
    addresses = [];
    state = none;
    target_namespace = "default";
    conditions = [];
    error_reason = none;
    error_message = none;
  };
}

abbrev pub tinkerbell_cluster : TinkerbellCluster
tinkerbell_cluster = record {
  meta = meta_of "cluster";
  spec = record { control_plane_endpoint = none; template_inline = ""; template_ref = none };
  status = record { ready = false; initialization = none; conditions = [] };
}

abbrev pub scope : Scope
scope = record {
  external_tinkerbell = false;
  has_watch_manager = false;
  owner_machine = none;
  tinkerbell_cluster = tinkerbell_cluster;
  bootstrap_cloud_config = "hostname: PROVIDER_ID";
}

abbrev pub state_of : TinkerbellMachine → ScopeState
state_of m = record { machine = m; reserved_address = none; trace = [] }

abbrev pub start : ScopeState
start = state_of (machine_named "m1")

abbrev pub own_claim : IpAddressClaim
own_claim =
    let meta = meta_of "m1" in
    record {
      meta = record meta {
        annotations =
            (annotation_mac_address, "02:00:00:00:00:01")
            ∷ (annotation_hardware_name, "server-a")
            ∷ (annotation_hardware_namespace, "default")
            ∷ [];
      };
      cluster_name = "cluster";
      pool_ref = pool;
      address_ref = "m1-address";
    }

abbrev pub address : IpAddress
address = record {
  meta = meta_of "m1-address";
  address = "10.0.0.9";
  prefix = some (nonneg 24);
  gateway = "10.0.0.254";
}

abbrev power_off_job : Job
power_off_job = record {
  meta = meta_of "m1-poweroff";
  hardware_ref = object_key server_a.meta;
  operations = hard_off ∷ [];
  conditions = (completed, true) ∷ [];
}

-- Every call succeeds; the Job of a recovery does not exist yet.
abbrev pub world : Env
world = record {
  contains_finalizer = contains;
  add_finalizer = add;
  remove_finalizer = remove;
  is_controlled_by = λ a b. true;
  set_controller_reference = λ owner meta. ok meta;
  set_condition = λ cs c. c ∷ cs;
  selector_valid = λ s. true;
  selector_matches = λ s labels. true;
  parse_addr = λ s. some ipv4_family;
  iso_url_with_id = λ u i. some u;
  v1_interface_macs = λ hw. none;
  v1_bmc_ref = λ hw. none;
  has_true_condition = λ job k. true;
  workflow_to_v2 = λ w. ok (record { meta = w.meta; tasks = []; state = state_success });
  convert_template = λ t. ok (record { task_specs = [] });
  rewrite_workflow = λ w t c. ok w;
  template_tasks = λ t c. [];
  now_text = "2026-01-01T00:00:00Z";
  get_hardware = λ t k. ok server_a;
  list_owned_hardware = λ t n ns. ok [];
  list_hardware = λ t s. ok (server_a ∷ server_b ∷ []);
  patch_hardware = λ t base new lock. ok new;
  get_claim = λ t k. ok own_claim;
  create_claim = λ t c. ok c;
  patch_claim = λ t base new lock. ok new;
  delete_claim = λ t c. ok tt;
  get_address = λ t k. ok address;
  get_workflow = λ t k. ok (record { meta = meta_of "m1"; tasks = []; state = state_success });
  create_workflow = λ t w. ok tt;
  delete_workflow = λ t w. ok tt;
  get_template = λ t k. err (api not_found);
  create_template = λ t x. ok tt;
  delete_template = λ t x. ok tt;
  list_tasks = λ t n ns l. ok [];
  get_task = λ t k. err (api not_found);
  create_task = λ t x. ok tt;
  update_task = λ t x. ok tt;
  delete_task = λ t x. ok tt;
  get_job = λ t k. ok power_off_job;
  create_job = λ t j. ok tt;
  get_machine = λ t k. err (api not_found);
  patch_machine = λ t m. ok tt;
  merge_patch_machine = λ t base new. ok tt;
  ensure_watch = λ t ns. ok tt;
}

pub world-FinalizerLaws : FinalizerLaws world
world-FinalizerLaws = record {
  contains-add_self = contains-add_self_lem;
  contains-add_ne = contains-add_ne_lem;
  contains-remove_self = contains-remove_self_lem;
  contains-remove_ne = contains-remove_ne_lem;
}

-- The world in which the Job of an earlier recovery is still there.
abbrev pub world_with_job : Env
world_with_job = record world { create_job = λ t j. err (api already_exists) }
