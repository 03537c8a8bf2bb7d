-- ===== src/Examples/Entry.antt =====
-- The theorem on the entry point of the machine controller, at concrete objects.
use cluster_api_provider_tin.Prelude.{◌≡◌, ◌⊎◌, false, some, [], ◌∷◌}
use cluster_api_provider_tin.Objects.{Machine}
use cluster_api_provider_tin.Kube.{ok}
use cluster_api_provider_tin.Machine.Controller.{EntryEnv, Reconciler, enter}
use cluster_api_provider_tin.Machine.Controller.Guards.{IsPassed, enter_guarded}
use cluster_api_provider_tin.Examples.World.{world, meta_of, machine_named, tinkerbell_cluster}

abbrev owner : Machine
owner = record {
  meta = meta_of "m1";
  cluster_name = "cluster";
  data_secret_name = some "m1-bootstrap";
  version = "v1.33.0";
  conditions = [];
}

abbrev management : EntryEnv
management = record {
  get_tinkerbell_machine = ok (machine_named "m1");
  new_patch_helper = λ tm. ok tt;
  get_owner_machine = λ m. ok (some owner);
  get_cluster_from_metadata = λ m. ok (record { infrastructure_ref_name = "cluster" });
  ensure_paused_condition = λ c tm. ok (false, tm);
  get_secret = λ k. ok (("value", "#cloud-config") ∷ []);
  get_tinkerbell_cluster = λ k. ok tinkerbell_cluster;
}

abbrev reconciler : Reconciler
reconciler = record { external_tinkerbell = false; has_watch_manager = false }

enter_guarded_example : ((enter management world reconciler 100).trace ≡ []) ⊎ IsPassed management
enter_guarded_example = enter_guarded management world reconciler 100
