-- ===== src/Examples/Mappers.antt =====
-- The theorems on what wakes a machine, at concrete objects.
use cluster_api_provider_tin.Prelude.{◌≡◌, refl, ap, sym, true, some, [], ◌∷◌, ◌↔◌, Member}
use cluster_api_provider_tin.Objects.{ObjectMeta, TinkerbellMachine, object_key}
use cluster_api_provider_tin.Kube.{ok}
use cluster_api_provider_tin.Kube.Ensures.{ok-injective}
use cluster_api_provider_tin.Machine.Claims.{label_machine_name, label_machine_namespace}
use cluster_api_provider_tin.Machine.Bmc.{with_owner_labels, resource_ownership}
use cluster_api_provider_tin.Machine.Template.{owns_resource}
use cluster_api_provider_tin.Machine.Mappers.{
  ClusterMachine, MapperEnv, label_to_machine_mapper, tinkerbell_cluster_to_tinkerbell_machines,
}
use cluster_api_provider_tin.Machine.Mappers.Wakes.{
  KeepsLabels, owned_object_wakes, Refers, request, cluster_change_wakes_iff,
}
use cluster_api_provider_tin.Watch.{label_mapper}
use cluster_api_provider_tin.Examples.World.{
  world, scope, meta_of, machine_named, tinkerbell_cluster,
}

-- A server of the same cluster, whose SetControllerReference leaves the labels alone.
abbrev laws : KeepsLabels world
laws = record {
  labels_kept =
      λ owner meta meta' h. ap (λ (i : ObjectMeta). i.labels) (sym (ok-injective meta meta' h));
}

abbrev m1 : TinkerbellMachine
m1 = machine_named "m1"

abbrev first_machine : ClusterMachine
first_machine = record { namespace = "default"; infrastructure_ref_name = "m1" }

abbrev nameless_machine : ClusterMachine
nameless_machine = record { namespace = "default"; infrastructure_ref_name = "" }

abbrev cluster_api : MapperEnv
cluster_api = record {
  get_owner_cluster = λ m. ok (some (record { namespace = "default"; name = "cluster" }));
  get_filtered_machines_for_cluster = λ k. ok (nameless_machine ∷ first_machine ∷ []);
}

abbrev owned_meta : ObjectMeta
owned_meta = with_owner_labels m1 (meta_of "m1")

owned_object_wakes_example :
    (owns_resource m1 owned_meta ≡ true)
    × (label_to_machine_mapper owned_meta.labels ≡ object_key m1.meta ∷ [])
    × (label_mapper label_machine_name label_machine_namespace owned_meta.labels
        ≡ object_key m1.meta ∷ [])
unfolding resource_ownership
owned_object_wakes_example =
    owned_object_wakes world scope m1 (meta_of "m1") owned_meta laws refl refl refl

cluster_change_wakes_iff_example :
    Member
      (request first_machine)
      (tinkerbell_cluster_to_tinkerbell_machines cluster_api (some tinkerbell_cluster))
    ↔ Refers (nameless_machine ∷ first_machine ∷ []) (request first_machine)
cluster_change_wakes_iff_example =
    cluster_change_wakes_iff cluster_api tinkerbell_cluster
      (record { namespace = "default"; name = "cluster" }) (nameless_machine ∷ first_machine ∷ [])
      (request first_machine) refl refl refl
