-- ===== src/Examples/Versions.antt =====
-- The theorems on the conversions between the API versions, at concrete objects.
use cluster_api_provider_tin.Prelude.{◌≡◌, refl, false, none, some, [], ◌∷◌, lookup, insert}
use cluster_api_provider_tin.Conversion.Spoke.{
  SpokeMachine, SpokeCluster, ImageLookup, no_image_lookup,
}
use cluster_api_provider_tin.Conversion.Stash.{
  data_annotation, Codec, Restores, marshal_data, unmarshal_data, with_annotations,
}
use cluster_api_provider_tin.Conversion.Fields.{
  init_from_hub, init_to_hub, ref_to_hub, ref_from_hub,
}
use cluster_api_provider_tin.Conversion.Objects.{
  machine_from_hub_with, convert_machine_to_hub, convert_machine_from_hub, convert_cluster_to_hub,
  convert_cluster_from_hub, stashed_machine, stashed_cluster, restore_cluster,
}
use cluster_api_provider_tin.Conversion.RoundTrip.{machine_round_trip}
use cluster_api_provider_tin.Conversion.Others.{with_image_lookup, cluster_image_lookup_lost}
use cluster_api_provider_tin.Examples.World.{meta_of, machine_named, tinkerbell_cluster}

-- A codec that knows one object.
abbrev knowing : {H : Type 0} → H → Codec H
knowing h = record { encode = λ x. some "{}"; decode = λ t. some h }

machines : Restores (knowing (machine_named "m1")) (λ m. m.spec) (machine_named "m1")
machines = record { restored = λ text p. (machine_named "m1", refl, refl) }

-- The machine with the text of its stash.
abbrev spoke : SpokeMachine
spoke =
    let hub = machine_named "m1" in
    machine_from_hub_with hub
      (with_annotations hub.meta (insert data_annotation "{}" hub.meta.annotations))

read : convert_machine_from_hub (knowing (machine_named "m1")) (machine_named "m1") ≡ some spoke
unfolding convert_machine_from_hub stashed_machine marshal_data
read = refl

machine_round_trip_example :
    convert_machine_to_hub (knowing (machine_named "m1")) spoke ≡ some (machine_named "m1")
unfolding lookup
machine_round_trip_example =
    machine_round_trip (knowing (machine_named "m1")) (machine_named "m1") spoke machines refl read

-- Another Hardware, and a label.
abbrev edited : SpokeMachine
edited =
    let spec = spoke.spec in
    let meta = spoke.meta in
    record spoke {
      meta = record meta { labels = ("rack", "1") ∷ [] };
      spec = record spec { hardware_name = "server-b" };
    }

abbrev spoke_cluster_with : ImageLookup → SpokeCluster
spoke_cluster_with lookups =
    let meta = tinkerbell_cluster.meta in
    record {
      meta = with_annotations meta (insert data_annotation "{}" meta.annotations);
      spec = record {
        control_plane_endpoint = none;
        image_lookup = lookups;
        template_override = "";
        template_override_ref = ref_from_hub none;
      };
      status = record { ready = false; initialization = init_from_hub none; conditions = [] };
    }

cluster_read :
    convert_cluster_from_hub (knowing tinkerbell_cluster) tinkerbell_cluster
    ≡ some (spoke_cluster_with no_image_lookup)
unfolding convert_cluster_from_hub stashed_cluster marshal_data
cluster_read = refl

abbrev some_image_lookup : ImageLookup
some_image_lookup = record no_image_lookup { image_lookup_os_distro = "ubuntu" }

abbrev spoke_with_lookup : SpokeCluster
spoke_with_lookup = record {
  meta = meta_of "cluster";
  spec = record {
    control_plane_endpoint = none;
    image_lookup = some_image_lookup;
    template_override = "";
    template_override_ref = none;
  };
  status = record { ready = false; initialization = none; conditions = [] };
}

stored :
    convert_cluster_to_hub (knowing tinkerbell_cluster) spoke_with_lookup ≡ some tinkerbell_cluster
unfolding convert_cluster_to_hub restore_cluster unmarshal_data lookup ref_to_hub init_to_hub
stored = refl

cluster_image_lookup_lost_example :
    ((lookups : ImageLookup)
      → convert_cluster_to_hub
          (knowing tinkerbell_cluster)
          (with_image_lookup lookups spoke_with_lookup)
        ≡ some tinkerbell_cluster)
    × ((spoke_cluster_with no_image_lookup).spec.image_lookup ≡ no_image_lookup)
cluster_image_lookup_lost_example =
    cluster_image_lookup_lost (knowing tinkerbell_cluster) spoke_with_lookup
      (spoke_cluster_with no_image_lookup) tinkerbell_cluster stored cluster_read
