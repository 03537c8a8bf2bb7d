-- ===== src/Conversion/Others.antt =====
-- Machine templates and clusters through the spoke version, and what the hub does not keep.
use cluster_api_provider_tin.Prelude.{◌≡◌, refl, sym, ◌∙◌, ap, Option, none, some, arith, lookup}
use mathlib.Core.Option.{some-injective}
use cluster_api_provider_tin.Objects.{ObjectMeta, TinkerbellCluster}
use cluster_api_provider_tin.Conversion.Spoke.{
  SpokeMachineTemplate, SpokeCluster, ImageLookup, no_image_lookup,
}
use cluster_api_provider_tin.Conversion.Stash.{
  data_annotation, Codec, Restores, marshal_data, unmarshal_data,
}
use cluster_api_provider_tin.Conversion.Fields.{
  init_to-from, ref_to-from, affinity_to-from, boot_to-from,
}
use cluster_api_provider_tin.Conversion.Objects.{
  MachineTemplate, config_to_hub, restore_template, convert_machine_template_to_hub,
  stashed_template, convert_machine_template_from_hub, restore_cluster, convert_cluster_to_hub,
  stashed_cluster, convert_cluster_from_hub,
}
use cluster_api_provider_tin.Conversion.RoundTrip.{unstashed}

template_round_trip_from :
    (c : Codec MachineTemplate) (hub : MachineTemplate) (o : Option ObjectMeta)
    (spoke : SpokeMachineTemplate)
    → Restores c (λ t. t) hub
    → lookup data_annotation hub.meta.annotations ≡ none
    → marshal_data c hub hub.meta ≡ o
    → stashed_template hub o ≡ some spoke
    → convert_machine_template_to_hub c spoke ≡ some hub
unfolding stashed_template convert_machine_template_to_hub restore_template config_to_hub
template_round_trip_from c hub none spoke r fresh marshalled converted = ground (arith, converted)
template_round_trip_from c hub (some meta) spoke r fresh marshalled converted =
    let (h', unmarshalled, same) = unstashed c (λ t. t) hub r hub.meta meta fresh marshalled in
    rw
      (
        sym (some-injective _ _ converted),
        unmarshalled,
        same,
        affinity_to-from hub.config.hardware_affinity,
        boot_to-from hub.config.boot_options,
      )
      refl

-- A hub machine template that is read and written through v1beta1 is the same again, where its
-- metadata has no stash; the metadata of the machines made from it included.
machine_template_round_trip :
    (c : Codec MachineTemplate) (hub : MachineTemplate) (spoke : SpokeMachineTemplate)
    → Restores c (λ t. t) hub
    → lookup data_annotation hub.meta.annotations ≡ none
    → convert_machine_template_from_hub c hub ≡ some spoke
    → convert_machine_template_to_hub c spoke ≡ some hub
unfolding convert_machine_template_from_hub
machine_template_round_trip c hub spoke r fresh converted =
    template_round_trip_from c hub (marshal_data c hub hub.meta) spoke r fresh refl converted

cluster_round_trip_from :
    (c : Codec TinkerbellCluster) (hub : TinkerbellCluster) (o : Option ObjectMeta)
    (spoke : SpokeCluster)
    → Restores c (λ t. t.spec) hub
    → lookup data_annotation hub.meta.annotations ≡ none
    → marshal_data c hub hub.meta ≡ o
    → stashed_cluster hub o ≡ some spoke
    → convert_cluster_to_hub c spoke ≡ some hub
unfolding stashed_cluster convert_cluster_to_hub restore_cluster
cluster_round_trip_from c hub none spoke r fresh marshalled converted = ground (arith, converted)
cluster_round_trip_from c hub (some meta) spoke r fresh marshalled converted =
    let (h', unmarshalled, same) = unstashed c (λ t. t.spec) hub r hub.meta meta fresh marshalled in
    rw
      (
        sym (some-injective _ _ converted),
        unmarshalled,
        ref_to-from hub.spec.template_ref,
        init_to-from hub.status.initialization,
      )
      refl

-- A hub cluster that is read and written through v1beta1 is the same again, where its metadata has
-- no stash.
cluster_round_trip :
    (c : Codec TinkerbellCluster) (hub : TinkerbellCluster) (spoke : SpokeCluster)
    → Restores c (λ t. t.spec) hub
    → lookup data_annotation hub.meta.annotations ≡ none
    → convert_cluster_from_hub c hub ≡ some spoke
    → convert_cluster_to_hub c spoke ≡ some hub
unfolding convert_cluster_from_hub
cluster_round_trip c hub spoke r fresh converted =
    cluster_round_trip_from c hub (marshal_data c hub hub.meta) spoke r fresh refl converted

lost :
    (hub : TinkerbellCluster) (o : Option ObjectMeta) (spoke : SpokeCluster)
    → stashed_cluster hub o ≡ some spoke
    → spoke.spec.image_lookup ≡ no_image_lookup
unfolding stashed_cluster
lost hub none spoke h = ground (arith, h)
lost hub (some meta) spoke h = ap (λ c. c.spec.image_lookup) (sym (some-injective _ _ h))

abbrev pub with_image_lookup : ImageLookup → SpokeCluster → SpokeCluster
with_image_lookup lookups c =
    let spec = c.spec in record c { spec = record spec { image_lookup = lookups } }

restore_without_lookup :
    (spoke : SpokeCluster) (lookups : ImageLookup)
    (o : Option (Option TinkerbellCluster × ObjectMeta))
    → restore_cluster (with_image_lookup lookups spoke) o ≡ restore_cluster spoke o
unfolding restore_cluster
restore_without_lookup spoke lookups none = refl
restore_without_lookup spoke lookups (some found) = refl

-- A v1beta1 cluster that is stored as the hub version loses its four fields imageLookup*: with any
-- others in their place it is stored as the same hub cluster, and when that is read again they are
-- empty.
pub cluster_image_lookup_lost :
    (c : Codec TinkerbellCluster) (spoke spoke' : SpokeCluster) (hub : TinkerbellCluster)
    → convert_cluster_to_hub c spoke ≡ some hub
    → convert_cluster_from_hub c hub ≡ some spoke'
    → ((lookups : ImageLookup)
        → convert_cluster_to_hub c (with_image_lookup lookups spoke) ≡ some hub)
      × (spoke'.spec.image_lookup ≡ no_image_lookup)
unfolding convert_cluster_from_hub convert_cluster_to_hub
cluster_image_lookup_lost c spoke spoke' hub stored read = (
  λ lookups. restore_without_lookup spoke lookups (unmarshal_data c spoke.meta) ∙ stored,
  lost hub (marshal_data c hub hub.meta) spoke' read,
)
