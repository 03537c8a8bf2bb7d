-- ===== src/Conversion/Objects.antt =====
-- The six conversion functions of api/v1beta1/conversion.go. The destination is a new object of
-- the zero values.
use cluster_api_provider_tin.Prelude.{String, Option, none, some, List, []}
use cluster_api_provider_tin.Objects.{
  ObjectMeta, IpPoolReference, ObjectRef, TinkerbellMachineConfig, TinkerbellMachineStatus,
  TinkerbellMachine, TinkerbellCluster,
}
use cluster_api_provider_tin.Conversion.Spoke.{
  SpokeMachineSpec, SpokeMachineStatus, SpokeMachine, SpokeMachineTemplate, SpokeCluster,
  no_image_lookup,
}
use cluster_api_provider_tin.Conversion.Stash.{Codec, marshal_data, unmarshal_data}
use cluster_api_provider_tin.Conversion.Fields.{
  init_to_hub, init_from_hub, ref_to_hub, ref_from_hub, affinity_to_hub, affinity_from_hub,
  boot_to_hub, boot_from_hub, status_to_hub, status_from_hub,
}

-- `spec.template` of the hub's TinkerbellMachineTemplate, with the metadata of the machines made
-- from it.
pub record MachineTemplate : Type 0 where
  pub meta : ObjectMeta
  pub template_labels : List (String × String)
  pub template_annotations : List (String × String)
  pub config : TinkerbellMachineConfig

-- The conversion of the config's shared fields, with the fields that only the hub has as given.
unfoldable pub config_to_hub :
    SpokeMachineSpec → Option ObjectRef → Option IpPoolReference → TinkerbellMachineConfig
config_to_hub spec template_ref pool = record {
  template_inline = spec.template_override;
  template_ref = template_ref;
  hardware_affinity = affinity_to_hub spec.hardware_affinity;
  boot_options = boot_to_hub spec.boot_options;
  address_from_pool = pool;
}

unfoldable pub machine_status_to_hub : SpokeMachineStatus → TinkerbellMachineStatus
machine_status_to_hub st = record {
  ready = st.ready;
  initialization = init_to_hub st.initialization;
  addresses = st.addresses;
  state = status_to_hub st.instance_status;
  target_namespace = st.target_namespace;
  conditions = st.conditions;
  error_reason = st.error_reason;
  error_message = st.error_message;
}

unfoldable pub machine_status_from_hub : TinkerbellMachineStatus → SpokeMachineStatus
machine_status_from_hub st = record {
  ready = st.ready;
  initialization = init_from_hub st.initialization;
  addresses = st.addresses;
  instance_status = status_from_hub st.state;
  target_namespace = st.target_namespace;
  conditions = st.conditions;
  error_reason = st.error_reason;
  error_message = st.error_message;
}

unfoldable pub machine_to_hub_with :
    SpokeMachine → ObjectMeta → Option ObjectRef → Option IpPoolReference → TinkerbellMachine
unfolding config_to_hub machine_status_to_hub
machine_to_hub_with src meta template_ref pool = record {
  meta = meta;
  spec = record {
    config = config_to_hub src.spec template_ref pool;
    hardware_name = src.spec.hardware_name;
    provider_id = src.spec.provider_id;
  };
  status = machine_status_to_hub src.status;
}

unfoldable pub restore_machine :
    SpokeMachine → Option (Option TinkerbellMachine × ObjectMeta) → Option TinkerbellMachine
unfolding machine_to_hub_with
restore_machine src none = none
restore_machine src (some (none, meta)) = some (machine_to_hub_with src meta none none)
restore_machine src (some (some stashed, meta)) =
    some (machine_to_hub_with src meta stashed.spec.template_ref stashed.spec.address_from_pool)

unfoldable pub convert_machine_to_hub :
    Codec TinkerbellMachine → SpokeMachine → Option TinkerbellMachine
unfolding restore_machine
convert_machine_to_hub c src = restore_machine src (unmarshal_data c src.meta)

unfoldable pub machine_from_hub_with : TinkerbellMachine → ObjectMeta → SpokeMachine
unfolding machine_status_from_hub
machine_from_hub_with src meta = record {
  meta = meta;
  spec = record {
    image_lookup = no_image_lookup;
    template_override = src.spec.template_inline;
    hardware_affinity = affinity_from_hub src.spec.hardware_affinity;
    boot_options = boot_from_hub src.spec.boot_options;
    hardware_name = src.spec.hardware_name;
    provider_id = src.spec.provider_id;
  };
  status = machine_status_from_hub src.status;
}

unfoldable pub stashed_machine : TinkerbellMachine → Option ObjectMeta → Option SpokeMachine
unfolding machine_from_hub_with
stashed_machine src none = none
stashed_machine src (some meta) = some (machine_from_hub_with src meta)

unfoldable pub convert_machine_from_hub :
    Codec TinkerbellMachine → TinkerbellMachine → Option SpokeMachine
unfolding stashed_machine
convert_machine_from_hub c src = stashed_machine src (marshal_data c src src.meta)

unfoldable pub restore_template :
    SpokeMachineTemplate → Option (Option MachineTemplate × ObjectMeta) → Option MachineTemplate
unfolding config_to_hub
restore_template src none = none
restore_template src (some (none, meta)) = some (record {
  meta = meta;
  template_labels = [];
  template_annotations = [];
  config = config_to_hub src.spec none none;
})
restore_template src (some (some stashed, meta)) = some (record {
  meta = meta;
  template_labels = stashed.template_labels;
  template_annotations = stashed.template_annotations;
  config = config_to_hub src.spec stashed.config.template_ref stashed.config.address_from_pool;
})

unfoldable pub convert_machine_template_to_hub :
    Codec MachineTemplate → SpokeMachineTemplate → Option MachineTemplate
unfolding restore_template
convert_machine_template_to_hub c src = restore_template src (unmarshal_data c src.meta)

unfoldable pub stashed_template : MachineTemplate → Option ObjectMeta → Option SpokeMachineTemplate
stashed_template src none = none
stashed_template src (some meta) = some (record {
  meta = meta;
  spec = record {
    image_lookup = no_image_lookup;
    template_override = src.config.template_inline;
    hardware_affinity = affinity_from_hub src.config.hardware_affinity;
    boot_options = boot_from_hub src.config.boot_options;
    hardware_name = "";
    provider_id = "";
  };
})

unfoldable pub convert_machine_template_from_hub :
    Codec MachineTemplate → MachineTemplate → Option SpokeMachineTemplate
unfolding stashed_template
convert_machine_template_from_hub c src = stashed_template src (marshal_data c src src.meta)

-- What the stash of a cluster holds is decoded and dropped.
unfoldable pub restore_cluster :
    SpokeCluster → Option (Option TinkerbellCluster × ObjectMeta) → Option TinkerbellCluster
restore_cluster src none = none
restore_cluster src (some (stashed, meta)) = some (record {
  meta = meta;
  spec = record {
    control_plane_endpoint = src.spec.control_plane_endpoint;
    template_inline = src.spec.template_override;
    template_ref = ref_to_hub src.spec.template_override_ref;
  };
  status = record {
    ready = src.status.ready;
    initialization = init_to_hub src.status.initialization;
    conditions = src.status.conditions;
  };
})

unfoldable pub convert_cluster_to_hub :
    Codec TinkerbellCluster → SpokeCluster → Option TinkerbellCluster
unfolding restore_cluster
convert_cluster_to_hub c src = restore_cluster src (unmarshal_data c src.meta)

unfoldable pub stashed_cluster : TinkerbellCluster → Option ObjectMeta → Option SpokeCluster
stashed_cluster src none = none
stashed_cluster src (some meta) = some (record {
  meta = meta;
  spec = record {
    control_plane_endpoint = src.spec.control_plane_endpoint;
    image_lookup = no_image_lookup;
    template_override = src.spec.template_inline;
    template_override_ref = ref_from_hub src.spec.template_ref;
  };
  status = record {
    ready = src.status.ready;
    initialization = init_from_hub src.status.initialization;
    conditions = src.status.conditions;
  };
})

unfoldable pub convert_cluster_from_hub :
    Codec TinkerbellCluster → TinkerbellCluster → Option SpokeCluster
unfolding stashed_cluster
convert_cluster_from_hub c src = stashed_cluster src (marshal_data c src src.meta)
