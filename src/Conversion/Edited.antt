-- ===== src/Conversion/Edited.antt =====
-- A hub machine that is changed through v1beta1 (api/v1beta1/conversion.go).
use cluster_api_provider_tin.Prelude.{◌≡◌, Option, delete}
use cluster_api_provider_tin.Objects.{TinkerbellMachine}
use cluster_api_provider_tin.Conversion.Spoke.{SpokeMachine}
use cluster_api_provider_tin.Conversion.Fields.{
  init_from_hub, affinity_from_hub, boot_from_hub, status_from_hub,
}
use cluster_api_provider_tin.Conversion.Stash.{data_annotation, with_annotations}

-- How the hub machine `hub'` comes of `hub` and the v1beta1 machine `edited`: each field of v1beta1
-- as it is there, and the two that only the hub has as they were.
pub record IsEdited (hub : TinkerbellMachine) (edited : SpokeMachine) (hub' : TinkerbellMachine)
    : Type 0 where
  pub metadata :
      hub'.meta ≡ with_annotations edited.meta (delete data_annotation edited.meta.annotations)
  pub template_ref : hub'.spec.template_ref ≡ hub.spec.template_ref
  pub pool : hub'.spec.address_from_pool ≡ hub.spec.address_from_pool
  pub template : hub'.spec.template_inline ≡ edited.spec.template_override
  pub affinity : affinity_from_hub hub'.spec.hardware_affinity ≡ edited.spec.hardware_affinity
  pub boot_options : boot_from_hub hub'.spec.boot_options ≡ edited.spec.boot_options
  pub hardware_name : hub'.spec.hardware_name ≡ edited.spec.hardware_name
  pub provider_id : hub'.spec.provider_id ≡ edited.spec.provider_id
  pub ready : hub'.status.ready ≡ edited.status.ready
  pub initialization : init_from_hub hub'.status.initialization ≡ edited.status.initialization
  pub addresses : hub'.status.addresses ≡ edited.status.addresses
  pub state : status_from_hub hub'.status.state ≡ edited.status.instance_status
  pub target_namespace : hub'.status.target_namespace ≡ edited.status.target_namespace
  pub conditions : hub'.status.conditions ≡ edited.status.conditions
  pub error_reason : hub'.status.error_reason ≡ edited.status.error_reason
  pub error_message : hub'.status.error_message ≡ edited.status.error_message
