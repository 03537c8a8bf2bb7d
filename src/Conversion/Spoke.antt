-- ===== src/Conversion/Spoke.antt =====
-- The types of api/v1beta1, the spoke version, as far as they differ from those of api/v1beta2.
use cluster_api_provider_tin.Prelude.{String, Bool, Option, List}
use cluster_api_provider_tin.Objects.{
  Int32, ObjectMeta, LabelSelector, Condition, BootMode, ApiEndpoint, NodeAddress,
}

pub record ImageLookup : Type 0 where
  pub image_lookup_format : String
  pub image_lookup_base_registry : String
  pub image_lookup_os_distro : String
  pub image_lookup_os_version : String

pub record SpokeObjectRef : Type 0 where
  pub name : String
  pub namespace : String

pub record SpokeAffinityTerm : Type 0 where
  pub label_selector : LabelSelector

pub record SpokeWeightedTerm : Type 0 where
  pub weight : Int32
  pub hardware_affinity_term : SpokeAffinityTerm

pub record SpokeAffinity : Type 0 where
  pub required : List SpokeAffinityTerm
  pub preferred : List SpokeWeightedTerm

pub record SpokeBootOptions : Type 0 where
  pub iso_url : String
  pub boot_mode : BootMode
  pub customboot_config : List String

pub record SpokeInitialization : Type 0 where
  pub provisioned : Option Bool

-- The Go type is an int with five named values.
pub data SpokeResourceStatus : Type 0 where
  spoke_pending spoke_running spoke_failed spoke_timeout spoke_success : SpokeResourceStatus

pub record SpokeMachineSpec : Type 0 where
  pub image_lookup : ImageLookup
  pub template_override : String
  pub hardware_affinity : Option SpokeAffinity
  pub boot_options : SpokeBootOptions
  pub hardware_name : String
  pub provider_id : String

pub record SpokeMachineStatus : Type 0 where
  pub ready : Bool
  pub initialization : Option SpokeInitialization
  pub addresses : List NodeAddress
  pub instance_status : Option SpokeResourceStatus
  pub target_namespace : String
  pub conditions : List Condition
  pub error_reason : Option String
  pub error_message : Option String

pub record SpokeMachine : Type 0 where
  pub meta : ObjectMeta
  pub spec : SpokeMachineSpec
  pub status : SpokeMachineStatus

pub record SpokeMachineTemplate : Type 0 where
  pub meta : ObjectMeta
  pub spec : SpokeMachineSpec

pub record SpokeClusterSpec : Type 0 where
  pub control_plane_endpoint : Option ApiEndpoint
  pub image_lookup : ImageLookup
  pub template_override : String
  pub template_override_ref : Option SpokeObjectRef

pub record SpokeClusterStatus : Type 0 where
  pub ready : Bool
  pub initialization : Option SpokeInitialization
  pub conditions : List Condition

pub record SpokeCluster : Type 0 where
  pub meta : ObjectMeta
  pub spec : SpokeClusterSpec
  pub status : SpokeClusterStatus

-- The zero value of the fields that only this version has.
abbrev pub no_image_lookup : ImageLookup
no_image_lookup = record {
  image_lookup_format = "";
  image_lookup_base_registry = "";
  image_lookup_os_distro = "";
  image_lookup_os_version = "";
}
