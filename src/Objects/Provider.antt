-- ===== src/Objects/Provider.antt =====
-- api/v1beta2/tinkerbellmachine.go, tinkerbellcluster.go and types.go, and the owning Cluster API
-- Machine as far as the machine controller reads it.
use cluster_api_provider_tin.Prelude.{String, Bool, Option, List}
use cluster_api_provider_tin.Objects.Meta.{ObjectMeta, Int32, LabelSelector, Condition}

pub record ObjectRef : Type 0 where
  pub name : String
  pub namespace : String

pub record HardwareAffinityTerm : Type 0 where
  pub label_selector : LabelSelector

pub record WeightedHardwareAffinityTerm : Type 0 where
  pub weight : Int32
  pub hardware_affinity_term : HardwareAffinityTerm

pub record HardwareAffinity : Type 0 where
  pub required : List HardwareAffinityTerm
  pub preferred : List WeightedHardwareAffinityTerm

pub data BootMode : Type 0 where
  mode_none mode_netboot mode_iso mode_isoboot mode_customboot : BootMode

pub record BootOptions : Type 0 where
  pub iso_url : String
  pub boot_mode : BootMode
  pub customboot_config : List String

pub record IpPoolReference : Type 0 where
  pub name : String
  pub kind : String
  pub api_group : String

pub record TinkerbellMachineConfig : Type 0 where
  pub template_inline : String
  pub template_ref : Option ObjectRef
  pub hardware_affinity : Option HardwareAffinity
  pub boot_options : BootOptions
  pub address_from_pool : Option IpPoolReference

pub record TinkerbellMachineSpec : Type 0 where
  pub config : TinkerbellMachineConfig
  pub open config use *
  pub hardware_name : String
  pub provider_id : String

pub data ResourceStatus : Type 0 where
  status_pending status_running status_failed status_timeout status_success : ResourceStatus

pub record InitializationStatus : Type 0 where
  pub provisioned : Option Bool

pub record NodeAddress : Type 0 where
  pub kind : String
  pub address : String

pub record TinkerbellMachineStatus : Type 0 where
  pub ready : Bool
  pub initialization : Option InitializationStatus
  pub addresses : List NodeAddress
  pub state : Option ResourceStatus
  pub target_namespace : String
  pub conditions : List Condition
  pub error_reason : Option String
  pub error_message : Option String

pub record TinkerbellMachine : Type 0 where
  pub meta : ObjectMeta
  pub spec : TinkerbellMachineSpec
  pub status : TinkerbellMachineStatus

pub record ApiEndpoint : Type 0 where
  pub host : String
  pub port : Int32

pub record TinkerbellClusterSpec : Type 0 where
  pub control_plane_endpoint : Option ApiEndpoint
  pub template_inline : String
  pub template_ref : Option ObjectRef

pub record TinkerbellClusterStatus : Type 0 where
  pub ready : Bool
  pub initialization : Option InitializationStatus
  pub conditions : List Condition

pub record TinkerbellCluster : Type 0 where
  pub meta : ObjectMeta
  pub spec : TinkerbellClusterSpec
  pub status : TinkerbellClusterStatus

-- The Cluster API Machine.
pub record Machine : Type 0 where
  pub meta : ObjectMeta
  pub cluster_name : String
  pub data_secret_name : Option String
  pub version : String
  pub conditions : List Condition
