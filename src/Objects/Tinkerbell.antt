-- ===== src/Objects/Tinkerbell.antt =====
-- Tinkerbell's objects: Hardware, Workflow, Task, Template and the bmc Job. A field `other` holds
-- what the provider neither reads nor writes, name by name; it is empty where all of it is zero.
use cluster_api_provider_tin.Prelude.{String, Bool, Option, List}
use cluster_api_provider_tin.Objects.Meta.{ObjectMeta, NamespacedName}

pub record Ip : Type 0 where
  pub address : String
  pub prefix : String
  pub gateway : String
  pub other : List (String × String)

pub record Ipam : Type 0 where
  pub ipv4 : Option Ip
  pub ipv6 : Option Ip

pub record NetworkInterface : Type 0 where
  pub ipam : Option Ipam
  pub other : List (String × String)

pub record Instance : Type 0 where
  pub lookup_id : String
  pub userdata : Option String
  pub other : List (String × String)

-- `spec.bmc`: whether it has a connection.
pub record BmcSpec : Type 0 where
  pub connection : Option String

pub record Hardware : Type 0 where
  pub meta : ObjectMeta
  pub agent_id : String
  pub network_interfaces : List (String × NetworkInterface)
  pub instance_spec : Option Instance
  pub bmc : Option BmcSpec
  pub storage_devices : List String

-- `state_none` is the empty string: the Workflow has not started.
pub data WorkflowState : Type 0 where
  state_none state_failed state_timeout state_preparing state_pending : WorkflowState
  state_running state_post state_success : WorkflowState

-- A task's `hardware.bootOptions`, as the JSON text that they marshal to, or `none` inside where
-- they do not marshal.
pub record WorkflowTask : Type 0 where
  pub boot_options : Option (Option String)

pub record Workflow : Type 0 where
  pub meta : ObjectMeta
  pub tasks : List WorkflowTask
  pub state : WorkflowState

pub record Task : Type 0 where
  pub meta : ObjectMeta
  pub spec : String

pub record Template : Type 0 where
  pub meta : ObjectMeta
  pub template_text : Option String

pub data PowerAction : Type 0 where
  hard_off power_on : PowerAction

pub data JobConditionType : Type 0 where
  completed failed : JobConditionType

pub record Job : Type 0 where
  pub meta : ObjectMeta
  pub hardware_ref : NamespacedName
  pub operations : List PowerAction
  pub conditions : List (JobConditionType × Bool)
