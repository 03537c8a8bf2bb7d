-- ===== src/Kube/Environment.antt =====
-- The environment of the machine controller: code that the repository calls and does not hold.
-- A call to an API server is answered by a function of the calls made before it, so a theorem for
-- every `Env` holds whatever the servers and the other controllers do between two calls.
use cluster_api_provider_tin.Prelude.{String, Bool, true, false, Option, List, ◌≡◌, ◌≢◌}
use cluster_api_provider_tin.Objects.{
  NamespacedName, ObjectMeta, LabelSelector, Condition, Hardware, Workflow, Task, Template, Job,
  JobConditionType, BootOptions, TinkerbellMachine, Machine, IpAddressClaim, IpAddress,
}
use cluster_api_provider_tin.Kube.Errors.{Result}

-- Patches carry the object before and after the change, and whether they hold the optimistic lock.
pub data Call : Type 0 where
  get_hardware : NamespacedName → Call
  list_owned_hardware : String → String → Call
  list_hardware : LabelSelector → Call
  patch_hardware : Hardware → Hardware → Bool → Call
  get_claim : NamespacedName → Call
  create_claim : IpAddressClaim → Call
  patch_claim : IpAddressClaim → IpAddressClaim → Bool → Call
  delete_claim : IpAddressClaim → Call
  get_address : NamespacedName → Call
  get_workflow : NamespacedName → Call
  create_workflow : Workflow → Call
  delete_workflow : Workflow → Call
  get_template : NamespacedName → Call
  create_template : Template → Call
  delete_template : Template → Call
  list_tasks : String → String → String → Call
  get_task : NamespacedName → Call
  create_task : Task → Call
  update_task : Task → Call
  delete_task : Task → Call
  get_job : NamespacedName → Call
  create_job : Job → Call
  get_machine : NamespacedName → Call
  patch_machine : TinkerbellMachine → Call
  merge_patch_machine : TinkerbellMachine → TinkerbellMachine → Call
  ensure_watch : String → Call

-- The two address families of `netip.Addr.Unmap`.
pub data Family : Type 0 where
  ipv4_family ipv6_family : Family

-- The v1alpha1 Workflow that `v1alpha1Workflow` builds.
pub record V1Workflow : Type 0 where
  pub meta : ObjectMeta
  pub template_ref : String
  pub hardware_ref : String
  pub hardware_map : List (String × String)
  pub toggle_allow_netboot : Bool
  pub boot_options : BootOptions

-- What `conversion.ConvertTemplate` returns: opaque to the controller.
pub record TemplateConversion : Type 0 where
  pub task_specs : List String

pub record Env : Type 0 where
  -- controllerutil, metav1 and conditions
  pub contains_finalizer : List String → String → Bool
  pub add_finalizer : List String → String → List String
  pub remove_finalizer : List String → String → List String
  pub is_controlled_by : ObjectMeta → ObjectMeta → Bool
  pub set_controller_reference : ObjectMeta → ObjectMeta → Result ObjectMeta
  pub set_condition : List Condition → Condition → List Condition
  -- metav1.LabelSelectorAsSelector and Selector.Matches
  pub selector_valid : LabelSelector → Bool
  pub selector_matches : LabelSelector → List (String × String) → Bool
  -- netip.ParseAddr followed by Unmap and Is4
  pub parse_addr : String → Option Family
  -- url.Parse and path.Join of an ISO URL with the machine's identifier, or none if unparseable
  pub iso_url_with_id : String → String → Option String
  -- Tinkerbell's api/conversion
  pub v1_interface_macs : Hardware → Option (List (Option String))
  pub v1_bmc_ref : Hardware → Option String
  -- HasConditionStatus of a bmc Job, for the status true
  pub has_true_condition : Job → JobConditionType → Bool
  pub workflow_to_v2 : V1Workflow → Result Workflow
  pub convert_template : String → Result TemplateConversion
  pub rewrite_workflow : Workflow → Template → TemplateConversion → Result Workflow
  pub template_tasks : Template → TemplateConversion → List Task
  -- the text of the time now
  pub now_text : String
  -- answers of the servers
  pub get_hardware : List Call → NamespacedName → Result Hardware
  pub list_owned_hardware : List Call → String → String → Result (List Hardware)
  pub list_hardware : List Call → LabelSelector → Result (List Hardware)
  pub patch_hardware : List Call → Hardware → Hardware → Bool → Result Hardware
  pub get_claim : List Call → NamespacedName → Result IpAddressClaim
  pub create_claim : List Call → IpAddressClaim → Result IpAddressClaim
  pub patch_claim : List Call → IpAddressClaim → IpAddressClaim → Bool → Result IpAddressClaim
  pub delete_claim : List Call → IpAddressClaim → Result (Unit {0})
  pub get_address : List Call → NamespacedName → Result IpAddress
  pub get_workflow : List Call → NamespacedName → Result Workflow
  pub create_workflow : List Call → Workflow → Result (Unit {0})
  pub delete_workflow : List Call → Workflow → Result (Unit {0})
  pub get_template : List Call → NamespacedName → Result Template
  pub create_template : List Call → Template → Result (Unit {0})
  pub delete_template : List Call → Template → Result (Unit {0})
  pub list_tasks : List Call → String → String → String → Result (List Task)
  pub get_task : List Call → NamespacedName → Result Task
  pub create_task : List Call → Task → Result (Unit {0})
  pub update_task : List Call → Task → Result (Unit {0})
  pub delete_task : List Call → Task → Result (Unit {0})
  pub get_job : List Call → NamespacedName → Result Job
  pub create_job : List Call → Job → Result (Unit {0})
  pub get_machine : List Call → NamespacedName → Result Machine
  pub patch_machine : List Call → TinkerbellMachine → Result (Unit {0})
  pub merge_patch_machine : List Call → TinkerbellMachine → TinkerbellMachine → Result (Unit {0})
  pub ensure_watch : List Call → String → Result (Unit {0})

-- The documented behaviour of controllerutil's finalizer helpers.
pub record FinalizerLaws (e : Env) : Type 0 where
  pub contains-add_self :
      (fs : List String) (f : String) → e.contains_finalizer (e.add_finalizer fs f) f ≡ true
  pub contains-add_ne :
      (fs : List String) (f g : String)
      → f ≢ g
      → e.contains_finalizer (e.add_finalizer fs f) g ≡ e.contains_finalizer fs g
  pub contains-remove_self :
      (fs : List String) (f : String) → e.contains_finalizer (e.remove_finalizer fs f) f ≡ false
  pub contains-remove_ne :
      (fs : List String) (f g : String)
      → f ≢ g
      → e.contains_finalizer (e.remove_finalizer fs f) g ≡ e.contains_finalizer fs g
