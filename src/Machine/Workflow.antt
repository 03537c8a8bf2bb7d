-- ===== src/Machine/Workflow.antt =====
-- controller/machine/workflow.go: the Workflow of a machine, native or in v1alpha1 compatibility
-- mode. A reason keeps the text of the source up to the error that it quotes.
pub mod Calls
pub mod Gone
pub mod Reasons
pub mod Creation
pub mod Created
use cluster_api_provider_tin.Prelude.{
  String, Bool, true, false, ◌||◌, not, Option, none, some, List, [], ◌∷◌, ◌==◌, insert, delete,
  is_set, find?, dash_colons, if◌then◌else◌,
}
use cluster_api_provider_tin.Objects.{
  ObjectMeta, Hardware, TinkerbellMachine, BootOptions, BootMode, mode_none, mode_netboot, mode_iso,
  mode_isoboot, mode_customboot, Workflow, WorkflowTask, state_none, Task, Template,
}
use cluster_api_provider_tin.Kube.{
  Env, Error, Result, ok, err, is_not_found, iso_url_required, bad_iso_url, requeue_requested,
  V1Workflow, TemplateConversion, Call, Scope, Exec, pure, raise, lift, gets, ask, attempt,
  continue, ◌>>=◌, ◌>>◌,
}
use cluster_api_provider_tin.Machine.Interfaces.{annotation_v1alpha1, has_bmc, hardware_lookup_id}
use cluster_api_provider_tin.Machine.Bmc.{named, machine_key, resource_ownership}
use cluster_api_provider_tin.Machine.Template.{
  template_exists, template_data, template_object, create_template,
}
use cluster_api_provider_tin.Machine.Tasks.{remove_tasks, task_conflict, ensure_tasks}

abbrev pub annotation_compatibility_mode : String
annotation_compatibility_mode = "capt.tinkerbell.org/v1alpha1-compatibility"

abbrev no_boot_options : BootOptions
no_boot_options = record { iso_url = ""; boot_mode = mode_none; customboot_config = [] }

abbrev iso_options : BootMode → Option String → Result BootOptions
iso_options mode none = err bad_iso_url
iso_options mode (some url) =
    ok (record { iso_url = url; boot_mode = mode; customboot_config = [] })

module _ (e : Env) where
  iso_boot : BootMode → String → Hardware → Result BootOptions
  unfolding dash_colons hardware_lookup_id
  iso_boot mode url hw =
      if url == ""
      then err iso_url_required
      else iso_options mode (e.iso_url_with_id url (dash_colons 5 (hardware_lookup_id hw)))

  -- The switch on the boot mode.
  boot_options_for : BootMode → BootOptions → Hardware → Result BootOptions
  unfolding iso_boot
  boot_options_for mode_none o hw = ok no_boot_options
  boot_options_for mode_netboot o hw =
      ok (record { iso_url = ""; boot_mode = mode_netboot; customboot_config = [] })
  boot_options_for mode_iso o hw = iso_boot mode_iso o.iso_url hw
  boot_options_for mode_isoboot o hw = iso_boot mode_isoboot o.iso_url hw
  boot_options_for mode_customboot o hw = ok (record {
    iso_url = "";
    boot_mode = mode_customboot;
    customboot_config = o.customboot_config;
  })

  unfoldable pub workflow_boot_options : TinkerbellMachine → Hardware → Result BootOptions
  unfolding boot_options_for has_bmc
  workflow_boot_options m hw =
      let o = m.spec.config.boot_options in
      if has_bmc e hw then boot_options_for o.boot_mode o hw else ok no_boot_options

-- templatedBootOptions
abbrev is_templated : Option (Option String) → Bool
is_templated none = false
is_templated (some none) = true
is_templated (some (some json)) = is_set (find? json "{{")

unfoldable pub templated_boot_options : List WorkflowTask → Bool
templated_boot_options [] = false
templated_boot_options (t ∷ ts) = is_templated t.boot_options || templated_boot_options ts

-- What nativeWorkflow returns: the rewritten Workflow and its Tasks, or the reason.
pub data Native : Type 0 where
  native : Workflow → List Task → Native
  compatibility : String → Native

module _ (e : Env) (sc : Scope) where
  unfoldable pub v1alpha1_workflow : TinkerbellMachine → Hardware → Result V1Workflow
  unfolding workflow_boot_options resource_ownership
  v1alpha1_workflow m hw =
      elim (resource_ownership e sc m (named m.status.target_namespace m.meta.name)) [
        | err x ↦ err x
        | ok meta ↦ elim (workflow_boot_options e m hw) [
          | err x ↦ err x
          | ok o ↦ ok (record {
            meta = meta;
            template_ref = m.meta.name;
            hardware_ref = hw.meta.name;
            hardware_map = ("device_1", hardware_lookup_id hw) ∷ [];
            toggle_allow_netboot = true;
            boot_options = o;
          })
        ]
      ]

  fresh : Workflow → Workflow
  fresh wf =
      let meta = wf.meta in
      record wf {
        meta = record meta { annotations = delete annotation_v1alpha1 meta.annotations };
        state = state_none;
      }

  unfoldable pub new_workflow : Hardware → Exec Workflow
  unfolding v1alpha1_workflow fresh
  new_workflow hw = do
    m ← gets (λ s. s.machine)
    v1 ← lift (v1alpha1_workflow m hw)
    wf ← lift (e.workflow_to_v2 v1)
    pure (fresh wf)

  pub own_tasks : TinkerbellMachine → List Task → Exec (List Task)
  unfolding resource_ownership
  own_tasks m [] = pure []
  own_tasks m (t ∷ ts) =
      let rest = own_tasks m ts in
      do
        meta ← lift (resource_ownership e sc m t.meta)
        owned ← rest
        pure (record t { meta = meta } ∷ owned)

  rewritten : TinkerbellMachine → TemplateConversion → Result Workflow → Exec Native
  unfolding own_tasks template_object task_conflict
  rewritten m conv (err x) = pure (compatibility "the Workflow cannot run the template's Tasks: ")
  rewritten m conv (ok wf) = do
    tasks ← own_tasks m (e.template_tasks (template_object e sc m "") conv)
    foreign ← task_conflict e m tasks
    pure (
        if foreign
        then compatibility "a Task already exists and does not belong to this machine"
        else native wf tasks)

  converted : TinkerbellMachine → Workflow → Result TemplateConversion → Exec Native
  unfolding rewritten templated_boot_options
  converted m wf (err x) = pure (compatibility "the template does not convert to v1alpha2 Tasks: ")
  converted m wf (ok conv) =
      if templated_boot_options wf.tasks
      then pure (compatibility "its boot options are templated, with v1alpha1 Hardware data")
      else rewritten m conv (e.rewrite_workflow wf (template_object e sc m "") conv)

  unfoldable pub native_workflow : Workflow → String → Exec Native
  unfolding converted
  native_workflow wf text = do m ← gets (λ s. s.machine); converted m wf (e.convert_template text)

  pub with_reason : Workflow → String → Workflow
  with_reason wf reason =
      let meta = wf.meta in
      record wf {
        meta = record meta {
          annotations = insert annotation_compatibility_mode reason meta.annotations;
        };
      }

  unfoldable pub create_compatibility_workflow : Workflow → String → String → Exec (Unit {0})
  unfolding with_reason
  create_compatibility_workflow wf text reason = do
    (if text == "" then pure tt else create_template e sc text)
    remove_tasks e []
    ask (Call.create_workflow (with_reason wf reason))
        (λ c. e.create_workflow c (with_reason wf reason))

  create_native : Workflow → String → Native → Exec (Unit {0})
  create_native wf text (compatibility reason) = create_compatibility_workflow wf text reason
  create_native wf text (native wf' tasks) = do
    ensure_tasks e tasks
    ask (Call.create_workflow wf') (λ c. e.create_workflow c wf')

  create_unless_template : Hardware → Workflow → Bool → Exec (Unit {0})
  unfolding create_native
  create_unless_template hw wf true =
      create_compatibility_workflow wf "" "the machine's Template already exists"
  create_unless_template hw wf false = do
    text ← template_data e sc hw
    n ← native_workflow wf text
    create_native wf text n

  unfoldable pub create_workflow : Hardware → Exec (Unit {0})
  unfolding create_unless_template
  create_workflow hw = do
    wf ← new_workflow hw
    exists ← template_exists e sc
    create_unless_template hw wf exists

  workflow_found : Hardware → Result Workflow → Exec Workflow
  workflow_found hw (ok wf) = pure wf
  workflow_found hw (err x) =
      if is_not_found x then (create_workflow hw >> raise requeue_requested) else raise x

  get_workflow : Exec Workflow
  get_workflow = do
    m ← gets (λ s. s.machine)
    ask (Call.get_workflow (machine_key m)) (λ t. e.get_workflow t (machine_key m))

  unfoldable pub ensure_workflow : Hardware → Exec Workflow
  unfolding get_workflow workflow_found
  ensure_workflow hw = do found ← attempt get_workflow; workflow_found hw found

  remove_found : Result Workflow → Exec (Unit {0})
  remove_found (err x) = if is_not_found x then pure tt else raise x
  remove_found (ok wf) = ask (Call.delete_workflow wf) (λ c. e.delete_workflow c wf)

  unfoldable pub remove_workflow : Exec (Unit {0})
  unfolding get_workflow remove_found
  remove_workflow = do found ← attempt get_workflow; remove_found found
