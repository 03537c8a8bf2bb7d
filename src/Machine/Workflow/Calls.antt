-- ===== src/Machine/Workflow/Calls.antt =====
-- What the code of controller/machine/workflow.go sends.
use cluster_api_provider_tin.Prelude.{String, Bool, true, false, List, [], ◌∷◌, refl}
use cluster_api_provider_tin.Objects.{Hardware, TinkerbellMachine, Workflow, Task}
use cluster_api_provider_tin.Kube.{Env, Result, ok, err, TemplateConversion, Call, Scope}
use cluster_api_provider_tin.Kube.Sends.{
  Allows, workflow_target, template_target, task_target, Sends, Sends-pure, Sends-raise, Sends-lift,
  Sends-gets, Sends-ask, Sends-attempt, Sends-if, Sends-bind,
}
use cluster_api_provider_tin.Machine.Template.Calls.{
  template_exists-Sends, template_data-Sends, create_template-Sends,
}
use cluster_api_provider_tin.Machine.Tasks.Calls.{
  remove_tasks-Sends, task_conflict-Sends, ensure_tasks-Sends,
}
use cluster_api_provider_tin.Machine.Workflow.{
  Native, native, compatibility, new_workflow, own_tasks, rewritten, converted, native_workflow,
  create_compatibility_workflow, create_native, create_unless_template, create_workflow,
  workflow_found, get_workflow, ensure_workflow, remove_found, remove_workflow,
}

module _ {Q : Call → Type 0} (allow : Allows Q workflow_target) (e : Env) (sc : Scope) where
  get-Sends : Sends Q (get_workflow e sc)
  unfolding get_workflow
  get-Sends = Sends-bind _ _ (Sends-gets _) λ m. Sends-ask _ _ (allow _ refl)

  remove_found-Sends : (r : Result Workflow) → Sends Q (remove_found e sc r)
  unfolding remove_found
  remove_found-Sends (ok t) = Sends-ask _ _ (allow _ refl)
  remove_found-Sends (err x) = Sends-if _ _ _ (Sends-pure tt) (Sends-raise x)

  pub remove_workflow-Sends : Sends Q (remove_workflow e sc)
  unfolding remove_workflow
  remove_workflow-Sends = Sends-bind _ _ (Sends-attempt _ get-Sends) remove_found-Sends

-- What sends nothing.
module _ {Q : Call → Type 0} (e : Env) (sc : Scope) where
  pub new_workflow-Sends : (hw : Hardware) → Sends Q (new_workflow e sc hw)
  unfolding new_workflow
  new_workflow-Sends hw =
      Sends-bind _ _ (Sends-gets _)
        λ m. Sends-bind _ _ (Sends-lift _) λ v1. Sends-bind _ _ (Sends-lift _) λ wf. Sends-pure _

  own_tasks-Sends : (m : TinkerbellMachine) (ts : List Task) → Sends Q (own_tasks e sc m ts)
  unfolding own_tasks
  own_tasks-Sends m [] = Sends-pure []
  own_tasks-Sends m (t ∷ ts) =
      let rest = own_tasks-Sends m ts in
      Sends-bind _ _ (Sends-lift _) λ meta. Sends-bind _ _ rest λ owned. Sends-pure _

module _ {Q : Call → Type 0} (tasks : Allows Q task_target) (e : Env) (sc : Scope) where
  rewritten-Sends :
      (m : TinkerbellMachine) (conv : TemplateConversion) (r : Result Workflow)
      → Sends Q (rewritten e sc m conv r)
  unfolding rewritten
  rewritten-Sends m conv (err x) = Sends-pure _
  rewritten-Sends m conv (ok wf) =
      Sends-bind _ _ (own_tasks-Sends e sc m _)
        λ owned. Sends-bind _ _ (task_conflict-Sends tasks e m owned) λ foreign. Sends-pure _

  converted-Sends :
      (m : TinkerbellMachine) (wf : Workflow) (r : Result TemplateConversion)
      → Sends Q (converted e sc m wf r)
  unfolding converted
  converted-Sends m wf (err x) = Sends-pure _
  converted-Sends m wf (ok conv) = Sends-if _ _ _ (Sends-pure _) (rewritten-Sends m conv _)

  pub native_workflow-Sends :
      (wf : Workflow) (text : String) → Sends Q (native_workflow e sc wf text)
  unfolding native_workflow
  native_workflow-Sends wf text = Sends-bind _ _ (Sends-gets _) λ m. converted-Sends m wf _

module _ {Q : Call → Type 0} (workflows : Allows Q workflow_target)
    (templates : Allows Q template_target) (tasks : Allows Q task_target) (e : Env)
    (sc : Scope) where
  compatibility-Sends :
      (wf : Workflow) (text reason : String)
      → Sends Q (create_compatibility_workflow e sc wf text reason)
  unfolding create_compatibility_workflow
  compatibility-Sends wf text reason =
      Sends-bind _ _ (Sends-if _ _ _ (Sends-pure tt) (create_template-Sends templates e sc text))
        λ u. Sends-bind _ _ (remove_tasks-Sends tasks e []) λ v. Sends-ask _ _ (workflows _ refl)

  create_native-Sends :
      (wf : Workflow) (text : String) (n : Native) → Sends Q (create_native e sc wf text n)
  unfolding create_native
  create_native-Sends wf text (compatibility reason) = compatibility-Sends wf text reason
  create_native-Sends wf text (native wf' ts) =
      Sends-bind _ _ (ensure_tasks-Sends tasks e ts) λ u. Sends-ask _ _ (workflows _ refl)

  unless_template-Sends :
      (hw : Hardware) (wf : Workflow) (b : Bool) → Sends Q (create_unless_template e sc hw wf b)
  unfolding create_unless_template
  unless_template-Sends hw wf true = compatibility-Sends wf _ _
  unless_template-Sends hw wf false = Sends-bind _ _ (template_data-Sends templates e sc hw) λ text.
      Sends-bind _ _ (native_workflow-Sends tasks e sc wf text) (create_native-Sends wf text)

  create_workflow-Sends : (hw : Hardware) → Sends Q (create_workflow e sc hw)
  unfolding create_workflow
  create_workflow-Sends hw =
      Sends-bind _ _ (new_workflow-Sends e sc hw)
        λ wf. Sends-bind _ _ (template_exists-Sends templates e sc) (unless_template-Sends hw wf)

  workflow_found-Sends : (hw : Hardware) (r : Result Workflow) → Sends Q (workflow_found e sc hw r)
  unfolding workflow_found
  workflow_found-Sends hw (ok wf) = Sends-pure wf
  workflow_found-Sends hw (err x) =
      Sends-if _ _ _ (Sends-bind _ _ (create_workflow-Sends hw) λ u. Sends-raise _) (Sends-raise x)

  pub ensure_workflow-Sends : (hw : Hardware) → Sends Q (ensure_workflow e sc hw)
  unfolding ensure_workflow
  ensure_workflow-Sends hw =
      Sends-bind _ _ (Sends-attempt _ (get-Sends workflows e sc)) (workflow_found-Sends hw)
