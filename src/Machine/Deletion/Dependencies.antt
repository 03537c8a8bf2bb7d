-- ===== src/Machine/Deletion/Dependencies.antt =====
-- That removeDependencies (controller/machine/scope.go) succeeds only when what runs on the
-- Hardware is gone.
use cluster_api_provider_tin.Prelude.{
  ◌≡◌, refl, sym, ◌∙◌, ap, subst, inl, inr, Bool, true, false, List, [], if◌then◌else◌,
}
use cluster_api_provider_tin.Objects.{TinkerbellMachine}
use cluster_api_provider_tin.Kube.{
  Env, Error, Result, ok, err, is_not_found, Call, ScopeState, Scope, Exec, pure, raise, attempt,
  continue, ◌>>=◌,
}
use cluster_api_provider_tin.Kube.Ensures.{Tolerated, err-ne-ok}
use cluster_api_provider_tin.Kube.Patched.{continue-ok}
use cluster_api_provider_tin.Machine.Template.{remove_template}
use cluster_api_provider_tin.Machine.Template.Calls.{remove_template-Sends}
use cluster_api_provider_tin.Machine.Template.Gone.{TemplateGone, remove_template-TemplateGone}
use cluster_api_provider_tin.Machine.Tasks.{remove_tasks}
use cluster_api_provider_tin.Machine.Tasks.Calls.{remove_tasks-Sends}
use cluster_api_provider_tin.Machine.Tasks.Gone.{TasksGone, remove_tasks-TasksGone}
use cluster_api_provider_tin.Machine.Workflow.{remove_workflow}
use cluster_api_provider_tin.Machine.Workflow.Gone.{WorkflowGone, remove_workflow-WorkflowGone}
use cluster_api_provider_tin.Machine.Deletion.{unless_missing, remove_dependencies}

-- The machine's Template, then all its Tasks, then its Workflow are gone.
pub record DependenciesGone (e : Env) (m : TinkerbellMachine) (calls calls' : List Call)
    : Type 0 where
  pub template_calls : List Call
  pub task_calls : List Call
  pub template : TemplateGone e m calls template_calls
  pub tasks : TasksGone e m template_calls task_calls
  pub workflow : WorkflowGone e m task_calls calls'

missing_case :
    (x : Error) (b : Bool) (s : ScopeState) (f : Unit {0} → Exec (Unit {0})) (u : Unit {0})
    → is_not_found x ≡ b
    → let r : Result (Unit {0}) × ScopeState = (if b then pure tt else raise x) s in
      (continue r.0 f r.1).0 ≡ ok u → Tolerated (err x) × (continue r.0 f r.1 ≡ f tt s)
unfolding pure raise
missing_case x true s f u gone h = (inr (x, refl, gone), refl)
missing_case x false s f u gone h = absurd (err-ne-ok x u h)

missing_end :
    (x : Error) (b : Bool) (s : ScopeState) (u : Unit {0})
    → is_not_found x ≡ b
    → let r : Result (Unit {0}) × ScopeState = (if b then pure tt else raise x) s in
      r.0 ≡ ok u → Tolerated (err x) × (r.1 ≡ s)
unfolding pure raise
missing_end x true s u gone h = (inr (x, refl, gone), refl)
missing_end x false s u gone h = absurd (err-ne-ok x u h)

-- How a run goes on from unless_missing.
unless_missing-Tolerated :
    (r : Result (Unit {0})) (s : ScopeState) (f : Unit {0} → Exec (Unit {0})) (u : Unit {0})
    → (continue (unless_missing r s).0 f (unless_missing r s).1).0 ≡ ok u
    → Tolerated r × (continue (unless_missing r s).0 f (unless_missing r s).1 ≡ f tt s)
unfolding pure
unless_missing-Tolerated (ok v) s f u h = (inl refl, refl)
unless_missing-Tolerated (err x) s f u h = missing_case x (is_not_found x) s f u refl h

unless_missing_end :
    (r : Result (Unit {0})) (s : ScopeState) (u : Unit {0})
    → (unless_missing r s).0 ≡ ok u
    → Tolerated r × ((unless_missing r s).1 ≡ s)
unfolding pure
unless_missing_end (ok v) s u h = (inl refl, refl)
unless_missing_end (err x) s u h = missing_end x (is_not_found x) s u refl h

module _ (e : Env) (sc : Scope) where
  -- The end: the Workflow.
  workflow_step : Exec (Unit {0})
  workflow_step = attempt (remove_workflow e sc) >>= unless_missing

  workflow_step-WorkflowGone :
      (s : ScopeState) (u : Unit {0})
      → (workflow_step s).0 ≡ ok u
      → WorkflowGone e s.machine s.trace (workflow_step s).1.trace
  unfolding workflow_step attempt ◌>>=◌
  workflow_step-WorkflowGone s u h =
      let w = remove_workflow e sc s in
      let (tolerated, rest) = unless_missing_end w.0 w.1 u h in
      subst (λ (t : ScopeState). WorkflowGone e s.machine s.trace t.trace) (sym rest)
        (remove_workflow-WorkflowGone e sc s tolerated)

  -- The Tasks, and then the Workflow.
  tasks_step : Exec (Unit {0})
  unfolding workflow_step
  tasks_step = remove_tasks e [] >>= λ v. workflow_step

  tasks_step-Gone :
      (s : ScopeState) (u : Unit {0})
      → (tasks_step s).0 ≡ ok u
      → (calls : List Call) × TasksGone e s.machine s.trace calls
        × WorkflowGone e s.machine calls (tasks_step s).1.trace
  unfolding tasks_step ◌>>=◌
  tasks_step-Gone s u h =
      let t = remove_tasks e [] s in
      let (v, done, rest) = continue-ok t.0 (λ v. workflow_step) t.1 u h in
      let (new, kept, all) = (remove_tasks-Sends {Q = λ c. Unit} (λ c p. tt) e []).at s in
      (
        t.1.trace,
        remove_tasks-TasksGone e s v done,
        subst (λ (m : TinkerbellMachine). WorkflowGone e m t.1.trace (tasks_step s).1.trace)
            (ap (λ (x : ScopeState). x.machine) kept)
            (subst
              (λ (x : Result (Unit {0}) × ScopeState).
                WorkflowGone e t.1.machine t.1.trace x.1.trace)
              (sym rest) (workflow_step-WorkflowGone t.1 u (ap (λ x. x.0) (sym rest) ∙ h))),
      )

  pub remove_dependencies-DependenciesGone :
      (s : ScopeState) (u : Unit {0})
      → (remove_dependencies e sc s).0 ≡ ok u
      → DependenciesGone e s.machine s.trace (remove_dependencies e sc s).1.trace
  unfolding remove_dependencies tasks_step workflow_step attempt ◌>>=◌
  remove_dependencies-DependenciesGone s u h =
      let t = remove_template e sc s in
      let (tolerated, rest) = unless_missing-Tolerated t.0 t.1 (λ v. tasks_step) u h in
      let (new, kept, all) = (remove_template-Sends {Q = λ c. Unit} (λ c p. tt) e sc).at s in
      let (calls, tasks, workflow) = tasks_step-Gone t.1 u (ap (λ x. x.0) (sym rest) ∙ h) in
      subst (λ (x : Result (Unit {0}) × ScopeState). DependenciesGone e s.machine s.trace x.1.trace)
        (sym rest)
        (record {
          template_calls = t.1.trace;
          task_calls = calls;
          template = remove_template-TemplateGone e sc s tolerated;
          tasks =
              subst (λ (m : TinkerbellMachine). TasksGone e m t.1.trace calls)
                (ap (λ (x : ScopeState). x.machine) kept) tasks;
          workflow =
              subst (λ (m : TinkerbellMachine). WorkflowGone e m calls (tasks_step t.1).1.trace)
                (ap (λ (x : ScopeState). x.machine) kept) workflow;
        })
