-- ===== src/Machine/Workflow/Reasons.antt =====
-- Why a machine's Workflow runs in v1alpha1 compatibility mode (nativeWorkflow of
-- controller/machine/workflow.go).
use cluster_api_provider_tin.Prelude.{
  String, ◌≡◌, refl, sym, ap, ◌∙◌, Bool, true, false, List, if◌then◌else◌,
}
use cluster_api_provider_tin.Objects.{TinkerbellMachine, Workflow, Task}
use cluster_api_provider_tin.Kube.{
  Env, Error, Result, ok, err, TemplateConversion, ScopeState, Scope, Exec, gets, ◌>>=◌,
}
use cluster_api_provider_tin.Kube.Ensures.{
  Ensures, Ensures-pure, Ensures-if, Ensures-bind, Ensures-from,
}
use cluster_api_provider_tin.Machine.Template.{template_object}
use cluster_api_provider_tin.Machine.Tasks.{task_conflict}
use cluster_api_provider_tin.Machine.Workflow.{
  Native, native, compatibility, templated_boot_options, own_tasks, rewritten, converted,
  native_workflow,
}

-- The Tasks of the template for the machine, as they are in a run from the state `s`.
abbrev pub owned_in :
    Env
    → Scope
    → TinkerbellMachine
    → TemplateConversion
    → ScopeState
    → Result (List Task) × ScopeState
owned_in e sc m conv s = own_tasks e sc m (e.template_tasks (template_object e sc m "") conv) s

-- What is true of a reason that nativeWorkflow gives for the Workflow `wf` and the template
-- `text`, in a run from the state `s`.
pub data Reason (e : Env) (sc : Scope) (m : TinkerbellMachine) (wf : Workflow) (text : String)
    (s : ScopeState) (reason : String) : Type 0 where
  not_convertible :
      (x : Error)
      → e.convert_template text ≡ err x
      → reason ≡ "the template does not convert to v1alpha2 Tasks: "
      → Reason e sc m wf text s reason
  boot_options_templated :
      (conv : TemplateConversion)
      → e.convert_template text ≡ ok conv
      → templated_boot_options wf.tasks ≡ true
      → reason ≡ "its boot options are templated, with v1alpha1 Hardware data"
      → Reason e sc m wf text s reason
  not_rewritable :
      (conv : TemplateConversion) (x : Error)
      → e.convert_template text ≡ ok conv
      → templated_boot_options wf.tasks ≡ false
      → e.rewrite_workflow wf (template_object e sc m "") conv ≡ err x
      → reason ≡ "the Workflow cannot run the template's Tasks: "
      → Reason e sc m wf text s reason
  task_taken :
      (conv : TemplateConversion) (wf' : Workflow) (tasks : List Task)
      → e.convert_template text ≡ ok conv
      → templated_boot_options wf.tasks ≡ false
      → e.rewrite_workflow wf (template_object e sc m "") conv ≡ ok wf'
      → (owned_in e sc m conv s).0 ≡ ok tasks
      → (task_conflict e m tasks (owned_in e sc m conv s).1).0 ≡ ok true
      → reason ≡ "a Task already exists and does not belong to this machine"
      → Reason e sc m wf text s reason

-- What is true of a native Workflow and its Tasks.
pub record IsNative (e : Env) (sc : Scope) (m : TinkerbellMachine) (wf : Workflow) (text : String)
    (s : ScopeState) (wf' : Workflow) (tasks : List Task) : Type 0 where
  pub conversion : TemplateConversion
  pub converts : e.convert_template text ≡ ok conversion
  pub untemplated : templated_boot_options wf.tasks ≡ false
  pub rewrites : e.rewrite_workflow wf (template_object e sc m "") conversion ≡ ok wf'
  pub owned : (owned_in e sc m conversion s).0 ≡ ok tasks
  pub no_conflict : (task_conflict e m tasks (owned_in e sc m conversion s).1).0 ≡ ok false

module _ (e : Env) (sc : Scope) (m : TinkerbellMachine) (wf : Workflow) (text : String)
    (s : ScopeState) where
  abbrev pub Explained : Native → Type 0
  Explained (native wf' tasks) = IsNative e sc m wf text s wf' tasks
  Explained (compatibility reason) = Reason e sc m wf text s reason

  -- From the state `t` alone.
  abbrev From : ScopeState → ScopeState → Type 0
  From t u = u ≡ t

  -- The result of an action, and the state in which it leaves the one in which it ran.
  ran :
      {A X : Type 0}
      → (t : ScopeState) → (k : Exec A)
      → Ensures (λ u. X × From t u) k (λ a u. X × (((k t).0 ≡ ok a) × From (k t).1 u))
  ran t k = record {
    at = λ u p a h. (p.0, (ap (λ v. (k v).0) (sym p.1) ∙ h, ap (λ v. (k v).1) p.1));
  }

  module _ (conv : TemplateConversion) (c : e.convert_template text ≡ ok conv) where
    abbrev owned_after : ScopeState
    owned_after = (owned_in e sc m conv s).1

    decided :
        (wf' : Workflow) (tasks : List Task) (foreign : Bool)
        → templated_boot_options wf.tasks ≡ false
        → e.rewrite_workflow wf (template_object e sc m "") conv ≡ ok wf'
        → (owned_in e sc m conv s).0 ≡ ok tasks
        → (task_conflict e m tasks owned_after).0 ≡ ok foreign
        → Explained (
            if foreign
            then compatibility "a Task already exists and does not belong to this machine"
            else native wf' tasks)
    decided wf' tasks true b w owned found = task_taken conv wf' tasks c b w owned found refl
    decided wf' tasks false b w owned found = record {
      conversion = conv;
      converts = c;
      untemplated = b;
      rewrites = w;
      owned = owned;
      no_conflict = found;
    }

    rewritten-Explained :
        (r : Result Workflow)
        → templated_boot_options wf.tasks ≡ false
        → e.rewrite_workflow wf (template_object e sc m "") conv ≡ r
        → Ensures (λ u. Unit × From s u) (rewritten e sc m conv r) (λ n u. Explained n)
    unfolding rewritten
    rewritten-Explained (err x) b w = Ensures-pure _ λ u p. not_rewritable conv x c b w refl
    rewritten-Explained (ok wf') b w = Ensures-bind _ _ (ran s _) λ tasks.
        Ensures-bind _ _
          (Ensures-from
            (λ u (p : Unit × (((owned_in e sc m conv s).0 ≡ ok tasks) × From owned_after u)).
              (p.1.0, p.1.1))
            (ran {X = (owned_in e sc m conv s).0 ≡ ok tasks} owned_after _))
          λ foreign. Ensures-pure _ λ u p. decided wf' tasks foreign b w p.0 p.1.0

  converted-Explained :
      (r : Result TemplateConversion)
      → e.convert_template text ≡ r
      → Ensures (λ u. Unit × From s u) (converted e sc m wf r) (λ n u. Explained n)
  unfolding converted
  converted-Explained (err x) c = Ensures-pure _ λ u p. not_convertible x c refl
  converted-Explained (ok conv) c =
      Ensures-if (templated_boot_options wf.tasks) _ _
        (λ b. Ensures-pure _ λ u p. boot_options_templated conv c b refl)
        (λ b. rewritten-Explained conv c _ b refl)

pub native_workflow-Explained :
    (e : Env) (sc : Scope) (wf : Workflow) (text : String) (s : ScopeState) (n : Native)
    → (native_workflow e sc wf text s).0 ≡ ok n
    → Explained e sc s.machine wf text s n
unfolding native_workflow gets ◌>>=◌
native_workflow-Explained e sc wf text s n done =
    (converted-Explained e sc s.machine wf text s (e.convert_template text) refl).at s (tt, refl) n
      done
