-- ===== src/Machine/Workflow/Created.antt =====
-- That createWorkflow (controller/machine/workflow.go) goes in one of those ways.
use cluster_api_provider_tin.Prelude.{
  String, ◌≡◌, refl, ap, subst, Bool, true, false, List, [], ◌∷◌, ◌++◌, All, All-append, ◌==◌,
  if◌then◌else◌,
}
use cluster_api_provider_tin.Objects.{Hardware, Workflow, Task}
use cluster_api_provider_tin.Kube.{
  Env, Result, ok, err, Call, ScopeState, Scope, Exec, pure, ask, continue, ◌>>=◌,
}
use cluster_api_provider_tin.Kube.Sends.{
  template_target, task_target, Sends, Sends-pure, Sends-if, after, after-after,
}
use cluster_api_provider_tin.Machine.Template.{template_exists, template_data, create_template}
use cluster_api_provider_tin.Machine.Template.Calls.{
  template_exists-Sends, template_data-Sends, create_template-Sends,
}
use cluster_api_provider_tin.Machine.Tasks.{remove_tasks, ensure_tasks}
use cluster_api_provider_tin.Machine.Tasks.Calls.{remove_tasks-Sends, ensure_tasks-Sends}
use cluster_api_provider_tin.Machine.Workflow.{
  Native, native, compatibility, new_workflow, native_workflow, with_reason,
  create_compatibility_workflow, create_native, create_unless_template, create_workflow,
}
use cluster_api_provider_tin.Machine.Workflow.Calls.{new_workflow-Sends, native_workflow-Sends}
use cluster_api_provider_tin.Machine.Workflow.Reasons.{
  IsNative, Explained, native_workflow-Explained,
}
use cluster_api_provider_tin.Machine.Workflow.Creation.{
  IsInput, input, made_in, looked_in, read_in, native_in, HasNoTemplate, Cause, template_found,
  not_native, Creation, not_asked, compatible, natively, Answered, template_exists-Answered,
}

-- The state after calls about Templates and Tasks.
record Since (first s : ScopeState) : Type 0 where
  new : List Call
  same : s ≡ after new first
  allowed : All IsInput new

since :
    {A : Type 0}
    → (m : Exec A) → (first s : ScopeState) → Sends IsInput m
    → Since first s
    → Since first (m s).1
since m first s h p =
    let (more, q, r) = h.at s in
    record {
      new = more ++ p.new;
      same = after-after p.new more first s (m s).1 p.same q;
      allowed = All-append IsInput more p.new r p.allowed;
    }

module _ (e : Env) (sc : Scope) (hw : Hardware) (first : ScopeState) where
  abbrev Creates : Result (Unit {0}) × ScopeState → Type 0
  Creates = Creation e sc hw first

  continue_stage :
      {A : Type 0}
      → (k : A → Exec (Unit {0})) → (r : Result A) → (s : ScopeState) → Since first s
      → ((a : A) → r ≡ ok a → Creates (k a s))
      → Creates (continue r k s)
  continue_stage k (ok a) s p h = h a refl
  continue_stage k (err x) s p h = not_asked x p.new (ap (λ t. (err x, t)) p.same) p.allowed

  stage :
      {A : Type 0}
      → (m : Exec A) → (k : A → Exec (Unit {0})) → (s : ScopeState) → Sends IsInput m
      → Since first s
      → ((a : A) → Since first (m s).1 → (m s).0 ≡ ok a → Creates (k a (m s).1))
      → Creates ((m >>= k) s)
  unfolding ◌>>=◌
  stage m k s sends p h =
      let q = since m first s sends p in continue_stage k (m s).0 (m s).1 q λ a done. h a q done

  -- The end: a Workflow is asked for.
  asked_compatible :
      (wf : Workflow) (reason : String) (s : ScopeState)
      → Since first s
      → (new_workflow e sc hw first).0 ≡ ok wf
      → Cause e sc hw first wf reason
      → Creates (
          ask
            (Call.create_workflow (with_reason e sc wf reason))
            (λ c. e.create_workflow c (with_reason e sc wf reason))
            s)
  unfolding ask
  asked_compatible wf reason s p made cause =
      let w = with_reason e sc wf reason in
      compatible wf reason p.new made cause p.allowed (
        ap
          (λ (t : ScopeState).
            (e.create_workflow t.trace w, record t { trace = Call.create_workflow w ∷ t.trace }))
          p.same)

  compatibility-Creation :
      (wf : Workflow) (text reason : String) (s : ScopeState)
      → Since first s
      → (new_workflow e sc hw first).0 ≡ ok wf
      → Cause e sc hw first wf reason
      → Creates (create_compatibility_workflow e sc wf text reason s)
  unfolding create_compatibility_workflow
  compatibility-Creation wf text reason s p made cause =
      stage (if text == "" then pure tt else create_template e sc text) _ s
        (Sends-if (text == "") _ _ (Sends-pure tt)
          (create_template-Sends (input template_target refl) e sc text))
        p
        λ u q done.
          stage (remove_tasks e []) _ _ (remove_tasks-Sends (input task_target refl) e []) q
            λ v q' done'. asked_compatible wf reason _ q' made cause

  natively-Creation :
      (wf wf' : Workflow) (text : String) (tasks : List Task)
      → Since first (native_in e sc hw first wf text)
      → (new_workflow e sc hw first).0 ≡ ok wf
      → HasNoTemplate e sc hw first
      → (template_data e sc hw (looked_in e sc hw first)).0 ≡ ok text
      → IsNative e sc first.machine wf text (read_in e sc hw first) wf' tasks
      → Creates (create_native e sc wf text (native wf' tasks) (native_in e sc hw first wf text))
  unfolding create_native ask
  natively-Creation wf wf' text tasks p made no_template data_found is_native =
      stage (ensure_tasks e tasks) _ (native_in e sc hw first wf text)
        (ensure_tasks-Sends (input task_target refl) e tasks) p
        λ u q done.
          natively wf wf' text tasks q.new made no_template data_found is_native done q.allowed (
            ap
              (λ (v : ScopeState). (
                e.create_workflow v.trace wf',
                record v { trace = Call.create_workflow wf' ∷ v.trace },
              ))
              q.same)

  Explained-Creation :
      (wf : Workflow) (text : String) (n : Native)
      → Since first (native_in e sc hw first wf text)
      → (new_workflow e sc hw first).0 ≡ ok wf
      → HasNoTemplate e sc hw first
      → (template_data e sc hw (looked_in e sc hw first)).0 ≡ ok text
      → Explained e sc first.machine wf text (read_in e sc hw first) n
      → Creates (create_native e sc wf text n (native_in e sc hw first wf text))
  unfolding create_native
  Explained-Creation wf text (compatibility reason) p made no_template data_found why =
      compatibility-Creation wf text reason _ p made (not_native text no_template data_found why)
  Explained-Creation wf text (native wf' tasks) p made no_template data_found why =
      natively-Creation wf wf' text tasks p made no_template data_found why

  unless_template-Creation :
      (wf : Workflow) (exists : Bool)
      → Since first (looked_in e sc hw first)
      → (new_workflow e sc hw first).0 ≡ ok wf
      → Answered e sc hw first exists
      → Creates (create_unless_template e sc hw wf exists (looked_in e sc hw first))
  unfolding create_unless_template
  unless_template-Creation wf true p made answered =
      compatibility-Creation wf "" _ _ p made (template_found answered refl)
  unless_template-Creation wf false p made answered =
      stage (template_data e sc hw) _ (looked_in e sc hw first)
        (template_data-Sends (input template_target refl) e sc hw) p
        λ text q data_found.
          stage (native_workflow e sc wf text) _ (read_in e sc hw first)
            (native_workflow-Sends (input task_target refl) e sc wf text) q
            λ n q' done. Explained-Creation wf text n q' made answered data_found (
              subst (λ (v : ScopeState). Explained e sc v.machine wf text (read_in e sc hw first) n)
                q.same (native_workflow-Explained e sc wf text (read_in e sc hw first) n done))

-- A call of createWorkflow asks for one Workflow at most, and by its last call. It is the native
-- one only if, in this run, the server has no Template of the machine, the template read converts
-- to Tasks, the boot options are not templated, the Workflow can run the Tasks, no other has taken
-- them and they have been made. It runs in compatibility mode only with a reason on it that is true
-- of this run, which is that one of these conditions but the last does not hold.
pub create_workflow-Creation :
    (e : Env) (sc : Scope) (hw : Hardware) (s : ScopeState)
    → Creation e sc hw s (create_workflow e sc hw s)
unfolding create_workflow
create_workflow-Creation e sc hw s =
    stage e sc hw s (new_workflow e sc hw) _ s (new_workflow-Sends e sc hw)
      (record { new = []; same = refl; allowed = tt })
      λ wf q made.
        stage e sc hw s (template_exists e sc) _ (made_in e sc hw s)
          (template_exists-Sends (input template_target refl) e sc) q
          λ exists q' answered.
            unless_template-Creation e sc hw s wf exists q' made
              (template_exists-Answered e sc hw s exists answered)
