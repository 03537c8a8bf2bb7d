-- ===== src/Machine/Workflow/Creation.antt =====
-- How createWorkflow (controller/machine/workflow.go) can go: the Workflow that it asks for and why.
use cluster_api_provider_tin.Prelude.{
  String, ◌≡◌, refl, ◌∙◌, ap, Bool, true, false, List, ◌∷◌, ◌++◌, All, ◌||◌, arith,
}
use cluster_api_provider_tin.Objects.{Hardware, Workflow, Task, Template}
use cluster_api_provider_tin.Kube.{
  Env, Error, Result, ok, err, is_not_found, is_no_match, Call, ScopeState, Scope, gets, ask, ◌>>=◌,
}
use cluster_api_provider_tin.Kube.Sends.{
  Target, Allows, target, template_target, task_target, after,
}
use cluster_api_provider_tin.Machine.Template.{exists_answer, template_exists, template_data}
use cluster_api_provider_tin.Machine.Bmc.{machine_key}
use cluster_api_provider_tin.Machine.Tasks.{ensure_tasks}
use cluster_api_provider_tin.Machine.Workflow.{new_workflow, native_workflow, with_reason}
use cluster_api_provider_tin.Machine.Workflow.Reasons.{Reason, IsNative}

-- A call about a Template or a Task.
abbrev is_input : Target → Bool
is_input template_target = true
is_input task_target = true
is_input _ = false

abbrev pub IsInput : Call → Type 0
IsInput c = is_input (target c) ≡ true

pub input : (t : Target) → is_input t ≡ true → Allows IsInput t
input t h c p = ap is_input p ∙ h

module _ (e : Env) (sc : Scope) (hw : Hardware) (s : ScopeState) where
  -- The states of a run from `s`: the Workflow is made, the Template looked for, the template read,
  -- and the native Workflow made.
  abbrev pub made_in : ScopeState
  made_in = (new_workflow e sc hw s).1

  abbrev pub looked_in : ScopeState
  looked_in = (template_exists e sc made_in).1

  abbrev pub read_in : ScopeState
  read_in = (template_data e sc hw looked_in).1

  abbrev pub native_in : Workflow → String → ScopeState
  native_in wf text = (native_workflow e sc wf text read_in).1

  -- The answer of the server to the question for the machine's Template: there is one, or there is
  -- none, or the server has no Templates.
  abbrev pub HasTemplate : Type 0
  HasTemplate = (t : Template) × (e.get_template made_in.trace (machine_key made_in.machine) ≡ ok t)

  abbrev pub HasNoTemplate : Type 0
  HasNoTemplate =
      (x : Error) × (e.get_template made_in.trace (machine_key made_in.machine) ≡ err x)
      × ((is_not_found x || is_no_match x) ≡ true)

  -- Why the Workflow is created in compatibility mode.
  pub data Cause (wf : Workflow) (reason : String) : Type 0 where
    template_found :
        HasTemplate → reason ≡ "the machine's Template already exists" → Cause wf reason
    not_native :
        (text : String)
        → HasNoTemplate
        → (template_data e sc hw looked_in).0 ≡ ok text
        → Reason e sc s.machine wf text read_in reason
        → Cause wf reason

  -- What createWorkflow does from the state `s`, with the result `r`: at most one Workflow is asked
  -- for, by the last call, and its result is the server's answer.
  pub data Creation (r : Result (Unit {0}) × ScopeState) : Type 0 where
    not_asked :
        (x : Error) (new : List Call) → r ≡ (err x, after new s) → All IsInput new → Creation r
    compatible :
        (wf : Workflow) (reason : String) (new : List Call)
        → (new_workflow e sc hw s).0 ≡ ok wf
        → Cause wf reason
        → All IsInput new
        → r ≡ (
          e.create_workflow (new ++ s.trace) (with_reason e sc wf reason),
          after (Call.create_workflow (with_reason e sc wf reason) ∷ new) s,
        )
        → Creation r
    natively :
        (wf wf' : Workflow) (text : String) (tasks : List Task) (new : List Call)
        → (new_workflow e sc hw s).0 ≡ ok wf
        → HasNoTemplate
        → (template_data e sc hw looked_in).0 ≡ ok text
        → IsNative e sc s.machine wf text read_in wf' tasks
        → (ensure_tasks e tasks (native_in wf text)).0 ≡ ok tt
        → All IsInput new
        → r ≡ (e.create_workflow (new ++ s.trace) wf', after (Call.create_workflow wf' ∷ new) s)
        → Creation r

  -- What the answer on the Template says.
  abbrev pub Answered : Bool → Type 0
  Answered true = HasTemplate
  Answered false = HasNoTemplate

  template-Answered :
      (a : Result Template) (b : Bool)
      → e.get_template made_in.trace (machine_key made_in.machine) ≡ a
      → exists_answer a ≡ ok b
      → Answered b
  template-Answered (ok t) true answered h = (t, answered)
  template-Answered (ok t) false answered h = ground (arith, h)
  template-Answered (err x) true answered h = ground (arith, h)
  template-Answered (err x) false answered h = (x, answered, ground (arith, h))

  pub template_exists-Answered : (b : Bool) → (template_exists e sc made_in).0 ≡ ok b → Answered b
  unfolding template_exists gets ask ◌>>=◌
  template_exists-Answered b h = template-Answered _ b refl h
