-- ===== src/Machine/Workflow/Gone.antt =====
-- That removeWorkflow (controller/machine/workflow.go) succeeds only when the Workflow is gone.
use cluster_api_provider_tin.Prelude.{
  ◌≡◌, refl, inl, inr, Bool, true, false, List, ◌∷◌, arith, if◌then◌else◌,
}
use cluster_api_provider_tin.Objects.{TinkerbellMachine, Workflow}
use cluster_api_provider_tin.Kube.{
  Env, Error, Result, ok, err, is_not_found, Call, ScopeState, Scope, pure, raise, gets, ask,
  attempt, ◌>>=◌,
}
use cluster_api_provider_tin.Kube.Ensures.{Tolerated, err-ne-ok}
use cluster_api_provider_tin.Machine.Bmc.{machine_key}
use cluster_api_provider_tin.Machine.Workflow.{remove_found, get_workflow, remove_workflow}

-- From the calls `calls` on, the machine's Workflow is looked for and is not there, or is deleted.
pub data WorkflowGone (e : Env) (m : TinkerbellMachine) (calls : List Call)
    : List Call → Type 0 where
  no_workflow :
      (x : Error)
      → e.get_workflow calls (machine_key m) ≡ err x
      → is_not_found x ≡ true
      → WorkflowGone e m calls (Call.get_workflow (machine_key m) ∷ calls)
  workflow_deleted :
      (wf : Workflow)
      → e.get_workflow calls (machine_key m) ≡ ok wf
      → Tolerated (e.delete_workflow (Call.get_workflow (machine_key m) ∷ calls) wf)
      → WorkflowGone e m calls (Call.delete_workflow wf ∷ Call.get_workflow (machine_key m) ∷ calls)

module _ (e : Env) (sc : Scope) (s : ScopeState) where
  abbrev asked : ScopeState
  asked = record s { trace = Call.get_workflow (machine_key s.machine) ∷ s.trace }

  missing_case :
      (x : Error) (b : Bool)
      → is_not_found x ≡ b
      → e.get_workflow s.trace (machine_key s.machine) ≡ err x
      → let r : Result (Unit {0}) × ScopeState = (if b then pure tt else raise x) asked in
        Tolerated r.0 → WorkflowGone e s.machine s.trace r.1.trace
  unfolding pure raise
  missing_case x true gone answered h = no_workflow x answered gone
  missing_case x false gone answered (inl h) = absurd (err-ne-ok x tt h)
  missing_case x false gone answered (inr (y, same, found)) =
      absurd (ground (arith, gone, same, found))

  workflow_case :
      (a : Result Workflow)
      → e.get_workflow s.trace (machine_key s.machine) ≡ a
      → Tolerated (remove_found e sc a asked).0
      → WorkflowGone e s.machine s.trace (remove_found e sc a asked).1.trace
  unfolding remove_found ask
  workflow_case (ok wf) answered h = workflow_deleted wf answered h
  workflow_case (err x) answered h = missing_case x (is_not_found x) refl answered h

  pub remove_workflow-WorkflowGone :
      Tolerated (remove_workflow e sc s).0
      → WorkflowGone e s.machine s.trace (remove_workflow e sc s).1.trace
  unfolding remove_workflow get_workflow gets attempt ask ◌>>=◌
  remove_workflow-WorkflowGone h =
      workflow_case (e.get_workflow s.trace (machine_key s.machine)) refl h
