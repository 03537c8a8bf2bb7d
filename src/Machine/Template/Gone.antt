-- ===== src/Machine/Template/Gone.antt =====
-- That removeTemplate (controller/machine/template.go) succeeds only when the Template is gone.
use cluster_api_provider_tin.Prelude.{
  ◌≡◌, refl, inl, inr, Bool, true, false, ◌||◌, List, ◌∷◌, arith, if◌then◌else◌,
}
use cluster_api_provider_tin.Objects.{TinkerbellMachine, Template}
use cluster_api_provider_tin.Kube.{
  Env, Error, Result, ok, err, is_not_found, is_no_match, Call, ScopeState, Scope, pure, raise,
  gets, ask, attempt, ◌>>=◌,
}
use cluster_api_provider_tin.Kube.Ensures.{Tolerated, err-ne-ok}
use cluster_api_provider_tin.Machine.Bmc.{machine_key}
use cluster_api_provider_tin.Machine.Template.{remove_found, remove_template}

-- From the calls `calls` on, the machine's Template is looked for and is not there, or is deleted.
pub data TemplateGone (e : Env) (m : TinkerbellMachine) (calls : List Call)
    : List Call → Type 0 where
  no_template :
      (x : Error)
      → e.get_template calls (machine_key m) ≡ err x
      → (is_not_found x || is_no_match x) ≡ true
      → TemplateGone e m calls (Call.get_template (machine_key m) ∷ calls)
  template_deleted :
      (t : Template)
      → e.get_template calls (machine_key m) ≡ ok t
      → Tolerated (e.delete_template (Call.get_template (machine_key m) ∷ calls) t)
      → TemplateGone e m calls (Call.delete_template t ∷ Call.get_template (machine_key m) ∷ calls)

module _ (e : Env) (sc : Scope) (s : ScopeState) where
  abbrev asked : ScopeState
  asked = record s { trace = Call.get_template (machine_key s.machine) ∷ s.trace }

  missing_case :
      (x : Error) (b : Bool)
      → (is_not_found x || is_no_match x) ≡ b
      → e.get_template s.trace (machine_key s.machine) ≡ err x
      → let r : Result (Unit {0}) × ScopeState = (if b then pure tt else raise x) asked in
        Tolerated r.0 → TemplateGone e s.machine s.trace r.1.trace
  unfolding pure raise
  missing_case x true gone answered h = no_template x answered gone
  missing_case x false gone answered (inl h) = absurd (err-ne-ok x tt h)
  missing_case x false gone answered (inr (y, same, found)) =
      absurd (ground (arith, gone, same, found))

  template_case :
      (a : Result Template)
      → e.get_template s.trace (machine_key s.machine) ≡ a
      → Tolerated (remove_found e sc a asked).0
      → TemplateGone e s.machine s.trace (remove_found e sc a asked).1.trace
  unfolding remove_found ask
  template_case (ok t) answered h = template_deleted t answered h
  template_case (err x) answered h =
      missing_case x (is_not_found x || is_no_match x) refl answered h

  pub remove_template-TemplateGone :
      Tolerated (remove_template e sc s).0
      → TemplateGone e s.machine s.trace (remove_template e sc s).1.trace
  unfolding remove_template gets attempt ask ◌>>=◌
  remove_template-TemplateGone h =
      template_case (e.get_template s.trace (machine_key s.machine)) refl h
