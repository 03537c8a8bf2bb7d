-- ===== src/Machine/Bmc/Calls.antt =====
-- What the code of controller/machine/bmc.go sends.
use cluster_api_provider_tin.Prelude.{refl}
use cluster_api_provider_tin.Objects.{Hardware, Job}
use cluster_api_provider_tin.Kube.{Env, Result, ok, err, Call, Scope}
use cluster_api_provider_tin.Kube.Sends.{
  Allows, job_target, Sends, Sends-pure, Sends-raise, Sends-lift, Sends-gets, Sends-ask,
  Sends-attempt, Sends-if, Sends-bind,
}
use cluster_api_provider_tin.Machine.Bmc.{
  create_owned_job, create_power_off_job, power_off_found, ensure_bmc_job_completion_for_delete,
}

module _ {Q : Call → Type 0} (allow : Allows Q job_target) (e : Env) (sc : Scope) where
  pub create_owned_job-Sends : (job : Job) → Sends Q (create_owned_job e sc job)
  unfolding create_owned_job
  create_owned_job-Sends job =
      Sends-bind _ _ (Sends-gets _)
        λ m. Sends-bind _ _ (Sends-lift _) λ meta. Sends-ask _ _ (allow _ refl)

  power_off_found-Sends : (hw : Hardware) (r : Result Job) → Sends Q (power_off_found e sc hw r)
  unfolding power_off_found create_power_off_job
  power_off_found-Sends hw (ok job) =
      Sends-if _ _ _ (Sends-pure tt) (Sends-if _ _ _ (Sends-raise _) (Sends-raise _))
  power_off_found-Sends hw (err x) =
      Sends-if _ _ _
        (Sends-bind _ _ (Sends-gets _)
          λ m. Sends-bind _ _ (create_owned_job-Sends _) λ u. Sends-raise _)
        (Sends-raise x)

  pub power_off-Sends : (hw : Hardware) → Sends Q (ensure_bmc_job_completion_for_delete e sc hw)
  unfolding ensure_bmc_job_completion_for_delete
  power_off-Sends hw = Sends-bind _ _ (Sends-gets _) λ m.
      Sends-bind _ _ (Sends-attempt _ (Sends-ask _ _ (allow _ refl))) (power_off_found-Sends hw)
