-- ===== src/Machine/Deletion/PowerOff.antt =====
-- The power off before a release (DeleteMachineWithDependencies of controller/machine/scope.go,
-- ensureBMCJobCompletionForDelete of controller/machine/bmc.go).
use cluster_api_provider_tin.Prelude.{◌≡◌, refl, inl, inr, true, arith, Bool-cases}
use cluster_api_provider_tin.Objects.{Hardware, Job, completed}
use cluster_api_provider_tin.Kube.{
  Env, Result, ok, err, is_not_found, ScopeState, Scope, Exec, raise, gets, ask, attempt, continue,
  ◌>>=◌,
}
use cluster_api_provider_tin.Machine.Interfaces.{has_bmc}
use cluster_api_provider_tin.Machine.Bmc.{
  poweroff_key, create_power_off_job, power_off_found, ensure_bmc_job_completion_for_delete,
}
use cluster_api_provider_tin.Machine.Deletion.{remove_dependencies, power_off, delete_with_hardware}

module _ {A B : Type 0} where
  continue_ok :
      (f : A → Exec B) (r : Result A) (s : ScopeState) (b : B)
      → (continue r f s).0 ≡ ok b
      → (a : A) × (r ≡ ok a) × ((f a s).0 ≡ ok b)
  continue_ok f (ok a) s b h = (a, refl, h)
  continue_ok f (err x) s b h = ground (arith, h)

  -- What succeeds has succeeded in both parts.
  bind_ok :
      (m : Exec A) (f : A → Exec B) (s : ScopeState) (b : B)
      → ((m >>= f) s).0 ≡ ok b
      → (a : A) × ((m s).0 ≡ ok a) × ((f a (m s).1).0 ≡ ok b)
  unfolding ◌>>=◌
  bind_ok m f s b h = continue_ok f (m s).0 (m s).1 b h

module _ (e : Env) (sc : Scope) (hw : Hardware) where
  creation_fails : (s : ScopeState) → (create_power_off_job e sc hw s).0 ≡ ok tt → ⊥
  unfolding create_power_off_job raise
  creation_fails s h =
      let (m, _, rest) = bind_ok _ _ s tt h in
      let (u, _, last) = bind_ok _ _ _ tt rest in ground (arith, last)

  found_completed :
      (r : Result Job) (s : ScopeState)
      → (power_off_found e sc hw r s).0 ≡ ok tt
      → (job : Job) × (r ≡ ok job) × (e.has_true_condition job completed ≡ true)
  unfolding power_off_found raise
  found_completed (ok job) s h = (job, refl, ground (arith, h))
  found_completed (err x) s h = elim (Bool-cases (is_not_found x)) [
    | inl missing ↦ absurd (creation_fails s (rw missing at h))
    | inr other ↦ ground (arith, h)
  ]

  power_off_completed :
      (s : ScopeState)
      → has_bmc e hw ≡ true
      → (power_off e sc hw s).0 ≡ ok tt
      → (job : Job) × (e.get_job s.trace (poweroff_key s.machine) ≡ ok job)
        × (e.has_true_condition job completed ≡ true)
  unfolding power_off ensure_bmc_job_completion_for_delete gets ask attempt ◌>>=◌
  power_off_completed s bmc h =
      found_completed (e.get_job s.trace (poweroff_key s.machine)) _ (rw bmc at h)

  -- A deletion of a machine whose Hardware has a BMC succeeds only if, after the removal of what
  -- depends on the machine, the server has answered with the Job that powers the Hardware off, and
  -- that Job is completed.
  pub delete_with_hardware_powers_off :
      (s : ScopeState)
      → has_bmc e hw ≡ true
      → (delete_with_hardware e sc (ok hw) s).0 ≡ ok tt
      → let s' = (remove_dependencies e sc s).1 in
        (job : Job) × (e.get_job s'.trace (poweroff_key s'.machine) ≡ ok job)
        × (e.has_true_condition job completed ≡ true)
  unfolding delete_with_hardware
  delete_with_hardware_powers_off s bmc h =
      let (u, _, rest) = bind_ok (remove_dependencies e sc) _ s tt h in
      let (v, off, _) = bind_ok (power_off e sc hw) _ (remove_dependencies e sc s).1 tt rest in
      power_off_completed (remove_dependencies e sc s).1 bmc off
