-- ===== src/Machine/Recovery.antt =====
-- controller/machine/inplace_recovery.go: one BMC power cycle for an in-place update that has
-- stalled. Times are seconds; `now` is the time at which the reconcile looks at the clock.
pub mod Budget
use cluster_api_provider_tin.Prelude.{
  ℕ, ◌+◌, nat_eq, String, Bool, true, false, ◌&&◌, ◌||◌, not, Option, none, some, List, [], ◌∷◌,
  ◌==◌, lookup, insert, delete, leb, is_set, if◌then◌else◌,
}
use cluster_api_provider_tin.Objects.{
  NamespacedName, Condition, ConditionStatus, condition_true, condition_false, condition_unknown,
  OwnerReference, Hardware, Machine, TinkerbellMachine, hard_off, power_on,
}
use cluster_api_provider_tin.Kube.{
  Env, Error, Result, ok, err, is_not_found, is_already_exists, Call, ScopeState, Scope, Exec, pure,
  raise, lift, gets, ask, attempt, modify, continue, ◌>>=◌, ◌>>◌,
}
use cluster_api_provider_tin.Machine.Interfaces.{has_bmc}
use cluster_api_provider_tin.Machine.Bmc.{recovery_name, new_bmc_job, create_owned_job}

abbrev pub recovery_attempted_annotation : String
recovery_attempted_annotation = "infrastructure.cluster.x-k8s.io/in-place-recovery-attempted"

-- clusterv1.UpdateInProgressAnnotation and MachineUpToDateCondition
abbrev pub update_in_progress_annotation : String
update_in_progress_annotation = "in-place-updates.internal.cluster.x-k8s.io/update-in-progress"

abbrev pub machine_up_to_date : String
machine_up_to_date = "UpToDate"

-- DefaultInPlaceRecoveryTimeout, 20 minutes
abbrev pub recovery_timeout : ℕ
recovery_timeout = 1200

abbrev is_false : ConditionStatus → Bool
is_false condition_false = true
is_false _ = false

-- A time is 0 where the source's is zero.
unfoldable pub in_place_update_started_at : List Condition → ℕ
in_place_update_started_at [] = 0
in_place_update_started_at (c ∷ cs) =
    if (c.kind == machine_up_to_date) && is_false c.status
    then c.last_transition
    else in_place_update_started_at cs

-- Whether the update has been running for at least `timeout`.
unfoldable pub in_place_update_stalled : Machine → ℕ → ℕ → Bool
unfolding in_place_update_started_at
in_place_update_stalled m now timeout =
    let started = in_place_update_started_at m.conditions in
    if nat_eq started 0 then false else leb (started + timeout) now

unfoldable pub is_updating : Machine → Bool
is_updating m = is_set (lookup update_in_progress_annotation m.meta.annotations)

unfoldable pub is_attempted : TinkerbellMachine → Bool
is_attempted m = is_set (lookup recovery_attempted_annotation m.meta.annotations)

abbrev with_annotations : TinkerbellMachine → List (String × String) → TinkerbellMachine
with_annotations m annotations =
    let meta = m.meta in record m { meta = record meta { annotations = annotations } }

abbrev machine_ref : List OwnerReference → Option OwnerReference
machine_ref [] = none
machine_ref (r ∷ rs) = if r.kind == "Machine" then some r else machine_ref rs

module _ (e : Env) (sc : Scope) where
  owner_found : Result Machine → Exec (Option Machine)
  owner_found (ok m) = pure (some m)
  owner_found (err x) = if is_not_found x then pure none else raise x

  fetch_owner : TinkerbellMachine → Option OwnerReference → Exec (Option Machine)
  unfolding owner_found
  fetch_owner m none = pure none
  fetch_owner m (some r) = do
    let key : NamespacedName = record { namespace = m.meta.namespace; name = r.name }
    found ← attempt (ask (Call.get_machine key) (λ t. e.get_machine t key))
    owner_found found

  unfoldable pub get_owning_machine : Exec (Option Machine)
  unfolding fetch_owner
  get_owning_machine = do
    m ← gets (λ s. s.machine)
    fetch_owner m (machine_ref m.meta.owner_references)

  -- The annotation is changed in memory first, then sent.
  write_annotations : List (String × String) → Exec (Unit {0})
  write_annotations annotations = do
    m ← gets (λ s. s.machine)
    let m' = with_annotations m annotations
    modify (λ s. record s { machine = m' })
    ask (Call.merge_patch_machine m m') (λ t. e.merge_patch_machine t m m')

  unfoldable pub mark_recovery_attempted : Exec (Unit {0})
  unfolding write_annotations
  mark_recovery_attempted = do
    m ← gets (λ s. s.machine)
    write_annotations (insert recovery_attempted_annotation e.now_text m.meta.annotations)

  unfoldable pub clear_recovery_attempted : Exec (Unit {0})
  unfolding write_annotations
  clear_recovery_attempted = do
    m ← gets (λ s. s.machine)
    write_annotations (delete recovery_attempted_annotation m.meta.annotations)

  ignore_exists : Result (Unit {0}) → Exec (Unit {0})
  ignore_exists (ok u) = pure tt
  ignore_exists (err x) = if is_already_exists x then pure tt else raise x

  unfoldable pub create_power_cycle_job : Hardware → Exec (Unit {0})
  unfolding ignore_exists
  create_power_cycle_job hw = do
    m ← gets (λ s. s.machine)
    created ←
        attempt
          (create_owned_job e sc (new_bmc_job m (recovery_name m) hw (hard_off ∷ power_on ∷ [])))
    ignore_exists created

  -- The cases of reconcileInPlaceRecovery for an owning Machine that was found.
  unfoldable pub recover : Hardware → ℕ → ℕ → Machine → TinkerbellMachine → Exec (Unit {0})
  recover hw now timeout machine m =
      if not (is_updating machine)
      then (if is_attempted m then clear_recovery_attempted else pure tt)
      else if is_attempted m || not (in_place_update_stalled machine now timeout)
      then pure tt
      else if not (has_bmc e hw)
      then pure tt
      else (create_power_cycle_job hw >> mark_recovery_attempted)

  recover_owner : Hardware → ℕ → ℕ → Option Machine → Exec (Unit {0})
  unfolding recover
  recover_owner hw now timeout none = pure tt
  recover_owner hw now timeout (some machine) = do
    m ← gets (λ s. s.machine)
    recover hw now timeout machine m

  unfoldable pub reconcile_in_place_recovery : Hardware → ℕ → ℕ → Exec (Unit {0})
  unfolding get_owning_machine recover_owner
  reconcile_in_place_recovery hw now timeout = do
    owner ← get_owning_machine
    recover_owner hw now timeout owner
