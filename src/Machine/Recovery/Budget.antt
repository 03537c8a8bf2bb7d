-- ===== src/Machine/Recovery/Budget.antt =====
-- One power cycle for each in-place update.
use cluster_api_provider_tin.Prelude.{
  ℕ, ◌≡◌, refl, ◌⊎◌, inl, inr, true, false, List, [], ◌∷◌, arith, lookup, lookup-insert,
  lookup-delete, Bool-cases,
}
use cluster_api_provider_tin.Objects.{
  Hardware, Machine, TinkerbellMachine, Job, ObjectMeta, hard_off, power_on,
}
use cluster_api_provider_tin.Kube.{
  Env, ok, err, api, already_exists, Call, ScopeState, Scope, ◌>>◌, ◌>>=◌, pure, raise, lift, gets,
  ask, attempt, modify,
}
use cluster_api_provider_tin.Machine.Interfaces.{has_bmc}
use cluster_api_provider_tin.Machine.Bmc.{
  recovery_name, new_bmc_job, resource_ownership, create_owned_job,
}
use cluster_api_provider_tin.Machine.Recovery.{
  in_place_update_stalled, is_updating, is_attempted, mark_recovery_attempted,
  clear_recovery_attempted, create_power_cycle_job, recover,
}

mark-is_attempted :
    (e : Env) (sc : Scope) (s : ScopeState)
    → is_attempted (mark_recovery_attempted e sc s).1.machine ≡ true
unfolding mark_recovery_attempted is_attempted pure raise lift gets ask attempt modify ◌>>=◌
mark-is_attempted e sc s = simp lookup-insert refl

clear-is_attempted :
    (e : Env) (sc : Scope) (s : ScopeState)
    → is_attempted (clear_recovery_attempted e sc s).1.machine ≡ false
unfolding clear_recovery_attempted is_attempted pure raise lift gets ask attempt modify ◌>>=◌
clear-is_attempted e sc s = simp lookup-delete refl

-- A power cycle is due: an update is in flight and has stalled, none was tried for it, and the
-- Hardware has a BMC.
pub record IsDue (e : Env) (hw : Hardware) (now timeout : ℕ) (machine : Machine)
    (m : TinkerbellMachine) : Type 0 where
  pub updating : is_updating machine ≡ true
  pub not_attempted : is_attempted m ≡ false
  pub stalled : in_place_update_stalled machine now timeout ≡ true
  pub reachable : has_bmc e hw ≡ true

-- The Jobs created in a trace.
abbrev pub jobs : List Call → List Job
jobs [] = []
jobs (Call.create_job job ∷ t) = job ∷ jobs t
jobs (_ ∷ t) = jobs t

power_cycle_machine :
    (e : Env) (sc : Scope) (hw : Hardware) (s : ScopeState)
    → (create_power_cycle_job e sc hw s).1.machine ≡ s.machine
unfolding create_power_cycle_job create_owned_job pure raise lift gets ask attempt modify ◌>>=◌
power_cycle_machine e sc hw s = ground arith

clear_jobs :
    (e : Env) (sc : Scope) (s : ScopeState)
    → jobs (clear_recovery_attempted e sc s).1.trace ≡ jobs s.trace
unfolding clear_recovery_attempted pure raise lift gets ask attempt modify ◌>>=◌
clear_jobs e sc s = ground arith

-- A recovery creates no Job unless a power cycle is due.
pub recover-jobs :
    (e : Env) (sc : Scope) (hw : Hardware) (now timeout : ℕ) (machine : Machine) (s : ScopeState)
    → (jobs (recover e sc hw now timeout machine s.machine s).1.trace ≡ jobs s.trace)
      ⊎ IsDue e hw now timeout machine s.machine
unfolding recover pure raise lift gets ask attempt modify ◌>>=◌
recover-jobs e sc hw now timeout machine s = ground (arith, clear_jobs e sc s)

-- The branch of a power cycle that is due.
recover_due :
    (e : Env) (sc : Scope) (hw : Hardware) (now timeout : ℕ) (machine : Machine) (s : ScopeState)
    → IsDue e hw now timeout machine s.machine
    → recover e sc hw now timeout machine s.machine s
      ≡ (create_power_cycle_job e sc hw >> mark_recovery_attempted e sc) s
unfolding recover pure raise lift gets ask attempt modify ◌>>=◌
recover_due e sc hw now timeout machine s d =
    rw (d.updating, d.not_attempted, d.stalled, d.reachable) refl

after_mark :
    (e : Env) (sc : Scope) (hw : Hardware) (s : ScopeState)
    → ((create_power_cycle_job e sc hw >> mark_recovery_attempted e sc) s).0 ≡ ok tt
    → is_attempted ((create_power_cycle_job e sc hw >> mark_recovery_attempted e sc) s).1.machine
      ≡ true
unfolding pure raise lift gets ask attempt modify ◌>>=◌
after_mark e sc hw s h = ground (arith, mark-is_attempted e sc (create_power_cycle_job e sc hw s).1)

recover_attempted :
    (e : Env) (sc : Scope) (hw : Hardware) (now timeout : ℕ) (machine : Machine) (s : ScopeState)
    → is_updating machine ≡ true
    → is_attempted s.machine ≡ true
    → recover e sc hw now timeout machine s.machine s ≡ (ok tt, s)
unfolding recover pure raise lift gets ask attempt modify ◌>>=◌
recover_attempted e sc hw now timeout machine s u a = rw (u, a) refl

-- Once a power cycle that was due has succeeded, every later recovery of the same update, at
-- whatever time, does nothing: the update gets one power cycle.
pub recover_once :
    (e : Env) (sc : Scope) (hw : Hardware) (now later timeout : ℕ) (machine machine' : Machine)
    (s : ScopeState)
    → IsDue e hw now timeout machine s.machine
    → (recover e sc hw now timeout machine s.machine s).0 ≡ ok tt
    → is_updating machine' ≡ true
    → let s' = (recover e sc hw now timeout machine s.machine s).1 in
      recover e sc hw later timeout machine' s'.machine s' ≡ (ok tt, s')
recover_once e sc hw now later timeout machine machine' s d done u =
    let due = recover_due e sc hw now timeout machine s d in
    recover_attempted e sc hw later timeout machine' _ u
      (rw due (after_mark e sc hw s (rw due at done)))

-- When the update ends, the mark goes: the next update has a power cycle of its own.
recover_ended :
    (e : Env) (sc : Scope) (hw : Hardware) (now timeout : ℕ) (machine : Machine) (s : ScopeState)
    → is_updating machine ≡ false
    → is_attempted (recover e sc hw now timeout machine s.machine s).1.machine ≡ false
unfolding recover pure raise lift gets ask attempt modify ◌>>=◌
recover_ended e sc hw now timeout machine s h = elim (Bool-cases (is_attempted s.machine)) [
  | inl tried ↦ rw (h, tried) (clear-is_attempted e sc s)
  | inr fresh ↦ rw (h, fresh) fresh
]

exists_done :
    (e : Env) (sc : Scope) (hw : Hardware) (s : ScopeState) (meta : ObjectMeta)
    → resource_ownership e sc s.machine
        (new_bmc_job s.machine (recovery_name s.machine) hw (hard_off ∷ power_on ∷ [])).meta
      ≡ ok meta
    → ((t : List Call) (j : Job) → e.create_job t j ≡ err (api already_exists))
    → (create_power_cycle_job e sc hw s).0 ≡ ok tt
unfolding create_power_cycle_job create_owned_job pure raise lift gets ask attempt modify ◌>>=◌
exists_done e sc hw s meta owned refused = rw (owned, refused) refl

-- If the server answers that the recovery Job exists already, as it does when the Job of an
-- earlier update is still there, no power cycle is created, and still the update is marked as
-- tried: it gets none.
pub recover_already_exists :
    (e : Env) (sc : Scope) (hw : Hardware) (now timeout : ℕ) (machine : Machine) (s : ScopeState)
    (meta : ObjectMeta)
    → IsDue e hw now timeout machine s.machine
    → resource_ownership e sc s.machine
        (new_bmc_job s.machine (recovery_name s.machine) hw (hard_off ∷ power_on ∷ [])).meta
      ≡ ok meta
    → ((t : List Call) (j : Job) → e.create_job t j ≡ err (api already_exists))
    → is_attempted (recover e sc hw now timeout machine s.machine s).1.machine ≡ true
unfolding is_attempted lookup ◌>>=◌
recover_already_exists e sc hw now timeout machine s meta d owned refused =
    rw (recover_due e sc hw now timeout machine s d, exists_done e sc hw s meta owned refused)
      (mark-is_attempted e sc (create_power_cycle_job e sc hw s).1)
