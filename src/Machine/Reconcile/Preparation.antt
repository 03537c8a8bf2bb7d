-- ===== src/Machine/Reconcile/Preparation.antt =====
-- The order of a reconcile (Reconcile of controller/machine/scope.go): the Hardware is claimed, the
-- address reserved and reported before anything is made that would run on the Hardware.
use cluster_api_provider_tin.Prelude.{ℕ, ◌≡◌, Bool, true, false, Option, some, List, ◌++◌, All}
use cluster_api_provider_tin.Objects.{Hardware, IpPoolReference, TinkerbellMachine}
use cluster_api_provider_tin.Kube.{
  Env, Error, Result, ok, err, Call, HardwareAddress, ScopeState, Scope,
}
use cluster_api_provider_tin.Kube.Sends.{
  Target, target, hardware_target, claim_read_target, claim_target, address_target, machine_target,
  watch_target,
}
use cluster_api_provider_tin.Kube.Traces.{Follows, Traces}
use cluster_api_provider_tin.Machine.Ipam.Reserved.{IsHeld}
use cluster_api_provider_tin.Machine.Reconcile.{ensure_hardware, reconcile_workflow}
use cluster_api_provider_tin.Machine.Reconcile.Claiming.{HasClaimed}
use cluster_api_provider_tin.Machine.Reconcile.Order.{internal_address}

-- Calls about the Hardware, the claim and the address, the machine and the watch; none about a
-- Workflow, a Template, a Task or a Job.
abbrev prepares : Target → Bool
prepares hardware_target = true
prepares claim_read_target = true
prepares claim_target = true
prepares address_target = true
prepares machine_target = true
prepares watch_target = true
prepares _ = false

abbrev pub IsPreparation : Call → Type 0
IsPreparation c = prepares (target c) ≡ true

abbrev pool_of : TinkerbellMachine → Option IpPoolReference
pool_of m = m.spec.address_from_pool

-- The address that is reserved, that the Hardware holds and that the machine reports, after a run
-- from the state `s` on the Hardware `hw`.
pub record IsReserved (e : Env) (s : ScopeState) (hw hw' : Hardware) (mid : ScopeState)
    : Type 0 where
  pub reserved : HardwareAddress
  pub held : mid.reserved_address ≡ some reserved
  pub written : IsHeld e s.trace hw mid.trace reserved hw'
  pub reported : mid.machine.status.addresses ≡ internal_address reserved.address

-- How the body of a reconcile can go, from the state `s` to the result `r`.
pub data Reconciliation (e : Env) (sc : Scope) (now : ℕ) (s : ScopeState)
    (r : Result (Unit {0}) × ScopeState) : Type 0 where
  -- It fails in the preparation.
  stopped :
      (x : Error)
      → (new : List Call) → r.0 ≡ err x
      → r.1.trace ≡ new ++ s.trace
      → All IsPreparation new
      → Reconciliation e sc now s r
  -- It comes to the Workflow, in a state in which the Hardware is claimed, and the address is held
  -- by it, reserved and reported.
  prepared :
      (hw hw' : Hardware)
      → (mid : ScopeState) → (new : List Call) → mid.trace ≡ new ++ s.trace
      → All IsPreparation new
      → HasClaimed e sc s mid.trace
      → (ensure_hardware e sc s).0 ≡ ok hw
      → IsReserved e s hw hw' mid
      → r ≡ reconcile_workflow e sc now hw' mid
      → Reconciliation e sc now s r

module _ (e : Env) (sc : Scope) where
  abbrev After : ScopeState → ScopeState → Type 0
  After = Follows IsPreparation pool_of
