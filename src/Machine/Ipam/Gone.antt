-- ===== src/Machine/Ipam/Gone.antt =====
-- That releaseIPAddressClaim (controller/machine/ipam.go) succeeds only when the machine has no claim
-- of an address left.
use cluster_api_provider_tin.Prelude.{
  ◌≡◌, refl, sym, ap, ◌∙◌, subst, inl, inr, Bool, true, false, Option, none, some, List, ◌∷◌, ◌==◌,
  if◌then◌else◌,
}
use cluster_api_provider_tin.Objects.{TinkerbellMachine, IpPoolReference, IpAddressClaim}
use cluster_api_provider_tin.Kube.{
  Env, Error, Result, ok, err, is_not_found, Call, ScopeState, pure, raise, gets, ask, attempt,
  ◌>>=◌,
}
use cluster_api_provider_tin.Kube.Ensures.{Tolerated, err-ne-ok, ok-injective}
use cluster_api_provider_tin.Kube.Patched.{continue-ok}
use cluster_api_provider_tin.Machine.Claims.{
  ip_address_claim_finalizer, ip_address_claim_key, get_ip_address_claim,
}
use cluster_api_provider_tin.Machine.Ipam.{
  ignore_not_found, without_finalizer, drop_claim_finalizer, delete_claim, release_found,
  controlled_by, release_from, release_ip_address_claim,
}

-- From the calls `calls` on, the claim's finalizer is not there, or is removed with the lock.
pub data FinalizerGone (e : Env) (claim : IpAddressClaim) (calls : List Call)
    : IpAddressClaim → List Call → Type 0 where
  no_finalizer :
      e.contains_finalizer claim.meta.finalizers ip_address_claim_finalizer ≡ false
      → FinalizerGone e claim calls claim calls
  finalizer_removed :
      (answer : IpAddressClaim)
      → e.contains_finalizer claim.meta.finalizers ip_address_claim_finalizer ≡ true
      → e.patch_claim calls claim (without_finalizer e claim) true ≡ ok answer
      → FinalizerGone e claim calls answer
          (Call.patch_claim claim (without_finalizer e claim) true ∷ calls)

-- From the calls `calls` on, the machine needs no claim, or its claim is looked for and is not there,
-- is another's, or is deleted.
pub data ClaimGone (e : Env) (m : TinkerbellMachine) (calls : List Call) : List Call → Type 0 where
  no_pool : m.spec.address_from_pool ≡ none → ClaimGone e m calls calls
  no_hardware : (m.spec.hardware_name == "") ≡ true → ClaimGone e m calls calls
  no_claim :
      (pool : IpPoolReference) (x : Error)
      → m.spec.address_from_pool ≡ some pool
      → e.get_claim calls (ip_address_claim_key m pool) ≡ err x
      → is_not_found x ≡ true
      → ClaimGone e m calls (Call.get_claim (ip_address_claim_key m pool) ∷ calls)
  others_claim :
      (pool : IpPoolReference) (claim : IpAddressClaim)
      → m.spec.address_from_pool ≡ some pool
      → e.get_claim calls (ip_address_claim_key m pool) ≡ ok claim
      → e.is_controlled_by claim.meta m.meta ≡ false
      → ClaimGone e m calls (Call.get_claim (ip_address_claim_key m pool) ∷ calls)
  claim_deleted :
      (pool : IpPoolReference) (claim answer : IpAddressClaim) (calls' : List Call)
      → m.spec.address_from_pool ≡ some pool
      → e.get_claim calls (ip_address_claim_key m pool) ≡ ok claim
      → e.is_controlled_by claim.meta m.meta ≡ true
      → FinalizerGone e claim (Call.get_claim (ip_address_claim_key m pool) ∷ calls) answer calls'
      → Tolerated (e.delete_claim calls' answer)
      → ClaimGone e m calls (Call.delete_claim answer ∷ calls')

ignored :
    (e : Env) (r : Result (Unit {0})) (u : Unit {0}) → ignore_not_found e r ≡ ok u → Tolerated r
ignored e (ok v) u h = inl refl
ignored e (err x) u h = inr (x, refl, missing (is_not_found x) h)
  where
    missing : (b : Bool) → (if b then ok tt else err x) ≡ ok u → b ≡ true
    missing true h = refl
    missing false h = absurd (err-ne-ok x u h)

module _ (e : Env) where
  pub dropped :
      (claim : IpAddressClaim) (b : Bool) (s : ScopeState) (answer : IpAddressClaim)
      → e.contains_finalizer claim.meta.finalizers ip_address_claim_finalizer ≡ b
      → let r : Result IpAddressClaim × ScopeState =
          (if b
              then ask
                  (Call.patch_claim claim (without_finalizer e claim) true)
                  (λ t. e.patch_claim t claim (without_finalizer e claim) true)
              else pure claim)
            s in
        r.0 ≡ ok answer → FinalizerGone e claim s.trace answer r.1.trace
  unfolding ask pure
  dropped claim true s answer has h = finalizer_removed answer has h
  dropped claim false s answer has h =
      subst (λ a. FinalizerGone e claim s.trace a s.trace) (ok-injective claim answer h)
        (no_finalizer has)

  module _ (m : TinkerbellMachine) (pool : IpPoolReference)
      (pooled : m.spec.address_from_pool ≡ some pool) (s : ScopeState) where
    abbrev looked : ScopeState
    looked = record s { trace = Call.get_claim (ip_address_claim_key m pool) ∷ s.trace }

    missing_case :
        (x : Error) (b : Bool) (u : Unit {0})
        → is_not_found x ≡ b
        → e.get_claim s.trace (ip_address_claim_key m pool) ≡ err x
        → let r : Result (Unit {0}) × ScopeState = (if b then pure tt else raise x) looked in
          r.0 ≡ ok u → ClaimGone e m s.trace r.1.trace
    unfolding pure raise
    missing_case x true u gone found h = no_claim pool x pooled found gone
    missing_case x false u gone found h = absurd (err-ne-ok x u h)

    controlled_case :
        (claim : IpAddressClaim) (b : Bool) (u : Unit {0})
        → e.is_controlled_by claim.meta m.meta ≡ b
        → e.get_claim s.trace (ip_address_claim_key m pool) ≡ ok claim
        → let r : Result (Unit {0}) × ScopeState =
            (if b then drop_claim_finalizer e claim >>= delete_claim e else pure tt) looked in
          r.0 ≡ ok u → ClaimGone e m s.trace r.1.trace
    unfolding drop_claim_finalizer delete_claim ask pure ◌>>=◌
    controlled_case claim true u mine found h =
        let d = drop_claim_finalizer e claim looked in
        let (answer, done, rest) = continue-ok d.0 (delete_claim e) d.1 u h in
        subst (λ (x : Result (Unit {0}) × ScopeState). ClaimGone e m s.trace x.1.trace) (sym rest)
          (claim_deleted pool claim answer d.1.trace pooled found mine
            (dropped claim _ looked answer refl done)
            (ignored e _ u (ap (λ x. x.0) (sym rest) ∙ h)))
    controlled_case claim false u others found h = others_claim pool claim pooled found others

    found_case :
        (a : Result IpAddressClaim) (u : Unit {0})
        → e.get_claim s.trace (ip_address_claim_key m pool) ≡ a
        → (release_found e (controlled_by e a m) a looked).0 ≡ ok u
        → ClaimGone e m s.trace (release_found e (controlled_by e a m) a looked).1.trace
    unfolding release_found
    found_case (ok claim) u found h = controlled_case claim _ u refl found h
    found_case (err x) u found h = missing_case x _ u refl found h

  pooled_case :
      (pool : IpPoolReference) (b : Bool) (s : ScopeState) (u : Unit {0})
      → s.machine.spec.address_from_pool ≡ some pool
      → (s.machine.spec.hardware_name == "") ≡ b
      → let r : Result (Unit {0}) × ScopeState =
          (if b
              then pure tt
              else (attempt (get_ip_address_claim e pool) >>= λ found.
                  release_found e (controlled_by e found s.machine) found))
            s in
        r.0 ≡ ok u → ClaimGone e s.machine s.trace r.1.trace
  unfolding get_ip_address_claim gets attempt ask pure ◌>>=◌
  pooled_case pool true s u pooled unset h = no_hardware unset
  pooled_case pool false s u pooled named h =
      found_case s.machine pool pooled s (e.get_claim s.trace (ip_address_claim_key s.machine pool))
        u refl h

  release_case :
      (pool : Option IpPoolReference) (s : ScopeState) (u : Unit {0})
      → s.machine.spec.address_from_pool ≡ pool
      → (release_from e s.machine pool s).0 ≡ ok u
      → ClaimGone e s.machine s.trace (release_from e s.machine pool s).1.trace
  unfolding release_from pure
  release_case none s u pooled h = no_pool pooled
  release_case (some pool) s u pooled h = pooled_case pool _ s u pooled refl h

  pub release_ip_address_claim-ClaimGone :
      (s : ScopeState) (u : Unit {0})
      → (release_ip_address_claim e s).0 ≡ ok u
      → ClaimGone e s.machine s.trace (release_ip_address_claim e s).1.trace
  unfolding release_ip_address_claim gets ◌>>=◌
  release_ip_address_claim-ClaimGone s u h =
      release_case s.machine.spec.address_from_pool s u refl h
