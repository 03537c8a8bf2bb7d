-- ===== src/Machine/Ipam/Refused.antt =====
-- That releaseIPAddressClaim (controller/machine/ipam.go) fails only with a refusal of the server.
use cluster_api_provider_tin.Prelude.{
  ◌≡◌, refl, sym, ap, ◌∙◌, Bool, true, false, Option, none, some, List, ◌∷◌, arith, if◌then◌else◌,
}
use cluster_api_provider_tin.Objects.{TinkerbellMachine, IpPoolReference, IpAddressClaim}
use cluster_api_provider_tin.Kube.{
  Env, Error, Result, ok, err, is_not_found, Call, ScopeState, pure, raise, gets, ask, attempt,
  continue, ◌>>=◌,
}
use cluster_api_provider_tin.Kube.Ensures.{err-ne-ok}
use cluster_api_provider_tin.Machine.Claims.{ip_address_claim_key, get_ip_address_claim}
use cluster_api_provider_tin.Machine.Ipam.{
  ignore_not_found, without_finalizer, drop_claim_finalizer, delete_claim, release_found,
  controlled_by, release_from, release_ip_address_claim,
}
use cluster_api_provider_tin.Machine.Ipam.Gone.{FinalizerGone, dropped}

-- From the calls `calls` on, the last call about the machine's claim is refused with the error `x`.
pub data ClaimRefused (e : Env) (m : TinkerbellMachine) (calls : List Call) (x : Error)
    : List Call → Type 0 where
  get_refused :
      (pool : IpPoolReference)
      → m.spec.address_from_pool ≡ some pool
      → e.get_claim calls (ip_address_claim_key m pool) ≡ err x
      → is_not_found x ≡ false
      → ClaimRefused e m calls x (Call.get_claim (ip_address_claim_key m pool) ∷ calls)
  patch_refused :
      (pool : IpPoolReference) (claim : IpAddressClaim)
      → m.spec.address_from_pool ≡ some pool
      → e.get_claim calls (ip_address_claim_key m pool) ≡ ok claim
      → e.is_controlled_by claim.meta m.meta ≡ true
      → e.patch_claim
          (Call.get_claim (ip_address_claim_key m pool) ∷ calls)
          claim
          (without_finalizer e claim)
          true
        ≡ err x
      → ClaimRefused e m calls x (
          Call.patch_claim claim (without_finalizer e claim) true
          ∷ Call.get_claim (ip_address_claim_key m pool)
          ∷ calls)
  delete_refused :
      (pool : IpPoolReference) (claim answer : IpAddressClaim) (calls' : List Call)
      → m.spec.address_from_pool ≡ some pool
      → e.get_claim calls (ip_address_claim_key m pool) ≡ ok claim
      → e.is_controlled_by claim.meta m.meta ≡ true
      → FinalizerGone e claim (Call.get_claim (ip_address_claim_key m pool) ∷ calls) answer calls'
      → e.delete_claim calls' answer ≡ err x
      → is_not_found x ≡ false
      → ClaimRefused e m calls x (Call.delete_claim answer ∷ calls')

ok-ne-err : {A : Type 0} → (a : A) → (x : Error) → ok a ≡ err x → ⊥
ok-ne-err a x p = err-ne-ok x a (sym p)

same_error : {A : Type 0} → (x y : Error) → (r : Result A) → r ≡ err x → r ≡ err y → x ≡ y
same_error x y r p q = ground (arith, sym p ∙ q)

present :
    (y x : Error) (r : Result (Unit {0})) (b : Bool)
    → r ≡ err y
    → is_not_found y ≡ b
    → (if b then ok tt else r) ≡ err x
    → (r ≡ err x) × (is_not_found x ≡ false)
present y x r true answered gone h = absurd (ok-ne-err tt x h)
present y x r false answered gone h =
    (h, ap is_not_found (sym (same_error y x r answered h)) ∙ gone)

not_ignored :
    (e : Env) (r : Result (Unit {0})) (x : Error)
    → ignore_not_found e r ≡ err x
    → (r ≡ err x) × (is_not_found x ≡ false)
not_ignored e (ok v) x h = absurd (ok-ne-err v x h)
not_ignored e (err y) x h = present y x (err y) (is_not_found y) refl refl h

module _ (e : Env) (m : TinkerbellMachine) (pool : IpPoolReference)
    (pooled : m.spec.address_from_pool ≡ some pool) (s : ScopeState) where
  abbrev looked : ScopeState
  looked = record s { trace = Call.get_claim (ip_address_claim_key m pool) ∷ s.trace }

  missing_case :
      (y : Error) (b : Bool) (x : Error)
      → is_not_found y ≡ b
      → e.get_claim s.trace (ip_address_claim_key m pool) ≡ err y
      → let r : Result (Unit {0}) × ScopeState = (if b then pure tt else raise y) looked in
        r.0 ≡ err x → ClaimRefused e m s.trace x r.1.trace
  unfolding pure raise
  missing_case y true x gone found h = absurd (ok-ne-err tt x h)
  missing_case y false x gone found h =
      get_refused pool pooled (found ∙ ap err (same_error y x (err y) refl h))
        (ap is_not_found (sym (same_error y x (err y) refl h)) ∙ gone)

  module _ (claim : IpAddressClaim)
      (found : e.get_claim s.trace (ip_address_claim_key m pool) ≡ ok claim)
      (mine : e.is_controlled_by claim.meta m.meta ≡ true) (x : Error) where
    -- After the removal of the finalizer.
    delete_case :
        (r : Result IpAddressClaim) (t : ScopeState)
        → ((answer : IpAddressClaim)
            → r ≡ ok answer
            → FinalizerGone e claim looked.trace answer t.trace)
        → (r ≡ err x → ClaimRefused e m s.trace x t.trace)
        → (continue r (delete_claim e) t).0 ≡ err x
        → ClaimRefused e m s.trace x (continue r (delete_claim e) t).1.trace
    unfolding delete_claim ask
    delete_case (ok answer) t gone refused h =
        let (answered, present) = not_ignored e _ x h in
        delete_refused pool claim answer t.trace pooled found mine (gone answer refl) answered
          present
    delete_case (err y) t gone refused h = refused (ap err (same_error y x (err y) refl h))

    patch_case :
        (b : Bool)
        → let r : Result IpAddressClaim × ScopeState =
            (if b
                then ask
                    (Call.patch_claim claim (without_finalizer e claim) true)
                    (λ t. e.patch_claim t claim (without_finalizer e claim) true)
                else pure claim)
              looked in
          r.0 ≡ err x → ClaimRefused e m s.trace x r.1.trace
    unfolding ask pure
    patch_case true h = patch_refused pool claim pooled found mine h
    patch_case false h = absurd (ok-ne-err claim x h)

  controlled_case :
      (claim : IpAddressClaim) (b : Bool) (x : Error)
      → e.is_controlled_by claim.meta m.meta ≡ b
      → e.get_claim s.trace (ip_address_claim_key m pool) ≡ ok claim
      → let r : Result (Unit {0}) × ScopeState =
          (if b then drop_claim_finalizer e claim >>= delete_claim e else pure tt) looked in
        r.0 ≡ err x → ClaimRefused e m s.trace x r.1.trace
  unfolding drop_claim_finalizer pure ◌>>=◌
  controlled_case claim true x mine found h =
      let d = drop_claim_finalizer e claim looked in
      delete_case claim found mine x d.0 d.1 (λ answer. dropped e claim _ looked answer refl)
        (patch_case claim found mine x _) h
  controlled_case claim false x others found h = absurd (ok-ne-err tt x h)

  found_case :
      (a : Result IpAddressClaim) (x : Error)
      → e.get_claim s.trace (ip_address_claim_key m pool) ≡ a
      → (release_found e (controlled_by e a m) a looked).0 ≡ err x
      → ClaimRefused e m s.trace x (release_found e (controlled_by e a m) a looked).1.trace
  unfolding release_found
  found_case (ok claim) x found h = controlled_case claim _ x refl found h
  found_case (err y) x found h = missing_case y _ x refl found h

module _ (e : Env) where
  pooled_case :
      (pool : IpPoolReference) (b : Bool) (s : ScopeState) (x : Error)
      → s.machine.spec.address_from_pool ≡ some pool
      → let r : Result (Unit {0}) × ScopeState =
          (if b
              then pure tt
              else (attempt (get_ip_address_claim e pool) >>= λ found.
                  release_found e (controlled_by e found s.machine) found))
            s in
        r.0 ≡ err x → ClaimRefused e s.machine s.trace x r.1.trace
  unfolding get_ip_address_claim gets attempt ask pure ◌>>=◌
  pooled_case pool true s x pooled h = absurd (ok-ne-err tt x h)
  pooled_case pool false s x pooled h =
      found_case e s.machine pool pooled s
        (e.get_claim s.trace (ip_address_claim_key s.machine pool)) x refl h

  release_case :
      (pool : Option IpPoolReference) (s : ScopeState) (x : Error)
      → s.machine.spec.address_from_pool ≡ pool
      → (release_from e s.machine pool s).0 ≡ err x
      → ClaimRefused e s.machine s.trace x (release_from e s.machine pool s).1.trace
  unfolding release_from pure
  release_case none s x pooled h = absurd (ok-ne-err tt x h)
  release_case (some pool) s x pooled h = pooled_case pool _ s x pooled h

  pub release_ip_address_claim-ClaimRefused :
      (s : ScopeState) (x : Error)
      → (release_ip_address_claim e s).0 ≡ err x
      → ClaimRefused e s.machine s.trace x (release_ip_address_claim e s).1.trace
  unfolding release_ip_address_claim gets ◌>>=◌
  release_ip_address_claim-ClaimRefused s x h =
      release_case s.machine.spec.address_from_pool s x refl h
