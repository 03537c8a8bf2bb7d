-- ===== src/Machine/Deletion/GivenUp.antt =====
-- The end of a deletion (controller/machine/scope.go): releaseIPAddressClaim, and the patch that
-- removes the machine's finalizers.
use cluster_api_provider_tin.Prelude.{
  ◌≡◌, refl, ◌∙◌, ap, subst, sym, Bool, true, false, List, ◌∷◌, ◌++◌, All,
}
use cluster_api_provider_tin.Objects.{TinkerbellMachine}
use cluster_api_provider_tin.Kube.{
  Env, Error, Result, ok, err, Call, ScopeState, Scope, gets, ask, modify, continue, ◌>>=◌,
}
use cluster_api_provider_tin.Kube.Sends.{
  Target, claim_read_target, claim_target, Allows, target, after,
}
use cluster_api_provider_tin.Machine.Ownership.{machine_finalizer, machine_legacy_finalizer}
use cluster_api_provider_tin.Machine.Ipam.{release_ip_address_claim}
use cluster_api_provider_tin.Machine.Ipam.Calls.{release_claim-Sends}
use cluster_api_provider_tin.Machine.Ipam.Gone.{ClaimGone, release_ip_address_claim-ClaimGone}
use cluster_api_provider_tin.Machine.Ipam.Refused.{
  ClaimRefused, release_ip_address_claim-ClaimRefused,
}
use cluster_api_provider_tin.Machine.Reconcile.{remove_finalizer, patch}
use cluster_api_provider_tin.Machine.Deletion.{release_claim_and_finalizer}

abbrev pub claims_target : Target → Bool
claims_target claim_read_target = true
claims_target claim_target = true
claims_target _ = false

-- A call about the claim of the address.
abbrev pub IsAboutClaim : Call → Type 0
IsAboutClaim c = claims_target (target c) ≡ true

-- The machine without its two finalizers.
abbrev pub let_go : Env → TinkerbellMachine → TinkerbellMachine
let_go e m =
    let meta = m.meta in
    record m {
      meta = record meta {
        finalizers =
            e.remove_finalizer (e.remove_finalizer meta.finalizers machine_finalizer)
              machine_legacy_finalizer;
      };
    }

-- How the end of a deletion can go, from the state `s` to the result `r`.
pub data GivenUp (e : Env) (s : ScopeState) (r : Result (Unit {0}) × ScopeState) : Type 0 where
  -- The server refuses a step of the release of the claim, and the machine keeps its finalizers.
  claim_kept :
      (x : Error) (new : List Call)
      → r ≡ (err x, after new s)
      → ClaimRefused e s.machine s.trace x (new ++ s.trace)
      → All IsAboutClaim new
      → GivenUp e s r
  -- The claim is gone, and then the machine's finalizers are removed by the last call, whose answer
  -- is the result.
  let_go_of :
      (new : List Call)
      → ClaimGone e s.machine s.trace (new ++ s.trace)
      → All IsAboutClaim new
      → r.0 ≡ e.patch_machine (new ++ s.trace) (let_go e s.machine)
      → r.1.machine ≡ let_go e s.machine
      → r.1.trace ≡ Call.patch_machine (let_go e s.machine) ∷ (new ++ s.trace)
      → GivenUp e s r

about_claim : (t : Target) → claims_target t ≡ true → Allows IsAboutClaim t
about_claim t h c p = ap claims_target p ∙ h

module _ (e : Env) (s : ScopeState) where
  -- The patch of the machine after the release of the claim.
  patched :
      (new : List Call) (t : ScopeState)
      → t ≡ after new s
      → ClaimGone e s.machine s.trace t.trace
      → All IsAboutClaim new
      → GivenUp e s (remove_finalizer e t)
  unfolding remove_finalizer patch modify gets ask ◌>>=◌
  patched new t p gone q =
      subst (λ (t : ScopeState). GivenUp e s (remove_finalizer e t)) (sym p)
        (let_go_of new (subst (λ (t : ScopeState). ClaimGone e s.machine s.trace t.trace) p gone) q
          refl refl refl)

  continued :
      (r : Result (Unit {0})) (new : List Call) (t : ScopeState)
      → t ≡ after new s
      → ((u : Unit {0}) → r ≡ ok u → ClaimGone e s.machine s.trace t.trace)
      → ((x : Error) → r ≡ err x → ClaimRefused e s.machine s.trace x t.trace)
      → All IsAboutClaim new
      → GivenUp e s (continue r (λ u. remove_finalizer e) t)
  continued (ok u) new t p gone refused q = patched new t p (gone u refl) q
  continued (err x) new t p gone refused q =
      claim_kept x new (ap (λ u. (err x, u)) p)
        (subst (λ (t : ScopeState). ClaimRefused e s.machine s.trace x t.trace) p (refused x refl))
        q

  pub release_claim_and_finalizer-GivenUp :
      (sc : Scope) → GivenUp e s (release_claim_and_finalizer e sc s)
  unfolding release_claim_and_finalizer ◌>>=◌
  release_claim_and_finalizer-GivenUp sc =
      let (new, p, q) =
        (release_claim-Sends (about_claim claim_read_target refl) (about_claim claim_target refl)
            e).at
          s in
      let r = release_ip_address_claim e s in
      continued r.0 new r.1 p (release_ip_address_claim-ClaimGone e s)
        (release_ip_address_claim-ClaimRefused e s) q

-- The calls of the end come after those of `s`.
pub GivenUp-later :
    {e : Env}
    → (s : ScopeState) (r : Result (Unit {0}) × ScopeState) → GivenUp e s r
    → (later : List Call) × (r.1.trace ≡ later ++ s.trace)
GivenUp-later s r (claim_kept x new p refused q) =
    (new, ap (λ (t : Result (Unit {0}) × ScopeState). t.1.trace) p)
GivenUp-later {e = e} s r (let_go_of new gone q p m t) =
    (Call.patch_machine (let_go e s.machine) ∷ new, t)
