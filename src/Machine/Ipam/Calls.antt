-- ===== src/Machine/Ipam/Calls.antt =====
-- What the release of a machine sends about its IPAddressClaim (controller/machine/ipam.go).
use cluster_api_provider_tin.Prelude.{Bool, Option, none, some, refl}
use cluster_api_provider_tin.Objects.{Hardware, TinkerbellMachine, IpPoolReference, IpAddressClaim}
use cluster_api_provider_tin.Kube.{Env, Result, ok, err, Call}
use cluster_api_provider_tin.Kube.Sends.{
  Allows, claim_read_target, claim_target, address_target, Sends, Sends-pure, Sends-raise,
  Sends-lift, Sends-gets, Sends-ask, Sends-attempt, Sends-if, Sends-bind,
}
use cluster_api_provider_tin.Machine.Claims.{get_ip_address_claim}
use cluster_api_provider_tin.Machine.Ipam.{
  get_address, drop_claim_finalizer, delete_claim, release_found, release_from,
  release_ip_address_claim, claimed_family, reservation_of, ipam_reservation,
}

module _ {Q : Call → Type 0} (reads : Allows Q claim_read_target) (e : Env) where
  get_claim-Sends : (pool : IpPoolReference) → Sends Q (get_ip_address_claim e pool)
  unfolding get_ip_address_claim
  get_claim-Sends pool = Sends-bind _ _ (Sends-gets _) λ m. Sends-ask _ _ (reads _ refl)

module _ {Q : Call → Type 0} (reads : Allows Q claim_read_target) (claims : Allows Q claim_target)
    (e : Env) where
  drop_finalizer-Sends : (claim : IpAddressClaim) → Sends Q (drop_claim_finalizer e claim)
  unfolding drop_claim_finalizer
  drop_finalizer-Sends claim = Sends-if _ _ _ (Sends-ask _ _ (claims _ refl)) (Sends-pure claim)

  release_found-Sends :
      (controlled : Bool) (r : Result IpAddressClaim) → Sends Q (release_found e controlled r)
  unfolding release_found delete_claim
  release_found-Sends controlled (err x) = Sends-if _ _ _ (Sends-pure tt) (Sends-raise x)
  release_found-Sends controlled (ok claim) =
      Sends-if _ _ _
        (Sends-bind _ _ (drop_finalizer-Sends claim) λ c. Sends-ask _ _ (claims _ refl))
        (Sends-pure tt)

  release_from-Sends :
      (m : TinkerbellMachine) (pool : Option IpPoolReference) → Sends Q (release_from e m pool)
  unfolding release_from
  release_from-Sends m none = Sends-pure tt
  release_from-Sends m (some pool) =
      Sends-if _ _ _ (Sends-pure tt) (
        Sends-bind _ _ (Sends-attempt _ (get_claim-Sends reads e pool))
          λ r. release_found-Sends _ r)

  pub release_claim-Sends : Sends Q (release_ip_address_claim e)
  unfolding release_ip_address_claim
  release_claim-Sends = Sends-bind _ _ (Sends-gets _) λ m. release_from-Sends m _

module _ {Q : Call → Type 0} (reads : Allows Q claim_read_target)
    (addresses : Allows Q address_target) (e : Env) where
  family-Sends : (claim : IpAddressClaim) → Sends Q (claimed_family e claim)
  unfolding claimed_family get_address
  family-Sends claim =
      Sends-if _ _ _ (Sends-pure none)
        (Sends-bind _ _ (Sends-attempt _ (Sends-ask _ _ (addresses _ refl))) λ r. Sends-lift _)

  reservation_of-Sends :
      (hw : Hardware) (m : TinkerbellMachine) (r : Result IpAddressClaim)
      → Sends Q (reservation_of e hw m r)
  unfolding reservation_of
  reservation_of-Sends hw m (err x) = Sends-if _ _ _ (Sends-pure _) (Sends-raise x)
  reservation_of-Sends hw m (ok claim) =
      Sends-if _ _ _ (Sends-bind _ _ (family-Sends claim) λ family. Sends-pure _) (Sends-pure _)

  pub reservation-Sends :
      (hw : Hardware) (pool : IpPoolReference) → Sends Q (ipam_reservation e hw pool)
  unfolding ipam_reservation
  reservation-Sends hw pool = Sends-bind _ _ (Sends-gets _) λ m.
      Sends-bind _ _ (Sends-attempt _ (get_claim-Sends reads e pool))
        λ r. reservation_of-Sends hw m r
