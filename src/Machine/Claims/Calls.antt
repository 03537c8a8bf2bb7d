-- ===== src/Machine/Claims/Calls.antt =====
-- What claiming an address (controller/machine/ipam.go) sends; a condition of the machine may
-- change.
use cluster_api_provider_tin.Prelude.{String, refl, Option, none, some, is_set}
use cluster_api_provider_tin.Objects.{
  ConditionStatus, Hardware, IpPoolReference, IpAddressClaim, TinkerbellMachine,
  TinkerbellMachineSpec,
}
use cluster_api_provider_tin.Kube.{Env, Result, ok, err, is_not_found, Call, HardwareAddress, Scope}
use cluster_api_provider_tin.Kube.Sends.{
  Allows, hardware_target, claim_read_target, claim_target, Sends, Sends-pure, Sends-raise,
  Sends-lift, Sends-gets, Sends-ask, Sends-if, Sends-bind,
}
use cluster_api_provider_tin.Kube.Traces.{
  Traces, Traces-Sends, Traces-raise, Traces-attempt, Traces-if, Traces-modify, Traces-bind,
}
use cluster_api_provider_tin.Machine.Claims.{
  set_claimed_condition, get_ip_address_claim, ensure_ipam_annotations, claim_matches, address_at,
  ensure_hardware_address, create_ip_address_claim, ensure_found, ensure_ip_address_claim,
}

abbrev pub spec_of : TinkerbellMachine → TinkerbellMachineSpec
spec_of m = m.spec

module _ {Q : Call → Type 0} (e : Env) where
  pub condition-Traces :
      (status : ConditionStatus) (reason : String)
      → Traces Q spec_of (set_claimed_condition e status reason)
  unfolding set_claimed_condition
  condition-Traces status reason = Traces-modify _ λ s. (refl, refl)

module _ {Q : Call → Type 0} (allow : Allows Q hardware_target) (e : Env) where
  at-Sends :
      (hw : Hardware) (ip : HardwareAddress) (key : Option String)
      → Sends Q (address_at e hw ip key)
  unfolding address_at
  at-Sends hw ip none = Sends-raise _
  at-Sends hw ip (some key) = Sends-if _ _ _ (Sends-pure hw) (Sends-ask _ _ (allow _ refl))

  pub address-Sends :
      (hw : Hardware) (mac : String) (ip : HardwareAddress)
      → Sends Q (ensure_hardware_address e hw mac ip)
  unfolding ensure_hardware_address
  address-Sends hw mac ip = at-Sends hw ip _

module _ {Q : Call → Type 0} (reads : Allows Q claim_read_target) (claims : Allows Q claim_target)
    (e : Env) where
  annotations-Sends :
      (claim : IpAddressClaim) (hw : Hardware) (mac : String)
      → Sends Q (ensure_ipam_annotations e claim hw mac)
  unfolding ensure_ipam_annotations
  annotations-Sends claim hw mac = Sends-if _ _ _ (Sends-pure claim) (Sends-ask _ _ (claims _ refl))

  create-Sends : (claim : IpAddressClaim) → Sends Q (create_ip_address_claim e claim)
  unfolding create_ip_address_claim
  create-Sends claim =
      Sends-bind _ _ (Sends-gets _)
        λ m. Sends-bind _ _ (Sends-lift _) λ meta. Sends-ask _ _ (claims _ refl)

  get-Sends : (pool : IpPoolReference) → Sends Q (get_ip_address_claim e pool)
  unfolding get_ip_address_claim
  get-Sends pool = Sends-bind _ _ (Sends-gets _) λ m. Sends-ask _ _ (reads _ refl)

  ensure_found-Traces :
      (sc : Scope) (hw : Hardware) (mac : String) (pool : IpPoolReference) (m : TinkerbellMachine)
      (r : Result IpAddressClaim)
      → Traces Q spec_of (ensure_found e sc hw mac pool m r)
  unfolding ensure_found
  ensure_found-Traces sc hw mac pool m (err x) =
      Traces-if (is_not_found x) _ _ (Traces-Sends _ (create-Sends _)) (Traces-raise x)
  ensure_found-Traces sc hw mac pool m (ok claim) =
      Traces-if (is_set claim.meta.deletion_timestamp) _ _ (Traces-Sends _ (Sends-pure claim)) (
        Traces-if (claim_matches e m hw claim) _ _ (Traces-Sends _ (annotations-Sends claim hw mac))
          (Traces-bind _ _ (condition-Traces e _ _) λ u. Traces-raise _))

  pub ensure_claim-Traces :
      (sc : Scope) (hw : Hardware) (mac : String) (pool : IpPoolReference)
      → Traces Q spec_of (ensure_ip_address_claim e sc hw mac pool)
  unfolding ensure_ip_address_claim
  ensure_claim-Traces sc hw mac pool =
      Traces-bind _ _ (Traces-attempt _ (Traces-Sends _ (get-Sends pool))) λ found.
        Traces-bind _ _ (Traces-Sends _ (Sends-gets _))
          λ m. ensure_found-Traces sc hw mac pool m found
