-- ===== src/Machine/Ipam/Reconciling.antt =====
-- What reconcileIPAM (controller/machine/ipam.go) sends, and that it keeps the machine's spec.
use cluster_api_provider_tin.Prelude.{String, refl, Option, none, some, ◌==◌, is_set}
use cluster_api_provider_tin.Objects.{Hardware, IpPoolReference, IpAddressClaim, IpAddress}
use cluster_api_provider_tin.Kube.{
  Env, Error, Result, ok, err, is_not_found, interface_not_found, Call, HardwareAddress, Scope,
}
use cluster_api_provider_tin.Kube.Sends.{
  Allows, hardware_target, claim_read_target, claim_target, address_target, Sends-pure, Sends-gets,
  Sends-ask,
}
use cluster_api_provider_tin.Kube.Traces.{
  Traces, Traces-Sends, Traces-raise, Traces-attempt, Traces-if, Traces-modify, Traces-bind,
}
use cluster_api_provider_tin.Machine.Interfaces.{primary_interface_mac}
use cluster_api_provider_tin.Machine.Claims.Calls.{
  spec_of, condition-Traces, address-Sends, ensure_claim-Traces,
}
use cluster_api_provider_tin.Machine.Ipam.{
  get_address, refuse_claim, after_write, write_address, found_address, apply_ip_address, use_claim,
  claim_for_mac, claim_for_pool, reconcile_ipam,
}

module _ {Q : Call → Type 0} (hardware : Allows Q hardware_target)
    (reads : Allows Q claim_read_target) (claims : Allows Q claim_target)
    (addresses : Allows Q address_target) (e : Env) where
  refuse-Traces : (reason : String) (x : Error) → Traces Q spec_of (refuse_claim e reason x)
  unfolding refuse_claim
  refuse-Traces reason x = Traces-bind _ _ (condition-Traces e _ reason) λ u. Traces-raise x

  after_write-Traces :
      (ip : HardwareAddress) (r : Result Hardware) → Traces Q spec_of (after_write e ip r)
  unfolding after_write
  after_write-Traces ip (ok hw) =
      Traces-bind _ _ (Traces-modify _ λ s. (refl, refl))
        λ u. Traces-bind _ _ (condition-Traces e _ _) λ v. Traces-Sends _ (Sends-pure hw)
  after_write-Traces ip (err interface_not_found) = refuse-Traces _ _
  after_write-Traces ip (err x) = Traces-raise x

  write-Traces :
      (hw : Hardware) (claim : IpAddressClaim) (r : Result HardwareAddress)
      → Traces Q spec_of (write_address e hw claim r)
  unfolding write_address
  write-Traces hw claim (err x) = refuse-Traces _ x
  write-Traces hw claim (ok ip) =
      Traces-bind _ _ (Traces-attempt _ (Traces-Sends _ (address-Sends hardware e hw _ ip)))
        (after_write-Traces ip)

  found-Traces :
      (hw : Hardware) (claim : IpAddressClaim) (r : Result IpAddress)
      → Traces Q spec_of (found_address e hw claim r)
  unfolding found_address
  found-Traces hw claim (err x) =
      Traces-if (is_not_found x) _ _ (refuse-Traces _ _) (Traces-raise x)
  found-Traces hw claim (ok a) = write-Traces hw claim _

  use-Traces : (hw : Hardware) (claim : IpAddressClaim) → Traces Q spec_of (use_claim e hw claim)
  unfolding use_claim apply_ip_address get_address
  use-Traces hw claim = Traces-if (is_set claim.meta.deletion_timestamp) _ _ (refuse-Traces _ _) (
      Traces-if (claim.address_ref == "") _ _ (refuse-Traces _ _) (
        Traces-bind _ _ (Traces-attempt _ (Traces-Sends _ (Sends-ask _ _ (addresses _ refl))))
          (found-Traces hw claim)))

  for_mac-Traces :
      (sc : Scope) (hw : Hardware) (pool : IpPoolReference) (r : Result String)
      → Traces Q spec_of (claim_for_mac e sc hw pool r)
  unfolding claim_for_mac
  for_mac-Traces sc hw pool (err x) = refuse-Traces _ x
  for_mac-Traces sc hw pool (ok mac) =
      Traces-bind _ _ (ensure_claim-Traces reads claims e sc hw mac pool) (use-Traces hw)

  for_pool-Traces :
      (sc : Scope) (hw : Hardware) (pool : Option IpPoolReference)
      → Traces Q spec_of (claim_for_pool e sc hw pool)
  unfolding claim_for_pool
  for_pool-Traces sc hw none = Traces-Sends _ (Sends-pure hw)
  for_pool-Traces sc hw (some pool) = for_mac-Traces sc hw pool (primary_interface_mac e hw)

  pub reconcile_ipam-Traces :
      (sc : Scope) (hw : Hardware) → Traces Q spec_of (reconcile_ipam e sc hw)
  unfolding reconcile_ipam
  reconcile_ipam-Traces sc hw =
      Traces-bind _ _ (Traces-Sends _ (Sends-gets _)) λ m. for_pool-Traces sc hw _
