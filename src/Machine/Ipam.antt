-- ===== src/Machine/Ipam.antt =====
-- controller/machine/ipam.go: reconcileIPAM from the claim to the reservation, and what the
-- release of a machine needs of it.
pub mod Calls
pub mod Gone
pub mod Refused
pub mod Reserved
pub mod Reconciling
use cluster_api_provider_tin.Prelude.{
  String, Bool, true, false, ◌&&◌, not, Option, none, some, ◌==◌, value, is_set, if◌then◌else◌,
}
use cluster_api_provider_tin.Objects.{
  NamespacedName, condition_true, condition_false, Hardware, IpPoolReference, IpAddressClaim,
  IpAddress, TinkerbellMachine,
}
use cluster_api_provider_tin.Kube.{
  Env, Error, Result, ok, err, is_not_found, waiting_for_ip_address, interface_not_found, Call,
  Family, HardwareAddress, Scope, Exec, pure, raise, lift, gets, ask, attempt, modify, continue,
  ◌>>=◌, ◌>>◌,
}
use cluster_api_provider_tin.Machine.Interfaces.{primary_interface_mac}
use cluster_api_provider_tin.Machine.Reservation.{hardware_address_from_ip_address}
use cluster_api_provider_tin.Machine.Claims.{
  annotation_mac_address, ip_address_claim_finalizer, ip_address_claimed, waiting_for_ip,
  claim_deleting, claim_invalid, set_claimed_condition, get_ip_address_claim,
  ensure_ip_address_claim, ensure_hardware_address,
}

abbrev address_key : IpAddressClaim → NamespacedName
address_key claim = record { namespace = claim.meta.namespace; name = claim.address_ref }

module _ (e : Env) where
  get_address : IpAddressClaim → Exec IpAddress
  get_address claim =
      ask (Call.get_address (address_key claim)) (λ t. e.get_address t (address_key claim))

  -- Report a reason on the machine, then fail.
  refuse_claim : String → Error → Exec Hardware
  refuse_claim reason x = do set_claimed_condition e condition_false reason; raise x

  -- The end of applyIPAddress, after the Hardware was written or not.
  after_write : HardwareAddress → Result Hardware → Exec Hardware
  unfolding refuse_claim
  after_write ip (ok hw) = do
    modify (λ s. record s { reserved_address = some ip })
    set_claimed_condition e condition_true ip_address_claimed
    pure hw
  after_write ip (err interface_not_found) = refuse_claim claim_invalid interface_not_found
  after_write ip (err x) = raise x

  write_address : Hardware → IpAddressClaim → Result HardwareAddress → Exec Hardware
  unfolding after_write refuse_claim
  write_address hw claim (err x) = refuse_claim claim_invalid x
  write_address hw claim (ok ip) = do
    written ←
        attempt
          (ensure_hardware_address e hw (value annotation_mac_address claim.meta.annotations) ip)
    after_write ip written

  found_address : Hardware → IpAddressClaim → Result IpAddress → Exec Hardware
  unfolding write_address refuse_claim
  found_address hw claim (err x) =
      if is_not_found x then refuse_claim waiting_for_ip waiting_for_ip_address else raise x
  found_address hw claim (ok address) =
      write_address hw claim (hardware_address_from_ip_address e address)

  unfoldable pub apply_ip_address : Hardware → IpAddressClaim → Exec Hardware
  unfolding get_address found_address
  apply_ip_address hw claim = do found ← attempt (get_address claim); found_address hw claim found

  -- The guards of reconcileIPAM on the claim.
  use_claim : Hardware → IpAddressClaim → Exec Hardware
  unfolding refuse_claim apply_ip_address
  use_claim hw claim =
      if is_set claim.meta.deletion_timestamp
      then refuse_claim claim_deleting waiting_for_ip_address
      else (if claim.address_ref == ""
          then refuse_claim waiting_for_ip waiting_for_ip_address
          else apply_ip_address hw claim)

  claim_for_mac : Scope → Hardware → IpPoolReference → Result String → Exec Hardware
  unfolding refuse_claim use_claim
  claim_for_mac sc hw pool (err x) = refuse_claim claim_invalid x
  claim_for_mac sc hw pool (ok mac) = do
    claim ← ensure_ip_address_claim e sc hw mac pool
    use_claim hw claim

  claim_for_pool : Scope → Hardware → Option IpPoolReference → Exec Hardware
  unfolding claim_for_mac
  claim_for_pool sc hw none = pure hw
  claim_for_pool sc hw (some pool) = claim_for_mac sc hw pool (primary_interface_mac e hw)

  unfoldable pub reconcile_ipam : Scope → Hardware → Exec Hardware
  unfolding claim_for_pool
  reconcile_ipam sc hw = do m ← gets (λ s. s.machine); claim_for_pool sc hw m.spec.address_from_pool

  abbrev ignore_not_found : Result (Unit {0}) → Result (Unit {0})
  ignore_not_found (ok u) = ok u
  ignore_not_found (err x) = if is_not_found x then ok tt else err x

  pub without_finalizer : IpAddressClaim → IpAddressClaim
  without_finalizer claim =
      let meta = claim.meta in
      record claim {
        meta = record meta {
          finalizers = e.remove_finalizer meta.finalizers ip_address_claim_finalizer;
        };
      }

  drop_claim_finalizer : IpAddressClaim → Exec IpAddressClaim
  unfolding without_finalizer
  drop_claim_finalizer claim =
      if e.contains_finalizer claim.meta.finalizers ip_address_claim_finalizer
      then ask (Call.patch_claim claim (without_finalizer claim) true)
          (λ t. e.patch_claim t claim (without_finalizer claim) true)
      else pure claim

  delete_claim : IpAddressClaim → Exec (Unit {0})
  delete_claim claim =
      ask (Call.delete_claim claim) (λ t. ignore_not_found (e.delete_claim t claim))

  release_found : Bool → Result IpAddressClaim → Exec (Unit {0})
  unfolding drop_claim_finalizer delete_claim
  release_found controlled (err x) = if is_not_found x then pure tt else raise x
  release_found controlled (ok claim) =
      if controlled then drop_claim_finalizer claim >>= delete_claim else pure tt

  abbrev controlled_by : Result IpAddressClaim → TinkerbellMachine → Bool
  controlled_by (err x) m = false
  controlled_by (ok claim) m = e.is_controlled_by claim.meta m.meta

  release_from : TinkerbellMachine → Option IpPoolReference → Exec (Unit {0})
  unfolding release_found
  release_from m none = pure tt
  release_from m (some pool) = if m.spec.hardware_name == "" then pure tt else do
    found ← attempt (get_ip_address_claim e pool)
    release_found (controlled_by found m) found

  unfoldable pub release_ip_address_claim : Exec (Unit {0})
  unfolding release_from
  release_ip_address_claim = do m ← gets (λ s. s.machine); release_from m m.spec.address_from_pool

  abbrev family_found : Result IpAddress → Result (Option Family)
  family_found (err x) = if is_not_found x then ok none else err x
  family_found (ok address) = ok (e.parse_addr address.address)

  claimed_family : IpAddressClaim → Exec (Option Family)
  unfolding get_address
  claimed_family claim =
      if claim.address_ref == ""
      then pure none
      else do found ← attempt (get_address claim); lift (family_found found)

  abbrev or_primary : Result String → String × Option Family
  or_primary (err x) = ("", none)
  or_primary (ok mac) = (mac, none)

  reservation_of :
      Hardware → TinkerbellMachine → Result IpAddressClaim → Exec (String × Option Family)
  unfolding claimed_family
  reservation_of hw m (err x) =
      if is_not_found x then pure (or_primary (primary_interface_mac e hw)) else raise x
  reservation_of hw m (ok claim) =
      let mac = value annotation_mac_address claim.meta.annotations in
      if not (mac == "") && e.is_controlled_by claim.meta m.meta
      then (claimed_family claim >>= λ family. pure (mac, family))
      else pure (or_primary (primary_interface_mac e hw))

  unfoldable pub ipam_reservation : Hardware → IpPoolReference → Exec (String × Option Family)
  unfolding reservation_of
  ipam_reservation hw pool = do
    m ← gets (λ s. s.machine)
    found ← attempt (get_ip_address_claim e pool)
    reservation_of hw m found
