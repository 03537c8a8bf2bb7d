-- ===== src/Machine/Claims.antt =====
-- controller/machine/ipam.go: the IPAddressClaim of a machine and the write of its address to the
-- Hardware. A function that the source calls with a pool set takes the pool; a created or patched
-- object comes back as the server returned it.
pub mod Calls
use cluster_api_provider_tin.Prelude.{
  String, str_append, Bool, true, false, ◌&&◌, Option, none, some, List, [], ◌∷◌, ◌==◌, insert,
  value, is_set, if◌then◌else◌,
}
use cluster_api_provider_tin.Objects.{
  NamespacedName, Condition, ConditionStatus, condition_false, Hardware, TinkerbellMachine,
  IpPoolReference, Machine, IpAddressClaim,
}
use cluster_api_provider_tin.Kube.{
  Env, Result, ok, err, is_not_found, requeue_conflict, claim_conflict, interface_not_found, Call,
  HardwareAddress, Scope, Exec, pure, raise, lift, gets, ask, attempt, modify, ◌>>=◌, ◌>>◌,
}
use cluster_api_provider_tin.Machine.Interfaces.{interface_key}
use cluster_api_provider_tin.Machine.Reservation.{
  interface_address, held_by, reserve, interface_at, set_interface,
}

abbrev pub annotation_hardware_name : String
annotation_hardware_name = "capt.tinkerbell.org/hardware-name"

abbrev pub annotation_hardware_namespace : String
annotation_hardware_namespace = "capt.tinkerbell.org/hardware-namespace"

abbrev pub annotation_mac_address : String
annotation_mac_address = "capt.tinkerbell.org/mac-address"

abbrev pub annotation_ipam_mac_address : String
annotation_ipam_mac_address = "ipam.cluster.x-k8s.io/mac-address"

abbrev pub annotation_ipam_hostname : String
annotation_ipam_hostname = "ipam.cluster.x-k8s.io/hostname"

abbrev pub label_machine_name : String
label_machine_name = "capt.tinkerbell.org/machine-name"

abbrev pub label_machine_namespace : String
label_machine_namespace = "capt.tinkerbell.org/machine-namespace"

abbrev pub ip_address_claim_finalizer : String
ip_address_claim_finalizer = "infrastructure.cluster.x-k8s.io/ipaddressclaim"

-- clusterv1.ClusterNameLabel
abbrev pub cluster_name_label : String
cluster_name_label = "cluster.x-k8s.io/cluster-name"

-- The reasons of api/v1beta2/conditions.go.
abbrev pub ip_address_claimed : String
ip_address_claimed = "IPAddressClaimed"

abbrev pub waiting_for_ip : String
waiting_for_ip = "WaitingForIPAddress"

abbrev pub claim_deleting : String
claim_deleting = "IPAddressClaimDeleting"

abbrev pub claim_invalid : String
claim_invalid = "IPAddressClaimInvalid"

abbrev cluster_name_of : Option Machine → String
cluster_name_of none = ""
cluster_name_of (some m) = m.cluster_name

unfoldable pub ip_address_claim_key : TinkerbellMachine → IpPoolReference → NamespacedName
ip_address_claim_key m pool = record {
  namespace = m.meta.namespace;
  name = str_append m.spec.hardware_name (str_append "-" pool.name);
}

-- `claim.Annotations` other than nil, with the wanted values.
abbrev put_if_changed : String → String → List (String × String) → List (String × String)
put_if_changed k v m = if value k m == v then m else insert k v m

unfoldable pub annotated : IpAddressClaim → String → String → IpAddressClaim
annotated claim host mac =
    let meta = claim.meta in
    record claim {
      meta = record meta {
        annotations =
            put_if_changed annotation_ipam_hostname host
              (put_if_changed annotation_ipam_mac_address mac meta.annotations);
      };
    }

module _ (e : Env) where
  unfoldable pub set_claimed_condition : ConditionStatus → String → Exec (Unit {0})
  set_claimed_condition status reason = modify λ s.
      let m = s.machine in
      let st = m.status in
      let c : Condition = record {
        kind = ip_address_claimed;
        status = status;
        reason = reason;
        last_transition = 0;
      } in
      record s {
        machine = record m { status = record st { conditions = e.set_condition st.conditions c } };
      }

  unfoldable pub get_ip_address_claim : IpPoolReference → Exec IpAddressClaim
  unfolding ip_address_claim_key
  get_ip_address_claim pool = do
    m ← gets (λ s. s.machine)
    let key = ip_address_claim_key m pool
    ask (Call.get_claim key) (λ t. e.get_claim t key)

  ensure_ipam_annotations : IpAddressClaim → Hardware → String → Exec IpAddressClaim
  unfolding annotated
  ensure_ipam_annotations claim hw mac =
      if (value annotation_ipam_mac_address claim.meta.annotations == mac)
        && (value annotation_ipam_hostname claim.meta.annotations == hw.meta.name)
      then pure claim
      else (let claim' = annotated claim hw.meta.name mac in
          ask (Call.patch_claim claim claim' false) (λ t. e.patch_claim t claim claim' false))

  -- The source's guard on an existing claim, negated.
  unfoldable pub claim_matches : TinkerbellMachine → Hardware → IpAddressClaim → Bool
  claim_matches m hw claim =
      e.is_controlled_by claim.meta m.meta
      && ((value annotation_hardware_name claim.meta.annotations == hw.meta.name)
          && (value annotation_hardware_namespace claim.meta.annotations == hw.meta.namespace))

  -- The write of ensureHardwareAddress at the key of the interface, if it has one.
  unfoldable pub address_at : Hardware → HardwareAddress → Option String → Exec Hardware
  address_at hw ip none = raise interface_not_found
  address_at hw ip (some key) =
      if held_by ip (interface_address (interface_at hw key) ip.family)
      then pure hw
      else (let hw' = set_interface hw key (reserve ip (interface_at hw key)) in
          ask (Call.patch_hardware hw hw' true)
            (λ t. requeue_conflict (e.patch_hardware t hw hw' true)))

  unfoldable pub ensure_hardware_address : Hardware → String → HardwareAddress → Exec Hardware
  unfolding address_at
  ensure_hardware_address hw mac ip = address_at hw ip (interface_key hw.network_interfaces mac)

  new_ip_address_claim :
      Scope → TinkerbellMachine → Hardware → String → IpPoolReference → IpAddressClaim
  unfolding ip_address_claim_key
  new_ip_address_claim sc m hw mac pool =
      let key = ip_address_claim_key m pool in
      record {
        meta = record {
          name = key.name;
          namespace = key.namespace;
          uid = "";
          labels =
              (cluster_name_label, cluster_name_of sc.owner_machine)
              ∷ (label_machine_name, m.meta.name)
              ∷ (label_machine_namespace, m.meta.namespace)
              ∷ [];
          annotations =
              (annotation_hardware_name, hw.meta.name)
              ∷ (annotation_hardware_namespace, hw.meta.namespace)
              ∷ (annotation_mac_address, mac)
              ∷ (annotation_ipam_mac_address, mac)
              ∷ (annotation_ipam_hostname, hw.meta.name)
              ∷ [];
          finalizers = ip_address_claim_finalizer ∷ [];
          deletion_timestamp = none;
          owner_references = [];
        };
        cluster_name = cluster_name_of sc.owner_machine;
        pool_ref = pool;
        address_ref = "";
      }

  create_ip_address_claim : IpAddressClaim → Exec IpAddressClaim
  create_ip_address_claim claim = do
    m ← gets (λ s. s.machine)
    meta ← lift (e.set_controller_reference m.meta claim.meta)
    let claim' = record claim { meta = meta }
    ask (Call.create_claim claim') (λ t. e.create_claim t claim')

  -- The cases of ensureIPAddressClaim after the claim was looked for.
  ensure_found :
      Scope
      → Hardware
      → String
      → IpPoolReference
      → TinkerbellMachine
      → Result IpAddressClaim
      → Exec IpAddressClaim
  unfolding create_ip_address_claim new_ip_address_claim ensure_ipam_annotations claim_matches
  ensure_found sc hw mac pool m (err x) =
      if is_not_found x
      then create_ip_address_claim (new_ip_address_claim sc m hw mac pool)
      else raise x
  ensure_found sc hw mac pool m (ok claim) =
      if is_set claim.meta.deletion_timestamp
      then pure claim
      else (if claim_matches m hw claim
          then ensure_ipam_annotations claim hw mac
          else (set_claimed_condition condition_false claim_invalid >> raise claim_conflict))

  unfoldable pub ensure_ip_address_claim :
      Scope → Hardware → String → IpPoolReference → Exec IpAddressClaim
  unfolding ensure_found get_ip_address_claim
  ensure_ip_address_claim sc hw mac pool = do
    found ← attempt (get_ip_address_claim pool)
    m ← gets (λ s. s.machine)
    ensure_found sc hw mac pool m found
