-- ===== src/Machine/Interfaces.antt =====
-- controller/machine/hardware.go and ipam.go: which interface of a Hardware is the primary one,
-- and what the controller reads off a Hardware. `none` of a key stands for `"", false`.
pub mod Keys
pub mod Order
use cluster_api_provider_tin.Prelude.{
  String, Bool, true, false, ◌&&◌, ◌||◌, not, Option, none, some, List, [], ◌∷◌, map, ◌==◌, str_lt,
  to_lower, equal_fold, lookup, is_set, sort_by, if◌then◌else◌,
}
use cluster_api_provider_tin.Objects.{Hardware, NetworkInterface, Ip, Ipam, Instance, BmcSpec}
use cluster_api_provider_tin.Kube.{
  Env, Error, Result, ok, err, hardware_missing_interfaces, hardware_not_dhcp, hardware_missing_ip,
  interface_missing_mac,
}

abbrev pub Interfaces : Type 0
Interfaces = List (String × NetworkInterface)

-- conversion.AnnotationV1Alpha1
abbrev pub annotation_v1alpha1 : String
annotation_v1alpha1 = "conversion.tinkerbell.org/v1alpha1"

-- The loop of `interfaceKey`.
unfoldable pub find_fold : String → Interfaces → Option String
unfolding to_lower
find_fold mac [] = none
find_fold mac ((key, _) ∷ m) = if equal_fold key mac then some key else find_fold mac m

unfoldable pub interface_key : Interfaces → String → Option String
unfolding find_fold lookup
interface_key m mac =
    if mac == "" then none else if is_set (lookup mac m) then some mac else find_fold mac m

-- The loop of `v1alpha1PrimaryInterface`, over the MACs of the v1alpha1 interfaces; one without
-- DHCP has none.
first_key : Interfaces → List (Option String) → Option String
first_key m [] = none
first_key m (none ∷ macs) = first_key m macs
first_key m (some mac ∷ macs) =
    let rest = first_key m macs in elim (interface_key m mac) [ some key ↦ some key | none ↦ rest ]

abbrev first_key_of : Interfaces → Option (List (Option String)) → Option String
first_key_of m none = none
first_key_of m (some macs) = first_key m macs

v1alpha1_primary_interface : Env → Hardware → Option String
unfolding first_key
v1alpha1_primary_interface e hw =
    if is_set (lookup annotation_v1alpha1 hw.meta.annotations)
    then first_key_of hw.network_interfaces (e.v1_interface_macs hw)
    else none

keys : Interfaces → List String
keys m = map (λ kv. kv.0) m

-- `slices.Sorted(maps.Keys(m))[0]`; an empty map, which the caller excludes, gives the error.
abbrev first_of_keys : List String → Result String
first_of_keys [] = err hardware_missing_interfaces
first_of_keys (k ∷ _) = ok k

lowest_key : Interfaces → Result String
unfolding keys str_lt sort_by
lowest_key m = first_of_keys (sort_by str_lt (keys m))

abbrev or_key : Option String → Result String → Result String
or_key (some key) r = ok key
or_key none r = r

abbrev is_empty : Interfaces → Bool
is_empty [] = true
is_empty (_ ∷ _) = false

-- The `hw == nil` case is the caller's: `hardware` below is `none` there.
unfoldable pub primary_interface : Env → Hardware → Result String
unfolding v1alpha1_primary_interface lowest_key interface_key
primary_interface e hw =
    if is_empty hw.network_interfaces
    then err hardware_missing_interfaces
    else or_key (v1alpha1_primary_interface e hw) (
        or_key (interface_key hw.network_interfaces hw.agent_id) (lowest_key hw.network_interfaces))

abbrev with_mac : Result String → Result String
with_mac (err x) = err x
with_mac (ok mac) = if mac == "" then err interface_missing_mac else ok (to_lower mac)

unfoldable pub primary_interface_mac : Env → Hardware → Result String
unfolding primary_interface
primary_interface_mac e hw = with_mac (primary_interface e hw)

abbrev has_address : Option Ip → Bool
has_address none = false
has_address (some ip) = not (ip.address == "")

abbrev address_or : Option Ip → Result String → Result String
address_or none r = r
address_or (some ip) r = if ip.address == "" then r else ok ip.address

abbrev ipam_address : Option Ipam → Result String
ipam_address none = err hardware_not_dhcp
ipam_address (some ipam) =
    if is_set ipam.ipv4 || is_set ipam.ipv6
    then address_or ipam.ipv4 (address_or ipam.ipv6 (err hardware_missing_ip))
    else err hardware_not_dhcp

-- A missing key of a map of interfaces is the zero interface, which has no IPAM configuration.
abbrev ipam_of : Option NetworkInterface → Option Ipam
ipam_of none = none
ipam_of (some ni) = ni.ipam

abbrev interface_ip : Interfaces → Result String → Result String
interface_ip m (err x) = err x
interface_ip m (ok mac) = ipam_address (ipam_of (lookup mac m))

unfoldable pub hardware_ip : Env → Hardware → Result String
unfolding primary_interface lookup
hardware_ip e hw = interface_ip hw.network_interfaces (primary_interface e hw)

abbrev lookup_id_of : Option Instance → String
lookup_id_of none = ""
lookup_id_of (some i) = i.lookup_id

-- `cmp.Or(lookupID, agentID)`
unfoldable pub hardware_lookup_id : Hardware → String
hardware_lookup_id hw =
    if lookup_id_of hw.instance_spec == "" then hw.agent_id else lookup_id_of hw.instance_spec

abbrev has_connection : Option BmcSpec → Bool
has_connection none = false
has_connection (some b) = is_set b.connection

abbrev names_bmc : Option String → Bool
names_bmc none = false
names_bmc (some name) = not (name == "")

-- `hasBMC` of a Hardware that is not nil.
unfoldable pub has_bmc : Env → Hardware → Bool
has_bmc e hw = has_connection hw.bmc || names_bmc (e.v1_bmc_ref hw)

abbrev pub userdata_of : Option Instance → Option String
userdata_of none = none
userdata_of (some i) = i.userdata

unfoldable pub hardware_user_data : Hardware → Option String
hardware_user_data hw = userdata_of hw.instance_spec
