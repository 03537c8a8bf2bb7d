-- ===== src/Machine/Reservation.antt =====
-- controller/machine/ipam.go: the reservation that an allocated address becomes on a Hardware
-- interface, and its removal.
pub mod RoundTrip
pub mod Translation
use cluster_api_provider_tin.Prelude.{
  ℕ, String, Bool, true, false, ◌&&◌, Option, none, some, List, [], ◌∷◌, ◌==◌, lookup, insert, itoa,
  ltb, is_set, if◌then◌else◌,
}
use cluster_api_provider_tin.Objects.{
  Hardware, NetworkInterface, Ip, Ipam, IpAddress, Int32, nonneg, negative,
}
use cluster_api_provider_tin.Kube.{
  Env, Error, Result, ok, err, bad_address, missing_prefix, bad_prefix, Family, ipv4_family,
  ipv6_family, HardwareAddress,
}
use cluster_api_provider_tin.Machine.Interfaces.{interface_key}

abbrev pub family_bits : Family → ℕ
family_bits ipv4_family = 32
family_bits ipv6_family = 128

unfoldable pub prefix_length : Int32 → Family → Result String
prefix_length (negative n) family = err bad_prefix
prefix_length (nonneg n) family = if ltb (family_bits family) n then err bad_prefix else ok (itoa n)

abbrev with_prefix : IpAddress → Family → Result String → Result HardwareAddress
with_prefix addr family (err x) = err x
with_prefix addr family (ok p) =
    ok (record { family = family; address = addr.address; prefix = p; gateway = addr.gateway })

abbrev without_prefix : IpAddress → Family → Result HardwareAddress
without_prefix addr ipv4_family = err missing_prefix
without_prefix addr ipv6_family = with_prefix addr ipv6_family (ok "")

prefixed : IpAddress → Option Int32 → Option Family → Result HardwareAddress
unfolding prefix_length
prefixed addr prefix none = err bad_address
prefixed addr none (some family) = without_prefix addr family
prefixed addr (some p) (some family) = with_prefix addr family (prefix_length p family)

unfoldable pub hardware_address_from_ip_address : Env → IpAddress → Result HardwareAddress
unfolding prefixed
hardware_address_from_ip_address e addr = prefixed addr addr.prefix (e.parse_addr addr.address)

abbrev ipam_family : Option Ipam → Family → Option Ip
ipam_family none family = none
ipam_family (some ipam) ipv6_family = ipam.ipv6
ipam_family (some ipam) ipv4_family = ipam.ipv4

unfoldable pub interface_address : NetworkInterface → Family → Option Ip
interface_address ni family = ipam_family ni.ipam family

unfoldable pub held_by : HardwareAddress → Option Ip → Bool
held_by addr none = false
held_by addr (some ip) =
    (ip.address == addr.address) && (ip.prefix == addr.prefix) && (ip.gateway == addr.gateway)

abbrev pub empty_ip : Ip
empty_ip = record { address = ""; prefix = ""; gateway = ""; other = [] }

abbrev ipam_or_empty : Option Ipam → Ipam
ipam_or_empty none = record { ipv4 = none; ipv6 = none }
ipam_or_empty (some ipam) = ipam

abbrev ip_or_empty : Option Ip → Ip
ip_or_empty none = empty_ip
ip_or_empty (some ip) = ip

abbrev set_family : Ipam → Family → Option Ip → Ipam
set_family ipam ipv6_family ip = record ipam { ipv6 = ip }
set_family ipam ipv4_family ip = record ipam { ipv4 = ip }

-- The writes of `ensureHardwareAddress` to the interface.
unfoldable pub reserve : HardwareAddress → NetworkInterface → NetworkInterface
unfolding interface_address
reserve addr ni =
    let current = ip_or_empty (interface_address ni addr.family) in
    let ip = record current {
      address = addr.address;
      prefix = addr.prefix;
      gateway = addr.gateway;
    } in
    record ni { ipam = some (set_family (ipam_or_empty ni.ipam) addr.family (some ip)) }

abbrev no_fields : List (String × String) → Bool
no_fields [] = true
no_fields (_ ∷ _) = false

unfoldable pub without_address : Option Ip → Option Ip
without_address none = none
without_address (some ip) =
    if no_fields ip.other
    then none
    else some (record ip { address = ""; prefix = ""; gateway = "" })

-- The family is `none` where the source passes 0.
abbrev is_family : Option Family → Family → Bool
is_family (some ipv4_family) ipv4_family = true
is_family (some ipv6_family) ipv6_family = true
is_family _ _ = false

abbrev or_no_ipam : Ipam → Option Ipam
or_no_ipam ipam =
    if is_set ipam.ipv4 then some ipam else if is_set ipam.ipv6 then some ipam else none

clear_ipam : Ipam → Option Family → Option Ipam
unfolding without_address
clear_ipam ipam family = or_no_ipam (record {
  ipv4 = if is_family family ipv6_family then ipam.ipv4 else without_address ipam.ipv4;
  ipv6 = if is_family family ipv4_family then ipam.ipv6 else without_address ipam.ipv6;
})

clear_option : Option Ipam → Option Family → Option Ipam
unfolding clear_ipam
clear_option none family = none
clear_option (some ipam) family = clear_ipam ipam family

-- The writes of `clearHardwareAddress` to the interface.
unfoldable pub clear : NetworkInterface → Option Family → NetworkInterface
unfolding clear_option
clear ni family = record ni { ipam = clear_option ni.ipam family }

abbrev pub empty_interface : NetworkInterface
empty_interface = record { ipam = none; other = [] }

-- `m[key]` of the map of interfaces.
abbrev pub interface_or_empty : Option NetworkInterface → NetworkInterface
interface_or_empty none = empty_interface
interface_or_empty (some ni) = ni

abbrev pub interface_at : Hardware → String → NetworkInterface
interface_at hw key = interface_or_empty (lookup key hw.network_interfaces)

unfoldable pub set_interface : Hardware → String → NetworkInterface → Hardware
set_interface hw key ni = record hw { network_interfaces = insert key ni hw.network_interfaces }

abbrev clear_at : Hardware → Option Family → Option String → Hardware
clear_at hw family none = hw
clear_at hw family (some key) =
    if is_set (interface_at hw key).ipam
    then set_interface hw key (clear (interface_at hw key) family)
    else hw

unfoldable pub clear_hardware_address : Hardware → String → Option Family → Hardware
clear_hardware_address hw mac family = clear_at hw family (interface_key hw.network_interfaces mac)
