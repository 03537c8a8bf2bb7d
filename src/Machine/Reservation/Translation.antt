-- ===== src/Machine/Reservation/Translation.antt =====
-- What the allocated IPAddress becomes.
use cluster_api_provider_tin.Prelude.{◌≤◌, String, ◌≡◌, ◌↔◌, Option, none, some, arith, itoa}
use cluster_api_provider_tin.Objects.{IpAddress, Int32, nonneg, negative}
use cluster_api_provider_tin.Kube.{Env, ok, Family, ipv4_family, ipv6_family, HardwareAddress}
use cluster_api_provider_tin.Machine.Reservation.{
  family_bits, prefixed, hardware_address_from_ip_address,
}

-- The prefix text that v1alpha2 stores for an allocated prefix: the decimal numeral of a length
-- that fits the family, or nothing, which only an IPv6 reservation may leave out.
abbrev pub IsPrefixText : Family → Option Int32 → String → Type 0
IsPrefixText ipv4_family none s = ⊥
IsPrefixText ipv6_family none s = s ≡ ""
IsPrefixText f (some (negative n)) s = ⊥
IsPrefixText f (some (nonneg n)) s = (n ≤ family_bits f) × (s ≡ itoa n)

-- The reservation that an IPAddress stands for, given its prefix and the family of its address.
abbrev pub Translates : IpAddress → Option Int32 → Option Family → HardwareAddress → Type 0
Translates addr p none a = ⊥
Translates addr p (some f) a =
    (a.family ≡ f)
    × (a.address ≡ addr.address)
    × (a.gateway ≡ addr.gateway)
    × IsPrefixText f p a.prefix

prefixed_iff :
    (addr : IpAddress) (p : Option Int32) (f : Option Family) (a : HardwareAddress)
    → (prefixed addr p f ≡ ok a) ↔ Translates addr p f a
unfolding prefixed
prefixed_iff addr p none a = ground arith
prefixed_iff addr none (some ipv4_family) a = ground arith
prefixed_iff addr none (some ipv6_family) a = ground arith
prefixed_iff addr (some (negative n)) (some ipv4_family) a = ground arith
prefixed_iff addr (some (negative n)) (some ipv6_family) a = ground arith
prefixed_iff addr (some (nonneg n)) (some ipv4_family) a = ground arith
prefixed_iff addr (some (nonneg n)) (some ipv6_family) a = ground arith

-- An IPAddress is translated exactly to the reservation that it stands for: the family that its
-- address parses to, its address and gateway unchanged, and a prefix text that fits the family,
-- which IPv4 must have. An address that does not parse, a prefix below 0 or above the family's
-- bits, and an IPv4 address without a prefix have no translation.
pub hardware_address_iff :
    (e : Env) (addr : IpAddress) (a : HardwareAddress)
    → (hardware_address_from_ip_address e addr ≡ ok a)
      ↔ Translates addr addr.prefix (e.parse_addr addr.address) a
unfolding hardware_address_from_ip_address
hardware_address_iff e addr a = prefixed_iff addr addr.prefix (e.parse_addr addr.address) a
