-- ===== src/Examples/Ownership.antt =====
-- The theorems on claiming and releasing a Hardware, and on its reservation, at concrete objects.
use cluster_api_provider_tin.Prelude.{
  ◌≡◌, refl, ◌≢◌, ◌⊎◌, inl, ◌↔◌, true, none, some, ◌∷◌, arith, lookup, eq_iff,
}
use cluster_api_provider_tin.Objects.{NetworkInterface}
use cluster_api_provider_tin.Kube.{
  ok, err, hardware_claim_requeue, Call, ipv4_family, HardwareAddress,
}
use cluster_api_provider_tin.Machine.Interfaces.{interface_key}
use cluster_api_provider_tin.Machine.Reservation.{
  reserve, interface_at, set_interface, clear_hardware_address, hardware_address_from_ip_address,
}
use cluster_api_provider_tin.Machine.Reservation.Translation.{Translates, hardware_address_iff}
use cluster_api_provider_tin.Machine.Reservation.RoundTrip.{clear-reserve}
use cluster_api_provider_tin.Machine.Ownership.{claim, take_hardware_ownership, released}
use cluster_api_provider_tin.Machine.Ownership.Claimed.{
  IsClaimable, take_hardware_ownership-Sends, take_hardware_ownership_excludes,
}
use cluster_api_provider_tin.Machine.Ownership.Released.{IsReleased, released-IsReleased}
use cluster_api_provider_tin.Examples.World.{
  world, world-FinalizerLaws, machine_named, server_a, start, address,
}

take_hardware_ownership-Sends_example :
    ((take_hardware_ownership world server_a start).1 ≡ start)
    ⊎ (((take_hardware_ownership world server_a start).1 ≡ record start {
      trace = Call.patch_hardware server_a (claim world start.machine server_a) true ∷ start.trace;
    })
        × IsClaimable start.machine server_a)
take_hardware_ownership-Sends_example = take_hardware_ownership-Sends world server_a start

m1≢m2 : start.machine.meta.name ≢ (machine_named "m2").meta.name
m1≢m2 p = ground (arith, eq_iff "m1" "m2")

take_hardware_ownership_excludes_example :
    take_hardware_ownership world (claim world (machine_named "m2") server_a) start
    ≡ (err hardware_claim_requeue, start)
take_hardware_ownership_excludes_example =
    take_hardware_ownership_excludes world (machine_named "m2") server_a start (inl m1≢m2)

released-IsReleased_example :
    IsReleased world (released world server_a (some ("02:00:00:00:00:01", none)))
released-IsReleased_example =
    released-IsReleased world server_a (some ("02:00:00:00:00:01", none)) world-FinalizerLaws

abbrev reservation : HardwareAddress
reservation = record {
  family = ipv4_family;
  address = "10.0.0.9";
  prefix = "24";
  gateway = "10.0.0.254";
}

abbrev first_interface : NetworkInterface
first_interface = interface_at server_a "02:00:00:00:00:01"

key_found : interface_key server_a.network_interfaces "02:00:00:00:00:01" ≡ some "02:00:00:00:00:01"
unfolding interface_key lookup
key_found = refl

clear-reserve_example :
    clear_hardware_address
      (set_interface server_a "02:00:00:00:00:01" (reserve reservation first_interface))
      "02:00:00:00:00:01"
      (some reservation.family)
    ≡ clear_hardware_address server_a "02:00:00:00:00:01" (some reservation.family)
clear-reserve_example =
    clear-reserve server_a "02:00:00:00:00:01" "02:00:00:00:00:01" reservation key_found

hardware_address_iff_example :
    (hardware_address_from_ip_address world address ≡ ok reservation)
    ↔ Translates address address.prefix (world.parse_addr address.address) reservation
hardware_address_iff_example = hardware_address_iff world address reservation
