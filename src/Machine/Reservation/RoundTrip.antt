-- ===== src/Machine/Reservation/RoundTrip.antt =====
-- Reserving an address and clearing it again.
use cluster_api_provider_tin.Prelude.{
  String, ◌≡◌, ◌≢◌, insert-insert, insert-lookup, sym, ◌∙◌, true, false, Option, some, arith,
  eq_refl, lookup, lookup-insert, is_set,
}
use cluster_api_provider_tin.Objects.{Hardware, NetworkInterface}
use cluster_api_provider_tin.Kube.{Family, HardwareAddress}
use cluster_api_provider_tin.Machine.Interfaces.{interface_key}
use cluster_api_provider_tin.Machine.Interfaces.Keys.{interface_key_present, interface_key-insert}
use cluster_api_provider_tin.Machine.Reservation.{
  interface_address, held_by, reserve, clear, interface_at, set_interface, clear_hardware_address,
}

-- A reservation is held by the interface on which it is made, which keeps what is not its address,
-- and its address of the other family.
reserve_frame :
    (a : HardwareAddress) (ni : NetworkInterface) (f : Family)
    → f ≢ a.family
    → ((reserve a ni).other ≡ ni.other)
      × (held_by a (interface_address (reserve a ni) a.family) ≡ true)
      × (interface_address (reserve a ni) f ≡ interface_address ni f)
unfolding reserve held_by
reserve_frame a ni f other = ground (arith, eq_refl a.address, eq_refl a.prefix, eq_refl a.gateway)

clear-reserve_interface :
    (a : HardwareAddress) (ni : NetworkInterface)
    → clear (reserve a ni) (some a.family) ≡ clear ni (some a.family)
unfolding reserve clear
clear-reserve_interface a ni = ground arith

interface_at-set_interface :
    (hw : Hardware) (key : String) (ni : NetworkInterface)
    → interface_at (set_interface hw key ni) key ≡ ni
unfolding set_interface
interface_at-set_interface hw key ni =
    rw (lookup-insert key key ni hw.network_interfaces) (ground (arith, eq_refl key))

clear_same : (ni : NetworkInterface) (f : Option Family) → is_set ni.ipam ≡ false → clear ni f ≡ ni
unfolding clear
clear_same ni f h = ground arith

set_interface_same :
    (hw : Hardware) (key : String)
    → is_set (lookup key hw.network_interfaces) ≡ true
    → set_interface hw key (interface_at hw key) ≡ hw
unfolding set_interface
set_interface_same hw key h =
    ground (arith, insert-lookup key (interface_at hw key) hw.network_interfaces)

clear_hardware_address_lem :
    (hw : Hardware) (mac key : String) (f : Option Family)
    → interface_key hw.network_interfaces mac ≡ some key
    → clear_hardware_address hw mac f ≡ set_interface hw key (clear (interface_at hw key) f)
unfolding clear_hardware_address
clear_hardware_address_lem hw mac key f h = rw h (
    ground (
      arith,
      clear_same (interface_at hw key) f,
      set_interface_same hw key (interface_key_present hw.network_interfaces mac key h),
    ))

set_interface-set_interface :
    (hw : Hardware) (key : String) (ni ni' : NetworkInterface)
    → set_interface (set_interface hw key ni) key ni' ≡ set_interface hw key ni'
unfolding set_interface
set_interface-set_interface hw key ni ni' = rw (insert-insert key ni' ni hw.network_interfaces)

interface_key-set_interface :
    (hw : Hardware) (mac key : String) (ni : NetworkInterface)
    → interface_key hw.network_interfaces mac ≡ some key
    → interface_key (set_interface hw key ni).network_interfaces mac ≡ some key
unfolding set_interface
interface_key-set_interface hw mac key ni h =
    interface_key-insert hw.network_interfaces mac key ni h

-- Reserving an address on the interface that a MAC names, and then clearing the MAC's reservation
-- of that family, gives the same Hardware as clearing it without the reservation.
pub clear-reserve :
    (hw : Hardware) (mac key : String) (a : HardwareAddress)
    → interface_key hw.network_interfaces mac ≡ some key
    → clear_hardware_address
        (set_interface hw key (reserve a (interface_at hw key)))
        mac
        (some a.family)
      ≡ clear_hardware_address hw mac (some a.family)
clear-reserve hw mac key a h =
    let reserved = reserve a (interface_at hw key) in
    let f = some a.family in
    clear_hardware_address_lem (set_interface hw key reserved) mac key f
      (interface_key-set_interface hw mac key reserved h)
    ∙ rw
        (
          interface_at-set_interface hw key reserved,
          set_interface-set_interface hw key reserved (clear reserved f),
          clear-reserve_interface a (interface_at hw key),
        )
        (sym (clear_hardware_address_lem hw mac key f h))
