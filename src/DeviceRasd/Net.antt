-- ===== src/DeviceRasd/Net.antt =====
-- net_rasd_to_vdev and _net_rand_mac, and name_from_pool_id in src/Virt_DevicePool.c.
use libvirt_cim.Prelude.{
  ℕ, ◌+◌, ◌-◌, ◌/◌, ◌%◌, Bool, false, Option, none, some, [], ◌∷◌, ◌++◌, Bytes, codes,
  if◌then◌else◌, ◌==◌, ltb, ◌>>=?◌,
}
use libvirt_cim.MiscUtil.{class_prefix_name}
use libvirt_cim.Device.{all, NetDevice, no_net, net_dev, VsiDevice, VirtDevice, Address}
use libvirt_cim.DeviceRasd.{Instance, Service, Made, or_else, rasd_to_device_address}

-- what follows the first `/`
unfoldable pub name_from_pool_id : Bytes → Option Bytes
name_from_pool_id [] = none
name_from_pool_id (c ∷ s) = if c == b'/' then some s else name_from_pool_id s

abbrev pub hex_digit : ℕ → ℕ
hex_digit d = if ltb d 10 then b'0' + d else b'a' + (d - 10)

-- "%02x" of a byte
abbrev pub hex_byte : ℕ → Bytes
hex_byte b = hex_digit (b / 16) ∷ hex_digit (b % 16) ∷ []

-- the three low bytes of the random number, the lowest first
abbrev pub mac_of : Bytes → ℕ → Bytes
mac_of mac_prefix r =
    mac_prefix
    ++ (b':' ∷ hex_byte (r % 256)
        ++ (b':' ∷ hex_byte (r / 256 % 256) ++ (b':' ∷ hex_byte (r / 65536 % 256))))

-- with the fields that the device has so far, its MAC address as the id
abbrev pub interface : NetDevice → VirtDevice
interface n = record { type = all; dev = net_dev n; id = n.mac }

abbrev pub refused : NetDevice → Made
refused n = some (false, interface n)

abbrev pub addressed_net : NetDevice → Option (Bool × Address) → Made
addressed_net n none = none
addressed_net n (some (ok, addr)) = some (ok, interface (record n { address = addr }))

module _ (sv : Service) (inst : Instance) where
  open sv use {streq, streqc, random, default_network}

  -- A class name with no prefix is NULL, which is compared.
  abbrev pub mac_with : ℕ → Option Bytes → Option (Option Bytes)
  mac_with r none = none
  mac_with r (some cn_prefix) = some (
      some
        (mac_of (if streq cn_prefix (codes "KVM") then codes "00:1A:4A" else codes "00:16:3e") r))

  unfoldable pub net_rand_mac : Bytes → Option (Option Bytes)
  net_rand_mac class_name = elim random [
    | none ↦ some none
    | some r ↦ mac_with r (class_prefix_name class_name)
  ]

  -- the properties that may be left out
  abbrev pub net_properties : NetDevice → NetDevice
  net_properties n = record n {
    device = inst.str_prop (codes "VirtualDevice");
    net_mode = inst.str_prop (codes "NetworkMode");
    model = inst.str_prop (codes "ResourceSubType");
    reservation = or_else 0 (inst.u64_prop (codes "Reservation"));
    limit = or_else 0 (inst.u64_prop (codes "Limit"));
  }

  unfoldable pub finished_net : NetDevice → Made
  finished_net n = addressed_net (net_properties n) (rasd_to_device_address inst [])

  -- a name that has to be there and not be empty
  abbrev pub with_source : (NetDevice → Made) → NetDevice → Option Bytes → Made
  with_source rest n none = refused n
  with_source rest n (some []) = refused n
  with_source rest n (some (c ∷ s)) = rest (record n { source = some (c ∷ s) })

  abbrev pub asked_vsi : VsiDevice
  asked_vsi = record {
    vsi_type = inst.str_prop (codes "VSIType");
    manager_id = inst.str_prop (codes "VSIManagerID");
    type_id = inst.str_prop (codes "VSITypeID");
    type_id_version = inst.str_prop (codes "VSITypeIDVersion");
    instance_id = inst.str_prop (codes "VSIInstanceID");
    filter_ref = inst.str_prop (codes "FilterRef");
    profile_id = inst.str_prop (codes "ProfileID");
  }

  unfoldable pub direct_port : NetDevice → Made
  direct_port n = finished_net (record n { vsi = asked_vsi })

  abbrev pub in_network : NetDevice → Option Bytes → Made
  in_network n none = refused n
  in_network n (some network) = finished_net (record n { source = some network })

  -- the pool that is asked for, or the default one
  abbrev pub from_pool : NetDevice → Option Bytes → Made
  from_pool n (some poolid) = in_network n (name_from_pool_id poolid)
  from_pool n none = in_network n (default_network >>=? name_from_pool_id)

  unfoldable pub typed_net : NetDevice → Option Bytes → Made
  typed_net n none = refused n
  typed_net n (some val) =
      if streqc val (codes "bridge")
      then with_source finished_net (record n { type = some (codes "bridge") })
          (inst.str_prop (codes "NetworkName"))
      else if streqc val (codes "network")
      then from_pool (record n { type = some (codes "network") }) (inst.str_prop (codes "PoolID"))
      else if streqc val (codes "user")
      then finished_net (record n { type = some (codes "user") })
      else if streqc val (codes "direct")
      then with_source direct_port (record n { type = some (codes "direct") })
          (inst.str_prop (codes "SourceDevice"))
      else refused n

  -- the old device is cleared once there is a MAC address
  abbrev pub with_mac : VirtDevice → Option Bytes → Made
  with_mac dev none = some (false, dev)
  with_mac dev (some mac) =
      typed_net (record no_net { mac = some mac }) (inst.str_prop (codes "NetworkType"))

  abbrev pub asked_mac : Bytes → Option Bytes → Option (Option Bytes)
  asked_mac class_name none = net_rand_mac class_name
  asked_mac class_name (some mac) = some (some mac)

  abbrev pub net_of_class : VirtDevice → Option Bytes → Made
  net_of_class dev none = some (false, dev)
  net_of_class dev (some class_name) =
      asked_mac class_name (inst.str_prop (codes "Address")) >>=? with_mac dev

  unfoldable pub net_rasd_to_vdev : VirtDevice → Made
  net_rasd_to_vdev dev = net_of_class dev inst.class_name
