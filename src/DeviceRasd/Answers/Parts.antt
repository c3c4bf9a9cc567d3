-- ===== src/DeviceRasd/Answers/Parts.antt =====
-- The converters fault only on a null value of an address, or on a class without a prefix.
use libvirt_cim.Prelude.{
  Bool, false, ◌||◌, ◌&&◌, ◌==◌, ℕ, Option, none, some, List, [], ◌∷◌, ◌++◌, Bytes, codes, ◌>>=?◌,
  Bool-cases, inl, inr,
}
use libvirt_cim.MiscUtil.{class_prefix_name}
use libvirt_cim.Device.{
  Address, DiskDevice, no_disk, NetDevice, no_net, ControllerDevice, VirtDevice,
}
use libvirt_cim.Resources.Distinct.{Given}
use libvirt_cim.DeviceRasd.{
  Instance, Service, Made, or_else, count, add_properties, from_arrays, rasd_to_device_address,
}
use libvirt_cim.DeviceRasd.Disk.{
  is_unknown, with_device, addressed, with_properties, finished, started_disk, targeted,
}
use libvirt_cim.DeviceRasd.Net.{
  net_properties, addressed_net, finished_net, with_source, direct_port, asked_vsi, in_network,
  from_pool, typed_net, mac_with, net_rand_mac, with_mac, asked_mac, net_of_class,
  name_from_pool_id,
}
use libvirt_cim.DeviceRasd.Controller.{
  addressed_controller, controller_made, controller_name, controller_properties, index_of,
  controller_in,
}
use libvirt_cim.Device.{ConsoleDevice}
use libvirt_cim.DeviceRasd.Dispatch.{console_made}

-- no null value
abbrev AllGiven : List (Option Bytes) → Type 0
AllGiven [] = Unit
AllGiven (none ∷ values) = ⊥
AllGiven (some v ∷ values) = AllGiven values

abbrev ValuesGiven : Option (List (Option Bytes)) → Type 0
ValuesGiven none = Unit
ValuesGiven (some values) = AllGiven values

-- A resource with no null among the values of its address.
abbrev pub Readable : Instance → Type 0
Readable inst = ValuesGiven (inst.array_prop (codes "AddressValues"))

properties_given :
    (keys values : List (Option Bytes)) (addr : Address)
    → AllGiven values
    → Given (add_properties keys values addr)
unfolding add_properties
properties_given [] values addr h = tt
properties_given (none ∷ keys) [] addr h = tt
properties_given (some key ∷ keys) [] addr h = tt
properties_given (none ∷ keys) (none ∷ values) addr h = absurd h
properties_given (none ∷ keys) (some v ∷ values) addr h = properties_given keys values addr h
properties_given (some key ∷ keys) (none ∷ values) addr h = absurd h
properties_given (some key ∷ keys) (some v ∷ values) addr h =
    properties_given keys values (addr ++ ((key, v) ∷ [])) h

arrays_given :
    (keys values : Option (List (Option Bytes))) (addr : Address)
    → ValuesGiven values
    → Given (from_arrays keys values addr)
arrays_given none values addr h = tt
arrays_given (some keys) none addr h = tt
arrays_given (some keys) (some values) addr h = elim (Bool-cases (count keys == count values)) [
  | inl e ↦ rw e (properties_given keys values addr h)
  | inr e ↦ rw e tt
]

module _ (inst : Instance) (readable : Readable inst) where
  address_given : (addr : Address) → Given (rasd_to_device_address inst addr)
  unfolding rasd_to_device_address
  address_given addr =
      arrays_given (inst.array_prop (codes "AddressProperties"))
        (inst.array_prop (codes "AddressValues")) addr readable

  module _ (sv : Service) where
    disk_addressed :
        (target : Bytes) (d : DiskDevice) (r : Option (Bool × Address))
        → Given r
        → Given (addressed sv.streq target d r)
    disk_addressed target d none g = absurd g
    disk_addressed target d (some (ok, addr)) g = tt

    disk_finished :
        (target : Bytes) (started : DiskDevice) (o : Option DiskDevice)
        → Given (finished sv.streq inst target started o)
    disk_finished target started none = tt
    disk_finished target started (some d) =
        disk_addressed target (with_properties sv.streq inst d) (rasd_to_device_address inst [])
          (address_given [])

    disk_started :
        (type : ℕ) (target source : Bytes) (d : DiskDevice)
        → Given (started_disk sv.streq inst type target source d)
    disk_started type target source d =
        elim (Bool-cases ((type == 0 || type == 3 || type == 4) && is_unknown d.disk_type)) [
          | inl e ↦ rw e tt
          | inr e ↦ rw e (disk_finished target d (with_device sv.streq type source d))
        ]

    pub disk_given :
        (dev : VirtDevice) (o : Option Bytes)
        → Given {A = Bool × VirtDevice} (elim o [
          | none ↦ some (false, dev)
          | some target ↦
              targeted sv.streq sv.file_type inst target
                (or_else (codes "/dev/null") (inst.str_prop (codes "Address")))
        ])
    disk_given dev none = tt
    disk_given dev (some target) =
        let source : Bytes = or_else (codes "/dev/null") (inst.str_prop (codes "Address")) in
        disk_started (or_else 0 (inst.u16_prop (codes "EmulatedType"))) target source
          (record no_disk {
            virtual_dev = some target;
            source = some source;
            disk_type = sv.file_type source;
          })

    net_addressed :
        (n : NetDevice) (r : Option (Bool × Address)) → Given r → Given (addressed_net n r)
    net_addressed n none g = absurd g
    net_addressed n (some (ok, addr)) g = tt

    net_finished : (n : NetDevice) → Given (finished_net sv inst n)
    unfolding finished_net
    net_finished n =
        net_addressed (net_properties sv inst n) (rasd_to_device_address inst []) (address_given [])

    net_source :
        (rest : NetDevice → Made) (n : NetDevice) (o : Option Bytes)
        → ((m : NetDevice) → Given (rest m))
        → Given (with_source sv inst rest n o)
    net_source rest n none h = tt
    net_source rest n (some []) h = tt
    net_source rest n (some (c ∷ s)) h = h (record n { source = some (c ∷ s) })

    net_network : (n : NetDevice) (o : Option Bytes) → Given (in_network sv inst n o)
    net_network n none = tt
    net_network n (some network) = net_finished (record n { source = some network })

    net_pool : (n : NetDevice) (o : Option Bytes) → Given (from_pool sv inst n o)
    net_pool n none = net_network n (sv.default_network >>=? name_from_pool_id)
    net_pool n (some poolid) = net_network n (name_from_pool_id poolid)

    net_direct : (n : NetDevice) → Given (direct_port sv inst n)
    unfolding direct_port
    net_direct n = net_finished (record n { vsi = asked_vsi sv inst })

    net_typed : (n : NetDevice) (o : Option Bytes) → Given (typed_net sv inst n o)
    unfolding typed_net
    net_typed n none = tt
    net_typed n (some val) = elim (Bool-cases (sv.streqc val (codes "bridge"))) [
      | inl a ↦ rw a (
          net_source (finished_net sv inst) (record n { type = some (codes "bridge") })
            (inst.str_prop (codes "NetworkName")) net_finished)
      | inr a ↦ elim (Bool-cases (sv.streqc val (codes "network"))) [
        | inl b ↦
            rw (a, b)
              (net_pool (record n { type = some (codes "network") })
                (inst.str_prop (codes "PoolID")))
        | inr b ↦ elim (Bool-cases (sv.streqc val (codes "user"))) [
          | inl c ↦ rw (a, b, c) (net_finished (record n { type = some (codes "user") }))
          | inr c ↦ elim (Bool-cases (sv.streqc val (codes "direct"))) [
            | inl d ↦
                rw (a, b, c, d)
                  (net_source (direct_port sv inst) (record n { type = some (codes "direct") })
                    (inst.str_prop (codes "SourceDevice")) net_direct)
            | inr d ↦ rw (a, b, c, d) tt
          ]
        ]
      ]
    ]

    net_mac :
        (dev : VirtDevice) (o : Option (Option Bytes))
        → Given o
        → Given (o >>=? with_mac sv inst dev)
    net_mac dev none g = absurd g
    net_mac dev (some none) g = tt
    net_mac dev (some (some mac)) g =
        net_typed (record no_net { mac = some mac }) (inst.str_prop (codes "NetworkType"))

    mac_random :
        (o : Option ℕ) (p : Option Bytes)
        → Given p
        → Given {A = Option Bytes} (elim o [ none ↦ some none | some r ↦ mac_with sv inst r p ])
    mac_random none p g = tt
    mac_random (some r) none g = absurd g
    mac_random (some r) (some pfx) g = tt

    mac_given :
        (cn : Bytes) (o : Option Bytes)
        → Given (class_prefix_name cn)
        → Given (asked_mac sv inst cn o)
    unfolding net_rand_mac
    mac_given cn none g = mac_random sv.random (class_prefix_name cn) g
    mac_given cn (some mac) g = tt

    pub net_given :
        (dev : VirtDevice) (cn : Bytes)
        → Given (class_prefix_name cn)
        → Given (net_of_class sv inst dev (some cn))
    net_given dev cn g =
        net_mac dev (asked_mac sv inst cn (inst.str_prop (codes "Address")))
          (mac_given cn (inst.str_prop (codes "Address")) g)

    controller_addressed :
        (dev : VirtDevice) (id : Bytes) (c : ControllerDevice) (r : Option (Bool × Address))
        → Given r
        → Given (addressed_controller dev id c r)
    controller_addressed dev id c none g = absurd g
    controller_addressed dev id c (some (ok, addr)) g = tt

    pub controller_given :
        (dev : VirtDevice) (o : Option Bytes) → Given (controller_made sv inst dev o)
    controller_given dev none = tt
    controller_given dev (some type_str) =
        let c : ControllerDevice = controller_in dev.dev in
        let (index, ending) = index_of (inst.u64_prop (codes "Index")) in
        controller_addressed dev (controller_name type_str ending)
          (controller_properties sv inst c type_str index) (rasd_to_device_address inst c.address)
          (address_given c.address)

    pub console_given : (dev : VirtDevice) (o : Option ConsoleDevice) → Given (console_made dev o)
    console_given dev none = tt
    console_given dev (some c) = tt
