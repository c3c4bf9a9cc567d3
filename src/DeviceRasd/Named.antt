-- ===== src/DeviceRasd/Named.antt =====
-- What the device has that one of the converters makes without a message.
use libvirt_cim.Prelude.{
  ◌≡◌, sym, subst, Bool, true, false, ◌||◌, Option, none, some, [], ◌∷◌, Bytes, codes, ◌>>=?◌,
  Bool-cases, inl, inr,
}
use libvirt_cim.Device.{
  Address, DiskDevice, NetDevice, no_net, GraphicsDevice, ControllerDevice, VirtDevice,
}
use libvirt_cim.Resources.{
  Field, f_net, f_disk, f_vcpu, f_mem, f_graphics, f_console, f_input, f_controller,
}
use libvirt_cim.Resources.Distinct.{Given, Named}
use libvirt_cim.ConsoleUrl.{parse_console_address, parse_ip_address}
use libvirt_cim.DeviceRasd.{Instance, Service, Made, or_else, rasd_to_device_address}
use libvirt_cim.DeviceRasd.Disk.{disk_rasd_to_vdev, lxc_source, lxc_target, disk_in}
use libvirt_cim.DeviceRasd.Shaped.{disk_rasd_to_vdev-Shaped}
use libvirt_cim.DeviceRasd.Net.{
  net_properties, addressed_net, finished_net, asked_vsi, with_source, direct_port, in_network,
  from_pool, typed_net, with_mac, asked_mac, net_of_class, name_from_pool_id,
}
use libvirt_cim.DeviceRasd.Graphics.{
  vnc_made, serial_made, sdl_made, sdl_address, typed_graphics, default_vnc, graphics_made,
  graphics_in,
}
use libvirt_cim.DeviceRasd.Controller.{
  addressed_controller, controller_made, controller_name, controller_properties, index_of,
  controller_in,
}

-- what a device that is made without a message has
abbrev pub OkNamed : Field → Made → Type 0
OkNamed f none = Unit
OkNamed f (some (false, v)) = Unit
OkNamed f (some (true, v)) = Named f v

-- these lists ask for nothing
pub vcpu_named : (r : Made) → OkNamed f_vcpu r
vcpu_named none = tt
vcpu_named (some (true, v)) = (tt, tt)
vcpu_named (some (false, v)) = tt

pub mem_named : (r : Made) → OkNamed f_mem r
mem_named none = tt
mem_named (some (true, v)) = (tt, tt)
mem_named (some (false, v)) = tt

pub console_named : (r : Made) → OkNamed f_console r
console_named none = tt
console_named (some (true, v)) = (tt, tt)
console_named (some (false, v)) = tt

pub input_named : (r : Made) → OkNamed f_input r
input_named none = tt
input_named (some (true, v)) = (tt, tt)
input_named (some (false, v)) = tt

some_inj : (f g : Field) → Option.some f ≡ some g → f ≡ g
some_inj f g e = cc

lxc_source_named :
    (target : Bytes) (dev : VirtDevice) (d : DiskDevice) (o : Option Bytes)
    → Given d.virtual_dev
    → OkNamed f_disk (some (lxc_source o target dev d))
lxc_source_named target dev d none g = tt
lxc_source_named target dev d (some source) g = (tt, g)

pub at_field : (f g : Field) (r : Made) → Option.some f ≡ some g → OkNamed f r → OkNamed g r
at_field f g r e h = subst (λ x. OkNamed x r) (some_inj f g e) h

module _ (sv : Service) (inst : Instance) where
  addressed_named :
      (n : NetDevice) (r : Option (Bool × Address))
      → Given n.mac
      → OkNamed f_net (addressed_net n r)
  addressed_named n none g = tt
  addressed_named n (some (true, addr)) g = (g, tt)
  addressed_named n (some (false, addr)) g = tt

  finished_named : (n : NetDevice) → Given n.mac → OkNamed f_net (finished_net sv inst n)
  unfolding finished_net
  finished_named n g = addressed_named (net_properties sv inst n) (rasd_to_device_address inst []) g

  direct_named : (n : NetDevice) → Given n.mac → OkNamed f_net (direct_port sv inst n)
  unfolding direct_port
  direct_named n g = finished_named (record n { vsi = asked_vsi sv inst }) g

  source_named :
      (rest : NetDevice → Made) (n : NetDevice) (o : Option Bytes)
      → ((m : NetDevice) → Given m.mac → OkNamed f_net (rest m))
      → Given n.mac
      → OkNamed f_net (with_source sv inst rest n o)
  source_named rest n none h g = tt
  source_named rest n (some []) h g = tt
  source_named rest n (some (c ∷ s)) h g = h (record n { source = some (c ∷ s) }) g

  network_named :
      (n : NetDevice) (o : Option Bytes) → Given n.mac → OkNamed f_net (in_network sv inst n o)
  network_named n none g = tt
  network_named n (some network) g = finished_named (record n { source = some network }) g

  pool_named :
      (n : NetDevice) (o : Option Bytes) → Given n.mac → OkNamed f_net (from_pool sv inst n o)
  pool_named n none g = network_named n (sv.default_network >>=? name_from_pool_id) g
  pool_named n (some poolid) g = network_named n (name_from_pool_id poolid) g

  typed_named :
      (n : NetDevice) (o : Option Bytes) → Given n.mac → OkNamed f_net (typed_net sv inst n o)
  unfolding typed_net
  typed_named n none g = tt
  typed_named n (some val) g = elim (Bool-cases (sv.streqc val (codes "bridge"))) [
    | inl a ↦ rw a (
        source_named (finished_net sv inst) (record n { type = some (codes "bridge") })
          (inst.str_prop (codes "NetworkName")) finished_named g)
    | inr a ↦ elim (Bool-cases (sv.streqc val (codes "network"))) [
      | inl b ↦
          rw (a, b)
            (pool_named (record n { type = some (codes "network") })
              (inst.str_prop (codes "PoolID")) g)
      | inr b ↦ elim (Bool-cases (sv.streqc val (codes "user"))) [
        | inl c ↦ rw (a, b, c) (finished_named (record n { type = some (codes "user") }) g)
        | inr c ↦ elim (Bool-cases (sv.streqc val (codes "direct"))) [
          | inl d ↦
              rw (a, b, c, d)
                (source_named (direct_port sv inst) (record n { type = some (codes "direct") })
                  (inst.str_prop (codes "SourceDevice")) direct_named g)
          | inr d ↦ rw (a, b, c, d) tt
        ]
      ]
    ]
  ]

  mac_named :
      (dev : VirtDevice) (o : Option (Option Bytes)) → OkNamed f_net (o >>=? with_mac sv inst dev)
  mac_named dev none = tt
  mac_named dev (some none) = tt
  mac_named dev (some (some mac)) =
      typed_named (record no_net { mac = some mac }) (inst.str_prop (codes "NetworkType")) tt

  pub net_named : (dev : VirtDevice) (o : Option Bytes) → OkNamed f_net (net_of_class sv inst dev o)
  net_named dev none = tt
  net_named dev (some cn) = mac_named dev (asked_mac sv inst cn (inst.str_prop (codes "Address")))

  pub disk_named :
      (dev : VirtDevice) (r : Made)
      → disk_rasd_to_vdev sv.streq sv.file_type inst dev ≡ r
      → OkNamed f_disk r
  disk_named dev none e = tt
  disk_named dev (some (false, v)) e = tt
  disk_named dev (some (true, v)) e =
      let (d, target, given, shaped, made) =
        disk_rasd_to_vdev-Shaped sv.streq sv.file_type inst dev v e in
      let (device, source, x, y, virtual, z) = shaped in
      subst (Named f_disk) (sym made) (tt, subst Given (sym virtual) tt)

  pub lxc_target_named :
      (dev : VirtDevice) (o : Option Bytes) → OkNamed f_disk (some (lxc_target inst dev o))
  lxc_target_named dev none = tt
  lxc_target_named dev (some target) =
      lxc_source_named target dev (record (disk_in dev.dev) { virtual_dev = some target })
        (inst.str_prop (codes "Address")) tt

  vnc_named :
      (dev : VirtDevice) (type : Bytes) (g : GraphicsDevice) (o : Option (Bytes × Option Bytes))
      → OkNamed f_graphics (some (vnc_made sv inst dev type g o))
  vnc_named dev type g none = tt
  vnc_named dev type g (some (host, none)) = tt
  vnc_named dev type g (some (host, some port)) = (tt, tt)

  serial_named :
      (dev : VirtDevice) (type : Bytes) (g : GraphicsDevice) (o : Option (Bytes × Bytes))
      → OkNamed f_graphics (some (serial_made sv inst dev type g o))
  serial_named dev type g none = tt
  serial_named dev type g (some address) = (tt, tt)

  sdl_named :
      (dev : VirtDevice) (type : Bytes) (g : GraphicsDevice)
      (o : Option (Option Bytes × Option Bytes))
      → OkNamed f_graphics (some (sdl_made sv inst dev type g o))
  sdl_named dev type g none = tt
  sdl_named dev type g (some address) = (tt, tt)

  typed_graphics_named :
      (dev : VirtDevice) (type : Bytes) (g : GraphicsDevice)
      → OkNamed f_graphics (some (typed_graphics sv inst dev type g))
  unfolding typed_graphics
  typed_graphics_named dev type g = elim (Bool-cases (sv.streqc type (codes "vnc"))) [
    | inl a ↦ rw a (
        vnc_named dev type g
          (parse_ip_address (or_else (default_vnc sv inst) (inst.str_prop (codes "Address")))))
    | inr a ↦
        elim (Bool-cases (sv.streqc type (codes "console") || sv.streqc type (codes "serial"))) [
          | inl b ↦
              rw (a, b)
                (serial_named dev type g (
                  parse_console_address
                    (or_else (codes "/dev/pts/0:0") (inst.str_prop (codes "Address")))))
          | inr b ↦ elim (Bool-cases (sv.streqc type (codes "sdl"))) [
            | inl c ↦
                rw (a, b, c)
                  (sdl_named dev type g (sdl_address sv inst (inst.str_prop (codes "Address"))))
            | inr c ↦ rw (a, b, c) tt
          ]
        ]
  ]

  pub graphics_named :
      (dev : VirtDevice) (o : Option Bytes)
      → OkNamed f_graphics (some (graphics_made sv inst dev o))
  graphics_named dev none = tt
  graphics_named dev (some type) =
      typed_graphics_named dev type (record (graphics_in dev.dev) { type = some type })

  controller_addressed_named :
      (dev : VirtDevice) (id : Bytes) (c : ControllerDevice) (r : Option (Bool × Address))
      → OkNamed f_controller (addressed_controller dev id c r)
  controller_addressed_named dev id c none = tt
  controller_addressed_named dev id c (some (true, addr)) = (tt, tt)
  controller_addressed_named dev id c (some (false, addr)) = tt

  pub controller_named :
      (dev : VirtDevice) (o : Option Bytes) → OkNamed f_controller (controller_made sv inst dev o)
  controller_named dev none = tt
  controller_named dev (some type_str) =
      let c : ControllerDevice = controller_in dev.dev in
      let (index, ending) = index_of (inst.u64_prop (codes "Index")) in
      controller_addressed_named dev (controller_name type_str ending)
        (controller_properties sv inst c type_str index) (rasd_to_device_address inst c.address)
