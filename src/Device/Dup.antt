-- ===== src/Device/Dup.antt =====
-- virt_device_dup and console_device_dup in libxkutil/device_parsing.c. The type says which member of
-- the union is copied; where the union holds another member, C would copy its bytes as pointers, and
-- the model gives the zeroed union.
use libvirt_cim.Prelude.{◌≡◌, refl, sym, ap, ◌∙◌, Option, none, some, [], ◌∷◌, Bytes}
use libvirt_cim.Device.{
  Address, ResType, all, proc, mem, net, disk, graphics, input, console, emu, controller,
  DiskDevice, NetDevice, GraphicsDevice, ConsoleSource, null, vc, stdio, spicevmc, pty, dev, file,
  pipe, unixsock, udp, tcp, ConsoleDevice, ControllerDevice, Dev, empty, disk_dev, net_dev, mem_dev,
  vcpu_dev, emu_dev, graphics_dev, console_dev, input_dev, controller_dev, VirtDevice, VsiDevice,
}

unfoldable pub duplicate_device_address : Address → Address
duplicate_device_address [] = []
duplicate_device_address ((k, v) ∷ from) = (k, v) ∷ duplicate_device_address from

abbrev dup_disk : DiskDevice → DiskDevice
dup_disk d = record {
  type = d.type;
  device = d.device;
  driver = d.driver;
  driver_type = d.driver_type;
  rawio = d.rawio;
  sgio = d.sgio;
  cache = d.cache;
  source = d.source;
  virtual_dev = d.virtual_dev;
  bus_type = d.bus_type;
  access_mode = d.access_mode;
  disk_type = d.disk_type;
  readonly = d.readonly;
  shareable = d.shareable;
  address = duplicate_device_address d.address;
}

abbrev dup_vsi : VsiDevice → VsiDevice
dup_vsi v = record {
  vsi_type = v.vsi_type;
  manager_id = v.manager_id;
  type_id = v.type_id;
  type_id_version = v.type_id_version;
  instance_id = v.instance_id;
  filter_ref = v.filter_ref;
  profile_id = v.profile_id;
}

abbrev dup_net : NetDevice → NetDevice
dup_net n = record {
  mac = n.mac;
  type = n.type;
  source = n.source;
  model = n.model;
  poolid = n.poolid;
  device = n.device;
  net_mode = n.net_mode;
  filter_ref = n.filter_ref;
  vsi = dup_vsi n.vsi;
  reservation = n.reservation;
  limit = n.limit;
  address = duplicate_device_address n.address;
}

abbrev console_source_dup : ConsoleSource → ConsoleSource
console_source_dup (pty path) = pty path
console_source_dup (dev path) = dev path
console_source_dup (file path) = file path
console_source_dup (pipe path) = pipe path
console_source_dup (unixsock mode path) = unixsock mode path
console_source_dup (udp bind_host bind_service connect_host connect_service) =
    udp bind_host bind_service connect_host connect_service
console_source_dup (tcp mode protocol host service) = tcp mode protocol host service
console_source_dup null = null
console_source_dup vc = vc
console_source_dup stdio = stdio
console_source_dup spicevmc = spicevmc

abbrev console_device_dup : ConsoleDevice → ConsoleDevice
console_device_dup c = record {
  source_dev = console_source_dup c.source_dev;
  target_type = c.target_type;
}

abbrev dup_graphics : GraphicsDevice → GraphicsDevice
dup_graphics g = record {
  type = g.type;
  host = g.host;
  port = g.port;
  keymap = g.keymap;
  passwd = g.passwd;
}

abbrev dup_controller : ControllerDevice → ControllerDevice
dup_controller c = record {
  type = c.type;
  index = c.index;
  model = c.model;
  ports = c.ports;
  vectors = c.vectors;
  queues = c.queues;
  address = duplicate_device_address c.address;
}

-- of a processor only the quantity is copied
unfoldable pub dup_dev : ResType → Dev → Dev
dup_dev net (net_dev n) = net_dev (dup_net n)
dup_dev disk (disk_dev d) = disk_dev (dup_disk d)
dup_dev mem (mem_dev m) =
    mem_dev (record { size = m.size; maxsize = m.maxsize; dump_core = m.dump_core })
dup_dev proc (vcpu_dev v) = vcpu_dev (record { quantity = v.quantity; weight = 0; limit = 0 })
dup_dev emu (emu_dev path) = emu_dev path
dup_dev graphics (graphics_dev g) = graphics_dev (dup_graphics g)
dup_dev input (input_dev i) = input_dev (record { type = i.type; bus = i.bus })
dup_dev console (console_dev c) = console_dev (console_device_dup c)
dup_dev controller (controller_dev c) = controller_dev (dup_controller c)
dup_dev _ _ = empty

-- `strdup` of an id that is NULL is a fault, `none`
unfoldable pub virt_device_dup : VirtDevice → Option VirtDevice
virt_device_dup d = elim d.id [
  | none ↦ none
  | some id ↦ some (record { type = d.type; dev = dup_dev d.type d.dev; id = some id })
]

duplicate_device_address_lem : (from : Address) → duplicate_device_address from ≡ from
unfolding duplicate_device_address
duplicate_device_address_lem [] = refl
duplicate_device_address_lem (kv ∷ from) = ap (◌∷◌ kv) (duplicate_device_address_lem from)

-- the type of the member that a union holds
abbrev pub type_of : Dev → ResType
type_of empty = all
type_of (disk_dev d) = disk
type_of (net_dev n) = net
type_of (mem_dev m) = mem
type_of (vcpu_dev v) = proc
type_of (emu_dev path) = emu
type_of (graphics_dev g) = graphics
type_of (console_dev c) = console
type_of (input_dev i) = input
type_of (controller_dev c) = controller

-- a processor without its weight and its limit; any other device as it is
abbrev pub without_weight : Dev → Dev
without_weight (vcpu_dev v) = vcpu_dev (record v { weight = 0; limit = 0 })
without_weight d = d

console_source_dup_lem : (s : ConsoleSource) → console_source_dup s ≡ s
console_source_dup_lem (pty path) = refl
console_source_dup_lem (unixsock mode path) = refl
console_source_dup_lem (udp bind_host bind_service connect_host connect_service) = refl
console_source_dup_lem (tcp mode protocol host service) = refl
console_source_dup_lem _ = refl

dup_dev-type_of : (d : Dev) → dup_dev (type_of d) d ≡ without_weight d
unfolding dup_dev
dup_dev-type_of (net_dev n) =
    ap (λ a. net_dev (record n { address = a })) (duplicate_device_address_lem n.address)
dup_dev-type_of (disk_dev d) =
    ap (λ a. disk_dev (record d { address = a })) (duplicate_device_address_lem d.address)
dup_dev-type_of (console_dev c) =
    ap (λ s. console_dev (record c { source_dev = s })) (console_source_dup_lem c.source_dev)
dup_dev-type_of (controller_dev c) =
    ap (λ a. controller_dev (record c { address = a })) (duplicate_device_address_lem c.address)
dup_dev-type_of _ = refl

-- A device with an id and with the type of the member its union holds is copied whole, but for the
-- weight and the limit of a processor, which become 0.
pub virt_device_dup_lem :
    (d : VirtDevice) (id : Bytes)
    → d.id ≡ some id
    → d.type ≡ type_of d.dev
    → virt_device_dup d ≡ some (record d { dev = without_weight d.dev })
unfolding virt_device_dup
virt_device_dup_lem d id e h =
    ap
      (λ i. elim i [
        | none ↦ none
        | some k ↦ some (record { type = d.type; dev = dup_dev d.type d.dev; id = some k })
      ])
      e
    ∙ ap (λ x. some (record { type = d.type; dev = x; id = some id }))
        (ap (λ t. dup_dev t d.dev) h ∙ dup_dev-type_of d.dev)
    ∙ ap (λ i. some (record { type = d.type; dev = without_weight d.dev; id = i })) (sym e)
