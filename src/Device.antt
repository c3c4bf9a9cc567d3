-- ===== src/Device.antt =====
-- libxkutil/device_parsing.h and src/svpc_types.h: the devices of a domain. A NULL string is `none`. The
-- union of a device is a data type with a constructor for each member; `empty` is the zeroed union.
pub mod Kinds
pub mod Address
pub mod Dup
use libvirt_cim.Prelude.{ℕ, Bool, true, false, Option, none, some, List, [], Bytes}

-- The CIM_RES_TYPE_* values that the devices and the resources of a request have; `all` is 0, the type of a
-- zeroed device.
pub data ResType : Type 0 where
  all unknown image proc mem net disk graphics input console emu controller : ResType

-- `struct device_address`: keys with their values
abbrev pub Address : Type 0
Address = List (Bytes × Bytes)

pub data DiskType : Type 0 where
  disk_unknown disk_phy disk_file disk_fs : DiskType

pub record DiskDevice : Type 0 where
  pub type : Option Bytes
  pub device : Option Bytes
  pub driver : Option Bytes
  pub driver_type : Option Bytes
  pub source : Option Bytes
  pub virtual_dev : Option Bytes
  pub rawio : Option Bytes
  pub sgio : Option Bytes
  pub disk_type : DiskType
  pub readonly : Bool
  pub shareable : Bool
  pub bus_type : Option Bytes
  pub cache : Option Bytes
  pub access_mode : Option Bytes
  pub address : Address

pub record VsiDevice : Type 0 where
  pub vsi_type : Option Bytes
  pub manager_id : Option Bytes
  pub type_id : Option Bytes
  pub type_id_version : Option Bytes
  pub instance_id : Option Bytes
  pub filter_ref : Option Bytes
  pub profile_id : Option Bytes

pub record NetDevice : Type 0 where
  pub type : Option Bytes
  pub mac : Option Bytes
  pub source : Option Bytes
  pub poolid : Option Bytes
  pub model : Option Bytes
  pub device : Option Bytes
  pub net_mode : Option Bytes
  pub filter_ref : Option Bytes
  pub reservation : ℕ
  pub limit : ℕ
  pub vsi : VsiDevice
  pub address : Address

pub data DumpCore : Type 0 where
  not_set on off : DumpCore

pub record MemDevice : Type 0 where
  pub size : ℕ
  pub maxsize : ℕ
  pub dump_core : DumpCore

pub record VcpuDevice : Type 0 where
  pub quantity : ℕ
  pub weight : ℕ
  pub limit : ℕ

-- The union of `vnc_device` and `sdl_device`: the display, the xauth and the fullscreen of an sdl device
-- share the storage of the port, the host and the keymap.
pub record GraphicsDevice : Type 0 where
  pub type : Option Bytes
  pub port : Option Bytes
  pub host : Option Bytes
  pub keymap : Option Bytes
  pub passwd : Option Bytes

-- `source_type` and the member of the union that it selects
pub data ConsoleSource : Type 0 where
  null vc stdio spicevmc : ConsoleSource
  -- path
  pty dev file pipe : Option Bytes → ConsoleSource
  -- mode and path
  unixsock : Option Bytes → Option Bytes → ConsoleSource
  -- bind host and service, connect host and service
  udp : Option Bytes → Option Bytes → Option Bytes → Option Bytes → ConsoleSource
  -- mode, protocol, host, service
  tcp : Option Bytes → Option Bytes → Option Bytes → Option Bytes → ConsoleSource

pub record ConsoleDevice : Type 0 where
  pub source_dev : ConsoleSource
  pub target_type : Option Bytes

pub record InputDevice : Type 0 where
  pub type : Option Bytes
  pub bus : Option Bytes

-- the CIM_CONTROLLER_PROTOCOL_TYPE_* values that have a name
pub data ControllerType : Type 0 where
  ide fdc scsi sata ccid virtio_serial pci usb : ControllerType

pub record ControllerDevice : Type 0 where
  -- `none` is CIM_CONTROLLER_PROTOCOL_TYPE_UNKNOWN
  pub type : Option ControllerType
  pub index : ℕ
  pub model : Option Bytes
  pub ports : Option Bytes
  pub vectors : Option Bytes
  pub queues : Option Bytes
  pub address : Address

pub data Dev : Type 0 where
  empty : Dev
  disk_dev : DiskDevice → Dev
  net_dev : NetDevice → Dev
  mem_dev : MemDevice → Dev
  vcpu_dev : VcpuDevice → Dev
  emu_dev : Option Bytes → Dev
  graphics_dev : GraphicsDevice → Dev
  console_dev : ConsoleDevice → Dev
  input_dev : InputDevice → Dev
  controller_dev : ControllerDevice → Dev

pub record VirtDevice : Type 0 where
  pub type : ResType
  pub dev : Dev
  pub id : Option Bytes

-- The zeroed structures of `calloc`.
abbrev pub no_disk : DiskDevice
no_disk = record {
  type = none;
  device = none;
  driver = none;
  driver_type = none;
  source = none;
  virtual_dev = none;
  rawio = none;
  sgio = none;
  disk_type = disk_unknown;
  readonly = false;
  shareable = false;
  bus_type = none;
  cache = none;
  access_mode = none;
  address = [];
}

abbrev pub no_vsi : VsiDevice
no_vsi = record {
  vsi_type = none;
  manager_id = none;
  type_id = none;
  type_id_version = none;
  instance_id = none;
  filter_ref = none;
  profile_id = none;
}

abbrev pub no_net : NetDevice
no_net = record {
  type = none;
  mac = none;
  source = none;
  poolid = none;
  model = none;
  device = none;
  net_mode = none;
  filter_ref = none;
  reservation = 0;
  limit = 0;
  vsi = no_vsi;
  address = [];
}

-- The member of the union, where it is that one.
abbrev pub mem_of : Dev → Option MemDevice
mem_of (mem_dev m) = some m
mem_of _ = none

abbrev pub vcpu_of : Dev → Option VcpuDevice
vcpu_of (vcpu_dev v) = some v
vcpu_of _ = none
