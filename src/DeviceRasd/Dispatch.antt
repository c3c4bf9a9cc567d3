-- ===== src/DeviceRasd/Dispatch.antt =====
-- res_type_from_rasd_classname in src/Virt_RASD.c, and _sysvirt_rasd_to_vdev, _container_rasd_to_vdev and
-- rasd_to_vdev. A console is read into a device that is zero, as classify_resources and resource_add give it.
use libvirt_cim.Prelude.{
  Bool, true, false, ◌||◌, Option, none, some, Bytes, codes, if◌then◌else◌, ◌>>=?◌,
}
use libvirt_cim.MiscUtil.{class_base_name}
use libvirt_cim.ConsoleUrl.Rasd.{ConsoleRasd, console_rasd_to_vdev}
use libvirt_cim.Device.{
  ResType, image, proc, mem, net, disk, graphics, input, console, controller, ConsoleDevice,
  console_dev, not_set, MemDevice, mem_dev, Dev, VirtDevice,
}
use libvirt_cim.DeviceRasd.{Instance, Service, Made}
use libvirt_cim.DeviceRasd.Memory.{mem_rasd_to_vdev}
use libvirt_cim.DeviceRasd.Disk.{disk_rasd_to_vdev, lxc_disk_rasd_to_vdev}
use libvirt_cim.DeviceRasd.Net.{net_rasd_to_vdev}
use libvirt_cim.DeviceRasd.Graphics.{graphics_rasd_to_vdev, input_rasd_to_vdev}
use libvirt_cim.DeviceRasd.Controller.{
  controller_rasd_to_vdev, proc_rasd_to_vdev, lxc_proc_rasd_to_vdev,
}

abbrev pub mem_in : Dev → MemDevice
mem_in (mem_dev m) = m
mem_in _ = record { size = 0; maxsize = 0; dump_core = not_set }

abbrev pub memory_made : VirtDevice → Bool × MemDevice → Made
memory_made dev (ok, m) = some (ok, record dev { dev = mem_dev m })

abbrev pub console_made : VirtDevice → Option ConsoleDevice → Made
console_made dev none = some (false, dev)
console_made dev (some c) = some (true, record dev { dev = console_dev c })

abbrev pub console_of : Instance → ConsoleRasd
console_of inst = record {
  source_type = inst.u16_prop (codes "SourceType");
  target_type = inst.str_prop (codes "TargetType");
  source_path = inst.str_prop (codes "SourcePath");
  connect_url = inst.str_prop (codes "ConnectURL");
  bind_url = inst.str_prop (codes "BindURL");
}

-- the type is set where there is no message
abbrev pub with_type : ResType → Made → Made
with_type type none = none
with_type type (some (true, dev)) = some (true, record dev { type = type })
with_type type (some (false, dev)) = some (false, dev)

module _ (sv : Service) where
  open sv use {streq, streqc, file_type}

  -- by the class without its prefix
  unfoldable pub type_of_base : Bytes → Option ResType
  type_of_base base =
      if streq base (codes "DiskResourceAllocationSettingData")
        || streq base (codes "DiskPoolResourceAllocationSettingData")
      then some disk
      else if streq base (codes "NetResourceAllocationSettingData")
          || streq base (codes "NetPoolResourceAllocationSettingData")
      then some net
      else if streq base (codes "ProcResourceAllocationSettingData")
      then some proc
      else if streq base (codes "MemResourceAllocationSettingData")
      then some mem
      else if streq base (codes "GraphicsResourceAllocationSettingData")
      then some graphics
      else if streq base (codes "InputResourceAllocationSettingData")
      then some input
      else if streq base (codes "StorageVolumeResourceAllocationSettingData")
      then some image
      else if streq base (codes "ConsoleResourceAllocationSettingData")
      then some console
      else if streq base (codes "ControllerResourceAllocationSettingData")
      then some controller
      else none

  unfoldable pub res_type_from_rasd_classname : Bytes → Option ResType
  res_type_from_rasd_classname cn = class_base_name cn >>=? type_of_base

  unfoldable pub sysvirt_rasd_to_vdev : Instance → VirtDevice → ResType → Made
  sysvirt_rasd_to_vdev inst dev disk = disk_rasd_to_vdev streq file_type inst dev
  sysvirt_rasd_to_vdev inst dev net = net_rasd_to_vdev sv inst dev
  sysvirt_rasd_to_vdev inst dev mem =
      memory_made dev (mem_rasd_to_vdev streqc inst (mem_in dev.dev))
  sysvirt_rasd_to_vdev inst dev proc = some (proc_rasd_to_vdev sv inst dev)
  sysvirt_rasd_to_vdev inst dev graphics = some (graphics_rasd_to_vdev sv inst dev)
  sysvirt_rasd_to_vdev inst dev console =
      console_made dev (console_rasd_to_vdev streqc (console_of inst))
  sysvirt_rasd_to_vdev inst dev input = some (input_rasd_to_vdev sv inst dev)
  sysvirt_rasd_to_vdev inst dev controller = controller_rasd_to_vdev sv inst dev
  sysvirt_rasd_to_vdev inst dev _ = some (false, dev)

  unfoldable pub container_rasd_to_vdev : Instance → VirtDevice → ResType → Made
  container_rasd_to_vdev inst dev mem =
      memory_made dev (mem_rasd_to_vdev streqc inst (mem_in dev.dev))
  container_rasd_to_vdev inst dev disk = some (lxc_disk_rasd_to_vdev inst dev)
  container_rasd_to_vdev inst dev net = net_rasd_to_vdev sv inst dev
  container_rasd_to_vdev inst dev proc = some (lxc_proc_rasd_to_vdev sv inst dev)
  container_rasd_to_vdev inst dev input = some (input_rasd_to_vdev sv inst dev)
  container_rasd_to_vdev inst dev controller = controller_rasd_to_vdev sv inst dev
  container_rasd_to_vdev inst dev _ = some (false, dev)

  -- the type of a resource, NULL for a resource without a path
  abbrev pub res_type : Instance → Option ResType
  res_type inst = inst.class_name >>=? res_type_from_rasd_classname

  abbrev pub by_platform : Bool → Instance → VirtDevice → Option ResType → Made
  by_platform lxc inst dev none = some (false, dev)
  by_platform true inst dev (some type) = with_type type (container_rasd_to_vdev inst dev type)
  by_platform false inst dev (some type) = with_type type (sysvirt_rasd_to_vdev inst dev type)

  -- `lxc` says whether the domain is a container
  unfoldable pub rasd_to_vdev : Bool → Instance → VirtDevice → Made
  rasd_to_vdev lxc inst dev = by_platform lxc inst dev (res_type inst)
