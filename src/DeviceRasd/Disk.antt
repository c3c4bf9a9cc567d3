-- ===== src/DeviceRasd/Disk.antt =====
-- disk_rasd_to_vdev and lxc_disk_rasd_to_vdev: a disk that a request describes.
use libvirt_cim.Prelude.{
  ℕ, ◌==◌, Bool, true, false, ◌&&◌, ◌||◌, Option, none, some, [], Bytes, codes, if◌then◌else◌,
}
use libvirt_cim.Device.{
  all, Address, DiskType, disk_unknown, disk_phy, disk_file, disk_fs, DiskDevice, no_disk, disk_dev,
  Dev, VirtDevice,
}
use libvirt_cim.DeviceRasd.{Instance, Made, or_else, rasd_to_device_address}

-- a device that was cleared, with a disk and no id
abbrev pub unnamed : DiskDevice → VirtDevice
unnamed d = record { type = all; dev = disk_dev d; id = none }

abbrev pub is_unknown : DiskType → Bool
is_unknown disk_unknown = true
is_unknown _ = false

abbrev pub known : DiskType → DiskType
known disk_unknown = disk_phy
known t = t

-- `streq` is STREQ
module _ (streq : Bytes → Bytes → Bool) where
  -- a cdrom may have no disk in it, or one that cannot be seen
  unfoldable pub cdrom_made : Bytes → DiskDevice → DiskDevice
  cdrom_made source d =
      if streq source []
      then record d { disk_type = disk_file }
      else if streq source (codes "/dev/null")
      then record d { disk_type = disk_file; source = some [] }
      else record d { disk_type = known d.disk_type }

  -- by the emulated type: disk, cdrom, floppy, file system, LUN
  unfoldable pub with_device : ℕ → Bytes → DiskDevice → Option DiskDevice
  with_device type source d =
      if type == 0
      then some (record d { device = some (codes "disk") })
      else if type == 1
      then some (cdrom_made source (record d { device = some (codes "cdrom") }))
      else if type == 2
      then some (record d { device = some (codes "floppy") })
      else if type == 3
      then some (record d { device = some (codes "filesystem") })
      else if type == 4
      then some (record d { device = some (codes "lun") })
      else none

  -- the address, and the id that is there before it
  abbrev pub addressed : Bytes → DiskDevice → Option (Bool × Address) → Made
  addressed target d none = none
  addressed target d (some (ok, addr)) =
      some
        (ok, record { type = all; dev = disk_dev (record d { address = addr }); id = some target })

  -- the properties that may be left out
  abbrev pub with_properties : Instance → DiskDevice → DiskDevice
  with_properties inst d = record d {
    readonly = or_else false (inst.bool_prop (codes "readonly"));
    bus_type = inst.str_prop (codes "BusType");
    driver = inst.str_prop (codes "DriverName");
    driver_type = inst.str_prop (codes "DriverType");
    cache = inst.str_prop (codes "DriverCache");
    access_mode = inst.str_prop (codes "AccessMode");
    rawio = inst.str_prop (codes "rawio");
    sgio = inst.str_prop (codes "sgio");
    shareable = or_else false (inst.bool_prop (codes "shareable"));
  }

  abbrev pub finished : Instance → Bytes → DiskDevice → Option DiskDevice → Made
  finished inst target started none = some (false, unnamed started)
  finished inst target started (some d) =
      addressed target (with_properties inst d) (rasd_to_device_address inst [])

  -- a disk, a file system and a LUN have to be seen on the host
  abbrev pub started_disk : Instance → ℕ → Bytes → Bytes → DiskDevice → Made
  started_disk inst type target source d =
      if (type == 0 || type == 3 || type == 4) && is_unknown d.disk_type
      then some (false, unnamed d)
      else finished inst target d (with_device type source d)

  -- `file_type` is what disk_type_from_file gets of stat64
  module _ (file_type : Bytes → DiskType) where
    abbrev pub targeted : Instance → Bytes → Bytes → Made
    targeted inst target source =
        started_disk inst (or_else 0 (inst.u16_prop (codes "EmulatedType"))) target source
          (record no_disk {
            virtual_dev = some target;
            source = some source;
            disk_type = file_type source;
          })

    -- the old device is cleared once there is a target
    unfoldable pub disk_rasd_to_vdev : Instance → VirtDevice → Made
    disk_rasd_to_vdev inst dev = elim (inst.str_prop (codes "VirtualDevice")) [
      | none ↦ some (false, dev)
      | some target ↦
          targeted inst target (or_else (codes "/dev/null") (inst.str_prop (codes "Address")))
    ]

-- a device that holds something else is taken as cleared
abbrev pub disk_in : Dev → DiskDevice
disk_in (disk_dev d) = d
disk_in _ = no_disk

abbrev pub lxc_source : Option Bytes → Bytes → VirtDevice → DiskDevice → Bool × VirtDevice
lxc_source none target dev d = (false, record dev { dev = disk_dev d })
lxc_source (some source) target dev d = (
  true,
  record dev {
    dev = disk_dev (record d { source = some source; disk_type = disk_fs });
    id = some target;
  },
)

abbrev pub lxc_target : Instance → VirtDevice → Option Bytes → Bool × VirtDevice
lxc_target inst dev none = (false, dev)
lxc_target inst dev (some target) =
    lxc_source (inst.str_prop (codes "Address")) target dev
      (record (disk_in dev.dev) { virtual_dev = some target })

-- of a container; the other members of the old device stay
unfoldable pub lxc_disk_rasd_to_vdev : Instance → VirtDevice → Bool × VirtDevice
lxc_disk_rasd_to_vdev inst dev = lxc_target inst dev (inst.str_prop (codes "MountPoint"))
