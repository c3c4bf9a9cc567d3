-- ===== src/DeviceParse/Disk.antt =====
-- parse_fs_device, parse_block_device and parse_disk_device in libxkutil/device_parsing.c.
use libvirt_cim.Prelude.{Bool, true, Option, none, some, [], Bytes, codes, if◌then◌else◌, ◌>>=?◌}
use libvirt_cim.Xml.{Node, node_name, node_children, get_attr_value, each_child}
use libvirt_cim.Device.{
  disk, disk_phy, disk_file, disk_fs, DiskDevice, no_disk, disk_dev, VirtDevice,
}
use libvirt_cim.Device.Address.{parse_device_address}
use libvirt_cim.DeviceParse.{Parsed, refused, parsed}

-- The result of parse_device_address is not looked at.
abbrev pub with_address : Node → DiskDevice → DiskDevice
with_address child ddev = record ddev { address = (parse_device_address child ddev.address).1 }

-- both strings are there, and the target gives the id
abbrev pub disk_device : DiskDevice → Option VirtDevice
disk_device ddev = ddev.source >>=? λ source. ddev.virtual_dev >>=? λ virtual_dev.
    some (record { type = disk; dev = disk_dev ddev; id = some virtual_dev })

abbrev pub file_or_dev : Option Bytes → Option Bytes → DiskDevice → Option DiskDevice
file_or_dev (some file) dev ddev = some (record ddev { source = some file; disk_type = disk_file })
file_or_dev none (some dev) ddev = some (record ddev { source = some dev; disk_type = disk_phy })
file_or_dev none none ddev = none

-- the disk with the source it has, if any: a cdrom with no disk in it gets one
abbrev pub cdrom_source : Bool → Option Bytes → DiskDevice → DiskDevice
cdrom_source true none ddev = record ddev { source = some []; disk_type = disk_file }
cdrom_source _ source ddev = ddev

module _ (streq : Bytes → Bytes → Bool) where
  unfoldable pub fs_child : Node → DiskDevice → Option DiskDevice
  fs_child child ddev =
      if streq (node_name child) (codes "source")
      then (get_attr_value child (codes "dir") >>=? λ source.
          some (record ddev { source = some source }))
      else if streq (node_name child) (codes "target")
      then (get_attr_value child (codes "dir") >>=? λ dir.
          some (record ddev { virtual_dev = some dir }))
      else if streq (node_name child) (codes "driver")
      then some (record ddev { driver_type = get_attr_value child (codes "type") })
      else if streq (node_name child) (codes "address")
      then some (with_address child ddev)
      else some ddev

  unfoldable pub parse_fs_device : Node → Option VirtDevice
  parse_fs_device dnode = get_attr_value dnode (codes "type") >>=? λ type.
      each_child fs_child (node_children dnode) (record no_disk {
        type = some type;
        access_mode = get_attr_value dnode (codes "accessmode");
      })
      >>=? λ ddev. disk_device (record ddev { disk_type = disk_fs })

  unfoldable pub block_child : Node → DiskDevice → Option DiskDevice
  block_child child ddev =
      if streq (node_name child) (codes "driver")
      then (get_attr_value child (codes "name") >>=? λ driver. some (record ddev {
        driver = some driver;
        driver_type = get_attr_value child (codes "type");
        cache = get_attr_value child (codes "cache");
      }))
      else if streq (node_name child) (codes "source")
      then file_or_dev (get_attr_value child (codes "file")) (get_attr_value child (codes "dev"))
          ddev
      else if streq (node_name child) (codes "target")
      then (get_attr_value child (codes "dev") >>=? λ virtual_dev. some (record ddev {
        virtual_dev = some virtual_dev;
        bus_type = get_attr_value child (codes "bus");
      }))
      else if streq (node_name child) (codes "readonly")
      then some (record ddev { readonly = true })
      else if streq (node_name child) (codes "shareable")
      then some (record ddev { shareable = true })
      else if streq (node_name child) (codes "address")
      then some (with_address child ddev)
      else some ddev

  unfoldable pub parse_block_device : Node → Option VirtDevice
  parse_block_device dnode = get_attr_value dnode (codes "type") >>=? λ type.
      get_attr_value dnode (codes "device") >>=? λ device.
      each_child block_child (node_children dnode) (record no_disk {
        type = some type;
        device = some device;
        rawio = get_attr_value dnode (codes "rawio");
        sgio = get_attr_value dnode (codes "sgio");
      })
      >>=? λ ddev. disk_device (cdrom_source (streq device (codes "cdrom")) ddev.source ddev)

  unfoldable pub parse_disk_device : Node → Parsed
  parse_disk_device dnode =
      if streq (node_name dnode) (codes "disk")
      then parsed (parse_block_device dnode)
      else if streq (node_name dnode) (codes "filesystem")
      then parsed (parse_fs_device dnode)
      else refused
