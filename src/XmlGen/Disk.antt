-- ===== src/XmlGen/Disk.antt =====
-- disk_block_xml, disk_file_xml, disk_fs_xml and disk_xml in libxkutil/xmlgen.c.
use libvirt_cim.Prelude.{
  Bool, false, Option, none, some, List, [], ◌∷◌, Bytes, codes, if◌then◌else◌,
}
use libvirt_cim.Xml.{Node, element, Nodes, leaf, also, attr_if, attr_text}
use libvirt_cim.Device.{
  DiskType, disk_unknown, disk_phy, disk_file, disk_fs, DiskDevice, Dev, disk_dev, VirtDevice,
}
use libvirt_cim.Device.Address.{device_address_xml}
use libvirt_cim.XmlGen.{each_device}

-- A disk has a source: neither the parser nor the service makes one without.
abbrev pub driver_xml : Option Bytes → Option Bytes → Option Bytes → Nodes → Nodes
driver_xml none driver_type cache rest = rest
driver_xml (some driver) driver_type cache rest =
    also
      (element (codes "driver")
        ((codes "name", driver)
          ∷ attr_if (codes "type") driver_type (attr_if (codes "cache") cache []))
        [] leaf)
      rest

abbrev pub target_xml : Option Bytes → Option Bytes → Nodes → Nodes
target_xml virtual_dev bus_type rest =
    also
      (element (codes "target")
        ((codes "dev", attr_text virtual_dev) ∷ attr_if (codes "bus") bus_type []) [] leaf)
      rest

abbrev pub flag_xml : Bytes → Bool → Nodes → Nodes
flag_xml name set rest = if set then also (element name [] [] leaf) rest else rest

-- what follows the source of both kinds of disks
abbrev pub disk_tail_xml : DiskDevice → Nodes
disk_tail_xml d = target_xml d.virtual_dev d.bus_type (
    flag_xml (codes "readonly") d.readonly
      (flag_xml (codes "shareable") d.shareable (device_address_xml d.address leaf)))

abbrev pub source_node : Bytes → Bytes → Nodes → Nodes
source_node name source rest = also (element (codes "source") ((name, source) ∷ []) [] leaf) rest

module _ (streq : Bytes → Bytes → Bool) where
  abbrev pub block_source_xml : Option Bytes → Nodes → Nodes
  block_source_xml none rest = rest
  block_source_xml (some source) rest =
      if streq source (codes "/dev/null") then rest else source_node (codes "dev") source rest

  unfoldable pub disk_block_xml : DiskDevice → Node
  disk_block_xml d =
      element (codes "disk")
        ((codes "type", codes "block")
          ∷ attr_if (codes "device") d.device
              (attr_if (codes "rawio") d.rawio (attr_if (codes "sgio") d.sgio [])))
        [] (driver_xml d.driver d.driver_type d.cache (block_source_xml d.source (disk_tail_xml d)))

  -- a cdrom with no disk in it has no source
  abbrev pub no_disk_in : Option Bytes → Bytes → Bool
  no_disk_in none source = false
  no_disk_in (some device) source = if streq device (codes "cdrom") then streq source [] else false

  unfoldable pub disk_file_xml : DiskDevice → Node
  disk_file_xml d =
      let tail = disk_tail_xml d in
      element (codes "disk") ((codes "type", codes "file") ∷ attr_if (codes "device") d.device [])
        []
        (driver_xml d.driver d.driver_type d.cache (
          if no_disk_in d.device (attr_text d.source)
          then tail
          else source_node (codes "file") (attr_text d.source) tail))

  abbrev fs_driver_xml : Option Bytes → Nodes → Nodes
  fs_driver_xml none rest = rest
  fs_driver_xml (some type) rest =
      also (element (codes "driver") ((codes "type", type) ∷ []) [] leaf) rest

  unfoldable pub disk_fs_xml : DiskDevice → Node
  disk_fs_xml d = element (codes "filesystem") (attr_if (codes "accessmode") d.access_mode []) [] (
      fs_driver_xml d.driver_type (
        source_node (codes "dir") (attr_text d.source) (
          also (element (codes "target") ((codes "dir", attr_text d.virtual_dev) ∷ []) [] leaf)
            (device_address_xml d.address leaf))))

  abbrev pub by_disk_type : DiskType → DiskDevice → Option Nodes
  by_disk_type disk_phy d = some (also (disk_block_xml d) leaf)
  by_disk_type disk_file d = some (also (disk_file_xml d) leaf)
  by_disk_type disk_fs d = some (also (disk_fs_xml d) leaf)
  by_disk_type disk_unknown d = none

  abbrev pub one_disk_xml : Dev → Option Nodes
  one_disk_xml (disk_dev d) = by_disk_type d.disk_type d
  one_disk_xml _ = none

  unfoldable pub disk_xml : List VirtDevice → Option Nodes
  disk_xml devs = each_device (λ d. one_disk_xml d.dev) devs
