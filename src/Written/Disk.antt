-- ===== src/Written/Disk.antt =====
-- Disks that disk_xml writes and do_parse with parse_disk_device reads again.
mod Children
mod Whole
use libvirt_cim.Prelude.{
  ◌≡◌, refl, ap, ◌∙◌, sym, subst, Bool, true, false, Option, none, some, List, [], ◌∷◌, Bytes,
  codes, strcmp_eq, ◌↔◌,
}
use libvirt_cim.Compare.{streq-strcmp_eq}
use libvirt_cim.Xml.{Node, Nodes, leaf, also}
use libvirt_cim.Device.{
  DiskType, disk_unknown, disk_phy, disk_file, disk_fs, DiskDevice, Dev, disk_dev, VirtDevice, disk,
}
use libvirt_cim.Device.Address.{DistinctKeys}
use libvirt_cim.DeviceParse.{one, do_parse}
use libvirt_cim.DeviceParse.Disk.{parse_disk_device}
use libvirt_cim.XmlGen.Disk.{by_disk_type, one_disk_xml, disk_block_xml, disk_file_xml, disk_xml}
use libvirt_cim.Written.{kept, ReadsBack, AllReadBack, written_list}
use libvirt_cim.Written.Disk.Children.{DriverGiven, block_as_read, file_as_read}
use libvirt_cim.Written.Disk.Whole.{reads_block, reads_file}

-- A disk that is a block device or a file, with what the XML has to hold.
abbrev pub KindWritten : DiskType → Bytes → Type 0
KindWritten disk_phy source = strcmp_eq source (codes "/dev/null") ≡ false
KindWritten disk_file source = Unit
KindWritten _ source = ⊥

abbrev pub DiskWritten : DiskDevice → Type 0
DiskWritten d =
    (device : Bytes) × (source : Bytes) × (virtual_dev : Bytes) × (d.device ≡ some device)
    × (d.source ≡ some source)
    × (d.virtual_dev ≡ some virtual_dev)
    × DriverGiven d.driver d.driver_type d.cache
    × DistinctKeys d.address
    × KindWritten d.disk_type source

-- what the disk reads as
abbrev pub disk_as_read : DiskType → DiskDevice → DiskDevice
disk_as_read disk_phy d = block_as_read d
disk_as_read _ d = file_as_read d

abbrev pub dev_as_read : Dev → VirtDevice → VirtDevice
dev_as_read (disk_dev d) v = record {
  type = disk;
  dev = disk_dev (disk_as_read d.disk_type d);
  id = d.virtual_dev;
}
dev_as_read _ v = v

abbrev pub device_as_read : VirtDevice → VirtDevice
device_as_read v = dev_as_read v.dev v

unfoldable pub DisksWritten : List VirtDevice → Type 0
DisksWritten [] = Unit
DisksWritten (v ∷ devs) =
    ((d : DiskDevice) × (v.dev ≡ disk_dev d) × DiskWritten d) × DisksWritten devs

abbrev Reads : DiskDevice → Node → DiskDevice → Type 0
Reads d n e =
    parse_disk_device strcmp_eq n
    ≡ one (record { type = disk; dev = disk_dev e; id = d.virtual_dev })

Reads-kind :
    (d : DiskDevice) (t : DiskType)
    → d.disk_type ≡ t
    → DiskWritten d
    → (n : Node) × (by_disk_type strcmp_eq t d ≡ some (also n leaf)) × Reads d n (disk_as_read t d)
Reads-kind d disk_phy e (device, source, target, a, b, c, g, k, w) =
    let w' : KindWritten disk_phy source = subst (λ t. KindWritten t source) e w in
    (disk_block_xml strcmp_eq d, refl, reads_block d device source target a b c g k w' e)
Reads-kind d disk_file e (device, source, target, a, b, c, g, k, w) =
    (disk_file_xml strcmp_eq d, refl, reads_file d device source target a b c g k e)
Reads-kind d disk_fs e (device, source, target, a, b, c, g, k, w) =
    absurd (subst (λ t. KindWritten t source) e w)
Reads-kind d disk_unknown e (device, source, target, a, b, c, g, k, w) =
    absurd (subst (λ t. KindWritten t source) e w)

pub reads_device :
    (v : VirtDevice) (d : DiskDevice)
    → v.dev ≡ disk_dev d
    → DiskWritten d
    → ReadsBack (λ x. one_disk_xml strcmp_eq x.dev) (parse_disk_device strcmp_eq) device_as_read v
reads_device v d e w =
    let (n, p, r) = Reads-kind d d.disk_type refl w in
    (n, ap (one_disk_xml strcmp_eq) e ∙ p, r ∙ ap (λ x. one (dev_as_read x v)) (sym e))

reads_devices :
    (devs : List VirtDevice)
    → DisksWritten devs
    → AllReadBack
        (λ x. one_disk_xml strcmp_eq x.dev)
        (parse_disk_device strcmp_eq)
        device_as_read
        devs
unfolding DisksWritten AllReadBack
reads_devices [] w = tt
reads_devices (v ∷ devs) ((d, e, h), w) = (reads_device v d e h, reads_devices devs w)

-- Where STREQ compares strings, the disks of a domain, each a block device or a file with a device, a
-- source (of a block device not /dev/null), a target, a format and a cache only beside a driver, and no
-- address key twice, are written and read again as the disks that were not deleted, in order. The type is
-- then the one of the element, no access mode is left, and a file has no rawio and no sgio; all else is
-- the same, a cdrom with no disk in it included.
pub do_parse-disk_xml :
    (streq : Bytes → Bytes → Bool)
    → ((s t : Bytes) → (streq s t ≡ true) ↔ (s ≡ t))
    → (devs : List VirtDevice) → DisksWritten devs
    → (nodes : Nodes) × (disk_xml streq devs ≡ some nodes)
      × (do_parse (parse_disk_device streq) nodes ≡ some (kept device_as_read devs))
unfolding disk_xml
do_parse-disk_xml streq streq_iff devs w =
    subst
      (λ eq.
        (nodes : Nodes) × (disk_xml eq devs ≡ some nodes)
        × (do_parse (parse_disk_device eq) nodes ≡ some (kept device_as_read devs)))
      (sym (streq-strcmp_eq streq streq_iff))
      (written_list (λ x. one_disk_xml strcmp_eq x.dev) (parse_disk_device strcmp_eq) device_as_read
        devs (reads_devices devs w))
