-- ===== src/Written/Disk/Children.antt =====
-- Each child of a <disk> that libxkutil/xmlgen.c writes, as the loop of parse_block_device reads it.
use libvirt_cim.Prelude.{
  ◌≡◌, refl, ap, ◌∙◌, Bool, true, false, Option, none, some, List, [], ◌∷◌, Bytes, codes, strcmp_eq,
  ◌>>=?◌, Bool-cases, inl, inr,
}
use libvirt_cim.Xml.{element, Nodes, leaf, get_prop, get_attr_value, each_child, attr_if}
use libvirt_cim.Device.{
  disk_phy, disk_file, DiskDevice, no_disk, disk_dev, VirtDevice, disk, Address,
}
use libvirt_cim.Device.Address.{DistinctKeys, device_address_xml, parse_device_address-written}
use libvirt_cim.DeviceParse.{one, parsed}
use libvirt_cim.DeviceParse.Disk.{
  block_child, parse_block_device, parse_disk_device, disk_device, cdrom_source,
}
use libvirt_cim.XmlGen.Disk.{driver_xml, target_xml, flag_xml, source_node, disk_tail_xml}

abbrev pub Given {ℓ} : {A : Type ℓ} → Option A → Type 0
Given none = ⊥
Given (some a) = Unit

-- the format and the cache stand in the element of the driver
abbrev pub DriverGiven : Option Bytes → Option Bytes → Option Bytes → Type 0
DriverGiven none none none = Unit
DriverGiven none _ _ = ⊥
DriverGiven (some driver) driver_type cache = Unit

abbrev pub block_loop : Nodes → DiskDevice → Option DiskDevice
block_loop = each_child (block_child strcmp_eq)

pub reads_driver :
    (d : DiskDevice) (driver driver_type cache : Option Bytes) (rest : Nodes)
    → DriverGiven driver driver_type cache
    → block_loop
        (driver_xml driver driver_type cache rest)
        (record d { driver = none; driver_type = none; cache = none })
      ≡ block_loop rest (record d { driver = driver; driver_type = driver_type; cache = cache })
unfolding each_child block_child get_attr_value get_prop strcmp_eq
reads_driver d none none none rest g = refl
reads_driver d (some n) none none rest g = refl
reads_driver d (some n) (some t) none rest g = refl
reads_driver d (some n) none (some c) rest g = refl
reads_driver d (some n) (some t) (some c) rest g = refl
reads_driver d none (some t) _ rest g = absurd g
reads_driver d none none (some c) rest g = absurd g

pub reads_target :
    (d : DiskDevice) (virtual_dev : Bytes) (bus_type : Option Bytes) (rest : Nodes)
    → block_loop (target_xml (some virtual_dev) bus_type rest) d
      ≡ block_loop rest (record d { virtual_dev = some virtual_dev; bus_type = bus_type })
unfolding each_child block_child get_attr_value get_prop strcmp_eq
reads_target d v none rest = refl
reads_target d v (some b) rest = refl

pub reads_readonly :
    (d : DiskDevice) (b : Bool) (rest : Nodes)
    → block_loop (flag_xml (codes "readonly") b rest) (record d { readonly = false })
      ≡ block_loop rest (record d { readonly = b })
unfolding each_child block_child strcmp_eq
reads_readonly d true rest = refl
reads_readonly d false rest = refl

pub reads_shareable :
    (d : DiskDevice) (b : Bool) (rest : Nodes)
    → block_loop (flag_xml (codes "shareable") b rest) (record d { shareable = false })
      ≡ block_loop rest (record d { shareable = b })
unfolding each_child block_child strcmp_eq
reads_shareable d true rest = refl
reads_shareable d false rest = refl

pub reads_address :
    (d : DiskDevice) (addr : Address)
    → DistinctKeys addr
    → block_loop (device_address_xml addr leaf) (record d { address = [] })
      ≡ some (record d { address = addr })
unfolding each_child block_child strcmp_eq device_address_xml
reads_address d [] k = refl
reads_address d (kv ∷ addr) k =
    ap (λ r. some (record d { address = r.1 })) (parse_device_address-written (kv ∷ addr) k)

pub reads_tail :
    (d e : DiskDevice) (virtual_dev : Bytes)
    → d.virtual_dev ≡ some virtual_dev
    → DistinctKeys d.address
    → block_loop (disk_tail_xml d) (record e { readonly = false; shareable = false; address = [] })
      ≡ some (record e {
        virtual_dev = d.virtual_dev;
        bus_type = d.bus_type;
        readonly = d.readonly;
        shareable = d.shareable;
        address = d.address;
      })
reads_tail d e v h k =
    let e1 : DiskDevice = record e { readonly = false; shareable = false; address = [] } in
    let e2 : DiskDevice = record e1 { virtual_dev = some v; bus_type = d.bus_type } in
    let e3 : DiskDevice = record e2 { readonly = d.readonly } in
    let e4 : DiskDevice = record e3 { shareable = d.shareable } in
    rw h (
      reads_target e1 v d.bus_type _
      ∙ reads_readonly e2 d.readonly _
      ∙ reads_shareable e3 d.shareable _
      ∙ reads_address e4 d.address k)

-- what a block device reads as: the type is the one written, and no access mode is
abbrev pub block_as_read : DiskDevice → DiskDevice
block_as_read d = record d { type = some (codes "block"); access_mode = none }

-- the attributes of <disk> that are no property of a file
abbrev pub file_as_read : DiskDevice → DiskDevice
file_as_read d = record d {
  type = some (codes "file");
  access_mode = none;
  rawio = none;
  sgio = none;
}

pub get_rawio :
    (device : Bytes) (rawio sgio : Option Bytes)
    → let attrs =
        (codes "type", codes "block")
        ∷ (codes "device", device)
        ∷ attr_if (codes "rawio") rawio (attr_if (codes "sgio") sgio []) in
      (get_prop attrs (codes "rawio") ≡ rawio) × (get_prop attrs (codes "sgio") ≡ sgio)
unfolding get_prop strcmp_eq
get_rawio device none none = (refl, refl)
get_rawio device (some r) none = (refl, refl)
get_rawio device none (some s) = (refl, refl)
get_rawio device (some r) (some s) = (refl, refl)

-- the disk as it stands before its children
abbrev pub opened : Bytes → Bytes → Option Bytes → Option Bytes → DiskDevice
opened type device rawio sgio = record no_disk {
  type = some type;
  device = some device;
  rawio = rawio;
  sgio = sgio;
}

abbrev pub finish : Bytes → Option DiskDevice → Option VirtDevice
finish device o =
    o >>=? λ d. disk_device (cdrom_source (strcmp_eq device (codes "cdrom")) d.source d)

pub finish_given :
    (device : Bytes) (d : DiskDevice) (source virtual_dev : Bytes)
    → d.source ≡ some source
    → d.virtual_dev ≡ some virtual_dev
    → finish device (some d)
      ≡ some (record { type = disk; dev = disk_dev d; id = some virtual_dev })
finish_given device d source virtual_dev e h =
    elim (Bool-cases (strcmp_eq device (codes "cdrom"))) [
      | inl b ↦ rw (b, e, h) refl
      | inr b ↦ rw (b, e, h) refl
    ]

pub device_given :
    (d : DiskDevice) (source virtual_dev : Bytes)
    → d.source ≡ some source
    → d.virtual_dev ≡ some virtual_dev
    → disk_device d ≡ some (record { type = disk; dev = disk_dev d; id = some virtual_dev })
device_given d source virtual_dev e h = rw (e, h) refl

pub reads_source :
    (d : DiskDevice) (source : Bytes) (rest : Nodes)
    → (block_loop (source_node (codes "dev") source rest) d
        ≡ block_loop rest (record d { source = some source; disk_type = disk_phy }))
      × (block_loop (source_node (codes "file") source rest) d
          ≡ block_loop rest (record d { source = some source; disk_type = disk_file }))
unfolding each_child block_child get_attr_value get_prop strcmp_eq
reads_source d source rest = (refl, refl)

pub reads_disk :
    (attrs : List (Bytes × Bytes)) (children : Nodes) (type device : Bytes)
    (rawio sgio : Option Bytes) (e : DiskDevice) (vdev : VirtDevice)
    → get_prop attrs (codes "type") ≡ some type
    → get_prop attrs (codes "device") ≡ some device
    → get_prop attrs (codes "rawio") ≡ rawio
    → get_prop attrs (codes "sgio") ≡ sgio
    → block_loop children (opened type device rawio sgio) ≡ some e
    → finish device (some e) ≡ some vdev
    → parse_disk_device strcmp_eq (element (codes "disk") attrs [] children) ≡ one vdev
unfolding parse_disk_device parse_block_device get_attr_value strcmp_eq get_prop
reads_disk attrs children type device rawio sgio e vdev a b c f g h = ap parsed (
    ap
      (λ o. o >>=? λ ty. get_prop attrs (codes "device") >>=? λ dv.
        block_loop children
          (opened ty dv (get_prop attrs (codes "rawio")) (get_prop attrs (codes "sgio")))
        >>=? λ dd. finish dv (some dd))
      a
    ∙ ap
        (λ o. o >>=? λ dv.
          block_loop children
            (opened type dv (get_prop attrs (codes "rawio")) (get_prop attrs (codes "sgio")))
          >>=? λ dd. finish dv (some dd))
        b
    ∙ ap
        (λ r. block_loop children (opened type device r (get_prop attrs (codes "sgio"))) >>=? λ dd.
          finish device (some dd))
        c
    ∙ ap (λ r. block_loop children (opened type device rawio r) >>=? λ dd. finish device (some dd))
        f
    ∙ ap (λ o. o >>=? λ dd. finish device (some dd)) g
    ∙ h)
