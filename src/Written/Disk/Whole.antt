-- ===== src/Written/Disk/Whole.antt =====
-- A <disk> element as a whole, written by disk_block_xml or disk_file_xml and read by parse_disk_device.
use libvirt_cim.Prelude.{
  ◌≡◌, refl, ap, ◌∙◌, sym, Bool, true, false, Option, none, some, [], ◌∷◌, Bytes, codes, strcmp_eq,
  strcmp_eq→≡, if◌then◌else◌, Bool-cases, inl, inr,
}
use libvirt_cim.Xml.{Node, element, Nodes, get_prop, attr_if}
use libvirt_cim.Device.{DiskType, disk_unknown, disk_phy, disk_file, DiskDevice, disk_dev, disk}
use libvirt_cim.Device.Address.{DistinctKeys}
use libvirt_cim.DeviceParse.{one}
use libvirt_cim.DeviceParse.Disk.{parse_disk_device, disk_device, cdrom_source}
use libvirt_cim.XmlGen.Disk.{
  driver_xml, source_node, disk_tail_xml, no_disk_in, disk_block_xml, disk_file_xml,
}
use libvirt_cim.Written.Disk.Children.{
  DriverGiven, block_loop, reads_driver, reads_tail, reads_source, reads_disk, opened, finish,
  finish_given, device_given, get_rawio, block_as_read, file_as_read,
}

module _ (d : DiskDevice) (device source virtual_dev : Bytes) (is_device : d.device ≡ some device)
    (is_source : d.source ≡ some source) (is_target : d.virtual_dev ≡ some virtual_dev)
    (driver : DriverGiven d.driver d.driver_type d.cache) (keys : DistinctKeys d.address) where
  -- the disk after its driver
  abbrev driven : Bytes → Option Bytes → Option Bytes → DiskDevice
  driven type rawio sgio = record (opened type device rawio sgio) {
    driver = d.driver;
    driver_type = d.driver_type;
    cache = d.cache;
  }

  -- the disk after all children
  abbrev complete : Bytes → Option Bytes → Option Bytes → Option Bytes → DiskType → DiskDevice
  complete type rawio sgio src disk_type = record d {
    type = some type;
    device = some device;
    rawio = rawio;
    sgio = sgio;
    source = src;
    disk_type = disk_type;
    access_mode = none;
  }

  -- a source that is written, and none
  children_with :
      (type name : Bytes) (rawio sgio : Option Bytes) (disk_type : DiskType)
      → ((e : DiskDevice) (rest : Nodes)
          → block_loop (source_node name source rest) e
            ≡ block_loop rest (record e { source = some source; disk_type = disk_type }))
      → block_loop
          (driver_xml d.driver d.driver_type d.cache (source_node name source (disk_tail_xml d)))
          (opened type device rawio sgio)
        ≡ some (complete type rawio sgio (some source) disk_type)
  children_with type name rawio sgio disk_type reads =
      reads_driver (opened type device rawio sgio) d.driver d.driver_type d.cache _ driver
      ∙ reads (driven type rawio sgio) _
      ∙ reads_tail d
          (record (driven type rawio sgio) { source = some source; disk_type = disk_type })
          virtual_dev is_target keys

  children_without :
      (type : Bytes) (rawio sgio : Option Bytes)
      → block_loop
          (driver_xml d.driver d.driver_type d.cache (disk_tail_xml d))
          (opened type device rawio sgio)
        ≡ some (complete type rawio sgio none disk_unknown)
  children_without type rawio sgio =
      reads_driver (opened type device rawio sgio) d.driver d.driver_type d.cache _ driver
      ∙ reads_tail d (driven type rawio sgio) virtual_dev is_target keys

  complete_lem :
      (type : Bytes) (rawio sgio : Option Bytes) (disk_type : DiskType)
      → d.disk_type ≡ disk_type
      → complete type rawio sgio (some source) disk_type
        ≡ record d { type = some type; access_mode = none; rawio = rawio; sgio = sgio }
  complete_lem type rawio sgio disk_type t = rw (is_device, is_source, t) refl

  abbrev block_node : Node
  block_node =
      element (codes "disk")
        ((codes "type", codes "block")
          ∷ (codes "device", device)
          ∷ attr_if (codes "rawio") d.rawio (attr_if (codes "sgio") d.sgio []))
        []
        (driver_xml d.driver d.driver_type d.cache
          (source_node (codes "dev") source (disk_tail_xml d)))

  block_node_lem :
      strcmp_eq source (codes "/dev/null") ≡ false → disk_block_xml strcmp_eq d ≡ block_node
  unfolding disk_block_xml
  block_node_lem n = rw (is_device, is_source, n) refl

  with_id :
      (e : DiskDevice)
      → e.source ≡ some source
      → e.virtual_dev ≡ some virtual_dev
      → finish device (some e) ≡ some (record { type = disk; dev = disk_dev e; id = d.virtual_dev })
  with_id e h k =
      finish_given device e source virtual_dev h k
      ∙ ap (λ v. some (record { type = disk; dev = disk_dev e; id = v })) (sym is_target)

  pub reads_block :
      strcmp_eq source (codes "/dev/null") ≡ false
      → d.disk_type ≡ disk_phy
      → parse_disk_device strcmp_eq (disk_block_xml strcmp_eq d)
        ≡ one (record { type = disk; dev = disk_dev (block_as_read d); id = d.virtual_dev })
  unfolding get_prop strcmp_eq
  reads_block n t =
      let both = get_rawio device d.rawio d.sgio in
      ap (parse_disk_device strcmp_eq) (block_node_lem n)
      ∙ reads_disk _ _ (codes "block") device d.rawio d.sgio (block_as_read d) _ refl refl both.0
          both.1
          (children_with (codes "block") (codes "dev") d.rawio d.sgio disk_phy
              (λ e rest. (reads_source e source rest).0)
            ∙ ap some (complete_lem (codes "block") d.rawio d.sgio disk_phy t))
          (with_id (block_as_read d) is_source is_target)

  abbrev file_node : Nodes → Node
  file_node children =
      element (codes "disk") ((codes "type", codes "file") ∷ (codes "device", device) ∷ []) []
        (driver_xml d.driver d.driver_type d.cache children)

  file_node_lem :
      (b : Bool)
      → no_disk_in strcmp_eq (some device) source ≡ b
      → disk_file_xml strcmp_eq d
        ≡ file_node
            (if b then disk_tail_xml d else source_node (codes "file") source (disk_tail_xml d))
  unfolding disk_file_xml
  file_node_lem b n = rw (is_device, is_source, n) refl

  reads_file_with :
      no_disk_in strcmp_eq (some device) source ≡ false
      → d.disk_type ≡ disk_file
      → parse_disk_device strcmp_eq (disk_file_xml strcmp_eq d)
        ≡ one (record { type = disk; dev = disk_dev (file_as_read d); id = d.virtual_dev })
  unfolding get_prop strcmp_eq
  reads_file_with n t =
      ap (parse_disk_device strcmp_eq) (file_node_lem false n)
      ∙ reads_disk _ _ (codes "file") device none none (file_as_read d) _ refl refl refl refl
          (children_with (codes "file") (codes "file") none none disk_file
              (λ e rest. (reads_source e source rest).1)
            ∙ ap some (complete_lem (codes "file") none none disk_file t))
          (with_id (file_as_read d) is_source is_target)

  -- a cdrom with no disk in it: the parser makes the source up
  finish_cdrom :
      strcmp_eq device (codes "cdrom") ≡ true
      → source ≡ []
      → d.disk_type ≡ disk_file
      → finish device (some (complete (codes "file") none none none disk_unknown))
        ≡ some (record { type = disk; dev = disk_dev (file_as_read d); id = d.virtual_dev })
  finish_cdrom c n t =
      ap
        (λ b.
          disk_device (cdrom_source b none (complete (codes "file") none none none disk_unknown)))
        c
      ∙ ap (λ o. disk_device (complete (codes "file") none none (some o) disk_file)) (sym n)
      ∙ ap disk_device (complete_lem (codes "file") none none disk_file t)
      ∙ device_given (file_as_read d) source virtual_dev is_source is_target
      ∙ ap (λ v. some (record { type = disk; dev = disk_dev (file_as_read d); id = v }))
          (sym is_target)

  reads_file_without :
      strcmp_eq device (codes "cdrom") ≡ true
      → source ≡ []
      → d.disk_type ≡ disk_file
      → parse_disk_device strcmp_eq (disk_file_xml strcmp_eq d)
        ≡ one (record { type = disk; dev = disk_dev (file_as_read d); id = d.virtual_dev })
  unfolding get_prop strcmp_eq
  reads_file_without c n t =
      ap (parse_disk_device strcmp_eq) (file_node_lem true (rw (c, n) refl))
      ∙ reads_disk _ _ (codes "file") device none none _ _ refl refl refl refl
          (children_without (codes "file") none none) (finish_cdrom c n t)

  pub reads_file :
      d.disk_type ≡ disk_file
      → parse_disk_device strcmp_eq (disk_file_xml strcmp_eq d)
        ≡ one (record { type = disk; dev = disk_dev (file_as_read d); id = d.virtual_dev })
  reads_file t = elim (Bool-cases (strcmp_eq device (codes "cdrom"))) [
    | inr c ↦ reads_file_with (rw c refl) t
    | inl c ↦ elim (Bool-cases (strcmp_eq source [])) [
      | inl n ↦ reads_file_without c (strcmp_eq→≡ source [] n) t
      | inr n ↦ reads_file_with (rw (c, n) refl) t
    ]
  ]
