-- ===== src/DeviceRasd/Shaped.antt =====
-- What a disk that a request describes has.
use libvirt_cim.Prelude.{
  ℕ, ◌==◌, ◌≡◌, ◌≢◌, refl, Bool, true, false, ◌&&◌, ◌||◌, Option, none, some, [], Bytes, codes,
  Bool-cases, inl, inr, subst,
}
use libvirt_cim.Device.{
  all, Address, DiskType, disk_unknown, disk_phy, disk_file, disk_fs, DiskDevice, no_disk, disk_dev,
  VirtDevice,
}
use libvirt_cim.DeviceRasd.{Instance, Made, or_else, rasd_to_device_address}
use libvirt_cim.DeviceRasd.Disk.{
  is_unknown, known, cdrom_made, with_device, addressed, with_properties, finished, started_disk,
  targeted, disk_rasd_to_vdev,
}

-- A disk with a device, a source and the target; only that of a floppy may be of no known kind.
abbrev pub Shaped : Bytes → DiskDevice → Type 0
Shaped target d =
    (device : Bytes) × (source : Bytes) × (d.device ≡ some device)
    × (d.source ≡ some source)
    × (d.virtual_dev ≡ some target)
    × (d.disk_type ≡ disk_unknown → device ≡ codes "floppy")

abbrev ShapedIf : Bytes → Option DiskDevice → Type 0
ShapedIf target none = Unit
ShapedIf target (some d) = Shaped target d

not_unknown : (t : DiskType) → is_unknown t ≡ false → t ≢ disk_unknown
not_unknown disk_unknown h = absurd (cc)
not_unknown disk_phy h = λ e. absurd (cc)
not_unknown disk_file h = λ e. absurd (cc)
not_unknown disk_fs h = λ e. absurd (cc)

known-known : (t : DiskType) → is_unknown (known t) ≡ false
known-known disk_unknown = refl
known-known disk_phy = refl
known-known disk_file = refl
known-known disk_fs = refl

module _ (streq : Bytes → Bytes → Bool) (target source : Bytes) where
  seen :
      (t : DiskType) (device : Bytes)
      → is_unknown t ≡ false
      → Shaped target (record no_disk {
        device = some device;
        source = some source;
        virtual_dev = some target;
        disk_type = t;
      })
  seen t device h = (device, source, refl, refl, refl, λ e. absurd (not_unknown t h e))

  cdrom-Shaped :
      (t : DiskType)
      → Shaped target (
          cdrom_made streq source (record no_disk {
            device = some (codes "cdrom");
            source = some source;
            virtual_dev = some target;
            disk_type = t;
          }))
  unfolding cdrom_made
  cdrom-Shaped t = elim (Bool-cases (streq source [])) [
    | inl a ↦ rw a (codes "cdrom", source, refl, refl, refl, λ e. absurd (cc))
    | inr a ↦ elim (Bool-cases (streq source (codes "/dev/null"))) [
      | inl b ↦ rw (a, b) (codes "cdrom", [], refl, refl, refl, λ e. absurd (cc))
      | inr b ↦
          rw (a, b)
            (
              codes "cdrom",
              source,
              refl,
              refl,
              refl,
              λ e. absurd (not_unknown (known t) (known-known t) e),
            )
    ]
  ]

  with_device-Shaped :
      (t : DiskType) (type : ℕ)
      → ((type == 0 || type == 3 || type == 4) && is_unknown t) ≡ false
      → ShapedIf target (
          with_device streq type source
            (record no_disk { source = some source; virtual_dev = some target; disk_type = t }))
  unfolding with_device
  with_device-Shaped t type h = elim (Bool-cases (type == 0)) [
    | inl a ↦ rw a (seen t (codes "disk") (rw a at h))
    | inr a ↦ elim (Bool-cases (type == 1)) [
      | inl b ↦ rw (a, b) (cdrom-Shaped t)
      | inr b ↦ elim (Bool-cases (type == 2)) [
        | inl c ↦ rw (a, b, c) (codes "floppy", source, refl, refl, refl, λ e. refl)
        | inr c ↦ elim (Bool-cases (type == 3)) [
          | inl d ↦ rw (a, b, c, d) (seen t (codes "filesystem") (rw (a, d) at h))
          | inr d ↦ elim (Bool-cases (type == 4)) [
            | inl e ↦ rw (a, b, c, d, e) (seen t (codes "lun") (rw (a, d, e) at h))
            | inr e ↦ rw (a, b, c, d, e) tt
          ]
        ]
      ]
    ]
  ]

abbrev MadeShaped : Option Bytes → Made → Type 0
MadeShaped o none = Unit
MadeShaped o (some (false, v)) = Unit
MadeShaped o (some (true, v)) =
    (d : DiskDevice) × (target : Bytes) × (o ≡ some target)
    × Shaped target d
    × (v ≡ record { type = all; dev = disk_dev d; id = some target })

addressed_made :
    (streq : Bytes → Bytes → Bool) (target : Bytes) (d : DiskDevice) (r : Option (Bool × Address))
    → Shaped target d
    → MadeShaped (some target) (addressed streq target d r)
addressed_made streq target d none s = tt
addressed_made streq target d (some (false, addr)) s = tt
addressed_made streq target d (some (true, addr)) s =
    (record d { address = addr }, target, refl, s, refl)

finished_made :
    (streq : Bytes → Bytes → Bool) (inst : Instance) (target : Bytes) (started : DiskDevice)
    (o : Option DiskDevice)
    → ShapedIf target o
    → MadeShaped (some target) (finished streq inst target started o)
finished_made streq inst target started none s = tt
finished_made streq inst target started (some d) s =
    addressed_made streq target (with_properties streq inst d) (rasd_to_device_address inst []) s

targeted_made :
    (streq : Bytes → Bytes → Bool) (inst : Instance) (type : ℕ) (target source : Bytes)
    (t : DiskType)
    → MadeShaped (some target) (
        started_disk streq inst type target source
          (record no_disk { source = some source; virtual_dev = some target; disk_type = t }))
targeted_made streq inst type target source t =
    elim (Bool-cases ((type == 0 || type == 3 || type == 4) && is_unknown t)) [
      | inl e ↦ rw e tt
      | inr e ↦
          rw e
            (finished_made streq inst target _ _ (with_device-Shaped streq target source t type e))
    ]

by_target :
    (streq : Bytes → Bytes → Bool) (file_type : Bytes → DiskType) (inst : Instance)
    (dev : VirtDevice) (o : Option Bytes)
    → MadeShaped o (elim o [
      | none ↦ some (false, dev)
      | some target ↦
          targeted streq file_type inst target
            (or_else (codes "/dev/null") (inst.str_prop (codes "Address")))
    ])
by_target streq file_type inst dev none = tt
by_target streq file_type inst dev (some target) =
    let source : Bytes = or_else (codes "/dev/null") (inst.str_prop (codes "Address")) in
    targeted_made streq inst (or_else 0 (inst.u16_prop (codes "EmulatedType"))) target source
      (file_type source)

-- A disk that disk_rasd_to_vdev makes without a message, whatever the device was before, has the
-- VirtualDevice of the request as its id and as its target, has a device and a source, and is a block
-- device, a file or a directory unless it is a floppy.
pub disk_rasd_to_vdev-Shaped :
    (streq : Bytes → Bytes → Bool) (file_type : Bytes → DiskType) (inst : Instance)
    (dev v : VirtDevice)
    → disk_rasd_to_vdev streq file_type inst dev ≡ some (true, v)
    → (d : DiskDevice) × (target : Bytes) × (inst.str_prop (codes "VirtualDevice") ≡ some target)
      × Shaped target d
      × (v ≡ record { type = all; dev = disk_dev d; id = some target })
unfolding disk_rasd_to_vdev
disk_rasd_to_vdev-Shaped streq file_type inst dev v e =
    subst (MadeShaped (inst.str_prop (codes "VirtualDevice"))) e
      (by_target streq file_type inst dev (inst.str_prop (codes "VirtualDevice")))
