-- ===== src/DeviceRasd/Memory.antt =====
-- mem_rasd_to_vdev: a quantity in any unit becomes one of KiB.
use libvirt_cim.Prelude.{
  ℕ, ◌*◌, ◌/◌, ◌%◌, ◌^◌, ◌<◌, ◌≡◌, refl, ap, ◌∙◌, ◌↔◌, Bool, true, false, Option, none, some, Bytes,
  codes, if◌then◌else◌, arith, strcmp_eq,
}
use libvirt_cim.Compare.{lower, caseless, streqc-caseless}
use libvirt_cim.Device.{DumpCore, not_set, on, off, MemDevice}
use libvirt_cim.DeviceRasd.{Instance, or_else}

abbrev pub dump_core_prop : Option Bool → DumpCore
dump_core_prop none = not_set
dump_core_prop (some true) = on
dump_core_prop (some false) = off

-- `shift`; a negative one shifts right
pub data Shift : Type 0 where
  right left : ℕ → Shift

-- a shift of a uint64_t
abbrev pub shifted : Shift → ℕ → ℕ
shifted (right n) q = q / 2 ^ n
shifted (left n) q = q * 2 ^ n % 2 ^ 64

abbrev pub first_of {ℓ} : {A : Type ℓ} → Option A → Option A → Option A
first_of (some a) other = some a
first_of none other = other

module _ (streqc : Bytes → Bytes → Bool) where
  unfoldable pub shift_of : Bytes → Option Shift
  shift_of units =
      if streqc units (codes "Bytes")
      then some (right 10)
      else if streqc units (codes "KiloBytes")
      then some (left 0)
      else if streqc units (codes "MegaBytes")
      then some (left 10)
      else if streqc units (codes "GigaBytes")
      then some (left 20)
      else none

  -- both quantities shifted; a unit that is not known is a message
  abbrev pub in_units : Option Shift → MemDevice → Bool × MemDevice
  in_units none m = (false, m)
  in_units (some s) m = (true, record m { size = shifted s m.size; maxsize = shifted s m.maxsize })

  -- with the quantity that was asked for, if any
  abbrev pub sized : Instance → Option ℕ → MemDevice → Bool × MemDevice
  sized inst none m = (false, m)
  sized inst (some size) m =
      in_units (shift_of (or_else (codes "Bytes") (inst.str_prop (codes "AllocationUnits"))))
        (record m { size = size; maxsize = or_else size (inst.u64_prop (codes "Limit")) })

  unfoldable pub mem_rasd_to_vdev : Instance → MemDevice → Bool × MemDevice
  mem_rasd_to_vdev inst m =
      sized inst
        (first_of (inst.u64_prop (codes "VirtualQuantity")) (inst.u64_prop (codes "Reservation")))
        (record m { dump_core = dump_core_prop (inst.bool_prop (codes "dumpCore")) })

-- The units that a request may name, and how many bytes each has.
pub data MemUnit : Type 0 where
  byte kilobyte megabyte gigabyte : MemUnit

abbrev pub unit_name : MemUnit → Bytes
unit_name byte = codes "Bytes"
unit_name kilobyte = codes "KiloBytes"
unit_name megabyte = codes "MegaBytes"
unit_name gigabyte = codes "GigaBytes"

abbrev pub unit_bytes : MemUnit → ℕ
unit_bytes byte = 1
unit_bytes kilobyte = 1024
unit_bytes megabyte = 1048576
unit_bytes gigabyte = 1073741824

-- the shift by which a unit becomes KiB
abbrev unit_shift : MemUnit → Shift
unit_shift byte = right 10
unit_shift kilobyte = left 0
unit_shift megabyte = left 10
unit_shift gigabyte = left 20

shift_of-unit :
    (u : MemUnit) (units : Bytes)
    → lower units ≡ lower (unit_name u)
    → shift_of caseless units ≡ some (unit_shift u)
unfolding shift_of caseless strcmp_eq
shift_of-unit byte units e = rw e refl
shift_of-unit kilobyte units e = rw e refl
shift_of-unit megabyte units e = rw e refl
shift_of-unit gigabyte units e = rw e refl

-- in KiB, rounded down
shifted-unit :
    (u : MemUnit) (q : ℕ)
    → q * unit_bytes u / 1024 < 2 ^ 64
    → shifted (unit_shift u) q ≡ q * unit_bytes u / 1024
shifted-unit byte q h = omega (arith, h)
shifted-unit kilobyte q h = omega (arith, h)
shifted-unit megabyte q h = omega (arith, h)
shifted-unit gigabyte q h = omega (arith, h)

-- Where STREQC compares strings but for the case of letters, and the request names one of four units, Bytes
-- if it names none, the memory that is asked for and its limit, which is the same if there is none, are
-- given in KiB, rounded down, if 64 bits hold these.
pub mem_rasd_to_vdev-kib :
    (streqc : Bytes → Bytes → Bool)
    → ((s t : Bytes) → (streqc s t ≡ true) ↔ (lower s ≡ lower t))
    → (inst : Instance) (m : MemDevice) (u : MemUnit) (q l : ℕ)
    → first_of (inst.u64_prop (codes "VirtualQuantity")) (inst.u64_prop (codes "Reservation"))
      ≡ some q
    → or_else q (inst.u64_prop (codes "Limit")) ≡ l
    → lower (or_else (codes "Bytes") (inst.str_prop (codes "AllocationUnits")))
      ≡ lower (unit_name u)
    → q * unit_bytes u / 1024 < 2 ^ 64
    → l * unit_bytes u / 1024 < 2 ^ 64
    → mem_rasd_to_vdev streqc inst m ≡ (
      true,
      record {
        size = q * unit_bytes u / 1024;
        maxsize = l * unit_bytes u / 1024;
        dump_core = dump_core_prop (inst.bool_prop (codes "dumpCore"));
      },
    )
unfolding mem_rasd_to_vdev
mem_rasd_to_vdev-kib streqc streqc_iff inst m u q l eq el eu hq hl =
    let dump : DumpCore = dump_core_prop (inst.bool_prop (codes "dumpCore")) in
    let units : Bytes = or_else (codes "Bytes") (inst.str_prop (codes "AllocationUnits")) in
    ap (λ o. sized streqc inst o (record m { dump_core = dump })) eq
    ∙ ap
        (λ f. in_units f (shift_of f units) (record {
          size = q;
          maxsize = or_else q (inst.u64_prop (codes "Limit"));
          dump_core = dump;
        }))
        (streqc-caseless streqc streqc_iff)
    ∙ ap
        (λ o. in_units caseless o (record {
          size = q;
          maxsize = or_else q (inst.u64_prop (codes "Limit"));
          dump_core = dump;
        }))
        (shift_of-unit u units eu)
    ∙ ap
        (λ x. (
          true,
          record {
            size = shifted (unit_shift u) q;
            maxsize = shifted (unit_shift u) x;
            dump_core = dump;
          },
        ))
        el
    ∙ ap (λ x. (true, record { size = x; maxsize = shifted (unit_shift u) l; dump_core = dump }))
        (shifted-unit u q hq)
    ∙ ap (λ x. (true, record { size = q * unit_bytes u / 1024; maxsize = x; dump_core = dump }))
        (shifted-unit u l hl)
