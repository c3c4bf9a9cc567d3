-- ===== src/DeviceRasd.antt =====
-- src/Virt_VirtualSystemManagementService.c: rasd_to_vdev, which reads a resource of a request into a device,
-- with rasd_to_device_address. What libcmpiutil gives for a property of the resource is a parameter; `strdup`
-- and `asprintf` do not fail. Of a message, only that there is one is kept. A read through NULL is a fault,
-- `none`.
pub mod Memory
pub mod Disk
pub mod Shaped
pub mod Net
pub mod Graphics
pub mod Controller
pub mod Dispatch
pub mod Named
pub mod Converts
pub mod Answers
pub mod Requests
mod Samples
use libvirt_cim.Prelude.{
  ℕ, suc, ◌==◌, Bool, true, false, Option, none, some, List, [], ◌∷◌, Bytes, codes, if◌then◌else◌,
}
use libvirt_cim.Device.{Address, DiskType, VirtDevice}
use libvirt_cim.Device.Address.{add_device_address_property}

-- A resource: the class of its path, if it has one, and what cu_get_*_prop finds by the name of a property. An
-- element of an array may be null.
pub record Instance : Type 0 where
  pub class_name : Option Bytes
  pub str_prop : Bytes → Option Bytes
  pub u16_prop : Bytes → Option ℕ
  pub u32_prop : Bytes → Option ℕ
  pub u64_prop : Bytes → Option ℕ
  pub bool_prop : Bytes → Option Bool
  pub array_prop : Bytes → Option (List (Option Bytes))

-- What a resource is read with: STREQ, STREQC and STARTS_WITH; what disk_type_from_file gets of stat64; the
-- random number, if gettimeofday tells the time; the id of the pool that _default_network finds.
pub record Service : Type 0 where
  pub streq : Bytes → Bytes → Bool
  pub streqc : Bytes → Bytes → Bool
  pub starts_with : Bytes → Bytes → Bool
  pub file_type : Bytes → DiskType
  pub random : Option ℕ
  pub default_network : Option Bytes

-- whether there is no message, and the device
abbrev pub Made : Type 0
Made = Option (Bool × VirtDevice)

abbrev pub or_else {ℓ} : {A : Type ℓ} → A → Option A → A
or_else a none = a
or_else a (some b) = b

abbrev pub count : List (Option Bytes) → ℕ
count [] = 0
count (x ∷ list) = suc (count list)

-- go on with the address where the property was added
abbrev pub go_on_added :
    (Address → Option (Bool × Address)) → Bool × Address → Option (Bool × Address)
go_on_added rest (true, addr) = rest addr
go_on_added rest (false, addr) = some (false, addr)

-- Both tests of the loop are of the key, so a value that is null is read. The arrays are as long as each
-- other.
unfoldable pub add_properties :
    List (Option Bytes) → List (Option Bytes) → Address → Option (Bool × Address)
add_properties (none ∷ keys) (value ∷ values) addr = add_properties keys values addr
add_properties (some key ∷ keys) (none ∷ values) addr = none
add_properties (some key ∷ keys) (some value ∷ values) addr =
    go_on_added (add_properties keys values)
      (add_device_address_property addr (some key) (some value))
add_properties keys values addr = some (true, addr)

abbrev pub from_arrays :
    Option (List (Option Bytes)) → Option (List (Option Bytes)) → Address → Option (Bool × Address)
from_arrays (some keys) (some values) addr =
    if count keys == count values then add_properties keys values addr else some (false, addr)
from_arrays _ _ addr = some (true, addr)

-- whether there is no message, and the address
unfoldable pub rasd_to_device_address : Instance → Address → Option (Bool × Address)
rasd_to_device_address inst addr =
    from_arrays (inst.array_prop (codes "AddressProperties"))
      (inst.array_prop (codes "AddressValues")) addr
