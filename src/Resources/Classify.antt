-- ===== src/Resources/Classify.antt =====
-- add_device_nodup and classify_resources. make_space gives each list the slots it has and one for each
-- resource of the request: `cap` counts them, and a write past them is a fault.
use libvirt_cim.Prelude.{
  ℕ, suc, ◌+◌, ◌==◌, ltb, Bool, true, false, Option, none, some, List, [], ◌∷◌, ◌++◌, Bytes, length,
  if◌then◌else◌,
}
use libvirt_cim.Device.{
  ResType, net, disk, proc, mem, graphics, console, input, controller, Dev, disk_dev, VirtDevice,
}
use libvirt_cim.Resources.{
  Domain, Field, f_net, f_disk, f_vcpu, f_mem, f_graphics, f_console, f_input, f_controller, get,
  set, zeroed,
}

-- What adding a device does: the list as it is then, a message, or a fault.
pub data Added : Type 0 where
  placed : List VirtDevice → Added
  absent not_unique no_slots fault : Added

abbrev pub after : VirtDevice → Added → Added
after ptr (placed list) = placed (ptr ∷ list)
after ptr r = r

abbrev pub virtual_dev_of : Dev → Option Bytes
virtual_dev_of (disk_dev d) = d.virtual_dev
virtual_dev_of _ = none

-- each list has room for this many devices
abbrev pub Caps : Type 0
Caps = Field → ℕ

abbrev pub make_space : Domain → ℕ → Caps
make_space domain count f = length (get domain f) + count

module _ (streqc : Bytes → Bytes → Bool) where
  -- STREQC of strings that may be NULL
  abbrev pub same : Option Bytes → Option Bytes → Option Bool
  same (some s) (some t) = some (streqc s t)
  same _ _ = none

  -- two disks with the same target
  abbrev pub target_taken : ResType → VirtDevice → VirtDevice → Option Bool
  target_taken disk ptr dev = same (virtual_dev_of ptr.dev) (virtual_dev_of dev.dev)
  target_taken _ ptr dev = some false

  -- one round of the loop, with what the rest of it gives
  abbrev pub add_round :
      Option Bool → Option Bool → VirtDevice → VirtDevice → List VirtDevice → Added → Added
  add_round none same_id ptr dev list rest = fault
  add_round (some true) same_id ptr dev list rest = not_unique
  add_round (some false) none ptr dev list rest = fault
  add_round (some false) (some true) ptr dev list rest = placed (dev ∷ list)
  add_round (some false) (some false) ptr dev list rest = after ptr rest

  unfoldable pub add_loop : VirtDevice → List VirtDevice → Added
  add_loop dev [] = absent
  add_loop dev (ptr ∷ list) =
      add_round (target_taken dev.type ptr dev) (same ptr.id dev.id) ptr dev list
        (add_loop dev list)

  -- a new device is written behind the others
  abbrev pub add_behind : ℕ → ℕ → VirtDevice → List VirtDevice → Added → Added
  add_behind cap max dev list absent =
      if length list == max
      then no_slots
      else if ltb (length list) cap
      then placed (list ++ (dev ∷ []))
      else fault
  add_behind cap max dev list r = r

  unfoldable pub add_device_nodup : ℕ → ℕ → VirtDevice → List VirtDevice → Added
  add_device_nodup cap max dev list = add_behind cap max dev list (add_loop dev list)

  -- `true` is no message
  abbrev pub Classified : Type 0
  Classified = Option (Bool × Domain)

  abbrev pub store : Domain → Field → Added → Classified
  store domain f (placed list) = some (true, set domain f list)
  store domain f absent = some (false, domain)
  store domain f not_unique = some (false, domain)
  store domain f no_slots = some (false, domain)
  store domain f fault = none

  abbrev pub first_of : List VirtDevice → VirtDevice
  first_of [] = zeroed
  first_of (d ∷ list) = d

  module _ {ℓ} (Rasd : Type ℓ) (res_type : Rasd → Option ResType)
      (rasd_to_vdev : Rasd → VirtDevice → Bool × VirtDevice) (count : ℕ) (caps : Caps) where
    -- disks, interfaces, graphics and controllers; `max` is computed from the count of devices now
    abbrev pub by_nodup : Field → Rasd → Domain → Classified
    by_nodup f inst domain =
        let (ok, dev) = rasd_to_vdev inst zeroed in
        if ok
        then store domain f
            (add_device_nodup (caps f) (count + length (get domain f)) dev (get domain f))
        else some (false, domain)

    -- the only device of its kind, written over the first one
    abbrev pub the_one : Field → Rasd → Domain → Classified
    the_one f inst domain =
        let (ok, dev) = rasd_to_vdev inst (first_of (get domain f)) in
        if ltb 0 (caps f) then some (ok, set domain f (dev ∷ [])) else none

    -- consoles are only appended
    abbrev pub append_console : Rasd → Domain → Classified
    append_console inst domain =
        let (ok, dev) = rasd_to_vdev inst zeroed in
        if ltb (length domain.dev_console) (caps f_console)
        then some (
            if ok
            then (true, record domain { dev_console = domain.dev_console ++ (dev ∷ []) })
            else (false, domain))
        else none

    unfoldable pub classify_one : ResType → Rasd → Domain → Classified
    classify_one proc inst domain = the_one f_vcpu inst domain
    classify_one mem inst domain = the_one f_mem inst domain
    classify_one disk inst domain = by_nodup f_disk inst domain
    classify_one net inst domain = by_nodup f_net inst domain
    classify_one graphics inst domain = by_nodup f_graphics inst domain
    classify_one console inst domain = append_console inst domain
    classify_one input inst domain = the_one f_input inst domain
    classify_one controller inst domain = by_nodup f_controller inst domain
    classify_one _ inst domain = some (true, domain)

    abbrev pub classify_typed : Option ResType → Rasd → Domain → Classified
    classify_typed none inst domain = some (false, domain)
    classify_typed (some type) inst domain = classify_one type inst domain

    -- go on where there was no message
    abbrev pub next : (Domain → Classified) → Classified → Classified
    next rest none = none
    next rest (some (true, domain)) = rest domain
    next rest (some (false, domain)) = some (false, domain)

    unfoldable pub classify_loop : List Rasd → Domain → Classified
    classify_loop [] domain = some (true, domain)
    classify_loop (inst ∷ resources) domain =
        next (classify_loop resources) (classify_typed (res_type inst) inst domain)

  unfoldable pub classify_resources {ℓ} :
      (Rasd : Type ℓ)
      → (Rasd → Option ResType)
      → (Rasd → VirtDevice → Bool × VirtDevice)
      → List Rasd
      → Domain
      → Classified
  classify_resources Rasd res_type rasd_to_vdev [] domain = some (false, domain)
  classify_resources Rasd res_type rasd_to_vdev (inst ∷ resources) domain =
      let count = suc (length resources) in
      classify_loop Rasd res_type rasd_to_vdev count (make_space domain count) (inst ∷ resources)
        domain
