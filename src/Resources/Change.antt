-- ===== src/Resources/Change.antt =====
-- domain_online in libxkutil/misc_util.c, and _resource_dynamic, resource_del, resource_add and
-- resource_mod. The quality of service that is set for a libvirt before 0.9.0 is left out.
use libvirt_cim.Prelude.{
  Bool, true, false, Option, none, some, List, [], ◌∷◌, ◌++◌, Bytes, codes, if◌then◌else◌, ◌>>=?◌,
}
use libvirt_cim.Cmpi.{Rc, rc_ok, rc_err_failed, rc_err_not_found, rc_err_invalid_parameter}
use libvirt_cim.Host.{LvState, blocked, running, nostate, Host}
use libvirt_cim.Device.{
  ResType, unknown, proc, mem, graphics, console, input, controller, VirtDevice,
}
use libvirt_cim.XmlGen.Single.{Running, attach_device, detach_device, change_device}
use libvirt_cim.Resources.{Domain, Field, get, set, find_list, zeroed}

-- blocked and running, and no state on Xen only
abbrev pub online_state : Bool → LvState → Bool
online_state is_xen blocked = true
online_state is_xen running = true
online_state is_xen nostate = is_xen
online_state is_xen _ = false

module _ (h : Host) where
  open h use {
    World, Dom, Conn, streqc, domain_get_connect, connect_get_type, domain_lookup, domain_get_name,
    domain_get_info,
  }

  -- a connection that is NULL has no domains
  unfoldable pub domain_online : Dom → World → Bool
  domain_online dom w = elim (domain_get_connect dom) [
    | none ↦ false
    | some conn ↦ elim (domain_lookup conn (domain_get_name dom) w) [
      | none ↦ false
      | some found ↦ elim (domain_get_info found w) [
        | none ↦ false
        | some state ↦ online_state (streqc (connect_get_type conn) (codes "Xen")) state
      ]
    ]
  ]

-- What _resource_dynamic gets to know: the status and the outcome of connect_by_classname, whether libvirt
-- has the domain and it is online, and the calls on it. update_dominfo, whose status is not looked at, is
-- left out.
pub record Target : Type 0 where
  pub status : Rc
  pub connected : Bool
  pub found : Bool
  pub online : Bool
  pub dom : Running

pub data Action : Type 0 where
  resource_add_action resource_del_action resource_mod_action : Action

module _ (streq streqc : Bytes → Bytes → Bool) where
  abbrev pub dynamic_func : Action → Running → VirtDevice → Bool
  dynamic_func resource_add_action dom dev = attach_device streq streqc dom dev
  dynamic_func resource_del_action dom dev = detach_device streq streqc dom dev
  dynamic_func resource_mod_action dom dev = change_device streq streqc dom dev

  unfoldable pub resource_dynamic : Target → VirtDevice → Action → Rc
  resource_dynamic t dev action =
      if t.connected
      then (if t.found
          then (if t.online
              then (if dynamic_func action t.dom dev then rc_ok else rc_err_failed)
              else rc_ok)
          else rc_err_not_found)
      else t.status

  -- graphics, consoles and input devices are not changed on the running domain
  abbrev pub dynamic_by_type : Target → ResType → VirtDevice → Action → Rc
  dynamic_by_type t graphics dev action = rc_ok
  dynamic_by_type t console dev action = rc_ok
  dynamic_by_type t input dev action = rc_ok
  dynamic_by_type t _ dev action = resource_dynamic t dev action

  -- The status, and the domain; `none` is a read through NULL.
  abbrev pub Outcome : Type 0
  Outcome = Option (Rc × Domain)

  -- the first device with the id: its status, and the list with it changed
  abbrev pub on_match :
      Option Bool
      → (VirtDevice → Rc × VirtDevice)
      → VirtDevice
      → List VirtDevice
      → Option (Rc × List VirtDevice)
      → Option (Rc × List VirtDevice)
  on_match none change dev list rest = none
  on_match (some true) change dev list rest = let (rc, dev') = change dev in some (rc, dev' ∷ list)
  on_match (some false) change dev list rest = rest >>=? λ r. some (r.0, dev ∷ r.1)

  abbrev pub id_is : Option Bytes → Bytes → Option Bool
  id_is none devid = none
  id_is (some id) devid = some (streq id devid)

  unfoldable pub change_first :
      (VirtDevice → Rc × VirtDevice) → Bytes → List VirtDevice → Option (Rc × List VirtDevice)
  change_first change devid [] = some (rc_err_failed, [])
  change_first change devid (dev ∷ list) =
      on_match (id_is dev.id devid) change dev list (change_first change devid list)

  abbrev pub stored : Domain → Field → Option (Rc × List VirtDevice) → Outcome
  stored dominfo f none = none
  stored dominfo f (some (rc, list)) = some (rc, set dominfo f list)

  -- whatever the status, the device is then of no type
  abbrev pub delete_device : Target → ResType → VirtDevice → Rc × VirtDevice
  delete_device t type dev =
      (dynamic_by_type t type dev resource_del_action, record dev { type = unknown })

  -- NULL where there are no devices
  abbrev pub delete_listed : Target → ResType → Bytes → List VirtDevice → Field → Domain → Outcome
  delete_listed t type devid [] f dominfo = some (rc_err_failed, dominfo)
  delete_listed t type devid (dev ∷ list) f dominfo =
      stored dominfo f (change_first (delete_device t type) devid (dev ∷ list))

  -- the NULL of find_list is read through
  abbrev pub delete_from : Target → Domain → ResType → Bytes → Option Field → Outcome
  delete_from t dominfo type devid none = none
  delete_from t dominfo type devid (some f) = delete_listed t type devid (get dominfo f) f dominfo

  unfoldable pub resource_del : Target → Domain → ResType → Option Bytes → Outcome
  resource_del t dominfo type none = some (rc_err_invalid_parameter, dominfo)
  resource_del t dominfo mem (some devid) = some (rc_err_failed, dominfo)
  resource_del t dominfo proc (some devid) = some (rc_err_failed, dominfo)
  resource_del t dominfo type (some devid) = delete_from t dominfo type devid (find_list type)

  module _ {ℓ} (Rasd : Type ℓ) (rasd_to_vdev : Rasd → VirtDevice → Bool × VirtDevice) where
    abbrev pub counted : Domain → Field → VirtDevice → Rc → Rc × Domain
    counted dominfo f dev rc_ok = (rc_ok, set dominfo f (get dominfo f ++ (dev ∷ [])))
    counted dominfo f dev rc = (rc, dominfo)

    -- the status of a device that was read, which counts if there is no error
    abbrev pub add_status : Target → ResType → VirtDevice → Rc
    add_status t controller dev = elim dev.id [
      | none ↦ rc_err_failed
      | some id ↦ dynamic_by_type t controller dev resource_add_action
    ]
    add_status t type dev = dynamic_by_type t type dev resource_add_action

    abbrev pub add_to : Target → Domain → Rasd → ResType → Option Field → Rc × Domain
    add_to t dominfo rasd type none = (rc_err_failed, dominfo)
    add_to t dominfo rasd type (some f) =
        let (ok, dev) = rasd_to_vdev rasd zeroed in
        if ok then counted dominfo f dev (add_status t type dev) else (rc_err_failed, dominfo)

    unfoldable pub resource_add : Target → Domain → Rasd → ResType → Rc × Domain
    resource_add t dominfo rasd mem = (rc_err_failed, dominfo)
    resource_add t dominfo rasd proc = (rc_err_failed, dominfo)
    resource_add t dominfo rasd type = add_to t dominfo rasd type (find_list type)

    -- the device is read over, also where that fails half way
    abbrev pub modify_device : Target → Rasd → ResType → VirtDevice → Rc × VirtDevice
    modify_device t rasd type dev =
        let (ok, dev') = rasd_to_vdev rasd dev in
        (if ok then dynamic_by_type t type dev' resource_mod_action else rc_err_failed, dev')

    abbrev pub modify_in : Target → Domain → Rasd → ResType → Bytes → Option Field → Outcome
    modify_in t dominfo rasd type devid none = some (rc_err_failed, dominfo)
    modify_in t dominfo rasd type devid (some f) =
        stored dominfo f (change_first (modify_device t rasd type) devid (get dominfo f))

    unfoldable pub resource_mod : Target → Domain → Rasd → ResType → Option Bytes → Outcome
    resource_mod t dominfo rasd type none = some (rc_err_invalid_parameter, dominfo)
    resource_mod t dominfo rasd type (some devid) =
        modify_in t dominfo rasd type devid (find_list type)
