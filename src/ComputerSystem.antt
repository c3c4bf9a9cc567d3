-- ===== src/ComputerSystem.antt =====
-- src/Virt_ComputerSystem.c: the state of a domain as the properties of its Virt_ComputerSystem. The
-- messages and the instance's other properties are left out. A NULL connection's type is a fault,
-- `none`.
pub mod Status
pub mod Samples
use libvirt_cim.Prelude.{
  ℕ, ◌%◌, ◌^◌, Bool, true, false, Option, none, some, Bytes, codes, if◌then◌else◌, ◌==◌, ◌>>=?◌,
}
use libvirt_cim.Cmpi.{
  cim_state_unknown, cim_state_enabled, cim_state_disabled, cim_state_shutdown, cim_state_suspended,
  cim_state_paused, cim_health_unknown, cim_health_ok, cim_health_major_failure,
  cim_oping_status_unknown, cim_oping_status_stopped, cim_oping_status_aborted,
  cim_oping_status_dormant, cim_oping_status_migrating, cim_oping_status_started,
  cim_op_status_unknown, cim_op_status_ok, cim_op_status_error, cim_op_status_dormant,
}
use libvirt_cim.Host.{
  Host, LvState, nostate, running, blocked, paused, shutdown, shutoff, crashed, other_state,
}
use libvirt_cim.Infostore.{
  Ctx, infostore_open, infostore_close, infostore_get_bool, infostore_get_u64,
}
use libvirt_cim.Vsss.{vsss_has_save_image}

unfoldable pub state_lv_to_cim : LvState → ℕ
state_lv_to_cim nostate = cim_state_unknown
state_lv_to_cim running = cim_state_enabled
state_lv_to_cim blocked = cim_state_enabled
state_lv_to_cim paused = cim_state_paused
state_lv_to_cim shutdown = cim_state_shutdown
state_lv_to_cim shutoff = cim_state_disabled
state_lv_to_cim crashed = cim_state_disabled
state_lv_to_cim (other_state _) = cim_state_unknown

pub state_lv_to_cim_health : LvState → ℕ
state_lv_to_cim_health nostate = cim_health_unknown
state_lv_to_cim_health shutdown = cim_health_unknown
state_lv_to_cim_health shutoff = cim_health_unknown
state_lv_to_cim_health crashed = cim_health_major_failure
state_lv_to_cim_health running = cim_health_ok
state_lv_to_cim_health blocked = cim_health_ok
state_lv_to_cim_health paused = cim_health_ok
state_lv_to_cim_health (other_state _) = cim_health_unknown

pub state_lv_to_cim_oings : LvState → Bool → ℕ
state_lv_to_cim_oings state true = cim_oping_status_migrating
state_lv_to_cim_oings nostate false = cim_oping_status_stopped
state_lv_to_cim_oings shutdown false = cim_oping_status_stopped
state_lv_to_cim_oings shutoff false = cim_oping_status_stopped
state_lv_to_cim_oings crashed false = cim_oping_status_aborted
state_lv_to_cim_oings running false = cim_oping_status_started
state_lv_to_cim_oings blocked false = cim_oping_status_dormant
state_lv_to_cim_oings paused false = cim_oping_status_dormant
state_lv_to_cim_oings (other_state _) false = cim_oping_status_unknown

pub state_lv_to_cim_os : LvState → ℕ
state_lv_to_cim_os nostate = cim_op_status_dormant
state_lv_to_cim_os shutdown = cim_op_status_dormant
state_lv_to_cim_os shutoff = cim_op_status_dormant
state_lv_to_cim_os crashed = cim_op_status_error
state_lv_to_cim_os running = cim_op_status_ok
state_lv_to_cim_os blocked = cim_op_status_ok
state_lv_to_cim_os paused = cim_op_status_ok
state_lv_to_cim_os (other_state _) = cim_op_status_unknown

-- the properties that `set_state_from_dom` sets
pub record StateProps : Type 0 where
  pub enabled_state : ℕ
  pub health_state : ℕ
  pub operational_status : ℕ
  pub operating_status : ℕ
  pub requested_state : ℕ

-- What the instance shows: nothing where libvirt does not tell the state, EnabledState and HealthState alone
-- where `CMNewArray` fails, or all.
pub data Shown : Type 0 where
  unset : Shown
  early : ℕ → ℕ → Shown
  whole : StateProps → Shown

module _ (h : Host) where
  open h use {
    World, Dom, connect_get_type, domain_get_connect, domain_get_name, domain_get_info, streqc,
  }

  -- `nostate` is running where the connection is Xen's
  unfoldable pub adjust_state_xen : Dom → LvState → Option LvState
  adjust_state_xen dom nostate = domain_get_connect dom >>=? λ conn.
      some (if streqc (connect_get_type conn) (codes "Xen") then running else nostate)
  adjust_state_xen dom state = some state

  unfoldable pub adjust_state_if_saved : Bytes → ℕ → World → ℕ
  adjust_state_if_saved name state w =
      if state == cim_state_disabled
      then (if vsss_has_save_image h name w then cim_state_suspended else state)
      else state

  pub migrating_of : Option Ctx → Bool
  migrating_of none = false
  migrating_of (some ctx) = infostore_get_bool h ctx (codes "migrating")

  pub req_state_of : Option Ctx → ℕ
  req_state_of none = cim_state_unknown
  req_state_of (some ctx) = infostore_get_u64 ctx (codes "reqstate") % 2 ^ 16

  pub close_if_open : Option Ctx → World → World
  close_if_open none w = w
  close_if_open (some ctx) w = infostore_close h ctx w

  unfoldable pub state_props : Dom → LvState → Option Ctx → World → StateProps
  unfolding migrating_of req_state_of state_lv_to_cim_health state_lv_to_cim_oings
      state_lv_to_cim_os
  state_props dom state infostore w = record {
    enabled_state = adjust_state_if_saved (domain_get_name dom) (state_lv_to_cim state) w;
    health_state = state_lv_to_cim_health state;
    operational_status = state_lv_to_cim_os state;
    operating_status = state_lv_to_cim_oings state (migrating_of infostore);
    requested_state = req_state_of infostore;
  }

  -- the properties, with the context that `infostore_open` gives
  pub props_from : Dom → LvState → World → Option Ctx × World → Shown × World
  unfolding close_if_open
  props_from dom state w (infostore, w') =
      (whole (state_props dom state infostore w), close_if_open infostore w')

  pub props_of : Bool → Dom → World → LvState → Option (Shown × World)
  props_of false dom w state = some (
    early (adjust_state_if_saved (domain_get_name dom) (state_lv_to_cim state) w)
        (state_lv_to_cim_health state),
    w,
  )
  props_of true dom w state = infostore_open h dom w >>=? λ r. some (props_from dom state w r)

  -- with whether `CMNewArray` gives an array
  pub with_state : Bool → Dom → World → Option LvState → Option (Shown × World)
  with_state new_array dom w none = some (unset, w)
  with_state new_array dom w (some info) = adjust_state_xen dom info >>=? props_of new_array dom w

  unfoldable pub set_state_from_dom : Bool → Dom → World → Option (Shown × World)
  set_state_from_dom new_array dom w = with_state new_array dom w (domain_get_info dom w)
