-- ===== src/StateChange.antt =====
-- src/Virt_ComputerSystem.c: RequestStateChange, from the handlers of the single states
-- to `__state_change`.
-- Debug output is left out, so `domain_online`, which feeds nothing else, is not
-- called. A fault is `none`.
pub mod Table
pub mod Targets
pub mod Reached
pub mod Refused
pub mod Reset
pub mod Suspended
pub mod Recorded
pub mod Samples
use libvirt_cim.Prelude.{
  ℕ, ◌+◌, ◌%◌, ◌^◌, Bool, true, false, Option, none, some, List, [], ◌∷◌, Bytes, codes, take, ltb,
  if◌then◌else◌, ◌==◌, ◌>>=?◌,
}
use libvirt_cim.Cmpi.{
  Rc, rc_ok, rc_err_failed, rc_err_not_supported, cim_state_enabled, cim_state_disabled,
  cim_state_shutdown, cim_state_paused, cim_state_reboot, cim_state_reset,
}
use libvirt_cim.Host.{Host, LvState, running, blocked, paused, shutoff, SchedParam}
use libvirt_cim.Infostore.{
  Ctx, infostore_open, infostore_close, infostore_get_u64, infostore_set_u64,
}
use libvirt_cim.MiscUtil.{Hypervisors, connect_by_classname}
use libvirt_cim.Scheduler.{set_scheduler_params}
use libvirt_cim.Vsss.{vsss_has_save_image}
use libvirt_cim.ComputerSystem.{adjust_state_xen}

module _ (h : Host) where
  open h use {
    World, Conn, Dom, connect_get_type, domain_lookup, domain_get_name, domain_get_connect,
    domain_get_info, domain_get_xml, domain_create, domain_resume, domain_destroy, domain_shutdown,
    domain_suspend, domain_reboot, domain_define, domain_set_sched, streqc, version_number,
  }

  -- libvirt's answer to a call
  abbrev pub answer : Bool × World → Rc × World
  answer (ok, w) = (if ok then rc_ok else rc_err_failed, w)

  -- after `virDomainDefineXML`
  pub start_defined : Option Dom × World → Rc × World
  start_defined (none, w) = (rc_err_failed, w)
  start_defined (some dom, w) = answer (domain_create dom w)

  -- the domain of that name, or a new one from the definition, is started
  pub restart : Conn → Bytes → Option Dom → World → Rc × World
  restart conn xml (some dom) w = answer (domain_create dom w)
  restart conn xml none w = start_defined (domain_define conn xml w)

  -- after `virDomainDestroy`
  pub after_destroy : Conn → Dom → Bytes → Bool × World → Rc × World
  after_destroy conn dom xml (false, w) = (rc_err_failed, w)
  after_destroy conn dom xml (true, w) =
      restart conn xml (domain_lookup conn (domain_get_name dom) w) w

  pub reset_defined : Conn → Dom → Option Bytes → World → Rc × World
  reset_defined conn dom none w = (rc_err_failed, w)
  reset_defined conn dom (some xml) w = after_destroy conn dom xml (domain_destroy dom w)

  pub reset_on : Dom → Option Conn → World → Rc × World
  reset_on dom none w = (rc_err_failed, w)
  reset_on dom (some conn) w = reset_defined conn dom (domain_get_xml dom w) w

  unfoldable pub domain_reset : Dom → World → Rc × World
  domain_reset dom w = reset_on dom (domain_get_connect dom) w

  -- after `virDomainCreate`
  pub started : Dom → Bool × World → Option (Rc × World)
  started dom (true, w) = set_scheduler_params h dom w >>=? λ w'. some (rc_ok, w')
  started dom (false, w) = some (rc_err_failed, w)

  unfoldable pub start_domain : Dom → World → Option (Rc × World)
  start_domain dom w =
      if vsss_has_save_image h (domain_get_name dom) w
      then some (rc_err_not_supported, w)
      else started dom (domain_create dom w)

  unfoldable pub state_change_enable : Dom → LvState → World → Option (Rc × World)
  state_change_enable dom shutoff w = start_domain dom w
  state_change_enable dom paused w = some (answer (domain_resume dom w))
  state_change_enable dom _ w = some (rc_err_failed, w)

  pub disable_from : Dom → LvState → World → Rc × World
  disable_from dom running w = answer (domain_destroy dom w)
  disable_from dom blocked w = answer (domain_destroy dom w)
  disable_from dom _ w = (rc_err_failed, w)

  pub shutdown_from : Dom → LvState → World → Rc × World
  shutdown_from dom running w = answer (domain_shutdown dom w)
  shutdown_from dom blocked w = answer (domain_shutdown dom w)
  shutdown_from dom _ w = (rc_err_failed, w)

  pub pause_from : Dom → LvState → World → Rc × World
  pause_from dom running w = answer (domain_suspend dom w)
  pause_from dom blocked w = answer (domain_suspend dom w)
  pause_from dom _ w = (rc_err_failed, w)

  pub reboot_from : Dom → LvState → World → Rc × World
  reboot_from dom running w = answer (domain_reboot dom w)
  reboot_from dom blocked w = answer (domain_reboot dom w)
  reboot_from dom paused w = answer (domain_reboot dom w)
  reboot_from dom _ w = (rc_err_failed, w)

  pub reset_from : Dom → LvState → World → Rc × World
  reset_from dom running w = domain_reset dom w
  reset_from dom blocked w = domain_reset dom w
  reset_from dom paused w = domain_reset dom w
  reset_from dom _ w = (rc_err_failed, w)

  unfoldable pub state_change_disable : Dom → LvState → World → Option (Rc × World)
  state_change_disable dom info w =
      adjust_state_xen h dom info >>=? λ state. some (disable_from dom state w)

  unfoldable pub state_change_shutdown : Dom → LvState → World → Option (Rc × World)
  state_change_shutdown dom info w =
      adjust_state_xen h dom info >>=? λ state. some (shutdown_from dom state w)

  unfoldable pub state_change_pause : Dom → LvState → World → Option (Rc × World)
  state_change_pause dom info w =
      adjust_state_xen h dom info >>=? λ state. some (pause_from dom state w)

  unfoldable pub state_change_reboot : Dom → LvState → World → Option (Rc × World)
  state_change_reboot dom info w =
      adjust_state_xen h dom info >>=? λ state. some (reboot_from dom state w)

  unfoldable pub state_change_reset : Dom → LvState → World → Option (Rc × World)
  state_change_reset dom info w =
      adjust_state_xen h dom info >>=? λ state. some (reset_from dom state w)

  -- the requested state's handler
  unfoldable pub state_change_to : ℕ → Dom → LvState → World → Option (Rc × World)
  state_change_to state dom info w =
      if state == cim_state_enabled
      then state_change_enable dom info w
      else if state == cim_state_disabled
      then state_change_disable dom info w
      else if state == cim_state_shutdown
      then state_change_shutdown dom info w
      else if state == cim_state_paused
      then state_change_pause dom info w
      else if state == cim_state_reboot
      then state_change_reboot dom info w
      else if state == cim_state_reset
      then state_change_reset dom info w
      else some (rc_err_not_supported, w)

  pub store_request : ℕ → Option Ctx × World → World
  store_request state (none, w) = w
  store_request state (some ctx, w) =
      infostore_close h (infostore_set_u64 ctx (codes "reqstate") state) w

  unfoldable pub record_request : ℕ → Dom → World → Option World
  record_request state dom w = infostore_open h dom w >>=? λ r. some (store_request state r)

  pub with_info : ℕ → Dom → Option LvState → World → Option (Rc × World)
  with_info state dom none w = some (rc_err_failed, w)
  with_info state dom (some info) w = state_change_to state dom info w >>=? λ (rc, w').
      record_request state dom w' >>=? λ w''. some (rc, w'')

  pub with_domain : ℕ → Option Dom → World → Option (Rc × World)
  with_domain state none w = some (rc_err_failed, w)
  with_domain state (some dom) w = with_info state dom (domain_get_info dom w) w

  pub with_connection : Bytes → ℕ → Rc × Option Conn → World → Option (Rc × World)
  with_connection name state (rc, none) w = some (rc, w)
  with_connection name state (rc, some conn) w = with_domain state (domain_lookup conn name w) w

  -- `__state_change`, by the class name of the reference
  unfoldable pub change_state :
      Bytes → ℕ → Bytes → Hypervisors → World → Option (Rc × World) × Hypervisors
  change_state name state classname l w =
      let (r, l') = connect_by_classname h classname l w in (with_connection name state r w, l')
