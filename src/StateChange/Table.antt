-- ===== src/StateChange/Table.antt =====
-- Which requests are accepted in which state, and what a refused one leaves.
use libvirt_cim.Prelude.{ℕ, ◌≡◌, refl, Bool, true, false, some, arith, ◌==◌, if◌then◌else◌, ◌||◌}
use libvirt_cim.Cmpi.{
  cim_state_enabled, cim_state_disabled, cim_state_shutdown, cim_state_paused, cim_state_reboot,
  cim_state_reset, Rc, rc_err_failed, rc_err_not_supported,
}
use libvirt_cim.Host.{
  Host, LvState, nostate, running, blocked, paused, shutdown, shutoff, crashed, other_state,
}
use libvirt_cim.ComputerSystem.{adjust_state_xen}
use libvirt_cim.StateChange.{
  state_change_enable, state_change_disable, state_change_shutdown, state_change_pause,
  state_change_reboot, state_change_reset, state_change_to, disable_from, shutdown_from, pause_from,
  reboot_from, reset_from,
}

abbrev is_running : LvState → Bool
is_running running = true
is_running blocked = true
is_running _ = false

abbrev is_up : LvState → Bool
is_up running = true
is_up blocked = true
is_up paused = true
is_up _ = false

abbrev is_startable : LvState → Bool
is_startable shutoff = true
is_startable paused = true
is_startable _ = false

-- Is the request accepted of a domain that libvirt says is in the state `info`, which is `s` once
-- `nostate` is read the way Xen means it?
abbrev pub accepts : ℕ → LvState → LvState → Bool
accepts request info s =
    if request == cim_state_enabled
    then is_startable info
    else if request == cim_state_disabled
        || (request == cim_state_shutdown || request == cim_state_paused)
    then is_running s
    else if request == cim_state_reboot || request == cim_state_reset
    then is_up s
    else false

-- the status of a request that is not accepted
abbrev pub refusal : ℕ → Rc
refusal request =
    if request == cim_state_enabled
      || (request == cim_state_disabled
          || (request == cim_state_shutdown
              || (request == cim_state_paused
                  || (request == cim_state_reboot || request == cim_state_reset))))
    then rc_err_failed
    else rc_err_not_supported

module _ (h : Host) where
  open h use {World, Dom}

  enable_refused :
      (d : Dom) (info : LvState) (w : World)
      → is_startable info ≡ false
      → state_change_enable h d info w ≡ some (rc_err_failed, w)
  unfolding state_change_enable
  enable_refused d nostate w e = refl
  enable_refused d running w e = refl
  enable_refused d blocked w e = refl
  enable_refused d paused w e = ground arith
  enable_refused d shutdown w e = refl
  enable_refused d shutoff w e = ground arith
  enable_refused d crashed w e = refl
  enable_refused d (other_state n) w e = refl

  disable_refused :
      (d : Dom) (s : LvState) (w : World)
      → is_running s ≡ false
      → disable_from h d s w ≡ (rc_err_failed, w)
  unfolding disable_from
  disable_refused d nostate w e = refl
  disable_refused d running w e = ground arith
  disable_refused d blocked w e = ground arith
  disable_refused d paused w e = refl
  disable_refused d shutdown w e = refl
  disable_refused d shutoff w e = refl
  disable_refused d crashed w e = refl
  disable_refused d (other_state n) w e = refl

  shutdown_refused :
      (d : Dom) (s : LvState) (w : World)
      → is_running s ≡ false
      → shutdown_from h d s w ≡ (rc_err_failed, w)
  unfolding shutdown_from
  shutdown_refused d nostate w e = refl
  shutdown_refused d running w e = ground arith
  shutdown_refused d blocked w e = ground arith
  shutdown_refused d paused w e = refl
  shutdown_refused d shutdown w e = refl
  shutdown_refused d shutoff w e = refl
  shutdown_refused d crashed w e = refl
  shutdown_refused d (other_state n) w e = refl

  pause_refused :
      (d : Dom) (s : LvState) (w : World)
      → is_running s ≡ false
      → pause_from h d s w ≡ (rc_err_failed, w)
  unfolding pause_from
  pause_refused d nostate w e = refl
  pause_refused d running w e = ground arith
  pause_refused d blocked w e = ground arith
  pause_refused d paused w e = refl
  pause_refused d shutdown w e = refl
  pause_refused d shutoff w e = refl
  pause_refused d crashed w e = refl
  pause_refused d (other_state n) w e = refl

  reboot_refused :
      (d : Dom) (s : LvState) (w : World)
      → is_up s ≡ false
      → reboot_from h d s w ≡ (rc_err_failed, w)
  unfolding reboot_from
  reboot_refused d nostate w e = refl
  reboot_refused d running w e = ground arith
  reboot_refused d blocked w e = ground arith
  reboot_refused d paused w e = ground arith
  reboot_refused d shutdown w e = refl
  reboot_refused d shutoff w e = refl
  reboot_refused d crashed w e = refl
  reboot_refused d (other_state n) w e = refl

  reset_refused :
      (d : Dom) (s : LvState) (w : World)
      → is_up s ≡ false
      → reset_from h d s w ≡ (rc_err_failed, w)
  unfolding reset_from
  reset_refused d nostate w e = refl
  reset_refused d running w e = ground arith
  reset_refused d blocked w e = ground arith
  reset_refused d paused w e = ground arith
  reset_refused d shutdown w e = refl
  reset_refused d shutoff w e = refl
  reset_refused d crashed w e = refl
  reset_refused d (other_state n) w e = refl

  -- the handlers refuse with an error status, and change nothing
  pub refused :
      (request : ℕ) (d : Dom) (info s : LvState) (w : World)
      → adjust_state_xen h d info ≡ some s
      → accepts request info s ≡ false
      → state_change_to h request d info w ≡ some (refusal request, w)
  unfolding state_change_to state_change_disable state_change_shutdown state_change_pause
      state_change_reboot state_change_reset
  refused request d info s w adjusted e = ground (
    arith,
    adjusted,
    enable_refused d info w,
    disable_refused d s w,
    shutdown_refused d s w,
    pause_refused d s w,
    reboot_refused d s w,
    reset_refused d s w,
  )
