-- ===== src/StateChange/Samples.antt =====
-- The theorems on state changes, on the toy machine.
use libvirt_cim.Prelude.{
  Option, ◌≡◌, ◌≢◌, refl, ap, ◌∙◌, true, some, inl, inr, ◌>>=?◌, Bytes, codes, arith, strcmp_eq,
  if◌then◌else◌,
}
use libvirt_cim.Cmpi.{Rc, rc_ok, rc_err_failed, cim_state_enabled, cim_state_suspended}
use libvirt_cim.Host.{running, paused, shutoff, absent, garbage}
use libvirt_cim.Host.Toy.{Machine, toy, toy-FileLaws, open_file}
use libvirt_cim.Infostore.{infostore_close, infostore_set_u64}
use libvirt_cim.Infostore.Samples.{
  machine, own, ctx, vm_file, opens_own, opens_requested, requested, named_file,
}
use libvirt_cim.MiscUtil.{hypervisor_list}
use libvirt_cim.MiscUtil.Samples.{kvm_connects}
use libvirt_cim.Vsss.{vsss_get_save_path, vsss_has_save_image}
use libvirt_cim.ComputerSystem.{
  StateProps, adjust_state_xen, adjust_state_if_saved, state_props, state_lv_to_cim,
}
use libvirt_cim.ComputerSystem.Samples.{shows}
use libvirt_cim.StateChange.{
  state_change_to, state_change_pause, pause_from, record_request, store_request, with_info,
  with_domain, with_connection, change_state,
}
use libvirt_cim.StateChange.{domain_reset, reset_on, reset_defined, after_destroy, restart}
use libvirt_cim.StateChange.Reset.{Restarted, domain_reset-Restarted}
use libvirt_cim.StateChange.Table.{refusal}
use libvirt_cim.StateChange.Refused.{change_state-refused}
use libvirt_cim.StateChange.Targets.{StateLaws}
use libvirt_cim.StateChange.Reached.{Shows, change_state-Reached}
use libvirt_cim.StateChange.Suspended.{suspended-refused}
use libvirt_cim.StateChange.Recorded.{record_request-shown}

no_conn_needed : adjust_state_xen (toy true) tt shutoff ≡ some shutoff
unfolding adjust_state_xen
no_conn_needed = refl

abbrev off : Machine
off = machine shutoff (λ p. absent) own

opening_keeps : (p : Bytes) (m : Machine) → (open_file true p m).1.state ≡ m.state
opening_keeps p m = ground arith

pub toy-StateLaws : StateLaws (toy true)
toy-StateLaws = record {
  created = λ d w ok. refl;
  resumed = λ d w ok. refl;
  destroyed = λ d w ok. inl refl;
  suspended = λ d w ok. refl;
  scheduled = λ d ps w. refl;
  stored = λ d. record {
    by_open = λ p w. ap some (opening_keeps p w);
    by_write = λ p c w. refl;
    by_unlink = λ p w. refl;
  };
}

abbrev up : Machine
up = machine running (λ p. absent) own

abbrev halted : Machine
halted = machine paused (λ p. absent) own

abbrev recorded : Machine
recorded = infostore_close (toy true) (infostore_set_u64 ctx (codes "reqstate") 9) halted

records : record_request (toy true) 9 tt halted ≡ some recorded
unfolding record_request store_request
records = ap (λ o. o >>=? λ r. some (store_request (toy true) 9 r)) (opens_own paused (λ p. absent))

pauses :
    (change_state (toy true) (codes "vm") 9 (codes "KVM") hypervisor_list up).0
    ≡ some (rc_ok, recorded)
unfolding change_state with_connection with_domain with_info state_change_to state_change_pause
    pause_from adjust_state_xen
pauses =
    ap (λ c. with_connection (toy true) (codes "vm") 9 c.0 up) (kvm_connects up)
    ∙ ap (λ o. o >>=? λ w''. some (rc_ok, w'')) records

change_state-Reached_example : Shows (toy true) toy-StateLaws tt 9 (some ctx) recorded
change_state-Reached_example =
    change_state-Reached (toy true) toy-StateLaws (codes "vm") (codes "KVM") 9 hypervisor_list up
      recorded tt tt running (some ctx) (inr (inr refl)) (ap (λ c. c.0.1) (kvm_connects up)) refl
      refl pauses

-- a domain that is off is not paused; the request is recorded
abbrev asked : Machine
asked = infostore_close (toy true) (infostore_set_u64 ctx (codes "reqstate") 9) off

asks : record_request (toy true) 9 tt off ≡ some asked
unfolding record_request store_request
asks = ap (λ o. o >>=? λ r. some (store_request (toy true) 9 r)) (opens_own shutoff (λ p. absent))

refuses :
    (change_state (toy true) (codes "vm") 9 (codes "KVM") hypervisor_list off).0
    ≡ some (rc_err_failed, asked)
unfolding change_state with_connection with_domain with_info state_change_to state_change_pause
    pause_from adjust_state_xen
refuses =
    ap (λ c. with_connection (toy true) (codes "vm") 9 c.0 off) (kvm_connects off)
    ∙ ap (λ o. o >>=? λ w''. some (rc_err_failed, w'')) asks

change_state-refused_example :
    (rc_err_failed ≡ refusal 9)
    × (record_request (toy true) 9 tt off ≡ some asked)
    × (some asked.state ≡ some shutoff)
change_state-refused_example =
    change_state-refused (toy true) toy-StateLaws (codes "vm") (codes "KVM") 9 hypervisor_list off
      asked tt tt shutoff shutoff rc_err_failed (ap (λ c. c.0.1) (kvm_connects off)) refl refl
      no_conn_needed refl refuses

-- a domain that is off and has a save image
abbrev suspended : Machine
suspended =
    machine shutoff (λ p. if strcmp_eq (vsss_get_save_path (codes "vm")) p then garbage else absent)
      own

abbrev suspended_props : StateProps
suspended_props = state_props (toy true) tt shutoff (some ctx) suspended

shown_suspended : suspended_props.enabled_state ≡ cim_state_suspended
unfolding state_props adjust_state_if_saved state_lv_to_cim vsss_has_save_image vsss_get_save_path
    strcmp_eq
shown_suspended = refl

suspended-refused_example :
    (rc : Rc) × (rc ≢ rc_ok)
    × (state_change_to (toy true) cim_state_enabled tt shutoff suspended ≡ some (rc, suspended))
suspended-refused_example =
    suspended-refused (toy true) true tt shutoff suspended suspended_props
      (infostore_close (toy true) ctx suspended)
      (shows shutoff suspended suspended ctx no_conn_needed (
        opens_own shutoff
          (λ p. if strcmp_eq (vsss_get_save_path (codes "vm")) p then garbage else absent)))
      shown_suspended refl

adjusted_halted : adjust_state_xen (toy true) tt recorded.state ≡ some paused
unfolding adjust_state_xen infostore_close
adjusted_halted = refl

opens_always : (m : Machine) → (open_file true vm_file m).0 ≡ true
opens_always m = ground arith

record_request-shown_example :
    (state_props (toy true) tt paused (some (requested (codes "9"))) recorded).requested_state ≡ 9
record_request-shown_example =
    record_request-shown (toy true) (toy-FileLaws true) 9 tt (codes "1") ctx halted halted recorded
      (infostore_close (toy true) (requested (codes "9")) recorded) true
      (state_props (toy true) tt paused (some (requested (codes "9"))) recorded) (omega arith) refl
      (opens_own paused (λ p. absent)) (named_file true) opens_always records
      (shows paused recorded recorded (requested (codes "9")) adjusted_halted
        (opens_requested paused (λ p. absent)))

abbrev again : Machine
again = machine running (λ p. absent) own

resets : domain_reset (toy true) tt up ≡ (rc_ok, again)
unfolding domain_reset reset_on reset_defined after_destroy restart
resets = refl

domain_reset-Restarted_example :
    (conn : Unit {0}) × (xml : Bytes) × (◌≡◌ {A = Option (Unit {0})} (some tt) (some conn))
    × (some (codes "<domain/>") ≡ some xml)
    × (true ≡ true)
    × Restarted (toy true) toy-StateLaws conn xml (some tt) off again
domain_reset-Restarted_example = domain_reset-Restarted (toy true) toy-StateLaws tt up again resets
