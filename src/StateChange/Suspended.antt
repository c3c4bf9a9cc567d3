-- ===== src/StateChange/Suspended.antt =====
-- Between the state that is shown and the requests: a system that is suspended.
use libvirt_cim.Prelude.{
  ◌≡◌, ◌≢◌, refl, ap, ◌∙◌, sym, Bool, true, false, some, ◌⊎◌, inl, inr, if◌then◌else◌, >>=?-inv,
}
use libvirt_cim.Cmpi.{
  Rc, rc_ok, rc_err_failed, rc_err_not_supported, cim_state_enabled, cim_state_suspended,
}
use libvirt_cim.Host.{
  Host, LvState, nostate, running, blocked, paused, shutdown, shutoff, crashed, other_state,
}
use libvirt_cim.ComputerSystem.{
  StateProps, whole, adjust_state_xen, set_state_from_dom, state_props,
}
use libvirt_cim.ComputerSystem.Status.{set_state_from_dom-inv, suspended_state}
use libvirt_cim.StateChange.{state_change_to, state_change_enable, start_domain}
use libvirt_cim.Vsss.{vsss_has_save_image}

module _ (h : Host) where
  open h use {World, Dom, Conn, domain_get_info, domain_get_name, domain_get_connect}

  xen_running :
      (s t : LvState) (b : Bool)
      → some (if b then running else nostate) ≡ some s
      → ((s ≡ shutoff) ⊎ (s ≡ crashed))
      → nostate ≡ s
  xen_running s t true e (inl a) = absurd (cc)
  xen_running s t true e (inr a) = absurd (cc)
  xen_running s t false e a = cc

  -- only `nostate` is adjusted, and never to a state that is down
  adjusted_down :
      (d : Dom) (info s : LvState)
      → adjust_state_xen h d info ≡ some s
      → (s ≡ shutoff) ⊎ (s ≡ crashed)
      → info ≡ s
  unfolding adjust_state_xen
  adjusted_down d nostate s e a =
      let (conn, _, made) = >>=?-inv (domain_get_connect d) _ s e in xen_running s nostate _ made a
  adjusted_down d running s e a = cc
  adjusted_down d blocked s e a = cc
  adjusted_down d paused s e a = cc
  adjusted_down d shutdown s e a = cc
  adjusted_down d shutoff s e a = cc
  adjusted_down d crashed s e a = cc
  adjusted_down d (other_state n) s e a = cc

  down-refused :
      (d : Dom) (info : LvState) (w : World)
      → (info ≡ shutoff) ⊎ (info ≡ crashed)
      → vsss_has_save_image h (domain_get_name d) w ≡ true
      → (rc : Rc) × (rc ≢ rc_ok) × (state_change_to h cim_state_enabled d info w ≡ some (rc, w))
  unfolding state_change_to state_change_enable start_domain
  down-refused d info w (inl e) saved = (rc_err_not_supported, λ x. cc, rw e (rw saved refl))
  down-refused d info w (inr e) saved = (rc_err_failed, λ x. cc, rw e refl)

  -- A system that is shown as suspended cannot be enabled: the handlers answer with an error status
  -- and change nothing.
  pub suspended-refused :
      (b : Bool) (d : Dom) (info : LvState) (w : World) (p : StateProps) (w' : World)
      → set_state_from_dom h b d w ≡ some (whole p, w')
      → p.enabled_state ≡ cim_state_suspended
      → domain_get_info d w ≡ some info
      → (rc : Rc) × (rc ≢ rc_ok) × (state_change_to h cim_state_enabled d info w ≡ some (rc, w))
  unfolding state_props
  suspended-refused b d info w p w' shown suspended told =
      let (info', s, r, told', adjusted, _, same, _) = set_state_from_dom-inv h b d w p w' shown in
      let (down, saved) =
        suspended_state h (domain_get_name d) s w
          (sym (ap (λ x. x.enabled_state) same) ∙ suspended) in
      let known : info ≡ s = cc (adjusted_down d info' s adjusted down) in
      down-refused d info w (rw known down) saved
