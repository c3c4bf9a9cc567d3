-- ===== src/ComputerSystem/Status.antt =====
-- That the states that an instance shows agree with each other.
use libvirt_cim.Prelude.{
  codes, ◌%◌, ◌^◌, ◌≡◌, ◌↔◌, Bool, false, true, Option, none, some, arith, ◌⊎◌, inl, inr, refl, ◌≢◌,
  Bytes, subst, sym, >>=?-inv,
}
use libvirt_cim.Host.{
  Host, LvState, nostate, running, blocked, paused, shutdown, shutoff, crashed, other_state,
}
use libvirt_cim.Infostore.{infostore_get_u64, Ctx, infostore_open}
use libvirt_cim.Cmpi.{
  cim_state_enabled, cim_state_suspended, cim_health_ok, cim_health_major_failure,
  cim_oping_status_aborted, cim_oping_status_started, cim_op_status_ok, cim_op_status_error,
}
use libvirt_cim.ComputerSystem.{
  req_state_of, StateProps, whole, state_lv_to_cim, state_lv_to_cim_health, state_lv_to_cim_oings,
  state_lv_to_cim_os, adjust_state_if_saved, state_props, migrating_of, set_state_from_dom,
  adjust_state_xen, close_if_open, props_from, props_of, with_state,
}
use libvirt_cim.Vsss.{vsss_has_save_image}

-- the health is failed just if the operational status is an error, and good just if that is good
health_os :
    (s : LvState)
    → ((state_lv_to_cim_health s ≡ cim_health_major_failure)
        ↔ (state_lv_to_cim_os s ≡ cim_op_status_error))
      × ((state_lv_to_cim_health s ≡ cim_health_ok) ↔ (state_lv_to_cim_os s ≡ cim_op_status_ok))
unfolding state_lv_to_cim_health state_lv_to_cim_os
health_os nostate = ((λ e. ground arith, λ e. ground arith), (λ e. ground arith, λ e. ground arith))
health_os running = ((λ e. ground arith, λ e. ground arith), (λ e. ground arith, λ e. ground arith))
health_os blocked = ((λ e. ground arith, λ e. ground arith), (λ e. ground arith, λ e. ground arith))
health_os paused = ((λ e. ground arith, λ e. ground arith), (λ e. ground arith, λ e. ground arith))
health_os shutdown =
    ((λ e. ground arith, λ e. ground arith), (λ e. ground arith, λ e. ground arith))
health_os shutoff = ((λ e. ground arith, λ e. ground arith), (λ e. ground arith, λ e. ground arith))
health_os crashed = ((λ e. ground arith, λ e. ground arith), (λ e. ground arith, λ e. ground arith))
health_os (other_state n) =
    ((λ e. ground arith, λ e. ground arith), (λ e. ground arith, λ e. ground arith))

-- what a system is that is shown as started, or as aborted
started_inv :
    (s : LvState) (m : Bool) → state_lv_to_cim_oings s m ≡ cim_oping_status_started → s ≡ running
unfolding state_lv_to_cim_oings
started_inv s true e = ground arith
started_inv nostate false e = ground arith
started_inv running false e = refl
started_inv blocked false e = ground arith
started_inv paused false e = ground arith
started_inv shutdown false e = ground arith
started_inv shutoff false e = ground arith
started_inv crashed false e = ground arith
started_inv (other_state n) false e = ground arith

aborted_inv :
    (s : LvState) (m : Bool) → state_lv_to_cim_oings s m ≡ cim_oping_status_aborted → s ≡ crashed
unfolding state_lv_to_cim_oings
aborted_inv s true e = ground arith
aborted_inv nostate false e = ground arith
aborted_inv running false e = ground arith
aborted_inv blocked false e = ground arith
aborted_inv paused false e = ground arith
aborted_inv shutdown false e = ground arith
aborted_inv shutoff false e = ground arith
aborted_inv crashed false e = refl
aborted_inv (other_state n) false e = ground arith

-- The five properties agree with each other.
pub record Agrees (p : StateProps) : Type 0 where
  pub failed_error :
      (p.health_state ≡ cim_health_major_failure) ↔ (p.operational_status ≡ cim_op_status_error)
  pub healthy_ok : (p.health_state ≡ cim_health_ok) ↔ (p.operational_status ≡ cim_op_status_ok)
  pub aborted_error :
      p.operating_status ≡ cim_oping_status_aborted → p.operational_status ≡ cim_op_status_error
  pub started_enabled :
      p.operating_status ≡ cim_oping_status_started
      → (p.enabled_state ≡ cim_state_enabled) × (p.operational_status ≡ cim_op_status_ok)
  pub suspended_down :
      p.enabled_state ≡ cim_state_suspended → p.operational_status ≢ cim_op_status_ok

module _ (h : Host) where
  open h use {World, Dom, domain_get_name, domain_get_info}

  pub suspended_state :
      (name : Bytes) (s : LvState) (w : World)
      → adjust_state_if_saved h name (state_lv_to_cim s) w ≡ cim_state_suspended
      → ((s ≡ shutoff) ⊎ (s ≡ crashed)) × (vsss_has_save_image h name w ≡ true)
  unfolding state_lv_to_cim adjust_state_if_saved
  suspended_state name nostate w e = ground arith
  suspended_state name running w e = ground arith
  suspended_state name blocked w e = ground arith
  suspended_state name paused w e = ground arith
  suspended_state name shutdown w e = ground arith
  suspended_state name shutoff w e = (inl refl, ground arith)
  suspended_state name crashed w e = (inr refl, ground arith)
  suspended_state name (other_state n) w e = ground arith

  running_enabled :
      (name : Bytes) (s : LvState) (w : World)
      → s ≡ running
      → (adjust_state_if_saved h name (state_lv_to_cim s) w ≡ cim_state_enabled)
        × (state_lv_to_cim_os s ≡ cim_op_status_ok)
  unfolding state_lv_to_cim adjust_state_if_saved state_lv_to_cim_os
  running_enabled name s w e = rw e (refl, refl)

  down_not_ok :
      (s : LvState) → (s ≡ shutoff) ⊎ (s ≡ crashed) → state_lv_to_cim_os s ≢ cim_op_status_ok
  unfolding state_lv_to_cim_os
  down_not_ok s (inl e) = rw e (λ x. ground arith)
  down_not_ok s (inr e) = rw e (λ x. ground arith)

  crashed_error : (s : LvState) → s ≡ crashed → state_lv_to_cim_os s ≡ cim_op_status_error
  unfolding state_lv_to_cim_os
  crashed_error s e = rw e refl

  state_props-Agrees :
      (d : Dom) (s : LvState) (c : Option Ctx) (w : World) → Agrees (state_props h d s c w)
  unfolding state_props
  state_props-Agrees d s c w = record {
    failed_error = (health_os s).0;
    healthy_ok = (health_os s).1;
    aborted_error = λ e. crashed_error s (aborted_inv s (migrating_of h c) e);
    started_enabled =
        λ e. running_enabled (domain_get_name d) s w (started_inv s (migrating_of h c) e);
    suspended_down = λ e. down_not_ok s (suspended_state (domain_get_name d) s w e).0;
  }

  props_from-inv :
      (d : Dom) (s : LvState) (w : World) (r : Option Ctx × World) (p : StateProps) (w' : World)
      → props_from h d s w r ≡ (whole p, w')
      → (p ≡ state_props h d s r.0 w) × (w' ≡ close_if_open h r.0 r.1)
  unfolding props_from
  props_from-inv d s w (c, w₁) p w' e = (cc, cc)

  props_of-inv :
      (b : Bool) (d : Dom) (w : World) (s : LvState) (p : StateProps) (w' : World)
      → props_of h b d w s ≡ some (whole p, w')
      → (r : Option Ctx × World) × (infostore_open h d w ≡ some r)
        × (p ≡ state_props h d s r.0 w)
        × (w' ≡ close_if_open h r.0 r.1)
  unfolding props_of
  props_of-inv false d w s p w' e = absurd (cc)
  props_of-inv true d w s p w' e =
      let (r, opens, made) =
        >>=?-inv (infostore_open h d w) (λ r. some (props_from h d s w r)) (whole p, w') e in
      let (same, closed) = props_from-inv d s w r p w' (cc) in (r, opens, same, closed)

  with_state-inv :
      (b : Bool) (d : Dom) (w : World) (o : Option LvState) (p : StateProps) (w' : World)
      → with_state h b d w o ≡ some (whole p, w')
      → (info s : LvState) × (r : Option Ctx × World) × (o ≡ some info)
        × (adjust_state_xen h d info ≡ some s)
        × (infostore_open h d w ≡ some r)
        × (p ≡ state_props h d s r.0 w)
        × (w' ≡ close_if_open h r.0 r.1)
  unfolding with_state
  with_state-inv b d w none p w' e = absurd (cc)
  with_state-inv b d w (some info) p w' e =
      let (s, adjusted, made) =
        >>=?-inv (adjust_state_xen h d info) (props_of h b d w) (whole p, w') e in
      let (r, opens, same, closed) = props_of-inv b d w s p w' made in
      (info, s, r, refl, adjusted, opens, same, closed)

  -- where the properties come from
  pub set_state_from_dom-inv :
      (b : Bool) (d : Dom) (w : World) (p : StateProps) (w' : World)
      → set_state_from_dom h b d w ≡ some (whole p, w')
      → (info s : LvState) × (r : Option Ctx × World) × (domain_get_info d w ≡ some info)
        × (adjust_state_xen h d info ≡ some s)
        × (infostore_open h d w ≡ some r)
        × (p ≡ state_props h d s r.0 w)
        × (w' ≡ close_if_open h r.0 r.1)
  unfolding set_state_from_dom
  set_state_from_dom-inv b d w p w' e = with_state-inv b d w (domain_get_info d w) p w' e

  -- The states that an instance shows agree: its health is failed just if its operational status is an
  -- error, and good just if that is good; aborted goes with an error; a started system is enabled and
  -- good; and a system that is shown as suspended is not good.
  pub set_state_from_dom-Agrees :
      (b : Bool) (d : Dom) (w : World) (p : StateProps) (w' : World)
      → set_state_from_dom h b d w ≡ some (whole p, w')
      → Agrees p
  set_state_from_dom-Agrees b d w p w' e =
      let (info, s, r, _, _, _, same, _) = set_state_from_dom-inv b d w p w' e in
      subst Agrees (sym same) (state_props-Agrees d s r.0 w)

  -- the number that the domain's file holds, in 16 bits
  pub requested_state_of :
      (d : Dom) (s : LvState) (c : Ctx) (w : World)
      → (state_props h d s (some c) w).requested_state
        ≡ infostore_get_u64 c (codes "reqstate") % 2 ^ 16
  unfolding state_props req_state_of
  requested_state_of d s c w = refl
