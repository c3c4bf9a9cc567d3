-- ===== src/StateChange/Targets.antt =====
-- That a handler which succeeds leaves the domain in the state that was asked for.
use libvirt_cim.Prelude.{
  ℕ, ◌≡◌, refl, ap, ◌∙◌, Bool, true, false, Option, none, some, List, [], ◌∷◌, ◌⊎◌, inl, inr,
  >>=?-inv, Bool-cases, subst,
}
use libvirt_cim.Cmpi.{rc_ok, cim_state_enabled, cim_state_disabled, cim_state_paused}
use libvirt_cim.Host.{
  Host, LvState, nostate, running, blocked, paused, shutdown, shutoff, crashed, other_state,
  SchedParam,
}
use libvirt_cim.Infostore.{Ctx, infostore_open}
use libvirt_cim.Infostore.Frame.{Kept, infostore_open-Kept, infostore_close-Kept}
use libvirt_cim.ComputerSystem.{adjust_state_xen, state_lv_to_cim}
use libvirt_cim.Vsss.{vsss_has_save_image}
use libvirt_cim.Scheduler.{
  set_params, scheduler_params, params_from, with_params, set_scheduler_params,
}
use libvirt_cim.StateChange.{
  answer, started, start_domain, state_change_enable, state_change_disable, state_change_pause,
  state_change_to, disable_from, pause_from,
}

module _ (h : Host) where
  open h use {
    World, Conn, Dom, domain_lookup, domain_get_connect, domain_get_info, domain_create,
    domain_resume, domain_destroy, domain_suspend, domain_set_sched, domain_get_name,
  }

  -- What libvirt documents of its calls: the state that a call which succeeds leaves, where a transient
  -- domain is gone once it is destroyed, so that its state is not told any more. The state is no
  -- matter of the files that infostore.c keeps, and not of the scheduler's parameters.
  pub record StateLaws : Type 0 where
    pub created :
        (d : Dom) (w : World)
        → (domain_create d w).0 ≡ true
        → domain_get_info d (domain_create d w).1 ≡ some running
    pub resumed :
        (d : Dom) (w : World)
        → (domain_resume d w).0 ≡ true
        → domain_get_info d (domain_resume d w).1 ≡ some running
    pub destroyed :
        (d : Dom) (w : World)
        → (domain_destroy d w).0 ≡ true
        → (domain_get_info d (domain_destroy d w).1 ≡ some shutoff)
          ⊎ (domain_get_info d (domain_destroy d w).1 ≡ none)
    pub suspended :
        (d : Dom) (w : World)
        → (domain_suspend d w).0 ≡ true
        → domain_get_info d (domain_suspend d w).1 ≡ some paused
    pub scheduled :
        (d : Dom) (ps : List SchedParam) (w : World)
        → domain_get_info d (domain_set_sched d ps w) ≡ domain_get_info d w
    pub stored : (d : Dom) → Kept h (Option LvState) (domain_get_info d)

module _ (h : Host) (laws : StateLaws h) where
  open h use {
    World, Conn, Dom, domain_lookup, domain_get_connect, domain_get_info, domain_create,
    domain_resume, domain_destroy, domain_suspend, domain_set_sched, domain_get_name,
  }

  set_params-info :
      (d : Dom) (ps : List SchedParam) (w : World)
      → domain_get_info d (set_params h d ps w) ≡ domain_get_info d w
  unfolding set_params
  set_params-info d [] w = refl
  set_params-info d (p ∷ ps) w = laws.scheduled d (p ∷ ps) w

  params_from-info :
      (d : Dom) (conn : Conn) (r : Option Ctx × World)
      → domain_get_info d (params_from h d conn r) ≡ domain_get_info d r.1
  unfolding params_from
  params_from-info d conn (none, w) = refl
  params_from-info d conn (some c, w) =
      infostore_close-Kept h _ (domain_get_info d) (laws.stored d) c _
      ∙ set_params-info d (scheduler_params h (h.connect_get_type conn) c) w

  with_params-info :
      (d : Dom) (o : Option Conn) (w w' : World)
      → with_params h d o w ≡ some w'
      → domain_get_info d w' ≡ domain_get_info d w
  unfolding with_params
  with_params-info d none w w' e = ap (domain_get_info d) (cc)
  with_params-info d (some conn) w w' e =
      let (r, opens, made) =
        >>=?-inv (infostore_open h d w) (λ r. some (params_from h d conn r)) w' e in
      ap (domain_get_info d) (cc)
      ∙ params_from-info d conn r
      ∙ infostore_open-Kept h _ (domain_get_info d) (laws.stored d) d w r opens

  set_scheduler_params-info :
      (d : Dom) (w w' : World)
      → set_scheduler_params h d w ≡ some w'
      → domain_get_info d w' ≡ domain_get_info d w
  unfolding set_scheduler_params
  set_scheduler_params-info d w w' e = with_params-info d (domain_get_connect d) w w' e

  started-state :
      (d : Dom) (r : Bool × World) (w' : World)
      → (r.0 ≡ true → domain_get_info d r.1 ≡ some running)
      → started h d r ≡ some (rc_ok, w')
      → domain_get_info d w' ≡ some running
  unfolding started
  started-state d (true, w) w' law e =
      let (w₁, params, made) =
        >>=?-inv (set_scheduler_params h d w) (λ w'. some (rc_ok, w')) (rc_ok, w') e in
      ap (domain_get_info d) (cc) ∙ set_scheduler_params-info d w w₁ params ∙ law refl
  started-state d (false, w) w' law e = absurd (cc)

  start_domain-state :
      (d : Dom) (w w' : World)
      → start_domain h d w ≡ some (rc_ok, w')
      → domain_get_info d w' ≡ some running
  unfolding start_domain
  start_domain-state d w w' e = elim (Bool-cases (vsss_has_save_image h (domain_get_name d) w)) [
    | inl t ↦ absurd (cc (rw t at e))
    | inr t ↦ started-state d (domain_create d w) w' (laws.created d w) (rw t at e)
  ]

  answered :
      (P : World → Type 0) (r : Bool × World) (w' : World)
      → (r.0 ≡ true → P r.1)
      → answer h r ≡ (rc_ok, w')
      → P w'
  answered P (true, w) w' law e = let same : w ≡ w' = cc in subst P same (law refl)
  answered P (false, w) w' law e = absurd (cc)

  pub answer-state :
      (d : Dom) (s : LvState) (r : Bool × World) (w' : World)
      → (r.0 ≡ true → domain_get_info d r.1 ≡ some s)
      → answer h r ≡ (rc_ok, w')
      → domain_get_info d w' ≡ some s
  answer-state d s (true, w) w' law e = ap (domain_get_info d) (cc) ∙ law refl
  answer-state d s (false, w) w' law e = absurd (cc)

  -- The target of a request: libvirt tells a state, Xen or not, that stands for the requested one, or the
  -- domain is disabled and gone.
  abbrev pub Reached : Dom → ℕ → World → Type 0
  Reached d request w =
      ((request ≡ cim_state_disabled) × (domain_get_info d w ≡ none))
      ⊎ ((s : LvState) × (domain_get_info d w ≡ some s)
          × (adjust_state_xen h d s ≡ some s)
          × (state_lv_to_cim s ≡ request))

  shows_running :
      (d : Dom) (w : World) → domain_get_info d w ≡ some running → Reached d cim_state_enabled w
  unfolding state_lv_to_cim adjust_state_xen
  shows_running d w e = inr (running, e, refl, refl)

  shows_off :
      (d : Dom) (w : World)
      → (domain_get_info d w ≡ some shutoff) ⊎ (domain_get_info d w ≡ none)
      → Reached d cim_state_disabled w
  unfolding state_lv_to_cim adjust_state_xen
  shows_off d w (inl e) = inr (shutoff, e, refl, refl)
  shows_off d w (inr e) = inl (refl, e)

  shows_paused :
      (d : Dom) (w : World) → domain_get_info d w ≡ some paused → Reached d cim_state_paused w
  unfolding state_lv_to_cim adjust_state_xen
  shows_paused d w e = inr (paused, e, refl, refl)

  enable-Reached :
      (d : Dom) (info : LvState) (w w' : World)
      → state_change_enable h d info w ≡ some (rc_ok, w')
      → Reached d cim_state_enabled w'
  unfolding state_change_enable
  enable-Reached d shutoff w w' e = shows_running d w' (start_domain-state d w w' e)
  enable-Reached d paused w w' e =
      shows_running d w' (answer-state d running (domain_resume d w) w' (laws.resumed d w) (cc))
  enable-Reached d nostate w w' e = absurd (cc)
  enable-Reached d running w w' e = absurd (cc)
  enable-Reached d blocked w w' e = absurd (cc)
  enable-Reached d shutdown w w' e = absurd (cc)
  enable-Reached d crashed w w' e = absurd (cc)
  enable-Reached d (other_state n) w w' e = absurd (cc)

  disable_from-Reached :
      (d : Dom) (s : LvState) (w w' : World)
      → disable_from h d s w ≡ (rc_ok, w')
      → Reached d cim_state_disabled w'
  unfolding disable_from
  disable_from-Reached d running w w' e =
      answered (Reached d cim_state_disabled) (domain_destroy d w) w'
        (λ ok. shows_off d (domain_destroy d w).1 (laws.destroyed d w ok)) e
  disable_from-Reached d blocked w w' e =
      answered (Reached d cim_state_disabled) (domain_destroy d w) w'
        (λ ok. shows_off d (domain_destroy d w).1 (laws.destroyed d w ok)) e
  disable_from-Reached d nostate w w' e = absurd (cc)
  disable_from-Reached d paused w w' e = absurd (cc)
  disable_from-Reached d shutdown w w' e = absurd (cc)
  disable_from-Reached d shutoff w w' e = absurd (cc)
  disable_from-Reached d crashed w w' e = absurd (cc)
  disable_from-Reached d (other_state n) w w' e = absurd (cc)

  pause_from-Reached :
      (d : Dom) (s : LvState) (w w' : World)
      → pause_from h d s w ≡ (rc_ok, w')
      → Reached d cim_state_paused w'
  unfolding pause_from
  pause_from-Reached d running w w' e =
      shows_paused d w' (answer-state d paused (domain_suspend d w) w' (laws.suspended d w) e)
  pause_from-Reached d blocked w w' e =
      shows_paused d w' (answer-state d paused (domain_suspend d w) w' (laws.suspended d w) e)
  pause_from-Reached d nostate w w' e = absurd (cc)
  pause_from-Reached d paused w w' e = absurd (cc)
  pause_from-Reached d shutdown w w' e = absurd (cc)
  pause_from-Reached d shutoff w w' e = absurd (cc)
  pause_from-Reached d crashed w w' e = absurd (cc)
  pause_from-Reached d (other_state n) w w' e = absurd (cc)

  pub state_change_to-Reached :
      (request : ℕ) (d : Dom) (info : LvState) (w w' : World)
      → (request ≡ cim_state_enabled)
        ⊎ ((request ≡ cim_state_disabled) ⊎ (request ≡ cim_state_paused))
      → state_change_to h request d info w ≡ some (rc_ok, w')
      → Reached d request w'
  unfolding state_change_to state_change_disable state_change_pause
  state_change_to-Reached request d info w w' (inl t) e =
      rw t (enable-Reached d info w w' (rw t at e))
  state_change_to-Reached request d info w w' (inr (inl t)) e =
      let (s, _, made) =
        >>=?-inv (adjust_state_xen h d info) (λ s. some (disable_from h d s w)) (rc_ok, w')
          (rw t at e) in
      rw t (disable_from-Reached d s w w' (cc))
  state_change_to-Reached request d info w w' (inr (inr t)) e =
      let (s, _, made) =
        >>=?-inv (adjust_state_xen h d info) (λ s. some (pause_from h d s w)) (rc_ok, w')
          (rw t at e) in
      rw t (pause_from-Reached d s w w' (cc))
