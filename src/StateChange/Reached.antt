-- ===== src/StateChange/Reached.antt =====
-- That a request which succeeds reaches the state that it asks for.
use libvirt_cim.Prelude.{
  ℕ, Bytes, ◌≡◌, refl, ap, ◌∙◌, sym, subst, true, Bool-cases, inl, inr, Option, none, some, ◌⊎◌,
  >>=?-inv,
}
use libvirt_cim.Cmpi.{
  rc_ok, cim_state_enabled, cim_state_disabled, cim_state_suspended, cim_state_paused,
}
use libvirt_cim.Host.{Host, LvState}
use libvirt_cim.Infostore.{Ctx, infostore_open}
use libvirt_cim.Infostore.Frame.{infostore_open-Kept, infostore_close-Kept}
use libvirt_cim.MiscUtil.{Hypervisors, connect_by_classname}
use libvirt_cim.ComputerSystem.{adjust_state_xen, adjust_state_if_saved, state_props}
use libvirt_cim.Vsss.{vsss_has_save_image}
use libvirt_cim.StateChange.{
  state_change_to, store_request, record_request, with_info, with_domain, with_connection,
  change_state,
}
use libvirt_cim.StateChange.Targets.{StateLaws, Reached, state_change_to-Reached}

module _ (h : Host) (laws : StateLaws h) where
  open h use {World, Conn, Dom, domain_lookup, domain_get_info, domain_get_name}

  store_request-info :
      (request : ℕ) (d : Dom) (r : Option Ctx × World)
      → domain_get_info d (store_request h request r) ≡ domain_get_info d r.1
  unfolding store_request
  store_request-info request d (none, w) = refl
  store_request-info request d (some c, w) =
      infostore_close-Kept h _ (domain_get_info d) (laws.stored d) _ w

  pub record_request-info :
      (request : ℕ) (d : Dom) (w w' : World)
      → record_request h request d w ≡ some w'
      → domain_get_info d w' ≡ domain_get_info d w
  unfolding record_request
  record_request-info request d w w' e =
      let (r, opens, made) =
        >>=?-inv (infostore_open h d w) (λ r. some (store_request h request r)) w' e in
      ap (domain_get_info d) (cc)
      ∙ store_request-info request d r
      ∙ infostore_open-Kept h _ (domain_get_info d) (laws.stored d) d w r opens

  -- what is asked for, or suspended in place of disabled where the domain has a save image
  abbrev pub ShownAs : Dom → ℕ → ℕ → World → Type 0
  ShownAs d request enabled w =
      (enabled ≡ request)
      ⊎ ((request ≡ cim_state_disabled)
          × (vsss_has_save_image h (domain_get_name d) w ≡ true)
          × (enabled ≡ cim_state_suspended))

  -- The domain is disabled and gone, or its EnabledState, whatever its file holds, is shown as requested.
  abbrev pub Shows : Dom → ℕ → Option Ctx → World → Type 0
  Shows d request c w =
      ((request ≡ cim_state_disabled) × (domain_get_info d w ≡ none))
      ⊎ ((s : LvState) × (domain_get_info d w ≡ some s)
          × (adjust_state_xen h d s ≡ some s)
          × ShownAs d request (state_props h d s c w).enabled_state w)

  requested-ShownAs :
      (d : Dom) (request : ℕ) (w : World)
      → (request ≡ cim_state_enabled)
        ⊎ ((request ≡ cim_state_disabled) ⊎ (request ≡ cim_state_paused))
      → ShownAs d request (adjust_state_if_saved h (domain_get_name d) request w) w
  unfolding adjust_state_if_saved
  requested-ShownAs d request w (inl t) = inl (rw t refl)
  requested-ShownAs d request w (inr (inl t)) =
      elim (Bool-cases (vsss_has_save_image h (domain_get_name d) w)) [
        | inl saved ↦ inr (t, saved, rw (t, saved))
        | inr fresh ↦ inl (rw (t, fresh))
      ]
  requested-ShownAs d request w (inr (inr t)) = inl (rw t refl)

  recorded-Shows :
      (d : Dom) (request : ℕ) (c : Option Ctx) (w w' : World)
      → (request ≡ cim_state_enabled)
        ⊎ ((request ≡ cim_state_disabled) ⊎ (request ≡ cim_state_paused))
      → domain_get_info d w' ≡ domain_get_info d w
      → Reached h laws d request w
      → Shows d request c w'
  unfolding state_props
  recorded-Shows d request c w w' t same (inl (off, gone)) = inl (off, same ∙ gone)
  recorded-Shows d request c w w' t same (inr (s, told, adjusted, target)) = inr (
    s,
    same ∙ told,
    adjusted,
    subst (λ n. ShownAs d request (adjust_state_if_saved h (domain_get_name d) n w') w')
        (sym target) (requested-ShownAs d request w' t),
  )

  -- the request, once the domain and its state are found
  pub changes :
      (name classname : Bytes) (request : ℕ) (l : Hypervisors) (w : World) (conn : Conn) (d : Dom)
      (info : LvState)
      → (connect_by_classname h classname l w).0.1 ≡ some conn
      → domain_lookup conn name w ≡ some d
      → domain_get_info d w ≡ some info
      → (change_state h name request classname l w).0 ≡ with_info h request d (some info) w
  unfolding change_state with_connection with_domain
  changes name classname request l w conn d info connects found told =
      ap (λ c. with_connection h name request ((connect_by_classname h classname l w).0.0, c) w)
        connects
      ∙ ap (λ x. with_domain h request x w) found
      ∙ ap (λ x. with_info h request d x w) told

  with_info-Shows :
      (request : ℕ) (d : Dom) (info : LvState) (c : Option Ctx) (w w' : World)
      → (request ≡ cim_state_enabled)
        ⊎ ((request ≡ cim_state_disabled) ⊎ (request ≡ cim_state_paused))
      → with_info h request d (some info) w ≡ some (rc_ok, w')
      → Shows d request c w'
  unfolding with_info
  with_info-Shows request d info c w w' t e =
      let ((rc, w₁), changed, rest) =
        >>=?-inv (state_change_to h request d info w) _ (rc_ok, w') e in
      let (w₂, recorded, made) =
        >>=?-inv (record_request h request d w₁) (λ w''. some (rc, w'')) (rc_ok, w') rest in
      recorded-Shows d request c w₁ w' t
        (ap (domain_get_info d) (cc) ∙ record_request-info request d w₁ w₂ recorded)
        (state_change_to-Reached h laws request d info w w₁ t (cc))

  -- Where libvirt keeps StateLaws, a request to become enabled, disabled or paused that ends with the status OK,
  -- on a domain that the connection has and whose state libvirt tells, leaves the domain with the requested
  -- EnabledState, whatever its file holds, except that a disabled domain that has a save image is shown as
  -- suspended, and that a domain which ended by being disabled, as a transient one does, has no state.
  pub change_state-Reached :
      (name classname : Bytes) (request : ℕ) (l : Hypervisors) (w w' : World) (conn : Conn)
      (d : Dom) (info : LvState) (c : Option Ctx)
      → (request ≡ cim_state_enabled)
        ⊎ ((request ≡ cim_state_disabled) ⊎ (request ≡ cim_state_paused))
      → (connect_by_classname h classname l w).0.1 ≡ some conn
      → domain_lookup conn name w ≡ some d
      → domain_get_info d w ≡ some info
      → (change_state h name request classname l w).0 ≡ some (rc_ok, w')
      → Shows d request c w'
  change_state-Reached name classname request l w w' conn d info c t connects found told e =
      with_info-Shows request d info c w w' t
        (sym (changes name classname request l w conn d info connects found told) ∙ e)
