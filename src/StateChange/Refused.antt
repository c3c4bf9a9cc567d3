-- ===== src/StateChange/Refused.antt =====
-- A refused request as the client sees it: what `__state_change` answers, and what it records all the same.
use libvirt_cim.Prelude.{ℕ, ◌≡◌, ap, ◌∙◌, sym, false, some, Bytes, >>=?-inv}
use libvirt_cim.Cmpi.{Rc}
use libvirt_cim.Host.{Host, LvState}
use libvirt_cim.MiscUtil.{Hypervisors, connect_by_classname}
use libvirt_cim.ComputerSystem.{adjust_state_xen}
use libvirt_cim.StateChange.{state_change_to, record_request, with_info, change_state}
use libvirt_cim.StateChange.Targets.{StateLaws}
use libvirt_cim.StateChange.Table.{accepts, refusal, refused}
use libvirt_cim.StateChange.Reached.{changes, record_request-info}

module _ (h : Host) (laws : StateLaws h) where
  open h use {World, Conn, Dom, domain_lookup, domain_get_info}

  refused_info :
      (request : ℕ) (d : Dom) (info s : LvState) (w w' : World) (rc : Rc)
      → adjust_state_xen h d info ≡ some s
      → accepts request info s ≡ false
      → with_info h request d (some info) w ≡ some (rc, w')
      → (rc ≡ refusal request) × (record_request h request d w ≡ some w')
  unfolding with_info
  refused_info request d info s w w' rc adjusted turned e =
      let ((rc₁, w₁), changed, rest) = >>=?-inv (state_change_to h request d info w) _ (rc, w') e in
      let (w₂, recorded, made) =
        >>=?-inv (record_request h request d w₁) (λ w''. some (rc₁, w'')) (rc, w') rest in
      let known = refused h request d info s w adjusted turned in
      let same : ◌≡◌ {A = Rc × World} (rc₁, w₁) (refusal request, w) = cc in
      let end : ◌≡◌ {A = Rc × World} (rc₁, w₂) (rc, w') = cc in
      (
        sym (ap (λ (x : Rc × World). x.0) end) ∙ ap (λ (x : Rc × World). x.0) same,
        ap (record_request h request d) (sym (ap (λ (x : Rc × World). x.1) same))
            ∙ recorded
            ∙ ap (λ (x : Rc × World). some x.1) end,
      )

  -- Where libvirt keeps StateLaws, a request on a domain that the connection has, which its state (with
  -- `nostate` read the way Xen means it, where that does not fault) does not admit, or which no state
  -- admits, is answered, if recording it does not fault, with an error status; the request is recorded as if
  -- nothing else had been done, and the state of the domain stays. To become enabled a domain must be off or
  -- paused; to be disabled, shut down or paused it must run; to be rebooted or reset it must run or be paused.
  pub change_state-refused :
      (name classname : Bytes) (request : ℕ) (l : Hypervisors) (w w' : World) (conn : Conn)
      (d : Dom) (info s : LvState) (rc : Rc)
      → (connect_by_classname h classname l w).0.1 ≡ some conn
      → domain_lookup conn name w ≡ some d
      → domain_get_info d w ≡ some info
      → adjust_state_xen h d info ≡ some s
      → accepts request info s ≡ false
      → (change_state h name request classname l w).0 ≡ some (rc, w')
      → (rc ≡ refusal request)
        × (record_request h request d w ≡ some w')
        × (domain_get_info d w' ≡ some info)
  change_state-refused name classname request l w w' conn d info s rc connects found told adjusted
        turned e =
      let (answered, recorded) =
        refused_info request d info s w w' rc adjusted turned
          (sym (changes h laws name classname request l w conn d info connects found told) ∙ e) in
      (answered, recorded, record_request-info h laws request d w w' recorded ∙ told)
