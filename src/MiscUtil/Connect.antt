-- ===== src/MiscUtil/Connect.antt =====
-- Which hypervisors a connection is tried to, and what a hypervisor that is not there changes.
use libvirt_cim.Prelude.{
  ◌≡◌, refl, sym, ap, ◌∙◌, true, false, Bool-cases, inl, inr, Option, none, some, [], ◌∷◌, Bytes,
  if◌then◌else◌,
}
use libvirt_cim.Cmpi.{rc_ok}
use libvirt_cim.Host.{Host, Opened, opened, no_connect, open_error}
use libvirt_cim.MiscUtil.{
  Hypervisors, starts_caseless, get_hypervisor_enabled, set_hypervisor_disabled, cn_to_uri,
  connect_by_classname, connect_uri, after_open,
}

-- A hypervisor that was disabled is not enabled.
disabled_lem :
    (cn : Bytes) (l : Hypervisors)
    → get_hypervisor_enabled cn (set_hypervisor_disabled cn l) ≡ false
unfolding get_hypervisor_enabled set_hypervisor_disabled
disabled_lem cn [] = refl
disabled_lem cn ((name, enabled) ∷ l) = elim (Bool-cases (starts_caseless cn name)) [
  | inl e ↦ rw e (rw e refl)
  | inr e ↦ rw e (rw e (disabled_lem cn l))
]

-- Disabling leaves the entries alone that the class is not a name of.
others_lem :
    (cn other : Bytes) (l : Hypervisors)
    → ((name : Bytes) → starts_caseless cn name ≡ true → starts_caseless other name ≡ false)
    → get_hypervisor_enabled other (set_hypervisor_disabled cn l) ≡ get_hypervisor_enabled other l
unfolding get_hypervisor_enabled set_hypervisor_disabled
others_lem cn other [] h = refl
others_lem cn other ((name, enabled) ∷ l) h = elim (Bool-cases (starts_caseless cn name)) [
  | inl e ↦ rw e (rw (h name e) refl)
  | inr e ↦
      rw e (ap (λ b. if starts_caseless other name then enabled else b) (others_lem cn other l h))
]

module _ (h : Host) where
  open h use {World, connect_open, read_only}

  after_open-result :
      (other : Bytes) (o : Opened h.Conn) (l l' : Hypervisors)
      → (after_open h other o l).0 ≡ (after_open h other o l').0
  unfolding after_open
  after_open-result other (opened c) l l' = refl
  after_open-result other no_connect l l' = refl
  after_open-result other open_error l l' = refl

  -- what a connection gives depends on the list by one bit only
  same_uri_result :
      (other : Bytes) (u : Option Bytes) (l l' : Hypervisors) (w : World)
      → get_hypervisor_enabled other l' ≡ get_hypervisor_enabled other l
      → (connect_uri h other u l' w).0 ≡ (connect_uri h other u l w).0
  unfolding connect_uri
  same_uri_result other none l l' w e = refl
  same_uri_result other (some uri) l l' w e = elim (Bool-cases (get_hypervisor_enabled other l)) [
    | inl t ↦
        ap
          (λ b.
            (if b
              then after_open h other (connect_open read_only uri w) l'
              else ((rc_ok, none), l')).0)
          (e ∙ t)
        ∙ after_open-result other (connect_open read_only uri w) l' l
        ∙ ap
            (λ b.
              (if b
                then after_open h other (connect_open read_only uri w) l
                else ((rc_ok, none), l)).0)
            (sym t)
    | inr f ↦
        ap
          (λ b.
            (if b
              then after_open h other (connect_open read_only uri w) l'
              else ((rc_ok, none), l')).0)
          (e ∙ f)
        ∙ ap
            (λ b.
              (if b
                then after_open h other (connect_open read_only uri w) l
                else ((rc_ok, none), l)).0)
            (sym f)
  ]

  same_result :
      (other : Bytes) (l l' : Hypervisors) (w : World)
      → get_hypervisor_enabled other l' ≡ get_hypervisor_enabled other l
      → (connect_by_classname h other l' w).0 ≡ (connect_by_classname h other l w).0
  unfolding connect_by_classname
  same_result other l l' w e = same_uri_result other (cn_to_uri h other) l l' w e

  while_disabled :
      (cn uri : Bytes) (l : Hypervisors) (w : World)
      → cn_to_uri h cn ≡ some uri
      → get_hypervisor_enabled cn l ≡ false
      → connect_by_classname h cn l w ≡ ((rc_ok, none), l)
  unfolding connect_by_classname connect_uri
  while_disabled cn uri l w u e =
      ap (λ x. connect_uri h cn x l w) u
      ∙ ap (λ b. if b then after_open h cn (connect_open read_only uri w) l else ((rc_ok, none), l))
          e

  disables :
      (cn uri : Bytes) (l : Hypervisors) (w : World)
      → cn_to_uri h cn ≡ some uri
      → get_hypervisor_enabled cn l ≡ true
      → connect_open read_only uri w ≡ no_connect
      → (connect_by_classname h cn l w).1 ≡ set_hypervisor_disabled cn l
  unfolding connect_by_classname connect_uri after_open
  disables cn uri l w u e n =
      ap (λ x. (connect_uri h cn x l w).1) u
      ∙ ap
          (λ b.
            (if b then after_open h cn (connect_open read_only uri w) l else ((rc_ok, none), l)).1)
          e
      ∙ ap (λ o. (after_open h cn o l).1) n

  pub connect-no_connect :
      (cn uri : Bytes) (l : Hypervisors) (w : World)
      → cn_to_uri h cn ≡ some uri
      → get_hypervisor_enabled cn l ≡ true
      → connect_open read_only uri w ≡ no_connect
      → let l' = (connect_by_classname h cn l w).1 in
        ((w' : World) → connect_by_classname h cn l' w' ≡ ((rc_ok, none), l'))
        × ((other : Bytes)
            → ((name : Bytes) → starts_caseless cn name ≡ true → starts_caseless other name ≡ false)
            → (w' : World)
            → (connect_by_classname h other l' w').0 ≡ (connect_by_classname h other l w').0)
  connect-no_connect cn uri l w u e n =
      let new = disables cn uri l w u e n in
      (
        λ w'. while_disabled cn uri _ w' u (ap (get_hypervisor_enabled cn) new ∙ disabled_lem cn l),
        λ other apart w'.
            same_result other l _ w'
              (ap (get_hypervisor_enabled other) new ∙ others_lem cn other l apart),
      )
