-- ===== src/StateChange/Reset.antt =====
-- What a reset that succeeds leaves.
use libvirt_cim.Prelude.{◌≡◌, refl, Bool, true, false, Option, none, some, Bytes, ◌⊎◌, inl, inr}
use libvirt_cim.Cmpi.{rc_ok}
use libvirt_cim.Host.{Host, running}
use libvirt_cim.StateChange.{
  start_defined, restart, after_destroy, reset_defined, reset_on, domain_reset,
}
use libvirt_cim.StateChange.Targets.{StateLaws, answer-state}

module _ (h : Host) (laws : StateLaws h) where
  open h use {
    World, Conn, Dom, domain_lookup, domain_get_name, domain_get_connect, domain_get_xml,
    domain_get_info, domain_create, domain_destroy, domain_define,
  }

  start_defined-state :
      (r : Option Dom × World) (w' : World)
      → start_defined h r ≡ (rc_ok, w')
      → (d : Dom) × (r.0 ≡ some d) × (domain_get_info d w' ≡ some running)
  unfolding start_defined
  start_defined-state (none, w) w' e = absurd (cc)
  start_defined-state (some d, w) w' e =
      (d, refl, answer-state h laws d running (domain_create d w) w' (laws.created d w) e)

  -- the domain that is started: the one of that name, or the one defined anew
  abbrev pub Restarted : Conn → Bytes → Option Dom → World → World → Type 0
  Restarted conn xml found w w' =
      (d : Dom) × ((found ≡ some d) ⊎ ((found ≡ none) × ((domain_define conn xml w).0 ≡ some d)))
      × (domain_get_info d w' ≡ some running)

  restart-Restarted :
      (conn : Conn) (xml : Bytes) (found : Option Dom) (w w' : World)
      → restart h conn xml found w ≡ (rc_ok, w')
      → Restarted conn xml found w w'
  unfolding restart
  restart-Restarted conn xml (some d) w w' e =
      (d, inl refl, answer-state h laws d running (domain_create d w) w' (laws.created d w) e)
  restart-Restarted conn xml none w w' e =
      let (d, defined, up) = start_defined-state (domain_define conn xml w) w' e in
      (d, inr (refl, defined), up)

  after_destroy-Restarted :
      (conn : Conn) (d : Dom) (xml : Bytes) (r : Bool × World) (w' : World)
      → after_destroy h conn d xml r ≡ (rc_ok, w')
      → (r.0 ≡ true) × Restarted conn xml (domain_lookup conn (domain_get_name d) r.1) r.1 w'
  unfolding after_destroy
  after_destroy-Restarted conn d xml (false, w) w' e = absurd (cc)
  after_destroy-Restarted conn d xml (true, w) w' e =
      (refl, restart-Restarted conn xml (domain_lookup conn (domain_get_name d) w) w w' e)

  reset_defined-Restarted :
      (conn : Conn) (d : Dom) (o : Option Bytes) (w w' : World)
      → reset_defined h conn d o w ≡ (rc_ok, w')
      → (xml : Bytes) × (o ≡ some xml)
        × ((domain_destroy d w).0 ≡ true)
        × Restarted conn xml
            (domain_lookup conn (domain_get_name d) (domain_destroy d w).1)
            (domain_destroy d w).1
            w'
  unfolding reset_defined
  reset_defined-Restarted conn d none w w' e = absurd (cc)
  reset_defined-Restarted conn d (some xml) w w' e =
      let (ok, up) = after_destroy-Restarted conn d xml (domain_destroy d w) w' e in
      (xml, refl, ok, up)

  reset_on-Restarted :
      (d : Dom) (o : Option Conn) (w w' : World)
      → reset_on h d o w ≡ (rc_ok, w')
      → (conn : Conn) × (xml : Bytes) × (o ≡ some conn)
        × (domain_get_xml d w ≡ some xml)
        × ((domain_destroy d w).0 ≡ true)
        × Restarted conn xml
            (domain_lookup conn (domain_get_name d) (domain_destroy d w).1)
            (domain_destroy d w).1
            w'
  unfolding reset_on
  reset_on-Restarted d none w w' e = absurd (cc)
  reset_on-Restarted d (some conn) w w' e =
      let (xml, told, ok, up) = reset_defined-Restarted conn d (domain_get_xml d w) w w' e in
      (conn, xml, refl, told, ok, up)

  -- Where libvirt keeps StateLaws, a reset that ends with the status OK has destroyed the domain, and a
  -- domain runs after it: the one that the connection then has under that name, or, if it has none, the
  -- one defined from the description that libvirt gave before.
  pub domain_reset-Restarted :
      (d : Dom) (w w' : World)
      → domain_reset h d w ≡ (rc_ok, w')
      → (conn : Conn) × (xml : Bytes) × (domain_get_connect d ≡ some conn)
        × (domain_get_xml d w ≡ some xml)
        × ((domain_destroy d w).0 ≡ true)
        × Restarted conn xml
            (domain_lookup conn (domain_get_name d) (domain_destroy d w).1)
            (domain_destroy d w).1
            w'
  unfolding domain_reset
  domain_reset-Restarted d w w' e = reset_on-Restarted d (domain_get_connect d) w w' e
