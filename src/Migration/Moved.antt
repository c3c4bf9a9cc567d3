-- ===== src/Migration/Moved.antt =====
-- What a migration that succeeds has done.
use libvirt_cim.Prelude.{
  ◌==◌, ◌≡◌, refl, sym, ap, ◌∙◌, ◌⊎◌, inl, inr, Bool, true, false, Option, none, some, Bytes, codes,
  Bool-cases,
}
use libvirt_cim.Cmpi.{
  Rc, rc_ok, rc_err_failed, rc_err_not_found, rc_err_not_supported, rc_err_invalid_parameter,
}
use libvirt_cim.Host.{Host, running}
use libvirt_cim.MiscUtil.{Hypervisors, connect_by_classname}
use libvirt_cim.Infostore.{Ctx, infostore_open}
use libvirt_cim.Infostore.Frame.{infostore_open-Kept, infostore_close-Kept}
use libvirt_cim.StateChange.Targets.{StateLaws}
use libvirt_cim.Migration.Left.{Left, same_world, start_migrate-Left}
use libvirt_cim.Migration.{
  cim_migrate_restart, migrate_shutdown_timeout, Migrator, Job, domain_exists, flag_set,
  flag_cleared, clear_infstore_migration_flag, undefine_loop, restarted, defined, complete_migrate,
  start_migrate, complete_if, prepared, move_domain, found_domain, over_connection, migrate_vs,
}

module _ (h : Host) (laws : StateLaws h) (m : Migrator h) (job : Job h) where
  open h use {World, Conn, Dom, domain_lookup, domain_get_info, domain_create, domain_define, streq}
  open m use {migrate, get_xml, undefine}

  -- The domain was defined from its description on the other host, after the one that was left behind was
  -- undefined as far as that could be done; by a restart it runs there.
  abbrev pub Arrived : Dom → Bytes → World → World → Type 0
  Arrived dom xml w w' =
      (new : Dom) × ((domain_define job.conn xml
          (undefine_loop h m migrate_shutdown_timeout dom w)).0
        ≡ some new)
      × (job.type ≡ cim_migrate_restart → domain_get_info new w' ≡ some running)

  created-running :
      (new : Dom) (r : Bool × World) (w' : World)
      → (r.0 ≡ true → domain_get_info new r.1 ≡ some running)
      → restarted h m r ≡ (rc_ok, w')
      → domain_get_info new w' ≡ some running
  created-running new (false, w1) w' c e = absurd (cc (same_world h m job _ _ _ e).0)
  created-running new (true, w1) w' c e =
      ap (domain_get_info new) (sym (same_world h m job _ _ _ e).1) ∙ c refl

  defined-Arrived :
      (restart : Bool) (r : Option Dom × World) (w' : World)
      → defined h m restart r ≡ (rc_ok, w')
      → (new : Dom) × (r.0 ≡ some new) × (restart ≡ true → domain_get_info new w' ≡ some running)
  defined-Arrived restart (none, w1) w' e = absurd (cc (same_world h m job _ _ _ e).0)
  defined-Arrived true (some new, w1) w' e =
      (new, refl, λ t. created-running new (domain_create new w1) w' (laws.created new w1) e)
  defined-Arrived false (some new, w1) w' e = (new, refl, λ t. absurd (cc))

  complete-Arrived :
      (dom : Dom) (xml : Bytes) (w w' : World)
      → complete_migrate h m dom job.conn xml (job.type == cim_migrate_restart) w ≡ (rc_ok, w')
      → Arrived dom xml w w'
  unfolding complete_migrate
  complete-Arrived dom xml w w' e =
      let (new, made, runs) = defined-Arrived (job.type == cim_migrate_restart) _ w' e in
      (new, made, λ t. runs (ap (λ x. x == cim_migrate_restart) t))

  -- A migration of a domain from one world to another.
  pub record Moved (dom : Dom) (w w' : World) : Type 0 where
    pub xml : Bytes
    pub left_world : World
    pub not_there :
        (streq job.host (codes "localhost") ≡ true)
        ⊎ (domain_exists h job.conn job.domain w ≡ false)
    pub described : get_xml dom w ≡ some xml
    pub left : Left h m job dom w left_world
    pub arrived : Arrived dom xml left_world w'

  completed-Moved :
      (dom : Dom) (xml : Bytes) (w w' : World) (r : Rc × World)
      → start_migrate h m job dom w ≡ r
      → complete_if h m job dom xml r ≡ (rc_ok, w')
      → (w1 : World) × Left h m job dom w w1 × Arrived dom xml w1 w'
  completed-Moved dom xml w w' (rc_ok, w1) s e =
      (w1, start_migrate-Left h m job dom w w1 s, complete-Arrived dom xml w1 w' e)
  completed-Moved dom xml w w' (rc_err_failed, w1) s e = absurd (cc (same_world h m job _ _ _ e).0)
  completed-Moved dom xml w w' (rc_err_not_found, w1) s e =
      absurd (cc (same_world h m job _ _ _ e).0)
  completed-Moved dom xml w w' (rc_err_not_supported, w1) s e =
      absurd (cc (same_world h m job _ _ _ e).0)
  completed-Moved dom xml w w' (rc_err_invalid_parameter, w1) s e =
      absurd (cc (same_world h m job _ _ _ e).0)

  prepared-Moved :
      (dom : Dom) (w w' : World) (o : Option Bytes)
      → (streq job.host (codes "localhost") ≡ true)
        ⊎ (domain_exists h job.conn job.domain w ≡ false)
      → get_xml dom w ≡ o
      → prepared h m job dom o w ≡ (rc_ok, w')
      → Moved dom w w'
  prepared-Moved dom w w' none n g e = absurd (cc (same_world h m job _ _ _ e).0)
  prepared-Moved dom w w' (some xml) n g e =
      let (w1, l, a) = completed-Moved dom xml w w' (start_migrate h m job dom w) refl e in
      record { xml = xml; left_world = w1; not_there = n; described = g; left = l; arrived = a }

  move_domain-Moved :
      (dom : Dom) (w w' : World) → move_domain h m job dom w ≡ (rc_ok, w') → Moved dom w w'
  unfolding move_domain
  move_domain-Moved dom w w' e = elim (Bool-cases (streq job.host (codes "localhost"))) [
    | inl a ↦ prepared-Moved dom w w' (get_xml dom w) (inl a) refl (rw a at e)
    | inr a ↦ elim (Bool-cases (domain_exists h job.conn job.domain w)) [
      | inl b ↦ absurd (cc (same_world h m job _ _ _ (rw (a, b) at e)).0)
      | inr b ↦ prepared-Moved dom w w' (get_xml dom w) (inr b) refl (rw (a, b) at e)
    ]
  ]

  set_world :
      (a b : Bool) (w w' : World)
      → ◌≡◌ {A = Option (Bool × World)} (some (a, w)) (some (b, w'))
      → w ≡ w'
  set_world a b w w' e =
      let same : ◌≡◌ {A = Bool × World} (a, w) (b, w') = cc in ap (λ (x : Bool × World). x.1) same

  -- clearing the flag keeps what libvirt tells of a domain
  flag_set-info :
      (d : Dom) (val : Bool) (o : Option (Option Ctx × World)) (w w' : World) (done : Bool)
      → ((r : Option Ctx × World) → o ≡ some r → domain_get_info d r.1 ≡ domain_get_info d w)
      → flag_set h val o ≡ some (done, w')
      → domain_get_info d w' ≡ domain_get_info d w
  flag_set-info d val none w w' done k e = absurd (cc)
  flag_set-info d val (some (none, w1)) w w' done k e =
      ap (domain_get_info d) (sym (set_world _ _ _ _ e)) ∙ k (none, w1) refl
  flag_set-info d val (some (some ctx, w1)) w w' done k e =
      ap (domain_get_info d) (sym (set_world _ _ _ _ e))
      ∙ infostore_close-Kept h _ (domain_get_info d) (laws.stored d) _ w1
      ∙ k (some ctx, w1) refl

  clear-info :
      (new dom : Dom) (rc : Rc) (w w' : World) (o : Option (Bool × World))
      → flag_set h false (infostore_open h dom w) ≡ o
      → flag_cleared h rc o ≡ some (rc_ok, w')
      → (rc ≡ rc_ok) × (domain_get_info new w' ≡ domain_get_info new w)
  clear-info new dom rc w w' none f e = absurd (cc)
  clear-info new dom rc w w' (some (done, w1)) f e =
      let same : ◌≡◌ {A = Rc × World} (rc, w1) (rc_ok, w') = cc in
      let (ok, end) = same_world h m job rc w1 w' same in
      (
        ok,
        ap (domain_get_info new) (sym end)
            ∙ flag_set-info new false (infostore_open h dom w) w w1 done
                (λ r o. infostore_open-Kept h _ (domain_get_info new) (laws.stored new) dom w r o)
                f,
      )

  -- Clearing the flag takes nothing back.
  then_cleared :
      (dom : Dom) (w w1 w' : World)
      → Moved dom w w1
      → ((new : Dom) → domain_get_info new w' ≡ domain_get_info new w1)
      → Moved dom w w'
  then_cleared dom w w1 w' r k =
      let (new, made, runs) = r.arrived in
      record {
        xml = r.xml;
        left_world = r.left_world;
        not_there = r.not_there;
        described = r.described;
        left = r.left;
        arrived = (new, made, λ t. k new ∙ runs t);
      }

  found-Moved :
      (dom : Dom) (w w' : World) (r : Rc × World)
      → move_domain h m job dom w ≡ r
      → clear_infstore_migration_flag h r.0 dom r.1 ≡ some (rc_ok, w')
      → Moved dom w w'
  unfolding clear_infstore_migration_flag
  found-Moved dom w w' (rc, w1) q e =
      let (ok, keeps) = clear-info dom dom rc w1 w' _ refl e in
      then_cleared dom w w1 w' (move_domain-Moved dom w w1 (q ∙ ap (λ x. (x, w1)) ok))
        (λ new. (clear-info new dom rc w1 w' _ refl e).1)

  found-in :
      (conn : Conn) (w w' : World) (o : Option Dom)
      → domain_lookup conn job.domain w ≡ o
      → found_domain h m job o w ≡ some (rc_ok, w')
      → (dom : Dom) × (o ≡ some dom) × Moved dom w w'
  found-in conn w w' none f e = absurd (cc)
  found-in conn w w' (some dom) f e =
      (dom, refl, found-Moved dom w w' (move_domain h m job dom w) refl e)

  -- Where libvirt keeps StateLaws, a migration that ends with the status OK over a connection to the source
  -- has found the domain there, and the other host had none of its name unless it is localhost; libvirt told
  -- the description; the domain was off, was migrated by libvirt or was shut down, as the type asks; and it
  -- was defined from that description on the other host, where it runs if the type is a restart.
  pub migrate_vs-Moved :
      (l : Hypervisors) (w w' : World) (conn : Conn)
      → (connect_by_classname h job.ref_cn l w).0.1 ≡ some conn
      → (migrate_vs h m job l w).0 ≡ some (rc_ok, w')
      → (dom : Dom) × (domain_lookup conn job.domain w ≡ some dom) × Moved dom w w'
  unfolding migrate_vs
  migrate_vs-Moved l w w' conn c e = found-in conn w w' (domain_lookup conn job.domain w) refl (
      ap (λ x. over_connection h m job ((connect_by_classname h job.ref_cn l w).0.0, x) w) (sym c)
      ∙ e)
