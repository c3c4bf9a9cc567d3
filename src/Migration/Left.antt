-- ===== src/Migration/Left.antt =====
-- What was done with a domain before it is defined on another host.
use libvirt_cim.Prelude.{
  ℕ, zero, suc, ◌==◌, ==→≡, ◌≡◌, refl, sym, ap, ◌∙◌, inl, inr, Bool, true, false, Option, none,
  some, Bool-cases,
}
use libvirt_cim.Cmpi.{Rc, rc_ok}
use libvirt_cim.Host.{Host, LvState}
use libvirt_cim.Resources.Change.{domain_online}
use libvirt_cim.Migration.{
  is_shutoff, migrate_from, offline_from, cim_migrate_other, cim_migrate_live, cim_migrate_resume,
  cim_migrate_restart, migrate_shutdown_timeout, Migrator, Job, migrated, handle_migrate,
  shutdown_loop, shut_down, handle_restart_migrate, ensure_dom_offline, start_migrate,
}

module _ (h : Host) (m : Migrator h) (job : Job h) where
  open h use {World, Conn, Dom, domain_get_info, domain_shutdown}
  open m use {migrate}

  -- the type of a migration that libvirt does, live or not
  pub data Sent : Bool → Type 0 where
    live_sent : job.type ≡ cim_migrate_live → Sent true
    resume_sent : job.type ≡ cim_migrate_resume → Sent false

  -- What was done with the domain before it is defined on the other host: it was off, or it was not and
  -- libvirt has migrated it, or it was shut down and is not online any more.
  pub data Left (dom : Dom) (w w' : World) : Type 0 where
    offline :
        (state : LvState)
        → job.type ≡ cim_migrate_other
        → domain_get_info dom w ≡ some state
        → is_shutoff state ≡ true
        → w' ≡ w
        → Left dom w w'
    sent :
        (live : Bool) (state : LvState) (ddom : Dom)
        → Sent live
        → domain_get_info dom w ≡ some state
        → is_shutoff state ≡ false
        → migrate dom job.conn live w ≡ (some ddom, w')
        → Left dom w w'
    stopped :
        job.type ≡ cim_migrate_restart
        → (domain_shutdown dom w).0 ≡ true
        → domain_online h dom w' ≡ false
        → Left dom w w'

  -- of pairs of a status and a world
  pub same_world :
      (rc : Rc) (w w' : World) → ◌≡◌ {A = Rc × World} (rc, w) (rc_ok, w') → (rc ≡ rc_ok) × (w ≡ w')
  same_world rc w w' e = (ap (λ (x : Rc × World). x.0) e, ap (λ (x : Rc × World). x.1) e)

  offline-Left :
      (dom : Dom) (w w' : World) (o : Option LvState)
      → job.type ≡ cim_migrate_other
      → domain_get_info dom w ≡ o
      → offline_from h m w o ≡ (rc_ok, w')
      → Left dom w w'
  offline-Left dom w w' none t i e = absurd (cc (same_world _ _ _ e).0)
  offline-Left dom w w' (some state) t i e = elim (Bool-cases (is_shutoff state)) [
    | inl off ↦ offline state t i off (sym (same_world _ _ _ (rw off at e)).1)
    | inr on ↦ absurd (cc (same_world _ _ _ (rw on at e)).0)
  ]

  migrated-Left :
      (dom : Dom) (live : Bool) (state : LvState) (w w' : World) (r : Option Dom × World)
      → Sent live
      → domain_get_info dom w ≡ some state
      → is_shutoff state ≡ false
      → migrate dom job.conn live w ≡ r
      → migrated h m r ≡ (rc_ok, w')
      → Left dom w w'
  migrated-Left dom live state w w' (none, w1) l i on c e = absurd (cc (same_world _ _ _ e).0)
  migrated-Left dom live state w w' (some ddom, w1) l i on c e =
      sent live state ddom l i on (c ∙ ap (λ x. (some ddom, x)) (same_world _ _ _ e).1)

  migrate-Left :
      (dom : Dom) (live : Bool) (w w' : World) (o : Option LvState)
      → Sent live
      → domain_get_info dom w ≡ o
      → migrate_from h m job.conn dom live w o ≡ (rc_ok, w')
      → Left dom w w'
  migrate-Left dom live w w' none l i e = absurd (cc (same_world _ _ _ e).0)
  migrate-Left dom live w w' (some state) l i e = elim (Bool-cases (is_shutoff state)) [
    | inl off ↦ absurd (cc (same_world _ _ _ (rw off at e)).0)
    | inr on ↦
        migrated-Left dom live state w w' (migrate dom job.conn live w) l i on refl (rw on at e)
  ]

  -- the loop ends well only where the domain is not online
  shutdown_loop-offline :
      (k : ℕ) (dom : Dom) (w w' : World)
      → shutdown_loop h m k dom w ≡ (rc_ok, w')
      → domain_online h dom w' ≡ false
  unfolding shutdown_loop
  shutdown_loop-offline zero dom w w' e = absurd (cc (same_world _ _ _ e).0)
  shutdown_loop-offline (suc k) dom w w' e = elim (Bool-cases (domain_online h dom w)) [
    | inl on ↦ shutdown_loop-offline k dom (m.pause w) w' (rw on at e)
    | inr off ↦ ap (domain_online h dom) (sym (same_world _ _ _ (rw off at e)).1) ∙ off
  ]

  restart-Left :
      (dom : Dom) (w w' : World) (r : Bool × World)
      → job.type ≡ cim_migrate_restart
      → domain_shutdown dom w ≡ r
      → shut_down h m dom r ≡ (rc_ok, w')
      → Left dom w w'
  restart-Left dom w w' (false, w1) t q e = absurd (cc (same_world _ _ _ e).0)
  restart-Left dom w w' (true, w1) t q e =
      stopped t (ap (λ x. x.0) q) (shutdown_loop-offline migrate_shutdown_timeout dom w1 w' e)

  pub start_migrate-Left :
      (dom : Dom) (w w' : World) → start_migrate h m job dom w ≡ (rc_ok, w') → Left dom w w'
  unfolding start_migrate ensure_dom_offline handle_migrate handle_restart_migrate
  start_migrate-Left dom w w' e = elim (Bool-cases (job.type == cim_migrate_other)) [
    | inl a ↦
        offline-Left dom w w' (domain_get_info dom w) (==→≡ job.type cim_migrate_other a) refl
          (rw a at e)
    | inr a ↦ elim (Bool-cases (job.type == cim_migrate_live)) [
      | inl b ↦
          migrate-Left dom true w w' (domain_get_info dom w)
            (live_sent (==→≡ job.type cim_migrate_live b)) refl (rw (a, b) at e)
      | inr b ↦ elim (Bool-cases (job.type == cim_migrate_resume)) [
        | inl c ↦
            migrate-Left dom false w w' (domain_get_info dom w)
              (resume_sent (==→≡ job.type cim_migrate_resume c)) refl (rw (a, b, c) at e)
        | inr c ↦ elim (Bool-cases (job.type == cim_migrate_restart)) [
          | inl d ↦
              restart-Left dom w w' (h.domain_shutdown dom w) (==→≡ job.type cim_migrate_restart d)
                refl (rw (a, b, c, d) at e)
          | inr d ↦ absurd (cc (same_world _ _ _ (rw (a, b, c, d) at e)).0)
        ]
      ]
    ]
  ]
