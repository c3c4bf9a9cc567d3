-- ===== src/Migration.antt =====
-- src/Virt_VSMigrationService.c: a domain is moved to another host. A job tells its client how it goes on by
-- updates, and its end by an indication that it is deleted; sending them does not fail. The external checks
-- and the copies of ssh keys are left out.
pub mod Request
pub mod Left
pub mod Moved
pub mod Kept
pub mod Started
mod Samples
use libvirt_cim.Prelude.{
  ℕ, zero, suc, ◌==◌, Bool, true, false, not, ◌&&◌, Option, none, some, List, [], ◌∷◌, Bytes, codes,
  if◌then◌else◌, ◌>>=?◌,
}
use libvirt_cim.Cmpi.{Rc, rc_ok, rc_err_failed, rc_err_invalid_parameter}
use libvirt_cim.Host.{Host, LvState, shutoff}
use libvirt_cim.MiscUtil.{Hypervisors, connect_by_classname}
use libvirt_cim.Infostore.{Ctx, infostore_open, infostore_close, infostore_set_bool}
use libvirt_cim.Resources.Change.{domain_online}

abbrev pub cim_migrate_other : ℕ
cim_migrate_other = 1

abbrev pub cim_migrate_live : ℕ
cim_migrate_live = 2

abbrev pub cim_migrate_resume : ℕ
cim_migrate_resume = 3

abbrev pub cim_migrate_restart : ℕ
cim_migrate_restart = 4

abbrev pub cim_jobstate_running : ℕ
cim_jobstate_running = 4

abbrev pub cim_jobstate_complete : ℕ
cim_jobstate_complete = 7

-- MIGRATE_SHUTDOWN_TIMEOUT, in polls
abbrev pub migrate_shutdown_timeout : ℕ
migrate_shutdown_timeout = 120

-- What a client of the job gets to know. The error code is that of the status.
pub data Event : Type 0 where
  modified : ℕ → Rc → Event
  deleted : Event

-- `info.state == VIR_DOMAIN_SHUTOFF`
abbrev pub is_shutoff : LvState → Bool
is_shutoff shutoff = true
is_shutoff _ = false

module _ (h : Host) where
  open h use {
    World, Conn, Dom, domain_lookup, domain_get_name, domain_get_connect, domain_get_info,
    domain_create, domain_shutdown, domain_define, streq,
  }

  -- The calls of libvirt that only this service makes. `migrate` is virDomainMigrate, live or not; `pause`
  -- is what becomes of the world while the thread sleeps.
  pub record Migrator : Type 0 where
    pub undefine : Dom → World → Bool × World
    pub migrate : Dom → Conn → Bool → World → Option Dom × World
    pub get_xml : Dom → World → Option Bytes
    pub pause : World → World

  pub record Job : Type 0 where
    pub domain : Bytes
    pub ref_cn : Bytes
    pub host : Bytes
    pub type : ℕ
    pub conn : Conn

  unfoldable pub domain_exists : Conn → Bytes → World → Bool
  domain_exists conn name w = elim (domain_lookup conn name w) [ none ↦ false | some d ↦ true ]

  -- the flag, where the information store of the domain opens; the answer is whether it did
  abbrev pub flag_set : Bool → Option (Option Ctx × World) → Option (Bool × World)
  flag_set val none = none
  flag_set val (some (none, w)) = some (false, w)
  flag_set val (some (some ctx, w)) =
      some (true, infostore_close h (infostore_set_bool h ctx (codes "migrating") val) w)

  abbrev pub flag_cleared : Rc → Option (Bool × World) → Option (Rc × World)
  flag_cleared rc none = none
  flag_cleared rc (some (done, w)) = some (rc, w)

  unfoldable pub clear_infstore_migration_flag : Rc → Dom → World → Option (Rc × World)
  clear_infstore_migration_flag rc dom w = flag_cleared rc (flag_set false (infostore_open h dom w))

  -- the domain is looked up on the connection that is given
  unfoldable pub set_infstore_migration_flag : Conn → Bytes → World → Option (Bool × World)
  set_infstore_migration_flag conn domain w = elim (domain_lookup conn domain w) [
    | none ↦ some (false, w)
    | some dom ↦ flag_set true (infostore_open h dom w)
  ]

  module _ (m : Migrator) where
    open m use {undefine, migrate, get_xml, pause}

    abbrev pub migrated : Option Dom × World → Rc × World
    migrated (none, w) = (rc_err_failed, w)
    migrated (some ddom, w) = (rc_ok, w)

    abbrev pub migrate_from : Conn → Dom → Bool → World → Option LvState → Rc × World
    migrate_from dconn dom live w none = (rc_err_failed, w)
    migrate_from dconn dom live w (some state) =
        if is_shutoff state
        then (rc_err_invalid_parameter, w)
        else migrated (migrate dom dconn live w)

    unfoldable pub handle_migrate : Conn → Dom → Bool → World → Rc × World
    handle_migrate dconn dom live w = migrate_from dconn dom live w (domain_get_info dom w)

    -- polls until the domain is off, at most as often as there is time
    unfoldable pub shutdown_loop : ℕ → Dom → World → Rc × World
    shutdown_loop zero dom w = (rc_err_failed, w)
    shutdown_loop (suc k) dom w =
        let rest = shutdown_loop k dom (pause w) in
        if domain_online h dom w then rest else (rc_ok, w)

    abbrev pub shut_down : Dom → Bool × World → Rc × World
    shut_down dom (false, w) = (rc_err_failed, w)
    shut_down dom (true, w) = shutdown_loop migrate_shutdown_timeout dom w

    unfoldable pub handle_restart_migrate : Dom → World → Rc × World
    handle_restart_migrate dom w = shut_down dom (domain_shutdown dom w)

    abbrev pub offline_from : World → Option LvState → Rc × World
    offline_from w none = (rc_err_failed, w)
    offline_from w (some state) =
        if is_shutoff state then (rc_ok, w) else (rc_err_invalid_parameter, w)

    unfoldable pub ensure_dom_offline : Dom → World → Rc × World
    ensure_dom_offline dom w = offline_from w (domain_get_info dom w)

    abbrev pub lookup_again : Dom → World → Option Dom
    lookup_again ldom w =
        domain_get_connect ldom >>=? λ conn. domain_lookup conn (domain_get_name ldom) w

    -- until it is undefined, or not to be found any more; the outcome is not looked at
    unfoldable pub undefine_loop : ℕ → Dom → World → World
    undefine_loop zero ldom w = w
    undefine_loop (suc k) ldom w = elim (lookup_again ldom w) [
      | none ↦ w
      | some dom ↦
          let (ok, w') = undefine dom w in
          elim ok [ true ↦ w' | false ↦ undefine_loop k ldom (pause w') ]
    ]

    abbrev pub restarted : Bool × World → Rc × World
    restarted (true, w) = (rc_ok, w)
    restarted (false, w) = (rc_err_failed, w)

    abbrev pub defined : Bool → Option Dom × World → Rc × World
    defined restart (none, w) = (rc_err_failed, w)
    defined restart (some newdom, w) =
        if restart then restarted (domain_create newdom w) else (rc_ok, w)

    unfoldable pub complete_migrate : Dom → Conn → Bytes → Bool → World → Rc × World
    complete_migrate ldom rconn xml restart w =
        defined restart (domain_define rconn xml (undefine_loop migrate_shutdown_timeout ldom w))

    -- what each type of migration does first
    unfoldable pub start_migrate : Job → Dom → World → Rc × World
    start_migrate job dom w =
        if job.type == cim_migrate_other
        then ensure_dom_offline dom w
        else if job.type == cim_migrate_live
        then handle_migrate job.conn dom true w
        else if job.type == cim_migrate_resume
        then handle_migrate job.conn dom false w
        else if job.type == cim_migrate_restart
        then handle_restart_migrate dom w
        else (rc_err_failed, w)

    abbrev pub complete_if : Job → Dom → Bytes → Rc × World → Rc × World
    complete_if job dom xml (rc_ok, w) =
        complete_migrate dom job.conn xml (job.type == cim_migrate_restart) w
    complete_if job dom xml (rc, w) = (rc, w)

    abbrev pub prepared : Job → Dom → Option Bytes → World → Rc × World
    prepared job dom none w = (rc_err_failed, w)
    prepared job dom (some xml) w = complete_if job dom xml (start_migrate job dom w)

    unfoldable pub move_domain : Job → Dom → World → Rc × World
    move_domain job dom w =
        if not (streq job.host (codes "localhost")) && domain_exists job.conn job.domain w
        then (rc_err_failed, w)
        else prepared job dom (get_xml dom w) w

    -- the flag is cleared whatever the outcome; where there is no domain, it has no file
    abbrev pub found_domain : Job → Option Dom → World → Option (Rc × World)
    found_domain job none w = some (rc_err_failed, w)
    found_domain job (some dom) w =
        let (rc, w') = move_domain job dom w in clear_infstore_migration_flag rc dom w'

    abbrev pub over_connection : Job → Rc × Option Conn → World → Option (Rc × World)
    over_connection job (rc, none) w = some (rc, w)
    over_connection job (rc, some conn) w = found_domain job (domain_lookup conn job.domain w) w

    unfoldable pub migrate_vs : Job → Hypervisors → World → Option (Rc × World) × Hypervisors
    migrate_vs job l w =
        let (r, l') = connect_by_classname h job.ref_cn l w in (over_connection job r w, l')

    abbrev pub reported : Option (Rc × World) → Option (List Event × World)
    reported none = none
    reported (some (rc, w)) =
        some (
          modified cim_jobstate_running rc_ok ∷ modified cim_jobstate_complete rc ∷ deleted ∷ [],
          w,
        )

    unfoldable pub migration_thread :
        Job → Hypervisors → World → Option (List Event × World) × Hypervisors
    migration_thread job l w = let (r, l') = migrate_vs job l w in (reported r, l')
