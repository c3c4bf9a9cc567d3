-- ===== src/Migration/Samples.antt =====
-- The theorems on migrations, on the toy machine.
use libvirt_cim.Prelude.{
  ◌≡◌, refl, ap, ◌∙◌, false, true, Option, none, some, ◌⊎◌, [], ◌∷◌, Bytes, codes, strcmp_eq,
}
use libvirt_cim.Cmpi.{rc_ok}
use libvirt_cim.Host.{running, absent}
use libvirt_cim.Host.Toy.{Machine, toy}
use libvirt_cim.Infostore.{infostore_close, infostore_set_bool}
use libvirt_cim.Infostore.Samples.{machine, own, ctx, opens_own}
use libvirt_cim.MiscUtil.{hypervisor_list, connect_by_classname}
use libvirt_cim.MiscUtil.Samples.{kvm_connects, vm, no_xen, xen_uri, xen_enabled, xen_missing}
use libvirt_cim.Resources.Change.{domain_online}
use libvirt_cim.StateChange.Samples.{toy-StateLaws}
use libvirt_cim.Migration.{
  Migrator, Job, cim_migrate_restart, flag_set, flag_cleared, clear_infstore_migration_flag,
  set_infstore_migration_flag, over_connection, move_domain, migrate_vs, start_migrate,
  handle_restart_migrate, shutdown_loop, undefine_loop, complete_migrate, domain_exists,
  migration_thread, modified, deleted,
}
use libvirt_cim.Migration.Request.{
  Settings, Broker, get_migration_type, dest_uri, get_msd_values, flagged, job_for, migrate_do,
}
use libvirt_cim.Migration.Moved.{Moved, migrate_vs-Moved}
use libvirt_cim.Migration.Kept.{migration_thread-no_connect}
use libvirt_cim.Migration.Started.{Asked, migrate_do-Asked}

abbrev toy_migrator : Migrator (toy true)
toy_migrator = record {
  undefine = λ d m. (true, m);
  migrate = λ d c live m. (some tt, m);
  get_xml = λ d m. some (codes "<domain/>");
  pause = λ m. m;
}

abbrev restart : Bytes → Job (toy true)
restart host = record {
  domain = codes "vm";
  ref_cn = codes "KVM";
  host = host;
  type = cim_migrate_restart;
  conn = tt;
}

abbrev here : Job (toy true)
here = restart (codes "localhost")

abbrev up : Machine
up = machine running (λ p. absent) own

abbrev done : Machine
done = infostore_close (toy true) (infostore_set_bool (toy true) ctx (codes "migrating") false) up

moves : move_domain (toy true) toy_migrator here tt up ≡ (rc_ok, up)
unfolding move_domain start_migrate handle_restart_migrate shutdown_loop undefine_loop
    complete_migrate domain_exists domain_online strcmp_eq
moves = refl

clears : clear_infstore_migration_flag (toy true) rc_ok tt up ≡ some (rc_ok, done)
unfolding clear_infstore_migration_flag
clears =
    ap (λ o. flag_cleared (toy true) rc_ok (flag_set (toy true) false o))
      (opens_own running (λ p. absent))

migrates : (migrate_vs (toy true) toy_migrator here hypervisor_list up).0 ≡ some (rc_ok, done)
unfolding migrate_vs
migrates =
    ap (λ c. over_connection (toy true) toy_migrator here c.0 up) (kvm_connects up)
    ∙ ap (λ r. clear_infstore_migration_flag (toy true) r.0 tt r.1) moves
    ∙ clears

migrate_vs-Moved_example :
    (dom : Unit {0}) × (◌≡◌ {A = Option (Unit {0})} (some tt) (some dom))
    × Moved (toy true) toy-StateLaws toy_migrator here dom up done
migrate_vs-Moved_example =
    migrate_vs-Moved (toy true) toy-StateLaws toy_migrator here hypervisor_list up done tt
      (ap (λ c. c.0.1) (kvm_connects up)) migrates

abbrev plain : Settings
plain = record {
  status = rc_ok;
  migration_type = some 4;
  transport_type = none;
  without_root_key = false;
  ssh_tmp_key = none;
}

abbrev willing : Broker
willing = record { created = rc_ok; has_instance = true; got = rc_ok; indication = rc_ok }

abbrev marked : Machine
marked = infostore_close (toy true) (infostore_set_bool (toy true) ctx (codes "migrating") true) up

asks : get_msd_values (toy true) (codes "KVM") (codes "localhost") plain up ≡ (rc_ok, some (4, tt))
unfolding get_msd_values get_migration_type dest_uri strcmp_eq
asks = refl

marks : set_infstore_migration_flag (toy true) tt (codes "vm") up ≡ some (true, marked)
unfolding set_infstore_migration_flag
marks = ap (flag_set (toy true) true) (opens_own running (λ p. absent))

starts :
    migrate_do (toy true) (codes "KVM") (codes "vm") (codes "localhost") plain willing up
    ≡ some ((rc_ok, some here), marked)
unfolding migrate_do
starts =
    ap (λ r. job_for (toy true) (codes "KVM") (codes "vm") (codes "localhost") willing r up) asks
    ∙ ap (flagged (toy true) here rc_ok) marks

migrate_do-Asked_example :
    (here.domain ≡ codes "vm")
    × (here.ref_cn ≡ codes "KVM")
    × (here.host ≡ codes "localhost")
    × Asked (toy true) (codes "KVM") (codes "localhost") plain up here.type here.conn
    × ((marked ≡ up) ⊎ (domain_exists (toy true) here.conn (codes "vm") up ≡ true))
migrate_do-Asked_example =
    migrate_do-Asked (toy true) (codes "KVM") (codes "vm") (codes "localhost") plain willing rc_ok
      here up marked starts

abbrev xen_migrator : Migrator no_xen
xen_migrator = record {
  undefine = λ d m. (true, m);
  migrate = λ d c live m. (some tt, m);
  get_xml = λ d m. some (codes "<domain/>");
  pause = λ m. m;
}

abbrev xen_job : Job no_xen
xen_job = record {
  domain = codes "vm";
  ref_cn = codes "Xen_X";
  host = codes "b";
  type = cim_migrate_restart;
  conn = tt;
}

migration_thread-no_connect_example :
    let l' = (connect_by_classname no_xen (codes "Xen_X") hypervisor_list vm).1 in
    migration_thread no_xen xen_migrator xen_job l' up
    ≡ (some (modified 4 rc_ok ∷ modified 7 rc_ok ∷ deleted ∷ [], up), l')
migration_thread-no_connect_example =
    migration_thread-no_connect no_xen xen_migrator xen_job (codes "xen") hypervisor_list vm up
      xen_uri xen_enabled (xen_missing vm)
