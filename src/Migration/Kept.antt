-- ===== src/Migration/Kept.antt =====
-- A migration that does not take place, since the hypervisor is not there.
use libvirt_cim.Prelude.{◌≡◌, ap, true, some, [], ◌∷◌, Bytes}
use libvirt_cim.Cmpi.{rc_ok}
use libvirt_cim.Host.{Host, no_connect}
use libvirt_cim.MiscUtil.{Hypervisors, cn_to_uri, get_hypervisor_enabled, connect_by_classname}
use libvirt_cim.MiscUtil.Connect.{connect-no_connect}
use libvirt_cim.Migration.{
  Migrator, Job, over_connection, migrate_vs, reported, migration_thread, modified, deleted,
  cim_jobstate_running, cim_jobstate_complete,
}

module _ (h : Host) (m : Migrator h) (job : Job h) where
  open h use {World, connect_open, read_only}

  -- Once libvirt reports that it cannot connect to the enabled hypervisor of the job's class, a job of that class
  -- changes nothing and tells its client that it is complete with the status OK.
  pub migration_thread-no_connect :
      (uri : Bytes) (l : Hypervisors) (w w' : World)
      → cn_to_uri h job.ref_cn ≡ some uri
      → get_hypervisor_enabled job.ref_cn l ≡ true
      → connect_open read_only uri w ≡ no_connect
      → let l' = (connect_by_classname h job.ref_cn l w).1 in
        migration_thread h m job l' w' ≡ (
          some (
            modified cim_jobstate_running rc_ok
                ∷ modified cim_jobstate_complete rc_ok
                ∷ deleted
                ∷ [],
            w',
          ),
          l',
        )
  unfolding migration_thread migrate_vs
  migration_thread-no_connect uri l w w' u e n =
      ap (λ c. (reported h m (over_connection h m job c.0 w'), c.1))
        ((connect-no_connect h job.ref_cn uri l w u e n).0 w')
