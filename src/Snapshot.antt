-- ===== src/Snapshot.antt =====
-- src/Virt_VirtualSystemSnapshotService.c: the methods that save and restore domains, and the thread
-- that does the work and reports to a job. Allocations and `asprintf` do not fail. A job is the list of
-- the updates that were sent to it.
pub mod Progress
pub mod Images
pub mod Methods
mod Samples
use libvirt_cim.Prelude.{
  ℕ, Bool, true, false, not, ◌&&◌, Option, none, some, List, [], ◌∷◌, ◌++◌, Bytes, codes,
  if◌then◌else◌, ◌==◌,
}
use libvirt_cim.Cmpi.{Rc, rc_ok, rc_err_failed, rc_err_not_supported, rc_err_invalid_parameter}
use libvirt_cim.Host.{Host}
use libvirt_cim.MiscUtil.{Hypervisors, connect_by_classname}
use libvirt_cim.Vsss.{vsss_get_save_path, vsss_delete_snapshot}

abbrev pub cim_jobstate_running : ℕ
cim_jobstate_running = 4

abbrev pub cim_jobstate_complete : ℕ
cim_jobstate_complete = 7

abbrev pub cim_return_completed : ℕ
cim_return_completed = 0

abbrev pub cim_return_failed : ℕ
cim_return_failed = 2

abbrev pub vsss_snapshot_mem : ℕ
vsss_snapshot_mem = 32768

abbrev pub vsss_snapshot_memt : ℕ
vsss_snapshot_memt = 32769

-- what `_snap_job_set_status` sets; the code 0 is no error
pub record Update : Type 0 where
  pub job_state : ℕ
  pub status : Bytes
  pub errcode : ℕ

abbrev pub snap_job_set_status : ℕ → Bytes → Update
snap_job_set_status state status = record { job_state = state; status = status; errcode = 0 }

abbrev pub snap_job_set_failed : ℕ → Update
snap_job_set_failed errcode = record {
  job_state = cim_jobstate_complete;
  status = codes "Failed";
  errcode = errcode;
}

abbrev pub vsss_err_save_failed : ℕ
vsss_err_save_failed = 1

abbrev pub vsss_err_rest_failed : ℕ
vsss_err_rest_failed = 2

abbrev pub vsss_err_conn_failed : ℕ
vsss_err_conn_failed = 3

abbrev pub vsss_err_no_such_domain : ℕ
vsss_err_no_such_domain = 4

pub record SnapContext : Type 0 where
  pub domain : Bytes
  pub save_path : Bytes
  pub ref_cn : Bytes
  pub save : Bool
  pub restore : Bool

pub new_context : Bytes → Bytes → Bool → Bool → SnapContext
new_context name classname save restore = record {
  domain = name;
  save_path = vsss_get_save_path name;
  ref_cn = classname;
  save = save;
  restore = restore;
}

-- `start_snapshot_job`: a type of 0 restores, and only MEMT does not. `job` is whether create_job came as far
-- as to start the thread, since its status is lost; the status is the one of `get_vssd_by_name`.
unfoldable pub start_snapshot_job : Bytes → Bytes → ℕ → Bool → Rc → Rc × Option SnapContext
unfolding new_context
start_snapshot_job classname name type true vssd =
    (vssd, some (new_context name classname (not (type == 0)) (not (type == vsss_snapshot_memt))))
start_snapshot_job classname name type false vssd = (vssd, none)

-- What a method returns: its status, its return code, and the job that it started.
pub record Reply : Type 0 where
  pub rc : Rc
  pub retcode : ℕ
  pub started : Option SnapContext

abbrev pub reject : Rc → Reply
reject rc = record { rc = rc; retcode = cim_return_failed; started = none }

abbrev pub accept : Rc × Option SnapContext → Reply
accept (rc, started) = record { rc = rc; retcode = cim_return_completed; started = started }

-- The arguments that the client gave: SnapshotType, whether AffectedSystem and SnapshotSettings are
-- there, and the system's Name.
pub create_with_system : Bytes → ℕ → Bool → Option Bytes → Bool → Rc → Reply
create_with_system classname type settings name job vssd =
    if settings
    then elim name [
      | none ↦ reject rc_err_invalid_parameter
      | some n ↦ accept (start_snapshot_job classname n type job vssd)
    ]
    else reject rc_err_invalid_parameter

unfoldable pub create_snapshot : Bytes → Option ℕ → Bool → Bool → Option Bytes → Bool → Rc → Reply
unfolding create_with_system
create_snapshot classname none system settings name job vssd = reject rc_err_invalid_parameter
create_snapshot classname (some type) system settings name job vssd =
    if not (type == vsss_snapshot_mem) && not (type == vsss_snapshot_memt)
    then reject rc_err_not_supported
    else if system
    then create_with_system classname type settings name job vssd
    else reject rc_err_invalid_parameter

-- The reference to the snapshot, if it was given, and the name in its InstanceID, if that parses.
unfoldable pub apply_snapshot : Bytes → Option (Option Bytes) → Bool → Rc → Reply
apply_snapshot classname none job vssd = reject rc_err_invalid_parameter
apply_snapshot classname (some none) job vssd = reject rc_err_failed
apply_snapshot classname (some (some name)) job vssd =
    accept (start_snapshot_job classname name 0 job vssd)

module _ (h : Host) where
  open h use {World, Conn, Dom, domain_lookup, domain_get_name, domain_save, domain_restore}

  unfoldable pub destroy_snapshot : Option (Option Bytes) → World → (Rc × ℕ) × World
  destroy_snapshot none w = ((rc_err_invalid_parameter, cim_return_failed), w)
  destroy_snapshot (some none) w = ((rc_err_failed, cim_return_failed), w)
  destroy_snapshot (some (some name)) w =
      let (rc, w') = vsss_delete_snapshot h name w in
      ((rc, elim rc [ rc_ok ↦ cim_return_completed | _ ↦ cim_return_failed ]), w')

  abbrev complete : Update
  complete = snap_job_set_status cim_jobstate_complete (codes "Snapshot complete")

  -- after `virDomainRestore`
  pub restored : SnapContext → Dom → Bool × World → List Update × World
  restored ctx dom (false, w) = (snap_job_set_failed vsss_err_rest_failed ∷ [], w)
  restored ctx dom (true, w) = (
    snap_job_set_status cim_jobstate_running (codes "Restore finished") ∷ complete ∷ [],
    if ctx.save then w else (vsss_delete_snapshot h (domain_get_name dom) w).1,
  )

  pub do_restore : SnapContext → Conn → Dom → World → List Update × World
  do_restore ctx conn dom w =
      if ctx.restore
      then restored ctx dom (domain_restore conn ctx.save_path w)
      else (complete ∷ [], w)

  -- after `virDomainSave`
  pub saved : SnapContext → Conn → Dom → Bool × World → List Update × World
  saved ctx conn dom (false, w) = (snap_job_set_failed vsss_err_save_failed ∷ [], w)
  saved ctx conn dom (true, w) =
      let (us, w') = do_restore ctx conn dom w in
      (snap_job_set_status cim_jobstate_running (codes "Save finished") ∷ us, w')

  unfoldable pub do_snapshot : SnapContext → Conn → Dom → World → List Update × World
  do_snapshot ctx conn dom w =
      if ctx.save
      then saved ctx conn dom (domain_save dom ctx.save_path w)
      else do_restore ctx conn dom w

  pub with_domain : SnapContext → Conn → Option Dom → World → List Update × World
  with_domain ctx conn none w = (snap_job_set_failed vsss_err_no_such_domain ∷ [], w)
  with_domain ctx conn (some dom) w = do_snapshot ctx conn dom w

  pub with_connection : SnapContext → Option Conn → World → List Update × World
  with_connection ctx none w = (snap_job_set_failed vsss_err_conn_failed ∷ [], w)
  with_connection ctx (some conn) w = with_domain ctx conn (domain_lookup conn ctx.domain w) w

  unfoldable pub snapshot_thread :
      SnapContext → Hypervisors → World → (List Update × World) × Hypervisors
  snapshot_thread ctx l w =
      let (r, l') = connect_by_classname h ctx.ref_cn l w in
      let (us, w') = with_connection ctx r.1 w in
      ((snap_job_set_status cim_jobstate_running (codes "Running") ∷ us, w'), l')
