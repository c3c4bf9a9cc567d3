-- ===== src/Snapshot/Progress.antt =====
-- How a job goes on and ends.
use libvirt_cim.Prelude.{
  Bytes, codes, ◌≡◌, refl, Bool, true, false, Option, none, some, List, [], ◌∷◌, if◌then◌else◌,
}
use libvirt_cim.Host.{Host}
use libvirt_cim.MiscUtil.{Hypervisors, connect_by_classname}
use libvirt_cim.Snapshot.{
  SnapContext, Update, snap_job_set_status, cim_jobstate_running, cim_jobstate_complete, restored,
  do_restore, saved, do_snapshot, with_domain, with_connection, snapshot_thread,
}

-- Every update but the last says that the job is running, without an error; the last says that it is
-- complete.
abbrev pub Ends : List Update → Type 0
Ends [] = ⊥
Ends (u ∷ []) = u.job_state ≡ cim_jobstate_complete
Ends (u ∷ v ∷ us) = (u.job_state ≡ cim_jobstate_running) × (u.errcode ≡ 0) × Ends (v ∷ us)

Ends-cons :
    (status : Bytes) (us : List Update)
    → Ends us
    → Ends (snap_job_set_status cim_jobstate_running status ∷ us)
Ends-cons status [] e = absurd e
Ends-cons status (v ∷ us) e = (refl, refl, e)

module _ (h : Host) where
  open h use {World, Conn, Dom, domain_lookup, domain_restore, domain_save}

  if-Ends :
      (b : Bool) (p q : List Update × World) → Ends p.0 → Ends q.0 → Ends (if b then p else q).0
  if-Ends true p q e f = e
  if-Ends false p q e f = f

  restored-Ends : (ctx : SnapContext) (d : Dom) (r : Bool × World) → Ends (restored h ctx d r).0
  unfolding restored
  restored-Ends ctx d (false, w) = refl
  restored-Ends ctx d (true, w) = (refl, refl, refl)

  do_restore-Ends :
      (ctx : SnapContext) (c : Conn) (d : Dom) (w : World) → Ends (do_restore h ctx c d w).0
  unfolding do_restore
  do_restore-Ends ctx c d w =
      if-Ends ctx.restore _ _ (restored-Ends ctx d (domain_restore c ctx.save_path w)) refl

  saved-Ends :
      (ctx : SnapContext) (c : Conn) (d : Dom) (r : Bool × World) → Ends (saved h ctx c d r).0
  unfolding saved
  saved-Ends ctx c d (false, w) = refl
  saved-Ends ctx c d (true, w) = Ends-cons (codes "Save finished") _ (do_restore-Ends ctx c d w)

  do_snapshot-Ends :
      (ctx : SnapContext) (c : Conn) (d : Dom) (w : World) → Ends (do_snapshot h ctx c d w).0
  unfolding do_snapshot
  do_snapshot-Ends ctx c d w =
      if-Ends ctx.save _ _ (saved-Ends ctx c d (domain_save d ctx.save_path w))
        (do_restore-Ends ctx c d w)

  with_domain-Ends :
      (ctx : SnapContext) (c : Conn) (o : Option Dom) (w : World) → Ends (with_domain h ctx c o w).0
  unfolding with_domain
  with_domain-Ends ctx c none w = refl
  with_domain-Ends ctx c (some d) w = do_snapshot-Ends ctx c d w

  with_connection-Ends :
      (ctx : SnapContext) (o : Option Conn) (w : World) → Ends (with_connection h ctx o w).0
  unfolding with_connection
  with_connection-Ends ctx none w = refl
  with_connection-Ends ctx (some c) w = with_domain-Ends ctx c (domain_lookup c ctx.domain w) w

  -- Whatever libvirt answers, a snapshot job ends: the thread reports that the job is running, without
  -- an error, any number of times, and then once that it is complete.
  pub snapshot_thread-Ends :
      (ctx : SnapContext) (l : Hypervisors) (w : World) → Ends (snapshot_thread h ctx l w).0.0
  unfolding snapshot_thread
  snapshot_thread-Ends ctx l w =
      Ends-cons (codes "Running") _
        (with_connection-Ends ctx (connect_by_classname h ctx.ref_cn l w).0.1 w)
