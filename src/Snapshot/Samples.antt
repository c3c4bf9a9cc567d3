-- ===== src/Snapshot/Samples.antt =====
-- The theorems on snapshots, on the toy machine.
use libvirt_cim.Prelude.{Bytes, ℕ, ◌≡◌, refl, true, false, some, codes}
use libvirt_cim.Cmpi.{rc_err_failed}
use libvirt_cim.Host.{running, shutoff, absent, garbage}
use libvirt_cim.Host.Toy.{Machine, toy, put}
use libvirt_cim.Vsss.{vsss_get_save_path}
use libvirt_cim.MiscUtil.{hypervisor_list}
use libvirt_cim.Snapshot.Methods.{Saves, create_snapshot-started}
use libvirt_cim.Snapshot.{
  create_snapshot, create_with_system, start_snapshot_job, new_context, vsss_snapshot_memt,
  SnapContext, snapshot_thread,
}
use libvirt_cim.Snapshot.Progress.{Ends, snapshot_thread-Ends}

abbrev up : Machine
up = record { files = λ p. absent; state = running }

abbrev memt : SnapContext
memt = record {
  domain = codes "vm";
  save_path = vsss_get_save_path (codes "vm");
  ref_cn = codes "KVM";
  save = true;
  restore = false;
}

abbrev applied : SnapContext
applied = record memt { save = false; restore = true }

-- off, with its image
abbrev imaged : Machine
imaged = record {
  files = put (λ p. absent) (vsss_get_save_path (codes "vm")) garbage;
  state = shutoff;
}

snapshot_thread-Ends_example : Ends (snapshot_thread (toy true) memt hypervisor_list up).0.0
snapshot_thread-Ends_example = snapshot_thread-Ends (toy true) memt hypervisor_list up

starts :
    (create_snapshot
      (codes "KVM")
      (some vsss_snapshot_memt)
      true
      true
      (some (codes "vm"))
      true
      rc_err_failed).started
    ≡ some memt
unfolding create_snapshot create_with_system start_snapshot_job new_context
starts = refl

create_snapshot-started_example :
    (t : ℕ) × (n : Bytes) × (some vsss_snapshot_memt ≡ some t)
    × (true ≡ true)
    × (true ≡ true)
    × (some (codes "vm") ≡ some n)
    × (true ≡ true)
    × Saves (codes "KVM") t n memt
create_snapshot-started_example =
    create_snapshot-started (codes "KVM") (some vsss_snapshot_memt) true true (some (codes "vm"))
      true rc_err_failed memt starts
