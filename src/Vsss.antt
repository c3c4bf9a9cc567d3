-- ===== src/Vsss.antt =====
-- src/Virt_VirtualSystemSnapshotService.c: where a domain's save image is. `asprintf` does not fail.
use libvirt_cim.Prelude.{Bool, if◌then◌else◌, ◌++◌, Bytes, codes}
use libvirt_cim.Cmpi.{Rc, rc_ok, rc_err_failed}
use libvirt_cim.Host.{Host}

-- "/var/lib/libvirt/%s.save"
unfoldable pub vsss_get_save_path : Bytes → Bytes
vsss_get_save_path domname = codes "/var/lib/libvirt/" ++ (domname ++ codes ".save")

module _ (h : Host) where
  open h use {World, file_accessible, file_unlink}

  unfoldable pub vsss_has_save_image : Bytes → World → Bool
  vsss_has_save_image domname w = file_accessible (vsss_get_save_path domname) w

  unfoldable pub vsss_delete_snapshot : Bytes → World → Rc × World
  vsss_delete_snapshot domname w =
      let (ok, w') = file_unlink (vsss_get_save_path domname) w in
      (if ok then rc_ok else rc_err_failed, w')
