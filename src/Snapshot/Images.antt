-- ===== src/Snapshot/Images.antt =====
-- What a job leaves of the domain and of its save image.
use libvirt_cim.Prelude.{◌≡◌, true, false, some, Bytes}
use libvirt_cim.Host.{Host, running, shutoff}
use libvirt_cim.Vsss.{vsss_get_save_path}

module _ (h : Host) where
  open h use {
    World, Conn, Dom, domain_get_name, domain_get_info, domain_restore, domain_save,
    file_accessible, file_unlink,
  }

  -- What libvirt and the file system document: a save that succeeds leaves the file and a domain that is
  -- off; a restore that succeeds leaves the file and a domain that runs, and one that fails leaves the
  -- file; an unlinked file is not accessible, an unlinking that fails leaves the file as it was, and none
  -- touches a domain.
  pub record ImageLaws : Type 0 where
    pub saves :
        (d : Dom) (p : Bytes) (w : World)
        → (domain_save d p w).0 ≡ true
        → (domain_get_info d (domain_save d p w).1 ≡ some shutoff)
          × (file_accessible p (domain_save d p w).1 ≡ true)
    pub restores :
        (c : Conn) (d : Dom) (w : World)
        → (domain_restore c (vsss_get_save_path (domain_get_name d)) w).0 ≡ true
        → domain_get_info d (domain_restore c (vsss_get_save_path (domain_get_name d)) w).1
          ≡ some running
    pub restore_keeps :
        (c : Conn) (p : Bytes) (w : World)
        → file_accessible p (domain_restore c p w).1 ≡ file_accessible p w
    pub unlinks :
        (p : Bytes) (w : World)
        → (file_unlink p w).0 ≡ true
        → file_accessible p (file_unlink p w).1 ≡ false
    pub unlink_fails :
        (p : Bytes) (w : World)
        → (file_unlink p w).0 ≡ false
        → file_accessible p (file_unlink p w).1 ≡ file_accessible p w
    pub unlink_info :
        (d : Dom) (p : Bytes) (w : World)
        → domain_get_info d (file_unlink p w).1 ≡ domain_get_info d w
