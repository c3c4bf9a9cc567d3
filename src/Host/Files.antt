-- ===== src/Host/Files.antt =====
-- What the program relies on of the file system: POSIX's open, write and unlink on one path.
use libvirt_cim.Prelude.{◌≡◌, ◌≢◌, ◌↔◌, true, Bytes}
use libvirt_cim.Host.{Host, Content, absent, empty}

module _ (h : Host) where
  open h use {World, Dom, domain_get_uuid, file_open, file_content, file_write, file_unlink, streq}

  -- Opening creates a missing file with no byte, and changes the content of no other; what was written
  -- is read; an unlinked file is missing. None of these calls changes a domain's UUID, and STREQ
  -- answers whether two strings are equal.
  pub record FileLaws : Type 0 where
    pub open_creates :
        (p : Bytes) (w : World)
        → (file_open p w).0 ≡ true
        → file_content p w ≡ absent
        → file_content p (file_open p w).1 ≡ empty
    pub open_keeps :
        (p : Bytes) (w : World)
        → file_content p w ≢ absent
        → file_content p (file_open p w).1 ≡ file_content p w
    pub write_read : (p : Bytes) (c : Content) (w : World) → file_content p (file_write p c w) ≡ c
    pub unlink_absent :
        (p : Bytes) (w : World)
        → (file_unlink p w).0 ≡ true
        → file_content p (file_unlink p w).1 ≡ absent
    pub uuid_open :
        (d : Dom) (p : Bytes) (w : World)
        → domain_get_uuid d (file_open p w).1 ≡ domain_get_uuid d w
    pub uuid_write :
        (d : Dom) (p : Bytes) (c : Content) (w : World)
        → domain_get_uuid d (file_write p c w) ≡ domain_get_uuid d w
    pub uuid_unlink :
        (d : Dom) (p : Bytes) (w : World)
        → domain_get_uuid d (file_unlink p w).1 ≡ domain_get_uuid d w
    pub streq_iff : (s t : Bytes) → (streq s t ≡ true) ↔ (s ≡ t)
