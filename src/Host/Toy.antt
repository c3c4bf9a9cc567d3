-- ===== src/Host/Toy.antt =====
-- A machine with one domain and a file for each path, on which the hypotheses about libvirt and the
-- file system hold. `creates` says whether a missing file can be created.
use libvirt_cim.Prelude.{
  refl, Bool, true, false, not, some, Bytes, codes, arith, strcmp_eq, strcmp_eq_refl, strcmp_eq_iff,
  if◌then◌else◌,
}
use libvirt_cim.Host.{
  Host, LvState, running, paused, shutoff, opened, Content, absent, empty, garbage,
}
use libvirt_cim.Host.Files.{FileLaws}

pub record Machine : Type 0 where
  pub files : Bytes → Content
  pub state : LvState

abbrev pub is_absent : Content → Bool
is_absent absent = true
is_absent _ = false

abbrev pub put : (Bytes → Content) → Bytes → Content → Bytes → Content
put f p c q = if strcmp_eq p q then c else f q

abbrev pub becomes : LvState → Machine → Bool × Machine
becomes s m = (true, record m { state = s })

abbrev pub open_file : Bool → Bytes → Machine → Bool × Machine
open_file creates p m =
    if is_absent (m.files p)
    then (creates, if creates then record m { files = put m.files p empty } else m)
    else (true, m)

abbrev pub toy : Bool → Host
toy creates = record {
  World = Machine;
  Conn = Unit {0};
  Dom = Unit {0};
  connect_open = λ ro uri m. opened tt;
  connect_get_type = λ c. codes "QEMU";
  domain_lookup = λ c name m. some tt;
  domain_get_name = λ d. codes "vm";
  domain_get_connect = λ d. some tt;
  domain_get_uuid = λ d m. some (codes "1");
  domain_get_info = λ d m. some m.state;
  domain_get_xml = λ d m. some (codes "<domain/>");
  domain_create = λ d m. becomes running m;
  domain_resume = λ d m. becomes running m;
  domain_destroy = λ d m. becomes shutoff m;
  domain_shutdown = λ d m. becomes shutoff m;
  domain_suspend = λ d m. becomes paused m;
  domain_reboot = λ d m. becomes running m;
  domain_define = λ c x m. (some tt, m);
  domain_set_sched = λ d ps m. m;
  domain_save = λ d p m. (true, record m { state = shutoff; files = put m.files p garbage });
  domain_restore = λ c p m. (not (is_absent (m.files p)), record m { state = running });
  version_number = 5000000;
  read_only = false;
  streq = strcmp_eq;
  streqc = strcmp_eq;
  starts_with = λ s t. strcmp_eq s t;
  info_store = codes "/etc/libvirt/cim";
  file_accessible = λ p m. not (is_absent (m.files p));
  file_open = open_file creates;
  file_content = λ p m. m.files p;
  file_write = λ p c m. record m { files = put m.files p c };
  file_unlink = λ p m. (not (is_absent (m.files p)), record m { files = put m.files p absent });
}

pub toy-FileLaws : (creates : Bool) → FileLaws (toy creates)
toy-FileLaws creates = record {
  open_creates = λ p w ok gone. ground (arith, strcmp_eq_refl p);
  open_keeps = λ p w held. ground (arith, strcmp_eq_refl p);
  write_read = λ p c w. ground (arith, strcmp_eq_refl p);
  unlink_absent = λ p w ok. ground (arith, strcmp_eq_refl p);
  uuid_open = λ d p w. refl;
  uuid_write = λ d p c w. refl;
  uuid_unlink = λ d p w. refl;
  streq_iff = strcmp_eq_iff;
}
