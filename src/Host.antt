-- ===== src/Host.antt =====
-- What the providers use and the repository does not hold: libvirt's calls, the files under
-- /var/lib and /etc, and the CIM broker's store of jobs. All of it acts on one `World`.
pub mod Files
pub mod Toy
use libvirt_cim.Prelude.{ℕ, Bool, Option, List, Bytes}

-- `virDomainState`
pub data LvState : Type 0 where
  nostate running blocked paused shutdown shutoff crashed : LvState
  other_state : ℕ → LvState

-- `virConnectOpen`, with the error that libvirt reports
pub data Opened (Conn : Type 0) : Type 0 where
  opened : Conn → Opened Conn
  no_connect : Opened Conn
  open_error : Opened Conn

-- What a file holds that is read as XML: the name of the root element, and its children in order, each
-- with its name and its text.
pub data Content : Type 0 where
  absent empty garbage : Content
  xml : Bytes → List (Bytes × Bytes) → Content

-- one entry of `virSchedParameter`
pub record SchedParam : Type 0 where
  pub field : Bytes
  pub value : ℕ

pub record Host : Type 1 where
  pub World : Type 0
  pub Conn : Type 0
  pub Dom : Type 0
  -- `virConnectOpenReadOnly` if the flag is set, else `virConnectOpen`
  pub connect_open : Bool → Bytes → World → Opened Conn
  pub connect_get_type : Conn → Bytes
  pub domain_lookup : Conn → Bytes → World → Option Dom
  pub domain_get_name : Dom → Bytes
  pub domain_get_connect : Dom → Option Conn
  pub domain_get_uuid : Dom → World → Option Bytes
  pub domain_get_info : Dom → World → Option LvState
  pub domain_get_xml : Dom → World → Option Bytes
  -- the calls that return 0 on success answer true
  pub domain_create : Dom → World → Bool × World
  pub domain_resume : Dom → World → Bool × World
  pub domain_destroy : Dom → World → Bool × World
  pub domain_shutdown : Dom → World → Bool × World
  pub domain_suspend : Dom → World → Bool × World
  pub domain_reboot : Dom → World → Bool × World
  pub domain_define : Conn → Bytes → World → Option Dom × World
  pub domain_set_sched : Dom → List SchedParam → World → World
  pub domain_save : Dom → Bytes → World → Bool × World
  pub domain_restore : Conn → Bytes → World → Bool × World
  -- LIBVIR_VERSION_NUMBER of the headers that the program is built with
  pub version_number : ℕ
  -- the `readonly` setting of libvirt-cim.conf
  pub read_only : Bool
  -- the macros STREQ, STREQC and STARTS_WITH of libcmpiutil
  pub streq : Bytes → Bytes → Bool
  pub streqc : Bytes → Bytes → Bool
  pub starts_with : Bytes → Bytes → Bool
  -- INFO_STORE, which configure sets
  pub info_store : Bytes
  -- `access(path, R_OK | W_OK | F_OK) == 0`
  pub file_accessible : Bytes → World → Bool
  -- `open(path, O_RDWR | O_CREAT)`, `flock` and `fstat`, all of them successful or not
  pub file_open : Bytes → World → Bool × World
  pub file_content : Bytes → World → Content
  pub file_write : Bytes → Content → World → World
  -- `unlink(path) == 0`
  pub file_unlink : Bytes → World → Bool × World
