-- ===== src/MiscUtil.antt =====
-- libxkutil/misc_util.c: class names, and connections to the hypervisors. `strdup` and `asprintf` do
-- not fail.
pub mod Names
pub mod Connect
pub mod Samples
use libvirt_cim.Prelude.{
  ℕ, zero, suc, ◌+◌, Bool, true, false, ◌&&◌, Option, none, some, List, [], ◌∷◌, ◌++◌, Bytes, codes,
  leb, if◌then◌else◌, ◌==◌, ◌>>=?◌,
}
use libvirt_cim.Cmpi.{Rc, rc_ok, rc_err_failed}
use libvirt_cim.Host.{Host, Opened, opened, no_connect, open_error}
use libvirt_cim.Text.Scanf.{span_until}

-- the text before the first `_`, if there is one, and the text after it
abbrev pub is_delim : ℕ → Bool
is_delim c = c == b'_'

before_delim : Bytes × Bytes → Option Bytes
before_delim (pfx, []) = none
before_delim (pfx, d ∷ rest) = some pfx

after_delim : Bytes × Bytes → Option Bytes
after_delim (pfx, []) = none
after_delim (pfx, d ∷ rest) = some rest

unfoldable pub class_prefix_name : Bytes → Option Bytes
unfolding before_delim
class_prefix_name classname = before_delim (span_until is_delim classname)

unfoldable pub class_base_name : Bytes → Option Bytes
unfolding after_delim
class_base_name classname = after_delim (span_until is_delim classname)

-- the prefix of a class name, or a prefix itself
typed_prefix : Bytes → Bytes
typed_prefix refcn = (span_until is_delim refcn).0

-- "%s_%s"
pub get_typed_class : Option Bytes → Bytes → Option Bytes
unfolding typed_prefix
get_typed_class none new_base = none
get_typed_class (some refcn) new_base = some (typed_prefix refcn ++ (b'_' ∷ new_base))

-- `s + n` for `n` at most the length of `s`
drop : ℕ → Bytes → Bytes
drop zero s = s
drop (suc n) [] = []
drop (suc n) (c ∷ s) = drop n s

-- `tolower` in the C locale
abbrev lower : ℕ → ℕ
lower c = if leb b'A' c && leb c b'Z' then c + 32 else c

-- `strncasecmp(s, name, strlen(name)) == 0`
unfoldable pub starts_caseless : Bytes → Bytes → Bool
starts_caseless s [] = true
starts_caseless [] (d ∷ name) = false
starts_caseless (c ∷ s) (d ∷ name) = (lower c == lower d) && starts_caseless s name

-- `hypervisor_list`: the names and whether each is enabled
abbrev pub Hypervisors : Type 0
Hypervisors = List (Bytes × Bool)

abbrev pub hypervisor_list : Hypervisors
hypervisor_list = (codes "xen", true) ∷ (codes "kvm", true) ∷ (codes "lxc", true) ∷ []

unfoldable pub get_hypervisor_enabled : Bytes → Hypervisors → Bool
get_hypervisor_enabled hypervisor [] = false
get_hypervisor_enabled hypervisor ((name, enabled) ∷ l) =
    if starts_caseless hypervisor name then enabled else get_hypervisor_enabled hypervisor l

unfoldable pub set_hypervisor_disabled : Bytes → Hypervisors → Hypervisors
set_hypervisor_disabled hypervisor [] = []
set_hypervisor_disabled hypervisor ((name, enabled) ∷ l) =
    if starts_caseless hypervisor name
    then (name, false) ∷ l
    else (name, enabled) ∷ set_hypervisor_disabled hypervisor l

module _ (h : Host) where
  open h use {World, Conn, connect_open, read_only, starts_with, streqc}

  pub association_prefix : Bytes → Option Bytes
  association_prefix provider_name =
      if starts_with provider_name (codes "association")
      then class_prefix_name (drop 11 provider_name)
      else none

  pub match_pn_to_cn : Bytes → Bytes → Bool
  match_pn_to_cn pn cn = elim (association_prefix pn) [
    | none ↦ false
    | some pn_pfx ↦ elim (class_prefix_name cn) [
      | none ↦ false
      | some cn_pfx ↦ streqc pn_pfx cn_pfx
    ]
  ]

  pub cn_to_uri : Bytes → Option Bytes
  cn_to_uri classname =
      if starts_with classname (codes "Xen")
      then some (codes "xen")
      else if starts_with classname (codes "KVM")
      then some (codes "qemu:///system")
      else if starts_with classname (codes "LXC")
      then some (codes "lxc:///")
      else none

  -- what `virConnectOpen` gave; only a hypervisor that is not there is disabled
  pub after_open : Bytes → Opened Conn → Hypervisors → (Rc × Option Conn) × Hypervisors
  after_open classname (opened conn) l = ((rc_ok, some conn), l)
  after_open classname no_connect l = ((rc_ok, none), set_hypervisor_disabled classname l)
  after_open classname open_error l = ((rc_ok, none), l)

  pub connect_uri : Bytes → Option Bytes → Hypervisors → World → (Rc × Option Conn) × Hypervisors
  unfolding after_open
  connect_uri classname none l w = ((rc_err_failed, none), l)
  connect_uri classname (some uri) l w =
      if get_hypervisor_enabled classname l
      then after_open classname (connect_open read_only uri w) l
      else ((rc_ok, none), l)

  unfoldable pub connect_by_classname :
      Bytes → Hypervisors → World → (Rc × Option Conn) × Hypervisors
  connect_by_classname classname l w = connect_uri classname (cn_to_uri classname) l w
