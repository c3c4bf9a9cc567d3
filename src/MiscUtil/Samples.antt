-- ===== src/MiscUtil/Samples.antt =====
-- The theorems on class names and connections at concrete class names.
use libvirt_cim.Prelude.{◌≡◌, refl, Bool, true, some, Bytes, codes, if◌then◌else◌, strcmp_eq}
use libvirt_cim.Cmpi.{rc_ok}
use libvirt_cim.Host.{Host, absent, shutoff, no_connect, opened}
use libvirt_cim.Host.Toy.{Machine, toy}
use libvirt_cim.MiscUtil.{
  hypervisor_list, get_hypervisor_enabled, starts_caseless, cn_to_uri, connect_by_classname,
  connect_uri, after_open,
}

-- the toy machine without a Xen daemon, and with STARTS_WITH as a real prefix test
unfoldable pub has_prefix : Bytes → Bytes → Bool
has_prefix s t = starts_caseless s t

abbrev pub no_xen : Host
no_xen = record (toy true) {
  connect_open = λ ro uri m. if strcmp_eq uri (codes "xen") then no_connect else opened tt;
  starts_with = has_prefix;
}

abbrev pub vm : Machine
vm = record { files = λ p. absent; state = shutoff }

pub xen_uri : cn_to_uri no_xen (codes "Xen_X") ≡ some (codes "xen")
unfolding cn_to_uri has_prefix starts_caseless
xen_uri = refl

pub xen_enabled : get_hypervisor_enabled (codes "Xen_X") hypervisor_list ≡ true
unfolding get_hypervisor_enabled starts_caseless
xen_enabled = refl

pub xen_missing : (m : Machine) → no_xen.connect_open no_xen.read_only (codes "xen") m ≡ no_connect
unfolding strcmp_eq
xen_missing m = refl

pub kvm_connects :
    (m : Machine)
    → connect_by_classname (toy true) (codes "KVM") hypervisor_list m
      ≡ ((rc_ok, some tt), hypervisor_list)
unfolding connect_by_classname connect_uri after_open cn_to_uri get_hypervisor_enabled
    starts_caseless strcmp_eq
kvm_connects m = refl
