-- ===== src/Written/Net.antt =====
-- Interfaces that net_xml writes and do_parse with parse_net_device reads again.
mod Children
use libvirt_cim.Prelude.{
  ℕ, ◌^◌, ◌<◌, ◌≡◌, refl, ap, ◌∙◌, sym, subst, Bool, true, false, Option, none, some, List, [], ◌∷◌,
  ◌++◌, Bytes, codes, strcmp_eq, ◌↔◌, ◌>>=?◌, if◌then◌else◌,
}
use libvirt_cim.Compare.{streq-strcmp_eq}
use libvirt_cim.Xml.{
  Node, element, Nodes, leaf, also, append_nodes, get_prop, get_attr_value, each_child, attr_if,
  attr_text,
}
use libvirt_cim.Device.{net, VsiDevice, no_vsi, NetDevice, no_net, Dev, net_dev, VirtDevice}
use libvirt_cim.Device.Address.{DistinctKeys}
use libvirt_cim.DeviceParse.{fault, one, do_parse}
use libvirt_cim.DeviceParse.Net.{
  net_child, net_device, parse_net_device, vsi_child, parse_vsi_device,
}
use libvirt_cim.XmlGen.Net.{
  net_head_xml, set_net_source, set_direct_source, bridge_net_to_xml, set_net_vsi, direct_xml,
  net_source_xml, interface_xml, one_net_xml, net_xml,
}
use libvirt_cim.Written.{kept, ReadsBack, AllReadBack, written_list}
use libvirt_cim.Written.Net.Children.{net_loop, reads_head, vsi_node, vsi_attrs, reads_vsi}

-- The source of an interface, by its type: a network with its pool, a bridge, none, or a device with its
-- mode and, if there is one, a virtual port with what it needs to be read.
pub data Source : Type 0 where
  network bridge : Bytes → Source
  user : Source
  direct : Bytes → Bytes → Source
  -- source, mode; type, manager, type id, version, instance
  port : Bytes → Bytes → Bytes → Bytes → Bytes → Bytes → Option Bytes → Source

abbrev pub type_name : Source → Bytes
type_name (network s) = codes "network"
type_name (bridge s) = codes "bridge"
type_name user = codes "user"
type_name _ = codes "direct"

abbrev pub with_net_source : Source → NetDevice → NetDevice
with_net_source (network s) d = record d {
  source = some s;
  poolid = some (codes "NetworkPool/" ++ s);
  net_mode = none;
  vsi = no_vsi;
}
with_net_source (bridge s) d = record d {
  source = some s;
  poolid = none;
  net_mode = none;
  vsi = no_vsi;
}
with_net_source user d = record d { source = none; poolid = none; net_mode = none; vsi = no_vsi }
with_net_source (direct s m) d = record d {
  source = some s;
  poolid = none;
  net_mode = some m;
  vsi = no_vsi;
}
with_net_source (port s m t man tid ver inst) d = record d {
  source = some s;
  poolid = none;
  net_mode = some m;
  vsi = record {
    vsi_type = some t;
    manager_id = some man;
    type_id = some tid;
    type_id_version = some ver;
    instance_id = inst;
    filter_ref = none;
    profile_id = none;
  };
}

-- a virtual port of type 802.1Qbh is not read back
abbrev pub PortRead : Source → Type 0
PortRead (port s m t man tid ver inst) = strcmp_eq t (codes "802.1Qbh") ≡ false
PortRead _ = Unit

abbrev base : NetDevice → NetDevice
base d = record d { source = none; poolid = none; net_mode = none; vsi = no_vsi }

-- what net_source_xml gives
abbrev Sourced : Bool → Source → NetDevice → Type 0
Sourced is_xen s d =
    (nodes : Nodes) × (net_source_xml strcmp_eq is_xen (type_name s) (with_net_source s d)
      ≡ some nodes)
    × (net_loop nodes (base d) ≡ some (with_net_source s d))

sourced : (is_xen : Bool) (s : Source) (d : NetDevice) → PortRead s → Sourced is_xen s d
unfolding net_source_xml set_net_source bridge_net_to_xml set_direct_source each_child net_child
    get_attr_value get_prop strcmp_eq append_nodes set_net_vsi
sourced is_xen (network s) d p = (_, refl, refl)
sourced true (bridge s) d p = (_, refl, refl)
sourced false (bridge s) d p = (_, refl, refl)
sourced is_xen user d p = (leaf, refl, refl)
sourced is_xen (direct s m) d p = (_, refl, refl)
sourced is_xen (port s m t man tid ver inst) d p =
    let d' : NetDevice = record d {
      source = some s;
      poolid = none;
      net_mode = some m;
      vsi = no_vsi;
    } in
    (
      _,
      ap
          (λ b. some (
            also (element (codes "source") ((codes "dev", s) ∷ (codes "mode", m) ∷ []) [] leaf)
              (also (vsi_node t (if b then [] else vsi_attrs man tid ver inst)) leaf)))
          p,
      ap some (reads_vsi t man tid ver inst d'),
    )

-- An interface with a MAC address, a source of one of these kinds, numbers that 64 bits hold, and no
-- address key twice.
abbrev pub NetWritten : NetDevice → Type 0
NetWritten d =
    (s : Source) × (mac : Bytes) × (d.type ≡ some (type_name s))
    × (d.mac ≡ some mac)
    × (with_net_source s d ≡ d)
    × PortRead s
    × (d.reservation < 2 ^ 64)
    × (d.limit < 2 ^ 64)
    × DistinctKeys d.address

abbrev pub interface_as_read : Dev → VirtDevice → VirtDevice
interface_as_read (net_dev d) v = record { type = net; dev = net_dev d; id = d.mac }
interface_as_read _ v = v

abbrev pub device_as_read : VirtDevice → VirtDevice
device_as_read v = interface_as_read v.dev v

unfoldable pub NetsWritten : List VirtDevice → Type 0
NetsWritten [] = Unit
NetsWritten (v ∷ devs) = ((d : NetDevice) × (v.dev ≡ net_dev d) × NetWritten d) × NetsWritten devs

reads_children :
    (d e : NetDevice) (type mac : Bytes) (attrs : List (Bytes × Bytes)) (children : Nodes)
    → get_prop attrs (codes "type") ≡ some type
    → net_loop children (record no_net { type = some type }) ≡ some e
    → e.mac ≡ some mac
    → parse_net_device strcmp_eq (element (codes "interface") attrs [] children)
      ≡ one (record { type = net; dev = net_dev e; id = some mac })
unfolding parse_net_device get_attr_value
reads_children d e type mac attrs children a b c =
    ap (λ o. net_device (o >>=? λ ty. net_loop children (record no_net { type = some ty }))) a
    ∙ ap net_device b
    ∙ ap
        (λ m. elim m [
          | none ↦ fault
          | some x ↦ one (record { type = net; dev = net_dev e; id = some x })
        ])
        c

module _ (is_xen : Bool) where
  reads_interface :
      (d : NetDevice)
      → NetWritten d
      → (n : Node) × (interface_xml strcmp_eq is_xen d ≡ some (also n leaf))
        × (parse_net_device strcmp_eq n ≡ one (record { type = net; dev = net_dev d; id = d.mac }))
  unfolding interface_xml get_prop strcmp_eq
  reads_interface d (s, mac, t, m, w, p, hr, hl, k) =
      let (nodes, written, read) = sourced is_xen s d p in
      (
        element (codes "interface") ((codes "type", attr_text d.type) ∷ []) []
            (net_head_xml d nodes),
        ap
            (λ o. o >>=? λ source. some (
              also
                (element (codes "interface") ((codes "type", attr_text d.type) ∷ []) []
                  (net_head_xml d source))
                leaf))
            (ap (λ x. net_source_xml strcmp_eq is_xen (attr_text x) d) t
              ∙ ap (net_source_xml strcmp_eq is_xen (type_name s)) (sym w)
              ∙ written),
        reads_children d d (type_name s) mac _ _ (ap (λ x. some (attr_text x)) t)
              (ap (λ x. net_loop (net_head_xml d nodes) (record no_net { type = x })) (sym t)
                ∙ reads_head d nodes hr hl k
                ∙ read
                ∙ ap some w)
              m
            ∙ ap (λ x. one (record { type = net; dev = net_dev d; id = x })) (sym m),
      )

  reads_device :
      (v : VirtDevice) (d : NetDevice)
      → v.dev ≡ net_dev d
      → NetWritten d
      → ReadsBack
          (λ x. one_net_xml strcmp_eq is_xen x.dev)
          (parse_net_device strcmp_eq)
          device_as_read
          v
  reads_device v d e w =
      let (n, p, r) = reads_interface d w in
      (
        n,
        ap (one_net_xml strcmp_eq is_xen) e ∙ p,
        r ∙ ap (λ x. one (interface_as_read x v)) (sym e),
      )

  reads_devices :
      (devs : List VirtDevice)
      → NetsWritten devs
      → AllReadBack
          (λ x. one_net_xml strcmp_eq is_xen x.dev)
          (parse_net_device strcmp_eq)
          device_as_read
          devs
  unfolding NetsWritten AllReadBack
  reads_devices [] w = tt
  reads_devices (v ∷ devs) ((d, e, h), w) = (reads_device v d e h, reads_devices devs w)

-- Where STREQ compares strings, the interfaces of a domain are written and read again as the interfaces
-- that were not deleted, in order and unchanged, if each has a MAC address, no address key twice,
-- bandwidths that 64 bits hold, and the source of its type: a network with its pool, a bridge, none for
-- "user", or for "direct" a device with its mode and perhaps a virtual port that is not 802.1Qbh and has
-- a manager, a type and a version.
pub do_parse-net_xml :
    (streq : Bytes → Bytes → Bool)
    → ((s t : Bytes) → (streq s t ≡ true) ↔ (s ≡ t))
    → (is_xen : Bool) (devs : List VirtDevice) → NetsWritten devs
    → (nodes : Nodes) × (net_xml streq is_xen devs ≡ some nodes)
      × (do_parse (parse_net_device streq) nodes ≡ some (kept device_as_read devs))
unfolding net_xml
do_parse-net_xml streq streq_iff is_xen devs w =
    subst
      (λ eq.
        (nodes : Nodes) × (net_xml eq is_xen devs ≡ some nodes)
        × (do_parse (parse_net_device eq) nodes ≡ some (kept device_as_read devs)))
      (sym (streq-strcmp_eq streq streq_iff))
      (written_list (λ x. one_net_xml strcmp_eq is_xen x.dev) (parse_net_device strcmp_eq)
        device_as_read devs (reads_devices is_xen devs w))
