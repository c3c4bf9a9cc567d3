-- ===== src/Written/Net/Children.antt =====
-- Each child of an <interface> that libxkutil/xmlgen.c writes, as the loop of parse_net_device reads it.
use libvirt_cim.Prelude.{
  ℕ, ◌^◌, ◌<◌, ◌≡◌, refl, ap, ◌∙◌, sym, Bool, Option, none, some, List, [], ◌∷◌, Bytes, codes,
  strcmp_eq, ◌==◌, Bool-cases, inl, inr, ◌&&◌, if◌then◌else◌, ==→≡,
}
use libvirt_cim.Text.Scanf.Numbers.{scan_u64-print_decimal}
use libvirt_cim.Xml.{
  Node, element, Nodes, leaf, also, get_prop, get_attr_value, each_child, attr_if,
}
use libvirt_cim.Device.{Address, no_vsi, NetDevice, no_net}
use libvirt_cim.Device.Address.{DistinctKeys, device_address_xml, parse_device_address-written}
use libvirt_cim.DeviceParse.Net.{
  scan_or_zero, vsi_child, parse_vsi_device, parse_bandwidth, net_child,
}
use libvirt_cim.XmlGen.Net.{element_if, number_if, bandwidth_xml, net_head_xml}

abbrev pub net_loop : Nodes → NetDevice → Option NetDevice
net_loop = each_child (net_child strcmp_eq)

scan-number_if : (n : ℕ) → n < 2 ^ 64 → scan_or_zero (number_if n) 0 ≡ n
scan-number_if n h = elim (Bool-cases (n == 0)) [
  | inl e ↦ rw e (sym (==→≡ n 0 e))
  | inr e ↦ rw e (scan_u64-print_decimal n 0 h)
]

reads_mac :
    (e : NetDevice) (v : Option Bytes) (rest : Nodes)
    → net_loop (element_if (codes "mac") (codes "address") v rest) (record e { mac = none })
      ≡ net_loop rest (record e { mac = v })
unfolding each_child net_child get_attr_value get_prop strcmp_eq
reads_mac e none rest = refl
reads_mac e (some v) rest = refl

reads_target :
    (e : NetDevice) (v : Option Bytes) (rest : Nodes)
    → net_loop (element_if (codes "target") (codes "dev") v rest) (record e { device = none })
      ≡ net_loop rest (record e { device = v })
unfolding each_child net_child get_attr_value get_prop strcmp_eq
reads_target e none rest = refl
reads_target e (some v) rest = refl

reads_model :
    (e : NetDevice) (v : Option Bytes) (rest : Nodes)
    → net_loop (element_if (codes "model") (codes "type") v rest) (record e { model = none })
      ≡ net_loop rest (record e { model = v })
unfolding each_child net_child get_attr_value get_prop strcmp_eq
reads_model e none rest = refl
reads_model e (some v) rest = refl

reads_filter :
    (e : NetDevice) (v : Option Bytes) (rest : Nodes)
    → net_loop
        (element_if (codes "filterref") (codes "filter") v rest)
        (record e { filter_ref = none })
      ≡ net_loop rest (record e { filter_ref = v })
unfolding each_child net_child get_attr_value get_prop strcmp_eq
reads_filter e none rest = refl
reads_filter e (some v) rest = refl

bandwidth_attrs :
    (a p : Option Bytes)
    → let attrs = attr_if (codes "average") a (attr_if (codes "peak") p []) in
      (get_prop attrs (codes "average") ≡ a) × (get_prop attrs (codes "peak") ≡ p)
unfolding get_prop strcmp_eq
bandwidth_attrs none none = (refl, refl)
bandwidth_attrs (some a) none = (refl, refl)
bandwidth_attrs none (some p) = (refl, refl)
bandwidth_attrs (some a) (some p) = (refl, refl)

reads_inbound :
    (e : NetDevice) (a p : Option Bytes)
    → parse_bandwidth strcmp_eq
        (also
          (element
            (codes "inbound")
            (attr_if (codes "average") a (attr_if (codes "peak") p []))
            []
            leaf)
          leaf)
        (record e { reservation = 0; limit = 0 })
      ≡ record e { reservation = scan_or_zero a 0; limit = scan_or_zero p 0 }
unfolding parse_bandwidth get_attr_value strcmp_eq
reads_inbound e a p =
    ap
      (λ x. record e {
        reservation = scan_or_zero x 0;
        limit =
            scan_or_zero
              (get_prop (attr_if (codes "average") a (attr_if (codes "peak") p [])) (codes "peak"))
              0;
      })
      (bandwidth_attrs a p).0
    ∙ ap (λ x. record e { reservation = scan_or_zero a 0; limit = scan_or_zero x 0 })
        (bandwidth_attrs a p).1

abbrev bandwidth_element : ℕ → ℕ → Node
bandwidth_element r l = element (codes "bandwidth") [] [] (
    also
      (element (codes "inbound")
        (attr_if (codes "average") (number_if r) (attr_if (codes "peak") (number_if l) [])) [] leaf)
      leaf)

reads_bandwidth_element :
    (e : NetDevice) (r l : ℕ) (rest : Nodes)
    → r < 2 ^ 64
    → l < 2 ^ 64
    → net_loop (also (bandwidth_element r l) rest) (record e { reservation = 0; limit = 0 })
      ≡ net_loop rest (record e { reservation = r; limit = l })
unfolding each_child net_child strcmp_eq
reads_bandwidth_element e r l rest hr hl =
    ap (net_loop rest) (reads_inbound e (number_if r) (number_if l))
    ∙ ap (λ x. net_loop rest (record e { reservation = x; limit = scan_or_zero (number_if l) 0 }))
        (scan-number_if r hr)
    ∙ ap (λ x. net_loop rest (record e { reservation = r; limit = x })) (scan-number_if l hl)

reads_bandwidth :
    (e : NetDevice) (r l : ℕ) (rest : Nodes)
    → r < 2 ^ 64
    → l < 2 ^ 64
    → net_loop (bandwidth_xml r l rest) (record e { reservation = 0; limit = 0 })
      ≡ net_loop rest (record e { reservation = r; limit = l })
unfolding bandwidth_xml
reads_bandwidth e r l rest hr hl =
    let e0 : NetDevice = record e { reservation = 0; limit = 0 } in
    let loop : Bool → Option NetDevice =
      λ b. net_loop (if b then rest else also (bandwidth_element r l) rest) e0 in
    let written = reads_bandwidth_element e r l rest hr hl in
    elim (Bool-cases (r == 0)) [
      | inr a ↦ ap (λ b. loop (b && (l == 0))) a ∙ written
      | inl a ↦ elim (Bool-cases (l == 0)) [
        | inr b ↦ ap (λ x. loop (x && (l == 0))) a ∙ ap loop b ∙ written
        | inl b ↦
            ap (λ x. loop (x && (l == 0))) a
            ∙ ap loop b
            ∙ ap (λ x. net_loop rest (record e { reservation = x; limit = 0 })) (sym (==→≡ r 0 a))
            ∙ ap (λ x. net_loop rest (record e { reservation = r; limit = x })) (sym (==→≡ l 0 b))
      ]
    ]

reads_address :
    (e : NetDevice) (addr : Address) (rest : Nodes)
    → DistinctKeys addr
    → net_loop (device_address_xml addr rest) (record e { address = [] })
      ≡ net_loop rest (record e { address = addr })
unfolding each_child net_child strcmp_eq device_address_xml
reads_address e [] rest k = refl
reads_address e (kv ∷ addr) rest k =
    ap (λ r. net_loop rest (record e { address = r.1 }))
      (parse_device_address-written (kv ∷ addr) k)

-- What stands before the source reads as it was written.
pub reads_head :
    (d : NetDevice) (rest : Nodes)
    → d.reservation < 2 ^ 64
    → d.limit < 2 ^ 64
    → DistinctKeys d.address
    → net_loop (net_head_xml d rest) (record no_net { type = d.type })
      ≡ net_loop rest (record d { source = none; poolid = none; net_mode = none; vsi = no_vsi })
unfolding net_head_xml
reads_head d rest hr hl k =
    let e1 : NetDevice = record no_net { type = d.type; mac = d.mac } in
    let e2 : NetDevice = record e1 { device = d.device } in
    let e3 : NetDevice = record e2 { model = d.model } in
    let e4 : NetDevice = record e3 { filter_ref = d.filter_ref } in
    let e5 : NetDevice = record e4 { reservation = d.reservation; limit = d.limit } in
    reads_mac (record no_net { type = d.type }) d.mac _
    ∙ reads_target e1 d.device _
    ∙ reads_model e2 d.model _
    ∙ reads_filter e3 d.filter_ref _
    ∙ reads_bandwidth e4 d.reservation d.limit _ hr hl
    ∙ reads_address e5 d.address rest k

abbrev pub vsi_node : Bytes → List (Bytes × Bytes) → Node
vsi_node type attrs =
    element (codes "virtualport") ((codes "type", type) ∷ []) []
      (also (element (codes "parameters") attrs [] leaf) leaf)

abbrev pub vsi_attrs : Bytes → Bytes → Bytes → Option Bytes → List (Bytes × Bytes)
vsi_attrs man tid ver inst =
    (codes "managerid", man)
    ∷ (codes "typeid", tid)
    ∷ (codes "typeidversion", ver)
    ∷ attr_if (codes "instanceid") inst []

pub reads_vsi :
    (type man tid ver : Bytes) (inst : Option Bytes) (d : NetDevice)
    → parse_vsi_device strcmp_eq (vsi_node type (vsi_attrs man tid ver inst)) d ≡ record d {
      vsi = record {
        vsi_type = some type;
        manager_id = some man;
        type_id = some tid;
        type_id_version = some ver;
        instance_id = inst;
        filter_ref = none;
        profile_id = none;
      };
    }
unfolding parse_vsi_device vsi_child each_child get_attr_value get_prop strcmp_eq
reads_vsi type man tid ver none d = refl
reads_vsi type man tid ver (some i) d = refl
