-- ===== src/Written/Controller.antt =====
-- Controllers that controller_xml writes and do_parse with parse_controller_device reads again.
mod Children
use libvirt_cim.Prelude.{
  ℕ, ◌<◌, ◌≡◌, refl, ap, ◌∙◌, sym, Bool, true, Option, none, some, List, [], ◌∷◌, Bytes, codes,
  strcmp_eq, ◌↔◌, ◌>>=?◌, if◌then◌else◌, ≢→==, arith,
}
use libvirt_cim.Text.Decimal.{print_decimal}
use libvirt_cim.Compare.{streq-strcmp_eq, streqc-caseless, caseless, lower}
use libvirt_cim.Xml.{element, Nodes, leaf, also, get_prop, get_attr_value, each_child, attr_if}
use libvirt_cim.Device.{
  controller, ControllerType, ControllerDevice, controller_dev, Dev, VirtDevice, Address,
}
use libvirt_cim.Device.Address.{DistinctKeys, device_address_xml, parse_device_address-written}
use libvirt_cim.Device.Kinds.{
  controller_protocol_type_id_to_str, controller_protocol_type_StrToID, controller-names,
}
use libvirt_cim.DeviceParse.{Parsed, one, parsed, do_parse}
use libvirt_cim.DeviceParse.Controller.{controller_child, controller_id, parse_controller_device}
use libvirt_cim.Text.Scanf.Numbers.{scan_u64, scan_u64-print_decimal}
use libvirt_cim.XmlGen.Net.{element_if}
use libvirt_cim.XmlGen.Controller.{
  index_not_set, typed_controller_xml, one_controller_xml, controller_node, controller_xml,
}
use libvirt_cim.Written.{kept, AllReadBack, written_list}
use libvirt_cim.Written.Controller.Children.{
  controller_attrs, three_attrs, opened, controller_loop, parse_answers, parse_answers_lem,
  controller_children,
}

controller_node_lem :
    (t : ControllerType) (c : ControllerDevice)
    → c.index < index_not_set
    → typed_controller_xml (controller_protocol_type_id_to_str t) c
      ≡ element (codes "controller") (controller_attrs t c) [] (
          element_if
            (codes "driver")
            (codes "queueus")
            c.queues
            (device_address_xml c.address leaf))
unfolding typed_controller_xml
controller_node_lem t c h =
    ap
      (λ b.
        element (codes "controller")
          ((codes "type", controller_protocol_type_id_to_str t)
            ∷ (let rest =
                  attr_if (codes "model") c.model
                    (attr_if (codes "ports") c.ports (attr_if (codes "vectors") c.vectors [])) in
                if b then rest else (codes "index", print_decimal c.index) ∷ rest))
          []
          (element_if (codes "driver") (codes "queueus") c.queues
            (device_address_xml c.address leaf)))
      (≢→== c.index index_not_set (omega arith))

abbrev name_of : Option ControllerType → Bytes
name_of none = []
name_of (some t) = controller_protocol_type_id_to_str t

abbrev controller_read : ControllerDevice → VirtDevice
controller_read c = record {
  type = controller;
  dev = controller_dev (record c { queues = none });
  id = some (controller_id (name_of c.type) c.index);
}

reads_controller :
    (t : ControllerType) (c : ControllerDevice)
    → c.index < index_not_set
    → DistinctKeys c.address
    → parse_controller_device strcmp_eq caseless
        (typed_controller_xml (controller_protocol_type_id_to_str t) c)
      ≡ one (controller_read (record c { type = some t }))
unfolding get_prop strcmp_eq
reads_controller t c h k =
    let kids : Nodes =
      element_if (codes "driver") (codes "queueus") c.queues (device_address_xml c.address leaf) in
    let name : Bytes = controller_protocol_type_id_to_str t in
    let i : Bytes = print_decimal c.index in
    let (m, p, v) = three_attrs name i c.model c.ports c.vectors in
    ap (parse_controller_device strcmp_eq caseless) (controller_node_lem t c h)
    ∙ parse_answers_lem (codes "controller") [] (controller_attrs t c) kids
    ∙ ap
        (λ x.
          parse_answers (some name) (some i) x (get_prop (controller_attrs t c) (codes "ports"))
            (get_prop (controller_attrs t c) (codes "vectors")) kids)
        m
    ∙ ap
        (λ x.
          parse_answers (some name) (some i) c.model x
            (get_prop (controller_attrs t c) (codes "vectors")) kids)
        p
    ∙ ap (λ x. parse_answers (some name) (some i) c.model c.ports x kids) v
    ∙ ap parsed (
        ap
          (λ o. o >>=? λ ty.
            controller_loop kids (opened ty (scan_u64 i 0) c.model c.ports c.vectors) >>=? λ cdev.
            some (record {
              type = controller;
              dev = controller_dev cdev;
              id = some (controller_id name cdev.index);
            }))
          (controller-names t)
        ∙ ap
            (λ n. controller_loop kids (opened t n c.model c.ports c.vectors) >>=? λ cdev.
              some (record {
                type = controller;
                dev = controller_dev cdev;
                id = some (controller_id name cdev.index);
              }))
            (scan_u64-print_decimal c.index 0 (omega arith))
        ∙ ap
            (λ o. o >>=? λ cdev. some (record {
              type = controller;
              dev = controller_dev cdev;
              id = some (controller_id name cdev.index);
            }))
            (controller_children t c k))

-- A type that is known, an index that is set and that 64 bits hold, and no address key twice.
abbrev pub ControllerWritten : ControllerDevice → Type 0
ControllerWritten c =
    (t : ControllerType) × (c.type ≡ some t) × (c.index < index_not_set) × DistinctKeys c.address

abbrev pub dev_as_read : Dev → VirtDevice → VirtDevice
dev_as_read (controller_dev c) v = controller_read c
dev_as_read _ v = v

abbrev pub device_as_read : VirtDevice → VirtDevice
device_as_read v = dev_as_read v.dev v

unfoldable pub ControllersWritten : List VirtDevice → Type 0
ControllersWritten [] = Unit
ControllersWritten (v ∷ devs) =
    ((c : ControllerDevice) × (v.dev ≡ controller_dev c) × ControllerWritten c)
    × ControllersWritten devs

abbrev node_of_type : Option ControllerType → ControllerDevice → Option Nodes
node_of_type o c =
    (o >>=? λ type. some (typed_controller_xml (controller_protocol_type_id_to_str type) c))
    >>=? λ node. some (also node leaf)

reads_devices :
    (devs : List VirtDevice)
    → ControllersWritten devs
    → AllReadBack
        (λ x. controller_node x.dev)
        (parse_controller_device strcmp_eq caseless)
        device_as_read
        devs
unfolding ControllersWritten AllReadBack one_controller_xml
reads_devices [] w = tt
reads_devices (v ∷ devs) ((c, e, (t, typed, h, k)), w) = (
  (
    typed_controller_xml (controller_protocol_type_id_to_str t) c,
    ap controller_node e ∙ ap (λ o. node_of_type o c) typed,
    reads_controller t c h k
        ∙ ap (λ o. one (controller_read (record c { type = o }))) (sym typed)
        ∙ ap (λ x. one (dev_as_read x v)) (sym e),
  ),
  reads_devices devs w,
)

-- Where STREQ compares strings and STREQC compares them but for the case of letters, the controllers of a
-- domain, each of a known type, with an index that is set and no address key twice, are written and read
-- again as the controllers that were not deleted, in order, with no queues: the number of queues is lost.
pub do_parse-controller_xml :
    (streq streqc : Bytes → Bytes → Bool)
    → ((s t : Bytes) → (streq s t ≡ true) ↔ (s ≡ t))
    → ((s t : Bytes) → (streqc s t ≡ true) ↔ (lower s ≡ lower t))
    → (devs : List VirtDevice) → ControllersWritten devs
    → (nodes : Nodes) × (controller_xml devs ≡ some nodes)
      × (do_parse (parse_controller_device streq streqc) nodes ≡ some (kept device_as_read devs))
unfolding controller_xml
do_parse-controller_xml streq streqc streq_iff streqc_iff devs w =
    let (nodes, p, r) =
      written_list (λ x. controller_node x.dev) (parse_controller_device strcmp_eq caseless)
        device_as_read devs (reads_devices devs w) in
    (
      nodes,
      p,
      ap (λ f. do_parse (parse_controller_device f streqc) nodes) (streq-strcmp_eq streq streq_iff)
          ∙ ap (λ g. do_parse (parse_controller_device strcmp_eq g) nodes)
              (streqc-caseless streqc streqc_iff)
          ∙ r,
    )
