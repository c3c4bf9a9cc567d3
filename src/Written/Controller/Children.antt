-- ===== src/Written/Controller/Children.antt =====
-- What parse_controller_device reads from the attributes and the children of a controller's element.
use libvirt_cim.Prelude.{
  ℕ, ◌≡◌, refl, ap, ◌∙◌, Option, none, some, List, [], ◌∷◌, Bytes, codes, strcmp_eq, ◌>>=?◌,
}
use libvirt_cim.Text.Decimal.{print_decimal}
use libvirt_cim.Compare.{caseless}
use libvirt_cim.Xml.{element, Nodes, leaf, get_prop, get_attr_value, each_child, attr_if}
use libvirt_cim.Device.{controller, ControllerType, ControllerDevice, controller_dev, Address}
use libvirt_cim.Device.Address.{DistinctKeys, device_address_xml, parse_device_address-written}
use libvirt_cim.Device.Kinds.{controller_protocol_type_id_to_str, controller_protocol_type_StrToID}
use libvirt_cim.DeviceParse.{Parsed, parsed}
use libvirt_cim.DeviceParse.Controller.{controller_child, controller_id, parse_controller_device}
use libvirt_cim.Text.Scanf.Numbers.{scan_u64}
use libvirt_cim.XmlGen.Net.{element_if}

abbrev pub controller_attrs : ControllerType → ControllerDevice → List (Bytes × Bytes)
controller_attrs t c =
    (codes "type", controller_protocol_type_id_to_str t)
    ∷ (codes "index", print_decimal c.index)
    ∷ attr_if (codes "model") c.model
        (attr_if (codes "ports") c.ports (attr_if (codes "vectors") c.vectors []))

pub three_attrs :
    (t i : Bytes) (m p v : Option Bytes)
    → let attrs =
        (codes "type", t)
        ∷ (codes "index", i)
        ∷ attr_if (codes "model") m (attr_if (codes "ports") p (attr_if (codes "vectors") v [])) in
      (get_prop attrs (codes "model") ≡ m)
      × (get_prop attrs (codes "ports") ≡ p)
      × (get_prop attrs (codes "vectors") ≡ v)
unfolding get_prop strcmp_eq
three_attrs t i none none none = (refl, refl, refl)
three_attrs t i none none (some v) = (refl, refl, refl)
three_attrs t i none (some p) none = (refl, refl, refl)
three_attrs t i none (some p) (some v) = (refl, refl, refl)
three_attrs t i (some m) none none = (refl, refl, refl)
three_attrs t i (some m) none (some v) = (refl, refl, refl)
three_attrs t i (some m) (some p) none = (refl, refl, refl)
three_attrs t i (some m) (some p) (some v) = (refl, refl, refl)

reads_driver :
    (e : ControllerDevice) (queues : Option Bytes) (rest : Nodes)
    → each_child
        (controller_child strcmp_eq caseless)
        (element_if (codes "driver") (codes "queueus") queues rest)
        (record e { queues = none })
      ≡ each_child (controller_child strcmp_eq caseless) rest (record e { queues = none })
unfolding each_child controller_child get_attr_value get_prop strcmp_eq
reads_driver e none rest = refl
reads_driver e (some q) rest = refl

reads_address :
    (e : ControllerDevice) (addr : Address)
    → DistinctKeys addr
    → each_child
        (controller_child strcmp_eq caseless)
        (device_address_xml addr leaf)
        (record e { address = [] })
      ≡ some (record e { address = addr })
unfolding each_child controller_child strcmp_eq device_address_xml
reads_address e [] k = refl
reads_address e (kv ∷ addr) k =
    ap (λ r. some (record e { address = r.1 })) (parse_device_address-written (kv ∷ addr) k)

-- the device as it stands before its children
abbrev pub opened :
    ControllerType → ℕ → Option Bytes → Option Bytes → Option Bytes → ControllerDevice
opened type index model ports vectors = record {
  type = some type;
  index = index;
  model = model;
  ports = ports;
  vectors = vectors;
  queues = none;
  address = [];
}

abbrev pub controller_loop : Nodes → ControllerDevice → Option ControllerDevice
controller_loop = each_child (controller_child strcmp_eq caseless)

-- parse_controller_device, from the answers for the attributes
abbrev pub parse_answers :
    Option Bytes → Option Bytes → Option Bytes → Option Bytes → Option Bytes → Nodes → Parsed
parse_answers type index model ports vectors children = parsed (
    type >>=? λ type_str. controller_protocol_type_StrToID caseless type_str >>=? λ ty.
    index >>=? λ i.
    controller_loop children (opened ty (scan_u64 i 0) model ports vectors) >>=? λ cdev.
    some (record {
      type = controller;
      dev = controller_dev cdev;
      id = some (controller_id type_str cdev.index);
    }))

pub parse_answers_lem :
    (name content : Bytes) (attrs : List (Bytes × Bytes)) (children : Nodes)
    → parse_controller_device strcmp_eq caseless (element name attrs content children)
      ≡ parse_answers
          (get_prop attrs (codes "type"))
          (get_prop attrs (codes "index"))
          (get_prop attrs (codes "model"))
          (get_prop attrs (codes "ports"))
          (get_prop attrs (codes "vectors"))
          children
unfolding parse_controller_device get_attr_value
parse_answers_lem name content attrs children = refl

pub controller_children :
    (t : ControllerType) (c : ControllerDevice)
    → DistinctKeys c.address
    → controller_loop
        (element_if (codes "driver") (codes "queueus") c.queues (device_address_xml c.address leaf))
        (opened t c.index c.model c.ports c.vectors)
      ≡ some (record c { type = some t; queues = none })
controller_children t c k =
    let e : ControllerDevice = opened t c.index c.model c.ports c.vectors in
    reads_driver e c.queues _ ∙ reads_address e c.address k
