-- ===== src/XmlGen/Controller.antt =====
-- controller_xml in libxkutil/xmlgen.c.
use libvirt_cim.Prelude.{
  ℕ, ◌-◌, ◌^◌, ◌==◌, Option, none, some, List, [], ◌∷◌, Bytes, codes, if◌then◌else◌, ◌>>=?◌,
}
use libvirt_cim.Text.Decimal.{print_decimal}
use libvirt_cim.Xml.{Node, element, Nodes, leaf, also, attr_if}
use libvirt_cim.Device.{ControllerDevice, Dev, controller_dev, VirtDevice}
use libvirt_cim.Device.Address.{device_address_xml}
use libvirt_cim.Device.Kinds.{controller_protocol_type_id_to_str}
use libvirt_cim.XmlGen.{each_device}
use libvirt_cim.XmlGen.Net.{element_if}

-- CONTROLLER_INDEX_NOT_SET is -1, which the 64 bits of an index hold as this number.
abbrev pub index_not_set : ℕ
index_not_set = 2 ^ 64 - 1

abbrev pub index_attr : ℕ → List (Bytes × Bytes) → List (Bytes × Bytes)
index_attr index rest =
    if index == index_not_set then rest else (codes "index", print_decimal index) ∷ rest

-- the attribute of the driver is called "queueus"
unfoldable pub typed_controller_xml : Bytes → ControllerDevice → Node
typed_controller_xml type_str cdev =
    element (codes "controller")
      ((codes "type", type_str)
        ∷ index_attr cdev.index (
            attr_if (codes "model") cdev.model
              (attr_if (codes "ports") cdev.ports (attr_if (codes "vectors") cdev.vectors []))))
      []
      (element_if (codes "driver") (codes "queueus") cdev.queues
        (device_address_xml cdev.address leaf))

-- a type that is not known has no name
unfoldable pub one_controller_xml : ControllerDevice → Option Node
one_controller_xml cdev = cdev.type >>=? λ type.
    some (typed_controller_xml (controller_protocol_type_id_to_str type) cdev)

abbrev pub controller_node : Dev → Option Nodes
controller_node (controller_dev cdev) = one_controller_xml cdev >>=? λ node. some (also node leaf)
controller_node _ = none

unfoldable pub controller_xml : List VirtDevice → Option Nodes
controller_xml devs = each_device (λ d. controller_node d.dev) devs
