-- ===== src/DeviceParse/Controller.antt =====
-- parse_controller_device in libxkutil/device_parsing.c.
use libvirt_cim.Prelude.{
  ℕ, Bool, Option, none, some, [], ◌∷◌, ◌++◌, Bytes, codes, if◌then◌else◌, ◌>>=?◌,
}
use libvirt_cim.Text.Decimal.{print_decimal}
use libvirt_cim.Xml.{Node, node_name, node_children, get_attr_value, each_child}
use libvirt_cim.Device.{controller, ControllerDevice, controller_dev}
use libvirt_cim.Device.Address.{parse_device_address}
use libvirt_cim.Device.Kinds.{controller_protocol_type_StrToID}
use libvirt_cim.DeviceParse.{Parsed, parsed}
use libvirt_cim.Text.Scanf.Numbers.{scan_u64}

-- "controller:%s:%llu"
abbrev pub controller_id : Bytes → ℕ → Bytes
controller_id type_str index = codes "controller:" ++ (type_str ++ (b':' ∷ print_decimal index))

module _ (streq streqc : Bytes → Bytes → Bool) where
  unfoldable pub controller_child : Node → ControllerDevice → Option ControllerDevice
  controller_child child cdev =
      if streq (node_name child) (codes "address")
      then some (record cdev { address = (parse_device_address child cdev.address).1 })
      else if streq (node_name child) (codes "driver")
      then some (record cdev { queues = get_attr_value child (codes "queues") })
      else some cdev

  unfoldable pub parse_controller_device : Node → Parsed
  parse_controller_device cnode = parsed (
      get_attr_value cnode (codes "type") >>=? λ type_str.
      controller_protocol_type_StrToID streqc type_str >>=? λ type.
      get_attr_value cnode (codes "index") >>=? λ index.
      each_child controller_child (node_children cnode) (record {
        type = some type;
        index = scan_u64 index 0;
        model = get_attr_value cnode (codes "model");
        ports = get_attr_value cnode (codes "ports");
        vectors = get_attr_value cnode (codes "vectors");
        queues = none;
        address = [];
      })
      >>=? λ cdev. some (record {
        type = controller;
        dev = controller_dev cdev;
        id = some (controller_id type_str cdev.index);
      }))
