-- ===== src/DeviceParse/Net.antt =====
-- parse_vsi_device and parse_net_device in libxkutil/device_parsing.c, for a libvirt of version 0.9.0 or
-- later.
use libvirt_cim.Prelude.{ℕ, Bool, Option, none, some, ◌++◌, Bytes, codes, if◌then◌else◌, ◌>>=?◌}
use libvirt_cim.Text.Scanf.Numbers.{scan_u64}
use libvirt_cim.Xml.{Node, Nodes, leaf, also, node_name, node_children, get_attr_value, each_child}
use libvirt_cim.Device.{net, VsiDevice, no_vsi, NetDevice, no_net, net_dev}
use libvirt_cim.Device.Address.{parse_device_address}
use libvirt_cim.DeviceParse.{Parsed, refused, fault, one}

-- an attribute that is not there sets 0
abbrev pub scan_or_zero : Option Bytes → ℕ → ℕ
scan_or_zero none old = 0
scan_or_zero (some s) old = scan_u64 s old

-- the source of a bridge, of a network with its pool, or of a device with its mode
abbrev pub net_source :
    Option Bytes → Option Bytes → Option Bytes → Option Bytes → NetDevice → Option NetDevice
net_source (some bridge) network dev mode ndev = some (record ndev { source = some bridge })
net_source none (some network) dev mode ndev =
    some (record ndev { source = some network; poolid = some (codes "NetworkPool/" ++ network) })
net_source none none (some dev) (some mode) ndev =
    some (record ndev { source = some dev; net_mode = some mode })
net_source none none _ _ ndev = none

-- an interface with no <mac> is a `strdup` of NULL
abbrev pub net_device : Option NetDevice → Parsed
net_device none = refused
net_device (some ndev) = elim ndev.mac [
  | none ↦ fault
  | some mac ↦ one (record { type = net; dev = net_dev ndev; id = some mac })
]

module _ (streq : Bytes → Bytes → Bool) where
  unfoldable pub vsi_child : Node → VsiDevice → Option VsiDevice
  vsi_child child vsi_dev =
      if streq (node_name child) (codes "parameters")
      then (get_attr_value child (codes "managerid") >>=? λ manager_id.
          get_attr_value child (codes "typeid") >>=? λ type_id.
          get_attr_value child (codes "typeidversion") >>=? λ type_id_version.
          some (record vsi_dev {
            manager_id = some manager_id;
            type_id = some type_id;
            type_id_version = some type_id_version;
            instance_id = get_attr_value child (codes "instanceid");
            profile_id = get_attr_value child (codes "profileid");
          }))
      else some vsi_dev

  -- an error leaves the device as it was, and its result is not looked at
  unfoldable pub parse_vsi_device : Node → NetDevice → NetDevice
  parse_vsi_device dnode ndev =
      elim (get_attr_value dnode (codes "type") >>=? λ type.
      each_child vsi_child (node_children dnode) (record no_vsi { vsi_type = some type })) [
        | none ↦ ndev
        | some vsi_dev ↦ record ndev { vsi = vsi_dev }
      ]

  -- the first <inbound> of <bandwidth>
  unfoldable pub parse_bandwidth : Nodes → NetDevice → NetDevice
  parse_bandwidth leaf ndev = ndev
  parse_bandwidth (also grandchild rest) ndev =
      let others = parse_bandwidth rest ndev in
      if streq (node_name grandchild) (codes "inbound")
      then record ndev {
        reservation = scan_or_zero (get_attr_value grandchild (codes "average")) ndev.reservation;
        limit = scan_or_zero (get_attr_value grandchild (codes "peak")) ndev.limit;
      }
      else others

  unfoldable pub net_child : Node → NetDevice → Option NetDevice
  net_child child ndev =
      if streq (node_name child) (codes "mac")
      then (get_attr_value child (codes "address") >>=? λ mac.
          some (record ndev { mac = some mac }))
      else if streq (node_name child) (codes "source")
      then net_source (get_attr_value child (codes "bridge"))
          (get_attr_value child (codes "network")) (get_attr_value child (codes "dev"))
          (get_attr_value child (codes "mode")) ndev
      else if streq (node_name child) (codes "target")
      then (get_attr_value child (codes "dev") >>=? λ device.
          some (record ndev { device = some device }))
      else if streq (node_name child) (codes "model")
      then (get_attr_value child (codes "type") >>=? λ model.
          some (record ndev { model = some model }))
      else if streq (node_name child) (codes "filterref")
      then some (record ndev { filter_ref = get_attr_value child (codes "filter") })
      else if streq (node_name child) (codes "virtualport")
      then some (parse_vsi_device child ndev)
      else if streq (node_name child) (codes "address")
      then some (record ndev { address = (parse_device_address child ndev.address).1 })
      else if streq (node_name child) (codes "bandwidth")
      then some (parse_bandwidth (node_children child) ndev)
      else some ndev

  unfoldable pub parse_net_device : Node → Parsed
  parse_net_device inode = net_device (
      get_attr_value inode (codes "type") >>=? λ type.
      each_child net_child (node_children inode) (record no_net { type = some type }))
