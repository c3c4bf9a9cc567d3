-- ===== src/XmlGen/Net.antt =====
-- set_net_vsi, set_net_source, bridge_net_to_xml and net_xml in libxkutil/xmlgen.c, for a libvirt of version
-- 0.9.0 or later. An interface has a type: neither the parser nor the service makes one without.
use libvirt_cim.Prelude.{
  ℕ, ◌==◌, Bool, ◌&&◌, Option, none, some, List, [], ◌∷◌, Bytes, codes, if◌then◌else◌, ◌>>=?◌,
}
use libvirt_cim.Text.Decimal.{print_decimal}
use libvirt_cim.Xml.{Node, element, Nodes, leaf, also, append_nodes, attr_if, attr_text}
use libvirt_cim.Device.{VsiDevice, NetDevice, Dev, net_dev, VirtDevice}
use libvirt_cim.Device.Address.{device_address_xml}
use libvirt_cim.XmlGen.{each_device}

-- an element with one attribute, where there is a value
abbrev pub element_if : Bytes → Bytes → Option Bytes → Nodes → Nodes
element_if name attr none rest = rest
element_if name attr (some v) rest = also (element name ((attr, v) ∷ []) [] leaf) rest

abbrev pub number_if : ℕ → Option Bytes
number_if n = if n == 0 then none else some (print_decimal n)

unfoldable pub bandwidth_xml : ℕ → ℕ → Nodes → Nodes
bandwidth_xml reservation limit rest =
    if (reservation == 0) && (limit == 0)
    then rest
    else also
        (element (codes "bandwidth") [] [] (
          also
            (element (codes "inbound")
              (attr_if (codes "average") (number_if reservation)
                (attr_if (codes "peak") (number_if limit) []))
              [] leaf)
            leaf))
        rest

-- what stands before the source
unfoldable pub net_head_xml : NetDevice → Nodes → Nodes
net_head_xml net rest = element_if (codes "mac") (codes "address") net.mac (
    element_if (codes "target") (codes "dev") net.device (
      element_if (codes "model") (codes "type") net.model (
        element_if (codes "filterref") (codes "filter") net.filter_ref
          (bandwidth_xml net.reservation net.limit (device_address_xml net.address rest)))))

abbrev one_node : Node → Nodes
one_node n = also n leaf

abbrev source_element : List (Bytes × Bytes) → Nodes
source_element attrs = one_node (element (codes "source") attrs [] leaf)

-- `set_net_source` for a network and for a bridge
unfoldable pub set_net_source : Bytes → Option Bytes → Option Nodes
set_net_source src_type none = none
set_net_source src_type (some source) = some (source_element ((src_type, source) ∷ []))

-- `set_net_source` for "direct"
unfoldable pub set_direct_source : Option Bytes → Option Bytes → Option Nodes
set_direct_source none net_mode = none
set_direct_source (some source) net_mode =
    some (source_element ((codes "dev", source) ∷ attr_if (codes "mode") net_mode []))

-- scripts are for Xen's guests only
unfoldable pub bridge_net_to_xml : Bool → NetDevice → Option Nodes
bridge_net_to_xml is_xen net = set_net_source (codes "bridge") net.source >>=? λ source. some (
    if is_xen
    then also (element (codes "script") ((codes "path", codes "vif-bridge") ∷ []) [] leaf) source
    else source)

module _ (streq : Bytes → Bytes → Bool) where
  unfoldable pub set_net_vsi : Bytes → VsiDevice → Nodes
  set_net_vsi vsi_type vsi = one_node (
      element (codes "virtualport") ((codes "type", vsi_type) ∷ []) [] (
        one_node (
          element (codes "parameters")
            (if streq vsi_type (codes "802.1Qbh")
              then attr_if (codes "profileid") vsi.profile_id []
              else attr_if (codes "managerid") vsi.manager_id (
                  attr_if (codes "typeid") vsi.type_id (
                    attr_if (codes "typeidversion") vsi.type_id_version
                      (attr_if (codes "instanceid") vsi.instance_id []))))
            [] leaf)))

  -- The virtual port's result takes the place of the source's.
  abbrev pub direct_xml : Option Bytes → Option Nodes → VsiDevice → Option Nodes
  direct_xml none source vsi = source
  direct_xml (some vsi_type) none vsi = some (set_net_vsi vsi_type vsi)
  direct_xml (some vsi_type) (some source) vsi =
      some (append_nodes source (set_net_vsi vsi_type vsi))

  -- by the type of the interface: a message, or what follows the address
  unfoldable pub net_source_xml : Bool → Bytes → NetDevice → Option Nodes
  net_source_xml is_xen type net =
      if streq type (codes "network")
      then set_net_source (codes "network") net.source
      else if streq type (codes "bridge")
      then bridge_net_to_xml is_xen net
      else if streq type (codes "user")
      then some leaf
      else if streq type (codes "direct")
      then direct_xml net.vsi.vsi_type (set_direct_source net.source net.net_mode) net.vsi
      else none

  unfoldable pub interface_xml : Bool → NetDevice → Option Nodes
  interface_xml is_xen net = net_source_xml is_xen (attr_text net.type) net >>=? λ source. some (
      one_node (
        element (codes "interface") ((codes "type", attr_text net.type) ∷ []) []
          (net_head_xml net source)))

  abbrev pub one_net_xml : Bool → Dev → Option Nodes
  one_net_xml is_xen (net_dev net) = interface_xml is_xen net
  one_net_xml is_xen _ = none

  unfoldable pub net_xml : Bool → List VirtDevice → Option Nodes
  net_xml is_xen devs = each_device (λ d. one_net_xml is_xen d.dev) devs
