-- ===== src/XmlGen/Console.antt =====
-- console_xml in libxkutil/xmlgen.c.
use libvirt_cim.Prelude.{Option, none, some, List, [], ◌∷◌, Bytes, codes}
use libvirt_cim.Xml.{Node, element, Nodes, leaf, also, attr_if, attr_text}
use libvirt_cim.Device.{
  ConsoleSource, pty, dev, file, pipe, unixsock, udp, tcp, ConsoleDevice, Dev, console_dev,
  VirtDevice,
}
use libvirt_cim.Device.Kinds.{chardev_source_type_id_to_str}
use libvirt_cim.XmlGen.{each_device}
use libvirt_cim.XmlGen.Net.{element_if}

abbrev pub source_of : List (Bytes × Bytes) → Nodes → Nodes
source_of attrs rest = also (element (codes "source") attrs [] leaf) rest

abbrev pub path_of : Option Bytes → Nodes → Nodes
path_of path rest = source_of ((codes "path", attr_text path) ∷ []) rest

abbrev pub host_of : Bytes → Option Bytes → Option Bytes → Nodes → Nodes
host_of mode host service rest =
    source_of
      ((codes "mode", mode) ∷ (codes "host", attr_text host) ∷ attr_if (codes "service") service [])
      rest

unfoldable pub console_source_xml : ConsoleSource → Nodes → Nodes
console_source_xml (pty none) rest = rest
console_source_xml (pty (some path)) rest = path_of (some path) rest
console_source_xml (dev path) rest = path_of path rest
console_source_xml (file path) rest = path_of path rest
console_source_xml (pipe path) rest = path_of path rest
console_source_xml (unixsock mode path) rest =
    source_of ((codes "mode", attr_text mode) ∷ (codes "path", attr_text path) ∷ []) rest
console_source_xml (udp bind_host bind_service connect_host connect_service) rest =
    host_of (codes "bind") bind_host bind_service
      (host_of (codes "connect") connect_host connect_service rest)
console_source_xml (tcp mode protocol host service) rest =
    host_of (attr_text mode) host service
      (element_if (codes "protocol") (codes "type") protocol rest)
console_source_xml _ rest = rest

unfoldable pub one_console_xml : ConsoleDevice → Node
one_console_xml cdev =
    element (codes "console") ((codes "type", chardev_source_type_id_to_str cdev.source_dev) ∷ [])
      []
      (console_source_xml cdev.source_dev
        (element_if (codes "target") (codes "type") cdev.target_type leaf))

abbrev pub console_node : Dev → Option Nodes
console_node (console_dev cdev) = some (also (one_console_xml cdev) leaf)
console_node _ = none

unfoldable pub console_xml : List VirtDevice → Option Nodes
console_xml devs = each_device (λ d. console_node d.dev) devs
