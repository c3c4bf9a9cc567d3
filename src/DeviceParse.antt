-- ===== src/DeviceParse.antt =====
-- libxkutil/device_parsing.c: devices, read from the nodes of a domain's XML. Allocations do not fail.
-- The nodes that an XPath expression selects are given; sscanf is Text.Scanf.
pub mod Disk
pub mod Net
pub mod Console
pub mod Graphics
pub mod Controller
pub mod Memory
use libvirt_cim.Prelude.{Option, none, some, List, [], ◌∷◌, Bytes, codes}
use libvirt_cim.Xml.{Node, Nodes, leaf, also}
use libvirt_cim.Device.{VirtDevice}

-- What a parser of one node gives: 0, a read through NULL, or one device.
pub data Parsed : Type 0 where
  refused fault : Parsed
  one : VirtDevice → Parsed

-- `none` is a fault
abbrev pub gather : Parsed → Option (List VirtDevice) → Option (List VirtDevice)
gather refused rest = rest
gather fault rest = none
gather (one d) none = none
gather (one d) (some ds) = some (d ∷ ds)

-- The devices that are read, in order: a node that is refused is skipped.
unfoldable pub do_parse : (Node → Parsed) → Nodes → Option (List VirtDevice)
do_parse do_real_parse leaf = some []
do_parse do_real_parse (also n nodes) = gather (do_real_parse n) (do_parse do_real_parse nodes)

abbrev pub parsed : Option VirtDevice → Parsed
parsed none = refused
parsed (some d) = one d

-- `%s` of a string that is NULL
abbrev pub shown : Option Bytes → Bytes
shown none = codes "(null)"
shown (some s) = s
