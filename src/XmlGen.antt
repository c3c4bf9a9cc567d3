-- ===== src/XmlGen.antt =====
-- libxkutil/xmlgen.c: devices, written as XML nodes. libxml2's calls succeed, so the messages that stay are
-- those about the devices themselves; such a message is `none`.
pub mod Disk
pub mod Net
pub mod Console
pub mod Graphics
pub mod Controller
pub mod Memory
pub mod Single
use libvirt_cim.Prelude.{Option, none, some, List, [], ◌∷◌, ◌>>=?◌}
use libvirt_cim.Xml.{Nodes, leaf, also, append_nodes}
use libvirt_cim.Device.{ResType, unknown, VirtDevice}

-- A device that was deleted is skipped; a message ends the loop.
abbrev pub unless_unknown : ResType → Option Nodes → Option Nodes
unless_unknown unknown nodes = some leaf
unless_unknown _ nodes = nodes

unfoldable pub each_device : (VirtDevice → Option Nodes) → List VirtDevice → Option Nodes
each_device write [] = some leaf
each_device write (d ∷ devs) = unless_unknown d.type (write d) >>=? λ nodes.
    each_device write devs >>=? λ rest. some (append_nodes nodes rest)
