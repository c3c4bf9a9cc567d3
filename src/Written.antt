-- ===== src/Written.antt =====
-- Devices that libxkutil/xmlgen.c writes and libxkutil/device_parsing.c reads again.
pub mod Disk
pub mod Net
pub mod Controller
pub mod Graphics
pub mod Console
pub mod Attached
pub mod Memory
mod Samples
use libvirt_cim.Prelude.{◌≡◌, refl, ap, ◌∙◌, Option, none, some, List, [], ◌∷◌, ◌>>=?◌}
use libvirt_cim.Xml.{Node, Nodes, leaf, also, append_nodes}
use libvirt_cim.Device.{
  ResType, unknown, proc, mem, net, disk, graphics, input, console, emu, controller, VirtDevice,
}
use libvirt_cim.DeviceParse.{Parsed, one, gather, do_parse}
use libvirt_cim.XmlGen.{unless_unknown, each_device}

-- the devices that were not deleted, each as `as_read` gives it
abbrev pub kept_one : ResType → VirtDevice → List VirtDevice → List VirtDevice
kept_one unknown d rest = rest
kept_one _ d rest = d ∷ rest

unfoldable pub kept : (VirtDevice → VirtDevice) → List VirtDevice → List VirtDevice
kept as_read [] = []
kept as_read (d ∷ devs) = kept_one d.type (as_read d) (kept as_read devs)

module _ (write : VirtDevice → Option Nodes) (read : Node → Parsed)
    (as_read : VirtDevice → VirtDevice) where
  -- the device is written as one node, which reads as it should
  abbrev pub ReadsBack : VirtDevice → Type 0
  ReadsBack d = (n : Node) × (write d ≡ some (also n leaf)) × (read n ≡ one (as_read d))

  unfoldable pub AllReadBack : List VirtDevice → Type 0
  AllReadBack [] = Unit
  AllReadBack (d ∷ devs) = ReadsBack d × AllReadBack devs

  abbrev Whole : List VirtDevice → Type 0
  Whole devs =
      (nodes : Nodes) × (each_device write devs ≡ some nodes)
      × (do_parse read nodes ≡ some (kept as_read devs))

  written_one :
      (t : ResType) (d : VirtDevice) (rest : Nodes) (ds : List VirtDevice)
      → ReadsBack d
      → do_parse read rest ≡ some ds
      → (nodes : Nodes) × ((unless_unknown t (write d) >>=? λ ns. some (append_nodes ns rest))
          ≡ some nodes)
        × (do_parse read nodes ≡ some (kept_one t (as_read d) ds))
  unfolding do_parse append_nodes
  written_one unknown d rest ds h e = (rest, refl, e)
  written_one _ d rest ds (n, w, r) e = (also n rest, rw w refl, rw (r, e) refl)

  written_cons :
      (d : VirtDevice) (devs : List VirtDevice) → ReadsBack d → Whole devs → Whole (d ∷ devs)
  unfolding each_device kept
  written_cons d devs h (rest, w, r) =
      let (nodes, w', r') = written_one d.type d rest (kept as_read devs) h r in
      (nodes, rw w w', r')

  -- A list of devices that each read back is written, and reads back as the devices that were not
  -- deleted, in order.
  pub written_list : (devs : List VirtDevice) → AllReadBack devs → Whole devs
  unfolding each_device do_parse kept AllReadBack
  written_list [] h = (leaf, refl, refl)
  written_list (d ∷ devs) h = written_cons d devs h.0 (written_list devs h.1)
