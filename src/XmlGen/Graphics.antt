-- ===== src/XmlGen/Graphics.antt =====
-- graphics_vnc_xml, graphics_xml and input_xml in libxkutil/xmlgen.c. A device has a type: the parser
-- refuses one without.
use libvirt_cim.Prelude.{Bool, ◌||◌, Option, none, some, List, [], ◌∷◌, Bytes, codes, if◌then◌else◌}
use libvirt_cim.Xml.{Node, element, Nodes, leaf, also, attr_if, attr_text}
use libvirt_cim.Device.{GraphicsDevice, InputDevice, Dev, graphics_dev, input_dev, VirtDevice}
use libvirt_cim.XmlGen.{each_device}

module _ (streqc : Bytes → Bytes → Bool) where
  abbrev pub port_attrs : Option Bytes → List (Bytes × Bytes) → List (Bytes × Bytes)
  port_attrs none rest = rest
  port_attrs (some port) rest =
      (codes "port", port)
      ∷ (codes "autoport", if streqc port (codes "-1") then codes "yes" else codes "no")
      ∷ rest

  unfoldable pub graphics_vnc_xml : GraphicsDevice → Node
  graphics_vnc_xml dev =
      let type = attr_text dev.type in
      element (codes "graphics")
        ((codes "type", type)
          ∷ (if streqc type (codes "sdl")
              then attr_if (codes "display") dev.port
                  (attr_if (codes "xauth") dev.host (attr_if (codes "fullscreen") dev.keymap []))
              else port_attrs dev.port (
                  attr_if (codes "listen") dev.host (
                    attr_if (codes "passwd") dev.passwd (attr_if (codes "keymap") dev.keymap [])))))
        [] leaf

  -- a serial port or a console is skipped
  abbrev pub one_graphics_xml : Dev → Option Nodes
  one_graphics_xml (graphics_dev dev) =
      if streqc (attr_text dev.type) (codes "vnc") || streqc (attr_text dev.type) (codes "sdl")
      then some (also (graphics_vnc_xml dev) leaf)
      else some leaf
  one_graphics_xml _ = none

  unfoldable pub graphics_xml : List VirtDevice → Option Nodes
  graphics_xml devs = each_device (λ d. one_graphics_xml d.dev) devs

unfoldable pub one_input_xml : InputDevice → Node
one_input_xml dev =
    element (codes "input")
      ((codes "type", attr_text dev.type) ∷ (codes "bus", attr_text dev.bus) ∷ []) [] leaf

abbrev pub input_node : Dev → Option Nodes
input_node (input_dev dev) = some (also (one_input_xml dev) leaf)
input_node _ = none

unfoldable pub input_xml : List VirtDevice → Option Nodes
input_xml devs = each_device (λ d. input_node d.dev) devs
