-- ===== src/DeviceParse/Graphics.antt =====
-- get_attr_value_default, parse_graphics_device and parse_input_device in libxkutil/device_parsing.c.
use libvirt_cim.Prelude.{Bool, Option, none, some, ◌∷◌, ◌++◌, Bytes, codes, if◌then◌else◌, ◌>>=?◌}
use libvirt_cim.Xml.{Node, Nodes, leaf, also, node_name, node_children, get_attr_value}
use libvirt_cim.Device.{graphics, input, GraphicsDevice, graphics_dev, input_dev}
use libvirt_cim.DeviceParse.{Parsed, parsed, shown}

unfoldable pub get_attr_value_default : Node → Bytes → Bytes → Bytes
get_attr_value_default node attrname default_value = elim (get_attr_value node attrname) [
  | none ↦ default_value
  | some v ↦ v
]

abbrev pub vnc_attrs : Node → GraphicsDevice
vnc_attrs node = record {
  type = get_attr_value node (codes "type");
  port = some (get_attr_value_default node (codes "port") (codes "-1"));
  host = some (get_attr_value_default node (codes "listen") (codes "127.0.0.1"));
  keymap = get_attr_value node (codes "keymap");
  passwd = get_attr_value node (codes "passwd");
}

abbrev pub sdl_attrs : Node → GraphicsDevice
sdl_attrs node = record {
  type = get_attr_value node (codes "type");
  port = get_attr_value node (codes "display");
  host = get_attr_value node (codes "xauth");
  keymap = get_attr_value node (codes "fullscreen");
  passwd = none;
}

module _ (streq streqc : Bytes → Bytes → Bool) where
  -- the path of <source> and the port of <target>, of a serial port or a console
  unfoldable pub pty_children : Nodes → GraphicsDevice → GraphicsDevice
  pty_children leaf gdev = gdev
  pty_children (also child rest) gdev = pty_children rest (
      if streq (node_name child) (codes "source")
      then record gdev { host = get_attr_value child (codes "path") }
      else if streq (node_name child) (codes "target")
      then record gdev { port = get_attr_value child (codes "port") }
      else gdev)

  unfoldable pub read_graphics : Bytes → Node → Option GraphicsDevice
  read_graphics type node =
      if streqc type (codes "vnc")
      then some (vnc_attrs node)
      else if streqc type (codes "sdl")
      then some (sdl_attrs node)
      else if streqc type (codes "pty")
      then some (
          pty_children (node_children node) (record {
            type = some (node_name node);
            port = none;
            host = none;
            keymap = none;
            passwd = none;
          }))
      else none

  -- "vnc", or the type and the port
  abbrev pub graphics_id : GraphicsDevice → Bytes
  graphics_id gdev =
      if streqc (shown gdev.type) (codes "vnc")
      then shown gdev.type
      else shown gdev.type ++ (b':' ∷ shown gdev.port)

  unfoldable pub parse_graphics_device : Node → Parsed
  parse_graphics_device node = parsed (
      get_attr_value node (codes "type") >>=? λ type. read_graphics type node >>=? λ gdev.
      some (record { type = graphics; dev = graphics_dev gdev; id = some (graphics_id gdev) }))

unfoldable pub parse_input_device : Node → Parsed
parse_input_device node = parsed (
    get_attr_value node (codes "type") >>=? λ type. get_attr_value node (codes "bus") >>=? λ bus.
    some (record {
      type = input;
      dev = input_dev (record { type = some type; bus = some bus });
      id = some (type ++ (b':' ∷ bus));
    }))
