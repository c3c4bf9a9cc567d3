-- ===== src/DeviceRasd/Graphics.antt =====
-- graphics_rasd_to_vdev and input_rasd_to_vdev: into the device that is there.
use libvirt_cim.Prelude.{
  Bool, true, false, ◌||◌, Option, none, some, ◌∷◌, ◌++◌, Bytes, codes, if◌then◌else◌,
}
use libvirt_cim.ConsoleUrl.{parse_console_address, parse_sdl_address, parse_ip_address}
use libvirt_cim.Device.{GraphicsDevice, graphics_dev, InputDevice, input_dev, Dev, VirtDevice}
use libvirt_cim.DeviceRasd.{Instance, Service, or_else}

abbrev pub graphics_in : Dev → GraphicsDevice
graphics_in (graphics_dev g) = g
graphics_in _ = record { type = none; port = none; host = none; keymap = none; passwd = none }

abbrev pub input_in : Dev → InputDevice
input_in (input_dev i) = i
input_in _ = record { type = none; bus = none }

abbrev pub shown_as : VirtDevice → GraphicsDevice → VirtDevice
shown_as dev g = record dev { dev = graphics_dev g }

-- "%s" of a string that is NULL
abbrev pub printed : Option Bytes → Bytes
printed none = codes "(null)"
printed (some s) = s

module _ (sv : Service) (inst : Instance) where
  open sv use {streqc}

  -- "vnc" and "sdl" are their ids; another id has the port
  abbrev pub named_graphics : VirtDevice → Bytes → GraphicsDevice → Bool × VirtDevice
  named_graphics dev type g = (
    true,
    record dev {
      dev = graphics_dev g;
      id = some (
          if streqc type (codes "vnc") || streqc type (codes "sdl")
          then type
          else type ++ (b':' ∷ printed g.port));
    },
  )

  abbrev pub default_vnc : Bytes
  default_vnc =
      if or_else false (inst.bool_prop (codes "IsIPV6Only"))
      then codes "[::1]:-1"
      else codes "127.0.0.1:-1"

  -- an address without a port is kept and refused
  abbrev pub vnc_made :
      VirtDevice → Bytes → GraphicsDevice → Option (Bytes × Option Bytes) → Bool × VirtDevice
  vnc_made dev type g none = (false, shown_as dev g)
  vnc_made dev type g (some (host, none)) = (false, shown_as dev (record g { host = some host }))
  vnc_made dev type g (some (host, some port)) = named_graphics dev type (record g {
    host = some host;
    port = some port;
    keymap = some (or_else (codes "en-us") (inst.str_prop (codes "KeyMap")));
    passwd = inst.str_prop (codes "Password");
  })

  abbrev pub serial_made :
      VirtDevice → Bytes → GraphicsDevice → Option (Bytes × Bytes) → Bool × VirtDevice
  serial_made dev type g none = (false, shown_as dev g)
  serial_made dev type g (some (host, port)) =
      named_graphics dev type (record g { host = some host; port = some port })

  abbrev pub fullscreen_of : Option Bool → Option Bytes
  fullscreen_of none = none
  fullscreen_of (some true) = some (codes "yes")
  fullscreen_of (some false) = some (codes "no")

  -- the display, the xauth and the fullscreen, in the place of the port, the host and the keymap
  abbrev pub sdl_made :
      VirtDevice → Bytes → GraphicsDevice → Option (Option Bytes × Option Bytes) → Bool × VirtDevice
  sdl_made dev type g none = (false, shown_as dev g)
  sdl_made dev type g (some (display, xauth)) = named_graphics dev type (record g {
    port = display;
    host = xauth;
    keymap = fullscreen_of (inst.bool_prop (codes "IsIPV6Only"));
  })

  abbrev pub sdl_address : Option Bytes → Option (Option Bytes × Option Bytes)
  sdl_address none = some (none, none)
  sdl_address (some val) = parse_sdl_address streqc val

  unfoldable pub typed_graphics : VirtDevice → Bytes → GraphicsDevice → Bool × VirtDevice
  typed_graphics dev type g =
      if streqc type (codes "vnc")
      then vnc_made dev type g
          (parse_ip_address (or_else default_vnc (inst.str_prop (codes "Address"))))
      else if streqc type (codes "console") || streqc type (codes "serial")
      then serial_made dev type g
          (parse_console_address (or_else (codes "/dev/pts/0:0") (inst.str_prop (codes "Address"))))
      else if streqc type (codes "sdl")
      then sdl_made dev type g (sdl_address (inst.str_prop (codes "Address")))
      else (false, shown_as dev g)

  abbrev pub graphics_made : VirtDevice → Option Bytes → Bool × VirtDevice
  graphics_made dev none = (false, dev)
  graphics_made dev (some type) =
      typed_graphics dev type (record (graphics_in dev.dev) { type = some type })

  unfoldable pub graphics_rasd_to_vdev : VirtDevice → Bool × VirtDevice
  graphics_rasd_to_vdev dev = graphics_made dev (inst.str_prop (codes "ResourceSubType"))

  -- the bus that is asked for, or that of a mouse or a tablet
  abbrev pub bus_of : Bytes → Option Bytes → Option Bytes → Option Bytes
  bus_of type old (some bus) = some bus
  bus_of type old none =
      if streqc type (codes "mouse")
      then some (codes "ps2")
      else if streqc type (codes "tablet")
      then some (codes "usb")
      else old

  -- there is never a message
  unfoldable pub input_rasd_to_vdev : VirtDevice → Bool × VirtDevice
  input_rasd_to_vdev dev = elim (inst.str_prop (codes "ResourceSubType")) [
    | none ↦ (true, dev)
    | some type ↦ (
      true,
      record dev {
        dev = input_dev (record {
          type = some type;
          bus = bus_of type (input_in dev.dev).bus (inst.str_prop (codes "BusType"));
        });
      },
    )
  ]
