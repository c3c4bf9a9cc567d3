-- ===== src/DeviceParse/Console.antt =====
-- parse_console_device in libxkutil/device_parsing.c.
use libvirt_cim.Prelude.{Bool, true, Option, none, some, ◌++◌, Bytes, codes, if◌then◌else◌, ◌>>=?◌}
use libvirt_cim.Xml.{Node, node_name, node_children, get_attr_value, each_child}
use libvirt_cim.Device.{
  console, ConsoleSource, pty, dev, file, pipe, unixsock, udp, tcp, ConsoleDevice, console_dev,
}
use libvirt_cim.Device.Kinds.{chardev_source_type_StrToID}
use libvirt_cim.DeviceParse.{Parsed, parsed, shown}

-- the device, and `target_port_ID`
pub record Reading : Type 0 where
  pub cdev : ConsoleDevice
  pub target_port_id : Option Bytes

abbrev with_source : Reading → ConsoleSource → Reading
with_source r s = record r { cdev = record r.cdev { source_dev = s } }

module _ (streq streqc : Bytes → Bytes → Bool) where
  -- the first <target> has to have a port
  abbrev target_child : Bool → Option Bytes → Node → Reading → Option Reading
  target_child true none child r = get_attr_value child (codes "port") >>=? λ port. some (record r {
    cdev = record r.cdev { target_type = get_attr_value child (codes "type") };
    target_port_id = some port;
  })
  target_child _ _ child r = some r

  -- "bind" or "connect", and no other mode
  abbrev udp_source :
      Bytes
      → Option Bytes
      → Option Bytes
      → Option Bytes
      → Option Bytes
      → Option Bytes
      → Option Bytes
      → Option ConsoleSource
  udp_source mode host service bind_host bind_service connect_host connect_service =
      if streqc mode (codes "bind")
      then some (udp host service connect_host connect_service)
      else if streqc mode (codes "connect")
      then some (udp bind_host bind_service host service)
      else none

  -- one <source>, by the source type
  unfoldable pub source_child : Node → ConsoleSource → Option ConsoleSource
  source_child child (pty path) = some (pty (get_attr_value child (codes "path")))
  source_child child (dev path) = some (dev (get_attr_value child (codes "path")))
  source_child child (file path) = some (file (get_attr_value child (codes "path")))
  source_child child (pipe path) = some (pipe (get_attr_value child (codes "path")))
  source_child child (unixsock mode path) =
      some (unixsock (get_attr_value child (codes "mode")) (get_attr_value child (codes "path")))
  source_child child (udp bind_host bind_service connect_host connect_service) =
      get_attr_value child (codes "mode") >>=? λ mode.
      udp_source mode (get_attr_value child (codes "host")) (get_attr_value child (codes "service"))
        bind_host bind_service connect_host connect_service
  source_child child (tcp mode protocol host service) = some (
      tcp (get_attr_value child (codes "mode")) protocol (get_attr_value child (codes "host"))
        (get_attr_value child (codes "service")))
  source_child child s = some s

  -- a <protocol>, of a TCP console only
  abbrev protocol_child : Bool → Node → ConsoleSource → ConsoleSource
  protocol_child true child (tcp mode protocol host service) =
      tcp mode (get_attr_value child (codes "type")) host service
  protocol_child _ child s = s

  abbrev source_step : Node → Reading → Option Reading
  source_step child r =
      if streq (node_name child) (codes "source")
      then (source_child child r.cdev.source_dev >>=? λ s. some (with_source r s))
      else some r

  unfoldable pub console_child : Node → Reading → Option Reading
  console_child child r =
      target_child (streq (node_name child) (codes "target")) r.target_port_id child r >>=? λ r1.
      source_step child r1 >>=? λ r2. some (
        with_source r2
          (protocol_child (streq (node_name child) (codes "protocol")) child r2.cdev.source_dev))

  unfoldable pub parse_console_device : Node → Parsed
  parse_console_device node = parsed (
      get_attr_value node (codes "type") >>=? λ source_type_str.
      chardev_source_type_StrToID streqc source_type_str >>=? λ source_type.
      each_child console_child (node_children node) (record {
        cdev = record { source_dev = source_type; target_type = none };
        target_port_id = none;
      })
      >>=? λ r. some (record {
        type = console;
        dev = console_dev r.cdev;
        id = some (codes "charconsole:" ++ shown r.target_port_id);
      }))
