-- ===== src/Written/Console.antt =====
-- Consoles that console_xml writes and parse_console_device reads again: the target has no port.
use libvirt_cim.Prelude.{
  ◌≡◌, refl, ap, ◌∙◌, Bool, true, Option, none, some, Bytes, codes, strcmp_eq, ◌↔◌,
}
use libvirt_cim.Compare.{streq-strcmp_eq, streqc-caseless, caseless, lower}
use libvirt_cim.Xml.{get_prop, get_attr_value, each_child, attr_text}
use libvirt_cim.Device.{
  console, ConsoleSource, null, vc, stdio, spicevmc, pty, dev, file, pipe, unixsock, udp, tcp,
  ConsoleDevice, console_dev,
}
use libvirt_cim.Device.Kinds.{chardev_source_type_StrToID}
use libvirt_cim.DeviceParse.{Parsed, refused, one}
use libvirt_cim.DeviceParse.Console.{source_child, console_child, parse_console_device}
use libvirt_cim.XmlGen.Console.{console_source_xml, one_console_xml}

-- a string that is NULL reads as empty where the attribute is written all the same
abbrev pub source_as_read : ConsoleSource → ConsoleSource
source_as_read (dev path) = dev (some (attr_text path))
source_as_read (file path) = file (some (attr_text path))
source_as_read (pipe path) = pipe (some (attr_text path))
source_as_read (unixsock mode path) = unixsock (some (attr_text mode)) (some (attr_text path))
source_as_read (udp bind_host bind_service connect_host connect_service) =
    udp (some (attr_text bind_host)) bind_service (some (attr_text connect_host)) connect_service
source_as_read (tcp mode protocol host service) =
    tcp (some (attr_text mode)) protocol (some (attr_text host)) service
source_as_read s = s

-- refused with a target, and with none the source and an id that ends with "(null)"
abbrev pub console_as_read : ConsoleDevice → Parsed
console_as_read c = elim c.target_type [
  | some target ↦ refused
  | none ↦ one (record {
    type = console;
    dev = console_dev (record { source_dev = source_as_read c.source_dev; target_type = none });
    id = some (codes "charconsole:(null)");
  })
]

reads_console :
    (s : ConsoleSource) (t : Option Bytes)
    → let c : ConsoleDevice = record { source_dev = s; target_type = t } in
      parse_console_device strcmp_eq caseless (one_console_xml c) ≡ console_as_read c
unfolding parse_console_device one_console_xml console_child source_child console_source_xml
    chardev_source_type_StrToID each_child get_attr_value get_prop strcmp_eq caseless
reads_console null none = refl
reads_console null (some t) = refl
reads_console vc none = refl
reads_console vc (some t) = refl
reads_console stdio none = refl
reads_console stdio (some t) = refl
reads_console spicevmc none = refl
reads_console spicevmc (some t) = refl
reads_console (pty none) none = refl
reads_console (pty none) (some t) = refl
reads_console (pty (some p)) none = refl
reads_console (pty (some p)) (some t) = refl
reads_console (dev p) none = refl
reads_console (dev p) (some t) = refl
reads_console (file p) none = refl
reads_console (file p) (some t) = refl
reads_console (pipe p) none = refl
reads_console (pipe p) (some t) = refl
reads_console (unixsock m p) none = refl
reads_console (unixsock m p) (some t) = refl
reads_console (udp bh none ch none) none = refl
reads_console (udp bh none ch none) (some t) = refl
reads_console (udp bh none ch (some d)) none = refl
reads_console (udp bh none ch (some d)) (some t) = refl
reads_console (udp bh (some b) ch none) none = refl
reads_console (udp bh (some b) ch none) (some t) = refl
reads_console (udp bh (some b) ch (some d)) none = refl
reads_console (udp bh (some b) ch (some d)) (some t) = refl
reads_console (tcp m none h none) none = refl
reads_console (tcp m none h none) (some t) = refl
reads_console (tcp m none h (some s)) none = refl
reads_console (tcp m none h (some s)) (some t) = refl
reads_console (tcp m (some p) h none) none = refl
reads_console (tcp m (some p) h none) (some t) = refl
reads_console (tcp m (some p) h (some s)) none = refl
reads_console (tcp m (some p) h (some s)) (some t) = refl

-- Where STREQ compares strings and STREQC compares them but for the case of letters, a console that is
-- written with a target is not read again, since the target has no port. One with no target is, of
-- whatever source, with the id "charconsole:(null)"; a string that is NULL then reads as empty where its
-- attribute is not left out.
pub parse_console_device-console_xml :
    (streq streqc : Bytes → Bytes → Bool)
    → ((s t : Bytes) → (streq s t ≡ true) ↔ (s ≡ t))
    → ((s t : Bytes) → (streqc s t ≡ true) ↔ (lower s ≡ lower t))
    → (c : ConsoleDevice)
    → parse_console_device streq streqc (one_console_xml c) ≡ console_as_read c
parse_console_device-console_xml streq streqc streq_iff streqc_iff c =
    ap (λ f. parse_console_device f streqc (one_console_xml c)) (streq-strcmp_eq streq streq_iff)
    ∙ ap (λ g. parse_console_device strcmp_eq g (one_console_xml c))
        (streqc-caseless streqc streqc_iff)
    ∙ reads_console c.source_dev c.target_type
