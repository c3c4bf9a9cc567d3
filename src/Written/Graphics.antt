-- ===== src/Written/Graphics.antt =====
-- Graphics that graphics_xml writes and do_parse with parse_graphics_device reads again.
use libvirt_cim.Prelude.{
  ◌≡◌, refl, ap, ◌∙◌, sym, subst, Bool, true, Option, none, some, List, [], ◌∷◌, ◌++◌, Bytes, codes,
  strcmp_eq, ◌↔◌,
}
use libvirt_cim.Compare.{streq-strcmp_eq, streqc-caseless, caseless, lower}
use libvirt_cim.Xml.{Nodes, leaf, also, get_prop, get_attr_value}
use libvirt_cim.Device.{graphics, GraphicsDevice, graphics_dev, Dev, VirtDevice}
use libvirt_cim.DeviceParse.{one, do_parse, shown}
use libvirt_cim.DeviceParse.Graphics.{
  get_attr_value_default, read_graphics, graphics_id, parse_graphics_device,
}
use libvirt_cim.XmlGen.Graphics.{graphics_vnc_xml, one_graphics_xml, graphics_xml}
use libvirt_cim.Written.{kept, AllReadBack, written_list}

-- A VNC display with a port and a host to listen on, or an SDL display.
pub data Display : Type 0 where
  -- port, host, keymap, passwd
  vnc : Bytes → Bytes → Option Bytes → Option Bytes → Display
  -- display, xauth, fullscreen
  sdl : Option Bytes → Option Bytes → Option Bytes → Display

abbrev pub display_device : Display → GraphicsDevice
display_device (vnc port host keymap passwd) = record {
  type = some (codes "vnc");
  port = some port;
  host = some host;
  keymap = keymap;
  passwd = passwd;
}
display_device (sdl display xauth fullscreen) = record {
  type = some (codes "sdl");
  port = display;
  host = xauth;
  keymap = fullscreen;
  passwd = none;
}

abbrev pub display_id : Display → Bytes
display_id (vnc port host keymap passwd) = codes "vnc"
display_id (sdl display xauth fullscreen) = codes "sdl:" ++ shown display

abbrev pub display_read : Display → VirtDevice
display_read d = record {
  type = graphics;
  dev = graphics_dev (display_device d);
  id = some (display_id d);
}

reads_display :
    (d : Display)
    → parse_graphics_device strcmp_eq caseless (graphics_vnc_xml caseless (display_device d))
      ≡ one (display_read d)
unfolding parse_graphics_device read_graphics graphics_vnc_xml get_attr_value get_prop strcmp_eq
    caseless get_attr_value_default
reads_display (vnc port host none none) = refl
reads_display (vnc port host none (some p)) = refl
reads_display (vnc port host (some k) none) = refl
reads_display (vnc port host (some k) (some p)) = refl
reads_display (sdl none none none) = refl
reads_display (sdl none none (some f)) = refl
reads_display (sdl none (some x) none) = refl
reads_display (sdl none (some x) (some f)) = refl
reads_display (sdl (some d) none none) = refl
reads_display (sdl (some d) none (some f)) = refl
reads_display (sdl (some d) (some x) none) = refl
reads_display (sdl (some d) (some x) (some f)) = refl

abbrev pub dev_as_read : Dev → VirtDevice → VirtDevice
dev_as_read (graphics_dev g) v = record {
  type = graphics;
  dev = graphics_dev g;
  id = some (graphics_id strcmp_eq caseless g);
}
dev_as_read _ v = v

abbrev pub device_as_read : VirtDevice → VirtDevice
device_as_read v = dev_as_read v.dev v

unfoldable pub DisplaysWritten : List VirtDevice → Type 0
DisplaysWritten [] = Unit
DisplaysWritten (v ∷ devs) =
    ((d : Display) × (v.dev ≡ graphics_dev (display_device d))) × DisplaysWritten devs

display_id_lem : (d : Display) → graphics_id strcmp_eq caseless (display_device d) ≡ display_id d
unfolding caseless strcmp_eq
display_id_lem (vnc port host keymap passwd) = refl
display_id_lem (sdl display xauth fullscreen) = refl

written_display :
    (d : Display)
    → one_graphics_xml caseless (graphics_dev (display_device d))
      ≡ some (also (graphics_vnc_xml caseless (display_device d)) leaf)
unfolding caseless strcmp_eq
written_display (vnc port host keymap passwd) = refl
written_display (sdl display xauth fullscreen) = refl

reads_devices :
    (devs : List VirtDevice)
    → DisplaysWritten devs
    → AllReadBack
        (λ x. one_graphics_xml caseless x.dev)
        (parse_graphics_device strcmp_eq caseless)
        device_as_read
        devs
unfolding DisplaysWritten AllReadBack
reads_devices [] w = tt
reads_devices (v ∷ devs) ((d, e), w) = (
  (
    graphics_vnc_xml caseless (display_device d),
    ap (one_graphics_xml caseless) e ∙ written_display d,
    reads_display d
        ∙ ap
            (λ i.
              one (record { type = graphics; dev = graphics_dev (display_device d); id = some i }))
            (sym (display_id_lem d))
        ∙ ap (λ x. one (dev_as_read x v)) (sym e),
  ),
  reads_devices devs w,
)

-- Where STREQ compares strings and STREQC compares them but for the case of letters, the displays of a
-- domain, VNC with a port and a host or SDL, are written and read again as the displays that were not
-- deleted, in order and unchanged, each with the id that its type and its port or display give.
pub do_parse-graphics_xml :
    (streq streqc : Bytes → Bytes → Bool)
    → ((s t : Bytes) → (streq s t ≡ true) ↔ (s ≡ t))
    → ((s t : Bytes) → (streqc s t ≡ true) ↔ (lower s ≡ lower t))
    → (devs : List VirtDevice) → DisplaysWritten devs
    → (nodes : Nodes) × (graphics_xml streqc devs ≡ some nodes)
      × (do_parse (parse_graphics_device streq streqc) nodes ≡ some (kept device_as_read devs))
unfolding graphics_xml
do_parse-graphics_xml streq streqc streq_iff streqc_iff devs w =
    subst
      (λ g.
        (nodes : Nodes) × (graphics_xml g devs ≡ some nodes)
        × (do_parse (parse_graphics_device streq g) nodes ≡ some (kept device_as_read devs)))
      (sym (streqc-caseless streqc streqc_iff))
      (subst
        (λ f.
          (nodes : Nodes) × (graphics_xml caseless devs ≡ some nodes)
          × (do_parse (parse_graphics_device f caseless) nodes ≡ some (kept device_as_read devs)))
        (sym (streq-strcmp_eq streq streq_iff))
        (written_list (λ x. one_graphics_xml caseless x.dev)
          (parse_graphics_device strcmp_eq caseless) device_as_read devs (reads_devices devs w)))
