-- ===== src/Device/Kinds.antt =====
-- src/svpc_types.h: the names of the kinds of character devices and controllers. A name that is not
-- known gives `none`, which the callers treat as the UNKNOWN values.
use libvirt_cim.Prelude.{
  ◌≡◌, refl, Bool, Option, none, some, Bytes, codes, strcmp_eq, if◌then◌else◌,
}
use libvirt_cim.Compare.{caseless}
use libvirt_cim.Device.{
  ControllerType, ide, fdc, scsi, sata, ccid, virtio_serial, pci, usb, ConsoleSource, null, vc,
  stdio, spicevmc, pty, dev, file, pipe, unixsock, udp, tcp,
}

abbrev pub chardev_source_type_id_to_str : ConsoleSource → Bytes
chardev_source_type_id_to_str null = codes "null"
chardev_source_type_id_to_str vc = codes "vc"
chardev_source_type_id_to_str (pty path) = codes "pty"
chardev_source_type_id_to_str (dev path) = codes "dev"
chardev_source_type_id_to_str (file path) = codes "file"
chardev_source_type_id_to_str (pipe path) = codes "pipe"
chardev_source_type_id_to_str stdio = codes "stdio"
chardev_source_type_id_to_str (udp bh bs ch cs) = codes "udp"
chardev_source_type_id_to_str (tcp mode protocol host service) = codes "tcp"
chardev_source_type_id_to_str (unixsock mode path) = codes "unix"
chardev_source_type_id_to_str spicevmc = codes "spicevmc"

abbrev pub controller_protocol_type_id_to_str : ControllerType → Bytes
controller_protocol_type_id_to_str ide = codes "ide"
controller_protocol_type_id_to_str fdc = codes "fdc"
controller_protocol_type_id_to_str scsi = codes "scsi"
controller_protocol_type_id_to_str sata = codes "sata"
controller_protocol_type_id_to_str ccid = codes "ccid"
controller_protocol_type_id_to_str virtio_serial = codes "virtio-serial"
controller_protocol_type_id_to_str pci = codes "pci"
controller_protocol_type_id_to_str usb = codes "usb"

module _ (streqc : Bytes → Bytes → Bool) where
  -- the source type, with the zeroed member of the union that it selects
  unfoldable pub chardev_source_type_StrToID : Bytes → Option ConsoleSource
  chardev_source_type_StrToID type_str =
      if streqc type_str (codes "null")
      then some null
      else if streqc type_str (codes "vc")
      then some vc
      else if streqc type_str (codes "pty")
      then some (pty none)
      else if streqc type_str (codes "dev")
      then some (dev none)
      else if streqc type_str (codes "file")
      then some (file none)
      else if streqc type_str (codes "pipe")
      then some (pipe none)
      else if streqc type_str (codes "stdio")
      then some stdio
      else if streqc type_str (codes "udp")
      then some (udp none none none none)
      else if streqc type_str (codes "tcp")
      then some (tcp none none none none)
      else if streqc type_str (codes "unix")
      then some (unixsock none none)
      else if streqc type_str (codes "spicevmc")
      then some spicevmc
      else none

  unfoldable pub controller_protocol_type_StrToID : Bytes → Option ControllerType
  controller_protocol_type_StrToID type_str =
      if streqc type_str (codes "ide")
      then some ide
      else if streqc type_str (codes "fdc")
      then some fdc
      else if streqc type_str (codes "scsi")
      then some scsi
      else if streqc type_str (codes "sata")
      then some sata
      else if streqc type_str (codes "ccid")
      then some ccid
      else if streqc type_str (codes "virtio-serial")
      then some virtio_serial
      else if streqc type_str (codes "pci")
      then some pci
      else if streqc type_str (codes "usb")
      then some usb
      else none

pub controller-names :
    (t : ControllerType)
    → controller_protocol_type_StrToID caseless (controller_protocol_type_id_to_str t) ≡ some t
unfolding controller_protocol_type_StrToID caseless strcmp_eq
controller-names ide = refl
controller-names fdc = refl
controller-names scsi = refl
controller-names sata = refl
controller-names ccid = refl
controller-names virtio_serial = refl
controller-names pci = refl
controller-names usb = refl
