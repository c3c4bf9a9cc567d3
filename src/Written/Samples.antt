-- ===== src/Written/Samples.antt =====
-- A disk, a cdrom with nothing in it, an interface, a controller and a console.
use libvirt_cim.Prelude.{
  ◌≡◌, refl, true, false, none, some, List, [], ◌∷◌, codes, strcmp_eq, strcmp_eq_iff, arith,
}
use libvirt_cim.Compare.{caseless, caseless_iff}
use libvirt_cim.Xml.{Node, Nodes}
use libvirt_cim.Device.{
  unknown, disk, net, controller, disk_phy, disk_file, DiskDevice, no_disk, disk_dev, NetDevice,
  no_net, net_dev, ControllerDevice, scsi, controller_dev, pty, ConsoleDevice, VirtDevice,
}
use libvirt_cim.DeviceParse.{one, do_parse}
use libvirt_cim.DeviceParse.Disk.{parse_disk_device}
use libvirt_cim.DeviceParse.Net.{parse_net_device}
use libvirt_cim.DeviceParse.Controller.{parse_controller_device}
use libvirt_cim.DeviceParse.Console.{parse_console_device}
use libvirt_cim.XmlGen.Disk.{disk_xml}
use libvirt_cim.XmlGen.Net.{net_xml}
use libvirt_cim.XmlGen.Controller.{controller_xml}
use libvirt_cim.XmlGen.Console.{one_console_xml}
use libvirt_cim.XmlGen.Single.{Running, attach_device, detach_device}
use libvirt_cim.Written
use libvirt_cim.Written.{kept}
use libvirt_cim.Written.Disk
use libvirt_cim.Written.Disk.{do_parse-disk_xml, DisksWritten, DiskWritten}
use libvirt_cim.Written.Net
use libvirt_cim.Written.Net.{do_parse-net_xml, NetsWritten, port}
use libvirt_cim.Written.Controller
use libvirt_cim.Written.Controller.{do_parse-controller_xml, ControllersWritten}
use libvirt_cim.Written.Console.{parse_console_device-console_xml, console_as_read}
use libvirt_cim.Written.Attached.{attach_device-disk}

abbrev volume : DiskDevice
volume = record no_disk {
  type = some (codes "block");
  device = some (codes "disk");
  driver = some (codes "qemu");
  cache = some (codes "none");
  source = some (codes "/dev/sdb");
  virtual_dev = some (codes "vda");
  disk_type = disk_phy;
  shareable = true;
  address = (codes "type", codes "pci") ∷ (codes "slot", codes "0x05") ∷ [];
}

abbrev cdrom : DiskDevice
cdrom = record no_disk {
  type = some (codes "file");
  device = some (codes "cdrom");
  source = some [];
  virtual_dev = some (codes "hdc");
  disk_type = disk_file;
  readonly = true;
}

abbrev volume_device : VirtDevice
volume_device = record { type = disk; dev = disk_dev volume; id = some (codes "vda") }

-- the volume, a deleted copy of it, and the cdrom
abbrev disks : List VirtDevice
disks =
    volume_device
    ∷ record volume_device { type = unknown }
    ∷ record { type = disk; dev = disk_dev cdrom; id = some (codes "hdc") }
    ∷ []

volume_written : DiskWritten volume
unfolding strcmp_eq
volume_written =
    (codes "disk", codes "/dev/sdb", codes "vda", refl, refl, refl, tt, (refl, (refl, tt)), refl)

cdrom_written : DiskWritten cdrom
cdrom_written = (codes "cdrom", [], codes "hdc", refl, refl, refl, tt, tt, tt)

do_parse-disk_xml_example :
    (nodes : Nodes) × (disk_xml strcmp_eq disks ≡ some nodes)
    × (do_parse (parse_disk_device strcmp_eq) nodes ≡ some (kept Written.Disk.device_as_read disks))
unfolding DisksWritten strcmp_eq
do_parse-disk_xml_example = do_parse-disk_xml strcmp_eq strcmp_eq_iff disks (
  (volume, refl, volume_written),
  ((volume, refl, volume_written), ((cdrom, refl, cdrom_written), tt)),
)

-- the disks that are left, and in which order
disks-kept :
    kept Written.Disk.device_as_read disks
    ≡ volume_device ∷ record { type = disk; dev = disk_dev cdrom; id = some (codes "hdc") } ∷ []
unfolding kept
disks-kept = refl

attach_device-disk_example :
    let dom : Running = record {
      attach = λ n. true;
      detach = λ n. false;
      set_memory = λ n. true;
      set_max_memory = λ n. true;
      set_cpu_shares = λ n. true;
      set_vcpus = λ n. true;
    } in
    (n : Node) × (attach_device strcmp_eq caseless dom volume_device ≡ true)
    × (detach_device strcmp_eq caseless dom volume_device ≡ false)
    × (parse_disk_device strcmp_eq n ≡ one volume_device)
attach_device-disk_example =
    attach_device-disk strcmp_eq caseless strcmp_eq_iff _ volume_device volume (codes "vda") refl
      refl refl volume_written

abbrev nic : NetDevice
nic = record no_net {
  type = some (codes "direct");
  mac = some (codes "00:16:3e:5d:aa:a8");
  source = some (codes "eth0");
  net_mode = some (codes "vepa");
  reservation = 1000;
  vsi = record {
    vsi_type = some (codes "802.1Qbg");
    manager_id = some (codes "11");
    type_id = some (codes "1193047");
    type_id_version = some (codes "2");
    instance_id = none;
    filter_ref = none;
    profile_id = none;
  };
}

abbrev nics : List VirtDevice
nics = record { type = net; dev = net_dev nic; id = nic.mac } ∷ []

abbrev nic_source : Written.Net.Source
nic_source =
    port (codes "eth0") (codes "vepa") (codes "802.1Qbg") (codes "11") (codes "1193047") (codes "2")
      none

do_parse-net_xml_example :
    (nodes : Nodes) × (net_xml strcmp_eq false nics ≡ some nodes)
    × (do_parse (parse_net_device strcmp_eq) nodes ≡ some (kept Written.Net.device_as_read nics))
unfolding NetsWritten strcmp_eq
do_parse-net_xml_example = do_parse-net_xml strcmp_eq strcmp_eq_iff false nics (
  (
    nic,
    refl,
    (nic_source, codes "00:16:3e:5d:aa:a8", refl, refl, refl, refl, omega arith, omega arith, tt),
  ),
  tt,
)

abbrev hba : ControllerDevice
hba = record {
  type = some scsi;
  index = 0;
  model = some (codes "virtio-scsi");
  ports = none;
  vectors = none;
  queues = some (codes "4");
  address = [];
}

abbrev controllers : List VirtDevice
controllers = record { type = controller; dev = controller_dev hba; id = none } ∷ []

do_parse-controller_xml_example :
    (nodes : Nodes) × (controller_xml controllers ≡ some nodes)
    × (do_parse (parse_controller_device strcmp_eq caseless) nodes
        ≡ some (kept Written.Controller.device_as_read controllers))
unfolding ControllersWritten
do_parse-controller_xml_example =
    do_parse-controller_xml strcmp_eq caseless strcmp_eq_iff caseless_iff controllers
      ((hba, refl, (scsi, refl, omega arith, tt)), tt)

abbrev terminal : ConsoleDevice
terminal = record {
  source_dev = pty (some (codes "/dev/pts/2"));
  target_type = some (codes "virtio");
}

parse_console_device-console_xml_example :
    parse_console_device strcmp_eq caseless (one_console_xml terminal) ≡ console_as_read terminal
parse_console_device-console_xml_example =
    parse_console_device-console_xml strcmp_eq caseless strcmp_eq_iff caseless_iff terminal
