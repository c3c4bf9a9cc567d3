-- ===== src/DeviceRasd/Samples.antt =====
-- A request for four gigabytes of memory, and one for a cdrom with nothing in it.
use libvirt_cim.Prelude.{
  ◌≡◌, refl, true, false, Bool, ◌+◌, ◌≤◌, length, List, none, some, [], ◌∷◌, Bytes, codes,
  strcmp_eq, if◌then◌else◌, arith,
}
use libvirt_cim.Compare.{caseless, caseless_iff}
use libvirt_cim.Device.{
  all, net, net_dev, no_net, not_set, MemDevice, DiskType, disk_unknown, disk_file, DiskDevice,
  no_disk, disk_dev, empty, VirtDevice,
}
use libvirt_cim.DeviceRasd.{Instance, Service, add_properties, rasd_to_device_address}
use libvirt_cim.DeviceRasd.Memory.{mem_rasd_to_vdev, gigabyte, mem_rasd_to_vdev-kib}
use libvirt_cim.DeviceRasd.Disk.{with_device, cdrom_made, disk_rasd_to_vdev}
use libvirt_cim.Text.Scanf.{span_until}
use libvirt_cim.MiscUtil.{class_base_name, class_prefix_name}
use libvirt_cim.Resources.{
  Domain, Field, f_net, f_disk, f_vcpu, f_mem, f_graphics, f_console, f_input, f_controller, get,
}
use libvirt_cim.Resources.Classify.{classify_resources}
use libvirt_cim.Resources.Fits.{WellFormed}
use libvirt_cim.DeviceRasd.Net.{
  net_rasd_to_vdev, net_rand_mac, typed_net, finished_net, name_from_pool_id,
}
use libvirt_cim.DeviceRasd.Dispatch.{
  rasd_to_vdev, res_type_from_rasd_classname, type_of_base, sysvirt_rasd_to_vdev,
}
use libvirt_cim.DeviceRasd.Answers.Parts.{Readable}
use libvirt_cim.DeviceRasd.Requests.{
  Request, type_of_request, converted, classify_resources-request,
}
use libvirt_cim.DeviceRasd.Shaped.{Shaped, disk_rasd_to_vdev-Shaped}

abbrev four_gigabytes : Instance
four_gigabytes = record {
  str_prop =
      λ name. if strcmp_eq name (codes "AllocationUnits") then some (codes "GIGABYTES") else none;
  class_name = none;
  u32_prop = λ name. none;
  u16_prop = λ name. none;
  u64_prop = λ name. if strcmp_eq name (codes "VirtualQuantity") then some 4 else none;
  bool_prop = λ name. none;
  array_prop = λ name. none;
}

abbrev no_memory : MemDevice
no_memory = record { size = 0; maxsize = 0; dump_core = not_set }

mem_rasd_to_vdev-kib_example :
    mem_rasd_to_vdev caseless four_gigabytes no_memory
    ≡ (true, record { size = 4194304; maxsize = 4194304; dump_core = not_set })
unfolding strcmp_eq
mem_rasd_to_vdev-kib_example =
    mem_rasd_to_vdev-kib caseless caseless_iff four_gigabytes no_memory gigabyte 4 4 refl refl refl
      (omega arith) (omega arith)

abbrev empty_cdrom : Instance
empty_cdrom = record {
  str_prop = λ name. if strcmp_eq name (codes "VirtualDevice") then some (codes "hdc") else none;
  class_name = none;
  u32_prop = λ name. none;
  u16_prop = λ name. if strcmp_eq name (codes "EmulatedType") then some 1 else none;
  u64_prop = λ name. none;
  bool_prop = λ name. none;
  array_prop = λ name.
      if strcmp_eq name (codes "AddressProperties")
      then some (some (codes "bus") ∷ [])
      else if strcmp_eq name (codes "AddressValues")
      then some (some (codes "1") ∷ [])
      else none;
}

abbrev unseen : Bytes → DiskType
unseen path = disk_unknown

abbrev cleared : VirtDevice
cleared = record { type = all; dev = empty; id = none }

abbrev cdrom : DiskDevice
cdrom = record no_disk {
  device = some (codes "cdrom");
  source = some [];
  virtual_dev = some (codes "hdc");
  disk_type = disk_file;
  address = (codes "bus", codes "1") ∷ [];
}

abbrev given : VirtDevice
given = record { type = all; dev = disk_dev cdrom; id = some (codes "hdc") }

made : disk_rasd_to_vdev strcmp_eq unseen empty_cdrom cleared ≡ some (true, given)
unfolding disk_rasd_to_vdev with_device cdrom_made rasd_to_device_address add_properties strcmp_eq
made = refl

disk_rasd_to_vdev-Shaped_example :
    (d : DiskDevice) × (target : Bytes) × (empty_cdrom.str_prop (codes "VirtualDevice")
      ≡ some target)
    × Shaped target d
    × (given ≡ record { type = all; dev = disk_dev d; id = some target })
disk_rasd_to_vdev-Shaped_example =
    disk_rasd_to_vdev-Shaped strcmp_eq unseen empty_cdrom cleared given made

abbrev kvm_host : Service
kvm_host = record {
  streq = strcmp_eq;
  streqc = caseless;
  starts_with = λ s t. false;
  file_type = λ path. disk_file;
  random = some 0x123456;
  default_network = some (codes "NetworkPool/default");
}

-- an interface in the default network, and the cdrom
abbrev asked_net : Instance
asked_net = record empty_cdrom {
  class_name = some (codes "KVM_NetResourceAllocationSettingData");
  str_prop = λ name. if strcmp_eq name (codes "NetworkType") then some (codes "network") else none;
}

abbrev asked_cdrom : Instance
asked_cdrom = record empty_cdrom {
  class_name = some (codes "KVM_DiskResourceAllocationSettingData");
}

abbrev no_devices : Domain
no_devices = record {
  dev_net = [];
  dev_disk = [];
  dev_vcpu = [];
  dev_mem = [];
  dev_graphics = [];
  dev_console = [];
  dev_input = [];
  dev_controller = [];
}

Readable-net : Readable asked_net
unfolding strcmp_eq
Readable-net = tt

Readable-cdrom : Readable asked_cdrom
unfolding strcmp_eq
Readable-cdrom = tt

no_devices-WellFormed : WellFormed caseless caseless_iff no_devices
unfolding get
no_devices-WellFormed f_net = (tt, tt)
no_devices-WellFormed f_disk = (tt, tt)
no_devices-WellFormed f_vcpu = (tt, tt)
no_devices-WellFormed f_mem = (tt, tt)
no_devices-WellFormed f_graphics = (tt, tt)
no_devices-WellFormed f_console = (tt, tt)
no_devices-WellFormed f_input = (tt, tt)
no_devices-WellFormed f_controller = (tt, tt)

abbrev requests : List Request
requests = (asked_net, Readable-net) ∷ (asked_cdrom, Readable-cdrom) ∷ []

classify_resources-request_example :
    (ok : Bool) × (d' : Domain) × (classify_resources caseless Request
        (type_of_request kvm_host false)
        (converted kvm_host false)
        requests
        no_devices
      ≡ some (ok, d'))
    × ((f : Field) → length (get d' f) ≤ length (get no_devices f) + length requests)
    × (ok ≡ true → WellFormed caseless caseless_iff d')
classify_resources-request_example =
    classify_resources-request kvm_host false caseless_iff requests no_devices no_devices-WellFormed

-- the MAC address of an interface that asks for none
asked_net_made :
    rasd_to_vdev kvm_host false asked_net cleared
    ≡ some (
      true,
      record {
        type = net;
        dev = net_dev (record no_net {
          type = some (codes "network");
          mac = some (codes "00:1A:4A:56:34:12");
          source = some (codes "default");
          address = (codes "bus", codes "1") ∷ [];
        });
        id = some (codes "00:1A:4A:56:34:12");
      },
    )
unfolding rasd_to_vdev res_type_from_rasd_classname type_of_base sysvirt_rasd_to_vdev
    net_rasd_to_vdev net_rand_mac typed_net finished_net name_from_pool_id rasd_to_device_address
    add_properties strcmp_eq caseless class_base_name class_prefix_name span_until
asked_net_made = refl
