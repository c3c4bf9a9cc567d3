-- ===== src/Resources/Samples.antt =====
-- A domain with a disk, a request that adds an interface, and libvirt's answers.
use libvirt_cim.Prelude.{
  ℕ, ◌≡◌, ◌≢◌, refl, Bool, true, false, Option, some, List, [], ◌∷◌, codes, strcmp_eq,
}
use libvirt_cim.Cmpi.{rc_ok, rc_err_failed}
use libvirt_cim.Compare.{caseless}
use libvirt_cim.Xml.{Nodes}
use libvirt_cim.Device.{ResType, unknown, net, disk, no_disk, disk_dev, no_net, net_dev, VirtDevice}
use libvirt_cim.XmlGen.{each_device}
use libvirt_cim.XmlGen.Single.{Running, change_device}
use libvirt_cim.Resources.{Domain, f_disk, get, set, find_list}
use libvirt_cim.Resources.Classify.{
  add_loop, add_device_nodup, classify_one, classify_loop, classify_resources,
}
use libvirt_cim.Resources.Change.{
  Target, resource_add, resource_del, resource_mod, change_first, resource_dynamic,
}
use libvirt_cim.Resources.Added.{Recorded, resource_add-Recorded}
use libvirt_cim.Resources.Modified.{resource_mod-running}
use libvirt_cim.Resources.Deleted.{without, resource_del-without}

abbrev vda : VirtDevice
vda = record {
  type = disk;
  dev = disk_dev (record no_disk { virtual_dev = some (codes "vda") });
  id = some (codes "vda");
}

abbrev nic : VirtDevice
nic = record {
  type = net;
  dev = net_dev (record no_net { mac = some (codes "00:16:3e:00:00:01") });
  id = some (codes "00:16:3e:00:00:01");
}

abbrev guest : Domain
guest = record {
  dev_net = [];
  dev_disk = vda ∷ [];
  dev_vcpu = [];
  dev_mem = [];
  dev_graphics = [];
  dev_console = [];
  dev_input = [];
  dev_controller = [];
}

-- every resource is the interface
abbrev convert : ℕ → VirtDevice → Bool × VirtDevice
convert inst dev = (true, nic)

abbrev kind : ℕ → Option ResType
kind inst = some net

abbrev with_nic : Domain
with_nic = record guest { dev_net = nic ∷ [] }

-- the second interface takes the place of the first, which has its id
classified : classify_resources caseless ℕ kind convert (0 ∷ 1 ∷ []) guest ≡ some (true, with_nic)
unfolding classify_resources classify_loop classify_one add_device_nodup add_loop get set caseless
    strcmp_eq
classified = refl

abbrev calls : Running
calls = record {
  attach = λ n. true;
  detach = λ n. true;
  set_memory = λ n. true;
  set_max_memory = λ n. true;
  set_cpu_shares = λ n. true;
  set_vcpus = λ n. true;
}

abbrev running_target : Target
running_target = record {
  status = rc_ok;
  connected = true;
  found = true;
  online = true;
  dom = calls;
}

abbrev offline_target : Target
offline_target = record running_target { online = false }

resource_add-Recorded_example :
    Recorded strcmp_eq caseless running_target refl refl refl ℕ convert guest 0 net
      (resource_add strcmp_eq caseless ℕ convert running_target guest 0 net)
resource_add-Recorded_example =
    resource_add-Recorded strcmp_eq caseless running_target refl refl refl ℕ convert guest 0 net

abbrev without_vda : Domain
without_vda = record guest { dev_disk = record vda { type = unknown } ∷ [] }

deleted :
    resource_del strcmp_eq caseless offline_target guest disk (some (codes "vda"))
    ≡ some (rc_ok, without_vda)
unfolding resource_del find_list get set change_first resource_dynamic strcmp_eq
deleted = refl

resource_del-without_example :
    ((write : VirtDevice → Option Nodes)
      → each_device write (get without_vda f_disk)
        ≡ each_device write (without strcmp_eq caseless (codes "vda") (get guest f_disk)))
    × ((m : List VirtDevice) → set without_vda f_disk m ≡ set guest f_disk m)
resource_del-without_example =
    resource_del-without strcmp_eq caseless offline_target disk (codes "vda") guest without_vda
      f_disk (unfold find_list in refl) deleted

modified :
    resource_mod strcmp_eq caseless ℕ convert running_target with_nic 0 net
      (some (codes "00:16:3e:00:00:01"))
    ≡ some (rc_err_failed, with_nic)
unfolding resource_mod find_list get set change_first resource_dynamic change_device strcmp_eq
modified = refl

resource_mod-running_example : rc_err_failed ≢ rc_ok
resource_mod-running_example =
    resource_mod-running strcmp_eq caseless running_target refl refl refl ℕ convert with_nic
      with_nic 0 net (some (codes "00:16:3e:00:00:01")) rc_err_failed tt (λ v e. refl) modified
