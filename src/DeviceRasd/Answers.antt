-- ===== src/DeviceRasd/Answers.antt =====
-- rasd_to_vdev faults only on a null value of an address.
pub mod Parts
use libvirt_cim.Prelude.{
  ◌≡◌, refl, sym, subst, Bool, true, false, ◌||◌, ◌&&◌, ◌==◌, ℕ, Option, none, some, List, [], ◌∷◌,
  ◌++◌, Bytes, codes, ◌>>=?◌, Bool-cases, inl, inr,
}
use libvirt_cim.MiscUtil.{class_prefix_name, class_base_name}
use libvirt_cim.MiscUtil.Names.{prefix_of_base}
use libvirt_cim.Device.{
  ResType, mem, net, disk, console, controller, Address, DiskDevice, no_disk, NetDevice, no_net,
  ControllerDevice, VirtDevice,
}
use libvirt_cim.Resources.Distinct.{Given}
use libvirt_cim.DeviceRasd.{
  Instance, Service, Made, or_else, count, add_properties, from_arrays, rasd_to_device_address,
}
use libvirt_cim.DeviceRasd.Disk.{
  is_unknown, with_device, addressed, with_properties, finished, started_disk, targeted,
  disk_rasd_to_vdev,
}
use libvirt_cim.DeviceRasd.Net.{
  net_properties, addressed_net, finished_net, with_source, direct_port, asked_vsi, in_network,
  from_pool, typed_net, mac_with, net_rand_mac, with_mac, asked_mac, net_of_class, net_rasd_to_vdev,
  name_from_pool_id,
}
use libvirt_cim.DeviceRasd.Controller.{
  addressed_controller, controller_made, controller_name, controller_properties, index_of,
  controller_rasd_to_vdev, controller_in,
}
use libvirt_cim.ConsoleUrl.Rasd.{console_rasd_to_vdev}
use libvirt_cim.Device.{ConsoleDevice}
use libvirt_cim.DeviceRasd.Dispatch.{
  console_made, console_of, with_type, type_of_base, res_type_from_rasd_classname,
  sysvirt_rasd_to_vdev, container_rasd_to_vdev, by_platform, rasd_to_vdev,
}
use libvirt_cim.DeviceRasd.Answers.Parts.{
  Readable, disk_given, net_given, controller_given, console_given,
}

module _ (inst : Instance) (readable : Readable inst) where
  module _ (sv : Service) where
    -- a class with a prefix
    abbrev Prefixed : Type 0
    Prefixed = (cn : Bytes) × (inst.class_name ≡ some cn) × Given (class_prefix_name cn)

    net_answers : (dev : VirtDevice) → Prefixed → Given (net_rasd_to_vdev sv inst dev)
    unfolding net_rasd_to_vdev
    net_answers dev (cn, e, g) =
        subst (λ o. Given (net_of_class sv inst dev o)) (sym e)
          (net_given inst readable sv dev cn g)

    sysvirt_given :
        (dev : VirtDevice) (t : ResType) → Prefixed → Given (sysvirt_rasd_to_vdev sv inst dev t)
    unfolding sysvirt_rasd_to_vdev disk_rasd_to_vdev controller_rasd_to_vdev
    sysvirt_given dev disk p =
        disk_given inst readable sv dev (inst.str_prop (codes "VirtualDevice"))
    sysvirt_given dev net p = net_answers dev p
    sysvirt_given dev console p =
        console_given inst readable sv dev (console_rasd_to_vdev sv.streqc (console_of inst))
    sysvirt_given dev controller p =
        controller_given inst readable sv dev (inst.str_prop (codes "ResourceSubType"))
    sysvirt_given dev mem p = tt
    sysvirt_given dev _ p = tt

    container_given :
        (dev : VirtDevice) (t : ResType) → Prefixed → Given (container_rasd_to_vdev sv inst dev t)
    unfolding container_rasd_to_vdev controller_rasd_to_vdev
    container_given dev net p = net_answers dev p
    container_given dev controller p =
        controller_given inst readable sv dev (inst.str_prop (codes "ResourceSubType"))
    container_given dev mem p = tt
    container_given dev _ p = tt

    with_type_given : (t : ResType) (r : Made) → Given r → Given (with_type t r)
    with_type_given t none g = absurd g
    with_type_given t (some (true, dev)) g = tt
    with_type_given t (some (false, dev)) g = tt

    platform_given :
        (lxc : Bool) (dev : VirtDevice) (o : Option ResType)
        → Prefixed
        → Given (by_platform sv lxc inst dev o)
    platform_given lxc dev none p = tt
    platform_given true dev (some t) p =
        with_type_given t (container_rasd_to_vdev sv inst dev t) (container_given dev t p)
    platform_given false dev (some t) p =
        with_type_given t (sysvirt_rasd_to_vdev sv inst dev t) (sysvirt_given dev t p)

    base_given :
        (lxc : Bool) (dev : VirtDevice) (cn : Bytes) (b : Option Bytes)
        → inst.class_name ≡ some cn
        → class_base_name cn ≡ b
        → Given (by_platform sv lxc inst dev (b >>=? type_of_base sv))
    base_given lxc dev cn none e h = tt
    base_given lxc dev cn (some base) e h =
        let (pfx, i) = prefix_of_base cn base h in
        platform_given lxc dev (type_of_base sv base) (cn, e, subst Given (sym i) tt)

    class_given :
        (lxc : Bool) (dev : VirtDevice) (o : Option Bytes)
        → inst.class_name ≡ o
        → Given (by_platform sv lxc inst dev (o >>=? res_type_from_rasd_classname sv))
    unfolding res_type_from_rasd_classname
    class_given lxc dev none e = tt
    class_given lxc dev (some cn) e = base_given lxc dev cn (class_base_name cn) e refl

    pub rasd_to_vdev-given : (lxc : Bool) (dev : VirtDevice) → Given (rasd_to_vdev sv lxc inst dev)
    unfolding rasd_to_vdev
    rasd_to_vdev-given lxc dev = class_given lxc dev inst.class_name refl
