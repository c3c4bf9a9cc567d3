-- ===== src/DeviceRasd/Converts.antt =====
-- rasd_to_vdev gives devices that classify_resources can compare.
use libvirt_cim.Prelude.{◌≡◌, refl, sym, ap, subst, Bool, true, false, Option, none, some, codes}
use libvirt_cim.Device.{
  ResType, all, unknown, emu, image, proc, mem, net, disk, graphics, input, console, controller,
  VirtDevice,
}
use libvirt_cim.Resources.{
  Field, f_net, f_disk, f_vcpu, f_mem, f_graphics, f_console, f_input, f_controller, find_list,
}
use libvirt_cim.Resources.Distinct.{Named}
use libvirt_cim.DeviceRasd.{Instance, Service, Made}
use libvirt_cim.DeviceRasd.Disk.{disk_rasd_to_vdev, lxc_disk_rasd_to_vdev}
use libvirt_cim.DeviceRasd.Net.{net_rasd_to_vdev}
use libvirt_cim.DeviceRasd.Graphics.{graphics_rasd_to_vdev}
use libvirt_cim.DeviceRasd.Controller.{controller_rasd_to_vdev}
use libvirt_cim.DeviceRasd.Dispatch.{
  with_type, sysvirt_rasd_to_vdev, container_rasd_to_vdev, res_type, by_platform, rasd_to_vdev,
}
use libvirt_cim.DeviceRasd.Named.{
  OkNamed, vcpu_named, mem_named, console_named, input_named, at_field, net_named, disk_named,
  lxc_target_named, graphics_named, controller_named,
}

module _ (sv : Service) (inst : Instance) where
  -- what the device of a type has, in the list that find_list gives it
  sysvirt_named :
      (dev : VirtDevice) (t : ResType) (f : Field)
      → find_list t ≡ some f
      → OkNamed f (sysvirt_rasd_to_vdev sv inst dev t)
  unfolding find_list sysvirt_rasd_to_vdev net_rasd_to_vdev graphics_rasd_to_vdev
      controller_rasd_to_vdev
  sysvirt_named dev disk f e =
      at_field f_disk f (sysvirt_rasd_to_vdev sv inst dev disk) e
        (disk_named sv inst dev (disk_rasd_to_vdev sv.streq sv.file_type inst dev) refl)
  sysvirt_named dev net f e =
      at_field f_net f (sysvirt_rasd_to_vdev sv inst dev net) e
        (net_named sv inst dev inst.class_name)
  sysvirt_named dev mem f e =
      at_field f_mem f (sysvirt_rasd_to_vdev sv inst dev mem) e
        (mem_named (sysvirt_rasd_to_vdev sv inst dev mem))
  sysvirt_named dev proc f e =
      at_field f_vcpu f (sysvirt_rasd_to_vdev sv inst dev proc) e
        (vcpu_named (sysvirt_rasd_to_vdev sv inst dev proc))
  sysvirt_named dev graphics f e =
      at_field f_graphics f (sysvirt_rasd_to_vdev sv inst dev graphics) e
        (graphics_named sv inst dev (inst.str_prop (codes "ResourceSubType")))
  sysvirt_named dev console f e =
      at_field f_console f (sysvirt_rasd_to_vdev sv inst dev console) e
        (console_named (sysvirt_rasd_to_vdev sv inst dev console))
  sysvirt_named dev input f e =
      at_field f_input f (sysvirt_rasd_to_vdev sv inst dev input) e
        (input_named (sysvirt_rasd_to_vdev sv inst dev input))
  sysvirt_named dev controller f e =
      at_field f_controller f (sysvirt_rasd_to_vdev sv inst dev controller) e
        (controller_named sv inst dev (inst.str_prop (codes "ResourceSubType")))
  sysvirt_named dev all f e = absurd (cc)
  sysvirt_named dev unknown f e = absurd (cc)
  sysvirt_named dev image f e = absurd (cc)
  sysvirt_named dev emu f e = absurd (cc)

  -- the same in a container
  container_named :
      (dev : VirtDevice) (t : ResType) (f : Field)
      → find_list t ≡ some f
      → OkNamed f (container_rasd_to_vdev sv inst dev t)
  unfolding find_list container_rasd_to_vdev net_rasd_to_vdev lxc_disk_rasd_to_vdev
      controller_rasd_to_vdev
  container_named dev disk f e =
      at_field f_disk f (container_rasd_to_vdev sv inst dev disk) e
        (lxc_target_named sv inst dev (inst.str_prop (codes "MountPoint")))
  container_named dev net f e =
      at_field f_net f (container_rasd_to_vdev sv inst dev net) e
        (net_named sv inst dev inst.class_name)
  container_named dev mem f e =
      at_field f_mem f (container_rasd_to_vdev sv inst dev mem) e
        (mem_named (container_rasd_to_vdev sv inst dev mem))
  container_named dev proc f e =
      at_field f_vcpu f (container_rasd_to_vdev sv inst dev proc) e
        (vcpu_named (container_rasd_to_vdev sv inst dev proc))
  container_named dev graphics f e =
      at_field f_graphics f (container_rasd_to_vdev sv inst dev graphics) e tt
  container_named dev console f e =
      at_field f_console f (container_rasd_to_vdev sv inst dev console) e
        (console_named (container_rasd_to_vdev sv inst dev console))
  container_named dev input f e =
      at_field f_input f (container_rasd_to_vdev sv inst dev input) e
        (input_named (container_rasd_to_vdev sv inst dev input))
  container_named dev controller f e =
      at_field f_controller f (container_rasd_to_vdev sv inst dev controller) e
        (controller_named sv inst dev (inst.str_prop (codes "ResourceSubType")))
  container_named dev all f e = absurd (cc)
  container_named dev unknown f e = absurd (cc)
  container_named dev image f e = absurd (cc)
  container_named dev emu f e = absurd (cc)

  typed-Named :
      (t : ResType) (f : Field) (r : Made) (v : VirtDevice)
      → OkNamed f r
      → with_type t r ≡ some (true, v)
      → (v.type ≡ t) × Named f v
  typed-Named t f none v h e = absurd (cc)
  typed-Named t f (some (false, d)) v h e = absurd (cc)
  typed-Named t f (some (true, d)) v h e =
      let made : record d { type = t } ≡ v = cc in
      (sym (ap (λ (x : VirtDevice). x.type) made), subst (Named f) made h)

  by_platform-Named :
      (lxc : Bool) (dev v : VirtDevice) (o : Option ResType) (t : ResType) (f : Field)
      → o ≡ some t
      → find_list t ≡ some f
      → by_platform sv lxc inst dev o ≡ some (true, v)
      → (v.type ≡ t) × Named f v
  by_platform-Named lxc dev v none t f o l e = absurd (cc)
  by_platform-Named true dev v (some u) t f o l e =
      typed-Named t f (container_rasd_to_vdev sv inst dev t) v (container_named dev t f l)
        (subst (λ x. with_type x (container_rasd_to_vdev sv inst dev x) ≡ some (true, v)) (cc) e)
  by_platform-Named false dev v (some u) t f o l e =
      typed-Named t f (sysvirt_rasd_to_vdev sv inst dev t) v (sysvirt_named dev t f l)
        (subst (λ x. with_type x (sysvirt_rasd_to_vdev sv inst dev x) ≡ some (true, v)) (cc) e)

  -- A device that rasd_to_vdev makes without a message has the type of the resource; an interface, a disk,
  -- a graphics device and a controller have an id then, and a disk has a target.
  pub rasd_to_vdev-Named :
      (lxc : Bool) (dev v : VirtDevice) (t : ResType) (f : Field)
      → res_type sv inst ≡ some t
      → find_list t ≡ some f
      → rasd_to_vdev sv lxc inst dev ≡ some (true, v)
      → (v.type ≡ t) × Named f v
  unfolding rasd_to_vdev
  rasd_to_vdev-Named lxc dev v t f r l e = by_platform-Named lxc dev v (res_type sv inst) t f r l e
