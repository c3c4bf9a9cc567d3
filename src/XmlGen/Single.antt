-- ===== src/XmlGen/Single.antt =====
-- device_to_xml in libxkutil/xmlgen.c, and attach_device, detach_device and change_device with what they
-- call in libxkutil/device_parsing.c. libvirt's calls on the domain are a parameter.
use libvirt_cim.Prelude.{
  ℕ, ◌%◌, ◌^◌, ◌==◌, Bool, false, ◌||◌, Option, none, some, [], ◌∷◌, if◌then◌else◌, ◌>>=?◌, Bytes,
}
use libvirt_cim.Xml.{Node, Nodes, leaf, also}
use libvirt_cim.Device.{
  ResType, proc, mem, net, disk, graphics, input, console, emu, controller, VirtDevice, MemDevice,
  VcpuDevice, mem_of, vcpu_of,
}
use libvirt_cim.Device.Dup.{virt_device_dup}
use libvirt_cim.XmlGen.Disk.{disk_xml}
use libvirt_cim.XmlGen.Net.{net_xml}
use libvirt_cim.XmlGen.Console.{console_xml}
use libvirt_cim.XmlGen.Graphics.{graphics_xml, input_xml}
use libvirt_cim.XmlGen.Controller.{controller_xml}
use libvirt_cim.XmlGen.Memory.{mem_xml, vcpu_xml, emu_xml}

-- The calls of libvirt that change a running domain; `true` is success.
pub record Running : Type 0 where
  pub attach : Node → Bool
  pub detach : Node → Bool
  pub set_memory : ℕ → Bool
  pub set_max_memory : ℕ → Bool
  pub set_cpu_shares : ℕ → Bool
  pub set_vcpus : ℕ → Bool

abbrev pub first_node : Nodes → Option Node
first_node leaf = none
first_node (also n rest) = some n

module _ (streq streqc : Bytes → Bytes → Bool) where
  -- on a domain that holds this device only, whose type is not Xen's
  unfoldable pub xml_of_type : ResType → VirtDevice → Option Nodes
  xml_of_type disk dev = disk_xml streq (dev ∷ [])
  xml_of_type proc dev = vcpu_xml (dev ∷ [])
  xml_of_type net dev = net_xml streq false (dev ∷ [])
  xml_of_type mem dev = mem_xml (dev ∷ [])
  xml_of_type emu dev = emu_xml (some dev)
  xml_of_type graphics dev = graphics_xml streqc (dev ∷ [])
  xml_of_type console dev = console_xml (dev ∷ [])
  xml_of_type input dev = input_xml (dev ∷ [])
  xml_of_type controller dev = controller_xml (dev ∷ [])
  xml_of_type _ dev = none

  -- The node that is printed; `none` is NULL, or the fault of copying a device with no id.
  unfoldable pub device_to_xml : VirtDevice → Option Node
  device_to_xml d = virt_device_dup d >>=? λ dev. xml_of_type d.type dev >>=? first_node

  module _ (dom : Running) where
    unfoldable pub change_device_with : (Node → Bool) → VirtDevice → Bool
    change_device_with func dev = elim (device_to_xml dev) [ none ↦ false | some xml ↦ func xml ]

    -- of interfaces and disks only
    abbrev pub net_or_disk : ResType → (Node → Bool) → VirtDevice → Bool
    net_or_disk net func dev = change_device_with func dev
    net_or_disk disk func dev = change_device_with func dev
    net_or_disk _ func dev = false

    unfoldable pub attach_device : VirtDevice → Bool
    attach_device dev = net_or_disk dev.type dom.attach dev

    unfoldable pub detach_device : VirtDevice → Bool
    detach_device dev = net_or_disk dev.type dom.detach dev

    -- libvirt refuses to attach NULL
    unfoldable pub change_disk : VirtDevice → Bool
    change_disk dev = change_device_with dom.attach dev

    unfoldable pub change_memory : Option MemDevice → Bool
    change_memory none = false
    change_memory (some m) = if dom.set_memory m.size then dom.set_max_memory m.maxsize else false

    -- libvirt takes the 32 bits of the quantity
    unfoldable pub change_vcpus : Option VcpuDevice → Bool
    change_vcpus none = false
    change_vcpus (some v) =
        if (v.weight == 0) || dom.set_cpu_shares v.weight
        then (if v.quantity == 0 then false else dom.set_vcpus (v.quantity % 2 ^ 32))
        else false

    abbrev change_type : ResType → VirtDevice → Bool
    change_type mem dev = change_memory (mem_of dev.dev)
    change_type proc dev = change_vcpus (vcpu_of dev.dev)
    change_type disk dev = change_disk dev
    change_type _ dev = false

    unfoldable pub change_device : VirtDevice → Bool
    change_device dev = change_type dev.type dev
