-- ===== src/DeviceRasd/Controller.antt =====
-- controller_rasd_to_vdev, proc_rasd_to_vdev and lxc_proc_rasd_to_vdev: into the device that is there.
use libvirt_cim.Prelude.{
  ℕ, Bool, true, false, Option, none, some, [], ◌∷◌, ◌++◌, Bytes, codes, if◌then◌else◌,
}
use libvirt_cim.Text.Decimal.{print_decimal}
use libvirt_cim.Device.{
  Address, ControllerDevice, controller_dev, VcpuDevice, vcpu_dev, Dev, VirtDevice,
}
use libvirt_cim.Device.Kinds.{controller_protocol_type_StrToID}
use libvirt_cim.XmlGen.Controller.{index_not_set}
use libvirt_cim.DeviceRasd.{Instance, Service, Made, or_else, rasd_to_device_address}

abbrev pub controller_in : Dev → ControllerDevice
controller_in (controller_dev c) = c
controller_in _ = record {
  type = none;
  index = 0;
  model = none;
  ports = none;
  vectors = none;
  queues = none;
  address = [];
}

abbrev pub vcpu_in : Dev → VcpuDevice
vcpu_in (vcpu_dev v) = v
vcpu_in _ = record { quantity = 0; weight = 0; limit = 0 }

-- the property, or what was there
abbrev pub kept_prop : Option Bytes → Option Bytes → Option Bytes
kept_prop old none = old
kept_prop old (some val) = some val

abbrev pub addressed_controller :
    VirtDevice → Bytes → ControllerDevice → Option (Bool × Address) → Made
addressed_controller dev id c none = none
addressed_controller dev id c (some (ok, addr)) =
    some (ok, record dev { dev = controller_dev (record c { address = addr }); id = some id })

-- the index, and how the id ends
abbrev pub index_of : Option ℕ → ℕ × Bytes
index_of none = (index_not_set, codes ":-1")
index_of (some index) = (index, b':' ∷ print_decimal index)

abbrev pub controller_name : Bytes → Bytes → Bytes
controller_name type_str ending = codes "controller:" ++ (type_str ++ ending)

module _ (sv : Service) (inst : Instance) where
  open sv use {streqc, starts_with}

  abbrev pub controller_properties : ControllerDevice → Bytes → ℕ → ControllerDevice
  controller_properties c type_str index = record c {
    type = controller_protocol_type_StrToID streqc type_str;
    index = index;
    model = kept_prop c.model (inst.str_prop (codes "Model"));
    ports = kept_prop c.ports (inst.str_prop (codes "Ports"));
    vectors = kept_prop c.vectors (inst.str_prop (codes "Vectors"));
    queues = kept_prop c.queues (inst.str_prop (codes "Queues"));
  }

  abbrev pub typed_controller : VirtDevice → ControllerDevice → Bytes → ℕ × Bytes → Made
  typed_controller dev c type_str (index, ending) =
      addressed_controller dev (controller_name type_str ending)
        (controller_properties c type_str index) (rasd_to_device_address inst c.address)

  -- the properties of the address come behind those that are there
  abbrev pub controller_made : VirtDevice → Option Bytes → Made
  controller_made dev none = some (false, dev)
  controller_made dev (some type_str) =
      typed_controller dev (controller_in dev.dev) type_str
        (index_of (inst.u64_prop (codes "Index")))

  unfoldable pub controller_rasd_to_vdev : VirtDevice → Made
  controller_rasd_to_vdev dev = controller_made dev (inst.str_prop (codes "ResourceSubType"))

  -- DEFAULT_XEN_WEIGHT and DEFAULT_KVM_WEIGHT
  abbrev pub default_weight : Bytes → ℕ
  default_weight class_name =
      if starts_with class_name (codes "Xen")
      then 1024
      else if starts_with class_name (codes "QEMU")
      then 1024
      else 0

  -- a resource without a path keeps the weight and the limit that are there
  abbrev pub weighted : VcpuDevice → Option Bytes → VcpuDevice
  weighted v none = v
  weighted v (some class_name) = record v {
    limit = or_else 0 (inst.u64_prop (codes "Limit"));
    weight = or_else (default_weight class_name) (inst.u32_prop (codes "Weight"));
  }

  unfoldable pub proc_rasd_to_vdev : VirtDevice → Bool × VirtDevice
  proc_rasd_to_vdev dev = elim (inst.u64_prop (codes "VirtualQuantity")) [
    | none ↦ (false, dev)
    | some quantity ↦ (
      true,
      record dev {
        dev =
            vcpu_dev (weighted (record (vcpu_in dev.dev) { quantity = quantity }) inst.class_name);
      },
    )
  ]

  abbrev pub limited : VirtDevice → VcpuDevice → Option ℕ → Bool × VirtDevice
  limited dev v (some limit) = (false, record dev { dev = vcpu_dev (record v { limit = limit }) })
  limited dev v none = (
    true,
    record dev {
      dev = vcpu_dev (record v { weight = or_else 1024 (inst.u32_prop (codes "Weight")) });
    },
  )

  -- neither a quantity nor a limit is allowed for a container
  unfoldable pub lxc_proc_rasd_to_vdev : VirtDevice → Bool × VirtDevice
  lxc_proc_rasd_to_vdev dev = elim (inst.u64_prop (codes "VirtualQuantity")) [
    | some quantity ↦
        (false, record dev { dev = vcpu_dev (record (vcpu_in dev.dev) { quantity = quantity }) })
    | none ↦ limited dev (vcpu_in dev.dev) (inst.u64_prop (codes "Limit"))
  ]
