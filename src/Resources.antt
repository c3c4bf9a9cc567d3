-- ===== src/Resources.antt =====
-- src/Virt_VirtualSystemManagementService.c: the resources of a domain, added, deleted and modified. A domain
-- has its lists of devices here; rasd_to_vdev, which reads a resource of a request into a device, is an
-- argument (DeviceRasd has it), and the answers of libvirt are parameters. A read through NULL is a fault, `none`.
pub mod Classify
pub mod Distinct
pub mod Fits
pub mod Classified
pub mod Change
pub mod Deleted
pub mod Added
pub mod Modified
mod Samples
use libvirt_cim.Prelude.{Option, none, some, List, []}
use libvirt_cim.Device.{
  ResType, net, disk, proc, mem, graphics, console, input, controller, Dev, empty, VirtDevice, all,
}

-- `struct domain`, as far as its resources go
pub record Domain : Type 0 where
  pub dev_net : List VirtDevice
  pub dev_disk : List VirtDevice
  pub dev_vcpu : List VirtDevice
  pub dev_mem : List VirtDevice
  pub dev_graphics : List VirtDevice
  pub dev_console : List VirtDevice
  pub dev_input : List VirtDevice
  pub dev_controller : List VirtDevice

-- which of the lists
pub data Field : Type 0 where
  f_net f_disk f_vcpu f_mem f_graphics f_console f_input f_controller : Field

unfoldable pub get : Domain → Field → List VirtDevice
get dominfo f_net = dominfo.dev_net
get dominfo f_disk = dominfo.dev_disk
get dominfo f_vcpu = dominfo.dev_vcpu
get dominfo f_mem = dominfo.dev_mem
get dominfo f_graphics = dominfo.dev_graphics
get dominfo f_console = dominfo.dev_console
get dominfo f_input = dominfo.dev_input
get dominfo f_controller = dominfo.dev_controller

unfoldable pub set : Domain → Field → List VirtDevice → Domain
set dominfo f_net list = record dominfo { dev_net = list }
set dominfo f_disk list = record dominfo { dev_disk = list }
set dominfo f_vcpu list = record dominfo { dev_vcpu = list }
set dominfo f_mem list = record dominfo { dev_mem = list }
set dominfo f_graphics list = record dominfo { dev_graphics = list }
set dominfo f_console list = record dominfo { dev_console = list }
set dominfo f_input list = record dominfo { dev_input = list }
set dominfo f_controller list = record dominfo { dev_controller = list }

-- NULL for a type that has no list
unfoldable pub find_list : ResType → Option Field
find_list net = some f_net
find_list disk = some f_disk
find_list proc = some f_vcpu
find_list mem = some f_mem
find_list graphics = some f_graphics
find_list console = some f_console
find_list input = some f_input
find_list controller = some f_controller
find_list _ = none

-- a device that `memset` or `calloc` cleared
abbrev pub zeroed : VirtDevice
zeroed = record { type = all; dev = empty; id = none }
