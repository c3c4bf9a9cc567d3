-- ===== src/DeviceRasd/Requests.antt =====
-- classify_resources over rasd_to_vdev: what becomes of the resources of a request.
use libvirt_cim.Prelude.{
  ◌+◌, ◌≤◌, ◌≡◌, refl, ◌↔◌, Bool, true, Option, none, some, List, Bytes, length, ap, ◌∙◌,
}
use libvirt_cim.Compare.{lower}
use libvirt_cim.Device.{ResType, VirtDevice}
use libvirt_cim.Resources.{Domain, Field, get, find_list}
use libvirt_cim.Resources.Distinct.{Given, Named}
use libvirt_cim.Resources.Fits.{WellFormed}
use libvirt_cim.Resources.Classify.{classify_resources}
use libvirt_cim.Resources.Classified.{classify_resources-fits, classify_resources-WellFormed}
use libvirt_cim.DeviceRasd.{Instance, Service, Made}
use libvirt_cim.DeviceRasd.Dispatch.{res_type, rasd_to_vdev}
use libvirt_cim.DeviceRasd.Converts.{rasd_to_vdev-Named}
use libvirt_cim.DeviceRasd.Answers.{rasd_to_vdev-given}
use libvirt_cim.DeviceRasd.Answers.Parts.{Readable}

-- A resource whose address can be read.
abbrev pub Request : Type 0
Request = (inst : Instance) × Readable inst

-- the answer, where there is one
abbrev answer : (r : Made) → Given r → Bool × VirtDevice
answer none g = absurd g
answer (some a) g = a

answer_lem : (r : Made) (g : Given r) → r ≡ some (answer r g)
answer_lem none g = absurd g
answer_lem (some a) g = refl

module _ (sv : Service) (lxc : Bool) where
  abbrev pub type_of_request : Request → Option ResType
  type_of_request (inst, readable) = res_type sv inst

  -- what rasd_to_vdev answers
  abbrev pub converted : Request → VirtDevice → Bool × VirtDevice
  converted (inst, readable) dev =
      answer (rasd_to_vdev sv lxc inst dev) (rasd_to_vdev-given inst readable sv lxc dev)

  pub converted_lem :
      (inst : Instance) (readable : Readable inst) (dev : VirtDevice)
      → rasd_to_vdev sv lxc inst dev ≡ some (converted (inst, readable) dev)
  converted_lem inst readable dev =
      answer_lem (rasd_to_vdev sv lxc inst dev) (rasd_to_vdev-given inst readable sv lxc dev)

  converts :
      (request : Request) (t : ResType) (f : Field) (dev : VirtDevice)
      → type_of_request request ≡ some t
      → find_list t ≡ some f
      → (converted request dev).0 ≡ true
      → ((converted request dev).1.type ≡ t) × Named f (converted request dev).1
  converts (inst, readable) t f dev r l ok =
      let made : Bool × VirtDevice = converted (inst, readable) dev in
      rasd_to_vdev-Named sv inst lxc dev made.1 t f r l
        (converted_lem inst readable dev ∙ ap (λ b. some (b, made.1)) ok)

  module _ (streqc_iff : (s t : Bytes) → (sv.streqc s t ≡ true) ↔ (lower s ≡ lower t)) where
    -- Where STREQC compares strings but for the case of letters, and on a well formed domain, resources
    -- with no null in their addresses, read by rasd_to_vdev, are classified without a fault: nothing is
    -- written past the memory of make_space and no NULL string is read. Each list is at most as much
    -- longer as there are resources, and the domain is well formed again if there is no message.
    pub classify_resources-request :
        (resources : List Request) (d : Domain)
        → WellFormed sv.streqc streqc_iff d
        → (ok : Bool) × (d' : Domain) × (classify_resources sv.streqc Request type_of_request
              converted resources d
            ≡ some (ok, d'))
          × ((f : Field) → length (get d' f) ≤ length (get d f) + length resources)
          × (ok ≡ true → WellFormed sv.streqc streqc_iff d')
    classify_resources-request resources d w =
        let (ok, d', e, fits) =
          classify_resources-fits sv.streqc streqc_iff Request type_of_request converted converts
            resources d w in
        (
          ok,
          d',
          e,
          fits,
          λ no_message.
              classify_resources-WellFormed sv.streqc streqc_iff Request type_of_request converted
                converts resources d d' w (e ∙ ap (λ b. some (b, d')) no_message),
        )
