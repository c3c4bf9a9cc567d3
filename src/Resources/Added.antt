-- ===== src/Resources/Added.antt =====
-- What resource_add does with a running domain.
use libvirt_cim.Prelude.{
  ◌≡◌, ◌≢◌, refl, sym, subst, Bool, true, false, Option, none, some, [], ◌∷◌, ◌++◌, Bytes,
  if◌then◌else◌, Bool-cases, inl, inr,
}
use libvirt_cim.Cmpi.{Rc, rc_ok, rc_err_failed}
use libvirt_cim.Xml.{Node}
use libvirt_cim.Device.{
  ResType, proc, mem, net, disk, graphics, input, console, controller, VirtDevice,
}
use libvirt_cim.XmlGen.Single.{
  Running, device_to_xml, change_device_with, attach_device, net_or_disk,
}
use libvirt_cim.Resources.{Domain, Field, get, set, find_list, zeroed}
use libvirt_cim.Resources.Change.{
  Target, resource_dynamic, dynamic_by_type, resource_add_action, counted, add_status, add_to,
  resource_add,
}

module _ (streq streqc : Bytes → Bytes → Bool) where
  -- libvirt took a node that was made from the device
  abbrev pub Attached : Running → VirtDevice → Type 0
  Attached dom dev = (n : Node) × (device_to_xml streq streqc dev ≡ some n) × (dom.attach n ≡ true)

  Attached-with :
      (dom : Running) (dev : VirtDevice) (o : Option Node)
      → device_to_xml streq streqc dev ≡ o
      → (elim o [ none ↦ false | some xml ↦ dom.attach xml ]) ≡ true
      → Attached dom dev
  Attached-with dom dev none x e = absurd (cc)
  Attached-with dom dev (some n) x e = (n, x, e)

  Attached-typed :
      (dom : Running) (dev : VirtDevice) (type : ResType)
      → net_or_disk streq streqc dom type dom.attach dev ≡ true
      → Attached dom dev
  unfolding change_device_with
  Attached-typed dom dev net e = Attached-with dom dev (device_to_xml streq streqc dev) refl e
  Attached-typed dom dev disk e = Attached-with dom dev (device_to_xml streq streqc dev) refl e
  Attached-typed dom dev _ e = absurd (cc)

  module _ (t : Target) (connected : t.connected ≡ true) (found : t.found ≡ true)
      (online : t.online ≡ true) where
    dynamic-Attached :
        (dev : VirtDevice)
        → resource_dynamic streq streqc t dev resource_add_action ≡ rc_ok
        → Attached t.dom dev
    unfolding resource_dynamic attach_device
    dynamic-Attached dev e = elim (Bool-cases (attach_device streq streqc t.dom dev)) [
      | inl a ↦ Attached-typed t.dom dev dev.type a
      | inr a ↦ absurd (cc (rw (connected, found, online, a) at e))
    ]

    -- graphics, a console or an input device, or one that libvirt attached
    abbrev pub Taken : ResType → VirtDevice → Type 0
    Taken graphics dev = Unit
    Taken console dev = Unit
    Taken input dev = Unit
    Taken _ dev = Attached t.dom dev

    typed-Taken :
        (type : ResType) (dev : VirtDevice)
        → dynamic_by_type streq streqc t type dev resource_add_action ≡ rc_ok
        → Taken type dev
    typed-Taken graphics dev e = tt
    typed-Taken console dev e = tt
    typed-Taken input dev e = tt
    typed-Taken _ dev e = dynamic-Attached dev e

    module _ {ℓ} (Rasd : Type ℓ) (rasd_to_vdev : Rasd → VirtDevice → Bool × VirtDevice) where
      -- An error leaves the domain alone; else the device stands behind the others of its list.
      abbrev pub Recorded : Domain → Rasd → ResType → Rc × Domain → Type 0
      Recorded d rasd type (rc, d') =
          let dev = (rasd_to_vdev rasd zeroed).1 in
          (rc ≢ rc_ok → d' ≡ d)
          × (rc ≡ rc_ok
              → (f : Field) × (find_list type ≡ some f)
                × (d' ≡ set d f (get d f ++ (dev ∷ [])))
                × Taken type dev)

      refused :
          (d : Domain) (rasd : Rasd) (type : ResType) → Recorded d rasd type (rc_err_failed, d)
      refused d rasd type = (λ n. refl, λ e. absurd (cc))

      counted-Recorded :
          (d : Domain) (rasd : Rasd) (type : ResType) (f : Field) (rc : Rc)
          → find_list type ≡ some f
          → (rc ≡ rc_ok → Taken type (rasd_to_vdev rasd zeroed).1)
          → Recorded d rasd type
              (counted streq streqc Rasd rasd_to_vdev d f (rasd_to_vdev rasd zeroed).1 rc)
      counted-Recorded d rasd type f rc_ok l h = (λ n. absurd (n refl), λ e. (f, l, refl, h refl))
      counted-Recorded d rasd type f _ l h = (λ n. refl, λ e. absurd (cc))

      controller-Taken :
          (dev : VirtDevice) (o : Option Bytes)
          → (elim o [
            | none ↦ rc_err_failed
            | some id ↦ dynamic_by_type streq streqc t controller dev resource_add_action
          ])
            ≡ rc_ok
          → Taken controller dev
      controller-Taken dev none e = absurd (cc)
      controller-Taken dev (some id) e = dynamic-Attached dev e

      status-Taken :
          (type : ResType) (dev : VirtDevice)
          → add_status streq streqc Rasd rasd_to_vdev t type dev ≡ rc_ok
          → Taken type dev
      status-Taken controller dev e = controller-Taken dev dev.id e
      status-Taken graphics dev e = tt
      status-Taken console dev e = tt
      status-Taken input dev e = tt
      status-Taken _ dev e = dynamic-Attached dev e

      to_recorded :
          (d : Domain) (rasd : Rasd) (type : ResType) (o : Option Field)
          → find_list type ≡ o
          → Recorded d rasd type (add_to streq streqc Rasd rasd_to_vdev t d rasd type o)
      to_recorded d rasd type none l = refused d rasd type
      to_recorded d rasd type (some f) l =
          let dev : VirtDevice = (rasd_to_vdev rasd zeroed).1 in
          let result : Bool → Rc × Domain = λ ok.
            if ok
            then counted streq streqc Rasd rasd_to_vdev d f dev
                (add_status streq streqc Rasd rasd_to_vdev t type dev)
            else (rc_err_failed, d) in
          elim (Bool-cases (rasd_to_vdev rasd zeroed).0) [
            | inl b ↦
                subst (λ x. Recorded d rasd type (result x)) (sym b)
                  (counted-Recorded d rasd type f _ l (status-Taken type dev))
            | inr b ↦ subst (λ x. Recorded d rasd type (result x)) (sym b) (refused d rasd type)
          ]

      -- With a connection, a domain and the domain online, a resource that resource_add adds with the
      -- status OK stands behind the others of its list; if it is no graphics, console or input device, then
      -- libvirt took a node made from it. Any other status leaves the domain as it was.
      pub resource_add-Recorded :
          (d : Domain) (rasd : Rasd) (type : ResType)
          → Recorded d rasd type (resource_add streq streqc Rasd rasd_to_vdev t d rasd type)
      unfolding resource_add
      resource_add-Recorded d rasd mem = refused d rasd mem
      resource_add-Recorded d rasd proc = refused d rasd proc
      resource_add-Recorded d rasd type = to_recorded d rasd type (find_list type) refl
