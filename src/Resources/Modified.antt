-- ===== src/Resources/Modified.antt =====
-- What resource_mod does with a running domain.
use libvirt_cim.Prelude.{
  ◌≡◌, ◌≢◌, refl, sym, ◌∙◌, Bool, true, false, Option, none, some, List, [], ◌∷◌, Bytes, >>=?-inv,
  Bool-cases, inl, inr,
}
use libvirt_cim.Cmpi.{Rc, rc_ok, rc_err_failed}
use libvirt_cim.Device.{ResType, net, controller, VirtDevice}
use libvirt_cim.XmlGen.Single.{change_device}
use libvirt_cim.Resources.{Domain, Field, get, find_list}
use libvirt_cim.Resources.Change.{
  Target, resource_dynamic, dynamic_by_type, resource_mod_action, on_match, id_is, change_first,
  stored, modify_device, modify_in, resource_mod,
}

-- what change_device has no function for
abbrev pub Unchangeable : ResType → Type 0
Unchangeable net = Unit
Unchangeable controller = Unit
Unchangeable _ = ⊥

pair_inv {ℓ κ} :
    {A : Type ℓ} {B : Type κ} (a a' : A) (b b' : B)
    → ◌≡◌ {A = Option (A × B)} (some (a, b)) (some (a', b'))
    → a ≡ a'
pair_inv a a' b b' e = cc

module _ (streq streqc : Bytes → Bytes → Bool) where
  match_fails :
      (o : Option Bool) (change : VirtDevice → Rc × VirtDevice) (dev : VirtDevice)
      (list : List VirtDevice) (rest : Option (Rc × List VirtDevice)) (rc : Rc)
      (l : List VirtDevice)
      → ((v : VirtDevice) → (change v).0 ≢ rc_ok)
      → ((rc' : Rc) (l' : List VirtDevice)
          → ((v : VirtDevice) → (change v).0 ≢ rc_ok)
          → rest ≡ some (rc', l')
          → rc' ≢ rc_ok)
      → on_match streq streqc o change dev list rest ≡ some (rc, l)
      → rc ≢ rc_ok
  match_fails none change dev list rest rc l h ih e = absurd (cc)
  match_fails (some true) change dev list rest rc l h ih e = λ ok. h dev (pair_inv _ _ _ _ e ∙ ok)
  match_fails (some false) change dev list rest rc l h ih e =
      let (r, e1, e2) = >>=?-inv rest (λ r. some (r.0, dev ∷ r.1)) (rc, l) e in
      λ ok. ih r.0 r.1 h e1 (pair_inv _ _ _ _ e2 ∙ ok)

  module _ (t : Target) (connected : t.connected ≡ true) (found : t.found ≡ true)
      (online : t.online ≡ true) where
    module _ {ℓ} (Rasd : Type ℓ) (rasd_to_vdev : Rasd → VirtDevice → Bool × VirtDevice) where
      -- Whether the loop ends with the status OK, which it does only on a match.
      mod_fails :
          (change : VirtDevice → Rc × VirtDevice) (devid : Bytes) (list : List VirtDevice) (rc : Rc)
          (l : List VirtDevice)
          → ((dev : VirtDevice) → (change dev).0 ≢ rc_ok)
          → change_first streq streqc change devid list ≡ some (rc, l)
          → rc ≢ rc_ok
      unfolding change_first
      mod_fails change devid [] rc l h e = λ ok. absurd (cc)
      mod_fails change devid (dev ∷ list) rc l h e =
          match_fails (id_is streq streqc dev.id devid) change dev list
            (change_first streq streqc change devid list) rc l h (mod_fails change devid list) e

      changed_by_none :
          (type : ResType) (dev : VirtDevice)
          → Unchangeable type
          → dev.type ≡ type
          → change_device streq streqc t.dom dev ≡ false
      unfolding change_device
      changed_by_none net dev u e = rw e refl
      changed_by_none controller dev u e = rw e refl
      changed_by_none _ dev u e = absurd u

      dynamic_fails :
          (dev : VirtDevice)
          → change_device streq streqc t.dom dev ≡ false
          → resource_dynamic streq streqc t dev resource_mod_action ≡ rc_err_failed
      unfolding resource_dynamic
      dynamic_fails dev e = rw (connected, found, online, e) refl

      by_type_fails :
          (type : ResType) (dev : VirtDevice)
          → Unchangeable type
          → dev.type ≡ type
          → dynamic_by_type streq streqc t type dev resource_mod_action ≡ rc_err_failed
      by_type_fails net dev u e = dynamic_fails dev (changed_by_none net dev u e)
      by_type_fails controller dev u e = dynamic_fails dev (changed_by_none controller dev u e)
      by_type_fails _ dev u e = absurd u

      modify_fails :
          (rasd : Rasd) (type : ResType)
          → Unchangeable type
          → ((d : VirtDevice)
              → (rasd_to_vdev rasd d).0 ≡ true
              → (rasd_to_vdev rasd d).1.type ≡ type)
          → (dev : VirtDevice)
          → (modify_device streq streqc Rasd rasd_to_vdev t rasd type dev).0 ≢ rc_ok
      modify_fails rasd type u typed dev = elim (Bool-cases (rasd_to_vdev rasd dev).0) [
        | inl b ↦ λ ok.
            absurd
              (cc (sym (by_type_fails type (rasd_to_vdev rasd dev).1 u (typed dev b)), rw b at ok))
        | inr b ↦ λ ok. absurd (cc (rw b at ok))
      ]

      in_list_fails :
          (d : Domain) (f : Field) (o : Option (Rc × List VirtDevice)) (rc : Rc) (d' : Domain)
          → ((rc' : Rc) (l : List VirtDevice) → o ≡ some (rc', l) → rc' ≢ rc_ok)
          → stored streq streqc d f o ≡ some (rc, d')
          → rc ≢ rc_ok
      in_list_fails d f none rc d' h e = absurd (cc)
      in_list_fails d f (some (rc', l)) rc d' h e = λ ok. h rc' l refl (pair_inv _ _ _ _ e ∙ ok)

      field_fails :
          (d d' : Domain) (rasd : Rasd) (type : ResType) (devid : Bytes) (o : Option Field)
          (rc : Rc)
          → Unchangeable type
          → ((v : VirtDevice)
              → (rasd_to_vdev rasd v).0 ≡ true
              → (rasd_to_vdev rasd v).1.type ≡ type)
          → modify_in streq streqc Rasd rasd_to_vdev t d rasd type devid o ≡ some (rc, d')
          → rc ≢ rc_ok
      field_fails d d' rasd type devid none rc u typed e =
          λ ok. absurd (cc (pair_inv _ _ _ _ e, ok))
      field_fails d d' rasd type devid (some f) rc u typed e =
          in_list_fails d f _ rc d'
            (λ rc' l x.
              mod_fails (modify_device streq streqc Rasd rasd_to_vdev t rasd type) devid (get d f)
                rc' l (modify_fails rasd type u typed) x)
            e

      -- With a connection, a domain and the domain online, resource_mod of an interface or of a controller
      -- does not end with the status OK, whatever the request and libvirt say, where rasd_to_vdev gives
      -- devices of the type of the resource.
      pub resource_mod-running :
          (d d' : Domain) (rasd : Rasd) (type : ResType) (devid : Option Bytes) (rc : Rc)
          → Unchangeable type
          → ((v : VirtDevice)
              → (rasd_to_vdev rasd v).0 ≡ true
              → (rasd_to_vdev rasd v).1.type ≡ type)
          → resource_mod streq streqc Rasd rasd_to_vdev t d rasd type devid ≡ some (rc, d')
          → rc ≢ rc_ok
      unfolding resource_mod
      resource_mod-running d d' rasd type none rc u typed e =
          λ ok. absurd (cc (pair_inv _ _ _ _ e, ok))
      resource_mod-running d d' rasd type (some devid) rc u typed e =
          field_fails d d' rasd type devid (find_list type) rc u typed e
