-- ===== src/Resources/Deleted.antt =====
-- What resource_del leaves of a domain, and what of it is written by libxkutil/xmlgen.c.
use libvirt_cim.Prelude.{
  ◌≡◌, refl, sym, ap, ◌∙◌, subst, Bool, false, Option, none, some, List, [], ◌∷◌, Bytes, ◌>>=?◌,
  if◌then◌else◌, Bool-cases, inl, inr, >>=?-inv,
}
use libvirt_cim.Cmpi.{Rc, rc_ok}
use libvirt_cim.Xml.{Nodes, leaf, append_nodes}
use libvirt_cim.Device.{ResType, unknown, proc, mem, VirtDevice}
use libvirt_cim.XmlGen.{unless_unknown, each_device}
use libvirt_cim.Resources.{
  Domain, Field, f_net, f_disk, f_vcpu, f_mem, f_graphics, f_console, f_input, f_controller, get,
  set, find_list,
}
use libvirt_cim.Resources.Change.{
  Target, dynamic_by_type, resource_del_action, on_match, id_is, change_first, stored,
  delete_device, delete_from, delete_listed, resource_del,
}

-- The list laws of `get` and `set`.
pub get-set : (d : Domain) (f : Field) (l : List VirtDevice) → get (set d f l) f ≡ l
unfolding get set
get-set d f_net l = refl
get-set d f_disk l = refl
get-set d f_vcpu l = refl
get-set d f_mem l = refl
get-set d f_graphics l = refl
get-set d f_console l = refl
get-set d f_input l = refl
get-set d f_controller l = refl

pub set-set : (d : Domain) (f : Field) (l m : List VirtDevice) → set (set d f l) f m ≡ set d f m
unfolding set
set-set d f_net l m = refl
set-set d f_disk l m = refl
set-set d f_vcpu l m = refl
set-set d f_mem l m = refl
set-set d f_graphics l m = refl
set-set d f_console l m = refl
set-set d f_input l m = refl
set-set d f_controller l m = refl

fst_of {ℓ κ} :
    {A : Type ℓ} {B : Type κ} (a a' : A) (b b' : B)
    → ◌≡◌ {A = Option (A × B)} (some (a, b)) (some (a', b'))
    → a ≡ a'
fst_of a a' b b' e = cc

snd_of {ℓ κ} :
    {A : Type ℓ} {B : Type κ} (a a' : A) (b b' : B)
    → ◌≡◌ {A = Option (A × B)} (some (a, b)) (some (a', b'))
    → b ≡ b'
snd_of a a' b b' e = cc

module _ (streq streqc : Bytes → Bytes → Bool) where
  abbrev pub matches : Option Bytes → Bytes → Bool
  matches none devid = false
  matches (some id) devid = streq id devid

  -- the list without the first device that has the id
  unfoldable pub without : Bytes → List VirtDevice → List VirtDevice
  without devid [] = []
  without devid (dev ∷ list) =
      let rest = without devid list in if matches dev.id devid then list else dev ∷ rest

  skip_unknown : (o : Option Nodes) → (o >>=? λ rest. some (append_nodes leaf rest)) ≡ o
  unfolding append_nodes
  skip_unknown none = refl
  skip_unknown (some nodes) = refl

  module _ (t : Target) (type : ResType) (devid : Bytes) (write : VirtDevice → Option Nodes) where
    abbrev delete : VirtDevice → Rc × VirtDevice
    delete = delete_device streq streqc t type

    -- written alike, where the status is OK
    abbrev WrittenAs : Rc → List VirtDevice → List VirtDevice → Type 0
    WrittenAs rc list spec = rc ≡ rc_ok → each_device write list ≡ each_device write spec

    deleted_round :
        (o : Option Bytes) (dev : VirtDevice) (list : List VirtDevice)
        (rest : Option (Rc × List VirtDevice)) (rc : Rc) (l : List VirtDevice)
        → ((rc' : Rc) (l' : List VirtDevice)
            → rest ≡ some (rc', l')
            → WrittenAs rc' l' (without devid list))
        → on_match streq streqc (id_is streq streqc o devid) delete dev list rest ≡ some (rc, l)
        → WrittenAs rc l (if matches o devid then list else dev ∷ without devid list)
    unfolding each_device
    deleted_round none dev list rest rc l ih e = absurd (cc)
    deleted_round (some id) dev list rest rc l ih e = elim (Bool-cases (streq id devid)) [
      | inl m ↦
          let gone : VirtDevice = record dev { type = unknown } in
          let shape : some
                (dynamic_by_type streq streqc t type dev resource_del_action, gone ∷ list)
              ≡ some (rc, l) =
            rw m at e in
          rw m (λ ok.
            ap (each_device write) (sym (snd_of _ _ _ _ shape))
            ∙ skip_unknown (each_device write list))
      | inr m ↦
          let (r, e1, e2) = >>=?-inv rest (λ r. some (r.0, dev ∷ r.1)) (rc, l) (rw m at e) in
          rw m (λ ok.
            ap (each_device write) (sym (snd_of _ _ _ _ e2))
            ∙ ap
                (λ o. unless_unknown dev.type (write dev) >>=? λ nodes.
                  o >>=? λ more. some (append_nodes nodes more))
                (ih r.0 r.1 e1 (fst_of _ _ _ _ e2 ∙ ok)))
    ]

    deleted_list :
        (list : List VirtDevice) (rc : Rc) (l : List VirtDevice)
        → change_first streq streqc delete devid list ≡ some (rc, l)
        → WrittenAs rc l (without devid list)
    unfolding change_first without
    deleted_list [] rc l e = λ ok. absurd (cc)
    deleted_list (dev ∷ list) rc l e =
        deleted_round dev.id dev list (change_first streq streqc delete devid list) rc l
          (deleted_list list) e

  stored-inv :
      (d : Domain) (f : Field) (o : Option (Rc × List VirtDevice)) (rc : Rc) (d' : Domain)
      → stored streq streqc d f o ≡ some (rc, d')
      → (l : List VirtDevice) × (o ≡ some (rc, l)) × (d' ≡ set d f l)
  stored-inv d f none rc d' e = absurd (cc)
  stored-inv d f (some (rc', l)) rc d' e =
      (l, ap (λ r. some (r, l)) (fst_of _ _ _ _ e), sym (snd_of _ _ _ _ e))

  -- written without the device, and nothing else changed
  abbrev Removed : Bytes → Field → Domain → Domain → Type 0
  Removed devid f d d' =
      ((write : VirtDevice → Option Nodes)
        → each_device write (get d' f) ≡ each_device write (without devid (get d f)))
      × ((m : List VirtDevice) → set d' f m ≡ set d f m)

  deleted_from :
      (t : Target) (type : ResType) (devid : Bytes) (d : Domain) (f : Field)
      (list : List VirtDevice) (d' : Domain)
      → get d f ≡ list
      → delete_listed streq streqc t type devid list f d ≡ some (rc_ok, d')
      → Removed devid f d d'
  deleted_from t type devid d f [] d' g e = absurd (cc)
  deleted_from t type devid d f (dev ∷ list) d' g e =
      let (l, changed, into) = stored-inv d f _ rc_ok d' e in
      (
        λ write.
            ap (λ x. each_device write (get x f)) into
            ∙ ap (each_device write) (get-set d f l)
            ∙ deleted_list t type devid write (dev ∷ list) rc_ok l changed refl
            ∙ ap (λ x. each_device write (without devid x)) (sym g),
        λ m. ap (λ x. set x f m) into ∙ set-set d f l m,
      )

  deleted_field :
      (t : Target) (type : ResType) (devid : Bytes) (d : Domain) (o : Option Field) (f : Field)
      (d' : Domain)
      → o ≡ some f
      → delete_from streq streqc t d type devid o ≡ some (rc_ok, d')
      → Removed devid f d d'
  deleted_field t type devid d o f d' l e =
      deleted_from t type devid d f (get d f) d' refl
        (subst (λ x. delete_from streq streqc t d type devid x ≡ some (rc_ok, d')) l e)

  -- Where resource_del ends with the status OK, the list of the type is written as the list without the
  -- first device that has the id, by whatever function writes a device, and no other list is changed.
  pub resource_del-without :
      (t : Target) (type : ResType) (devid : Bytes) (d d' : Domain) (f : Field)
      → find_list type ≡ some f
      → resource_del streq streqc t d type (some devid) ≡ some (rc_ok, d')
      → ((write : VirtDevice → Option Nodes)
          → each_device write (get d' f) ≡ each_device write (without devid (get d f)))
        × ((m : List VirtDevice) → set d' f m ≡ set d f m)
  unfolding resource_del
  resource_del-without t mem devid d d' f l e = absurd (cc)
  resource_del-without t proc devid d d' f l e = absurd (cc)
  resource_del-without t type devid d d' f l e =
      deleted_field t type devid d (find_list type) f d' l e
