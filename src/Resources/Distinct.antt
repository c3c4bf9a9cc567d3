-- ===== src/Resources/Distinct.antt =====
-- What add_device_nodup keeps of a list: ids that are there and differ but for the case of letters, and
-- one device more at most.
use libvirt_cim.Prelude.{
  ℕ, suc, ◌≤◌, ◌<◌, ◌==◌, ltb, ◌≡◌, refl, sym, ap, ◌∙◌, subst, ◌↔◌, Bool, true, false, Option, none,
  some, List, [], ◌∷◌, ◌++◌, Bytes, length, length-append, arith, Bool-cases, inl, inr, strcmp_eq,
}
use libvirt_cim.Compare.{lower, caseless, streqc-caseless}
use libvirt_cim.Device.{ResType, disk, Dev, VirtDevice}
use libvirt_cim.Resources.{
  Field, f_net, f_disk, f_vcpu, f_mem, f_graphics, f_console, f_input, f_controller,
}
use libvirt_cim.Resources.Classify.{
  Added, placed, absent, not_unique, no_slots, fault, after, virtual_dev_of, same, target_taken,
  add_round, add_loop, add_behind, add_device_nodup,
}

abbrev pub Given {ℓ} : {A : Type ℓ} → Option A → Type 0
Given none = ⊥
Given (some a) = Unit

abbrev TargetGiven : Field → Dev → Type 0
TargetGiven f_disk d = Given (virtual_dev_of d)
TargetGiven _ d = Unit

-- add_device_nodup compares the ids of interfaces, disks, graphics devices and controllers; the devices of
-- the other lists may have none
abbrev pub IdGiven : Field → Option Bytes → Type 0
IdGiven f_net id = Given id
IdGiven f_disk id = Given id
IdGiven f_graphics id = Given id
IdGiven f_controller id = Given id
IdGiven _ id = Unit

-- a device has the id that its list asks for, and a disk has a target
abbrev pub Named : Field → VirtDevice → Type 0
Named f v = IdGiven f v.id × TargetGiven f v.dev

abbrev pub AllNamed : Field → List VirtDevice → Type 0
AllNamed f [] = Unit
AllNamed f (v ∷ list) = Named f v × AllNamed f list

pub AllNamed-append :
    (f : Field) (list : List VirtDevice) (v : VirtDevice)
    → AllNamed f list
    → Named f v
    → AllNamed f (list ++ (v ∷ []))
AllNamed-append f [] v n m = (m, tt)
AllNamed-append f (x ∷ list) v n m = (n.0, AllNamed-append f list v n.1 m)

-- a disk stands in the list of the disks
abbrev pub InField : ResType → Field → Type 0
InField disk f_disk = Unit
InField disk _ = ⊥
InField _ _ = Unit

pub ltb-true : (a b : ℕ) → a < b → ltb a b ≡ true
ltb-true a b h = ground arith

module _ (streqc : Bytes → Bytes → Bool)
    (streqc_iff : (s t : Bytes) → (streqc s t ≡ true) ↔ (lower s ≡ lower t)) where
  -- no later device has the id
  abbrev pub Fresh : VirtDevice → List VirtDevice → Type 0
  Fresh v [] = Unit
  Fresh v (x ∷ list) = (same streqc v.id x.id ≡ some false) × Fresh v list

  abbrev pub Distinct : List VirtDevice → Type 0
  Distinct [] = Unit
  Distinct (v ∷ list) = Fresh v list × Distinct list

  same_id : (a b c : Option Bytes) → same streqc a b ≡ some true → same streqc b c ≡ same streqc a c
  unfolding caseless
  same_id none b c e = absurd (cc)
  same_id (some a) none c e = absurd (cc)
  same_id (some a) (some b) none e = refl
  same_id (some a) (some b) (some c) e =
      let eq : streqc ≡ caseless = streqc-caseless streqc streqc_iff in
      let h : lower a ≡ lower b = (streqc_iff a b).0 (cc) in
      ap some
        (ap (λ f. f b c) eq ∙ ap (λ x. strcmp_eq x (lower c)) (sym h) ∙ ap (λ f. f a c) (sym eq))

  Fresh-same :
      (v w : VirtDevice) (list : List VirtDevice)
      → same streqc v.id w.id ≡ some true
      → Fresh v list
      → Fresh w list
  Fresh-same v w [] e h = tt
  Fresh-same v w (x ∷ list) e h = (same_id v.id w.id x.id e ∙ h.0, Fresh-same v w list e h.1)

  -- no device of the list has the id
  abbrev pub Unused : List VirtDevice → VirtDevice → Type 0
  Unused [] dev = Unit
  Unused (x ∷ list) dev = (same streqc x.id dev.id ≡ some false) × Unused list dev

  Fresh-append :
      (v dev : VirtDevice) (list : List VirtDevice)
      → Fresh v list
      → same streqc v.id dev.id ≡ some false
      → Fresh v (list ++ (dev ∷ []))
  Fresh-append v dev [] h e = (e, tt)
  Fresh-append v dev (x ∷ list) h e = (h.0, Fresh-append v dev list h.1 e)

  Distinct-append :
      (dev : VirtDevice) (list : List VirtDevice)
      → Distinct list
      → Unused list dev
      → Distinct (list ++ (dev ∷ []))
  Distinct-append dev [] d u = (tt, tt)
  Distinct-append dev (x ∷ list) d u =
      (Fresh-append x dev list d.0 u.0, Distinct-append dev list d.1 u.1)

  Given-same : (a b : Option Bytes) → Given a → Given b → Given (same streqc a b)
  Given-same none b g h = absurd g
  Given-same (some a) none g h = absurd h
  Given-same (some a) (some b) g h = tt

  Given-taken :
      (f : Field) (t : ResType) (ptr dev : VirtDevice)
      → InField t f
      → Named f ptr
      → Named f dev
      → Given (target_taken streqc t ptr dev)
  Given-taken f_disk disk ptr dev i n m =
      Given-same (virtual_dev_of ptr.dev) (virtual_dev_of dev.dev) n.1 m.1
  Given-taken f_net disk ptr dev i n m = absurd i
  Given-taken f_vcpu disk ptr dev i n m = absurd i
  Given-taken f_mem disk ptr dev i n m = absurd i
  Given-taken f_graphics disk ptr dev i n m = absurd i
  Given-taken f_console disk ptr dev i n m = absurd i
  Given-taken f_input disk ptr dev i n m = absurd i
  Given-taken f_controller disk ptr dev i n m = absurd i
  Given-taken f _ ptr dev i n m = tt

  module _ (f : Field) (dev : VirtDevice) where
    -- what the loop keeps: a device takes the place of the one that has its id
    abbrev LoopKeeps : List VirtDevice → Added → Type 0
    LoopKeeps list (placed l) =
        (length l ≡ length list)
        × AllNamed f l
        × Distinct l
        × ((v : VirtDevice) → Fresh v list → same streqc v.id dev.id ≡ some false → Fresh v l)
    LoopKeeps list absent = Unused list dev
    LoopKeeps list fault = ⊥
    LoopKeeps list _ = Unit

    keeps_after :
        (ptr : VirtDevice) (list : List VirtDevice) (rest : Added)
        → Named f ptr
        → Fresh ptr list
        → same streqc ptr.id dev.id ≡ some false
        → LoopKeeps list rest
        → LoopKeeps (ptr ∷ list) (after ptr rest)
    keeps_after ptr list (placed l) n h e (len, names, d, fresh) =
        (ap suc len, (n, names), (fresh ptr h e, d), λ v hv ev. (hv.0, fresh v hv.1 ev))
    keeps_after ptr list absent n h e u = (e, u)
    keeps_after ptr list not_unique n h e u = tt
    keeps_after ptr list no_slots n h e u = tt
    keeps_after ptr list fault n h e u = u

    keeps_round :
        (taken s : Option Bool) (ptr : VirtDevice) (list : List VirtDevice) (rest : Added)
        → Given taken
        → Given s
        → same streqc ptr.id dev.id ≡ s
        → Named f dev
        → AllNamed f (ptr ∷ list)
        → Distinct (ptr ∷ list)
        → LoopKeeps list rest
        → LoopKeeps (ptr ∷ list) (add_round streqc taken s ptr dev list rest)
    keeps_round none s ptr list rest g g' e m n d k = absurd g
    keeps_round (some true) s ptr list rest g g' e m n d k = tt
    keeps_round (some false) none ptr list rest g g' e m n d k = absurd g'
    keeps_round (some false) (some true) ptr list rest g g' e m n d k =
        (refl, (m, n.1), (Fresh-same ptr dev list e d.0, d.1), λ v h x. (x, h.1))
    keeps_round (some false) (some false) ptr list rest g g' e m n d k =
        keeps_after ptr list rest n.0 d.0 e k

    loop_keeps :
        (t : ResType) (list : List VirtDevice)
        → ((id : Option Bytes) → IdGiven f id → Given id)
        → dev.type ≡ t
        → InField t f
        → Named f dev
        → AllNamed f list
        → Distinct list
        → LoopKeeps list (add_loop streqc dev list)
    unfolding add_loop
    loop_keeps t [] ids e i m n d = tt
    loop_keeps t (ptr ∷ list) ids e i m n d =
        keeps_round _ (same streqc ptr.id dev.id) ptr list (add_loop streqc dev list)
          (subst (λ u. Given (target_taken streqc u ptr dev)) (sym e)
            (Given-taken f t ptr dev i n.0 m))
          (Given-same ptr.id dev.id (ids ptr.id n.0.0) (ids dev.id m.0)) refl m n d
          (loop_keeps t list ids e i m n.1 d.1)

    -- What adding keeps, where the list has a slot left: one device more at most.
    abbrev pub AddKeeps : ℕ → Added → Type 0
    AddKeeps n (placed l) = (length l ≤ suc n) × AllNamed f l × Distinct l
    AddKeeps n fault = ⊥
    AddKeeps n _ = Unit

    behind_keeps :
        (cap max : ℕ) (list : List VirtDevice) (r : Added)
        → length list < cap
        → Named f dev
        → AllNamed f list
        → Distinct list
        → LoopKeeps list r
        → AddKeeps (length list) (add_behind streqc cap max dev list r)
    behind_keeps cap max list (placed l) lt m n d (len, names, distinct, fresh) =
        (omega (arith, len), names, distinct)
    behind_keeps cap max list not_unique lt m n d k = tt
    behind_keeps cap max list no_slots lt m n d k = tt
    behind_keeps cap max list fault lt m n d k = k
    behind_keeps cap max list absent lt m n d u = elim (Bool-cases (length list == max)) [
      | inl e ↦ rw e tt
      | inr e ↦
          rw (e, ltb-true (length list) cap lt)
            (
              omega (arith, length-append list (dev ∷ [])),
              AllNamed-append f list dev n m,
              Distinct-append dev list d u,
            )
    ]

    pub add_keeps :
        (cap max : ℕ) (list : List VirtDevice)
        → ((id : Option Bytes) → IdGiven f id → Given id)
        → length list < cap
        → InField dev.type f
        → Named f dev
        → AllNamed f list
        → Distinct list
        → AddKeeps (length list) (add_device_nodup streqc cap max dev list)
    unfolding add_device_nodup
    add_keeps cap max list ids lt i m n d =
        behind_keeps cap max list (add_loop streqc dev list) lt m n d
          (loop_keeps dev.type list ids refl i m n d)
