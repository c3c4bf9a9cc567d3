-- ===== src/Resources/Fits.antt =====
-- classify_resources stays within the memory that make_space gave, and ids stay distinct.
use libvirt_cim.Prelude.{
  ℕ, suc, ◌+◌, ◌≤◌, ◌<◌, ◌≡◌, refl, sym, subst, ◌↔◌, Bool, true, false, Option, none, some, List,
  [], ◌∷◌, ◌++◌, Bytes, length, length-append, if◌then◌else◌, arith, Bool-cases, inl, inr,
}
use libvirt_cim.Compare.{lower}
use libvirt_cim.Device.{
  ResType, all, unknown, image, proc, mem, net, disk, graphics, input, console, emu, controller,
  VirtDevice,
}
use libvirt_cim.Resources.{
  Domain, Field, f_net, f_disk, f_vcpu, f_mem, f_graphics, f_console, f_input, f_controller, get,
  set, find_list, zeroed,
}
use libvirt_cim.Resources.Classify.{
  Added, placed, absent, not_unique, no_slots, fault, Caps, Classified, store, first_of, by_nodup,
  the_one, append_console, classify_one, classify_typed, next, classify_loop,
}
use libvirt_cim.Resources.Distinct.{
  Given, IdGiven, Named, AllNamed, AllNamed-append, Distinct, InField, AddKeeps, add_keeps,
  ltb-true,
}

-- what holds of the list that is set, and of each other list as it was
set_all {ℓ} :
    (P : Field → List VirtDevice → Type ℓ) (d : Domain) (f : Field) (l : List VirtDevice)
    → P f l
    → ((g : Field) → P g (get d g))
    → (g : Field) → P g (get (set d f l) g)
unfolding get set
set_all P d f_net l p h f_net = p
set_all P d f_net l p h g = h g
set_all P d f_disk l p h f_disk = p
set_all P d f_disk l p h g = h g
set_all P d f_vcpu l p h f_vcpu = p
set_all P d f_vcpu l p h g = h g
set_all P d f_mem l p h f_mem = p
set_all P d f_mem l p h g = h g
set_all P d f_graphics l p h f_graphics = p
set_all P d f_graphics l p h g = h g
set_all P d f_console l p h f_console = p
set_all P d f_console l p h g = h g
set_all P d f_input l p h f_input = p
set_all P d f_input l p h g = h g
set_all P d f_controller l p h f_controller = p
set_all P d f_controller l p h g = h g

module _ (streqc : Bytes → Bytes → Bool)
    (streqc_iff : (s t : Bytes) → (streqc s t ≡ true) ↔ (lower s ≡ lower t)) where
  -- ids differ where add_device_nodup compares them
  abbrev pub DistinctIn : Field → List VirtDevice → Type 0
  DistinctIn f_net list = Distinct streqc streqc_iff list
  DistinctIn f_disk list = Distinct streqc streqc_iff list
  DistinctIn f_graphics list = Distinct streqc streqc_iff list
  DistinctIn f_controller list = Distinct streqc streqc_iff list
  DistinctIn _ list = Unit

  -- Each interface, disk, graphics device and controller has an id that no other of its list has, and each
  -- disk a target.
  abbrev pub WellFormed : Domain → Type 0
  WellFormed d = (f : Field) → AllNamed f (get d f) × DistinctIn f (get d f)

  single : (f : Field) (v : VirtDevice) → DistinctIn f (v ∷ [])
  single f_net v = (tt, tt)
  single f_disk v = (tt, tt)
  single f_graphics v = (tt, tt)
  single f_controller v = (tt, tt)
  single _ v = tt

  module _ (caps : Caps) where
    -- a list with room for `n` devices more
    abbrev pub Room : ℕ → Field → List VirtDevice → Type 0
    Room n f list = (length list + n ≤ caps f) × AllNamed f list × DistinctIn f list

    abbrev pub Ready : ℕ → Domain → Type 0
    Ready n d = (f : Field) → Room n f (get d f)

    -- no fault, and within the memory
    abbrev pub Done : ℕ → Classified streqc → Type 0
    Done n none = ⊥
    Done n (some (true, d)) = Ready n d
    Done n (some (false, d)) = (f : Field) → length (get d f) ≤ caps f

    less : (n : ℕ) (f : Field) (list : List VirtDevice) → Room (suc n) f list → Room n f list
    less n f list (len, names, distinct) = (omega (arith, len), names, distinct)

    within : (n : ℕ) (d : Domain) → Ready n d → (f : Field) → length (get d f) ≤ caps f
    within n d h f = omega (arith, (h f).0)

    console_set :
        (n : ℕ) (d : Domain) (dev : VirtDevice)
        → Named f_console dev
        → Ready (suc n) d
        → Ready n (record d { dev_console = d.dev_console ++ (dev ∷ []) })
    unfolding get set
    console_set n d dev named h =
        set_all (Room n) d f_console (d.dev_console ++ (dev ∷ []))
          (
            omega (arith, (h f_console).0, length-append d.dev_console (dev ∷ [])),
            AllNamed-append f_console d.dev_console dev (h f_console).1 named,
            tt,
          )
          (λ g. less n g (get d g) (h g))

    module _ {ℓ} (Rasd : Type ℓ) (res_type : Rasd → Option ResType)
        (rasd_to_vdev : Rasd → VirtDevice → Bool × VirtDevice)
        (converts : (inst : Rasd) (t : ResType) (f : Field) (d : VirtDevice)
          → res_type inst ≡ some t
          → find_list t ≡ some f
          → (rasd_to_vdev inst d).0 ≡ true
          → ((rasd_to_vdev inst d).1.type ≡ t) × Named f (rasd_to_vdev inst d).1)
        (count : ℕ) where
      stored :
          (n : ℕ) (d : Domain) (f : Field) (r : Added)
          → DistinctIn f ≡ Distinct streqc streqc_iff
          → Ready (suc n) d
          → AddKeeps streqc streqc_iff f zeroed (length (get d f)) r
          → Done n (store streqc d f r)
      stored n d f (placed l) e h (len, names, distinct) =
          set_all (Room n) d f l
            (omega (arith, len, (h f).0), names, subst (λ P. P l) (sym e) distinct)
            (λ g. less n g (get d g) (h g))
      stored n d f absent e h k = within (suc n) d h
      stored n d f not_unique e h k = within (suc n) d h
      stored n d f no_slots e h k = within (suc n) d h
      stored n d f fault e h k = k

      by_nodup_done :
          (n : ℕ) (d : Domain) (f : Field) (t : ResType) (inst : Rasd)
          → DistinctIn f ≡ Distinct streqc streqc_iff
          → ((id : Option Bytes) → IdGiven f id → Given id)
          → find_list t ≡ some f
          → InField t f
          → res_type inst ≡ some t
          → Ready (suc n) d
          → Done n (by_nodup streqc Rasd res_type rasd_to_vdev count caps f inst d)
      by_nodup_done n d f t inst e ids l i r h = elim (Bool-cases (rasd_to_vdev inst zeroed).0) [
        | inr b ↦ rw b (within (suc n) d h)
        | inl b ↦
            let (type, named) = converts inst t f zeroed r l b in
            rw b (
              stored n d f _ e h (
                add_keeps streqc streqc_iff f (rasd_to_vdev inst zeroed).1 (caps f)
                  (count + length (get d f)) (get d f) ids (omega (arith, (h f).0))
                  (subst (λ u. InField u f) (sym type) i) named (h f).1
                  (subst (λ P. P (get d f)) e (h f).2)))
      ]

      the_one_done :
          (n : ℕ) (d : Domain) (f : Field) (t : ResType) (inst : Rasd)
          → find_list t ≡ some f
          → res_type inst ≡ some t
          → Ready (suc n) d
          → Done n (the_one streqc Rasd res_type rasd_to_vdev count caps f inst d)
      the_one_done n d f t inst l r h =
          let dev : VirtDevice = (rasd_to_vdev inst (first_of streqc (get d f))).1 in
          let room : 0 < caps f = omega (arith, (h f).0) in
          let result : Bool → Classified streqc = λ ok. some (ok, set d f (dev ∷ [])) in
          subst
            (λ b.
              Done n (if b then result (rasd_to_vdev inst (first_of streqc (get d f))).0 else none))
            (sym (ltb-true 0 (caps f) room))
            (elim (Bool-cases (rasd_to_vdev inst (first_of streqc (get d f))).0) [
              | inl b ↦
                  let named : Named f dev =
                    (converts inst t f (first_of streqc (get d f)) r l b).1 in
                  subst (λ x. Done n (result x)) (sym b)
                    (set_all (Room n) d f (dev ∷ [])
                      (omega (arith, (h f).0), (named, tt), single f dev)
                      (λ g. less n g (get d g) (h g)))
              | inr b ↦
                  subst (λ x. Done n (result x)) (sym b)
                    (set_all (λ g list. length list ≤ caps g) d f (dev ∷ []) (omega (arith, room))
                      (within (suc n) d h))
            ])

      console_done :
          (n : ℕ) (d : Domain) (inst : Rasd)
          → res_type inst ≡ some console
          → Ready (suc n) d
          → Done n (append_console streqc Rasd res_type rasd_to_vdev count caps inst d)
      unfolding get
      console_done n d inst r h =
          let dev : VirtDevice = (rasd_to_vdev inst zeroed).1 in
          let list : List VirtDevice = d.dev_console in
          let result : Bool → Classified streqc = λ ok.
            some
              (if ok then (true, record d { dev_console = list ++ (dev ∷ []) }) else (false, d)) in
          subst (λ b. Done n (if b then result (rasd_to_vdev inst zeroed).0 else none))
            (sym (ltb-true (length list) (caps f_console) (omega (arith, (h f_console).0))))
            (elim (Bool-cases (rasd_to_vdev inst zeroed).0) [
              | inl b ↦
                  let named : Named f_console dev =
                    (converts inst console f_console zeroed r (unfold find_list in refl) b).1 in
                  subst (λ x. Done n (result x)) (sym b) (console_set n d dev named h)
              | inr b ↦ subst (λ x. Done n (result x)) (sym b) (within (suc n) d h)
            ])

      classify_one_done :
          (n : ℕ) (d : Domain) (t : ResType) (inst : Rasd)
          → res_type inst ≡ some t
          → Ready (suc n) d
          → Done n (classify_one streqc Rasd res_type rasd_to_vdev count caps t inst d)
      unfolding classify_one find_list
      classify_one_done n d proc inst r h = the_one_done n d f_vcpu proc inst refl r h
      classify_one_done n d mem inst r h = the_one_done n d f_mem mem inst refl r h
      classify_one_done n d disk inst r h =
          by_nodup_done n d f_disk disk inst refl (λ id g. g) refl tt r h
      classify_one_done n d net inst r h =
          by_nodup_done n d f_net net inst refl (λ id g. g) refl tt r h
      classify_one_done n d graphics inst r h =
          by_nodup_done n d f_graphics graphics inst refl (λ id g. g) refl tt r h
      classify_one_done n d console inst r h = console_done n d inst r h
      classify_one_done n d input inst r h = the_one_done n d f_input input inst refl r h
      classify_one_done n d controller inst r h =
          by_nodup_done n d f_controller controller inst refl (λ id g. g) refl tt r h
      classify_one_done n d all inst r h = λ g. less n g (get d g) (h g)
      classify_one_done n d unknown inst r h = λ g. less n g (get d g) (h g)
      classify_one_done n d image inst r h = λ g. less n g (get d g) (h g)
      classify_one_done n d emu inst r h = λ g. less n g (get d g) (h g)

      typed_done :
          (n : ℕ) (d : Domain) (o : Option ResType) (inst : Rasd)
          → res_type inst ≡ o
          → Ready (suc n) d
          → Done n (classify_typed streqc Rasd res_type rasd_to_vdev count caps o inst d)
      typed_done n d none inst r h = within (suc n) d h
      typed_done n d (some t) inst r h = classify_one_done n d t inst r h

      next_done :
          (n : ℕ) (rest : Domain → Classified streqc) (c : Classified streqc)
          → ((d : Domain) → Ready n d → Done 0 (rest d))
          → Done n c
          → Done 0 (next streqc Rasd res_type rasd_to_vdev count caps rest c)
      next_done n rest none k h = h
      next_done n rest (some (true, d)) k h = k d h
      next_done n rest (some (false, d)) k h = h

      pub loop_done :
          (resources : List Rasd) (d : Domain)
          → Ready (length resources) d
          → Done 0 (classify_loop streqc Rasd res_type rasd_to_vdev count caps resources d)
      unfolding classify_loop
      loop_done [] d h = h
      loop_done (inst ∷ resources) d h =
          next_done (length resources)
            (classify_loop streqc Rasd res_type rasd_to_vdev count caps resources)
            (classify_typed streqc Rasd res_type rasd_to_vdev count caps (res_type inst) inst d)
            (loop_done resources) (typed_done (length resources) d (res_type inst) inst refl h)
