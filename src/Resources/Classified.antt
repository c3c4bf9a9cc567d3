-- ===== src/Resources/Classified.antt =====
-- What classify_resources makes of the devices of a domain.
use libvirt_cim.Prelude.{
  ℕ, suc, ◌+◌, ◌≤◌, ◌≡◌, refl, subst, ◌↔◌, Bool, true, false, Option, none, some, List, [], ◌∷◌,
  Bytes, length, arith,
}
use libvirt_cim.Compare.{lower}
use libvirt_cim.Device.{ResType, VirtDevice}
use libvirt_cim.Resources.{Domain, Field, get, find_list}
use libvirt_cim.Resources.Classify.{Classified, make_space, classify_resources}
use libvirt_cim.Resources.Distinct.{Named}
use libvirt_cim.Resources.Fits.{WellFormed, Done, loop_done}

module _ {ℓ} (streqc : Bytes → Bytes → Bool)
    (streqc_iff : (s t : Bytes) → (streqc s t ≡ true) ↔ (lower s ≡ lower t)) (Rasd : Type ℓ)
    (res_type : Rasd → Option ResType) (rasd_to_vdev : Rasd → VirtDevice → Bool × VirtDevice)
    (converts : (inst : Rasd) (t : ResType) (f : Field) (d : VirtDevice)
      → res_type inst ≡ some t
      → find_list t ≡ some f
      → (rasd_to_vdev inst d).0 ≡ true
      → ((rasd_to_vdev inst d).1.type ≡ t) × Named f (rasd_to_vdev inst d).1) where
  abbrev classify : List Rasd → Domain → Classified streqc
  classify = classify_resources streqc Rasd res_type rasd_to_vdev

  -- no fault, within the memory, and well formed if there was no message
  abbrev Outcome : Domain → ℕ → Classified streqc → Type 0
  Outcome d n none = ⊥
  Outcome d n (some (ok, d')) =
      ((f : Field) → length (get d' f) ≤ length (get d f) + n)
      × (ok ≡ true → WellFormed streqc streqc_iff d')

  from_done :
      (d : Domain) (n : ℕ) (c : Classified streqc)
      → Done streqc streqc_iff (make_space d n) 0 c
      → Outcome d n c
  from_done d n none h = h
  from_done d n (some (true, d')) h = (λ f. omega (arith, (h f).0), λ e f. ((h f).1, (h f).2))
  from_done d n (some (false, d')) h = (h, λ e. absurd (cc))

  outcome :
      (resources : List Rasd) (d : Domain)
      → WellFormed streqc streqc_iff d
      → Outcome d (length resources) (classify resources d)
  unfolding classify_resources
  outcome [] d w = (λ f. omega arith, λ e. absurd (cc))
  outcome (inst ∷ resources) d w =
      let n = suc (length resources) in
      from_done d n _ (
        loop_done streqc streqc_iff (make_space d n) Rasd res_type rasd_to_vdev converts n
          (inst ∷ resources) d (λ f. (omega arith, (w f).0, (w f).1)))

  -- the answer and the domain, where there is no fault
  given :
      (d : Domain) (n : ℕ) (c : Classified streqc)
      → Outcome d n c
      → (ok : Bool) × (d' : Domain) × (c ≡ some (ok, d'))
        × ((f : Field) → length (get d' f) ≤ length (get d f) + n)
  given d n none o = absurd o
  given d n (some (ok, d')) o = (ok, d', refl, o.0)

  formed :
      (d : Domain) (n : ℕ) (c : Classified streqc) (d' : Domain)
      → Outcome d n c
      → c ≡ some (true, d')
      → WellFormed streqc streqc_iff d'
  formed d n c d' o e = (subst (Outcome d n) e o).1 refl

  -- On a well formed domain, and where STREQC compares strings but for the case of letters and
  -- rasd_to_vdev gives a device of the type of the resource, with an id if it is an interface, a disk, a
  -- graphics device or a controller, and with a target if it is a disk, classify_resources never
  -- writes past the memory of make_space nor reads a NULL string: it returns, with a message or without,
  -- and each list is at most as much longer as there are resources.
  pub classify_resources-fits :
      (resources : List Rasd) (d : Domain)
      → WellFormed streqc streqc_iff d
      → (ok : Bool) × (d' : Domain) × (classify_resources streqc Rasd res_type rasd_to_vdev
            resources d
          ≡ some (ok, d'))
        × ((f : Field) → length (get d' f) ≤ length (get d f) + length resources)
  classify_resources-fits resources d w =
      given d (length resources) (classify resources d) (outcome resources d w)

  -- On a well formed domain, and where STREQC compares strings but for the case of letters and
  -- rasd_to_vdev gives a device of the type of the resource, with an id if it is an interface, a disk, a
  -- graphics device or a controller, and with a target if it is a disk, the domain that
  -- classify_resources gives without a message is well formed again: ids still differ.
  pub classify_resources-WellFormed :
      (resources : List Rasd) (d d' : Domain)
      → WellFormed streqc streqc_iff d
      → classify_resources streqc Rasd res_type rasd_to_vdev resources d ≡ some (true, d')
      → WellFormed streqc streqc_iff d'
  classify_resources-WellFormed resources d d' w e =
      formed d (length resources) (classify resources d) d' (outcome resources d w) e
