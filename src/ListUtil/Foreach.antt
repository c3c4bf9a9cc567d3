-- ===== src/ListUtil/Foreach.antt =====
-- `list_foreach`: every payload once, in order, until the callback answers false.
use libvirt_cim.Prelude.{
  ℕ, zero, suc, ◌<◌, ◌≡◌, refl, ap, ◌∙◌, Bool, false, Option, some, List, [], ◌∷◌, arith, length,
}
use libvirt_cim.ListUtil.{Ptr, Cells, Memory, foreach_loop, list_foreach}
use libvirt_cim.ListUtil.Chain.{Run, Chain, has, last, payloads}
use libvirt_cim.ListUtil.Ring.{Represents, Holds}
use libvirt_cim.ListUtil.Search.{length_run}
use libvirt_cim.ListUtil.Seq

module _ {ℓ κ} {A : Type ℓ} {U : Type κ} (cb : A → U → Bool × U) where
  foreach_loop-Chain :
      (k : ℕ) (c : Cells A) (h p n : Ptr) (d : A) (rs : Run A) (u : U)
      → Chain c p ((n, d) ∷ rs) h
      → has h rs ≡ false
      → length rs < k
      → foreach_loop k cb c h n u ≡ some (Seq.foreach cb (payloads ((n, d) ∷ rs)) u)
  unfolding foreach_loop Seq.foreach
  foreach_loop-Chain zero c h p n d rs u ch out lt = elim lt [ ]
  foreach_loop-Chain (suc k) c h p n d [] u ch out lt = rw ch.0 (ground arith)
  foreach_loop-Chain (suc k) c h p n d ((a, x) ∷ rs) u ch out lt =
      let ih = foreach_loop-Chain k c h n a x rs (cb d u).1 ch.2 (ground arith) (omega arith) in
      rw ch.0 (ground (arith, ih))

  foreach-Represents :
      (m : Memory A) (l : _) (ps : Run A) (u : U) (fuel : ℕ)
      → Represents m l ps
      → length ps < fuel
      → list_foreach fuel cb m u ≡ some (Seq.foreach cb (payloads ps) u)
  unfolding list_foreach
  foreach-Represents m l [] u fuel rep lt =
      rw (rep.is_list, rep.at_head) (unfold Seq.foreach in refl)
  foreach-Represents m l ((h, d) ∷ ps) u fuel rep lt =
      rw (rep.is_list, rep.at_head)
        (foreach_loop-Chain fuel m.cell h (last h ps) h d ps u rep.ring rep.ring.1 (omega arith))

  -- On a list, `list_foreach` runs the callback as the specification does, on each payload from the head
  -- on until it answers false, and ends within one round more than the list is long.
  pub foreach-Holds :
      (m : Memory A) (f : Bool) (cmp : Option (A → A → Bool)) (xs : List A) (u : U) (fuel : ℕ)
      → Holds m f cmp xs
      → length xs < fuel
      → list_foreach fuel cb m u ≡ some (Seq.foreach cb xs u)
  foreach-Holds m f cmp xs u fuel held lt =
      foreach-Represents m held.list held.run u fuel held.represents
        (omega (arith, length_run held.run xs held.same_payloads))
      ∙ ap (λ l. some (Seq.foreach cb l u)) held.same_payloads
