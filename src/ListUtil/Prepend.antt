-- ===== src/ListUtil/Prepend.antt =====
-- `list_prepend`: `list_append`, and one step back of the head.
use libvirt_cim.Prelude.{
  ◌≡◌, refl, ap, Bool, Option, none, some, List, [], ◌∷◌, ◌++◌, arith, length-append,
}
use libvirt_cim.ListUtil.{Ptr, ListT, Memory, with_list, step_head_back, list_append, list_prepend}
use libvirt_cim.ListUtil.Chain.{Run, last-append, run_snoc}
use libvirt_cim.ListUtil.Append.{append-Represents, holding, grown}
use libvirt_cim.ListUtil.Relink.{Ring-rotate}
use libvirt_cim.ListUtil.Ring.{Represents, Holds}

module _ {ℓ} {A : Type ℓ} where
  abbrev headed : ListT A → Ptr → ListT A
  headed l h = record l { head = some h }

  -- `list->head = list->head->prev` makes the last node the first.
  step_back-Represents :
      (m : Memory A) (l : ListT A) (ps : Run A) (n : Ptr) (x : A)
      → Represents m l (ps ++ ((n, x) ∷ []))
      → (step_head_back m ≡ some (with_list m (headed l n)))
        × Represents (with_list m (headed l n)) (headed l n) ((n, x) ∷ ps)
  unfolding step_head_back
  step_back-Represents m l [] n x rep = (
    rw (rep.is_list, rep.at_head) (rw rep.ring.0 refl),
    record { is_list = refl; at_head = refl; ring = rep.ring; counted = rep.counted },
  )
  step_back-Represents m l ((h, d) ∷ ps) n x rep = (
    rw (rep.is_list, rep.at_head) (rw rep.ring.0 (rw last-append refl)),
    record {
      is_list = refl;
      at_head = refl;
      ring = Ring-rotate m.cell ((h, d) ∷ ps) ((n, x) ∷ []) rep.ring;
      counted = omega (arith, rep.counted, length-append {ℓ} ps ((n, x) ∷ []));
    },
  )

  -- Given a node, `list_prepend` puts the payload at the front and frees nothing.
  pub prepend-Holds :
      (m : Memory A) (f : Bool) (cmp : Option (A → A → Bool)) (xs : List A) (n : Ptr) (x : A)
      → m.cell n ≡ none
      → Holds m f cmp xs
      → (m' : Memory A) × (list_prepend (some n) x m ≡ some m')
        × Holds m' f cmp (x ∷ xs)
        × (m'.freed ≡ m.freed)
  unfolding list_prepend
  prepend-Holds m f cmp xs n x free held =
      let (c, h, done, rep) = append-Represents m held.list held.run n x free held.represents in
      let m₁ = holding m c (grown held.list h) in
      let (back, rep') = step_back-Represents m₁ (grown held.list h) held.run n x rep in
      (
        with_list m₁ (headed (grown held.list h) n),
        rw done back,
        record {
          list = headed (grown held.list h) n;
          run = (n, x) ∷ held.run;
          represents = rep';
          same_free = held.same_free;
          same_cmp = held.same_cmp;
          same_payloads = ap (λ l. x ∷ l) held.same_payloads;
        },
        refl,
      )

  -- Where `calloc` fails, `list_append` changes nothing, and `list_prepend` still moves the head: the
  -- last payload of a list that is not empty comes to the front.
  pub prepend_no_memory :
      (m : Memory A) (f : Bool) (cmp : Option (A → A → Bool)) (xs : List A) (y x : A)
      → Holds m f cmp (xs ++ (y ∷ []))
      → (list_append none x m ≡ some m)
        × ((m' : Memory A) × (list_prepend none x m ≡ some m') × Holds m' f cmp (y ∷ xs))
  unfolding list_prepend
  prepend_no_memory m f cmp xs y x held =
      let (qs, n, same, rest) = run_snoc held.run xs y held.same_payloads in
      let (back, rep) = step_back-Represents m held.list qs n y (rw same at held.represents) in
      let kept : list_append none x m ≡ some m =
        unfold list_append in ground (arith, held.represents) in
      (
        kept,
        (
          with_list m (headed held.list n),
          rw kept back,
          record {
            list = headed held.list n;
            run = (n, y) ∷ qs;
            represents = rep;
            same_free = held.same_free;
            same_cmp = held.same_cmp;
            same_payloads = ap (λ l. y ∷ l) rest;
          },
        ),
      )

  -- On a NULL list `list_append` does nothing, and `list_prepend` reads through NULL.
  pub prepend_null :
      (m : Memory A) (fresh : Option Ptr) (x : A)
      → m.list ≡ none
      → (list_append fresh x m ≡ some m) × (list_prepend fresh x m ≡ none)
  unfolding list_prepend list_append step_head_back
  prepend_null m fresh x e = (ground arith, ground arith)
