-- ===== src/ListUtil/Append.antt =====
-- `list_append` and `list_prepend` on the represented sequence.
use libvirt_cim.Prelude.{
  ◌≡◌, refl, ap, ◌∙◌, Bool, Option, none, some, List, [], ◌∷◌, ◌++◌, arith, ◌+◌, length-append,
}
use libvirt_cim.ListUtil.{Ptr, Cells, ListT, Memory, node, write, u32, list_append, link_last}
use libvirt_cim.ListUtil.Chain.{Run, last, payloads-append, Chain-frame, fresh-not-has}
use libvirt_cim.ListUtil.Relink.{Chain-relink, Ring-rotate}
use libvirt_cim.ListUtil.Ring.{Represents, Holds, Ring}

module _ {ℓ} {A : Type ℓ} where
  -- the three writes on a ring that is not empty put the node between the last one and the head
  link_last-Ring :
      (c : Cells A) (h : Ptr) (d : A) (ps : Run A) (n : Ptr) (x : A)
      → c n ≡ none
      → Ring c ((h, d) ∷ ps)
      → (c' : Cells A) × (link_last h n x c ≡ some c') × Ring c' ((n, x) ∷ (h, d) ∷ ps)
  unfolding link_last
  link_last-Ring c h d ps n x free ring =
      let out = fresh-not-has c n (last h ps) ((h, d) ∷ ps) h free ring in
      let c₁ = write c n (some (node (last h ps) h x)) in
      let ring₁ =
        Chain-frame c n (some (node (last h ps) h x)) (last h ps) ((h, d) ∷ ps) h out ring in
      let (c', done, ring', same) = Chain-relink c₁ (last h ps) h d ps h n n ring₁ in
      (c', rw ring.0 done, (same n out ∙ ground arith, out, ring'))

  -- the list after one more node, with the head at `head`
  abbrev pub grown : ListT A → Ptr → ListT A
  grown l head = record l { count = u32 (l.count + 1); head = some head }

  abbrev pub holding : Memory A → Cells A → ListT A → Memory A
  holding m c l = record m { cell = c; list = some l }

  pub append-Represents :
      (m : Memory A) (l : ListT A) (ps : Run A) (n : Ptr) (x : A)
      → m.cell n ≡ none
      → Represents m l ps
      → (c : Cells A) × (h : Ptr) × (list_append (some n) x m ≡ some (holding m c (grown l h)))
        × Represents (holding m c (grown l h)) (grown l h) (ps ++ ((n, x) ∷ []))
  unfolding list_append
  append-Represents m l [] n x free rep = (
    write m.cell n (some (node n n x)),
    n,
    rw (rep.is_list, rep.at_head) refl,
    record {
      is_list = refl;
      at_head = refl;
      ring = (unfold write in ground arith, refl, tt);
      counted = omega (arith, rep.counted);
    },
  )
  append-Represents m l ((h, d) ∷ ps) n x free rep =
      let (c', done, ring) = link_last-Ring m.cell h d ps n x free rep.ring in
      (
        c',
        h,
        rw (rep.is_list, rep.at_head) (rw done refl),
        record {
          is_list = refl;
          at_head = refl;
          ring = Ring-rotate c' ((n, x) ∷ []) ((h, d) ∷ ps) ring;
          counted = omega (arith, rep.counted, length-append {ℓ} ps ((n, x) ∷ []));
        },
      )

  -- Given a node, `list_append` puts the payload at the end and frees nothing.
  pub append-Holds :
      (m : Memory A) (f : Bool) (cmp : Option (A → A → Bool)) (xs : List A) (n : Ptr) (x : A)
      → m.cell n ≡ none
      → Holds m f cmp xs
      → (m' : Memory A) × (list_append (some n) x m ≡ some m')
        × Holds m' f cmp (xs ++ (x ∷ []))
        × (m'.freed ≡ m.freed)
  append-Holds m f cmp xs n x free held =
      let (c', h, done, rep) = append-Represents m held.list held.run n x free held.represents in
      (
        holding m c' (grown held.list h),
        done,
        record {
          list = grown held.list h;
          run = held.run ++ ((n, x) ∷ []);
          represents = rep;
          same_free = held.same_free;
          same_cmp = held.same_cmp;
          same_payloads =
              payloads-append held.run ((n, x) ∷ []) ∙ ap (λ l. l ++ (x ∷ [])) held.same_payloads;
        },
        refl,
      )
