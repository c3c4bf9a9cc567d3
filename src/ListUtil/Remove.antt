-- ===== src/ListUtil/Remove.antt =====
-- `list_remove_node` on the represented sequence.
use libvirt_cim.Prelude.{
  ℕ, ◌≡◌, refl, sym, ◌∙◌, false, Option, none, some, List, [], ◌∷◌, ◌++◌, arith, ◌+◌, ◌-◌, ◌^◌,
  ◌==◌, ==_refl, length, length-append, if◌then◌else◌,
}
use libvirt_cim.ListUtil.{
  Ptr, Cells, ListT, Memory, node, write, u32, unlink, unlink_node, list_remove_node,
}
use libvirt_cim.ListUtil.Chain.{Run, Apart, last, Chain-frame, Chain-split}
use libvirt_cim.ListUtil.Relink.{Chain-relink, Ring-rotate}
use libvirt_cim.ListUtil.Ring.{Represents, Ring, head_of}

module _ {ℓ} {A : Type ℓ} where
  abbrev pub freed_with : ListT A → List A → A → List A
  freed_with l fs d = if l.free_cb then fs ++ (d ∷ []) else fs

  -- the head after `p` has left a ring with head `h`, the others being `rs` from `p` on
  abbrev head_after : Ptr → Ptr → Run A → Option Ptr
  head_after h p [] = none
  head_after h p ((a, _) ∷ rs) = if p == h then some a else some h

  abbrev shrunk : ListT A → Option Ptr → ListT A
  shrunk l head = record l { count = u32 (l.count + (2 ^ 32 - 1)); head = head }

  abbrev without : Memory A → Cells A → ListT A → A → Option Ptr → Memory A
  without m c l d head = record m {
    cell = c;
    list = some (shrunk l head);
    freed = freed_with l m.freed d;
  }

  unlink-Ring :
      (c : Cells A) (p : Ptr) (d : A) (a : Ptr) (e : A) (rs : Run A)
      → Ring c ((p, d) ∷ (a, e) ∷ rs)
      → (c' : Cells A) × (unlink (node (last a rs) a d) c ≡ some c')
        × Ring (write c' p none) ((a, e) ∷ rs)
        × (c' p ≡ some (node (last a rs) a d))
  unfolding unlink
  unlink-Ring c p d a e rs ring =
      let (c', done, ring', same) = Chain-relink c p a e rs p (last a rs) a ring.2 in
      (
        c',
        done,
        Chain-frame c' p none (last a rs) ((a, e) ∷ rs) a ring.1 ring',
        same p ring.1 ∙ ring.0,
      )

  -- removal of the node that the ring is read from
  remove_first :
      (m : Memory A) (l : ListT A) (h p : Ptr) (d : A) (rs : Run A)
      → m.list ≡ some l
      → l.head ≡ some h
      → Ring m.cell ((p, d) ∷ rs)
      → (c : Cells A) × (list_remove_node (some p) m ≡ some (without m c l d (head_after h p rs)))
        × Ring c rs
        × (c p ≡ none)
  unfolding list_remove_node unlink_node
  remove_first m l h p d [] is head ring = (
    write m.cell p none,
    rw (is, head) (rw ring.0 (rw ==_refl (rw ring.0 refl))),
    tt,
    unfold write in ground arith,
  )
  remove_first m l h p d ((a, e) ∷ rs) is head ring =
      let (c, done, ring', at_p) = unlink-Ring m.cell p d a e rs ring in
      let ne : (a == p) ≡ false = ground (arith, ring.1) in
      (
        write c p none,
        rw (is, head) (rw ring.0 (rw ne (rw done (rw at_p refl)))),
        ring',
        unfold write in ground arith,
      )

  -- The nodes before and after the removed one, from its successor round to its predecessor.
  head_after_lem :
      (h p : Ptr) (d : A) (ps qs : Run A)
      → some h ≡ head_of (ps ++ ((p, d) ∷ qs))
      → Apart ps ((p, d) ∷ qs)
      → head_after h p (qs ++ ps) ≡ head_of (ps ++ qs)
  head_after_lem h p d [] [] e apart = refl
  head_after_lem h p d [] ((a, x) ∷ qs) e apart = ground arith
  head_after_lem h p d ((b, y) ∷ ps) [] e apart = ground arith
  head_after_lem h p d ((b, y) ∷ ps) ((a, x) ∷ qs) e apart = ground arith

  count_after :
      (n : ℕ) (ps qs : Run A) (p : Ptr) (d : A)
      → n ≡ u32 (length (ps ++ ((p, d) ∷ qs)))
      → u32 (n + (2 ^ 32 - 1)) ≡ u32 (length (ps ++ qs))
  count_after n ps qs p d e =
      omega (arith, e, length-append {ℓ} ps ((p, d) ∷ qs), length-append {ℓ} ps qs)

  Ring-Apart : (c : Cells A) (ps qs : Run A) → Ring c (ps ++ qs) → Apart ps qs
  Ring-Apart c [] qs ring = tt
  Ring-Apart c ((a, d) ∷ ps) qs ring = (Chain-split c (last a (ps ++ qs)) ((a, d) ∷ ps) qs a ring).2

  head_exists :
      (ps qs : Run A) (p : Ptr) (d : A) → (h : Ptr) × (head_of (ps ++ ((p, d) ∷ qs)) ≡ some h)
  head_exists [] qs p d = (p, refl)
  head_exists ((a, x) ∷ ps) qs p d = (a, refl)

  -- Removal of a node of the list leaves the others in order, counts one less, gives the payload to
  -- `free_cb` if there is one, and frees the node.
  pub remove-Represents :
      (m : Memory A) (l : ListT A) (ps : Run A) (p : Ptr) (d : A) (qs : Run A)
      → Represents m l (ps ++ ((p, d) ∷ qs))
      → (m' : Memory A) × (l' : ListT A) × (list_remove_node (some p) m ≡ some m')
        × Represents m' l' (ps ++ qs)
        × (m'.freed ≡ freed_with l m.freed d)
        × (m'.cell p ≡ none)
        × (l'.free_cb ≡ l.free_cb)
        × (l'.cmp_cb ≡ l.cmp_cb)
  remove-Represents m l ps p d qs rep =
      let (h, at_h) = head_exists ps qs p d in
      let ring = Ring-rotate m.cell ps ((p, d) ∷ qs) rep.ring in
      let (c, done, ring', gone) =
        remove_first m l h p d (qs ++ ps) rep.is_list (rep.at_head ∙ at_h) ring in
      let head = head_after h p (qs ++ ps) in
      (
        without m c l d head,
        shrunk l head,
        done,
        record {
          is_list = refl;
          at_head =
              head_after_lem h p d ps qs (sym at_h) (Ring-Apart m.cell ps ((p, d) ∷ qs) rep.ring);
          ring = Ring-rotate c qs ps ring';
          counted = count_after l.count ps qs p d rep.counted;
        },
        refl,
        gone,
        refl,
        refl,
      )
