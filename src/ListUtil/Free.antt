-- ===== src/ListUtil/Free.antt =====
-- `list_free`: every payload is released once, in order, and every node is freed.
use libvirt_cim.Prelude.{
  ℕ, zero, suc, ◌≤◌, ◌<◌, ◌≡◌, refl, ◌∙◌, Bool, true, false, Option, none, some, List, [], ◌∷◌,
  ◌++◌, append-nil, append_assoc, arith, length, if◌then◌else◌, Bool-cases, inl, inr,
}
use libvirt_cim.ListUtil.{Ptr, ListT, Memory, write, free_loop, list_free}
use libvirt_cim.ListUtil.Chain.{Run, Chain, has, last, payloads, Chain-frame}
use libvirt_cim.ListUtil.Ring.{Represents, Holds}
use libvirt_cim.ListUtil.Search.{length_run}

module _ {ℓ} {A : Type ℓ} where
  abbrev released_all : Bool → List A → List A
  released_all free_cb xs = if free_cb then xs else []

  -- what `list_free` leaves: no list, the payloads released, and no node of the run
  pub record IsFreed (m m' : Memory A) (free_cb : Bool) (ps : Run A) : Type ℓ where
    pub no_list : m'.list ≡ none
    pub released : m'.freed ≡ m.freed ++ released_all free_cb (payloads ps)
    pub nodes_gone : (a : Ptr) → has a ps ≡ true → m'.cell a ≡ none
    pub others_kept : (a : Ptr) → has a ps ≡ false → m'.cell a ≡ m.cell a

  abbrev after_one : ListT A → Memory A → Ptr → A → Memory A
  after_one l m n d = record m {
    cell = write m.cell n none;
    freed = if l.free_cb then m.freed ++ (d ∷ []) else m.freed;
  }

  released_one :
      (f : Bool) (fs : List A) (d : A) (xs : List A)
      → (if f then fs ++ (d ∷ []) else fs) ++ released_all f xs ≡ fs ++ released_all f (d ∷ xs)
  released_one true fs d xs = append_assoc fs (d ∷ []) xs
  released_one false fs d xs = refl

  free_loop-Chain :
      (k : ℕ) (l : ListT A) (m : Memory A) (h p n : Ptr) (d : A) (rs : Run A)
      → Chain m.cell p ((n, d) ∷ rs) h
      → has h rs ≡ false
      → length rs < k
      → (m' : Memory A) × (free_loop k l h n m ≡ some m') × IsFreed m m' l.free_cb ((n, d) ∷ rs)
  unfolding free_loop
  free_loop-Chain zero l m h p n d rs ch out lt = elim lt [ ]
  free_loop-Chain (suc k) l m h p n d [] ch out lt = (
    record (after_one l m n d) { list = none },
    rw ch.0 (ground arith),
    record {
      no_list = refl;
      released = ground (arith, append-nil m.freed);
      nodes_gone = λ a i. unfold write in ground arith;
      others_kept = λ a o. unfold write in ground arith;
    },
  )
  free_loop-Chain (suc k) l m h p n d ((a, x) ∷ rs) ch out lt =
      let m₁ = after_one l m n d in
      let ch₁ = Chain-frame m.cell n none n ((a, x) ∷ rs) h ch.1 ch.2 in
      let (m', done, freed) = free_loop-Chain k l m₁ h n a x rs ch₁ (ground arith) (omega arith) in
      (
        m',
        rw ch.0 (ground (arith, done)),
        record {
          no_list = freed.no_list;
          released = freed.released ∙ released_one l.free_cb m.freed d (payloads ((a, x) ∷ rs));
          nodes_gone = λ b i. elim (Bool-cases (has b ((a, x) ∷ rs))) [
            | inl e ↦ freed.nodes_gone b e
            | inr e ↦ freed.others_kept b e ∙ (unfold write in ground arith)
          ];
          others_kept = λ b o. freed.others_kept b (ground arith) ∙ (unfold write in ground arith);
        },
      )

  free-Represents :
      (m : Memory A) (l : ListT A) (ps : Run A) (x : A) (xs : List A) (fuel : ℕ)
      → Represents m l ps
      → payloads ps ≡ x ∷ xs
      → length ps ≤ fuel
      → (m' : Memory A) × (list_free fuel m ≡ some m') × IsFreed m m' l.free_cb ps
  unfolding list_free
  free-Represents m l [] x xs fuel rep e lt = absurd (cc)
  free-Represents m l ((h, d) ∷ ps) x xs fuel rep e lt =
      let (m', done, freed) =
        free_loop-Chain fuel l m h (last h ps) h d ps rep.ring rep.ring.1 lt in
      (m', ground (arith, done, rep.is_list, rep.at_head), freed)

  -- A list that is not empty is freed within as many rounds as it is long: `free_cb`, if there is one,
  -- gets every payload once and in order, and none of the list's nodes is left.
  pub free-Holds :
      (m : Memory A) (f : Bool) (cmp : Option (A → A → Bool)) (x : A) (xs : List A) (fuel : ℕ)
      (held : Holds m f cmp (x ∷ xs))
      → length xs < fuel
      → (m' : Memory A) × (list_free fuel m ≡ some m')
        × (m'.list ≡ none)
        × (m'.freed ≡ m.freed ++ (if f then x ∷ xs else []))
        × ((a : Ptr) → has a held.run ≡ true → m'.cell a ≡ none)
  free-Holds m f cmp x xs fuel held lt =
      let (m', done, freed) =
        free-Represents m held.list held.run x xs fuel held.represents held.same_payloads
          (omega (arith, length_run held.run (x ∷ xs) held.same_payloads)) in
      (
        m',
        done,
        freed.no_list,
        rw (held.same_free, held.same_payloads) at freed.released,
        freed.nodes_gone,
      )

  no_head :
      (m : Memory A) (l : ListT A) (ps : Run A)
      → Represents m l ps
      → payloads ps ≡ []
      → l.head ≡ none
  no_head m l [] rep e = rep.at_head
  no_head m l ((h, d) ∷ ps) rep e = absurd (cc)

  -- `list_free` returns early on a list with no node, and so never frees its `list_t`.
  pub free-empty :
      (m : Memory A) (f : Bool) (cmp : Option (A → A → Bool)) (fuel : ℕ)
      → Holds m f cmp []
      → list_free fuel m ≡ some m
  unfolding list_free
  free-empty m f cmp fuel held = ground (
    arith,
    held.represents.is_list,
    no_head m held.list held.run held.represents held.same_payloads,
  )
