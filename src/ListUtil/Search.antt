-- ===== src/ListUtil/Search.antt =====
-- `list_find_node`, `list_find` and the deletion by value, `list_remove`.
use libvirt_cim.Prelude.{
  ℕ, zero, suc, ◌<◌, ◌≡◌, refl, sym, ap, ◌∙◌, Bool, true, false, Option, none, some, List, [], ◌∷◌,
  ◌++◌, arith, length, append-nil, Bool-cases, inl, inr,
}
use libvirt_cim.ListUtil.{
  Ptr, Cells, Memory, find_loop, list_find_node, list_find, list_remove, list_node_data_get,
  list_remove_node,
}
use libvirt_cim.ListUtil.Chain.{Run, Chain, has, last, payloads, length-payloads, Chain-split}
use libvirt_cim.ListUtil.Remove.{remove-Represents}
use libvirt_cim.ListUtil.Seq
use libvirt_cim.ListUtil.Ring.{Represents, Holds}

module _ {ℓ} {A : Type ℓ} where
  -- the first node that the test accepts, with what stands before and after it
  data Hit (hit : A → Bool) (ps : Run A) : Option Ptr → Type ℓ where
    miss :
        Seq.find hit (payloads ps) ≡ none
        → Seq.remove hit (payloads ps) ≡ payloads ps
        → Hit hit ps none
    found :
        (qs : Run A) (p : Ptr) (d : A) (rs : Run A)
        → ps ≡ qs ++ ((p, d) ∷ rs)
        → Seq.find hit (payloads ps) ≡ some d
        → Seq.remove hit (payloads ps) ≡ payloads (qs ++ rs)
        → Hit hit ps (some p)

  Hit-here :
      (hit : A → Bool) (n : Ptr) (d : A) (rs : Run A)
      → hit d ≡ true
      → Hit hit ((n, d) ∷ rs) (some n)
  unfolding Seq.find Seq.remove
  Hit-here hit n d rs e = found [] n d rs refl (rw e) (rw e)

  Hit-there :
      (hit : A → Bool) (n : Ptr) (d : A) (rs : Run A) (r : Option Ptr)
      → hit d ≡ false
      → Hit hit rs r
      → Hit hit ((n, d) ∷ rs) r
  unfolding Seq.find Seq.remove
  Hit-there hit n d rs none e (miss f g) = miss (rw e f) (rw e (ap (λ l. d ∷ l) g))
  Hit-there hit n d rs (some p) e (found qs _ x ts same f g) =
      found ((n, d) ∷ qs) p x ts (ap (λ l. (n, d) ∷ l) same) (rw e f) (rw e (ap (λ l. d ∷ l) g))

  find_loop-Hit :
      (k : ℕ) (hit : A → Bool) (c : Cells A) (h p n : Ptr) (d : A) (rs : Run A)
      → Chain c p ((n, d) ∷ rs) h
      → has h rs ≡ false
      → length rs < k
      → (r : Option Ptr) × (find_loop k hit c h n ≡ some r) × Hit hit ((n, d) ∷ rs) r
  unfolding find_loop Seq.find Seq.remove
  find_loop-Hit zero hit c h p n d rs ch out lt = elim lt [ ]
  find_loop-Hit (suc k) hit c h p n d [] ch out lt = elim (Bool-cases (hit d)) [
    | inl e ↦ (some n, rw ch.0 (rw e refl), Hit-here hit n d [] e)
    | inr e ↦ (none, rw ch.0 (rw e (ground arith)), Hit-there hit n d [] none e (miss refl refl))
  ]
  find_loop-Hit (suc k) hit c h p n d ((a, x) ∷ rs) ch out lt = elim (Bool-cases (hit d)) [
    | inl e ↦ (some n, rw ch.0 (rw e refl), Hit-here hit n d _ e)
    | inr e ↦
        let (r, done, hits) = find_loop-Hit k hit c h n a x rs ch.2 (ground arith) (omega arith) in
        (r, rw ch.0 (rw e (ground (arith, done))), Hit-there hit n d _ r e hits)
  ]

  find_none : (x : A) (ps : Run A) → Hit (Seq.hits none x) ps none
  unfolding Seq.find Seq.remove
  find_none x [] = miss refl refl
  find_none x ((a, d) ∷ ps) = Hit-there (Seq.hits none x) a d ps none refl (find_none x ps)

  find_node-Hit :
      (m : Memory A) (held_cmp : Option (A → A → Bool)) (l : _) (ps : Run A) (x : A) (fuel : ℕ)
      → Represents m l ps
      → l.cmp_cb ≡ held_cmp
      → length ps < fuel
      → (r : Option Ptr) × (list_find_node fuel x m ≡ some r) × Hit (Seq.hits held_cmp x) ps r
  unfolding list_find_node
  find_node-Hit m cmp l [] x fuel rep e lt =
      (none, rw (rep.is_list, rep.at_head) refl, unfold Seq.find Seq.remove in miss refl refl)
  find_node-Hit m none l ((h, d) ∷ ps) x fuel rep e lt =
      (none, rw (rep.is_list, rep.at_head) (rw e refl), find_none x _)
  find_node-Hit m (some cmp) l ((h, d) ∷ ps) x fuel rep e lt =
      let (r, done, hit) =
        find_loop-Hit fuel (Seq.hits (some cmp) x) m.cell h (last h ps) h d ps rep.ring rep.ring.1
          (omega arith) in
      (r, rw (rep.is_list, rep.at_head) (rw e done), hit)

  -- the payload of the node that was found
  data_at :
      (m : Memory A) (l : _) (ps : Run A) (p : Ptr) (d : A) (qs : Run A)
      → Represents m l (ps ++ ((p, d) ∷ qs))
      → list_node_data_get (some p) m ≡ some (some d)
  unfolding list_node_data_get
  data_at m l [] p d qs rep = rw rep.ring.0 refl
  data_at m l ((a, x) ∷ ps) p d qs rep =
      let split = Chain-split m.cell _ ((a, x) ∷ ps) ((p, d) ∷ qs) a rep.ring in rw split.1.0 refl

  data_at-Hit :
      (m : Memory A) (l : _) (ps : Run A) (hit : A → Bool) (r : Option Ptr)
      → Represents m l ps
      → Hit hit ps r
      → list_node_data_get r m ≡ some (Seq.find hit (payloads ps))
  data_at-Hit m l ps hit none rep (miss f g) = unfold list_node_data_get in rw f refl
  data_at-Hit m l ps hit (some p) rep (found qs _ d rs same f g) =
      rw f (data_at m l qs p d rs (rw same at rep))

  pub length_run : (ps : Run A) (xs : List A) → payloads ps ≡ xs → length ps ≡ length xs
  length_run ps xs e = sym (length-payloads ps) ∙ ap length e

  -- On a list, `list_find` returns what the specification finds, and does so within one round more
  -- than the list is long.
  pub find-Holds :
      (m : Memory A) (f : Bool) (cmp : Option (A → A → Bool)) (xs : List A) (x : A) (fuel : ℕ)
      → Holds m f cmp xs
      → length xs < fuel
      → list_find fuel x m ≡ some (Seq.find (Seq.hits cmp x) xs)
  unfolding list_find
  find-Holds m f cmp xs x fuel held lt =
      let fits : length held.run < fuel =
        omega (arith, length_run held.run xs held.same_payloads) in
      let (r, done, hit) =
        find_node-Hit m cmp held.list held.run x fuel held.represents held.same_cmp fits in
      rw done (
        data_at-Hit m held.list held.run (Seq.hits cmp x) r held.represents hit
        ∙ ap (λ l. some (Seq.find (Seq.hits cmp x) l)) held.same_payloads)

  removed-Hit :
      (m : Memory A) (l : _) (ps : Run A) (hit : A → Bool) (r : Option Ptr)
      → Represents m l ps
      → Hit hit ps r
      → (m' : Memory A) × (list_remove_node r m ≡ some m')
        × Holds m' l.free_cb l.cmp_cb (Seq.remove hit (payloads ps))
        × (m'.freed ≡ m.freed ++ Seq.released l.free_cb (Seq.find hit (payloads ps)))
  removed-Hit m l ps hit none rep (miss f g) = (
    m,
    unfold list_remove_node in ground (arith, rep.is_list),
    record {
      list = l;
      run = ps;
      represents = rep;
      same_free = refl;
      same_cmp = refl;
      same_payloads = sym g;
    },
    rw f (sym (append-nil m.freed)),
  )
  removed-Hit m l ps hit (some p) rep (found qs _ d rs same f g) =
      let (m', l', gone, rep', given, cleared, sf, sc) =
        remove-Represents m l qs p d rs (rw same at rep) in
      (
        m',
        gone,
        record {
          list = l';
          run = qs ++ rs;
          represents = rep';
          same_free = sf;
          same_cmp = sc;
          same_payloads = sym g;
        },
        rw f (ground (arith, given, append-nil m.freed)),
      )

  -- On a list, `list_remove` takes out what `list_find` finds, if anything, and keeps the others in
  -- order; the payload goes to `free_cb` if there is one.
  pub remove-Holds :
      (m : Memory A) (f : Bool) (cmp : Option (A → A → Bool)) (xs : List A) (x : A) (fuel : ℕ)
      → Holds m f cmp xs
      → length xs < fuel
      → (m' : Memory A) × (list_remove fuel x m ≡ some m')
        × Holds m' f cmp (Seq.remove (Seq.hits cmp x) xs)
        × (m'.freed ≡ m.freed ++ Seq.released f (Seq.find (Seq.hits cmp x) xs))
  unfolding list_remove
  remove-Holds m f cmp xs x fuel held lt =
      let fits : length held.run < fuel =
        omega (arith, length_run held.run xs held.same_payloads) in
      let (r, done, hit) =
        find_node-Hit m cmp held.list held.run x fuel held.represents held.same_cmp fits in
      let (m', gone, rest, given) =
        removed-Hit m held.list held.run (Seq.hits cmp x) r held.represents hit in
      (
        m',
        rw done gone,
        rw (held.same_free, held.same_cmp, held.same_payloads) at rest,
        rw (held.same_free, held.same_payloads) at given,
      )
