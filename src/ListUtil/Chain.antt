-- ===== src/ListUtil/Chain.antt =====
-- Runs of linked nodes: how a run survives writes, and how two runs join.
use libvirt_cim.Prelude.{
  suc, length, ◌≡◌, refl, ap, Bool, false, ◌||◌, Option, none, some, List, [], ◌∷◌, ◌++◌, arith,
  ◌==◌,
}
use libvirt_cim.ListUtil.{Ptr, Node, Cells, node, write}

-- The nodes of a run, each with its address and its payload.
abbrev pub Run {ℓ} : Type ℓ → Type ℓ
Run A = List (Ptr × A)

module _ {ℓ} {A : Type ℓ} where
  abbrev pub has : Ptr → Run A → Bool
  has a [] = false
  has a ((p, _) ∷ ps) = (a == p) || has a ps

  -- the address where a run starts, if `e` follows it
  abbrev pub first : Run A → Ptr → Ptr
  first [] e = e
  first ((a, _) ∷ ps) e = a

  -- the address where a run ends, if `p` precedes it
  abbrev pub last : Ptr → Run A → Ptr
  last p [] = p
  last p ((a, _) ∷ ps) = last a ps

  abbrev pub payloads : Run A → List A
  payloads [] = []
  payloads ((_, d) ∷ ps) = d ∷ payloads ps

  -- No address of the first run stands in the second.
  abbrev pub Apart : Run A → Run A → Type 0
  Apart [] qs = Unit
  Apart ((a, _) ∷ ps) qs = (has a qs ≡ false) × Apart ps qs

  -- From `p` on, through the distinct nodes of the run, to `e`, with the links both ways.
  abbrev pub Chain : Cells A → Ptr → Run A → Ptr → Type ℓ
  Chain c p [] e = Unit
  Chain c p ((a, d) ∷ ps) e =
      (c a ≡ some (node p (first ps e) d)) × (has a ps ≡ false) × Chain c a ps e

  pub Chain-frame :
      (c : Cells A) (b : Ptr) (v : Option (Node A)) (p : Ptr) (ps : Run A) (e : Ptr)
      → has b ps ≡ false
      → Chain c p ps e
      → Chain (write c b v) p ps e
  unfolding write
  Chain-frame c b v p [] e out h = tt
  Chain-frame c b v p ((a, d) ∷ ps) e out h =
      (ground (arith, h.0), h.1, Chain-frame c b v a ps e (ground arith) h.2)

  last_ne :
      (b a : Ptr) (d : A) (ps : Run A) → has b ((a, d) ∷ ps) ≡ false → (b == last a ps) ≡ false
  last_ne b a d [] h = ground arith
  last_ne b a d ((a', d') ∷ ps) h = last_ne b a' d' ps (ground arith)

  -- a write to the last node's `next` moves the end of the run
  pub Chain-set_end :
      (c : Cells A) (p a : Ptr) (d : A) (ps : Run A) (e e' : Ptr) (nd : Node A)
      → c (last a ps) ≡ some nd
      → Chain c p ((a, d) ∷ ps) e
      → Chain (write c (last a ps) (some (record nd { next = e' }))) p ((a, d) ∷ ps) e'
  unfolding write
  Chain-set_end c p a d [] e e' nd r h = (ground (arith, h.0), refl, tt)
  Chain-set_end c p a d ((b, x) ∷ ps) e e' nd r h =
      (ground (arith, h.0, last_ne a b x ps h.1), h.1, Chain-set_end c a b x ps e e' nd r h.2)

  -- a write to the first node's `prev` moves the start
  pub Chain-set_start :
      (c : Cells A) (p p' a : Ptr) (d : A) (ps : Run A) (e : Ptr) (nd : Node A)
      → c a ≡ some nd
      → Chain c p ((a, d) ∷ ps) e
      → Chain (write c a (some (record nd { prev = p' }))) p' ((a, d) ∷ ps) e
  Chain-set_start c p p' a d ps e nd r h =
      (unfold write in ground (arith, h.0), h.1, Chain-frame c a _ a ps e h.1 h.2)

  first-append : (ps qs : Run A) (e : Ptr) → first (ps ++ qs) e ≡ first ps (first qs e)
  first-append [] qs e = refl
  first-append (x ∷ ps) qs e = refl

  has-append : (a : Ptr) (ps qs : Run A) → has a (ps ++ qs) ≡ (has a ps || has a qs)
  has-append a [] qs = refl
  has-append a ((b, x) ∷ ps) qs = ground (arith, has-append a ps qs)

  pub last-append : (p : Ptr) (ps qs : Run A) → last p (ps ++ qs) ≡ last (last p ps) qs
  last-append p [] qs = refl
  last-append p ((a, d) ∷ ps) qs = last-append a ps qs

  pub payloads-append : (ps qs : Run A) → payloads (ps ++ qs) ≡ payloads ps ++ payloads qs
  payloads-append [] qs = refl
  payloads-append ((a, d) ∷ ps) qs = ap (λ l. d ∷ l) (payloads-append ps qs)

  pub Chain-join :
      (c : Cells A) (p : Ptr) (ps qs : Run A) (e : Ptr)
      → Chain c p ps (first qs e)
      → Chain c (last p ps) qs e
      → Apart ps qs
      → Chain c p (ps ++ qs) e
  Chain-join c p [] qs e h k apart = k
  Chain-join c p ((a, d) ∷ ps) qs e h k apart = (
    ground (arith, h.0, first-append ps qs e),
    ground (arith, has-append a ps qs, h.1, apart.0),
    Chain-join c a ps qs e h.2 k apart.1,
  )

  pub Chain-split :
      (c : Cells A) (p : Ptr) (ps qs : Run A) (e : Ptr)
      → Chain c p (ps ++ qs) e
      → Chain c p ps (first qs e) × Chain c (last p ps) qs e × Apart ps qs
  Chain-split c p [] qs e h = (tt, h, tt)
  Chain-split c p ((a, d) ∷ ps) qs e h =
      let (left, right, apart) = Chain-split c a ps qs e h.2 in
      (
        (ground (arith, h.0, first-append ps qs e), ground (arith, has-append a ps qs, h.1), left),
        right,
        (ground (arith, has-append a ps qs, h.1), apart),
      )

  -- the last node of a run that is not empty
  pub Chain-last :
      (c : Cells A) (p a : Ptr) (d : A) (ps : Run A) (e : Ptr)
      → Chain c p ((a, d) ∷ ps) e
      → (nd : Node A) × (c (last a ps) ≡ some nd)
  Chain-last c p a d [] e h = (node p e d, h.0)
  Chain-last c p a d ((b, x) ∷ ps) e h = Chain-last c a b x ps e h.2

  -- An address with no node is in no run.
  pub fresh-not-has :
      (c : Cells A) (n p : Ptr) (ps : Run A) (e : Ptr)
      → c n ≡ none
      → Chain c p ps e
      → has n ps ≡ false
  fresh-not-has c n p [] e free h = refl
  fresh-not-has c n p ((a, d) ∷ ps) e free h =
      ground (arith, fresh-not-has c n a ps e free h.2, h.0)

  -- The run whose last payload is known.
  pub run_snoc :
      (ps : Run A) (xs : List A) (y : A)
      → payloads ps ≡ xs ++ (y ∷ [])
      → (qs : Run A) × (n : Ptr) × (ps ≡ qs ++ ((n, y) ∷ [])) × (payloads qs ≡ xs)
  run_snoc [] [] y e = absurd (cc)
  run_snoc [] (x ∷ xs) y e = absurd (cc)
  run_snoc ((a, d) ∷ []) [] y e = ([], a, cc, refl)
  run_snoc ((a, d) ∷ (b, z) ∷ ps) [] y e = absurd (cc)
  run_snoc ((a, d) ∷ ps) (x ∷ xs) y e =
      let (qs, n, same, rest) = run_snoc ps xs y (cc) in ((a, d) ∷ qs, n, cc, cc)

  pub length-payloads : (ps : Run A) → length (payloads ps) ≡ length ps
  length-payloads [] = refl
  length-payloads ((a, d) ∷ ps) = ap suc (length-payloads ps)
