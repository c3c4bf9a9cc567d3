-- ===== src/ListUtil/Relink.antt =====
-- Relinking the ends of a run, and turning a ring.
use libvirt_cim.Prelude.{
  ◌≡◌, refl, false, Option, some, [], ◌∷◌, ◌++◌, append-nil, arith, ◌==◌, ◌>>=?◌,
}
use libvirt_cim.ListUtil.{Ptr, Cells, write, set_next, set_prev}
use libvirt_cim.ListUtil.Chain.{
  Run, Chain, Apart, has, last, last-append, Chain-set_end, Chain-set_start, Chain-join,
  Chain-split, Chain-last,
}
use libvirt_cim.ListUtil.Ring.{Ring}

module _ {ℓ} {A : Type ℓ} where
  abbrev pub relink : Cells A → Ptr → Ptr → Ptr → Ptr → Option (Cells A)
  relink c a p t e = set_next c t e >>=? λ c₁. set_prev c₁ a p

  -- a node of a run stays after a write to its `next`
  pub has-last :
      (a : Ptr) (d : A) (ps : Run A) (b : Ptr)
      → has b ((a, d) ∷ ps) ≡ false
      → (b == last a ps) ≡ false
  has-last a d [] b h = ground arith
  has-last a d ((a', d') ∷ ps) b h = has-last a' d' ps b (ground arith)

  pub Chain-relink :
      (c : Cells A) (p a : Ptr) (d : A) (ps : Run A) (e p' e' : Ptr)
      → Chain c p ((a, d) ∷ ps) e
      → (c' : Cells A) × (relink c a p' (last a ps) e' ≡ some c')
        × Chain c' p' ((a, d) ∷ ps) e'
        × ((b : Ptr) → has b ((a, d) ∷ ps) ≡ false → c' b ≡ c b)
  unfolding set_next set_prev
  Chain-relink c p a d ps e p' e' h =
      let (t, at_t) = Chain-last c p a d ps e h in
      let c₁ = write c (last a ps) (some (record t { next = e' })) in
      let h₁ = Chain-set_end c p a d ps e e' t at_t h in
      let moved = Chain-set_start c₁ p p' a d ps e' _ h₁.0 h₁ in
      (
        write c₁ a _,
        rw at_t (rw h₁.0),
        moved,
        λ b out. unfold write in ground (arith, has-last a d ps b out),
      )

  Apart-cons :
      (ps : Run A) (b : Ptr) (x : A) (qs : Run A)
      → Apart ps ((b, x) ∷ qs)
      → (has b ps ≡ false) × Apart ps qs
  Apart-cons [] b x qs h = (refl, tt)
  Apart-cons ((a, d) ∷ ps) b x qs h =
      let (out, rest) = Apart-cons ps b x qs h.1 in
      (ground (arith, h.0), (ground (arith, h.0), rest))

  pub Apart-symm : (ps qs : Run A) → Apart ps qs → Apart qs ps
  Apart-symm ps [] h = tt
  Apart-symm ps ((b, x) ∷ qs) h =
      let (out, rest) = Apart-cons ps b x qs h in (out, Apart-symm ps qs rest)

  -- A ring may be read from any of its nodes.
  pub Ring-rotate : (c : Cells A) (ps qs : Run A) → Ring c (ps ++ qs) → Ring c (qs ++ ps)
  Ring-rotate c [] qs h = rw append-nil h
  Ring-rotate c ((a, d) ∷ ps) [] h = rw append-nil at h
  Ring-rotate c ((a, d) ∷ ps) ((b, x) ∷ qs) h =
      let (left, right, apart) =
        Chain-split c (last a (ps ++ ((b, x) ∷ qs))) ((a, d) ∷ ps) ((b, x) ∷ qs) a h in
      Chain-join c (last b (qs ++ ((a, d) ∷ ps))) ((b, x) ∷ qs) ((a, d) ∷ ps) b
        (rw last-append right) (rw last-append at left)
        (Apart-symm ((a, d) ∷ ps) ((b, x) ∷ qs) apart)
