-- ===== src/AclFilter/Refs.antt =====
-- The references of a filter: each name stands there once.
use libvirt_cim.Prelude.{
  ◌≡◌, refl, ap, ◌∙◌, sym, true, false, Option, none, some, List, [], ◌∷◌, ◌++◌, Bytes, arith,
  strcmp_eq, strcmp_eq_refl, strcmp_eq→≡, strcmp_eq_comm, if◌then◌else◌, Bool-cases, inl, inr,
}
use libvirt_cim.AclFilter.{
  Filter, refs_of, list_find, list_remove, append_filter_ref, remove_filter_ref,
}

-- no name stands twice
unfoldable pub Distinct : List Bytes → Type 0
Distinct [] = Unit
Distinct (r ∷ refs) = (list_find refs r ≡ false) × Distinct refs

find-append :
    (refs : List Bytes) (name m : Bytes)
    → list_find (refs ++ (name ∷ [])) m ≡ (if list_find refs m then true else strcmp_eq name m)
unfolding list_find
find-append [] name m = elim (Bool-cases (strcmp_eq name m)) [
  | inl e ↦ rw e refl
  | inr e ↦ rw e refl
]
find-append (r ∷ refs) name m = elim (Bool-cases (strcmp_eq r m)) [
  | inl e ↦ rw e refl
  | inr e ↦ rw e (find-append refs name m)
]

pub Distinct-append :
    (refs : List Bytes) (name : Bytes)
    → Distinct refs
    → list_find refs name ≡ false
    → Distinct (refs ++ (name ∷ []))
unfolding Distinct list_find
Distinct-append [] name d e = (refl, tt)
Distinct-append (r ∷ refs) name d e = elim (Bool-cases (strcmp_eq r name)) [
  | inl h ↦ absurd (cc (rw h at e))
  | inr h ↦ (
    ground (arith, find-append refs name r, strcmp_eq_comm r name h, d.0),
    Distinct-append refs name d.1 (rw h at e),
  )
]

find-middle : (xs : List Bytes) (r : Bytes) (rs : List Bytes) → list_find (xs ++ (r ∷ rs)) r ≡ true
unfolding list_find
find-middle [] r rs = rw (strcmp_eq_refl r) refl
find-middle (x ∷ xs) r rs = elim (Bool-cases (strcmp_eq x r)) [
  | inl e ↦ rw e refl
  | inr e ↦ rw e (find-middle xs r rs)
]

-- the same name is found or not
find-same :
    (refs : List Bytes) (s t : Bytes) → strcmp_eq s t ≡ true → list_find refs s ≡ list_find refs t
find-same refs s t e = ap (list_find refs) (strcmp_eq→≡ s t e)

-- a name in a list with a part before it is not in that part
pub Distinct-middle :
    (xs : List Bytes) (r : Bytes) (rs : List Bytes)
    → Distinct (xs ++ (r ∷ rs))
    → list_find xs r ≡ false
unfolding Distinct list_find
Distinct-middle [] r rs d = refl
Distinct-middle (x ∷ xs) r rs d = elim (Bool-cases (strcmp_eq x r)) [
  | inl h ↦ absurd (cc (d.0, find-same (xs ++ (r ∷ rs)) x r h, find-middle xs r rs))
  | inr h ↦ rw h (Distinct-middle xs r rs d.1)
]

removed_head :
    (refs : List Bytes) (r name m : Bytes)
    → strcmp_eq r name ≡ true
    → list_find refs r ≡ false
    → list_find refs m
      ≡ (if strcmp_eq name m then false else (if strcmp_eq r m then true else list_find refs m))
removed_head refs r name m h fresh =
    let same = strcmp_eq→≡ r name h in
    elim (Bool-cases (strcmp_eq name m)) [
      | inl e ↦ rw e (ap (list_find refs) (sym (strcmp_eq→≡ name m e) ∙ sym same) ∙ fresh)
      | inr e ↦
          let other : strcmp_eq r m ≡ false = ap (λ x. strcmp_eq x m) same ∙ e in
          rw e (rw other refl)
    ]

kept_head :
    (refs : List Bytes) (r name m : Bytes)
    → strcmp_eq r name ≡ false
    → list_find (list_remove refs name) m ≡ (if strcmp_eq name m then false else list_find refs m)
    → (if strcmp_eq r m then true else list_find (list_remove refs name) m)
      ≡ (if strcmp_eq name m then false else (if strcmp_eq r m then true else list_find refs m))
kept_head refs r name m h rest = elim (Bool-cases (strcmp_eq r m)) [
  | inl e ↦
      let apart : strcmp_eq name m ≡ false =
        ap (strcmp_eq name) (sym (strcmp_eq→≡ r m e)) ∙ strcmp_eq_comm r name h in
      rw e (rw apart refl)
  | inr e ↦ rw e rest
]

remove-find :
    (refs : List Bytes) (name m : Bytes)
    → Distinct refs
    → list_find (list_remove refs name) m ≡ (if strcmp_eq name m then false else list_find refs m)
unfolding Distinct list_find list_remove
remove-find [] name m d = ground arith
remove-find (r ∷ refs) name m d = elim (Bool-cases (strcmp_eq r name)) [
  | inl h ↦ rw h (removed_head refs r name m h d.0)
  | inr h ↦ rw h (kept_head refs r name m h (remove-find refs name m d.1))
]

found_again :
    (refs : List Bytes) (name m : Bytes)
    → list_find refs name ≡ true
    → list_find refs m ≡ (if strcmp_eq name m then true else list_find refs m)
found_again refs name m e = elim (Bool-cases (strcmp_eq name m)) [
  | inl h ↦ rw h (sym (find-same refs name m h) ∙ e)
  | inr h ↦ rw h refl
]

removed_from :
    (o : Option (List Bytes)) (f : Filter) (name m : Bytes)
    → f.refs ≡ o
    → Distinct (refs_of f)
    → list_find (refs_of (remove_filter_ref f name).1) m
      ≡ (if strcmp_eq name m then false else list_find (refs_of f) m)
unfolding remove_filter_ref list_find
removed_from none f name m e d = rw e (ground arith)
removed_from (some refs) f name m e d = rw e (remove-find refs name m (rw e at d))

-- Adding a reference to distinct ones says whether it was new, keeps them distinct, and leaves the
-- filter with that reference, with all that it had before, and with no other.
pub append_filter_ref-Distinct :
    (f : Filter) (name : Bytes)
    → Distinct (refs_of f)
    → let (ok, g) = append_filter_ref f name in
      (ok ≡ (if list_find (refs_of f) name then false else true))
      × Distinct (refs_of g)
      × ((m : Bytes)
          → list_find (refs_of g) m ≡ (if strcmp_eq name m then true else list_find (refs_of f) m))
unfolding append_filter_ref
append_filter_ref-Distinct f name d = elim (Bool-cases (list_find (refs_of f) name)) [
  | inl e ↦ rw e (refl, d, λ m. found_again (refs_of f) name m e)
  | inr e ↦ rw e (
    refl,
    Distinct-append (refs_of f) name d e,
    λ m. ground (arith, find-append (refs_of f) name m),
  )
]

-- Removing a reference from distinct ones takes that name away and no other.
pub remove_filter_ref-Distinct :
    (f : Filter) (name : Bytes)
    → Distinct (refs_of f)
    → let g = (remove_filter_ref f name).1 in
      (m : Bytes)
      → list_find (refs_of g) m ≡ (if strcmp_eq name m then false else list_find (refs_of f) m)
unfolding remove_filter_ref
remove_filter_ref-Distinct f name d m = removed_from f.refs f name m refl d
