-- ===== src/MiscUtil/Names.antt =====
-- A class name made by `get_typed_class` comes apart into its prefix and its base.
use libvirt_cim.Prelude.{◌≡◌, refl, sym, ap, ◌∙◌, some, [], ◌∷◌, ◌++◌, Bytes}
use libvirt_cim.MiscUtil.{
  is_delim, class_prefix_name, class_base_name, get_typed_class, typed_prefix, before_delim,
  after_delim,
}
use libvirt_cim.Text.Scanf.{span_until, span_until-append, span_until-FreeOf}

split_typed :
    (refcn base : Bytes)
    → span_until is_delim (typed_prefix refcn ++ (b'_' ∷ base)) ≡ (typed_prefix refcn, b'_' ∷ base)
unfolding typed_prefix
split_typed refcn base =
    span_until-append is_delim (span_until is_delim refcn).0 (b'_' ∷ base)
      (span_until-FreeOf is_delim refcn) refl

before_delim-inv :
    (r : Bytes × Bytes) (pfx : Bytes) → before_delim r ≡ some pfx → some r.0 ≡ some pfx
unfolding before_delim
before_delim-inv (a, []) pfx e = absurd (cc)
before_delim-inv (a, d ∷ rest) pfx e = e

-- the class made, written out
typed_prefix-inv :
    (refcn base c : Bytes)
    → get_typed_class (some refcn) base ≡ some c
    → typed_prefix refcn ++ (b'_' ∷ base) ≡ c
unfolding get_typed_class
typed_prefix-inv refcn base c e = cc

base_of_typed :
    (refcn base : Bytes) → class_base_name (typed_prefix refcn ++ (b'_' ∷ base)) ≡ some base
unfolding class_base_name after_delim
base_of_typed refcn base = ap after_delim (split_typed refcn base)

prefix_of_typed :
    (refcn base : Bytes)
    → class_prefix_name (typed_prefix refcn ++ (b'_' ∷ base)) ≡ some (typed_prefix refcn)
unfolding class_prefix_name before_delim
prefix_of_typed refcn base = ap before_delim (split_typed refcn base)

prefix_of_class :
    (refcn pfx : Bytes) → class_prefix_name refcn ≡ some pfx → some (typed_prefix refcn) ≡ some pfx
unfolding class_prefix_name typed_prefix
prefix_of_class refcn pfx e = before_delim-inv (span_until is_delim refcn) pfx e

typed_again :
    (refcn base base' : Bytes)
    → get_typed_class (some (typed_prefix refcn ++ (b'_' ∷ base))) base'
      ≡ get_typed_class (some refcn) base'
unfolding get_typed_class typed_prefix
typed_again refcn base base' = ap (λ r. some (r.0 ++ (b'_' ∷ base'))) (split_typed refcn base)

-- The class that `get_typed_class` makes has the base that it was given, and stands for the reference
-- class in any later call; its prefix is that of the reference class, if that has one.
pub get_typed_class_parts :
    (refcn base c : Bytes)
    → get_typed_class (some refcn) base ≡ some c
    → (class_base_name c ≡ some base)
      × ((pfx : Bytes) → class_prefix_name refcn ≡ some pfx → class_prefix_name c ≡ some pfx)
      × ((base' : Bytes) → get_typed_class (some c) base' ≡ get_typed_class (some refcn) base')
get_typed_class_parts refcn base c e =
    let made = typed_prefix-inv refcn base c e in
    (
      ap class_base_name (sym made) ∙ base_of_typed refcn base,
      λ pfx h.
          ap class_prefix_name (sym made)
          ∙ prefix_of_typed refcn base
          ∙ prefix_of_class refcn pfx h,
      λ base'. ap (λ x. get_typed_class (some x) base') (sym made) ∙ typed_again refcn base base',
    )

split-inv :
    (r : Bytes × Bytes) (base : Bytes)
    → after_delim r ≡ some base
    → (pfx : Bytes) × (before_delim r ≡ some pfx)
unfolding before_delim after_delim
split-inv (pfx, []) base e = absurd (cc)
split-inv (pfx, d ∷ rest) base e = (pfx, refl)

-- a class with a base has a prefix
pub prefix_of_base :
    (cn base : Bytes)
    → class_base_name cn ≡ some base
    → (pfx : Bytes) × (class_prefix_name cn ≡ some pfx)
unfolding class_base_name class_prefix_name
prefix_of_base cn base e = split-inv (span_until is_delim cn) base e
