-- ===== src/Device/Address.antt =====
-- The addresses of devices: add_device_address_property and parse_device_address in
-- libxkutil/device_parsing.c, device_address_xml in libxkutil/xmlgen.c.
use libvirt_cim.Prelude.{
  ◌≡◌, refl, ap, ◌∙◌, sym, Bool, true, false, Option, some, List, [], ◌∷◌, ◌++◌, append_assoc,
  append-nil, Bytes, codes, strcmp_eq, strcmp_eq_refl, strcmp_eq_comm, if◌then◌else◌, Bool-cases,
  inl, inr, subst,
}
use libvirt_cim.Xml.{Node, element, Nodes, leaf, also, node_attrs, get_prop, get_attr_value}
use libvirt_cim.Device.{Address}

-- the result, and the address, which gets a key with its value
abbrev pub add_device_address_property : Address → Option Bytes → Option Bytes → Bool × Address
add_device_address_property devaddr (some key) (some value) = (true, devaddr ++ ((key, value) ∷ []))
add_device_address_property devaddr _ _ = (false, devaddr)

-- A property that is not added ends the parse, and the address is emptied.
abbrev pub add_or_empty : (Address → Bool × Address) → Bool × Address → Bool × Address
add_or_empty next (true, devaddr) = next devaddr
add_or_empty next (false, devaddr) = (false, [])

-- the loop over the properties of the node; each value is asked for by its name
unfoldable pub parse_attributes : Node → List (Bytes × Bytes) → Address → Bool × Address
parse_attributes anode [] devaddr = (true, devaddr)
parse_attributes anode ((name, v) ∷ attrs) devaddr =
    add_or_empty (parse_attributes anode attrs)
      (add_device_address_property devaddr (some name) (get_attr_value anode name))

unfoldable pub parse_device_address : Node → Address → Bool × Address
parse_device_address anode devaddr = parse_attributes anode (node_attrs anode) devaddr

unfoldable pub device_address_xml : Address → Nodes → Nodes
device_address_xml [] rest = rest
device_address_xml (kv ∷ addr) rest = also (element (codes "address") (kv ∷ addr) [] leaf) rest

-- no key has two values
abbrev pub has_key : Bytes → Address → Bool
has_key k [] = false
has_key k ((l, v) ∷ addr) = if strcmp_eq l k then true else has_key k addr

abbrev pub DistinctKeys : Address → Type 0
DistinctKeys [] = Unit
DistinctKeys ((k, v) ∷ addr) = (has_key k addr ≡ false) × DistinctKeys addr

-- no key of the first is one of the second
abbrev Apart : Address → Address → Type 0
Apart pre [] = Unit
Apart pre ((k, v) ∷ addr) = (has_key k pre ≡ false) × Apart pre addr

get_prop-append :
    (pre addr : Address) (k v : Bytes)
    → has_key k pre ≡ false
    → get_prop (pre ++ ((k, v) ∷ addr)) k ≡ some v
unfolding get_prop
get_prop-append [] addr k v h = rw (strcmp_eq_refl k) refl
get_prop-append ((l, w) ∷ pre) addr k v h = elim (Bool-cases (strcmp_eq l k)) [
  | inl e ↦ absurd (cc (rw e at h))
  | inr e ↦ rw e (get_prop-append pre addr k v (rw e at h))
]

has_key-append :
    (pre : Address) (k v l : Bytes)
    → has_key l pre ≡ false
    → strcmp_eq k l ≡ false
    → has_key l (pre ++ ((k, v) ∷ [])) ≡ false
has_key-append [] k v l h e = rw e refl
has_key-append ((m, w) ∷ pre) k v l h e = elim (Bool-cases (strcmp_eq m l)) [
  | inl d ↦ absurd (cc (rw d at h))
  | inr d ↦ rw d (has_key-append pre k v l (rw d at h) e)
]

Apart-append :
    (pre addr : Address) (k v : Bytes)
    → has_key k addr ≡ false
    → Apart pre addr
    → Apart (pre ++ ((k, v) ∷ [])) addr
Apart-append pre [] k v h a = tt
Apart-append pre ((l, w) ∷ addr) k v h a = elim (Bool-cases (strcmp_eq l k)) [
  | inl e ↦ absurd (cc (rw e at h))
  | inr e ↦ (
    has_key-append pre k v l a.0 (strcmp_eq_comm l k e),
    Apart-append pre addr k v (rw e at h) a.1,
  )
]

parse_attributes-Apart :
    (pre addr : Address) (name content : Bytes) (children : Nodes)
    → DistinctKeys addr
    → Apart pre addr
    → parse_attributes (element name (pre ++ addr) content children) addr pre ≡ (true, pre ++ addr)
unfolding parse_attributes get_attr_value
parse_attributes-Apart pre [] name content children d a = ap (λ x. (true, x)) (sym (append-nil pre))
parse_attributes-Apart pre ((k, v) ∷ addr) name content children d a =
    let whole = pre ++ ((k, v) ∷ addr) in
    let regroup : (pre ++ ((k, v) ∷ [])) ++ addr ≡ whole = append_assoc pre ((k, v) ∷ []) addr in
    ap
      (λ o.
        add_or_empty (parse_attributes (element name whole content children) addr)
          (add_device_address_property pre (some k) o))
      (get_prop-append pre addr k v a.0)
    ∙ subst
        (λ w.
          parse_attributes (element name w content children) addr (pre ++ ((k, v) ∷ []))
          ≡ (true, w))
        regroup
        (parse_attributes-Apart (pre ++ ((k, v) ∷ [])) addr name content children d.1
          (Apart-append pre addr k v d.0 a.1))

Apart-nil : (addr : Address) → Apart [] addr
Apart-nil [] = tt
Apart-nil (kv ∷ addr) = (refl, Apart-nil addr)

-- An address whose keys are distinct reads back from the node that holds it.
pub parse_device_address-written :
    (addr : Address)
    → DistinctKeys addr
    → parse_device_address (element (codes "address") addr [] leaf) [] ≡ (true, addr)
unfolding parse_device_address
parse_device_address-written addr d =
    parse_attributes-Apart [] addr (codes "address") [] leaf d (Apart-nil addr)
