-- ===== src/AclFilter/Roundtrip.antt =====
-- What is left of a filter that is written as XML and read again.
use libvirt_cim.Prelude.{
  ◌≡◌, ◌↔◌, refl, ap, ◌∙◌, sym, Bool, true, false, Option, none, some, List, [], ◌∷◌, ◌++◌,
  append_assoc, append-nil, Bytes, codes, strcmp_eq, strcmp_eq_refl, Bool-cases, inl, inr, subst,
  ◌>>=?◌,
}
use libvirt_cim.Xml.{element, leaf, get_attr_value, get_prop, get_node_content}
use libvirt_cim.AclFilter.{
  Filter, refs_of, list_find, append_filter_ref, checked, parse_child, parse_children,
  parse_acl_filter, filter_refs, uuid_child, chain_attr, text_of, filter_to_xml,
}
use libvirt_cim.AclFilter.Refs.{Distinct, Distinct-middle}

abbrev with_ref : Filter → Bytes → Filter
with_ref f r = record f { refs = some (refs_of f ++ (r ∷ [])) }

-- a filter with a name and a chain
abbrev bare : Bytes → Option Bytes → Filter
bare n ch = record {
  uuid = none;
  name = some n;
  chain = ch;
  priority = none;
  rules = [];
  refs = none;
}

-- the filter with references added one by one
add_refs : List Bytes → Filter → Filter
add_refs [] f = f
add_refs (r ∷ rs) f = add_refs rs (with_ref f r)

add_refs-all :
    (rs : List Bytes) (f : Filter)
    → (refs_of (add_refs rs f) ≡ refs_of f ++ rs)
      × ((add_refs rs f).uuid ≡ f.uuid)
      × ((add_refs rs f).name ≡ f.name)
      × ((add_refs rs f).chain ≡ f.chain)
      × ((add_refs rs f).priority ≡ f.priority)
      × ((add_refs rs f).rules ≡ f.rules)
unfolding add_refs
add_refs-all [] f = (sym (append-nil (refs_of f)), refl, refl, refl, refl, refl)
add_refs-all (r ∷ rs) f =
    let all = add_refs-all rs (with_ref f r) in
    (all.0 ∙ append_assoc (refs_of f) (r ∷ []) rs, all.1, all.2, all.3, all.4, all.5)

appends :
    (f : Filter) (r : Bytes)
    → list_find (refs_of f) r ≡ false
    → append_filter_ref f r ≡ (true, with_ref f r)
unfolding append_filter_ref
appends f r e = rw e refl

module _ (streq : Bytes → Bytes → Bool)
    (streq_iff : (s t : Bytes) → (streq s t ≡ true) ↔ (s ≡ t)) where
  streq_false : (s t : Bytes) → strcmp_eq s t ≡ false → streq s t ≡ false
  streq_false s t e = elim (Bool-cases (streq s t)) [
    | inl h ↦ absurd (cc (ap (strcmp_eq s) ((streq_iff s t).0 h), strcmp_eq_refl s, e))
    | inr h ↦ h
  ]

  streq_true : (s : Bytes) → streq s s ≡ true
  streq_true s = (streq_iff s s).1 refl

  reads_ref :
      (r : Bytes) (f : Filter)
      → list_find (refs_of f) r ≡ false
      → parse_child streq (element (codes "filterref") ((codes "filter", r) ∷ []) [] leaf) f
        ≡ some (with_ref f r)
  unfolding parse_child get_attr_value get_prop strcmp_eq
  reads_ref r f e = rw (streq_false (codes "filterref") (codes "uuid") refl) (
      rw (streq_false (codes "filterref") (codes "rule") refl)
        (rw (streq_true (codes "filterref")) (ap checked (appends f r e))))

  reads_uuid :
      (u : Bytes) (f : Filter)
      → parse_child streq (element (codes "uuid") [] u leaf) f ≡ some (record f { uuid = some u })
  unfolding parse_child get_node_content
  reads_uuid u f = rw (streq_true (codes "uuid")) refl

  reads_refs :
      (rs : List Bytes) (f : Filter)
      → Distinct (refs_of f ++ rs)
      → parse_children streq (filter_refs rs) f ≡ some (add_refs rs f)
  unfolding parse_children filter_refs add_refs
  reads_refs [] f d = refl
  reads_refs (r ∷ rs) f d =
      ap (λ o. o >>=? parse_children streq (filter_refs rs))
        (reads_ref r f (Distinct-middle (refs_of f) r rs d))
      ∙ reads_refs rs (with_ref f r) (subst Distinct (sym (append_assoc (refs_of f) (r ∷ []) rs)) d)

  reads_children :
      (o : Option Bytes) (rs : List Bytes) (n : Bytes) (ch : Option Bytes)
      → Distinct rs
      → parse_children streq (uuid_child o (filter_refs rs)) (bare n ch)
        ≡ some (add_refs rs (record (bare n ch) { uuid = o }))
  unfolding parse_children
  reads_children none rs n ch d = reads_refs rs (bare n ch) d
  reads_children (some u) rs n ch d =
      ap (λ o. o >>=? parse_children streq (filter_refs rs)) (reads_uuid u (bare n ch))
      ∙ reads_refs rs (record (bare n ch) { uuid = some u }) d

  reads_filter :
      (o : Option Bytes) (rs : List Bytes) (n : Bytes) (ch : Option Bytes)
      → Distinct rs
      → parse_acl_filter streq (
          element
            (codes "filter")
            ((codes "name", n) ∷ chain_attr ch)
            []
            (uuid_child o (filter_refs rs)))
        ≡ some (add_refs rs (record (bare n ch) { uuid = o }))
  unfolding parse_acl_filter get_attr_value get_prop strcmp_eq
  reads_filter o rs n none d = reads_children o rs n none d
  reads_filter o rs n (some c) d = reads_children o rs n (some c) d

  -- Where STREQ compares strings, a filter that has a name and distinct references, once written and
  -- read again, has its UUID, its name, its chain and its references, and no priority and no rule.
  pub parse_acl_filter-filter_to_xml :
      (f : Filter) (n : Bytes)
      → f.name ≡ some n
      → Distinct (refs_of f)
      → (g : Filter) × (parse_acl_filter streq (filter_to_xml f) ≡ some g)
        × (refs_of g ≡ refs_of f)
        × (g.uuid ≡ f.uuid)
        × (g.name ≡ f.name)
        × (g.chain ≡ f.chain)
        × (g.priority ≡ none)
        × (g.rules ≡ [])
  unfolding filter_to_xml
  parse_acl_filter-filter_to_xml f n e d =
      let all = add_refs-all (refs_of f) (record (bare n f.chain) { uuid = f.uuid }) in
      (
        add_refs (refs_of f) (record (bare n f.chain) { uuid = f.uuid }),
        ap
              (λ x. parse_acl_filter streq (
                element (codes "filter") ((codes "name", text_of x) ∷ chain_attr f.chain) []
                  (uuid_child f.uuid (filter_refs (refs_of f)))))
              e
            ∙ reads_filter f.uuid (refs_of f) n f.chain d,
        all.0,
        all.1,
        all.2 ∙ sym e,
        all.3,
        all.4,
        all.5,
      )
