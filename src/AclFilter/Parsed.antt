-- ===== src/AclFilter/Parsed.antt =====
-- What every filter that parses satisfies.
use libvirt_cim.Prelude.{
  ℕ, suc, ◌≡◌, ◌+◌, ap, ◌∙◌, sym, Bool, Option, some, List, [], ◌∷◌, ◌++◌, Bytes, codes, arith,
  length, Bool-cases, inl, inr, subst, >>=?-inv,
}
use libvirt_cim.Ident.{make_rule_id}
use libvirt_cim.Xml.{
  Node, Nodes, leaf, also, node_name, get_attr_value, get_node_content, node_children,
}
use libvirt_cim.AclRule.{Rule, parse_acl_rule}
use libvirt_cim.AclFilter.{
  Filter, refs_of, list_find, append_filter_ref, append_filter_rule, checked, parse_child,
  parse_children, filter_head, parse_acl_filter,
}
use libvirt_cim.AclFilter.Refs.{Distinct, Distinct-append}

-- the rules' names, from an index on: the filter's name and the place of the rule
unfoldable pub Named : Option Bytes → ℕ → List Rule → Type 0
Named n i [] = Unit
Named n i (r ∷ rules) = (r.name ≡ make_rule_id n i) × Named n (suc i) rules

Named-append :
    (n : Option Bytes) (i : ℕ) (rules : List Rule) (r : Rule)
    → Named n i rules
    → r.name ≡ make_rule_id n (i + length rules)
    → Named n i (rules ++ (r ∷ []))
unfolding Named
Named-append n i [] r h e = (e ∙ ap (make_rule_id n) (omega arith), tt)
Named-append n i (q ∷ rules) r h e =
    (h.0, Named-append n (suc i) rules r h.1 (e ∙ ap (make_rule_id n) (omega arith)))

-- the references are distinct, and the rules are named by their places
pub record WellFormed (f : Filter) : Type 0 where
  pub refs_distinct : Distinct (refs_of f)
  pub rules_named : Named f.name 0 f.rules

-- Adding a rule names it by its place and keeps the filter well formed.
pub append_filter_rule-WellFormed :
    (f : Filter) (rule : Rule) (g : Filter)
    → WellFormed f
    → append_filter_rule f rule ≡ some g
    → WellFormed g
unfolding append_filter_rule
append_filter_rule-WellFormed f rule g wf e =
    let (id, made, same) = >>=?-inv (make_rule_id f.name (length f.rules)) _ g e in
    let grown : record f { rules = f.rules ++ (record rule { name = some id } ∷ []) } ≡ g = cc in
    subst WellFormed grown (record {
      refs_distinct = wf.refs_distinct;
      rules_named =
          Named-append f.name 0 f.rules (record rule { name = some id }) wf.rules_named
            (sym made ∙ ap (make_rule_id f.name) (omega arith));
    })

checked-WellFormed :
    (f : Filter) (name : Bytes) (g : Filter)
    → WellFormed f
    → checked (append_filter_ref f name) ≡ some g
    → WellFormed g
unfolding append_filter_ref
checked-WellFormed f name g wf e = elim (Bool-cases (list_find (refs_of f) name)) [
  | inl found ↦ absurd (cc (rw found at e))
  | inr fresh ↦
      let longer : record f { refs = some (refs_of f ++ (name ∷ [])) } ≡ g = cc (rw fresh at e) in
      subst WellFormed longer (record {
        refs_distinct = Distinct-append (refs_of f) name wf.refs_distinct fresh;
        rules_named = wf.rules_named;
      })
]

module _ (streq : Bytes → Bytes → Bool) where
  parse_child-WellFormed :
      (child : Node) (f g : Filter)
      → WellFormed f
      → parse_child streq child f ≡ some g
      → WellFormed g
  unfolding parse_child
  parse_child-WellFormed child f g wf e =
      elim (Bool-cases (streq (node_name child) (codes "uuid"))) [
        | inl t ↦
            let same : record f { uuid = get_node_content child } ≡ g = cc (rw t at e) in
            subst WellFormed same
              (record { refs_distinct = wf.refs_distinct; rules_named = wf.rules_named })
        | inr t ↦ elim (Bool-cases (streq (node_name child) (codes "rule"))) [
          | inl r ↦
              let (rule, _, made) =
                >>=?-inv (parse_acl_rule streq child) (append_filter_rule f) g
                  (rw r at (rw t at e)) in
              append_filter_rule-WellFormed f rule g wf made
          | inr r ↦ elim (Bool-cases (streq (node_name child) (codes "filterref"))) [
            | inl x ↦
                let (ref, _, made) =
                  >>=?-inv (get_attr_value child (codes "filter"))
                    (λ ref. checked (append_filter_ref f ref)) g (rw x at (rw r at (rw t at e))) in
                checked-WellFormed f ref g wf made
            | inr x ↦
                let same : f ≡ g = cc (rw x at (rw r at (rw t at e))) in subst WellFormed same wf
          ]
        ]
      ]

  parse_children-WellFormed :
      (children : Nodes) (f g : Filter)
      → WellFormed f
      → parse_children streq children f ≡ some g
      → WellFormed g
  unfolding parse_children
  parse_children-WellFormed leaf f g wf e = let same : f ≡ g = cc in subst WellFormed same wf
  parse_children-WellFormed (also child rest) f g wf e =
      let (f', first, others) =
        >>=?-inv (parse_child streq child f) (parse_children streq rest) g e in
      parse_children-WellFormed rest f' g (parse_child-WellFormed child f f' wf first) others

  head-WellFormed : (fnode : Node) → WellFormed (filter_head streq fnode)
  unfolding Distinct Named
  head-WellFormed fnode = record { refs_distinct = tt; rules_named = tt }

  -- In a filter that parses, no reference stands twice, and each rule is named by the filter's name and
  -- its place.
  pub parse_acl_filter-WellFormed :
      (fnode : Node) (f : Filter) → parse_acl_filter streq fnode ≡ some f → WellFormed f
  unfolding parse_acl_filter
  parse_acl_filter-WellFormed fnode f e =
      let (_, _, rest) =
        >>=?-inv (get_attr_value fnode (codes "name"))
          (λ _. parse_children streq (node_children fnode) (filter_head streq fnode)) f e in
      parse_children-WellFormed (node_children fnode) (filter_head streq fnode) f
        (head-WellFormed fnode) rest
