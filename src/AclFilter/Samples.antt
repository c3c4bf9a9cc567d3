-- ===== src/AclFilter/Samples.antt =====
-- The theorems on filters, on a filter with one rule and two references.
use libvirt_cim.Prelude.{
  ◌≡◌, refl, true, false, none, some, [], ◌∷◌, Bytes, codes, strcmp_eq, strcmp_eq_iff,
  if◌then◌else◌,
}
use libvirt_cim.Text.Decimal.{print_decimal}
use libvirt_cim.Ident.{make_rule_id}
use libvirt_cim.Xml.{Node, element, leaf, also, get_attr_value, get_prop}
use libvirt_cim.AclRule.{Rule, unknown_rule, parse_acl_rule, parse_protocols}
use libvirt_cim.AclFilter.{
  Filter, refs_of, list_find, append_filter_ref, append_filter_rule, remove_filter_ref,
  parse_acl_filter, parse_child, parse_children, filter_to_xml,
}
use libvirt_cim.AclFilter.Refs.{Distinct, append_filter_ref-Distinct, remove_filter_ref-Distinct}
use libvirt_cim.AclFilter.Roundtrip.{parse_acl_filter-filter_to_xml}
use libvirt_cim.AclFilter.Parsed.{WellFormed, parse_acl_filter-WellFormed}

abbrev rule : Rule
rule = record {
  name = some (codes "no-ip:0");
  protocol_id = none;
  action = some (codes "drop");
  direction = some (codes "in");
  priority = none;
  statematch = none;
  var = unknown_rule;
}

abbrev filter : Filter
filter = record {
  uuid = none;
  name = some (codes "no-ip");
  chain = some (codes "root");
  priority = none;
  rules = rule ∷ [];
  refs = some (codes "a" ∷ codes "b" ∷ []);
}

abbrev ref_node : Bytes → Node
ref_node name = element (codes "filterref") ((codes "filter", name) ∷ []) [] leaf

abbrev node : Node
node =
    element (codes "filter") ((codes "name", codes "no-ip") ∷ (codes "chain", codes "root") ∷ []) []
      (also
        (element (codes "rule")
          ((codes "action", codes "drop") ∷ (codes "direction", codes "in") ∷ []) [] leaf)
        (also (ref_node (codes "a")) (also (ref_node (codes "b")) leaf)))

parses : parse_acl_filter strcmp_eq node ≡ some filter
unfolding parse_acl_filter parse_children parse_child parse_acl_rule parse_protocols get_attr_value
    get_prop append_filter_ref append_filter_rule list_find make_rule_id print_decimal strcmp_eq
parses = refl

parse_acl_filter-WellFormed_example : WellFormed filter
parse_acl_filter-WellFormed_example = parse_acl_filter-WellFormed strcmp_eq node filter parses

two_refs : Distinct (codes "a" ∷ codes "b" ∷ [])
unfolding Distinct list_find strcmp_eq
two_refs = (refl, (refl, tt))

append_filter_ref-Distinct_example :
    let (ok, g) = append_filter_ref filter (codes "c") in
    (ok ≡ (if list_find (refs_of filter) (codes "c") then false else true))
    × Distinct (refs_of g)
    × ((m : Bytes)
        → list_find (refs_of g) m
          ≡ (if strcmp_eq (codes "c") m then true else list_find (refs_of filter) m))
append_filter_ref-Distinct_example = append_filter_ref-Distinct filter (codes "c") two_refs

remove_filter_ref-Distinct_example :
    list_find (refs_of (remove_filter_ref filter (codes "a")).1) (codes "b")
    ≡ (if strcmp_eq (codes "a") (codes "b") then false else list_find (refs_of filter) (codes "b"))
remove_filter_ref-Distinct_example =
    remove_filter_ref-Distinct filter (codes "a") two_refs (codes "b")

parse_acl_filter-filter_to_xml_example :
    (g : Filter) × (parse_acl_filter strcmp_eq (filter_to_xml filter) ≡ some g)
    × (refs_of g ≡ refs_of filter)
    × (g.uuid ≡ filter.uuid)
    × (g.name ≡ filter.name)
    × (g.chain ≡ filter.chain)
    × (g.priority ≡ none)
    × (g.rules ≡ [])
parse_acl_filter-filter_to_xml_example =
    parse_acl_filter-filter_to_xml strcmp_eq strcmp_eq_iff filter (codes "no-ip") refl two_refs
