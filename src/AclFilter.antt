-- ===== src/AclFilter.antt =====
-- libxkutil/acl_parsing.c and libxkutil/xmlgen.c: network filters, read from XML and written as XML. The
-- references are the sequence that the list of libxkutil/list_util.c holds. Allocations do not fail; a
-- result of 0 is `none`.
pub mod Refs
pub mod Roundtrip
pub mod Parsed
mod Samples
use libvirt_cim.Prelude.{
  ℕ, Bool, true, false, Option, none, some, List, [], ◌∷◌, ◌++◌, Bytes, codes, length, strcmp_eq,
  if◌then◌else◌, ◌>>=?◌,
}
use libvirt_cim.Ident.{make_rule_id}
use libvirt_cim.Xml.{
  Node, element, Nodes, leaf, also, node_name, node_children, get_attr_value, get_node_content,
}
use libvirt_cim.AclRule.{Rule, parse_acl_rule}

pub record Filter : Type 0 where
  pub uuid : Option Bytes
  pub name : Option Bytes
  pub chain : Option Bytes
  pub priority : Option Bytes
  pub rules : List Rule
  -- NULL until the first reference
  pub refs : Option (List Bytes)

-- the index of a rule is the count of the rules before it
unfoldable pub append_filter_rule : Filter → Rule → Option Filter
append_filter_rule filter rule = make_rule_id filter.name (length filter.rules) >>=? λ id.
    some (record filter { rules = filter.rules ++ (record rule { name = some id } ∷ []) })

abbrev pub refs_of : Filter → List Bytes
refs_of filter = elim filter.refs [ none ↦ [] | some refs ↦ refs ]

-- `list_find` and `list_remove` with `filter_ref_cmp`
unfoldable pub list_find : List Bytes → Bytes → Bool
list_find [] name = false
list_find (r ∷ refs) name = if strcmp_eq r name then true else list_find refs name

unfoldable pub list_remove : List Bytes → Bytes → List Bytes
list_remove [] name = []
list_remove (r ∷ refs) name = if strcmp_eq r name then refs else r ∷ list_remove refs name

-- The result, and the filter, whose list is made even if the reference is there already.
unfoldable pub append_filter_ref : Filter → Bytes → Bool × Filter
append_filter_ref filter name =
    let refs = refs_of filter in
    if list_find refs name
    then (false, record filter { refs = some refs })
    else (true, record filter { refs = some (refs ++ (name ∷ [])) })

unfoldable pub remove_filter_ref : Filter → Bytes → Bool × Filter
remove_filter_ref filter name = elim filter.refs [
  | none ↦ (false, filter)
  | some refs ↦ (true, record filter { refs = some (list_remove refs name) })
]

-- 0 is an error of the whole filter
abbrev pub checked : Bool × Filter → Option Filter
checked (ok, filter) = if ok then some filter else none

module _ (streq : Bytes → Bytes → Bool) where
  -- one child of <filter>
  unfoldable pub parse_child : Node → Filter → Option Filter
  parse_child child filter =
      if streq (node_name child) (codes "uuid")
      then some (record filter { uuid = get_node_content child })
      else if streq (node_name child) (codes "rule")
      then (parse_acl_rule streq child >>=? append_filter_rule filter)
      else if streq (node_name child) (codes "filterref")
      then (get_attr_value child (codes "filter") >>=? λ ref.
          checked (append_filter_ref filter ref))
      else some filter

  unfoldable pub parse_children : Nodes → Filter → Option Filter
  parse_children leaf filter = some filter
  parse_children (also child rest) filter = parse_child child filter >>=? parse_children rest

  -- the filter with its attributes, before any child
  abbrev pub filter_head : Node → Filter
  filter_head fnode = record {
    uuid = none;
    name = get_attr_value fnode (codes "name");
    chain = get_attr_value fnode (codes "chain");
    priority = get_attr_value fnode (codes "priority");
    rules = [];
    refs = none;
  }

  unfoldable pub parse_acl_filter : Node → Option Filter
  parse_acl_filter fnode = get_attr_value fnode (codes "name") >>=? λ _.
      parse_children (node_children fnode) (filter_head fnode)

-- `filter_ref_foreach` over the list
unfoldable pub filter_refs : List Bytes → Nodes
filter_refs [] = leaf
filter_refs (r ∷ refs) =
    also (element (codes "filterref") ((codes "filter", r) ∷ []) [] leaf) (filter_refs refs)

abbrev pub text_of : Option Bytes → Bytes
text_of none = []
text_of (some s) = s

abbrev pub chain_attr : Option Bytes → List (Bytes × Bytes)
chain_attr none = []
chain_attr (some chain) = (codes "chain", chain) ∷ []

abbrev pub uuid_child : Option Bytes → Nodes → Nodes
uuid_child none rest = rest
uuid_child (some uuid) rest = also (element (codes "uuid") [] uuid leaf) rest

-- the tree that `filter_to_xml` prints, where libxml2's calls succeed
unfoldable pub filter_to_xml : Filter → Node
filter_to_xml filter =
    element (codes "filter") ((codes "name", text_of filter.name) ∷ chain_attr filter.chain) []
      (uuid_child filter.uuid (filter_refs (refs_of filter)))
