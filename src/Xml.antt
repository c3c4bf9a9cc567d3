-- ===== src/Xml.antt =====
-- The elements of libxml2's documents, as far as libxkutil/acl_parsing.c and libxkutil/xmlgen.c use them,
-- and libxkutil/device_parsing.c's readers of one element. Entities in text are not modelled.
use libvirt_cim.Prelude.{Option, none, some, List, [], ◌∷◌, Bytes, strcmp_eq, if◌then◌else◌, ◌>>=?◌}

mutual
  -- name, attributes, all the text in it, and children
  pub data Node : Type 0 where
    element : Bytes → List (Bytes × Bytes) → Bytes → Nodes → Node

  pub data Nodes : Type 0 where
    leaf : Nodes
    also : Node → Nodes → Nodes

abbrev pub node_name : Node → Bytes
node_name (element name attrs content children) = name

abbrev pub node_children : Node → Nodes
node_children (element name attrs content children) = children

abbrev pub node_attrs : Node → List (Bytes × Bytes)
node_attrs (element name attrs content children) = attrs

-- `xmlGetProp`: the attribute of that name, if there is one
unfoldable pub get_prop : List (Bytes × Bytes) → Bytes → Option Bytes
get_prop [] name = none
get_prop ((k, v) ∷ attrs) name = if strcmp_eq k name then some v else get_prop attrs name

unfoldable pub get_attr_value : Node → Bytes → Option Bytes
get_attr_value node attrname = get_prop (node_attrs node) attrname

unfoldable pub get_node_content : Node → Option Bytes
get_node_content (element name attrs content children) = some content

-- A loop over the children of a node that a child may end with an error.
unfoldable pub each_child {ℓ} : {S : Type ℓ} → (Node → S → Option S) → Nodes → S → Option S
each_child f leaf s = some s
each_child f (also n rest) s = f n s >>=? each_child f rest

unfoldable pub append_nodes : Nodes → Nodes → Nodes
append_nodes leaf ms = ms
append_nodes (also n ns) ms = also n (append_nodes ns ms)

-- `xmlNewProp` where the source tests that there is a value
abbrev pub attr_if : Bytes → Option Bytes → List (Bytes × Bytes) → List (Bytes × Bytes)
attr_if name none rest = rest
attr_if name (some v) rest = (name, v) ∷ rest

-- `xmlNewProp` with no value makes an attribute that reads as the empty string.
abbrev pub attr_text : Option Bytes → Bytes
attr_text none = []
attr_text (some v) = v
