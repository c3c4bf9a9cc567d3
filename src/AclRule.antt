-- ===== src/AclRule.antt =====
-- libxkutil/acl_parsing.c: the rules of a network filter. A field that the source leaves NULL is `none`;
-- of the union `var` there is the part that the rule's type names. The type and code of an ICMP or IGMP
-- rule, which nothing sets, are left out. `strdup` does not fail.
use libvirt_cim.Prelude.{
  Bool, false, ◌||◌, Option, none, some, List, [], ◌∷◌, Bytes, codes, if◌then◌else◌, is_some, ◌&&◌,
}
use libvirt_cim.Xml.{Node, Nodes, leaf, also, node_name, node_children, get_attr_value}

pub record MacRule : Type 0 where
  pub protocol_id : Option Bytes
  pub srcmacaddr : Option Bytes
  pub srcmacmask : Option Bytes
  pub dstmacaddr : Option Bytes
  pub dstmacmask : Option Bytes
  pub comment : Option Bytes

pub record ArpRule : Type 0 where
  pub srcmacaddr : Option Bytes
  pub srcmacmask : Option Bytes
  pub dstmacaddr : Option Bytes
  pub dstmacmask : Option Bytes
  pub hw_type : Option Bytes
  pub protocol_type : Option Bytes
  pub opcode : Option Bytes
  pub arpsrcmacaddr : Option Bytes
  pub arpdstmacaddr : Option Bytes
  pub arpsrcipaddr : Option Bytes
  pub arpdstipaddr : Option Bytes
  pub comment : Option Bytes

pub record IpRule : Type 0 where
  pub srcmacaddr : Option Bytes
  pub srcmacmask : Option Bytes
  pub dstmacaddr : Option Bytes
  pub dstmacmask : Option Bytes
  pub srcipaddr : Option Bytes
  pub srcipmask : Option Bytes
  pub dstipaddr : Option Bytes
  pub dstipmask : Option Bytes
  pub protocol : Option Bytes
  pub srcportstart : Option Bytes
  pub srcportend : Option Bytes
  pub dstportstart : Option Bytes
  pub dstportend : Option Bytes
  pub comment : Option Bytes

pub record TcpRule : Type 0 where
  pub srcmacaddr : Option Bytes
  pub srcipaddr : Option Bytes
  pub srcipmask : Option Bytes
  pub dstipaddr : Option Bytes
  pub dstipmask : Option Bytes
  pub srcipfrom : Option Bytes
  pub srcipto : Option Bytes
  pub dstipfrom : Option Bytes
  pub dstipto : Option Bytes
  pub srcportstart : Option Bytes
  pub srcportend : Option Bytes
  pub dstportstart : Option Bytes
  pub dstportend : Option Bytes
  pub comment : Option Bytes
  pub state : Option Bytes

pub record IcmpIgmpRule : Type 0 where
  pub srcmacaddr : Option Bytes
  pub srcmacmask : Option Bytes
  pub dstmacaddr : Option Bytes
  pub dstmacmask : Option Bytes
  pub srcipaddr : Option Bytes
  pub srcipmask : Option Bytes
  pub dstipaddr : Option Bytes
  pub dstipmask : Option Bytes
  pub srcipfrom : Option Bytes
  pub srcipto : Option Bytes
  pub dstipfrom : Option Bytes
  pub dstipto : Option Bytes
  pub comment : Option Bytes
  pub state : Option Bytes

-- `type` with the part of `var` that it names
pub data Var : Type 0 where
  unknown_rule : Var
  mac_rule : MacRule → Var
  arp_rule : ArpRule → Var
  ip_rule : IpRule → Var
  tcp_rule : TcpRule → Var
  icmp_igmp_rule : IcmpIgmpRule → Var

pub record Rule : Type 0 where
  pub name : Option Bytes
  pub protocol_id : Option Bytes
  pub action : Option Bytes
  pub direction : Option Bytes
  pub priority : Option Bytes
  pub statematch : Option Bytes
  pub var : Var

unfoldable pub parse_acl_mac_rule : Node → MacRule
parse_acl_mac_rule rnode = record {
  protocol_id = get_attr_value rnode (codes "protocolid");
  srcmacaddr = get_attr_value rnode (codes "srcmacaddr");
  srcmacmask = get_attr_value rnode (codes "srcmacmask");
  dstmacaddr = get_attr_value rnode (codes "dstmacaddr");
  dstmacmask = get_attr_value rnode (codes "dstmacmask");
  comment = get_attr_value rnode (codes "comment");
}

unfoldable pub parse_acl_arp_rule : Node → ArpRule
parse_acl_arp_rule rnode = record {
  srcmacaddr = get_attr_value rnode (codes "srcmacaddr");
  srcmacmask = get_attr_value rnode (codes "srcmacmask");
  dstmacaddr = get_attr_value rnode (codes "dstmacaddr");
  dstmacmask = get_attr_value rnode (codes "dstmacmask");
  hw_type = get_attr_value rnode (codes "hwtype");
  protocol_type = get_attr_value rnode (codes "protocoltype");
  opcode = get_attr_value rnode (codes "opcode");
  arpsrcmacaddr = get_attr_value rnode (codes "arpsrcmacaddr");
  arpdstmacaddr = get_attr_value rnode (codes "arpdstmacaddr");
  arpsrcipaddr = get_attr_value rnode (codes "arpsrcipaddr");
  arpdstipaddr = get_attr_value rnode (codes "arpdstipaddr");
  comment = get_attr_value rnode (codes "comment");
}

unfoldable pub parse_acl_ip_rule : Node → IpRule
parse_acl_ip_rule rnode = record {
  srcmacaddr = get_attr_value rnode (codes "srcmacaddr");
  srcmacmask = get_attr_value rnode (codes "srcmacmask");
  dstmacaddr = get_attr_value rnode (codes "dstmacaddr");
  dstmacmask = get_attr_value rnode (codes "dstmacmaks");
  srcipaddr = get_attr_value rnode (codes "srcipaddr");
  srcipmask = get_attr_value rnode (codes "srcipmask");
  dstipaddr = get_attr_value rnode (codes "dstipaddr");
  dstipmask = get_attr_value rnode (codes "dstipmask");
  protocol = get_attr_value rnode (codes "protocol");
  srcportstart = get_attr_value rnode (codes "srcportstart");
  srcportend = get_attr_value rnode (codes "srcportend");
  dstportstart = get_attr_value rnode (codes "dstportstart");
  dstportend = get_attr_value rnode (codes "dstportend");
  comment = get_attr_value rnode (codes "comment");
}

unfoldable pub parse_acl_tcp_rule : Node → TcpRule
parse_acl_tcp_rule rnode = record {
  srcmacaddr = get_attr_value rnode (codes "srcmacaddr");
  srcipaddr = get_attr_value rnode (codes "srcipaddr");
  srcipmask = get_attr_value rnode (codes "srcipmask");
  dstipaddr = get_attr_value rnode (codes "dstipaddr");
  dstipmask = get_attr_value rnode (codes "dstipmask");
  srcipfrom = get_attr_value rnode (codes "srcipfrom");
  srcipto = get_attr_value rnode (codes "srcipto");
  dstipfrom = get_attr_value rnode (codes "dstipfrom");
  dstipto = get_attr_value rnode (codes "dstipto");
  srcportstart = get_attr_value rnode (codes "srcportstart");
  srcportend = get_attr_value rnode (codes "srcportend");
  dstportstart = get_attr_value rnode (codes "dstportstart");
  dstportend = get_attr_value rnode (codes "dstportend");
  comment = get_attr_value rnode (codes "comment");
  state = get_attr_value rnode (codes "state");
}

unfoldable pub parse_acl_icmp_igmp_rule : Node → IcmpIgmpRule
parse_acl_icmp_igmp_rule rnode = record {
  srcmacaddr = get_attr_value rnode (codes "srcmacaddr");
  srcmacmask = get_attr_value rnode (codes "srcmacmask");
  dstmacaddr = get_attr_value rnode (codes "dstmacaddr");
  dstmacmask = get_attr_value rnode (codes "dstmacmask");
  srcipaddr = get_attr_value rnode (codes "srcipaddr");
  srcipmask = get_attr_value rnode (codes "srcipmask");
  dstipaddr = get_attr_value rnode (codes "dstipaddr");
  dstipmask = get_attr_value rnode (codes "dstipmask");
  srcipfrom = get_attr_value rnode (codes "srcipfrom");
  srcipto = get_attr_value rnode (codes "srcipto");
  dstipfrom = get_attr_value rnode (codes "dstipfrom");
  dstipto = get_attr_value rnode (codes "dstipto");
  comment = get_attr_value rnode (codes "comment");
  state = get_attr_value rnode (codes "state");
}

module _ (streq : Bytes → Bytes → Bool) where
  -- Is the text STREQ to one of these?
  unfoldable pub is_one_of : Bytes → List Bytes → Bool
  is_one_of s [] = false
  is_one_of s (t ∷ ts) = streq s t || is_one_of s ts

  -- what an element below <rule> sets, if it is one of the protocols
  pub parse_protocol : Node → Option Var
  unfolding is_one_of
  parse_protocol child =
      let s = node_name child in
      if is_one_of s (codes "mac" ∷ [])
      then some (mac_rule (parse_acl_mac_rule child))
      else if is_one_of s (codes "arp" ∷ codes "rarp" ∷ [])
      then some (arp_rule (parse_acl_arp_rule child))
      else if is_one_of s (codes "ip" ∷ codes "ipv6" ∷ [])
      then some (ip_rule (parse_acl_ip_rule child))
      else if is_one_of s (
          codes "tcp"
          ∷ codes "tcp-ipv6"
          ∷ codes "udp"
          ∷ codes "udp-ipv6"
          ∷ codes "sctp"
          ∷ codes "sctp-ipv6"
          ∷ [])
      then some (tcp_rule (parse_acl_tcp_rule child))
      else if is_one_of s (
          codes "icmp"
          ∷ codes "icmpv6"
          ∷ codes "igmp"
          ∷ codes "igmp-ipv6"
          ∷ codes "esp"
          ∷ codes "esp-ipv6"
          ∷ codes "ah"
          ∷ codes "ah-ipv6"
          ∷ codes "udplite"
          ∷ codes "udplite-ipv6"
          ∷ codes "all"
          ∷ codes "all-ipv6"
          ∷ [])
      then some (icmp_igmp_rule (parse_acl_icmp_igmp_rule child))
      else none

  abbrev pub set_protocol : Node → Option Var → Rule → Rule
  set_protocol child none rule = rule
  set_protocol child (some v) rule = record rule { protocol_id = some (node_name child); var = v }

  -- the loop over the children: a later protocol takes the place of an earlier one
  unfoldable pub parse_protocols : Nodes → Rule → Rule
  parse_protocols leaf rule = rule
  parse_protocols (also child rest) rule =
      parse_protocols rest (set_protocol child (parse_protocol child) rule)

  rule_head : Node → Rule
  rule_head rnode = record {
    name = none;
    protocol_id = none;
    action = get_attr_value rnode (codes "action");
    direction = get_attr_value rnode (codes "direction");
    priority = get_attr_value rnode (codes "priority");
    statematch = get_attr_value rnode (codes "statematch");
    var = unknown_rule;
  }

  unfoldable pub parse_acl_rule : Node → Option Rule
  unfolding rule_head
  parse_acl_rule rnode =
      let rule = rule_head rnode in
      if is_some rule.action && is_some rule.direction
      then some (parse_protocols (node_children rnode) rule)
      else none
