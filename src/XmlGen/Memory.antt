-- ===== src/XmlGen/Memory.antt =====
-- vcpu_xml, cputune_xml, mem_xml and emu_xml in libxkutil/xmlgen.c, of the first device of each list.
use libvirt_cim.Prelude.{
  ℕ, ◌-◌, ◌^◌, ltb, if◌then◌else◌, Option, none, some, List, [], ◌∷◌, Bytes, codes,
}
use libvirt_cim.Text.Decimal.{print_decimal}
use libvirt_cim.Xml.{element, Nodes, leaf, also, attr_text}
use libvirt_cim.Device.{
  DumpCore, not_set, on, off, MemDevice, Dev, mem_of, vcpu_of, emu_dev, VirtDevice,
}

abbrev pub text_node : Bytes → Bytes → Nodes → Nodes
text_node name content rest = also (element name [] content leaf) rest

abbrev pub dump_core_attr : DumpCore → List (Bytes × Bytes)
dump_core_attr on = (codes "dumpCore", codes "on") ∷ []
dump_core_attr off = (codes "dumpCore", codes "off") ∷ []
dump_core_attr not_set = []

unfoldable pub one_mem_xml : MemDevice → Nodes
one_mem_xml m = text_node (codes "currentMemory") (print_decimal m.size) (
    also (element (codes "memory") (dump_core_attr m.dump_core) (print_decimal m.maxsize) leaf)
      leaf)

unfoldable pub mem_xml : List VirtDevice → Option Nodes
mem_xml [] = some leaf
mem_xml (d ∷ _) = elim (mem_of d.dev) [ none ↦ none | some m ↦ some (one_mem_xml m) ]

unfoldable pub vcpu_xml : List VirtDevice → Option Nodes
vcpu_xml [] = some leaf
vcpu_xml (d ∷ _) = elim (vcpu_of d.dev) [
  | none ↦ none
  | some v ↦ some (text_node (codes "vcpu") (print_decimal v.quantity) leaf)
]

-- `%d` of a number that 32 bits hold
abbrev pub print_signed : ℕ → Bytes
print_signed n = if ltb n (2 ^ 31) then print_decimal n else b'-' ∷ print_decimal (2 ^ 32 - n)

unfoldable pub cputune_xml : List VirtDevice → Option Nodes
cputune_xml [] = some leaf
cputune_xml (d ∷ _) = elim (vcpu_of d.dev) [
  | none ↦ none
  | some v ↦ some (
      also
        (element (codes "cputune") [] [] (text_node (codes "shares") (print_signed v.weight) leaf))
        leaf)
]

abbrev emu_node : Dev → Option Nodes
emu_node (emu_dev path) = some (text_node (codes "emulator") (attr_text path) leaf)
emu_node _ = none

unfoldable pub emu_xml : Option VirtDevice → Option Nodes
emu_xml none = some leaf
emu_xml (some d) = emu_node d.dev
