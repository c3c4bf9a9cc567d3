-- ===== src/Written/Memory.antt =====
-- The memory of a domain, written by mem_xml and read again by _get_mem_device.
use libvirt_cim.Prelude.{
  ℕ, ◌^◌, ◌<◌, ◌≡◌, refl, ap, ◌∙◌, Bool, true, none, some, List, [], ◌∷◌, Bytes, codes, strcmp_eq,
  ◌↔◌, arith,
}
use libvirt_cim.Text.Decimal.{print_decimal}
use libvirt_cim.Text.Scanf.Numbers.{scan_u64, scan_u64-print_decimal}
use libvirt_cim.Compare.{streq-strcmp_eq, streqc-caseless, caseless, lower}
use libvirt_cim.Xml.{element, Nodes, leaf, also, get_prop, get_attr_value, get_node_content}
use libvirt_cim.Device.{mem, DumpCore, not_set, on, off, MemDevice, mem_of, mem_dev, VirtDevice}
use libvirt_cim.DeviceParse.{do_parse}
use libvirt_cim.DeviceParse.Memory.{
  dump_core_of, mem_by_name, parse_mem_device, get_mem_device, max,
}
use libvirt_cim.XmlGen.Memory.{dump_core_attr, one_mem_xml, mem_xml}

-- what the two nodes read as, by the numbers that scan
two_nodes :
    (d : DumpCore) (s m : Bytes)
    → get_mem_device strcmp_eq caseless (
        also
          (element (codes "currentMemory") [] s leaf)
          (also (element (codes "memory") (dump_core_attr d) m leaf) leaf))
      ≡ some (record {
        type = mem;
        dev =
            mem_dev (record {
              size = max (scan_u64 s 0) 0;
              maxsize = max 0 (scan_u64 m 0);
              dump_core = d;
            });
        id = some (codes "mem");
      })
unfolding get_mem_device do_parse parse_mem_device mem_by_name dump_core_of get_node_content
    get_attr_value get_prop strcmp_eq caseless
two_nodes not_set s m = refl
two_nodes on s m = refl
two_nodes off s m = refl

max_zero : (n : ℕ) → (max n 0 ≡ n) × (max 0 n ≡ n)
max_zero n = (ground arith, ground arith)

abbrev mem_read : ℕ → ℕ → DumpCore → VirtDevice
mem_read size maxsize d = record {
  type = mem;
  dev = mem_dev (record { size = size; maxsize = maxsize; dump_core = d });
  id = some (codes "mem");
}

reads_mem :
    (m : MemDevice)
    → m.size < 2 ^ 64
    → m.maxsize < 2 ^ 64
    → get_mem_device strcmp_eq caseless (one_mem_xml m)
      ≡ some (record { type = mem; dev = mem_dev m; id = some (codes "mem") })
unfolding one_mem_xml
reads_mem m hs hm =
    two_nodes m.dump_core (print_decimal m.size) (print_decimal m.maxsize)
    ∙ ap (λ x. some (mem_read (max x 0) (max 0 (scan_u64 (print_decimal m.maxsize) 0)) m.dump_core))
        (scan_u64-print_decimal m.size 0 hs)
    ∙ ap (λ x. some (mem_read (max m.size 0) (max 0 x) m.dump_core))
        (scan_u64-print_decimal m.maxsize 0 hm)
    ∙ ap (λ x. some (mem_read x (max 0 m.maxsize) m.dump_core)) (max_zero m.size).0
    ∙ ap (λ x. some (mem_read m.size x m.dump_core)) (max_zero m.maxsize).1

-- Where STREQ compares strings and STREQC compares them but for the case of letters, the memory of a
-- domain whose size and maximum 64 bits hold is written as two nodes that read again as the same size,
-- maximum and dump mode.
pub get_mem_device-mem_xml :
    (streq streqc : Bytes → Bytes → Bool)
    → ((s t : Bytes) → (streq s t ≡ true) ↔ (s ≡ t))
    → ((s t : Bytes) → (streqc s t ≡ true) ↔ (lower s ≡ lower t))
    → (v : VirtDevice) (m : MemDevice) (rest : List VirtDevice) → v.dev ≡ mem_dev m
    → m.size < 2 ^ 64
    → m.maxsize < 2 ^ 64
    → (nodes : Nodes) × (mem_xml (v ∷ rest) ≡ some nodes)
      × (get_mem_device streq streqc nodes
          ≡ some (record { type = mem; dev = mem_dev m; id = some (codes "mem") }))
unfolding mem_xml
get_mem_device-mem_xml streq streqc streq_iff streqc_iff v m rest e hs hm = (
  one_mem_xml m,
  ap (λ d. elim (mem_of d) [ none ↦ none | some x ↦ some (one_mem_xml x) ]) e,
  ap (λ f. get_mem_device f streqc (one_mem_xml m)) (streq-strcmp_eq streq streq_iff)
      ∙ ap (λ g. get_mem_device strcmp_eq g (one_mem_xml m)) (streqc-caseless streqc streqc_iff)
      ∙ reads_mem m hs hm,
)
