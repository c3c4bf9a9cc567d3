-- ===== src/DeviceParse/Memory.antt =====
-- parse_emu_device, parse_mem_device and _get_mem_device in libxkutil/device_parsing.c.
use libvirt_cim.Prelude.{
  ℕ, ltb, Bool, Option, none, some, List, [], ◌∷◌, Bytes, codes, if◌then◌else◌, ◌>>=?◌,
}
use libvirt_cim.Xml.{Node, Nodes, node_name, get_attr_value, get_node_content}
use libvirt_cim.Device.{
  all, mem, emu, DumpCore, not_set, on, off, MemDevice, mem_of, mem_dev, emu_dev, VirtDevice,
}
use libvirt_cim.DeviceParse.{Parsed, fault, one, parsed, do_parse}
use libvirt_cim.Text.Scanf.Numbers.{scan_u64}

-- an emulator has no id
unfoldable pub parse_emu_device : Node → Parsed
parse_emu_device node = parsed (
    get_node_content node >>=? λ path.
    some (record { type = emu; dev = emu_dev (some path); id = none }))

abbrev pub no_mem : MemDevice
no_mem = record { size = 0; maxsize = 0; dump_core = not_set }

-- the type and the id are left zero
abbrev pub mem_part : MemDevice → Parsed
mem_part m = one (record { type = all; dev = mem_dev m; id = none })

abbrev pub max : ℕ → ℕ → ℕ
max a b = if ltb b a then a else b

module _ (streq streqc : Bytes → Bytes → Bool) where
  unfoldable pub dump_core_of : Option Bytes → DumpCore
  dump_core_of none = not_set
  dump_core_of (some v) =
      if streqc v (codes "on") then on else if streqc v (codes "off") then off else not_set

  unfoldable pub mem_by_name : Node → Bytes → MemDevice
  mem_by_name node content =
      if streq (node_name node) (codes "currentMemory")
      then record no_mem { size = scan_u64 content 0 }
      else if streq (node_name node) (codes "memory")
      then record no_mem {
        maxsize = scan_u64 content 0;
        dump_core = dump_core_of (get_attr_value node (codes "dumpCore"));
      }
      else no_mem

  unfoldable pub parse_mem_device : Node → Parsed
  parse_mem_device node = elim (get_node_content node) [
    | none ↦ fault
    | some content ↦ mem_part (mem_by_name node content)
  ]

  abbrev pub first_set : DumpCore → DumpCore → DumpCore
  first_set not_set d = d
  first_set d _ = d

  -- two nodes are joined; of any other number only the first counts
  abbrev pub coalesce : List VirtDevice → Option MemDevice
  coalesce [] = none
  coalesce (d ∷ []) = mem_of d.dev >>=? λ m. some (record {
    size = max m.size m.maxsize;
    maxsize = max m.size m.maxsize;
    dump_core = m.dump_core;
  })
  coalesce (d ∷ e ∷ []) = mem_of d.dev >>=? λ m. mem_of e.dev >>=? λ n. some (record {
    size = max m.size n.size;
    maxsize = max m.maxsize n.maxsize;
    dump_core = first_set m.dump_core n.dump_core;
  })
  coalesce (d ∷ _) = mem_of d.dev >>=? λ m. some (record {
    size = max m.size m.maxsize;
    maxsize = max m.size m.maxsize;
    dump_core = m.dump_core;
  })

  -- the memory of a domain from its <memory> and <currentMemory> nodes; `none` where there is none
  unfoldable pub get_mem_device : Nodes → Option VirtDevice
  get_mem_device nodes = do_parse parse_mem_device nodes >>=? λ mdevs. coalesce mdevs >>=? λ m.
      some (record { type = mem; dev = mem_dev m; id = some (codes "mem") })
