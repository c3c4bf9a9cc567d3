-- ===== src/ListUtil/Samples.antt =====
-- The list theorems at lists of two and of no payloads, and short runs of the calls.
use libvirt_cim.Prelude.{
  ℕ, ◌+◌, ◌≡◌, refl, Bool, true, Option, none, some, [], ◌∷◌, ◌==◌, arith, ltb, if◌then◌else◌,
}
use libvirt_cim.ListUtil.{
  Ptr, Cells, ListT, Memory, node, list_append, list_find, list_remove, list_foreach, list_free,
}
use libvirt_cim.ListUtil.Append.{append-Holds}
use libvirt_cim.ListUtil.Chain.{has}
use libvirt_cim.ListUtil.Foreach.{foreach-Holds}
use libvirt_cim.ListUtil.Free.{free-Holds}
use libvirt_cim.ListUtil.Ring.{Holds}
use libvirt_cim.ListUtil.Search.{find-Holds, remove-Holds}
use libvirt_cim.ListUtil.Seq

abbrev equal : Option (ℕ → ℕ → Bool)
equal = some ◌==◌

abbrev no_cells : Cells ℕ
no_cells a = none

abbrev no_memory : Memory ℕ
no_memory = record { cell = no_cells; list = none; freed = [] }

-- a list with no node
abbrev empty_list : Memory ℕ
empty_list = record no_memory {
  list = some (record { count = 0; head = none; free_cb = true; cmp_cb = equal });
}

empty_list-Holds : Holds empty_list true equal []
empty_list-Holds = record {
  list = record { count = 0; head = none; free_cb = true; cmp_cb = equal };
  run = [];
  represents = record { is_list = refl; at_head = refl; ring = tt; counted = refl };
  same_free = refl;
  same_cmp = refl;
  same_payloads = refl;
}

-- the payloads 5 and 7, at the addresses 16 and 32
abbrev two_cells : Cells ℕ
two_cells a = if a == 16 then some (node 32 32 5) else if a == 32 then some (node 16 16 7) else none

abbrev two_list : ListT ℕ
two_list = record { count = 2; head = some 16; free_cb = true; cmp_cb = equal }

abbrev two : Memory ℕ
two = record { cell = two_cells; list = some two_list; freed = [] }

abbrev two-Holds : Holds two true equal (5 ∷ 7 ∷ [])
two-Holds = record {
  list = two_list;
  run = (16, 5) ∷ (32, 7) ∷ [];
  represents = record {
    is_list = refl;
    at_head = refl;
    ring = (refl, refl, (refl, refl, tt));
    counted = refl;
  };
  same_free = refl;
  same_cmp = refl;
  same_payloads = refl;
}

append-Holds_example :
    (m' : Memory ℕ) × (list_append (some 48) 9 two ≡ some m')
    × Holds m' true equal (5 ∷ 7 ∷ 9 ∷ [])
    × (m'.freed ≡ [])
append-Holds_example = append-Holds two true equal (5 ∷ 7 ∷ []) 48 9 refl two-Holds

find-Holds_example : list_find 3 7 two ≡ some (Seq.find (Seq.hits equal 7) (5 ∷ 7 ∷ []))
find-Holds_example = find-Holds two true equal (5 ∷ 7 ∷ []) 7 3 two-Holds (omega arith)

remove-Holds_example :
    (m' : Memory ℕ) × (list_remove 3 5 two ≡ some m')
    × Holds m' true equal (Seq.remove (Seq.hits equal 5) (5 ∷ 7 ∷ []))
    × (m'.freed ≡ Seq.released true (Seq.find (Seq.hits equal 5) (5 ∷ 7 ∷ [])))
remove-Holds_example = remove-Holds two true equal (5 ∷ 7 ∷ []) 5 3 two-Holds (omega arith)

-- a callback that adds up the payloads and stops after the first one above 6
abbrev add_until : ℕ → ℕ → Bool × ℕ
add_until d u = (ltb d 6, u + d)

foreach-Holds_example : list_foreach 3 add_until two 0 ≡ some (Seq.foreach add_until (5 ∷ 7 ∷ []) 0)
foreach-Holds_example =
    foreach-Holds add_until two true equal (5 ∷ 7 ∷ []) 0 3 two-Holds (omega arith)

free-Holds_example :
    (m' : Memory ℕ) × (list_free 2 two ≡ some m')
    × (m'.list ≡ none)
    × (m'.freed ≡ 5 ∷ 7 ∷ [])
    × ((a : Ptr) → has {A = ℕ} a ((16, 5) ∷ (32, 7) ∷ []) ≡ true → m'.cell a ≡ none)
free-Holds_example = free-Holds two true equal 5 (7 ∷ []) 2 two-Holds (omega arith)
