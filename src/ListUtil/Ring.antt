-- ===== src/ListUtil/Ring.antt =====
-- What a `list_t` stands for: the ring of its nodes, from `head` round to `head`.
use libvirt_cim.Prelude.{◌≡◌, Bool, Option, none, some, List, [], ◌∷◌, length}
use libvirt_cim.ListUtil.{Ptr, Cells, ListT, Memory, u32}
use libvirt_cim.ListUtil.Chain.{Run, Chain, last, payloads}

module _ {ℓ} {A : Type ℓ} where
  abbrev pub head_of : Run A → Option Ptr
  head_of [] = none
  head_of ((a, _) ∷ ps) = some a

  abbrev pub Ring : Cells A → Run A → Type ℓ
  Ring c [] = Unit
  Ring c ((a, d) ∷ ps) = Chain c (last a ps) ((a, d) ∷ ps) a

  -- The memory holds the list `l`, whose nodes in order are `ps`.
  pub record Represents (m : Memory A) (l : ListT A) (ps : Run A) : Type ℓ where
    pub is_list : m.list ≡ some l
    pub at_head : l.head ≡ head_of ps
    pub ring : Ring m.cell ps
    pub counted : l.count ≡ u32 (length ps)

  -- The memory holds a list of these payloads, in order, with these callbacks.
  pub record Holds (m : Memory A) (free_cb : Bool) (cmp_cb : Option (A → A → Bool)) (xs : List A)
      : Type ℓ where
    pub list : ListT A
    pub run : Run A
    pub represents : Represents m list run
    pub same_free : list.free_cb ≡ free_cb
    pub same_cmp : list.cmp_cb ≡ cmp_cb
    pub same_payloads : payloads run ≡ xs
