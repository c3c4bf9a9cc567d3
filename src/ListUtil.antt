-- ===== src/ListUtil.antt =====
-- libxkutil/list_util.c: the circular doubly linked list.
-- `Memory` holds the nodes by address, the `list_t`, and the payloads handed to `free_cb`.
-- Reading through NULL or through an address that holds no node is a fault, `none`.
pub mod Seq
pub mod Chain
pub mod Ring
pub mod Relink
pub mod Append
pub mod Prepend
pub mod Remove
pub mod Search
pub mod Foreach
pub mod Free
mod Samples
use libvirt_cim.Prelude.{
  ℕ, zero, suc, ◌+◌, ◌-◌, ◌%◌, ◌^◌, Bool, true, false, Option, none, some, List, [], ◌∷◌, ◌++◌,
  ◌==◌, if◌then◌else◌, ◌>>=?◌,
}

-- The address of a node, never NULL; a pointer that may be NULL is an `Option Ptr`.
abbrev pub Ptr : Type 0
Ptr = ℕ

pub record Node {ℓ} (A : Type ℓ) : Type ℓ where
  pub prev : Ptr
  pub next : Ptr
  pub payload : A

-- `struct _list_t`; `cmp_cb` answers whether the C callback returns 0, `free_cb` whether it is set.
pub record ListT {ℓ} (A : Type ℓ) : Type ℓ where
  pub count : ℕ
  pub head : Option Ptr
  pub free_cb : Bool
  pub cmp_cb : Option (A → A → Bool)

abbrev pub Cells {ℓ} : Type ℓ → Type ℓ
Cells A = Ptr → Option (Node A)

pub record Memory {ℓ} (A : Type ℓ) : Type ℓ where
  pub cell : Cells A
  pub list : Option (ListT A)
  pub freed : List A

-- `unsigned int`
abbrev pub u32 : ℕ → ℕ
u32 n = n % 2 ^ 32

module _ {ℓ} {A : Type ℓ} where
  abbrev pub node : Ptr → Ptr → A → Node A
  node p n d = record { prev = p; next = n; payload = d }

  unfoldable pub write : Cells A → Ptr → Option (Node A) → Cells A
  write c p v a = if a == p then v else c a

  -- `p->next = q` and `p->prev = q`
  unfoldable pub set_next : Cells A → Ptr → Ptr → Option (Cells A)
  set_next c p q = c p >>=? λ n. some (write c p (some (record n { next = q })))

  unfoldable pub set_prev : Cells A → Ptr → Ptr → Option (Cells A)
  set_prev c p q = c p >>=? λ n. some (write c p (some (record n { prev = q })))

  abbrev pub with_list : Memory A → ListT A → Memory A
  with_list m l = record m { list = some l }

  -- `fresh` is what `calloc` returned: no list if it is false.
  unfoldable pub list_new : Bool → Bool → Option (A → A → Bool) → Memory A → Memory A
  list_new got free_cb cmp_cb m = record m {
    list =
        if got
        then some (record { count = 0; head = none; free_cb = free_cb; cmp_cb = cmp_cb })
        else none;
  }

  -- the branch of `list_append` for a list with a head
  link_last : Ptr → Ptr → A → Cells A → Option (Cells A)
  unfolding write set_next set_prev
  link_last h n x c = c h >>=? λ hd.
      let c₁ = write c n (some (node hd.prev h x)) in
      set_next c₁ hd.prev n >>=? λ c₂. set_prev c₂ h n

  append_to : ListT A → Ptr → A → Memory A → Option (Memory A)
  unfolding link_last
  append_to l n x m =
      (elim l.head [
        | none ↦ some (write m.cell n (some (node n n x)))
        | some h ↦ link_last h n x m.cell
      ])
      >>=? λ c. some (record m {
        cell = c;
        list = some (record l {
          count = u32 (l.count + 1);
          head = elim l.head [ none ↦ some n | some h ↦ some h ];
        });
      })

  -- `fresh` is the address that `calloc` returned for the node, `none` for NULL.
  unfoldable pub list_append : Option Ptr → A → Memory A → Option (Memory A)
  unfolding append_to
  list_append fresh x m = elim m.list [
    | none ↦ some m
    | some l ↦ elim fresh [ none ↦ some m | some n ↦ append_to l n x m ]
  ]

  -- `list->head = list->head->prev`, with no test of `list` or of `list->head`
  step_head_back : Memory A → Option (Memory A)
  step_head_back m = m.list >>=? λ l.
      l.head >>=? λ h. m.cell h >>=? λ n. some (with_list m (record l { head = some n.prev }))

  unfoldable pub list_prepend : Option Ptr → A → Memory A → Option (Memory A)
  unfolding step_head_back list_append
  list_prepend fresh x m = list_append fresh x m >>=? step_head_back

  -- The loops `do … while (n != list->head)`, on fuel: no value also stands for a loop that has not
  -- ended.
  find_loop : ℕ → (A → Bool) → Cells A → Ptr → Ptr → Option (Option Ptr)
  find_loop zero hit c h n = none
  find_loop (suc k) hit c h n = c n >>=? λ nd.
      let rest = find_loop k hit c h nd.next in
      if hit nd.payload then some (some n) else if nd.next == h then some none else rest

  unfoldable pub list_find_node : ℕ → A → Memory A → Option (Option Ptr)
  unfolding find_loop
  list_find_node fuel x m = elim m.list [
    | none ↦ some none
    | some l ↦ elim l.head [
      | none ↦ some none
      | some h ↦ elim l.cmp_cb [
        | none ↦ some none
        | some cmp ↦ find_loop fuel (λ d. cmp d x) m.cell h h
      ]
    ]
  ]

  unfoldable pub list_node_data_get : Option Ptr → Memory A → Option (Option A)
  list_node_data_get none m = some none
  list_node_data_get (some p) m = m.cell p >>=? λ n. some (some n.payload)

  unfoldable pub list_find : ℕ → A → Memory A → Option (Option A)
  unfolding list_find_node list_node_data_get
  list_find fuel x m = list_find_node fuel x m >>=? λ n. list_node_data_get n m

  -- the relinking of `list_remove_node` where the node is not the only one
  unlink : Node A → Cells A → Option (Cells A)
  unfolding set_next set_prev
  unlink nd c = set_next c nd.prev nd.next >>=? λ c₁. set_prev c₁ nd.next nd.prev

  unlink_node : ListT A → Ptr → Ptr → Memory A → Option (Memory A)
  unfolding unlink write
  unlink_node l h p m = m.cell p >>=? λ nd.
      (if nd.next == p then some m.cell else unlink nd m.cell) >>=? λ c. c p >>=? λ last.
      some (record m {
        cell = write c p none;
        list = some (record l {
          count = u32 (l.count + (2 ^ 32 - 1));
          head = if nd.next == p then none else if p == h then some nd.next else some h;
        });
        freed = if l.free_cb then m.freed ++ (last.payload ∷ []) else m.freed;
      })

  unfoldable pub list_remove_node : Option Ptr → Memory A → Option (Memory A)
  unfolding unlink_node
  list_remove_node node? m = elim m.list [
    | none ↦ some m
    | some l ↦ elim l.head [
      | none ↦ some m
      | some h ↦ elim node? [ none ↦ some m | some p ↦ unlink_node l h p m ]
    ]
  ]

  unfoldable pub list_remove : ℕ → A → Memory A → Option (Memory A)
  unfolding list_find_node list_remove_node
  list_remove fuel x m = list_find_node fuel x m >>=? λ n. list_remove_node n m

  -- `cb` is the callback with the state that it changes through `user_data`.
  foreach_loop {κ} :
      {U : Type κ} → ℕ → (A → U → Bool × U) → Cells A → Ptr → Ptr → U → Option (Bool × U)
  foreach_loop zero cb c h n u = none
  foreach_loop (suc k) cb c h n u = c n >>=? λ nd.
      let (ok, u') = cb nd.payload u in
      let rest = foreach_loop k cb c h nd.next u' in
      if ok then (if nd.next == h then some (true, u') else rest) else some (false, u')

  unfoldable pub list_foreach {κ} :
      {U : Type κ} → ℕ → (A → U → Bool × U) → Memory A → U → Option (Bool × U)
  unfolding foreach_loop
  list_foreach fuel cb m u = elim m.list [
    | none ↦ some (true, u)
    | some l ↦ elim l.head [ none ↦ some (true, u) | some h ↦ foreach_loop fuel cb m.cell h h u ]
  ]

  -- the loop of `list_free`; the last step frees the `list_t`
  free_loop : ℕ → ListT A → Ptr → Ptr → Memory A → Option (Memory A)
  unfolding write
  free_loop zero l h n m = none
  free_loop (suc k) l h n m = m.cell n >>=? λ nd.
      let m' = record m {
        cell = write m.cell n none;
        freed = if l.free_cb then m.freed ++ (nd.payload ∷ []) else m.freed;
      } in
      let rest = free_loop k l h nd.next m' in
      if nd.next == h then some (record m' { list = none }) else rest

  unfoldable pub list_free : ℕ → Memory A → Option (Memory A)
  unfolding free_loop
  list_free fuel m = elim m.list [
    | none ↦ some m
    | some l ↦ elim l.head [ none ↦ some m | some h ↦ free_loop fuel l h h m ]
  ]

  unfoldable pub list_count : Memory A → ℕ
  list_count m = elim m.list [ none ↦ 0 | some l ↦ l.count ]

  unfoldable pub list_first_node : Memory A → Option Ptr
  list_first_node m = m.list >>=? λ l. l.head

  unfoldable pub list_last_node : Memory A → Option (Option Ptr)
  list_last_node m = elim m.list [
    | none ↦ some none
    | some l ↦ elim l.head [ none ↦ some none | some h ↦ m.cell h >>=? λ n. some (some n.prev) ]
  ]

  unfoldable pub list_first : Memory A → Option (Option A)
  unfolding list_first_node list_node_data_get
  list_first m = list_node_data_get (list_first_node m) m

  unfoldable pub list_last : Memory A → Option (Option A)
  unfolding list_last_node list_node_data_get
  list_last m = list_last_node m >>=? λ p. list_node_data_get p m
