-- ===== src/ListUtil/Seq.antt =====
-- What the calls of libxkutil/list_util.c promise, on a sequence of payloads.
use libvirt_cim.Prelude.{Bool, true, false, Option, none, some, List, [], ◌∷◌, if◌then◌else◌}

-- `cmp_cb` as a test against `user_data`; a list with no `cmp_cb` finds nothing
abbrev pub hits {ℓ} : {A : Type ℓ} → Option (A → A → Bool) → A → A → Bool
hits none x d = false
hits (some cmp) x d = cmp d x

-- what a removal hands to `free_cb`
abbrev pub released {ℓ} : {A : Type ℓ} → Bool → Option A → List A
released free_cb none = []
released free_cb (some d) = if free_cb then d ∷ [] else []

-- the first payload that the test accepts
unfoldable pub find {ℓ} : {A : Type ℓ} → (A → Bool) → List A → Option A
find hit [] = none
find hit (x ∷ xs) = if hit x then some x else find hit xs

-- the sequence without that payload
unfoldable pub remove {ℓ} : {A : Type ℓ} → (A → Bool) → List A → List A
remove hit [] = []
remove hit (x ∷ xs) = if hit x then xs else x ∷ remove hit xs

-- every payload in order, until the callback answers false
unfoldable pub foreach {ℓ κ} :
    {A : Type ℓ} {U : Type κ} → (A → U → Bool × U) → List A → U → Bool × U
foreach cb [] u = (true, u)
foreach cb (x ∷ xs) u =
    let (go_on, u') = cb x u in let rest = foreach cb xs u' in if go_on then rest else (false, u')
