-- ===== src/Infostore/Keys.antt =====
-- Reading a key of a context after writing one.
use libvirt_cim.Prelude.{
  ℕ, ◌^◌, ◌<◌, ◌≡◌, refl, ap, ◌∙◌, Bool, true, false, Option, some, List, [], ◌∷◌, Bytes, arith,
  strcmp_eq, strcmp_eq_iff, if◌then◌else◌,
}
use libvirt_cim.Infostore.{
  Ctx, xpath_query, xpath_set_string, infostore_get_str, infostore_set_str, infostore_get_u64,
  infostore_set_u64, parse_u64, u64_of,
}
use libvirt_cim.Text.Decimal.{print_decimal}
use libvirt_cim.Text.Scanf.Numbers.{sscanf-print_decimal}

pub query-set :
    (j k v : Bytes) (l : List (Bytes × Bytes))
    → xpath_query j (xpath_set_string k v l) ≡ (if strcmp_eq k j then some v else xpath_query j l)
unfolding xpath_query xpath_set_string
query-set j k v [] = refl
query-set j k v ((i, w) ∷ l) =
    ground (arith, strcmp_eq_iff i k, strcmp_eq_iff i j, strcmp_eq_iff k j, query-set j k v l)

-- A string key that was set reads back, and no other key changes.
pub get_str-set_str :
    (ctx : Ctx) (k v j : Bytes)
    → infostore_get_str (infostore_set_str ctx k v) j
      ≡ (if strcmp_eq k j then some v else infostore_get_str ctx j)
unfolding infostore_get_str infostore_set_str
get_str-set_str ctx k v j = query-set j k v ctx.children

parsed :
    (v : ℕ) (b : Bool) (o : Option Bytes)
    → v < 2 ^ 64
    → parse_u64 (if b then some (print_decimal v) else o) ≡ (if b then v else parse_u64 o)
unfolding parse_u64 u64_of
parsed v true o fits = rw (sscanf-print_decimal v fits) refl
parsed v false o fits = refl

-- A 64-bit number that was set reads back through its decimal text, and the other keys read as before.
pub get_u64-set_u64 :
    (ctx : Ctx) (k : Bytes) (v : ℕ) (j : Bytes)
    → v < 2 ^ 64
    → infostore_get_u64 (infostore_set_u64 ctx k v) j
      ≡ (if strcmp_eq k j then v else infostore_get_u64 ctx j)
unfolding infostore_get_u64 infostore_set_u64
get_u64-set_u64 ctx k v j fits =
    ap parse_u64 (get_str-set_str ctx k (print_decimal v) j) ∙ parsed v (strcmp_eq k j) _ fits

-- the number depends on the text only
pub same_number :
    (c c' : Ctx) (key : Bytes)
    → infostore_get_str c key ≡ infostore_get_str c' key
    → infostore_get_u64 c key ≡ infostore_get_u64 c' key
unfolding infostore_get_u64
same_number c c' key e = ap parse_u64 e
