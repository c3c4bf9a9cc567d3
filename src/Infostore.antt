-- ===== src/Infostore.antt =====
-- libxkutil/infostore.c: an XML file for each domain, with a value for each key.
-- A context is the file's path and the children of its root, <dominfo>. `asprintf` and the allocations
-- of libxml2 do not fail; a call through a NULL context is a fault, `none`.
pub mod Keys
pub mod Opening
pub mod Sessions
pub mod Frame
pub mod Samples
use libvirt_cim.Prelude.{
  ℕ, Bool, false, not, Option, none, some, List, [], ◌∷◌, ◌++◌, Bytes, codes, strcmp_eq, ◌>>=?◌,
  if◌then◌else◌,
}
use libvirt_cim.Host.{Host, Content, absent, empty, garbage, xml}
use libvirt_cim.Text.Decimal.{print_decimal}
use libvirt_cim.Text.Scanf.{Value, number, unsigned, sscanf}

pub record Ctx : Type 0 where
  pub path : Bytes
  pub children : List (Bytes × Bytes)

-- "/dominfo/KEY[1]"
unfoldable pub xpath_query : Bytes → List (Bytes × Bytes) → Option Bytes
xpath_query key [] = none
xpath_query key ((k, v) ∷ l) = if strcmp_eq k key then some v else xpath_query key l

-- a new last child, or new text in the first child of that name
unfoldable pub xpath_set_string : Bytes → Bytes → List (Bytes × Bytes) → List (Bytes × Bytes)
xpath_set_string key val [] = (key, val) ∷ []
xpath_set_string key val ((k, v) ∷ l) =
    if strcmp_eq k key then (k, val) ∷ l else (k, v) ∷ xpath_set_string key val l

unfoldable pub infostore_get_str : Ctx → Bytes → Option Bytes
infostore_get_str ctx key = xpath_query key ctx.children

unfoldable pub infostore_set_str : Ctx → Bytes → Bytes → Ctx
infostore_set_str ctx key val = record ctx { children = xpath_set_string key val ctx.children }

-- the one number of "%llu"
u64_of : List Value → ℕ
u64_of (number v ∷ []) = v
u64_of _ = 0

-- 0 for a key that is not there
parse_u64 : Option Bytes → ℕ
unfolding u64_of
parse_u64 none = 0
parse_u64 (some sval) = u64_of (sscanf (unsigned 64 ∷ []) sval)

unfoldable pub infostore_get_u64 : Ctx → Bytes → ℕ
unfolding parse_u64
infostore_get_u64 ctx key = parse_u64 (infostore_get_str ctx key)

unfoldable pub infostore_set_u64 : Ctx → Bytes → ℕ → Ctx
infostore_set_u64 ctx key val = infostore_set_str ctx key (print_decimal val)

abbrev pub dominfo : Bytes
dominfo = codes "dominfo"

abbrev pub uuid_key : Bytes
uuid_key = codes "uuid"

-- the root of the document in a file that was opened, a new one if the file has no byte
read_document : Content → Option (Bytes × List (Bytes × Bytes))
read_document absent = some (dominfo, [])
read_document empty = some (dominfo, [])
read_document garbage = none
read_document (xml root children) = some (root, children)

module _ (h : Host) where
  open h use {
    World, Conn, Dom, connect_get_type, domain_get_name, domain_get_connect, domain_get_uuid,
    file_open, file_content, file_write, file_unlink, streq, streqc, info_store,
  }

  unfoldable pub infostore_get_bool : Ctx → Bytes → Bool
  unfolding infostore_get_str
  infostore_get_bool ctx key = elim (infostore_get_str ctx key) [
    | none ↦ false
    | some sval ↦ streqc sval (codes "true")
  ]

  unfoldable pub infostore_set_bool : Ctx → Bytes → Bool → Ctx
  unfolding infostore_set_str
  infostore_set_bool ctx key val =
      infostore_set_str ctx key (if val then codes "true" else codes "false")

  -- "%s/%s_%s"
  pub make_filename : Dom → Option Bytes
  make_filename dom = domain_get_connect dom >>=? λ conn.
      some (info_store ++ (b'/' ∷ connect_get_type conn ++ (b'_' ∷ domain_get_name dom)))

  pub generic_infostore_open : Bytes → World → Option (Bytes × List (Bytes × Bytes)) × World
  unfolding read_document
  generic_infostore_open path w =
      let (opened, w') = file_open path w in
      (if opened then read_document (file_content path w') else none, w')

  -- a document whose root is <dominfo>
  with_root : Bytes → Option (Bytes × List (Bytes × Bytes)) → Option Ctx
  with_root path none = none
  with_root path (some (root, children)) =
      if strcmp_eq root dominfo then some (record { path = path; children = children }) else none

  pub open_path : Bytes → World → Option Ctx × World
  unfolding generic_infostore_open with_root
  open_path path w = let (doc, w') = generic_infostore_open path w in (with_root path doc, w')

  pub open_at : Option Bytes → World → Option Ctx × World
  open_at none w = (none, w)
  open_at (some path) w = open_path path w

  -- `_infostore_open`
  pub open_domain : Dom → World → Option Ctx × World
  unfolding open_at
  open_domain dom w = open_at (make_filename dom) w

  unfoldable pub infostore_close : Ctx → World → World
  infostore_close ctx w = file_write ctx.path (xml dominfo ctx.children) w

  pub reopen_at : Dom → Option Bytes → World → Option Ctx × World
  reopen_at dom none w = (none, w)
  reopen_at dom (some path) w = open_domain dom (file_unlink path w).1

  pub delete_and_open : Dom → World → Option Ctx × World
  unfolding reopen_at
  delete_and_open dom w = reopen_at dom (make_filename dom) w

  -- the end of `infostore_open`: `infostore_set_str` through a context that may be NULL
  pub set_uuid : Bytes → Option Ctx × World → Option (Option Ctx × World)
  unfolding infostore_set_str
  set_uuid uuid (none, w) = none
  set_uuid uuid (some ctx, w) = some (some (infostore_set_str ctx uuid_key uuid), w)

  -- Is a UUID stored that is another domain's?
  is_stale : Bytes → Option Bytes → Bool
  is_stale uuid none = false
  is_stale uuid (some stored) = not (streq uuid stored)

  pub check_uuid : Dom → Bytes → Ctx → World → Option (Option Ctx × World)
  check_uuid dom uuid ctx w = set_uuid uuid (
      if is_stale uuid (infostore_get_str ctx uuid_key)
      then delete_and_open dom (infostore_close ctx w)
      else (some ctx, w))

  -- the comparison, if libvirt tells the UUID
  pub with_uuid : Dom → Option Bytes → Ctx → World → Option (Option Ctx × World)
  with_uuid dom none ctx w = some (delete_and_open dom (infostore_close ctx w))
  with_uuid dom (some uuid) ctx w = check_uuid dom uuid ctx w

  pub opened_domain : Dom → Option Ctx × World → Option (Option Ctx × World)
  unfolding with_uuid
  opened_domain dom (none, w) = some (none, w)
  opened_domain dom (some ctx, w) = with_uuid dom (domain_get_uuid dom w) ctx w

  pub infostore_open : Dom → World → Option (Option Ctx × World)
  infostore_open dom w = opened_domain dom (open_domain dom w)
