-- ===== src/Infostore/Samples.antt =====
-- The infostore theorems on the toy machine.
use libvirt_cim.Prelude.{
  ◌≡◌, ◌≢◌, not, refl, true, false, Bool, some, List, [], ◌∷◌, ◌++◌, Bytes, codes, arith, strcmp_eq,
  if◌then◌else◌,
}
use libvirt_cim.Text.Decimal.{print_decimal}
use libvirt_cim.Host.{LvState, Content, running, absent, empty, xml}
use libvirt_cim.Host.Toy.{Machine, toy, toy-FileLaws, put, open_file, is_absent}
use libvirt_cim.Infostore.{
  Ctx, dominfo, uuid_key, infostore_get_str, infostore_set_str, infostore_set_u64, infostore_open,
  infostore_close, make_filename, open_domain, delete_and_open, opened_domain, open_at, reopen_at,
  with_uuid, check_uuid, is_stale, set_uuid, open_path, with_root, read_document,
  generic_infostore_open, xpath_query, xpath_set_string,
}
use libvirt_cim.Infostore.Sessions.{open_stale, open-close}

abbrev pub vm_file : Bytes
vm_file = codes "/etc/libvirt/cim/QEMU_vm"

-- values that the domain with UUID 1 stored, and a file of the domain with UUID 2
abbrev pub own : List (Bytes × Bytes)
own = (uuid_key, codes "1") ∷ (codes "weight", codes "512") ∷ []

abbrev foreign : List (Bytes × Bytes)
foreign = (uuid_key, codes "2") ∷ (codes "weight", codes "512") ∷ []

-- a machine that is in a state and has a file of the domain beside the others
abbrev pub machine : LvState → (Bytes → Content) → List (Bytes × Bytes) → Machine
machine s others children = record {
  files = λ p. if strcmp_eq vm_file p then xml dominfo children else others p;
  state = s;
}

abbrev holding : List (Bytes × Bytes) → Machine
holding children = machine running (λ p. absent) children

abbrev pub ctx : Ctx
ctx = record { path = vm_file; children = own }

pub opens_own :
    (s : LvState) (others : Bytes → Content)
    → infostore_open (toy true) tt (machine s others own) ≡ some (some ctx, machine s others own)
unfolding infostore_open opened_domain open_domain open_path with_root read_document
    generic_infostore_open make_filename check_uuid is_stale set_uuid infostore_get_str
    infostore_set_str xpath_query xpath_set_string strcmp_eq
opens_own s others = refl

-- what the file is opened to after a request was recorded in it
abbrev pub requested : Bytes → Ctx
requested digits = record { path = vm_file; children = own ++ ((codes "reqstate", digits) ∷ []) }

pub opens_requested :
    (s : LvState) (others : Bytes → Content)
    → let m =
        infostore_close
          (toy true)
          (infostore_set_u64 ctx (codes "reqstate") 9)
          (machine s others own) in
      infostore_open (toy true) tt m ≡ some (some (requested (codes "9")), m)
unfolding infostore_open opened_domain open_domain open_path with_root read_document
    generic_infostore_open make_filename check_uuid is_stale set_uuid infostore_get_str
    infostore_set_str xpath_query xpath_set_string strcmp_eq infostore_close infostore_set_u64
    print_decimal
opens_requested s others = refl

-- the machine after the foreign file was closed, removed and made anew
abbrev renewed : Machine
renewed = record (holding []) {
  files =
      put (put (put (holding foreign).files vm_file (xml dominfo foreign)) vm_file absent) vm_file
        empty;
}

abbrev blank : Ctx
blank = record { path = vm_file; children = (uuid_key, codes "1") ∷ [] }

opens_foreign : infostore_open (toy true) tt (holding foreign) ≡ some (some blank, renewed)
unfolding infostore_open opened_domain open_domain open_path with_root read_document
    generic_infostore_open make_filename check_uuid is_stale set_uuid infostore_get_str
    infostore_set_str xpath_query xpath_set_string strcmp_eq delete_and_open open_at reopen_at
    with_uuid infostore_close
opens_foreign = refl

stored_foreign : xpath_query uuid_key foreign ≡ some (codes "2")
unfolding xpath_query strcmp_eq
stored_foreign = refl

pub named_file : (creates : Bool) → make_filename (toy creates) tt ≡ some vm_file
unfolding make_filename
named_file creates = refl

in_place : (holding foreign).files vm_file ≡ xml dominfo foreign
unfolding strcmp_eq
in_place = refl

removable : (m : Machine) → m.files vm_file ≢ absent → not (is_absent (m.files vm_file)) ≡ true
removable m h = ground arith

other_uuid : codes "1" ≢ codes "2"
other_uuid e = ground arith

open_stale_example : blank.children ≡ (uuid_key, codes "1") ∷ []
open_stale_example =
    open_stale (toy true) (toy-FileLaws true) tt vm_file (codes "1") (codes "2") foreign
      (holding foreign) blank renewed (named_file true) refl in_place stored_foreign other_uuid
      removable opens_foreign

stored_own : infostore_get_str ctx uuid_key ≡ some (codes "1")
unfolding infostore_get_str xpath_query strcmp_eq
stored_own = refl

opens_written : (open_file true vm_file (infostore_close (toy true) ctx (holding foreign))).0 ≡ true
unfolding infostore_close strcmp_eq
opens_written = refl

opens_foreign_file : (open_file false vm_file (holding foreign)).0 ≡ true
unfolding strcmp_eq
opens_foreign_file = refl

open-close_example :
    (c : Ctx) × (w' : Machine) × (infostore_open
        (toy true)
        tt
        (infostore_close (toy true) ctx (holding foreign))
      ≡ some (some c, w'))
    × ((key : Bytes) → infostore_get_str c key ≡ infostore_get_str ctx key)
open-close_example =
    open-close (toy true) (toy-FileLaws true) tt (codes "1") ctx (holding foreign) (named_file true)
      refl stored_own opens_written
