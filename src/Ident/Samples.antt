-- ===== src/Ident/Samples.antt =====
-- The identifier theorems at ids of the forms that the program makes.
use libvirt_cim.Prelude.{◌≡◌, ◌≢◌, ◌↔◌, refl, some, [], ◌∷◌, ◌++◌, codes}
use libvirt_cim.Ident.{parse_id, get_fq_devid, parse_fq_devid, make_rule_id}
use libvirt_cim.Text.Decimal.{print_decimal}
use libvirt_cim.Text.Scanf.{sscanf}
use libvirt_cim.Ident.Laws.{
  NoByte, parse_fq_devid-get_fq_devid, get_fq_devid-parse_fq_devid, parse_id_iff,
}

parse_fq_devid-get_fq_devid_example :
    parse_fq_devid (get_fq_devid (codes "vm") (codes "hda")) ≡ some (codes "vm", codes "hda")
parse_fq_devid-get_fq_devid_example =
    parse_fq_devid-get_fq_devid (codes "vm") (codes "hda") (λ e. cc) (λ e. cc) (refl, (refl, tt))
      (refl, (refl, (refl, tt)))

vm_hda_parses : parse_fq_devid (codes "vm/hda") ≡ some (codes "vm", codes "hda")
unfolding parse_fq_devid sscanf
vm_hda_parses = refl

get_fq_devid-parse_fq_devid_example :
    (codes "vm/hda" ≡ get_fq_devid (codes "vm") (codes "hda"))
    × NoByte b'/' (codes "vm")
    × (codes "vm" ≢ [])
    × (codes "hda" ≢ [])
get_fq_devid-parse_fq_devid_example =
    get_fq_devid-parse_fq_devid (codes "vm/hda") (codes "vm") (codes "hda")
      (refl, (refl, (refl, (refl, (refl, (refl, tt)))))) vm_hda_parses

parse_id_iff_example : (parse_id (codes "KVM:vm") ≡ some (codes "KVM", codes "vm")) ↔ (
    (codes "KVM:vm" ≡ codes "KVM" ++ (b':' ∷ codes "vm"))
    × NoByte b':' (codes "KVM")
    × (codes "KVM" ≢ [])
    × (codes "vm" ≢ []))
parse_id_iff_example =
    parse_id_iff (codes "KVM:vm") (codes "KVM") (codes "vm")
      (refl, (refl, (refl, (refl, (refl, (refl, tt))))))

-- the id that make_rule_id gives the third rule of a filter
third_rule_id : make_rule_id (some (codes "no-spoof")) 2 ≡ some (codes "no-spoof:2")
unfolding make_rule_id print_decimal
third_rule_id = refl
