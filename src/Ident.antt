-- ===== src/Ident.antt =====
-- Identifiers that join two parts: `InstanceID` (parse_id in libxkutil/misc_util.c), device ids
-- (get_fq_devid and parse_fq_devid in libxkutil/device_parsing.c) and rule ids (make_rule_id and
-- parse_rule_id in libxkutil/acl_parsing.c). A result of 0 is `none`; `asprintf` does not fail.
pub mod Laws
mod Samples
use libvirt_cim.Prelude.{ℕ, Option, none, some, List, [], ◌∷◌, ◌++◌, Bytes}
use libvirt_cim.Text.Decimal.{print_decimal}
use libvirt_cim.Text.Scanf.{Directive, literal, word, until, unsigned, Value, text, number, sscanf}

abbrev newline : ℕ
newline = 10

-- two texts, or any other number of conversions
two_texts : List Value → Option (Bytes × Bytes)
two_texts (text a ∷ text b ∷ []) = some (a, b)
two_texts _ = none

-- "%m[^:]:%m[^\n]"
abbrev id_format : List Directive
id_format = until b':' ∷ literal b':' ∷ until newline ∷ []

unfoldable pub parse_id : Bytes → Option (Bytes × Bytes)
unfolding two_texts
parse_id id = two_texts (sscanf id_format id)

-- "%m[^/]/%m[^\n]"
abbrev devid_format : List Directive
devid_format = until b'/' ∷ literal b'/' ∷ until newline ∷ []

unfoldable pub get_fq_devid : Bytes → Bytes → Bytes
get_fq_devid host devid = host ++ (b'/' ∷ devid)

unfoldable pub parse_fq_devid : Bytes → Option (Bytes × Bytes)
unfolding two_texts
parse_fq_devid devid = two_texts (sscanf devid_format devid)

-- "%s:%u"
unfoldable pub make_rule_id : Option Bytes → ℕ → Option Bytes
make_rule_id none index = none
make_rule_id (some filter) index = some (filter ++ (b':' ∷ print_decimal index))

-- "%ms[^:]:%u": `%ms` is a whole conversion, and "[^:]:" is text that must follow it.
abbrev rule_id_format : List Directive
rule_id_format =
    word
    ∷ literal b'['
    ∷ literal b'^'
    ∷ literal b':'
    ∷ literal b']'
    ∷ literal b':'
    ∷ unsigned 32
    ∷ []

text_and_number : List Value → Option (Bytes × ℕ)
text_and_number (text a ∷ number n ∷ []) = some (a, n)
text_and_number _ = none

unfoldable pub parse_rule_id : Bytes → Option (Bytes × ℕ)
unfolding text_and_number
parse_rule_id rule_id = text_and_number (sscanf rule_id_format rule_id)
