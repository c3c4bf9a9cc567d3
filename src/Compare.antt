-- ===== src/Compare.antt =====
-- libcmpiutil's STREQ and STREQC, which are parameters of the models: STREQ holds of equal strings, STREQC
-- of strings that are equal but for the case of letters. These hypotheses determine the two tests.
use libvirt_cim.Prelude.{
  ℕ, ◌+◌, ◌≡◌, refl, sym, ◌↔◌, Bool, true, false, ◌&&◌, map, Bytes, leb, strcmp_eq, strcmp_eq_iff,
  if◌then◌else◌, fun_ext,
}

abbrev pub to_lower : ℕ → ℕ
to_lower c = if leb b'A' c && leb c b'Z' then c + 32 else c

abbrev pub lower : Bytes → Bytes
lower s = map to_lower s

unfoldable pub caseless : Bytes → Bytes → Bool
caseless s t = strcmp_eq (lower s) (lower t)

-- the tests agree where both hold of the same strings
same_test : {P : Type 0} (a b : Bool) → ((a ≡ true) ↔ P) → ((b ≡ true) ↔ P) → a ≡ b
same_test true true f g = refl
same_test true false f g = sym (g.1 (f.0 refl))
same_test false true f g = f.1 (g.0 refl)
same_test false false f g = refl

pub streq-strcmp_eq :
    (streq : Bytes → Bytes → Bool)
    → ((s t : Bytes) → (streq s t ≡ true) ↔ (s ≡ t))
    → streq ≡ strcmp_eq
streq-strcmp_eq streq streq_iff =
    fun_ext λ s. fun_ext λ t. same_test _ _ (streq_iff s t) (strcmp_eq_iff s t)

pub streqc-caseless :
    (streqc : Bytes → Bytes → Bool)
    → ((s t : Bytes) → (streqc s t ≡ true) ↔ (lower s ≡ lower t))
    → streqc ≡ caseless
unfolding caseless
streqc-caseless streqc streqc_iff =
    fun_ext λ s. fun_ext λ t. same_test _ _ (streqc_iff s t) (strcmp_eq_iff (lower s) (lower t))

-- Where two strings are the same but for the case of letters.
pub caseless_iff : (s t : Bytes) → (caseless s t ≡ true) ↔ (lower s ≡ lower t)
unfolding caseless
caseless_iff s t = strcmp_eq_iff (lower s) (lower t)
