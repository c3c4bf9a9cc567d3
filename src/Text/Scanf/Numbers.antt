-- ===== src/Text/Scanf/Numbers.antt =====
-- A number that `%llu` prints is the number that `%llu` scans.
use libvirt_cim.Prelude.{
  ℕ, ◌+◌, ◌^◌, ◌<◌, ◌≡◌, refl, ap, sym, ◌∙◌, true, false, some, List, [], ◌∷◌, append-nil, arith,
  Bytes,
}
use libvirt_cim.Text.Decimal.{is_digit, print_decimal, scan_digits, scan-print, print_decimal-cons}
use libvirt_cim.Text.Scanf.{
  Value, number, unsigned, sscanf, skip_spaces, matched_unsigned, matched_digits, to_unsigned,
}

sscanf_one :
    (w : ℕ) (s t : Bytes) (x : Value) (rest : Bytes)
    → skip_spaces s ≡ t
    → matched_unsigned w t ≡ some (x, rest)
    → sscanf (unsigned w ∷ []) s ≡ x ∷ []
unfolding sscanf
sscanf_one w s t x rest p q = rw (p, sscanf) (rw q refl)

module _ (c : ℕ) (t : Bytes) (digit : is_digit c ≡ true) where
  skip_digit : skip_spaces (c ∷ t) ≡ c ∷ t
  unfolding skip_spaces
  skip_digit = ground arith

  matched_number :
      (w v : ℕ) (rest : Bytes)
      → scan_digits 0 (c ∷ t) ≡ (v, rest)
      → matched_unsigned w (c ∷ t) ≡ some (number (to_unsigned w false v), rest)
  unfolding matched_unsigned matched_digits
  matched_number w v rest e = ground (arith, e)

  -- a conversion to 64 bits of digits that fit
  scan_unsigned :
      (v : ℕ) (rest : Bytes)
      → v < 2 ^ 64
      → scan_digits 0 (c ∷ t) ≡ (v, rest)
      → sscanf (unsigned 64 ∷ []) (c ∷ t) ≡ number v ∷ []
  unfolding to_unsigned
  scan_unsigned v rest fits e =
      sscanf_one 64 (c ∷ t) (c ∷ t) (number (to_unsigned 64 false v)) rest skip_digit
        (matched_number 64 v rest e)
      ∙ ap (λ n. number n ∷ []) (ground arith)

pub sscanf-print_decimal :
    (v : ℕ) → v < 2 ^ 64 → sscanf (unsigned 64 ∷ []) (print_decimal v) ≡ number v ∷ []
sscanf-print_decimal v fits =
    let (d, t, printed, small) = print_decimal-cons v in
    let scanned : scan_digits 0 ((b'0' + d) ∷ t) ≡ (v, []) =
      ap (scan_digits 0) (sym (append-nil (print_decimal v) ∙ printed)) ∙ scan-print v [] tt in
    ap (sscanf (unsigned 64 ∷ [])) printed
    ∙ scan_unsigned (b'0' + d) t (ground arith) v [] fits scanned

abbrev pub first_number : List Value → ℕ → ℕ
first_number (number n ∷ vs) old = n
first_number _ old = old

-- `sscanf(s, "%" PRIu64, &old)`, which keeps the old value where nothing matches
unfoldable pub scan_u64 : Bytes → ℕ → ℕ
scan_u64 s old = first_number (sscanf (unsigned 64 ∷ []) s) old

-- a printed number scans as itself
pub scan_u64-print_decimal : (n old : ℕ) → n < 2 ^ 64 → scan_u64 (print_decimal n) old ≡ n
unfolding scan_u64
scan_u64-print_decimal n old h = ap (λ o. first_number o old) (sscanf-print_decimal n h)
