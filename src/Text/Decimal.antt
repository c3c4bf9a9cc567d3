-- ===== src/Text/Decimal.antt =====
-- Decimal numerals: `%u` and `%llu` of `asprintf`, and `strtoull` on digits.
use libvirt_cim.Prelude.{
  ℕ, zero, suc, ◌+◌, ◌-◌, ◌*◌, ◌/◌, ◌%◌, ◌<◌, ◌≡◌, refl, Bool, true, false, ◌&&◌, [], ◌∷◌, ◌++◌,
  arith, Bytes, ltb, leb, if◌then◌else◌, Bool-cases, inl, inr, ◌∙◌, ap,
}

abbrev pub is_digit : ℕ → Bool
is_digit c = leb b'0' c && leb c b'9'

-- the digits of `n` in front of `rest`; `n + 1` rounds are enough
print_loop : ℕ → ℕ → Bytes → Bytes
print_loop zero n rest = rest
print_loop (suc k) n rest =
    let more = print_loop k (n / 10) ((b'0' + n % 10) ∷ rest) in
    if ltb n 10 then (b'0' + n) ∷ rest else more

unfoldable pub print_decimal : ℕ → Bytes
unfolding print_loop
print_decimal n = print_loop (suc n) n []

-- the value of the leading digits, and what follows them
unfoldable pub scan_digits : ℕ → Bytes → ℕ × Bytes
scan_digits v [] = (v, [])
scan_digits v (c ∷ s) =
    let rest = scan_digits (v * 10 + (c - b'0')) s in if is_digit c then rest else (v, c ∷ s)

-- What ends a numeral: nothing, or a byte that is no digit.
abbrev pub EndsDigits : Bytes → Type 0
EndsDigits [] = Unit
EndsDigits (c ∷ s) = is_digit c ≡ false

is_digit_of_lt : (d : ℕ) → d < 10 → is_digit (b'0' + d) ≡ true
is_digit_of_lt d h = ground arith

scan_digit :
    (v d w : ℕ) (rest : Bytes)
    → d < 10
    → v * 10 + d ≡ w
    → scan_digits v ((b'0' + d) ∷ rest) ≡ scan_digits w rest
unfolding scan_digits
scan_digit v d w rest h e =
    rw (is_digit_of_lt d h) (ap (λ x. scan_digits x rest) (omega (arith, e)))

scan-print_loop :
    (k n : ℕ) (rest : Bytes) → n < k → scan_digits 0 (print_loop k n rest) ≡ scan_digits n rest
unfolding print_loop
scan-print_loop zero n rest h = elim h [ ]
scan-print_loop (suc k) n rest h = elim (Bool-cases (ltb n 10)) [
  | inl e ↦ rw e (scan_digit 0 n n rest (ground arith) (omega arith))
  | inr e ↦ rw e (
      scan-print_loop k (n / 10) _ (ground arith)
      ∙ scan_digit (n / 10) (n % 10) n rest (omega arith) (omega arith))
]

print_loop-append :
    (k n : ℕ) (s rest : Bytes) → print_loop k n s ++ rest ≡ print_loop k n (s ++ rest)
unfolding print_loop
print_loop-append zero n s rest = refl
print_loop-append (suc k) n s rest =
    ground (arith, print_loop-append k (n / 10) ((b'0' + n % 10) ∷ s) rest)

scan-ends : (n : ℕ) (rest : Bytes) → EndsDigits rest → scan_digits n rest ≡ (n, rest)
unfolding scan_digits
scan-ends n [] h = refl
scan-ends n (c ∷ s) h = rw h refl

-- A printed number scans as that number, with what follows it left, if no digit follows.
pub scan-print :
    (n : ℕ) (rest : Bytes) → EndsDigits rest → scan_digits 0 (print_decimal n ++ rest) ≡ (n, rest)
unfolding print_decimal
scan-print n rest h =
    ap (scan_digits 0) (print_loop-append (suc n) n [] rest)
    ∙ scan-print_loop (suc n) n rest (omega arith)
    ∙ scan-ends n rest h

print_loop-cons :
    (k n : ℕ) (rest : Bytes)
    → n < k
    → (d : ℕ) × (t : Bytes) × (print_loop k n rest ≡ (b'0' + d) ∷ t) × (d < 10)
unfolding print_loop
print_loop-cons zero n rest h = elim h [ ]
print_loop-cons (suc k) n rest h = elim (Bool-cases (ltb n 10)) [
  | inl e ↦ (n, rest, rw e refl, ground arith)
  | inr e ↦
      let (d, t, p, q) = print_loop-cons k (n / 10) ((b'0' + n % 10) ∷ rest) (ground arith) in
      (d, t, rw e p, q)
]

-- A printed number starts with a digit.
pub print_decimal-cons :
    (n : ℕ) → (d : ℕ) × (t : Bytes) × (print_decimal n ≡ (b'0' + d) ∷ t) × (d < 10)
unfolding print_decimal
print_decimal-cons n = print_loop-cons (suc n) n [] (omega arith)
