-- ===== src/Text/Scanf.antt =====
-- `sscanf` with the conversions that the program's formats hold.
pub mod Numbers
use libvirt_cim.Prelude.{
  ℕ, ◌-◌, ◌%◌, ◌^◌, ◌≡◌, Bool, true, false, ◌&&◌, ◌||◌, Option, none, some, List, [], ◌∷◌, ◌++◌,
  refl, Bool-cases, inl, inr, arith, Bytes, ltb, leb, if◌then◌else◌, ◌==◌, ==_refl, ==→≡, ◌≢◌, ◌⊎◌,
  ap, ◌∙◌, subst, append-nil,
}
use libvirt_cim.Text.Decimal.{is_digit, scan_digits}

pub data Directive : Type 0 where
  literal : ℕ → Directive  -- a byte of the format that is no white space and no `%`
  word : Directive  -- `%ms`
  until : ℕ → Directive  -- `%m[^c]`
  unsigned : ℕ → Directive  -- `%u` or `%llu`, by the width of the result

-- what a conversion stores
pub data Value : Type 0 where
  text : Bytes → Value
  number : ℕ → Value

-- `isspace` in the C locale
abbrev pub is_space : ℕ → Bool
is_space c = (c == b' ') || (leb 9 c && leb c 13)

unfoldable pub skip_spaces : Bytes → Bytes
skip_spaces [] = []
skip_spaces (c ∷ s) = let rest = skip_spaces s in if is_space c then rest else c ∷ s

-- the bytes before the first one that the test accepts, and the rest from there
unfoldable pub span_until : (ℕ → Bool) → Bytes → Bytes × Bytes
span_until stop [] = ([], [])
span_until stop (c ∷ s) =
    let rest = span_until stop s in if stop c then ([], c ∷ s) else (c ∷ rest.0, rest.1)

-- a text conversion matches one byte or more
matched_text : Bytes × Bytes → Option (Value × Bytes)
matched_text ([], rest) = none
matched_text (c ∷ s, rest) = some (text (c ∷ s), rest)

-- `strtoull` gives at most 2 ^ 64 - 1, and a `-` negates; the result keeps `w` bits
to_unsigned : ℕ → Bool → ℕ → ℕ
to_unsigned w negative v =
    let u = if ltb v (2 ^ 64) then v else 2 ^ 64 - 1 in (if negative then 2 ^ 64 - u else u) % 2 ^ w

matched_digits : ℕ → Bool → Bytes → Option (Value × Bytes)
unfolding to_unsigned
matched_digits w negative [] = none
matched_digits w negative (c ∷ s) =
    if is_digit c
    then (let (v, rest) = scan_digits 0 (c ∷ s) in some (number (to_unsigned w negative v), rest))
    else none

matched_unsigned : ℕ → Bytes → Option (Value × Bytes)
unfolding matched_digits
matched_unsigned w [] = none
matched_unsigned w (c ∷ s) =
    if c == b'-'
    then matched_digits w true s
    else if c == b'+'
    then matched_digits w false s
    else matched_digits w false (c ∷ s)

-- One conversion on the input that is left: what it stores, if it matches.
convert : Directive → Bytes → Option (Value × Bytes)
unfolding skip_spaces span_until matched_text matched_unsigned
convert (literal c) s = none
convert word s = matched_text (span_until is_space (skip_spaces s))
convert (until c) s = matched_text (span_until (λ d. d == c) s)
convert (unsigned w) s = matched_unsigned w (skip_spaces s)

-- The values stored, in order; `sscanf` returns how many there are, or EOF where there is none.
unfoldable pub sscanf : List Directive → Bytes → List Value
unfolding convert
sscanf [] s = []
sscanf (literal c ∷ ds) [] = []
sscanf (literal c ∷ ds) (d ∷ s) = let rest = sscanf ds s in if d == c then rest else []
sscanf (d ∷ ds) s = elim (convert d s) [ none ↦ [] | some (v, rest) ↦ v ∷ sscanf ds rest ]

-- No byte of the text stops a conversion.
abbrev pub FreeOf : (ℕ → Bool) → Bytes → Type 0
FreeOf stop [] = Unit
FreeOf stop (c ∷ s) = (stop c ≡ false) × FreeOf stop s

-- nothing is left, or a byte that stops the conversion
abbrev pub StopsAt : (ℕ → Bool) → Bytes → Type 0
StopsAt stop [] = Unit
StopsAt stop (c ∷ s) = stop c ≡ true

pub span_until-append :
    (stop : ℕ → Bool) (s rest : Bytes)
    → FreeOf stop s
    → StopsAt stop rest
    → span_until stop (s ++ rest) ≡ (s, rest)
unfolding span_until
span_until-append stop [] [] f e = refl
span_until-append stop [] (c ∷ rest) f e = rw e refl
span_until-append stop (c ∷ s) rest f e = rw f.0 (rw (span_until-append stop s rest f.1 e) refl)

pub span_until-join :
    (stop : ℕ → Bool) (s : Bytes) → (span_until stop s).0 ++ (span_until stop s).1 ≡ s
unfolding span_until
span_until-join stop [] = refl
span_until-join stop (c ∷ s) = ground (arith, span_until-join stop s)

pub span_until-FreeOf : (stop : ℕ → Bool) (s : Bytes) → FreeOf stop (span_until stop s).0
unfolding span_until
span_until-FreeOf stop [] = tt
span_until-FreeOf stop (c ∷ s) = elim (Bool-cases (stop c)) [
  | inl e ↦ rw e tt
  | inr e ↦ rw e (e, span_until-FreeOf stop s)
]

pub span_until-StopsAt : (stop : ℕ → Bool) (s : Bytes) → StopsAt stop (span_until stop s).1
unfolding span_until
span_until-StopsAt stop [] = tt
span_until-StopsAt stop (c ∷ s) = elim (Bool-cases (stop c)) [
  | inl e ↦ rw e e
  | inr e ↦ rw e (span_until-StopsAt stop s)
]

-- a text conversion that matches, and a literal that does
pub sscanf-until :
    (c : ℕ) (ds : List Directive) (s : Bytes) (a : ℕ) (t rest : Bytes)
    → span_until (λ d. d == c) s ≡ (a ∷ t, rest)
    → sscanf (until c ∷ ds) s ≡ text (a ∷ t) ∷ sscanf ds rest
unfolding sscanf
sscanf-until c ds s a t rest e = rw (e, sscanf) refl

pub sscanf-nil : (s : Bytes) → sscanf [] s ≡ []
unfolding sscanf
sscanf-nil s = refl

pub sscanf-word :
    (ds : List Directive) (s : Bytes) (a : ℕ) (t rest : Bytes)
    → span_until is_space (skip_spaces s) ≡ (a ∷ t, rest)
    → sscanf (word ∷ ds) s ≡ text (a ∷ t) ∷ sscanf ds rest
unfolding sscanf
sscanf-word ds s a t rest e = rw (e, sscanf) refl

-- a text with no white space, at the end of the input
pub sscanf-last_word :
    (a : ℕ) (t : Bytes) → FreeOf is_space (a ∷ t) → sscanf (word ∷ []) (a ∷ t) ≡ text (a ∷ t) ∷ []
unfolding skip_spaces
sscanf-last_word a t f =
    sscanf-word [] (a ∷ t) a t [] (
      ap (span_until is_space) (skip_none a t f.0)
      ∙ subst (λ s. span_until is_space s ≡ (a ∷ t, [])) (append-nil (a ∷ t))
          (span_until-append is_space (a ∷ t) [] f tt))
    ∙ ap (λ l. text (a ∷ t) ∷ l) (sscanf-nil [])
  where
    skip_none : (b : ℕ) (u : Bytes) → is_space b ≡ false → skip_spaces (b ∷ u) ≡ b ∷ u
    skip_none b u e = rw e refl

pub sscanf-literal_end : (c : ℕ) (ds : List Directive) → sscanf (literal c ∷ ds) [] ≡ []
unfolding sscanf
sscanf-literal_end c ds = refl

pub sscanf-literal :
    (c : ℕ) (ds : List Directive) (s : Bytes) → sscanf (literal c ∷ ds) (c ∷ s) ≡ sscanf ds s
unfolding sscanf
sscanf-literal c ds s = rw ==_refl refl

matched_text-inv :
    (r : Bytes × Bytes) (ds : List Directive) (v : Value) (vs : List Value)
    → (elim (matched_text r) [ none ↦ [] | some (w, rest) ↦ w ∷ sscanf ds rest ]) ≡ v ∷ vs
    → (v ≡ text r.0) × (r.0 ≢ []) × (vs ≡ sscanf ds r.1)
unfolding matched_text
matched_text-inv ([], rest) ds v vs e = absurd (cc)
matched_text-inv (c ∷ t, rest) ds v vs e = (cc, λ n. cc, cc)

-- what a conversion stored, and what the rest of the format did with the rest of the text
pub sscanf-until_inv :
    (c : ℕ) (ds : List Directive) (s : Bytes) (v : Value) (vs : List Value)
    → sscanf (until c ∷ ds) s ≡ v ∷ vs
    → let r = span_until (λ d. d == c) s in (v ≡ text r.0) × (r.0 ≢ []) × (vs ≡ sscanf ds r.1)
unfolding sscanf
sscanf-until_inv c ds s v vs e = matched_text-inv (span_until (λ d. d == c) s) ds v vs e

pub sscanf-literal_inv :
    (c : ℕ) (ds : List Directive) (s : Bytes) (v : Value) (vs : List Value)
    → sscanf (literal c ∷ ds) s ≡ v ∷ vs
    → (t : Bytes) × (s ≡ c ∷ t) × (sscanf ds t ≡ v ∷ vs)
unfolding sscanf
sscanf-literal_inv c ds [] v vs e = absurd (cc)
sscanf-literal_inv c ds (d ∷ s) v vs e = elim (Bool-cases (d == c)) [
  | inl h ↦ (s, ap (λ x. x ∷ s) (==→≡ d c h), rw h at e)
  | inr h ↦ absurd (cc (rw h at e))
]

word_then_literal :
    (r : Bytes × Bytes) (c : ℕ) (ds : List Directive)
    → is_space c ≡ false
    → StopsAt is_space r.1
    → let l : List Value = elim (matched_text r) [
      | none ↦ []
      | some (w, rest) ↦ w ∷ sscanf (literal c ∷ ds) rest
    ] in
      (l ≡ []) ⊎ ((v : Value) × (l ≡ v ∷ []))
unfolding matched_text sscanf
word_then_literal ([], rest) c ds h e = inl refl
word_then_literal (a ∷ t, []) c ds h e = inr (text (a ∷ t), refl)
word_then_literal (a ∷ t, d ∷ rest) c ds h e = inr (text (a ∷ t), ground arith)

-- No literal but white space can match where `%ms` stops: one conversion is made at most.
pub sscanf-word_literal :
    (c : ℕ) (ds : List Directive) (s : Bytes)
    → is_space c ≡ false
    → let l = sscanf (word ∷ literal c ∷ ds) s in (l ≡ []) ⊎ ((v : Value) × (l ≡ v ∷ []))
unfolding sscanf
sscanf-word_literal c ds s h =
    word_then_literal (span_until is_space (skip_spaces s)) c ds h
      (span_until-StopsAt is_space (skip_spaces s))
