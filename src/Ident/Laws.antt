-- ===== src/Ident/Laws.antt =====
-- Which identifiers parse, and that parsing undoes joining.
use libvirt_cim.Prelude.{
  ℕ, ◌≡◌, ◌≢◌, refl, Bool, Option, none, some, List, [], ◌∷◌, ◌++◌, Bytes, ◌==◌, ==_refl, ◌↔◌, ap,
  ◌∙◌, sym, append-nil, subst, inl, inr,
}
use libvirt_cim.Text.Scanf.{
  Directive, literal, until, unsigned, Value, text, number, sscanf, FreeOf, StopsAt, span_until,
  span_until-append, sscanf-until, sscanf-literal, sscanf-nil, sscanf-until_inv, sscanf-literal_inv,
  sscanf-word_literal, span_until-join, span_until-FreeOf,
}
use libvirt_cim.Ident.{newline, parse_id, two_texts, get_fq_devid, parse_fq_devid, parse_rule_id}

abbrev pub is_byte : ℕ → ℕ → Bool
is_byte c d = d == c

abbrev pub NoByte : ℕ → Bytes → Type 0
NoByte c = FreeOf (is_byte c)

abbrev split_at : ℕ → Bytes → Option (Bytes × Bytes)
split_at c s = two_texts (sscanf (until c ∷ literal c ∷ until newline ∷ []) s)

-- The two parts of a text that has both, and a line end or nothing after them.
split_joined :
    (c : ℕ) (a : ℕ) (s : Bytes) (b : ℕ) (t rest : Bytes)
    → NoByte c (a ∷ s)
    → NoByte newline (b ∷ t)
    → StopsAt (is_byte newline) rest
    → split_at c ((a ∷ s) ++ (c ∷ (b ∷ t) ++ rest)) ≡ some (a ∷ s, b ∷ t)
unfolding two_texts
split_joined c a s b t rest fa fb stop = ap two_texts (
    sscanf-until c _ ((a ∷ s) ++ (c ∷ (b ∷ t) ++ rest)) a s _
      (span_until-append (is_byte c) (a ∷ s) (c ∷ (b ∷ t) ++ rest) fa (==_refl c))
    ∙ ap (λ l. text (a ∷ s) ∷ l)
        (sscanf-literal c _ ((b ∷ t) ++ rest)
          ∙ sscanf-until newline [] ((b ∷ t) ++ rest) b t rest
              (span_until-append (is_byte newline) (b ∷ t) rest fb stop)
          ∙ ap (λ l. text (b ∷ t) ∷ l) (sscanf-nil rest)))

text-inj : {a b : Bytes} → text a ≡ text b → a ≡ b
text-inj e = cc

two_texts-inv :
    (vs : List Value) (a b : Bytes) → two_texts vs ≡ some (a, b) → vs ≡ text a ∷ text b ∷ []
unfolding two_texts
two_texts-inv [] a b e = absurd (cc)
two_texts-inv (number n ∷ vs) a b e = absurd (cc)
two_texts-inv (text x ∷ []) a b e = absurd (cc)
two_texts-inv (text x ∷ number n ∷ vs) a b e = absurd (cc)
two_texts-inv (text x ∷ text y ∷ []) a b e = cc
two_texts-inv (text x ∷ text y ∷ z ∷ vs) a b e = absurd (cc)

-- nothing stops the conversion of a text to its end
span_until-whole : (stop : ℕ → Bool) (s : Bytes) → FreeOf stop s → span_until stop s ≡ (s, [])
span_until-whole stop s f =
    ap (span_until stop) (sym (append-nil s)) ∙ span_until-append stop s [] f tt

FreeOf-append : (stop : ℕ → Bool) (s t : Bytes) → FreeOf stop (s ++ t) → FreeOf stop t
FreeOf-append stop [] t f = f
FreeOf-append stop (c ∷ s) t f = FreeOf-append stop s t f.1

-- A text with no line end that splits is the two parts joined.
split_sound :
    (c : ℕ) (s a b : Bytes)
    → NoByte newline s
    → split_at c s ≡ some (a, b)
    → (s ≡ a ++ (c ∷ b)) × NoByte c a × (a ≢ []) × (b ≢ [])
split_sound c s a b f e =
    let values = two_texts-inv (sscanf (until c ∷ literal c ∷ until newline ∷ []) s) a b e in
    let (first, some_first, after) =
      sscanf-until_inv c (literal c ∷ until newline ∷ []) s (text a) (text b ∷ []) values in
    let (t, at_t, second) =
      sscanf-literal_inv c (until newline ∷ []) (span_until (is_byte c) s).1 (text b) []
        (sym after) in
    let (last, some_last, _) = sscanf-until_inv newline [] t (text b) [] second in
    let joined : s ≡ a ++ (c ∷ t) =
      sym (span_until-join (is_byte c) s) ∙ cc (text-inj first, at_t) in
    let free : NoByte newline (c ∷ t) =
      FreeOf-append (is_byte newline) a (c ∷ t) (rw joined at f) in
    let whole : b ≡ t =
      text-inj last ∙ ap (λ r. r.0) (span_until-whole (is_byte newline) t free.1) in
    (
      joined ∙ ap (λ u. a ++ (c ∷ u)) (sym whole),
      subst (NoByte c) (sym (text-inj first)) (span_until-FreeOf (is_byte c) s),
      λ e. some_first (sym (text-inj first) ∙ e),
      λ e. some_last (sym (text-inj last) ∙ e),
    )

split_complete :
    (c : ℕ) (s a b : Bytes)
    → NoByte newline s
    → (s ≡ a ++ (c ∷ b)) × NoByte c a × (a ≢ []) × (b ≢ [])
    → split_at c s ≡ some (a, b)
split_complete c s [] b f h = absurd (h.2 refl)
split_complete c s (x ∷ a) [] f h = absurd (h.3 refl)
split_complete c s (x ∷ a) (y ∷ b) f h =
    let free : NoByte newline (c ∷ y ∷ b) =
      FreeOf-append (is_byte newline) (x ∷ a) (c ∷ y ∷ b) (rw h.0 at f) in
    ap (split_at c) h.0
    ∙ ap (λ l. split_at c (x ∷ a ++ (c ∷ y ∷ l))) (sym (append-nil b))
    ∙ split_joined c x a y b [] h.1 free.1 tt

-- The id that joins a host and a device parses into them, if both are named, the host holds no `/`,
-- and the device no line end.
pub parse_fq_devid-get_fq_devid :
    (host devid : Bytes)
    → host ≢ []
    → devid ≢ []
    → NoByte b'/' host
    → NoByte newline devid
    → parse_fq_devid (get_fq_devid host devid) ≡ some (host, devid)
unfolding parse_fq_devid get_fq_devid
parse_fq_devid-get_fq_devid [] devid h d f g = absurd (h refl)
parse_fq_devid-get_fq_devid (a ∷ s) [] h d f g = absurd (d refl)
parse_fq_devid-get_fq_devid (a ∷ s) (b ∷ t) h d f g =
    ap (λ l. split_at b'/' (a ∷ s ++ (b'/' ∷ b ∷ l))) (sym (append-nil t))
    ∙ split_joined b'/' a s b t [] f g tt

-- A device id that parses and has no line end is its two parts joined again; the host holds no `/`, and
-- neither part is empty.
pub get_fq_devid-parse_fq_devid :
    (id host devid : Bytes)
    → NoByte newline id
    → parse_fq_devid id ≡ some (host, devid)
    → (id ≡ get_fq_devid host devid) × NoByte b'/' host × (host ≢ []) × (devid ≢ [])
unfolding parse_fq_devid get_fq_devid
get_fq_devid-parse_fq_devid id host devid f e = split_sound b'/' id host devid f e

-- An instance id without a line end splits at its first `:` into a prefix and a name, neither of them
-- empty, exactly if it has such parts.
pub parse_id_iff :
    (id pfx name : Bytes)
    → NoByte newline id
    → (parse_id id ≡ some (pfx, name))
      ↔ ((id ≡ pfx ++ (b':' ∷ name)) × NoByte b':' pfx × (pfx ≢ []) × (name ≢ []))
unfolding parse_id
parse_id_iff id pfx name f =
    (split_sound b':' id pfx name f, λ h. split_complete b':' id pfx name f h)

after_word : List Directive
after_word = literal b'^' ∷ literal b':' ∷ literal b']' ∷ literal b':' ∷ unsigned 32 ∷ []

-- No text at all parses as a rule id.
pub parse_rule_id-none : (rule_id : Bytes) → parse_rule_id rule_id ≡ none
unfolding parse_rule_id after_word
parse_rule_id-none s = elim (sscanf-word_literal b'[' after_word s refl) [
  | inl e ↦ rw e refl
  | inr (text a, e) ↦ rw e refl
  | inr (number n, e) ↦ rw e refl
]
