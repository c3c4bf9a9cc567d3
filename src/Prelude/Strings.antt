-- ===== src/Prelude/Strings.antt =====
-- C strings: the bytes before the terminating NUL, and their comparison.
use Prim.Native.Nat.{ℕ}
use Prim.Native.Char.{code}
use Prim.Native.String.{String}
use mathlib.Core.Path.{◌≡◌, ap₂, subst}
use mathlib.Core.Logic.{◌↔◌, inl, inr}
use mathlib.Core.Bool.{Bool, true, false, ◌&&◌}
use mathlib.Core.List.{List, [], ◌∷◌}
use native.Mathlib.Omega.{arith}
use libvirt_cim.Prelude.Tests.{◌==◌, ==→≡, ==_refl, Bool-cases}

-- A `char *` that points to a string.
abbrev pub Bytes : Type 0
Bytes = List ℕ

-- A string literal of the source.
abbrev pub codes : String → Bytes
codes String.[] = []
codes (String.◌∷◌ c s) = code c ∷ codes s

-- `strcmp(s, t) == 0`
unfoldable pub strcmp_eq : Bytes → Bytes → Bool
strcmp_eq [] [] = true
strcmp_eq (a ∷ s) (b ∷ t) = (a == b) && strcmp_eq s t
strcmp_eq _ _ = false

pub strcmp_eq_refl : (s : Bytes) → strcmp_eq s s ≡ true
unfolding strcmp_eq
strcmp_eq_refl [] = ground arith
strcmp_eq_refl (a ∷ s) = ground (arith, strcmp_eq_refl s, ==_refl a)

pub strcmp_eq→≡ : (s t : Bytes) → strcmp_eq s t ≡ true → s ≡ t
unfolding strcmp_eq
strcmp_eq→≡ [] [] h = ground arith
strcmp_eq→≡ [] (b ∷ t) h = ground arith
strcmp_eq→≡ (a ∷ s) [] h = ground arith
strcmp_eq→≡ (a ∷ s) (b ∷ t) h = ap₂ ◌∷◌ (==→≡ a b (ground arith)) (strcmp_eq→≡ s t (ground arith))

pub strcmp_eq_iff : (s t : Bytes) → (strcmp_eq s t ≡ true) ↔ (s ≡ t)
strcmp_eq_iff s t = (strcmp_eq→≡ s t, λ e. subst (λ u. strcmp_eq s u ≡ true) e (strcmp_eq_refl s))

pub strcmp_eq_comm : (s t : Bytes) → strcmp_eq s t ≡ false → strcmp_eq t s ≡ false
strcmp_eq_comm s t e = elim (Bool-cases (strcmp_eq t s)) [
  | inl h ↦ absurd (cc (strcmp_eq_refl s, strcmp_eq→≡ t s h, e))
  | inr h ↦ h
]
