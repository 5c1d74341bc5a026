-- ===== src/Prelude/Strings.antt =====
-- Go strings as lists of bytes, and equality tests behind an interface.
use Prim.Native.Nat.{ℕ}
use Prim.Native.Char.{code}
use Prim.Native.String.{String}
use mathlib.Core.Path.{◌≡◌, refl}
use mathlib.Core.Logic.{◌↔◌, ◌≢◌, inl, inr}
use mathlib.Core.Bool.{Bool, true, false, ◌&&◌}
use mathlib.Core.List.{List, [], ◌∷◌}
use native.Mathlib.Omega.{arith}
use pewter_rinse_moor.Prelude.Tests.{nat_beq, Bool-cases}

abbrev pub Bytes : Type 0
Bytes = List ℕ

-- The bytes of a literal.
unfoldable pub codes : String → Bytes
codes String.[] = []
codes (String.◌∷◌ c s) = code c ∷ codes s

-- A decidable equality of a type, as the test that a program makes.
pub record Equality {ℓ} (T : Type ℓ) : Type ℓ where
  pub equal : T → T → Bool
  pub equal_iff : (x y : T) → (equal x y ≡ true) ↔ (x ≡ y)

infix 50 ◌==◌
abbrev pub ◌==◌ {ℓ} : {T : Type ℓ} ⦃q : Equality T⦄ → T → T → Bool
◌==◌ ⦃q⦄ x y = q.equal x y

pub nat_beq_iff : (a b : ℕ) → (nat_beq a b ≡ true) ↔ (a ≡ b)
nat_beq_iff a b = (λ h. ground arith, λ h. ground arith)

unfoldable pub bytes_beq : Bytes → Bytes → Bool
bytes_beq [] [] = true
bytes_beq [] (d ∷ t) = false
bytes_beq (c ∷ s) [] = false
bytes_beq (c ∷ s) (d ∷ t) = nat_beq c d && bytes_beq s t

bytes_beq_sound : (s t : Bytes) → bytes_beq s t ≡ true → s ≡ t
unfolding bytes_beq
bytes_beq_sound [] [] h = refl
bytes_beq_sound [] (d ∷ t) h = cc
bytes_beq_sound (c ∷ s) [] h = cc
bytes_beq_sound (c ∷ s) (d ∷ t) h = ground (arith, bytes_beq_sound s t)

pub bytes_beq_refl : (s : Bytes) → bytes_beq s s ≡ true
unfolding bytes_beq
bytes_beq_refl [] = refl
bytes_beq_refl (c ∷ s) = ground (arith, bytes_beq_refl s)

pub bytes_beq_iff : (s t : Bytes) → (bytes_beq s t ≡ true) ↔ (s ≡ t)
bytes_beq_iff s t = (bytes_beq_sound s t, λ e. rw e (bytes_beq_refl t))

instance abbrev pub equal_bytes : Equality Bytes
equal_bytes = record { equal = bytes_beq; equal_iff = bytes_beq_iff }

instance abbrev pub equal_numbers : Equality ℕ
equal_numbers = record { equal = nat_beq; equal_iff = nat_beq_iff }

-- Different byte strings fail the test.
pub bytes_beq_ne : (s t : Bytes) → s ≢ t → bytes_beq s t ≡ false
bytes_beq_ne s t h = elim (Bool-cases (bytes_beq s t)) [
  | inl e ↦ absurd (h (bytes_beq_sound s t e))
  | inr e ↦ e
]
