-- ===== src/Schema/Naming/Ascii.antt =====
-- The replacement of initialisms keeps to ASCII.
use pewter_rinse_moor.Prelude.{
  ℕ, zero, suc, ◌<◌, ◌≡◌, refl, inl, inr, Bool, true, ◌&&◌, some, List, [], ◌∷◌, Bytes, codes,
  arith, Bool-cases, Option-cases, ltb, drop, equal_numbers, length, All, All-append,
}
use mathlib.Core.Path.{subst}
use pewter_rinse_moor.Clause.Conditions.{starts_with}
use pewter_rinse_moor.Schema.Naming.{common_initialisms, first_match, replace_all}

abbrev pub IsAscii : ℕ → Type 0
IsAscii x = x < 128

abbrev is_ascii : Bytes → Bool
is_ascii [] = true
is_ascii (x ∷ s) = ltb x 128 && is_ascii s

is_ascii-IsAscii : (s : Bytes) → is_ascii s ≡ true → All IsAscii s
is_ascii-IsAscii [] h = tt
is_ascii-IsAscii (x ∷ s) h = (ground arith, is_ascii-IsAscii s (ground arith))

abbrev pub all_ascii : List Bytes → Bool
all_ascii [] = true
all_ascii (o ∷ os) = is_ascii o && all_ascii os

pub initialisms-IsAscii : all_ascii common_initialisms ≡ true
unfolding common_initialisms codes
initialisms-IsAscii = refl

drop-IsAscii : (n : ℕ) (s : Bytes) → All IsAscii s → All IsAscii (drop n s)
drop-IsAscii zero s a = a
drop-IsAscii (suc n) [] a = tt
drop-IsAscii (suc n) (x ∷ s) (h, a) = drop-IsAscii n s a

module _ (title : Bytes → Bytes) (plain : (s : Bytes) → All IsAscii s → All IsAscii (title s)) where
  first_match-IsAscii :
      (os : List Bytes) (s new rest : Bytes)
      → all_ascii os ≡ true
      → All IsAscii s
      → first_match title os s ≡ some (new, rest)
      → All IsAscii new × All IsAscii rest
  first_match-IsAscii [] s new rest h a e = absurd (ground arith)
  first_match-IsAscii (o ∷ os) s new rest h a e = elim (Bool-cases (starts_with s o)) [
    | inr other ↦ first_match-IsAscii os s new rest (ground arith) a (ground arith)
    | inl found ↦
        let is_new : title o ≡ new = ground arith in
        let is_rest : drop (length o) s ≡ rest = ground arith in
        (
          subst (All IsAscii) is_new (plain o (is_ascii-IsAscii o (ground arith))),
          subst (All IsAscii) is_rest (drop-IsAscii (length o) s a),
        )
  ]

  pub replace_all-IsAscii :
      (fuel : ℕ) (os : List Bytes) (s : Bytes)
      → all_ascii os ≡ true
      → All IsAscii s
      → All IsAscii (replace_all fuel title os s)
  unfolding replace_all
  replace_all-IsAscii zero os [] h a = tt
  replace_all-IsAscii zero os (x ∷ s) h a = a
  replace_all-IsAscii (suc fuel) os [] h a = tt
  replace_all-IsAscii (suc fuel) os (x ∷ s) h (p, a) =
      elim (Option-cases (first_match title os (x ∷ s))) [
        | inl out ↦ rw (replace_all, out) (p, replace_all-IsAscii fuel os s h a)
        | inr ((new, rest), e) ↦
            let (first, others) = first_match-IsAscii os (x ∷ s) new rest h (p, a) e in
            rw (replace_all, e)
              (All-append IsAscii new _ first (replace_all-IsAscii fuel os rest h others))
      ]
