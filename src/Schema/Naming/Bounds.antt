-- ===== src/Schema/Naming/Bounds.antt =====
-- The names of constraints and indexes are as short as the database wants them.
use pewter_rinse_moor.Prelude.{
  ℕ, zero, suc, ◌-◌, ◌≤◌, ◌≡◌, refl, inl, inr, false, some, [], ◌∷◌, ◌++◌, Bytes, arith, Bool-cases,
  equal_bytes, equal_numbers, ◌==◌, ltb, length, take, All, All-append, length-append,
}
use pewter_rinse_moor.Schema.Naming.{Words, NamingStrategy, dots_replaced, max_length, format_name}

take-length_le : (n : ℕ) (s : Bytes) → length (take n s) ≤ n
take-length_le zero s = omega arith
take-length_le (suc n) [] = omega arith
take-length_le (suc n) (x ∷ s) = omega (arith, take-length_le n s)

abbrev pub HasNoDot : Bytes → Type 0
HasNoDot s = All (λ x. (x == b'.') ≡ false) s

take-HasNoDot : (n : ℕ) (s : Bytes) → HasNoDot s → HasNoDot (take n s)
take-HasNoDot zero s a = tt
take-HasNoDot (suc n) [] a = tt
take-HasNoDot (suc n) (x ∷ s) (h, a) = (h, take-HasNoDot n s a)

dots_replaced-HasNoDot : (s : Bytes) → HasNoDot (dots_replaced s)
unfolding dots_replaced
dots_replaced-HasNoDot [] = tt
dots_replaced-HasNoDot (x ∷ s) = elim (Bool-cases (x == b'.')) [
  | inl dot ↦ rw dot (refl, dots_replaced-HasNoDot s)
  | inr other ↦ rw other (other, dots_replaced-HasNoDot s)
]

abbrev pub formatted : Bytes → Bytes → Bytes → Bytes
formatted prefix table name = dots_replaced (prefix ++ b'_' ∷ table ++ b'_' ∷ name)

-- With a maximum of at least 8 characters, and sums without dots: a name is given. It is no longer than the
-- maximum and has no dots; it is the prefix, the table and the name joined by underscores, with
-- underscores for dots, wherever that fits.
pub format_name-fits :
    (words : Words) (ns : NamingStrategy) (prefix table name : Bytes)
    → 8 ≤ max_length ns
    → ((s : Bytes) → HasNoDot (words.sum_hex s))
    → (r : Bytes) × (format_name words ns prefix table name ≡ some r)
      × (length r ≤ max_length ns)
      × HasNoDot r
      × (length (formatted prefix table name) ≤ max_length ns → r ≡ formatted prefix table name)
unfolding format_name
format_name-fits words ns prefix table name least sums =
    let whole = formatted prefix table name in
    let max = max_length ns in
    elim (Bool-cases (ltb max (length whole))) [
      | inr fits ↦
          (whole, rw (format_name, fits) refl, ground arith, dots_replaced-HasNoDot _, λ h. refl)
      | inl longer ↦
          let enough : ltb max 8 ≡ false = ground arith in
          let short = take (max - 8) whole in
          let sum = take 8 (words.sum_hex whole) in
          (
            short ++ sum,
            rw (format_name, longer, enough) refl,
            omega (
              arith,
              length-append short sum,
              take-length_le (max - 8) whole,
              take-length_le 8 (words.sum_hex whole),
            ),
            All-append _ short sum (take-HasNoDot (max - 8) whole (dots_replaced-HasNoDot _))
                (take-HasNoDot 8 (words.sum_hex whole) (sums whole)),
            λ h. absurd (ground arith),
          )
    ]
