-- ===== src/Batches/Find/Limits.antt =====
-- The sizes of the batches under a limit.
use pewter_rinse_moor.Prelude.{
  ℕ, ◌+◌, ◌*◌, ◌/◌, ◌%◌, ◌≤◌, ◌<◌, ◌≡◌, refl, sym, ◌⊎◌, inl, inr, true, false, ◌&&◌, arith,
  Bool-cases, ltb, leb, equal_numbers, ◌==◌,
}
use native.Mathlib.Nat.{div-add-mod', le-div_iff_mul-le, mod-lt, zero-mul}
use pewter_rinse_moor.Batches.Find.{clamp, next_size}

-- With `rows` read in `batch` batches, a batch of `size` keeps within the limit, and all batches so far have
-- had this size, unless it is the last that the limit allows.
abbrev pub Fits : ℕ → ℕ → ℕ → ℕ → Type 0
Fits total rows batch size =
    (total ≡ 0) ⊎ ((rows + size ≤ total) × ((rows ≡ batch * size) ⊎ (rows + size ≡ total)))

pub clamp-Fits :
    (total size : ℕ)
    → 0 < size
    → (0 < clamp total size) × (clamp total size ≤ size) × Fits total 0 0 (clamp total size)
unfolding clamp
clamp-Fits total size pos = elim (Bool-cases (ltb 0 total)) [
  | inr none_set ↦ (ground arith, ground arith, inl (ground arith))
  | inl set ↦ elim (Bool-cases (ltb total size)) [
    | inl less ↦ (ground arith, ground arith, inr (ground arith, inl (sym (zero-mul _))))
    | inr more ↦ (ground arith, ground arith, inr (ground arith, inl (sym (zero-mul _))))
  ]
]

one_more : (batch size : ℕ) → (batch + 1) * size ≡ batch * size + size
one_more batch size = omega arith

-- a whole batch after whole batches
whole-Fits :
    (total batch size : ℕ)
    → 0 < size
    → batch * size < total
    → ((total / size) == batch) ≡ false
    → (batch + 1) * size ≤ total
whole-Fits total batch size pos less other =
    let at_least : batch ≤ total / size = (le-div_iff_mul-le pos).1 (omega arith) in
    let more : batch + 1 ≤ total / size = ground arith in (le-div_iff_mul-le pos).0 more

rest-Fits : (total batch size : ℕ) → total / size ≡ batch → batch * size + total % size ≡ total
rest-Fits total batch size e = rw (sym e) (div-add-mod' total size)

-- The size of the next batch fits, unless the limit is reached.
pub next_size-Fits :
    (total rows batch size : ℕ)
    → 0 < size
    → Fits total rows batch size
    → (ltb 0 total && leb total (rows + size)) ≡ false
    → (0 < next_size total size (batch + 1))
      × (next_size total size (batch + 1) ≤ size)
      × Fits total (rows + size) (batch + 1) (next_size total size (batch + 1))
unfolding next_size
next_size-Fits total rows batch size pos (inl unset) more = (ground arith, ground arith, inl unset)
next_size-Fits total rows batch size pos (inr (fits, inr full)) more = absurd (ground arith)
next_size-Fits total rows batch size pos (inr (fits, inl whole)) more =
    let read : rows + size ≡ (batch + 1) * size = omega (arith, one_more batch size, whole) in
    let less : rows + size < total = ground arith in
    let set : ltb 0 total ≡ true = ground arith in
    elim (Bool-cases ((total / size) == (batch + 1))) [
      | inl same ↦
          let next : next_size total size (batch + 1) ≡ total % size =
            rw (next_size, set, same) refl in
          let sum : (batch + 1) * size + total % size ≡ total =
            rest-Fits total (batch + 1) size (ground arith) in
          let small : total % size < size = mod-lt total pos in
          rw next (omega arith, omega arith, inr (omega arith, inr (omega arith)))
      | inr other ↦
          let next : next_size total size (batch + 1) ≡ size = rw (next_size, set, other) refl in
          let fits = whole-Fits total (batch + 1) size pos (omega arith) other in
          let more : (batch + 1 + 1) * size ≡ (batch + 1) * size + size =
            one_more (batch + 1) size in
          rw next (pos, omega arith, inr (omega arith, inl read))
    ]
