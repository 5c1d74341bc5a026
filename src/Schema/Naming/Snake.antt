-- ===== src/Schema/Naming/Snake.antt =====
-- Snake case changes capitals and puts underscores in, and nothing more.
use pewter_rinse_moor.Prelude.{
  ℕ, zero, suc, ◌+◌, ◌≡◌, refl, sym, ap, ◌∙◌, ◌⊎◌, inl, inr, Bool, true, false, not, ◌&&◌, ◌||◌,
  Option, none, some, List, [], ◌∷◌, ◌++◌, Bytes, codes, arith, Bool-cases, equal_bytes,
  equal_numbers, ◌==◌, if◌then◌else◌, length, All, All-append,
}
use pewter_rinse_moor.Clause.Conditions.{starts_with}
use pewter_rinse_moor.Schema.Naming.Ascii.{IsAscii, initialisms-IsAscii, replace_all-IsAscii}
use pewter_rinse_moor.Schema.Naming.{
  common_initialisms, first_match, replace_all, is_upper, is_digit, is_inner, is_some, case_step,
  case_end, snake_from, to_snake, to_lower,
}

abbrev pub IsSmall : ℕ → Type 0
IsSmall x = is_upper x ≡ false

-- without underscores
abbrev pub letters : Bytes → Bytes
letters [] = []
letters (x ∷ s) = if x == b'_' then letters s else x ∷ letters s

letters-append : (s t : Bytes) → letters (s ++ t) ≡ letters s ++ letters t
letters-append [] t = refl
letters-append (x ∷ s) t = elim (Bool-cases (x == b'_')) [
  | inl at ↦ rw at (letters-append s t)
  | inr off ↦ rw off (ap (λ r. x ∷ r) (letters-append s t))
]

-- a byte in small letters
abbrev small_of : ℕ → ℕ
small_of x = if is_upper x then x + 32 else x

small_of-IsSmall : (x : ℕ) → IsSmall (small_of x)
small_of-IsSmall x = elim (Bool-cases (is_upper x)) [
  | inl big ↦ rw big (ground arith)
  | inr small ↦ rw small small
]

-- What is written for a byte: the byte in small letters, perhaps behind an underscore.
abbrev Writes : Bytes → ℕ → Type 0
Writes t x = (t ≡ small_of x ∷ []) ⊎ (t ≡ b'_' ∷ small_of x ∷ [])

case_step-Writes :
    (before : Option ℕ) (last : Bool) (x y : ℕ) → Writes (case_step before last x y) x
unfolding case_step
case_step-Writes before last x y = elim (Bool-cases (is_upper x)) [
  | inr small ↦ inl (rw (case_step, small) refl)
  | inl big ↦ elim (Bool-cases (last && (is_upper y || is_digit y))) [
    | inl run ↦ inl (rw (case_step, big, run) refl)
    | inr new ↦ elim (Bool-cases (is_inner before && not (y == b'_'))) [
      | inl apart ↦ inr (rw (case_step, big, new, apart) refl)
      | inr first ↦ inl (rw (case_step, big, new, first) refl)
    ]
  ]
]

case_end-Writes : (before : Option ℕ) (last : Bool) (x : ℕ) → Writes (case_end before last x) x
unfolding case_end
case_end-Writes before last x = elim (Bool-cases (is_upper x)) [
  | inr small ↦ inl (rw (case_end, small) refl)
  | inl big ↦ elim (Bool-cases (not last && is_some before)) [
    | inl apart ↦ inr (rw (case_end, big, apart) refl)
    | inr first ↦ inl (rw (case_end, big, first) refl)
  ]
]

Writes-letters : (t : Bytes) (x : ℕ) → Writes t x → letters t ≡ letters (to_lower (x ∷ []))
unfolding to_lower
Writes-letters t x (inl e) = ap letters e
Writes-letters t x (inr e) = ap letters e

Writes-IsSmall : (t : Bytes) (x : ℕ) → Writes t x → All IsSmall t
Writes-IsSmall t x (inl e) = rw e (small_of-IsSmall x, tt)
Writes-IsSmall t x (inr e) = rw e (refl, (small_of-IsSmall x, tt))

pub snake_from-IsSmall :
    (before : Option ℕ) (last : Bool) (s : Bytes) → All IsSmall (snake_from before last s)
unfolding snake_from
snake_from-IsSmall before last [] = tt
snake_from-IsSmall before last (x ∷ []) = Writes-IsSmall _ x (case_end-Writes before last x)
snake_from-IsSmall before last (x ∷ y ∷ s) =
    All-append IsSmall (case_step before last x y) _
      (Writes-IsSmall _ x (case_step-Writes before last x y))
      (snake_from-IsSmall (some x) (is_upper x) (y ∷ s))

to_lower-append : (s t : Bytes) → to_lower (s ++ t) ≡ to_lower s ++ to_lower t
unfolding to_lower
to_lower-append [] t = refl
to_lower-append (x ∷ s) t = ap (λ r. (if is_upper x then x + 32 else x) ∷ r) (to_lower-append s t)

pub snake_from-letters :
    (before : Option ℕ) (last : Bool) (s : Bytes)
    → letters (snake_from before last s) ≡ letters (to_lower s)
unfolding snake_from to_lower
snake_from-letters before last [] = refl
snake_from-letters before last (x ∷ []) = Writes-letters _ x (case_end-Writes before last x)
snake_from-letters before last (x ∷ y ∷ s) =
    letters-append (case_step before last x y) (snake_from (some x) (is_upper x) (y ∷ s))
    ∙ (λ j.
        Writes-letters _ x (case_step-Writes before last x y) j
        ++ snake_from-letters (some x) (is_upper x) (y ∷ s) j)
    ∙ sym (letters-append (to_lower (x ∷ [])) (to_lower (y ∷ s)))
    ∙ ap letters (sym (to_lower-append (x ∷ []) (y ∷ s)))

-- Small letters stay as they are.
case_small :
    (before : Option ℕ) (last : Bool) (s : Bytes) → All IsSmall s → snake_from before last s ≡ s
unfolding snake_from case_step case_end
case_small before last [] a = refl
case_small before last (x ∷ []) (h, a) = rw (case_end, h) refl
case_small before last (x ∷ y ∷ s) (h, a) =
    rw (case_step, h) (ap (λ r. x ∷ r) (case_small (some x) false (y ∷ s) a))

starts_big : List Bytes → Bool
starts_big [] = true
starts_big ([] ∷ os) = false
starts_big ((c ∷ o) ∷ os) = is_upper c && starts_big os

no_match :
    (title : Bytes → Bytes) (os : List Bytes) (x : ℕ) (s : Bytes)
    → starts_big os ≡ true
    → IsSmall x
    → first_match title os (x ∷ s) ≡ none
unfolding starts_big starts_with
no_match title [] x s h small = refl
no_match title ([] ∷ os) x s h small = absurd (ground arith)
no_match title ((c ∷ o) ∷ os) x s h small =
    let differ : (x == c) ≡ false = ground arith in
    rw differ (no_match title os x s (ground arith) small)

all_big : starts_big common_initialisms ≡ true
unfolding starts_big common_initialisms codes
all_big = refl

none_replaced :
    (fuel : ℕ) (title : Bytes → Bytes) (s : Bytes)
    → All IsSmall s
    → replace_all fuel title common_initialisms s ≡ s
unfolding replace_all
none_replaced zero title [] a = refl
none_replaced zero title (x ∷ s) a = refl
none_replaced (suc fuel) title [] a = refl
none_replaced (suc fuel) title (x ∷ s) (h, a) =
    rw (replace_all, no_match title common_initialisms x s all_big h)
      (ap (λ r. x ∷ r) (none_replaced fuel title s a))

small_of-IsAscii : (x : ℕ) → IsAscii x → IsAscii (small_of x)
small_of-IsAscii x h = ground arith

Writes-IsAscii : (t : Bytes) (x : ℕ) → Writes t x → IsAscii x → All IsAscii t
Writes-IsAscii t x (inl e) h = rw e (small_of-IsAscii x h, tt)
Writes-IsAscii t x (inr e) h = rw e (omega arith, (small_of-IsAscii x h, tt))

snake_from-IsAscii :
    (before : Option ℕ) (last : Bool) (s : Bytes)
    → All IsAscii s
    → All IsAscii (snake_from before last s)
unfolding snake_from
snake_from-IsAscii before last [] a = tt
snake_from-IsAscii before last (x ∷ []) (h, a) =
    Writes-IsAscii _ x (case_end-Writes before last x) h
snake_from-IsAscii before last (x ∷ y ∷ s) (h, a) =
    All-append IsAscii (case_step before last x y) _
      (Writes-IsAscii _ x (case_step-Writes before last x y) h)
      (snake_from-IsAscii (some x) (is_upper x) (y ∷ s) a)

-- An ASCII name, and a `title` that keeps to ASCII. The name in snake case is an ASCII name without
-- capitals, and apart from underscores it is the name with its initialisms replaced, in small letters. To
-- put it in snake case again changes nothing.
pub to_snake-IsSmall :
    (title : Bytes → Bytes) (name : Bytes)
    → ((s : Bytes) → All IsAscii s → All IsAscii (title s))
    → All IsAscii name
    → All IsSmall (to_snake title name)
      × All IsAscii (to_snake title name)
      × (letters (to_snake title name)
          ≡ letters (to_lower (replace_all (length name) title common_initialisms name)))
      × (to_snake title (to_snake title name) ≡ to_snake title name)
unfolding to_snake
to_snake-IsSmall title name plain ascii =
    let small =
      snake_from-IsSmall none false (replace_all (length name) title common_initialisms name) in
    (
      small,
      snake_from-IsAscii none false _ (
          replace_all-IsAscii title plain (length name) common_initialisms name initialisms-IsAscii
            ascii),
      snake_from-letters none false (replace_all (length name) title common_initialisms name),
      ap (snake_from none false) (none_replaced _ title _ small) ∙ case_small none false _ small,
    )
