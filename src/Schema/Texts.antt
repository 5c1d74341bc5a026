-- ===== src/Schema/Texts.antt =====
-- What the code uses of the package strings, on byte strings: `Split` and `Join` with a separator of one
-- byte, `HasSuffix` of one byte, and `TrimSpace` of ASCII white space.
use pewter_rinse_moor.Prelude.{
  ℕ, ◌≡◌, refl, sym, ap, ◌∙◌, inl, inr, Bool, true, false, ◌&&◌, ◌||◌, List, [], ◌∷◌, ◌++◌, Bytes,
  arith, Bool-cases, equal_numbers, ◌==◌, if◌then◌else◌, leb,
}

-- a byte before the first part
abbrev pub prepend : ℕ → List Bytes → List Bytes
prepend x [] = (x ∷ []) ∷ []
prepend x (p ∷ ps) = (x ∷ p) ∷ ps

-- `Split`
unfoldable pub split : ℕ → Bytes → List Bytes
split c [] = [] ∷ []
split c (x ∷ s) = if x == c then [] ∷ split c s else prepend x (split c s)

-- `Join`
unfoldable pub join : ℕ → List Bytes → Bytes
join c [] = []
join c (p ∷ []) = p
join c (p ∷ q ∷ ps) = p ++ c ∷ join c (q ∷ ps)

-- `HasSuffix` of one byte
abbrev pub ends_with : ℕ → Bytes → Bool
ends_with c [] = false
ends_with c (x ∷ []) = x == c
ends_with c (x ∷ y ∷ s) = ends_with c (y ∷ s)

-- `s[:len(s)-1]`
abbrev pub without_last : Bytes → Bytes
without_last [] = []
without_last (x ∷ []) = []
without_last (x ∷ y ∷ s) = x ∷ without_last (y ∷ s)

abbrev pub is_space : ℕ → Bool
is_space x = (leb 9 x && leb x 13) || x == 32

abbrev pub trim_left : Bytes → Bytes
trim_left [] = []
trim_left (x ∷ s) = let rest = trim_left s in if is_space x then rest else x ∷ s

-- white space at the end
abbrev pub trim_right : Bytes → Bytes
trim_right [] = []
trim_right (x ∷ s) = elim (trim_right s) [
  | [] ↦ if is_space x then [] else x ∷ []
  | y ∷ r ↦ x ∷ y ∷ r
]

-- `TrimSpace`
unfoldable pub trim_space : Bytes → Bytes
trim_space s = trim_right (trim_left s)

-- whether a byte occurs
abbrev pub has : ℕ → Bytes → Bool
has c [] = false
has c (x ∷ s) = x == c || has c s

pub split-cons : (c : ℕ) (s : Bytes) → (p : Bytes) × (ps : List Bytes) × (split c s ≡ p ∷ ps)
unfolding split
split-cons c [] = ([], [], refl)
split-cons c (x ∷ s) = elim (Bool-cases (x == c)) [
  | inl at ↦ ([], split c s, rw at refl)
  | inr off ↦ let (p, ps, e) = split-cons c s in (x ∷ p, ps, rw (off, e) refl)
]

join-prepend : (c x : ℕ) (p : Bytes) (ps : List Bytes) → join c ((x ∷ p) ∷ ps) ≡ x ∷ join c (p ∷ ps)
unfolding join
join-prepend c x p [] = refl
join-prepend c x p (q ∷ ps) = refl

-- Joining undoes splitting.
pub join-split : (c : ℕ) (s : Bytes) → join c (split c s) ≡ s
unfolding split join
join-split c [] = refl
join-split c (x ∷ s) =
    let (p, ps, e) = split-cons c s in
    let again : join c (p ∷ ps) ≡ s = rw (sym e) (join-split c s) in
    elim (Bool-cases (x == c)) [
      | inl at ↦ let same : x ≡ c = ground arith in rw (at, e, again, same) refl
      | inr off ↦ rw (off, e) (join-prepend c x p ps ∙ ap (λ r. x ∷ r) again)
    ]

-- a part in front of the first separator
pub split-append : (c : ℕ) (p s : Bytes) → has c p ≡ false → split c (p ++ c ∷ s) ≡ p ∷ split c s
unfolding split
split-append c [] s h = let at : (c == c) ≡ true = ground arith in rw at refl
split-append c (x ∷ p) s h =
    let off : (x == c) ≡ false = ground arith in rw (off, split-append c p s (ground arith)) refl
