-- ===== src/Callbacks/Index.antt =====
-- What `getRIndex` finds, and lists of names seen through their indices: membership, order,
-- distinctness, and growth by insertions.
use native.Mathlib.Decide.{dec_lt, ℕ_discrete}
use pewter_rinse_moor.Prelude.{
  ◌⊎◌, ◌-◌, ap, ◌∙◌, sym, get_elem?-insert_self, ℕ, zero, suc, ◌+◌, ◌<◌, ◌≤◌, ◌≡◌, ◌≢◌, inl, inr,
  none, some, List, [], ◌∷◌, ◌++◌, arith, Bytes, equal_bytes, bytes_beq_iff, ◌==◌, ltb,
  if◌then◌else◌, length, get_elem?, insert_at, Bool-cases, Option-cases, lt-length_of_get,
  get_elem?-insert_lt, get_elem?-insert_ge, insert_at-length,
}
use pewter_rinse_moor.Callbacks.{scan_down, get_r_index}

-- `x` stands in the list.
abbrev pub Has : Bytes → List Bytes → Type 0
Has x l = (i : ℕ) × (get_elem? l i ≡ some x)

-- `x` stands before `y`.
abbrev pub IsBefore : Bytes → Bytes → List Bytes → Type 0
IsBefore x y l = (i : ℕ) × (j : ℕ) × (i < j) × (get_elem? l i ≡ some x) × (get_elem? l j ≡ some y)

-- No name stands twice.
abbrev pub IsDistinct : List Bytes → Type 0
IsDistinct l = (i j : ℕ) (x : Bytes) → get_elem? l i ≡ some x → get_elem? l j ≡ some x → i ≡ j

-- The second list holds the first, in order: `f` says where each element has gone.
pub record Grows (l l' : List Bytes) : Type 0 where
  pub place : ℕ → ℕ
  pub mono : (i j : ℕ) → i < j → place i < place j
  pub same : (i : ℕ) (x : Bytes) → get_elem? l i ≡ some x → get_elem? l' (place i) ≡ some x

scan_down-eq-some :
    (n : ℕ) (l : List Bytes) (x : Bytes) (i : ℕ) → scan_down n l x ≡ some i → get_elem? l i ≡ some x
unfolding scan_down
scan_down-eq-some zero l x i h = cc
scan_down-eq-some (suc n) l x i h = elim (Option-cases (get_elem? l n)) [
  | inl out ↦ scan_down-eq-some n l x i (ground arith)
  | inr (s, at_n) ↦ ground (arith, bytes_beq_iff s x, scan_down-eq-some n l x i)
]

scan_down-eq-none :
    (n : ℕ) (l : List Bytes) (x : Bytes) (i : ℕ)
    → scan_down n l x ≡ none
    → i < n
    → get_elem? l i ≢ some x
unfolding scan_down
scan_down-eq-none zero l x i h b = absurd (omega arith)
scan_down-eq-none (suc n) l x i h b = ground (arith, bytes_beq_iff x x, scan_down-eq-none n l x i)

scan_down-last :
    (n : ℕ) (l : List Bytes) (x : Bytes) (i j : ℕ)
    → scan_down n l x ≡ some i
    → i < j
    → j < n
    → get_elem? l j ≢ some x
unfolding scan_down
scan_down-last zero l x i j h lt b at_j = absurd (omega arith)
scan_down-last (suc n) l x i j h lt b at_j = elim (ℕ_discrete j n) [
  | yes e ↦
      let at_n : get_elem? l n ≡ some x = rw e at at_j in absurd (ground (arith, bytes_beq_iff x x))
  | no ne ↦ elim (Option-cases (get_elem? l n)) [
    | inl out ↦ scan_down-last n l x i j (ground arith) lt (omega arith) at_j
    | inr (s, at_n) ↦ elim (Bool-cases (s == x)) [
      | inl same ↦ absurd (ground arith)
      | inr other ↦ scan_down-last n l x i j (ground arith) lt (omega arith) at_j
    ]
  ]
]

-- an index found holds the name
pub get_r_index-eq-some :
    (l : List Bytes) (x : Bytes) (i : ℕ) → get_r_index l x ≡ some i → get_elem? l i ≡ some x
unfolding get_r_index
get_r_index-eq-some l x i h = scan_down-eq-some (length l) l x i h

-- and the name stands at none after it
pub get_r_index-last :
    (l : List Bytes) (x : Bytes) (i j : ℕ)
    → get_r_index l x ≡ some i
    → i < j
    → get_elem? l j ≢ some x
unfolding get_r_index
get_r_index-last l x i j h lt at_j =
    scan_down-last (length l) l x i j h lt (lt-length_of_get l j x at_j) at_j

-- a name not found stands nowhere
pub get_r_index-eq-none : (l : List Bytes) (x : Bytes) → get_r_index l x ≡ none → ¬ Has x l
unfolding get_r_index
get_r_index-eq-none l x h (i, at_i) =
    scan_down-eq-none (length l) l x i h (lt-length_of_get l i x at_i) at_i

pub get_r_index_of_Has :
    (l : List Bytes) (x : Bytes) → Has x l → (i : ℕ) × (get_r_index l x ≡ some i)
get_r_index_of_Has l x h = elim (Option-cases (get_r_index l x)) [
  | inl e ↦ absurd (get_r_index-eq-none l x e h)
  | inr p ↦ p
]

pub Grows-refl : (l : List Bytes) → Grows l l
Grows-refl l = record { place = λ i. i; mono = λ i j h. h; same = λ i x h. h }

pub Grows-trans : (l m n : List Bytes) → Grows l m → Grows m n → Grows l n
Grows-trans l m n f g = record {
  place = λ i. g.place (f.place i);
  mono = λ i j h. g.mono _ _ (f.mono i j h);
  same = λ i x h. g.same _ x (f.same i x h);
}

pub shift : ℕ → ℕ → ℕ
shift k i = if ltb i k then i else i + 1

shift_same :
    (k : ℕ) (v : Bytes) (l : List Bytes)
    → k ≤ length l
    → (i : ℕ) (x : Bytes) → get_elem? l i ≡ some x
    → get_elem? (insert_at k v l) (shift k i) ≡ some x
unfolding shift
shift_same k v l b i x h = elim (Bool-cases (ltb i k)) [
  | inl e ↦ rw (e, get_elem?-insert_lt k i v l (ground arith) b) h
  | inr e ↦
      let s : i + 1 ≡ suc i = omega arith in rw (e, s, get_elem?-insert_ge k i v l (ground arith)) h
]

shift_mono : (k i j : ℕ) → i < j → shift k i < shift k j
unfolding shift
shift_mono k i j h = ground arith

pub Grows-insert_at :
    (k : ℕ) (v : Bytes) (l : List Bytes) → k ≤ length l → Grows l (insert_at k v l)
Grows-insert_at k v l b = record { place = shift k; mono = shift_mono k; same = shift_same k v l b }

pub Grows-append : (v : Bytes) (l : List Bytes) → Grows l (l ++ v ∷ [])
Grows-append v l = rw insert_at-length (Grows-insert_at (length l) v l (omega arith))

pub Has-Grows : (x : Bytes) (l l' : List Bytes) → Grows l l' → Has x l → Has x l'
Has-Grows x l l' g (i, h) = (g.place i, g.same i x h)

pub IsBefore-Grows :
    (x y : Bytes) (l l' : List Bytes) → Grows l l' → IsBefore x y l → IsBefore x y l'
IsBefore-Grows x y l l' g (i, j, h, at_i, at_j) =
    (g.place i, g.place j, g.mono i j h, g.same i x at_i, g.same j y at_j)

-- What stands in a list with one more name: the new one, or an old one.
pub get_elem?-insert_cases :
    (k i : ℕ) (v x : Bytes) (l : List Bytes)
    → k ≤ length l
    → get_elem? (insert_at k v l) i ≡ some x
    → ((i ≡ k) × (x ≡ v)) ⊎ ((i' : ℕ) × (i ≡ shift k i') × (get_elem? l i' ≡ some x))
unfolding shift
get_elem?-insert_cases k i v x l b h = elim (dec_lt i k) [
  | yes lt ↦ inr (i, ground arith, rw (get_elem?-insert_lt k i v l lt b) at h)
  | no ge ↦ elim (ℕ_discrete i k) [
    | yes e ↦
        let h' : get_elem? (insert_at k v l) k ≡ some x = rw e at h in
        let h'' : some v ≡ some x = sym (get_elem?-insert_self k v l b) ∙ h' in inl (e, cc)
    | no ne ↦
        let s : i ≡ suc (i - 1) = omega arith in
        let h' : get_elem? (insert_at k v l) (suc (i - 1)) ≡ some x = rw s at h in
        inr (i - 1, ground arith, sym (get_elem?-insert_ge k (i - 1) v l (omega arith)) ∙ h')
  ]
]

pub Has-insert_at :
    (k : ℕ) (v x : Bytes) (l : List Bytes)
    → k ≤ length l
    → Has x (insert_at k v l)
    → (x ≡ v) ⊎ Has x l
Has-insert_at k v x l b (i, h) = elim (get_elem?-insert_cases k i v x l b h) [
  | inl (e, same) ↦ inl same
  | inr (i', e, old) ↦ inr (i', old)
]

pub IsDistinct-insert_at :
    (k : ℕ) (v : Bytes) (l : List Bytes)
    → k ≤ length l
    → ¬ Has v l
    → IsDistinct l
    → IsDistinct (insert_at k v l)
IsDistinct-insert_at k v l b new d i j x hi hj = elim (get_elem?-insert_cases k i v x l b hi) [
  | inl (e, same) ↦ elim (get_elem?-insert_cases k j v x l b hj) [
    | inl (e', same') ↦ omega arith
    | inr (j', e', old') ↦ absurd (new (j', rw (← same) old'))
  ]
  | inr (i', e, old) ↦ elim (get_elem?-insert_cases k j v x l b hj) [
    | inl (e', same') ↦ absurd (new (i', rw (← same') old))
    | inr (j', e', old') ↦ e ∙ ap (shift k) (d i' j' x old old') ∙ sym e'
  ]
]
