-- ===== src/Schema/Indexes/Merged.antt =====
-- schema/index.go: what becomes of the indexes that the tags describe when those of one name are merged.
use mathlib.Core.Path.{subst}
use pewter_rinse_moor.Prelude.{
  ◌≡◌, refl, ap, ◌∙◌, Bool, true, false, none, some, List, [], ◌∷◌, ◌++◌, Bytes, equal_bytes, ◌==◌,
  if◌then◌else◌, bytes_beq_iff, bytes_beq_refl, Bool-cases, inl, inr,
}
use pewter_rinse_moor.Clause.Sections.{ℤ}
use pewter_rinse_moor.Schema.Indexes.{
  TaggedField, IndexOption, Index, is_less, or_text, parse_field_indexes, add_to, new_index,
  merge_index, merge_indexes, is_indexed,
}

-- the indexes of a name
abbrev pub named : Bytes → List Index → List Index
named n [] = []
named n (i ∷ l) = let rest = named n l in if i.name == n then i ∷ rest else rest

-- the fields of indexes
abbrev pub options_of : List Index → List IndexOption
options_of [] = []
options_of (i ∷ l) = i.fields ++ options_of l

-- the first text that is not empty
abbrev pub first_text : (Index → Bytes) → List Index → Bytes
first_text f [] = []
first_text f (i ∷ l) = or_text (f i) (first_text f l)

-- No field stands behind one of a higher priority.
abbrev pub IsSorted : List IndexOption → Type 0
IsSorted [] = Unit
IsSorted (o ∷ []) = Unit
IsSorted (o ∷ p ∷ l) = (is_less p.priority o.priority ≡ false) × IsSorted (p ∷ l)

module _ (atoi : Bytes → ℤ × Bool) (index_name : Bytes → Bytes) where
  -- the indexes that the tags describe, to the first error
  abbrev pub all_parsed : List TaggedField → List Index
  all_parsed [] = []
  all_parsed (f ∷ fs) = elim (is_indexed f) [
    | false ↦ all_parsed fs
    | true ↦ elim (parse_field_indexes atoi index_name f) [
      | none ↦ []
      | some is ↦ is ++ all_parsed fs
    ]
  ]

module _ (sort_slice : List IndexOption → List IndexOption) where
  -- indexes of one name, added one after the other
  abbrev pub add_all : Index → List Index → Index
  add_all idx [] = idx
  add_all idx (i ∷ l) = add_all (add_to sort_slice idx i) l

  abbrev pub merged : Bytes → List Index → List Index
  merged n [] = []
  merged n (i ∷ l) = add_all (new_index n) (i ∷ l) ∷ []

  named-merge_other :
      (n : Bytes) (i : Index) (l : List Index)
      → (i.name == n) ≡ false
      → named n (merge_index sort_slice i l) ≡ named n l
  unfolding merge_index add_to
  named-merge_other n i [] h = rw h refl
  named-merge_other n i (j ∷ l) h = elim (Bool-cases (j.name == i.name)) [
    | inl same ↦
        let this : (j.name == n) ≡ false =
          ap (λ z. z == n) ((bytes_beq_iff j.name i.name).0 same) ∙ h in
        rw (same, h, this) refl
    | inr apart ↦ rw (apart, named-merge_other n i l h) refl
  ]

  -- the list with an index added to its first element
  abbrev pub added_first : Index → List Index → List Index
  added_first i [] = add_to sort_slice (new_index i.name) i ∷ []
  added_first i (j ∷ l) = add_to sort_slice j i ∷ l

  named-merge_same :
      (i : Index) (l : List Index)
      → named i.name (merge_index sort_slice i l) ≡ added_first i (named i.name l)
  unfolding merge_index add_to
  named-merge_same i [] = rw (bytes_beq_refl i.name) refl
  named-merge_same i (j ∷ l) = elim (Bool-cases (j.name == i.name)) [
    | inl same ↦ rw (same, bytes_beq_refl i.name) refl
    | inr apart ↦ rw (apart, apart) (named-merge_same i l)
  ]

  -- the indexes of a name, and more of that name that are added to the first
  abbrev pub continued : List Index → Bytes → List Index → List Index
  continued [] n qs = merged n qs
  continued (i ∷ l) n qs = add_all i qs ∷ l

  continued-added :
      (p : Index) (is qs : List Index)
      → continued (added_first p is) p.name qs ≡ continued is p.name (p ∷ qs)
  continued-added p [] qs = refl
  continued-added p (i ∷ is) qs = refl

  continued-none : (l : List Index) (n : Bytes) → l ≡ continued l n []
  continued-none [] n = refl
  continued-none (i ∷ l) n = refl

  pub named-merge_indexes :
      (n : Bytes) (ps l : List Index)
      → named n (merge_indexes sort_slice ps l) ≡ continued (named n l) n (named n ps)
  unfolding merge_indexes
  named-merge_indexes n [] l = continued-none (named n l) n
  named-merge_indexes n (p ∷ ps) l = elim (Bool-cases (p.name == n)) [
    | inl same ↦
        let name : p.name ≡ n = (bytes_beq_iff p.name n).0 same in
        rw (same, named-merge_indexes n ps (merge_index sort_slice p l))
          (subst
            (λ m.
              continued (named m (merge_index sort_slice p l)) m (named n ps)
              ≡ continued (named m l) m (p ∷ named n ps))
            name
            (ap (λ x. continued x p.name (named n ps)) (named-merge_same p l)
              ∙ continued-added p (named p.name l) (named n ps)))
    | inr apart ↦
        rw
          (
            apart,
            named-merge_indexes n ps (merge_index sort_slice p l),
            named-merge_other n p l apart,
          )
          refl
  ]
