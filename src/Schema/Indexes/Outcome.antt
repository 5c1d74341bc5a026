-- ===== src/Schema/Indexes/Outcome.antt =====
-- schema/index.go: the indexes that `ParseIndexes` returns, against the ones that the tags describe.
use mathlib.Core.List.{Perm}
use mathlib.Core.List.Perm
use pewter_rinse_moor.Prelude.{
  ◌≡◌, refl, sym, ap, ◌∙◌, Bool, List, [], ◌∷◌, ◌++◌, append_assoc, append-nil, Bytes, Bool-cases,
  Option-cases, inl, inr, ◌⊎◌,
}
use pewter_rinse_moor.Clause.Sections.{ℤ}
use pewter_rinse_moor.Schema.Indexes.{
  TaggedField, IndexOption, Index, or_text, parse_field_indexes, add_to, new_index, merge_indexes,
  is_indexed, parse_fields, parse_indexes,
}
use pewter_rinse_moor.Schema.Indexes.Merged.{
  named, options_of, first_text, IsSorted, all_parsed, add_all, merged, named-merge_indexes,
}

-- An index is what the indexes of a name come to: its fields are theirs, in the order of their priorities,
-- and of each attribute it has the first that is not empty.
pub record IsUnion (ps : List Index) (i : Index) : Type 0 where
  pub fields : Perm i.fields (options_of ps)
  pub in_order : IsSorted i.fields
  pub class : i.class ≡ first_text (λ p. p.class) ps
  pub kind : i.kind ≡ first_text (λ p. p.kind) ps
  pub condition : i.condition ≡ first_text (λ p. p.condition) ps
  pub comment : i.comment ≡ first_text (λ p. p.comment) ps
  pub parser : i.parser ≡ first_text (λ p. p.parser) ps

or_text_assoc : (a b c : Bytes) → or_text (or_text a b) c ≡ or_text a (or_text b c)
or_text_assoc [] b c = refl
or_text_assoc (x ∷ a) b c = refl

or_text-nil : (a : Bytes) → or_text a [] ≡ a
or_text-nil [] = refl
or_text-nil (x ∷ a) = refl

module _ (sort_slice : List IndexOption → List IndexOption)
    (permutes : (l : List IndexOption) → Perm (sort_slice l) l)
    (sorts : (l : List IndexOption) → IsSorted (sort_slice l)) where
  add_all-fields :
      (i : Index) (ps : List Index)
      → Perm (add_all sort_slice i ps).fields (i.fields ++ options_of ps)
  unfolding add_to
  add_all-fields i [] = rw (append-nil i.fields) (Perm.refl i.fields)
  add_all-fields i (p ∷ ps) = Perm.trans (add_all-fields (add_to sort_slice i p) ps) (
      rw (sym (append_assoc i.fields p.fields (options_of ps)))
        (Perm.append_right (options_of ps) (permutes (i.fields ++ p.fields))))

  add_all-IsSorted :
      (i : Index) (ps : List Index) → IsSorted i.fields → IsSorted (add_all sort_slice i ps).fields
  unfolding add_to
  add_all-IsSorted i [] h = h
  add_all-IsSorted i (p ∷ ps) h =
      add_all-IsSorted (add_to sort_slice i p) ps (sorts (i.fields ++ p.fields))

  add_all-text :
      (f : Index → Bytes) (i : Index) (ps : List Index)
      → ((j p : Index) → f (add_to sort_slice j p) ≡ or_text (f j) (f p))
      → f (add_all sort_slice i ps) ≡ or_text (f i) (first_text f ps)
  add_all-text f i [] h = sym (or_text-nil (f i))
  add_all-text f i (p ∷ ps) h =
      add_all-text f (add_to sort_slice i p) ps h
      ∙ ap (λ t. or_text t (first_text f ps)) (h i p)
      ∙ or_text_assoc (f i) (f p) (first_text f ps)

  merged-IsUnion : (n : Bytes) (ps : List Index) → IsUnion ps (add_all sort_slice (new_index n) ps)
  unfolding add_to
  merged-IsUnion n ps = record {
    fields = add_all-fields (new_index n) ps;
    in_order = add_all-IsSorted (new_index n) ps tt;
    class = add_all-text (λ p. p.class) (new_index n) ps (λ j p. refl);
    kind = add_all-text (λ p. p.kind) (new_index n) ps (λ j p. refl);
    condition = add_all-text (λ p. p.condition) (new_index n) ps (λ j p. refl);
    comment = add_all-text (λ p. p.comment) (new_index n) ps (λ j p. refl);
    parser = add_all-text (λ p. p.parser) (new_index n) ps (λ j p. refl);
  }

merge_indexes-append :
    (sort_slice : List IndexOption → List IndexOption) (is js l : List Index)
    → merge_indexes sort_slice (is ++ js) l
      ≡ merge_indexes sort_slice js (merge_indexes sort_slice is l)
unfolding merge_indexes
merge_indexes-append sort_slice [] js l = refl
merge_indexes-append sort_slice (i ∷ is) js l = merge_indexes-append sort_slice is js _

module _ (atoi : Bytes → ℤ × Bool) (index_name : Bytes → Bytes)
    (sort_slice : List IndexOption → List IndexOption) where
  parse_fields-merged :
      (fs : List TaggedField) (l : List Index)
      → (parse_fields atoi index_name sort_slice fs l).0
        ≡ merge_indexes sort_slice (all_parsed atoi index_name fs) l
  unfolding parse_fields merge_indexes
  parse_fields-merged [] l = refl
  parse_fields-merged (f ∷ fs) l = elim (Bool-cases (is_indexed f)) [
    | inr plain ↦ rw (parse_fields, all_parsed, plain) (parse_fields-merged fs l)
    | inl indexed ↦ elim (Option-cases (parse_field_indexes atoi index_name f)) [
      | inl failed ↦ rw (parse_fields, all_parsed, indexed, failed) refl
      | inr (is, parsed) ↦
          rw (parse_fields, all_parsed, indexed, parsed)
            (parse_fields-merged fs _ ∙ sym (merge_indexes-append sort_slice is _ l))
    ]
  ]

  merged-named :
      (n : Bytes) (ps : List Index)
      → ((l : List IndexOption) → Perm (sort_slice l) l)
      → ((l : List IndexOption) → IsSorted (sort_slice l))
      → ((ps ≡ []) × (merged sort_slice n ps ≡ []))
        ⊎ ((i : Index) × (merged sort_slice n ps ≡ i ∷ []) × IsUnion ps i)
  merged-named n [] permutes sorts = inl (refl, refl)
  merged-named n (p ∷ ps) permutes sorts =
      inr (_, refl, merged-IsUnion sort_slice permutes sorts n (p ∷ ps))

  -- `ParseIndexes`, where `sort.Slice` sorts by priority what it is given. Of each name there is one index if
  -- the tags of the fields, to the first error, describe some of that name, and none otherwise. The index
  -- has all their fields, in the order of their priorities, and of the class, type, WHERE, comment and
  -- option the first that is not empty.
  pub parse_indexes-named :
      (n : Bytes) (fs : List TaggedField)
      → ((l : List IndexOption) → Perm (sort_slice l) l)
      → ((l : List IndexOption) → IsSorted (sort_slice l))
      → let described = named n (all_parsed atoi index_name fs) in
        let found = named n (parse_indexes atoi index_name sort_slice fs).0 in
        ((described ≡ []) × (found ≡ [])) ⊎ ((i : Index) × (found ≡ i ∷ []) × IsUnion described i)
  unfolding parse_indexes
  parse_indexes-named n fs permutes sorts =
      rw
        (
          parse_fields-merged fs [],
          named-merge_indexes sort_slice n (all_parsed atoi index_name fs) [],
        )
        (merged-named n (named n (all_parsed atoi index_name fs)) permutes sorts)
