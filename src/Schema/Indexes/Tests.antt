-- ===== src/Schema/Indexes/Tests.antt =====
-- Runs of the parsing of indexes, with an insertion sort for `sort.Slice`, and the theorem at a concrete input.
use mathlib.Core.List.{Perm}
use mathlib.Core.List.Perm
use mathlib.Core.Path.{subst}
use pewter_rinse_moor.Prelude.{
  ◌≡◌, refl, ◌-◌, ◌++◌, Bool, true, false, List, [], ◌∷◌, Bytes, codes, arith, if◌then◌else◌,
  Bool-cases, inl, inr, ◌⊎◌, map, bytes_beq, none, some, Option,
}
use pewter_rinse_moor.Clause.Sections.{ℤ, pos, negsuc}
use pewter_rinse_moor.Clause.Conditions.{to_upper}
use pewter_rinse_moor.Schema.Texts.{split, join, trim_space}
use pewter_rinse_moor.Schema.Tags.{
  put_setting, find_setting, parse_tag_setting, add_tags, parsed_names, merge_names, unquote,
  add_values,
}
use pewter_rinse_moor.Schema.Indexes.{
  TaggedField, IndexOption, Index, is_less, parse_indexes, parse_fields, is_indexed,
  parse_field_indexes, parse_parts, parse_part, parse_index, described, classed, priority_of,
  composite_name, up_to, merge_indexes, merge_index, add_to, look_index, find_index, has_field,
}
use pewter_rinse_moor.Schema.Indexes.Merged.{named, IsSorted, all_parsed}
use pewter_rinse_moor.Schema.Indexes.Outcome.{IsUnion, parse_indexes-named}

abbrev insert : IndexOption → List IndexOption → List IndexOption
insert o [] = o ∷ []
insert o (p ∷ l) =
    let rest = insert o l in if is_less p.priority o.priority then p ∷ rest else o ∷ p ∷ l

abbrev insertion_sort : List IndexOption → List IndexOption
insertion_sort [] = []
insertion_sort (o ∷ l) = insert o (insertion_sort l)

insert-Perm : (o : IndexOption) (l : List IndexOption) → Perm (insert o l) (o ∷ l)
insert-Perm o [] = Perm.refl (o ∷ [])
insert-Perm o (p ∷ l) = elim (Bool-cases (is_less p.priority o.priority)) [
  | inl behind ↦ rw behind (Perm.trans (Perm.cons p (insert-Perm o l)) (Perm.swap o p l))
  | inr ahead ↦ rw ahead (Perm.refl (o ∷ p ∷ l))
]

insertion_sort-Perm : (l : List IndexOption) → Perm (insertion_sort l) l
insertion_sort-Perm [] = Perm.nil
insertion_sort-Perm (o ∷ l) =
    Perm.trans (insert-Perm o (insertion_sort l)) (Perm.cons o (insertion_sort-Perm l))

is_less_asymm : (a b : ℤ) → is_less a b ≡ true → is_less b a ≡ false
is_less_asymm (pos a) (pos b) h = ground arith
is_less_asymm (pos a) (negsuc b) h = absurd (ground arith)
is_less_asymm (negsuc a) (pos b) h = refl
is_less_asymm (negsuc a) (negsuc b) h = ground arith

insert-IsSorted : (o : IndexOption) (l : List IndexOption) → IsSorted l → IsSorted (insert o l)
insert-IsSorted o [] h = tt
insert-IsSorted o (p ∷ []) h = elim (Bool-cases (is_less p.priority o.priority)) [
  | inl behind ↦ rw behind (is_less_asymm p.priority o.priority behind, tt)
  | inr ahead ↦ rw ahead (ahead, tt)
]
insert-IsSorted o (p ∷ q ∷ l) (e, h) = elim (Bool-cases (is_less p.priority o.priority)) [
  | inr ahead ↦ rw ahead (ahead, (e, h))
  | inl behind ↦ elim (Bool-cases (is_less q.priority o.priority)) [
    | inl further ↦
        let rest : IsSorted (q ∷ insert o l) =
          subst (λ b. IsSorted (if b then q ∷ insert o l else o ∷ q ∷ l)) further
            (insert-IsSorted o (q ∷ l) h) in
        rw (behind, further) (e, rest)
    | inr between ↦ rw (behind, between) (is_less_asymm p.priority o.priority behind, (between, h))
  ]
]

insertion_sort-IsSorted : (l : List IndexOption) → IsSorted (insertion_sort l)
insertion_sort-IsSorted [] = tt
insertion_sort-IsSorted (o ∷ l) = insert-IsSorted o (insertion_sort l) (insertion_sort-IsSorted l)

-- a number of one digit
abbrev digit : Bytes → ℤ × Bool
digit (c ∷ []) = (pos (c - b'0'), true)
digit _ = (pos 0, false)

abbrev prefixed : Bytes → Bytes
unfolding codes
prefixed s = codes "idx_" ++ s

-- `gorm:"index:idx_a,priority:2"` and `gorm:"uniqueIndex:idx_a;index"`
abbrev two_fields : List TaggedField
unfolding codes
two_fields =
    record {
      name = codes "X";
      tag = codes "index:idx_a,priority:2";
      settings = (codes "INDEX", codes "idx_a,priority:2") ∷ [];
    }
    ∷ record {
      name = codes "Y";
      tag = codes "uniqueIndex:idx_a,priority:1;index";
      settings =
          (codes "UNIQUEINDEX", codes "idx_a,priority:1") ∷ (codes "INDEX", codes "INDEX") ∷ [];
    }
    ∷ []

parse_indexes-named_example :
    let described = named (codes "idx_a") (all_parsed digit prefixed two_fields) in
    let found = named (codes "idx_a") (parse_indexes digit prefixed insertion_sort two_fields).0 in
    ((described ≡ []) × (found ≡ [])) ⊎ ((i : Index) × (found ≡ i ∷ []) × IsUnion described i)
parse_indexes-named_example =
    parse_indexes-named digit prefixed insertion_sort (codes "idx_a") two_fields insertion_sort-Perm
      insertion_sort-IsSorted

two_parsed : (parse_indexes digit prefixed insertion_sort two_fields).1 ≡ false
unfolding parse_indexes parse_fields is_indexed parse_field_indexes parse_parts parse_part
    parse_index composite_name up_to split join trim_space to_upper parse_tag_setting add_tags
    parsed_names merge_names unquote add_values put_setting find_setting codes bytes_beq
two_parsed = refl

abbrev fields_of : Option Index → List Bytes
fields_of o = elim o [ none ↦ [] | some i ↦ i.class ∷ map (λ f. f.field) i.fields ]

-- `Y` stands before `X`, and the index is unique.
two_looked :
    fields_of (look_index digit prefixed insertion_sort (codes "idx_a") two_fields)
    ≡ codes "UNIQUE" ∷ codes "Y" ∷ codes "X" ∷ []
unfolding look_index find_index has_field merge_indexes merge_index add_to described classed
    priority_of parse_indexes parse_fields is_indexed parse_field_indexes parse_parts parse_part
    parse_index composite_name up_to split join trim_space to_upper parse_tag_setting add_tags
    parsed_names merge_names unquote add_values put_setting find_setting codes bytes_beq
two_looked = refl
