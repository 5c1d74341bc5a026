-- ===== src/Schema/Indexes.antt =====
-- schema/index.go: the indexes that the tags of the fields of a schema ask for. The naming strategy's
-- `IndexName` for the schema's table, `strconv.Atoi` (the number, and whether there is no error) and `sort.Slice` are
-- arguments. The slice of the indexes and the map of them by name hold the same indexes, which are one list.
pub mod Merged
pub mod Outcome
mod Tests
use pewter_rinse_moor.Prelude.{
  ℕ, Bool, true, false, not, ◌&&◌, ◌||◌, ltb, Option, none, some, List, [], ◌∷◌, ◌++◌, Bytes, codes,
  equal_bytes, equal_numbers, ◌==◌, if◌then◌else◌,
}
use pewter_rinse_moor.Clause.Conditions.{to_upper}
use pewter_rinse_moor.Clause.Sections.{ℤ, pos, negsuc}
use pewter_rinse_moor.Schema.Texts.{split, join, trim_space}
use pewter_rinse_moor.Schema.Tags.{Settings, put_setting, find_setting, parse_tag_setting}

-- of a `Field`, its name, its tag for `gorm` and the settings of it
pub record TaggedField : Type 0 where
  pub name : Bytes
  pub tag : Bytes
  pub settings : Settings

-- the field by its name
pub record IndexOption : Type 0 where
  pub field : Bytes
  pub expression : Bytes
  pub sort : Bytes
  pub collate : Bytes
  pub length : ℤ
  pub priority : ℤ

pub record Index : Type 0 where
  pub name : Bytes
  pub class : Bytes
  pub kind : Bytes
  pub condition : Bytes
  pub comment : Bytes
  pub parser : Bytes
  pub fields : List IndexOption

-- `settings[k]`, which is empty where it is not there
abbrev pub value_of : Bytes → Settings → Bytes
value_of k settings = elim (find_setting k settings) [ none ↦ [] | some v ↦ v ]

-- `tag[0:idx]` for the place of the first such byte, or all of the tag
unfoldable pub up_to : ℕ → Bytes → Bytes
up_to c [] = []
up_to c (x ∷ s) = let rest = up_to c s in if x == c then [] else x ∷ rest

-- `parts[1:]`
abbrev pub tail : {A : Type 0} → List A → List A
tail [] = []
tail (p ∷ ps) = ps

abbrev pub head : List Bytes → Bytes
head [] = []
head (p ∷ ps) = p

-- the order of Go's int
abbrev pub is_less : ℤ → ℤ → Bool
is_less (pos a) (pos b) = ltb a b
is_less (pos a) (negsuc b) = false
is_less (negsuc a) (pos b) = true
is_less (negsuc a) (negsuc b) = ltb b a

-- a text, or another one where it is empty
abbrev pub or_text : Bytes → Bytes → Bytes
or_text [] new = new
or_text (c ∷ s) new = c ∷ s

-- `settings["CLASS"] = "UNIQUE"`, where the index is unique
unfoldable pub classed : Bytes → Settings → Settings
unfolding codes
classed k settings =
    if k == codes "UNIQUEINDEX" || not (value_of (codes "UNIQUE") settings == [])
    then put_setting (codes "CLASS") (codes "UNIQUE") settings
    else settings

-- `&Index{Name: name}`
abbrev pub new_index : Bytes → Index
new_index name = record {
  name = name;
  class = [];
  kind = [];
  condition = [];
  comment = [];
  parser = [];
  fields = [];
}

-- whether the tag asks for an index
unfoldable pub is_indexed : TaggedField → Bool
unfolding codes
is_indexed f =
    not (value_of (codes "INDEX") f.settings == [])
    || not (value_of (codes "UNIQUEINDEX") f.settings == [])

-- the fields that get a `UniqueIndex`, with its name
unfoldable pub unique_indexes : List Index → List (Bytes × Bytes)
unfolding codes
unique_indexes [] = []
unique_indexes (i ∷ l) =
    let rest = unique_indexes l in
    if i.class == codes "UNIQUE"
    then elim i.fields [
      | [] ↦ rest
      | o ∷ os ↦ elim os [ [] ↦ (o.field, i.name) ∷ rest | p ∷ ps ↦ rest ]
    ]
    else rest

unfoldable pub has_field : Bytes → List IndexOption → Bool
has_field name [] = false
has_field name (o ∷ os) = o.field == name || has_field name os

unfoldable pub find_index : Bytes → List Index → Option Index
find_index name [] = none
find_index name (i ∷ l) =
    let rest = find_index name l in
    if i.name == name || has_field name i.fields then some i else rest

module _ (sort_slice : List IndexOption → List IndexOption) where
  -- an index with what another one of its name adds
  unfoldable pub add_to : Index → Index → Index
  add_to idx index = record {
    name = index.name;
    class = or_text idx.class index.class;
    kind = or_text idx.kind index.kind;
    condition = or_text idx.condition index.condition;
    comment = or_text idx.comment index.comment;
    parser = or_text idx.parser index.parser;
    fields = sort_slice (idx.fields ++ index.fields);
  }

  unfoldable pub merge_index : Index → List Index → List Index
  merge_index index [] = add_to (new_index index.name) index ∷ []
  merge_index index (idx ∷ l) =
      let rest = merge_index index l in
      if idx.name == index.name then add_to idx index ∷ l else idx ∷ rest

  -- the loop over the indexes of a field
  unfoldable pub merge_indexes : List Index → List Index → List Index
  merge_indexes [] l = l
  merge_indexes (index ∷ is) l = merge_indexes is (merge_index index l)

module _ (atoi : Bytes → ℤ × Bool) (index_name : Bytes → Bytes) where
  -- the name where the tag has none; no name where the composite one is empty
  unfoldable pub composite_name : Bytes → Settings → Option Bytes
  unfolding codes
  composite_name field settings = elim (find_setting (codes "COMPOSITE") settings) [
    | none ↦ some (index_name field)
    | some c ↦ if c == [] || c == codes "COMPOSITE" then none else some (index_name c)
  ]

  abbrev pub tag_name : Bytes → Bytes → Settings → Option Bytes
  tag_name [] field settings = composite_name field settings
  tag_name (c ∷ s) field settings = some (c ∷ s)

  -- the priority, 10 where it is no number
  unfoldable pub priority_of : Settings → ℤ
  unfolding codes
  priority_of settings =
      let (n, ok) : ℤ × Bool = atoi (value_of (codes "PRIORITY") settings) in
      if ok then n else pos 10

  -- the index with this name that settings describe
  unfoldable pub described : Bytes → Bytes → Settings → Index
  unfolding codes
  described name field settings = record {
    name = name;
    class = value_of (codes "CLASS") settings;
    kind = value_of (codes "TYPE") settings;
    condition = value_of (codes "WHERE") settings;
    comment = value_of (codes "COMMENT") settings;
    parser = value_of (codes "OPTION") settings;
    fields =
        record {
          field = field;
          expression = value_of (codes "EXPRESSION") settings;
          sort = value_of (codes "SORT") settings;
          collate = value_of (codes "COLLATE") settings;
          length = (atoi (value_of (codes "LENGTH") settings)).0;
          priority = priority_of settings;
        }
        ∷ [];
  }

  -- the index of one part of a tag, the key and the rest of which are given; `none` is the error
  unfoldable pub parse_index : Bytes → Bytes → Bytes → Option Index
  parse_index field k tag =
      let settings = parse_tag_setting (join b',' (tail (split b',' tag))) b',' in
      elim (tag_name (up_to b',' tag) field settings) [
        | none ↦ none
        | some name ↦ some (described name field (classed k settings))
      ]

  -- the indexes of one part of a tag
  unfoldable pub parse_part : Bytes → Bytes → Option (List Index)
  unfolding codes
  parse_part field value =
      let v = split b':' value in
      let k = trim_space (to_upper (head v)) in
      if not (value == []) && (k == codes "INDEX" || k == codes "UNIQUEINDEX")
      then elim (parse_index field k (join b':' (tail v))) [ none ↦ none | some i ↦ some (i ∷ []) ]
      else some []

  unfoldable pub parse_parts : Bytes → List Bytes → Option (List Index)
  parse_parts field [] = some []
  parse_parts field (value ∷ values) = elim (parse_part field value) [
    | none ↦ none
    | some is ↦ elim (parse_parts field values) [ none ↦ none | some js ↦ some (is ++ js) ]
  ]

  -- `parseFieldIndexes`
  unfoldable pub parse_field_indexes : TaggedField → Option (List Index)
  parse_field_indexes f = parse_parts f.name (split b';' f.tag)

  module _ (sort_slice : List IndexOption → List IndexOption) where
    -- the loop over the fields, with whether it ends with an error
    unfoldable pub parse_fields : List TaggedField → List Index → List Index × Bool
    parse_fields [] l = (l, false)
    parse_fields (f ∷ fs) l = elim (is_indexed f) [
      | false ↦ parse_fields fs l
      | true ↦ elim (parse_field_indexes f) [
        | none ↦ (l, true)
        | some is ↦ parse_fields fs (merge_indexes sort_slice is l)
      ]
    ]

    -- `ParseIndexes`, the indexes and whether the schema has an error
    unfoldable pub parse_indexes : List TaggedField → List Index × Bool
    parse_indexes fs = parse_fields fs []

    -- `LookIndex` of a schema
    unfoldable pub look_index : Bytes → List TaggedField → Option Index
    look_index name fs = find_index name (parse_indexes fs).0
