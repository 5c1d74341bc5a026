-- ===== src/Columns.antt =====
-- `SelectAndOmitColumns` of statement.go, with `LookUpField` of schema/schema.go: the columns that an operation
-- writes or leaves out.
--
-- `matchName` is a regular expression: an argument. A map from columns to Booleans is a function. The fields of a
-- schema are in a list, in the order in which Go goes through its map.
pub mod Outcome
mod Tests
use pewter_rinse_moor.Prelude.{
  Bool, true, false, not, ◌&&◌, ◌||◌, Option, none, some, List, [], ◌∷◌, ◌++◌, Bytes, codes,
  equal_bytes, ◌==◌, if◌then◌else◌,
}
use pewter_rinse_moor.Schema.Naming.{Words, NamingStrategy, column_name}

-- `Field`, as far as it is used here
pub record Field : Type 0 where
  pub name : Bytes
  pub db_name : Bytes
  pub creatable : Bool
  pub updatable : Bool

-- `Schema`, likewise
pub record Schema : Type 0 where
  pub table : Bytes
  pub db_names : List Bytes
  pub relations : List Bytes
  pub fields_by_name : List (Bytes × Field)
  pub fields_by_db_name : List (Bytes × Field)
  pub namer : Option (Words × NamingStrategy)

abbrev pub find_field : List (Bytes × Field) → Bytes → Option Field
find_field [] name = none
find_field ((k, f) ∷ l) name = let rest = find_field l name in if k == name then some f else rest

abbrev pub or_else : Option Field → Option Field → Option Field
or_else none g = g
or_else (some f) g = some f

-- `LookUpField`
unfoldable pub look_up_field : Schema → Bytes → Option Field
look_up_field schema name = or_else (find_field schema.fields_by_db_name name) (
    or_else (find_field schema.fields_by_name name) (elim schema.namer [
      | none ↦ none
      | some (words, ns) ↦
          find_field schema.fields_by_db_name (column_name words ns schema.table name)
    ]))

-- `clause.Associations`
unfoldable pub associations : Bytes
unfolding codes
associations = codes "~~~as~~~"

unfoldable pub star : Bytes
unfolding codes
star = codes "*"

-- the test for a field with a column
abbrev pub column_of : Option Field → Option Bytes
column_of none = none
column_of (some f) = if f.db_name == [] then none else some f.db_name

-- What a column is by its form: `table.column` with a table that is this one or missing, a star or a name.
unfoldable pub matched : Bytes → Schema → Bytes × Bytes → Bytes → List Bytes
matched stmt_table schema (table, col) column =
    if not (col == []) && (table == stmt_table || table == [])
    then (if col == star then schema.db_names else col ∷ [])
    else column ∷ []

-- the keys that `processColumn` writes
unfoldable pub targets : (Bytes → Bytes × Bytes) → Bytes → Option Schema → Bytes → List Bytes
targets match_name stmt_table none column = column ∷ []
targets match_name stmt_table (some schema) column =
    if column == star
    then schema.db_names
    else (if column == associations
        then schema.relations
        else elim (column_of (look_up_field schema column)) [
          | some name ↦ name ∷ []
          | none ↦ matched stmt_table schema (match_name column) column
        ])

-- `results`
abbrev pub Results : Type 0
Results = Bytes → Option Bool

abbrev pub put_all : List Bytes → Bool → Results → Results
put_all [] v m = m
put_all (k ∷ ks) v m = put_all ks v (λ c. if c == k then some v else m c)

-- `results` and `notRestricted`
pub record Selected : Type 0 where
  pub results : Results
  pub not_restricted : Bool

abbrev pub is_some_schema : Option Schema → Bool
is_some_schema none = false
is_some_schema (some schema) = true

-- the name under which a field is denied
abbrev pub name_of : Field → Bytes
name_of f = if f.db_name == [] then f.name else f.db_name

abbrev pub is_denied : Bool → Bool → Field → Bool
is_denied require_create require_update f =
    (require_create && not f.creatable) || (require_update && not f.updatable)

-- the loop over the fields
unfoldable pub deny_fields : Bool → Bool → List (Bytes × Field) → Results → Results
deny_fields require_create require_update [] m = m
deny_fields require_create require_update ((k, f) ∷ fs) m =
    deny_fields require_create require_update fs (
      if is_denied require_create require_update f
      then (λ c. if c == name_of f then some false else m c)
      else m)

abbrev pub fields_of : Option Schema → List (Bytes × Field)
fields_of none = []
fields_of (some s) = s.fields_by_name

abbrev pub is_empty : List Bytes → Bool
is_empty [] = true
is_empty (c ∷ cs) = false

module _ (match_name : Bytes → Bytes × Bytes) (stmt_table : Bytes) (schema : Option Schema) where
  -- `processColumn`
  unfoldable pub process_column : Bytes → Bool → Selected → Selected
  process_column column result s = record {
    results = put_all (targets match_name stmt_table schema column) result s.results;
    not_restricted = if is_some_schema schema && column == star then result else s.not_restricted;
  }

  -- a loop over columns
  unfoldable pub process_columns : List Bytes → Bool → Selected → Selected
  process_columns [] result s = s
  process_columns (c ∷ cs) result s = process_columns cs result (process_column c result s)

  -- `SelectAndOmitColumns`
  unfoldable pub select_and_omit_columns : Bool → Bool → List Bytes → List Bytes → Results × Bool
  select_and_omit_columns require_create require_update selects omits =
      let empty : Selected = record { results = λ c. none; not_restricted = false } in
      let s = process_columns omits false (process_columns selects true empty) in
      (
        deny_fields require_create require_update (fields_of schema) s.results,
        not s.not_restricted && not (is_empty selects),
      )
