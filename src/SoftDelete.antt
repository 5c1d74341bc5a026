-- ===== src/SoftDelete.antt =====
-- soft_delete.go: what the clauses of a `DeletedAt` field do to a statement that reads, updates or deletes.
--
-- Of the statement there are the clauses, `Unscoped` and the SQL that is written. The primary keys that
-- `GetIdentityFieldValuesMap` reads by reflection are arguments, `none` where the code does not ask for
-- them, and so are the time and what `Build` writes of the clauses.
pub mod Meaning
pub mod Filter
pub mod Deletion
pub mod Missing
mod Tests
use pewter_rinse_moor.Prelude.{
  ℕ, suc, ltb, Bool, true, false, ◌&&◌, ◌||◌, not, Option, none, some, List, [], ◌∷◌, Bytes, codes,
  equal_bytes, ◌==◌, if◌then◌else◌,
}
use pewter_rinse_moor.Clause.{
  Value, Values, Quotable, Expression, Exprs, null, scalar, valuer, no_values, value, a_column,
  in_values, eq, and_conditions, no_exprs, and_then,
}
use pewter_rinse_moor.Clause.Writer.{current_table}
use pewter_rinse_moor.Clause.Conditions.{is_single_or, is_or}
use pewter_rinse_moor.Clause.Sections.{Section, where_section, set_section, update_section}
use pewter_rinse_moor.Clause.Merge.{
  Content, section, Clauses, no_clause, find_clause, set_clause, add_clause,
  add_clause_if_not_exists,
}
use pewter_rinse_moor.Clause.Added.{where_name, content_conditions}
use pewter_rinse_moor.Schema.Tags.{Settings, find_setting}

pub record Statement : Type 0 where
  pub clauses : Clauses
  pub unscoped : Bool
  pub sql : Bytes

-- `SoftDeleteQueryClause`; the field is its column.
pub record SoftDelete : Type 0 where
  pub zero_value : Option Bytes
  pub db_name : Bytes

-- `parseZeroValueTag`; `parses` is whether `now.Parse` takes the text
unfoldable pub parse_zero_value_tag : (Bytes → Bool) → Settings → Option Bytes
unfolding codes
parse_zero_value_tag parses tags = elim (find_setting (codes "ZEROVALUE") tags) [
  | none ↦ none
  | some v ↦ if parses v then some v else none
]

unfoldable pub flag_name : Bytes
unfolding codes
flag_name = codes "soft_delete_enabled"

-- what a `sql.NullString` is as a `driver.Valuer`
abbrev pub null_string : Option Bytes → Value
null_string none = valuer null
null_string (some s) = valuer (scalar s)

-- the condition that a row is not deleted
unfoldable pub not_deleted : SoftDelete → Expression
not_deleted sd =
    eq (a_column (record { table = current_table; name = sd.db_name; alias = []; raw = false }))
      (null_string sd.zero_value)

-- `clause.And(exprs...)`, which may be nil, in a slice of its own
abbrev pub and_of : Exprs → Exprs
and_of no_exprs = no_exprs
and_of (and_then e no_exprs) =
    if is_or e
    then and_then (and_conditions (and_then e no_exprs)) no_exprs
    else and_then e no_exprs
and_of es = and_then (and_conditions es) no_exprs

-- the test of the loop over the conditions
abbrev pub has_single_or : Exprs → Bool
has_single_or no_exprs = false
has_single_or (and_then e es) = is_single_or e || has_single_or es

-- the conditions of a WHERE clause that has an OR among them
abbrev pub ors_of : Option Content → Option Exprs
ors_of (some (section (where_section es))) = if has_single_or es then some es else none
ors_of _ = none

-- the WHERE clause with its conditions in a group
unfoldable pub group_where : Clauses → Clauses
group_where l = elim (find_clause where_name l) [
  | none ↦ l
  | some c ↦ elim (ors_of c.expression) [
    | none ↦ l
    | some es ↦
        set_clause where_name (record c { expression = some (section (where_section (and_of es))) })
          l
  ]
]

abbrev pub is_enabled : Clauses → Bool
is_enabled l = elim (find_clause flag_name l) [ none ↦ false | some c ↦ true ]

-- what is added for a scoped statement
unfoldable pub filtered : SoftDelete → Clauses → Clauses
filtered sd l =
    set_clause flag_name no_clause
      (add_clause (where_section (and_then (not_deleted sd) no_exprs)) (group_where l))

-- `SoftDeleteQueryClause.ModifyStatement`
unfoldable pub modify_query : SoftDelete → Statement → Statement
modify_query sd stmt =
    if is_enabled stmt.clauses || stmt.unscoped
    then stmt
    else record stmt { clauses = filtered sd stmt.clauses }

-- `SoftDeleteUpdateClause.ModifyStatement`
unfoldable pub modify_update : SoftDelete → Statement → Statement
modify_update sd stmt = if stmt.sql == [] && not stmt.unscoped then modify_query sd stmt else stmt

-- the column and the values that `ToQueryValues` makes of primary keys
abbrev pub Keys : Type 0
Keys = Quotable × Values

-- the condition on the keys, if there are any
abbrev pub key_conditions : Option Keys → Exprs
key_conditions none = no_exprs
key_conditions (some (q, no_values)) = no_exprs
key_conditions (some (q, value v vs)) = and_then (in_values q (value v vs)) no_exprs

unfoldable pub add_keys : Option Keys → Clauses → Clauses
add_keys none l = l
add_keys (some (q, no_values)) l = l
add_keys (some (q, value v vs)) l =
    add_clause (where_section (and_then (in_values q (value v vs)) no_exprs)) l

-- the assignment of the time
abbrev pub deletion_time : SoftDelete → Value → Section
deletion_time sd now = set_section (
    record {
      column = record { table = []; name = sd.db_name; alias = []; raw = false };
      value = now;
    }
    ∷ [])

-- the clauses before the filter: the time of the deletion, and the keys of `Dest` and of `Model`
unfoldable pub marked : SoftDelete → Value → Option Keys → Option Keys → Clauses → Clauses
marked sd now own model l = add_keys model (add_keys own (add_clause (deletion_time sd now) l))

-- `clause.Update{}`
abbrev pub plain_update : Section
plain_update =
    update_section (record { modifier = []; table = record { name = []; alias = []; raw = false } })

-- `SoftDeleteDeleteClause.ModifyStatement`
unfoldable pub modify_delete :
    (Clauses → Bytes) → SoftDelete → Value → Option Keys → Option Keys → Statement → Statement
modify_delete written sd now own model stmt =
    if stmt.sql == [] && not stmt.unscoped
    then (let s =
          modify_query sd (record stmt { clauses = marked sd now own model stmt.clauses }) in
        let l = add_clause_if_not_exists plain_update s.clauses in
        record s { clauses = l; sql = written l })
    else stmt

-- `len(exprs)`
abbrev pub count : Exprs → ℕ
count no_exprs = 0
count (and_then e es) = suc (count es)

-- whether `checkMissingWhereConditions` of callbacks/helper.go adds `ErrMissingWhereClause`
unfoldable pub is_where_missing : Bool → Bool → Clauses → Bool
is_where_missing allow_global_update has_error l =
    if allow_global_update || has_error then false else elim (find_clause where_name l) [
      | none ↦ true
      | some c ↦
          if is_enabled l then not (ltb 1 (count (content_conditions c.expression))) else false
    ]
