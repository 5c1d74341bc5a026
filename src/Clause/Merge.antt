-- ===== src/Clause/Merge.antt =====
-- The `MergeClause` methods of clause/*.go, the `Clause` that they fill, and `AddClause` and
-- `AddClauseIfNotExists` of statement.go.
use pewter_rinse_moor.Prelude.{
  zero, suc, Bool, true, false, ◌&&◌, Option, none, some, List, [], ◌∷◌, ◌++◌, Bytes, codes,
  equal_bytes, ◌==◌, if◌then◌else◌,
}
use pewter_rinse_moor.Clause.{Column, Expression, Exprs, expr, no_exprs, and_then}
use pewter_rinse_moor.Clause.Writer.{Action}
use pewter_rinse_moor.Clause.Sections.{
  ℤ, pos, negsuc, Limit, OrderByColumn, OrderBy, GroupBy, Insert, Update, Select, Returning,
  Section, where_section, limit_section, order_by_section, group_by_section, insert_section,
  update_section, values_section, select_section, returning_section, delete_section, section_name,
}

-- What a clause's `Expression` holds: a section, or an expression of another type.
pub data Content : Type 0 where
  section : Section → Content
  plain : Expression → Content

-- `Clause`; of its `Builder`, a function of the caller's, there is what it does to a statement.
pub record Clause : Type 0 where
  pub name : Bytes
  pub before_expression : Option Expression
  pub after_name_expression : Option Expression
  pub after_expression : Option Expression
  pub expression : Option Content
  pub builder : Option Action

abbrev pub is_zero : ℤ → Bool
is_zero (pos zero) = true
is_zero _ = false

abbrev pub is_positive : ℤ → Bool
is_positive (pos (suc n)) = true
is_positive _ = false

abbrev pub is_negative : ℤ → Bool
is_negative (negsuc n) = true
is_negative _ = false

abbrev pub append_exprs : Exprs → Exprs → Exprs
append_exprs no_exprs fs = fs
append_exprs (and_then e es) fs = and_then e (append_exprs es fs)

-- the limit, where the new one is nil or zero
unfoldable pub merge_number : Option ℤ → Option ℤ → Option ℤ
merge_number none old = old
merge_number (some n) none = some n
merge_number (some n) (some m) = if is_zero n then some m else some n

unfoldable pub merge_offset : ℤ → ℤ → ℤ
merge_offset n old =
    if is_zero n && is_positive old then old else if is_negative n then pos 0 else n

unfoldable pub merge_limit : Limit → Limit → Limit
merge_limit l old = record {
  limit = merge_number l.limit old.limit;
  offset = merge_offset l.offset old.offset;
}

-- the columns from the last one that reorders, as the loop from the end finds them
unfoldable pub from_reorder : List OrderByColumn → Option (List OrderByColumn)
from_reorder [] = none
from_reorder (c ∷ cs) = elim (from_reorder cs) [
  | some l ↦ some l
  | none ↦ if c.reorder then some (c ∷ cs) else none
]

unfoldable pub merge_order_by : OrderBy → OrderBy → OrderBy
merge_order_by o old = elim (from_reorder o.columns) [
  | some l ↦ record o { columns = l }
  | none ↦ record o { columns = old.columns ++ o.columns }
]

unfoldable pub merge_group_by : GroupBy → GroupBy → GroupBy
merge_group_by g old = record {
  columns = old.columns ++ g.columns;
  having = append_exprs old.having g.having;
}

unfoldable pub merge_insert : Insert → Insert → Insert
merge_insert i old = record {
  table = if i.table.name == [] then old.table else i.table;
  modifier = if i.modifier == [] then old.modifier else i.modifier;
}

unfoldable pub merge_update : Update → Update → Update
merge_update u old = record {
  modifier = if u.modifier == [] then old.modifier else u.modifier;
  table = if u.table.name == [] then old.table else u.table;
}

-- DISTINCT goes into a raw expression.
unfoldable pub merge_distinct : Bool → Expression → Expression
unfolding codes
merge_distinct true (expr sql vars bare) = expr (codes "DISTINCT " ++ sql) vars bare
merge_distinct distinct e = e

-- `Select.MergeClause` leaves an expression of its own.
unfoldable pub merge_select : Select → Content
merge_select s = elim s.expression [
  | none ↦ section (select_section s)
  | some e ↦ plain (merge_distinct s.distinct e)
]

-- the columns, where some are new
unfoldable pub merge_columns : Option (List Column) → List Column → Option (List Column)
merge_columns none new = none
merge_columns (some old) new = some (old ++ new)

-- The source appends to the columns in place, which is seen where another statement shares their array; this
-- is the statement's own value.
unfoldable pub merge_returning : Returning → Returning → Returning
merge_returning r old = elim r.columns [
  | none ↦ r
  | some cs ↦ elim cs [ [] ↦ r | c ∷ l ↦ record { columns = merge_columns old.columns (c ∷ l) } ]
]

-- the content that the `MergeClause` of a section leaves, given the clause's
unfoldable pub merge_content : Section → Option Content → Content
merge_content (where_section es) (some (section (where_section old))) =
    section (where_section (append_exprs old es))
merge_content (limit_section l) (some (section (limit_section old))) =
    section (limit_section (merge_limit l old))
merge_content (order_by_section o) (some (section (order_by_section old))) =
    section (order_by_section (merge_order_by o old))
merge_content (group_by_section g) (some (section (group_by_section old))) =
    section (group_by_section (merge_group_by g old))
merge_content (insert_section i) (some (section (insert_section old))) =
    section (insert_section (merge_insert i old))
merge_content (update_section u) (some (section (update_section old))) =
    section (update_section (merge_update u old))
merge_content (returning_section r) (some (section (returning_section old))) =
    section (returning_section (merge_returning r old))
merge_content (select_section s) c = merge_select s
merge_content s c = section s

-- a section's name, unless there are no columns
unfoldable pub name_or_none : Section → List Column → Bytes
name_or_none s [] = []
name_or_none s (c ∷ cs) = section_name s

-- the name that it leaves
unfoldable pub merge_name : Section → Content → Bytes → Bytes
merge_name (limit_section l) c name = []
merge_name (values_section v) c name = []
merge_name (delete_section d) c name = []
merge_name (group_by_section g) (section (group_by_section merged)) name =
    name_or_none (group_by_section g) merged.columns
merge_name s c name = name

-- `MergeClause`
unfoldable pub merge_clause : Section → Clause → Clause
merge_clause s c =
    let merged = merge_content s c.expression in
    record c { expression = some merged; name = merge_name s merged c.name }

-- `stmt.Clauses`
abbrev pub Clauses : Type 0
Clauses = List (Bytes × Clause)

abbrev pub no_clause : Clause
no_clause = record {
  name = [];
  before_expression = none;
  after_name_expression = none;
  after_expression = none;
  expression = none;
  builder = none;
}

unfoldable pub find_clause : Bytes → Clauses → Option Clause
find_clause n [] = none
find_clause n ((k, c) ∷ l) = if k == n then some c else find_clause n l

unfoldable pub set_clause : Bytes → Clause → Clauses → Clauses
set_clause n c [] = (n, c) ∷ []
set_clause n c ((k, d) ∷ l) =
    let rest = set_clause n c l in if k == n then (n, c) ∷ l else (k, d) ∷ rest

abbrev pub or_blank : Option Clause → Clause
or_blank none = no_clause
or_blank (some c) = c

-- `AddClause` of a section, which is no `StatementModifier`
unfoldable pub add_clause : Section → Clauses → Clauses
add_clause s l =
    let name = section_name s in
    set_clause name (merge_clause s (record (or_blank (find_clause name l)) { name = name })) l

-- one `AddClause` after another
unfoldable pub add_clauses : List Section → Clauses → Clauses
add_clauses [] l = l
add_clauses (s ∷ ss) l = add_clauses ss (add_clause s l)

-- `AddClauseIfNotExists`
unfoldable pub add_clause_if_not_exists : Section → Clauses → Clauses
add_clause_if_not_exists s l = elim (find_clause (section_name s) l) [
  | none ↦ add_clause s l
  | some c ↦ elim c.expression [ none ↦ add_clause s l | some e ↦ l ]
]
