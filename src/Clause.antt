-- ===== src/Clause.antt =====
-- clause/: the SQL clauses. This module has their data: the columns and tables of clause/clause.go,
-- the values that a statement binds, and the expressions of clause/expression.go and clause/where.go.
--
-- An `interface{}` is a `Value`, with a constructor for each kind of dynamic value that the type
-- switches of `AddVar`, `processValue` and `Eq.Build` tell apart, except subqueries (`*DB`) and whole
-- clauses, which are not modelled as values. A field of an expression that `WriteQuoted` is handed is a
-- `Quotable`. A nil expression is `none` where it may stand.
pub mod Writer
pub mod Conditions
pub mod Fragments
pub mod Build
pub mod Marks
pub mod MarksOfNames
pub mod MarksOfParts
pub mod MarksOfConditions
pub mod MarksOfBuild
pub mod Sections
pub mod Merge
pub mod Statement
pub mod MarksOfSections
pub mod MarksOfStatement
pub mod MarksOfMerge
pub mod MarksOfClauses
pub mod Added
pub mod Reorder
pub mod Agreement
mod Tests
use pewter_rinse_moor.Prelude.{ℕ, Bool, List, [], ◌∷◌, Bytes}

pub record Column : Type 0 where
  pub table : Bytes
  pub name : Bytes
  pub alias : Bytes
  pub raw : Bool

pub record Table : Type 0 where
  pub name : Bytes
  pub alias : Bytes
  pub raw : Bool

mutual
  -- `scalar` is any value that is bound as it is, shown by a text; `valuer` a `driver.Valuer` with
  -- what its `Value()` returns; `nil_pointer` a typed nil pointer; `slice` a slice or array other
  -- than `[]interface{}` and `[]byte`, with whether it is of a type that `Eq` lists; `fields` a
  -- struct or map with its exported fields or its entries.
  pub data Value : Type 0 where
    null : Value
    nil_pointer : Value
    scalar : Bytes → Value
    bytes : Bytes → Value
    valuer : Value → Value
    gorm_valuer : Value → Value
    named_arg : Bytes → Value → Value
    column : Column → Value
    table : Table → Value
    list : Values → Value
    slice : Bool → Values → Value
    fields : Fields → Value
    expression : Expression → Value

  pub data Values : Type 0 where
    no_values : Values
    value : Value → Values → Values

  pub data Fields : Type 0 where
    no_fields : Fields
    field : Bytes → Value → Fields → Fields

  -- What `QuoteTo` tells apart; `other` is a value of another type, as `fmt.Sprint` prints it.
  pub data Quotable : Type 0 where
    a_column : Column → Quotable
    a_table : Table → Quotable
    columns : List Column → Quotable
    raw_expr : Bytes → Values → Bool → Quotable
    a_name : Bytes → Quotable
    name_list : List Bytes → Quotable
    other : Bytes → Quotable

  pub data Expression : Type 0 where
    expr : Bytes → Values → Bool → Expression
    named_expr : Bytes → Values → Expression
    in_values : Quotable → Values → Expression
    eq : Quotable → Value → Expression
    neq : Quotable → Value → Expression
    gt : Quotable → Value → Expression
    gte : Quotable → Value → Expression
    lt : Quotable → Value → Expression
    lte : Quotable → Value → Expression
    like : Quotable → Value → Expression
    and_conditions : Exprs → Expression
    or_conditions : Exprs → Expression
    not_conditions : Exprs → Expression
    comma_expression : Exprs → Expression

  pub data Exprs : Type 0 where
    no_exprs : Exprs
    and_then : Expression → Exprs → Exprs
