-- ===== src/Clause/Sections.antt =====
-- The clauses of clause/*.go other than WHERE's conditions: the data of each, one constructor of `Section`
-- for each type that implements `clause.Interface`, and their names.
--
-- A slice of which the code tests that it is nil is an `Option`. A pointer to a limit is an `Option`.
use pewter_rinse_moor.Prelude.{ℕ, Bool, Option, List, Bytes, codes}
use pewter_rinse_moor.Clause.{Column, Table, Value, Values, Expression, Exprs}

-- Go's int
pub data ℤ : Type 0 where
  pos : ℕ → ℤ
  negsuc : ℕ → ℤ

pub record Limit : Type 0 where
  pub limit : Option ℤ
  pub offset : ℤ

pub record OrderByColumn : Type 0 where
  pub column : Column
  pub desc : Bool
  pub reorder : Bool

pub record OrderBy : Type 0 where
  pub columns : List OrderByColumn
  pub expression : Option Expression

pub record GroupBy : Type 0 where
  pub columns : List Column
  pub having : Exprs

pub record Insert : Type 0 where
  pub table : Table
  pub modifier : Bytes

pub record Update : Type 0 where
  pub modifier : Bytes
  pub table : Table

pub record Assignment : Type 0 where
  pub column : Column
  pub value : Value

-- the type `Values`, whose name the list of values has here
pub record Rows : Type 0 where
  pub columns : List Column
  pub values : List Values

pub record Select : Type 0 where
  pub distinct : Bool
  pub columns : List Column
  pub expression : Option Expression

pub record Returning : Type 0 where
  pub columns : Option (List Column)

pub record Locking : Type 0 where
  pub strength : Bytes
  pub table : Table
  pub options : Bytes

pub record OnConflict : Type 0 where
  pub columns : List Column
  pub condition : Exprs
  pub target_condition : Exprs
  pub on_constraint : Bytes
  pub do_nothing : Bool
  pub do_updates : List Assignment
  pub update_all : Bool

pub record Join : Type 0 where
  pub join_type : Bytes
  pub table : Table
  pub on : Exprs
  pub using : List Bytes
  pub expression : Option Expression

pub record From : Type 0 where
  pub tables : List Table
  pub joins : List Join

pub record Delete : Type 0 where
  pub modifier : Bytes

pub data Section : Type 0 where
  where_section : Exprs → Section
  limit_section : Limit → Section
  order_by_section : OrderBy → Section
  group_by_section : GroupBy → Section
  insert_section : Insert → Section
  update_section : Update → Section
  set_section : List Assignment → Section
  values_section : Rows → Section
  select_section : Select → Section
  returning_section : Returning → Section
  locking_section : Locking → Section
  on_conflict_section : OnConflict → Section
  from_section : From → Section
  delete_section : Delete → Section

-- the `Name` methods
unfoldable pub section_name : Section → Bytes
unfolding codes
section_name (where_section w) = codes "WHERE"
section_name (limit_section l) = codes "LIMIT"
section_name (order_by_section o) = codes "ORDER BY"
section_name (group_by_section g) = codes "GROUP BY"
section_name (insert_section i) = codes "INSERT"
section_name (update_section u) = codes "UPDATE"
section_name (set_section s) = codes "SET"
section_name (values_section v) = codes "VALUES"
section_name (select_section s) = codes "SELECT"
section_name (returning_section r) = codes "RETURNING"
section_name (locking_section l) = codes "FOR"
section_name (on_conflict_section o) = codes "ON CONFLICT"
section_name (from_section f) = codes "FROM"
section_name (delete_section d) = codes "DELETE"
