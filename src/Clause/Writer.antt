-- ===== src/Clause/Writer.antt =====
-- What a clause is built into: the SQL text and the bound variables of a statement (statement.go), with
-- `WriteString`, `WriteByte`, the quoting of names and the binding of one variable.
use pewter_rinse_moor.Prelude.{
  ℕ, ◌+◌, Bool, Option, none, some, List, [], ◌∷◌, ◌++◌, Bytes, codes, equal_bytes, ◌==◌,
  if◌then◌else◌, length,
}
use pewter_rinse_moor.Clause.{Column, Table, Value}

pub data Error : Type 0 where
  model_value_required model_accessible_fields_required parse_error : Error

pub record Built : Type 0 where
  pub sql : Bytes
  pub vars : List Value
  pub errors : List Error

abbrev pub Action : Type 0
Action = Built → Built

-- What `QuoteTo` reads of the statement's schema.
pub record Schema : Type 0 where
  pub prioritized_primary_field : Option Bytes
  pub db_names : List Bytes

-- The statement around the clauses, and the dialect, which is another repository's: it quotes a name,
-- and writes the place of the last of `n` variables. `table_expr` builds the statement's `TableExpr`.
-- `table` is the statement's table, which is empty only where its model does not parse.
pub record Env : Type 0 where
  pub quote : Bytes → Bytes
  pub bind_var : ℕ → Value → Bytes
  pub table_expr : Option Action
  pub table : Bytes
  pub schema : Option Schema

infixl 5 ◌>>◌
abbrev pub ◌>>◌ : Action → Action → Action
(a >> b) s = b (a s)

abbrev pub skip : Action
skip s = s

-- `WriteString` and `WriteByte`
abbrev pub write : Bytes → Action
write t s = record s { sql = s.sql ++ t }

abbrev pub add_error : Error → Action
add_error e s = record s { errors = s.errors ++ e ∷ [] }

-- `stmt.Vars = append(stmt.Vars, v)`
abbrev pub push_var : Value → Action
push_var v s = record s { vars = s.vars ++ v ∷ [] }

abbrev pub byte : ℕ → Bytes
byte c = c ∷ []

abbrev pub comma : Action
comma = write (byte b',')

-- the actions, with commas between them
unfoldable pub commas : List Action → Action
commas [] = skip
commas (a ∷ []) = a
commas (a ∷ b ∷ l) = a >> comma >> commas (b ∷ l)

abbrev pub in_parens : Action → Action
in_parens a = write (byte b'(') >> a >> write (byte b')')

unfoldable pub current_table : Bytes
unfolding codes
current_table = codes "~~~ct~~~"

unfoldable pub primary_key : Bytes
unfolding codes
primary_key = codes "~~~py~~~"

module _ (env : Env) where
  -- the local function `write` of `QuoteTo`
  abbrev pub write_name : Bool → Bytes → Action
  write_name raw str = write (if raw then str else env.quote str)

  -- a variable and its place
  unfoldable pub bind : Value → Action
  bind v s = record s { vars = s.vars ++ v ∷ []; sql = s.sql ++ env.bind_var (length s.vars + 1) v }

  unfoldable pub alias_with : Bytes → Bool → Bytes → Action
  alias_with sep raw alias = if alias == [] then skip else (write sep >> write_name raw alias)

  -- the case of the current table
  unfoldable pub quote_current : Bool → Action
  quote_current raw = elim env.table_expr [
    | some build ↦ build
    | none ↦ if env.table == [] then add_error parse_error else write_name raw env.table
  ]

  unfoldable pub quote_table : Table → Action
  quote_table t =
      (if t.name == current_table then quote_current t.raw else write_name t.raw t.name)
      >> alias_with (byte b' ') t.raw t.alias

  -- the case of the primary key's name
  unfoldable pub quote_primary : Bool → Action
  quote_primary raw = elim env.schema [
    | none ↦ add_error model_value_required
    | some schema ↦ elim schema.prioritized_primary_field [
      | some db_name ↦ write_name raw db_name
      | none ↦ elim schema.db_names [
        | [] ↦ add_error model_accessible_fields_required
        | db_name ∷ _ ↦ write_name raw db_name
      ]
    ]
  ]

  unfoldable pub quote_prefix : Column → Action
  quote_prefix c =
      if c.table == []
      then skip
      else (write_name c.raw (if c.table == current_table then env.table else c.table)
          >> write (byte b'.'))

  unfoldable pub quote_column : Column → Action
  unfolding codes
  quote_column c =
      quote_prefix c
      >> (if c.name == primary_key then quote_primary c.raw else write_name c.raw c.name)
      >> alias_with (codes " AS ") c.raw c.alias

  unfoldable pub quote_columns : List Column → List Action
  quote_columns [] = []
  quote_columns (c ∷ cs) = quote_column c ∷ quote_columns cs

  unfoldable pub quote_names : List Bytes → List Action
  quote_names [] = []
  quote_names (n ∷ ns) = write (env.quote n) ∷ quote_names ns
