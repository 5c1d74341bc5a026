-- ===== src/Clause/Marks.antt =====
-- Placeholders: the `?` of a text against the bound variables of a statement, for a dialect that writes
-- one `?` for each variable.
use pewter_rinse_moor.Prelude.{
  ℕ, suc, ◌+◌, ◌≡◌, refl, Bool, true, false, some, List, [], ◌∷◌, ◌++◌, Bytes, arith, equal_bytes,
  equal_numbers, ◌==◌, if◌then◌else◌, length, All,
}
use pewter_rinse_moor.Clause.{
  Column, Table, Value, Values, Fields, Quotable, Expression, Exprs, gorm_valuer, named_arg, column,
  table, list, slice, fields, expression, no_values, value, no_fields, field, a_column, a_table,
  columns, raw_expr, a_name, name_list, other, expr, named_expr, in_values, eq, neq, gt, gte, lt,
  lte, like, and_conditions, or_conditions, not_conditions, comma_expression, no_exprs, and_then,
}
use pewter_rinse_moor.Clause.Writer.{
  Built, Env, Schema, Error, Action, ◌>>◌, skip, write, add_error, byte, commas, in_parens,
}

-- the placeholders of a text
unfoldable pub marks : Bytes → ℕ
marks [] = 0
marks (c ∷ s) = let rest = marks s in if c == b'?' then suc rest else rest

pub marks-append : (s t : Bytes) → marks (s ++ t) ≡ marks s + marks t
unfolding marks
marks-append [] t = omega arith
marks-append (c ∷ s) t = ground (arith, marks-append s t)

-- The action adds as many placeholders as variables.
pub record Aligned (a : Action) : Type 0 where
  pub balance : (s : Built) → marks (a s).sql + length s.vars ≡ marks s.sql + length (a s).vars

pub >>-Aligned : {a b : Action} → Aligned a → Aligned b → Aligned (a >> b)
>>-Aligned {a} p q = record { balance = λ s. omega (arith, p.balance s, q.balance (a s)) }

pub skip-Aligned : Aligned skip
skip-Aligned = record { balance = λ s. omega arith }

pub write-Aligned : (t : Bytes) → marks t ≡ 0 → Aligned (write t)
write-Aligned t h = record { balance = λ s. omega (arith, marks-append s.sql t) }

pub add_error-Aligned : (e : Error) → Aligned (add_error e)
add_error-Aligned e = record { balance = λ s. omega arith }

pub in_parens-Aligned : {a : Action} → Aligned a → Aligned (in_parens a)
unfolding marks
in_parens-Aligned p =
    >>-Aligned (>>-Aligned (write-Aligned (byte b'(') refl) p) (write-Aligned (byte b')') refl)

pub commas-Aligned : (l : List Action) → All Aligned l → Aligned (commas l)
unfolding commas marks
commas-Aligned [] h = skip-Aligned
commas-Aligned (a ∷ []) (p, h) = p
commas-Aligned (a ∷ b ∷ l) (p, h) =
    >>-Aligned (>>-Aligned p (write-Aligned (byte b',') refl)) (commas-Aligned (b ∷ l) h)

pub if-Aligned : (b : Bool) {x y : Action} → Aligned x → Aligned y → Aligned (if b then x else y)
if-Aligned true p q = p
if-Aligned false p q = q

-- What a dialect with `?` promises, and names without a `?` in the statement.
pub record HasMarks (env : Env) : Type 0 where
  pub place : (n : ℕ) (v : Value) → marks (env.bind_var n v) ≡ 1
  pub quoted : (s : Bytes) → marks (env.quote s) ≡ marks s
  pub table : marks env.table ≡ 0
  pub table_expr : (a : Action) → env.table_expr ≡ some a → Aligned a
  pub primary :
      (c : Schema) (n : Bytes)
      → env.schema ≡ some c
      → c.prioritized_primary_field ≡ some n
      → marks n ≡ 0
  pub first_name :
      (c : Schema) (n : Bytes) (ns : List Bytes)
      → env.schema ≡ some c
      → c.db_names ≡ n ∷ ns
      → marks n ≡ 0

abbrev pub IsCleanColumn : Column → Type 0
IsCleanColumn c = (marks c.table ≡ 0) × (marks c.name ≡ 0) × (marks c.alias ≡ 0)

abbrev pub IsCleanTable : Table → Type 0
IsCleanTable t = (marks t.name ≡ 0) × (marks t.alias ≡ 0)

abbrev pub count_values : Values → ℕ
count_values no_values = 0
count_values (value v vs) = suc (count_values vs)

-- A tree whose raw fragments have as many `?` as variables, whose named fragments have none, whose names
-- have none, and which binds no `sql.NamedArg` at a `?`.
unfoldable mutual
  pub Fits : Value → Type 0
  Fits (gorm_valuer v) = Fits v
  Fits (named_arg n v) = ⊥
  Fits (column c) = IsCleanColumn c
  Fits (table t) = IsCleanTable t
  Fits (list vs) = FitsAll vs
  Fits (slice t vs) = FitsAll vs
  Fits (expression e) = FitsExpr e
  Fits _ = Unit

  pub FitsAll : Values → Type 0
  FitsAll no_values = Unit
  FitsAll (value v vs) = Fits v × FitsAll vs

  -- the values that names stand for
  pub FitsNamed : Values → Type 0
  FitsNamed no_values = Unit
  FitsNamed (value v vs) = FitsBinding v × FitsNamed vs

  pub FitsBinding : Value → Type 0
  FitsBinding (named_arg n v) = Fits v
  FitsBinding (fields fs) = FitsFields fs
  FitsBinding _ = Unit

  pub FitsFields : Fields → Type 0
  FitsFields no_fields = Unit
  FitsFields (field n v fs) = Fits v × FitsFields fs

  pub FitsName : Quotable → Type 0
  FitsName (a_column c) = IsCleanColumn c
  FitsName (a_table t) = IsCleanTable t
  FitsName (columns cs) = All IsCleanColumn cs
  FitsName (raw_expr sql vars bare) = (marks sql ≡ count_values vars) × FitsAll vars
  FitsName (a_name n) = marks n ≡ 0
  FitsName (name_list ns) = All (λ n. marks n ≡ 0) ns
  FitsName (other s) = marks s ≡ 0

  pub FitsExpr : Expression → Type 0
  FitsExpr (expr sql vars bare) = (marks sql ≡ count_values vars) × FitsAll vars
  FitsExpr (named_expr sql vars) = (marks sql ≡ 0) × FitsNamed vars
  FitsExpr (in_values q vs) = FitsName q × FitsAll vs
  FitsExpr (eq q v) = FitsName q × Fits v
  FitsExpr (neq q v) = FitsName q × Fits v
  FitsExpr (gt q v) = FitsName q × Fits v
  FitsExpr (gte q v) = FitsName q × Fits v
  FitsExpr (lt q v) = FitsName q × Fits v
  FitsExpr (lte q v) = FitsName q × Fits v
  FitsExpr (like q v) = FitsName q × Fits v
  FitsExpr (and_conditions es) = FitsExprs es
  FitsExpr (or_conditions es) = FitsExprs es
  FitsExpr (not_conditions es) = FitsExprs es
  FitsExpr (comma_expression es) = FitsExprs es

  pub FitsExprs : Exprs → Type 0
  FitsExprs no_exprs = Unit
  FitsExprs (and_then e es) = FitsExpr e × FitsExprs es
