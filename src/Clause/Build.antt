-- ===== src/Clause/Build.antt =====
-- The `Build` methods of clause/expression.go and clause/where.go, with `AddVar` and `QuoteTo` of
-- statement.go, which they call and which call them.
--
-- The functions of the mutual block turn the parts of a tree into actions on a statement, by structural
-- recursion; what a method does with its parts is a function of its own above the block, over parts
-- that carry their actions. So each method stands in two pieces.
use pewter_rinse_moor.Prelude.{
  false, Option, none, some, List, [], ◌∷◌, ◌++◌, Bytes, codes, equal_bytes, equal_numbers,
}
use pewter_rinse_moor.Clause.{
  Value, Values, Fields, Quotable, Expression, Exprs, null, nil_pointer, scalar, bytes, valuer,
  gorm_valuer, named_arg, column, table, list, slice, fields, expression, no_values, value,
  no_fields, field, a_column, a_table, columns, raw_expr, a_name, name_list, other, expr,
  named_expr, in_values, eq, neq, gt, gte, lt, lte, like, and_conditions, or_conditions,
  not_conditions, comma_expression, no_exprs, and_then,
}
use pewter_rinse_moor.Clause.Writer.{
  Env, Action, write, push_var, byte, commas, in_parens, bind, quote_table, quote_column,
  quote_columns, quote_names,
}
use pewter_rinse_moor.Clause.Conditions.{
  Node, and_with_space, or_with_space, build_exprs, build_conditions, put_first, build_not, builds,
  build_comma,
}
use pewter_rinse_moor.Clause.Fragments.{
  Part, build_expr, walk_named, build_eq, build_neq, compare_by, build_in,
}

module _ (env : Env) where
  -- one variable for each byte
  abbrev pub byte_actions : Bytes → List Action
  byte_actions [] = []
  byte_actions (b ∷ bs) = bind env (scalar (byte b)) ∷ byte_actions bs

  -- a list of values in parentheses
  unfoldable pub bind_list : List Action → Action
  unfolding codes
  bind_list [] = write (codes "(NULL)")
  bind_list (a ∷ l) = in_parens (commas (a ∷ l))

  unfoldable mutual
    unfolding codes

    -- the switch of `AddVar` on one variable
    pub add_var : Value → Action
    add_var null = bind env null
    add_var nil_pointer = bind env nil_pointer
    add_var (scalar s) = bind env (scalar s)
    add_var (bytes s) = bind env (bytes s)
    add_var (valuer v) = bind env (valuer v)
    add_var (gorm_valuer v) = add_var v
    add_var (named_arg n v) = push_var v
    add_var (column c) = quote_column env c
    add_var (table t) = quote_table env t
    add_var (list vs) = bind_list (actions vs)
    add_var (slice t vs) = bind_list (actions vs)
    add_var (fields fs) = bind env (fields fs)
    add_var (expression e) = build e

    -- the elements of a slice
    pub elements : Value → List Action
    elements (bytes s) = byte_actions s
    elements (list vs) = actions vs
    elements (slice t vs) = actions vs
    elements _ = []

    pub actions : Values → List Action
    actions no_values = []
    actions (value v vs) = add_var v ∷ actions vs

    pub parts : Values → List Part
    parts no_values = []
    parts (value v vs) = record { content = v; add = add_var v; elements = elements v } ∷ parts vs

    -- the loop of `NamedExpr.Build` that fills `namedMap`
    pub bindings : Values → List (Bytes × Part)
    bindings no_values = []
    bindings (value v vs) = bindings_of v ++ bindings vs

    pub bindings_of : Value → List (Bytes × Part)
    bindings_of (named_arg n v) =
        (n, record { content = v; add = add_var v; elements = elements v }) ∷ []
    bindings_of (fields fs) = field_bindings fs
    bindings_of _ = []

    pub field_bindings : Fields → List (Bytes × Part)
    field_bindings no_fields = []
    field_bindings (field n v fs) =
        (n, record { content = v; add = add_var v; elements = elements v }) ∷ field_bindings fs

    -- `WriteQuoted`, the switch of `QuoteTo`
    pub write_quoted : Quotable → Action
    write_quoted (a_column c) = quote_column env c
    write_quoted (a_table t) = quote_table env t
    write_quoted (columns cs) = in_parens (commas (quote_columns env cs))
    write_quoted (raw_expr sql vars bare) = build_expr env sql (parts vars) bare
    write_quoted (a_name n) = write (env.quote n)
    write_quoted (name_list ns) = in_parens (commas (quote_names env ns))
    write_quoted (other s) = write (env.quote s)

    -- the `Build` methods
    pub build : Expression → Action
    build (expr sql vars bare) = build_expr env sql (parts vars) bare
    build (named_expr sql vars) = walk_named env (bindings vars) sql (parts vars) false false []
    build (in_values q vs) =
        build_in (write_quoted q) (codes " IN (NULL)") (codes " = ") (codes " IN (") (parts vs)
    build (eq q v) =
        build_eq (write_quoted q) (record { content = v; add = add_var v; elements = elements v })
    build (neq q v) =
        build_neq (write_quoted q) (record { content = v; add = add_var v; elements = elements v })
    build (gt q v) = compare_by (write_quoted q) (codes " > ") (add_var v)
    build (gte q v) = compare_by (write_quoted q) (codes " >= ") (add_var v)
    build (lt q v) = compare_by (write_quoted q) (codes " < ") (add_var v)
    build (lte q v) = compare_by (write_quoted q) (codes " <= ") (add_var v)
    build (like q v) = compare_by (write_quoted q) (codes " LIKE ") (add_var v)
    build (and_conditions es) = build_conditions and_with_space (nodes es)
    build (or_conditions es) = build_conditions or_with_space (nodes es)
    build (not_conditions es) = build_not (nodes es)
    build (comma_expression es) = build_comma (builds (nodes es))

    -- the `NegationBuild` methods; `Eq` and `Neq`, `Gt` and `Lte`, `Gte` and `Lt` negate one another
    pub negate : Expression → Option Action
    negate (in_values q vs) = some (
        build_in (write_quoted q) (codes " IS NOT NULL") (codes " <> ") (codes " NOT IN (")
          (parts vs))
    negate (eq q v) = some (
        build_neq (write_quoted q) (record { content = v; add = add_var v; elements = elements v }))
    negate (neq q v) =
        some (
          build_eq (write_quoted q)
            (record { content = v; add = add_var v; elements = elements v }))
    negate (gt q v) = some (compare_by (write_quoted q) (codes " <= ") (add_var v))
    negate (gte q v) = some (compare_by (write_quoted q) (codes " < ") (add_var v))
    negate (lt q v) = some (compare_by (write_quoted q) (codes " >= ") (add_var v))
    negate (lte q v) = some (compare_by (write_quoted q) (codes " > ") (add_var v))
    negate (like q v) = some (compare_by (write_quoted q) (codes " NOT LIKE ") (add_var v))
    negate _ = none

    pub nodes : Exprs → List Node
    nodes no_exprs = []
    nodes (and_then e es) = record { tree = e; build = build e; negation = negate e } ∷ nodes es

  -- `Where.Build`: a single `AndConditions` gives its own expressions.
  unfoldable pub build_where : Exprs → Action
  build_where (and_then (and_conditions es) no_exprs) =
      build_exprs and_with_space (put_first (nodes es))
  build_where es = build_exprs and_with_space (put_first (nodes es))
