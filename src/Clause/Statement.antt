-- ===== src/Clause/Statement.antt =====
-- The `Build` methods of the clauses of clause/*.go, that of `Clause`, and `Build` of statement.go, which
-- writes the clauses of a statement in the given order. `decimal` shows a number that is bound.
use pewter_rinse_moor.Prelude.{
  Bool, true, false, not, Option, none, some, List, [], ◌∷◌, Bytes, codes, equal_bytes, ◌==◌,
  if◌then◌else◌,
}
use pewter_rinse_moor.Clause.{Column, Table, Values, Expression, Exprs, scalar, no_exprs, and_then}
use pewter_rinse_moor.Clause.Writer.{
  Env, Action, ◌>>◌, skip, write, byte, commas, in_parens, current_table, primary_key, quote_table,
  quote_column, quote_columns, quote_names,
}
use pewter_rinse_moor.Clause.Build.{add_var, actions, build, build_where}
use pewter_rinse_moor.Clause.Sections.{
  ℤ, Limit, OrderByColumn, OrderBy, GroupBy, Insert, Update, Assignment, Rows, Select, Returning,
  Locking, OnConflict, Join, From, Delete, Section, where_section, limit_section, order_by_section,
  group_by_section, insert_section, update_section, set_section, values_section, select_section,
  returning_section, locking_section, on_conflict_section, from_section, delete_section,
}
use pewter_rinse_moor.Clause.Merge.{
  Content, section, plain, Clause, is_positive, is_negative, Clauses, find_clause,
}

-- `currentTable`
abbrev pub the_table : Table
the_table = record { name = current_table; alias = []; raw = false }

-- `Column{Name: PrimaryKey}`
abbrev pub the_key : Column
the_key = record { table = []; name = primary_key; alias = []; raw = false }

-- `Limit != nil && *Limit >= 0`
abbrev pub has_limit : Option ℤ → Bool
has_limit none = false
has_limit (some n) = not (is_negative n)

-- a text and a space, unless it is empty
unfoldable pub modified : Bytes → Action
modified m = if m == [] then skip else (write m >> write (byte b' '))

-- the actions, with a space before each
unfoldable pub spaced : List Action → Action
spaced [] = skip
spaced (a ∷ l) = write (byte b' ') >> a >> spaced l

module _ (env : Env) where
  module _ (decimal : ℤ → Bytes) where
    unfoldable pub build_limit : Limit → Action
    unfolding codes
    build_limit l =
        elim l.limit [
          | none ↦ skip
          | some n ↦
              if is_negative n
              then skip
              else (write (codes "LIMIT ") >> add_var env (scalar (decimal n)))
        ]
        >> (if is_positive l.offset
            then (if has_limit l.limit then write (byte b' ') else skip)
              >> write (codes "OFFSET ")
              >> add_var env (scalar (decimal l.offset))
            else skip)

  unfoldable pub order_columns : List OrderByColumn → List Action
  unfolding codes
  order_columns [] = []
  order_columns (c ∷ cs) =
      (quote_column env c.column >> (if c.desc then write (codes " DESC") else skip))
      ∷ order_columns cs

  unfoldable pub build_order_by : OrderBy → Action
  build_order_by o = elim o.expression [
    | some e ↦ build env e
    | none ↦ commas (order_columns o.columns)
  ]

  -- conditions behind a text, if there are any
  unfoldable pub condition_after : Bytes → Exprs → Bytes → Action
  condition_after before no_exprs after = skip
  condition_after before (and_then e es) after =
      write before >> build_where env (and_then e es) >> write after

  unfoldable pub build_group_by : GroupBy → Action
  unfolding codes
  build_group_by g =
      commas (quote_columns env g.columns) >> condition_after (codes " HAVING ") g.having []

  unfoldable pub quote_or_current : Table → Action
  quote_or_current t = if t.name == [] then quote_table env the_table else quote_table env t

  unfoldable pub build_insert : Insert → Action
  unfolding codes
  build_insert i = modified i.modifier >> write (codes "INTO ") >> quote_or_current i.table

  unfoldable pub build_update : Update → Action
  build_update u = modified u.modifier >> quote_or_current u.table

  unfoldable pub assignments : List Assignment → List Action
  assignments [] = []
  assignments (a ∷ l) =
      (quote_column env a.column >> write (byte b'=') >> add_var env a.value) ∷ assignments l

  unfoldable pub build_set : List Assignment → Action
  build_set [] = quote_column env the_key >> write (byte b'=') >> quote_column env the_key
  build_set (a ∷ l) = commas (assignments (a ∷ l))

  unfoldable pub value_rows : List Values → List Action
  value_rows [] = []
  value_rows (vs ∷ l) = in_parens (commas (actions env vs)) ∷ value_rows l

  unfoldable pub build_values : Rows → Action
  unfolding codes
  build_values r = elim r.columns [
    | [] ↦ write (codes "DEFAULT VALUES")
    | c ∷ cs ↦
        in_parens (commas (quote_columns env (c ∷ cs)))
        >> write (codes " VALUES ")
        >> commas (value_rows r.values)
  ]

  -- the columns, or `*`
  unfoldable pub columns_or_star : List Column → Action
  columns_or_star [] = write (byte b'*')
  columns_or_star (c ∷ cs) = commas (quote_columns env (c ∷ cs))

  unfoldable pub build_select : Select → Action
  unfolding codes
  build_select s = elim s.columns [
    | [] ↦ columns_or_star []
    | c ∷ cs ↦ (if s.distinct then write (codes "DISTINCT ") else skip) >> columns_or_star (c ∷ cs)
  ]

  unfoldable pub build_returning : Returning → Action
  build_returning r = elim r.columns [ none ↦ columns_or_star [] | some cs ↦ columns_or_star cs ]

  unfoldable pub build_locking : Locking → Action
  unfolding codes
  build_locking l =
      write l.strength
      >> (if l.table.name == [] then skip else (write (codes " OF ") >> quote_table env l.table))
      >> (if l.options == [] then skip else (write (byte b' ') >> write l.options))

  unfoldable pub build_on_conflict : OnConflict → Action
  unfolding codes
  build_on_conflict o =
      (if o.on_constraint == []
        then elim o.columns [
          | [] ↦ skip
          | c ∷ cs ↦ write (byte b'(') >> commas (quote_columns env (c ∷ cs)) >> write (codes ") ")
        ]
          >> condition_after (codes " WHERE ") o.target_condition (byte b' ')
        else (write (codes "ON CONSTRAINT ") >> write o.on_constraint >> write (byte b' ')))
      >> (if o.do_nothing
          then write (codes "DO NOTHING")
          else (write (codes "DO UPDATE SET ") >> build_set o.do_updates))
      >> condition_after (codes " WHERE ") o.condition (byte b' ')

  unfoldable pub join_using : List Bytes → Action
  unfolding codes
  join_using [] = skip
  join_using (n ∷ ns) =
      write (codes " USING (") >> commas (quote_names env (n ∷ ns)) >> write (byte b')')

  unfoldable pub join_on : Exprs → List Bytes → Action
  unfolding codes
  join_on no_exprs names = join_using names
  join_on (and_then e es) names = write (codes " ON ") >> build_where env (and_then e es)

  unfoldable pub build_join : Join → Action
  unfolding codes
  build_join j = elim j.expression [
    | some e ↦ build env e
    | none ↦
        modified j.join_type
        >> write (codes "JOIN ")
        >> quote_table env j.table
        >> join_on j.on j.using
  ]

  unfoldable pub quote_tables : List Table → List Action
  quote_tables [] = []
  quote_tables (t ∷ ts) = quote_table env t ∷ quote_tables ts

  unfoldable pub build_joins : List Join → List Action
  build_joins [] = []
  build_joins (j ∷ js) = build_join j ∷ build_joins js

  unfoldable pub build_from : From → Action
  build_from f =
      elim f.tables [ [] ↦ quote_table env the_table | t ∷ ts ↦ commas (quote_tables (t ∷ ts)) ]
      >> spaced (build_joins f.joins)

  unfoldable pub build_delete : Delete → Action
  unfolding codes
  build_delete d =
      write (codes "DELETE")
      >> (if d.modifier == [] then skip else (write (byte b' ') >> write d.modifier))

  module _ (decimal : ℤ → Bytes) where
    unfoldable pub build_section : Section → Action
    build_section (where_section es) = build_where env es
    build_section (limit_section l) = build_limit decimal l
    build_section (order_by_section o) = build_order_by o
    build_section (group_by_section g) = build_group_by g
    build_section (insert_section i) = build_insert i
    build_section (update_section u) = build_update u
    build_section (set_section s) = build_set s
    build_section (values_section r) = build_values r
    build_section (select_section s) = build_select s
    build_section (returning_section r) = build_returning r
    build_section (locking_section l) = build_locking l
    build_section (on_conflict_section o) = build_on_conflict o
    build_section (from_section f) = build_from f
    build_section (delete_section d) = build_delete d

    unfoldable pub build_content : Content → Action
    build_content (section s) = build_section s
    build_content (plain e) = build env e

    -- an expression with a space after it
    unfoldable pub before : Option Expression → Action
    before none = skip
    before (some e) = build env e >> write (byte b' ')

    -- an expression with a space before it
    unfoldable pub behind : Option Expression → Action
    behind none = skip
    behind (some e) = write (byte b' ') >> build env e

    -- `Clause.Build`
    unfoldable pub build_clause : Clause → Action
    build_clause c = elim c.builder [
      | some a ↦ a
      | none ↦ elim c.expression [
        | none ↦ skip
        | some e ↦
            before c.before_expression
            >> modified c.name
            >> before c.after_name_expression
            >> build_content e
            >> behind c.after_expression
      ]
    ]

    module _ (builders : Bytes → Option (Clause → Action)) where
      -- a clause, by the builder that the dialect has for its name, if it has one
      unfoldable pub build_named : Bytes → Clause → Action
      build_named name c = elim (builders name) [ some b ↦ b c | none ↦ build_clause c ]

      -- `Statement.Build`; `written` is `firstClauseWritten`.
      unfoldable pub build_clauses : Bool → List Bytes → Clauses → Action
      build_clauses written [] l = skip
      build_clauses written (name ∷ names) l =
          let with_it = build_clauses true names l in
          let without = build_clauses written names l in
          elim (find_clause name l) [
            | none ↦ without
            | some c ↦
                (if written then write (byte b' ') else skip) >> build_named name c >> with_it
          ]

      unfoldable pub build_statement : List Bytes → Clauses → Action
      build_statement names l = build_clauses false names l
