-- ===== src/Clause/Tests.antt =====
-- Runs of the builders on the inputs of clause/where_test.go and clause/expression_test.go, and the
-- theorems at concrete inputs.
use pewter_rinse_moor.Prelude.{
  ◌≡◌, refl, false, none, some, [], ◌∷◌, ◌++◌, Bytes, codes, arith, sym, List, bytes_beq,
}
use pewter_rinse_moor.Clause.{
  Value, Quotable, Expression, Exprs, scalar, bytes, named_arg, no_values, value, a_column, a_name,
  expr, named_expr, eq, neq, gt, and_conditions, or_conditions, not_conditions, no_exprs, and_then,
}
use pewter_rinse_moor.Clause.Fragments.{
  lookup, named, process_value, push_rest, walk_expr, walk_named, compare_by, build_eq, build_neq,
  build_in,
}
use pewter_rinse_moor.Clause.Writer.{
  bind, quote_column, alias_with, quote_primary, quote_prefix, commas, Built, Env, byte,
  current_table, primary_key,
}
use pewter_rinse_moor.Clause.Conditions.{
  build_exprs, build_joined, put_first, exchange, or_with_space, and_with_space, any_negation,
  build_not, has_and_or, contains, starts_with, to_upper, negate_all, negate_each,
}
use pewter_rinse_moor.Clause.Build.{
  build, build_where, nodes, negate, add_var, parts, bind_list, bindings, bindings_of, elements,
}
use pewter_rinse_moor.Clause.Marks.{
  FitsExprs, FitsExpr, Fits, FitsAll, FitsName, marks, marks-append, Aligned, HasMarks,
}
use pewter_rinse_moor.Clause.MarksOfBuild.{build_where-Aligned}
use mathlib.Core.List.{Perm}
use pewter_rinse_moor.Clause.Conditions.{Node}
use pewter_rinse_moor.Clause.Sections.{ℤ, pos, Section, where_section, limit_section, section_name}
use pewter_rinse_moor.Clause.Merge.{
  find_clause, set_clause, add_clause, add_clauses, merge_clause, merge_content, merge_name,
  merge_limit, merge_number, merge_offset,
}
use pewter_rinse_moor.Clause.Statement.{
  build_statement, build_clauses, build_named, build_clause, build_content, build_section,
  build_limit, before, behind, modified,
}
use pewter_rinse_moor.Clause.MarksOfSections.{FitsSection}
use pewter_rinse_moor.Clause.MarksOfClauses.{build_added-Aligned}
use pewter_rinse_moor.Clause.Reorder.{IsLed, put_first-Perm, put_first-again}
use pewter_rinse_moor.Clause.{in_values, list}
use pewter_rinse_moor.Clause.Build.{actions}
use pewter_rinse_moor.Clause.Agreement.{build-in_one}

abbrev ticks : Bytes → Bytes
ticks s = byte b'`' ++ s ++ byte b'`'

abbrev users : Env
unfolding codes
users = record {
  quote = ticks;
  bind_var = λ n v. byte b'?';
  table_expr = none;
  table = codes "users";
  schema = some (record {
    prioritized_primary_field = some (codes "id");
    db_names = codes "id" ∷ codes "name" ∷ [];
  });
}

ticks-marks : (s : Bytes) → marks (ticks s) ≡ marks s
unfolding marks
ticks-marks s = omega (arith, marks-append s (byte b'`'))

users-HasMarks : HasMarks users
unfolding marks codes
users-HasMarks = record {
  place = λ n v. refl;
  quoted = ticks-marks;
  table = refl;
  table_expr = λ a e. absurd (ground arith);
  primary = λ c n e p. let same : codes "id" ≡ n = ground arith in rw (sym same) refl;
  first_name = λ c n ns e p. let same : codes "id" ≡ n = ground arith in rw (sym same) refl;
}

abbrev by_name : Bytes → Quotable
by_name n = a_name n

abbrev primary : Quotable
primary = a_column (record { table = current_table; name = primary_key; alias = []; raw = false })

abbrev fresh : Built
fresh = record { sql = []; vars = []; errors = [] }

abbrev or_else : Expression → Expression
or_else e = or_conditions (and_then e no_exprs)

-- `WHERE` with a single OR first
abbrev reordered : Exprs
unfolding codes
reordered = and_then (or_else (neq (by_name (codes "name")) (scalar (codes "jinzhu")))) (
    and_then (eq primary (scalar (codes "1")))
      (and_then (gt (by_name (codes "age")) (scalar (codes "18"))) no_exprs))

abbrev run : Exprs → Bytes × List Value
run es = let s = build_where users es fresh in (s.sql, s.vars)

reordered-run : run reordered ≡ (
  codes "`users`.`id` = ? OR `name` <> ? AND `age` > ?",
  scalar (codes "1") ∷ scalar (codes "jinzhu") ∷ scalar (codes "18") ∷ [],
)
unfolding codes build_where build build_exprs build_joined put_first nodes exchange compare_by bind
    build_eq build_neq build_in quote_column alias_with bytes_beq primary_key quote_primary
    quote_prefix current_table or_with_space and_with_space any_negation build_not has_and_or
    contains starts_with to_upper negate_all negate_each process_value push_rest walk_expr
    walk_named commas negate add_var parts bind_list lookup named
reordered-run = refl

abbrev score_at_most : Bytes → Expression
unfolding codes
score_at_most n = expr (codes "`score` <= ?") (value (scalar n) no_values) false

-- negations, the ones of `Eq` and of `And(Expr)`
abbrev negated : Exprs
unfolding codes
negated =
    and_then
      (not_conditions (
        and_then (eq primary (scalar (codes "1")))
          (and_then (and_conditions (and_then (score_at_most (codes "100")) no_exprs)) no_exprs)))
      no_exprs

negated-run : run negated ≡ (
  codes "(`users`.`id` <> ? AND NOT `score` <= ?)",
  scalar (codes "1") ∷ scalar (codes "100") ∷ [],
)
unfolding codes build_where build build_exprs build_joined put_first nodes exchange compare_by bind
    build_eq build_neq build_in quote_column alias_with bytes_beq primary_key quote_primary
    quote_prefix current_table or_with_space and_with_space any_negation build_not has_and_or
    contains starts_with to_upper negate_all negate_each process_value push_rest walk_expr
    walk_named commas negate add_var parts bind_list lookup named
negated-run = refl

-- `name1 = @name AND name2 = @name`
abbrev with_names : Exprs
unfolding codes
with_names =
    and_then
      (named_expr (codes "name1 = @name AND name2 = @name")
        (value (named_arg (codes "name") (scalar (codes "jinzhu"))) no_values))
      no_exprs

names_case :
    run with_names
    ≡ (codes "name1 = ? AND name2 = ?", scalar (codes "jinzhu") ∷ scalar (codes "jinzhu") ∷ [])
unfolding codes build_where build build_exprs build_joined put_first nodes exchange compare_by bind
    build_eq build_neq build_in quote_column alias_with bytes_beq primary_key quote_primary
    quote_prefix current_table or_with_space and_with_space any_negation build_not has_and_or
    contains starts_with to_upper negate_all negate_each process_value push_rest walk_expr
    walk_named commas negate add_var parts bind_list lookup named bindings bindings_of
names_case = refl

-- The alternatives of a named condition stand behind NOT without parentheses.
abbrev not_named : Exprs
unfolding codes
not_named =
    and_then
      (not_conditions (
        and_then
          (named_expr (codes "a = @x OR b = @x")
            (value (named_arg (codes "x") (scalar (codes "1"))) no_values))
          no_exprs))
      no_exprs

not_named-run :
    run not_named ≡ (codes "NOT a = ? OR b = ?", scalar (codes "1") ∷ scalar (codes "1") ∷ [])
unfolding codes build_where build build_exprs build_joined put_first nodes exchange compare_by bind
    build_eq build_neq build_in quote_column alias_with bytes_beq primary_key quote_primary
    quote_prefix current_table or_with_space and_with_space any_negation build_not has_and_or
    contains starts_with to_upper negate_all negate_each process_value push_rest walk_expr
    walk_named commas negate add_var parts bind_list lookup named bindings bindings_of
not_named-run = refl

-- An inequation with an empty slice, as the negation of an equation
abbrev not_empty : Exprs
unfolding codes
not_empty =
    and_then (not_conditions (and_then (eq (by_name (codes "a")) (list no_values)) no_exprs))
      no_exprs

empty_case : run not_empty ≡ (codes "`a` NOT IN ()", [])
unfolding codes build_where build build_exprs build_joined put_first nodes exchange compare_by bind
    build_eq build_neq build_in quote_column alias_with bytes_beq primary_key quote_primary
    quote_prefix current_table or_with_space and_with_space any_negation build_not has_and_or
    contains starts_with to_upper negate_all negate_each process_value push_rest walk_expr
    walk_named commas negate add_var parts bind_list lookup named bindings bindings_of elements
    actions
empty_case = refl

-- a byte string in parentheses, which becomes a variable for each byte
abbrev in_bytes : Exprs
unfolding codes
in_bytes = and_then (expr (codes "id IN (?)") (value (bytes (codes "ab")) no_values) false) no_exprs

bytes_case : run in_bytes ≡ (codes "id IN (?,?)", scalar (codes "a") ∷ scalar (codes "b") ∷ [])
unfolding codes build_where build build_exprs build_joined put_first nodes exchange compare_by bind
    build_eq build_neq build_in quote_column alias_with bytes_beq primary_key quote_primary
    quote_prefix current_table or_with_space and_with_space any_negation build_not has_and_or
    contains starts_with to_upper negate_all negate_each process_value push_rest walk_expr
    walk_named commas negate add_var parts bind_list lookup named elements
bytes_case = refl

build_where-Aligned_example : Aligned (
    build_where users
      (and_then (expr (codes "a = ?") (value (scalar (codes "1")) no_values) false) reordered))
unfolding codes FitsExprs FitsExpr Fits FitsAll FitsName marks current_table primary_key
build_where-Aligned_example =
    build_where-Aligned users-HasMarks
      (and_then (expr (codes "a = ?") (value (scalar (codes "1")) no_values) false) reordered)
      ((refl, (tt, tt)), (((refl, tt), tt), (((refl, refl, refl), tt), ((refl, tt), tt))))

abbrev filtered : List Section
unfolding codes
filtered =
    where_section (and_then (score_at_most (codes "9")) no_exprs)
    ∷ limit_section (record { limit = some (pos 10); offset = pos 5 })
    ∷ where_section reordered
    ∷ []

abbrev decimal : ℤ → Bytes
unfolding codes
decimal n = codes "10"

build_added-Aligned_example : Aligned (
    build_statement users decimal
      (λ n. none)
      (codes "WHERE" ∷ codes "LIMIT" ∷ [])
      (add_clauses filtered []))
unfolding codes FitsSection FitsExprs FitsExpr Fits FitsAll FitsName marks current_table primary_key
build_added-Aligned_example =
    build_added-Aligned users-HasMarks decimal (λ n b c e f. absurd (ground arith)) filtered
      (codes "WHERE" ∷ codes "LIMIT" ∷ [])
      (
        ((refl, (tt, tt)), tt),
        (tt, ((((refl, tt), tt), (((refl, refl, refl), tt), ((refl, tt), tt))), tt)),
      )

abbrev reordered_nodes : List Node
unfolding nodes
reordered_nodes = nodes users reordered

put_first-Perm_example :
    Perm reordered_nodes (put_first reordered_nodes) × IsLed (put_first reordered_nodes)
put_first-Perm_example = put_first-Perm reordered_nodes

put_first-again_example : put_first (put_first reordered_nodes) ≡ put_first reordered_nodes
put_first-again_example = put_first-again reordered_nodes

-- LIMIT 0 does not replace a limit.
limit_case :
    build_statement users decimal
      (λ n. none)
      (codes "LIMIT" ∷ [])
      (add_clauses
        (limit_section (record { limit = some (pos 10); offset = pos 0 })
          ∷ limit_section (record { limit = some (pos 0); offset = pos 0 })
          ∷ [])
        [])
      fresh
    ≡ record { sql = codes "LIMIT ?"; vars = scalar (codes "10") ∷ []; errors = [] }
unfolding codes build_statement build_clauses build_named build_clause build_content build_section
    build_limit before behind modified bytes_beq add_clauses add_clause section_name merge_clause
    merge_content merge_name merge_limit merge_number merge_offset find_clause set_clause add_var
    bind
limit_case = refl

build-in_one_example :
    (build users (in_values primary (value (scalar (codes "1")) no_values))
      ≡ build users (eq primary (scalar (codes "1"))))
    × (negate users (in_values primary (value (scalar (codes "1")) no_values))
        ≡ negate users (eq primary (scalar (codes "1"))))
build-in_one_example = build-in_one users primary (scalar (codes "1")) refl refl
