-- ===== src/Clause/MarksOfBuild.antt =====
-- Placeholders and variables stay in step through the building of a whole WHERE clause.
use pewter_rinse_moor.Prelude.{
  suc, ◌≡◌, refl, sym, ap, ◌∙◌, false, List, [], ◌∷◌, ◌++◌, Bytes, equal_bytes, equal_numbers,
  length, All,
}
use pewter_rinse_moor.Clause.{
  Value, Values, Fields, Quotable, Expression, Exprs, null, nil_pointer, scalar, bytes, valuer,
  gorm_valuer, named_arg, column, table, list, slice, fields, expression, no_values, value,
  no_fields, field, a_column, a_table, columns, raw_expr, a_name, name_list, other, expr,
  named_expr, in_values, eq, neq, gt, gte, lt, lte, like, and_conditions, or_conditions,
  not_conditions, comma_expression, no_exprs, and_then,
}
use pewter_rinse_moor.Clause.Writer.{Env, Action, byte}
use pewter_rinse_moor.Clause.Conditions.{build_exprs, and_with_space, put_first}
use pewter_rinse_moor.Clause.Fragments.{Part}
use pewter_rinse_moor.Clause.Build.{
  bind_list, byte_actions, add_var, elements, actions, parts, bindings, bindings_of, field_bindings,
  write_quoted, build, negate, nodes, build_where,
}
use pewter_rinse_moor.Clause.MarksOfNames.{
  bind-Aligned, quote_table-Aligned, quote_column-Aligned, quote_columns-Aligned,
  quote_names-Aligned, quote-Aligned,
}
use pewter_rinse_moor.Clause.MarksOfParts.{
  AlignedPart, walk_expr-Aligned, walk_named-Aligned, build_eq-Aligned, build_neq-Aligned,
  compare_by-Aligned, build_in-Aligned,
}
use pewter_rinse_moor.Clause.MarksOfConditions.{
  AlignedNode, AlignedOption, and_conditions-Aligned, or_conditions-Aligned, build_and-Aligned,
  put_first-All, build_not-Aligned, builds-Aligned, build_comma-Aligned,
}
use pewter_rinse_moor.Clause.Marks.{
  marks, Aligned, write-Aligned, in_parens-Aligned, commas-Aligned, HasMarks, Fits, FitsAll,
  FitsNamed, FitsBinding, FitsFields, FitsName, FitsExpr, FitsExprs, count_values,
}

module _ {env : Env} (m : HasMarks env) where
  byte_actions-Aligned : (s : Bytes) → All Aligned (byte_actions env s)
  byte_actions-Aligned [] = tt
  byte_actions-Aligned (c ∷ s) = (bind-Aligned m (scalar (byte c)), byte_actions-Aligned s)

  bind_list-Aligned : (l : List Action) → All Aligned l → Aligned (bind_list env l)
  unfolding bind_list marks
  bind_list-Aligned [] h = write-Aligned _ refl
  bind_list-Aligned (a ∷ l) h = in_parens-Aligned (commas-Aligned (a ∷ l) h)

  parts-length : (vs : Values) → length (parts env vs) ≡ count_values vs
  unfolding parts
  parts-length no_values = refl
  parts-length (value v vs) = ap suc (parts-length vs)

  All-append_parts :
      (b c : List (Bytes × Part))
      → All (λ e. AlignedPart e.1) b
      → All (λ e. AlignedPart e.1) c
      → All (λ e. AlignedPart e.1) (b ++ c)
  All-append_parts [] c h k = k
  All-append_parts (e ∷ b) c (p, h) k = (p, All-append_parts b c h k)

  mutual
    unfolding add_var elements actions parts bindings bindings_of field_bindings write_quoted build
        negate nodes marks Fits FitsAll FitsNamed FitsBinding FitsFields FitsName FitsExpr FitsExprs

    pub add_var-Aligned : (v : Value) → Fits v → Aligned (add_var env v)
    add_var-Aligned null f = bind-Aligned m null
    add_var-Aligned nil_pointer f = bind-Aligned m nil_pointer
    add_var-Aligned (scalar s) f = bind-Aligned m (scalar s)
    add_var-Aligned (bytes s) f = bind-Aligned m (bytes s)
    add_var-Aligned (valuer v) f = bind-Aligned m (valuer v)
    add_var-Aligned (gorm_valuer v) f = add_var-Aligned v f
    add_var-Aligned (named_arg n v) f = absurd f
    add_var-Aligned (column c) f = quote_column-Aligned m c f
    add_var-Aligned (table t) f = quote_table-Aligned m t f
    add_var-Aligned (list vs) f = bind_list-Aligned (actions env vs) (actions-Aligned vs f)
    add_var-Aligned (slice t vs) f = bind_list-Aligned (actions env vs) (actions-Aligned vs f)
    add_var-Aligned (fields fs) f = bind-Aligned m (fields fs)
    add_var-Aligned (expression e) f = build-Aligned e f

    elements-Aligned : (v : Value) → Fits v → All Aligned (elements env v)
    elements-Aligned null f = tt
    elements-Aligned nil_pointer f = tt
    elements-Aligned (scalar s) f = tt
    elements-Aligned (bytes s) f = byte_actions-Aligned s
    elements-Aligned (valuer v) f = tt
    elements-Aligned (gorm_valuer v) f = tt
    elements-Aligned (named_arg n v) f = tt
    elements-Aligned (column c) f = tt
    elements-Aligned (table t) f = tt
    elements-Aligned (list vs) f = actions-Aligned vs f
    elements-Aligned (slice t vs) f = actions-Aligned vs f
    elements-Aligned (fields fs) f = tt
    elements-Aligned (expression e) f = tt

    pub actions-Aligned : (vs : Values) → FitsAll vs → All Aligned (actions env vs)
    actions-Aligned no_values f = tt
    actions-Aligned (value v vs) (f, g) = (add_var-Aligned v f, actions-Aligned vs g)

    parts-Aligned : (vs : Values) → FitsAll vs → All AlignedPart (parts env vs)
    parts-Aligned no_values f = tt
    parts-Aligned (value v vs) (f, g) =
        ((add_var-Aligned v f, elements-Aligned v f), parts-Aligned vs g)

    bindings-Aligned : (vs : Values) → FitsNamed vs → All (λ e. AlignedPart e.1) (bindings env vs)
    bindings-Aligned no_values f = tt
    bindings-Aligned (value v vs) (f, g) =
        All-append_parts (bindings_of env v) (bindings env vs) (bindings_of-Aligned v f)
          (bindings-Aligned vs g)

    bindings_of-Aligned :
        (v : Value) → FitsBinding v → All (λ e. AlignedPart e.1) (bindings_of env v)
    bindings_of-Aligned (named_arg n v) f = ((add_var-Aligned v f, elements-Aligned v f), tt)
    bindings_of-Aligned (fields fs) f = field_bindings-Aligned fs f
    bindings_of-Aligned null f = tt
    bindings_of-Aligned nil_pointer f = tt
    bindings_of-Aligned (scalar s) f = tt
    bindings_of-Aligned (bytes s) f = tt
    bindings_of-Aligned (valuer v) f = tt
    bindings_of-Aligned (gorm_valuer v) f = tt
    bindings_of-Aligned (column c) f = tt
    bindings_of-Aligned (table t) f = tt
    bindings_of-Aligned (list vs) f = tt
    bindings_of-Aligned (slice t vs) f = tt
    bindings_of-Aligned (expression e) f = tt

    field_bindings-Aligned :
        (fs : Fields) → FitsFields fs → All (λ e. AlignedPart e.1) (field_bindings env fs)
    field_bindings-Aligned no_fields f = tt
    field_bindings-Aligned (field n v fs) (f, g) =
        ((add_var-Aligned v f, elements-Aligned v f), field_bindings-Aligned fs g)

    write_quoted-Aligned : (q : Quotable) → FitsName q → Aligned (write_quoted env q)
    write_quoted-Aligned (a_column c) f = quote_column-Aligned m c f
    write_quoted-Aligned (a_table t) f = quote_table-Aligned m t f
    write_quoted-Aligned (columns cs) f =
        in_parens-Aligned (commas-Aligned _ (quote_columns-Aligned m cs f))
    write_quoted-Aligned (raw_expr sql vars bare) (e, f) =
        walk_expr-Aligned m sql (parts env vars) bare false (e ∙ sym (parts-length vars))
          (parts-Aligned vars f)
    write_quoted-Aligned (a_name n) f = quote-Aligned m n f
    write_quoted-Aligned (name_list ns) f =
        in_parens-Aligned (commas-Aligned _ (quote_names-Aligned m ns f))
    write_quoted-Aligned (other s) f = quote-Aligned m s f

    pub build-Aligned : (e : Expression) → FitsExpr e → Aligned (build env e)
    build-Aligned (expr sql vars bare) (e, f) =
        walk_expr-Aligned m sql (parts env vars) bare false (e ∙ sym (parts-length vars))
          (parts-Aligned vars f)
    build-Aligned (named_expr sql vars) (e, f) =
        walk_named-Aligned m (bindings env vars) sql (parts env vars) false false []
          (bindings-Aligned vars f) e refl
    build-Aligned (in_values q vs) (f, g) =
        build_in-Aligned (write_quoted-Aligned q f) _ _ _ (parts env vs) (refl, refl, refl)
          (parts-Aligned vs g)
    build-Aligned (eq q v) (f, g) =
        build_eq-Aligned (write_quoted-Aligned q f) _ (add_var-Aligned v g, elements-Aligned v g)
    build-Aligned (neq q v) (f, g) =
        build_neq-Aligned (write_quoted-Aligned q f) _ (add_var-Aligned v g, elements-Aligned v g)
    build-Aligned (gt q v) (f, g) =
        compare_by-Aligned (write_quoted-Aligned q f) _ refl (add_var-Aligned v g)
    build-Aligned (gte q v) (f, g) =
        compare_by-Aligned (write_quoted-Aligned q f) _ refl (add_var-Aligned v g)
    build-Aligned (lt q v) (f, g) =
        compare_by-Aligned (write_quoted-Aligned q f) _ refl (add_var-Aligned v g)
    build-Aligned (lte q v) (f, g) =
        compare_by-Aligned (write_quoted-Aligned q f) _ refl (add_var-Aligned v g)
    build-Aligned (like q v) (f, g) =
        compare_by-Aligned (write_quoted-Aligned q f) _ refl (add_var-Aligned v g)
    build-Aligned (and_conditions es) f = and_conditions-Aligned _ (nodes-Aligned es f)
    build-Aligned (or_conditions es) f = or_conditions-Aligned _ (nodes-Aligned es f)
    build-Aligned (not_conditions es) f = build_not-Aligned _ (nodes-Aligned es f)
    build-Aligned (comma_expression es) f =
        build_comma-Aligned _ (builds-Aligned _ (nodes-Aligned es f))

    negate-Aligned : (e : Expression) → FitsExpr e → AlignedOption (negate env e)
    negate-Aligned (expr sql vars bare) f = tt
    negate-Aligned (named_expr sql vars) f = tt
    negate-Aligned (in_values q vs) (f, g) =
        build_in-Aligned (write_quoted-Aligned q f) _ _ _ (parts env vs) (refl, refl, refl)
          (parts-Aligned vs g)
    negate-Aligned (eq q v) (f, g) =
        build_neq-Aligned (write_quoted-Aligned q f) _ (add_var-Aligned v g, elements-Aligned v g)
    negate-Aligned (neq q v) (f, g) =
        build_eq-Aligned (write_quoted-Aligned q f) _ (add_var-Aligned v g, elements-Aligned v g)
    negate-Aligned (gt q v) (f, g) =
        compare_by-Aligned (write_quoted-Aligned q f) _ refl (add_var-Aligned v g)
    negate-Aligned (gte q v) (f, g) =
        compare_by-Aligned (write_quoted-Aligned q f) _ refl (add_var-Aligned v g)
    negate-Aligned (lt q v) (f, g) =
        compare_by-Aligned (write_quoted-Aligned q f) _ refl (add_var-Aligned v g)
    negate-Aligned (lte q v) (f, g) =
        compare_by-Aligned (write_quoted-Aligned q f) _ refl (add_var-Aligned v g)
    negate-Aligned (like q v) (f, g) =
        compare_by-Aligned (write_quoted-Aligned q f) _ refl (add_var-Aligned v g)
    negate-Aligned (and_conditions es) f = tt
    negate-Aligned (or_conditions es) f = tt
    negate-Aligned (not_conditions es) f = tt
    negate-Aligned (comma_expression es) f = tt

    nodes-Aligned : (es : Exprs) → FitsExprs es → All AlignedNode (nodes env es)
    nodes-Aligned no_exprs f = tt
    nodes-Aligned (and_then e es) (f, g) =
        ((build-Aligned e f, negate-Aligned e f), nodes-Aligned es g)

  joined-Aligned :
      (es : Exprs) → FitsExprs es → Aligned (build_exprs and_with_space (put_first (nodes env es)))
  joined-Aligned es f =
      build_and-Aligned _ (put_first-All AlignedNode (nodes env es) (nodes-Aligned es f))

  -- Building a WHERE clause adds as many placeholders to the statement as variables, under these
  -- conditions: each raw fragment (`Expr`) has as many `?` as variables and each named one (`NamedExpr`)
  -- has none; no name or alias has a `?`; no `sql.NamedArg` is bound as a value, at a `?`, in a comparison
  -- or an IN, or as the value of a name; the dialect writes one `?` for each variable and none of its own
  -- in a quoted name; and the statement's table and keys have none in their names.
  pub build_where-Aligned : (es : Exprs) → FitsExprs es → Aligned (build_where env es)
  unfolding build_where FitsExprs FitsExpr
  build_where-Aligned (and_then (and_conditions es) no_exprs) (f, g) = joined-Aligned es f
  build_where-Aligned es f = joined-Aligned es f
