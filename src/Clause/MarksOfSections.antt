-- ===== src/Clause/MarksOfSections.antt =====
-- Placeholders and variables stay in step through the clauses that a statement has besides WHERE.
use pewter_rinse_moor.Prelude.{
  ◌≡◌, refl, codes, Option, none, some, List, [], ◌∷◌, Bytes, equal_bytes, equal_numbers, ◌==◌,
  if◌then◌else◌, All,
}
use pewter_rinse_moor.Clause.{Column, Table, Values, Expression, Exprs, scalar, no_exprs, and_then}
use pewter_rinse_moor.Clause.Writer.{
  Env, Action, ◌>>◌, skip, write, current_table, primary_key, quote_table, quote_column,
}
use pewter_rinse_moor.Clause.Marks.{
  marks, Aligned, >>-Aligned, skip-Aligned, write-Aligned, in_parens-Aligned, commas-Aligned,
  if-Aligned, HasMarks, IsCleanColumn, IsCleanTable, Fits, FitsAll, FitsExpr, FitsExprs,
}
use pewter_rinse_moor.Clause.Build.{add_var}
use pewter_rinse_moor.Clause.MarksOfNames.{
  quote_table-Aligned, quote_column-Aligned, quote_columns-Aligned,
}
use pewter_rinse_moor.Clause.MarksOfBuild.{add_var-Aligned, actions-Aligned, build_where-Aligned}
use pewter_rinse_moor.Clause.Sections.{
  ℤ, Limit, OrderByColumn, Assignment, Join, Section, where_section, limit_section,
  order_by_section, group_by_section, insert_section, update_section, set_section, values_section,
  select_section, returning_section, locking_section, on_conflict_section, from_section,
  delete_section,
}
use pewter_rinse_moor.Clause.Merge.{Content, section, plain, is_positive, is_negative}
use pewter_rinse_moor.Clause.Statement.{
  the_table, the_key, has_limit, modified, spaced, build_limit, order_columns, condition_after,
  quote_or_current, assignments, build_set, value_rows, columns_or_star,
}

abbrev pub IsClean : Bytes → Type 0
IsClean t = marks t ≡ 0

abbrev pub FitsOption : Option Expression → Type 0
FitsOption none = Unit
FitsOption (some e) = FitsExpr e

abbrev pub FitsColumns : Option (List Column) → Type 0
FitsColumns none = Unit
FitsColumns (some cs) = All IsCleanColumn cs

abbrev pub FitsSet : List Assignment → Type 0
FitsSet l = All (λ a. IsCleanColumn a.column × Fits a.value) l

abbrev pub FitsJoin : Join → Type 0
FitsJoin j =
    IsClean j.join_type
    × IsCleanTable j.table
    × FitsExprs j.on
    × All IsClean j.using
    × FitsOption j.expression

-- A section without a placeholder in its names and texts, and with fitting expressions and values.
unfoldable pub FitsSection : Section → Type 0
FitsSection (where_section es) = FitsExprs es
FitsSection (limit_section l) = Unit
FitsSection (order_by_section o) =
    All (λ c. IsCleanColumn c.column) o.columns × FitsOption o.expression
FitsSection (group_by_section g) = All IsCleanColumn g.columns × FitsExprs g.having
FitsSection (insert_section i) = IsCleanTable i.table × IsClean i.modifier
FitsSection (update_section u) = IsCleanTable u.table × IsClean u.modifier
FitsSection (set_section s) = FitsSet s
FitsSection (values_section r) = All IsCleanColumn r.columns × All FitsAll r.values
FitsSection (select_section s) = All IsCleanColumn s.columns × FitsOption s.expression
FitsSection (returning_section r) = FitsColumns r.columns
FitsSection (locking_section l) = IsClean l.strength × IsCleanTable l.table × IsClean l.options
FitsSection (on_conflict_section o) =
    All IsCleanColumn o.columns
    × FitsExprs o.condition
    × FitsExprs o.target_condition
    × IsClean o.on_constraint
    × FitsSet o.do_updates
FitsSection (from_section f) = All IsCleanTable f.tables × All FitsJoin f.joins
FitsSection (delete_section d) = IsClean d.modifier

abbrev pub FitsContent : Content → Type 0
FitsContent (section s) = FitsSection s
FitsContent (plain e) = FitsExpr e

pub modified-Aligned : (t : Bytes) → IsClean t → Aligned (modified t)
unfolding modified marks
modified-Aligned t h =
    if-Aligned (t == []) skip-Aligned (>>-Aligned (write-Aligned t h) (write-Aligned _ refl))

pub spaced-Aligned : (l : List Action) → All Aligned l → Aligned (spaced l)
unfolding spaced marks
spaced-Aligned [] h = skip-Aligned
spaced-Aligned (a ∷ l) (p, h) =
    >>-Aligned (>>-Aligned (write-Aligned _ refl) p) (spaced-Aligned l h)

module _ {env : Env} (m : HasMarks env) where
  pub the_table-Aligned : Aligned (quote_table env the_table)
  unfolding current_table marks codes
  the_table-Aligned = quote_table-Aligned m the_table (refl, refl)

  the_key-Aligned : Aligned (quote_column env the_key)
  unfolding primary_key marks codes
  the_key-Aligned = quote_column-Aligned m the_key (refl, refl, refl)

  pub build_limit-Aligned : (decimal : ℤ → Bytes) (l : Limit) → Aligned (build_limit env decimal l)
  unfolding build_limit marks Fits
  build_limit-Aligned decimal l = >>-Aligned (limited l.limit) (
      if-Aligned (is_positive l.offset)
        (>>-Aligned
          (>>-Aligned (if-Aligned (has_limit l.limit) (write-Aligned _ refl) skip-Aligned)
            (write-Aligned _ refl))
          (add_var-Aligned m (scalar (decimal l.offset)) tt))
        skip-Aligned)
    where
      limited :
          (o : Option ℤ)
          → Aligned (elim o [
            | none ↦ skip
            | some n ↦
                if is_negative n
                then skip
                else (write (codes "LIMIT ") >> add_var env (scalar (decimal n)))
          ])
      limited none = skip-Aligned
      limited (some n) =
          if-Aligned (is_negative n) skip-Aligned
            (>>-Aligned (write-Aligned _ refl) (add_var-Aligned m (scalar (decimal n)) tt))

  pub order_columns-Aligned :
      (cs : List OrderByColumn)
      → All (λ c. IsCleanColumn c.column) cs
      → All Aligned (order_columns env cs)
  unfolding order_columns marks
  order_columns-Aligned [] h = tt
  order_columns-Aligned (c ∷ cs) (p, h) = (
    >>-Aligned (quote_column-Aligned m c.column p)
        (if-Aligned c.desc (write-Aligned _ refl) skip-Aligned),
    order_columns-Aligned cs h,
  )

  pub condition_after-Aligned :
      (t : Bytes) (es : Exprs) (u : Bytes)
      → IsClean t
      → FitsExprs es
      → IsClean u
      → Aligned (condition_after env t es u)
  unfolding condition_after
  condition_after-Aligned t no_exprs u ht f hu = skip-Aligned
  condition_after-Aligned t (and_then e es) u ht f hu =
      >>-Aligned (>>-Aligned (write-Aligned t ht) (build_where-Aligned m (and_then e es) f))
        (write-Aligned u hu)

  pub quote_or_current-Aligned : (t : Table) → IsCleanTable t → Aligned (quote_or_current env t)
  unfolding quote_or_current
  quote_or_current-Aligned t h =
      if-Aligned (t.name == []) the_table-Aligned (quote_table-Aligned m t h)

  pub assignments-Aligned : (l : List Assignment) → FitsSet l → All Aligned (assignments env l)
  unfolding assignments marks
  assignments-Aligned [] h = tt
  assignments-Aligned (a ∷ l) ((p, q), h) = (
    >>-Aligned (>>-Aligned (quote_column-Aligned m a.column p) (write-Aligned _ refl))
        (add_var-Aligned m a.value q),
    assignments-Aligned l h,
  )

  pub build_set-Aligned : (l : List Assignment) → FitsSet l → Aligned (build_set env l)
  unfolding build_set marks
  build_set-Aligned [] h =
      >>-Aligned (>>-Aligned the_key-Aligned (write-Aligned _ refl)) the_key-Aligned
  build_set-Aligned (a ∷ l) h = commas-Aligned _ (assignments-Aligned (a ∷ l) h)

  pub value_rows-Aligned : (l : List Values) → All FitsAll l → All Aligned (value_rows env l)
  unfolding value_rows
  value_rows-Aligned [] h = tt
  value_rows-Aligned (vs ∷ l) (p, h) =
      (in_parens-Aligned (commas-Aligned _ (actions-Aligned m vs p)), value_rows-Aligned l h)

  pub columns_or_star-Aligned :
      (cs : List Column) → All IsCleanColumn cs → Aligned (columns_or_star env cs)
  unfolding columns_or_star marks
  columns_or_star-Aligned [] h = write-Aligned _ refl
  columns_or_star-Aligned (c ∷ cs) h = commas-Aligned _ (quote_columns-Aligned m (c ∷ cs) h)
