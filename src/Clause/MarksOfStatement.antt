-- ===== src/Clause/MarksOfStatement.antt =====
-- Placeholders and variables stay in step through the building of a whole statement.
use pewter_rinse_moor.Prelude.{
  refl, codes, Bool, Option, none, some, List, [], ◌∷◌, Bytes, equal_bytes, equal_numbers, ◌==◌,
  All,
}
use pewter_rinse_moor.Clause.{Column, Table, Values, Expression, Exprs, no_exprs, and_then}
use pewter_rinse_moor.Clause.Writer.{
  Env, ◌>>◌, skip, write, byte, commas, quote_table, quote_columns,
}
use pewter_rinse_moor.Clause.Marks.{
  marks, Aligned, >>-Aligned, skip-Aligned, write-Aligned, in_parens-Aligned, commas-Aligned,
  if-Aligned, HasMarks, IsCleanColumn, IsCleanTable, FitsAll, FitsExprs,
}
use pewter_rinse_moor.Clause.Build.{build}
use pewter_rinse_moor.Clause.MarksOfNames.{
  quote_table-Aligned, quote_columns-Aligned, quote_names-Aligned,
}
use pewter_rinse_moor.Clause.MarksOfBuild.{build-Aligned, build_where-Aligned}
use pewter_rinse_moor.Clause.Sections.{
  ℤ, OrderBy, Locking, OnConflict, Join, Section, where_section, limit_section, order_by_section,
  group_by_section, insert_section, update_section, set_section, values_section, select_section,
  returning_section, locking_section, on_conflict_section, from_section, delete_section,
}
use pewter_rinse_moor.Clause.Statement.{
  modified, order_columns, build_order_by, build_group_by, build_insert, build_update, build_values,
  build_select, build_returning, build_locking, build_on_conflict, join_using, join_on, build_join,
  quote_tables, build_joins, build_from, build_delete, build_section,
}
use pewter_rinse_moor.Clause.MarksOfSections.{
  IsClean, FitsOption, FitsColumns, FitsJoin, FitsSection, modified-Aligned, spaced-Aligned,
  the_table-Aligned, build_limit-Aligned, order_columns-Aligned, condition_after-Aligned,
  quote_or_current-Aligned, build_set-Aligned, value_rows-Aligned, columns_or_star-Aligned,
}

module _ {env : Env} (m : HasMarks env) where
  build_order_by-Aligned :
      (o : OrderBy) → FitsSection (order_by_section o) → Aligned (build_order_by env o)
  unfolding build_order_by FitsSection
  build_order_by-Aligned o (hc, he) = ordered o.expression he
    where
      ordered :
          (e : Option Expression)
          → FitsOption e
          → Aligned (elim e [ some e ↦ build env e | none ↦ commas (order_columns env o.columns) ])
      ordered none h = commas-Aligned _ (order_columns-Aligned m o.columns hc)
      ordered (some e) h = build-Aligned m e h

  build_values-Aligned :
      (cs : List Column) (rows : List Values)
      → All IsCleanColumn cs
      → All FitsAll rows
      → Aligned (build_values env (record { columns = cs; values = rows }))
  unfolding build_values marks
  build_values-Aligned [] rows h k = write-Aligned _ refl
  build_values-Aligned (c ∷ cs) rows h k =
      >>-Aligned
        (>>-Aligned (in_parens-Aligned (commas-Aligned _ (quote_columns-Aligned m (c ∷ cs) h)))
          (write-Aligned _ refl))
        (commas-Aligned _ (value_rows-Aligned m rows k))

  build_select-Aligned :
      (distinct : Bool) (cs : List Column) (e : Option Expression)
      → All IsCleanColumn cs
      → Aligned (build_select env (record { distinct = distinct; columns = cs; expression = e }))
  unfolding build_select marks
  build_select-Aligned distinct [] e h = columns_or_star-Aligned m [] h
  build_select-Aligned distinct (c ∷ cs) e h =
      >>-Aligned (if-Aligned distinct (write-Aligned _ refl) skip-Aligned)
        (columns_or_star-Aligned m (c ∷ cs) h)

  build_returning-Aligned :
      (o : Option (List Column))
      → FitsColumns o
      → Aligned (build_returning env (record { columns = o }))
  unfolding build_returning
  build_returning-Aligned none h = columns_or_star-Aligned m [] tt
  build_returning-Aligned (some cs) h = columns_or_star-Aligned m cs h

  build_locking-Aligned :
      (l : Locking) → FitsSection (locking_section l) → Aligned (build_locking env l)
  unfolding build_locking FitsSection marks
  build_locking-Aligned l (hs, ht, ho) =
      >>-Aligned
        (>>-Aligned (write-Aligned l.strength hs) (
          if-Aligned (l.table.name == []) skip-Aligned
            (>>-Aligned (write-Aligned _ refl) (quote_table-Aligned m l.table ht))))
        (if-Aligned (l.options == []) skip-Aligned
          (>>-Aligned (write-Aligned _ refl) (write-Aligned l.options ho)))

  build_on_conflict-Aligned :
      (o : OnConflict) → FitsSection (on_conflict_section o) → Aligned (build_on_conflict env o)
  unfolding build_on_conflict FitsSection marks
  build_on_conflict-Aligned o (hc, hw, ht, hn, hs) =
      >>-Aligned
        (>>-Aligned
          (if-Aligned (o.on_constraint == [])
            (>>-Aligned (targets o.columns hc)
              (condition_after-Aligned m _ o.target_condition _ refl ht refl))
            (>>-Aligned (>>-Aligned (write-Aligned _ refl) (write-Aligned o.on_constraint hn))
              (write-Aligned _ refl)))
          (if-Aligned o.do_nothing (write-Aligned _ refl)
            (>>-Aligned (write-Aligned _ refl) (build_set-Aligned m o.do_updates hs))))
        (condition_after-Aligned m _ o.condition _ refl hw refl)
    where
      targets :
          (cs : List Column)
          → All IsCleanColumn cs
          → Aligned (elim cs [
            | [] ↦ skip
            | c ∷ cs ↦
                write (byte b'(') >> commas (quote_columns env (c ∷ cs)) >> write (codes ") ")
          ])
      targets [] h = skip-Aligned
      targets (c ∷ cs) h =
          >>-Aligned
            (>>-Aligned (write-Aligned _ refl)
              (commas-Aligned _ (quote_columns-Aligned m (c ∷ cs) h)))
            (write-Aligned _ refl)

  join_on-Aligned :
      (es : Exprs) (ns : List Bytes) → FitsExprs es → All IsClean ns → Aligned (join_on env es ns)
  unfolding join_on join_using marks
  join_on-Aligned no_exprs [] f h = skip-Aligned
  join_on-Aligned no_exprs (n ∷ ns) f h =
      >>-Aligned
        (>>-Aligned (write-Aligned _ refl) (commas-Aligned _ (quote_names-Aligned m (n ∷ ns) h)))
        (write-Aligned _ refl)
  join_on-Aligned (and_then e es) ns f h =
      >>-Aligned (write-Aligned _ refl) (build_where-Aligned m (and_then e es) f)

  build_join-Aligned : (j : Join) → FitsJoin j → Aligned (build_join env j)
  unfolding build_join marks
  build_join-Aligned j (hj, ht, ho, hu, he) = joined j.expression he
    where
      joined :
          (e : Option Expression)
          → FitsOption e
          → Aligned (elim e [
            | some e ↦ build env e
            | none ↦
                modified j.join_type
                >> write (codes "JOIN ")
                >> quote_table env j.table
                >> join_on env j.on j.using
          ])
      joined (some e) h = build-Aligned m e h
      joined none h =
          >>-Aligned
            (>>-Aligned (>>-Aligned (modified-Aligned j.join_type hj) (write-Aligned _ refl))
              (quote_table-Aligned m j.table ht))
            (join_on-Aligned j.on j.using ho hu)

  build_joins-Aligned : (js : List Join) → All FitsJoin js → All Aligned (build_joins env js)
  unfolding build_joins
  build_joins-Aligned [] h = tt
  build_joins-Aligned (j ∷ js) (p, h) = (build_join-Aligned j p, build_joins-Aligned js h)

  quote_tables-Aligned : (ts : List Table) → All IsCleanTable ts → All Aligned (quote_tables env ts)
  unfolding quote_tables
  quote_tables-Aligned [] h = tt
  quote_tables-Aligned (t ∷ ts) (p, h) = (quote_table-Aligned m t p, quote_tables-Aligned ts h)

  build_from-Aligned :
      (ts : List Table) (js : List Join)
      → All IsCleanTable ts
      → All FitsJoin js
      → Aligned (build_from env (record { tables = ts; joins = js }))
  unfolding build_from
  build_from-Aligned [] js h k =
      >>-Aligned (the_table-Aligned m) (spaced-Aligned _ (build_joins-Aligned js k))
  build_from-Aligned (t ∷ ts) js h k =
      >>-Aligned (commas-Aligned _ (quote_tables-Aligned (t ∷ ts) h))
        (spaced-Aligned _ (build_joins-Aligned js k))

  pub build_section-Aligned :
      (decimal : ℤ → Bytes) (s : Section) → FitsSection s → Aligned (build_section env decimal s)
  unfolding build_section FitsSection build_group_by build_insert build_update build_delete marks
  build_section-Aligned decimal (where_section es) f = build_where-Aligned m es f
  build_section-Aligned decimal (limit_section l) f = build_limit-Aligned m decimal l
  build_section-Aligned decimal (order_by_section o) f = build_order_by-Aligned o f
  build_section-Aligned decimal (group_by_section g) (f, h) =
      >>-Aligned (commas-Aligned _ (quote_columns-Aligned m g.columns f))
        (condition_after-Aligned m _ g.having [] refl h refl)
  build_section-Aligned decimal (insert_section i) (f, h) =
      >>-Aligned (>>-Aligned (modified-Aligned i.modifier h) (write-Aligned _ refl))
        (quote_or_current-Aligned m i.table f)
  build_section-Aligned decimal (update_section u) (f, h) =
      >>-Aligned (modified-Aligned u.modifier h) (quote_or_current-Aligned m u.table f)
  build_section-Aligned decimal (set_section s) f = build_set-Aligned m s f
  build_section-Aligned decimal (values_section r) (f, h) =
      build_values-Aligned r.columns r.values f h
  build_section-Aligned decimal (select_section s) (f, h) =
      build_select-Aligned s.distinct s.columns s.expression f
  build_section-Aligned decimal (returning_section r) f = build_returning-Aligned r.columns f
  build_section-Aligned decimal (locking_section l) f = build_locking-Aligned l f
  build_section-Aligned decimal (on_conflict_section o) f = build_on_conflict-Aligned o f
  build_section-Aligned decimal (from_section r) (f, h) = build_from-Aligned r.tables r.joins f h
  build_section-Aligned decimal (delete_section d) f = >>-Aligned (write-Aligned _ refl) (
      if-Aligned (d.modifier == []) skip-Aligned
        (>>-Aligned (write-Aligned _ refl) (write-Aligned d.modifier f)))
