-- ===== src/Clause/MarksOfNames.antt =====
-- Placeholders and variables stay in step through the quoting of names.
use pewter_rinse_moor.Prelude.{
  ◌+◌, ◌≡◌, refl, ◌∙◌, Bool, true, false, some, List, [], ◌∷◌, Bytes, arith, equal_bytes,
  equal_numbers, ◌==◌, if◌then◌else◌, length, length-append, All, Option-cases, inl, inr,
}
use pewter_rinse_moor.Clause.{Column, Table, Value}
use pewter_rinse_moor.Clause.Writer.{
  Env, Schema, Error, write, write_name, add_error, byte, bind, current_table, primary_key,
  alias_with, quote_current, quote_table, quote_primary, quote_prefix, quote_column, quote_columns,
  quote_names,
}
use pewter_rinse_moor.Clause.Marks.{
  marks, marks-append, Aligned, >>-Aligned, skip-Aligned, write-Aligned, add_error-Aligned,
  if-Aligned, HasMarks, IsCleanColumn, IsCleanTable,
}

module _ {env : Env} (m : HasMarks env) where
  pub bind-Aligned : (v : Value) → Aligned (bind env v)
  unfolding bind
  bind-Aligned v = record {
    balance = λ s. omega (
      arith,
      marks-append s.sql (env.bind_var (length s.vars + 1) v),
      m.place (length s.vars + 1) v,
      length-append {0} s.vars (v ∷ []),
    );
  }

  pub quote-Aligned : (t : Bytes) → marks t ≡ 0 → Aligned (write (env.quote t))
  quote-Aligned t h = write-Aligned (env.quote t) (m.quoted t ∙ h)

  write_name-Aligned : (raw : Bool) (t : Bytes) → marks t ≡ 0 → Aligned (write_name env raw t)
  write_name-Aligned true t h = write-Aligned t h
  write_name-Aligned false t h = quote-Aligned t h

  alias_with-Aligned :
      (sep : Bytes) (raw : Bool) (t : Bytes)
      → marks sep ≡ 0
      → marks t ≡ 0
      → Aligned (alias_with env sep raw t)
  unfolding alias_with
  alias_with-Aligned sep raw t hs h =
      if-Aligned (t == []) skip-Aligned
        (>>-Aligned (write-Aligned sep hs) (write_name-Aligned raw t h))

  quote_current-Aligned : (raw : Bool) → Aligned (quote_current env raw)
  unfolding quote_current
  quote_current-Aligned raw = elim (Option-cases env.table_expr) [
    | inl e ↦ rw e (
        if-Aligned (env.table == []) (add_error-Aligned _)
          (write_name-Aligned raw env.table m.table))
    | inr (a, e) ↦ rw e (m.table_expr a e)
  ]

  pub quote_table-Aligned : (t : Table) → IsCleanTable t → Aligned (quote_table env t)
  unfolding quote_table marks
  quote_table-Aligned t (hn, ha) =
      >>-Aligned
        (if-Aligned (t.name == current_table) (quote_current-Aligned t.raw)
          (write_name-Aligned t.raw t.name hn))
        (alias_with-Aligned (byte b' ') t.raw t.alias refl ha)

  quote_primary-Aligned : (raw : Bool) → Aligned (quote_primary env raw)
  unfolding quote_primary
  quote_primary-Aligned raw = elim (Option-cases env.schema) [
    | inl e ↦ rw e (add_error-Aligned _)
    | inr (c, e) ↦ elim (Option-cases c.prioritized_primary_field) [
      | inr (n, p) ↦ rw (e, p) (write_name-Aligned raw n (m.primary c n e p))
      | inl p ↦ rw (e, p) (of_names c e c.db_names refl)
    ]
  ]
    where
      of_names :
          (c : Schema)
          → env.schema ≡ some c
          → (l : List Bytes) → c.db_names ≡ l
          → Aligned (elim c.db_names [
            | [] ↦ add_error Error.model_accessible_fields_required
            | db_name ∷ _ ↦ write_name env raw db_name
          ])
      of_names c e [] h = rw h (add_error-Aligned _)
      of_names c e (n ∷ ns) h = rw h (write_name-Aligned raw n (m.first_name c n ns e h))

  quote_prefix-Aligned : (c : Column) → marks c.table ≡ 0 → Aligned (quote_prefix env c)
  unfolding quote_prefix marks
  quote_prefix-Aligned c h = if-Aligned (c.table == []) skip-Aligned (
      >>-Aligned (write_name-Aligned c.raw _ (clean (c.table == current_table)))
        (write-Aligned (byte b'.') refl))
    where
      clean : (b : Bool) → marks (if b then env.table else c.table) ≡ 0
      clean true = m.table
      clean false = h

  pub quote_column-Aligned : (c : Column) → IsCleanColumn c → Aligned (quote_column env c)
  unfolding quote_column marks
  quote_column-Aligned c (ht, hn, ha) =
      >>-Aligned
        (>>-Aligned (quote_prefix-Aligned c ht) (
          if-Aligned (c.name == primary_key) (quote_primary-Aligned c.raw)
            (write_name-Aligned c.raw c.name hn)))
        (alias_with-Aligned _ c.raw c.alias refl ha)

  pub quote_columns-Aligned :
      (cs : List Column) → All IsCleanColumn cs → All Aligned (quote_columns env cs)
  unfolding quote_columns
  quote_columns-Aligned [] h = tt
  quote_columns-Aligned (c ∷ cs) (p, h) = (quote_column-Aligned c p, quote_columns-Aligned cs h)

  pub quote_names-Aligned :
      (ns : List Bytes) → All (λ n. marks n ≡ 0) ns → All Aligned (quote_names env ns)
  unfolding quote_names
  quote_names-Aligned [] h = tt
  quote_names-Aligned (n ∷ ns) (p, h) = (quote-Aligned n p, quote_names-Aligned ns h)
