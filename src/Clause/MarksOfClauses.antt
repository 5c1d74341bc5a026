-- ===== src/Clause/MarksOfClauses.antt =====
-- Placeholders and variables stay in step through the clauses of a whole statement.
use pewter_rinse_moor.Prelude.{
  ◌≡◌, refl, Bool, true, false, Option, none, some, List, [], ◌∷◌, Bytes, equal_bytes,
  equal_numbers, All, Option-cases, inl, inr,
}
use pewter_rinse_moor.Clause.{Expression}
use pewter_rinse_moor.Clause.Writer.{Env, Action, ◌>>◌, skip}
use pewter_rinse_moor.Clause.Marks.{
  marks, Aligned, >>-Aligned, skip-Aligned, write-Aligned, if-Aligned, HasMarks,
}
use pewter_rinse_moor.Clause.MarksOfBuild.{build-Aligned}
use pewter_rinse_moor.Clause.Sections.{ℤ, Section}
use pewter_rinse_moor.Clause.Merge.{
  Content, section, plain, Clause, Clauses, find_clause, add_clauses,
}
use pewter_rinse_moor.Clause.Statement.{
  modified, build_content, before, behind, build_clause, build_named, build_clauses,
  build_statement,
}
use pewter_rinse_moor.Clause.MarksOfConditions.{AlignedOption}
use pewter_rinse_moor.Clause.MarksOfSections.{
  FitsOption, FitsSection, FitsContent, modified-Aligned,
}
use pewter_rinse_moor.Clause.MarksOfStatement.{build_section-Aligned}
use pewter_rinse_moor.Clause.MarksOfMerge.{
  FitsMaybe, FitsClause, FitsClauses, find_clause-Fits, add_clauses-Fits,
}

module _ {env : Env} (m : HasMarks env) (decimal : ℤ → Bytes)
    {builders : Bytes → Option (Clause → Action)}
    (own : (n : Bytes) (b : Clause → Action) (c : Clause)
      → builders n ≡ some b
      → FitsClause c
      → Aligned (b c)) where
  before-Aligned : (o : Option Expression) → FitsOption o → Aligned (before env decimal o)
  unfolding before marks
  before-Aligned none f = skip-Aligned
  before-Aligned (some e) f = >>-Aligned (build-Aligned m e f) (write-Aligned _ refl)

  behind-Aligned : (o : Option Expression) → FitsOption o → Aligned (behind env decimal o)
  unfolding behind marks
  behind-Aligned none f = skip-Aligned
  behind-Aligned (some e) f = >>-Aligned (write-Aligned _ refl) (build-Aligned m e f)

  build_content-Aligned : (c : Content) → FitsContent c → Aligned (build_content env decimal c)
  unfolding build_content
  build_content-Aligned (section s) f = build_section-Aligned m decimal s f
  build_content-Aligned (plain e) f = build-Aligned m e f

  build_clause-Aligned : (c : Clause) → FitsClause c → Aligned (build_clause env decimal c)
  unfolding build_clause
  build_clause-Aligned c f = built c.builder f.builder
    where
      written :
          (e : Option Content)
          → FitsMaybe e
          → Aligned (elim e [
            | none ↦ skip
            | some e ↦
                before env decimal c.before_expression
                >> modified c.name
                >> before env decimal c.after_name_expression
                >> build_content env decimal e
                >> behind env decimal c.after_expression
          ])
      written none h = skip-Aligned
      written (some e) h =
          >>-Aligned
            (>>-Aligned
              (>>-Aligned
                (>>-Aligned (before-Aligned c.before_expression f.before)
                  (modified-Aligned c.name f.name))
                (before-Aligned c.after_name_expression f.after_name))
              (build_content-Aligned e h))
            (behind-Aligned c.after_expression f.after)

      built :
          (b : Option Action)
          → AlignedOption b
          → Aligned (elim b [
            | some a ↦ a
            | none ↦ elim c.expression [
              | none ↦ skip
              | some e ↦
                  before env decimal c.before_expression
                  >> modified c.name
                  >> before env decimal c.after_name_expression
                  >> build_content env decimal e
                  >> behind env decimal c.after_expression
            ]
          ])
      built (some a) h = h
      built none h = written c.expression f.expression

  build_named-Aligned :
      (n : Bytes) (c : Clause) → FitsClause c → Aligned (build_named env decimal builders n c)
  unfolding build_named
  build_named-Aligned n c f = elim (Option-cases (builders n)) [
    | inl e ↦ rw (build_named, e) (build_clause-Aligned c f)
    | inr (b, e) ↦ rw (build_named, e) (own n b c e f)
  ]

  build_clauses-Aligned :
      (written : Bool) (names : List Bytes) (l : Clauses)
      → FitsClauses l
      → Aligned (build_clauses env decimal builders written names l)
  unfolding build_clauses marks
  build_clauses-Aligned written [] l h = skip-Aligned
  build_clauses-Aligned written (n ∷ names) l h = elim (Option-cases (find_clause n l)) [
    | inl e ↦ rw (build_clauses, e) (build_clauses-Aligned written names l h)
    | inr (c, e) ↦
        rw (build_clauses, e)
          (>>-Aligned
            (>>-Aligned (if-Aligned written (write-Aligned _ refl) skip-Aligned)
              (build_named-Aligned n c (find_clause-Fits n l c h e)))
            (build_clauses-Aligned true names l h))
  ]

  -- Whatever clauses are added to a new statement, and whichever of them are then built in whatever order,
  -- as many placeholders are written as variables are bound, under these conditions: each raw fragment
  -- (`Expr`) has as many `?` as variables and each named one (`NamedExpr`) has none; no name, alias,
  -- modifier, join type, lock or constraint of a clause has a `?`; no `sql.NamedArg` is bound as a value,
  -- at a `?`, in a comparison, an IN, an assignment or a row, or as the value of a name; the dialect
  -- writes one `?` for each variable and none of its own in a quoted name; the statement's table and keys
  -- have none in their names; and the dialect's clause builders write as many as they bind.
  pub build_added-Aligned :
      (s : List Section) (names : List Bytes)
      → All FitsSection s
      → Aligned (build_statement env decimal builders names (add_clauses s []))
  unfolding build_statement
  build_added-Aligned s names f =
      build_clauses-Aligned false names (add_clauses s []) (add_clauses-Fits s [] f tt)
