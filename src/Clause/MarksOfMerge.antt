-- ===== src/Clause/MarksOfMerge.antt =====
-- Placeholders and variables stay in step with the clauses that are added to a statement: what
-- the merged clauses keep.
use pewter_rinse_moor.Prelude.{
  ◌≡◌, refl, sym, codes, Bool, true, false, Option, none, some, List, [], ◌∷◌, Bytes, arith,
  equal_bytes, equal_numbers, ◌==◌, if◌then◌else◌, All, All-append, Bool-cases, Option-cases, inl,
  inr,
}
use pewter_rinse_moor.Clause.{Column, Expression, Exprs, expr, no_exprs, and_then}
use pewter_rinse_moor.Clause.Marks.{marks, IsCleanTable, FitsExpr, FitsExprs}
use pewter_rinse_moor.Clause.Sections.{
  OrderByColumn, OrderBy, Section, where_section, limit_section, order_by_section, group_by_section,
  insert_section, update_section, set_section, values_section, select_section, returning_section,
  locking_section, on_conflict_section, from_section, delete_section, section_name,
}
use pewter_rinse_moor.Clause.Merge.{
  Content, section, plain, Clause, Clauses, find_clause, append_exprs, from_reorder, merge_order_by,
  merge_group_by, merge_insert, merge_update, merge_distinct, merge_select, merge_columns,
  merge_returning, merge_content, name_or_none, merge_name, merge_clause, set_clause, or_blank,
  add_clause, add_clauses,
}
use pewter_rinse_moor.Clause.MarksOfConditions.{AlignedOption}
use pewter_rinse_moor.Clause.MarksOfSections.{
  IsClean, FitsOption, FitsColumns, FitsSection, FitsContent,
}

abbrev pub FitsMaybe : Option Content → Type 0
FitsMaybe none = Unit
FitsMaybe (some c) = FitsContent c

-- A clause with fitting expressions, whose own builder, if it has one, keeps the balance.
pub record FitsClause (c : Clause) : Type 0 where
  pub name : IsClean c.name
  pub before : FitsOption c.before_expression
  pub after_name : FitsOption c.after_name_expression
  pub after : FitsOption c.after_expression
  pub expression : FitsMaybe c.expression
  pub builder : AlignedOption c.builder

abbrev pub FitsClauses : Clauses → Type 0
FitsClauses l = All (λ e. FitsClause e.1) l

append_exprs-Fits : (es fs : Exprs) → FitsExprs es → FitsExprs fs → FitsExprs (append_exprs es fs)
unfolding FitsExprs
append_exprs-Fits no_exprs fs f g = g
append_exprs-Fits (and_then e es) fs (p, f) g = (p, append_exprs-Fits es fs f g)

from_reorder-All :
    (P : OrderByColumn → Type 0) (cs l : List OrderByColumn)
    → All P cs
    → from_reorder cs ≡ some l
    → All P l
unfolding from_reorder
from_reorder-All P [] l h e = absurd (ground arith)
from_reorder-All P (c ∷ cs) l h e = elim (Option-cases (from_reorder cs)) [
  | inr (k, found) ↦
      let same : k ≡ l = ground arith in rw (sym same) (from_reorder-All P cs k h.1 found)
  | inl missed ↦ let same : c ∷ cs ≡ l = ground arith in rw (sym same) h
]

merge_order_by-Fits :
    (o old : OrderBy)
    → FitsSection (order_by_section o)
    → FitsSection (order_by_section old)
    → FitsSection (order_by_section (merge_order_by o old))
unfolding merge_order_by FitsSection
merge_order_by-Fits o old f g = elim (Option-cases (from_reorder o.columns)) [
  | inr (l, found) ↦ rw (merge_order_by, found) (from_reorder-All _ o.columns l f.0 found, f.1)
  | inl missed ↦ rw (merge_order_by, missed) (All-append _ old.columns o.columns g.0 f.0, f.1)
]

either : {A : Type 0} (P : A → Type 0) (b : Bool) (x y : A) → P x → P y → P (if b then x else y)
either P true x y p q = p
either P false x y p q = q

merge_returning-Fits :
    (o : Option (List Column)) (old : Option (List Column))
    → FitsColumns o
    → FitsColumns old
    → FitsColumns (merge_returning (record { columns = o }) (record { columns = old })).columns
unfolding merge_returning merge_columns
merge_returning-Fits none old f g = tt
merge_returning-Fits (some []) old f g = tt
merge_returning-Fits (some (c ∷ cs)) none f g = tt
merge_returning-Fits (some (c ∷ cs)) (some l) f g = All-append _ l (c ∷ cs) g f

merge_distinct-Fits : (b : Bool) (e : Expression) → FitsExpr e → FitsExpr (merge_distinct b e)
unfolding merge_distinct FitsExpr marks codes
merge_distinct-Fits true (expr sql vars bare) f = f
merge_distinct-Fits b e f = f

merge_content-Fits :
    (s : Section) (c : Option Content)
    → FitsSection s
    → FitsMaybe c
    → FitsContent (merge_content s c)
unfolding merge_content FitsSection merge_group_by merge_insert merge_update merge_select
merge_content-Fits (where_section es) (some (section (where_section old))) f g =
    append_exprs-Fits old es g f
merge_content-Fits (limit_section l) (some (section (limit_section old))) f g = tt
merge_content-Fits (order_by_section o) (some (section (order_by_section old))) f g =
    merge_order_by-Fits o old f g
merge_content-Fits (group_by_section r) (some (section (group_by_section old))) f g =
    (All-append _ old.columns r.columns g.0 f.0, append_exprs-Fits old.having r.having g.1 f.1)
merge_content-Fits (insert_section i) (some (section (insert_section old))) f g = (
  either IsCleanTable (i.table.name == []) old.table i.table g.0 f.0,
  either IsClean (i.modifier == []) old.modifier i.modifier g.1 f.1,
)
merge_content-Fits (update_section i) (some (section (update_section old))) f g = (
  either IsCleanTable (i.table.name == []) old.table i.table g.0 f.0,
  either IsClean (i.modifier == []) old.modifier i.modifier g.1 f.1,
)
merge_content-Fits (returning_section r) (some (section (returning_section old))) f g =
    merge_returning-Fits r.columns old.columns f g
merge_content-Fits (select_section s) c f g = selected s.expression f.1
  where
    selected :
        (o : Option Expression)
        → FitsOption o
        → FitsContent (elim o [
          | none ↦ section (select_section s)
          | some e ↦ plain (merge_distinct s.distinct e)
        ])
    selected none h = f
    selected (some e) h = merge_distinct-Fits s.distinct e h
merge_content-Fits s c f g = f

section_name-IsClean : (s : Section) → IsClean (section_name s)
unfolding section_name marks codes
section_name-IsClean (where_section x) = refl
section_name-IsClean (limit_section x) = refl
section_name-IsClean (order_by_section x) = refl
section_name-IsClean (group_by_section x) = refl
section_name-IsClean (insert_section x) = refl
section_name-IsClean (update_section x) = refl
section_name-IsClean (set_section x) = refl
section_name-IsClean (values_section x) = refl
section_name-IsClean (select_section x) = refl
section_name-IsClean (returning_section x) = refl
section_name-IsClean (locking_section x) = refl
section_name-IsClean (on_conflict_section x) = refl
section_name-IsClean (from_section x) = refl
section_name-IsClean (delete_section x) = refl

name_or_none-IsClean : (s : Section) (cs : List Column) → IsClean (name_or_none s cs)
unfolding name_or_none marks
name_or_none-IsClean s [] = refl
name_or_none-IsClean s (c ∷ cs) = section_name-IsClean s

merge_name-IsClean :
    (s : Section) (c : Content) (n : Bytes) → IsClean n → IsClean (merge_name s c n)
unfolding merge_name marks
merge_name-IsClean (limit_section l) c n h = refl
merge_name-IsClean (values_section v) c n h = refl
merge_name-IsClean (delete_section d) c n h = refl
merge_name-IsClean (group_by_section g) (section (group_by_section merged)) n h =
    name_or_none-IsClean (group_by_section g) merged.columns
merge_name-IsClean s c n h = h

merge_clause-Fits :
    (s : Section) (c : Clause) → FitsSection s → FitsClause c → FitsClause (merge_clause s c)
unfolding merge_clause
merge_clause-Fits s c f g = record {
  name = merge_name-IsClean s (merge_content s c.expression) c.name g.name;
  before = g.before;
  after_name = g.after_name;
  after = g.after;
  expression = merge_content-Fits s c.expression f g.expression;
  builder = g.builder;
}

pub find_clause-Fits :
    (n : Bytes) (l : Clauses) (c : Clause) → FitsClauses l → find_clause n l ≡ some c → FitsClause c
unfolding find_clause
find_clause-Fits n [] c h e = absurd (ground arith)
find_clause-Fits n ((k, d) ∷ l) c (p, h) e = elim (Bool-cases (k == n)) [
  | inl same ↦ let found : d ≡ c = ground arith in rw (sym found) p
  | inr different ↦ find_clause-Fits n l c h (ground arith)
]

set_clause-Fits :
    (n : Bytes) (c : Clause) (l : Clauses)
    → FitsClause c
    → FitsClauses l
    → FitsClauses (set_clause n c l)
unfolding set_clause
set_clause-Fits n c [] f h = (f, tt)
set_clause-Fits n c ((k, d) ∷ l) f (p, h) = elim (Bool-cases (k == n)) [
  | inl same ↦ rw same (f, h)
  | inr different ↦ rw different (p, set_clause-Fits n c l f h)
]

or_blank-Fits :
    (n : Bytes) (l : Clauses) (o : Option Clause)
    → FitsClauses l
    → find_clause n l ≡ o
    → FitsClause (or_blank o)
unfolding marks
or_blank-Fits n l none h e = record {
  name = refl;
  before = tt;
  after_name = tt;
  after = tt;
  expression = tt;
  builder = tt;
}
or_blank-Fits n l (some c) h e = find_clause-Fits n l c h e

rename-Fits :
    (s : Section) (c : Clause) → FitsClause c → FitsClause (record c { name = section_name s })
rename-Fits s c f = record {
  name = section_name-IsClean s;
  before = f.before;
  after_name = f.after_name;
  after = f.after;
  expression = f.expression;
  builder = f.builder;
}

add_clause-Fits :
    (s : Section) (l : Clauses) → FitsSection s → FitsClauses l → FitsClauses (add_clause s l)
unfolding add_clause
add_clause-Fits s l f h =
    let blank = or_blank-Fits (section_name s) l (find_clause (section_name s) l) h refl in
    set_clause-Fits (section_name s) _ l (merge_clause-Fits s _ f (rename-Fits s _ blank)) h

pub add_clauses-Fits :
    (s : List Section) (l : Clauses)
    → All FitsSection s
    → FitsClauses l
    → FitsClauses (add_clauses s l)
unfolding add_clauses
add_clauses-Fits [] l f h = h
add_clauses-Fits (s ∷ ss) l (f, g) h =
    add_clauses-Fits ss (add_clause s l) g (add_clause-Fits s l f h)
