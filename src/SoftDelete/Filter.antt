-- ===== src/SoftDelete/Filter.antt =====
-- soft_delete.go: what the query clause does to the WHERE clause of a statement, and what it leaves alone.
use pewter_rinse_moor.Prelude.{
  ◌≡◌, refl, sym, ap, ◌∙◌, arith, if◌then◌else◌, Bool, true, false, not, ◌&&◌, ◌||◌, Option, none,
  some, Bytes, equal_bytes, ◌==◌, Bool-cases, Option-cases, inl, inr, bytes_beq, codes,
}
use pewter_rinse_moor.Clause.{Expression, Exprs, and_conditions, or_conditions, no_exprs, and_then}
use pewter_rinse_moor.Clause.Conditions.{is_single_or, is_at_most_single_or, is_or}
use pewter_rinse_moor.Clause.Sections.{where_section, section_name}
use pewter_rinse_moor.Clause.Merge.{Content, section, Clauses, append_exprs, no_clause, find_clause}
use pewter_rinse_moor.Clause.Added.{
  where_name, held, content_conditions, find_clause-set_same, find_clause-set_other,
  find_clause-add_other, held-add_clause,
}
use pewter_rinse_moor.SoftDelete.{
  Statement, SoftDelete, flag_name, not_deleted, and_of, has_single_or, ors_of, group_where,
  is_enabled, filtered, modify_query,
}
use pewter_rinse_moor.SoftDelete.Meaning.{
  unwrapped, IsLed, starts, joined, where_holds, joined-snoc, joined-and_of, where_holds-joined,
  meaning,
}

-- the conditions of the WHERE clause of a statement
abbrev pub conditions : Statement → Exprs
conditions stmt = held (find_clause where_name stmt.clauses)

-- the conditions that the filter stands behind
abbrev pub regrouped : Exprs → Exprs
regrouped es = if has_single_or es then and_of es else es

regrouped-some :
    (c : Option Content) (es : Exprs)
    → ors_of c ≡ some es
    → regrouped (content_conditions c) ≡ and_of es
regrouped-some (some (section (where_section fs))) es h = ground arith
regrouped-some c es h = absurd (ground arith)

regrouped-none :
    (c : Option Content) → ors_of c ≡ none → regrouped (content_conditions c) ≡ content_conditions c
regrouped-none (some (section (where_section fs))) h = ground arith
regrouped-none c h = refl

held-group_where :
    (l : Clauses)
    → held (find_clause where_name (group_where l)) ≡ regrouped (held (find_clause where_name l))
unfolding group_where
held-group_where l = elim (Option-cases (find_clause where_name l)) [
  | inl missing ↦ rw (missing, group_where, missing) refl
  | inr (c, found) ↦ elim (Option-cases (ors_of c.expression)) [
    | inl kept ↦ rw (found, group_where, kept, found) (sym (regrouped-none c.expression kept))
    | inr (es, grouped) ↦
        rw (found, group_where, grouped, find_clause-set_same where_name)
          (sym (regrouped-some c.expression es grouped))
  ]
]

flag-where : (flag_name == where_name) ≡ false
unfolding flag_name where_name codes bytes_beq
flag-where = refl

-- The conditions with the filter.
pub held-filtered :
    (sd : SoftDelete) (l : Clauses)
    → held (find_clause where_name (filtered sd l))
      ≡ append_exprs
          (regrouped (held (find_clause where_name l)))
          (and_then (not_deleted sd) no_exprs)
unfolding filtered
held-filtered sd l =
    ap held (find_clause-set_other where_name flag_name no_clause _ flag-where)
    ∙ held-add_clause (where_section (and_then (not_deleted sd) no_exprs)) (group_where l)
    ∙ ap (λ x. append_exprs x (and_then (not_deleted sd) no_exprs)) (held-group_where l)

unwrapped-two :
    (e f : Expression) (es : Exprs)
    → unwrapped (and_then e (and_then f es)) ≡ and_then e (and_then f es)
unwrapped-two (and_conditions es) f fs = refl
unwrapped-two e f es = refl

led-head : (e : Expression) (es : Exprs) → IsLed (and_then e es) → is_at_most_single_or e ≡ false
led-head (and_conditions es) fs h = refl
led-head e no_exprs h = ground arith
led-head e (and_then f es) h = ground arith

two-IsLed :
    (e f : Expression) (es : Exprs)
    → is_at_most_single_or e ≡ false
    → IsLed (and_then e (and_then f es))
two-IsLed e f es h = ap starts (unwrapped-two e f es) ∙ ap not h

and_of-head :
    (e : Expression) (es : Exprs) (q : Expression)
    → is_at_most_single_or e ≡ false
    → IsLed (append_exprs (and_of (and_then e es)) (and_then q no_exprs))
and_of-head e no_exprs q h = elim (Bool-cases (is_or e)) [
  | inl group ↦ rw group refl
  | inr other ↦ rw other (two-IsLed e q no_exprs h)
]
and_of-head e (and_then f es) q h = refl

append_exprs-IsLed :
    (e : Expression) (es : Exprs) (q : Expression)
    → is_at_most_single_or e ≡ false
    → IsLed (append_exprs (and_then e es) (and_then q no_exprs))
append_exprs-IsLed e no_exprs q h = two-IsLed e q no_exprs h
append_exprs-IsLed e (and_then f es) q h = two-IsLed e f _ h

regrouped-IsLed :
    (es : Exprs) (sd : SoftDelete)
    → IsLed es
    → IsLed (append_exprs (regrouped es) (and_then (not_deleted sd) no_exprs))
unfolding not_deleted
regrouped-IsLed no_exprs sd h = refl
regrouped-IsLed (and_then e es) sd h = elim (Bool-cases (has_single_or (and_then e es))) [
  | inl ors ↦ rw ors (and_of-head e es _ (led-head e es h))
  | inr none_there ↦ rw none_there (append_exprs-IsLed e es (not_deleted sd) (led-head e es h))
]

is_single_or-is_or : (e : Expression) → is_or e ≡ false → is_single_or e ≡ false
is_single_or-is_or (or_conditions es) h = absurd (ground arith)
is_single_or-is_or e h = refl

has_single_or-and_of : (es : Exprs) → has_single_or (and_of es) ≡ false
has_single_or-and_of no_exprs = refl
has_single_or-and_of (and_then e no_exprs) = elim (Bool-cases (is_or e)) [
  | inl group ↦ rw group refl
  | inr other ↦ rw (other, is_single_or-is_or e other) refl
]
has_single_or-and_of (and_then e (and_then f es)) = refl

module _ (truth : Expression → Bool) where
  joined-regrouped :
      (es : Exprs) (q : Expression)
      → is_single_or q ≡ false
      → joined truth (append_exprs (regrouped es) (and_then q no_exprs))
        ≡ joined truth es && meaning truth q
  joined-regrouped es q h = elim (Bool-cases (has_single_or es)) [
    | inl ors ↦ rw ors (
        joined-snoc truth (and_of es) q (has_single_or-and_of es) h
        ∙ ap (λ b. b && meaning truth q) (joined-and_of truth es))
    | inr none_there ↦ rw none_there (joined-snoc truth es q none_there h)
  ]

  -- Behind conditions that do not start with an OR, the filter takes away the rows that are deleted.
  pub where_holds-regrouped :
      (es : Exprs) (sd : SoftDelete)
      → IsLed es
      → where_holds truth (append_exprs (regrouped es) (and_then (not_deleted sd) no_exprs))
        ≡ where_holds truth es && truth (not_deleted sd)
  unfolding not_deleted meaning
  where_holds-regrouped es sd h =
      where_holds-joined truth _ (regrouped-IsLed es sd h)
      ∙ joined-regrouped es (not_deleted sd) refl
      ∙ ap (λ b. b && truth (not_deleted sd)) (sym (where_holds-joined truth es h))

  -- A scoped statement that no soft delete has filtered, whose first condition (in the
  -- only AND group, if that is all there is) is no single OR: with the filter the WHERE clause means that
  -- it held before and that the row is not deleted, AND binding more tightly than OR, whatever the
  -- conditions other than groups mean.
  pub modify_query-where :
      (sd : SoftDelete) (stmt : Statement)
      → is_enabled stmt.clauses ≡ false
      → stmt.unscoped ≡ false
      → IsLed (conditions stmt)
      → where_holds truth (conditions (modify_query sd stmt))
        ≡ where_holds truth (conditions stmt) && truth (not_deleted sd)
  unfolding modify_query
  modify_query-where sd stmt new scoped led =
      rw (new, scoped, held-filtered sd stmt.clauses)
        (where_holds-regrouped (conditions stmt) sd led)

pub is_enabled-filtered : (sd : SoftDelete) (l : Clauses) → is_enabled (filtered sd l) ≡ true
unfolding filtered
is_enabled-filtered sd l =
    ap (λ o. elim o [ none ↦ false | some c ↦ true ]) (find_clause-set_same flag_name no_clause _)

where-other :
    (n : Bytes) (l : Clauses)
    → (where_name == n) ≡ false
    → find_clause n (group_where l) ≡ find_clause n l
unfolding group_where
where-other n l h = elim (Option-cases (find_clause where_name l)) [
  | inl missing ↦ rw (missing, group_where) refl
  | inr (c, found) ↦ elim (Option-cases (ors_of c.expression)) [
    | inl kept ↦ rw (found, group_where, kept) refl
    | inr (es, grouped) ↦
        rw (found, group_where, grouped) (find_clause-set_other n where_name _ l h)
  ]
]

filtered-other :
    (sd : SoftDelete) (n : Bytes) (l : Clauses)
    → (where_name == n) ≡ false
    → (flag_name == n) ≡ false
    → find_clause n (filtered sd l) ≡ find_clause n l
unfolding filtered section_name where_name codes
filtered-other sd n l h k =
    find_clause-set_other n flag_name no_clause _ k
    ∙ find_clause-add_other (where_section (and_then (not_deleted sd) no_exprs)) n (group_where l) h
    ∙ where-other n l h

modify_query-off :
    (sd : SoftDelete) (stmt : Statement)
    → is_enabled stmt.clauses || stmt.unscoped ≡ true
    → modify_query sd stmt ≡ stmt
unfolding modify_query
modify_query-off sd stmt h = rw h refl

pub modify_query-on :
    (sd : SoftDelete) (stmt : Statement)
    → is_enabled stmt.clauses || stmt.unscoped ≡ false
    → modify_query sd stmt ≡ record stmt { clauses = filtered sd stmt.clauses }
unfolding modify_query
modify_query-on sd stmt h = rw h refl

-- Whatever the statement: after one soft delete clause, those of all fields, and it again, change nothing,
-- and a clause whose name is not WHERE or the flag's is as it was.
pub modify_query-again :
    (sd other : SoftDelete) (stmt : Statement) (n : Bytes)
    → (where_name == n) ≡ false
    → (flag_name == n) ≡ false
    → (modify_query other (modify_query sd stmt) ≡ modify_query sd stmt)
      × (find_clause n (modify_query sd stmt).clauses ≡ find_clause n stmt.clauses)
modify_query-again sd other stmt n h k =
    elim (Bool-cases (is_enabled stmt.clauses || stmt.unscoped)) [
      | inl off ↦ rw (modify_query-off sd stmt off) (modify_query-off other stmt off, refl)
      | inr on ↦ rw (modify_query-on sd stmt on) (
        modify_query-off other _
            (ap (λ b. b || stmt.unscoped) (is_enabled-filtered sd stmt.clauses)),
        filtered-other sd n stmt.clauses h k,
      )
    ]
