-- ===== src/SoftDelete/Missing.antt =====
-- callbacks/helper.go on a statement of soft_delete.go: a soft deletion without a condition is refused.
use pewter_rinse_moor.Prelude.{
  ◌≡◌, refl, sym, ap, ◌∙◌, arith, ltb, Bool, not, true, false, ◌&&◌, ◌||◌, Option, none, some, [],
  Bytes, equal_bytes, ◌==◌, Bool-cases, Option-cases, inl, inr, bytes_beq,
}
use pewter_rinse_moor.Clause.{Value, Expression, Exprs, no_exprs, and_then}
use pewter_rinse_moor.Clause.Conditions.{is_or}
use pewter_rinse_moor.Clause.Merge.{Clauses, append_exprs, find_clause}
use pewter_rinse_moor.Clause.Added.{where_name, held}
use pewter_rinse_moor.SoftDelete.{
  Statement, SoftDelete, Keys, flag_name, not_deleted, and_of, has_single_or, is_enabled, marked,
  modify_delete, count, is_where_missing,
}
use pewter_rinse_moor.SoftDelete.Filter.{
  conditions, regrouped, held-filtered, is_enabled-filtered, modify_query-on,
}
use pewter_rinse_moor.SoftDelete.Deletion.{
  chosen, held-marked, flagged-marked, find_clause-plain_update, update-where, update-flag,
}

abbrev pub is_empty : Exprs → Bool
is_empty no_exprs = true
is_empty (and_then e es) = false

count-and_of :
    (e : Expression) (es : Exprs) (q : Expression)
    → ltb 1 (count (append_exprs (and_of (and_then e es)) (and_then q no_exprs))) ≡ true
count-and_of e no_exprs q = elim (Bool-cases (is_or e)) [
  | inl group ↦ rw group refl
  | inr other ↦ rw other refl
]
count-and_of e (and_then f es) q = refl

count-more :
    (e : Expression) (es : Exprs) (q : Expression)
    → ltb 1 (count (append_exprs (and_then e es) (and_then q no_exprs))) ≡ true
count-more e no_exprs q = refl
count-more e (and_then f es) q = ground arith

count-regrouped :
    (es : Exprs) (q : Expression)
    → not (ltb 1 (count (append_exprs (regrouped es) (and_then q no_exprs)))) ≡ is_empty es
count-regrouped no_exprs q = refl
count-regrouped (and_then e es) q = elim (Bool-cases (has_single_or (and_then e es))) [
  | inl ors ↦ rw ors (ap not (count-and_of e es q))
  | inr none_there ↦ rw none_there (ap not (count-more e es q))
]

append-nonempty :
    (es : Exprs) (q : Expression) → is_empty (append_exprs es (and_then q no_exprs)) ≡ false
append-nonempty no_exprs q = refl
append-nonempty (and_then e es) q = refl

-- clauses that a soft delete has filtered, with the conditions that it found
missing-held :
    (l : Clauses) (es : Exprs) (q : Expression)
    → is_enabled l ≡ true
    → held (find_clause where_name l) ≡ append_exprs (regrouped es) (and_then q no_exprs)
    → is_where_missing false false l ≡ is_empty es
unfolding is_where_missing
missing-held l es q on h = elim (Option-cases (find_clause where_name l)) [
  | inl missing ↦
      let clash : true ≡ false =
        sym (ap (λ o. is_empty (held o)) missing)
        ∙ ap is_empty h
        ∙ append-nonempty (regrouped es) q in
      absurd cc
  | inr (c, found) ↦
      rw (found, on)
        (ap (λ x. not (ltb 1 (count x))) (sym (ap held found) ∙ h) ∙ count-regrouped es q)
]

module _ (written : Clauses → Bytes) where
  -- A soft deletion of a scoped statement without SQL, which no soft delete has filtered: the test for
  -- missing conditions, where global updates are not allowed and there is no error, refuses it if and only
  -- if the statement has no condition and there are no keys.
  pub is_where_missing-delete :
      (sd : SoftDelete) (now : Value) (own model : Option Keys) (stmt : Statement)
      → stmt.sql ≡ []
      → is_enabled stmt.clauses ≡ false
      → stmt.unscoped ≡ false
      → is_where_missing false false (modify_delete written sd now own model stmt).clauses
        ≡ is_empty (append_exprs (conditions stmt) (chosen own model))
  unfolding modify_delete bytes_beq
  is_where_missing-delete sd now own model stmt empty new scoped =
      let before = marked sd now own model stmt.clauses in
      let not_yet : is_enabled before || stmt.unscoped ≡ false =
        ap (λ o. elim o [ none ↦ false | some c ↦ true ] || stmt.unscoped)
          (flagged-marked sd now own model stmt.clauses)
        ∙ ap (λ b. b || stmt.unscoped) new
        ∙ scoped in
      let can : (stmt.sql == [] && not stmt.unscoped) ≡ true =
        ap (λ s. s == [] && not stmt.unscoped) empty ∙ ap not scoped in
      rw (can, modify_query-on sd (record stmt { clauses = before }) not_yet)
        (missing-held _ _ (not_deleted sd)
          (ap (λ o. elim o [ none ↦ false | some c ↦ true ])
              (find_clause-plain_update flag_name _ update-flag)
            ∙ is_enabled-filtered sd before)
          (ap held (find_clause-plain_update where_name _ update-where)
            ∙ held-filtered sd before
            ∙ ap (λ es. append_exprs (regrouped es) (and_then (not_deleted sd) no_exprs))
                (held-marked sd now own model stmt.clauses)))
