-- ===== src/SoftDelete/Deletion.antt =====
-- soft_delete.go: the statement of a soft deletion, with the keys of what is deleted, touches no row that
-- is deleted already.
use pewter_rinse_moor.Prelude.{
  ◌≡◌, refl, sym, ap, ◌∙◌, Bool, not, true, false, ◌&&◌, Option, none, some, [], Bytes, equal_bytes,
  ◌==◌, Option-cases, inl, inr, bytes_beq, codes,
}
use pewter_rinse_moor.Clause.{
  Value, Expression, Exprs, no_values, value, in_values, no_exprs, and_then,
}
use pewter_rinse_moor.Clause.Sections.{where_section, section_name}
use pewter_rinse_moor.Clause.Merge.{
  Clause, Clauses, append_exprs, find_clause, add_clause_if_not_exists,
}
use pewter_rinse_moor.Clause.Added.{
  where_name, held, find_clause-add_other, held-add_clause, append_exprs_assoc, append_exprs-none,
}
use pewter_rinse_moor.SoftDelete.{
  Statement, SoftDelete, Keys, flag_name, not_deleted, key_conditions, add_keys, deletion_time,
  plain_update, marked, is_enabled, modify_delete,
}
use pewter_rinse_moor.SoftDelete.Meaning.{IsLed, where_holds}
use pewter_rinse_moor.SoftDelete.Filter.{conditions, modify_query-where}

held-add_keys :
    (keys : Option Keys) (l : Clauses)
    → held (find_clause where_name (add_keys keys l))
      ≡ append_exprs (held (find_clause where_name l)) (key_conditions keys)
unfolding add_keys
held-add_keys none l = sym (append_exprs-none _)
held-add_keys (some (q, no_values)) l = sym (append_exprs-none _)
held-add_keys (some (q, value v vs)) l =
    held-add_clause (where_section (and_then (in_values q (value v vs)) no_exprs)) l

-- the conditions on the keys of a deletion
abbrev pub chosen : Option Keys → Option Keys → Exprs
chosen own model = append_exprs (key_conditions own) (key_conditions model)

pub held-marked :
    (sd : SoftDelete) (now : Value) (own model : Option Keys) (l : Clauses)
    → held (find_clause where_name (marked sd now own model l))
      ≡ append_exprs (held (find_clause where_name l)) (chosen own model)
unfolding marked section_name where_name codes bytes_beq
held-marked sd now own model l =
    held-add_keys model _
    ∙ ap (λ x. append_exprs x (key_conditions model))
        (held-add_keys own _
          ∙ ap (λ o. append_exprs (held o) (key_conditions own))
              (find_clause-add_other (deletion_time sd now) where_name l refl))
    ∙ append_exprs_assoc (held (find_clause where_name l)) (key_conditions own)
        (key_conditions model)

flagged-add_keys :
    (keys : Option Keys) (l : Clauses)
    → find_clause flag_name (add_keys keys l) ≡ find_clause flag_name l
unfolding add_keys section_name flag_name codes bytes_beq
flagged-add_keys none l = refl
flagged-add_keys (some (q, no_values)) l = refl
flagged-add_keys (some (q, value v vs)) l =
    find_clause-add_other (where_section (and_then (in_values q (value v vs)) no_exprs)) flag_name l
      refl

pub flagged-marked :
    (sd : SoftDelete) (now : Value) (own model : Option Keys) (l : Clauses)
    → find_clause flag_name (marked sd now own model l) ≡ find_clause flag_name l
unfolding marked section_name flag_name codes bytes_beq
flagged-marked sd now own model l =
    flagged-add_keys model _
    ∙ flagged-add_keys own _
    ∙ find_clause-add_other (deletion_time sd now) flag_name l refl

either_way :
    (o : Option Clause) (a b : Clauses) (n : Bytes)
    → find_clause n a ≡ find_clause n b
    → find_clause n (elim o [ none ↦ a | some c ↦ elim c.expression [ none ↦ a | some e ↦ b ] ])
      ≡ find_clause n b
either_way none a b n h = h
either_way (some c) a b n h = elim (Option-cases c.expression) [
  | inl empty ↦ rw empty h
  | inr (e, full) ↦ rw full refl
]

pub find_clause-plain_update :
    (n : Bytes) (l : Clauses)
    → (section_name plain_update == n) ≡ false
    → find_clause n (add_clause_if_not_exists plain_update l) ≡ find_clause n l
unfolding add_clause_if_not_exists
find_clause-plain_update n l h =
    either_way (find_clause (section_name plain_update) l) _ l n
      (find_clause-add_other plain_update n l h)

pub update-where : (section_name plain_update == where_name) ≡ false
unfolding section_name where_name codes bytes_beq
update-where = refl

pub update-flag : (section_name plain_update == flag_name) ≡ false
unfolding section_name flag_name codes bytes_beq
update-flag = refl

module _ (truth : Expression → Bool) (written : Clauses → Bytes) where
  -- A soft deletion of a scoped statement without SQL, which no soft delete has filtered and whose
  -- conditions, with those on the keys, do not start with a single OR: its WHERE clause holds for the rows for
  -- which all these conditions hold and that are not deleted yet.
  pub modify_delete-where :
      (sd : SoftDelete) (now : Value) (own model : Option Keys) (stmt : Statement)
      → stmt.sql ≡ []
      → is_enabled stmt.clauses ≡ false
      → stmt.unscoped ≡ false
      → IsLed (append_exprs (conditions stmt) (chosen own model))
      → where_holds truth (conditions (modify_delete written sd now own model stmt))
        ≡ where_holds truth (append_exprs (conditions stmt) (chosen own model))
          && truth (not_deleted sd)
  unfolding modify_delete bytes_beq
  modify_delete-where sd now own model stmt empty new scoped led =
      let before = marked sd now own model stmt.clauses in
      let led_before : IsLed (held (find_clause where_name before)) =
        rw (held-marked sd now own model stmt.clauses) led in
      let not_yet : is_enabled before ≡ false =
        ap (λ o. elim o [ none ↦ false | some c ↦ true ])
          (flagged-marked sd now own model stmt.clauses)
        ∙ new in
      let can : (stmt.sql == [] && not stmt.unscoped) ≡ true =
        ap (λ s. s == [] && not stmt.unscoped) empty ∙ ap not scoped in
      rw can (
        ap (λ o. where_holds truth (held o)) (find_clause-plain_update where_name _ update-where)
        ∙ modify_query-where truth sd (record stmt { clauses = before }) not_yet scoped led_before
        ∙ ap (λ es. where_holds truth es && truth (not_deleted sd))
            (held-marked sd now own model stmt.clauses))
