-- ===== src/SoftDelete/Tests.antt =====
-- Runs of the soft delete clauses, and the theorems at concrete inputs.
use pewter_rinse_moor.Prelude.{
  ◌≡◌, refl, Bool, true, false, ◌&&◌, none, some, [], ◌∷◌, Bytes, codes, equal_bytes, ◌==◌,
  bytes_beq,
}
use pewter_rinse_moor.Clause.{
  Expression, scalar, no_values, value, a_name, expr, or_conditions, no_exprs, and_then,
}
use pewter_rinse_moor.Clause.Conditions.{put_first, exchange}
use pewter_rinse_moor.Clause.Sections.{where_section, section_name}
use pewter_rinse_moor.Clause.Merge.{
  append_exprs, find_clause, set_clause, add_clause, merge_clause, merge_content, merge_name,
}
use pewter_rinse_moor.Clause.Added.{where_name}
use pewter_rinse_moor.SoftDelete.{
  Statement, SoftDelete, Keys, flag_name, not_deleted, group_where, filtered, modify_query,
  modify_delete, is_where_missing, parse_zero_value_tag,
}
use pewter_rinse_moor.Schema.Tags.{find_setting}
use pewter_rinse_moor.SoftDelete.Meaning.{where_holds, in_order, joined, joined_from, meaning}
use pewter_rinse_moor.SoftDelete.Filter.{conditions, modify_query-where, modify_query-again}
use pewter_rinse_moor.SoftDelete.Deletion.{chosen, modify_delete-where}
use pewter_rinse_moor.SoftDelete.Missing.{is_empty, is_where_missing-delete}

abbrev deleted_at : SoftDelete
unfolding codes
deleted_at = record { zero_value = none; db_name = codes "deleted_at" }

abbrev text : Bytes → Expression
text s = expr s no_values false

abbrev or_text : Bytes → Expression
or_text s = or_conditions (and_then (text s) no_exprs)

-- `Where("a").Or("b")`
abbrev a_or_b : Statement
unfolding codes
a_or_b = record {
  clauses =
      add_clause
        (where_section (and_then (text (codes "a")) (and_then (or_text (codes "b")) no_exprs))) [];
  unscoped = false;
  sql = [];
}

-- `Or("a").Where("b")`
abbrev or_a_b : Statement
unfolding codes
or_a_b = record {
  clauses =
      add_clause
        (where_section (and_then (or_text (codes "a")) (and_then (text (codes "b")) no_exprs))) [];
  unscoped = false;
  sql = [];
}

-- `a` holds, `b` does not, and the row is not deleted.
abbrev only_a : Expression → Bool
unfolding codes
only_a (expr s vars bare) = s == codes "a"
only_a _ = true

abbrev key : Keys
unfolding codes
key = (a_name (codes "id"), value (scalar (codes "1")) no_values)

parse_zero_value_tag_found :
    parse_zero_value_tag (λ s. true) ((codes "ZEROVALUE", codes "x") ∷ []) ≡ some (codes "x")
unfolding parse_zero_value_tag find_setting codes bytes_beq
parse_zero_value_tag_found = refl

-- Of a row that is not deleted, `a` or `b` holds with the filter as without it.
kept_in_group :
    where_holds only_a (conditions a_or_b)
      && where_holds only_a (conditions (modify_query deleted_at a_or_b))
    ≡ true
unfolding add_clause merge_clause merge_content merge_name section_name find_clause set_clause codes
    bytes_beq where_name flag_name modify_query filtered group_where not_deleted where_holds
    in_order put_first exchange joined joined_from meaning
kept_in_group = refl

-- The filter loses this row: without it the WHERE clause is `b OR a`, with it `(a AND b) AND …`.
lost_behind_or : where_holds only_a (conditions or_a_b) ≡ true
unfolding add_clause merge_clause merge_content merge_name section_name find_clause set_clause codes
    bytes_beq where_name where_holds in_order put_first exchange joined joined_from meaning
lost_behind_or = refl

lost_with_filter : where_holds only_a (conditions (modify_query deleted_at or_a_b)) ≡ false
unfolding add_clause merge_clause merge_content merge_name section_name find_clause set_clause codes
    bytes_beq where_name flag_name modify_query filtered group_where not_deleted where_holds
    in_order put_first exchange joined joined_from meaning
lost_with_filter = refl

modify_query-where_example :
    where_holds only_a (conditions (modify_query deleted_at a_or_b))
    ≡ where_holds only_a (conditions a_or_b) && only_a (not_deleted deleted_at)
unfolding add_clause merge_clause merge_content merge_name section_name find_clause set_clause codes
    bytes_beq where_name flag_name
modify_query-where_example = modify_query-where only_a deleted_at a_or_b refl refl refl

modify_query-again_example :
    (modify_query deleted_at (modify_query deleted_at a_or_b) ≡ modify_query deleted_at a_or_b)
    × (find_clause (codes "LIMIT") (modify_query deleted_at a_or_b).clauses
        ≡ find_clause (codes "LIMIT") a_or_b.clauses)
unfolding codes bytes_beq where_name flag_name
modify_query-again_example =
    modify_query-again deleted_at deleted_at a_or_b (codes "LIMIT") refl refl

modify_delete-where_example :
    where_holds only_a (
      conditions (modify_delete (λ l. []) deleted_at (scalar (codes "now")) (some key) none a_or_b))
    ≡ where_holds only_a (append_exprs (conditions a_or_b) (chosen (some key) none))
      && only_a (not_deleted deleted_at)
unfolding add_clause merge_clause merge_content merge_name section_name find_clause set_clause codes
    bytes_beq where_name flag_name
modify_delete-where_example =
    modify_delete-where only_a (λ l. []) deleted_at (scalar (codes "now")) (some key) none a_or_b
      refl refl refl refl

is_where_missing-delete_example :
    is_where_missing false false
      (modify_delete
        (λ l. [])
        deleted_at
        (scalar (codes "now"))
        none
        none
        (record a_or_b { clauses = [] })).clauses
    ≡ is_empty (append_exprs (conditions (record a_or_b { clauses = [] })) (chosen none none))
unfolding find_clause a_or_b
is_where_missing-delete_example =
    is_where_missing-delete (λ l. []) deleted_at (scalar (codes "now")) none none
      (record a_or_b { clauses = [] }) refl refl refl
