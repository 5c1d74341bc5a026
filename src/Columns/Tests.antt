-- ===== src/Columns/Tests.antt =====
-- A schema with three fields.
use pewter_rinse_moor.Prelude.{
  ◌≡◌, refl, Bool, true, false, not, ◌&&◌, none, some, [], ◌∷◌, Bytes, codes, bytes_beq,
  if◌then◌else◌,
}
use pewter_rinse_moor.Columns.{
  Field, Schema, Results, select_and_omit_columns, process_columns, process_column, deny_fields,
  targets, matched, look_up_field, star, associations, is_empty,
}
use pewter_rinse_moor.Columns.Outcome.{is_named, has_star, is_denied_in, select_and_omit_columns-at}

abbrev id_field : Field
id_field = record { name = codes "ID"; db_name = codes "id"; creatable = false; updatable = true }

abbrev age_field : Field
age_field = record { name = codes "Age"; db_name = codes "age"; creatable = true; updatable = true }

abbrev name_field : Field
name_field = record {
  name = codes "Name";
  db_name = codes "name";
  creatable = true;
  updatable = true;
}

abbrev users : Schema
users = record {
  table = codes "users";
  db_names = codes "id" ∷ codes "age" ∷ codes "name" ∷ [];
  relations = codes "Company" ∷ [];
  fields_by_name =
      (codes "ID", id_field) ∷ (codes "Age", age_field) ∷ (codes "Name", name_field) ∷ [];
  fields_by_db_name =
      (codes "id", id_field) ∷ (codes "age", age_field) ∷ (codes "name", name_field) ∷ [];
  namer = none;
}

abbrev no_match : Bytes → Bytes × Bytes
no_match s = ([], [])

abbrev chosen : Results × Bool
chosen =
    select_and_omit_columns no_match (codes "users") (some users) true false (codes "*" ∷ [])
      (codes "Age" ∷ [])

chosen_all :
    (chosen.0 (codes "id") ≡ some false)
    × (chosen.0 (codes "age") ≡ some false)
    × (chosen.0 (codes "name") ≡ some true)
    × (chosen.1 ≡ false)
unfolding select_and_omit_columns process_columns process_column deny_fields targets matched
    look_up_field star associations codes bytes_beq
chosen_all = (refl, refl, refl, refl)

select_and_omit_columns-at_example :
    (chosen.0 (codes "age") ≡ (
      if is_denied_in true false (codes "age") users.fields_by_name
      then some false
      else (if is_named no_match (codes "users") (some users) (codes "age") (codes "Age" ∷ [])
          then some false
          else (if is_named no_match (codes "users") (some users) (codes "age") (codes "*" ∷ [])
              then some true
              else none))))
    × (chosen.1 ≡ (
        not (
          has_star no_match (codes "users") (some users) (codes "*" ∷ [])
          && not (has_star no_match (codes "users") (some users) (codes "Age" ∷ [])))
        && not (is_empty (codes "*" ∷ []))))
select_and_omit_columns-at_example =
    select_and_omit_columns-at no_match (codes "users") (some users) true false (codes "*" ∷ [])
      (codes "Age" ∷ []) (codes "age")
