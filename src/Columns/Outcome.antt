-- ===== src/Columns/Outcome.antt =====
-- What becomes of a column.
use pewter_rinse_moor.Prelude.{
  ◌≡◌, refl, ap, ◌∙◌, Bool, true, false, not, ◌&&◌, ◌||◌, Option, none, some, List, [], ◌∷◌, Bytes,
  equal_bytes, ◌==◌, if◌then◌else◌,
}
use pewter_rinse_moor.Columns.{
  Field, Schema, targets, Results, put_all, Selected, is_some_schema, star, process_column,
  process_columns, name_of, is_denied, deny_fields, fields_of, is_empty, select_and_omit_columns,
}

abbrev pub is_in : Bytes → List Bytes → Bool
is_in c [] = false
is_in c (k ∷ ks) = c == k || is_in c ks

-- one value over another, of the same or not
layered :
    {A : Type 0} (a b : Bool) (v o : A)
    → (if b then v else (if a then v else o)) ≡ (if a || b then v else o)
layered true true v o = refl
layered true false v o = refl
layered false true v o = refl
layered false false v o = refl

put_all-at :
    (ks : List Bytes) (v : Bool) (m : Results) (c : Bytes)
    → put_all ks v m c ≡ (if is_in c ks then some v else m c)
put_all-at [] v m c = refl
put_all-at (k ∷ ks) v m c =
    put_all-at ks v (λ x. if x == k then some v else m x) c
    ∙ layered (c == k) (is_in c ks) (some v) (m c)

last_star : (a b : Bool) → (if b then false else (if a then true else false)) ≡ (a && not b)
last_star true true = refl
last_star true false = refl
last_star false true = refl
last_star false false = refl

denied-at :
    (b : Bool) (f : Field) (m : Results) (c : Bytes)
    → (if b then (λ x. if x == name_of f then some false else m x) else m) c
      ≡ (if b && c == name_of f then some false else m c)
denied-at true f m c = refl
denied-at false f m c = refl

-- whether a field has the column and may not be written
abbrev pub is_denied_in : Bool → Bool → Bytes → List (Bytes × Field) → Bool
is_denied_in rc ru c [] = false
is_denied_in rc ru c ((k, f) ∷ fs) =
    (is_denied rc ru f && c == name_of f) || is_denied_in rc ru c fs

module _ (match_name : Bytes → Bytes × Bytes) (stmt_table : Bytes) (schema : Option Schema) where
  -- whether some of the columns stand for the column
  abbrev pub is_named : Bytes → List Bytes → Bool
  is_named c [] = false
  is_named c (d ∷ ds) = is_in c (targets match_name stmt_table schema d) || is_named c ds

  abbrev pub has_star : List Bytes → Bool
  has_star [] = false
  has_star (d ∷ ds) = (is_some_schema schema && d == star) || has_star ds

  process_columns-at :
      (ds : List Bytes) (v : Bool) (s : Selected) (c : Bytes)
      → (process_columns match_name stmt_table schema ds v s).results c
        ≡ (if is_named c ds then some v else s.results c)
  unfolding process_columns process_column
  process_columns-at [] v s c = refl
  process_columns-at (d ∷ ds) v s c =
      process_columns-at ds v (process_column match_name stmt_table schema d v s) c
      ∙ ap (λ o. if is_named c ds then some v else o)
          (put_all-at (targets match_name stmt_table schema d) v s.results c)
      ∙ layered (is_in c (targets match_name stmt_table schema d)) (is_named c ds) (some v)
          (s.results c)

  process_columns-star :
      (ds : List Bytes) (v : Bool) (s : Selected)
      → (process_columns match_name stmt_table schema ds v s).not_restricted
        ≡ (if has_star ds then v else s.not_restricted)
  unfolding process_columns process_column
  process_columns-star [] v s = refl
  process_columns-star (d ∷ ds) v s =
      process_columns-star ds v (process_column match_name stmt_table schema d v s)
      ∙ layered (is_some_schema schema && d == star) (has_star ds) v s.not_restricted

  deny_fields-at :
      (rc ru : Bool) (fs : List (Bytes × Field)) (m : Results) (c : Bytes)
      → deny_fields rc ru fs m c ≡ (if is_denied_in rc ru c fs then some false else m c)
  unfolding deny_fields
  deny_fields-at rc ru [] m c = refl
  deny_fields-at rc ru ((k, f) ∷ fs) m c =
      deny_fields-at rc ru fs _ c
      ∙ ap (λ o. if is_denied_in rc ru c fs then some false else o)
          (denied-at (is_denied rc ru f) f m c)
      ∙ layered (is_denied rc ru f && c == name_of f) (is_denied_in rc ru c fs) (some false) (m c)

  -- Whatever the order of the columns and of the fields: a column of a field that may not be written is left
  -- out, then one that is omitted, then one that is selected is written, and of the others nothing is
  -- said. The columns are restricted to these if some are selected, unless all are and not all omitted.
  pub select_and_omit_columns-at :
      (rc ru : Bool) (selects omits : List Bytes) (c : Bytes)
      → let r = select_and_omit_columns match_name stmt_table schema rc ru selects omits in
        (r.0 c ≡ (
          if is_denied_in rc ru c (fields_of schema)
          then some false
          else (if is_named c omits
              then some false
              else (if is_named c selects then some true else none))))
        × (r.1 ≡ (not (has_star selects && not (has_star omits)) && not (is_empty selects)))
  unfolding select_and_omit_columns
  select_and_omit_columns-at rc ru selects omits c =
      let first =
        process_columns match_name stmt_table schema selects true
          (record { results = λ c. none; not_restricted = false }) in
      (
        deny_fields-at rc ru (fields_of schema) _ c
            ∙ ap (λ o. if is_denied_in rc ru c (fields_of schema) then some false else o)
                (process_columns-at omits false first c
                  ∙ ap (λ o. if is_named c omits then some false else o)
                      (process_columns-at selects true _ c)),
        ap (λ b. not b && not (is_empty selects))
            (process_columns-star omits false first
              ∙ ap (λ b. if has_star omits then false else b) (process_columns-star selects true _)
              ∙ last_star (has_star selects) (has_star omits)),
      )
