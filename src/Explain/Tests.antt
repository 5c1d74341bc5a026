-- ===== src/Explain/Tests.antt =====
-- A logged statement.
use pewter_rinse_moor.Prelude.{◌≡◌, refl, Bool, true, some, [], ◌∷◌, ◌++◌, Bytes, codes}
use pewter_rinse_moor.Explain.{
  text, number, pointer, valuer, doubled, convert_param, convert_params, put_vars, explain_sql,
}
use pewter_rinse_moor.Schema.Texts.{split}
use pewter_rinse_moor.Explain.Places.{interleave, explain_sql-interleave}
use pewter_rinse_moor.Explain.Literals.{read_literal, convert_param-read_literal}

abbrev printable : Bytes → Bool
printable s = true

explain_sql_select :
    explain_sql printable
      (codes "a = ? AND b = ? OR c = ?")
      b'"'
      (text (codes "x\"?") ∷ pointer (number (codes "5")) ∷ [])
    ≡ codes "a = \"x\"\"?\" AND b = 5 OR c = ?"
unfolding codes explain_sql put_vars convert_params convert_param doubled
explain_sql_select = refl

explain_sql-interleave_example :
    explain_sql printable (codes "a = ?") b'"' (number (codes "5") ∷ [])
    ≡ interleave
        (split b'?' (codes "a = ?"))
        (convert_params printable b'"' (number (codes "5") ∷ []))
explain_sql-interleave_example =
    explain_sql-interleave printable (codes "a = ?") b'"' (number (codes "5") ∷ [])

convert_param-read_literal_example :
    read_literal b'"'
      (convert_param printable b'"' (valuer (text (codes "\"; DROP"))) ++ codes " AND")
    ≡ some (codes "\"; DROP", codes " AND")
unfolding codes
convert_param-read_literal_example =
    convert_param-read_literal printable b'"' (valuer (text (codes "\"; DROP"))) (codes "\"; DROP")
      (codes " AND") refl refl
