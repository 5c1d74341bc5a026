-- ===== src/Explain/Places.antt =====
-- Where the variables are put.
use pewter_rinse_moor.Prelude.{
  ℕ, ◌≡◌, refl, sym, ap, ◌∙◌, inl, inr, Bool, List, [], ◌∷◌, ◌++◌, Bytes, arith, Bool-cases,
  equal_numbers, ◌==◌,
}
use pewter_rinse_moor.Schema.Texts.{split, split-cons}
use pewter_rinse_moor.Explain.{Variable, convert_params, put_vars, explain_sql}

-- The parts between question marks with the variables between them, and question marks again where the
-- variables are used up.
abbrev pub interleave : List Bytes → List Bytes → Bytes
interleave [] vars = []
interleave (p ∷ []) vars = p
interleave (p ∷ q ∷ ps) [] = p ++ b'?' ∷ interleave (q ∷ ps) []
interleave (p ∷ q ∷ ps) (v ∷ vars) = p ++ v ++ interleave (q ∷ ps) vars

interleave-cons :
    (x : ℕ) (p : Bytes) (ps vars : List Bytes)
    → interleave ((x ∷ p) ∷ ps) vars ≡ x ∷ interleave (p ∷ ps) vars
interleave-cons x p [] vars = refl
interleave-cons x p (q ∷ ps) [] = refl
interleave-cons x p (q ∷ ps) (v ∷ vars) = refl

put_vars-interleave :
    (sql : Bytes) (vars : List Bytes) → put_vars sql vars ≡ interleave (split b'?' sql) vars
unfolding put_vars split
put_vars-interleave [] vars = refl
put_vars-interleave (x ∷ sql) [] =
    let (p, ps, e) = split-cons b'?' sql in
    let again : put_vars sql [] ≡ interleave (p ∷ ps) [] =
      put_vars-interleave sql [] ∙ ap (λ r. interleave r []) e in
    elim (Bool-cases (x == b'?')) [
      | inl at ↦ let same : x ≡ b'?' = ground arith in rw (at, e, again, same) refl
      | inr off ↦ rw (off, e) (ap (λ r. x ∷ r) again ∙ sym (interleave-cons x p ps []))
    ]
put_vars-interleave (x ∷ sql) (v ∷ vars) =
    let (p, ps, e) = split-cons b'?' sql in
    elim (Bool-cases (x == b'?')) [
      | inl at ↦
          let again : put_vars sql vars ≡ interleave (p ∷ ps) vars =
            put_vars-interleave sql vars ∙ ap (λ r. interleave r vars) e in
          rw (at, e, again) refl
      | inr off ↦
          let again : put_vars sql (v ∷ vars) ≡ interleave (p ∷ ps) (v ∷ vars) =
            put_vars-interleave sql (v ∷ vars) ∙ ap (λ r. interleave r (v ∷ vars)) e in
          rw (off, e) (ap (λ r. x ∷ r) again ∙ sym (interleave-cons x p ps (v ∷ vars)))
    ]

-- The logged statement has the variables, in their order and each as it is written out, in the places of
-- the question marks; question marks that are left over stay, and variables that are left over are not
-- there.
pub explain_sql-interleave :
    (is_printable : Bytes → Bool) (sql : Bytes) (e : ℕ) (avars : List Variable)
    → explain_sql is_printable sql e avars
      ≡ interleave (split b'?' sql) (convert_params is_printable e avars)
unfolding explain_sql
explain_sql-interleave is_printable sql e avars =
    put_vars-interleave sql (convert_params is_printable e avars)
