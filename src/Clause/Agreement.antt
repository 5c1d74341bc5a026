-- ===== src/Clause/Agreement.antt =====
-- Expressions of clause/expression.go that say the same: IN of one value, and its negation.
use pewter_rinse_moor.Prelude.{◌≡◌, refl, ap, false, some, [], ◌∷◌, Bytes, codes, arith}
use pewter_rinse_moor.Clause.{Value, Quotable, list, value, no_values, in_values, eq}
use pewter_rinse_moor.Clause.Writer.{Env, Action}
use pewter_rinse_moor.Clause.Fragments.{
  Part, is_list, is_listed, eq_nil, build_in, build_eq, build_neq,
}
use pewter_rinse_moor.Clause.Build.{build, negate, parts, write_quoted, add_var, elements}

is_list-is_listed : (v : Value) → is_listed v ≡ false → is_list v ≡ false
is_list-is_listed (list vs) h = absurd (ground arith)
is_list-is_listed v h = refl

build_in-build_eq :
    (quote : Action) (p : Part) (none_text many_text : Bytes)
    → is_listed p.content ≡ false
    → eq_nil p.content ≡ false
    → build_in quote none_text (codes " = ") many_text (p ∷ []) ≡ build_eq quote p
unfolding build_in build_eq codes
build_in-build_eq quote p none_text many_text l n =
    rw (build_in, build_eq, is_list-is_listed p.content l, l, n) refl

build_in-build_neq :
    (quote : Action) (p : Part) (none_text many_text : Bytes)
    → is_listed p.content ≡ false
    → eq_nil p.content ≡ false
    → build_in quote none_text (codes " <> ") many_text (p ∷ []) ≡ build_neq quote p
unfolding build_in build_neq codes
build_in-build_neq quote p none_text many_text l n =
    rw (build_in, build_neq, is_list-is_listed p.content l, l, n) refl

-- `IN` of one value that is neither nil nor of a slice type of `Eq` builds what `Eq` builds, and its
-- negation what the negation of `Eq` builds.
pub build-in_one :
    (env : Env) (q : Quotable) (v : Value)
    → is_listed v ≡ false
    → eq_nil v ≡ false
    → (build env (in_values q (value v no_values)) ≡ build env (eq q v))
      × (negate env (in_values q (value v no_values)) ≡ negate env (eq q v))
unfolding build negate parts
build-in_one env q v l n =
    let p : Part = record { content = v; add = add_var env v; elements = elements env v } in
    (
      build_in-build_eq (write_quoted env q) p _ _ l n,
      ap some (build_in-build_neq (write_quoted env q) p _ _ l n),
    )
