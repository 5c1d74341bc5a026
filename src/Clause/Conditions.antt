-- ===== src/Clause/Conditions.antt =====
-- clause/where.go: what the conditions do with the expressions that they hold. An expression stands here as
-- a node, with the actions of its methods.
use pewter_rinse_moor.Prelude.{
  ◌-◌, Bool, true, false, ◌&&◌, ◌||◌, Option, none, some, List, [], ◌∷◌, Bytes, codes, equal_bytes,
  equal_numbers, ◌==◌, ltb, leb, if◌then◌else◌, length,
}
use pewter_rinse_moor.Clause.{
  Expression, expr, named_expr, and_conditions, or_conditions, no_exprs, and_then,
}
use pewter_rinse_moor.Clause.Writer.{Action, ◌>>◌, skip, write, in_parens}

-- An expression with what `Build` does, and `NegationBuild` if it has that method.
pub record Node : Type 0 where
  pub tree : Expression
  pub build : Action
  pub negation : Option Action

-- `strings.ToUpper`, on ASCII letters
unfoldable pub to_upper : Bytes → Bytes
to_upper [] = []
to_upper (c ∷ s) = (if leb b'a' c && leb c b'z' then c - 32 else c) ∷ to_upper s

unfoldable pub starts_with : Bytes → Bytes → Bool
starts_with s [] = true
starts_with [] (d ∷ t) = false
starts_with (c ∷ s) (d ∷ t) = c == d && starts_with s t

-- `strings.Contains`
unfoldable pub contains : Bytes → Bytes → Bool
contains [] t = t == []
contains (c ∷ s) t = starts_with (c ∷ s) t || contains s t

unfoldable pub and_with_space : Bytes
unfolding codes
and_with_space = codes " AND "

unfoldable pub or_with_space : Bytes
unfolding codes
or_with_space = codes " OR "

-- `sql := strings.ToUpper(…)` and the test for a conjunction or disjunction in it
unfoldable pub has_and_or : Bytes → Bool
has_and_or sql = contains (to_upper sql) and_with_space || contains (to_upper sql) or_with_space

-- the condition that `buildExprs` joins by OR, whatever the connective
abbrev pub is_single_or : Expression → Bool
is_single_or (or_conditions (and_then e no_exprs)) = true
is_single_or _ = false

-- what `Where.Build` does not put first
abbrev pub is_at_most_single_or : Expression → Bool
is_at_most_single_or (or_conditions no_exprs) = true
is_at_most_single_or (or_conditions (and_then e no_exprs)) = true
is_at_most_single_or _ = false

-- the switch of `buildExprs`
abbrev pub wraps : Expression → Bool
wraps (or_conditions (and_then (expr sql vars bare) no_exprs)) = has_and_or sql
wraps (and_conditions (and_then (expr sql vars bare) no_exprs)) = has_and_or sql
wraps (expr sql vars bare) = has_and_or sql
wraps (named_expr sql vars) = has_and_or sql
wraps _ = false

-- the parentheses that `NotConditions.Build` puts
abbrev pub not_wraps : Expression → Bool
not_wraps (expr sql vars bare) = has_and_or sql
not_wraps _ = false

abbrev pub is_or : Expression → Bool
is_or (or_conditions es) = true
is_or _ = false

abbrev pub parens_if : Bool → Action → Action
parens_if true a = in_parens a
parens_if false a = a

-- the loop of `buildExprs`; `many` is `len(exprs) > 1`
unfoldable pub build_joined : Bool → Bool → Bytes → List Node → Action
build_joined first many join_cond [] = skip
build_joined first many join_cond (n ∷ ns) =
    (if first then skip else write (if is_single_or n.tree then or_with_space else join_cond))
    >> parens_if (many && wraps n.tree) n.build
    >> build_joined false many join_cond ns

unfoldable pub build_exprs : Bytes → List Node → Action
build_exprs join_cond ns = build_joined true (ltb 1 (length ns)) join_cond ns

-- `AndConditions.Build` and `OrConditions.Build`
abbrev pub build_conditions : Bytes → List Node → Action
build_conditions join_cond ns = parens_if (ltb 1 (length ns)) (build_exprs join_cond ns)

-- The first element that is no single OR, with the list in which the given one has its place.
unfoldable pub exchange : Node → List Node → Option (Node × List Node)
exchange n [] = none
exchange n (m ∷ ns) =
    let rest = exchange n ns in
    if is_at_most_single_or m.tree
    then elim rest [ none ↦ none | some (x, l) ↦ some (x, m ∷ l) ]
    else some (m, n ∷ ns)

-- `Where.Build` exchanges the first expression and the first that is no single OR.
unfoldable pub put_first : List Node → List Node
put_first [] = []
put_first (n ∷ ns) =
    if is_at_most_single_or n.tree
    then elim (exchange n ns) [ none ↦ n ∷ ns | some (x, l) ↦ x ∷ l ]
    else n ∷ ns

unfoldable pub any_negation : List Node → Bool
any_negation [] = false
any_negation (n ∷ ns) = elim n.negation [ none ↦ any_negation ns | some a ↦ true ]

-- the loop of `NotConditions.Build` where some expression can negate itself
unfoldable pub negate_each : Bool → List Node → Action
unfolding codes
negate_each first [] = skip
negate_each first (n ∷ ns) =
    (if first then skip else write and_with_space)
    >> elim n.negation [
      | some a ↦ a
      | none ↦ write (codes "NOT ") >> parens_if (not_wraps n.tree) n.build
    ]
    >> negate_each false ns

-- the other loop, behind one NOT
unfoldable pub negate_all : Bool → List Node → Action
negate_all first [] = skip
negate_all first (n ∷ ns) =
    (if first then skip else write (if is_or n.tree then or_with_space else and_with_space))
    >> parens_if (not_wraps n.tree) n.build
    >> negate_all false ns

unfoldable pub build_not : List Node → Action
unfolding codes
build_not ns =
    let many = ltb 1 (length ns) in
    if any_negation ns
    then parens_if many (negate_each true ns)
    else (write (codes "NOT ") >> parens_if many (negate_all true ns))

abbrev pub builds : List Node → List Action
builds [] = []
builds (n ∷ ns) = n.build ∷ builds ns

-- `CommaExpression.Build`
unfoldable pub build_comma : List Action → Action
unfolding codes
build_comma [] = skip
build_comma (a ∷ []) = a
build_comma (a ∷ b ∷ l) = a >> write (codes ", ") >> build_comma (b ∷ l)
