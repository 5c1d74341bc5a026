-- ===== src/SoftDelete/Meaning.antt =====
-- What the conditions of a WHERE clause mean in SQL, where AND binds more tightly than OR, given what the
-- conditions other than groups mean.
use pewter_rinse_moor.Prelude.{
  ◌≡◌, refl, ap, ◌∙◌, arith, Bool-cases, inl, inr, Bool, true, false, ◌&&◌, ◌||◌, not, none, List,
  [], ◌∷◌, if◌then◌else◌,
}
use pewter_rinse_moor.Clause.{Expression, Exprs, and_conditions, or_conditions, no_exprs, and_then}
use pewter_rinse_moor.Clause.Writer.{skip}
use pewter_rinse_moor.Clause.Conditions.{Node, is_single_or, is_at_most_single_or, is_or, put_first}
use pewter_rinse_moor.Clause.Merge.{append_exprs}
use pewter_rinse_moor.SoftDelete.{and_of, has_single_or}

-- the expressions that `Where.Build` goes through
abbrev pub unwrapped : Exprs → Exprs
unwrapped (and_then (and_conditions es) no_exprs) = es
unwrapped es = es

-- `put_first` looks at the trees only.
abbrev pub as_nodes : Exprs → List Node
as_nodes no_exprs = []
as_nodes (and_then e es) = record { tree = e; build = skip; negation = none } ∷ as_nodes es

abbrev pub trees : List Node → Exprs
trees [] = no_exprs
trees (n ∷ ns) = and_then n.tree (trees ns)

-- the expressions in the order in which `Where.Build` writes them
unfoldable pub in_order : Exprs → Exprs
in_order es = trees (put_first (as_nodes (unwrapped es)))

-- The first condition that is written is the first one.
abbrev pub starts : Exprs → Bool
starts no_exprs = true
starts (and_then e es) = not (is_at_most_single_or e)

abbrev pub IsLed : Exprs → Type 0
IsLed es = starts (unwrapped es) ≡ true

trees-as_nodes : (es : Exprs) → trees (as_nodes es) ≡ es
trees-as_nodes no_exprs = refl
trees-as_nodes (and_then e es) = ap (and_then e) (trees-as_nodes es)

put_first-starts : (es : Exprs) → starts es ≡ true → put_first (as_nodes es) ≡ as_nodes es
unfolding put_first
put_first-starts no_exprs h = refl
put_first-starts (and_then e es) h = ground arith

in_order-led : (es : Exprs) → IsLed es → in_order es ≡ unwrapped es
unfolding in_order
in_order-led es h = rw (put_first-starts (unwrapped es) h) (trees-as_nodes (unwrapped es))

module _ (truth : Expression → Bool) where
  unfoldable mutual
    pub meaning : Expression → Bool
    meaning (and_conditions es) = joined es
    meaning (or_conditions es) = any es
    meaning e = truth e

    -- conditions side by side, as `buildExprs` joins them by AND, and by OR before a single OR
    pub joined : Exprs → Bool
    joined no_exprs = true
    joined (and_then e es) = joined_from (meaning e) es

    -- the same behind conditions, of which the ones since the last OR are as `b` says
    pub joined_from : Bool → Exprs → Bool
    joined_from b no_exprs = b
    joined_from b (and_then e es) =
        let one = joined_from (meaning e) es in
        let both = joined_from (b && meaning e) es in if is_single_or e then b || one else both

    pub any : Exprs → Bool
    any no_exprs = true
    any (and_then e es) = any_from (meaning e) es

    pub any_from : Bool → Exprs → Bool
    any_from b no_exprs = b
    any_from b (and_then e es) = any_from (b || meaning e) es

  -- the meaning of a WHERE clause
  unfoldable pub where_holds : Exprs → Bool
  where_holds es = joined (in_order es)

  joined_from-snoc :
      (b : Bool) (es : Exprs) (q : Expression)
      → has_single_or es ≡ false
      → is_single_or q ≡ false
      → joined_from b (append_exprs es (and_then q no_exprs)) ≡ joined_from b es && meaning q
  unfolding joined_from
  joined_from-snoc b no_exprs q h k = rw k refl
  joined_from-snoc b (and_then e es) q h k = elim (Bool-cases (is_single_or e)) [
    | inl single ↦ absurd (ground arith)
    | inr other ↦
        let rest : has_single_or es ≡ false = ground arith in
        rw other (joined_from-snoc (b && meaning e) es q rest k)
  ]

  -- A condition behind conditions without an OR.
  pub joined-snoc :
      (es : Exprs) (q : Expression)
      → has_single_or es ≡ false
      → is_single_or q ≡ false
      → joined (append_exprs es (and_then q no_exprs)) ≡ joined es && meaning q
  unfolding joined joined_from
  joined-snoc no_exprs q h k = refl
  joined-snoc (and_then e es) q h k =
      let rest : has_single_or es ≡ false = ground arith in joined_from-snoc (meaning e) es q rest k

  -- A group of the conditions means what they mean side by side.
  pub joined-and_of : (es : Exprs) → joined (and_of es) ≡ joined es
  unfolding joined joined_from meaning
  joined-and_of no_exprs = refl
  joined-and_of (and_then e no_exprs) = elim (Bool-cases (is_or e)) [
    | inl group ↦ rw group refl
    | inr other ↦ rw other refl
  ]
  joined-and_of (and_then e (and_then f es)) = refl

  joined-unwrapped : (es : Exprs) → joined (unwrapped es) ≡ joined es
  unfolding joined joined_from meaning
  joined-unwrapped (and_then (and_conditions es) no_exprs) = refl
  joined-unwrapped es = refl

  -- A WHERE clause that starts with no OR means its conditions side by side.
  pub where_holds-joined : (es : Exprs) → IsLed es → where_holds es ≡ joined es
  unfolding where_holds
  where_holds-joined es h = ap joined (in_order-led es h) ∙ joined-unwrapped es
