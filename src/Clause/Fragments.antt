-- ===== src/Clause/Fragments.antt =====
-- clause/expression.go: what the expressions do with the values and names that they hold. A value stands
-- here as a part, with the action of `AddVar` on it.
use pewter_rinse_moor.Prelude.{
  ℕ, Bool, true, false, not, ◌&&◌, ◌||◌, Option, none, some, List, [], ◌∷◌, ◌++◌, Bytes, codes,
  equal_bytes, equal_numbers, ◌==◌, if◌then◌else◌,
}
use pewter_rinse_moor.Clause.{Value, null, nil_pointer, bytes, valuer, list, slice}
use pewter_rinse_moor.Clause.Writer.{Env, Action, ◌>>◌, skip, write, push_var, byte, commas, bind}

-- A value with what `AddVar` does for it, and for its elements where it is a slice.
pub record Part : Type 0 where
  pub content : Value
  pub add : Action
  pub elements : List Action

-- the dynamic types that `Eq.Build` and `Neq.Build` list
abbrev pub is_listed : Value → Bool
is_listed (list vs) = true
is_listed (slice t vs) = t
is_listed _ = false

-- a value that is nil or a nil pointer
abbrev pub is_nil : Value → Bool
is_nil null = true
is_nil nil_pointer = true
is_nil _ = false

-- `eqNil`
abbrev pub eq_nil : Value → Bool
eq_nil (valuer v) = is_nil v
eq_nil null = true
eq_nil nil_pointer = true
eq_nil _ = false

-- `exprs[0].([]interface{})`
abbrev pub is_list : Value → Bool
is_list (list vs) = true
is_list _ = false

abbrev pub adds : List Part → List Action
adds [] = []
adds (p ∷ ps) = p.add ∷ adds ps

-- `namedMap`: a later entry replaces an earlier one
unfoldable pub lookup : Bytes → List (Bytes × Part) → Option Part
lookup name [] = none
lookup name ((n, p) ∷ l) = elim (lookup name l) [
  | some q ↦ some q
  | none ↦ if n == name then some p else none
]

-- the bytes that end a name
abbrev pub ends_name : ℕ → Bool
ends_name c =
    c == b' '
    || c == b','
    || c == b')'
    || c == b'"'
    || c == b'\''
    || c == b'`'
    || c == 13
    || c == 10
    || c == b';'

module _ (env : Env) where
  abbrev pub bind_slice : List Action → Action
  bind_slice [] = bind env null
  bind_slice (a ∷ l) = commas (a ∷ l)

  -- the switch of `processValue`
  abbrev pub process_content : Value → Part → Action
  process_content (list vs) p = bind_slice p.elements
  process_content (slice t vs) p = bind_slice p.elements
  process_content (bytes bs) p = bind_slice p.elements
  process_content _ p = p.add

  -- `processValue`
  unfoldable pub process_value : Part → Action
  process_value p = process_content p.content p

  -- `AddVar(builder, sql.NamedArg{Value: v})` for the variables that no `?` has taken
  unfoldable pub push_rest : List Part → Action
  push_rest [] = skip
  push_rest (p ∷ ps) = push_var p.content >> push_rest ps

  -- The loop of `Expr.Build` over the bytes; `after` is `afterParenthesis`.
  unfoldable pub walk_expr : Bytes → List Part → Bool → Bool → Action
  walk_expr [] ps bare after = push_rest ps
  walk_expr (c ∷ s) [] bare after = write (byte c) >> walk_expr s [] bare (c == b'(')
  walk_expr (c ∷ s) (p ∷ ps) bare after =
      let taken = (if after || bare then process_value p else p.add) >> walk_expr s ps bare after in
      let copied = write (byte c) >> walk_expr s (p ∷ ps) bare (c == b'(') in
      if c == b'?' then taken else copied

  abbrev pub build_expr : Bytes → List Part → Bool → Action
  build_expr sql parts bare = walk_expr sql parts bare false

  -- the variable of a name, or the name itself
  unfoldable pub named : List (Bytes × Part) → Bool → Bytes → Action
  named m after name = elim (lookup name m) [
    | some p ↦ if after then process_value p else p.add
    | none ↦ write (byte b'@') >> write name
  ]

  -- The loop of `NamedExpr.Build`: `inside` is `inName`, `after` is `afterParenthesis`.
  unfoldable pub walk_named : List (Bytes × Part) → Bytes → List Part → Bool → Bool → Bytes → Action
  walk_named m [] ps inside after name = if inside then named m false name else skip
  walk_named m (c ∷ s) ps inside after name =
      let open_name = walk_named m s ps true after [] in
      let close =
        (if inside then named m after name else skip)
        >> write (byte c)
        >> walk_named m s ps false false name in
      let in_name = walk_named m s ps true after (name ++ byte c) in
      let copied = write (byte c) >> walk_named m s ps false (c == b'(') name in
      let plain = if inside then in_name else copied in
      if c == b'@' && not inside then open_name else if ends_name c then close else elim ps [
        | [] ↦ plain
        | p ∷ rest ↦
            if c == b'?'
            then (if after then process_value p else p.add) >> walk_named m s rest inside after name
            else plain
      ]

module _ (quote : Action) where
  unfoldable pub build_eq : Part → Action
  unfolding codes
  build_eq p =
      quote
      >> (if is_listed p.content
          then elim p.elements [
            | [] ↦ write (codes " IN (NULL)")
            | a ∷ l ↦ write (codes " IN (") >> commas (a ∷ l) >> write (byte b')')
          ]
          else if eq_nil p.content
          then write (codes " IS NULL")
          else (write (codes " = ") >> p.add))

  unfoldable pub build_neq : Part → Action
  unfolding codes
  build_neq p =
      quote
      >> (if is_listed p.content
          then (write (codes " NOT IN (") >> commas p.elements >> write (byte b')'))
          else if eq_nil p.content
          then write (codes " IS NOT NULL")
          else (write (codes " <> ") >> p.add))

  -- `Gt`, `Gte`, `Lt`, `Lte`, `Like` and its negation
  unfoldable pub compare_by : Bytes → Action → Action
  compare_by op add = quote >> write op >> add

  -- `IN.Build` and its negation: the texts for no value, one value and several
  unfoldable pub build_in : Bytes → Bytes → Bytes → List Part → Action
  build_in none_text one_text many_text [] = quote >> write none_text
  build_in none_text one_text many_text (p ∷ []) =
      if is_list p.content
      then (quote >> write many_text >> p.add >> write (byte b')'))
      else (quote >> write one_text >> p.add)
  build_in none_text one_text many_text (p ∷ q ∷ ps) =
      quote >> write many_text >> commas (adds (p ∷ q ∷ ps)) >> write (byte b')')
