-- ===== src/Sessions/Chain.antt =====
-- chainable_api.go, with `Set` and `AddError` of gorm.go: the methods that a chain is made of. A call is a value;
-- `perform` runs it on the DB at an address and returns the address of the DB that it returns.
--
-- The conditions that `BuildCondition` makes of arguments, by reflection, are given with the call, and so
-- is whether a byte may stand in a name. The calls `Joins` and `InnerJoins` differ in the type of the join.
use pewter_rinse_moor.Prelude.{
  ℕ, Bool, true, false, Option, none, some, List, [], ◌∷◌, ◌++◌, Bytes, codes, equal_bytes,
  equal_numbers, ◌==◌, if◌then◌else◌, get_elem?, update,
}
use pewter_rinse_moor.Clause.{
  Column, Value, Values, Expression, Exprs, or_conditions, not_conditions, no_exprs, and_then,
}
use pewter_rinse_moor.Clause.Sections.{
  ℤ, pos, OrderByColumn, OrderBy, Section, where_section, limit_section, order_by_section,
  group_by_section, select_section, returning_section,
}
use pewter_rinse_moor.Clause.Merge.{Clauses, find_clause, set_clause, add_clauses}
use pewter_rinse_moor.SoftDelete.{and_of}
use pewter_rinse_moor.SoftDelete.Meaning.{unwrapped}
use pewter_rinse_moor.Sessions.{Body, Statement, Heap, ◌>>=◌, get_instance}

-- `select_names` is `Select` where the columns are names given one by one or as one slice, and `select_by`
-- where they are an expression.
pub data Call : Type 0 where
  clauses : List Section → Option Exprs → Call
  distinct : Call
  select_names : List Bytes → Call
  select_by : Expression → Call
  omit : List Bytes → Call
  map_columns : List (Bytes × Bytes) → Call
  where_call : Exprs → Call
  not_call : Exprs → Call
  or_call : Exprs → Call
  joins : Bytes → Bytes → Values → Call
  group : Bytes → Call
  having : Exprs → Call
  order_by : OrderBy → Call
  order_column : OrderByColumn → Call
  order : Bytes → Call
  limit : ℤ → Call
  offset : ℤ → Call
  scopes : List ℕ → Call
  preload : Bytes → Values → Call
  model : Value → Call
  attrs : List Value → Call
  assign : List Value → Call
  unscoped : Call
  set : Bytes → Value → Call

-- an entry of a map of the statement, for a key
unfoldable pub put_entry : {A : Type 0} → Bytes → A → List (Bytes × A) → List (Bytes × A)
put_entry k v [] = (k, v) ∷ []
put_entry k v ((n, w) ∷ l) =
    let rest = put_entry k v l in if n == k then (n, v) ∷ l else (n, w) ∷ rest

-- `strings.FieldsFunc` of the bytes that are not `bad`, with the field so far
unfoldable pub fields_func : (ℕ → Bool) → Bytes → Bytes → List Bytes
fields_func bad [] [] = []
fields_func bad (c ∷ word) [] = (c ∷ word) ∷ []
fields_func bad word (c ∷ s) =
    let after = fields_func bad [] s in
    let within = fields_func bad (word ++ c ∷ []) s in
    if bad c then elim word [ [] ↦ after | d ∷ w ↦ (d ∷ w) ∷ after ] else within

unfoldable pub has_byte : ℕ → Bytes → Bool
has_byte c [] = false
has_byte c (d ∷ s) = let rest = has_byte c s in if d == c then true else rest

-- the columns that `Omit` sets
unfoldable pub omitted : (ℕ → Bool) → List Bytes → List Bytes
omitted bad (s ∷ []) = if has_byte b',' s then fields_func bad [] s else s ∷ []
omitted bad l = l

-- `len(fields) != 1`
abbrev pub is_raw : List Bytes → Bool
is_raw (f ∷ []) = false
is_raw _ = true

-- conditions, where there are any, under WHERE
unfoldable pub where_of : Exprs → Exprs → List Section
where_of no_exprs es = []
where_of (and_then e es) fs = where_section fs ∷ []

abbrev pub one : Expression → Exprs
one e = and_then e no_exprs

abbrev pub raw_column : Bytes → Bool → Column
raw_column s raw = record { table = []; name = s; alias = []; raw = raw }

abbrev pub in_order_of : List OrderByColumn → Section
in_order_of cs = order_by_section (record { columns = cs; expression = none })

-- the clauses that a call adds; `unique` is the `Distinct` of the statement of the DB that it is called on
unfoldable pub sections_of : (ℕ → Bool) → Bool → Call → List Section
sections_of bad unique (clauses ss none) = ss
sections_of bad unique (clauses ss (some es)) = ss ++ where_section es ∷ []
sections_of bad unique (select_by e) =
    select_section (record { distinct = unique; columns = []; expression = some e }) ∷ []
sections_of bad unique (where_call es) = where_of es es
sections_of bad unique (not_call es) = where_of es (one (not_conditions (unwrapped es)))
sections_of bad unique (or_call es) = where_of es (one (or_conditions (and_of es)))
sections_of bad unique (group s) =
    group_by_section
      (record { columns = raw_column s (is_raw (fields_func bad [] s)) ∷ []; having = no_exprs })
    ∷ []
sections_of bad unique (having es) = group_by_section (record { columns = []; having = es }) ∷ []
sections_of bad unique (order_by o) = order_by_section o ∷ []
sections_of bad unique (order_column c) = in_order_of (c ∷ []) ∷ []
sections_of bad unique (order []) = []
sections_of bad unique (order (c ∷ s)) =
    in_order_of (record { column = raw_column (c ∷ s) true; desc = false; reorder = false } ∷ [])
    ∷ []
sections_of bad unique (limit n) = limit_section (record { limit = some n; offset = pos 0 }) ∷ []
sections_of bad unique (offset n) = limit_section (record { limit = none; offset = n }) ∷ []
sections_of bad unique _ = []

unfoldable pub select_name : Bytes
unfolding codes
select_name = codes "SELECT"

-- An expression that SELECT has goes when names are selected.
unfoldable pub without_expression : Clauses → Clauses
without_expression l = elim (find_clause select_name l) [
  | none ↦ l
  | some c ↦ set_clause select_name (record c { expression = none }) l
]

-- what a call does to the clauses of the statement
unfoldable pub on_clauses : (ℕ → Bool) → Bool → Call → Clauses → Clauses
on_clauses bad unique (select_names ns) l = without_expression l
on_clauses bad unique c l = add_clauses (sections_of bad unique c) l

-- and to its other fields
unfoldable pub on_body : (ℕ → Bool) → Call → Body → Body
on_body bad distinct b = record b { distinct = true }
on_body bad (select_names ns) b = record b { selects = ns }
on_body bad (omit ns) b = record b { omits = omitted bad ns }
on_body bad (map_columns m) b = record b { column_mapping = m }
on_body bad (joins kind s vs) b = record b { joins = b.joins ++ (kind, s, vs) ∷ [] }
on_body bad (scopes fs) b = record b { scopes = b.scopes ++ fs }
on_body bad (preload s vs) b = record b { preloads = put_entry s vs b.preloads }
on_body bad (model v) b = record b { model = some v }
on_body bad (attrs vs) b = record b { attrs = vs }
on_body bad (assign vs) b = record b { assigns = vs }
on_body bad unscoped b = record b { unscoped = true }
on_body bad (set k v) b = record b { settings = put_entry k v b.settings }
on_body bad _ b = b

-- what a statement says: its clauses and its other fields
abbrev pub Content : Type 0
Content = Body × Clauses

abbrev pub apply : (ℕ → Bool) → Bool → Call → Content → Content
apply bad unique c (b, l) = (on_body bad c b, on_clauses bad unique c l)

-- the statement of the DB at an address
unfoldable pub statement_of : ℕ → Heap → Option (ℕ × Statement)
statement_of p h = do
  d ← get_elem? h.dbs p
  s ← get_elem? h.statements d.statement
  some (d.statement, s)

-- the writes of a call to the statement at an address
unfoldable pub write_call : (ℕ → Bool) → Bool → Call → ℕ → Statement → Heap → Heap
write_call bad unique c a s h = record h {
  statements = update a (λ t. record t { body = on_body bad c t.body }) h.statements;
  clause_maps = update s.clauses (on_clauses bad unique c) h.clause_maps;
}

-- whether a RETURNING is among the clauses
abbrev pub has_returning : List Section → Bool
has_returning [] = false
has_returning (returning_section r ∷ ss) = true
has_returning (s ∷ ss) = has_returning ss

-- Whether a call may append in place to the columns of a RETURNING, whose array other statements share.
abbrev pub may_share : Call → Bool
may_share (clauses ss es) = has_returning ss
may_share _ = false

-- The method on the DB at an address. Calls that may append in place are left out: they have no result here.
unfoldable pub perform : (ℕ → Bool) → Call → ℕ → Heap → Option (ℕ × Heap)
perform bad c p h = if may_share c then none else (do
  (b, u) ← statement_of p h
  (q, k) ← get_instance p h
  (a, s) ← statement_of q k
  some (q, write_call bad u.body.distinct c a s k))

-- a chain of calls, each on the DB that the one before returns
unfoldable pub run : (ℕ → Bool) → List Call → ℕ → Heap → Option (ℕ × Heap)
run bad [] p h = some (p, h)
run bad (c ∷ cs) p h = do (q, k) ← perform bad c p h; run bad cs q k

-- what the statement of the DB at an address says
unfoldable pub view : ℕ → Heap → Option Content
view p h = do (a, s) ← statement_of p h; l ← get_elem? h.clause_maps s.clauses; some (s.body, l)
