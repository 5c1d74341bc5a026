-- ===== src/Reorder.antt =====
-- `ReorderModels` of migrator/migrator.go: models in the order in which their tables can be created.
--
-- A schema is a number, as a pointer is, and `models` gives what parsing it yields: its table and its
-- relationships, in the order in which Go goes through the map. The values to order are schemas here; those that are
-- table names go to the front and are left out. The recursions have fuel, and without enough of it there is no
-- result.
--
-- The deferred function appends to `dep.Depends` when the copy of `dep` is in `valuesMap` already, so that this
-- append has no effect: there is none here.
pub mod Parsed
pub mod Ends
pub mod Placed
pub mod Whole
mod Tests
use pewter_rinse_moor.Prelude.{
  ℕ, zero, suc, Bool, true, false, not, ◌&&◌, ◌||◌, Option, none, some, List, [], ◌∷◌, ◌++◌, Bytes,
  equal_bytes, equal_numbers, ◌==◌, if◌then◌else◌,
}

-- `Relationship`: whether its field is ignored; the schema that its constraint refers to, if it has a
-- constraint of this schema on another one; whether it is HasOne or HasMany; the schemas of its field and of
-- its join table.
pub record Relation : Type 0 where
  pub ignored : Bool
  pub constraint : Option ℕ
  pub is_has : Bool
  pub field_schema : ℕ
  pub join_table : Option ℕ

pub record Model : Type 0 where
  pub table : Bytes
  pub relations : List Relation

-- `Dependency`
pub record Dependency : Type 0 where
  pub dest : ℕ
  pub depends : List ℕ

-- `modelNames`, `parsedSchemas` and `valuesMap`
pub record Parsing : Type 0 where
  pub names : List Bytes
  pub parsed : List ℕ
  pub values : List (Bytes × Dependency)

-- `orderedModelNames` and `orderedModelNamesMap` besides
pub record Ordering : Type 0 where
  pub parsing : Parsing
  pub ordered : List Bytes
  pub marked : List Bytes

abbrev pub has_number : ℕ → List ℕ → Bool
has_number n [] = false
has_number n (k ∷ l) = k == n || has_number n l

abbrev pub has_name : Bytes → List Bytes → Bool
has_name n [] = false
has_name n (k ∷ l) = k == n || has_name n l

abbrev pub value_of : Bytes → List (Bytes × Dependency) → Option Dependency
value_of n [] = none
value_of n ((k, d) ∷ l) = let rest = value_of n l in if k == n then some d else rest

-- the loop over the relationships: what the constraints refer to
abbrev pub depends_of : List Relation → List ℕ
depends_of [] = []
depends_of (r ∷ rs) =
    if r.ignored
    then depends_of rs
    else elim r.constraint [ none ↦ depends_of rs | some c ↦ c ∷ depends_of rs ]

-- `beDependedOn`
abbrev pub be_depended_on : List Relation → List ℕ
be_depended_on [] = []
be_depended_on (r ∷ rs) =
    if not r.ignored && r.is_has then r.field_schema ∷ be_depended_on rs else be_depended_on rs

-- what the deferred functions of the relationships parse, the last one first
abbrev pub deferred : List ℕ → List Relation → List ℕ
deferred on [] = []
deferred on (r ∷ rs) =
    deferred on rs
    ++ (if r.ignored then [] else elim r.join_table [
      | none ↦ []
      | some j ↦ if has_number r.field_schema on then r.field_schema ∷ j ∷ [] else j ∷ []
    ])

-- calls one after the other
unfoldable pub each : {A S : Type 0} → (A → S → Option S) → List A → S → Option S
each f [] s = some s
each f (x ∷ xs) s = elim (f x s) [ none ↦ none | some t ↦ each f xs t ]

module _ (models : ℕ → Model) (ignore_relationships auto_add : Bool) where
  abbrev pub relations_of : ℕ → List Relation
  relations_of m = if ignore_relationships then [] else (models m).relations

  -- `parseDependence` up to its deferred calls
  abbrev pub enter : ℕ → Bool → Parsing → Parsing
  enter m add_to_list p = record {
    names = if add_to_list then p.names ++ (models m).table ∷ [] else p.names;
    parsed = m ∷ p.parsed;
    values =
        ((models m).table, record { dest = m; depends = depends_of (relations_of m) }) ∷ p.values;
  }

  -- `parseDependence`
  unfoldable pub parse_dependence : ℕ → Bool → ℕ → Parsing → Option Parsing
  parse_dependence zero add_to_list m p = none
  parse_dependence (suc fuel) add_to_list m p = elim (has_number m p.parsed) [
    | true ↦ some p
    | false ↦
        each (parse_dependence fuel auto_add)
          (deferred (be_depended_on (relations_of m)) (relations_of m)) (enter m add_to_list p)
  ]

  -- a dependency, parsed if it is not there
  unfoldable pub ensure : ℕ → ℕ → Parsing → Option Parsing
  ensure fuel d p = elim (value_of (models d).table p.values) [
    | some v ↦ some p
    | none ↦ parse_dependence fuel auto_add d p
  ]

  abbrev pub mark : Bytes → Ordering → Ordering
  mark name s = record s { marked = name ∷ s.marked }

  abbrev pub append : Bytes → Ordering → Ordering
  append name s = record s { ordered = s.ordered ++ name ∷ [] }

  -- `dep.Depends` of what is in the map
  abbrev pub depends_in : Option Dependency → List ℕ
  depends_in none = []
  depends_in (some v) = if auto_add then v.depends else []

  -- `insertIntoOrderedList`
  unfoldable pub insert_into_ordered_list : ℕ → ℕ → Bytes → Ordering → Option Ordering
  insert_into_ordered_list zero parse_fuel name s = none
  insert_into_ordered_list (suc fuel) parse_fuel name s = elim (has_name name s.marked) [
    | true ↦ some s
    | false ↦
        elim (each
          (λ d t. elim (ensure parse_fuel d t.parsing) [
            | none ↦ none
            | some p ↦
                insert_into_ordered_list fuel parse_fuel (models d).table (record t { parsing = p })
          ])
          (depends_in (value_of name s.parsing.values)) (mark name s)) [
            | none ↦ none
            | some t ↦ some (append name t)
          ]
  ]

  -- the schemas whose values are returned
  abbrev pub dests : List Bytes → List (Bytes × Dependency) → List (Option ℕ)
  dests [] values = []
  dests (n ∷ ns) values =
      (elim (value_of n values) [ none ↦ none | some v ↦ some v.dest ]) ∷ dests ns values

  -- `ReorderModels`: the names in their order, and the schemas
  unfoldable pub reorder_models : ℕ → ℕ → List ℕ → Option (List Bytes × List (Option ℕ))
  reorder_models fuel parse_fuel values =
      elim (each (parse_dependence parse_fuel true) values
        (record { names = []; parsed = []; values = [] })) [
          | none ↦ none
          | some p ↦
              elim (each (insert_into_ordered_list fuel parse_fuel) p.names
                (record { parsing = p; ordered = []; marked = [] })) [
                  | none ↦ none
                  | some s ↦ some (s.ordered, dests s.ordered s.parsing.values)
                ]
        ]
