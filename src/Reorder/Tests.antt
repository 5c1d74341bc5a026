-- ===== src/Reorder/Tests.antt =====
-- Users refer to companies.
use pewter_rinse_moor.Prelude.{
  ℕ, zero, suc, ◌<◌, ◌≡◌, refl, true, false, Option, none, some, List, [], ◌∷◌, Bytes, codes, arith,
  All, bytes_beq, equal_bytes, ◌==◌, if◌then◌else◌,
}
use pewter_rinse_moor.Reorder.{
  Relation, Model, has_number, has_name, reorder_models, insert_into_ordered_list, parse_dependence,
  ensure, each,
}
use pewter_rinse_moor.Reorder.Ends.{RefersBelow}
use pewter_rinse_moor.Reorder.Placed.{needs, IsPlaced}
use pewter_rinse_moor.Reorder.Whole.{Pairs, reorder_models-IsPlaced}

abbrev company : Relation
company = record {
  ignored = false;
  constraint = some 1;
  is_has = false;
  field_schema = 1;
  join_table = none;
}

abbrev models : ℕ → Model
models zero = record { table = codes "users"; relations = company ∷ [] }
models (suc m) = record { table = codes "companies"; relations = [] }

abbrev rank : Bytes → ℕ
rank k = if k == codes "users" then 1 else 0

reorder_models_two :
    reorder_models models false true 2 3 (0 ∷ [])
    ≡ some (codes "companies" ∷ codes "users" ∷ [], some 1 ∷ some 0 ∷ [])
unfolding reorder_models insert_into_ordered_list parse_dependence ensure each bytes_beq codes
reorder_models_two = refl

rank_falls :
    (m d : ℕ)
    → has_number d (needs models false m) ≡ true
    → rank (models d).table < rank (models m).table
unfolding bytes_beq codes
rank_falls zero zero h = absurd (ground arith)
rank_falls zero (suc d) h = omega arith
rank_falls (suc m) d h = absurd (ground arith)

models_below : (m : ℕ) → All (RefersBelow 2) (models m).relations
models_below zero = ((omega arith, tt, omega arith), tt)
models_below (suc m) = tt

rank_high : (m : ℕ) → rank (models m).table < 2
unfolding bytes_beq codes
rank_high zero = omega arith
rank_high (suc m) = omega arith

reorder_models-IsPlaced_example :
    (names : List Bytes) × (schemas : List (Option ℕ)) × (reorder_models models false true 2 3
        (0 ∷ [])
      ≡ some (names, schemas))
    × Pairs models names schemas
    × IsPlaced models false [] names
    × ((m : ℕ) → has_number m (0 ∷ []) ≡ true → has_name (models m).table names ≡ true)
reorder_models-IsPlaced_example =
    reorder_models-IsPlaced models false rank rank_falls 2 models_below 3 (omega arith) 2 rank_high
      (0 ∷ []) (omega arith, tt)
