-- ===== src/Batches/Find.antt =====
-- `FindInBatches` of finisher_api.go: a query that is read batch by batch, along the primary key.
--
-- The query is another function's: `find` gives the rows and the error of one batch, and `key` the primary
-- key of a row, which is `none` where it has the zero value. Sizes are natural numbers, and the batch size is
-- not 0. Besides what the `DB` has at the end, the batches that the caller's function got are noted.
pub mod Table
pub mod Limits
pub mod Turns
pub mod Reads
use pewter_rinse_moor.Prelude.{
  ℕ, zero, suc, ◌+◌, ◌/◌, ◌%◌, Bool, true, false, not, ◌&&◌, ◌||◌, Option, none, some, List, [],
  ◌∷◌, ◌++◌, Bytes, length, equal_numbers, ◌==◌, if◌then◌else◌, ltb, leb,
}
use pewter_rinse_moor.Transactions.{Failure, Failures, foreign}

-- `clause.Limit`
pub record Limit : Type 0 where
  pub limit : Option ℕ
  pub offset : ℕ

-- what `queryDB` asks for: rows behind a key, so many of them, the first ones left out
pub record Query : Type 0 where
  pub after : Option ℕ
  pub limit : ℕ
  pub offset : ℕ

-- `result`
pub record Found (A : Type 0) : Type 0 where
  pub rows : List A
  pub error : Option Failure

-- the variables of the loop
pub record Loop (A : Type 0) : Type 0 where
  pub after : Option ℕ
  pub offset : ℕ
  pub batch_size : ℕ
  pub rows_affected : ℕ
  pub batch : ℕ
  pub errors : Failures
  pub handed : List (List A)

-- whether the loop breaks
pub data Turn (A : Type 0) : Type 0 where
  stop : Loop A → Turn A
  next : Loop A → Turn A

-- `ErrPrimaryKeyRequired`
abbrev pub primary_key_required : Failure
primary_key_required = foreign 0

abbrev pub last_of : {A : Type 0} → List A → Option A
last_of [] = none
last_of (x ∷ []) = some x
last_of (x ∷ y ∷ l) = last_of (y ∷ l)

-- `totalSize`
abbrev pub total_size : Option Limit → ℕ
total_size none = 0
total_size (some l) = elim l.limit [ none ↦ 0 | some n ↦ n ]

-- The offset that the statement has, and that is reset for the next batches.
abbrev pub offset_of : Option Limit → ℕ
offset_of none = 0
offset_of (some l) = l.offset

-- the batch size, at most the limit
unfoldable pub clamp : ℕ → ℕ → ℕ
clamp total size = if ltb 0 total && ltb total size then total else size

-- the size of the next batch
unfoldable pub next_size : ℕ → ℕ → ℕ → ℕ
next_size total size batch = if ltb 0 total && (total / size) == batch then total % size else size

module _ {A : Type 0} (find : Query → Found A) (key : A → Option ℕ)
    (fc : List A → ℕ → Option Failure) where
  -- `tx.AddError`
  unfoldable pub add : Option Failure → Failures → Failures
  add none es = es
  add (some e) es = es ++ e ∷ []

  -- the call of the caller's function, or the error of the query
  unfoldable pub handle : Found A → Loop A → Loop A
  handle result s = elim result.error [
    | some e ↦ record s { errors = add (some e) s.errors }
    | none ↦ elim result.rows [
      | [] ↦ s
      | x ∷ xs ↦ record s {
        errors = add (fc (x ∷ xs) s.batch) s.errors;
        handed = s.handed ++ (x ∷ xs) ∷ [];
      }
    ]
  ]

  -- the query of a batch, with what is counted
  unfoldable pub read_batch : Loop A → Found A
  read_batch s = find (record { after = s.after; limit = s.batch_size; offset = s.offset })

  unfoldable pub count : Found A → Loop A → Loop A
  count result s = record s {
    rows_affected = s.rows_affected + length result.rows;
    batch = s.batch + 1;
  }

  abbrev pub is_empty : Failures → Bool
  is_empty [] = true
  is_empty (e ∷ es) = false

  -- whether the loop breaks behind a batch
  unfoldable pub is_last : ℕ → Found A → Loop A → Bool
  is_last total result s =
      not (is_empty s.errors)
      || ltb (length result.rows) s.batch_size
      || (ltb 0 total && leb total s.rows_affected)

  -- the last row's key, where it has one
  abbrev pub last_key : List A → Option ℕ
  last_key rows = elim (last_of rows) [ none ↦ none | some x ↦ key x ]

  -- the end of a turn of the loop
  unfoldable pub decide : ℕ → Found A → Loop A → Turn A
  decide total result done = elim (is_last total result done) [
    | true ↦ stop done
    | false ↦ elim (last_key result.rows) [
      | none ↦ stop (record done { errors = add (some primary_key_required) done.errors })
      | some k ↦ next (record done {
        after = some k;
        offset = 0;
        batch_size = next_size total done.batch_size done.batch;
      })
    ]
  ]

  -- a turn of the loop
  unfoldable pub turn : ℕ → Loop A → Turn A
  turn total s = let result = read_batch s in decide total result (handle result (count result s))

  -- The loop. Without enough fuel there is no result.
  unfoldable pub find_from : ℕ → ℕ → Loop A → Option (Loop A)
  find_from zero total s = none
  find_from (suc fuel) total s = elim (turn total s) [
    | stop u ↦ some u
    | next u ↦ find_from fuel total u
  ]

  -- `FindInBatches`, from a `DB` without an error, perhaps with a limit
  unfoldable pub find_in_batches : ℕ → Option Limit → ℕ → Option (Loop A)
  find_in_batches fuel limit size = find_from fuel (total_size limit) (record {
    after = none;
    offset = offset_of limit;
    batch_size = clamp (total_size limit) size;
    rows_affected = 0;
    batch = 0;
    errors = [];
    handed = [];
  })
