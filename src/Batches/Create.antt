-- ===== src/Batches/Create.antt =====
-- `CreateInBatches` of finisher_api.go for a slice.
--
-- `create` is what the create callbacks do with one batch: the `DB` at their end, the rows with what the
-- database has filled in, and the number of rows. The variables that the loop shares with the function
-- around it, the slice and the number of rows, are its results here. The batch size is a natural
-- number that is not 0; then the loop makes at most as many turns as there are rows, which is its fuel.
pub mod Loops
pub mod Ends
use pewter_rinse_moor.Prelude.{
  ℕ, zero, suc, ◌+◌, ◌-◌, Bool, true, false, ◌||◌, List, [], ◌∷◌, ◌++◌, if◌then◌else◌, ltb, leb,
  length, take, drop, update,
}
use pewter_rinse_moor.Transactions.{
  Failures, Driver, Db, Outcome, returned, panicked, seen, transact, Block,
}

-- what the callbacks leave
pub record Created (A : Type 0) : Type 0 where
  pub subtx : Db
  pub rows : List A
  pub affected : ℕ

-- what the loop leaves
pub record Batched (A : Type 0) : Type 0 where
  pub tx : Db
  pub values : List A
  pub affected : ℕ
  pub result : Failures

-- `reflectValue.Index(i + j).Set(resultSlice.Index(j))`
abbrev pub store : {A : Type 0} → ℕ → List A → List A → List A
store i [] values = values
store i (x ∷ xs) values = store (i + 1) xs (update i (λ y. x) values)

-- `reflectValue.Slice(i, ends)`
abbrev pub slice : {A : Type 0} → ℕ → ℕ → List A → List A
slice i ends values = take (ends - i) (drop i values)

module _ {A : Type 0} (create : List A → Db → Created A) (batch_size : ℕ) where
  -- `ends`
  unfoldable pub ends_at : ℕ → ℕ → ℕ
  ends_at i len = if ltb len (i + batch_size) then len else i + batch_size

  -- a batch that succeeded
  unfoldable pub written : ℕ → Created A → Batched A → Batched A
  written i made s = record s {
    tx = seen made.subtx s.tx;
    values = store i made.rows s.values;
    affected = s.affected + made.affected;
  }

  -- the loop of `callFc`
  unfoldable pub call_from : ℕ → ℕ → Batched A → Batched A
  call_from zero i s = s
  call_from (suc fuel) i s =
      let made = create (slice i (ends_at i (length s.values)) s.values) s.tx in
      let rest = call_from fuel (i + batch_size) (written i made s) in
      if ltb i (length s.values)
      then (elim made.subtx.errors [
        | e ∷ es ↦ record s { tx = seen made.subtx s.tx; result = e ∷ es }
        | [] ↦ rest
      ])
      else s

  -- `callFc`, with as much fuel as there are rows
  unfoldable pub call_fc : List A → Db → Batched A
  call_fc values tx =
      call_from (length values) 0 (record { tx = tx; values = values; affected = 0; result = [] })

  -- its block of a transaction
  unfoldable pub call_block : List A → Block
  call_block values tx = let u = call_fc values tx in (u.tx, returned u.result)

  -- `tx.AddError` of what the function or the transaction returns
  abbrev pub add_outcome : Db × Outcome → Db × Outcome
  add_outcome (tx, returned es) = (record tx { errors = tx.errors ++ es }, returned es)
  add_outcome (tx, panicked) = (tx, panicked)

  -- `CreateInBatches`; `skip` is `SkipDefaultTransaction`
  unfoldable pub create_in_batches : Driver → ℕ → Bool → List A → Db → Db × Outcome
  create_in_batches driver name skip values db =
      if skip || leb (length values) batch_size
      then add_outcome (call_block values db)
      else add_outcome (transact driver name (call_block values) db)
