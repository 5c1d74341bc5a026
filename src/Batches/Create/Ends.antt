-- ===== src/Batches/Create/Ends.antt =====
-- How `CreateInBatches` ends: all of the batches or none.
use pewter_rinse_moor.Prelude.{ℕ, zero, suc, List, [], ◌∷◌, take, drop}
use pewter_rinse_moor.Transactions.{Failures, Driver, Db, Outcome, returned, seen}
use pewter_rinse_moor.Transactions.Outer.{errors_of}
use pewter_rinse_moor.Batches.Create.{Created}

-- a list cut into pieces of the given size, with as much fuel as it is long
abbrev pub pieces : {A : Type 0} → ℕ → ℕ → List A → List (List A)
pieces size zero l = []
pieces size (suc fuel) [] = []
pieces size (suc fuel) (x ∷ l) = take size (x ∷ l) ∷ pieces size fuel (drop size (x ∷ l))

-- What `CreateInBatches` should return, by the error of the first batch that fails.
abbrev pub verdict : Driver → Failures → Outcome
verdict driver [] = returned (errors_of driver.commit_tx)
verdict driver (e ∷ es) = returned (e ∷ es)

module _ {A : Type 0} (create : List A → Db → Created A) where
  -- The error of the first batch whose creation fails, each on the `DB` of the transaction with the calls
  -- that the ones before it made.
  abbrev pub first_error : List (List A) → Db → Failures
  first_error [] tx = []
  first_error (b ∷ bs) tx = elim (create b tx).subtx.errors [
    | e ∷ es ↦ e ∷ es
    | [] ↦ first_error bs (seen (create b tx).subtx tx)
  ]
