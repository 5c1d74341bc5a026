-- ===== src/Transactions.antt =====
-- finisher_api.go: `Transaction`, `Begin`, `Commit`, `Rollback`, `SavePoint` and `RollbackTo`, and the part
-- of `AddError` in gorm.go that they use.
--
-- The connection pool, its transactions and the dialect are other repositories': a transaction's calls
-- are events in a log, and what each returns is an argument. A `DB` here is what these functions use of
-- it: the pool its statement holds, its `Error` and two settings. An error is a list of the errors that
-- `AddError` has joined, nil where it is empty. The time-out of `Begin` and the translation of errors are
-- left out. A prepared transaction is a pool like another: `SavePoint` and `RollbackTo` take its inner
-- transaction for the call and put it back.
pub mod Outer
pub mod Nested
mod Tests
use pewter_rinse_moor.Prelude.{
  ℕ, Bool, true, false, not, ◌&&◌, ◌||◌, Option, none, some, List, [], ◌∷◌, ◌++◌, Bytes, codes,
  if◌then◌else◌,
}

pub data Failure : Type 0 where
  invalid_transaction : Failure
  unsupported_driver : Failure
  foreign : ℕ → Failure

-- `Error`
abbrev pub Failures : Type 0
Failures = List Failure

-- A call on a connection, with the error that it returned, or a command that ran. A save point has a number
-- for its name.
pub data Event : Type 0 where
  began : Event
  commit_called : Option Failure → Event
  rollback_called : Option Failure → Event
  save_called : ℕ → Option Failure → Event
  rollback_to_called : ℕ → Option Failure → Event
  ran : ℕ → Event

-- `stmt.ConnPool`: a pool that can begin a transaction, one that cannot, a transaction, or a nil
-- transaction behind the interface of one.
pub data Pool : Type 0 where
  beginner : Pool
  other_pool : Pool
  transaction : Pool
  nil_transaction : Pool

-- What the driver and the dialect answer.
pub record Driver : Type 0 where
  pub begin_tx : Option Failure
  pub commit_tx : Option Failure
  pub rollback_tx : Option Failure
  pub save_point : Option Failure
  pub rollback_to : Option Failure
  pub is_save_pointer : Bool

pub record Db : Type 0 where
  pub pool : Pool
  pub errors : Failures
  pub disable_nested_transaction : Bool
  pub log : List Event

-- How the block of a transaction ends: with an error, which is nil where it is empty, or in a panic.
pub data Outcome : Type 0 where
  returned : Failures → Outcome
  panicked : Outcome

-- `AddError`
unfoldable pub add_error : Option Failure → Db → Db
add_error none db = db
add_error (some e) db = record db { errors = db.errors ++ e ∷ [] }

-- a call on the connection
unfoldable pub call : Event → Db → Db
call e db = record db { log = db.log ++ e ∷ [] }

-- the type switch of `Transaction`; a nil transaction has the interface's methods too
abbrev pub is_committer : Pool → Bool
is_committer transaction = true
is_committer nil_transaction = true
is_committer _ = false

-- What `Begin` makes of a pool. A pool that fails returns a nil transaction.
unfoldable pub begin_on : Pool → Driver → Db → Db
begin_on beginner driver tx = elim driver.begin_tx [
  | none ↦ call began (record tx { pool = transaction })
  | some e ↦ add_error (some e) (record tx { pool = nil_transaction })
]
begin_on _ driver tx = add_error (some invalid_transaction) tx

-- `Begin`, on a copy of the `DB`
unfoldable pub begin : Driver → Db → Db
begin driver db = begin_on db.pool driver db

unfoldable pub commit_on : Pool → Driver → Db → Db
commit_on transaction driver db =
    add_error driver.commit_tx (call (commit_called driver.commit_tx) db)
commit_on _ driver db = add_error (some invalid_transaction) db

-- `Commit`
unfoldable pub commit : Driver → Db → Db
commit driver db = commit_on db.pool driver db

unfoldable pub rollback_on : Pool → Driver → Db → Db
rollback_on transaction driver db =
    add_error driver.rollback_tx (call (rollback_called driver.rollback_tx) db)
rollback_on nil_transaction driver db = db
rollback_on _ driver db = add_error (some invalid_transaction) db

-- `Rollback`
unfoldable pub rollback : Driver → Db → Db
rollback driver db = rollback_on db.pool driver db

-- `SavePoint`
unfoldable pub save_point : Driver → ℕ → Db → Db
save_point driver name db =
    if driver.is_save_pointer
    then add_error driver.save_point (call (save_called name driver.save_point) db)
    else add_error (some unsupported_driver) db

-- `RollbackTo`
unfoldable pub rollback_to : Driver → ℕ → Db → Db
rollback_to driver name db =
    if driver.is_save_pointer
    then add_error driver.rollback_to (call (rollback_to_called name driver.rollback_to) db)
    else add_error (some unsupported_driver) db

-- what the block does to its `DB`, and how it ends
abbrev pub Block : Type 0
Block = Db → Db × Outcome

-- The calls of another `DB` on the same connection.
abbrev pub seen : Db → Db → Db
seen tx db = record db { log = tx.log }

-- the end of a nested transaction, with the deferred function
unfoldable pub end_nested : Driver → ℕ → Db → Db × Outcome → Db × Outcome
end_nested driver name db (tx, returned []) = (seen tx db, returned [])
end_nested driver name db (tx, returned (e ∷ es)) =
    (rollback_to driver name (seen tx db), returned (e ∷ es))
end_nested driver name db (tx, panicked) = (rollback_to driver name (seen tx db), panicked)

-- a nested transaction, whose block has a session of its own
unfoldable pub nested : Driver → ℕ → Block → Db → Db × Outcome
nested driver name fc db =
    if db.disable_nested_transaction
    then (seen (fc db).0 db, (fc db).1)
    else (let saved = save_point driver name db in
        elim saved.errors [
          | [] ↦ end_nested driver name saved (fc saved)
          | e ∷ es ↦ (saved, returned (e ∷ es))
        ])

-- what `Commit` leaves
unfoldable pub end_commit : Driver → Db → Db → Db × Outcome
end_commit driver db tx = elim tx.errors [
  | [] ↦ (seen tx db, returned [])
  | e ∷ es ↦ (seen (rollback driver tx) db, returned (e ∷ es))
]

-- the end of a transaction, with the deferred function
unfoldable pub end_outer : Driver → Db → Db × Outcome → Db × Outcome
end_outer driver db (tx, returned []) = end_commit driver db (commit driver tx)
end_outer driver db (tx, returned (e ∷ es)) = (seen (rollback driver tx) db, returned (e ∷ es))
end_outer driver db (tx, panicked) = (seen (rollback driver tx) db, panicked)

unfoldable pub outer : Driver → Block → Db → Db × Outcome
outer driver fc db =
    let tx = begin driver db in
    elim tx.errors [ [] ↦ end_outer driver db (fc tx) | e ∷ es ↦ (seen tx db, returned (e ∷ es)) ]

-- `Transaction`; `name` is the random name of the save point.
unfoldable pub transact : Driver → ℕ → Block → Db → Db × Outcome
transact driver name fc db =
    if is_committer db.pool then nested driver name fc db else outer driver fc db
