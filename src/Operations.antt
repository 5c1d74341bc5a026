-- ===== src/Operations.antt =====
-- callbacks.go: `Execute`, which runs the callbacks of an operation, with the default transaction of
-- callbacks/transaction.go. The parsing of the model, and whether `Dest` is valid, are arguments. The
-- scopes, which `Execute` calls first, `Dest` as a `StatementModifier` and time-outs are left out.
pub mod Balance
pub mod Ends
mod Tests
use pewter_rinse_moor.Prelude.{
  ℕ, zero, suc, ◌+◌, Bool, true, false, not, ◌&&◌, ◌||◌, Option, none, some, List, [], ◌∷◌, ◌++◌,
  Bytes, if◌then◌else◌,
}
use pewter_rinse_moor.Transactions.{
  Failure, Failures, invalid_transaction, Event, Pool, Driver, Db, add_error, seen, begin, commit,
  rollback,
}

-- The `DB` that is executed and its statement. `started` is the setting `gorm:started_transaction`, and
-- `traced` the texts that the logger got. A model and a destination are numbers.
pub record Operation : Type 0 where
  pub db : Db
  pub config_pool : Pool
  pub started : Bool
  pub skip_default_transaction : Bool
  pub dry_run : Bool
  pub has_table : Bool
  pub build_clauses : List Bytes
  pub model : Option ℕ
  pub dest : Option ℕ
  pub sql : Bytes
  pub vars : List ℕ
  pub traced : List Bytes

-- what parsing a model gives: nothing, `ErrUnsupportedDataType`, or another error
pub data Parsing : Type 0 where
  parsed : Parsing
  unsupported : Failure → Parsing
  failed : Failure → Parsing

-- `tx.Error == gorm.ErrInvalidTransaction`
abbrev pub is_invalid : Failure → Failures → Bool
is_invalid invalid_transaction [] = true
is_invalid _ es = false

-- the branches behind `db.Begin()`
unfoldable pub take_begun : Db → Operation → Operation
take_begun tx op = elim tx.errors [
  | [] ↦ record op { db = record (seen tx op.db) { pool = tx.pool }; started = true }
  | e ∷ es ↦
      if is_invalid e es
      then record op { db = seen tx op.db }
      else record op { db = record (seen tx op.db) { errors = e ∷ es } }
]

abbrev pub is_free : Failures → Bool
is_free [] = true
is_free (e ∷ es) = false

-- `BeginTransaction`
unfoldable pub begin_transaction : Driver → Operation → Operation
begin_transaction driver op =
    if not op.skip_default_transaction && is_free op.db.errors
    then take_begun (begin driver op.db) op
    else op

-- the call that ends a transaction
unfoldable pub close : Driver → Db → Db
close driver db = if is_free db.errors then commit driver db else rollback driver db

-- `CommitOrRollbackTransaction`
unfoldable pub commit_or_rollback_transaction : Driver → Operation → Operation
commit_or_rollback_transaction driver op =
    if not op.skip_default_transaction && op.started
    then record op { db = record (close driver op.db) { pool = op.config_pool } }
    else op

abbrev pub or_other : Option ℕ → Option ℕ → Option ℕ
or_other none b = b
or_other (some a) b = some a

abbrev pub no_bytes : Bytes → Bool
no_bytes [] = true
no_bytes (b ∷ s) = false

-- the error of a model that does not parse, unless there is a table or SQL and its type is unsupported
unfoldable pub parse_error : Parsing → Operation → Option Failure
parse_error parsed op = none
parse_error (failed e) op = some e
parse_error (unsupported e) op = if not op.has_table && no_bytes op.sql then some e else none

abbrev pub with_error : Option Failure → Operation → Operation
with_error o op = record op { db = add_error o op.db }

-- the callbacks, in their order
unfoldable pub run_fns : List (Operation → Operation) → Operation → Operation
run_fns [] op = op
run_fns (f ∷ fs) op = run_fns fs (f op)

-- `Execute` after them; `reset` is whether the clauses were the processor's
unfoldable pub end_operation : Bool → Operation → Operation
end_operation reset op = record op {
  traced = if no_bytes op.sql then op.traced else op.traced ++ op.sql ∷ [];
  sql = if op.dry_run then op.sql else [];
  vars = if op.dry_run then op.vars else [];
  build_clauses = if reset then [] else op.build_clauses;
}

-- the clauses to build, and of a model and a destination the one for a missing other
abbrev pub assign_operation : List Bytes → Operation → Operation
assign_operation clauses op = record op {
  build_clauses = elim op.build_clauses [ [] ↦ clauses | c ∷ cs ↦ c ∷ cs ];
  model = or_other op.model op.dest;
  dest = or_other op.dest op.model;
}

module _ (parse : ℕ → Parsing) (is_valid : ℕ → Bool) (invalid_value : Failure) where
  -- the error of the model that is parsed, and that of a destination that is not valid
  unfoldable pub model_error : Operation → Option Failure
  model_error op = elim op.model [ none ↦ none | some m ↦ parse_error (parse m) op ]

  unfoldable pub dest_error : Operation → Option Failure
  dest_error op = elim op.dest [
    | none ↦ none
    | some d ↦ if is_valid d then none else some invalid_value
  ]

  -- `Execute` before the callbacks run; `clauses` is what the processor builds
  unfoldable pub prepare_operation : List Bytes → Operation → Operation
  prepare_operation clauses op =
      let assigned = assign_operation clauses op in
      with_error (dest_error assigned) (with_error (model_error assigned) assigned)

  -- `Execute`
  unfoldable pub execute : List Bytes → List (Operation → Operation) → Operation → Operation
  execute clauses fns op =
      end_operation (elim op.build_clauses [ [] ↦ true | c ∷ cs ↦ false ])
        (run_fns fns (prepare_operation clauses op))
