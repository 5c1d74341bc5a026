-- ===== src/Operations/Tests.antt =====
-- Operations with concrete callbacks, and the theorems at them.
use pewter_rinse_moor.Prelude.{◌≡◌, refl, ℕ, true, false, none, some, [], ◌∷◌, ◌++◌, arith}
use pewter_rinse_moor.Transactions.{
  foreign, began, rollback_called, ran, beginner, Driver, call, begin, begin_on, rollback,
  rollback_on, add_error, transaction,
}
use pewter_rinse_moor.Operations.{
  Operation, Parsing, parsed, begin_transaction, take_begun, close, commit_or_rollback_transaction,
  model_error, dest_error, parse_error, prepare_operation, run_fns, end_operation, execute,
}
use pewter_rinse_moor.Operations.Balance.{
  IsBalanced, IsCallback, ending, opened-append, closed-append,
}
use pewter_rinse_moor.Operations.Ends.{in_transaction, execute-IsBalanced, worked, execute-ends}

abbrev sound : Driver
sound = record {
  begin_tx = none;
  commit_tx = none;
  rollback_tx = none;
  save_point = none;
  rollback_to = none;
  is_save_pointer = true;
}

abbrev idle : Operation
idle = record {
  db = record { pool = beginner; errors = []; disable_nested_transaction = false; log = [] };
  config_pool = beginner;
  started = false;
  skip_default_transaction = false;
  dry_run = false;
  has_table = false;
  build_clauses = [];
  model = some 1;
  dest = none;
  sql = [];
  vars = [];
  traced = [];
}

-- a callback that runs a command, which fails
abbrev fails : Operation → Operation
fails op = record op {
  db = record op.db { log = op.db.log ++ ran 1 ∷ []; errors = op.db.errors ++ foreign 3 ∷ [] };
}

fails-IsCallback : IsCallback fails
fails-IsCallback = record {
  pool = λ op. refl;
  started = λ op. refl;
  skips = λ op. refl;
  config_pool = λ op. refl;
  balanced = λ op.
      omega (arith, opened-append op.db.log (ran 1 ∷ []), closed-append op.db.log (ran 1 ∷ []));
}

abbrev all_parse : ℕ → Parsing
all_parse m = parsed

failing_run :
    (execute all_parse (λ d. true) (foreign 0) [] (in_transaction sound (fails ∷ [])) idle).db.log
    ≡ began ∷ ran 1 ∷ rollback_called none ∷ []
unfolding execute prepare_operation model_error dest_error parse_error run_fns end_operation
    begin_transaction take_begun begin begin_on close commit_or_rollback_transaction rollback
    rollback_on call add_error
failing_run = refl

-- In a transaction of the caller's none is begun, and none is ended.
nested_run :
    (execute all_parse
      (λ d. true)
      (foreign 0)
      []
      (in_transaction sound (fails ∷ []))
      (record idle { db = record idle.db { pool = transaction } })).db.log
    ≡ ran 1 ∷ []
unfolding execute prepare_operation model_error dest_error parse_error run_fns end_operation
    begin_transaction take_begun begin begin_on close commit_or_rollback_transaction rollback
    rollback_on call add_error
nested_run = refl

execute-IsBalanced_example :
    IsBalanced []
      (execute all_parse (λ d. true) (foreign 0) [] (in_transaction sound (fails ∷ [])) idle).db.log
execute-IsBalanced_example =
    execute-IsBalanced all_parse (λ d. true) (foreign 0) sound [] (fails ∷ []) idle
      (fails-IsCallback, tt) refl

execute-ends_example :
    ((execute all_parse (λ d. true) (foreign 0) [] (in_transaction sound (fails ∷ [])) idle).db.log
      ≡ (worked all_parse (λ d. true) (foreign 0) sound [] (fails ∷ []) idle).db.log
        ++ ending sound
            (worked all_parse (λ d. true) (foreign 0) sound [] (fails ∷ []) idle).db.errors
          ∷ [])
    × ((execute all_parse
          (λ d. true)
          (foreign 0)
          []
          (in_transaction sound (fails ∷ []))
          idle).db.pool
        ≡ beginner)
unfolding prepare_operation model_error dest_error parse_error add_error
execute-ends_example =
    execute-ends all_parse (λ d. true) (foreign 0) sound [] (fails ∷ []) idle (fails-IsCallback, tt)
      refl refl refl refl
