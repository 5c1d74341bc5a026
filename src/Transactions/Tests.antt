-- ===== src/Transactions/Tests.antt =====
-- Transactions on concrete drivers and blocks, and the theorems at them.
use pewter_rinse_moor.Prelude.{◌≡◌, refl, true, false, none, some, [], ◌∷◌}
use pewter_rinse_moor.Transactions.{
  foreign, began, commit_called, rollback_called, save_called, rollback_to_called, ran, beginner,
  transaction, Driver, Db, returned, call, begin, begin_on, Block, transact, nested, outer,
  end_outer, end_nested, end_commit, commit, commit_on, rollback, rollback_on, add_error,
  save_point, rollback_to,
}
use pewter_rinse_moor.Transactions.Outer.{
  EndsWith, Ended, transact-commits, transact-ends, transact-leaks,
}
use pewter_rinse_moor.Transactions.Nested.{IsKept, transact-nested}

abbrev sound : Driver
sound = record {
  begin_tx = none;
  commit_tx = none;
  rollback_tx = none;
  save_point = none;
  rollback_to = none;
  is_save_pointer = true;
}

abbrev no_commit : Driver
no_commit = record sound { commit_tx = some (foreign 7) }

abbrev idle : Db
idle = record { pool = beginner; errors = []; disable_nested_transaction = false; log = [] }

abbrev inner : Db
inner = record idle { pool = transaction; log = began ∷ [] }

abbrev works : Block
unfolding call
works tx = (call (ran 1) tx, returned [])

abbrev fails : Block
unfolding call
fails tx = (call (ran 1) tx, returned (foreign 3 ∷ []))

-- a commit that fails is followed by a rollback
failed_commit : transact no_commit 0 works idle ≡ (
  record idle {
    log = began ∷ ran 1 ∷ commit_called (some (foreign 7)) ∷ rollback_called none ∷ [];
  },
  returned (foreign 7 ∷ []),
)
unfolding works transact outer begin begin_on call end_outer end_commit commit commit_on rollback
    rollback_on add_error
failed_commit = refl

-- A nested transaction fails and its block's error is dropped by the outer block, which commits.
abbrev drops_error : Block
unfolding transact nested save_point rollback_to call end_nested add_error
drops_error tx = ((transact sound 5 fails tx).0, returned [])

dropped :
    (transact sound 0 drops_error idle).0.log
    ≡ began ∷ save_called 5 none ∷ ran 1 ∷ rollback_to_called 5 none ∷ commit_called none ∷ []
unfolding drops_error fails transact outer nested begin begin_on call end_outer end_nested
    end_commit commit commit_on rollback rollback_on add_error save_point rollback_to
dropped = refl

transact-commits_example : EndsWith (commit_called none) (transact sound 0 works idle).0.log
unfolding works transact outer begin begin_on call end_outer end_commit commit commit_on add_error
transact-commits_example = transact-commits sound 0 works idle refl refl

transact-ends_example :
    ((transact sound 0 fails idle).1 ≡ returned (foreign 3 ∷ []))
    × Ended sound (transact sound 0 fails idle).1 (transact sound 0 fails idle).0.log
unfolding fails begin begin_on call
transact-ends_example = transact-ends sound 0 fails idle refl refl refl refl

transact-leaks_example :
    transact sound 0 works (record idle { errors = foreign 2 ∷ [] })
    ≡ (record idle { errors = foreign 2 ∷ []; log = began ∷ [] }, returned (foreign 2 ∷ []))
transact-leaks_example =
    transact-leaks sound 0 works (record idle { errors = foreign 2 ∷ [] }) (foreign 2) [] refl refl
      refl

transact-nested_example :
    ((transact sound 5 fails inner).1 ≡ (fails (call (save_called 5 none) inner)).1)
    × IsKept sound 5
        (fails (call (save_called 5 none) inner)).0.log
        (transact sound 5 fails inner).1
        (transact sound 5 fails inner).0.log
transact-nested_example = transact-nested sound 5 fails inner refl refl refl refl refl
