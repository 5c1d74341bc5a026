-- ===== src/Transactions/Outer.antt =====
-- How a transaction that is not inside another one ends.
use pewter_rinse_moor.Prelude.{
  ℕ, ◌≡◌, refl, ap, ◌∙◌, false, Option, none, some, List, [], ◌∷◌, ◌++◌, arith, sym, append-nil,
}
use pewter_rinse_moor.Transactions.{
  Failure, Failures, invalid_transaction, Event, began, commit_called, rollback_called, Pool,
  beginner, other_pool, transaction, nil_transaction, Driver, Db, Outcome, returned, panicked,
  add_error, call, is_committer, begin_on, begin, commit_on, commit, rollback_on, rollback, Block,
  end_commit, end_outer, outer, transact,
}

-- The log ends with the event.
abbrev pub EndsWith : Event → List Event → Type 0
EndsWith e [] = ⊥
EndsWith e (d ∷ []) = d ≡ e
EndsWith e (d ∷ x ∷ l) = EndsWith e (x ∷ l)

EndsWith-last : (e : Event) (l : List Event) → EndsWith e (l ++ e ∷ [])
EndsWith-last e [] = refl
EndsWith-last e (d ∷ []) = refl
EndsWith-last e (d ∷ x ∷ l) = EndsWith-last e (x ∷ l)

-- how a transaction of its own ends
abbrev pub Ended : Driver → Outcome → List Event → Type 0
Ended driver (returned []) log = EndsWith (commit_called none) log
Ended driver (returned (e ∷ es)) log = EndsWith (rollback_called driver.rollback_tx) log
Ended driver panicked log = EndsWith (rollback_called driver.rollback_tx) log

abbrev pub errors_of : Option Failure → Failures
errors_of none = []
errors_of (some e) = e ∷ []

-- What a transaction with such a block reports: the block's error or panic; without either, the errors of
-- the `DB` that the block leaves and of the commit.
abbrev pub reported : Driver → Db × Outcome → Outcome
reported driver (tx, returned []) = returned (tx.errors ++ errors_of driver.commit_tx)
reported driver (tx, returned (e ∷ es)) = returned (e ∷ es)
reported driver (tx, panicked) = panicked

-- the same of what `Transaction` gives
abbrev pub IsEnd : Driver → Db × Outcome → Type 0
IsEnd driver r = Ended driver r.1 r.0.log

pub add_error-log : (o : Option Failure) (db : Db) → (add_error o db).log ≡ db.log
unfolding add_error
add_error-log none db = refl
add_error-log (some e) db = refl

snoc_not_nil : (es : Failures) (e : Failure) → es ++ e ∷ [] ≡ [] → ⊥
snoc_not_nil [] e h = absurd (ground arith)
snoc_not_nil (f ∷ es) e h = absurd (ground arith)

add_error_nil : (o : Option Failure) (db : Db) → (add_error o db).errors ≡ [] → o ≡ none
unfolding add_error
add_error_nil none db h = refl
add_error_nil (some e) db h = absurd (snoc_not_nil db.errors e h)

-- `Commit` without an error has committed.
commit_on-EndsWith :
    (p : Pool) (driver : Driver) (tx : Db)
    → (commit_on p driver tx).errors ≡ []
    → EndsWith (commit_called none) (commit_on p driver tx).log
unfolding commit_on call add_error
commit_on-EndsWith transaction driver tx h =
    let ok = add_error_nil driver.commit_tx _ h in
    rw (add_error-log driver.commit_tx (call (commit_called driver.commit_tx) tx), ok)
      (EndsWith-last (commit_called none) tx.log)
commit_on-EndsWith beginner driver tx h = absurd (snoc_not_nil tx.errors invalid_transaction h)
commit_on-EndsWith other_pool driver tx h = absurd (snoc_not_nil tx.errors invalid_transaction h)
commit_on-EndsWith nil_transaction driver tx h =
    absurd (snoc_not_nil tx.errors invalid_transaction h)

-- Without an error the log ends with a commit.
abbrev pub Commits : Db × Outcome → Type 0
Commits r = r.1 ≡ returned [] → EndsWith (commit_called none) r.0.log

end_commit-Commits :
    (driver : Driver) (db tx : Db)
    → ((commit driver tx).errors ≡ [] → EndsWith (commit_called none) (commit driver tx).log)
    → Commits (end_commit driver db (commit driver tx))
unfolding end_commit
end_commit-Commits driver db tx c = of_errors (commit driver tx).errors refl
  where
    of_errors :
        (es : Failures)
        → (commit driver tx).errors ≡ es
        → Commits (elim es [
          | [] ↦ (record db { log = (commit driver tx).log }, returned [])
          | e ∷ es ↦
              (record db { log = (rollback driver (commit driver tx)).log }, returned (e ∷ es))
        ])
    of_errors [] e h = c e
    of_errors (f ∷ fs) e h = absurd (ground arith)

end_outer-Commits :
    (driver : Driver) (db tx : Db) (o : Outcome) → Commits (end_outer driver db (tx, o))
unfolding end_outer commit
end_outer-Commits driver db tx (returned []) =
    end_commit-Commits driver db tx (commit_on-EndsWith tx.pool driver tx)
end_outer-Commits driver db tx (returned (e ∷ es)) = λ h. absurd (ground arith)
end_outer-Commits driver db tx panicked = λ h. absurd (ground arith)

outer-Commits : (driver : Driver) (fc : Block) (db : Db) → Commits (outer driver fc db)
unfolding outer
outer-Commits driver fc db = of_errors (begin driver db).errors
  where
    of_errors :
        (es : Failures)
        → Commits (elim es [
          | [] ↦ end_outer driver db (fc (begin driver db))
          | e ∷ es ↦ (record db { log = (begin driver db).log }, returned (e ∷ es))
        ])
    of_errors [] = end_outer-Commits driver db (fc (begin driver db)).0 (fc (begin driver db)).1
    of_errors (e ∷ es) = λ h. absurd (ground arith)

-- For a transaction that is not nested, whatever the block does: when it reports no error, the last call
-- is a commit that succeeded.
pub transact-commits :
    (driver : Driver) (name : ℕ) (fc : Block) (db : Db)
    → is_committer db.pool ≡ false
    → (transact driver name fc db).1 ≡ returned []
    → EndsWith (commit_called none) (transact driver name fc db).0.log
unfolding transact
transact-commits driver name fc db own = rw (transact, own) (outer-Commits driver fc db)

add_error-pool : (o : Option Failure) (db : Db) → (add_error o db).pool ≡ db.pool
unfolding add_error
add_error-pool none db = refl
add_error-pool (some e) db = refl

commit_on-pool : (p : Pool) (driver : Driver) (tx : Db) → (commit_on p driver tx).pool ≡ tx.pool
unfolding commit_on call
commit_on-pool transaction driver tx = add_error-pool driver.commit_tx _
commit_on-pool beginner driver tx = add_error-pool _ tx
commit_on-pool other_pool driver tx = add_error-pool _ tx
commit_on-pool nil_transaction driver tx = add_error-pool _ tx

-- `Rollback` of a transaction calls the driver's.
rollback_on-EndsWith :
    (p : Pool) (driver : Driver) (tx : Db)
    → p ≡ transaction
    → EndsWith (rollback_called driver.rollback_tx) (rollback_on p driver tx).log
unfolding rollback_on call
rollback_on-EndsWith transaction driver tx e =
    rw (add_error-log driver.rollback_tx (call (rollback_called driver.rollback_tx) tx))
      (EndsWith-last _ tx.log)
rollback_on-EndsWith beginner driver tx e = absurd (ground arith)
rollback_on-EndsWith other_pool driver tx e = absurd (ground arith)
rollback_on-EndsWith nil_transaction driver tx e = absurd (ground arith)

end_commit-Ended :
    (driver : Driver) (db tx : Db)
    → tx.pool ≡ transaction
    → Ended driver
        (end_commit driver db (commit driver tx)).1
        (end_commit driver db (commit driver tx)).0.log
unfolding end_commit commit rollback
end_commit-Ended driver db tx kept = of_errors (commit_on tx.pool driver tx).errors refl
  where
    of_errors :
        (es : Failures)
        → (commit_on tx.pool driver tx).errors ≡ es
        → IsEnd driver (elim es [
          | [] ↦ (record db { log = (commit_on tx.pool driver tx).log }, returned [])
          | e ∷ es ↦ (
            record db { log = (rollback driver (commit_on tx.pool driver tx)).log },
            returned (e ∷ es),
          )
        ])
    of_errors [] e = commit_on-EndsWith tx.pool driver tx e
    of_errors (f ∷ fs) e = rollback_on-EndsWith _ driver _ (commit_on-pool tx.pool driver tx ∙ kept)

end_outer-Ended :
    (driver : Driver) (db tx : Db) (o : Outcome)
    → tx.pool ≡ transaction
    → IsEnd driver (end_outer driver db (tx, o))
unfolding end_outer rollback
end_outer-Ended driver db tx (returned []) kept = end_commit-Ended driver db tx kept
end_outer-Ended driver db tx (returned (e ∷ es)) kept = rollback_on-EndsWith tx.pool driver tx kept
end_outer-Ended driver db tx panicked kept = rollback_on-EndsWith tx.pool driver tx kept

-- `Begin` on a pool that begins a transaction
pub begin-pool :
    (driver : Driver) (db : Db)
    → db.pool ≡ beginner
    → driver.begin_tx ≡ none
    → begin driver db ≡ call began (record db { pool = transaction })
unfolding begin begin_on
begin-pool driver db b s = rw (b, s) refl

abbrev Reports : Outcome → Db × Outcome → Type 0
Reports o r = r.1 ≡ o

add_error-errors :
    (o : Option Failure) (db : Db) → (add_error o db).errors ≡ db.errors ++ errors_of o
unfolding add_error
add_error-errors none db = sym (append-nil db.errors)
add_error-errors (some e) db = refl

commit-errors :
    (driver : Driver) (tx : Db)
    → tx.pool ≡ transaction
    → (commit driver tx).errors ≡ tx.errors ++ errors_of driver.commit_tx
unfolding commit commit_on call
commit-errors driver tx kept = rw (kept, commit_on) (add_error-errors driver.commit_tx _)

end_commit-Reports :
    (driver : Driver) (db tx : Db) → Reports (returned tx.errors) (end_commit driver db tx)
unfolding end_commit
end_commit-Reports driver db tx = of_errors tx.errors
  where
    of_errors :
        (es : Failures)
        → Reports (returned es) (elim es [
          | [] ↦ (record db { log = tx.log }, returned [])
          | e ∷ es ↦ (record db { log = (rollback driver tx).log }, returned (e ∷ es))
        ])
    of_errors [] = refl
    of_errors (e ∷ es) = refl

end_outer-Reports :
    (driver : Driver) (db tx : Db) (o : Outcome)
    → tx.pool ≡ transaction
    → Reports (reported driver (tx, o)) (end_outer driver db (tx, o))
unfolding end_outer
end_outer-Reports driver db tx (returned []) kept =
    end_commit-Reports driver db (commit driver tx) ∙ ap returned (commit-errors driver tx kept)
end_outer-Reports driver db tx (returned (e ∷ es)) kept = refl
end_outer-Reports driver db tx panicked kept = refl

outer-Ended :
    (driver : Driver) (fc : Block) (db : Db)
    → (begin driver db).errors ≡ []
    → (fc (begin driver db)).0.pool ≡ transaction
    → Reports (reported driver (fc (begin driver db))) (outer driver fc db)
      × IsEnd driver (outer driver fc db)
unfolding outer end_outer begin begin_on
outer-Ended driver fc db e kept =
    let tx = (fc (begin driver db)).0 in
    let o = (fc (begin driver db)).1 in
    rw (outer, e) (end_outer-Reports driver db tx o kept, end_outer-Ended driver db tx o kept)

transact-own :
    (driver : Driver) (name : ℕ) (fc : Block) (db : Db)
    → is_committer db.pool ≡ false
    → transact driver name fc db ≡ outer driver fc db
unfolding transact outer
transact-own driver name fc db own = rw (transact, own) refl

-- A transaction of its own, on a pool that begins one and a `DB` without errors, with a block that leaves
-- its `DB` in the transaction. An error of the block is returned, and a panic of it goes on; otherwise the
-- transaction returns the errors of the block's `DB` and of the commit. When it returns nil the last call
-- is a commit that succeeded; with any error, or after a panic, it is a rollback.
pub transact-ends :
    (driver : Driver) (name : ℕ) (fc : Block) (db : Db)
    → db.pool ≡ beginner
    → db.errors ≡ []
    → driver.begin_tx ≡ none
    → (fc (begin driver db)).0.pool ≡ transaction
    → ((transact driver name fc db).1 ≡ reported driver (fc (begin driver db)))
      × Ended driver (transact driver name fc db).1 (transact driver name fc db).0.log
unfolding call
transact-ends driver name fc db b e s kept =
    rw (transact-own driver name fc db (ap is_committer b))
      (outer-Ended driver fc db (ap (λ tx. tx.errors) (begin-pool driver db b s) ∙ e) kept)

outer-error :
    (driver : Driver) (fc : Block) (db : Db) (e : Failure) (es : Failures)
    → (begin driver db).errors ≡ e ∷ es
    → outer driver fc db ≡ (record db { log = (begin driver db).log }, returned (e ∷ es))
unfolding outer begin
outer-error driver fc db e es h = rw (outer, h) refl

-- On a `DB` that has an error already, and a pool that begins a transaction: it is begun, its block does not
-- run, and it is neither committed nor rolled back.
pub transact-leaks :
    (driver : Driver) (name : ℕ) (fc : Block) (db : Db) (e : Failure) (es : Failures)
    → db.pool ≡ beginner
    → db.errors ≡ e ∷ es
    → driver.begin_tx ≡ none
    → transact driver name fc db ≡ (record db { log = db.log ++ began ∷ [] }, returned (e ∷ es))
unfolding call
transact-leaks driver name fc db e es b f s =
    let begun = begin-pool driver db b s in
    transact-own driver name fc db (ap is_committer b)
    ∙ outer-error driver fc db e es (ap (λ tx. tx.errors) begun ∙ f)
    ∙ ap (λ tx. (record db { log = tx.log }, returned (e ∷ es))) begun
