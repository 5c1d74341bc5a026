-- ===== src/Transactions/Nested.antt =====
-- How a transaction inside another one ends.
use pewter_rinse_moor.Prelude.{
  ℕ, ◌≡◌, refl, ap, ◌∙◌, true, false, none, some, List, [], ◌∷◌, ◌++◌, if◌then◌else◌,
}
use pewter_rinse_moor.Transactions.{
  unsupported_driver, Event, save_called, rollback_to_called, Driver, Db, Outcome, returned,
  panicked, add_error, call, is_committer, save_point, rollback_to, Block, end_nested, nested,
  transact,
}
use pewter_rinse_moor.Transactions.Outer.{add_error-log}

-- How a nested transaction ends: the log of its block, with a rollback to the save point behind it unless
-- there is no error.
abbrev pub IsKept : Driver → ℕ → List Event → Outcome → List Event → Type 0
IsKept driver name l (returned []) log = log ≡ l
IsKept driver name l (returned (e ∷ es)) log =
    log ≡ l ++ rollback_to_called name driver.rollback_to ∷ []
IsKept driver name l panicked log = log ≡ l ++ rollback_to_called name driver.rollback_to ∷ []

transact-inside :
    (driver : Driver) (name : ℕ) (fc : Block) (db : Db)
    → is_committer db.pool ≡ true
    → transact driver name fc db ≡ nested driver name fc db
unfolding transact nested
transact-inside driver name fc db own = rw (transact, own) refl

save_point-saved :
    (driver : Driver) (name : ℕ) (db : Db)
    → driver.is_save_pointer ≡ true
    → driver.save_point ≡ none
    → save_point driver name db ≡ call (save_called name none) db
unfolding add_error save_point call
save_point-saved driver name db i s = rw (save_point, i, s) refl

nested-saved :
    (driver : Driver) (name : ℕ) (fc : Block) (db s : Db)
    → db.disable_nested_transaction ≡ false
    → save_point driver name db ≡ s
    → s.errors ≡ []
    → nested driver name fc db ≡ end_nested driver name s (fc s)
unfolding nested
nested-saved driver name fc db s d h e =
    ap
      (λ b.
        if b
        then (record db { log = (fc db).0.log }, (fc db).1)
        else after (save_point driver name db))
      d
    ∙ ap after h
    ∙ ap (λ es. elim es [ [] ↦ end_nested driver name s (fc s) | e ∷ es ↦ (s, returned (e ∷ es)) ])
        e
  where
    after : Db → Db × Outcome
    after s = elim s.errors [
      | [] ↦ end_nested driver name s (fc s)
      | e ∷ es ↦ (s, returned (e ∷ es))
    ]

rollback_to-call :
    (driver : Driver) (name : ℕ) (db : Db)
    → driver.is_save_pointer ≡ true
    → rollback_to driver name db
      ≡ add_error driver.rollback_to (call (rollback_to_called name driver.rollback_to) db)
unfolding rollback_to
rollback_to-call driver name db i =
    ap
      (λ b.
        if b
        then add_error driver.rollback_to (call (rollback_to_called name driver.rollback_to) db)
        else add_error (some unsupported_driver) db)
      i

rollback_to-log :
    (driver : Driver) (name : ℕ) (db : Db)
    → driver.is_save_pointer ≡ true
    → (rollback_to driver name db).log ≡ db.log ++ rollback_to_called name driver.rollback_to ∷ []
unfolding call
rollback_to-log driver name db i =
    ap (λ d. d.log) (rollback_to-call driver name db i)
    ∙ add_error-log driver.rollback_to (call (rollback_to_called name driver.rollback_to) db)

end_nested-IsKept :
    (driver : Driver) (name : ℕ) (db tx : Db) (o : Outcome)
    → driver.is_save_pointer ≡ true
    → let r = end_nested driver name db (tx, o) in (r.1 ≡ o) × IsKept driver name tx.log r.1 r.0.log
unfolding end_nested
end_nested-IsKept driver name db tx (returned []) i = (refl, refl)
end_nested-IsKept driver name db tx (returned (e ∷ es)) i = (refl, rollback_to-log driver name _ i)
end_nested-IsKept driver name db tx panicked i = (refl, rollback_to-log driver name _ i)

-- A nested transaction, where save points work and are wanted and the `DB` has no error: it ends as its
-- block does. Without an error no call follows the block's; with one, or after a panic, one call follows,
-- the rollback to the save point.
pub transact-nested :
    (driver : Driver) (name : ℕ) (fc : Block) (db : Db)
    → is_committer db.pool ≡ true
    → db.disable_nested_transaction ≡ false
    → driver.is_save_pointer ≡ true
    → db.errors ≡ []
    → driver.save_point ≡ none
    → let saved = call (save_called name none) db in
      let r = transact driver name fc db in
      (r.1 ≡ (fc saved).1) × IsKept driver name (fc saved).0.log r.1 r.0.log
unfolding call
transact-nested driver name fc db p d i e s =
    let saved = save_point-saved driver name db i s in
    rw (transact-inside driver name fc db p, nested-saved driver name fc db _ d saved e)
      (end_nested-IsKept driver name (call (save_called name none) db)
        (fc (call (save_called name none) db)).0 (fc (call (save_called name none) db)).1 i)
