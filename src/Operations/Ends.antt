-- ===== src/Operations/Ends.antt =====
-- callbacks.go with callbacks/transaction.go: how an operation ends whose callbacks run between those of the
-- default transaction, as RegisterDefaultCallbacks orders them.
use mathlib.Core.Path.{subst}
use pewter_rinse_moor.Prelude.{
  ◌≡◌, refl, sym, ap, ◌∙◌, arith, ℕ, ◌+◌, Bool, true, false, not, ◌&&◌, none, List, [], ◌∷◌, ◌++◌,
  Bytes, All,
}
use pewter_rinse_moor.Transactions.{Failure, began, beginner, transaction, Driver, call}
use pewter_rinse_moor.Transactions.Outer.{begin-pool}
use pewter_rinse_moor.Operations.{
  Operation, Parsing, is_free, take_begun, begin_transaction, commit_or_rollback_transaction,
  prepare_operation, run_fns, end_operation, execute,
}
use pewter_rinse_moor.Operations.Balance.{
  opened, closed, opened-append, closed-append, IsBalanced, IsCallback, run_fns-IsCallback,
  Same-prepare, Begun, inside, outside, begin_transaction-Begun, ending, close-log, ending-counts,
}

run_fns-append :
    (fs gs : List (Operation → Operation)) (op : Operation)
    → run_fns (fs ++ gs) op ≡ run_fns gs (run_fns fs op)
unfolding run_fns
run_fns-append [] gs op = refl
run_fns-append (f ∷ fs) gs op = run_fns-append fs gs (f op)

-- callbacks between the two of the default transaction
abbrev pub in_transaction : Driver → List (Operation → Operation) → List (Operation → Operation)
in_transaction driver fs =
    begin_transaction driver ∷ (fs ++ commit_or_rollback_transaction driver ∷ [])

run_in_transaction :
    (driver : Driver) (fs : List (Operation → Operation)) (op : Operation)
    → run_fns (in_transaction driver fs) op
      ≡ commit_or_rollback_transaction driver (run_fns fs (begin_transaction driver op))
unfolding run_fns
run_in_transaction driver fs op = run_fns-append fs _ (begin_transaction driver op)

closing :
    (driver : Driver) (op : Operation)
    → op.skip_default_transaction ≡ false
    → op.started ≡ true
    → op.db.pool ≡ transaction
    → ((commit_or_rollback_transaction driver op).db.log
        ≡ op.db.log ++ ending driver op.db.errors ∷ [])
      × ((commit_or_rollback_transaction driver op).db.pool ≡ op.config_pool)
unfolding commit_or_rollback_transaction
closing driver op k s h =
    let asked : (not op.skip_default_transaction && op.started) ≡ true = ground arith in
    rw asked (close-log driver op.db op.db.errors refl h, refl)

starting :
    (driver : Driver) (op : Operation)
    → op.skip_default_transaction ≡ false
    → op.db.errors ≡ []
    → op.db.pool ≡ beginner
    → driver.begin_tx ≡ none
    → let new = begin_transaction driver op in
      (new.started ≡ true)
      × (new.db.pool ≡ transaction)
      × (new.skip_default_transaction ≡ false)
      × (new.config_pool ≡ op.config_pool)
unfolding begin_transaction take_begun call
starting driver op k e b t =
    let asked : (not op.skip_default_transaction && is_free op.db.errors) ≡ true =
      ap (λ s. not s && is_free op.db.errors) k ∙ ap is_free e in
    let begun = begin-pool driver op.db b t in
    rw (asked, begin_transaction, take_begun, begun, e) (refl, ap (λ d. d.pool) begun, k, refl)

not_closing :
    (driver : Driver) (op : Operation)
    → op.started ≡ false
    → commit_or_rollback_transaction driver op ≡ op
unfolding commit_or_rollback_transaction
not_closing driver op s =
    let asked : (not op.skip_default_transaction && op.started) ≡ false = ground arith in
    rw asked refl

Begun-IsBalanced :
    (driver : Driver) (f : Operation → Operation) (op new : Operation)
    → IsCallback f
    → op.started ≡ false
    → Begun op new
    → IsBalanced op.db.log (commit_or_rollback_transaction driver (f new)).db.log
Begun-IsBalanced driver f op new c s (outside same log) =
    let off : (f new).started ≡ false = c.started new ∙ same ∙ s in
    let kept : IsBalanced op.db.log (f new).db.log =
      subst (λ l. IsBalanced l (f new).db.log) log (c.balanced new) in
    subst (λ o. IsBalanced op.db.log o.db.log) (sym (not_closing driver (f new) off)) kept
Begun-IsBalanced driver f op new c s (inside on pool log wanted) =
    let (ends, back) =
      closing driver (f new) (c.skips new ∙ wanted) (c.started new ∙ on) (c.pool new ∙ pool) in
    let (same, more) = ending-counts driver (f new).db.errors (f new).db.log in
    let one : opened new.db.log ≡ opened op.db.log + 1 =
      ap opened log ∙ opened-append op.db.log (began ∷ []) in
    let none_yet : closed new.db.log ≡ closed op.db.log + 0 =
      ap closed log ∙ closed-append op.db.log (began ∷ []) in
    let kept = c.balanced new in subst (IsBalanced op.db.log) (sym ends) (omega arith)

module _ (parse : ℕ → Parsing) (is_valid : ℕ → Bool) (invalid_value : Failure) (driver : Driver)
    (clauses : List Bytes) where
  -- An operation on which no default transaction is marked as started, with callbacks between those of the
  -- default transaction that end what they begin and leave its pool and settings: whatever the driver
  -- answers, whatever pool and errors there are and whether or not the callbacks fail, as many
  -- transactions are ended in it as begun.
  pub execute-IsBalanced :
      (fs : List (Operation → Operation)) (op : Operation)
      → All IsCallback fs
      → op.started ≡ false
      → IsBalanced op.db.log
          (execute parse is_valid invalid_value clauses (in_transaction driver fs) op).db.log
  unfolding execute end_operation
  execute-IsBalanced fs op h s =
      let before = prepare_operation parse is_valid invalid_value clauses op in
      let same = Same-prepare parse is_valid invalid_value clauses op in
      let ends : IsBalanced before.db.log (run_fns (in_transaction driver fs) before).db.log =
        subst (λ o. IsBalanced before.db.log o.db.log) (sym (run_in_transaction driver fs before))
          (Begun-IsBalanced driver (run_fns fs) before _ (run_fns-IsCallback fs h)
            (same.started ∙ s) (begin_transaction-Begun driver before)) in
      subst (λ l. IsBalanced l (run_fns (in_transaction driver fs) before).db.log) same.log ends

  -- what the callbacks leave between those of the default transaction
  abbrev pub worked : List (Operation → Operation) → Operation → Operation
  worked fs op =
      run_fns fs
        (begin_transaction driver (prepare_operation parse is_valid invalid_value clauses op))

  -- An operation that does not skip the default transaction, without an error when the callbacks start, on a
  -- pool that begins a transaction, with callbacks that end what they begin and leave its pool and settings:
  -- what follows the calls of the callbacks is one call, a commit if there is no error then and a rollback if
  -- there is, and the statement has the pool of the configuration again.
  pub execute-ends :
      (fs : List (Operation → Operation)) (op : Operation)
      → All IsCallback fs
      → op.skip_default_transaction ≡ false
      → (prepare_operation parse is_valid invalid_value clauses op).db.errors ≡ []
      → op.db.pool ≡ beginner
      → driver.begin_tx ≡ none
      → ((execute parse is_valid invalid_value clauses (in_transaction driver fs) op).db.log
          ≡ (worked fs op).db.log ++ ending driver (worked fs op).db.errors ∷ [])
        × ((execute parse is_valid invalid_value clauses (in_transaction driver fs) op).db.pool
            ≡ op.config_pool)
  unfolding execute end_operation
  execute-ends fs op h k e b t =
      let before = prepare_operation parse is_valid invalid_value clauses op in
      let same = Same-prepare parse is_valid invalid_value clauses op in
      let c = run_fns-IsCallback fs h in
      let (on, pool, wanted, config) =
        starting driver before (same.skips ∙ k) e (same.pool ∙ b) t in
      let (ends, back) =
        closing driver (worked fs op) (c.skips _ ∙ wanted) (c.started _ ∙ on) (c.pool _ ∙ pool) in
      let all = run_in_transaction driver fs before in
      (
        ap (λ o. o.db.log) all ∙ ends,
        ap (λ o. o.db.pool) all ∙ back ∙ c.config_pool _ ∙ config ∙ same.config_pool,
      )
