-- ===== src/Operations/Balance.antt =====
-- callbacks/transaction.go: a default transaction that is begun is ended.
use pewter_rinse_moor.Prelude.{
  ◌≡◌, refl, ap, ◌∙◌, arith, ℕ, suc, ◌+◌, Bool, true, false, not, ◌&&◌, Option, none, some, List,
  [], ◌∷◌, ◌++◌, Bytes, All, Bool-cases, Option-cases, inl, inr, ◌⊎◌,
}
use pewter_rinse_moor.Transactions.{
  Failure, Failures, Event, began, commit_called, rollback_called, Pool, beginner, other_pool,
  transaction, nil_transaction, Driver, Db, add_error, call, begin, begin_on, commit, commit_on,
  rollback, rollback_on,
}
use pewter_rinse_moor.Transactions.Outer.{add_error-log}
use pewter_rinse_moor.Operations.{
  Operation, Parsing, is_free, is_invalid, take_begun, begin_transaction, close, model_error,
  dest_error, assign_operation, prepare_operation, run_fns, with_error,
}

-- how many transactions were begun
abbrev pub opened : List Event → ℕ
opened [] = 0
opened (began ∷ l) = suc (opened l)
opened (e ∷ l) = opened l

-- how many times one was committed or rolled back
abbrev pub closed : List Event → ℕ
closed [] = 0
closed (commit_called o ∷ l) = suc (closed l)
closed (rollback_called o ∷ l) = suc (closed l)
closed (e ∷ l) = closed l

pub opened-append : (l m : List Event) → opened (l ++ m) ≡ opened l + opened m
opened-append [] m = omega arith
opened-append (began ∷ l) m = omega (arith, opened-append l m)
opened-append (e ∷ l) m = opened-append l m

pub closed-append : (l m : List Event) → closed (l ++ m) ≡ closed l + closed m
closed-append [] m = omega arith
closed-append (commit_called o ∷ l) m = omega (arith, closed-append l m)
closed-append (rollback_called o ∷ l) m = omega (arith, closed-append l m)
closed-append (e ∷ l) m = closed-append l m

-- Between the logs as many transactions are begun as ended.
abbrev pub IsBalanced : List Event → List Event → Type 0
IsBalanced l m = opened m + closed l ≡ closed m + opened l

-- A callback ends the transactions that it begins, and leaves the pool of the statement and the settings of
-- the default transaction as they are.
pub record IsCallback (f : Operation → Operation) : Type 0 where
  pub pool : (op : Operation) → (f op).db.pool ≡ op.db.pool
  pub started : (op : Operation) → (f op).started ≡ op.started
  pub skips : (op : Operation) → (f op).skip_default_transaction ≡ op.skip_default_transaction
  pub config_pool : (op : Operation) → (f op).config_pool ≡ op.config_pool
  pub balanced : (op : Operation) → IsBalanced op.db.log (f op).db.log

-- Callbacks in a row are one.
pub run_fns-IsCallback :
    (fs : List (Operation → Operation)) → All IsCallback fs → IsCallback (run_fns fs)
unfolding run_fns
run_fns-IsCallback [] h = record {
  pool = λ op. refl;
  started = λ op. refl;
  skips = λ op. refl;
  config_pool = λ op. refl;
  balanced = λ op. omega arith;
}
run_fns-IsCallback (f ∷ fs) (c, h) =
    let r = run_fns-IsCallback fs h in
    record {
      pool = λ op. r.pool (f op) ∙ c.pool op;
      started = λ op. r.started (f op) ∙ c.started op;
      skips = λ op. r.skips (f op) ∙ c.skips op;
      config_pool = λ op. r.config_pool (f op) ∙ c.config_pool op;
      balanced = λ op. omega (arith, r.balanced (f op), c.balanced op);
    }

-- What a transaction depends on is the same.
pub record Same (op new : Operation) : Type 0 where
  pub pool : new.db.pool ≡ op.db.pool
  pub started : new.started ≡ op.started
  pub skips : new.skip_default_transaction ≡ op.skip_default_transaction
  pub config_pool : new.config_pool ≡ op.config_pool
  pub log : new.db.log ≡ op.db.log

Same-refl : (op : Operation) → Same op op
Same-refl op = record { pool = refl; started = refl; skips = refl; config_pool = refl; log = refl }

Same-error : (o : Option Failure) (op : Operation) → Same op (with_error o op)
unfolding add_error
Same-error none op = record {
  pool = refl;
  started = refl;
  skips = refl;
  config_pool = refl;
  log = refl;
}
Same-error (some e) op = record {
  pool = refl;
  started = refl;
  skips = refl;
  config_pool = refl;
  log = refl;
}

module _ (parse : ℕ → Parsing) (is_valid : ℕ → Bool) (invalid_value : Failure) where
  pub Same-prepare :
      (clauses : List Bytes) (op : Operation)
      → Same op (prepare_operation parse is_valid invalid_value clauses op)
  unfolding prepare_operation
  Same-prepare clauses op =
      let assigned = assign_operation clauses op in
      let model = model_error parse is_valid invalid_value assigned in
      let parsed = Same-error model assigned in
      let valid =
        Same-error (dest_error parse is_valid invalid_value assigned) (with_error model assigned) in
      record {
        pool = valid.pool ∙ parsed.pool;
        started = valid.started ∙ parsed.started;
        skips = valid.skips ∙ parsed.skips;
        config_pool = valid.config_pool ∙ parsed.config_pool;
        log = valid.log ∙ parsed.log;
      }

-- What `BeginTransaction` does: a transaction is begun, and the operation is in it, or none is.
pub data Begun (op new : Operation) : Type 0 where
  inside :
      new.started ≡ true
      → new.db.pool ≡ transaction
      → new.db.log ≡ op.db.log ++ began ∷ []
      → new.skip_default_transaction ≡ false
      → Begun op new
  outside : new.started ≡ op.started → new.db.log ≡ op.db.log → Begun op new

begin_on-cases :
    (p : Pool) (driver : Driver) (db : Db)
    → db.errors ≡ []
    → (((begin_on p driver db).errors ≡ [])
        × ((begin_on p driver db).pool ≡ transaction)
        × ((begin_on p driver db).log ≡ db.log ++ began ∷ []))
      ⊎ ((e : Failure) × (es : Failures) × ((begin_on p driver db).errors ≡ e ∷ es)
          × ((begin_on p driver db).log ≡ db.log))
unfolding begin_on add_error call
begin_on-cases beginner driver db h = elim (Option-cases driver.begin_tx) [
  | inl ok ↦ rw (begin_on, ok) (inl (h, refl, refl))
  | inr (e, failed) ↦ rw (begin_on, failed, h) (inr (e, [], refl, refl))
]
begin_on-cases other_pool driver db h = rw h (inr (_, [], refl, refl))
begin_on-cases transaction driver db h = rw h (inr (_, [], refl, refl))
begin_on-cases nil_transaction driver db h = rw h (inr (_, [], refl, refl))

free-nil : (es : Failures) → is_free es ≡ true → es ≡ []
free-nil [] h = refl
free-nil (e ∷ es) h = absurd (ground arith)

take_begun-Begun :
    (driver : Driver) (op : Operation)
    → op.db.errors ≡ []
    → op.skip_default_transaction ≡ false
    → Begun op (take_begun (begin driver op.db) op)
unfolding take_begun begin
take_begun-Begun driver op h k = elim (begin_on-cases op.db.pool driver op.db h) [
  | inl (ok, pool, log) ↦ rw (take_begun, begin, ok) (inside refl pool log k)
  | inr (e, es, failed, log) ↦ elim (Bool-cases (is_invalid e es)) [
    | inl none_begun ↦ rw (take_begun, begin, failed, none_begun) (outside refl log)
    | inr error ↦ rw (take_begun, begin, failed, error) (outside refl log)
  ]
]

pub begin_transaction-Begun :
    (driver : Driver) (op : Operation) → Begun op (begin_transaction driver op)
unfolding begin_transaction
begin_transaction-Begun driver op =
    elim (Bool-cases (not op.skip_default_transaction && is_free op.db.errors)) [
      | inl both ↦
          let free : is_free op.db.errors ≡ true = ground arith in
          let wanted : op.skip_default_transaction ≡ false = ground arith in
          rw both (take_begun-Begun driver op (free-nil op.db.errors free) wanted)
      | inr neither ↦ rw neither (outside refl refl)
    ]

-- the call that ends a transaction
abbrev pub ending : Driver → Failures → Event
ending driver [] = commit_called driver.commit_tx
ending driver (e ∷ es) = rollback_called driver.rollback_tx

commit_on-log :
    (p : Pool) (driver : Driver) (db : Db)
    → p ≡ transaction
    → (commit_on p driver db).log ≡ db.log ++ commit_called driver.commit_tx ∷ []
unfolding commit_on call
commit_on-log p driver db h = rw (h, commit_on) (add_error-log driver.commit_tx _)

rollback_on-log :
    (p : Pool) (driver : Driver) (db : Db)
    → p ≡ transaction
    → (rollback_on p driver db).log ≡ db.log ++ rollback_called driver.rollback_tx ∷ []
unfolding rollback_on call
rollback_on-log p driver db h = rw (h, rollback_on) (add_error-log driver.rollback_tx _)

pub close-log :
    (driver : Driver) (db : Db) (es : Failures)
    → db.errors ≡ es
    → db.pool ≡ transaction
    → (close driver db).log ≡ db.log ++ ending driver es ∷ []
unfolding close commit rollback
close-log driver db [] e h =
    let free : is_free db.errors ≡ true = ap is_free e in
    rw free (commit_on-log db.pool driver db h)
close-log driver db (f ∷ es) e h =
    let held : is_free db.errors ≡ false = ap is_free e in
    rw held (rollback_on-log db.pool driver db h)

pub ending-counts :
    (driver : Driver) (es : Failures) (l : List Event)
    → (opened (l ++ ending driver es ∷ []) ≡ opened l)
      × (closed (l ++ ending driver es ∷ []) ≡ suc (closed l))
ending-counts driver [] l = (omega (arith, opened-append l _), omega (arith, closed-append l _))
ending-counts driver (e ∷ es) l =
    (omega (arith, opened-append l _), omega (arith, closed-append l _))
