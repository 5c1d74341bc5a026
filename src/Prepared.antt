-- ===== src/Prepared.antt =====
-- prepare_stmt.go and internal/stmt_store/stmt_store.go: prepared statements, shared by goroutines.
--
-- A goroutine is a number, with the point of `prepare` at which it stands. A statement is a cell of a
-- store that only grows, so that a pointer to it is a number. The cache maps a query to a statement;
-- that it may drop an entry at any time (it is full, an entry is too old, `Close`) is a step of its own.
-- `advance` makes the next step of one goroutine, or is `none` where that goroutine waits: for the
-- lock, or in `Get` for the channel `prepared`, which it does with the lock in its hands.
--
-- `Set` and the `Unlock` behind it are one step: until the unlocking no other goroutine looks into the
-- cache.
-- Where the preparation fails, `New` returns an empty statement, which no caller looks at; the number of
-- the failed one stands for it here. A writer that waits does not keep readers out, which `sync.RWMutex` does: there are more orders here.
pub mod Steps
pub mod Changes
pub mod Made
pub mod Returned
pub mod Waiting
pub mod Flight
mod Tests
use pewter_rinse_moor.Prelude.{
  ℕ, zero, suc, ◌+◌, ◌≡◌, Bool, true, false, not, ◌&&◌, ◌||◌, Option, none, some, List, [], ◌∷◌,
  Bytes, equal_bytes, equal_numbers, ◌==◌, if◌then◌else◌,
}

-- `Stmt`, with the query that it was made for and the goroutine that makes it. `prepared` says that
-- the channel is closed, and `prepare_err` is the error of the preparation.
pub record Stmt : Type 0 where
  pub query : Bytes
  pub is_transaction : Bool
  pub prepared : Bool
  pub prepare_err : Option ℕ
  pub owner : ℕ

-- The points of `prepare`, of `New` within it, and of `ExecContext` around it.
pub data Pc : Type 0 where
  idle : Pc
  -- under `RLock`, at the first `Get`
  reading : Bytes → Bool → Pc
  -- under `RLock`, in `Get` with a statement in the hand
  read_waiting : Bytes → Bool → ℕ → Pc
  -- between `RUnlock` and `Lock`
  retrying : Bytes → Bool → Pc
  -- under `Lock`, at the second `Get`
  writing : Bytes → Bool → Pc
  -- under `Lock`, in `Get` with a statement in the hand
  write_waiting : Bytes → Bool → ℕ → Pc
  -- under `Lock`, at the `Set` of `New`
  creating : Bytes → Bool → Pc
  -- in `PrepareContext`
  preparing : Bytes → Bool → ℕ → Pc
  -- at the `Delete` behind an error
  failing : Bytes → Bool → ℕ → ℕ → Pc
  -- at the deferred `close`
  closing : Bytes → Bool → ℕ → Option ℕ → Pc
  -- back in `ExecContext`, with a statement and an error
  returned : Bytes → Bool → ℕ → Option ℕ → Pc

pub record State : Type 0 where
  pub writer : Option ℕ
  pub readers : List ℕ
  pub cache : Bytes → Option ℕ
  pub stmts : ℕ → Stmt
  pub next : ℕ
  pub pc : ℕ → Pc

-- What the caller or the database decides: a query to run, in a transaction or not; how a preparation
-- ends; whether the connection of an execution is bad.
pub data Choice : Type 0 where
  call : Bytes → Bool → Choice
  outcome : Option ℕ → Choice
  run_on : Bool → Choice
  go : Choice

-- What the end of a `Get` and the test behind it find.
pub data Found : Type 0 where
  wait : Found
  hit : ℕ → Found
  miss : Found

-- `ok && (!stmt.Transaction || isTransaction)`, once the statement is prepared
unfoldable pub judge : Stmt → Bool → ℕ → Found
judge stmt tx id =
    if stmt.prepared then (if not stmt.is_transaction || tx then hit id else miss) else wait

abbrev pub put : State → ℕ → Pc → State
put s t p = record s { pc = λ u. if u == t then p else s.pc u }

abbrev pub remove : ℕ → List ℕ → List ℕ
remove t [] = []
remove t (u ∷ l) = if u == t then remove t l else u ∷ remove t l

-- `RLock` and `RUnlock`, `Lock` and `Unlock`
abbrev pub r_lock : ℕ → State → State
r_lock t s = record s { readers = t ∷ s.readers }

abbrev pub r_unlock : ℕ → State → State
r_unlock t s = record s { readers = remove t s.readers }

abbrev pub lock : ℕ → State → State
lock t s = record s { writer = some t }

abbrev pub unlock : State → State
unlock s = record s { writer = none }

-- `Delete`
abbrev pub delete : Bytes → State → State
delete query s = record s { cache = λ k. if k == query then none else s.cache k }

-- `Set` of a new statement
abbrev pub set_new : Bytes → Bool → ℕ → State → State
set_new query tx t s = record s {
  cache = λ k. if k == query then some s.next else s.cache k;
  stmts = λ i.
      if i == s.next
      then record {
        query = query;
        is_transaction = tx;
        prepared = false;
        prepare_err = none;
        owner = t;
      }
      else s.stmts i;
  next = s.next + 1;
}

-- `cacheStmt.prepareErr = err`
abbrev pub set_err : ℕ → ℕ → State → State
set_err id e s = record s {
  stmts = λ i. if i == id then record (s.stmts i) { prepare_err = some e } else s.stmts i;
}

-- `close(cacheStmt.prepared)`
abbrev pub close : ℕ → State → State
close id s = record s {
  stmts = λ i. if i == id then record (s.stmts i) { prepared = true } else s.stmts i;
}

abbrev pub no_one : Option ℕ → List ℕ → Bool
no_one none [] = true
no_one _ _ = false

abbrev pub is_free : Option ℕ → Bool
is_free none = true
is_free (some t) = false

-- the start of the first `Get`
unfoldable pub get_read : State → ℕ → Bytes → Bool → Option ℕ → State
get_read s t query tx none = put (r_unlock t s) t (retrying query tx)
get_read s t query tx (some id) = put s t (read_waiting query tx id)

-- the end of the first `Get`
unfoldable pub end_read : State → ℕ → Bytes → Bool → Found → Option State
end_read s t query tx wait = none
end_read s t query tx (hit id) =
    some (put (r_unlock t s) t (returned query tx id (s.stmts id).prepare_err))
end_read s t query tx miss = some (put (r_unlock t s) t (retrying query tx))

-- the start of the second `Get`
unfoldable pub get_write : State → ℕ → Bytes → Bool → Option ℕ → State
get_write s t query tx none = put s t (creating query tx)
get_write s t query tx (some id) = put s t (write_waiting query tx id)

-- the end of the second `Get`
unfoldable pub end_write : State → ℕ → Bytes → Bool → Found → Option State
end_write s t query tx wait = none
end_write s t query tx (hit id) =
    some (put (unlock s) t (returned query tx id (s.stmts id).prepare_err))
end_write s t query tx miss = some (put s t (creating query tx))

-- the next step from a point
unfoldable pub advance_at : State → ℕ → Pc → Choice → Option State
advance_at s t idle (call query tx) =
    if is_free s.writer then some (put (r_lock t s) t (reading query tx)) else none
advance_at s t (reading query tx) go = some (get_read s t query tx (s.cache query))
advance_at s t (read_waiting query tx id) go = end_read s t query tx (judge (s.stmts id) tx id)
advance_at s t (retrying query tx) go =
    if no_one s.writer s.readers then some (put (lock t s) t (writing query tx)) else none
advance_at s t (writing query tx) go = some (get_write s t query tx (s.cache query))
advance_at s t (write_waiting query tx id) go = end_write s t query tx (judge (s.stmts id) tx id)
advance_at s t (creating query tx) go =
    some (put (unlock (set_new query tx t s)) t (preparing query tx s.next))
advance_at s t (preparing query tx id) (outcome none) = some (put s t (closing query tx id none))
advance_at s t (preparing query tx id) (outcome (some e)) =
    some (put (set_err id e s) t (failing query tx id e))
advance_at s t (failing query tx id e) go =
    some (put (delete query s) t (closing query tx id (some e)))
advance_at s t (closing query tx id err) go = some (put (close id s) t (returned query tx id err))
advance_at s t (returned query tx id none) (run_on bad) =
    some (put (if bad then delete query s else s) t idle)
advance_at s t (returned query tx id (some e)) go = some (put s t idle)
advance_at s t p c = none

unfoldable pub advance : State → ℕ → Choice → Option State
advance s t c = advance_at s t (s.pc t) c

-- not a bad connection, upon which `ExecContext` deletes an entry
abbrev pub is_kept : Choice → Bool
is_kept (run_on true) = false
is_kept _ = true

-- A state that steps lead to. `drops` says whether an entry of a prepared statement may get lost: dropped by
-- the cache, or deleted upon a bad connection.
pub data Reach (drops : Bool) : State → Type 0 where
  start :
      (s : State)
      → s.writer ≡ none
      → s.readers ≡ []
      → ((k : Bytes) → s.cache k ≡ none)
      → s.next ≡ 0
      → ((t : ℕ) → s.pc t ≡ idle)
      → Reach drops s
  moved :
      {s u : State}
      → Reach drops s
      → (t : ℕ) (c : Choice) → (drops || is_kept c) ≡ true
      → advance s t c ≡ some u
      → Reach drops u
  dropped : {s : State} → Reach drops s → drops ≡ true → (k : Bytes) → Reach drops (delete k s)
