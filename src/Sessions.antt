-- ===== src/Sessions.antt =====
-- gorm.go and statement.go: the values `DB` and `Statement` and who shares them. `getInstance`, which every
-- method of a chain calls first, `Statement.clone` and `Session`.
--
-- Objects stand in a heap: a `DB`, a `Statement`, a `Config` and the map `Clauses` of a statement are at an
-- address each, the index in the list of their kind. `Preloads`, `Joins`, the scopes and the settings, which
-- `clone` copies one by one, are values in the statement, and so are the slices. Of these the chain
-- methods never write an element that another slice shows, but for two appends in place, whose effect on
-- others depends on how much room their arrays have, and which are left out: `MergeClause` of RETURNING in
-- clause/returning.go, and `Select` of a slice with further columns. A read through an address at
-- which there is nothing is `none`, the panic of the Go code. What the calls do not look into is a `Value`
-- or a number.
pub mod Chain
pub mod Shares
pub mod Chains
pub mod Opened
mod Tests
use pewter_rinse_moor.Prelude.{
  ℕ, zero, suc, ltb, Bool, true, false, ◌||◌, Option, none, some, List, [], ◌∷◌, ◌++◌, Bytes,
  if◌then◌else◌, length, get_elem?, update,
}
use pewter_rinse_moor.Clause.{Value, Values}
use pewter_rinse_moor.Clause.Merge.{Clauses}

-- a step that needs the value of the one before
infixl 5 ◌>>=◌
abbrev pub ◌>>=◌ {ℓ κ} : {A : Type ℓ} {B : Type κ} → Option A → (A → Option B) → Option B
none >>= f = none
some a >>= f = f a

-- `ConnPool`: a pool or a transaction of the driver's, or one behind the cache of prepared statements
-- with the given number
pub data Pool : Type 0 where
  driver_pool : ℕ → Pool
  driver_tx : ℕ → Pool
  prepared_db : ℕ → Pool → Pool
  prepared_tx : ℕ → Pool → Pool

-- whether it is a `Tx`
abbrev pub is_tx : Pool → Bool
is_tx (driver_tx n) = true
is_tx (prepared_tx n p) = true
is_tx _ = false

-- `Config`; of its fields those that `Session` and `getInstance` use
pub record Config : Type 0 where
  pub create_batch_size : ℕ
  pub skip_default_transaction : Bool
  pub allow_global_update : Bool
  pub full_save_associations : Bool
  pub propagate_unscoped : Bool
  pub disable_nested_transaction : Bool
  pub dry_run : Bool
  pub query_fields : Bool
  pub prepare_stmt : Bool
  pub conn_pool : Pool
  pub logger : ℕ
  pub now_func : ℕ

-- The fields of a `Statement` but its `DB` and `Clauses`, and but `TableExpr`, `ReflectValue`, `Schema`,
-- `CurDestIndex` and `Result`, the pointer that a clone shares, which no call here reads or writes. Of a
-- join these are the type, the name and the conditions.
pub record Body : Type 0 where
  pub table : Bytes
  pub model : Option Value
  pub dest : Option Value
  pub unscoped : Bool
  pub build_clauses : List Bytes
  pub distinct : Bool
  pub selects : List Bytes
  pub omits : List Bytes
  pub column_mapping : List (Bytes × Bytes)
  pub joins : List (Bytes × Bytes × Values)
  pub preloads : List (Bytes × Values)
  pub settings : List (Bytes × Value)
  pub conn_pool : Pool
  pub context : ℕ
  pub raise_error_on_not_found : Bool
  pub skip_hooks : Bool
  pub sql : Bytes
  pub vars : List Value
  pub attrs : List Value
  pub assigns : List Value
  pub scopes : List ℕ

pub record Statement : Type 0 where
  pub db : ℕ
  pub clauses : ℕ
  pub body : Body

pub record Db : Type 0 where
  pub config : ℕ
  pub error : Option Bytes
  pub rows_affected : ℕ
  pub statement : ℕ
  pub clone : ℕ

-- `cache_store` is the cache of prepared statements that is stored there, if one is, and `caches` how
-- many were made.
pub record Heap : Type 0 where
  pub dbs : List Db
  pub statements : List Statement
  pub clause_maps : List Clauses
  pub configs : List Config
  pub cache_store : Option ℕ
  pub caches : ℕ

-- the SQL and the variables that a clone has
abbrev pub cloned_vars : Bytes → List Value → List Value
cloned_vars [] vars = []
cloned_vars (b ∷ sql) vars = vars

-- what `Statement.clone` copies
unfoldable pub cloned_body : Body → Body
cloned_body b = record b {
  build_clauses = [];
  vars = cloned_vars b.sql b.vars;
  attrs = [];
  assigns = [];
}

-- the new statement of `getInstance`
unfoldable pub fresh_body : Bool → Body → Body
fresh_body propagate_unscoped b = record {
  table = [];
  model = none;
  dest = none;
  unscoped = if propagate_unscoped then b.unscoped else false;
  build_clauses = [];
  distinct = false;
  selects = [];
  omits = [];
  column_mapping = [];
  joins = [];
  preloads = [];
  settings = [];
  conn_pool = b.conn_pool;
  context = b.context;
  raise_error_on_not_found = false;
  skip_hooks = b.skip_hooks;
  sql = [];
  vars = [];
  attrs = [];
  assigns = [];
  scopes = [];
}

-- a new statement of a DB with new clauses
abbrev pub put_statement : ℕ → Body → Clauses → Heap → Heap
put_statement db b l h = record h {
  statements = h.statements ++ record { db = db; clauses = length h.clause_maps; body = b } ∷ [];
  clause_maps = h.clause_maps ++ l ∷ [];
}

abbrev pub put_db : Db → Heap → Heap
put_db d h = record h { dbs = h.dbs ++ d ∷ [] }

-- `Statement.clone` of the statement at an address, for the DB at another
unfoldable pub clone_statement : ℕ → ℕ → Heap → Option (ℕ × Heap)
clone_statement a db h = do
  s ← get_elem? h.statements a
  l ← get_elem? h.clause_maps s.clauses
  some (length h.statements, put_statement db (cloned_body s.body) l h)

-- the statement of `getInstance`, by the `clone` of the DB, which is not 0
unfoldable pub new_statement : ℕ → Db → ℕ → Heap → Option (ℕ × Heap)
new_statement (suc zero) d tx h = do
  s ← get_elem? h.statements d.statement
  c ← get_elem? h.configs d.config
  some (length h.statements, put_statement tx (fresh_body c.propagate_unscoped s.body) [] h)
new_statement clone d tx h = clone_statement d.statement tx h

-- the `DB` that `getInstance` makes
abbrev pub instance_of : Db → ℕ → Db
instance_of d a = record {
  config = d.config;
  error = d.error;
  rows_affected = 0;
  statement = a;
  clone = 0;
}

-- `getInstance` of the DB at an address
unfoldable pub instance_at : ℕ → Db → Heap → Option (ℕ × Heap)
instance_at db d h =
    if ltb 0 d.clone
    then (do
      (a, k) ← new_statement d.clone d (length h.dbs) h
      some (length h.dbs, put_db (instance_of d a) k))
    else some (db, h)

unfoldable pub get_instance : ℕ → Heap → Option (ℕ × Heap)
get_instance db h = do d ← get_elem? h.dbs db; instance_at db d h

-- the struct `Session`
pub record Session : Type 0 where
  pub dry_run : Bool
  pub prepare_stmt : Bool
  pub new_db : Bool
  pub initialized : Bool
  pub skip_hooks : Bool
  pub skip_default_transaction : Bool
  pub disable_nested_transaction : Bool
  pub allow_global_update : Bool
  pub full_save_associations : Bool
  pub propagate_unscoped : Bool
  pub query_fields : Bool
  pub create_batch_size : ℕ
  pub context : Option ℕ
  pub logger : Option ℕ
  pub now_func : Option ℕ

abbrev pub or_else {ℓ} : {A : Type ℓ} → Option A → A → A
or_else none a = a
or_else (some b) a = b

abbrev pub is_given {ℓ} : {A : Type ℓ} → Option A → Bool
is_given none = false
is_given (some a) = true

-- the `ConnPool` of a statement behind the cache of prepared statements
abbrev pub prepared_pool : ℕ → Pool → Pool → Pool
prepared_pool cache of_config p =
    if is_tx p then prepared_tx cache p else prepared_db cache of_config

-- the copy of the configuration; `pool` is the `ConnPool` of a statement of its own
unfoldable pub session_config : Session → Pool → Config → Config
session_config o pool c = record {
  create_batch_size =
      if ltb 0 o.create_batch_size then o.create_batch_size else c.create_batch_size;
  skip_default_transaction = o.skip_default_transaction || c.skip_default_transaction;
  allow_global_update = o.allow_global_update || c.allow_global_update;
  full_save_associations = o.full_save_associations || c.full_save_associations;
  propagate_unscoped = o.propagate_unscoped || c.propagate_unscoped;
  disable_nested_transaction = o.disable_nested_transaction || c.disable_nested_transaction;
  dry_run = o.dry_run || c.dry_run;
  query_fields = o.query_fields || c.query_fields;
  prepare_stmt = o.prepare_stmt || c.prepare_stmt;
  conn_pool = if o.prepare_stmt then pool else c.conn_pool;
  logger = or_else o.logger c.logger;
  now_func = or_else o.now_func c.now_func;
}

-- what the session changes in the clone of the statement
unfoldable pub session_body : Session → ℕ → Pool → Body → Body
session_body o cache of_config b = record b {
  context = or_else o.context b.context;
  conn_pool = if o.prepare_stmt then prepared_pool cache of_config b.conn_pool else b.conn_pool;
  skip_hooks = o.skip_hooks || b.skip_hooks;
}

-- whether the session has a statement of its own
abbrev pub has_own_statement : Session → Bool
has_own_statement o = is_given o.context || (o.prepare_stmt || o.skip_hooks)

-- the cache of prepared statements that is there, or a new one; with what is stored, and how many there
-- are then
unfoldable pub with_cache : Session → Option ℕ → ℕ → ℕ × Option ℕ × ℕ
with_cache o store made =
    if o.prepare_stmt
    then elim store [ some n ↦ (n, some n, made) | none ↦ (made, some made, suc made) ]
    else (0, store, made)

-- the statement of the session that is the DB `tx`, and its `ConnPool` if it is the session's own
unfoldable pub session_statement : Session → Db → Config → ℕ → ℕ → Heap → Option (ℕ × Pool × Heap)
session_statement o d c cache tx h =
    if has_own_statement o
    then (do
      s ← get_elem? h.statements d.statement
      l ← get_elem? h.clause_maps s.clauses
      let b = session_body o cache c.conn_pool (cloned_body s.body) in
          some (length h.statements, b.conn_pool, put_statement tx b l h))
    else some (d.statement, c.conn_pool, h)

-- the `DB` of a session
abbrev pub session_db : Session → Db → ℕ → ℕ → Db
session_db o d config a = record {
  config = config;
  error = d.error;
  rows_affected = 0;
  statement = a;
  clone = if o.new_db then 1 else 2;
}

-- the session before `Initialized` is looked at
unfoldable pub open_session : Session → ℕ → Heap → Option (ℕ × Heap)
open_session o db h = do
  d ← get_elem? h.dbs db
  c ← get_elem? h.configs d.config
  let (cache, store, made) : ℕ × Option ℕ × ℕ = with_cache o h.cache_store h.caches in
      (do
        (a, pool, k) ←
            session_statement o d c cache (length h.dbs)
              (record h { cache_store = store; caches = made })
        some (
          length h.dbs,
          put_db (session_db o d (length h.configs) a)
              (record k { configs = k.configs ++ session_config o pool c ∷ [] }),
        ))

-- `Session`
unfoldable pub session : Session → ℕ → Heap → Option (ℕ × Heap)
session o db h = do
  (tx, k) ← open_session o db h
  if o.initialized then get_instance tx k else some (tx, k)
