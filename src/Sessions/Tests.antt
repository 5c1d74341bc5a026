-- ===== src/Sessions/Tests.antt =====
-- Runs of sessions and chains, and the theorems at concrete inputs.
use pewter_rinse_moor.Prelude.{◌≡◌, refl, ℕ, Bool, true, false, Option, none, some, [], ◌∷◌, length}
use pewter_rinse_moor.Clause.{scalar}
use pewter_rinse_moor.Sessions.{
  Heap, Config, Body, Session, driver_pool, ◌>>=◌, get_instance, instance_at, new_statement,
  clone_statement, cloned_body, fresh_body, session, open_session, session_statement,
}
use pewter_rinse_moor.Sessions.Chain.{
  unscoped, attrs, perform, run, view, statement_of, write_call, on_body, on_clauses,
}
use pewter_rinse_moor.Sessions.Chains.{Stands}

abbrev plain_config : Config
plain_config = record {
  create_batch_size = 0;
  skip_default_transaction = false;
  allow_global_update = false;
  full_save_associations = false;
  propagate_unscoped = false;
  disable_nested_transaction = false;
  dry_run = false;
  query_fields = false;
  prepare_stmt = false;
  conn_pool = driver_pool 0;
  logger = 0;
  now_func = 0;
}

abbrev empty_body : Body
empty_body = record {
  table = [];
  model = none;
  dest = none;
  unscoped = false;
  build_clauses = [];
  distinct = false;
  selects = [];
  omits = [];
  column_mapping = [];
  joins = [];
  preloads = [];
  settings = [];
  conn_pool = driver_pool 0;
  context = 0;
  raise_error_on_not_found = false;
  skip_hooks = false;
  sql = [];
  vars = [];
  attrs = [];
  assigns = [];
  scopes = [];
}

-- the heap of a DB that was opened, with this `clone`
abbrev opened : ℕ → Heap
opened n = record {
  dbs = record { config = 0; error = none; rows_affected = 0; statement = 0; clone = n } ∷ [];
  statements = record { db = 0; clauses = 0; body = empty_body } ∷ [];
  clause_maps = [] ∷ [];
  configs = plain_config ∷ [];
  cache_store = none;
  caches = 0;
}

abbrev stands : (n : ℕ) → Stands 0 (opened n)
stands n = record {
  db = record { config = 0; error = none; rows_affected = 0; statement = 0; clone = n };
  config = plain_config;
  statement = record { db = 0; clauses = 0; body = empty_body };
  clauses = [];
  found = refl;
  configured = refl;
  stated = refl;
  held = refl;
}

abbrev never : ℕ → Bool
never c = false

abbrev preparing : Session
preparing = record {
  dry_run = false;
  prepare_stmt = true;
  new_db = false;
  initialized = false;
  skip_hooks = true;
  skip_default_transaction = false;
  disable_nested_transaction = false;
  allow_global_update = false;
  full_save_associations = false;
  propagate_unscoped = false;
  query_fields = false;
  create_batch_size = 0;
  context = some 3;
  logger = none;
  now_func = none;
}

-- whether the statement of a DB is unscoped
abbrev is_unscoped : ℕ → Heap → Option Bool
is_unscoped p h = do (b, l) ← view p h; some b.unscoped

-- the attributes that `Attrs` gave
abbrev count_attrs : ℕ → Heap → Option ℕ
count_attrs p h = do (b, l) ← view p h; some (length b.attrs)

-- A DB with `clone` 0, in the middle of a chain, is changed by the calls on it.
shared_by_chain : (do (q, k) ← run never (unscoped ∷ []) 0 (opened 0); is_unscoped 0 k) ≡ some true
unfolding run perform statement_of get_instance instance_at write_call on_body on_clauses view
shared_by_chain = refl

-- One that was opened is not.
kept_from_chain : (do (q, k) ← run never (unscoped ∷ []) 0 (opened 1); is_unscoped 0 k) ≡ some false
unfolding run perform statement_of get_instance instance_at new_statement write_call on_body
    on_clauses view fresh_body
kept_from_chain = refl

-- What `Attrs` gave is lost in a session.
attrs_of_session :
    (do
      (q, k) ← run never (attrs (scalar [] ∷ []) ∷ []) 0 (opened 1)
      (r, g) ← session (record preparing { prepare_stmt = false }) q k
      (t, f) ← get_instance r g
      count_attrs t f)
    ≡ some 0
unfolding run perform statement_of get_instance instance_at new_statement clone_statement write_call
    on_body on_clauses view fresh_body cloned_body session open_session session_statement
attrs_of_session = refl
