-- ===== src/Sessions/Opened.antt =====
-- gorm.go: chains of calls on what `Session` returns.
use pewter_rinse_moor.Prelude.{◌≡◌, ℕ, ◌||◌, length, if◌then◌else◌}
use pewter_rinse_moor.Clause.Merge.{Clauses}
use pewter_rinse_moor.Sessions.{
  Heap, Config, Body, Session, Pool, cloned_body, session_body, has_own_statement, with_cache,
}
use pewter_rinse_moor.Sessions.Chain.{Content}
use pewter_rinse_moor.Sessions.Shares.{Keeps}
use pewter_rinse_moor.Sessions.Chains.{Stands, started}

-- what the statement of a session says, and the `ConnPool` that its configuration gets if it prepares
abbrev pub session_says : Session → ℕ → Pool → Body → Body
session_says o cache pool b =
    if has_own_statement o then session_body o cache pool (cloned_body b) else b

abbrev pub cache_of : Session → Heap → ℕ
cache_of o h = (with_cache o h.cache_store h.caches).0

-- what a session leaves: a DB that `getInstance` clones, and everything that there was
pub record Opened (o : Session) (h : Heap) (c : Config) (b : Body) (l : Clauses) (k : Heap)
    : Type 0 where
  pub stands : Stands (length h.dbs) k
  pub clones : stands.db.clone ≡ (if o.new_db then 1 else 2)
  pub propagates : stands.config.propagate_unscoped ≡ (o.propagate_unscoped || c.propagate_unscoped)
  pub says : stands.statement.body ≡ session_says o (cache_of o h) c.conn_pool b
  pub holds : stands.clauses ≡ l
  pub keeps : Keeps h k

-- what the first statement of a chain on a session says
abbrev pub session_start : Session → Config → ℕ → Body → Clauses → Content
session_start o c cache b l =
    started (if o.new_db then 1 else 2) (o.propagate_unscoped || c.propagate_unscoped)
      (session_says o cache c.conn_pool b, l)
