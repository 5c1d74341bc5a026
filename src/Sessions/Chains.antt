-- ===== src/Sessions/Chains.antt =====
-- gorm.go and chainable_api.go: what chains of calls do that start at a DB which `getInstance` clones.
use pewter_rinse_moor.Prelude.{
  ◌≡◌, refl, ℕ, suc, zero, ltb, Bool, true, false, All, some, List, [], ◌∷◌, length, get_elem?,
}
use mathlib.Core.Path.{subst}
use pewter_rinse_moor.Clause.Merge.{Clauses}
use pewter_rinse_moor.Sessions.{
  Heap, Db, Statement, Config, get_instance, instance_at, new_statement, clone_statement,
  put_statement, put_db, instance_of, cloned_body, fresh_body,
}
use pewter_rinse_moor.Sessions.Chain.{Call, Content, apply, statement_of, may_share, run, view}
use pewter_rinse_moor.Sessions.Shares.{
  Keeps, Keeps-trans, Keeps-put_statement, Keeps-put_db, Owned, Owned-statement, Owned-instance,
  view-found, get-snoc_new, get-length, perform-instance,
}

-- There is a DB at the address, with a configuration, a statement and clauses.
pub record Stands (p : ℕ) (h : Heap) : Type 0 where
  pub db : Db
  pub config : Config
  pub statement : Statement
  pub clauses : Clauses
  pub found : get_elem? h.dbs p ≡ some db
  pub configured : get_elem? h.configs db.config ≡ some config
  pub stated : get_elem? h.statements db.statement ≡ some statement
  pub held : get_elem? h.clause_maps statement.clauses ≡ some clauses

abbrev stands_kept : (p : ℕ) (h k : Heap) → Keeps h k → Stands p h → Stands p k
stands_kept p h k w s = record {
  db = s.db;
  config = s.config;
  statement = s.statement;
  clauses = s.clauses;
  found = w.dbs _ _ s.found;
  configured = w.configs _ _ s.configured;
  stated = w.statements _ _ s.stated;
  held = w.clause_maps _ _ s.held;
}

pub view-Stands :
    (p : ℕ) (h : Heap) (s : Stands p h) → view p h ≡ some (s.statement.body, s.clauses)
view-Stands p h s = view-found p h s.db s.statement s.clauses s.found s.stated s.held

-- what a statement says that is made for a DB with this `clone`
abbrev pub started : ℕ → Bool → Content → Content
started (suc zero) propagate (b, l) = (fresh_body propagate b, [])
started _ propagate (b, l) = (cloned_body b, l)

abbrev pub start : (p : ℕ) (h : Heap) → Stands p h → Content
start p h s = started s.db.clone s.config.propagate_unscoped (s.statement.body, s.clauses)

new_statement-started :
    (n p : ℕ) (h : Heap) (s : Stands p h) (tx : ℕ)
    → let v = started n s.config.propagate_unscoped (s.statement.body, s.clauses) in
      new_statement n s.db tx h ≡ some (length h.statements, put_statement tx v.0 v.1 h)
unfolding new_statement clone_statement
new_statement-started (suc zero) p h s tx = rw (s.stated, s.configured) refl
new_statement-started n p h s tx = rw (s.stated, s.held) refl

get_instance-Owned :
    (p : ℕ) (h : Heap) (s : Stands p h)
    → ltb 0 s.db.clone ≡ true
    → (k : Heap) × (get_instance p h ≡ some (length h.dbs, k))
      × Owned h (length h.dbs) k (start p h s)
unfolding get_instance instance_at
get_instance-Owned p h s clones =
    let k = put_statement (length h.dbs) ((start p h s).0) ((start p h s).1) h in
    (
      put_db (instance_of s.db (length h.statements)) k,
      rw (s.found, clones, new_statement-started s.db.clone p h s (length h.dbs)) refl,
      record {
        db = instance_of s.db (length h.statements);
        statement = record {
          db = length h.dbs;
          clauses = length h.clause_maps;
          body = (start p h s).0;
        };
        found = get-snoc_new h.dbs _;
        shared = refl;
        stands = get-snoc_new h.statements _;
        holds = get-snoc_new h.clause_maps _;
        says = refl;
        new_statement = get-length h.statements;
        new_map = get-length h.clause_maps;
        keeps = Keeps-trans h k _ (Keeps-put_statement _ _ _ h) (Keeps-put_db _ k);
      },
    )

-- a call that appends nothing in place
abbrev pub IsApart : Call → Type 0
IsApart c = may_share c ≡ false

module _ (bad : ℕ → Bool) where
  -- what calls make of what a statement says
  abbrev pub apply_all : List Call → Content → Content
  apply_all [] v = v
  apply_all (c ∷ cs) v = apply_all cs (apply bad (v.0).distinct c v)

  run-Owned :
      (cs : List Call) (before : Heap) (q : ℕ) (h : Heap) (v : Content)
      → All IsApart cs
      → Owned before q h v
      → (k : Heap) × (run bad cs q h ≡ some (q, k)) × Owned before q k (apply_all cs v)
  unfolding run
  run-Owned [] before q h v l o = (h, refl, o)
  run-Owned (c ∷ cs) before q h v (apart, l) o =
      let (g, one, p) =
        perform-instance bad c before q q o.db.statement o.statement h h v apart
          (Owned-statement before q h v o) (Owned-instance before q h v o) o in
      let said : Owned before q g (apply bad (v.0).distinct c v) =
        subst (λ b. Owned before q g (apply bad b.distinct c v)) o.says p in
      let (k, all, r) = run-Owned cs before q g _ l said in (k, rw one all, r)

  -- what a chain makes of what the statement of the DB says that it starts at
  abbrev pub chained : Call → List Call → (p : ℕ) (h : Heap) → Stands p h → Content
  chained c cs p h s = apply_all cs (apply bad s.statement.body.distinct c (start p h s))

  pub run-Stands :
      (c : Call) (cs : List Call) (p : ℕ) (h : Heap) (s : Stands p h)
      → All IsApart (c ∷ cs)
      → ltb 0 s.db.clone ≡ true
      → (k : Heap) × (run bad (c ∷ cs) p h ≡ some (length h.dbs, k))
        × Owned h (length h.dbs) k (chained c cs p h s)
  unfolding run statement_of
  run-Stands c cs p h s (apart, l) clones =
      let (k, made, o) = get_instance-Owned p h s clones in
      let found : statement_of p h ≡ some (s.db.statement, s.statement) =
        rw (s.found, s.stated) refl in
      let (g, first, r) =
        perform-instance bad c h p (length h.dbs) s.db.statement s.statement h k _ apart found made
          o in
      let (f, others, t) = run-Owned cs h (length h.dbs) g _ l r in (f, rw first others, t)
