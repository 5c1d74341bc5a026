-- ===== src/Sessions/Shares.antt =====
-- What a call of a chain may write: `Keeps` says that a heap has all that another one had, unchanged, and
-- `Owned` that a DB stands alone on a statement and clauses that were not there before.
use pewter_rinse_moor.Prelude.{
  ◌≡◌, ◌≢◌, refl, sym, ap, ◌∙◌, arith, ℕ, suc, zero, Bool, false, none, some, List, [], ◌∷◌, ◌++◌,
  length, get_elem?, update, get_elem?-update_self, get_elem?-update_ne,
}
use pewter_rinse_moor.Clause.Merge.{Clauses}
use pewter_rinse_moor.Sessions.{
  Heap, Db, Statement, Body, get_instance, instance_at, put_statement, put_db,
}
use pewter_rinse_moor.Sessions.Chain.{
  Call, Content, on_body, apply, statement_of, write_call, may_share, perform, view,
}

module _ {ℓ} {A : Type ℓ} where
  pub get-snoc_old :
      (xs : List A) (y : A) (i : ℕ) (x : A)
      → get_elem? xs i ≡ some x
      → get_elem? (xs ++ y ∷ []) i ≡ some x
  get-snoc_old [] y i x h = absurd (ground arith)
  get-snoc_old (z ∷ xs) y zero x h = h
  get-snoc_old (z ∷ xs) y (suc i) x h = get-snoc_old xs y i x h

  pub get-snoc_new : (xs : List A) (y : A) → get_elem? (xs ++ y ∷ []) (length xs) ≡ some y
  get-snoc_new [] y = refl
  get-snoc_new (z ∷ xs) y = get-snoc_new xs y

  pub get-length : (xs : List A) → get_elem? xs (length xs) ≡ none
  get-length [] = refl
  get-length (z ∷ xs) = get-length xs

  -- what was there is there
  abbrev pub Within : List A → List A → Type ℓ
  Within xs ys = (i : ℕ) (x : A) → get_elem? xs i ≡ some x → get_elem? ys i ≡ some x

  Within-update :
      (a : ℕ) (f : A → A) (xs ys : List A)
      → get_elem? xs a ≡ none
      → Within xs ys
      → Within xs (update a f ys)
  Within-update a f xs ys fresh w i x h =
      let apart : a ≢ i =
        λ e. let clash : none ≡ some x = sym fresh ∙ ap (get_elem? xs) e ∙ h in absurd cc in
      get_elem?-update_ne a i f ys apart ∙ w i x h

-- Everything that a heap had is in another one, as it was.
pub record Keeps (h k : Heap) : Type 0 where
  pub dbs : Within h.dbs k.dbs
  pub statements : Within h.statements k.statements
  pub clause_maps : Within h.clause_maps k.clause_maps
  pub configs : Within h.configs k.configs

pub Keeps-trans : (a b c : Heap) → Keeps a b → Keeps b c → Keeps a c
Keeps-trans a b c k l = record {
  dbs = λ i x h. l.dbs i x (k.dbs i x h);
  statements = λ i x h. l.statements i x (k.statements i x h);
  clause_maps = λ i x h. l.clause_maps i x (k.clause_maps i x h);
  configs = λ i x h. l.configs i x (k.configs i x h);
}

pub Keeps-put_statement :
    (db : ℕ) (b : Body) (l : Clauses) (h : Heap) → Keeps h (put_statement db b l h)
Keeps-put_statement db b l h = record {
  dbs = λ i x e. e;
  statements = λ i x e. get-snoc_old h.statements _ i x e;
  clause_maps = λ i x e. get-snoc_old h.clause_maps l i x e;
  configs = λ i x e. e;
}

pub Keeps-put_db : (d : Db) (h : Heap) → Keeps h (put_db d h)
Keeps-put_db d h = record {
  dbs = λ i x e. get-snoc_old h.dbs d i x e;
  statements = λ i x e. e;
  clause_maps = λ i x e. e;
  configs = λ i x e. e;
}

-- The DB at an address is not cloned by `getInstance`; its statement and clauses, which say what is given,
-- were not in the heap before, of which all is as it was.
pub record Owned (before : Heap) (q : ℕ) (h : Heap) (v : Content) : Type 0 where
  pub db : Db
  pub statement : Statement
  pub found : get_elem? h.dbs q ≡ some db
  pub shared : db.clone ≡ 0
  pub stands : get_elem? h.statements db.statement ≡ some statement
  pub holds : get_elem? h.clause_maps statement.clauses ≡ some (v.1)
  pub says : statement.body ≡ v.0
  pub new_statement : get_elem? before.statements db.statement ≡ none
  pub new_map : get_elem? before.clause_maps statement.clauses ≡ none
  pub keeps : Keeps before h

-- what is read through a DB, its statement and its clauses
pub view-found :
    (p : ℕ) (h : Heap) (d : Db) (s : Statement) (l : Clauses)
    → get_elem? h.dbs p ≡ some d
    → get_elem? h.statements d.statement ≡ some s
    → get_elem? h.clause_maps s.clauses ≡ some l
    → view p h ≡ some (s.body, l)
unfolding view statement_of
view-found p h d s l e f g = rw (e, f, g) refl

pub Owned-view :
    (before : Heap) (q : ℕ) (h : Heap) (v : Content) → Owned before q h v → view q h ≡ some v
Owned-view before q h v o =
    view-found q h o.db o.statement v.1 o.found o.stands o.holds ∙ ap (λ b. some (b, v.1)) o.says

pub Owned-later :
    (before : Heap) (q : ℕ) (h k : Heap) (v : Content)
    → Owned before q h v
    → Keeps h k
    → view q k ≡ some v
Owned-later before q h k v o w =
    view-found q k o.db o.statement v.1 (w.dbs _ _ o.found) (w.statements _ _ o.stands)
      (w.clause_maps _ _ o.holds)
    ∙ ap (λ b. some (b, v.1)) o.says

pub Owned-statement :
    (before : Heap) (q : ℕ) (h : Heap) (v : Content) (o : Owned before q h v)
    → statement_of q h ≡ some (o.db.statement, o.statement)
unfolding statement_of
Owned-statement before q h v o = rw (o.found, o.stands) refl

pub Owned-instance :
    (before : Heap) (q : ℕ) (h : Heap) (v : Content)
    → Owned before q h v
    → get_instance q h ≡ some (q, h)
unfolding get_instance instance_at
Owned-instance before q h v o = rw (o.found, o.shared) refl

module _ (bad : ℕ → Bool) where
  -- A call that adds no RETURNING, where `getInstance` gives such a DB: it returns the DB, and writes to nothing else.
  pub perform-instance :
      (c : Call) (before : Heap) (p q a : ℕ) (u : Statement) (h k : Heap) (v : Content)
      → may_share c ≡ false
      → statement_of p h ≡ some (a, u)
      → get_instance p h ≡ some (q, k)
      → Owned before q k v
      → (g : Heap) × (perform bad c p h ≡ some (q, g))
        × Owned before q g (apply bad u.body.distinct c v)
  unfolding perform write_call
  perform-instance c before p q a u h k v apart found made o = (
    write_call bad u.body.distinct c o.db.statement o.statement k,
    rw (apart, found, made, Owned-statement before q k v o) refl,
    record {
      db = o.db;
      statement = record o.statement { body = on_body bad c o.statement.body };
      found = o.found;
      shared = o.shared;
      stands = get_elem?-update_self o.db.statement _ k.statements o.statement o.stands;
      holds = get_elem?-update_self o.statement.clauses _ k.clause_maps _ o.holds;
      says = ap (on_body bad c) o.says;
      new_statement = o.new_statement;
      new_map = o.new_map;
      keeps = record {
        dbs = o.keeps.dbs;
        statements = Within-update _ _ _ _ o.new_statement o.keeps.statements;
        clause_maps = Within-update _ _ _ _ o.new_map o.keeps.clause_maps;
        configs = o.keeps.configs;
      };
    },
  )
