-- ===== src/Prepared/Steps.antt =====
-- What one step of a goroutine changes, and what no step breaks.
use pewter_rinse_moor.Prelude.{
  ℕ, ◌≤◌, ◌<◌, ◌≡◌, sym, ap, ◌∙◌, ◌≢◌, ◌⊎◌, inl, inr, Bool, true, false, not, ◌||◌, Option, none,
  some, List, [], ◌∷◌, Bytes, arith, equal_bytes, equal_numbers, ◌==◌, ltb, ltb→lt, ltb→le,
  Bool-cases, nat_beq,
}
use pewter_rinse_moor.Prepared.{
  Pc, idle, reading, read_waiting, retrying, writing, write_waiting, creating, preparing, failing,
  closing, returned, State, remove,
}

-- the statement that a goroutine makes
abbrev pub Flying : ℕ → Pc → Type 0
Flying id (preparing query tx i) = i ≡ id
Flying id (failing query tx i e) = i ≡ id
Flying id (closing query tx i e) = i ≡ id
Flying id _ = ⊥

abbrev pub Writes : Pc → Type 0
Writes (writing query tx) = Unit
Writes (write_waiting query tx id) = Unit
Writes (creating query tx) = Unit
Writes _ = ⊥

abbrev pub Reads : Pc → Type 0
Reads (reading query tx) = Unit
Reads (read_waiting query tx id) = Unit
Reads _ = ⊥

-- A statement that its owner has not given to others, with the error so far.
pub record IsOwn (s : State) (t : ℕ) (query : Bytes) (tx : Bool) (id : ℕ) (e : Option ℕ)
    : Type 0 where
  pub made : id < s.next
  pub same_query : (s.stmts id).query ≡ query
  pub same_tx : (s.stmts id).is_transaction ≡ tx
  pub unprepared : (s.stmts id).prepared ≡ false
  pub same_err : (s.stmts id).prepare_err ≡ e
  pub owned : (s.stmts id).owner ≡ t

-- A statement that `prepare` returns: prepared for the query, with the error of its preparation, and made
-- in a transaction only for one.
pub record IsReady (s : State) (query : Bytes) (tx : Bool) (id : ℕ) (e : Option ℕ) : Type 0 where
  pub made : id < s.next
  pub same_query : (s.stmts id).query ≡ query
  pub prepared : (s.stmts id).prepared ≡ true
  pub same_err : (s.stmts id).prepare_err ≡ e
  pub usable : (not (s.stmts id).is_transaction || tx) ≡ true

-- A statement for the query.
abbrev pub IsFor : State → Bytes → ℕ → Type 0
IsFor s query id = (id < s.next) × ((s.stmts id).query ≡ query)

-- All are about the statements alone.
module _ (s u : State) (st : u.stmts ≡ s.stmts) (n : u.next ≡ s.next) where
  pub IsOwn-same :
      {t id : ℕ} {query : Bytes} {tx : Bool} {e : Option ℕ}
      → IsOwn s t query tx id e
      → IsOwn u t query tx id e
  IsOwn-same o = record {
    made = rw n o.made;
    same_query = rw st o.same_query;
    same_tx = rw st o.same_tx;
    unprepared = rw st o.unprepared;
    same_err = rw st o.same_err;
    owned = rw st o.owned;
  }

  pub IsReady-same :
      {id : ℕ} {query : Bytes} {tx : Bool} {e : Option ℕ}
      → IsReady s query tx id e
      → IsReady u query tx id e
  IsReady-same r = record {
    made = rw n r.made;
    same_query = rw st r.same_query;
    prepared = rw st r.prepared;
    same_err = rw st r.same_err;
    usable = rw st r.usable;
  }

-- what holds at each point
abbrev pub Good : State → ℕ → Pc → Type 0
Good s t (read_waiting query tx id) = IsFor s query id
Good s t (writing query tx) = s.writer ≡ some t
Good s t (write_waiting query tx id) = (s.writer ≡ some t) × IsFor s query id
Good s t (creating query tx) = s.writer ≡ some t
Good s t (preparing query tx id) = IsOwn s t query tx id none
Good s t (failing query tx id e) = IsOwn s t query tx id (some e)
Good s t (closing query tx id e) = IsOwn s t query tx id e
Good s t (returned query tx id e) = IsReady s query tx id e
Good s t _ = Unit

abbrev pub elem : ℕ → List ℕ → Bool
elem u [] = false
elem u (v ∷ l) = v == u || elem u l

pub elem-remove : (u t : ℕ) (l : List ℕ) → elem u (remove t l) ≡ true → (u ≢ t) × (elem u l ≡ true)
elem-remove u t [] h = absurd (ground arith)
elem-remove u t (v ∷ l) h = elim (Bool-cases (v == t)) [
  | inl same ↦ ground (arith, elem-remove u t l)
  | inr other ↦ ground (arith, elem-remove u t l)
]

pub nat_cases : (a b : ℕ) → (a ≡ b) ⊎ (a ≢ b)
nat_cases a b = elim (Bool-cases (nat_beq a b)) [
  | inl e ↦ inl (ground arith)
  | inr e ↦ inr (λ h. ground arith)
]

pub record Inv (s : State) : Type 0 where
  pub good : (t : ℕ) → Good s t (s.pc t)
  pub flying :
      (id : ℕ) → id < s.next → (s.stmts id).prepared ≡ false → Flying id (s.pc (s.stmts id).owner)
  pub cached : (k : Bytes) (id : ℕ) → s.cache k ≡ some id → IsFor s k id
  pub held : (t : ℕ) → s.writer ≡ some t → Writes (s.pc t)
  pub reads : (t : ℕ) → elem t s.readers ≡ true → Reads (s.pc t)

-- What a step of goroutine `t` from `p` to `p'` changes.
pub record Change (s u : State) (t : ℕ) (p p' : Pc) : Type 0 where
  pub pc_self : u.pc t ≡ p'
  pub pc_other : (v : ℕ) → v ≢ t → u.pc v ≡ s.pc v
  pub grows : s.next ≤ u.next
  pub stmts :
      (i : ℕ)
      → i < s.next
      → (u.stmts i ≡ s.stmts i) ⊎ (((s.stmts i).owner ≡ t) × ((s.stmts i).prepared ≡ false))
  pub names :
      (i : ℕ)
      → i < s.next
      → ((u.stmts i).owner ≡ (s.stmts i).owner) × ((u.stmts i).query ≡ (s.stmts i).query)
  pub opened :
      (i : ℕ)
      → i < s.next
      → (u.stmts i).prepared ≡ false
      → ((s.stmts i).prepared ≡ false) × (Flying i p → Flying i p')
  pub fresh : (i : ℕ) → s.next ≤ i → i < u.next → ((u.stmts i).owner ≡ t) × Flying i p'
  pub cached :
      (k : Bytes) (id : ℕ)
      → u.cache k ≡ some id
      → (s.cache k ≡ some id) ⊎ ((s.next ≤ id) × (id < u.next) × ((u.stmts id).query ≡ k))
  pub writer_kept : (v : ℕ) → v ≢ t → s.writer ≡ some v → u.writer ≡ some v
  pub writer_from :
      (v : ℕ) → u.writer ≡ some v → ((s.writer ≡ some v) × (v ≢ t)) ⊎ ((v ≡ t) × Writes p')
  pub readers_from :
      (v : ℕ)
      → elem v u.readers ≡ true
      → ((elem v s.readers ≡ true) × (v ≢ t)) ⊎ ((v ≡ t) × Reads p')
  pub good : Good u t p'

-- What holds of another goroutine's point stays.
module _ {s u : State} {t : ℕ} {p p' : Pc} (c : Change s u t p p') where
  IsOwn-other :
      {v id : ℕ} {query : Bytes} {tx : Bool} {e : Option ℕ}
      → v ≢ t
      → IsOwn s v query tx id e
      → IsOwn u v query tx id e
  IsOwn-other {v} {id} ne o = elim (c.stmts id o.made) [
    | inl same ↦ record {
      made = omega (arith, c.grows, o.made);
      same_query = ap (λ x. x.query) same ∙ o.same_query;
      same_tx = ap (λ x. x.is_transaction) same ∙ o.same_tx;
      unprepared = ap (λ x. x.prepared) same ∙ o.unprepared;
      same_err = ap (λ x. x.prepare_err) same ∙ o.same_err;
      owned = ap (λ x. x.owner) same ∙ o.owned;
    }
    | inr (mine, h) ↦ absurd (ne (sym o.owned ∙ mine))
  ]

  IsReady-other :
      {id : ℕ} {query : Bytes} {tx : Bool} {e : Option ℕ}
      → IsReady s query tx id e
      → IsReady u query tx id e
  IsReady-other {id} {tx} r = elim (c.stmts id r.made) [
    | inl same ↦ record {
      made = omega (arith, c.grows, r.made);
      same_query = ap (λ x. x.query) same ∙ r.same_query;
      prepared = ap (λ x. x.prepared) same ∙ r.prepared;
      same_err = ap (λ x. x.prepare_err) same ∙ r.same_err;
      usable = ap (λ x. not x.is_transaction || tx) same ∙ r.usable;
    }
    | inr (mine, h) ↦ absurd (ground (arith, r.prepared))
  ]

  IsFor-other : {query : Bytes} {id : ℕ} → IsFor s query id → IsFor u query id
  IsFor-other {query} {id} (lt, q) = (omega (arith, c.grows, lt), (c.names id lt).1 ∙ q)

  Good-other : (v : ℕ) (q : Pc) → v ≢ t → Good s v q → Good u v q
  Good-other v idle ne g = tt
  Good-other v (reading query tx) ne g = tt
  Good-other v (read_waiting query tx id) ne g = IsFor-other g
  Good-other v (retrying query tx) ne g = tt
  Good-other v (writing query tx) ne g = c.writer_kept v ne g
  Good-other v (write_waiting query tx id) ne (w, g) = (c.writer_kept v ne w, IsFor-other g)
  Good-other v (creating query tx) ne g = c.writer_kept v ne g
  Good-other v (preparing query tx id) ne g = IsOwn-other ne g
  Good-other v (failing query tx id e) ne g = IsOwn-other ne g
  Good-other v (closing query tx id e) ne g = IsOwn-other ne g
  Good-other v (returned query tx id e) ne g = IsReady-other g

  module _ (inv : Inv s) (here : s.pc t ≡ p) where
    kept_flying :
        (id : ℕ) → id < u.next → (u.stmts id).prepared ≡ false → Flying id (u.pc (u.stmts id).owner)
    kept_flying id lt h = elim (Bool-cases (ltb id s.next)) [
      | inl below ↦
          let lt_old = ltb→lt id s.next below in
          let (was, on) = c.opened id lt_old h in
          let f = inv.flying id lt_old was in
          elim (nat_cases (s.stmts id).owner t) [
            | inl mine ↦ rw ((c.names id lt_old).0, mine, c.pc_self) (on (rw (mine, here) at f))
            | inr other ↦ rw ((c.names id lt_old).0, c.pc_other (s.stmts id).owner other) f
          ]
      | inr above ↦ let (mine, f) = c.fresh id (ltb→le id s.next above) lt in rw (mine, c.pc_self) f
    ]

    pub Change-Inv : Inv u
    Change-Inv = record {
      good = λ v. elim (nat_cases v t) [
        | inl self ↦ rw (self, c.pc_self) c.good
        | inr other ↦ rw (c.pc_other v other) (Good-other v (s.pc v) other (inv.good v))
      ];
      flying = kept_flying;
      cached = λ k id e. elim (c.cached k id e) [
        | inl old ↦ IsFor-other (inv.cached k id old)
        | inr (above, lt, q) ↦ (lt, q)
      ];
      held = λ v e. elim (c.writer_from v e) [
        | inl (old, other) ↦ rw (c.pc_other v other) (inv.held v old)
        | inr (self, w) ↦ rw (self, c.pc_self) w
      ];
      reads = λ v e. elim (c.readers_from v e) [
        | inl (old, other) ↦ rw (c.pc_other v other) (inv.reads v old)
        | inr (self, w) ↦ rw (self, c.pc_self) w
      ];
    }
