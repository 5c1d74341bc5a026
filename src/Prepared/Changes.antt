-- ===== src/Prepared/Changes.antt =====
-- Every step of a goroutine is a change that keeps the invariant.
use pewter_rinse_moor.Prelude.{
  ℕ, ◌≡◌, refl, sym, ◌≢◌, ◌⊎◌, inl, inr, Bool, true, false, Option, none, some, List, [], ◌∷◌,
  Bytes, arith, equal_bytes, equal_numbers, ◌==◌, Bool-cases,
}
use pewter_rinse_moor.Prepared.{
  Pc, idle, reading, read_waiting, retrying, writing, State, hit, judge, put, remove, r_lock,
  r_unlock, lock, unlock, no_one,
}
use pewter_rinse_moor.Prepared.Steps.{
  Flying, Writes, Reads, IsReady, IsFor, Good, elem, elem-remove, nat_cases, Inv, Change,
  Change-Inv,
}

beq_self : (t : ℕ) → (t == t) ≡ true
beq_self t = ground arith

beq_ne : (u t : ℕ) → u ≢ t → (u == t) ≡ false
beq_ne u t ne = elim (Bool-cases (u == t)) [ inl e ↦ absurd (ne (ground arith)) | inr e ↦ e ]

module _ (s : State) (t : ℕ) (p p' : Pc) where
  -- the new points
  pub points_self : (put s t p').pc t ≡ p'
  points_self = rw (beq_self t) refl

  pub points_other : (v : ℕ) → v ≢ t → (put s t p').pc v ≡ s.pc v
  points_other v ne = rw (beq_ne v t ne) refl

  -- a step that changes no statement
  quiet-Change :
      (w : Option ℕ) (r : List ℕ) (ca : Bytes → Option ℕ)
      → ((i : ℕ) → Flying i p → Flying i p')
      → ((k : Bytes) (id : ℕ) → ca k ≡ some id → s.cache k ≡ some id)
      → ((v : ℕ) → v ≢ t → s.writer ≡ some v → w ≡ some v)
      → ((v : ℕ) → w ≡ some v → ((s.writer ≡ some v) × (v ≢ t)) ⊎ ((v ≡ t) × Writes p'))
      → ((v : ℕ) → elem v r ≡ true → ((elem v s.readers ≡ true) × (v ≢ t)) ⊎ ((v ≡ t) × Reads p'))
      → Good (record (put s t p') { writer = w; readers = r; cache = ca }) t p'
      → Change s (record (put s t p') { writer = w; readers = r; cache = ca }) t p p'
  quiet-Change w r ca flies cache kept from reads good = record {
    pc_self = points_self;
    pc_other = points_other;
    grows = omega arith;
    stmts = λ i lt. inl refl;
    names = λ i lt. (refl, refl);
    opened = λ i lt h. (h, flies i);
    fresh = λ i above lt. absurd (omega arith);
    cached = λ k id e. inl (cache k id e);
    writer_kept = kept;
    writer_from = from;
    readers_from = reads;
    good = good;
  }

  -- a step of a goroutine that holds no lock and takes none
  pub free-Change :
      (ca : Bytes → Option ℕ)
      → Inv s
      → s.pc t ≡ p
      → (Writes p → ⊥)
      → (Reads p → ⊥)
      → ((i : ℕ) → Flying i p → Flying i p')
      → ((k : Bytes) (id : ℕ) → ca k ≡ some id → s.cache k ≡ some id)
      → Good (record (put s t p') { cache = ca }) t p'
      → Change s (record (put s t p') { cache = ca }) t p p'
  free-Change ca inv here no_write no_read flies cache good =
      quiet-Change s.writer s.readers ca flies cache (λ v ne e. e)
        (λ v e. inl (e, λ same. no_write (rw (same, here) at (inv.held v e))))
        (λ v e. inl (e, λ same. no_read (rw (same, here) at (inv.reads v e)))) good

no_one-nil : (w : Option ℕ) (r : List ℕ) → no_one w r ≡ true → (w ≡ none) × (r ≡ [])
no_one-nil none [] h = (refl, refl)
no_one-nil none (x ∷ r) h = absurd (ground arith)
no_one-nil (some w) r h = absurd (ground arith)

-- a statement that a `Get` has waited for, and that serves
pub judge-hit :
    (s : State) (query : Bytes) (tx : Bool) (id i : ℕ)
    → IsFor s query i
    → judge (s.stmts i) tx i ≡ hit id
    → IsReady s query tx id (s.stmts id).prepare_err
unfolding judge
judge-hit s query tx id i (lt, q) h =
    let same : i ≡ id = ground arith in
    record {
      made = rw (sym same) lt;
      same_query = rw (sym same) q;
      prepared = ground arith;
      same_err = refl;
      usable = ground arith;
    }

module _ (s : State) (t : ℕ) (inv : Inv s) where
  -- no lock of a goroutine elsewhere
  pub not_writer : (p : Pc) → s.pc t ≡ p → (Writes p → ⊥) → (v : ℕ) → s.writer ≡ some v → v ≢ t
  not_writer p here outside v e same = outside (rw (same, here) at (inv.held v e))

  pub not_reader : (p : Pc) → s.pc t ≡ p → (Reads p → ⊥) → (v : ℕ) → elem v s.readers ≡ true → v ≢ t
  not_reader p here outside v e same = outside (rw (same, here) at (inv.reads v e))

  pub call-Inv :
      (query : Bytes) (tx : Bool) → s.pc t ≡ idle → Inv (put (r_lock t s) t (reading query tx))
  call-Inv query tx here =
      Change-Inv
        (quiet-Change s t idle (reading query tx) s.writer (t ∷ s.readers) s.cache (λ i f. f)
          (λ k id e. e) (λ v ne e. e) (λ v e. inl (e, not_writer idle here (λ w. w) v e))
          (λ v e. elim (Bool-cases (t == v)) [
            | inl self ↦ inr (ground arith, tt)
            | inr other ↦ inl (ground arith, λ same. ground arith)
          ])
          tt)
        inv here

  module _ (query : Bytes) (tx : Bool) where
    pub read_end-Inv :
        (p p' : Pc)
        → s.pc t ≡ p
        → (Writes p → ⊥)
        → ((i : ℕ) → Flying i p → Flying i p')
        → Good (put (r_unlock t s) t p') t p'
        → Inv (put (r_unlock t s) t p')
    read_end-Inv p p' here outside flies good =
        Change-Inv
          (quiet-Change s t p p' s.writer (remove t s.readers) s.cache flies (λ k id e. e)
            (λ v ne e. e) (λ v e. inl (e, not_writer p here outside v e))
            (λ v e. let (ne, old) = elem-remove v t s.readers e in inl (old, ne)) good)
          inv here

    pub lock-Inv :
        s.pc t ≡ retrying query tx
        → no_one s.writer s.readers ≡ true
        → Inv (put (lock t s) t (writing query tx))
    lock-Inv here free =
        let (w, r) = no_one-nil s.writer s.readers free in
        Change-Inv
          (quiet-Change s t (retrying query tx) (writing query tx) (some t) s.readers s.cache
            (λ i f. f) (λ k id e. e) (λ v ne e. absurd (ground arith))
            (λ v e. inr (ground arith, tt))
            (λ v e. inl (e, not_reader (retrying query tx) here (λ x. x) v e)) refl)
          inv here

    pub write_end-Inv :
        (p p' : Pc)
        → s.pc t ≡ p
        → s.writer ≡ some t
        → (Reads p → ⊥)
        → ((i : ℕ) → Flying i p → Flying i p')
        → Good (put (unlock s) t p') t p'
        → Inv (put (unlock s) t p')
    write_end-Inv p p' here mine outside flies good =
        Change-Inv
          (quiet-Change s t p p' none s.readers s.cache flies (λ k id e. e)
            (λ v ne e. absurd (ne (ground arith))) (λ v e. absurd (ground arith))
            (λ v e. inl (e, not_reader p here outside v e)) good)
          inv here

    -- under the lock for reading, or for writing
    pub stay_read-Inv :
        (id : ℕ)
        → s.pc t ≡ reading query tx
        → IsFor s query id
        → Inv (put s t (read_waiting query tx id))
    stay_read-Inv id here g =
        Change-Inv
          (quiet-Change s t (reading query tx) (read_waiting query tx id) s.writer s.readers s.cache
            (λ i f. f) (λ k id e. e) (λ v ne e. e)
            (λ v e. inl (e, not_writer (reading query tx) here (λ x. x) v e))
            (λ v e. elim (nat_cases v t) [ inl same ↦ inr (same, tt) | inr other ↦ inl (e, other) ])
            g)
          inv here

    pub stay_write-Inv :
        (p p' : Pc)
        → s.pc t ≡ p
        → s.writer ≡ some t
        → (Reads p → ⊥)
        → Writes p'
        → ((i : ℕ) → Flying i p → Flying i p')
        → Good (put s t p') t p'
        → Inv (put s t p')
    stay_write-Inv p p' here mine outside w flies good =
        Change-Inv
          (quiet-Change s t p p' s.writer s.readers s.cache flies (λ k id e. e) (λ v ne e. e)
            (λ v e. inr (ground arith, w)) (λ v e. inl (e, not_reader p here outside v e)) good)
          inv here
