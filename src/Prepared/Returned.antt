-- ===== src/Prepared/Returned.antt =====
-- What `prepare` returns, in every state that the goroutines can reach.
use pewter_rinse_moor.Prelude.{
  ℕ, ◌≡◌, refl, inl, inr, Bool, true, false, Option, none, some, [], Bytes, arith, equal_bytes,
  equal_numbers, Bool-cases,
}
use mathlib.Core.Path.{subst}
use mathlib.Core.Option.{some-injective}
use pewter_rinse_moor.Prepared.{
  Pc, idle, reading, read_waiting, retrying, writing, write_waiting, creating, preparing, failing,
  closing, returned, State, Choice, call, outcome, run_on, go, Found, wait, hit, miss, judge,
  delete, no_one, is_free, get_read, end_read, get_write, end_write, advance_at, advance, Reach,
  start, moved, dropped,
}
use pewter_rinse_moor.Prepared.Steps.{
  IsOwn, IsReady, IsFor, Good, IsOwn-same, IsReady-same, Inv, Change-Inv,
}
use pewter_rinse_moor.Prepared.Changes.{
  call-Inv, read_end-Inv, lock-Inv, write_end-Inv, stay_read-Inv, stay_write-Inv, free-Change,
  judge-hit,
}
use pewter_rinse_moor.Prepared.Made.{set_new-Inv, set_err-Inv, close-Inv}

subst_Inv : {s u : State} → some s ≡ some u → Inv s → Inv u
subst_Inv {s} {u} e inv = subst Inv (some-injective s u e) inv

module _ (s u : State) (t : ℕ) (inv : Inv s) (query : Bytes) (tx : Bool) where
  get_read-Inv :
      (found : Option ℕ)
      → s.pc t ≡ reading query tx
      → s.cache query ≡ found
      → some (get_read s t query tx found) ≡ some u
      → Inv u
  unfolding get_read
  get_read-Inv none here e h = subst_Inv h (
      read_end-Inv s t inv query tx (reading query tx) (retrying query tx) here (λ x. x) (λ i x. x)
        tt)
  get_read-Inv (some id) here e h =
      subst_Inv h (stay_read-Inv s t inv query tx id here (inv.cached query id e))

  end_read-Inv :
      (i : ℕ) (f : Found)
      → s.pc t ≡ read_waiting query tx i
      → judge (s.stmts i) tx i ≡ f
      → end_read s t query tx f ≡ some u
      → Inv u
  unfolding end_read
  end_read-Inv i wait here e h = absurd (ground arith)
  end_read-Inv i (hit id) here e h =
      let r = judge-hit s query tx id i (rw here at (inv.good t)) e in
      subst_Inv h (
        read_end-Inv s t inv query tx (read_waiting query tx i)
          (returned query tx id (s.stmts id).prepare_err) here (λ x. x) (λ i x. absurd x)
          (IsReady-same s _ refl refl r))
  end_read-Inv i miss here e h = subst_Inv h (
      read_end-Inv s t inv query tx (read_waiting query tx i) (retrying query tx) here (λ x. x)
        (λ i x. x) tt)

  get_write-Inv :
      (found : Option ℕ)
      → s.pc t ≡ writing query tx
      → s.cache query ≡ found
      → some (get_write s t query tx found) ≡ some u
      → Inv u
  unfolding get_write
  get_write-Inv none here e h =
      let mine : s.writer ≡ some t = rw here at (inv.good t) in
      subst_Inv h (
        stay_write-Inv s t inv query tx (writing query tx) (creating query tx) here mine (λ x. x) tt
          (λ i x. x) mine)
  get_write-Inv (some id) here e h =
      let mine : s.writer ≡ some t = rw here at (inv.good t) in
      subst_Inv h (
        stay_write-Inv s t inv query tx (writing query tx) (write_waiting query tx id) here mine
          (λ x. x) tt (λ i x. x) (mine, inv.cached query id e))

  end_write-Inv :
      (i : ℕ) (f : Found)
      → s.pc t ≡ write_waiting query tx i
      → judge (s.stmts i) tx i ≡ f
      → end_write s t query tx f ≡ some u
      → Inv u
  unfolding end_write
  end_write-Inv i wait here e h = absurd (ground arith)
  end_write-Inv i (hit id) here e h =
      let (mine, for) : (s.writer ≡ some t) × IsFor s query i = rw here at (inv.good t) in
      let r = judge-hit s query tx id i for e in
      subst_Inv h (
        write_end-Inv s t inv query tx (write_waiting query tx i)
          (returned query tx id (s.stmts id).prepare_err) here mine (λ x. x) (λ i x. absurd x)
          (IsReady-same s _ refl refl r))
  end_write-Inv i miss here e h =
      let (mine, for) : (s.writer ≡ some t) × IsFor s query i = rw here at (inv.good t) in
      subst_Inv h (
        stay_write-Inv s t inv query tx (write_waiting query tx i) (creating query tx) here mine
          (λ x. x) tt (λ i x. x) mine)

delete-cache :
    (s : State) (query k : Bytes) (id : ℕ)
    → (delete query s).cache k ≡ some id
    → s.cache k ≡ some id
delete-cache s query k id e = ground arith

module _ (s u : State) (t : ℕ) (inv : Inv s) where
  advance_at-Inv : (p : Pc) (c : Choice) → s.pc t ≡ p → advance_at s t p c ≡ some u → Inv u
  unfolding advance_at
  advance_at-Inv idle (call query tx) here h = elim (Bool-cases (is_free s.writer)) [
    | inl free ↦ subst_Inv (rw free at h) (call-Inv s t inv query tx here)
    | inr held ↦ absurd (ground arith)
  ]
  advance_at-Inv (reading query tx) go here h =
      get_read-Inv s u t inv query tx (s.cache query) here refl h
  advance_at-Inv (read_waiting query tx id) go here h =
      end_read-Inv s u t inv query tx id (judge (s.stmts id) tx id) here refl h
  advance_at-Inv (retrying query tx) go here h = elim (Bool-cases (no_one s.writer s.readers)) [
    | inl free ↦ subst_Inv (rw free at h) (lock-Inv s t inv query tx here free)
    | inr held ↦ absurd (ground arith)
  ]
  advance_at-Inv (writing query tx) go here h =
      get_write-Inv s u t inv query tx (s.cache query) here refl h
  advance_at-Inv (write_waiting query tx id) go here h =
      end_write-Inv s u t inv query tx id (judge (s.stmts id) tx id) here refl h
  advance_at-Inv (creating query tx) go here h = subst_Inv h (set_new-Inv s t inv query tx here)
  advance_at-Inv (preparing query tx id) (outcome none) here h =
      let own : IsOwn s t query tx id none = rw here at (inv.good t) in
      subst_Inv h (
        Change-Inv
          (free-Change s t (preparing query tx id) (closing query tx id none) s.cache inv here
            (λ x. x) (λ x. x) (λ i f. f) (λ k i e. e) (IsOwn-same s _ refl refl own))
          inv here)
  advance_at-Inv (preparing query tx id) (outcome (some e)) here h =
      subst_Inv h (set_err-Inv s t inv query tx id e here)
  advance_at-Inv (failing query tx id e) go here h =
      let own : IsOwn s t query tx id (some e) = rw here at (inv.good t) in
      subst_Inv h (
        Change-Inv
          (free-Change s t (failing query tx id e) (closing query tx id (some e))
            (delete query s).cache inv here (λ x. x) (λ x. x) (λ i f. f) (delete-cache s query)
            (IsOwn-same s _ refl refl own))
          inv here)
  advance_at-Inv (closing query tx id err) go here h =
      subst_Inv h (close-Inv s t inv query tx id err here)
  advance_at-Inv (returned query tx id none) (run_on true) here h = subst_Inv h (
      Change-Inv
        (free-Change s t (returned query tx id none) idle (delete query s).cache inv here (λ x. x)
          (λ x. x) (λ i f. f) (delete-cache s query) tt)
        inv here)
  advance_at-Inv (returned query tx id none) (run_on false) here h = subst_Inv h (
      Change-Inv
        (free-Change s t (returned query tx id none) idle s.cache inv here (λ x. x) (λ x. x)
          (λ i f. f) (λ k i e. e) tt)
        inv here)
  advance_at-Inv (returned query tx id (some e)) go here h = subst_Inv h (
      Change-Inv
        (free-Change s t (returned query tx id (some e)) idle s.cache inv here (λ x. x) (λ x. x)
          (λ i f. f) (λ k i e. e) tt)
        inv here)
  advance_at-Inv p c here h = absurd (ground arith)

pub advance-Inv : (s u : State) (t : ℕ) (c : Choice) → Inv s → advance s t c ≡ some u → Inv u
unfolding advance
advance-Inv s u t c inv h = advance_at-Inv s u t inv (s.pc t) c refl h

Good-delete : (s : State) (k : Bytes) (t : ℕ) (p : Pc) → Good s t p → Good (delete k s) t p
Good-delete s k t idle g = g
Good-delete s k t (reading query tx) g = g
Good-delete s k t (read_waiting query tx id) g = g
Good-delete s k t (retrying query tx) g = g
Good-delete s k t (writing query tx) g = g
Good-delete s k t (write_waiting query tx id) g = g
Good-delete s k t (creating query tx) g = g
Good-delete s k t (preparing query tx id) g = IsOwn-same s _ refl refl g
Good-delete s k t (failing query tx id e) g = IsOwn-same s _ refl refl g
Good-delete s k t (closing query tx id e) g = IsOwn-same s _ refl refl g
Good-delete s k t (returned query tx id e) g = IsReady-same s _ refl refl g

pub delete-Inv : (s : State) (k : Bytes) → Inv s → Inv (delete k s)
delete-Inv s k inv = record {
  good = λ t. Good-delete s k t (s.pc t) (inv.good t);
  flying = inv.flying;
  cached = λ q id e. inv.cached q id (delete-cache s k q id e);
  held = inv.held;
  reads = inv.reads;
}

start-Inv :
    (s : State)
    → s.writer ≡ none
    → s.readers ≡ []
    → ((k : Bytes) → s.cache k ≡ none)
    → s.next ≡ 0
    → ((t : ℕ) → s.pc t ≡ idle)
    → Inv s
start-Inv s w r c n p = record {
  good = λ t. rw (p t) tt;
  flying = λ id lt e. absurd (omega arith);
  cached = λ k id e. absurd (ground (arith, c k));
  held = λ t e. absurd (ground arith);
  reads = λ t e. absurd (ground arith);
}

pub Reach-Inv : {drops : Bool} {s : State} → Reach drops s → Inv s
Reach-Inv (start s w r c n p) = start-Inv s w r c n p
Reach-Inv (moved {s} {u} reach t c k h) = advance-Inv s u t c (Reach-Inv reach) h
Reach-Inv (dropped {s} reach e k) = delete-Inv s k (Reach-Inv reach)

-- Whatever the goroutines do and whatever the cache drops: a statement that `prepare` returns has been
-- made for the query that was asked for, its preparation has ended, with the error that is
-- returned, and if it was made in a transaction then the caller is in one.
pub returned-IsReady :
    {drops : Bool} {s : State}
    → Reach drops s
    → (t : ℕ) (query : Bytes) (tx : Bool) (id : ℕ) (e : Option ℕ) → s.pc t ≡ returned query tx id e
    → IsReady s query tx id e
returned-IsReady {s} reach t query tx id e h = rw h at ((Reach-Inv reach).good t)
