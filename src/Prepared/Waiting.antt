-- ===== src/Prepared/Waiting.antt =====
-- Goroutines wait for the lock and for one another, and never all of them for ever.
use pewter_rinse_moor.Prelude.{
  ℕ, ◌≡◌, refl, inl, inr, Bool, false, none, some, List, [], ◌∷◌, Bytes, arith, equal_bytes,
  equal_numbers, Bool-cases, Option-cases,
}
use pewter_rinse_moor.Prepared.{
  Pc, idle, reading, read_waiting, retrying, writing, write_waiting, creating, preparing, failing,
  closing, returned, State, Choice, outcome, go, Found, wait, hit, miss, judge, put, r_unlock, lock,
  unlock, delete, set_new, close, no_one, get_read, end_read, get_write, end_write, advance_at,
  advance, Reach,
}
use pewter_rinse_moor.Prepared.Steps.{Flying, Writes, Reads, IsFor, Inv}
use pewter_rinse_moor.Prepared.Returned.{Reach-Inv}

-- within `prepare`
abbrev pub Inside : Pc → Type 0
Inside idle = ⊥
Inside (returned query tx id e) = ⊥
Inside _ = Unit

-- Some goroutine within `prepare` can make a step.
abbrev pub CanMove : State → Type 0
CanMove s = (t : ℕ) × (c : Choice) × (u : State) × Inside (s.pc t) × (advance s t c ≡ some u)

module _ (s : State) (inv : Inv s) where
  -- the one that makes a statement
  flying-CanMove : (t id : ℕ) (p : Pc) → s.pc t ≡ p → Flying id p → CanMove s
  unfolding advance advance_at
  flying-CanMove t id (preparing query tx i) here f =
      (t, outcome none, put s t (closing query tx i none), rw here tt, rw (advance, here) refl)
  flying-CanMove t id (failing query tx i e) here f = (
    t,
    go,
    put (delete query s) t (closing query tx i (some e)),
    rw here tt,
    rw (advance, here) refl,
  )
  flying-CanMove t id (closing query tx i e) here f =
      (t, go, put (close i s) t (returned query tx i e), rw here tt, rw (advance, here) refl)
  flying-CanMove t id p here f = absurd f

  -- A goroutine that waits for a statement waits for one that is being made.
  wait-CanMove :
      (query : Bytes) (tx : Bool) (id : ℕ)
      → IsFor s query id
      → judge (s.stmts id) tx id ≡ wait
      → CanMove s
  unfolding judge
  wait-CanMove query tx id (lt, q) h =
      flying-CanMove (s.stmts id).owner id (s.pc (s.stmts id).owner) refl
        (inv.flying id lt (ground arith))

  -- a reader
  reading-CanMove : (t : ℕ) (p : Pc) → s.pc t ≡ p → Reads p → CanMove s
  unfolding advance advance_at end_read
  reading-CanMove t (reading query tx) here r =
      (t, go, get_read s t query tx (s.cache query), rw here tt, rw (advance, here) refl)
  reading-CanMove t (read_waiting query tx i) here r = of_found (judge (s.stmts i) tx i) refl
    where
      of_found : (f : Found) → judge (s.stmts i) tx i ≡ f → CanMove s
      of_found wait e = wait-CanMove query tx i (rw here at (inv.good t)) e
      of_found (hit id) e = (
        t,
        go,
        put (r_unlock t s) t (returned query tx id (s.stmts id).prepare_err),
        rw here tt,
        rw (advance, here, e) refl,
      )
      of_found miss e =
          (t, go, put (r_unlock t s) t (retrying query tx), rw here tt, rw (advance, here, e) refl)
  reading-CanMove t p here r = absurd r

  -- the writer
  writing-CanMove : (t : ℕ) (p : Pc) → s.pc t ≡ p → Writes p → CanMove s
  unfolding advance advance_at end_write
  writing-CanMove t (writing query tx) here r =
      (t, go, get_write s t query tx (s.cache query), rw here tt, rw (advance, here) refl)
  writing-CanMove t (write_waiting query tx i) here r = of_found (judge (s.stmts i) tx i) refl
    where
      serves : (s.writer ≡ some t) × IsFor s query i
      serves = rw here at (inv.good t)

      of_found : (f : Found) → judge (s.stmts i) tx i ≡ f → CanMove s
      of_found wait e = wait-CanMove query tx i serves.1 e
      of_found (hit id) e = (
        t,
        go,
        put (unlock s) t (returned query tx id (s.stmts id).prepare_err),
        rw here tt,
        rw (advance, here, e) refl,
      )
      of_found miss e = (t, go, put s t (creating query tx), rw here tt, rw (advance, here, e) refl)
  writing-CanMove t (creating query tx) here r = (
    t,
    go,
    put (unlock (set_new query tx t s)) t (preparing query tx s.next),
    rw here tt,
    rw (advance, here) refl,
  )
  writing-CanMove t p here r = absurd r

  -- whoever has the lock
  holder-CanMove : (t : ℕ) → s.writer ≡ some t → CanMove s
  holder-CanMove t e = writing-CanMove t (s.pc t) refl (inv.held t e)

  reader-CanMove : (r : List ℕ) → s.readers ≡ r → no_one none r ≡ false → CanMove s
  reader-CanMove [] e h = absurd (ground arith)
  reader-CanMove (v ∷ r) e h = reading-CanMove v (s.pc v) refl (inv.reads v (rw e (ground arith)))

  -- a goroutine that wants to write
  retrying-CanMove : (t : ℕ) (query : Bytes) (tx : Bool) → s.pc t ≡ retrying query tx → CanMove s
  unfolding advance advance_at
  retrying-CanMove t query tx here = elim (Option-cases s.writer) [
    | inr (v, held) ↦ holder-CanMove v held
    | inl nobody ↦ elim (Bool-cases (no_one none s.readers)) [
      | inl free ↦ (
        t,
        go,
        put (lock t s) t (writing query tx),
        rw here tt,
        rw (advance, here, nobody, free) refl,
      )
      | inr busy ↦ reader-CanMove s.readers refl busy
    ]
  ]

  Inside-CanMove : (t : ℕ) (p : Pc) → s.pc t ≡ p → Inside p → CanMove s
  Inside-CanMove t idle here i = absurd i
  Inside-CanMove t (reading query tx) here i = reading-CanMove t (reading query tx) here tt
  Inside-CanMove t (read_waiting query tx id) here i =
      reading-CanMove t (read_waiting query tx id) here tt
  Inside-CanMove t (retrying query tx) here i = retrying-CanMove t query tx here
  Inside-CanMove t (writing query tx) here i = writing-CanMove t (writing query tx) here tt
  Inside-CanMove t (write_waiting query tx id) here i =
      writing-CanMove t (write_waiting query tx id) here tt
  Inside-CanMove t (creating query tx) here i = writing-CanMove t (creating query tx) here tt
  Inside-CanMove t (preparing query tx id) here i =
      flying-CanMove t id (preparing query tx id) here refl
  Inside-CanMove t (failing query tx id e) here i =
      flying-CanMove t id (failing query tx id e) here refl
  Inside-CanMove t (closing query tx id e) here i =
      flying-CanMove t id (closing query tx id e) here refl
  Inside-CanMove t (returned query tx id e) here i = absurd i

-- Goroutines never lock one another out: in every state that they reach, while a goroutine is within
-- `prepare`, waiting or not, there is one within `prepare` that can make a step.
pub waiting-CanMove :
    {drops : Bool} {s : State} → Reach drops s → (t : ℕ) → Inside (s.pc t) → CanMove s
waiting-CanMove {s} reach t i = Inside-CanMove s (Reach-Inv reach) t (s.pc t) refl i
