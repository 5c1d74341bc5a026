-- ===== src/Prepared/Tests.antt =====
-- Goroutines 0 and 1 ask for the same query.
use pewter_rinse_moor.Prelude.{
  ℕ, ◌≡◌, refl, inl, inr, Bool, true, false, ◌&&◌, Option, none, some, List, [], ◌∷◌, Bytes, arith,
  equal_bytes, equal_numbers, Option-cases, bytes_beq,
}
use mathlib.Core.Path.{subst}
use mathlib.Core.Option.{some-injective}
use pewter_rinse_moor.Prepared.{
  Stmt, idle, read_waiting, preparing, returned, State, Choice, call, outcome, go, judge, get_read,
  end_read, get_write, end_write, advance_at, is_kept, advance, Reach, start, moved,
}
use pewter_rinse_moor.Prepared.Steps.{IsReady}
use pewter_rinse_moor.Prelude.{codes}
use pewter_rinse_moor.Prepared.Returned.{returned-IsReady}
use pewter_rinse_moor.Prepared.Waiting.{CanMove, waiting-CanMove}
use pewter_rinse_moor.Prepared.Flight.{single_flight}

abbrev no_stmt : Stmt
no_stmt = record {
  query = [];
  is_transaction = false;
  prepared = false;
  prepare_err = none;
  owner = 0;
}

abbrev empty : State
empty = record {
  writer = none;
  readers = [];
  cache = λ k. none;
  stmts = λ i. no_stmt;
  next = 0;
  pc = λ t. idle;
}

abbrev onward : Option State → (State → Option State) → Option State
onward none k = none
onward (some u) k = k u

-- a run
abbrev run : List (ℕ × Choice) → State → Option State
run [] s = some s
run ((t, c) ∷ cs) s = onward (advance s t c) (λ u. run cs u)

-- the run, with every choice allowed
abbrev last : List (ℕ × Choice) → State → State
last cs s = elim (run cs s) [ none ↦ s | some u ↦ u ]

abbrev all_kept : List (ℕ × Choice) → Bool
all_kept [] = true
all_kept ((t, c) ∷ cs) = is_kept c && all_kept cs

run-Reach :
    (cs : List (ℕ × Choice)) (s u : State)
    → all_kept cs ≡ true
    → Reach false s
    → run cs s ≡ some u
    → Reach false u
run-Reach [] s u k r h = subst (Reach false) (some-injective s u h) r
run-Reach ((t, c) ∷ cs) s u k r h = elim (Option-cases (advance s t c)) [
  | inl e ↦ absurd (ground arith)
  | inr (v, e) ↦ run-Reach cs v u (ground arith) (moved r t c (ground arith) e) (rw e at h)
]

empty-Reach : Reach false empty
empty-Reach = start empty refl refl (λ k. refl) refl (λ t. refl)

abbrev q : Bytes
q = codes "SELECT 1"

-- goroutine 0 prepares, and 1 waits with a read lock
abbrev waiting_choices : List (ℕ × Choice)
waiting_choices =
    (0, call q false) ∷ (0, go) ∷ (0, go) ∷ (0, go) ∷ (0, go) ∷ (1, call q false) ∷ (1, go) ∷ []

abbrev waiting : State
waiting = last waiting_choices empty

waiting-Reach : Reach false waiting
unfolding advance advance_at get_read get_write end_read end_write bytes_beq judge codes
waiting-Reach = run-Reach waiting_choices empty waiting refl empty-Reach refl

waiting_pc : (waiting.pc 0 ≡ preparing q false 0) × (waiting.pc 1 ≡ read_waiting q false 0)
unfolding advance advance_at get_read get_write end_read end_write bytes_beq judge codes
waiting_pc = (refl, refl)

waiting_stays : advance waiting 1 go ≡ none
unfolding advance advance_at get_read get_write end_read end_write bytes_beq judge codes
waiting_stays = refl

-- then the preparation fails, and both get the error
abbrev failed_choices : List (ℕ × Choice)
failed_choices = (0, outcome (some 7)) ∷ (0, go) ∷ (0, go) ∷ (1, go) ∷ []

abbrev failed : State
failed = last failed_choices waiting

failed-Reach : Reach false failed
unfolding advance advance_at get_read get_write end_read end_write bytes_beq judge codes
failed-Reach = run-Reach failed_choices waiting failed refl waiting-Reach refl

failed_pc :
    (failed.pc 0 ≡ returned q false 0 (some 7)) × (failed.pc 1 ≡ returned q false 0 (some 7))
unfolding advance advance_at get_read get_write end_read end_write bytes_beq judge codes
failed_pc = (refl, refl)

abbrev the_maker : ℕ
the_maker = 0

returned-IsReady_example : IsReady failed q false 0 (some 7)
returned-IsReady_example = returned-IsReady failed-Reach 1 q false 0 (some 7) failed_pc.1

waiting-CanMove_example : CanMove waiting
waiting-CanMove_example = waiting-CanMove waiting-Reach 1 (rw waiting_pc.1 tt)

single_flight_example : (the_maker ≡ the_maker) × (the_maker ≡ the_maker)
single_flight_example =
    single_flight waiting-Reach q 0 0 0 0 (rw waiting_pc.0 (refl, refl))
      (rw waiting_pc.0 (refl, refl))
