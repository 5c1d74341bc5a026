-- ===== src/Prepared/Flight.antt =====
-- While the cache loses nothing, a query is prepared by one goroutine at a time.
use pewter_rinse_moor.Prelude.{
  ℕ, ◌+◌, ◌<◌, ◌≡◌, refl, sym, ap, ◌∙◌, ◌⊎◌, inl, inr, Bool, true, false, Option, none, some, List,
  ◌∷◌, Bytes, arith, equal_bytes, equal_numbers, ◌==◌, Bool-cases, bytes_beq_iff, bytes_beq_refl,
}
use mathlib.Core.Path.{subst}
use mathlib.Core.Option.{some-injective}
use pewter_rinse_moor.Prepared.{
  Stmt, Pc, idle, reading, read_waiting, retrying, writing, write_waiting, creating, preparing,
  failing, closing, returned, State, Choice, call, outcome, run_on, go, Found, wait, hit, miss,
  judge, put, remove, unlock, delete, set_new, set_err, close, no_one, is_free, get_read, end_read,
  get_write, end_write, advance_at, is_kept, advance, Reach, start, moved, dropped,
}
use pewter_rinse_moor.Prepared.Steps.{Good, nat_cases, Inv}
use pewter_rinse_moor.Prepared.Returned.{Reach-Inv}
use pewter_rinse_moor.Prepared.Changes.{points_self, points_other}

-- in `PrepareContext`, or before the `Delete` behind it
abbrev pub Preps : Bytes → ℕ → Pc → Type 0
Preps q id (preparing query tx i) = (query ≡ q) × (i ≡ id)
Preps q id (failing query tx i e) = (query ≡ q) × (i ≡ id)
Preps q id _ = ⊥

abbrev Fails : Bytes → Pc → Type 0
Fails q (failing query tx i e) = query ≡ q
Fails q _ = ⊥

abbrev Creates : Bytes → Pc → Type 0
Creates q (creating query tx) = query ≡ q
Creates q _ = ⊥

abbrev WaitsFor : Bytes → ℕ → Pc → Type 0
WaitsFor q id (write_waiting query tx i) = (query ≡ q) × (i ≡ id)
WaitsFor q id _ = ⊥

Preps-own :
    (s : State) (t : ℕ) (q : Bytes) (id : ℕ) (p : Pc)
    → Good s t p
    → Preps q id p
    → ((s.stmts id).owner ≡ t) × ((s.stmts id).prepared ≡ false)
Preps-own s t q id (preparing query tx i) g (e, h) = (rw (sym h) g.owned, rw (sym h) g.unprepared)
Preps-own s t q id (failing query tx i x) g (e, h) = (rw (sym h) g.owned, rw (sym h) g.unprepared)
Preps-own s t q id p g h = absurd h

Fails-Preps : (q : Bytes) (p : Pc) → Fails q p → (id : ℕ) × Preps q id p
Fails-Preps q (failing query tx i e) h = (i, (h, refl))
Fails-Preps q p h = absurd h

Creates-writer :
    (s : State) (t : ℕ) (q : Bytes) (p : Pc) → Good s t p → Creates q p → s.writer ≡ some t
Creates-writer s t q (creating query tx) g h = g
Creates-writer s t q p g h = absurd h

WaitsFor-writer :
    (s : State) (t : ℕ) (q : Bytes) (id : ℕ) (p : Pc)
    → Good s t p
    → WaitsFor q id p
    → s.writer ≡ some t
WaitsFor-writer s t q id (write_waiting query tx i) g h = g.0
WaitsFor-writer s t q id p g h = absurd h

-- A statement that is being prepared is in the cache; what is found under the lock stays until it is
-- replaced, and is replaced only when it is prepared.
record Flight (s : State) : Type 0 where
  pub sole : (t : ℕ) (q : Bytes) (id : ℕ) → Preps q id (s.pc t) → s.cache q ≡ some id
  pub waits :
      (t : ℕ) (q : Bytes) (i : ℕ) → WaitsFor q i (s.pc t) → (id : ℕ) → s.cache q ≡ some id → id ≡ i
  pub alone :
      (t : ℕ) (q : Bytes)
      → Creates q (s.pc t)
      → (id : ℕ) → s.cache q ≡ some id
      → (s.stmts id).prepared ≡ true

same_holder : (a b : ℕ) (w : Option ℕ) → w ≡ some a → w ≡ some b → a ≡ b
same_holder a b w h k = some-injective a b (sym h ∙ k)

module _ (s : State) (inv : Inv s) (f : Flight s) where
  -- two goroutines that prepare the same query
  same_flight : (q : Bytes) (t v i j : ℕ) → Preps q i (s.pc t) → Preps q j (s.pc v) → t ≡ v
  same_flight q t v i j h k =
      let same : i ≡ j = same_holder i j (s.cache q) (f.sole t q i h) (f.sole v q j k) in
      sym (Preps-own s t q i (s.pc t) (inv.good t) h).0
      ∙ rw same (Preps-own s v q j (s.pc v) (inv.good v) k).0

  -- A step of goroutine `t` from `p` to `p'` keeps all this, if its own part holds, and if it replaces only
  -- when it creates, and removes only when it has failed.
  module _ (t : ℕ) (p p' : Pc) (here : s.pc t ≡ p) (w : Option ℕ) (r : List ℕ) where
    step-Flight :
        (ca : Bytes → Option ℕ) (st : ℕ → Stmt) (n : ℕ)
        → ((q : Bytes) (id : ℕ)
            → s.cache q ≡ some id
            → (ca q ≡ some id) ⊎ (Creates q p ⊎ Fails q p))
        → ((q : Bytes) (id : ℕ) → ca q ≡ some id → (s.cache q ≡ some id) ⊎ Creates q p)
        → ((id : ℕ) → id < s.next → (s.stmts id).prepared ≡ true → (st id).prepared ≡ true)
        → ((q : Bytes) (id : ℕ) → Preps q id p' → ca q ≡ some id)
        → ((q : Bytes) (i : ℕ) → WaitsFor q i p' → (id : ℕ) → ca q ≡ some id → id ≡ i)
        → ((q : Bytes) → Creates q p' → (id : ℕ) → ca q ≡ some id → (st id).prepared ≡ true)
        → Flight (record (put s t p') { writer = w; readers = r; cache = ca; stmts = st; next = n })
    step-Flight ca st n kept from stays preps waits alone = record {
      sole = λ v q id h. elim (nat_cases v t) [
        | inl self ↦ preps q id (rw (self, points_self s t p p') at h)
        | inr other ↦
            let h = rw (points_other s t p p' v other) at h in
            let old = f.sole v q id h in
            elim (kept q id old) [
              | inl e ↦ e
              | inr (inl c) ↦
                  let done = f.alone t q (rw here c) id old in
                  let undone = (Preps-own s v q id (s.pc v) (inv.good v) h).1 in
                  absurd (ground arith)
              | inr (inr c) ↦
                  let (i, k) = Fails-Preps q p c in
                  absurd (other (same_flight q v t id i h (rw here k)))
            ]
      ];
      waits = λ v q i h id e. elim (nat_cases v t) [
        | inl self ↦ waits q i (rw (self, points_self s t p p') at h) id e
        | inr other ↦
            let h = rw (points_other s t p p' v other) at h in
            elim (from q id e) [
              | inl old ↦ f.waits v q i h id old
              | inr c ↦ absurd (
                  other (
                    same_holder v t s.writer (WaitsFor-writer s v q i (s.pc v) (inv.good v) h)
                      (Creates-writer s t q p (rw here at (inv.good t)) c)))
            ]
      ];
      alone = λ v q h id e. elim (nat_cases v t) [
        | inl self ↦ alone q (rw (self, points_self s t p p') at h) id e
        | inr other ↦
            let h = rw (points_other s t p p' v other) at h in
            elim (from q id e) [
              | inl old ↦ stays id (inv.cached q id old).0 (f.alone v q h id old)
              | inr c ↦ absurd (
                  other (
                    same_holder v t s.writer (Creates-writer s v q (s.pc v) (inv.good v) h)
                      (Creates-writer s t q p (rw here at (inv.good t)) c)))
            ]
      ];
    }

    -- a step that leaves the cache and the statements
    still-Flight :
        (n : ℕ)
        → ((q : Bytes) (id : ℕ) → Preps q id p' → s.cache q ≡ some id)
        → ((q : Bytes) (i : ℕ) → WaitsFor q i p' → (id : ℕ) → s.cache q ≡ some id → id ≡ i)
        → ((q : Bytes)
            → Creates q p'
            → (id : ℕ) → s.cache q ≡ some id
            → (s.stmts id).prepared ≡ true)
        → Flight (record (put s t p') {
          writer = w;
          readers = r;
          cache = s.cache;
          stmts = s.stmts;
          next = n;
        })
    still-Flight n preps waits alone =
        step-Flight s.cache s.stmts n (λ q id e. inl e) (λ q id e. inl e) (λ id lt e. e) preps waits
          alone

  module _ (t : ℕ) (query : Bytes) (tx : Bool) where
    set_new-Flight :
        s.pc t ≡ creating query tx
        → Flight (put (unlock (set_new query tx t s)) t (preparing query tx s.next))
    set_new-Flight here =
        step-Flight t (creating query tx) (preparing query tx s.next) here none s.readers
          (set_new query tx t s).cache (set_new query tx t s).stmts (s.next + 1)
          (λ q id e. elim (Bool-cases (q == query)) [
            | inl same ↦ inr (inl (sym ((bytes_beq_iff q query).0 same)))
            | inr other ↦ inl (rw other e)
          ])
          (λ q id e. elim (Bool-cases (q == query)) [
            | inl same ↦ inr (sym ((bytes_beq_iff q query).0 same))
            | inr other ↦ inl (ground arith)
          ])
          (λ id lt e. ground arith) (λ q id h. rw (h.0, bytes_beq_refl q, h.1) refl)
          (λ q i h. absurd h) (λ q h. absurd h)

    module _ (id : ℕ) where
      set_err-Flight :
          (e : ℕ)
          → s.pc t ≡ preparing query tx id
          → Flight (put (set_err id e s) t (failing query tx id e))
      set_err-Flight e here =
          step-Flight t (preparing query tx id) (failing query tx id e) here s.writer s.readers
            s.cache (set_err id e s).stmts s.next (λ q i h. inl h) (λ q i h. inl h)
            (λ i lt h. ground arith) (λ q i h. f.sole t q i (rw here h)) (λ q i h. absurd h)
            (λ q h. absurd h)

      fail-Flight :
          (e : ℕ)
          → s.pc t ≡ failing query tx id e
          → Flight (put (delete query s) t (closing query tx id (some e)))
      fail-Flight e here =
          step-Flight t (failing query tx id e) (closing query tx id (some e)) here s.writer
            s.readers (delete query s).cache s.stmts s.next
            (λ q i h. elim (Bool-cases (q == query)) [
              | inl same ↦ inr (inr (sym ((bytes_beq_iff q query).0 same)))
              | inr other ↦ inl (rw other h)
            ])
            (λ q i h. inl (ground arith)) (λ i lt h. h) (λ q i h. absurd h) (λ q i h. absurd h)
            (λ q h. absurd h)

      close-Flight :
          (e : Option ℕ)
          → s.pc t ≡ closing query tx id e
          → Flight (put (close id s) t (returned query tx id e))
      close-Flight e here =
          step-Flight t (closing query tx id e) (returned query tx id e) here s.writer s.readers
            s.cache (close id s).stmts s.next (λ q i h. inl h) (λ q i h. inl h)
            (λ i lt h. ground arith) (λ q i h. absurd h) (λ q i h. absurd h) (λ q h. absurd h)

subst_Flight : {s u : State} → some s ≡ some u → Flight s → Flight u
subst_Flight {s} {u} e f = subst Flight (some-injective s u e) f

judge-miss : (m : Stmt) (tx : Bool) (i : ℕ) → judge m tx i ≡ miss → m.prepared ≡ true
unfolding judge
judge-miss m tx i h = ground arith

module _ (s u : State) (t : ℕ) (inv : Inv s) (f : Flight s) where
  -- a step after which the goroutine makes nothing
  module _ (p p' : Pc) (here : s.pc t ≡ p) (w : Option ℕ) (r : List ℕ) where
    out-Flight :
        ((q : Bytes) (i : ℕ) → Preps q i p' → ⊥)
        → ((q : Bytes) (i : ℕ) → WaitsFor q i p' → ⊥)
        → ((q : Bytes) → Creates q p' → ⊥)
        → some (record (put s t p') { writer = w; readers = r }) ≡ some u
        → Flight u
    out-Flight a b c h = subst_Flight h (
        still-Flight s inv f t p p' here w r s.next (λ q i x. absurd (a q i x))
          (λ q i x. absurd (b q i x)) (λ q x. absurd (c q x)))

  module _ (query : Bytes) (tx : Bool) where
    get_read-Flight :
        (found : Option ℕ)
        → s.pc t ≡ reading query tx
        → some (get_read s t query tx found) ≡ some u
        → Flight u
    unfolding get_read
    get_read-Flight none here h =
        out-Flight (reading query tx) (retrying query tx) here s.writer (remove t s.readers)
          (λ q i x. x) (λ q i x. x) (λ q x. x) h
    get_read-Flight (some id) here h =
        out-Flight (reading query tx) (read_waiting query tx id) here s.writer s.readers
          (λ q i x. x) (λ q i x. x) (λ q x. x) h

    end_read-Flight :
        (i : ℕ) (found : Found)
        → s.pc t ≡ read_waiting query tx i
        → end_read s t query tx found ≡ some u
        → Flight u
    unfolding end_read
    end_read-Flight i wait here h = absurd (ground arith)
    end_read-Flight i (hit id) here h =
        out-Flight (read_waiting query tx i) (returned query tx id (s.stmts id).prepare_err) here
          s.writer (remove t s.readers) (λ q i x. x) (λ q i x. x) (λ q x. x) h
    end_read-Flight i miss here h =
        out-Flight (read_waiting query tx i) (retrying query tx) here s.writer (remove t s.readers)
          (λ q i x. x) (λ q i x. x) (λ q x. x) h

    get_write-Flight :
        (found : Option ℕ)
        → s.pc t ≡ writing query tx
        → s.cache query ≡ found
        → some (get_write s t query tx found) ≡ some u
        → Flight u
    unfolding get_write
    get_write-Flight none here e h = subst_Flight h (
        still-Flight s inv f t (writing query tx) (creating query tx) here s.writer s.readers s.next
          (λ q i x. absurd x) (λ q i x. absurd x)
          (λ q same id k. absurd (ground (arith, rw same at e))))
    get_write-Flight (some i) here e h = subst_Flight h (
        still-Flight s inv f t (writing query tx) (write_waiting query tx i) here s.writer s.readers
          s.next (λ q i x. absurd x)
          (λ q j (same, k) id x. some-injective id i (sym x ∙ ap s.cache (sym same) ∙ e) ∙ k)
          (λ q x. absurd x))

    end_write-Flight :
        (i : ℕ) (found : Found)
        → s.pc t ≡ write_waiting query tx i
        → judge (s.stmts i) tx i ≡ found
        → end_write s t query tx found ≡ some u
        → Flight u
    unfolding end_write
    end_write-Flight i wait here e h = absurd (ground arith)
    end_write-Flight i (hit id) here e h =
        out-Flight (write_waiting query tx i) (returned query tx id (s.stmts id).prepare_err) here
          none s.readers (λ q i x. x) (λ q i x. x) (λ q x. x) h
    end_write-Flight i miss here e h = subst_Flight h (
        still-Flight s inv f t (write_waiting query tx i) (creating query tx) here s.writer
          s.readers s.next (λ q i x. absurd x) (λ q i x. absurd x)
          (λ q same id x.
            let found = f.waits t q i (rw here (same, refl)) id x in
            rw found (judge-miss (s.stmts i) tx i e)))

  advance_at-Flight :
      (p : Pc) (c : Choice) → s.pc t ≡ p → is_kept c ≡ true → advance_at s t p c ≡ some u → Flight u
  unfolding advance_at
  advance_at-Flight idle (call query tx) here k h = elim (Bool-cases (is_free s.writer)) [
    | inl free ↦
        out-Flight idle (reading query tx) here s.writer (t ∷ s.readers) (λ q i x. x) (λ q i x. x)
          (λ q x. x) (rw free at h)
    | inr held ↦ absurd (ground arith)
  ]
  advance_at-Flight (reading query tx) go here k h = get_read-Flight query tx (s.cache query) here h
  advance_at-Flight (read_waiting query tx id) go here k h =
      end_read-Flight query tx id (judge (s.stmts id) tx id) here h
  advance_at-Flight (retrying query tx) go here k h =
      elim (Bool-cases (no_one s.writer s.readers)) [
        | inl free ↦
            out-Flight (retrying query tx) (writing query tx) here (some t) s.readers (λ q i x. x)
              (λ q i x. x) (λ q x. x) (rw free at h)
        | inr held ↦ absurd (ground arith)
      ]
  advance_at-Flight (writing query tx) go here k h =
      get_write-Flight query tx (s.cache query) here refl h
  advance_at-Flight (write_waiting query tx id) go here k h =
      end_write-Flight query tx id (judge (s.stmts id) tx id) here refl h
  advance_at-Flight (creating query tx) go here k h =
      subst_Flight h (set_new-Flight s inv f t query tx here)
  advance_at-Flight (preparing query tx id) (outcome none) here k h =
      out-Flight (preparing query tx id) (closing query tx id none) here s.writer s.readers
        (λ q i x. x) (λ q i x. x) (λ q x. x) h
  advance_at-Flight (preparing query tx id) (outcome (some e)) here k h =
      subst_Flight h (set_err-Flight s inv f t query tx id e here)
  advance_at-Flight (failing query tx id e) go here k h =
      subst_Flight h (fail-Flight s inv f t query tx id e here)
  advance_at-Flight (closing query tx id err) go here k h =
      subst_Flight h (close-Flight s inv f t query tx id err here)
  advance_at-Flight (returned query tx id none) (run_on true) here k h = absurd (ground arith)
  advance_at-Flight (returned query tx id none) (run_on false) here k h =
      out-Flight (returned query tx id none) idle here s.writer s.readers (λ q i x. x) (λ q i x. x)
        (λ q x. x) h
  advance_at-Flight (returned query tx id (some e)) go here k h =
      out-Flight (returned query tx id (some e)) idle here s.writer s.readers (λ q i x. x)
        (λ q i x. x) (λ q x. x) h
  advance_at-Flight p c here k h = absurd (ground arith)

start-Flight : (s : State) → ((t : ℕ) → s.pc t ≡ idle) → Flight s
start-Flight s p = record {
  sole = λ t q id h. absurd (rw (p t) at h);
  waits = λ t q i h. absurd (rw (p t) at h);
  alone = λ t q h. absurd (rw (p t) at h);
}

Reach-Flight : {drops : Bool} {s : State} → drops ≡ false → Reach drops s → Flight s
unfolding advance
Reach-Flight never (start s w r c n p) = start-Flight s p
Reach-Flight {drops} never (moved {s} {u} reach t c k h) =
    advance_at-Flight s u t (Reach-Inv reach) (Reach-Flight never reach) (s.pc t) c refl
      (ground arith) h
Reach-Flight never (dropped {s} reach e k) = absurd (ground arith)

-- While the cache drops nothing, no two goroutines prepare the same query at once, in whatever order the
-- goroutines run, as long as no connection is found to be bad.
pub single_flight :
    {s : State}
    → Reach false s
    → (q : Bytes) (t v i j : ℕ) → Preps q i (s.pc t)
    → Preps q j (s.pc v)
    → (t ≡ v) × (i ≡ j)
single_flight {s} reach q t v i j h k =
    let f = Reach-Flight refl reach in
    (
      same_flight s (Reach-Inv reach) f q t v i j h k,
      same_holder i j (s.cache q) (f.sole t q i h) (f.sole v q j k),
    )
