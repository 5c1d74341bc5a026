-- ===== src/Batches/Create/Loops.antt =====
-- Creating rows in batches is creating them.
use pewter_rinse_moor.Prelude.{
  ℕ, zero, suc, ◌+◌, ◌-◌, ◌≤◌, ◌<◌, ◌≡◌, refl, sym, ap, ◌∙◌, inl, inr, true, false, List, [], ◌∷◌,
  ◌++◌, map, append_assoc, append-nil, arith, Bool-cases, ltb, leb, length, length-append, take,
  drop, update,
}
use pewter_rinse_moor.Transactions.{Event, Db, seen}
use pewter_rinse_moor.Batches.Create.{
  Created, Batched, store, slice, ends_at, written, call_from, call_fc,
}
use pewter_rinse_moor.Batches.Find.Table.{take_all, drop_all, take-drop, length-take, length-drop}

module _ {A : Type 0} where
  update-mid :
      (done : List A) (x y : A) (l : List A)
      → update (length done) (λ z. x) (done ++ y ∷ l) ≡ done ++ x ∷ l
  update-mid [] x y l = refl
  update-mid (d ∷ done) x y l = ap (λ r. d ∷ r) (update-mid done x y l)

  drop-done : (done l : List A) → drop (length done) (done ++ l) ≡ l
  drop-done [] l = refl
  drop-done (d ∷ done) l = drop-done done l

  length-snoc : (done : List A) (x : A) → length (done ++ x ∷ []) ≡ length done + 1
  length-snoc done x = length-append done (x ∷ [])

  -- a batch is written over the rows from which it was made
  pub store-mid :
      (xs ys done l : List A)
      → length xs ≡ length ys
      → store (length done) xs (done ++ (ys ++ l)) ≡ done ++ (xs ++ l)
  store-mid [] [] done l e = refl
  store-mid [] (y ∷ ys) done l e = absurd (omega arith)
  store-mid (x ∷ xs) [] done l e = absurd (omega arith)
  store-mid (x ∷ xs) (y ∷ ys) done l e =
      ap (λ v. store (length done + 1) xs v)
        (update-mid done x y (ys ++ l) ∙ sym (append_assoc done (x ∷ []) (ys ++ l)))
      ∙ ap (λ n. store n xs ((done ++ x ∷ []) ++ (ys ++ l))) (sym (length-snoc done x))
      ∙ store-mid xs ys (done ++ x ∷ []) l (omega arith)
      ∙ append_assoc done (x ∷ []) (xs ++ l)

  pub length-map : {B : Type 0} (f : A → B) (l : List A) → length (map f l) ≡ length l
  length-map f [] = refl
  length-map f (x ∷ l) = omega (arith, length-map f l)

  map-append : {B : Type 0} (f : A → B) (l r : List A) → map f (l ++ r) ≡ map f l ++ map f r
  map-append f [] r = refl
  map-append f (x ∷ l) r = ap (λ t. f x ∷ t) (map-append f l r)

module _ {A : Type 0} (create : List A → Db → Created A) (size : ℕ) where
  pub slice-take :
      (done rest : List A)
      → slice
          (length done)
          (ends_at create size (length done) (length (done ++ rest)))
          (done ++ rest)
        ≡ take size rest
  unfolding ends_at
  slice-take done rest = elim (Bool-cases (ltb (length (done ++ rest)) (length done + size))) [
    | inl less ↦
        let whole : length (done ++ rest) - length done ≡ length rest =
          omega (arith, length-append done rest) in
        let small : length rest < size = ground (arith, length-append done rest) in
        rw (less, whole, drop-done done rest)
          (take_all (length rest) rest (omega arith) ∙ sym (take_all size rest (omega arith)))
    | inr more ↦
        let whole : length done + size - length done ≡ size = omega arith in
        rw (more, whole, drop-done done rest) refl
  ]

  -- past the end
  pub past_end :
      (fuel i : ℕ) (s : Batched A) → length s.values ≤ i → call_from create size fuel i s ≡ s
  unfolding call_from
  past_end zero i s h = refl
  past_end (suc fuel) i s h =
      let out : ltb i (length s.values) ≡ false = ground arith in rw out refl

  abbrev pub at_row : List A → List A → Db → ℕ → Batched A
  at_row done rest tx n = record { tx = tx; values = done ++ rest; affected = n; result = [] }

  -- what is done with a batch
  abbrev pub taken : ℕ → ℕ → Batched A → Created A → Batched A
  taken fuel i s made = elim made.subtx.errors [
    | e ∷ es ↦ record s { tx = seen made.subtx s.tx; result = e ∷ es }
    | [] ↦ call_from create size fuel (i + size) (written create size i made s)
  ]

  pub turn_taken :
      (fuel i : ℕ) (s : Batched A)
      → ltb i (length s.values) ≡ true
      → call_from create size (suc fuel) i s
        ≡ taken fuel i s (create (slice i (ends_at create size i (length s.values)) s.values) s.tx)
  unfolding call_from
  turn_taken fuel i s within = rw within refl

module _ {A : Type 0} (insert : A → Event) (fill : A → A) where
  -- The callbacks insert every row and fill it in, and report no error.
  abbrev pub IsRowwise : (List A → Db → Created A) → Type 0
  IsRowwise create =
      (l : List A) (tx : Db)
      → tx.errors ≡ []
      → create l tx ≡ record {
        subtx = record tx { log = tx.log ++ map insert l };
        rows = map fill l;
        affected = length l;
      }

  module _ (create : List A → Db → Created A) (works : IsRowwise create) (size : ℕ)
      (pos : 0 < size) where
    abbrev logged : List A → Db → Db
    logged l tx = record tx { log = tx.log ++ map insert l }

    taken_clean :
        (fuel i : ℕ) (s : Batched A) (l : List A)
        → s.tx.errors ≡ []
        → taken create size fuel i s
            (record { subtx = logged l s.tx; rows = map fill l; affected = length l })
          ≡ call_from create size fuel (i + size) (record s {
            tx = logged l s.tx;
            values = store i (map fill l) s.values;
            affected = s.affected + length l;
          })
    unfolding written
    taken_clean fuel i s l clean = rw clean refl

    -- one turn
    turn_lem :
        (fuel : ℕ) (done rest : List A) (tx : Db) (n : ℕ)
        → tx.errors ≡ []
        → 0 < length rest
        → call_from create size (suc fuel) (length done) (at_row create size done rest tx n)
          ≡ call_from create size fuel (length done + size) (record {
            tx = logged (take size rest) tx;
            values = done ++ (map fill (take size rest) ++ drop size rest);
            affected = n + length (take size rest);
            result = [];
          })
    turn_lem fuel done rest tx n clean more =
        let within : ltb (length done) (length (done ++ rest)) ≡ true =
          ground (arith, length-append done rest) in
        let stored =
          ap (λ l. store (length done) (map fill (take size rest)) (done ++ l))
            (sym (take-drop size rest))
          ∙ store-mid (map fill (take size rest)) (take size rest) done (drop size rest)
              (length-map fill (take size rest)) in
        turn_taken create size fuel (length done) (at_row create size done rest tx n) within
        ∙ ap (taken create size fuel (length done) (at_row create size done rest tx n)) (
            ap (λ l. create l tx) (slice-take create size done rest)
            ∙ works (take size rest) tx clean)
        ∙ taken_clean fuel (length done) (at_row create size done rest tx n) (take size rest) clean
        ∙ ap
            (λ v. call_from create size fuel (length done + size) (record {
              tx = logged (take size rest) tx;
              values = v;
              affected = n + length (take size rest);
              result = [];
            }))
            stored

    -- two parts of a list
    logged_both : (l r : List A) (tx : Db) → logged r (logged l tx) ≡ logged (l ++ r) tx
    logged_both l r tx =
        ap (λ es. record tx { log = es })
          (append_assoc tx.log (map insert l) (map insert r)
            ∙ ap (λ es. tx.log ++ es) (sym (map-append insert l r)))

    logged_nil : (tx : Db) → tx ≡ logged [] tx
    logged_nil tx = ap (λ es. record tx { log = es }) (sym (append-nil tx.log))

    -- the last turn, with less than a batch
    last_turn :
        (fuel : ℕ) (done l : List A) (tx : Db) (n : ℕ)
        → length l < size
        → call_from create size fuel (length done + size) (record {
          tx = logged (take size l) tx;
          values = done ++ (map fill (take size l) ++ drop size l);
          affected = n + length (take size l);
          result = [];
        })
          ≡ at_row create size done (map fill l) (logged l tx) (n + length l)
    last_turn fuel done l tx n less =
        let whole = take_all size l (omega arith) in
        let none_left = drop_all size l (omega arith) in
        rw (whole, none_left, append-nil (map fill l))
          (past_end create size fuel (length done + size)
            (at_row create size done (map fill l) (logged l tx) (n + length l))
            (omega (arith, length-append done (map fill l), length-map fill l)))

    -- from a row on, everything is created
    rows-created :
        (fuel : ℕ) (done rest : List A) (tx : Db) (n : ℕ)
        → tx.errors ≡ []
        → length rest ≤ fuel
        → call_from create size fuel (length done) (at_row create size done rest tx n)
          ≡ at_row create size done (map fill rest) (logged rest tx) (n + length rest)
    rows-created fuel done [] tx n clean enough =
        let same : n ≡ n + 0 = omega arith in
        past_end create size fuel (length done) (at_row create size done [] tx n)
          (omega (arith, length-append done []))
        ∙ (λ j. at_row create size done [] (logged_nil tx j) (same j))
    rows-created zero done (x ∷ rest) tx n clean enough = absurd (omega arith)
    rows-created (suc fuel) done (x ∷ rest) tx n clean enough =
        let l = x ∷ rest in
        turn_lem fuel done l tx n clean (omega arith) ∙ elim (Bool-cases (leb size (length l))) [
          | inr less ↦ last_turn fuel done l tx n (ground arith)
          | inl whole ↦
              let first = take size l in
              let others = drop size l in
              let fits : size ≤ length l = ground arith in
              let size_first : length first ≡ size = length-take size l fits in
              let at : length done + size ≡ length (done ++ map fill first) =
                omega (arith, length-append done (map fill first), length-map fill first) in
              let number : n + length first + length others ≡ n + length l =
                omega (arith, length-drop size l) in
              (λ j. call_from create size fuel (at j) (record {
                tx = logged first tx;
                values = (sym (append_assoc done (map fill first) others)) j;
                affected = n + length first;
                result = [];
              }))
              ∙ rows-created fuel (done ++ map fill first) others (logged first tx)
                  (n + length first) clean (omega (arith, length-drop size l))
              ∙ (λ j. record {
                tx = (logged_both first others tx ∙ ap (λ r. logged r tx) (take-drop size l)) j;
                values =
                    (append_assoc done (map fill first) (map fill others)
                        ∙ ap (λ r. done ++ r)
                            (sym (map-append fill first others) ∙ ap (map fill) (take-drop size l)))
                      j;
                affected = number j;
                result = [];
              })
        ]

    -- A batch size that is not 0, callbacks that insert every row, fill it in and report no error, and a `DB`
    -- without one: in batches the rows are inserted in their order, filled in and counted as when they are
    -- created at once.
    pub call_fc-at_once :
        (values : List A) (tx : Db)
        → tx.errors ≡ []
        → let made = create values tx in
          call_fc create size values tx
          ≡ record { tx = made.subtx; values = made.rows; affected = made.affected; result = [] }
    unfolding call_fc
    call_fc-at_once values tx clean =
        let same : 0 + length values ≡ length values = omega arith in
        rw (works values tx clean) (
          rows-created (length values) [] values tx 0 clean (omega arith)
          ∙ ap (at_row create size [] (map fill values) (logged values tx)) same)
