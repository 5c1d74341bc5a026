-- ===== src/Batches/Find/Turns.antt =====
-- The turns of the loop of `FindInBatches` on a table.
use pewter_rinse_moor.Prelude.{
  ℕ, suc, ◌+◌, ◌-◌, ◌≤◌, ◌<◌, ◌≡◌, refl, sym, ap, ◌∙◌, Bool, true, false, ◌&&◌, ◌||◌, Option, none,
  some, List, [], ◌∷◌, ◌++◌, arith, if◌then◌else◌, ltb, leb, length, length-append, take, drop,
  append_assoc, append-nil, All, equal_numbers,
}
use pewter_rinse_moor.Transactions.{Failure}
use pewter_rinse_moor.Batches.Find.{
  Query, Found, Loop, next_size, add, handle, read_batch, count, is_last, last_key, decide, turn,
  find_from,
}
use pewter_rinse_moor.Batches.Find.Limits.{Fits}
use pewter_rinse_moor.Batches.Find.Table.{Ascending, above, IsTable}

module _ {A : Type 0} where
  abbrev pub concat : List (List A) → List A
  concat [] = []
  concat (b ∷ bs) = b ++ concat bs

  -- the rows up to the limit, where there is one
  abbrev pub limited : ℕ → List A → List A
  limited total l = if ltb 0 total then take total l else l

  -- what is left to read, after so many rows
  abbrev pub left : ℕ → ℕ → List A → List A
  left total rows l = if ltb 0 total then take (total - rows) l else l

  abbrev pub IsBatch : ℕ → List A → Type 0
  IsBatch size b = (0 < length b) × (length b ≤ size)

  -- How the loop ends, where these rows were left: they are handed over in batches, and counted.
  pub record Read (size : ℕ) (s : Loop A) (l : List A) (u : Loop A) : Type 0 where
    pub batches : List (List A)
    pub handed : u.handed ≡ s.handed ++ batches
    pub all : concat batches ≡ l
    pub sized : All (IsBatch size) batches
    pub counted : u.rows_affected ≡ s.rows_affected + length l
    pub errors : u.errors ≡ []

  abbrev pub batch_of : List A → List (List A)
  batch_of [] = []
  batch_of (x ∷ xs) = (x ∷ xs) ∷ []

  concat-batch_of : (l : List A) → concat (batch_of l) ≡ l
  concat-batch_of [] = refl
  concat-batch_of (x ∷ xs) = append-nil (x ∷ xs)

  batch_of-IsBatch : (size : ℕ) (l : List A) → length l ≤ size → All (IsBatch size) (batch_of l)
  batch_of-IsBatch size [] h = tt
  batch_of-IsBatch size (x ∷ xs) h = ((omega arith, h), tt)

  -- the state behind a batch without an error
  abbrev pub after_batch : List A → Loop A → Loop A
  after_batch l s = record s {
    rows_affected = s.rows_affected + length l;
    batch = s.batch + 1;
    handed = s.handed ++ batch_of l;
  }

  -- one batch and no more
  pub one-Read :
      (size : ℕ) (s : Loop A) (l : List A)
      → s.errors ≡ []
      → length l ≤ size
      → Read size s l (after_batch l s)
  one-Read size s l clean small = record {
    batches = batch_of l;
    handed = refl;
    all = concat-batch_of l;
    sized = batch_of-IsBatch size l small;
    counted = refl;
    errors = clean;
  }

  -- one batch and the others
  pub more-Read :
      (size : ℕ) (s t u : Loop A) (b r : List A)
      → 0 < length b
      → length b ≤ size
      → t.handed ≡ s.handed ++ batch_of b
      → t.rows_affected ≡ s.rows_affected + length b
      → Read size t r u
      → Read size s (b ++ r) u
  more-Read size s t u [] r pos small e n h = absurd (omega arith)
  more-Read size s t u (x ∷ xs) r pos small e n h = record {
    batches = (x ∷ xs) ∷ h.batches;
    handed =
        h.handed ∙ ap (λ l. l ++ h.batches) e ∙ append_assoc s.handed ((x ∷ xs) ∷ []) h.batches;
    all = ap (λ l. (x ∷ xs) ++ l) h.all;
    sized = ((omega arith, small), h.sized);
    counted = omega (arith, h.counted, n, length-append (x ∷ xs) r);
    errors = h.errors;
  }

  -- The same for the whole function.
  pub record Reads (size : ℕ) (l : List A) (u : Loop A) : Type 0 where
    pub all : concat u.handed ≡ l
    pub sized : All (IsBatch size) u.handed
    pub counted : u.rows_affected ≡ length l
    pub errors : u.errors ≡ []

  pub Read-Reads :
      (size : ℕ) (s : Loop A) (l : List A) (u : Loop A)
      → s.handed ≡ []
      → s.rows_affected ≡ 0
      → Read size s l u
      → Reads size l u
  Read-Reads size s l u e n r =
      let same : u.handed ≡ r.batches = r.handed ∙ ap (λ h. h ++ r.batches) e in
      record {
        all = rw same r.all;
        sized = rw same r.sized;
        counted = omega (arith, r.counted, n);
        errors = r.errors;
      }

module _ {A : Type 0} (find : Query → Found A) (key : A → Option ℕ)
    (fc : List A → ℕ → Option Failure) (table : List A) (ascending : Ascending key 0 table)
    (finds : IsTable key find table) (works : (b : List A) (n : ℕ) → fc b n ≡ none) (size : ℕ) where
  -- the state at the head of the loop, with what is left of the table
  pub record Head (total : ℕ) (s : Loop A) (rest : List A) : Type 0 where
    pub read : List A
    pub split : table ≡ read ++ rest
    pub ahead : drop s.offset (above key s.after table) ≡ rest
    pub pos : 0 < s.batch_size
    pub small : s.batch_size ≤ size
    pub fits : Fits total s.rows_affected s.batch s.batch_size
    pub clean : s.errors ≡ []

  module _ (total : ℕ) (s : Loop A) (rest : List A) (h : Head total s rest) where
    got : read_batch find key fc s ≡ record { rows = take s.batch_size rest; error = none }
    unfolding read_batch
    got = finds _ ∙ ap (λ l. record { rows = take s.batch_size l; error = none }) h.ahead

    handled :
        (l : List A)
        → handle find key fc
            (record { rows = l; error = none })
            (count find key fc (record { rows = l; error = none }) s)
          ≡ after_batch l s
    unfolding handle count add
    handled [] =
        ap (λ r. record s { rows_affected = s.rows_affected + 0; batch = s.batch + 1; handed = r })
          (sym (append-nil s.handed))
    handled (x ∷ xs) = rw (works (x ∷ xs) (s.batch + 1)) refl

    -- the test behind a batch
    last_test :
        (l : List A) (b : Bool)
        → (ltb (length l) s.batch_size || (ltb 0 total && leb total (s.rows_affected + length l)))
          ≡ b
        → is_last find key fc total (record { rows = l; error = none }) (after_batch l s) ≡ b
    unfolding is_last
    last_test l b e = rw (is_last, h.clean) e

    turned :
        (l : List A)
        → take s.batch_size rest ≡ l
        → turn find key fc total s
          ≡ decide find key fc total (record { rows = l; error = none }) (after_batch l s)
    unfolding turn
    turned l e =
        ap (λ r. decide find key fc total r (handle find key fc r (count find key fc r s)))
          (got ∙ ap (λ rows. record { rows = rows; error = none }) e)
        ∙ ap (decide find key fc total (record { rows = l; error = none })) (handled l)

    pub stops :
        (fuel : ℕ) (l : List A)
        → take s.batch_size rest ≡ l
        → (ltb (length l) s.batch_size || (ltb 0 total && leb total (s.rows_affected + length l)))
          ≡ true
        → find_from find key fc (suc fuel) total s ≡ some (after_batch l s)
    unfolding find_from decide
    stops fuel l e test = rw (find_from, turned l e, last_test l true test) refl

    abbrev pub following : List A → ℕ → Loop A
    following l k = record (after_batch l s) {
      after = some k;
      offset = 0;
      batch_size = next_size total s.batch_size (s.batch + 1);
    }

    pub goes_on :
        (fuel : ℕ) (l : List A) (k : ℕ)
        → take s.batch_size rest ≡ l
        → (ltb (length l) s.batch_size || (ltb 0 total && leb total (s.rows_affected + length l)))
          ≡ false
        → last_key find key fc l ≡ some k
        → find_from find key fc (suc fuel) total s
          ≡ find_from find key fc fuel total (following l k)
    unfolding find_from decide
    goes_on fuel l k e test here =
        rw (find_from, turned l e, decide, last_test l false test, here) refl
