-- ===== src/Batches/Find/Reads.antt =====
-- `FindInBatches` reads every row once.
use pewter_rinse_moor.Prelude.{
  ℕ, zero, suc, ◌+◌, ◌-◌, ◌≤◌, ◌<◌, ◌≡◌, refl, sym, ap, ◌∙◌, inl, inr, true, false, ◌&&◌, Option,
  none, some, List, ◌∷◌, ◌++◌, arith, Bool-cases, ltb, leb, length, take, drop, append_assoc,
  equal_numbers,
}
use pewter_rinse_moor.Transactions.{Failure}
use pewter_rinse_moor.Batches.Find.{
  Limit, Query, Found, Loop, total_size, offset_of, last_key, find_from, find_in_batches,
}
use pewter_rinse_moor.Batches.Find.Limits.{Fits, clamp-Fits, next_size-Fits}
use pewter_rinse_moor.Batches.Find.Table.{
  take_all, take_split, take-drop, length-take, length-drop, positive_cut, Ascending, behind,
  behind_row, key_of_row, IsTable,
}
use mathlib.Core.Path.{subst}
use pewter_rinse_moor.Batches.Find.Turns.{
  limited, left, Read, Reads, Read-Reads, after_batch, one-Read, more-Read, Head, stops, goes_on,
  following,
}

module _ {A : Type 0} (find : Query → Found A) (key : A → Option ℕ)
    (fc : List A → ℕ → Option Failure) (table : List A) (ascending : Ascending key 0 table)
    (finds : IsTable key find table) (works : (b : List A) (n : ℕ) → fc b n ≡ none) (size : ℕ) where
  -- behind a whole batch: the key of its last row, and the rows behind that
  next_key :
      (n : ℕ) (read rest : List A)
      → table ≡ read ++ rest
      → 0 < n
      → n ≤ length rest
      → (k : ℕ) × (last_key find key fc (take n rest) ≡ some k) × (behind key k table ≡ drop n rest)
  next_key n read rest split pos fits =
      let c = positive_cut n rest pos fits in
      let whole : table ≡ (read ++ c.init) ++ c.row ∷ drop n rest =
        split
        ∙ ap (λ l. read ++ l) c.whole
        ∙ sym (append_assoc read c.init (c.row ∷ drop n rest)) in
      let up = subst (Ascending key 0) whole ascending in
      let (k, e) = key_of_row key 0 (read ++ c.init) c.row (drop n rest) up in
      (
        k,
        rw (last_key, c.last) e,
        ap (behind key k) whole ∙ behind_row key 0 k (read ++ c.init) c.row (drop n rest) up e,
      )

  left-all :
      (total rows n : ℕ) (rest : List A) (b : ℕ)
      → Fits total rows b n
      → length rest ≤ n
      → left total rows rest ≡ rest
  left-all total rows n rest b fits small = elim (Bool-cases (ltb 0 total)) [
    | inr unset ↦ rw unset refl
    | inl set ↦ rw set (take_all (total - rows) rest (ground arith))
  ]

  left-reached :
      (total rows n : ℕ) (rest : List A) (b : ℕ)
      → Fits total rows b n
      → ltb 0 total ≡ true
      → leb total (rows + n) ≡ true
      → left total rows rest ≡ take n rest
  left-reached total rows n rest b fits set at =
      let same : total - rows ≡ n = ground arith in rw (set, same) refl

  left-goes_on :
      (total rows n : ℕ) (rest : List A) (b : ℕ)
      → Fits total rows b n
      → (ltb 0 total && leb total (rows + n)) ≡ false
      → (m : ℕ) → m ≡ n
      → left total rows rest ≡ take n rest ++ left total (rows + m) (drop n rest)
  left-goes_on total rows n rest b fits test m e = elim (Bool-cases (ltb 0 total)) [
    | inr unset ↦ rw unset (sym (take-drop n rest))
    | inl set ↦
        let same : total - (rows + m) ≡ total - rows - n = omega arith in
        rw (set, same) (take_split n (total - rows) rest (ground arith))
  ]

  module _ (total : ℕ) (s : Loop A) (rest : List A)
      (h : Head find key fc table ascending finds works size total s rest) where
    -- a turn that reads less than a batch
    short :
        (fuel : ℕ)
        → length rest < s.batch_size
        → (u : Loop A) × (find_from find key fc (suc fuel) total s ≡ some u)
          × Read size s (left total s.rows_affected rest) u
    short fuel less =
        let small : length rest ≤ size = omega (arith, h.small) in
        (
          after_batch rest s,
          stops find key fc table ascending finds works size total s rest h fuel rest
              (take_all s.batch_size rest (omega arith)) (ground arith),
          rw (left-all total s.rows_affected s.batch_size rest s.batch h.fits (omega arith))
              (one-Read size s rest h.clean small),
        )

    -- a turn that reaches the limit
    reached :
        (fuel : ℕ)
        → s.batch_size ≤ length rest
        → ltb 0 total ≡ true
        → leb total (s.rows_affected + s.batch_size) ≡ true
        → (u : Loop A) × (find_from find key fc (suc fuel) total s ≡ some u)
          × Read size s (left total s.rows_affected rest) u
    reached fuel more set at =
        let whole = length-take s.batch_size rest more in
        (
          after_batch (take s.batch_size rest) s,
          stops find key fc table ascending finds works size total s rest h fuel
              (take s.batch_size rest) refl (rw (whole, set, at) (ground arith)),
          rw (left-reached total s.rows_affected s.batch_size rest s.batch h.fits set at)
              (one-Read size s (take s.batch_size rest) h.clean (omega (arith, h.small, whole))),
        )

    -- the head of the next turn
    next-Head :
        (k : ℕ)
        → s.batch_size ≤ length rest
        → (ltb 0 total && leb total (s.rows_affected + s.batch_size)) ≡ false
        → behind key k table ≡ drop s.batch_size rest
        → Head find key fc table ascending finds works size total
            (following find key fc table ascending finds works size total s rest h
              (take s.batch_size rest)
              k)
            (drop s.batch_size rest)
    next-Head k more test ahead =
        let whole = length-take s.batch_size rest more in
        let (pos, small, fits) =
          next_size-Fits total s.rows_affected s.batch s.batch_size h.pos h.fits test in
        record {
          read = h.read ++ take s.batch_size rest;
          split =
              h.split
              ∙ ap (λ l. h.read ++ l) (sym (take-drop s.batch_size rest))
              ∙ sym (append_assoc h.read (take s.batch_size rest) (drop s.batch_size rest));
          ahead = ahead;
          pos = pos;
          small = omega (arith, small, h.small);
          fits = rw whole fits;
          clean = h.clean;
        }

  -- the loop, from any turn on
  reads :
      (fuel total : ℕ) (s : Loop A) (rest : List A)
      → Head find key fc table ascending finds works size total s rest
      → length rest < fuel
      → (u : Loop A) × (find_from find key fc fuel total s ≡ some u)
        × Read size s (left total s.rows_affected rest) u
  reads zero total s rest h enough = absurd (omega arith)
  reads (suc fuel) total s rest h enough = elim (Bool-cases (ltb (length rest) s.batch_size)) [
    | inl less ↦ short total s rest h fuel (ground arith)
    | inr more ↦
        let fits : s.batch_size ≤ length rest = ground arith in
        elim (Bool-cases (ltb 0 total && leb total (s.rows_affected + s.batch_size))) [
          | inl at ↦ reached total s rest h fuel fits (ground arith) (ground arith)
          | inr test ↦
              let whole = length-take s.batch_size rest fits in
              let (k, e, ahead) = next_key s.batch_size h.read rest h.split h.pos fits in
              let (u, found, read) =
                reads fuel total _ (drop s.batch_size rest)
                  (next-Head total s rest h k fits test ahead)
                  (omega (arith, length-drop s.batch_size rest, h.pos)) in
              (
                u,
                goes_on find key fc table ascending finds works size total s rest h fuel
                      (take s.batch_size rest) k refl (rw (whole, test) (ground arith)) e
                    ∙ found,
                rw
                    (left-goes_on total s.rows_affected s.batch_size rest s.batch h.fits test _
                      whole)
                    (more-Read size s _ u (take s.batch_size rest) _ (omega (arith, whole, h.pos))
                      (omega (arith, whole, h.small)) refl refl read),
              )
        ]
  ]

-- A query without an error so far, of a table whose rows are ascending by primary keys that are not missing,
-- with a batch size that is not 0 and a function that never fails: with more fuel than there are rows the
-- loop ends, without an error. Every row that the limit and the offset leave is handed over once, in the
-- order of the table and in batches that are not empty and no larger than the batch size, and the rows are
-- counted. A limit of 0 counts as none.
pub find_in_batches-Read :
    {A : Type 0} (find : Query → Found A) (key : A → Option ℕ) (fc : List A → ℕ → Option Failure)
    (table : List A) (limit : Option Limit) (size fuel : ℕ)
    → Ascending key 0 table
    → IsTable key find table
    → ((b : List A) (n : ℕ) → fc b n ≡ none)
    → 0 < size
    → length table < fuel
    → (u : Loop A) × (find_in_batches find key fc fuel limit size ≡ some u)
      × Reads size (limited (total_size limit) (drop (offset_of limit) table)) u
unfolding find_in_batches
find_in_batches-Read find key fc table limit size fuel up finds works pos enough =
    let total = total_size limit in
    let offset = offset_of limit in
    let (clamped, small, fits) = clamp-Fits total size pos in
    let (u, found, read) =
      reads find key fc table up finds works size fuel total _ (drop offset table)
        (record {
          read = take offset table;
          split = sym (take-drop offset table);
          ahead = refl;
          pos = clamped;
          small = small;
          fits = fits;
          clean = refl;
        })
        (omega (arith, length-drop offset table)) in
    let same : total - 0 ≡ total = omega arith in
    (u, found, Read-Reads size _ _ u refl refl (rw same at read))
