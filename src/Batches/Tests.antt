-- ===== src/Batches/Tests.antt =====
-- A table of seven rows, which are their own keys, and rows that are doubled when they are created.
use pewter_rinse_moor.Prelude.{
  ℕ, ◌+◌, ◌≡◌, refl, true, false, Option, none, some, List, [], ◌∷◌, ◌++◌, map, arith, length, take,
  drop, if◌then◌else◌, ◌==◌, equal_numbers,
}
use pewter_rinse_moor.Transactions.{
  Failure, Failures, foreign, ran, beginner, Driver, Db, returned, transact, nested, outer,
  end_outer, end_commit, commit, commit_on, rollback, rollback_on, begin, begin_on, call, add_error,
}
use pewter_rinse_moor.Batches.Find.{
  Limit, Query, Found, Loop, find_in_batches, find_from, turn, decide, is_last, handle, count,
  read_batch, add, next_size, clamp,
}
use pewter_rinse_moor.Batches.Find.Table.{Ascending, above}
use pewter_rinse_moor.Batches.Find.Turns.{limited, Reads}
use pewter_rinse_moor.Batches.Find.Reads.{find_in_batches-Read}
use pewter_rinse_moor.Batches.Create.{
  Created, call_fc, call_from, call_block, written, ends_at, create_in_batches,
}
use pewter_rinse_moor.Batches.Create.Loops.{call_fc-at_once}

abbrev rows : List ℕ
rows = 1 ∷ 3 ∷ 4 ∷ 7 ∷ 8 ∷ 9 ∷ 12 ∷ []

abbrev key : ℕ → Option ℕ
key n = some n

abbrev find : Query → Found ℕ
find q = record { rows = take q.limit (drop q.offset (above key q.after rows)); error = none }

abbrev quiet : List ℕ → ℕ → Option Failure
quiet b n = none

abbrev five_but_one : Option Limit
five_but_one = some (record { limit = some 5; offset = 1 })

rows-Ascending : Ascending key 0 rows
rows-Ascending = (
  1,
  refl,
  omega arith,
  (
    3,
    refl,
    omega arith,
    (
      4,
      refl,
      omega arith,
      (
        7,
        refl,
        omega arith,
        (8, refl, omega arith, (9, refl, omega arith, (12, refl, omega arith, tt))),
      ),
    ),
  ),
)

find_in_batches_rows :
    find_in_batches find key quiet 8 five_but_one 2
    ≡ some (record {
      after = some 8;
      offset = 0;
      batch_size = 1;
      rows_affected = 5;
      batch = 3;
      errors = [];
      handed = (3 ∷ 4 ∷ []) ∷ (7 ∷ 8 ∷ []) ∷ (9 ∷ []) ∷ [];
    })
unfolding find_in_batches find_from turn decide is_last handle count read_batch add next_size clamp
find_in_batches_rows = refl

-- a limit of 0 is none
find_in_batches_zero :
    find_in_batches find key quiet 8 (some (record { limit = some 0; offset = 0 })) 9
    ≡ some (record {
      after = none;
      offset = 0;
      batch_size = 9;
      rows_affected = 7;
      batch = 1;
      errors = [];
      handed = rows ∷ [];
    })
unfolding find_in_batches find_from turn decide is_last handle count read_batch add next_size clamp
find_in_batches_zero = refl

find_in_batches-Read_example :
    (u : Loop ℕ) × (find_in_batches find key quiet 8 five_but_one 2 ≡ some u)
    × Reads 2 (limited 5 (drop 1 rows)) u
find_in_batches-Read_example =
    find_in_batches-Read find key quiet rows five_but_one 2 8 rows-Ascending (λ q. refl)
      (λ b n. refl) (omega arith) (omega arith)

abbrev double : List ℕ → Db → Created ℕ
double l tx = record {
  subtx = record tx { log = tx.log ++ map ran l };
  rows = map (λ n. n + n) l;
  affected = length l;
}

abbrev db : Db
db = record { pool = beginner; errors = []; disable_nested_transaction = false; log = [] }

call_fc-at_once_example : call_fc double 3 rows db ≡ record {
  tx = record db { log = map ran rows };
  values = 2 ∷ 6 ∷ 8 ∷ 14 ∷ 16 ∷ 18 ∷ 24 ∷ [];
  affected = 7;
  result = [];
}
call_fc-at_once_example =
    call_fc-at_once ran (λ n. n + n) double (λ l tx e. refl) 3 (omega arith) rows db refl

-- callbacks that fail on the row 8
abbrev fails_at : List ℕ → Failures
fails_at [] = []
fails_at (n ∷ l) = if n == 8 then foreign 8 ∷ [] else fails_at l

abbrev double_but : List ℕ → Db → Created ℕ
double_but l tx = record {
  subtx = record tx { log = tx.log ++ map ran l; errors = fails_at l };
  rows = map (λ n. n + n) l;
  affected = length l;
}

abbrev driver : Driver
driver = record {
  begin_tx = none;
  commit_tx = none;
  rollback_tx = none;
  save_point = none;
  rollback_to = none;
  is_save_pointer = true;
}

create_in_batches_fails :
    (create_in_batches double_but 3 driver 0 false rows db).1 ≡ returned (foreign 8 ∷ [])
unfolding create_in_batches call_block call_fc call_from written ends_at transact nested outer
    end_outer end_commit commit commit_on rollback rollback_on begin begin_on call add_error
create_in_batches_fails = refl
