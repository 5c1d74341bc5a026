-- ===== src/Callbacks/Tests.antt =====
-- Runs of the callback manager at concrete inputs, and the theorems at them.
use pewter_rinse_moor.Prelude.{
  ◌*◌, ℕ, ◌+◌, ◌≡◌, refl, ◌≢◌, ◌↔◌, inl, inr, Bool, true, false, Option, none, some, List, [], ◌∷◌,
  arith, Bytes, bytes_beq, equal_bytes, if◌then◌else◌, Bool-cases, All,
}
use pewter_rinse_moor.Callbacks.{
  Callback, Sorting, done, diverged, star, get_r_index, before_name, before_step, after_name,
  after_step, append_step, sort_callback, sort_from, sort_names, collect_names, collect_fns,
  scan_down, sorted_fns, compile, sort_callbacks, install, removed_names, remove_callbacks,
  contains, matching, Processor, less, finish_sort, Sorted,
}
use pewter_rinse_moor.Callbacks.Index.{Has, IsDistinct}
use pewter_rinse_moor.Callbacks.Keeps.{names_of}
use pewter_rinse_moor.Callbacks.Order.{IsPlaced}
use pewter_rinse_moor.Callbacks.Names.{sort_names-IsPlaced, sort_names-names}
use pewter_rinse_moor.Callbacks.Cycle.{cyclic-diverged, cyclic}
use pewter_rinse_moor.Callbacks.Compile.{compile-IsLive, IsLive, KeepsElements}
use pewter_rinse_moor.Callbacks.Handlers.{sorted_fns-Runs, Runs}

abbrev add_to : ℕ → Option (ℕ → ℕ)
add_to n = some (λ k. k * 10 + n)

abbrev entry : Bytes → Bytes → Bytes → ℕ → Callback ℕ
entry name earlier later n = record {
  name = name;
  before = earlier;
  after = later;
  remove = false;
  replace = false;
  match_fn = none;
  handler = add_to n;
}

abbrev x_name : Bytes
x_name = b'x' ∷ []

abbrev y_name : Bytes
y_name = b'y' ∷ []

abbrev z_name : Bytes
z_name = b'z' ∷ []

-- `x` after `y`, and `z` before `x`
abbrev three : List (Callback ℕ)
three = entry x_name [] y_name 1 ∷ entry y_name [] [] 2 ∷ entry z_name x_name [] 3 ∷ []

abbrev three_sorted : Sorting ℕ
three_sorted = record {
  cs = entry x_name [] y_name 1 ∷ entry y_name x_name [] 2 ∷ entry z_name x_name [] 3 ∷ [];
  sorted = y_name ∷ z_name ∷ x_name ∷ [];
}

three_run : sort_names 5 three ≡ done three_sorted
unfolding sort_names sort_from sort_callback before_step before_name after_step after_name
    append_step get_r_index scan_down collect_names bytes_beq
three_run = refl

sort_names-IsPlaced_example : IsPlaced (names_of three) 0 three_sorted
sort_names-IsPlaced_example = sort_names-IsPlaced 5 three three_sorted three_run 0 (omega arith)

sort_names-names_example :
    IsDistinct three_sorted.sorted
    × ((x : Bytes) → Has x three_sorted.sorted ↔ Has x (names_of three))
sort_names-names_example = sort_names-names 5 three three_sorted three_run

sorted_fns-Runs_example :
    (fs : List (Option (ℕ → ℕ))) × (sorted_fns 5 three ≡ Sorted.fns three_sorted.cs fs)
    × Runs three three_sorted.sorted fs
sorted_fns-Runs_example = sorted_fns-Runs 5 three three_sorted (refl, (refl, (refl, tt))) three_run

x_ne_y : x_name ≢ y_name
x_ne_y e = ground arith

cyclic-diverged_example : sort_names 100 (cyclic (add_to 1) (add_to 2) x_name y_name) ≡ diverged
cyclic-diverged_example =
    cyclic-diverged (add_to 1) (add_to 2) x_name y_name (λ e. ground arith) (λ e. ground arith)
      x_ne_y (λ e. ground arith) (λ e. ground arith) 100

-- the standard library's sort as insertion sort, which it is on short slices
insert_sorted : {A : Type 0} → (A → A → Bool) → A → List A → List A
insert_sorted lt x [] = x ∷ []
insert_sorted lt x (y ∷ ys) =
    let later = y ∷ insert_sorted lt x ys in if lt x y then x ∷ y ∷ ys else later

insertion_sort : {A : Type 0} → (A → A → Bool) → List A → List A → List A
insertion_sort lt [] out = out
insertion_sort lt (x ∷ xs) out = insertion_sort lt xs (insert_sorted lt x out)

abbrev stable_sort : (Callback ℕ → Callback ℕ → Bool) → List (Callback ℕ) → List (Callback ℕ)
stable_sort lt cs = insertion_sort lt cs []

insert_sorted-All :
    {A : Type 0} (P : A → Type 0) (lt : A → A → Bool) (x : A) (xs : List A)
    → P x
    → All P xs
    → All P (insert_sorted lt x xs)
unfolding insert_sorted
insert_sorted-All P lt x [] p h = (p, tt)
insert_sorted-All P lt x (y ∷ ys) p (q, h) = elim (Bool-cases (lt x y)) [
  | inl e ↦ rw e (p, (q, h))
  | inr e ↦ rw e (q, insert_sorted-All P lt x ys p h)
]

insertion_sort-All :
    {A : Type 0} (P : A → Type 0) (lt : A → A → Bool) (xs out : List A)
    → All P xs
    → All P out
    → All P (insertion_sort lt xs out)
unfolding insertion_sort
insertion_sort-All P lt [] out h k = k
insertion_sort-All P lt (x ∷ xs) out (p, h) k =
    insertion_sort-All P lt xs (insert_sorted lt x out) h (insert_sorted-All P lt x out p k)

stable_sort-KeepsElements : KeepsElements stable_sort
stable_sort-KeepsElements P lt cs h = insertion_sort-All P lt cs [] h tt

-- a callback registered before `x` overwrites what `x` comes after
overwritten_after :
    sort_names 5 (entry z_name x_name [] 3 ∷ entry x_name [] y_name 1 ∷ entry y_name [] [] 2 ∷ [])
    ≡ done (record {
      cs = entry z_name x_name [] 3 ∷ entry x_name [] z_name 1 ∷ entry y_name [] [] 2 ∷ [];
      sorted = z_name ∷ x_name ∷ y_name ∷ [];
    })
unfolding sort_names sort_from sort_callback before_step before_name after_step after_name
    append_step get_r_index scan_down collect_names bytes_beq
overwritten_after = refl

-- `x` is registered and then removed beside `y`
abbrev removing : Processor ℕ
removing = record {
  db = 0;
  clauses = [];
  fns = [];
  callbacks =
      entry x_name [] [] 1
      ∷ entry y_name [] [] 2
      ∷ record {
        name = x_name;
        before = [];
        after = [];
        remove = true;
        replace = false;
        match_fn = none;
        handler = none;
      }
      ∷ [];
}

abbrev removed : Processor ℕ
removed = record {
  db = 0;
  clauses = [];
  fns = add_to 2 ∷ [];
  callbacks = entry y_name [] [] 2 ∷ [];
}

removing_run : compile stable_sort 5 removing ≡ some (removed, false)
unfolding compile sort_callbacks sorted_fns finish_sort collect_fns install matching removed_names
    remove_callbacks contains insertion_sort insert_sorted sort_names sort_from sort_callback
    before_step before_name after_step after_name append_step get_r_index scan_down collect_names
    bytes_beq
removing_run = refl

compile-IsLive_example : All (IsLive (removed_names removing.callbacks)) removed.callbacks
compile-IsLive_example =
    compile-IsLive stable_sort stable_sort-KeepsElements 5 removing removed false removing_run

-- a replacement of a callback that is registered before the wildcard has no effect
abbrev starred : Callback ℕ
starred = entry x_name star [] 1

abbrev replacement : Callback ℕ
replacement = record {
  name = x_name;
  before = [];
  after = [];
  remove = false;
  replace = true;
  match_fn = none;
  handler = add_to 2;
}

replaced_star :
    sort_callbacks stable_sort 5 (starred ∷ replacement ∷ [])
    ≡ Sorted.fns (replacement ∷ starred ∷ []) (add_to 1 ∷ [])
unfolding sort_callbacks sorted_fns finish_sort collect_fns insertion_sort insert_sorted less
    sort_names sort_from sort_callback before_step before_name after_step after_name append_step
    get_r_index scan_down collect_names bytes_beq
replaced_star = refl

-- no constraints, and a name that is registered twice
abbrev plain_three : List (Callback ℕ)
plain_three = entry z_name [] [] 1 ∷ entry x_name [] [] 2 ∷ entry z_name [] [] 3 ∷ []
