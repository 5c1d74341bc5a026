-- ===== src/Callbacks/Cycle.antt =====
-- Two callbacks that come after each other: the recursion has no end.
use pewter_rinse_moor.Prelude.{
  ℕ, zero, suc, ◌≡◌, refl, sym, ◌≢◌, false, Option, none, some, List, [], ◌∷◌, Bytes, bytes_beq,
  equal_bytes, bytes_beq_ne, bytes_beq_refl,
}
use pewter_rinse_moor.Callbacks.{
  Callback, Sorting, Outcome, done, diverged, ◌>>=◌, star, get_r_index, scan_down, before_name,
  before_step, after_name, after_step, sort_callback, sort_from, sort_names,
}
use pewter_rinse_moor.Callbacks.Names.{collect_names-names_of}

-- `After(b).Register(a, f)` and `After(a).Register(b, g)`
abbrev pub cyclic :
    {Db : Type 0} → Option (Db → Db) → Option (Db → Db) → Bytes → Bytes → List (Callback Db)
cyclic f g a b =
    record {
      name = a;
      before = [];
      after = b;
      remove = false;
      replace = false;
      match_fn = none;
      handler = f;
    }
    ∷ record {
      name = b;
      before = [];
      after = a;
      remove = false;
      replace = false;
      match_fn = none;
      handler = g;
    }
    ∷ []

module _ {Db : Type 0} (f g : Option (Db → Db)) (a b : Bytes) (a_named : a ≢ []) (b_named : b ≢ [])
    (ne : a ≢ b) (a_star : a ≢ star) (b_star : b ≢ star) where
  -- the same with the `before`s that sorting writes
  abbrev pair : Bytes → Bytes → List (Callback Db)
  pair x y =
      record {
        name = a;
        before = x;
        after = b;
        remove = false;
        replace = false;
        match_fn = none;
        handler = f;
      }
      ∷ record {
        name = b;
        before = y;
        after = a;
        remove = false;
        replace = false;
        match_fn = none;
        handler = g;
      }
      ∷ []

  abbrev both : List Bytes
  both = a ∷ b ∷ []

  abbrev at_pair : Bytes → Bytes → Sorting Db
  at_pair x y = record { cs = pair x y; sorted = [] }

  abbrev first : Bytes → Callback Db
  first x = record {
    name = a;
    before = x;
    after = b;
    remove = false;
    replace = false;
    match_fn = none;
    handler = f;
  }

  abbrev second : Bytes → Callback Db
  second y = record {
    name = b;
    before = y;
    after = a;
    remove = false;
    replace = false;
    match_fn = none;
    handler = g;
  }

  index_first : get_r_index both a ≡ some 0
  unfolding get_r_index scan_down
  index_first = simp (bytes_beq_refl a, bytes_beq_ne b a (λ e. ne (sym e)))

  index_second : get_r_index both b ≡ some 1
  unfolding get_r_index scan_down
  index_second = simp (bytes_beq_refl b)

  nothing_sorted : (x : Bytes) → get_r_index [] x ≡ none
  unfolding get_r_index scan_down
  nothing_sorted x = refl

  before_first : (y : Bytes) → before_step both (first b) (at_pair b y) ≡ done (at_pair b y)
  unfolding before_step before_name
  before_first y = rw (
    bytes_beq_ne b [] b_named,
    bytes_beq_ne b star b_star,
    nothing_sorted b,
    before_name,
    index_second,
  )

  before_second : (x : Bytes) → before_step both (second a) (at_pair x a) ≡ done (at_pair x a)
  unfolding before_step before_name
  before_second y = rw (
    bytes_beq_ne a [] a_named,
    bytes_beq_ne a star a_star,
    nothing_sorted a,
    before_name,
    index_first,
  )

  after_first :
      (again : ℕ → Sorting Db → Outcome Db) (x : Bytes)
      → after_step both again 0 (first x) (at_pair x []) ≡ (again 1 (at_pair x a) >>= again 0)
  unfolding after_step after_name
  after_first again x = rw (
    bytes_beq_ne b [] b_named,
    bytes_beq_ne b star b_star,
    nothing_sorted b,
    after_name,
    index_second,
    bytes_beq_refl [],
  )

  after_second :
      (again : ℕ → Sorting Db → Outcome Db) (y : Bytes)
      → after_step both again 1 (second y) (at_pair [] y) ≡ (again 0 (at_pair b y) >>= again 1)
  unfolding after_step after_name
  after_second again y = rw (
    bytes_beq_ne a [] a_named,
    bytes_beq_ne a star a_star,
    nothing_sorted a,
    after_name,
    index_first,
    bytes_beq_refl [],
  )

  after_second_set :
      (again : ℕ → Sorting Db → Outcome Db) (x y : Bytes)
      → bytes_beq x [] ≡ false
      → after_step both again 1 (second y) (at_pair x y) ≡ (again 0 (at_pair x y) >>= again 1)
  unfolding after_step after_name
  after_second_set again x y set = rw (
    bytes_beq_ne a [] a_named,
    bytes_beq_ne a star a_star,
    nothing_sorted a,
    after_name,
    index_first,
    set,
  )

  after_first_set :
      (again : ℕ → Sorting Db → Outcome Db) (x y : Bytes)
      → bytes_beq y [] ≡ false
      → after_step both again 0 (first x) (at_pair x y) ≡ (again 1 (at_pair x y) >>= again 0)
  unfolding after_step after_name
  after_first_set again x y set = rw (
    bytes_beq_ne b [] b_named,
    bytes_beq_ne b star b_star,
    nothing_sorted b,
    after_name,
    index_second,
    set,
  )

  -- with both befores written, each call makes one of the other on the same state
  cycle-diverged :
      (fuel : ℕ)
      → (sort_callback both fuel 0 (at_pair b a) ≡ diverged)
        × (sort_callback both fuel 1 (at_pair b a) ≡ diverged)
  unfolding sort_callback
  cycle-diverged zero = (refl, refl)
  cycle-diverged (suc fuel) =
      let ih = cycle-diverged fuel in
      let na = bytes_beq_ne a [] a_named in
      let nb = bytes_beq_ne b [] b_named in
      (
        rw (before_first a, after_first_set (sort_callback both fuel) b a na, ih.1),
        rw (before_second b, after_second_set (sort_callback both fuel) b a nb, ih.0),
      )

  second_call-diverged : (fuel : ℕ) → sort_callback both fuel 1 (at_pair [] a) ≡ diverged
  unfolding sort_callback
  second_call-diverged zero = refl
  second_call-diverged (suc fuel) =
      rw (before_second [], after_second (sort_callback both fuel) a, (cycle-diverged fuel).0)

  first_call-diverged : (fuel : ℕ) → sort_callback both fuel 0 (at_pair [] []) ≡ diverged
  unfolding sort_callback before_step
  first_call-diverged zero = refl
  first_call-diverged (suc fuel) =
      rw (bytes_beq_refl [], after_first (sort_callback both fuel) [], second_call-diverged fuel)

  -- Two callbacks registered to come after each other: whatever the fuel, sorting has no result.
  pub cyclic-diverged : (fuel : ℕ) → sort_names fuel (cyclic f g a b) ≡ diverged
  unfolding sort_names sort_from
  cyclic-diverged fuel = rw (collect_names-names_of, first_call-diverged fuel)
