-- ===== src/Callbacks.antt =====
-- callbacks.go: the callback manager. A processor keeps the registered callbacks; every
-- registration compiles them into the list of handlers to run, ordered by the names that
-- `Before` and `After` mention.
--
-- The slice `cs []*callback` is a list and a pointer into it an index: the recursion of
-- `sortCallback` reads and writes callbacks through such pointers, so a state with the list is
-- passed along. `getRIndex` returns -1 for a missing name: here `none`.
pub mod Index
pub mod Keeps
pub mod Extends
pub mod Order
pub mod Names
pub mod Plain
pub mod Cycle
pub mod Handlers
pub mod Compile
mod Tests
use pewter_rinse_moor.Prelude.{
  ℕ, zero, suc, Bool, true, false, not, ◌&&◌, ◌||◌, Option, none, some, List, [], ◌∷◌, ◌++◌, map,
  Bytes, codes, Equality, equal_bytes, ◌==◌, ltb, if◌then◌else◌, length, get_elem?, update,
  insert_at,
}

pub record Callback (Db : Type 0) : Type 0 where
  pub name : Bytes
  pub before : Bytes
  pub after : Bytes
  pub remove : Bool
  pub replace : Bool
  pub match_fn : Option (Db → Bool)
  pub handler : Option (Db → Db)

-- The wildcard of `Before("*")` and `After("*")`.
abbrev pub star : Bytes
star = b'*' ∷ []

-- The loop of `getRIndex`: the next index to look at is the one below the first argument.
unfoldable pub scan_down : ℕ → List Bytes → Bytes → Option ℕ
scan_down zero strs str = none
scan_down (suc i) strs str =
    let rest = scan_down i strs str in
    elim (get_elem? strs i) [ none ↦ rest | some s ↦ if s == str then some i else rest ]

pub get_r_index : List Bytes → Bytes → Option ℕ
get_r_index strs str = scan_down (length strs) strs str

abbrev pub is_none {ℓ} : {A : Type ℓ} → Option A → Bool
is_none none = true
is_none (some a) = false

-- What `sortCallback` reads and writes: the callbacks and the names sorted so far.
pub record Sorting (Db : Type 0) : Type 0 where
  pub cs : List (Callback Db)
  pub sorted : List Bytes

-- `conflict` is the returned error with its two names, `diverged` a recursion that has used up its
-- fuel, `fault` a pointer that leads to no callback.
pub data Outcome (Db : Type 0) : Type 0 where
  done : Sorting Db → Outcome Db
  conflict : Sorting Db → Bytes → Bytes → Outcome Db
  diverged : Outcome Db
  fault : Outcome Db

infixl 5 ◌>>=◌
abbrev pub ◌>>=◌ : {Db : Type 0} → Outcome Db → (Sorting Db → Outcome Db) → Outcome Db
done st >>= f = f st
conflict st a b >>= f = conflict st a b
diverged >>= f = diverged
fault >>= f = fault

module _ {Db : Type 0} where
  -- `cs[idx].after = name`
  abbrev pub set_after : ℕ → Bytes → Sorting Db → Sorting Db
  set_after idx name st = record st { cs = update idx (λ c. record c { after = name }) st.cs }

  -- `if after.before == "" { after.before = name }`
  abbrev pub set_before_if_empty : ℕ → Bytes → Sorting Db → Sorting Db
  set_before_if_empty idx name st = record st {
    cs = update idx (λ c. if c.before == [] then record c { before = name } else c) st.cs;
  }

  -- a read through the pointer `i`
  abbrev pub with_callback : ℕ → Sorting Db → (Callback Db → Sorting Db → Outcome Db) → Outcome Db
  with_callback i st f = elim (get_elem? st.cs i) [ none ↦ fault | some c ↦ f c st ]

  module _ (names : List Bytes) where
    -- in the part under `if c.before != ""`, the two cases that look for the name
    unfoldable pub before_name : Callback Db → Sorting Db → Outcome Db
    before_name c st = elim (get_r_index st.sorted c.before) [
      | some sorted_idx ↦ elim (get_r_index st.sorted c.name) [
        | none ↦ done (record st { sorted = insert_at sorted_idx c.name st.sorted })
        | some cur_idx ↦ if ltb sorted_idx cur_idx then conflict st c.name c.before else done st
      ]
      | none ↦ elim (get_r_index names c.before) [
        | none ↦ done st
        | some idx ↦ done (set_after idx c.name st)
      ]
    ]

    -- the part of `sortCallback` under `if c.before != ""`
    unfoldable pub before_step : Callback Db → Sorting Db → Outcome Db
    before_step c st =
        if c.before == []
        then done st
        else if c.before == star && ltb 0 (length st.sorted)
        then (if is_none (get_r_index st.sorted c.name)
            then done (record st { sorted = c.name ∷ st.sorted })
            else done st)
        else before_name c st

    -- In the part under `if c.after != ""`, the two cases that look for the name; `again` is
    -- `sortCallback` itself, for its two calls, and `i` the pointer to `c`.
    unfoldable pub after_name :
        (ℕ → Sorting Db → Outcome Db) → ℕ → Callback Db → Sorting Db → Outcome Db
    after_name again i c st = elim (get_r_index st.sorted c.after) [
      | some sorted_idx ↦ elim (get_r_index st.sorted c.name) [
        | none ↦ done (record st { sorted = st.sorted ++ c.name ∷ [] })
        | some cur_idx ↦ if ltb cur_idx sorted_idx then conflict st c.name c.after else done st
      ]
      | none ↦ elim (get_r_index names c.after) [
        | none ↦ done st
        | some idx ↦ again idx (set_before_if_empty idx c.name st) >>= again i
      ]
    ]

    -- the part under `if c.after != ""`
    unfoldable pub after_step :
        (ℕ → Sorting Db → Outcome Db) → ℕ → Callback Db → Sorting Db → Outcome Db
    after_step again i c st =
        if c.after == []
        then done st
        else if c.after == star && ltb 0 (length st.sorted)
        then (if is_none (get_r_index st.sorted c.name)
            then done (record st { sorted = st.sorted ++ c.name ∷ [] })
            else done st)
        else after_name again i c st

    -- the last part: a callback that is not sorted yet goes to the end
    unfoldable pub append_step : Callback Db → Sorting Db → Outcome Db
    append_step c st =
        if is_none (get_r_index st.sorted c.name)
        then done (record st { sorted = st.sorted ++ c.name ∷ [] })
        else done st

    -- the three parts on a pointer
    abbrev pub before_at : ℕ → Sorting Db → Outcome Db
    before_at i st = with_callback i st before_step

    abbrev pub after_at : (ℕ → Sorting Db → Outcome Db) → ℕ → Sorting Db → Outcome Db
    after_at again i st = with_callback i st (after_step again i)

    abbrev pub append_at : ℕ → Sorting Db → Outcome Db
    append_at i st = with_callback i st append_step

    -- `sortCallback` on the pointer `i`; each part reads `c` anew
    unfoldable pub sort_callback : ℕ → ℕ → Sorting Db → Outcome Db
    sort_callback zero i st = diverged
    sort_callback (suc fuel) i st =
        before_at i st >>= after_at (sort_callback fuel) i >>= append_at i

    -- the loop `for _, c := range cs`, with the pointers still to visit
    unfoldable pub sort_from : ℕ → ℕ → ℕ → Sorting Db → Outcome Db
    sort_from fuel zero i st = done st
    sort_from fuel (suc n) i st = sort_callback fuel i st >>= sort_from fuel n (suc i)

unfoldable pub contains : List Bytes → Bytes → Bool
contains [] name = false
contains (n ∷ ns) name = n == name || contains ns name

module _ {Db : Type 0} where
  abbrev pub has_star_before : Callback Db → Bool
  has_star_before c = c.before == star

  abbrev pub has_star_after : Callback Db → Bool
  has_star_after c = c.after == star

  -- the comparison that `sortCallbacks` hands to `sort.SliceStable`, of the elements at `i` and `j`
  unfoldable pub less : Callback Db → Callback Db → Bool
  less a b =
      (has_star_before b && not (has_star_before a)) || (has_star_after b && not (has_star_after a))

  -- The loop that collects the names; the second result lists the names that it warns of.
  unfoldable pub collect_names :
      List (Callback Db) → List (Callback Db) → List Bytes → List Bytes × List Bytes
  collect_names cs [] names = (names, [])
  collect_names cs (c ∷ rest) names =
      let (all, warned) = collect_names cs rest (names ++ c.name ∷ []) in
      elim (get_r_index names c.name) [
        | none ↦ (all, warned)
        | some idx ↦ elim (get_elem? cs idx) [
          | none ↦ (all, warned)
          | some d ↦
              if not c.replace && not c.remove && not d.remove
              then (all, c.name ∷ warned)
              else (all, warned)
        ]
      ]

  -- The last loop: the handlers of the sorted names. `none` is an index out of range.
  unfoldable pub collect_fns :
      List Bytes → List (Callback Db) → List Bytes → Option (List (Option (Db → Db)))
  collect_fns names cs [] = some []
  collect_fns names cs (name ∷ rest) =
      let later = collect_fns names cs rest in
      elim (get_r_index names name) [
        | none ↦ none
        | some idx ↦ elim (get_elem? cs idx) [
          | none ↦ none
          | some c ↦ elim later [
            | none ↦ none
            | some fns ↦ some (if c.remove then fns else c.handler ∷ fns)
          ]
        ]
      ]

  -- `removedMap` as the list of its keys
  unfoldable pub removed_names : List (Callback Db) → List Bytes
  removed_names [] = []
  removed_names (c ∷ cs) = if c.remove then c.name ∷ removed_names cs else removed_names cs

  -- `removeCallbacks`
  unfoldable pub remove_callbacks : List (Callback Db) → List Bytes → List (Callback Db)
  remove_callbacks [] name_map = []
  remove_callbacks (c ∷ cs) name_map =
      let rest = remove_callbacks cs name_map in if contains name_map c.name then rest else c ∷ rest

  -- `callback.match == nil || callback.match(p.db)`
  abbrev pub matches : Db → Callback Db → Bool
  matches db c = elim c.match_fn [ none ↦ true | some f ↦ f db ]

  -- the first loop of `compile`: the callbacks that match
  unfoldable pub matching : Db → List (Callback Db) → List (Callback Db)
  matching db [] = []
  matching db (c ∷ cs) = let rest = matching db cs in if matches db c then c ∷ rest else rest

-- What `sortCallbacks` returns: the slice, whose elements it has written to, with the handlers or an
-- error.
pub data Sorted (Db : Type 0) : Type 0 where
  fns : List (Callback Db) → List (Option (Db → Db)) → Sorted Db
  failed : List (Callback Db) → Sorted Db
  no_result : Sorted Db

pub record Processor (Db : Type 0) : Type 0 where
  pub db : Db
  pub clauses : List Bytes
  pub fns : List (Option (Db → Db))
  pub callbacks : List (Callback Db)

module _ {Db : Type 0} (names : List Bytes) where
  -- the handlers of the sorted names, or the error
  unfoldable pub finish_sort : Outcome Db → Sorted Db
  finish_sort (done st) = elim (collect_fns names st.cs st.sorted) [
    | none ↦ no_result
    | some fs ↦ Sorted.fns st.cs fs
  ]
  finish_sort (conflict st name other) = failed st.cs
  finish_sort diverged = no_result
  finish_sort fault = no_result

-- The fuel bounds the recursion of `sortCallback`.
module _ {Db : Type 0} (fuel : ℕ) where
  -- the names of the callbacks and their sorting, behind the call of `sort.SliceStable`
  unfoldable pub sort_names : List (Callback Db) → Outcome Db
  sort_names cs =
      sort_from (collect_names cs cs []).0 fuel (length cs) 0 (record { cs = cs; sorted = [] })

  unfoldable pub sorted_fns : List (Callback Db) → Sorted Db
  sorted_fns cs = finish_sort (collect_names cs cs []).0 (sort_names cs)

-- `p.callbacks` holds the sorted slice, and `p.fns` what the sorting returned.
unfoldable pub install : {Db : Type 0} → Processor Db → Sorted Db → Option (Processor Db × Bool)
install p (Sorted.fns cs fs) = some (record p { callbacks = cs; fns = fs }, false)
install p (failed cs) = some (record p { callbacks = cs; fns = [] }, true)
install p no_result = none

-- `sort.SliceStable` is the standard library's: a parameter, which orders the slice by a
-- comparison.
module _ {Db : Type 0}
    (stable : (Callback Db → Callback Db → Bool) → List (Callback Db) → List (Callback Db))
    (fuel : ℕ) where
  unfoldable pub sort_callbacks : List (Callback Db) → Sorted Db
  sort_callbacks cs = sorted_fns fuel (stable less cs)

  -- `compile`: the new processor, with whether an error came back; `none` if it did not return
  unfoldable pub compile : Processor Db → Option (Processor Db × Bool)
  compile p =
      let matched = matching p.db p.callbacks in
      let removed = removed_names p.callbacks in
      let kept = if ltb 0 (length removed) then remove_callbacks matched removed else matched in
      install p (sort_callbacks kept)

  abbrev add : Processor Db → Callback Db → Processor Db
  add p c = record p { callbacks = p.callbacks ++ c ∷ [] }

  -- `Register`, `Remove` and `Replace` on a callback that `Before`, `After` or `Match` may have begun
  unfoldable pub register :
      Processor Db → Callback Db → Bytes → Option (Db → Db) → Option (Processor Db × Bool)
  register p c name fn = compile (add p (record c { name = name; handler = fn }))

  unfoldable pub remove : Processor Db → Callback Db → Bytes → Option (Processor Db × Bool)
  remove p c name = compile (add p (record c { name = name; remove = true }))

  unfoldable pub replace :
      Processor Db → Callback Db → Bytes → Option (Db → Db) → Option (Processor Db × Bool)
  replace p c name fn = compile (add p (record c { name = name; handler = fn; replace = true }))

module _ {Db : Type 0} where
  -- `&callback{processor: p}`, to which `Before`, `After` and `Match` set a field
  abbrev pub blank : Callback Db
  blank = record {
    name = [];
    before = [];
    after = [];
    remove = false;
    replace = false;
    match_fn = none;
    handler = none;
  }

  abbrev pub with_before : Callback Db → Bytes → Callback Db
  with_before c name = record c { before = name }

  abbrev pub with_after : Callback Db → Bytes → Callback Db
  with_after c name = record c { after = name }

  -- `Match` begins a callback; it cannot be added to one
  abbrev pub with_match : (Db → Bool) → Callback Db
  with_match fc = record blank { match_fn = some fc }

  -- `Get`: the loop from the last callback down
  unfoldable pub get_from : ℕ → List (Callback Db) → Bytes → Option (Option (Db → Db))
  get_from zero cs name = none
  get_from (suc i) cs name =
      let rest = get_from i cs name in
      elim (get_elem? cs i) [
        | none ↦ rest
        | some c ↦ if c.name == name && not c.remove then some c.handler else rest
      ]

  abbrev pub get : Processor Db → Bytes → Option (Option (Db → Db))
  get p name = get_from (length p.callbacks) p.callbacks name
