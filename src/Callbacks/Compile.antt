-- ===== src/Callbacks/Compile.antt =====
-- What `compile` leaves in the processor: the removed callbacks are gone, and the handlers to run are
-- those of the sorted names.
use mathlib.Core.Path.{subst}
use pewter_rinse_moor.Prelude.{
  ℕ, ◌≡◌, refl, sym, inl, inr, Bool, true, false, some, List, [], ◌∷◌, arith, Bytes, equal_bytes,
  bytes_beq_iff, ltb, if◌then◌else◌, length, Bool-cases, Option-cases, All, All-update, All,
  All-update,
}
use pewter_rinse_moor.Callbacks.{
  Callback, Sorting, Outcome, done, conflict, diverged, fault, sort_names, collect_fns, sorted_fns,
  finish_sort, install, sort_callbacks, compile, Processor, Sorted, failed, no_result,
  removed_names, remove_callbacks, contains, matching, matches, less,
}
use pewter_rinse_moor.Callbacks.Keeps.{
  names_of, Step, insert, after, before, Steps, here, next, Does, sort_from-Does,
}
use pewter_rinse_moor.Callbacks.Names.{collect_names-names_of}

module _ {Db : Type 0} where
  -- Neither marked as a removal nor of a removed name.
  abbrev pub IsLive : List Bytes → Callback Db → Type 0
  IsLive removed c = (c.remove ≡ false) × (contains removed c.name ≡ false)

  -- the names of the callbacks marked as removals are all among the removed ones
  abbrev Covers : List Bytes → Callback Db → Type 0
  Covers removed c = c.remove ≡ true → contains removed c.name ≡ true

  Covers-All :
      (removed : List Bytes) (cs : List (Callback Db))
      → ((n : Bytes) → contains (removed_names cs) n ≡ true → contains removed n ≡ true)
      → All (Covers removed) cs
  unfolding removed_names contains
  Covers-All removed [] h = tt
  Covers-All removed (c ∷ cs) h = (
    λ r. h c.name (ground (arith, bytes_beq_iff c.name c.name)),
    Covers-All removed cs (λ n e. h n (ground arith)),
  )

  matching-All :
      (P : Callback Db → Type 0) (db : Db) (cs : List (Callback Db))
      → All P cs
      → All P (matching db cs)
  unfolding matching
  matching-All P db [] h = tt
  matching-All P db (c ∷ cs) (p, h) = elim (Bool-cases (matches db c)) [
    | inl e ↦ rw e (p, matching-All P db cs h)
    | inr e ↦ rw e (matching-All P db cs h)
  ]

  remove_callbacks-IsLive :
      (removed : List Bytes) (cs : List (Callback Db))
      → All (Covers removed) cs
      → All (IsLive removed) (remove_callbacks cs removed)
  unfolding remove_callbacks
  remove_callbacks-IsLive removed [] h = tt
  remove_callbacks-IsLive removed (c ∷ cs) (p, h) = elim (Bool-cases (contains removed c.name)) [
    | inl e ↦ rw e (remove_callbacks-IsLive removed cs h)
    | inr e ↦ rw e ((ground arith, e), remove_callbacks-IsLive removed cs h)
  ]

  remove_callbacks-nil : (cs : List (Callback Db)) → remove_callbacks cs [] ≡ cs
  unfolding remove_callbacks contains
  remove_callbacks-nil [] = refl
  remove_callbacks-nil (c ∷ cs) = rw (remove_callbacks-nil cs)

  -- the test for an empty `removedMap` changes nothing
  kept_lem :
      (removed : List Bytes) (cs : List (Callback Db))
      → (if ltb 0 (length removed) then remove_callbacks cs removed else cs)
        ≡ remove_callbacks cs removed
  kept_lem [] cs = sym (remove_callbacks-nil cs)
  kept_lem (n ∷ removed) cs = ground arith

  Step-IsLive :
      (names removed : List Bytes) {st st' : Sorting Db}
      → Step names st st'
      → All (IsLive removed) st.cs
      → All (IsLive removed) st'.cs
  Step-IsLive names removed (insert k v b n m) h = h
  Step-IsLive names removed {st} (after idx x v e n) h = All-update _ idx _ st.cs (λ c p. p) h
  Step-IsLive names removed {st} (before idx v) h = All-update _ idx _ st.cs (λ c p. ground arith) h

  Steps-IsLive :
      (names removed : List Bytes) {st st' : Sorting Db}
      → Steps names st st'
      → All (IsLive removed) st.cs
      → All (IsLive removed) st'.cs
  Steps-IsLive names removed here h = h
  Steps-IsLive names removed (next p s) h =
      Step-IsLive names removed s (Steps-IsLive names removed p h)

  -- the callbacks that a sorting leaves, with or without an error
  Leaves : (List (Callback Db) → Type 0) → Sorted Db → Type 0
  Leaves P (Sorted.fns cs fs) = P cs
  Leaves P (failed cs) = P cs
  Leaves P no_result = Unit

  finish_sort-IsLive :
      (names removed all : List Bytes) (st : Sorting Db) (o : Outcome Db)
      → Does names st o
      → All (IsLive removed) st.cs
      → Leaves (All (IsLive removed)) (finish_sort all o)
  unfolding finish_sort Leaves
  finish_sort-IsLive names removed all st (done st') d h =
      let live = Steps-IsLive names removed d h in
      elim (Option-cases (collect_fns all st'.cs st'.sorted)) [
        | inl e ↦ rw (e, Leaves) tt
        | inr (fs, e) ↦ rw (e, Leaves) live
      ]
  finish_sort-IsLive names removed all st (conflict st' a b) d h = Steps-IsLive names removed d h
  finish_sort-IsLive names removed all st diverged d h = tt
  finish_sort-IsLive names removed all st fault d h = tt

  sorted_fns-IsLive :
      (removed : List Bytes) (fuel : ℕ) (cs : List (Callback Db))
      → All (IsLive removed) cs
      → Leaves (All (IsLive removed)) (sorted_fns fuel cs)
  unfolding sorted_fns sort_names
  sorted_fns-IsLive removed fuel cs h =
      let start : Sorting Db = record { cs = cs; sorted = [] } in
      rw collect_names-names_of (
        finish_sort-IsLive (names_of cs) removed (names_of cs) start _
          (sort_from-Does (names_of cs) fuel (length cs) 0 start refl) h)

  -- what the standard library promises of `sort.SliceStable`: no new elements
  abbrev pub KeepsElements :
      ((Callback Db → Callback Db → Bool) → List (Callback Db) → List (Callback Db)) → Type 1
  KeepsElements stable =
      (P : Callback Db → Type 0) (lt : Callback Db → Callback Db → Bool) (cs : List (Callback Db))
      → All P cs
      → All P (stable lt cs)

module _ {Db : Type 0}
    (stable : (Callback Db → Callback Db → Bool) → List (Callback Db) → List (Callback Db))
    (keeps : KeepsElements stable) (fuel : ℕ) where
  install-IsLive :
      (removed : List Bytes) (p : Processor Db) (s : Sorted Db) (p' : Processor Db) (b : Bool)
      → Leaves (All (IsLive removed)) s
      → install p s ≡ some (p', b)
      → All (IsLive removed) p'.callbacks
  unfolding install Leaves
  install-IsLive removed p (Sorted.fns cs fs) p' b h e =
      let q : cs ≡ p'.callbacks = ground arith in subst (All (IsLive removed)) q h
  install-IsLive removed p (failed cs) p' b h e =
      let q : cs ≡ p'.callbacks = ground arith in subst (All (IsLive removed)) q h
  install-IsLive removed p no_result p' b h e = cc

  kept-IsLive :
      (p : Processor Db)
      → All
          (IsLive (removed_names p.callbacks))
          (remove_callbacks (matching p.db p.callbacks) (removed_names p.callbacks))
  kept-IsLive p =
      remove_callbacks-IsLive _ _
        (matching-All _ p.db p.callbacks (Covers-All _ p.callbacks (λ n h. h)))

  -- After a compilation, with or without an error, no callback is left that is marked as a removal
  -- or has the name of one.
  pub compile-IsLive :
      (p p' : Processor Db) (b : Bool)
      → compile stable fuel p ≡ some (p', b)
      → All (IsLive (removed_names p.callbacks)) p'.callbacks
  unfolding compile sort_callbacks
  compile-IsLive p p' b e =
      let removed = removed_names p.callbacks in
      let kept = remove_callbacks (matching p.db p.callbacks) removed in
      let e' : install p (sort_callbacks stable fuel kept) ≡ some (p', b) = rw kept_lem at e in
      install-IsLive removed p (sort_callbacks stable fuel kept) p' b
        (sorted_fns-IsLive removed fuel (stable less kept)
          (keeps (IsLive removed) less kept (kept-IsLive p)))
        e'
