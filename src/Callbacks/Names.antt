-- ===== src/Callbacks/Names.antt =====
-- The names of a sorting: each name of a callback stands there once, and no other does.
use pewter_rinse_moor.Prelude.{
  ℕ, zero, suc, ◌<◌, ◌≡◌, refl, sym, ◌↔◌, inl, inr, some, List, [], ◌∷◌, ◌++◌, arith, Bytes,
  equal_bytes, length, get_elem?, lt-length_of_get, append-nil, append_assoc,
}
use pewter_rinse_moor.Callbacks.{Callback, Sorting, done, sort_from, sort_names, collect_names}
use pewter_rinse_moor.Callbacks.Index.{Has, IsDistinct, IsDistinct-insert_at, Has-insert_at}
use pewter_rinse_moor.Callbacks.Keeps.{
  names_of, get_elem?-names_of, Step, insert, after, before, Steps, here, next, Steps-names,
  sort_from-Does,
}
use pewter_rinse_moor.Callbacks.Order.{IsPlaced, sort_from-IsPlaced}

module _ {Db : Type 0} where
  collect_names-append :
      (cs rest : List (Callback Db)) (acc : List Bytes)
      → (collect_names cs rest acc).0 ≡ acc ++ names_of rest
  unfolding collect_names
  collect_names-append cs [] acc = sym (append-nil acc)
  collect_names-append cs (c ∷ rest) acc =
      let ih = collect_names-append cs rest (acc ++ c.name ∷ []) in
      let e = append_assoc acc (c.name ∷ []) (names_of rest) in ground (arith, ih, e)

  -- The names that the first loop collects are the callbacks', in their order.
  pub collect_names-names_of : (cs : List (Callback Db)) → (collect_names cs cs []).0 ≡ names_of cs
  collect_names-names_of cs = collect_names-append cs cs []

  -- If sorting returns no error, every callback is sorted, and behind the callback that its `After`
  -- names, if one has that name and it is neither its own nor the wildcard.
  pub sort_names-IsPlaced :
      (fuel : ℕ) (cs : List (Callback Db)) (st : Sorting Db)
      → sort_names fuel cs ≡ done st
      → (j : ℕ) → j < length cs
      → IsPlaced (names_of cs) j st
  unfolding sort_names
  sort_names-IsPlaced fuel cs st h j b =
      let start : Sorting Db = record { cs = cs; sorted = [] } in
      let all = sort_from-IsPlaced (names_of cs) fuel (length cs) 0 start refl in
      let e : sort_from (names_of cs) fuel (length cs) 0 start ≡ done st =
        rw collect_names-names_of at h in
      (rw e at all) j (omega arith) (omega arith)

-- The sorted names are distinct, and names of callbacks.
abbrev IsSound : List Bytes → List Bytes → Type 0
IsSound names l = IsDistinct l × ((x : Bytes) → Has x l → Has x names)

module _ {Db : Type 0} (names : List Bytes) where
  Step-IsSound :
      {st st' : Sorting Db} → Step names st st' → IsSound names st.sorted → IsSound names st'.sorted
  Step-IsSound {st} (insert k v b new named) (d, sub) = (
    IsDistinct-insert_at k v st.sorted b new d,
    λ x h. elim (Has-insert_at k v x st.sorted b h) [ inl e ↦ rw e named | inr old ↦ sub x old ],
  )
  Step-IsSound (after idx x v e n) s = s
  Step-IsSound (before idx v) s = s

  pub Steps-IsSound :
      {st st' : Sorting Db}
      → Steps names st st'
      → IsSound names st.sorted
      → IsSound names st'.sorted
  Steps-IsSound here s = s
  Steps-IsSound (next p q) s = Step-IsSound q (Steps-IsSound p s)

module _ {Db : Type 0} where
  pub get_of_names_of :
      (cs : List (Callback Db)) (i : ℕ) (x : Bytes)
      → get_elem? (names_of cs) i ≡ some x
      → (c : Callback Db) × (get_elem? cs i ≡ some c) × (c.name ≡ x)
  get_of_names_of [] i x h = absurd (ground arith)
  get_of_names_of (c ∷ cs) zero x h = (c, refl, ground arith)
  get_of_names_of (c ∷ cs) (suc i) x h = get_of_names_of cs i x h

  pub sort_names-Steps :
      (fuel : ℕ) (cs : List (Callback Db)) (st : Sorting Db)
      → sort_names fuel cs ≡ done st
      → Steps (names_of cs) (record { cs = cs; sorted = [] }) st
  unfolding sort_names
  sort_names-Steps fuel cs st h =
      let start : Sorting Db = record { cs = cs; sorted = [] } in
      let e : sort_from (names_of cs) fuel (length cs) 0 start ≡ done st =
        rw collect_names-names_of at h in
      rw e at (sort_from-Does (names_of cs) fuel (length cs) 0 start refl)

  -- If sorting returns no error, the sorted names are those of the callbacks, each of them once.
  pub sort_names-names :
      (fuel : ℕ) (cs : List (Callback Db)) (st : Sorting Db)
      → sort_names fuel cs ≡ done st
      → IsDistinct st.sorted × ((x : Bytes) → Has x st.sorted ↔ Has x (names_of cs))
  sort_names-names fuel cs st h =
      let steps = sort_names-Steps fuel cs st h in
      let sound =
        Steps-IsSound (names_of cs) steps
          (λ i j x a. absurd (ground arith), λ x a. absurd (ground arith)) in
      (sound.0, λ x. (sound.1 x, Has-sorted x))
    where
      Has-sorted : (x : Bytes) → Has x (names_of cs) → Has x st.sorted
      Has-sorted x (i, at_i) =
          let (c, at_c, named) = get_of_names_of cs i x at_i in
          let (c', at', is_sorted, a) =
            sort_names-IsPlaced fuel cs st h i (lt-length_of_get cs i c at_c) in
          let named' : get_elem? (names_of cs) i ≡ some c'.name =
            rw (← Steps-names (names_of cs) (sort_names-Steps fuel cs st h))
              (get_elem?-names_of st.cs i c' at') in
          let same : c'.name ≡ x = cc in rw same at is_sorted
