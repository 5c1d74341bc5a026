-- ===== src/Callbacks/Handlers.antt =====
-- The handlers that a sorting returns: under each sorted name that of the last callback with the name.
use pewter_rinse_moor.Prelude.{
  ℕ, suc, ◌<◌, ◌≡◌, ◌≢◌, refl, ap, ◌∙◌, false, Option, some, List, [], ◌∷◌, Bytes, equal_bytes,
  get_elem?, All, All-get,
}
use pewter_rinse_moor.Callbacks.{
  Callback, Sorting, done, get_r_index, sort_names, collect_fns, sorted_fns, finish_sort, Sorted,
}
use pewter_rinse_moor.Callbacks.Index.{
  Has, get_r_index-eq-some, get_r_index-last, get_r_index_of_Has,
}
use pewter_rinse_moor.Callbacks.Keeps.{names_of}
use pewter_rinse_moor.Callbacks.Extends.{SameAs, Steps-Extends}
use pewter_rinse_moor.Callbacks.Names.{
  collect_names-names_of, sort_names-names, sort_names-Steps, get_of_names_of,
}

All-Has : (names l : List Bytes) → ((x : Bytes) → Has x l → Has x names) → All (λ n. Has n names) l
All-Has names [] h = tt
All-Has names (n ∷ l) h = (h n (0, refl), All-Has names l (λ x p. h x (suc p.0, p.1)))

module _ {Db : Type 0} where
  -- The callback at an index is the last one with the name.
  abbrev pub IsLast : List (Callback Db) → Bytes → ℕ → Type 0
  IsLast cs n i =
      (get_elem? (names_of cs) i ≡ some n) × ((j : ℕ) → i < j → get_elem? (names_of cs) j ≢ some n)

  -- One handler for each name: that of the last callback with the name.
  pub data Runs (cs : List (Callback Db)) : List Bytes → List (Option (Db → Db)) → Type 0 where
    nil : Runs cs [] []
    cons :
        (n : Bytes) (i : ℕ) (c : Callback Db) {ns : List Bytes} {fs : List (Option (Db → Db))}
        → IsLast cs n i
        → get_elem? cs i ≡ some c
        → Runs cs ns fs
        → Runs cs (n ∷ ns) (c.handler ∷ fs)

  collect_fns-cons :
      (names : List Bytes) (cs : List (Callback Db)) (n : Bytes) (ns : List Bytes) (i : ℕ)
      (c : Callback Db) (fs : List (Option (Db → Db)))
      → get_r_index names n ≡ some i
      → get_elem? cs i ≡ some c
      → c.remove ≡ false
      → collect_fns names cs ns ≡ some fs
      → collect_fns names cs (n ∷ ns) ≡ some (c.handler ∷ fs)
  unfolding collect_fns
  collect_fns-cons names cs n ns i c fs found at_i l e = rw (found, at_i, e, l, collect_fns)

  finish_sort-fns :
      (names : List Bytes) (st : Sorting Db) (fs : List (Option (Db → Db)))
      → collect_fns names st.cs st.sorted ≡ some fs
      → finish_sort names (done st) ≡ Sorted.fns st.cs fs
  unfolding finish_sort
  finish_sort-fns names st fs e = rw (e, finish_sort)

  module _ (cs cs' : List (Callback Db)) (sorted : List Bytes)
      (kept : (i : ℕ) (c : Callback Db)
        → get_elem? cs i ≡ some c
        → (c' : Callback Db) × (get_elem? cs' i ≡ some c') × SameAs sorted c c')
      (live : All (λ c. c.remove ≡ false) cs) where
    collect_fns-Runs :
        (ns : List Bytes)
        → All (λ n. Has n (names_of cs)) ns
        → (fs : List (Option (Db → Db))) × (collect_fns (names_of cs) cs' ns ≡ some fs)
          × Runs cs ns fs
    collect_fns-Runs [] h = ([], unfold collect_fns in refl, nil)
    collect_fns-Runs (n ∷ ns) (has, h) =
        let (fs, e, r) = collect_fns-Runs ns h in
        let (i, found) = get_r_index_of_Has (names_of cs) n has in
        let (c, at_i, named) = get_of_names_of cs i n (get_r_index-eq-some _ n i found) in
        let (c', at', same) = kept i c at_i in
        let l : c'.remove ≡ false =
          same.remove ∙ All-get (λ c. c.remove ≡ false) cs live i c at_i in
        let e' = collect_fns-cons (names_of cs) cs' n ns i c' fs found at' l e in
        let last : IsLast cs n i = (
          get_r_index-eq-some (names_of cs) n i found,
          λ j lt. get_r_index-last (names_of cs) n i j found lt,
        ) in
        (c.handler ∷ fs, e' ∙ ap (λ x. some (x ∷ fs)) same.handler, cons n i c last at_i r)

  -- If no callback is a removal and sorting returns no error, then the handlers are found, one for each
  -- sorted name in the order of the names: that of the last callback with the name, behind which no
  -- callback has it.
  pub sorted_fns-Runs :
      (fuel : ℕ) (cs : List (Callback Db)) (st : Sorting Db)
      → All (λ c. c.remove ≡ false) cs
      → sort_names fuel cs ≡ done st
      → (fs : List (Option (Db → Db))) × (sorted_fns fuel cs ≡ Sorted.fns st.cs fs)
        × Runs cs st.sorted fs
  unfolding sorted_fns
  sorted_fns-Runs fuel cs st live h =
      let x = Steps-Extends (names_of cs) refl (sort_names-Steps fuel cs st h) in
      let all = All-Has (names_of cs) st.sorted (λ n. ((sort_names-names fuel cs st h).1 n).0) in
      let (fs, e, r) = collect_fns-Runs cs st.cs [] x.kept live st.sorted all in
      let e' = finish_sort-fns (names_of cs) st fs e in (fs, simp (h, collect_names-names_of) e', r)
