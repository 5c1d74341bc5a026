-- ===== src/Callbacks/Order.antt =====
-- `After` is respected: in the sorted names, what a callback comes after stands before it.
use native.Mathlib.Decide.{ℕ_discrete}
use pewter_rinse_moor.Prelude.{
  ℕ, zero, suc, ◌+◌, ◌<◌, ◌≤◌, ◌≡◌, ◌∙◌, ◌≢◌, inl, inr, some, List, [], ◌∷◌, ◌++◌, ◌&&◌, arith,
  Bytes, equal_bytes, bytes_beq_iff, ◌==◌, ltb, length, get_elem?, Bool-cases, Option-cases,
  lt-length_of_get, insert_at-length, get_elem?-insert_self, get_elem?-insert_lt,
}
use pewter_rinse_moor.Callbacks.{
  Callback, Sorting, Outcome, done, conflict, diverged, fault, ◌>>=◌, star, get_r_index,
  set_before_if_empty, before_step, after_name, after_step, append_step, with_callback, before_at,
  after_at, append_at, sort_callback, sort_from,
}
use pewter_rinse_moor.Callbacks.Index.{
  Has, IsBefore, Grows-append, Has-Grows, IsBefore-Grows, get_r_index-eq-some, get_r_index-eq-none,
}
use pewter_rinse_moor.Callbacks.Keeps.{
  names_of, before, Steps, Steps-Step, Rec, Ensures, Ensures->>=, Ensures-map, Ensures-both,
  Does-Ensures, before_step-Does, with_callback-Does, Steps-names, sort_callback-Does,
  sort_from-Does,
}
use pewter_rinse_moor.Callbacks.Extends.{Extends, Steps-Extends}

IsBefore-append : (x y : Bytes) (l : List Bytes) → Has x l → IsBefore x y (l ++ y ∷ [])
IsBefore-append x y l (i, h) =
    let b = lt-length_of_get l i x h in
    rw insert_at-length (
      i,
      length l,
      b,
      rw (get_elem?-insert_lt (length l) i y l b (omega arith)) h,
      get_elem?-insert_self (length l) y l (omega arith),
    )

module _ {Db : Type 0} where
  -- Its name stands after the one that its `after` mentions, if that is a name of another callback.
  abbrev pub IsAfter : List Bytes → List Bytes → Callback Db → Type 0
  IsAfter names l c =
      c.after ≢ []
      → c.after ≢ star
      → c.after ≢ c.name
      → Has c.after names
      → IsBefore c.after c.name l

  -- The callback at `i` is sorted, behind what it comes after.
  abbrev pub IsPlaced : List Bytes → ℕ → Sorting Db → Type 0
  IsPlaced names i st =
      (c : Callback Db) × (get_elem? st.cs i ≡ some c)
      × Has c.name st.sorted
      × IsAfter names st.sorted c

module _ {Db : Type 0} (names : List Bytes) where
  IsAfter-Extends :
      {st st' : Sorting Db} (x : Extends st st') (c c' : Callback Db)
      → c'.after ≡ c.after
      → c'.name ≡ c.name
      → IsAfter names st.sorted c
      → IsAfter names st'.sorted c'
  IsAfter-Extends {st} {st'} x c c' a n p =
      rw (a, n) (λ h1 h2 h3 h4. IsBefore-Grows _ _ st.sorted st'.sorted x.grows (p h1 h2 h3 h4))

  -- once placed, a callback stays placed
  pub IsPlaced-Steps :
      (i : ℕ) {st st' : Sorting Db}
      → names_of st.cs ≡ names
      → Steps names st st'
      → IsPlaced names i st
      → IsPlaced names i st'
  IsPlaced-Steps i {st} {st'} q p (c, e, has, placed) =
      let x = Steps-Extends names q p in
      let (c', e', s) = x.kept i c e in
      (
        c',
        e',
        rw s.name (Has-Grows c.name st.sorted st'.sorted x.grows has),
        IsAfter-Extends x c c' (s.after has) s.name placed,
      )

  -- what the part under `if c.after != ""` achieves
  abbrev Follows : ℕ → Sorting Db → Type 0
  Follows i st = (c : Callback Db) × (get_elem? st.cs i ≡ some c) × IsAfter names st.sorted c

  Follows-IsPlaced : (i : ℕ) (o : Outcome Db) → Ensures (IsPlaced names i) o → Ensures (Follows i) o
  Follows-IsPlaced i (done st) (c, e, has, a) = (c, e, a)
  Follows-IsPlaced i (conflict st a b) h = tt
  Follows-IsPlaced i diverged h = tt
  Follows-IsPlaced i fault h = tt

  -- the recursive calls place their callbacks
  abbrev Places : (ℕ → Sorting Db → Outcome Db) → Type 0
  Places again =
      (i : ℕ) (st : Sorting Db) → names_of st.cs ≡ names → Ensures (IsPlaced names i) (again i st)

  module _ (again : ℕ → Sorting Db → Outcome Db) (does : Rec names again) (rec : Places again)
      (i : ℕ) (c : Callback Db) (st : Sorting Db) (q : names_of st.cs ≡ names)
      (at_i : get_elem? st.cs i ≡ some c) where
    after_name-Follows : Ensures (Follows i) (after_name names again i c st)
    unfolding after_name
    after_name-Follows = elim (Option-cases (get_r_index st.sorted c.after)) [
      | inl e ↦ elim (Option-cases (get_r_index names c.after)) [
        | inl n ↦
            rw (e, n, after_name)
              (c, at_i, λ h1 h2 h3 h4. absurd (get_r_index-eq-none names c.after n h4))
        | inr (idx, n) ↦
            let st1 = set_before_if_empty idx c.name st in
            let q1 : names_of st1.cs ≡ names =
              Steps-names names {st = st} (Steps-Step names (before idx c.name)) ∙ q in
            rw (e, n, after_name)
              (Ensures->>= (Steps names st1) (Follows i) (again idx st1) (again i)
                (Does-Ensures names st1 (again idx st1) (does idx st1 q1))
                (λ st2 p. Follows-IsPlaced i (again i st2) (rec i st2 (Steps-names names p ∙ q1))))
      ]
      | inr (k, e) ↦
          let ek = get_r_index-eq-some st.sorted c.after k e in
          elim (Option-cases (get_r_index st.sorted c.name)) [
            | inl n ↦ rw (e, n, after_name) (c, at_i, λ h1 h2 h3 h4. IsBefore-append _ _ _ (k, ek))
            | inr (cur, n) ↦
                let en = get_r_index-eq-some st.sorted c.name cur n in
                elim (Bool-cases (ltb cur k)) [
                  | inl t ↦ rw (e, n, t, after_name) tt
                  | inr t ↦
                      rw (e, n, t, after_name)
                        (c, at_i, λ h1 h2 h3 h4. (k, cur, ground arith, ek, en))
                ]
          ]
    ]

    after_step-Follows : Ensures (Follows i) (after_step names again i c st)
    unfolding after_step
    after_step-Follows = elim (Bool-cases (c.after == [])) [
      | inl e ↦ rw e (c, at_i, λ h1 h2 h3 h4. absurd (h1 ((bytes_beq_iff c.after []).0 e)))
      | inr e ↦ elim (Bool-cases (c.after == star && ltb 0 (length st.sorted))) [
        | inl e2 ↦
            let is_star : c.after ≡ star = (bytes_beq_iff c.after star).0 (ground arith) in
            elim (Option-cases (get_r_index st.sorted c.name)) [
              | inl n ↦ rw (e, e2, n) (c, at_i, λ h1 h2 h3 h4. absurd (h2 is_star))
              | inr (j, n) ↦ rw (e, e2, n) (c, at_i, λ h1 h2 h3 h4. absurd (h2 is_star))
            ]
        | inr e2 ↦ rw (e, e2) after_name-Follows
      ]
    ]

  append_step-IsPlaced :
      (i : ℕ) (c : Callback Db) (st : Sorting Db)
      → get_elem? st.cs i ≡ some c
      → IsAfter names st.sorted c
      → Ensures (IsPlaced names i) (append_step names c st)
  unfolding append_step
  append_step-IsPlaced i c st at_i a = elim (Option-cases (get_r_index st.sorted c.name)) [
    | inl n ↦ rw n (
      c,
      at_i,
      (
        length st.sorted,
        rw insert_at-length (get_elem?-insert_self _ c.name st.sorted (omega arith)),
      ),
      λ h1 h2 h3 h4. IsBefore-Grows _ _ st.sorted _ (Grows-append c.name st.sorted) (a h1 h2 h3 h4),
    )
    | inr (k, n) ↦ rw n (c, at_i, (k, get_r_index-eq-some _ _ _ n), a)
  ]

  append_at-IsPlaced :
      (i : ℕ) (st : Sorting Db) → Follows i st → Ensures (IsPlaced names i) (append_at names i st)
  append_at-IsPlaced i st (c, e, a) = rw (e, with_callback) (append_step-IsPlaced i c st e a)

  after_at-Follows :
      (again : ℕ → Sorting Db → Outcome Db)
      → Rec names again
      → Places again
      → (i : ℕ) (st : Sorting Db) → names_of st.cs ≡ names
      → Ensures (Follows i) (after_at names again i st)
  after_at-Follows again does rec i st q = elim (Option-cases (get_elem? st.cs i)) [
    | inl e ↦ rw (e, with_callback) tt
    | inr (c, e) ↦ rw (e, with_callback) (after_step-Follows again does rec i c st q e)
  ]

  -- A run of `sortCallback` that returns no error places its callback.
  pub sort_callback-IsPlaced : (fuel : ℕ) → Places (sort_callback names fuel)
  unfolding sort_callback
  sort_callback-IsPlaced zero i st q = tt
  sort_callback-IsPlaced (suc fuel) i st q =
      let again = sort_callback names fuel in
      Ensures->>= (Follows i) (IsPlaced names i) (before_at names i st >>= after_at names again i)
        (append_at names i)
        (Ensures->>= (Steps names st) (Follows i) (before_at names i st) (after_at names again i)
          (Does-Ensures names st _ (
            with_callback-Does names i st (before_step names) q (λ c. before_step-Does names c st)))
          (λ st1 p.
            after_at-Follows again (sort_callback-Does names fuel) (sort_callback-IsPlaced fuel) i
              st1 (Steps-names names p ∙ q)))
        (append_at-IsPlaced i)

  -- The loop places every callback from `i` on.
  pub sort_from-IsPlaced :
      (fuel n i : ℕ) (st : Sorting Db)
      → names_of st.cs ≡ names
      → Ensures
          (λ st'. (j : ℕ) → i ≤ j → j < i + n → IsPlaced names j st')
          (sort_from names fuel n i st)
  unfolding sort_from
  sort_from-IsPlaced fuel zero i st q = λ j a b. absurd (omega arith)
  sort_from-IsPlaced fuel (suc n) i st q =
      Ensures->>= (λ st1. Steps names st st1 × IsPlaced names i st1) _
        (sort_callback names fuel i st) (sort_from names fuel n (suc i))
        (Ensures-both (Steps names st) (IsPlaced names i) (sort_callback names fuel i st)
          (Does-Ensures names st _ (sort_callback-Does names fuel i st q))
          (sort_callback-IsPlaced fuel i st q))
        (λ st1 p.
          let q1 = Steps-names names p.0 ∙ q in
          let o = sort_from names fuel n (suc i) st1 in
          Ensures-map
            (λ st'.
              Steps names st1 st' × ((j : ℕ) → suc i ≤ j → j < suc i + n → IsPlaced names j st'))
            _ o
            (Ensures-both (Steps names st1) _ o
              (Does-Ensures names st1 o (sort_from-Does names fuel n (suc i) st1 q1))
              (sort_from-IsPlaced fuel n (suc i) st1 q1))
            (λ st' r j a b. elim (ℕ_discrete i j) [
              | yes e ↦ rw (← e) (IsPlaced-Steps i q1 r.0 p.1)
              | no e ↦ r.1 j (omega arith) (omega arith)
            ]))
