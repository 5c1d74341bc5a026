-- ===== src/Callbacks/Keeps.antt =====
-- What `sortCallback` may do to its state: a relation of single steps, which every run follows.
use pewter_rinse_moor.Prelude.{
  ℕ, zero, suc, ◌≤◌, ◌≡◌, refl, ap, ◌∙◌, inl, inr, none, some, List, [], ◌∷◌, ◌++◌, ◌&&◌, arith,
  Bytes, equal_bytes, ◌==◌, ltb, length, get_elem?, update, insert_at, Bool-cases, Option-cases,
  lt-length_of_get, insert_at-length,
}
use pewter_rinse_moor.Callbacks.{
  Callback, Sorting, Outcome, done, conflict, diverged, fault, ◌>>=◌, star, get_r_index, set_after,
  set_before_if_empty, before_name, before_step, after_name, after_step, append_step, with_callback,
  before_at, after_at, append_at, sort_callback, sort_from,
}
use pewter_rinse_moor.Callbacks.Index.{Has, get_r_index-eq-some, get_r_index-eq-none}

module _ {Db : Type 0} where
  abbrev pub names_of : List (Callback Db) → List Bytes
  names_of [] = []
  names_of (c ∷ cs) = c.name ∷ names_of cs

  pub get_elem?-names_of :
      (cs : List (Callback Db)) (i : ℕ) (c : Callback Db)
      → get_elem? cs i ≡ some c
      → get_elem? (names_of cs) i ≡ some c.name
  get_elem?-names_of [] i c h = absurd (ground arith)
  get_elem?-names_of (d ∷ cs) zero c h = ground arith
  get_elem?-names_of (d ∷ cs) (suc i) c h = get_elem?-names_of cs i c h

  names_of-update :
      (i : ℕ) (f : Callback Db → Callback Db) (cs : List (Callback Db))
      → ((c : Callback Db) → (f c).name ≡ c.name)
      → names_of (update i f cs) ≡ names_of cs
  names_of-update i f [] h = refl
  names_of-update zero f (c ∷ cs) h = ap (λ n. n ∷ names_of cs) (h c)
  names_of-update (suc i) f (c ∷ cs) h = ap (◌∷◌ c.name) (names_of-update i f cs h)

  -- A result that is no error has the property.
  abbrev pub Ensures {ℓ} : (Sorting Db → Type ℓ) → Outcome Db → Type ℓ
  Ensures P (done st) = P st
  Ensures P (conflict st a b) = Unit
  Ensures P diverged = Unit
  Ensures P fault = Unit

  pub Ensures->>= {ℓ κ} :
      (P : Sorting Db → Type ℓ) (Q : Sorting Db → Type κ) (o : Outcome Db)
      (f : Sorting Db → Outcome Db)
      → Ensures P o
      → ((st : Sorting Db) → P st → Ensures Q (f st))
      → Ensures Q (o >>= f)
  Ensures->>= P Q (done st) f p k = k st p
  Ensures->>= P Q (conflict st a b) f p k = tt
  Ensures->>= P Q diverged f p k = tt
  Ensures->>= P Q fault f p k = tt

  pub Ensures-map {ℓ κ} :
      (P : Sorting Db → Type ℓ) (Q : Sorting Db → Type κ) (o : Outcome Db)
      → Ensures P o
      → ((st : Sorting Db) → P st → Q st)
      → Ensures Q o
  Ensures-map P Q (done st) p f = f st p
  Ensures-map P Q (conflict st a b) p f = tt
  Ensures-map P Q diverged p f = tt
  Ensures-map P Q fault p f = tt

  pub Ensures-both {ℓ κ} :
      (P : Sorting Db → Type ℓ) (Q : Sorting Db → Type κ) (o : Outcome Db)
      → Ensures P o
      → Ensures Q o
      → Ensures (λ st. P st × Q st) o
  Ensures-both P Q (done st) p q = (p, q)
  Ensures-both P Q (conflict st a b) p q = tt
  Ensures-both P Q diverged p q = tt
  Ensures-both P Q fault p q = tt

module _ {Db : Type 0} (names : List Bytes) where
  -- A step puts a new name somewhere among the sorted ones, or writes to a callback. An `after` is
  -- written only while the name of its callback is not sorted.
  pub data Step (st : Sorting Db) : Sorting Db → Type 0 where
    insert :
        (k : ℕ) (v : Bytes)
        → k ≤ length st.sorted
        → ¬ Has v st.sorted
        → Has v names
        → Step st (record st { sorted = insert_at k v st.sorted })
    after :
        (idx : ℕ) (x v : Bytes)
        → get_elem? names idx ≡ some x
        → ¬ Has x st.sorted
        → Step st (set_after idx v st)
    before : (idx : ℕ) (v : Bytes) → Step st (set_before_if_empty idx v st)

  pub data Steps (st : Sorting Db) : Sorting Db → Type 0 where
    here : Steps st st
    next : {st' st'' : Sorting Db} → Steps st st' → Step st' st'' → Steps st st''

  -- The result has come by steps, be it an error.
  abbrev pub Does : Sorting Db → Outcome Db → Type 0
  Does st (done st') = Steps st st'
  Does st (conflict st' a b) = Steps st st'
  Does st diverged = Unit
  Does st fault = Unit

  pub Steps-trans : {st st' st'' : Sorting Db} → Steps st st' → Steps st' st'' → Steps st st''
  Steps-trans p here = p
  Steps-trans p (next q s) = next (Steps-trans p q) s

  pub Steps-Step : {st st' : Sorting Db} → Step st st' → Steps st st'
  Steps-Step s = next here s

  pub Does-after : (st st' : Sorting Db) (o : Outcome Db) → Steps st st' → Does st' o → Does st o
  Does-after st st' (done u) p q = Steps-trans p q
  Does-after st st' (conflict u a b) p q = Steps-trans p q
  Does-after st st' diverged p q = tt
  Does-after st st' fault p q = tt

  pub Does-Ensures : (st : Sorting Db) (o : Outcome Db) → Does st o → Ensures (Steps st) o
  Does-Ensures st (done st') d = d
  Does-Ensures st (conflict st' a b) d = tt
  Does-Ensures st diverged d = tt
  Does-Ensures st fault d = tt

  Does->>= :
      (st : Sorting Db) (o : Outcome Db) (f : Sorting Db → Outcome Db)
      → Does st o
      → ((st' : Sorting Db) → Steps st st' → Does st' (f st'))
      → Does st (o >>= f)
  Does->>= st (done st') f p k = Does-after st st' (f st') p (k st' p)
  Does->>= st (conflict st' a b) f p k = p
  Does->>= st diverged f p k = tt
  Does->>= st fault f p k = tt

  -- a name that is not sorted may go to the end
  append_Step :
      (v : Bytes) (st : Sorting Db)
      → get_r_index st.sorted v ≡ none
      → Has v names
      → Steps st (record st { sorted = st.sorted ++ v ∷ [] })
  append_Step v st n h =
      rw insert_at-length
        (Steps-Step (insert (length st.sorted) v (omega arith) (get_r_index-eq-none _ _ n) h))

  pub append_step-Does :
      (c : Callback Db) (st : Sorting Db) → Has c.name names → Does st (append_step names c st)
  unfolding append_step
  append_step-Does c st h = elim (Option-cases (get_r_index st.sorted c.name)) [
    | inl n ↦ rw n (append_Step c.name st n h)
    | inr (i, n) ↦ rw n here
  ]

  before_name-Does :
      (c : Callback Db) (st : Sorting Db) → Has c.name names → Does st (before_name names c st)
  unfolding before_name
  before_name-Does c st h = elim (Option-cases (get_r_index st.sorted c.before)) [
    | inl e ↦ elim (Option-cases (get_r_index names c.before)) [
      | inl n ↦ rw (e, n, before_name) here
      | inr (idx, n) ↦
          rw (e, n, before_name)
            (Steps-Step
              (after idx c.before c.name (get_r_index-eq-some _ _ _ n) (get_r_index-eq-none _ _ e)))
    ]
    | inr (k, e) ↦ elim (Option-cases (get_r_index st.sorted c.name)) [
      | inl n ↦
          let b = lt-length_of_get st.sorted k c.before (get_r_index-eq-some _ _ _ e) in
          rw (e, n, before_name)
            (Steps-Step (insert k c.name (omega arith) (get_r_index-eq-none _ _ n) h))
      | inr (cur, n) ↦ elim (Bool-cases (ltb k cur)) [
        | inl t ↦ rw (e, n, t, before_name) here
        | inr t ↦ rw (e, n, t, before_name) here
      ]
    ]
  ]

  pub before_step-Does :
      (c : Callback Db) (st : Sorting Db) → Has c.name names → Does st (before_step names c st)
  unfolding before_step
  before_step-Does c st h = elim (Bool-cases (c.before == [])) [
    | inl e ↦ rw e here
    | inr e ↦ elim (Bool-cases (c.before == star && ltb 0 (length st.sorted))) [
      | inl e2 ↦ elim (Option-cases (get_r_index st.sorted c.name)) [
        | inl n ↦
            rw (e, e2, n) (Steps-Step (insert 0 c.name (omega arith) (get_r_index-eq-none _ _ n) h))
        | inr (i, n) ↦ rw (e, e2, n) here
      ]
      | inr e2 ↦ rw (e, e2) (before_name-Does c st h)
    ]
  ]

  -- what the recursive calls are known to do
  abbrev pub Rec : (ℕ → Sorting Db → Outcome Db) → Type 0
  Rec again = (i : ℕ) (st : Sorting Db) → names_of st.cs ≡ names → Does st (again i st)

  Step-names : {st st' : Sorting Db} → Step st st' → names_of st'.cs ≡ names_of st.cs
  Step-names (insert k v b n h) = refl
  Step-names {st} (after idx x v e n) = names_of-update idx _ st.cs (λ c. refl)
  Step-names {st} (before idx v) = names_of-update idx _ st.cs (λ c. ground arith)

  pub Steps-names : {st st' : Sorting Db} → Steps st st' → names_of st'.cs ≡ names_of st.cs
  Steps-names here = refl
  Steps-names (next p s) = Step-names s ∙ Steps-names p

  after_name-Does :
      (again : ℕ → Sorting Db → Outcome Db)
      → Rec again
      → (i : ℕ) (c : Callback Db) (st : Sorting Db) → names_of st.cs ≡ names
      → Has c.name names
      → Does st (after_name names again i c st)
  unfolding after_name
  after_name-Does again rec i c st q h = elim (Option-cases (get_r_index st.sorted c.after)) [
    | inl e ↦ elim (Option-cases (get_r_index names c.after)) [
      | inl n ↦ rw (e, n, after_name) here
      | inr (idx, n) ↦
          let st1 = set_before_if_empty idx c.name st in
          let s : Steps st st1 = Steps-Step (before idx c.name) in
          rw (e, n, after_name)
            (Does->>= st (again idx st1) (again i)
              (Does-after st st1 _ s (rec idx st1 (Steps-names s ∙ q)))
              (λ st2 p. rec i st2 (Steps-names p ∙ q)))
    ]
    | inr (k, e) ↦ elim (Option-cases (get_r_index st.sorted c.name)) [
      | inl n ↦ rw (e, n, after_name) (append_Step c.name st n h)
      | inr (cur, n) ↦ elim (Bool-cases (ltb cur k)) [
        | inl t ↦ rw (e, n, t, after_name) here
        | inr t ↦ rw (e, n, t, after_name) here
      ]
    ]
  ]

  pub after_step-Does :
      (again : ℕ → Sorting Db → Outcome Db)
      → Rec again
      → (i : ℕ) (c : Callback Db) (st : Sorting Db) → names_of st.cs ≡ names
      → Has c.name names
      → Does st (after_step names again i c st)
  unfolding after_step
  after_step-Does again rec i c st q h = elim (Bool-cases (c.after == [])) [
    | inl e ↦ rw e here
    | inr e ↦ elim (Bool-cases (c.after == star && ltb 0 (length st.sorted))) [
      | inl e2 ↦ elim (Option-cases (get_r_index st.sorted c.name)) [
        | inl n ↦ rw (e, e2, n) (append_Step c.name st n h)
        | inr (i, n) ↦ rw (e, e2, n) here
      ]
      | inr e2 ↦ rw (e, e2) (after_name-Does again rec i c st q h)
    ]
  ]

  pub with_callback-Does :
      (i : ℕ) (st : Sorting Db) (f : Callback Db → Sorting Db → Outcome Db)
      → names_of st.cs ≡ names
      → ((c : Callback Db) → Has c.name names → Does st (f c st))
      → Does st (with_callback i st f)
  with_callback-Does i st f q k = elim (Option-cases (get_elem? st.cs i)) [
    | inl e ↦ rw (e, with_callback) tt
    | inr (c, e) ↦ rw (e, with_callback) (k c (i, rw (← q) (get_elem?-names_of st.cs i c e)))
  ]

  -- every run of `sortCallback` is made of such steps
  pub sort_callback-Does : (fuel : ℕ) → Rec (sort_callback names fuel)
  unfolding sort_callback
  sort_callback-Does zero i st q = tt
  sort_callback-Does (suc fuel) i st q =
      let again = sort_callback names fuel in
      Does->>= st (before_at names i st >>= after_at names again i) (append_at names i)
        (Does->>= st (before_at names i st) (after_at names again i)
          (with_callback-Does i st (before_step names) q (λ c. before_step-Does c st))
          (λ st1 p.
            with_callback-Does i st1 (after_step names again i) (Steps-names p ∙ q)
              (λ c. after_step-Does again (sort_callback-Does fuel) i c st1 (Steps-names p ∙ q))))
        (λ st2 p.
          with_callback-Does i st2 (append_step names) (Steps-names p ∙ q)
            (λ c. append_step-Does c st2))

  -- and so is the loop over the callbacks
  pub sort_from-Does :
      (fuel n i : ℕ) (st : Sorting Db)
      → names_of st.cs ≡ names
      → Does st (sort_from names fuel n i st)
  unfolding sort_from
  sort_from-Does fuel zero i st q = here
  sort_from-Does fuel (suc n) i st q =
      Does->>= st (sort_callback names fuel i st) (sort_from names fuel n (suc i))
        (sort_callback-Does fuel i st q)
        (λ st' p. sort_from-Does fuel n (suc i) st' (Steps-names p ∙ q))
