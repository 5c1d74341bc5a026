-- ===== src/Callbacks/Extends.antt =====
-- What a run of `sortCallback` leaves as it was: the callbacks keep their own data and the sorted names
-- their order.
use pewter_rinse_moor.Prelude.{
  ℕ, ◌≡◌, refl, ◌∙◌, some, List, arith, Bytes, equal_bytes, get_elem?, update,
  get_elem?-update_self, get_elem?-update_ne,
}
use native.Mathlib.Decide.{ℕ_discrete}
use pewter_rinse_moor.Callbacks.{Callback, Sorting}
use pewter_rinse_moor.Callbacks.Index.{
  Has, Grows, Grows-refl, Grows-trans, Grows-insert_at, Has-Grows,
}
use pewter_rinse_moor.Callbacks.Keeps.{
  names_of, get_elem?-names_of, Step, insert, after, before, Steps, here, next, Steps-names,
}

module _ {Db : Type 0} where
  -- The callback is still there, with its own data, and keeps its `after` once its name is sorted.
  pub record SameAs (sorted : List Bytes) (c c' : Callback Db) : Type 0 where
    pub name : c'.name ≡ c.name
    pub remove : c'.remove ≡ c.remove
    pub handler : c'.handler ≡ c.handler
    pub after : Has c.name sorted → c'.after ≡ c.after

  pub record Extends (st st' : Sorting Db) : Type 0 where
    pub grows : Grows st.sorted st'.sorted
    pub kept :
        (i : ℕ) (c : Callback Db)
        → get_elem? st.cs i ≡ some c
        → (c' : Callback Db) × (get_elem? st'.cs i ≡ some c') × SameAs st.sorted c c'

  SameAs-refl : (l : List Bytes) (c : Callback Db) → SameAs l c c
  SameAs-refl l c = record { name = refl; remove = refl; handler = refl; after = λ h. refl }

  kept-update :
      (idx : ℕ) (f : Callback Db → Callback Db) (l : List Bytes) (cs : List (Callback Db))
      → ((c : Callback Db) → get_elem? cs idx ≡ some c → SameAs l c (f c))
      → (i : ℕ) (c : Callback Db) → get_elem? cs i ≡ some c
      → (c' : Callback Db) × (get_elem? (update idx f cs) i ≡ some c') × SameAs l c c'
  kept-update idx f l cs same i c h = elim (ℕ_discrete idx i) [
    | yes p ↦
        let h' : get_elem? cs idx ≡ some c = rw p h in
        (f c, rw (← p) (get_elem?-update_self idx f cs c h'), same c h')
    | no n ↦ (c, rw (get_elem?-update_ne idx i f cs n) h, SameAs-refl l c)
  ]

  Step-Extends :
      (names : List Bytes) {st st' : Sorting Db}
      → names_of st.cs ≡ names
      → Step names st st'
      → Extends st st'
  Step-Extends names {st} q (insert k v b n h) = record {
    grows = Grows-insert_at k v st.sorted b;
    kept = λ i c e. (c, e, SameAs-refl st.sorted c);
  }
  Step-Extends names {st} q (after idx x v e n) = record {
    grows = Grows-refl st.sorted;
    kept = kept-update idx _ st.sorted st.cs (λ c h.
        let named : get_elem? names idx ≡ some c.name =
          rw (← q) (get_elem?-names_of st.cs idx c h) in
        let same_name : x ≡ c.name = cc in
        record {
          name = refl;
          remove = refl;
          handler = refl;
          after = λ has. absurd (n (rw same_name has));
        });
  }
  Step-Extends names {st} q (before idx v) = record {
    grows = Grows-refl st.sorted;
    kept = kept-update idx _ st.sorted st.cs (λ c h. record {
      name = ground arith;
      remove = ground arith;
      handler = ground arith;
      after = λ has. ground arith;
    });
  }

  Extends-trans : {st st' st'' : Sorting Db} → Extends st st' → Extends st' st'' → Extends st st''
  Extends-trans {st} {st'} p q = record {
    grows = Grows-trans _ _ _ p.grows q.grows;
    kept = λ i c e.
        let (c', e', s) = p.kept i c e in
        let (c'', e'', s') = q.kept i c' e' in
        (
          c'',
          e'',
          record {
            name = s'.name ∙ s.name;
            remove = s'.remove ∙ s.remove;
            handler = s'.handler ∙ s.handler;
            after = λ h.
                s'.after (rw s.name (Has-Grows c.name st.sorted st'.sorted p.grows h)) ∙ s.after h;
          },
        );
  }

  pub Steps-Extends :
      (names : List Bytes) {st st' : Sorting Db}
      → names_of st.cs ≡ names
      → Steps names st st'
      → Extends st st'
  Steps-Extends names {st} q here = record {
    grows = Grows-refl st.sorted;
    kept = λ i c e. (c, e, SameAs-refl st.sorted c);
  }
  Steps-Extends names q (next p s) =
      Extends-trans (Steps-Extends names q p) (Step-Extends names (Steps-names names p ∙ q) s)
