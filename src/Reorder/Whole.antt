-- ===== src/Reorder/Whole.antt =====
-- All of `ReorderModels`.
use pewter_rinse_moor.Prelude.{
  ℕ, zero, suc, ◌<◌, ◌≡◌, refl, inl, inr, Bool, true, Option, some, List, [], ◌∷◌, ◌++◌, Bytes,
  arith, Bool-cases, All, equal_numbers, equal_bytes, bytes_beq_iff, bytes_beq_refl, ◌==◌,
}
use mathlib.Core.Path.{subst}
use mathlib.Core.Option.{some-injective}
use pewter_rinse_moor.Reorder.{
  Model, Parsing, Ordering, has_number, has_name, each, parse_dependence, enter,
  insert_into_ordered_list, dests, reorder_models,
}
use pewter_rinse_moor.Reorder.Parsed.{
  HasValue, Known, each-keeps, enter-HasValue, enter-self, enter-Known,
}
use pewter_rinse_moor.Reorder.Ends.{RefersBelow, Sub, parse_ends}
use pewter_rinse_moor.Reorder.Placed.{
  DependsBelow, has_name-append, in_front, at_end, needs, IsPlaced, IsReady, Grows, Grows-IsReady,
  Grows-trans, Grows-refl, inserts,
}

-- The schemas are those of the names, one for one.
abbrev pub Pairs : (ℕ → Model) → List Bytes → List (Option ℕ) → Type 0
Pairs models [] [] = Unit
Pairs models (n ∷ ns) (some m ∷ ms) = ((models m).table ≡ n) × Pairs models ns ms
Pairs models _ _ = ⊥

module _ (models : ℕ → Model) (ignore_relationships : Bool) where
  -- The names are those of the schemas that are parsed, and have values.
  pub record Listed (p : Parsing) : Type 0 where
    pub known : Known models ignore_relationships true p
    pub named :
        (k : Bytes) → has_name k p.names ≡ true → HasValue models ignore_relationships true k p
    pub listed : (m : ℕ) → has_number m p.parsed ≡ true → has_name (models m).table p.names ≡ true

  enter-Listed :
      (m : ℕ) (p : Parsing) → Listed p → Listed (enter models ignore_relationships true m true p)
  enter-Listed m p l = record {
    known = enter-Known models ignore_relationships true m true p l.known;
    named = λ k h. elim (Bool-cases ((models m).table == k)) [
      | inl self ↦
          let eq = (bytes_beq_iff (models m).table k).0 self in
          subst
            (λ x.
              HasValue models ignore_relationships true x
                (enter models ignore_relationships true m true p))
            eq (enter-self models ignore_relationships true m true p)
      | inr other ↦
          enter-HasValue models ignore_relationships true k m true p
            (l.named k (ground (arith, has_name-append k p.names ((models m).table ∷ []))))
    ];
    listed = λ i h. elim (Bool-cases (m == i)) [
      | inl self ↦
          let eq : m ≡ i = ground arith in
          subst (λ x. has_name (models x).table (p.names ++ (models m).table ∷ []) ≡ true) eq
            (at_end (models m).table p.names (models m).table (bytes_beq_refl (models m).table))
      | inr other ↦ in_front (models i).table p.names (models m).table (l.listed i (ground arith))
    ];
  }

  parse-Listed :
      (fuel m : ℕ) (p q : Parsing)
      → Listed p
      → parse_dependence models ignore_relationships true fuel true m p ≡ some q
      → Listed q
  unfolding parse_dependence
  parse-Listed zero m p q l e = absurd (ground arith)
  parse-Listed (suc fuel) m p q l e = elim (Bool-cases (has_number m p.parsed)) [
    | inl known ↦ subst Listed (some-injective p q (rw (parse_dependence, known) at e)) l
    | inr new ↦
        each-keeps Listed (parse_dependence models ignore_relationships true fuel true)
          (λ x s t. parse-Listed fuel x s t) _ _ q (enter-Listed m p l)
          (rw (parse_dependence, new) at e)
  ]

  module _ (rank : Bytes → ℕ)
      (falls : (m d : ℕ)
        → has_number d (needs models ignore_relationships m) ≡ true
        → rank (models d).table < rank (models m).table)
      (n : ℕ) (below : (m : ℕ) → All (RefersBelow n) (models m).relations) (pf : ℕ)
      (enough : n < pf) (fuel : ℕ) (high : (m : ℕ) → rank (models m).table < fuel) where
    parse_values :
        (ms : List ℕ) (p : Parsing)
        → DependsBelow n ms
        → Listed p
        → (q : Parsing) × (each (parse_dependence models ignore_relationships true pf true) ms p
            ≡ some q)
          × Listed q
          × Sub p.parsed q.parsed
          × Sub ms q.parsed
    unfolding each
    parse_values [] p b l = (p, refl, l, (λ m h. h), λ m h. absurd (ground arith))
    parse_values (m ∷ ms) p (lt, b) l =
        let (q, e, self, sub) =
          parse_ends models ignore_relationships true n (λ i h. below i) pf true m p lt enough in
        let (r, e2, l2, sub2, all) = parse_values ms q b (parse-Listed pf m p q l e) in
        (
          r,
          rw (each, e) e2,
          l2,
          (λ i h. sub2 i (sub i h)),
          λ i h. elim (Bool-cases (m == i)) [
            | inl same ↦
                let eq : m ≡ i = ground arith in
                subst (λ x. has_number x r.parsed ≡ true) eq (sub2 m self)
            | inr other ↦ all i (ground arith)
          ],
        )

    dests-Pairs :
        (ns : List Bytes) (p : Parsing)
        → Known models ignore_relationships true p
        → ((k : Bytes) → has_name k ns ≡ true → HasValue models ignore_relationships true k p)
        → Pairs models ns (dests models ignore_relationships true ns p.values)
    dests-Pairs [] p known there = tt
    dests-Pairs (k ∷ ns) p known there =
        let (v, e) = there k (ground (arith, bytes_beq_refl k)) in
        rw e ((known.right k v e).0, dests-Pairs ns p known (λ i h. there i (ground arith)))

    rank_of_value :
        (k : Bytes) (s : Ordering)
        → Known models ignore_relationships true s.parsing
        → HasValue models ignore_relationships true k s.parsing
        → rank k < fuel
    rank_of_value k s known (v, e) = subst (λ x. rank x < fuel) (known.right k v e).0 (high v.dest)

    insert_names :
        (ns : List Bytes) (s : Ordering)
        → IsReady models ignore_relationships rank falls n below pf enough fuel s
        → ((k : Bytes)
            → has_name k ns ≡ true
            → HasValue models ignore_relationships true k s.parsing)
        → (t : Ordering) × (each
              (insert_into_ordered_list models ignore_relationships true fuel pf)
              ns
              s
            ≡ some t)
          × Grows models ignore_relationships rank falls n below pf enough s t
          × ((k : Bytes) → has_name k ns ≡ true → has_name k t.ordered ≡ true)
    unfolding each
    insert_names [] s r there = (
      s,
      refl,
      Grows-refl models ignore_relationships rank falls n below pf enough fuel s r,
      λ k h. absurd (ground arith),
    )
    insert_names (k ∷ ns) s r there =
        let value = there k (ground (arith, bytes_beq_refl k)) in
        let low = rank_of_value k s r.known value in
        let (t, e, g, has) =
          inserts models ignore_relationships rank falls n below pf enough fuel k s low
            (record {
              known = r.known;
              placed = r.placed;
              done = λ i h l. r.done i h (omega (arith, l, low));
              valued = r.valued;
            })
            value in
        let (u, e2, g2, all) =
          insert_names ns t
            (Grows-IsReady models ignore_relationships rank falls n below pf enough fuel s t r g)
            (λ i h. g.values i (there i (ground arith))) in
        (
          u,
          rw (each, e) e2,
          Grows-trans models ignore_relationships rank falls n below pf enough s t u g g2,
          λ i h. elim (Bool-cases (k == i)) [
            | inl same ↦
                subst (λ x. has_name x u.ordered ≡ true) ((bytes_beq_iff k i).0 same)
                  (g2.keeps k has)
            | inr other ↦ all i (ground arith)
          ],
        )

    -- Finitely many schemas whose constraints go in no circle, all of them added, and fuel above the ranks
    -- of the tables and the number of the schemas: `ReorderModels` ends, and it returns a schema for each
    -- name of its order, in that order, whose table has the name. Every model that was given is there, and
    -- every name is that of a schema whose constraints refer only to tables that stand in front of it.
    pub reorder_models-IsPlaced :
        (values : List ℕ)
        → DependsBelow n values
        → (names : List Bytes) × (schemas : List (Option ℕ)) × (reorder_models models
              ignore_relationships true fuel pf values
            ≡ some (names, schemas))
          × Pairs models names schemas
          × IsPlaced models ignore_relationships [] names
          × ((m : ℕ) → has_number m values ≡ true → has_name (models m).table names ≡ true)
    unfolding reorder_models
    reorder_models-IsPlaced values b =
        let (p, e, l, sub, all) =
          parse_values values (record { names = []; parsed = []; values = [] }) b
            (record {
              known = record {
                there = λ m h. absurd (ground arith);
                right = λ k v h. absurd (ground arith);
              };
              named = λ k h. absurd (ground arith);
              listed = λ m h. absurd (ground arith);
            }) in
        let (s, e2, g, has) =
          insert_names p.names (record { parsing = p; ordered = []; marked = [] })
            (record {
              known = l.known;
              placed = tt;
              done = λ k h lt. absurd (ground arith);
              valued = λ k h. absurd (ground arith);
            })
            l.named in
        (
          s.ordered,
          dests models ignore_relationships true s.ordered s.parsing.values,
          rw (reorder_models, e, e2) refl,
          dests-Pairs s.ordered s.parsing g.known g.valued,
          g.placed,
          λ m h. has (models m).table (l.listed m (all m h)),
        )
