-- ===== src/Reorder/Placed.antt =====
-- The order of the models: behind what they refer to.
use pewter_rinse_moor.Prelude.{
  ℕ, zero, suc, ◌+◌, ◌≤◌, ◌<◌, ◌≡◌, refl, sym, ap, ◌∙◌, ◌⊎◌, inl, inr, Bool, true, false, ◌||◌,
  Option, none, some, List, [], ◌∷◌, ◌++◌, append_assoc, append-nil, Bytes, arith, Bool-cases,
  Option-cases, All, equal_numbers, equal_bytes, bytes_beq_iff, bytes_beq_refl, ◌==◌, if◌then◌else◌,
}
use mathlib.Core.Path.{subst}
use pewter_rinse_moor.Reorder.{
  Relation, Model, Parsing, Ordering, has_number, has_name, value_of, depends_of, each,
  relations_of, ensure, mark, append, insert_into_ordered_list,
}
use pewter_rinse_moor.Reorder.Parsed.{HasValue, Known, ensure-Known, ensure-HasValue}
use pewter_rinse_moor.Reorder.Ends.{RefersBelow, JoinsBelow, parse_ends}

abbrev pub DependsBelow : ℕ → List ℕ → Type 0
DependsBelow n ds = All (λ d. d < n) ds

depends_of-below :
    (n : ℕ) (rs : List Relation) → All (RefersBelow n) rs → DependsBelow n (depends_of rs)
depends_of-below n [] a = tt
depends_of-below n (r ∷ rs) ((f, j, c), a) =
    of_relation r.ignored r.constraint c (depends_of-below n rs a)
  where
    of_relation :
        (b : Bool) (o : Option ℕ)
        → JoinsBelow n o
        → DependsBelow n (depends_of rs)
        → DependsBelow n (
            if b
            then depends_of rs
            else elim o [ none ↦ depends_of rs | some c ↦ c ∷ depends_of rs ])
    of_relation true o h rest = rest
    of_relation false none h rest = rest
    of_relation false (some i) h rest = (h, rest)

pub has_name-append :
    (n : Bytes) (l r : List Bytes) → has_name n (l ++ r) ≡ (has_name n l || has_name n r)
has_name-append n [] r = refl
has_name-append n (k ∷ l) r = ground (arith, has_name-append n l r)

pub in_front :
    (i : Bytes) (l : List Bytes) (n : Bytes) → has_name i l ≡ true → has_name i (l ++ n ∷ []) ≡ true
in_front i l n h = has_name-append i l (n ∷ []) ∙ rw h refl

pub at_end :
    (i : Bytes) (l : List Bytes) (n : Bytes) → (n == i) ≡ true → has_name i (l ++ n ∷ []) ≡ true
at_end i l n h = has_name-append i l (n ∷ []) ∙ ground arith

module _ (models : ℕ → Model) (ignore_relationships : Bool) where
  -- what a schema's constraints refer to
  abbrev pub needs : ℕ → List ℕ
  needs m = depends_of (relations_of models ignore_relationships true m)

  -- A name that can stand behind others: that of a schema whose constraints refer to these only.
  abbrev pub Follows : List Bytes → Bytes → Type 0
  Follows seen n =
      (m : ℕ) × ((models m).table ≡ n)
      × ((d : ℕ) → has_number d (needs m) ≡ true → has_name (models d).table seen ≡ true)

  -- Every name follows those in front of it.
  abbrev pub IsPlaced : List Bytes → List Bytes → Type 0
  IsPlaced seen [] = Unit
  IsPlaced seen (n ∷ l) = Follows seen n × IsPlaced (seen ++ n ∷ []) l

  IsPlaced-snoc :
      (seen l : List Bytes) (n : Bytes)
      → IsPlaced seen l
      → Follows (seen ++ l) n
      → IsPlaced seen (l ++ n ∷ [])
  IsPlaced-snoc seen [] n p f = (rw (append-nil seen) at f, tt)
  IsPlaced-snoc seen (k ∷ l) n (g, p) f = (
    g,
    IsPlaced-snoc (seen ++ k ∷ []) l n p
        (subst (λ s. Follows s n) (sym (append_assoc seen (k ∷ []) l)) f),
  )

  module _ (rank : Bytes → ℕ)
      (falls : (m d : ℕ)
        → has_number d (needs m) ≡ true
        → rank (models d).table < rank (models m).table)
      (n : ℕ) (below : (m : ℕ) → All (RefersBelow n) (models m).relations) (pf : ℕ)
      (enough : n < pf) where
    -- Names of a rank below the bound, once they are marked, stand in the order.
    pub record IsReady (bound : ℕ) (s : Ordering) : Type 0 where
      pub known : Known models ignore_relationships true s.parsing
      pub placed : IsPlaced [] s.ordered
      pub done :
          (k : Bytes) → has_name k s.marked ≡ true → rank k < bound → has_name k s.ordered ≡ true
      pub valued :
          (k : Bytes)
          → has_name k s.ordered ≡ true
          → HasValue models ignore_relationships true k s.parsing

    pub record Grows (s t : Ordering) : Type 0 where
      pub known : Known models ignore_relationships true t.parsing
      pub placed : IsPlaced [] t.ordered
      pub values :
          (k : Bytes)
          → HasValue models ignore_relationships true k s.parsing
          → HasValue models ignore_relationships true k t.parsing
      pub keeps : (k : Bytes) → has_name k s.ordered ≡ true → has_name k t.ordered ≡ true
      pub marks :
          (k : Bytes)
          → has_name k t.marked ≡ true
          → (has_name k s.marked ≡ true) ⊎ (has_name k t.ordered ≡ true)
      pub valued :
          (k : Bytes)
          → has_name k t.ordered ≡ true
          → HasValue models ignore_relationships true k t.parsing

    pub Grows-IsReady : (bound : ℕ) (s t : Ordering) → IsReady bound s → Grows s t → IsReady bound t
    Grows-IsReady bound s t r g = record {
      known = g.known;
      placed = g.placed;
      done = λ k h lt. elim (g.marks k h) [ inl old ↦ g.keeps k (r.done k old lt) | inr new ↦ new ];
      valued = g.valued;
    }

    pub Grows-trans : (s t u : Ordering) → Grows s t → Grows t u → Grows s u
    Grows-trans s t u g h = record {
      known = h.known;
      placed = h.placed;
      values = λ k e. h.values k (g.values k e);
      keeps = λ k e. h.keeps k (g.keeps k e);
      marks = λ k e. elim (h.marks k e) [
        | inr new ↦ inr new
        | inl old ↦ elim (g.marks k old) [
          | inl older ↦ inl older
          | inr there ↦ inr (h.keeps k there)
        ]
      ];
      valued = h.valued;
    }

    pub Grows-refl : (bound : ℕ) (s : Ordering) → IsReady bound s → Grows s s
    Grows-refl bound s r = record {
      known = r.known;
      placed = r.placed;
      values = λ k e. e;
      keeps = λ k e. e;
      marks = λ k e. inl e;
      valued = r.valued;
    }

    needs-below : (m : ℕ) → DependsBelow n (needs m)
    needs-below m = elim (Bool-cases ignore_relationships) [
      | inl ignored ↦ rw ignored tt
      | inr kept ↦ rw kept (depends_of-below n (models m).relations (below m))
    ]

    ensured :
        (d : ℕ) (p : Parsing)
        → d < n
        → (q : Parsing) × (ensure models ignore_relationships true pf d p ≡ some q)
    unfolding ensure
    ensured d p lt = elim (Option-cases (value_of (models d).table p.values)) [
      | inr (v, found) ↦ (p, rw (ensure, found) refl)
      | inl missing ↦
          let (q, e, self, sub) =
            parse_ends models ignore_relationships true n (λ i l. below i) pf true d p lt enough in
          (q, rw (ensure, missing) e)
    ]

    -- the insertion of what a name depends on
    abbrev step : ℕ → ℕ → Ordering → Option Ordering
    step fuel d t = elim (ensure models ignore_relationships true pf d t.parsing) [
      | none ↦ none
      | some p ↦
          insert_into_ordered_list models ignore_relationships true fuel pf (models d).table
            (record t { parsing = p })
    ]

    abbrev pub Inserted : Ordering → Bytes → Option Ordering → Type 0
    Inserted s name o = (t : Ordering) × (o ≡ some t) × Grows s t × (has_name name t.ordered ≡ true)

    abbrev pub Inserts : ℕ → Type 0
    Inserts fuel =
        (name : Bytes) (s : Ordering)
        → rank name < fuel
        → IsReady (rank name + 1) s
        → HasValue models ignore_relationships true name s.parsing
        → Inserted s name (insert_into_ordered_list models ignore_relationships true fuel pf name s)

    step-Inserted :
        (fuel : ℕ)
        → Inserts fuel
        → (bound d : ℕ) (u : Ordering) → d < n
        → rank (models d).table < bound
        → bound ≤ fuel
        → IsReady bound u
        → Inserted u (models d).table (step fuel d u)
    step-Inserted fuel k bound d u lt low fits r =
        let (p, e) = ensured d u.parsing lt in
        let (known, there) =
          ensure-Known models ignore_relationships true pf d u.parsing p r.known e in
        let (t, h, g, has) =
          k (models d).table (record u { parsing = p }) (omega (arith, low, fits))
            (record {
              known = known;
              placed = r.placed;
              done = λ i m l. r.done i m (omega (arith, l, low));
              valued = λ i h.
                  ensure-HasValue models ignore_relationships true i pf d u.parsing p (r.valued i h)
                    e;
            })
            there in
        (
          t,
          rw (step, e) h,
          record {
            known = g.known;
            placed = g.placed;
            values = λ i h.
                g.values i
                  (ensure-HasValue models ignore_relationships true i pf d u.parsing p h e);
            keeps = g.keeps;
            marks = g.marks;
            valued = g.valued;
          },
          has,
        )

    visit :
        (fuel : ℕ)
        → Inserts fuel
        → (bound : ℕ) (ds : List ℕ) (u : Ordering) → DependsBelow n ds
        → All (λ d. rank (models d).table < bound) ds
        → bound ≤ fuel
        → IsReady bound u
        → (t : Ordering) × (each (step fuel) ds u ≡ some t)
          × Grows u t
          × ((d : ℕ) → has_number d ds ≡ true → has_name (models d).table t.ordered ≡ true)
    unfolding each
    visit fuel k bound [] u b l fits r =
        (u, refl, Grows-refl bound u r, λ d h. absurd (ground arith))
    visit fuel k bound (d ∷ ds) u (lt, b) (low, l) fits r =
        let (t, e, g, has) = step-Inserted fuel k bound d u lt low fits r in
        let (v, e2, g2, all) = visit fuel k bound ds t b l fits (Grows-IsReady bound u t r g) in
        (
          v,
          rw (each, e) e2,
          Grows-trans u t v g g2,
          λ i h. elim (Bool-cases (d == i)) [
            | inl same ↦
                let eq : d ≡ i = ground arith in
                subst (λ x. has_name (models x).table v.ordered ≡ true) eq
                  (g2.keeps (models d).table has)
            | inr other ↦ all i (ground arith)
          ],
        )

    ranks_fall :
        (m : ℕ) (ds : List ℕ)
        → ((d : ℕ) → has_number d ds ≡ true → has_number d (needs m) ≡ true)
        → All (λ d. rank (models d).table < rank (models m).table) ds
    ranks_fall m [] h = tt
    ranks_fall m (d ∷ ds) h =
        (falls m d (h d (ground arith)), ranks_fall m ds (λ i e. h i (ground arith)))

    -- a name that was not marked
    new-Inserted :
        (fuel : ℕ)
        → Inserts fuel
        → (name : Bytes) (s : Ordering) → rank name < suc fuel
        → IsReady (rank name + 1) s
        → HasValue models ignore_relationships true name s.parsing
        → has_name name s.marked ≡ false
        → Inserted s name
            (insert_into_ordered_list models ignore_relationships true (suc fuel) pf name s)
    unfolding insert_into_ordered_list
    new-Inserted fuel k name s lt r (v, found) new =
        let (same, deps) = r.known.right name v found in
        let ready : IsReady (rank name) (mark models ignore_relationships true name s) = record {
          known = r.known;
          placed = r.placed;
          done = λ i m l. elim (Bool-cases (name == i)) [
            | inl self ↦
                let eq : name ≡ i = (bytes_beq_iff name i).0 self in
                absurd (omega (arith, l, ap rank eq))
            | inr other ↦ r.done i (ground arith) (omega (arith, l))
          ];
          valued = r.valued;
        } in
        let low =
          subst (λ x. All (λ d. rank (models d).table < rank x) (needs v.dest)) same
            (ranks_fall v.dest (needs v.dest) (λ d h. h)) in
        let (t, e, g, all) =
          visit fuel k (rank name) (needs v.dest) (mark models ignore_relationships true name s)
            (needs-below v.dest) low (omega (arith, lt)) ready in
        (
          append models ignore_relationships true name t,
          rw (insert_into_ordered_list, new, found, deps, e) refl,
          record {
            known = g.known;
            placed = IsPlaced-snoc [] t.ordered name g.placed (v.dest, same, all);
            values = g.values;
            keeps = λ i h. in_front i t.ordered name (g.keeps i h);
            marks = λ i h. elim (g.marks i h) [
              | inr there ↦ inr (in_front i t.ordered name there)
              | inl old ↦ elim (Bool-cases (name == i)) [
                | inl self ↦ inr (at_end i t.ordered name self)
                | inr other ↦ inl (ground arith)
              ]
            ];
            valued = λ i h. elim (Bool-cases (name == i)) [
              | inl self ↦
                  subst (λ x. HasValue models ignore_relationships true x t.parsing)
                    ((bytes_beq_iff name i).0 self) (g.values name (v, found))
              | inr other ↦ g.valued i (ground (arith, has_name-append i t.ordered (name ∷ [])))
            ];
          },
          at_end name t.ordered name (bytes_beq_refl name),
        )

    pub inserts : (fuel : ℕ) → Inserts fuel
    unfolding insert_into_ordered_list
    inserts zero name s lt r there = absurd (omega arith)
    inserts (suc fuel) name s lt r there = elim (Bool-cases (has_name name s.marked)) [
      | inr new ↦ new-Inserted fuel (inserts fuel) name s lt r there new
      | inl marked ↦ (
        s,
        rw (insert_into_ordered_list, marked) refl,
        Grows-refl (rank name + 1) s r,
        r.done name marked (omega arith),
      )
    ]
