-- ===== src/Reorder/Parsed.antt =====
-- What parsing leaves in the map of the values.
use pewter_rinse_moor.Prelude.{
  ℕ, zero, suc, ◌≡◌, refl, inl, inr, Bool, true, Option, some, List, [], ◌∷◌, Bytes, arith,
  Bool-cases, Option-cases, bytes_beq_iff, bytes_beq_refl, equal_bytes, equal_numbers, ◌==◌,
}
use mathlib.Core.Path.{subst}
use mathlib.Core.Option.{some-injective}
use pewter_rinse_moor.Reorder.{
  Model, Dependency, Parsing, has_number, value_of, depends_of, each, relations_of, enter,
  parse_dependence, ensure,
}

-- What every call keeps is kept by calls one after the other.
pub each-keeps :
    {A S : Type 0} (P : S → Type 0) (f : A → S → Option S)
    → ((x : A) (s t : S) → P s → f x s ≡ some t → P t)
    → (xs : List A) (s t : S) → P s
    → each f xs s ≡ some t
    → P t
unfolding each
each-keeps P f k [] s t p e = subst P (some-injective s t e) p
each-keeps P f k (x ∷ xs) s t p e = elim (Option-cases (f x s)) [
  | inl stuck ↦ absurd (ground arith)
  | inr (u, h) ↦ each-keeps P f k xs u t (k x s u p h) (rw (each, h) at e)
]

module _ (models : ℕ → Model) (ignore_relationships auto_add : Bool) where
  abbrev pub HasValue : Bytes → Parsing → Type 0
  HasValue n p = (v : Dependency) × (value_of n p.values ≡ some v)

  -- Schemas that are parsed have values, and values are those of their schemas.
  pub record Known (p : Parsing) : Type 0 where
    pub there : (m : ℕ) → has_number m p.parsed ≡ true → HasValue (models m).table p
    pub right :
        (n : Bytes) (v : Dependency)
        → value_of n p.values ≡ some v
        → ((models v.dest).table ≡ n)
          × (v.depends ≡ depends_of (relations_of models ignore_relationships auto_add v.dest))

  pub enter-HasValue :
      (n : Bytes) (m : ℕ) (b : Bool) (p : Parsing)
      → HasValue n p
      → HasValue n (enter models ignore_relationships auto_add m b p)
  enter-HasValue n m b p (v, e) = elim (Bool-cases ((models m).table == n)) [
    | inl here ↦ (
      record {
        dest = m;
        depends = depends_of (relations_of models ignore_relationships auto_add m);
      },
      rw here refl,
    )
    | inr other ↦ (v, rw other e)
  ]

  pub enter-self :
      (m : ℕ) (b : Bool) (p : Parsing)
      → HasValue (models m).table (enter models ignore_relationships auto_add m b p)
  enter-self m b p = (
    record { dest = m; depends = depends_of (relations_of models ignore_relationships auto_add m) },
    rw (bytes_beq_refl (models m).table) refl,
  )

  pub enter-Known :
      (m : ℕ) (b : Bool) (p : Parsing)
      → Known p
      → Known (enter models ignore_relationships auto_add m b p)
  enter-Known m b p k = record {
    there = λ i h. elim (Bool-cases (m == i)) [
      | inl same ↦
          let eq : m ≡ i = ground arith in
          subst (λ x. HasValue (models x).table (enter models ignore_relationships auto_add m b p))
            eq (enter-self m b p)
      | inr other ↦ enter-HasValue (models i).table m b p (k.there i (ground arith))
    ];
    right = λ n v h. elim (Bool-cases ((models m).table == n)) [
      | inl here ↦
          let same = some-injective _ v (rw here at h) in
          subst
            (λ x.
              ((models x.dest).table ≡ n)
              × (x.depends ≡ depends_of (relations_of models ignore_relationships auto_add x.dest)))
            same ((bytes_beq_iff (models m).table n).0 here, refl)
      | inr other ↦ k.right n v (rw other at h)
    ];
  }

  pub parse-HasValue :
      (n : Bytes) (fuel : ℕ) (b : Bool) (m : ℕ) (p q : Parsing)
      → HasValue n p
      → parse_dependence models ignore_relationships auto_add fuel b m p ≡ some q
      → HasValue n q
  unfolding parse_dependence
  parse-HasValue n zero b m p q h e = absurd (ground arith)
  parse-HasValue n (suc fuel) b m p q h e = elim (Bool-cases (has_number m p.parsed)) [
    | inl known ↦ subst (HasValue n) (some-injective p q (rw (parse_dependence, known) at e)) h
    | inr new ↦
        each-keeps (HasValue n)
          (parse_dependence models ignore_relationships auto_add fuel auto_add)
          (λ x s t. parse-HasValue n fuel auto_add x s t) _ _ q (enter-HasValue n m b p h)
          (rw (parse_dependence, new) at e)
  ]

  pub parse-Known :
      (fuel : ℕ) (b : Bool) (m : ℕ) (p q : Parsing)
      → Known p
      → parse_dependence models ignore_relationships auto_add fuel b m p ≡ some q
      → Known q × HasValue (models m).table q
  unfolding parse_dependence
  parse-Known zero b m p q k e = absurd (ground arith)
  parse-Known (suc fuel) b m p q k e = elim (Bool-cases (has_number m p.parsed)) [
    | inl known ↦
        subst (λ x. Known x × HasValue (models m).table x)
          (some-injective p q (rw (parse_dependence, known) at e)) (k, k.there m known)
    | inr new ↦ (
      each-keeps Known (parse_dependence models ignore_relationships auto_add fuel auto_add)
          (λ x s t kn h. (parse-Known fuel auto_add x s t kn h).0) _ _ q (enter-Known m b p k)
          (rw (parse_dependence, new) at e),
      each-keeps (HasValue (models m).table)
          (parse_dependence models ignore_relationships auto_add fuel auto_add)
          (λ x s t. parse-HasValue (models m).table fuel auto_add x s t) _ _ q (enter-self m b p)
          (rw (parse_dependence, new) at e),
    )
  ]

  pub ensure-Known :
      (fuel : ℕ) (d : ℕ) (p q : Parsing)
      → Known p
      → ensure models ignore_relationships auto_add fuel d p ≡ some q
      → Known q × HasValue (models d).table q
  unfolding ensure
  ensure-Known fuel d p q k e = elim (Option-cases (value_of (models d).table p.values)) [
    | inl missing ↦ parse-Known fuel auto_add d p q k (rw (ensure, missing) at e)
    | inr (v, found) ↦
        subst (λ x. Known x × HasValue (models d).table x)
          (some-injective p q (rw (ensure, found) at e)) (k, (v, found))
  ]

  pub ensure-HasValue :
      (n : Bytes) (fuel : ℕ) (d : ℕ) (p q : Parsing)
      → HasValue n p
      → ensure models ignore_relationships auto_add fuel d p ≡ some q
      → HasValue n q
  unfolding ensure
  ensure-HasValue n fuel d p q h e = elim (Option-cases (value_of (models d).table p.values)) [
    | inl missing ↦ parse-HasValue n fuel auto_add d p q h (rw (ensure, missing) at e)
    | inr (v, found) ↦ subst (HasValue n) (some-injective p q (rw (ensure, found) at e)) h
  ]
