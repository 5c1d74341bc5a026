-- ===== src/Reorder/Ends.antt =====
-- Parsing ends: a schema is parsed once.
use pewter_rinse_moor.Prelude.{
  ℕ, zero, suc, ◌+◌, ◌≤◌, ◌<◌, ◌≡◌, refl, sym, ◌∙◌, inl, inr, Bool, true, false, Option, none, some,
  List, [], ◌∷◌, arith, Bool-cases, All, All-append, equal_numbers, ◌==◌, if◌then◌else◌,
}
use mathlib.Core.Path.{subst}
use mathlib.Core.Option.{some-injective}
use pewter_rinse_moor.Reorder.{
  Relation, Model, Parsing, has_number, be_depended_on, deferred, each, relations_of, enter,
  parse_dependence,
}

-- the numbers below a bound that are not in a list
abbrev pub free : ℕ → List ℕ → ℕ
free zero l = 0
free (suc n) l = (if has_number n l then 0 else 1) + free n l

abbrev pub Sub : List ℕ → List ℕ → Type 0
Sub l r = (m : ℕ) → has_number m l ≡ true → has_number m r ≡ true

free-Sub : (n : ℕ) (l r : List ℕ) → Sub l r → free n r ≤ free n l
free-Sub zero l r h = omega arith
free-Sub (suc n) l r h = elim (Bool-cases (has_number n l)) [
  | inl here ↦ rw (here, h n here) (omega (arith, free-Sub n l r h))
  | inr absent ↦ elim (Bool-cases (has_number n r)) [
    | inl there ↦ rw (absent, there) (omega (arith, free-Sub n l r h))
    | inr nowhere ↦ rw (absent, nowhere) (omega (arith, free-Sub n l r h))
  ]
]

Sub-cons : (m : ℕ) (l : List ℕ) → Sub l (m ∷ l)
Sub-cons m l i h = ground arith

free-cons : (n m : ℕ) (l : List ℕ) → m < n → has_number m l ≡ false → free n (m ∷ l) < free n l
free-cons zero m l lt h = absurd (omega arith)
free-cons (suc n) m l lt h = elim (Bool-cases (m == n)) [
  | inl same ↦
      let eq : m ≡ n = ground arith in
      let absent : has_number n l ≡ false = rw (sym eq) h in
      rw (same, absent) (omega (arith, free-Sub n l (m ∷ l) (Sub-cons m l)))
  | inr other ↦
      let lower : m < n = ground arith in
      elim (Bool-cases (has_number n l)) [
        | inl here ↦ rw (other, here) (omega (arith, free-cons n m l lower h))
        | inr absent ↦ rw (other, absent) (omega (arith, free-cons n m l lower h))
      ]
]

free_le : (n : ℕ) (l : List ℕ) → free n l ≤ n
free_le zero l = omega arith
free_le (suc n) l = elim (Bool-cases (has_number n l)) [
  | inl here ↦ rw here (omega (arith, free_le n l))
  | inr absent ↦ rw absent (omega (arith, free_le n l))
]

-- what a relationship refers to
abbrev pub JoinsBelow : ℕ → Option ℕ → Type 0
JoinsBelow n none = Unit
JoinsBelow n (some j) = j < n

abbrev pub RefersBelow : ℕ → Relation → Type 0
RefersBelow n r = (r.field_schema < n) × JoinsBelow n r.join_table × JoinsBelow n r.constraint

deferred-below :
    (n : ℕ) (on : List ℕ) (rs : List Relation)
    → All (RefersBelow n) rs
    → All (λ m. m < n) (deferred on rs)
deferred-below n on [] a = tt
deferred-below n on (r ∷ rs) ((f, j, c), a) =
    All-append (λ m. m < n) (deferred on rs) _ (deferred-below n on rs a)
      (of_join r.ignored r.join_table j)
  where
    of_join :
        (b : Bool) (o : Option ℕ)
        → JoinsBelow n o
        → All
            (λ m. m < n)
            (if b then [] else elim o [
              | none ↦ []
              | some j ↦ if has_number r.field_schema on then r.field_schema ∷ j ∷ [] else j ∷ []
            ])
    of_join true o h = tt
    of_join false none h = tt
    of_join false (some i) h = elim (Bool-cases (has_number r.field_schema on)) [
      | inl has ↦ rw has (f, (h, tt))
      | inr not_on ↦ rw not_on (h, tt)
    ]

module _ (models : ℕ → Model) (ignore_relationships auto_add : Bool) (n : ℕ)
    (below : (m : ℕ) → m < n → All (RefersBelow n) (models m).relations) where
  pub relations-below :
      (m : ℕ) → m < n → All (RefersBelow n) (relations_of models ignore_relationships auto_add m)
  relations-below m lt = elim (Bool-cases ignore_relationships) [
    | inl ignored ↦ rw ignored tt
    | inr kept ↦ rw kept (below m lt)
  ]

  abbrev pub Ends : Parsing → Option Parsing → Type 0
  Ends p o = (q : Parsing) × (o ≡ some q) × Sub p.parsed q.parsed

  each-Ends :
      (f : ℕ → Parsing → Option Parsing) (fuel : ℕ)
      → ((m : ℕ) (p : Parsing) → m < n → free n p.parsed < fuel → Ends p (f m p))
      → (ms : List ℕ) (p : Parsing) → All (λ m. m < n) ms
      → free n p.parsed < fuel
      → Ends p (each f ms p)
  unfolding each
  each-Ends f fuel k [] p a h = (p, refl, λ m x. x)
  each-Ends f fuel k (m ∷ ms) p (lt, a) h =
      let (q, e, sub) = k m p lt h in
      let (r, e2, sub2) =
        each-Ends f fuel k ms q a (omega (arith, h, free-Sub n p.parsed q.parsed sub)) in
      (r, rw (each, e) e2, λ i x. sub2 i (sub i x))

  parse-Ends :
      (fuel : ℕ) (b : Bool) (m : ℕ) (p : Parsing)
      → m < n
      → free n p.parsed < fuel
      → Ends p (parse_dependence models ignore_relationships auto_add fuel b m p)
  unfolding parse_dependence
  parse-Ends zero b m p lt h = absurd (omega arith)
  parse-Ends (suc fuel) b m p lt h = elim (Bool-cases (has_number m p.parsed)) [
    | inl known ↦ (p, rw (parse_dependence, known) refl, λ i x. x)
    | inr new ↦
        let list =
          deferred (be_depended_on (relations_of models ignore_relationships auto_add m))
            (relations_of models ignore_relationships auto_add m) in
        let inside = enter models ignore_relationships auto_add m b p in
        let (q, e, sub) : Ends inside (
            each (parse_dependence models ignore_relationships auto_add fuel auto_add) list
              inside) =
          each-Ends (parse_dependence models ignore_relationships auto_add fuel auto_add) fuel
            (λ i u. parse-Ends fuel auto_add i u) list inside
            (deferred-below n _ _ (relations-below m lt))
            (omega (arith, h, free-cons n m p.parsed lt new)) in
        (q, rw (parse_dependence, new) e, λ i x. sub i (Sub-cons m p.parsed i x))
  ]

  parse_self :
      (fuel : ℕ) (b : Bool) (m : ℕ) (p q : Parsing)
      → m < n
      → free n p.parsed < fuel
      → parse_dependence models ignore_relationships auto_add fuel b m p ≡ some q
      → has_number m q.parsed ≡ true
  unfolding parse_dependence
  parse_self zero b m p q lt h e = absurd (omega arith)
  parse_self (suc fuel) b m p q lt h e = elim (Bool-cases (has_number m p.parsed)) [
    | inl known ↦
        subst (λ x. has_number m x.parsed ≡ true)
          (some-injective p q (rw (parse_dependence, known) at e)) known
    | inr new ↦
        let list =
          deferred (be_depended_on (relations_of models ignore_relationships auto_add m))
            (relations_of models ignore_relationships auto_add m) in
        let inside = enter models ignore_relationships auto_add m b p in
        let (r, e2, sub) : Ends inside (
            each (parse_dependence models ignore_relationships auto_add fuel auto_add) list
              inside) =
          each-Ends (parse_dependence models ignore_relationships auto_add fuel auto_add) fuel
            (λ i u. parse-Ends fuel auto_add i u) list inside
            (deferred-below n _ _ (relations-below m lt))
            (omega (arith, h, free-cons n m p.parsed lt new)) in
        let same : r ≡ q = some-injective r q (sym e2 ∙ rw (parse_dependence, new) at e) in
        subst (λ x. has_number m x.parsed ≡ true) same (sub m (ground arith))
  ]

  pub parse_ends :
      (fuel : ℕ) (b : Bool) (m : ℕ) (p : Parsing)
      → m < n
      → n < fuel
      → (q : Parsing) × (parse_dependence models ignore_relationships auto_add fuel b m p ≡ some q)
        × (has_number m q.parsed ≡ true)
        × Sub p.parsed q.parsed
  parse_ends fuel b m p lt enough =
      let (q, e, sub) = parse-Ends fuel b m p lt (omega (arith, free_le n p.parsed)) in
      (q, e, parse_self fuel b m p q lt (omega (arith, enough, free_le n p.parsed)) e, sub)
