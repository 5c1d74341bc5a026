-- ===== src/Batches/Find/Table.antt =====
-- A table in the order of its primary key, and what a query of it gives.
use pewter_rinse_moor.Prelude.{
  ℕ, zero, suc, ◌+◌, ◌-◌, ◌≤◌, ◌<◌, ◌≡◌, refl, sym, ap, ◌∙◌, Bool, true, false, Option, none, some,
  List, [], ◌∷◌, ◌++◌, arith, if◌then◌else◌, ltb, length, take, drop,
}
use mathlib.Core.Option.{some-injective}
use pewter_rinse_moor.Batches.Find.{Query, Found, last_of}

module _ {A : Type 0} where
  pub take_all : (n : ℕ) (l : List A) → length l ≤ n → take n l ≡ l
  take_all zero [] h = refl
  take_all zero (x ∷ l) h = absurd (omega arith)
  take_all (suc n) [] h = refl
  take_all (suc n) (x ∷ l) h = ap (λ r. x ∷ r) (take_all n l (omega arith))

  pub drop_all : (n : ℕ) (l : List A) → length l ≤ n → drop n l ≡ []
  drop_all zero [] h = refl
  drop_all zero (x ∷ l) h = absurd (omega arith)
  drop_all (suc n) [] h = refl
  drop_all (suc n) (x ∷ l) h = drop_all n l (omega arith)

  take-nil : (n : ℕ) → take {A = A} n [] ≡ []
  take-nil zero = refl
  take-nil (suc n) = refl

  pub take_split : (m k : ℕ) (l : List A) → m ≤ k → take k l ≡ take m l ++ take (k - m) (drop m l)
  take_split zero k l h = let same : k - 0 ≡ k = omega arith in rw same refl
  take_split (suc m) zero l h = absurd (omega arith)
  take_split (suc m) (suc k) [] h = sym (take-nil (suc k - suc m))
  take_split (suc m) (suc k) (x ∷ l) h =
      let same : suc k - suc m ≡ k - m = omega arith in
      rw same (ap (λ r. x ∷ r) (take_split m k l (omega arith)))

  pub take-drop : (n : ℕ) (l : List A) → take n l ++ drop n l ≡ l
  take-drop zero l = refl
  take-drop (suc n) [] = refl
  take-drop (suc n) (x ∷ l) = ap (λ r. x ∷ r) (take-drop n l)

  pub length-take : (n : ℕ) (l : List A) → n ≤ length l → length (take n l) ≡ n
  length-take zero l h = refl
  length-take (suc n) [] h = absurd (omega arith)
  length-take (suc n) (x ∷ l) h = omega (arith, length-take n l (omega arith))

  pub length-drop : (n : ℕ) (l : List A) → length (drop n l) ≡ length l - n
  length-drop zero l = omega arith
  length-drop (suc n) [] = omega arith
  length-drop (suc n) (x ∷ l) = omega (arith, length-drop n l)

  -- a list that is cut behind a row
  pub record CutAt (n : ℕ) (l : List A) : Type 0 where
    pub init : List A
    pub row : A
    pub whole : l ≡ init ++ row ∷ drop n l
    pub last : last_of (take n l) ≡ some row

  last_of-cons : (x y : A) (l : List A) → last_of (x ∷ y ∷ l) ≡ last_of (y ∷ l)
  last_of-cons x y l = refl

  pub cut : (n : ℕ) (l : List A) → suc n ≤ length l → CutAt (suc n) l
  cut n [] h = absurd (omega arith)
  cut zero (x ∷ l) h = record { init = []; row = x; whole = refl; last = refl }
  cut (suc n) (x ∷ []) h = absurd (omega arith)
  cut (suc n) (x ∷ y ∷ l) h =
      let c = cut n (y ∷ l) (omega arith) in
      record { init = x ∷ c.init; row = c.row; whole = ap (λ r. x ∷ r) c.whole; last = c.last }

  pub positive_cut : (n : ℕ) (l : List A) → 0 < n → n ≤ length l → CutAt n l
  positive_cut zero l p h = absurd (omega arith)
  positive_cut (suc n) l p h = cut n l h

  module _ (key : A → Option ℕ) where
    -- rows in strictly ascending order of keys that are not missing, from a bound on
    abbrev pub Ascending : ℕ → List A → Type 0
    Ascending b [] = Unit
    Ascending b (x ∷ l) = (k : ℕ) × (key x ≡ some k) × (b ≤ k) × Ascending (k + 1) l

    abbrev pub is_behind : ℕ → Option ℕ → Bool
    is_behind k none = false
    is_behind k (some n) = ltb k n

    abbrev pub behind : ℕ → List A → List A
    behind k [] = []
    behind k (x ∷ l) = if is_behind k (key x) then x ∷ behind k l else behind k l

    abbrev pub above : Option ℕ → List A → List A
    above none l = l
    above (some k) l = behind k l

    behind_all : (b k : ℕ) (l : List A) → k < b → Ascending b l → behind k l ≡ l
    behind_all b k [] h a = refl
    behind_all b k (x ∷ l) h (n, e, le, a) =
        let in_front : ltb k n ≡ true = ground arith in
        rw (e, in_front) (ap (λ r. x ∷ r) (behind_all (n + 1) k l (omega arith) a))

    key_of_append :
        (b k : ℕ) (l : List A) (x : A) (r : List A)
        → Ascending b (l ++ x ∷ r)
        → key x ≡ some k
        → b ≤ k
    key_of_append b k [] x r (n, e, le, a) h =
        let same : n ≡ k = some-injective n k (sym e ∙ h) in omega arith
    key_of_append b k (y ∷ l) x r (n, e, le, a) h = omega (arith, key_of_append (n + 1) k l x r a h)

    -- The rows behind a row's key are those behind the row.
    pub behind_row :
        (b k : ℕ) (l : List A) (x : A) (r : List A)
        → Ascending b (l ++ x ∷ r)
        → key x ≡ some k
        → behind k (l ++ x ∷ r) ≡ r
    behind_row b k [] x r (n, e, le, a) h =
        let out : ltb k k ≡ false = ground arith in
        let same : n ≡ k = some-injective n k (sym e ∙ h) in
        rw (h, out) (behind_all (n + 1) k r (omega arith) a)
    behind_row b k (y ∷ l) x r (n, e, le, a) h =
        let bound = key_of_append (n + 1) k l x r a h in
        let out : ltb k n ≡ false = ground (arith, bound) in
        rw (e, out) (behind_row (n + 1) k l x r a h)

    pub key_of_row :
        (b : ℕ) (l : List A) (x : A) (r : List A)
        → Ascending b (l ++ x ∷ r)
        → (k : ℕ) × (key x ≡ some k)
    key_of_row b [] x r (n, e, le, a) = (n, e)
    key_of_row b (y ∷ l) x r (n, e, le, a) = key_of_row (n + 1) l x r a

    -- what a query of the table gives: no error, and the rows that it asks for, in the table's order
    abbrev pub IsTable : (Query → Found A) → List A → Type 0
    IsTable find table =
        (q : Query)
        → find q
          ≡ record { rows = take q.limit (drop q.offset (above q.after table)); error = none }
