-- ===== src/Prelude/Lists.antt =====
-- Lists measured and indexed by native numbers, under the library's names.
use Prim.Native.Nat.{ℕ, zero, suc, ◌+◌, ◌≤◌, ◌<◌}
use mathlib.Core.Path.{◌≡◌, refl, subst}
use mathlib.Core.Logic.{◌≢◌}
use mathlib.Core.List.{List, [], ◌∷◌, ◌++◌}
use mathlib.Core.Option.{Option, none, some, some-injective}
use native.Mathlib.Omega.{arith}

module _ {ℓ} {A : Type ℓ} where
  abbrev pub length : List A → ℕ
  length [] = 0
  length (x ∷ xs) = suc (length xs)

  abbrev pub get_elem? : List A → ℕ → Option A
  get_elem? [] i = none
  get_elem? (x ∷ xs) zero = some x
  get_elem? (x ∷ xs) (suc i) = get_elem? xs i

  -- A write through an index; out of bounds it changes nothing.
  abbrev pub update : ℕ → (A → A) → List A → List A
  update i f [] = []
  update zero f (x ∷ xs) = f x ∷ xs
  update (suc i) f (x ∷ xs) = x ∷ update i f xs

  abbrev pub take : ℕ → List A → List A
  take zero xs = []
  take (suc n) [] = []
  take (suc n) (x ∷ xs) = x ∷ take n xs

  abbrev pub drop : ℕ → List A → List A
  drop zero xs = xs
  drop (suc n) [] = []
  drop (suc n) (x ∷ xs) = drop n xs

  -- `append(l[:n], append([]T{v}, l[n:]...)...)`
  abbrev pub insert_at : ℕ → A → List A → List A
  insert_at n v l = take n l ++ v ∷ drop n l

module _ {ℓ} {A : Type ℓ} where
  pub length-append : (xs ys : List A) → length (xs ++ ys) ≡ length xs + length ys
  length-append [] ys = omega arith
  length-append (x ∷ xs) ys = omega (arith, length-append xs ys)

  pub lt-length_of_get : (xs : List A) (i : ℕ) (v : A) → get_elem? xs i ≡ some v → i < length xs
  lt-length_of_get [] i v h = absurd (ground arith)
  lt-length_of_get (x ∷ xs) zero v h = omega arith
  lt-length_of_get (x ∷ xs) (suc i) v h = omega (arith, lt-length_of_get xs i v h)

  pub get_of_lt-length : (xs : List A) (i : ℕ) → i < length xs → (v : A) × (get_elem? xs i ≡ some v)
  get_of_lt-length [] i h = absurd (omega arith)
  get_of_lt-length (x ∷ xs) zero h = (x, refl)
  get_of_lt-length (x ∷ xs) (suc i) h = get_of_lt-length xs i (omega arith)

  pub get_elem?-update_self :
      (i : ℕ) (f : A → A) (xs : List A) (v : A)
      → get_elem? xs i ≡ some v
      → get_elem? (update i f xs) i ≡ some (f v)
  get_elem?-update_self i f [] v h = absurd (ground arith)
  get_elem?-update_self zero f (x ∷ xs) v h = ground arith
  get_elem?-update_self (suc i) f (x ∷ xs) v h = get_elem?-update_self i f xs v h

  pub get_elem?-update_ne :
      (i j : ℕ) (f : A → A) (xs : List A) → i ≢ j → get_elem? (update i f xs) j ≡ get_elem? xs j
  get_elem?-update_ne i j f [] h = refl
  get_elem?-update_ne zero zero f (x ∷ xs) h = absurd (h refl)
  get_elem?-update_ne zero (suc j) f (x ∷ xs) h = refl
  get_elem?-update_ne (suc i) zero f (x ∷ xs) h = refl
  get_elem?-update_ne (suc i) (suc j) f (x ∷ xs) h =
      get_elem?-update_ne i j f xs (λ e. h (omega arith))

  pub get_elem?-insert_lt :
      (k i : ℕ) (v : A) (l : List A)
      → i < k
      → k ≤ length l
      → get_elem? (insert_at k v l) i ≡ get_elem? l i
  get_elem?-insert_lt zero i v l h b = absurd (omega arith)
  get_elem?-insert_lt (suc k) i v [] h b = absurd (omega arith)
  get_elem?-insert_lt (suc k) zero v (x ∷ l) h b = refl
  get_elem?-insert_lt (suc k) (suc i) v (x ∷ l) h b =
      get_elem?-insert_lt k i v l (omega arith) (omega arith)

  pub get_elem?-insert_self :
      (k : ℕ) (v : A) (l : List A) → k ≤ length l → get_elem? (insert_at k v l) k ≡ some v
  get_elem?-insert_self zero v l b = refl
  get_elem?-insert_self (suc k) v [] b = absurd (omega arith)
  get_elem?-insert_self (suc k) v (x ∷ l) b = get_elem?-insert_self k v l (omega arith)

  pub get_elem?-insert_ge :
      (k i : ℕ) (v : A) (l : List A) → k ≤ i → get_elem? (insert_at k v l) (suc i) ≡ get_elem? l i
  get_elem?-insert_ge zero i v l h = refl
  get_elem?-insert_ge (suc k) zero v l h = absurd (omega arith)
  get_elem?-insert_ge (suc k) (suc i) v [] h = refl
  get_elem?-insert_ge (suc k) (suc i) v (x ∷ l) h = get_elem?-insert_ge k i v l (omega arith)

  pub insert_at-length : (l : List A) (v : A) → l ++ v ∷ [] ≡ insert_at (length l) v l
  insert_at-length [] v = refl
  insert_at-length (x ∷ l) v = λ i. x ∷ insert_at-length l v i

module _ {ℓ κ} {A : Type ℓ} (P : A → Type κ) where
  -- Every element has the property.
  abbrev pub All : List A → Type κ
  All [] = Unit
  All (x ∷ xs) = P x × All xs

  pub All-get : (xs : List A) → All xs → (i : ℕ) (x : A) → get_elem? xs i ≡ some x → P x
  All-get [] h i x e = absurd (ground arith)
  All-get (y ∷ xs) (p, h) zero x e = subst P (some-injective y x e) p
  All-get (y ∷ xs) (p, h) (suc i) x e = All-get xs h i x e

  pub All-update :
      (i : ℕ) (f : A → A) (xs : List A) → ((x : A) → P x → P (f x)) → All xs → All (update i f xs)
  All-update i f [] k h = tt
  All-update zero f (x ∷ xs) k (p, h) = (k x p, h)
  All-update (suc i) f (x ∷ xs) k (p, h) = (p, All-update i f xs k h)

  pub All-append : (xs ys : List A) → All xs → All ys → All (xs ++ ys)
  All-append [] ys h k = k
  All-append (x ∷ xs) ys (p, h) k = (p, All-append xs ys h k)
