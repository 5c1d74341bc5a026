-- ===== src/Explain/Literals.antt =====
-- Strings are quoted so that they can be read back.
use pewter_rinse_moor.Prelude.{
  ℕ, ◌≡◌, refl, sym, ap, ◌∙◌, inl, inr, Bool, true, false, Option, none, some, [], ◌∷◌, ◌++◌,
  append_assoc, Bytes, arith, Bool-cases, equal_numbers, ◌==◌, if◌then◌else◌,
}
use pewter_rinse_moor.Explain.{Variable, text, valuer, pointer, doubled, convert_param}

abbrev pub starts_quoted : ℕ → Bytes → Bool
starts_quoted e [] = false
starts_quoted e (x ∷ s) = x == e

abbrev pub read_cons : ℕ → Option (Bytes × Bytes) → Option (Bytes × Bytes)
read_cons x none = none
read_cons x (some (s, rest)) = some (x ∷ s, rest)

-- How a database reads a literal behind its opening quote: two quotes are one, and one ends it. What is behind it
-- is left.
unfoldable pub read_body : ℕ → Bytes → Option (Bytes × Bytes)
read_body e [] = none
read_body e (x ∷ []) = if x == e then some ([], []) else none
read_body e (x ∷ y ∷ s) = elim (x == e) [
  | false ↦ read_cons x (read_body e (y ∷ s))
  | true ↦ elim (y == e) [ true ↦ read_cons e (read_body e s) | false ↦ some ([], y ∷ s) ]
]

abbrev pub read_literal : ℕ → Bytes → Option (Bytes × Bytes)
read_literal e [] = none
read_literal e (x ∷ s) = if x == e then read_body e s else none

read_end :
    (e : ℕ) (rest : Bytes) → starts_quoted e rest ≡ false → read_body e (e ∷ rest) ≡ some ([], rest)
unfolding read_body
read_end e [] h = let at : (e == e) ≡ true = ground arith in rw at refl
read_end e (y ∷ rest) h = let at : (e == e) ≡ true = ground arith in rw (read_body, at, h) refl

read_other :
    (e x : ℕ) (r : Bytes) (w : Bytes × Bytes)
    → (x == e) ≡ false
    → read_body e r ≡ some w
    → read_body e (x ∷ r) ≡ read_cons x (some w)
unfolding read_body
read_other e x [] w off h = absurd (ground arith)
read_other e x (y ∷ r) w off h = rw (read_body, off) (ap (read_cons x) h)

read_twice : (e : ℕ) (r : Bytes) → read_body e (e ∷ e ∷ r) ≡ read_cons e (read_body e r)
unfolding read_body
read_twice e r = let at : (e == e) ≡ true = ground arith in rw (read_body, at, at) refl

read_doubled :
    (e : ℕ) (s rest : Bytes)
    → starts_quoted e rest ≡ false
    → read_body e (doubled e s ++ e ∷ rest) ≡ some (s, rest)
unfolding doubled
read_doubled e [] rest h = read_end e rest h
read_doubled e (x ∷ s) rest h = elim (Bool-cases (x == e)) [
  | inl at ↦
      let same : x ≡ e = ground arith in
      rw at (
        read_twice e (doubled e s ++ e ∷ rest)
        ∙ ap (read_cons e) (read_doubled e s rest h)
        ∙ ap (λ y. some (y ∷ s, rest)) (sym same))
  | inr off ↦
      rw off (read_other e x (doubled e s ++ e ∷ rest) (s, rest) off (read_doubled e s rest h))
]

-- A variable that holds a string, behind any number of pointers and `driver.Valuer`.
abbrev pub HoldsText : Bytes → Variable → Type 0
HoldsText s (text t) = t ≡ s
HoldsText s (valuer v) = HoldsText s v
HoldsText s (pointer v) = HoldsText s v
HoldsText s _ = ⊥

-- A string is logged as a literal that, whatever the string, is read back as the string, and ends
-- where it ends; behind it stands no quote.
pub convert_param-read_literal :
    (is_printable : Bytes → Bool) (e : ℕ) (v : Variable) (s rest : Bytes)
    → HoldsText s v
    → starts_quoted e rest ≡ false
    → read_literal e (convert_param is_printable e v ++ rest) ≡ some (s, rest)
unfolding convert_param
convert_param-read_literal is_printable e (text t) s rest same h =
    let at : (e == e) ≡ true = ground arith in
    rw (at, same, append_assoc (doubled e s) (e ∷ []) rest) (read_doubled e s rest h)
convert_param-read_literal is_printable e (valuer v) s rest same h =
    convert_param-read_literal is_printable e v s rest same h
convert_param-read_literal is_printable e (pointer v) s rest same h =
    convert_param-read_literal is_printable e v s rest same h
convert_param-read_literal is_printable e v s rest same h = absurd same
