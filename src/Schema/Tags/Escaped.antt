-- ===== src/Schema/Tags/Escaped.antt =====
-- Settings written as a tag, and what the loop over the names makes of them.
use pewter_rinse_moor.Prelude.{
  ℕ, ◌≡◌, refl, sym, ap, ◌∙◌, ◌⊎◌, inl, inr, Bool, true, false, not, ◌&&◌, ◌||◌, List, [], ◌∷◌,
  ◌++◌, append_assoc, append-nil, Bytes, arith, Bool-cases, equal_bytes, equal_numbers, ◌==◌,
  if◌then◌else◌,
}
use pewter_rinse_moor.Schema.Texts.{split, split-cons, ends_with, without_last, has}
use pewter_rinse_moor.Schema.Tags.{Settings, merge_names, parsed_names, unquote}

-- a value with its quotes escaped
abbrev pub quote : Bytes → Bytes
quote [] = []
quote (x ∷ v) = if x == b'"' then b'\\' ∷ b'"' ∷ quote v else x ∷ quote v

-- and its separators
abbrev pub escape : ℕ → Bytes → Bytes
escape sep [] = []
escape sep (x ∷ v) =
    if x == b'"'
    then b'\\' ∷ b'"' ∷ escape sep v
    else (if x == sep then b'\\' ∷ sep ∷ escape sep v else x ∷ escape sep v)

-- No backslash stands in front of a separator or at the end.
abbrev pub starts_plain : ℕ → Bytes → Bool
starts_plain sep [] = false
starts_plain sep (y ∷ v) = not (y == sep)

abbrev pub is_safe : ℕ → Bytes → Bool
is_safe sep [] = true
is_safe sep (x ∷ v) = (not (x == b'\\') || starts_plain sep v) && is_safe sep v

-- a setting and settings as a tag
abbrev pub tag_of : ℕ → Bytes × Bytes → Bytes
tag_of sep (k, v) = k ++ b':' ∷ escape sep v

abbrev pub tags_of : ℕ → Settings → Bytes
tags_of sep [] = []
tags_of sep (e ∷ []) = tag_of sep e
tags_of sep (e ∷ f ∷ l) = tag_of sep e ++ sep ∷ tags_of sep (f ∷ l)

-- the name that comes of it
abbrev pub line_of : Bytes × Bytes → Bytes
line_of (k, v) = k ++ b':' ∷ quote v

abbrev pub lines_of : Settings → List Bytes
lines_of [] = []
lines_of (e ∷ l) = line_of e ∷ lines_of l

head_of_quote : (x : ℕ) (v : Bytes) → unquote (x ∷ quote v) ≡ x ∷ unquote (quote v)
unfolding unquote
head_of_quote x [] = refl
head_of_quote x (y ∷ v) = elim (Bool-cases (y == b'"')) [
  | inl at ↦ let off : (x == b'\\' && false) ≡ false = ground arith in rw (at, unquote, off) refl
  | inr other ↦
      let off : (x == b'\\' && y == b'"') ≡ false = ground arith in rw (other, unquote, off) refl
]

pub unquote-quote : (v : Bytes) → unquote (quote v) ≡ v
unfolding unquote
unquote-quote [] = refl
unquote-quote (x ∷ v) = elim (Bool-cases (x == b'"')) [
  | inl at ↦ let same : x ≡ b'"' = ground arith in rw (at, unquote-quote v, same) refl
  | inr other ↦ rw (other, head_of_quote x v, unquote-quote v) refl
]

ends_with-append : (c x : ℕ) (k s : Bytes) → ends_with c (k ++ x ∷ s) ≡ ends_with c (x ∷ s)
ends_with-append c x [] s = refl
ends_with-append c x (y ∷ []) s = refl
ends_with-append c x (y ∷ z ∷ k) s = ends_with-append c x (z ∷ k) s

-- A value that is safe does not end in a backslash.
ends_with-quote :
    (sep x : ℕ) (v : Bytes)
    → is_safe sep v ≡ true
    → ((x == b'\\') ≡ false) ⊎ (starts_plain sep v ≡ true)
    → ends_with b'\\' (x ∷ quote v) ≡ false
ends_with-quote sep x [] safe (inl h) = h
ends_with-quote sep x [] safe (inr h) = absurd (ground arith)
ends_with-quote sep x (y ∷ v) safe h = elim (Bool-cases (y == b'"')) [
  | inl at ↦ rw at (ends_with-quote sep b'"' v (ground arith) (inl refl))
  | inr other ↦ rw other (
      ends_with-quote sep y v (ground arith)
        (elim (Bool-cases (y == b'\\')) [ inl back ↦ inr (ground arith) | inr off ↦ inl off ]))
]

pub line_ends :
    (sep : ℕ) (k v : Bytes) → is_safe sep v ≡ true → ends_with b'\\' (line_of (k, v)) ≡ false
line_ends sep k v safe =
    ends_with-append b'\\' b':' k (quote v) ∙ ends_with-quote sep b':' v safe (inl refl)

without_last-append : (x : ℕ) (s : Bytes) → without_last (s ++ x ∷ []) ≡ s
without_last-append x [] = refl
without_last-append x (y ∷ []) = refl
without_last-append x (y ∷ z ∷ s) = ap (λ r. y ∷ r) (without_last-append x (z ∷ s))

-- the names from a point on, with the name before it
unfoldable pub names_after : ℕ → Bytes → Bytes → List Bytes
names_after sep a s = elim (split sep s) [ [] ↦ a ∷ [] | p ∷ ps ↦ merge_names sep (a ++ p) ps ]

pub parsed_names-after :
    (sep : ℕ) (s : Bytes) → parsed_names sep (split sep s) ≡ names_after sep [] s
unfolding names_after parsed_names
parsed_names-after sep s = let (p, ps, e) = split-cons sep s in rw (names_after, e) refl

two : (a : Bytes) (x y : ℕ) (s : Bytes) → ((a ++ x ∷ []) ++ y ∷ []) ++ s ≡ a ++ x ∷ y ∷ s
two a x y s = append_assoc (a ++ x ∷ []) (y ∷ []) s ∙ append_assoc a (x ∷ []) (y ∷ s)

module _ (sep : ℕ) (not_back : (sep == b'\\') ≡ false) (not_quote : (sep == b'"') ≡ false) where
  pub after_nil : (a : Bytes) → names_after sep a [] ≡ a ∷ []
  unfolding names_after split merge_names
  after_nil a = ap (λ r. r ∷ []) (append-nil a)

  after_byte :
      (x : ℕ) (a s : Bytes)
      → (x == sep) ≡ false
      → names_after sep a (x ∷ s) ≡ names_after sep (a ++ x ∷ []) s
  unfolding names_after split
  after_byte x a s off =
      let (p, ps, e) = split-cons sep s in
      rw (names_after, off, e) (ap (λ r. merge_names sep r ps) (sym (append_assoc a (x ∷ []) p)))

  -- a separator that ends a name, and one that does not
  pub after_end :
      (a s : Bytes)
      → ends_with b'\\' a ≡ false
      → names_after sep a (sep ∷ s) ≡ a ∷ names_after sep [] s
  unfolding names_after split merge_names
  after_end a s whole =
      let (p, ps, e) = split-cons sep s in
      let at : (sep == sep) ≡ true = ground arith in
      rw (names_after, at, append-nil a, e, merge_names, whole) refl

  after_more :
      (a s : Bytes)
      → names_after sep (a ++ b'\\' ∷ []) (sep ∷ s) ≡ names_after sep (a ++ sep ∷ []) s
  unfolding names_after split merge_names
  after_more a s =
      let (p, ps, e) = split-cons sep s in
      let at : (sep == sep) ≡ true = ground arith in
      let back : ends_with b'\\' (a ++ b'\\' ∷ []) ≡ true = ends_with-append b'\\' b'\\' a [] in
      rw
        (
          names_after,
          at,
          append-nil (a ++ b'\\' ∷ []),
          e,
          merge_names,
          back,
          without_last-append b'\\' a,
        )
        (ap (λ r. merge_names sep r ps) (sym (append_assoc a (sep ∷ []) p)))

  pub after_plain :
      (a k s : Bytes) → has sep k ≡ false → names_after sep a (k ++ s) ≡ names_after sep (a ++ k) s
  after_plain a [] s h = rw (append-nil a) refl
  after_plain a (x ∷ k) s h =
      after_byte x a (k ++ s) (ground arith)
      ∙ after_plain (a ++ x ∷ []) k s (ground arith)
      ∙ ap (λ r. names_after sep r s) (append_assoc a (x ∷ []) k)

  pub after_escape :
      (a v s : Bytes) → names_after sep a (escape sep v ++ s) ≡ names_after sep (a ++ quote v) s
  after_escape a [] s = rw (append-nil a) refl
  after_escape a (x ∷ v) s = elim (Bool-cases (x == b'"')) [
    | inl at ↦ rw at (
        after_byte b'\\' a (b'"' ∷ escape sep v ++ s) (ground arith)
        ∙ after_byte b'"' (a ++ b'\\' ∷ []) (escape sep v ++ s) (ground arith)
        ∙ after_escape ((a ++ b'\\' ∷ []) ++ b'"' ∷ []) v s
        ∙ ap (λ r. names_after sep r s) (two a b'\\' b'"' (quote v)))
    | inr other ↦ elim (Bool-cases (x == sep)) [
      | inl cut ↦
          let same : x ≡ sep = ground arith in
          rw (other, cut)
            (after_byte b'\\' a (sep ∷ escape sep v ++ s) (ground arith)
              ∙ after_more a (escape sep v ++ s)
              ∙ after_escape (a ++ sep ∷ []) v s
              ∙ ap (λ r. names_after sep r s)
                  (append_assoc a (sep ∷ []) (quote v) ∙ ap (λ y. a ++ y ∷ quote v) (sym same)))
      | inr off ↦
          rw (other, off)
            (after_byte x a (escape sep v ++ s) off
              ∙ after_escape (a ++ x ∷ []) v s
              ∙ ap (λ r. names_after sep r s) (append_assoc a (x ∷ []) (quote v)))
    ]
  ]
