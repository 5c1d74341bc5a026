-- ===== src/Clause/MarksOfParts.antt =====
-- Placeholders and variables stay in step through what an expression or a condition does with its parts.
use pewter_rinse_moor.Prelude.{
  ℕ, suc, ◌≡◌, refl, not, ◌&&◌, ◌||◌, codes, Bool, true, false, some, List, [], ◌∷◌, ◌++◌, Bytes,
  arith, equal_bytes, equal_numbers, ◌==◌, if◌then◌else◌, length, All, Bool-cases, Option-cases,
  inl, inr,
}
use pewter_rinse_moor.Clause.{Value, null, bytes, list, slice}
use pewter_rinse_moor.Clause.Writer.{Env, Action, ◌>>◌, write, byte, commas}
use pewter_rinse_moor.Clause.Fragments.{
  Part, adds, push_rest, walk_expr, process_value, process_content, bind_slice, named, lookup,
  walk_named, ends_name, build_eq, build_neq, compare_by, build_in, is_list, is_listed, eq_nil,
}
use pewter_rinse_moor.Clause.Marks.{
  marks, marks-append, Aligned, >>-Aligned, skip-Aligned, write-Aligned, commas-Aligned, if-Aligned,
  HasMarks,
}
use pewter_rinse_moor.Clause.MarksOfNames.{bind-Aligned}

abbrev pub AlignedPart : Part → Type 0
AlignedPart p = Aligned p.add × All Aligned p.elements

marks-cons_zero : (c : ℕ) (s : Bytes) → marks (c ∷ s) ≡ 0 → (marks (byte c) ≡ 0) × (marks s ≡ 0)
unfolding marks
marks-cons_zero c s h = ground arith

marks-cons_none : (c : ℕ) (s : Bytes) → marks (c ∷ s) ≡ 0 → (c == b'?') ≡ false
unfolding marks
marks-cons_none c s h = ground arith

marks-cons_other :
    (c : ℕ) (s : Bytes) → (c == b'?') ≡ false → (marks (byte c) ≡ 0) × (marks (c ∷ s) ≡ marks s)
unfolding marks
marks-cons_other c s h = ground arith

marks-cons_mark : (c : ℕ) (s : Bytes) → (c == b'?') ≡ true → marks (c ∷ s) ≡ suc (marks s)
unfolding marks
marks-cons_mark c s h = ground arith

adds-Aligned : (ps : List Part) → All AlignedPart ps → All Aligned (adds ps)
adds-Aligned [] h = tt
adds-Aligned (p ∷ ps) (q, h) = (q.0, adds-Aligned ps h)

lookup-AlignedPart :
    (name : Bytes) (b : List (Bytes × Part)) (p : Part)
    → All (λ e. AlignedPart e.1) b
    → lookup name b ≡ some p
    → AlignedPart p
unfolding lookup
lookup-AlignedPart name [] p h e = absurd (ground arith)
lookup-AlignedPart name ((n, q) ∷ b) p (hq, h) e = elim (Option-cases (lookup name b)) [
  | inr (r, found) ↦ lookup-AlignedPart name b p h (ground arith)
  | inl missed ↦ let same : q ≡ p = ground arith in rw same at hq
]

module _ {env : Env} (m : HasMarks env) where
  bind_slice-Aligned : (l : List Action) → All Aligned l → Aligned (bind_slice env l)
  bind_slice-Aligned [] h = bind-Aligned m null
  bind_slice-Aligned (a ∷ l) h = commas-Aligned (a ∷ l) h

  process_content-Aligned :
      (v : Value) (p : Part) → AlignedPart p → Aligned (process_content env v p)
  process_content-Aligned (list vs) p h = bind_slice-Aligned p.elements h.1
  process_content-Aligned (slice t vs) p h = bind_slice-Aligned p.elements h.1
  process_content-Aligned (bytes bs) p h = bind_slice-Aligned p.elements h.1
  process_content-Aligned _ p h = h.0

  process_value-Aligned : (p : Part) → AlignedPart p → Aligned (process_value env p)
  unfolding process_value
  process_value-Aligned p h = process_content-Aligned p.content p h

  -- a raw fragment with as many placeholders as variables
  pub walk_expr-Aligned :
      (s : Bytes) (ps : List Part) (bare after : Bool)
      → marks s ≡ length ps
      → All AlignedPart ps
      → Aligned (walk_expr env s ps bare after)
  unfolding walk_expr
  walk_expr-Aligned [] [] bare after e h = unfold push_rest in skip-Aligned
  walk_expr-Aligned [] (p ∷ ps) bare after e h = unfold marks in absurd (omega arith)
  walk_expr-Aligned (c ∷ s) [] bare after e h =
      let (hc, hs) = marks-cons_zero c s e in
      >>-Aligned (write-Aligned (byte c) hc) (walk_expr-Aligned s [] bare (c == b'(') hs tt)
  walk_expr-Aligned (c ∷ s) (p ∷ ps) bare after e (hp, h) = elim (Bool-cases (c == b'?')) [
    | inl mark ↦ rw mark (
        >>-Aligned (if-Aligned (after || bare) (process_value-Aligned p hp) hp.0)
          (walk_expr-Aligned s ps bare after (omega (arith, marks-cons_mark c s mark)) h))
    | inr copy ↦
        let (hc, hs) = marks-cons_other c s copy in
        rw copy (
          >>-Aligned (write-Aligned (byte c) hc)
            (walk_expr-Aligned s (p ∷ ps) bare (c == b'(') (omega arith) (hp, h)))
  ]

  named-Aligned :
      (b : List (Bytes × Part)) (after : Bool) (name : Bytes)
      → All (λ e. AlignedPart e.1) b
      → marks name ≡ 0
      → Aligned (named env b after name)
  unfolding named marks
  named-Aligned b after name h clean = elim (Option-cases (lookup name b)) [
    | inl e ↦ rw (named, e) (>>-Aligned (write-Aligned (byte b'@') refl) (write-Aligned name clean))
    | inr (p, e) ↦
        let hp = lookup-AlignedPart name b p h e in
        rw (named, e) (if-Aligned after (process_value-Aligned p hp) hp.0)
  ]

  -- a named fragment without placeholders
  pub walk_named-Aligned :
      (b : List (Bytes × Part)) (s : Bytes) (ps : List Part) (inside after : Bool) (name : Bytes)
      → All (λ e. AlignedPart e.1) b
      → marks s ≡ 0
      → marks name ≡ 0
      → Aligned (walk_named env b s ps inside after name)
  unfolding walk_named marks
  walk_named-Aligned b [] ps inside after name h e clean =
      if-Aligned inside (named-Aligned b false name h clean) skip-Aligned
  walk_named-Aligned b (c ∷ s) ps inside after name h e clean =
      let (hc, hs) = marks-cons_zero c s e in
      let open_name = walk_named-Aligned b s ps true after [] h hs refl in
      let close =
        >>-Aligned
          (>>-Aligned (if-Aligned inside (named-Aligned b after name h clean) skip-Aligned)
            (write-Aligned (byte c) hc))
          (walk_named-Aligned b s ps false false name h hs clean) in
      let in_name =
        walk_named-Aligned b s ps true after (name ++ byte c) h hs
          (omega (arith, marks-append name (byte c))) in
      let copied =
        >>-Aligned (write-Aligned (byte c) hc)
          (walk_named-Aligned b s ps false (c == b'(') name h hs clean) in
      if-Aligned (c == b'@' && not inside) open_name
        (if-Aligned (ends_name c) close (no_mark ps (if-Aligned inside in_name copied)))
    where
      no_mark :
          {plain : Action}
          → (ps : List Part) → Aligned plain
          → Aligned (elim ps [
            | [] ↦ plain
            | p ∷ rest ↦
                if c == b'?'
                then (if after then process_value env p else p.add)
                  >> walk_named env b s rest inside after name
                else plain
          ])
      no_mark [] q = q
      no_mark (p ∷ rest) q = rw (marks-cons_none c s e) q

module _ {quote : Action} (hq : Aligned quote) where
  pub build_eq-Aligned : (p : Part) → AlignedPart p → Aligned (build_eq quote p)
  unfolding build_eq marks
  build_eq-Aligned p h = >>-Aligned hq (
      if-Aligned (is_listed p.content) (listed p.elements h.1) (
        if-Aligned (eq_nil p.content) (write-Aligned _ refl)
          (>>-Aligned (write-Aligned _ refl) h.0)))
    where
      listed :
          (l : List Action)
          → All Aligned l
          → Aligned (elim l [
            | [] ↦ write (codes " IN (NULL)")
            | a ∷ l ↦ write (codes " IN (") >> commas (a ∷ l) >> write (byte b')')
          ])
      listed [] h = write-Aligned _ refl
      listed (a ∷ l) h =
          >>-Aligned (>>-Aligned (write-Aligned _ refl) (commas-Aligned (a ∷ l) h))
            (write-Aligned _ refl)

  pub build_neq-Aligned : (p : Part) → AlignedPart p → Aligned (build_neq quote p)
  unfolding build_neq marks
  build_neq-Aligned p h = >>-Aligned hq (
      if-Aligned (is_listed p.content)
        (>>-Aligned (>>-Aligned (write-Aligned _ refl) (commas-Aligned p.elements h.1))
          (write-Aligned _ refl))
        (if-Aligned (eq_nil p.content) (write-Aligned _ refl)
          (>>-Aligned (write-Aligned _ refl) h.0)))

  pub compare_by-Aligned :
      (op : Bytes) {add : Action} → marks op ≡ 0 → Aligned add → Aligned (compare_by quote op add)
  unfolding compare_by
  compare_by-Aligned op clean h = >>-Aligned (>>-Aligned hq (write-Aligned op clean)) h

  pub build_in-Aligned :
      (none_text one_text many_text : Bytes) (ps : List Part)
      → (marks none_text ≡ 0) × (marks one_text ≡ 0) × (marks many_text ≡ 0)
      → All AlignedPart ps
      → Aligned (build_in quote none_text one_text many_text ps)
  unfolding build_in marks
  build_in-Aligned none_text one_text many_text [] (n, o, m) h =
      >>-Aligned hq (write-Aligned none_text n)
  build_in-Aligned none_text one_text many_text (p ∷ []) (n, o, m) (hp, h) =
      if-Aligned (is_list p.content)
        (>>-Aligned (>>-Aligned (>>-Aligned hq (write-Aligned many_text m)) hp.0)
          (write-Aligned _ refl))
        (>>-Aligned (>>-Aligned hq (write-Aligned one_text o)) hp.0)
  build_in-Aligned none_text one_text many_text (p ∷ q ∷ ps) (n, o, m) h =
      >>-Aligned
        (>>-Aligned (>>-Aligned hq (write-Aligned many_text m))
          (commas-Aligned _ (adds-Aligned (p ∷ q ∷ ps) h)))
        (write-Aligned _ refl)
