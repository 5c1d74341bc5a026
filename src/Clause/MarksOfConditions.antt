-- ===== src/Clause/MarksOfConditions.antt =====
-- Placeholders and variables stay in step through what a condition does with the expressions that it holds.
use pewter_rinse_moor.Prelude.{
  ◌≡◌, refl, sym, ◌&&◌, ltb, codes, Bool, true, false, Option, none, some, List, [], ◌∷◌, Bytes,
  arith, equal_bytes, equal_numbers, if◌then◌else◌, length, All, Bool-cases, Option-cases, inl, inr,
}
use pewter_rinse_moor.Clause.Writer.{Action, ◌>>◌, write}
use pewter_rinse_moor.Clause.Conditions.{
  Node, and_with_space, or_with_space, build_joined, build_exprs, build_conditions, exchange,
  put_first, build_not, builds, build_comma, is_single_or, is_at_most_single_or, wraps, not_wraps,
  is_or, parens_if, any_negation, negate_each, negate_all,
}
use pewter_rinse_moor.Clause.Marks.{
  marks, Aligned, >>-Aligned, skip-Aligned, write-Aligned, in_parens-Aligned, if-Aligned,
}

abbrev pub AlignedOption : Option Action → Type 0
AlignedOption none = Unit
AlignedOption (some a) = Aligned a

abbrev pub AlignedNode : Node → Type 0
AlignedNode n = Aligned n.build × AlignedOption n.negation

pub parens_if-Aligned : (b : Bool) {a : Action} → Aligned a → Aligned (parens_if b a)
parens_if-Aligned true p = in_parens-Aligned p
parens_if-Aligned false p = p

or_with_space-marks : marks or_with_space ≡ 0
unfolding or_with_space marks codes
or_with_space-marks = refl

and_with_space-marks : marks and_with_space ≡ 0
unfolding and_with_space marks codes
and_with_space-marks = refl

build_joined-Aligned :
    (first many : Bool) (join : Bytes) (ns : List Node)
    → marks join ≡ 0
    → All AlignedNode ns
    → Aligned (build_joined first many join ns)
unfolding build_joined
build_joined-Aligned first many join [] clean h = skip-Aligned
build_joined-Aligned first many join (n ∷ ns) clean (p, h) =
    >>-Aligned
      (>>-Aligned
        (if-Aligned first skip-Aligned (write-Aligned _ (connective (is_single_or n.tree))))
        (parens_if-Aligned (many && wraps n.tree) p.0))
      (build_joined-Aligned false many join ns clean h)
  where
    connective : (b : Bool) → marks (if b then or_with_space else join) ≡ 0
    connective true = or_with_space-marks
    connective false = clean

build_exprs-Aligned :
    (join : Bytes) (ns : List Node)
    → marks join ≡ 0
    → All AlignedNode ns
    → Aligned (build_exprs join ns)
unfolding build_exprs
build_exprs-Aligned join ns clean h = build_joined-Aligned true (ltb 1 (length ns)) join ns clean h

pub build_and-Aligned :
    (ns : List Node) → All AlignedNode ns → Aligned (build_exprs and_with_space ns)
build_and-Aligned ns h = build_exprs-Aligned and_with_space ns and_with_space-marks h

pub and_conditions-Aligned :
    (ns : List Node) → All AlignedNode ns → Aligned (build_conditions and_with_space ns)
and_conditions-Aligned ns h = parens_if-Aligned (ltb 1 (length ns)) (build_and-Aligned ns h)

pub or_conditions-Aligned :
    (ns : List Node) → All AlignedNode ns → Aligned (build_conditions or_with_space ns)
or_conditions-Aligned ns h =
    parens_if-Aligned (ltb 1 (length ns))
      (build_exprs-Aligned or_with_space ns or_with_space-marks h)

exchange-All :
    (P : Node → Type 0) (n : Node) (ns : List Node) (x : Node) (l : List Node)
    → P n
    → All P ns
    → exchange n ns ≡ some (x, l)
    → P x × All P l
unfolding exchange
exchange-All P n [] x l p h e = absurd (ground arith)
exchange-All P n (m ∷ ns) x l p (q, h) e = elim (Bool-cases (is_at_most_single_or m.tree)) [
  | inr other_kind ↦
      let here : m ≡ x = ground arith in
      let rest : n ∷ ns ≡ l = ground arith in
      let all : All P (n ∷ ns) = (p, h) in (rw here at q, rw (sym rest) all)
  | inl single ↦ elim (Option-cases (exchange n ns)) [
    | inl missed ↦ absurd (ground arith)
    | inr ((y, k), found) ↦
        let (py, pk) = exchange-All P n ns y k p h found in
        let here : y ≡ x = ground arith in
        let rest : m ∷ k ≡ l = ground arith in
        let all : All P (m ∷ k) = (q, pk) in (rw here at py, rw (sym rest) all)
  ]
]

pub put_first-All : (P : Node → Type 0) (ns : List Node) → All P ns → All P (put_first ns)
unfolding put_first
put_first-All P [] h = tt
put_first-All P (n ∷ ns) (p, h) = elim (Bool-cases (is_at_most_single_or n.tree)) [
  | inr other_kind ↦ rw other_kind (p, h)
  | inl single ↦ elim (Option-cases (exchange n ns)) [
    | inl missed ↦ rw (single, missed) (p, h)
    | inr ((x, l), found) ↦ rw (single, found) (exchange-All P n ns x l p h found)
  ]
]

negate_each-Aligned :
    (first : Bool) (ns : List Node) → All AlignedNode ns → Aligned (negate_each first ns)
unfolding negate_each marks
negate_each-Aligned first [] h = skip-Aligned
negate_each-Aligned first (n ∷ ns) ((hb, hn), h) =
    >>-Aligned
      (>>-Aligned (if-Aligned first skip-Aligned (write-Aligned _ and_with_space-marks))
        (negated n.negation hn))
      (negate_each-Aligned false ns h)
  where
    negated :
        (o : Option Action)
        → AlignedOption o
        → Aligned (elim o [
          | some a ↦ a
          | none ↦ write (codes "NOT ") >> parens_if (not_wraps n.tree) n.build
        ])
    negated none u = >>-Aligned (write-Aligned _ refl) (parens_if-Aligned (not_wraps n.tree) hb)
    negated (some a) q = q

negate_all-Aligned :
    (first : Bool) (ns : List Node) → All AlignedNode ns → Aligned (negate_all first ns)
unfolding negate_all
negate_all-Aligned first [] h = skip-Aligned
negate_all-Aligned first (n ∷ ns) ((hb, hn), h) =
    >>-Aligned
      (>>-Aligned (if-Aligned first skip-Aligned (write-Aligned _ (connective (is_or n.tree))))
        (parens_if-Aligned (not_wraps n.tree) hb))
      (negate_all-Aligned false ns h)
  where
    connective : (b : Bool) → marks (if b then or_with_space else and_with_space) ≡ 0
    connective true = or_with_space-marks
    connective false = and_with_space-marks

pub build_not-Aligned : (ns : List Node) → All AlignedNode ns → Aligned (build_not ns)
unfolding build_not marks
build_not-Aligned ns h =
    if-Aligned (any_negation ns)
      (parens_if-Aligned (ltb 1 (length ns)) (negate_each-Aligned true ns h))
      (>>-Aligned (write-Aligned _ refl)
        (parens_if-Aligned (ltb 1 (length ns)) (negate_all-Aligned true ns h)))

pub builds-Aligned : (ns : List Node) → All AlignedNode ns → All Aligned (builds ns)
builds-Aligned [] h = tt
builds-Aligned (n ∷ ns) (p, h) = (p.0, builds-Aligned ns h)

pub build_comma-Aligned : (l : List Action) → All Aligned l → Aligned (build_comma l)
unfolding build_comma marks
build_comma-Aligned [] h = skip-Aligned
build_comma-Aligned (a ∷ []) (p, h) = p
build_comma-Aligned (a ∷ b ∷ l) (p, h) =
    >>-Aligned (>>-Aligned p (write-Aligned _ refl)) (build_comma-Aligned (b ∷ l) h)
