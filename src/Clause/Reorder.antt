-- ===== src/Clause/Reorder.antt =====
-- `Where.Build` exchanges conditions: what it does to their order.
use mathlib.Core.List.{Perm}
use mathlib.Core.List.Perm
use pewter_rinse_moor.Prelude.{
  ◌≡◌, refl, sym, true, false, none, some, List, [], ◌∷◌, arith, All, Bool-cases, Option-cases, inl,
  inr, ◌⊎◌,
}
use pewter_rinse_moor.Clause.Conditions.{Node, exchange, put_first, is_at_most_single_or}

exchange-Perm :
    (n : Node) (ns : List Node) (x : Node) (l : List Node)
    → exchange n ns ≡ some (x, l)
    → Perm (n ∷ ns) (x ∷ l)
unfolding exchange
exchange-Perm n [] x l e = absurd (ground arith)
exchange-Perm n (m ∷ ns) x l e = elim (Bool-cases (is_at_most_single_or m.tree)) [
  | inr leads ↦
      let here : m ≡ x = ground arith in
      let rest : n ∷ ns ≡ l = ground arith in rw (sym here, sym rest) (Perm.swap m n ns)
  | inl single ↦ elim (Option-cases (exchange n ns)) [
    | inl missed ↦ absurd (ground arith)
    | inr ((y, k), found) ↦
        let here : y ≡ x = ground arith in
        let rest : m ∷ k ≡ l = ground arith in
        let same = exchange-Perm n ns y k found in
        rw (sym here, sym rest)
          (Perm.trans (Perm.swap m n ns) (Perm.trans (Perm.cons m same) (Perm.swap y m k)))
  ]
]

exchange-leads :
    (n : Node) (ns : List Node) (x : Node) (l : List Node)
    → exchange n ns ≡ some (x, l)
    → is_at_most_single_or x.tree ≡ false
unfolding exchange
exchange-leads n [] x l e = absurd (ground arith)
exchange-leads n (m ∷ ns) x l e = elim (Bool-cases (is_at_most_single_or m.tree)) [
  | inr leads ↦ let here : m ≡ x = ground arith in rw (sym here) leads
  | inl single ↦ elim (Option-cases (exchange n ns)) [
    | inl missed ↦ absurd (ground arith)
    | inr ((y, k), found) ↦
        let here : y ≡ x = ground arith in rw (sym here) (exchange-leads n ns y k found)
  ]
]

exchange-none :
    (n : Node) (ns : List Node)
    → exchange n ns ≡ none
    → All (λ m. is_at_most_single_or m.tree ≡ true) ns
unfolding exchange
exchange-none n [] e = tt
exchange-none n (m ∷ ns) e = elim (Bool-cases (is_at_most_single_or m.tree)) [
  | inr leads ↦ absurd (ground arith)
  | inl single ↦ elim (Option-cases (exchange n ns)) [
    | inl missed ↦ (single, exchange-none n ns missed)
    | inr ((y, k), found) ↦ absurd (ground arith)
  ]
]

-- the first condition is no single OR, or all of them are
abbrev pub IsLed : List Node → Type 0
IsLed [] = Unit
IsLed (n ∷ ns) =
    (is_at_most_single_or n.tree ≡ false) ⊎ All (λ m. is_at_most_single_or m.tree ≡ true) (n ∷ ns)

-- `Where.Build` only permutes the conditions, and then the first one is no OR of at most one condition,
-- unless all of them are.
pub put_first-Perm : (ns : List Node) → Perm ns (put_first ns) × IsLed (put_first ns)
unfolding put_first
put_first-Perm [] = (Perm.refl [], tt)
put_first-Perm (n ∷ ns) = elim (Bool-cases (is_at_most_single_or n.tree)) [
  | inr leads ↦ rw (put_first, leads) (Perm.refl (n ∷ ns), inl leads)
  | inl single ↦ elim (Option-cases (exchange n ns)) [
    | inl missed ↦
        rw (put_first, single, missed) (Perm.refl (n ∷ ns), inr (single, exchange-none n ns missed))
    | inr ((x, l), found) ↦
        rw (put_first, single, found)
          (exchange-Perm n ns x l found, inl (exchange-leads n ns x l found))
  ]
]

-- A second exchange changes nothing: a WHERE clause that is built again gives its conditions in the same
-- order, although the first build has exchanged them in the slice itself.
pub put_first-again : (ns : List Node) → put_first (put_first ns) ≡ put_first ns
unfolding put_first
put_first-again [] = refl
put_first-again (n ∷ ns) = elim (Bool-cases (is_at_most_single_or n.tree)) [
  | inr leads ↦ rw (leads, leads) refl
  | inl single ↦ elim (Option-cases (exchange n ns)) [
    | inl missed ↦ rw (single, missed, single, missed) refl
    | inr ((x, l), found) ↦ rw (single, found, exchange-leads n ns x l found) refl
  ]
]
