-- ===== src/Clause/Added.antt =====
-- What the clauses of a statement hold after any run of `AddClause`.
use pewter_rinse_moor.Prelude.{
  ◌≡◌, refl, ◌∙◌, ap, false, Option, none, some, List, [], ◌∷◌, Bytes, codes, equal_bytes, ◌==◌,
  Bool-cases, inl, inr, bytes_beq, bytes_beq_refl, bytes_beq_iff,
}
use pewter_rinse_moor.Clause.{Exprs, no_exprs, and_then}
use pewter_rinse_moor.Clause.Sections.{Section, where_section, section_name}
use pewter_rinse_moor.Clause.Merge.{
  Content, section, Clause, Clauses, append_exprs, merge_content, merge_clause, find_clause,
  set_clause, or_blank, add_clause,
}

pub find_clause-set_same :
    (n : Bytes) (c : Clause) (l : Clauses) → find_clause n (set_clause n c l) ≡ some c
unfolding find_clause set_clause
find_clause-set_same n c [] = rw (bytes_beq_refl n) refl
find_clause-set_same n c ((k, d) ∷ l) = elim (Bool-cases (k == n)) [
  | inl same ↦ rw (same, bytes_beq_refl n) refl
  | inr different ↦ rw (different, different) (find_clause-set_same n c l)
]

pub find_clause-set_other :
    (n k : Bytes) (c : Clause) (l : Clauses)
    → (k == n) ≡ false
    → find_clause n (set_clause k c l) ≡ find_clause n l
unfolding find_clause set_clause
find_clause-set_other n k c [] h = rw h refl
find_clause-set_other n k c ((j, d) ∷ l) h = elim (Bool-cases (j == k)) [
  | inl same ↦
      let this : (j == n) ≡ false = ap (λ z. z == n) ((bytes_beq_iff j k).0 same) ∙ h in
      rw (same, h, this) refl
  | inr different ↦ rw (different, find_clause-set_other n k c l h) refl
]

unfoldable pub where_name : Bytes
unfolding codes
where_name = codes "WHERE"

-- the conditions of a section
abbrev pub conditions_of : Section → Exprs
conditions_of (where_section es) = es
conditions_of _ = no_exprs

-- the conditions of sections, one after another
abbrev pub conditions_of_all : List Section → Exprs
conditions_of_all [] = no_exprs
conditions_of_all (s ∷ ss) = append_exprs (conditions_of s) (conditions_of_all ss)

abbrev pub content_conditions : Option Content → Exprs
content_conditions (some (section s)) = conditions_of s
content_conditions _ = no_exprs

-- the conditions that the clauses hold under `WHERE`
abbrev pub held : Option Clause → Exprs
held none = no_exprs
held (some c) = content_conditions c.expression

pub append_exprs_assoc :
    (a b c : Exprs) → append_exprs (append_exprs a b) c ≡ append_exprs a (append_exprs b c)
append_exprs_assoc no_exprs b c = refl
append_exprs_assoc (and_then e a) b c = ap (and_then e) (append_exprs_assoc a b c)

pub append_exprs-none : (a : Exprs) → append_exprs a no_exprs ≡ a
append_exprs-none no_exprs = refl
append_exprs-none (and_then e a) = ap (and_then e) (append_exprs-none a)

held-blank : (o : Option Clause) → content_conditions (or_blank o).expression ≡ held o
held-blank none = refl
held-blank (some c) = refl

merge_content-conditions :
    (es : Exprs) (c : Option Content)
    → content_conditions (some (merge_content (where_section es) c))
      ≡ append_exprs (content_conditions c) es
unfolding merge_content
merge_content-conditions es (some (section (where_section old))) = refl
merge_content-conditions es c = refl

-- Adding a clause leaves those of other names as they are.
pub find_clause-add_other :
    (s : Section) (n : Bytes) (l : Clauses)
    → (section_name s == n) ≡ false
    → find_clause n (add_clause s l) ≡ find_clause n l
unfolding add_clause
find_clause-add_other s n l h = find_clause-set_other n (section_name s) _ l h

held-kept :
    (s : Section) (l : Clauses)
    → (section_name s == where_name) ≡ false
    → conditions_of s ≡ no_exprs
    → held (find_clause where_name (add_clause s l))
      ≡ append_exprs (held (find_clause where_name l)) (conditions_of s)
held-kept s l h e =
    rw
      (
        e,
        find_clause-add_other s where_name l h,
        append_exprs-none (held (find_clause where_name l)),
      )
      refl

pub held-add_clause :
    (s : Section) (l : Clauses)
    → held (find_clause where_name (add_clause s l))
      ≡ append_exprs (held (find_clause where_name l)) (conditions_of s)
unfolding add_clause section_name where_name codes bytes_beq merge_clause
held-add_clause (where_section es) l =
    ap held (find_clause-set_same where_name _ l)
    ∙ merge_content-conditions es (or_blank (find_clause where_name l)).expression
    ∙ ap (λ x. append_exprs x es) (held-blank (find_clause where_name l))
held-add_clause s l = held-kept s l refl refl
