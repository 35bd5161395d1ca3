-- ===== src/Search/Brothertree/Exact.antt =====
-- The exact search.
use cl.Common.{ℕ, ◌<◌, ◌≡◌, arith, inl, inr, Option, none, some, ltb, ◌==◌, Bool-cases}
use cl.Search.Brothertree.{
  Tree, nil, unary, fringe, binary, moved, uw_key, In, IsOrdered, brothertree_find_eql,
}

-- The answer to an exact search.
abbrev pub Finds : ℕ → Tree → Option Tree → Type 0
Finds key t none = In key t → ⊥
Finds key t (some node) = (uw_key node ≡ some key) × In key t

module _ (key : ℕ) (l : Tree) (x : ℕ) (r : Tree) where
  Finds-left :
      (o : Option Tree)
      → key < x
      → ((k : ℕ) → In k r → x < k)
      → Finds key l o
      → Finds key (binary l x r) o
  Finds-left none lt above f = λ i. elim i [
    | inl j ↦ f j
    | inr (inl e) ↦ absurd (omega arith)
    | inr (inr j) ↦ absurd (omega (arith, above key j))
  ]
  Finds-left (some node) lt above (e, i) = (e, inl i)

  Finds-right :
      (o : Option Tree)
      → x < key
      → ((k : ℕ) → In k l → k < x)
      → Finds key r o
      → Finds key (binary l x r) o
  Finds-right none lt below f = λ i. elim i [
    | inl j ↦ absurd (omega (arith, below key j))
    | inr (inl e) ↦ absurd (omega arith)
    | inr (inr j) ↦ f j
  ]
  Finds-right (some node) lt below (e, i) = (e, inr (inr i))

-- `brothertree_find_eql` returns a node with the key, or 0 exactly if the tree has none.
pub brothertree_find_eql-Finds :
    (key : ℕ) (t : Tree) → IsOrdered t → Finds key t (brothertree_find_eql key t)
unfolding brothertree_find_eql
brothertree_find_eql-Finds key nil h = λ i. i
brothertree_find_eql-Finds key (unary t) h = brothertree_find_eql-Finds key t h
brothertree_find_eql-Finds key (fringe x) h = elim (Bool-cases (x == key)) [
  | inl e ↦ rw e (ground arith, ground arith)
  | inr e ↦ rw e (λ i. ground arith)
]
brothertree_find_eql-Finds key (binary l x r) (hl, hr, below, above) =
    elim (Bool-cases (x == key)) [
      | inl e ↦ rw e (ground arith, inr (inl (ground arith)))
      | inr e ↦ elim (Bool-cases (ltb key x)) [
        | inl lt ↦
            rw (e, lt)
              (Finds-left key l x r _ (ground arith) above (brothertree_find_eql-Finds key l hl))
        | inr ge ↦
            rw (e, ge)
              (Finds-right key l x r _ (ground arith) below (brothertree_find_eql-Finds key r hr))
      ]
    ]
brothertree_find_eql-Finds key (moved t) h = brothertree_find_eql-Finds key t h
