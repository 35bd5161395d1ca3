-- ===== src/Search/Brothertree/GreaterEql.antt =====
-- The search for the smallest key that is not below.
use cl.Common.{
  ℕ, ◌≤◌, ◌<◌, ◌≡◌, refl, ap, arith, ◌⊎◌, inl, inr, some, ltb, ◌==◌, Bool-cases, compare_cases,
}
use cl.Search.Brothertree.{
  Tree, nil, unary, fringe, binary, moved, uw_key, In, IsOrdered, greatereql_from,
  brothertree_find_greatereql,
}

-- The node with the smallest key that is at least `key`; `best` if there is none.
abbrev pub GreaterEql : Tree → ℕ → Tree → Tree → Type 0
GreaterEql best key t found =
    ((found ≡ best) × ((k : ℕ) → In k t → k < key))
    ⊎ ((m : ℕ) × (uw_key found ≡ some m)
        × In m t
        × (key ≤ m)
        × ((k : ℕ) → In k t → key ≤ k → m ≤ k))

module _ (best : Tree) (key : ℕ) (l : Tree) (x : ℕ) (r : Tree) (found : Tree)
    (below : (k : ℕ) → In k l → k < x) (above : (k : ℕ) → In k r → x < k) where
  GreaterEql-right :
      x < key → GreaterEql best key r found → GreaterEql best key (binary l x r) found
  GreaterEql-right lt (inl (e, none_above)) = inl (
    e,
    λ k i. elim i [
      | inl j ↦ omega (arith, below k j)
      | inr (inl p) ↦ omega arith
      | inr (inr j) ↦ none_above k j
    ],
  )
  GreaterEql-right lt (inr (m, e, i, le, top)) = inr (
    m,
    e,
    inr (inr i),
    le,
    λ k i h. elim i [
      | inl j ↦ absurd (omega (arith, below k j))
      | inr (inl p) ↦ absurd (omega arith)
      | inr (inr j) ↦ top k j h
    ],
  )

  GreaterEql-left :
      key ≤ x → GreaterEql (binary l x r) key l found → GreaterEql best key (binary l x r) found
  GreaterEql-left lt (inl (e, none_above)) = inr (
    x,
    ap uw_key e,
    inr (inl refl),
    lt,
    λ k i h. elim i [
      | inl j ↦ absurd (omega (arith, none_above k j))
      | inr (inl p) ↦ omega arith
      | inr (inr j) ↦ omega (arith, above k j)
    ],
  )
  GreaterEql-left lt (inr (m, e, i, le, top)) = inr (
    m,
    e,
    inl i,
    le,
    λ k j h. elim j [
      | inl j ↦ top k j h
      | inr (inl p) ↦ omega (arith, below m i)
      | inr (inr j) ↦ omega (arith, above k j, below m i)
    ],
  )

  GreaterEql-here : x ≡ key → GreaterEql best key (binary l x r) (binary l x r)
  GreaterEql-here e = inr (x, refl, inr (inl refl), omega arith, λ k i h. omega arith)

greatereql_from-GreaterEql :
    (best : Tree) (key : ℕ) (t : Tree)
    → IsOrdered t
    → GreaterEql best key t (greatereql_from best key t)
unfolding greatereql_from
greatereql_from-GreaterEql best key nil h = inl (refl, λ k i. absurd i)
greatereql_from-GreaterEql best key (unary t) h = greatereql_from-GreaterEql best key t h
greatereql_from-GreaterEql best key (fringe x) h = elim (compare_cases x key) [
  | inl e ↦ inr (x, ground arith, refl, omega arith, λ k i le. omega arith)
  | inr (inl lt) ↦ inl (ground arith, λ k i. omega arith)
  | inr (inr gt) ↦ inr (x, ground arith, refl, omega arith, λ k i le. omega arith)
]
greatereql_from-GreaterEql best key (binary l x r) (hl, hr, below, above) =
    elim (Bool-cases (x == key)) [
      | inl e ↦ rw e (GreaterEql-here best key l x r (binary l x r) below above (ground arith))
      | inr e ↦ elim (Bool-cases (ltb x key)) [
        | inl lt ↦
            rw (e, lt)
              (GreaterEql-right best key l x r _ below above (ground arith)
                (greatereql_from-GreaterEql best key r hr))
        | inr ge ↦
            rw (e, ge)
              (GreaterEql-left best key l x r _ below above (ground arith)
                (greatereql_from-GreaterEql (binary l x r) key l hl))
      ]
    ]
greatereql_from-GreaterEql best key (moved t) h = greatereql_from-GreaterEql best key t h

-- `brothertree_find_greatereql` returns the node with the smallest key that is at least `key`,
-- and NIL exactly if every key is smaller.
pub brothertree_find_greatereql-GreaterEql :
    (key : ℕ) (t : Tree) → IsOrdered t → GreaterEql nil key t (brothertree_find_greatereql key t)
unfolding brothertree_find_greatereql
brothertree_find_greatereql-GreaterEql key t h = greatereql_from-GreaterEql nil key t h
