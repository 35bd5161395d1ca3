-- ===== src/Search/Brothertree/LessEql.antt =====
-- The search for the largest key that is not above.
use cl.Common.{
  ℕ, ◌≤◌, ◌<◌, ◌≡◌, refl, ap, arith, ◌⊎◌, inl, inr, some, ltb, ◌==◌, Bool-cases, compare_cases,
}
use cl.Search.Brothertree.{
  Tree, nil, unary, fringe, binary, moved, uw_key, In, IsOrdered, lesseql_from,
  brothertree_find_lesseql,
}

-- The node with the largest key that is at most `key`; `best` if there is none.
abbrev pub LessEql : Tree → ℕ → Tree → Tree → Type 0
LessEql best key t found =
    ((found ≡ best) × ((k : ℕ) → In k t → key < k))
    ⊎ ((m : ℕ) × (uw_key found ≡ some m)
        × In m t
        × (m ≤ key)
        × ((k : ℕ) → In k t → k ≤ key → k ≤ m))

module _ (best : Tree) (key : ℕ) (l : Tree) (x : ℕ) (r : Tree) (found : Tree)
    (below : (k : ℕ) → In k l → k < x) (above : (k : ℕ) → In k r → x < k) where
  LessEql-left : key < x → LessEql best key l found → LessEql best key (binary l x r) found
  LessEql-left lt (inl (e, none_below)) = inl (
    e,
    λ k i. elim i [
      | inl j ↦ none_below k j
      | inr (inl p) ↦ omega arith
      | inr (inr j) ↦ omega (arith, above k j)
    ],
  )
  LessEql-left lt (inr (m, e, i, le, top)) = inr (
    m,
    e,
    inl i,
    le,
    λ k i h. elim i [
      | inl j ↦ top k j h
      | inr (inl p) ↦ absurd (omega arith)
      | inr (inr j) ↦ absurd (omega (arith, above k j))
    ],
  )

  LessEql-right :
      x ≤ key → LessEql (binary l x r) key r found → LessEql best key (binary l x r) found
  LessEql-right lt (inl (e, none_below)) = inr (
    x,
    ap uw_key e,
    inr (inl refl),
    lt,
    λ k i h. elim i [
      | inl j ↦ omega (arith, below k j)
      | inr (inl p) ↦ omega arith
      | inr (inr j) ↦ absurd (omega (arith, none_below k j))
    ],
  )
  LessEql-right lt (inr (m, e, i, le, top)) = inr (
    m,
    e,
    inr (inr i),
    le,
    λ k j h. elim j [
      | inl j ↦ omega (arith, below k j, above m i)
      | inr (inl p) ↦ omega (arith, above m i)
      | inr (inr j) ↦ top k j h
    ],
  )

  LessEql-here : x ≡ key → LessEql best key (binary l x r) (binary l x r)
  LessEql-here e = inr (x, refl, inr (inl refl), omega arith, λ k i h. omega arith)

lesseql_from-LessEql :
    (best : Tree) (key : ℕ) (t : Tree) → IsOrdered t → LessEql best key t (lesseql_from best key t)
unfolding lesseql_from
lesseql_from-LessEql best key nil h = inl (refl, λ k i. absurd i)
lesseql_from-LessEql best key (unary t) h = lesseql_from-LessEql best key t h
lesseql_from-LessEql best key (fringe x) h = elim (compare_cases x key) [
  | inl e ↦ inr (x, ground arith, refl, omega arith, λ k i le. omega arith)
  | inr (inl lt) ↦ inr (x, ground arith, refl, omega arith, λ k i le. omega arith)
  | inr (inr gt) ↦ inl (ground arith, λ k i. omega arith)
]
lesseql_from-LessEql best key (binary l x r) (hl, hr, below, above) = elim (Bool-cases (x == key)) [
  | inl e ↦ rw e (LessEql-here best key l x r (binary l x r) below above (ground arith))
  | inr e ↦ elim (Bool-cases (ltb key x)) [
    | inl lt ↦
        rw (e, lt)
          (LessEql-left best key l x r _ below above (ground arith)
            (lesseql_from-LessEql best key l hl))
    | inr ge ↦
        rw (e, ge)
          (LessEql-right best key l x r _ below above (ground arith)
            (lesseql_from-LessEql (binary l x r) key r hr))
  ]
]
lesseql_from-LessEql best key (moved t) h = lesseql_from-LessEql best key t h

-- `brothertree_find_lesseql` returns the node with the largest key that is at most `key`, and NIL
-- exactly if every key is larger.
pub brothertree_find_lesseql-LessEql :
    (key : ℕ) (t : Tree) → IsOrdered t → LessEql nil key t (brothertree_find_lesseql key t)
unfolding brothertree_find_lesseql
brothertree_find_lesseql-LessEql key t h = lesseql_from-LessEql nil key t h
