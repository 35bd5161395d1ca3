-- ===== src/Search/Tests.antt =====
-- Concrete runs of the searches, and the theorems at concrete inputs.
use cl.Common.{ℕ, zero, suc, ◌%◌, ◌^◌, ◌≡◌, refl, arith, none, some, List, [], ◌∷◌, ok, Returns}
use cl.Search.Brothertree.{
  Tree, nil, unary, fringe, binary, moved, IsOrdered, brothertree_find_eql, lesseql_from,
  brothertree_find_lesseql,
}
use cl.Search.Brothertree.Exact.{Finds, brothertree_find_eql-Finds}
use cl.Search.Brothertree.LessEql.{LessEql, brothertree_find_lesseql-LessEql}
use cl.Search.Bsearch.{
  bsearch_rounds, bsearch_algorithm, bsearch_lesseql_uword, bsearch_lesseql_uint32,
}
use cl.Search.Bsearch.Located.{IsAscending, LastAtMost, bsearch_lesseql-LastAtMost}

abbrev tree : Tree
tree = moved (binary (unary (fringe 10)) 20 (moved (fringe 30)))

tree-IsOrdered : IsOrdered tree
tree-IsOrdered = (tt, tt, λ k i. omega arith, λ k i. omega arith)

find_25 : brothertree_find_lesseql 25 tree ≡ binary (unary (fringe 10)) 20 (moved (fringe 30))
unfolding brothertree_find_lesseql lesseql_from
find_25 = refl

brothertree_find_eql-Finds_example : Finds 30 tree (brothertree_find_eql 30 tree)
brothertree_find_eql-Finds_example = brothertree_find_eql-Finds 30 tree tree-IsOrdered

brothertree_find_lesseql-LessEql_example : LessEql nil 25 tree (brothertree_find_lesseql 25 tree)
brothertree_find_lesseql-LessEql_example = brothertree_find_lesseql-LessEql 25 tree tree-IsOrdered

abbrev bases : List ℕ
bases = 16 ∷ 48 ∷ 96 ∷ []

bases-IsAscending : IsAscending bases
bases-IsAscending zero zero lt h = absurd (omega arith)
bases-IsAscending zero (suc zero) lt h = omega arith
bases-IsAscending zero (suc (suc zero)) lt h = omega arith
bases-IsAscending (suc zero) (suc (suc zero)) lt h = omega arith
bases-IsAscending i j lt h = absurd (omega arith)

search_50 : bsearch_lesseql_uword 50 bases 3 ≡ ok (some 1)
unfolding bsearch_lesseql_uword bsearch_algorithm bsearch_rounds
search_50 = refl

search_below : bsearch_lesseql_uint32 15 bases 3 ≡ ok none
unfolding bsearch_lesseql_uint32 bsearch_algorithm bsearch_rounds
search_below = refl

-- The low half of the item is 50.
bsearch_lesseql-LastAtMost_example :
    Returns (bsearch_lesseql_uword 4294967346 bases 3) (LastAtMost 4294967346 bases)
    × Returns (bsearch_lesseql_uint32 4294967346 bases 3) (LastAtMost (4294967346 % 2 ^ 32) bases)
bsearch_lesseql-LastAtMost_example =
    bsearch_lesseql-LastAtMost 4294967346 bases bases-IsAscending (omega arith)
