-- ===== src/Search/Brothertree.antt =====
-- The three searches of src/runtime/search.c in a brother tree (src/code/brothertree.lisp), by
-- which the collector finds the code object that holds an address.
pub mod Exact
pub mod LessEql
pub mod GreaterEql
use cl.Common.{
  ℕ, ◌≤◌, ◌<◌, ◌≡◌, refl, ap, arith, ◌⊎◌, inl, inr, Option, none, some, ltb, ◌==◌, if◌then◌else◌,
  Bool-cases,
}

-- A pointer to a node. `fringe` is a binary node that is too short for its two links, and `moved`
-- a pointer to an object that the collector has moved, which `follow_fp` takes to its new place.
pub data Tree : Type 0 where
  nil : Tree
  unary : Tree → Tree
  fringe : ℕ → Tree
  binary : Tree → ℕ → Tree → Tree
  moved : Tree → Tree

-- The field `uw_key` of the binary node that a pointer leads to.
abbrev pub uw_key : Tree → Option ℕ
uw_key nil = none
uw_key (unary t) = none
uw_key (fringe x) = some x
uw_key (binary l x r) = some x
uw_key (moved t) = none

-- `none` is the return value 0.
pub brothertree_find_eql : ℕ → Tree → Option Tree
brothertree_find_eql key nil = none
brothertree_find_eql key (unary t) = brothertree_find_eql key t
brothertree_find_eql key (fringe x) = if x == key then some (fringe x) else none
brothertree_find_eql key (binary l x r) =
    let left = brothertree_find_eql key l in
    let right = brothertree_find_eql key r in
    if x == key then some (binary l x r) else if ltb key x then left else right
brothertree_find_eql key (moved t) = brothertree_find_eql key t

-- The loop of `brothertree_find_lesseql`, with its variable `best`.
unfoldable pub lesseql_from : Tree → ℕ → Tree → Tree
lesseql_from best key nil = best
lesseql_from best key (unary t) = lesseql_from best key t
lesseql_from best key (fringe x) =
    if x == key then fringe x else if ltb key x then best else fringe x
lesseql_from best key (binary l x r) =
    let left = lesseql_from best key l in
    let right = lesseql_from (binary l x r) key r in
    if x == key then binary l x r else if ltb key x then left else right
lesseql_from best key (moved t) = lesseql_from best key t

unfoldable pub brothertree_find_lesseql : ℕ → Tree → Tree
brothertree_find_lesseql key tree = lesseql_from nil key tree

-- The loop of `brothertree_find_greatereql`.
pub greatereql_from : Tree → ℕ → Tree → Tree
greatereql_from best key nil = best
greatereql_from best key (unary t) = greatereql_from best key t
greatereql_from best key (fringe x) =
    if x == key then fringe x else if ltb x key then best else fringe x
greatereql_from best key (binary l x r) =
    let right = greatereql_from best key r in
    let left = greatereql_from (binary l x r) key l in
    if x == key then binary l x r else if ltb x key then right else left
greatereql_from best key (moved t) = greatereql_from best key t

pub brothertree_find_greatereql : ℕ → Tree → Tree
brothertree_find_greatereql key tree = greatereql_from nil key tree

abbrev pub In : ℕ → Tree → Type 0
In k nil = ⊥
In k (unary t) = In k t
In k (fringe x) = k ≡ x
In k (binary l x r) = In k l ⊎ ((k ≡ x) ⊎ In k r)
In k (moved t) = In k t

-- The order that the tree keeps: keys left of a node are smaller, keys right of it are larger.
abbrev pub IsOrdered : Tree → Type 0
IsOrdered nil = Unit
IsOrdered (unary t) = IsOrdered t
IsOrdered (fringe x) = Unit
IsOrdered (binary l x r) =
    IsOrdered l × IsOrdered r × ((k : ℕ) → In k l → k < x) × ((k : ℕ) → In k r → x < k)
IsOrdered (moved t) = IsOrdered t
