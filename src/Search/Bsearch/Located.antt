-- ===== src/Search/Bsearch/Located.antt =====
-- Where the binary searches end: loop invariant, and what each of the functions returns.
use cl.Common.{
  ℕ, zero, suc, ◌+◌, ◌-◌, ◌/◌, ◌%◌, ◌^◌, ◌≤◌, ◌<◌, ◌≡◌, arith, inl, inr, Option, none, some, ltb,
  ltb→lt, Bool-cases, compare_cases, List, length, get_elem?, get_or, get_elem?-eq-get_or, Outcome,
  ok, lost, fault, ◌>>=◌, Returns,
}
use cl.Search.Bsearch.{
  Probed, hit, missed, bsearch_rounds, bsearch_algorithm, lesseql_index, greatereql_index,
  bsearch_lesseql_uword, bsearch_greatereql_uword, bsearch_lesseql_uint32,
  bsearch_greatereql_uint32,
}

infixl 90 ◌!◌
abbrev pub ◌!◌ : List ℕ → ℕ → ℕ
a ! i = get_or a i 0

-- Strictly ascending, as code addresses are.
abbrev pub IsAscending : List ℕ → Type 0
IsAscending a = (i j : ℕ) → i < j → j < length a → a ! i < a ! j

-- Where the item stands in the array.
abbrev Locates : ℕ → List ℕ → Probed → Type 0
Locates item a (hit mid) = (mid < length a) × (a ! mid ≡ item)
Locates item a (missed low top) =
    (low ≡ top)
    × (top ≤ length a)
    × ((i : ℕ) → i < low → a ! i < item)
    × ((i : ℕ) → top ≤ i → i < length a → item < a ! i)

empty_range :
    (fuel low top item : ℕ) (a : List ℕ)
    → low ≡ top
    → bsearch_rounds (suc fuel) item a low top ≡ ok (missed low top)
unfolding bsearch_rounds
empty_range fuel low top item a e = ground arith

module _ (item : ℕ) (a : List ℕ) (sorted : IsAscending a) (small : length a ≤ 2 ^ 30) where
  record Inv (low top : ℕ) : Type 0 where
    ordered : low ≤ top
    inside : top ≤ length a
    below : (i : ℕ) → i < low → a ! i < item
    above : (i : ℕ) → top ≤ i → i < length a → item < a ! i

  raise : (low top mid : ℕ) → Inv low top → mid < top → a ! mid < item → Inv (mid + 1) top
  raise low top mid inv lt less = record {
    ordered = omega arith;
    inside = inv.inside;
    below = λ i h. elim (compare_cases i mid) [
      | inl e ↦ rw e less
      | inr (inl p) ↦ omega (arith, sorted i mid p (omega (arith, inv.inside)))
      | inr (inr p) ↦ absurd (omega arith)
    ];
    above = inv.above;
  }

  lower_top : (low top mid : ℕ) → Inv low top → low ≤ mid → mid < top → item < a ! mid → Inv low mid
  lower_top low top mid inv le lt more = record {
    ordered = le;
    inside = omega (arith, inv.inside);
    below = inv.below;
    above = λ i h hi. elim (compare_cases i mid) [
      | inl e ↦ rw e more
      | inr (inl p) ↦ absurd (omega arith)
      | inr (inr p) ↦ omega (arith, sorted mid i p hi)
    ];
  }

  module _ (fuel low top : ℕ) (inv : Inv low top) (lt : low < top) where
    abbrev mid : ℕ
    mid = (low + top - 1) / 2

    mid_inside : mid < length a
    mid_inside = omega (arith, inv.inside)

    read_mid : get_elem? a mid ≡ some (a ! mid)
    read_mid = get_elem?-eq-get_or a mid 0 mid_inside

    go_upper :
        a ! mid < item
        → bsearch_rounds (suc fuel) item a low top ≡ bsearch_rounds fuel item a (mid + 1) top
    unfolding bsearch_rounds
    go_upper less = ground (arith, read_mid, inv.inside)

    go_lower :
        item < a ! mid
        → bsearch_rounds (suc fuel) item a low top ≡ bsearch_rounds fuel item a low mid
    unfolding bsearch_rounds
    go_lower more = ground (arith, read_mid, inv.inside)

    stop_hit : a ! mid ≡ item → bsearch_rounds (suc fuel) item a low top ≡ ok (hit mid)
    unfolding bsearch_rounds
    stop_hit e = ground (arith, read_mid, inv.inside)

  bsearch_rounds-Locates :
      (fuel low top : ℕ)
      → Inv low top
      → top < low + fuel
      → Returns (bsearch_rounds fuel item a low top) (Locates item a)
  bsearch_rounds-Locates zero low top inv h = absurd (omega (arith, inv.ordered))
  bsearch_rounds-Locates (suc fuel) low top inv h = elim (compare_cases low top) [
    | inl e ↦ rw (empty_range fuel low top item a e) (e, inv.inside, inv.below, inv.above)
    | inr (inr gt) ↦ absurd (omega (arith, inv.ordered))
    | inr (inl lt) ↦ elim (compare_cases (a ! mid fuel low top inv lt) item) [
      | inl e ↦ rw (stop_hit fuel low top inv lt e) (mid_inside fuel low top inv lt, e)
      | inr (inl less) ↦
          rw (go_upper fuel low top inv lt less) (
            bsearch_rounds-Locates fuel _ top (raise low top _ inv (omega arith) less)
              (omega arith))
      | inr (inr more) ↦ rw (go_lower fuel low top inv lt more) (
          bsearch_rounds-Locates fuel low _
            (lower_top low top _ inv (omega arith) (omega arith) more) (omega arith))
    ]
  ]

  bsearch_algorithm-Locates : Returns (bsearch_algorithm item a (length a)) (Locates item a)
  unfolding bsearch_algorithm
  bsearch_algorithm-Locates =
      bsearch_rounds-Locates _ 0 (length a)
        (record {
          ordered = omega arith;
          inside = omega arith;
          below = λ i h. absurd (omega arith);
          above = λ i h hi. absurd (omega arith);
        })
        (omega arith)

-- The last element that is at most `item`, or that there is none.
abbrev pub LastAtMost : ℕ → List ℕ → Option ℕ → Type 0
LastAtMost item a none = (i : ℕ) → i < length a → item < a ! i
LastAtMost item a (some r) =
    (r < length a) × (a ! r ≤ item) × ((i : ℕ) → r < i → i < length a → item < a ! i)

-- The first element that is at least `item`, or that there is none.
abbrev pub FirstAtLeast : ℕ → List ℕ → Option ℕ → Type 0
FirstAtLeast item a none = (i : ℕ) → i < length a → a ! i < item
FirstAtLeast item a (some r) = (r < length a) × (item ≤ a ! r) × ((i : ℕ) → i < r → a ! i < item)

Locates-LastAtMost :
    (item : ℕ) (a : List ℕ) (p : Probed)
    → IsAscending a
    → Locates item a p
    → LastAtMost item a (lesseql_index p)
Locates-LastAtMost item a (hit m) sorted (lt, e) =
    (lt, omega arith, λ i h hi. omega (arith, sorted m i h hi))
Locates-LastAtMost item a (missed low zero) sorted (e, le, below, above) =
    λ i h. above i (omega arith) h
Locates-LastAtMost item a (missed low (suc n)) sorted (e, le, below, above) =
    let last : lesseql_index (missed low (suc n)) ≡ some n = ground arith in
    rw last (omega arith, omega (arith, below n (omega arith)), above)

Locates-FirstAtLeast :
    (item : ℕ) (a : List ℕ) (p : Probed)
    → IsAscending a
    → Locates item a p
    → FirstAtLeast item a (greatereql_index (length a) p)
Locates-FirstAtLeast item a (hit m) sorted (lt, e) =
    (lt, omega arith, λ i h. omega (arith, sorted i m h lt))
Locates-FirstAtLeast item a (missed low top) sorted (e, le, below, above) =
    elim (Bool-cases (ltb low (length a))) [
      | inl lt ↦ rw lt (ground arith, omega (arith, above low (omega arith) (ltb→lt _ _ lt)), below)
      | inr ge ↦ rw ge (λ i h. below i (ground arith))
    ]

Returns-map {ℓ κ} :
    {A : Type ℓ} {B : Type κ} (P : A → Type 0) (Q : B → Type 0) (f : A → B) (m : Outcome A)
    → ((x : A) → P x → Q (f x))
    → Returns m P
    → Returns (m >>= λ x. ok (f x)) Q
Returns-map P Q f (ok x) h p = h x p
Returns-map P Q f lost h p = absurd p
Returns-map P Q f fault h p = absurd p

-- On a strictly ascending array of at most 2^30 elements `bsearch_lesseql_uword` returns the index
-- of the last element that is at most the item, whichever word it is, and -1 if there is none.
-- `bsearch_lesseql_uint32` does the same for the low 32 bits of the item.
pub bsearch_lesseql-LastAtMost :
    (item : ℕ) (a : List ℕ)
    → IsAscending a
    → length a ≤ 2 ^ 30
    → Returns (bsearch_lesseql_uword item a (length a)) (LastAtMost item a)
      × Returns (bsearch_lesseql_uint32 item a (length a)) (LastAtMost (item % 2 ^ 32) a)
unfolding bsearch_lesseql_uword bsearch_lesseql_uint32
bsearch_lesseql-LastAtMost item a sorted small = (found item, found (item % 2 ^ 32))
  where
    found :
        (x : ℕ)
        → Returns
            (bsearch_algorithm x a (length a) >>= λ probed. ok (lesseql_index probed))
            (LastAtMost x a)
    found x =
        Returns-map (Locates x a) (LastAtMost x a) lesseql_index _
          (λ p. Locates-LastAtMost x a p sorted) (bsearch_algorithm-Locates x a sorted small)

-- On a strictly ascending array of at most 2^30 elements `bsearch_greatereql_uword` returns the
-- index of the first element that is at least the item, and -1 if there is none.
-- `bsearch_greatereql_uint32` does the same for the low 32 bits of the item.
pub bsearch_greatereql-FirstAtLeast :
    (item : ℕ) (a : List ℕ)
    → IsAscending a
    → length a ≤ 2 ^ 30
    → Returns (bsearch_greatereql_uword item a (length a)) (FirstAtLeast item a)
      × Returns (bsearch_greatereql_uint32 item a (length a)) (FirstAtLeast (item % 2 ^ 32) a)
unfolding bsearch_greatereql_uword bsearch_greatereql_uint32
bsearch_greatereql-FirstAtLeast item a sorted small = (found item, found (item % 2 ^ 32))
  where
    found :
        (x : ℕ)
        → Returns
            (bsearch_algorithm x a (length a) >>= λ probed. ok (greatereql_index (length a) probed))
            (FirstAtLeast x a)
    found x =
        Returns-map (Locates x a) (FirstAtLeast x a) (greatereql_index (length a)) _
          (λ p. Locates-FirstAtLeast x a p sorted) (bsearch_algorithm-Locates x a sorted small)
