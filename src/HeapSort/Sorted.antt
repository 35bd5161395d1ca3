-- ===== src/HeapSort/Sorted.antt =====
-- `gc_heapsort_uwords` of src/runtime/gc-common.c sorts.
use cl.Common.{
  ℕ, zero, suc, ◌+◌, ◌-◌, ◌/◌, ◌^◌, ◌≤◌, ◌<◌, ◌≡◌, refl, sym, ◌∙◌, arith, inl, inr, false, ◌==◌,
  compare_cases, Returns, Returns-mono, Returns->>=,
}
use mathlib.Core.Path.{subst}
use cl.HeapSort.{swap, sift_down, heapify_rounds, heapify, sort_rounds, gc_heapsort_uwords}
use cl.HeapSort.SiftDown.{
  IsHeap, IsShuffle, IsShuffle-refl, IsShuffle-trans, IsShuffle-wider, swap-IsShuffle, swap-first,
  swap-other, count,
}
use cl.HeapSort.Repair.{IsSifted, sift_rounds-IsSifted}

-- A heap from behind `start` on becomes one from `start` on.
sift_down-IsSifted :
    (a : ℕ → ℕ) (start end : ℕ)
    → start < 2 ^ 30
    → end < 2 ^ 30
    → IsHeap a (start + 1) end
    → Returns (sift_down a start end) (IsSifted start end a)
unfolding sift_down
sift_down-IsSifted a start end low bound h =
    sift_rounds-IsSifted (end + 1) a start start end (omega arith) (omega arith) low bound (record {
      low = omega arith;
      heap = λ i c le ne is inside. h i c (omega (arith, ne)) is inside;
      over = λ p c le parent is inside. absurd (ground (arith, parent));
    })

heapify_rounds-IsSifted :
    (n : ℕ) (a : ℕ → ℕ) (end : ℕ)
    → n ≤ 2 ^ 30
    → end < 2 ^ 30
    → IsHeap a n end
    → Returns (heapify_rounds n a end) (IsSifted 0 end a)
unfolding heapify_rounds
heapify_rounds-IsSifted zero a end low bound h = record { heap = h; shuffle = IsShuffle-refl end a }
heapify_rounds-IsSifted (suc n) a end low bound h =
    Returns->>= (IsSifted n end a) _ (sift_down a n end) _
      (sift_down-IsSifted a n end (omega arith) bound
        (λ i c le is inside. h i c (omega arith) is inside))
      (λ b s.
        Returns-mono _ _ (heapify_rounds n b end)
          (λ c t. record { heap = t.heap; shuffle = IsShuffle-trans end a b c s.shuffle t.shuffle })
          (heapify_rounds-IsSifted n b end (omega arith) bound s.heap))

-- Behind half of the array there are no children.
heapify-IsSifted :
    (a : ℕ → ℕ) (length : ℕ)
    → length ≤ 2 ^ 30
    → Returns (heapify a length) (IsSifted 0 (length - 1) a)
unfolding heapify heapify_rounds
heapify-IsSifted a zero fits = record {
  heap = λ i c le is inside. absurd (ground (arith, is, inside));
  shuffle = IsShuffle-refl 0 a;
}
heapify-IsSifted a (suc n) fits =
    let e : (suc n == 0) ≡ false = ground arith in
    rw e (
      heapify_rounds-IsSifted ((suc n - 2) / 2 + 1) a (suc n - 1) (omega arith) (omega arith)
        (λ i c le is inside. absurd (ground (arith, le, is, inside))))

-- The root of a heap is its largest element.
root_largest : (n : ℕ) (a : ℕ → ℕ) (end k : ℕ) → IsHeap a 0 end → k ≤ n → k ≤ end → a k ≤ a 0
root_largest n a end zero h le inside = omega arith
root_largest zero a end (suc k) h le inside = absurd (omega arith)
root_largest (suc n) a end (suc k) h le inside = omega (
  arith,
  h (k / 2) (suc k) (omega arith) (ground arith) inside,
  root_largest n a end (k / 2) h (omega arith) (omega arith),
)

-- What stands behind `end` is in order, and what stands before is not above it.
abbrev IsSortedFrom : ℕ → ℕ → (ℕ → ℕ) → Type 0
IsSortedFrom end n a = (i j : ℕ) → i < j → end < j → j < n → a i ≤ a j

module _ (n end : ℕ) (a b : ℕ → ℕ) (inside : suc end < n) (h : IsHeap a 0 (suc end))
    (sorted : IsSortedFrom (suc end) n a) (shuffle : IsShuffle end (swap a (suc end) 0) b) where
  -- All that comes before `suc end` is bounded by what bounds the heap.
  under : (m : ℕ) → ((k : ℕ) → k ≤ suc end → a k ≤ m) → (k : ℕ) → k ≤ end → b k ≤ m
  under m le = shuffle.bounded m (λ k kle.
      (swap-IsShuffle (suc end) (suc end) 0 a (omega arith) (omega arith)).bounded m le k
        (omega arith))

  largest_last : b (suc end) ≡ a 0
  largest_last = shuffle.above (suc end) (omega arith) ∙ swap-first a (suc end) 0

  rest_same : (j : ℕ) → suc end < j → b j ≡ a j
  rest_same j lt =
      shuffle.above j (omega arith)
      ∙ swap-other a (suc end) 0 j (λ e. omega arith) (λ e. omega arith)

  next_sorted : IsSortedFrom end n b
  next_sorted i j lt past less = elim (compare_cases j (suc end)) [
    | inl e ↦ rw e (
        omega (
          arith,
          largest_last,
          under (a 0) (λ k le. root_largest (suc end) a (suc end) k h le le) i (omega arith),
        ))
    | inr (inl under) ↦ absurd (omega arith)
    | inr (inr over) ↦ elim (compare_cases i (suc end)) [
      | inl e ↦
          rw e (omega (arith, largest_last, rest_same j over, sorted 0 j (omega arith) over less))
      | inr (inl before) ↦ omega (
        arith,
        rest_same j over,
        under (a j) (λ k le. sorted k j (omega arith) over less) i (omega arith),
      )
      | inr (inr behind) ↦
          omega (arith, rest_same i behind, rest_same j over, sorted i j lt over less)
    ]
  ]

-- A heap is left behind its root when the root changes places with the last element.
swap-IsHeap : (end : ℕ) (a : ℕ → ℕ) → IsHeap a 0 (suc end) → IsHeap (swap a (suc end) 0) 1 end
swap-IsHeap end a h i c le is inside =
    let ahead : i < c = ground (arith, is) in
    omega (
      arith,
      h i c (omega arith) is (omega arith),
      swap-other a (suc end) 0 c (λ e. omega (arith, ahead)) (λ e. omega (arith, ahead)),
      swap-other a (suc end) 0 i (λ e. omega (arith, ahead)) (λ e. omega arith),
    )

-- In order, with every value as often as before, and the same behind the `n` elements.
pub record IsSortOf (n : ℕ) (a b : ℕ → ℕ) : Type 0 where
  pub sorted : (i j : ℕ) → i < j → j < n → b i ≤ b j
  pub counts : (v : ℕ) → count n b v ≡ count n a v
  pub behind : (k : ℕ) → n ≤ k → b k ≡ a k

sort_rounds-sorts :
    (n end : ℕ) (a : ℕ → ℕ)
    → n ≤ 2 ^ 30
    → end < n
    → IsHeap a 0 end
    → IsSortedFrom end n a
    → Returns (sort_rounds end a) (λ b. IsSortedFrom 0 n b × IsShuffle end a b)
unfolding sort_rounds
sort_rounds-sorts n zero a fits inside h sorted = (sorted, IsShuffle-refl 0 a)
sort_rounds-sorts n (suc end) a fits inside h sorted =
    let exchanged = swap-IsShuffle (suc end) (suc end) 0 a (omega arith) (omega arith) in
    Returns->>= (IsSifted 0 end (swap a (suc end) 0)) _ (sift_down (swap a (suc end) 0) 0 end) _
      (sift_down-IsSifted (swap a (suc end) 0) 0 end (omega arith) (omega arith)
        (swap-IsHeap end a h))
      (λ b s.
        Returns-mono _ _ (sort_rounds end b)
          (λ c t. (
            t.0,
            IsShuffle-trans (suc end) a b c
                (IsShuffle-trans (suc end) a (swap a (suc end) 0) b exchanged
                  (IsShuffle-wider end (suc end) (swap a (suc end) 0) b (omega arith) s.shuffle))
                (IsShuffle-wider end (suc end) b c (omega arith) t.1),
          ))
          (sort_rounds-sorts n end b fits (omega arith) s.heap
            (next_sorted n end a b inside h sorted s.shuffle)))

-- For at most 2^30 elements `gc_heapsort_uwords` returns, without a number that does not fit an `int`,
-- with the elements in order, each value as often as it was among them, and the memory behind them
-- as it was.
pub gc_heapsort_uwords-IsSortOf :
    (array : ℕ → ℕ) (length : ℕ)
    → length ≤ 2 ^ 30
    → Returns (gc_heapsort_uwords array length) (IsSortOf length array)
unfolding gc_heapsort_uwords heapify heapify_rounds sort_rounds
gc_heapsort_uwords-IsSortOf a zero fits = record {
  sorted = λ i j _ lt. absurd (omega arith);
  counts = λ v. refl;
  behind = λ k _. refl;
}
gc_heapsort_uwords-IsSortOf a (suc n) fits =
    Returns->>= (IsSifted 0 n a) _ (heapify a (suc n)) _
      (subst (λ m. Returns (heapify a (suc n)) (IsSifted 0 m a)) pred
        (heapify-IsSifted a (suc n) fits))
      (λ b s.
        subst (λ m. Returns (sort_rounds m b) (IsSortOf (suc n) a)) (sym pred)
          (Returns-mono _ _ (sort_rounds n b)
            (λ c t. finished c (t.0) (IsShuffle-trans n a b c s.shuffle t.1))
            (sort_rounds-sorts (suc n) n b fits (omega arith) s.heap
              (λ i j _ past less. absurd (omega arith)))))
  where
    pred : suc n - 1 ≡ n
    pred = omega arith

    finished : (c : ℕ → ℕ) → IsSortedFrom 0 (suc n) c → IsShuffle n a c → IsSortOf (suc n) a c
    finished c sorted s = record {
      sorted = λ i j lt less. sorted i j lt (omega arith) less;
      counts = λ v. s.counts (suc n) v (omega arith);
      behind = λ k le. s.above k (omega arith);
    }
