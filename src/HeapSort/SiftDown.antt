-- ===== src/HeapSort/SiftDown.antt =====
-- Heaps in `gc_heapsort_uwords` of src/runtime/gc-common.c, and `sift_down`, which repairs one.
use cl.Common.{
  ◌⊎◌, ℕ, ◌+◌, ◌*◌, ◌≤◌, ◌<◌, ◌≡◌, ◌≢◌, refl, ap, ◌∙◌, arith, inl, inr, true, false, Bool-cases,
  leb, ◌==◌, if◌then◌else◌, compare_cases, assign, sum_below, sum_below_change,
}
use cl.HeapSort.{swap}

abbrev pub IsChild : ℕ → ℕ → Type 0
IsChild i c = (c ≡ i * 2 + 1) ⊎ (c ≡ i * 2 + 2)

-- From `start` on no child is above its parent.
abbrev pub IsHeap : (ℕ → ℕ) → ℕ → ℕ → Type 0
IsHeap a start end = (i c : ℕ) → start ≤ i → IsChild i c → c ≤ end → a c ≤ a i

-- How often a value stands among the first `n`.
abbrev pub count : ℕ → (ℕ → ℕ) → ℕ → ℕ
count n a v = sum_below n (λ i. if a i == v then 1 else 0)

-- The array was rearranged from 0 to `end`, and is as it was behind.
pub record IsShuffle (end : ℕ) (a b : ℕ → ℕ) : Type 0 where
  pub counts : (n v : ℕ) → end < n → count n b v ≡ count n a v
  pub above : (k : ℕ) → end < k → b k ≡ a k
  pub bounded : (m : ℕ) → ((k : ℕ) → k ≤ end → a k ≤ m) → (k : ℕ) → k ≤ end → b k ≤ m

pub IsShuffle-refl : (end : ℕ) (a : ℕ → ℕ) → IsShuffle end a a
IsShuffle-refl end a = record {
  counts = λ n v lt. refl;
  above = λ k lt. refl;
  bounded = λ m le. le;
}

pub IsShuffle-trans :
    (end : ℕ) (a b c : ℕ → ℕ) → IsShuffle end a b → IsShuffle end b c → IsShuffle end a c
IsShuffle-trans end a b c p q = record {
  counts = λ n v lt. q.counts n v lt ∙ p.counts n v lt;
  above = λ k lt. q.above k lt ∙ p.above k lt;
  bounded = λ m le. q.bounded m (p.bounded m le);
}

pub IsShuffle-wider :
    (end last : ℕ) (a b : ℕ → ℕ) → end ≤ last → IsShuffle end a b → IsShuffle last a b
IsShuffle-wider end last a b wide p = record {
  counts = λ n v lt. p.counts n v (omega arith);
  above = λ k lt. p.above k (omega arith);
  bounded = λ m le k inside. elim (Bool-cases (leb k end)) [
    | inl e ↦ p.bounded m (λ k le'. le k (omega arith)) k (ground (arith, e))
    | inr e ↦ (let same = p.above k (ground (arith, e)) in omega (arith, same, le k inside))
  ];
}

pub swap-first : (a : ℕ → ℕ) (i j : ℕ) → swap a i j i ≡ a j
swap-first a i j = elim (compare_cases i j) [
  | inl e ↦ (let same : (j == j) ≡ true = ground arith in rw e (rw same refl))
  | inr (inl lt) ↦
      (let off : (i == j) ≡ false = ground arith in
        let same : (i == i) ≡ true = ground arith in rw (off, same) refl)
  | inr (inr gt) ↦
      (let off : (i == j) ≡ false = ground arith in
        let same : (i == i) ≡ true = ground arith in rw (off, same) refl)
]

pub swap-second : (a : ℕ → ℕ) (i j : ℕ) → swap a i j j ≡ a i
swap-second a i j = let same : (j == j) ≡ true = ground arith in rw same refl

pub swap-other : (a : ℕ → ℕ) (i j k : ℕ) → k ≢ i → k ≢ j → swap a i j k ≡ a k
swap-other a i j k ni nj =
    let off : (k == j) ≡ false = ground (arith, nj) in
    let away : (k == i) ≡ false = ground (arith, ni) in rw (off, away) refl

-- A function of the index whose values are exchanged at two places has the same sum.
sum_below-swap :
    (n i j : ℕ) (a : ℕ → ℕ) (f : ℕ → ℕ)
    → i < n
    → j < n
    → sum_below n (λ k. f (swap a i j k)) ≡ sum_below n (λ k. f (a k))
sum_below-swap n i j a f lt lt' =
    let first =
      sum_below_change n i (λ k. f (assign a i (a j) k)) (λ k. f (a k)) lt
        (λ k ne. let off : (k == i) ≡ false = ground (arith, ne) in rw off refl) in
    let second =
      sum_below_change n j (λ k. f (swap a i j k)) (λ k. f (assign a i (a j) k)) lt'
        (λ k ne. let off : (k == j) ≡ false = ground (arith, ne) in rw off refl) in
    let here : f (assign a i (a j) i) ≡ f (a j) =
      (let same : (i == i) ≡ true = ground arith in rw same refl) in
    let there : f (assign a i (a j) j) ≡ f (a j) = elim (Bool-cases (j == i)) [
      | inl e ↦ rw e refl
      | inr e ↦ rw e refl
    ] in
    let last : f (swap a i j j) ≡ f (a i) = ap f (swap-second a i j) in
    omega (arith, first, second, here, there, last)

pub swap-IsShuffle : (end i j : ℕ) (a : ℕ → ℕ) → i ≤ end → j ≤ end → IsShuffle end a (swap a i j)
swap-IsShuffle end i j a ile jle = record {
  counts =
      λ n v lt. sum_below-swap n i j a (λ x. if x == v then 1 else 0) (omega arith) (omega arith);
  above = λ k lt. swap-other a i j k (λ e. omega arith) (λ e. omega arith);
  bounded = λ m le k inside. elim (compare_cases k i) [
    | inl e ↦ rw e (omega (arith, swap-first a i j, le j jle))
    | inr (inl lt) ↦ rest m le k inside (λ e. omega arith)
    | inr (inr gt) ↦ rest m le k inside (λ e. omega arith)
  ];
}
  where
    rest : (m : ℕ) → ((k : ℕ) → k ≤ end → a k ≤ m) → (k : ℕ) → k ≤ end → k ≢ i → swap a i j k ≤ m
    rest m le k inside ne = elim (Bool-cases (k == j)) [
      | inl e ↦
          (let eq : k ≡ j = ground (arith, e) in rw eq (omega (arith, swap-second a i j, le i ile)))
      | inr e ↦ omega (arith, swap-other a i j k ne (ground (arith, e)), le k inside)
    ]
