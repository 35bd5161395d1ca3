-- ===== src/HeapSort/Repair.antt =====
-- `sift_down` of src/runtime/gc-common.c repairs a heap that is wrong at one place.
use cl.Common.{
  ℕ, zero, suc, ◌+◌, ◌*◌, ◌^◌, false, ◌≤◌, ◌<◌, ◌≡◌, ◌≢◌, refl, arith, inl, inr, Bool-cases, ◌&&◌,
  ltb, leb, compare_cases, Returns, Returns-mono,
}
use cl.HeapSort.{swap, larger_child, sift_rounds}
use cl.HeapSort.SiftDown.{
  IsChild, IsHeap, IsShuffle, IsShuffle-refl, IsShuffle-trans, swap-IsShuffle, swap-first,
  swap-second, swap-other,
}

-- A heap but for `root`, whose children are not above its parent either.
pub record IsSifting (a : ℕ → ℕ) (start root end : ℕ) : Type 0 where
  pub low : start ≤ root
  pub heap : (i c : ℕ) → start ≤ i → i ≢ root → IsChild i c → c ≤ end → a c ≤ a i
  pub over : (p c : ℕ) → start ≤ p → IsChild p root → IsChild root c → c ≤ end → a c ≤ a p

-- The child that is chosen is one, and no child is above it.
pub record Chosen (a : ℕ → ℕ) (root end child : ℕ) : Type 0 where
  pub is_child : IsChild root child
  pub inside : child ≤ end
  pub largest : (c : ℕ) → IsChild root c → c ≤ end → a c ≤ a child

larger_child-Chosen :
    (a : ℕ → ℕ) (root end : ℕ) → root * 2 + 1 ≤ end → Chosen a root end (larger_child a root end)
larger_child-Chosen a root end le =
    elim (Bool-cases
      (leb (root * 2 + 1 + 1) end && ltb (a (root * 2 + 1)) (a (root * 2 + 1 + 1)))) [
        | inl e ↦ rw e (record {
          is_child = inr (omega arith);
          inside = ground (arith, e);
          largest = λ c child inside. elim child [
            | inl f ↦ rw f (ground (arith, e))
            | inr f ↦ (let g : c ≡ root * 2 + 1 + 1 = omega arith in rw g (omega arith))
          ];
        })
        | inr e ↦ rw e (record {
          is_child = inl refl;
          inside = le;
          largest = λ c child inside. elim child [
            | inl f ↦ rw f (omega arith)
            | inr f ↦
                (let g : c ≡ root * 2 + 1 + 1 = omega arith in
                  let within : root * 2 + 1 + 1 ≤ end = omega arith in
                  rw g (ground (arith, e, within)))
          ];
        })
      ]

-- The larger child goes up.
module _ (a : ℕ → ℕ) (start root end child : ℕ) (s : IsSifting a start root end)
    (c : Chosen a root end child) (less : a root < a child) where
  below : root < child
  below = elim (c.is_child) [ inl e ↦ omega arith | inr e ↦ omega arith ]

  one_parent : (i : ℕ) → IsChild i child → i ≡ root
  one_parent i p = ground (arith, c.is_child, p)

  moved_at_root : (k : ℕ) → IsChild root k → k ≤ end → swap a root child k ≤ a child
  moved_at_root k is inside = elim (compare_cases k child) [
    | inl e ↦ rw e (omega (arith, swap-second a root child, less))
    | inr (inl lt) ↦ away (λ e. omega arith)
    | inr (inr gt) ↦ away (λ e. omega arith)
  ]
    where
      away : k ≢ child → swap a root child k ≤ a child
      away ne =
          let off : k ≢ root = (λ e. ground (arith, is, e)) in
          omega (arith, swap-other a root child k off ne, c.largest k is inside)

  moved_heap :
      (i k : ℕ)
      → start ≤ i
      → i ≢ child
      → IsChild i k
      → k ≤ end
      → swap a root child k ≤ swap a root child i
  moved_heap i k le ne is inside = elim (compare_cases i root) [
    | inl e ↦
        rw e
          (omega (arith, swap-first a root child, moved_at_root k (ground (arith, is, e)) inside))
    | inr (inl lt) ↦ elsewhere (λ e. omega arith)
    | inr (inr gt) ↦ elsewhere (λ e. omega arith)
  ]
    where
      elsewhere : i ≢ root → swap a root child k ≤ swap a root child i
      elsewhere off = elim (compare_cases k root) [
        | inl e ↦
            let parent : IsChild i root = ground (arith, is, e) in
            rw e (
              omega (
                arith,
                swap-first a root child,
                swap-other a root child i off ne,
                s.over i child le parent (c.is_child) (c.inside),
              ))
        | inr (inl lt) ↦ plain (λ e. omega arith)
        | inr (inr gt) ↦ plain (λ e. omega arith)
      ]
        where
          plain : k ≢ root → swap a root child k ≤ swap a root child i
          plain nr =
              let nc : k ≢ child = (λ e. absurd (off (one_parent i (ground (arith, is, e))))) in
              omega (
                arith,
                swap-other a root child k nr nc,
                swap-other a root child i off ne,
                s.heap i k le off is inside,
              )

  moved-IsSifting : IsSifting (swap a root child) start child end
  moved-IsSifting = record {
    low = omega (arith, s.low, below);
    heap = moved_heap;
    over = λ p k le parent is inside.
        let at : p ≡ root = one_parent p parent in
        let lt : child < k = ground (arith, is) in
        rw at (
          omega (
            arith,
            swap-first a root child,
            swap-other a root child k (λ e. omega (arith, below)) (λ e. omega arith),
            s.heap child k (omega (arith, s.low, below)) (λ e. omega (arith, below)) is inside,
          ));
  }

-- What `sift_down` is for.
pub record IsSifted (start end : ℕ) (a b : ℕ → ℕ) : Type 0 where
  pub heap : IsHeap b start end
  pub shuffle : IsShuffle end a b

-- The root is in place.
settled :
    (a : ℕ → ℕ) (start root end : ℕ)
    → IsSifting a start root end
    → ((c : ℕ) → IsChild root c → c ≤ end → a c ≤ a root)
    → IsSifted start end a a
settled a start root end s top = record {
  heap = λ i c le is inside. elim (compare_cases i root) [
    | inl e ↦ rw e (top c (ground (arith, is, e)) inside)
    | inr (inl lt) ↦ s.heap i c le (λ e. omega arith) is inside
    | inr (inr gt) ↦ s.heap i c le (λ e. omega arith) is inside
  ];
  shuffle = IsShuffle-refl end a;
}

pub sift_rounds-IsSifted :
    (fuel : ℕ) (a : ℕ → ℕ) (start root end : ℕ)
    → end < root + fuel
    → 0 < fuel
    → root < 2 ^ 30
    → end < 2 ^ 30
    → IsSifting a start root end
    → Returns (sift_rounds fuel a root end) (IsSifted start end a)
unfolding sift_rounds
sift_rounds-IsSifted zero a start root end enough pos small bound s = absurd (omega arith)
sift_rounds-IsSifted (suc fuel) a start root end enough pos small bound s =
    let fits : leb (2 ^ 31) (root * 2 + 1) ≡ false = ground arith in
    rw fits (elim (Bool-cases (leb (root * 2 + 1) end)) [
      | inr e ↦
          rw e (settled a start root end s (λ c is inside. absurd (ground (arith, e, is, inside))))
      | inl e ↦
          let child = larger_child a root end in
          let c = larger_child-Chosen a root end (ground (arith, e)) in
          rw e (elim (Bool-cases (ltb (a root) (a child))) [
            | inr f ↦ rw f (
                settled a start root end s
                  (λ k is inside. ground (arith, f, c.largest k is inside)))
            | inl f ↦
                let less : a root < a child = ground (arith, f) in
                let lower = below a start root end child s c less in
                let within : child ≤ end = c.inside in
                let rest =
                  sift_rounds-IsSifted fuel (swap a root child) start child end (omega arith)
                    (omega arith) (omega arith) bound
                    (moved-IsSifting a start root end child s c less) in
                rw f (
                  Returns-mono _ _ (sift_rounds fuel (swap a root child) child end)
                    (λ b t. record {
                      heap = t.heap;
                      shuffle =
                          IsShuffle-trans end a (swap a root child) b
                            (swap-IsShuffle end root child a (omega arith) within) t.shuffle;
                    })
                    rest)
          ])
    ])
