-- ===== src/Gencgc/Counts.antt =====
-- The counts of what is used: `count_generation_bytes_allocated` and `find_next_free_page`.
use cl.Common.{
  ℕ, zero, suc, ◌+◌, ◌-◌, ◌*◌, ◌≤◌, ◌<◌, ◌≡◌, ◌≢◌, refl, arith, inl, inr, Bool-cases, ltb, ◌==◌,
  sum_below,
}
use cl.Gencgc.{GenSpace, DynamicSpace, is_free}
use cl.Gencgc.Release.{
  count_words, count_generation_bytes_allocated, used_below, find_next_free_page,
}
use cl.Gencgc.Balance.{used_in, IsBalanced}

sum_below-beyond :
    (m e : ℕ) (f : ℕ → ℕ) → ((i : ℕ) → m ≤ i → f i ≡ 0) → sum_below (m + e) f ≡ sum_below m f
sum_below-beyond m zero f h = let z : m + 0 ≡ m = omega arith in rw z refl
sum_below-beyond m (suc e) f h =
    let z : m + suc e ≡ suc (m + e) = omega arith in
    rw z (omega (arith, h (m + e) (omega arith), sum_below-beyond m e f h))

module _ (s : GenSpace) (h : DynamicSpace) (b : IsBalanced s h) where
  count_words-sum : (n gen : ℕ) → count_words n h gen * 8 ≡ sum_below n (used_in h gen)
  unfolding count_words
  count_words-sum zero gen = refl
  count_words-sum (suc n) gen = elim (Bool-cases (is_free (h.page_table n))) [
    | inl e ↦ let unused = b.free_unused n e in rw e (ground (arith, count_words-sum n gen, unused))
    | inr e ↦ elim (Bool-cases ((h.page_table n).gen == gen)) [
      | inl own ↦ rw (e, own) (omega (arith, count_words-sum n gen))
      | inr other ↦ rw (e, other) (omega (arith, count_words-sum n gen))
    ]
  ]

  counted :
      (gen : ℕ)
      → gen < s.num_generations
      → count_generation_bytes_allocated h gen ≡ h.generations gen
  unfolding count_generation_bytes_allocated
  counted gen lt =
      let rest : h.next_free_page + (s.page_table_pages - h.next_free_page) ≡ s.page_table_pages =
        omega (arith, b.top) in
      let beyond =
        sum_below-beyond h.next_free_page (s.page_table_pages - h.next_free_page) (used_in h gen)
          (λ i le. ground (arith, b.above_unused i le)) in
      omega (arith, count_words-sum h.next_free_page gen, rw rest at beyond, b.pages gen lt)

  -- Pages from the result on are not used, and the one before it is.
  used_below-last :
      (n : ℕ)
      → (used_below n h ≤ n)
        × ((p : ℕ) → used_below n h ≤ p → p < n → (h.page_table p).words_used ≡ 0)
        × ((p : ℕ) → used_below n h ≡ p + 1 → (h.page_table p).words_used ≢ 0)
  unfolding used_below
  used_below-last zero = (omega arith, λ p ge lt. absurd (omega arith), λ p e. absurd (omega arith))
  used_below-last (suc n) =
      let (le, above, last) = used_below-last n in
      elim (Bool-cases ((h.page_table n).words_used == 0)) [
        | inl e ↦ rw e (
          omega (arith, le),
          λ p ge lt. elim (Bool-cases (p == n)) [
            | inl same ↦ let i : p ≡ n = ground arith in rw i (ground (arith, e))
            | inr other ↦ above p ge (ground (arith, other))
          ],
          last,
        )
        | inr e ↦ rw e (
          omega arith,
          λ p ge lt. absurd (omega arith),
          λ p same zero_words.
              let i : p ≡ n = omega arith in absurd (ground (arith, e, rw i at zero_words)),
        )
      ]

-- The new high water mark, and the heap with it.
pub record IsRecounted (s : GenSpace) (h : DynamicSpace) (last : ℕ) : Type 0 where
  pub counted :
      (gen : ℕ)
      → gen < s.num_generations
      → count_generation_bytes_allocated h gen ≡ h.generations gen
  pub balanced : IsBalanced s (record h { next_free_page = last })
  pub lower : last ≤ h.next_free_page
  pub least : (p : ℕ) → last ≡ p + 1 → (h.page_table p).words_used ≢ 0

-- With true accounts, `count_generation_bytes_allocated` of each generation finds the bytes that are
-- written down for it. The accounts stay true when `next_free_page` becomes the result of
-- `find_next_free_page`, which is no larger and is 0 or has a used page right before it.
pub find_next_free_page-IsRecounted :
    (s : GenSpace) (h : DynamicSpace) → IsBalanced s h → IsRecounted s h (find_next_free_page h)
unfolding find_next_free_page
find_next_free_page-IsRecounted s h b =
    let (le, above, last) = used_below-last s h b h.next_free_page in
    record {
      counted = counted s h b;
      balanced = record {
        pages = b.pages;
        total = b.total;
        free_unused = b.free_unused;
        above_unused = λ p ge. elim (Bool-cases (ltb p h.next_free_page)) [
          | inl below ↦ above p ge (ground (arith, below))
          | inr beyond ↦ b.above_unused p (ground (arith, beyond))
        ];
        top = omega (arith, b.top);
      };
      lower = le;
      least = last;
    }
