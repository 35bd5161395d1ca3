-- ===== src/Gencgc/Freeish/Grow.antt =====
-- The free pages that `gc_find_freeish_pages` takes behind a first one.
use cl.Common.{
  ℕ, zero, suc, ◌+◌, ◌*◌, ◌≤◌, ◌<◌, ◌≡◌, refl, arith, ◌⊎◌, inl, inr, true, false, Bool-cases, ltb,
  ltb→lt,
}
use cl.Gencgc.{GenSpace, DynamicSpace, is_free, grow}

-- The `k` pages from `a` on are free.
abbrev pub AllFree : DynamicSpace → ℕ → ℕ → Type 0
AllFree h a k = (i : ℕ) → a ≤ i → i < a + k → is_free (h.page_table i) ≡ true

-- What `grow` returns from a page: some pages more, all free, until the goal is reached, a page is
-- not free, or the table ends.
pub record Grown (s : GenSpace) (h : DynamicSpace) (goal first found : ℕ) (r : ℕ × ℕ) : Type 0 where
  pub k : ℕ
  pub last : r.0 ≡ first + k
  pub bytes : r.1 ≡ found + k * s.page_bytes
  pub free : AllFree h first k
  pub inside : r.0 ≤ s.page_table_pages
  pub tight : (k ≡ 0) ⊎ (r.1 < goal + s.page_bytes)
  pub stop : (goal ≤ r.1) ⊎ ((r.0 ≡ s.page_table_pages) ⊎ (is_free (h.page_table r.0) ≡ false))

grow_stop :
    (s : GenSpace) (h : DynamicSpace) (goal first found : ℕ)
    → first ≤ s.page_table_pages
    → (goal ≤ found) ⊎ ((first ≡ s.page_table_pages) ⊎ (is_free (h.page_table first) ≡ false))
    → Grown s h goal first found (first, found)
grow_stop s h goal first found le why = record {
  k = 0;
  last = omega arith;
  bytes = omega arith;
  free = λ i ge lt. absurd (omega arith);
  inside = le;
  tight = inl refl;
  stop = why;
}

grow_more :
    (s : GenSpace) (h : DynamicSpace) (goal first found : ℕ) (r : ℕ × ℕ)
    → found < goal
    → is_free (h.page_table first) ≡ true
    → Grown s h goal (first + 1) (found + s.page_bytes) r
    → Grown s h goal first found r
grow_more s h goal first found r wants here g = record {
  k = g.k + 1;
  last = omega (arith, g.last);
  bytes = omega (arith, g.bytes);
  free = λ i ge lt. ground (arith, here, g.free i);
  inside = g.inside;
  tight = elim g.tight [
    | inl none_more ↦ inr (omega (arith, rw none_more at g.bytes))
    | inr e ↦ inr e
  ];
  stop = g.stop;
}

pub grow-Grown :
    (fuel : ℕ) (s : GenSpace) (h : DynamicSpace) (goal first found : ℕ)
    → first + fuel ≡ s.page_table_pages
    → Grown s h goal first found (grow fuel s h goal first found)
unfolding grow
grow-Grown zero s h goal first found e =
    grow_stop s h goal first found (omega arith) (inr (inl (omega arith)))
grow-Grown (suc fuel) s h goal first found e =
    let inside : ltb first s.page_table_pages ≡ true = ground arith in
    let rest = grow-Grown fuel s h goal (first + 1) (found + s.page_bytes) (omega arith) in
    elim (Bool-cases (ltb found goal)) [
      | inr done ↦ rw done (grow_stop s h goal first found (omega arith) (inl (ground arith)))
      | inl wants ↦ elim (Bool-cases (is_free (h.page_table first))) [
        | inr used ↦
            rw (wants, used) (grow_stop s h goal first found (omega arith) (inr (inr used)))
        | inl free ↦
            rw (wants, free, inside)
              (grow_more s h goal first found _ (ltb→lt found goal wants) free rest)
      ]
    ]
