-- ===== src/Gencgc/LargeBalance.antt =====
-- The accounts after `gc_alloc_large`.
use cl.Common.{
  ℕ, ◌+◌, ◌-◌, ◌*◌, ◌/◌, ◌%◌, ◌≤◌, ◌<◌, ◌≡◌, refl, ap, sym, ◌∙◌, arith, inl, inr, bit_or, Bool,
  true, false, ◌&&◌, Bool-cases, Option-cases, ltb, leb, ◌==◌, if◌then◌else◌, sum_below,
  sum_below-ext, sum_below-assign, sum_block, update_range-to,
}
use cl.Common.Digits.{bit_or_flag, eight_times}
use cl.Gencgc.{GenSpace, DynamicSpace, Pte, NewArea, is_free, bytes_used}
use cl.Gencgc.Regions.{large_pte, take_large, add_new_area, adjacent_area}
use cl.Gencgc.Balance.{used_in, IsBalanced}

-- Two heaps that differ in the areas only.
pub record SamePages (h h' : DynamicSpace) : Type 0 where
  pub page_table : h'.page_table ≡ h.page_table
  pub generations : h'.generations ≡ h.generations
  pub bytes_allocated : h'.bytes_allocated ≡ h.bytes_allocated
  pub next_free_page : h'.next_free_page ≡ h.next_free_page

pub add_new_area-SamePages :
    (s : GenSpace) (h : DynamicSpace) (first offset size : ℕ)
    → SamePages h (add_new_area s h first offset size)
unfolding add_new_area
add_new_area-SamePages s h first offset size =
    let start : ℕ = first * s.page_bytes + offset in
    elim (Bool-cases (ltb first h.record_new_regions_below)) [
      | inr e ↦ rw e all_same
      | inl e ↦ elim (Bool-cases (leb 512 h.new_areas_index)) [
        | inl full ↦ rw (e, full) all_same
        | inr room ↦ elim (Option-cases (adjacent_area 8 s h.new_areas start h.new_areas_index)) [
          | inl fresh ↦ rw (e, room, fresh) all_same
          | inr (i, found) ↦ rw (e, room, found) all_same
        ]
      ]
    ]
  where
    all_same :
        {areas : ℕ → NewArea} {index : ℕ}
        → SamePages h (record h { new_areas = areas; new_areas_index = index })
    all_same = record {
      page_table = refl;
      generations = refl;
      bytes_allocated = refl;
      next_free_page = refl;
    }

pub SamePages-IsBalanced :
    (s : GenSpace) (h h' : DynamicSpace) → SamePages h h' → IsBalanced s h → IsBalanced s h'
SamePages-IsBalanced s h h' same b = record {
  pages = λ g lt.
      ap
        (λ (t : ℕ → Pte).
          sum_below s.page_table_pages (λ p. if (t p).gen == g then bytes_used (t p) else 0))
        same.page_table
      ∙ b.pages g lt
      ∙ ap (λ (f : ℕ → ℕ). f g) (sym same.generations);
  total = rw (same.generations, same.bytes_allocated) b.total;
  free_unused = rw same.page_table b.free_unused;
  above_unused = rw (same.page_table, same.next_free_page) b.above_unused;
  top = rw same.next_free_page b.top;
}

module _ (s : GenSpace) (h : DynamicSpace) (gen nbytes page_type first extra : ℕ)
    (b : IsBalanced s h) (words : s.page_bytes % 8 ≡ 0) (bytes : nbytes % 8 ≡ 0)
    (valid : gen < s.num_generations) (inside : first + extra < h.next_free_page)
    (unused : (p : ℕ) → first ≤ p → p ≤ first + extra → (h.page_table p).words_used ≡ 0)
    (needed : extra * s.page_bytes < nbytes)
    (enough : nbytes ≤ s.page_bytes + extra * s.page_bytes) where
  abbrev pub taken : DynamicSpace
  taken = take_large s h gen nbytes page_type first (first + extra)

  abbrev in_run : ℕ → Bool
  in_run p = leb first p && ltb p (first + extra + 1)

  abbrev new_page : ℕ → Pte → Pte
  new_page = large_pte s gen nbytes page_type first (first + extra)

  pub taken-table :
      (p : ℕ)
      → taken.page_table p ≡ (if in_run p then new_page p (h.page_table p) else h.page_table p)
  unfolding take_large
  taken-table p = update_range-to new_page first (first + extra + 1) h.page_table p (omega arith)

  last_bytes : ℕ
  last_bytes = nbytes - s.page_bytes * extra

  size : extra * s.page_bytes + last_bytes ≡ nbytes
  unfolding last_bytes
  size = omega arith

  last_words : last_bytes / 8 * 8 ≡ last_bytes
  unfolding last_bytes
  last_words = omega (arith, eight_times s.page_bytes extra words)

  full_words : s.page_bytes / 8 * 8 ≡ s.page_bytes
  full_words = omega arith

  new_used :
      (p : ℕ)
      → bytes_used (new_page p (h.page_table p))
        ≡ (if p == first + extra then last_bytes else s.page_bytes)
  unfolding large_pte last_bytes
  new_used p =
      let back : first + extra - first ≡ extra = omega arith in
      rw back (ground (arith, last_words, full_words))

  new_type : (p : ℕ) → (new_page p (h.page_table p)).type_ ≡ bit_or 16 page_type
  unfolding large_pte
  new_type p = refl

  taken_used :
      (g p : ℕ)
      → used_in taken g p ≡ (
          if in_run p
          then if gen == g then bytes_used (new_page p (h.page_table p)) else 0
          else used_in h g p)
  unfolding large_pte
  taken_used g p =
      ap (λ (q : Pte). if q.gen == g then bytes_used q else 0) (taken-table p)
      ∙ elim (Bool-cases (in_run p)) [ inl e ↦ rw e refl | inr e ↦ rw e refl ]

  outside : (g p : ℕ) → in_run p ≡ false → used_in taken g p ≡ used_in h g p
  outside g p e = taken_used g p ∙ rw e refl

  within :
      (g p : ℕ)
      → (gen == g) ≡ true
      → first ≤ p
      → p ≤ first + extra
      → used_in taken g p ≡ (if p == first + extra then last_bytes else s.page_bytes)
  within g p e ge le =
      let c : in_run p ≡ true = ground arith in taken_used g p ∙ rw (c, e) (new_used p)

  free_before : (g p : ℕ) → first ≤ p → p ≤ first + extra → used_in h g p ≡ 0
  free_before g p ge le = ground (arith, unused p ge le)

  taken_pages :
      (g : ℕ)
      → sum_below s.page_table_pages (used_in taken g)
        ≡ sum_below s.page_table_pages (used_in h g) + (if gen == g then nbytes else 0)
  taken_pages g = elim (Bool-cases (gen == g)) [
    | inr e ↦ rw e (
        sum_below-ext s.page_table_pages (used_in taken g) (used_in h g) (λ p lt.
          taken_used g p ∙ elim (Bool-cases (in_run p)) [
            | inl c ↦ rw (c, e) (ground (arith, unused p, c))
            | inr c ↦ rw c refl
          ])
        ∙ omega arith)
    | inl e ↦ rw e (
        omega (
          arith,
          sum_block (used_in taken g) (used_in h g) first s.page_bytes last_bytes extra
              s.page_table_pages (omega (arith, b.top)) (λ p lt. outside g p (ground arith))
              (λ p ge lt.
                (within g p e ge (omega arith) ∙ ground arith, free_before g p ge (omega arith)))
              (
                within g (first + extra) e (omega arith) (omega arith) ∙ ground arith,
                free_before g (first + extra) (omega arith) (omega arith),
              )
              (λ p ge. outside g p (ground arith)),
          size,
        ))
  ]

  taken_generations :
      (g : ℕ)
      → taken.generations g ≡ (if g == gen then h.generations gen + nbytes else h.generations g)
  unfolding take_large
  taken_generations g = refl

  taken_words :
      (p : ℕ) → in_run p ≡ false → (taken.page_table p).words_used ≡ (h.page_table p).words_used
  taken_words p e = ap (λ (q : Pte). q.words_used) (taken-table p) ∙ rw e refl

  taken_free : (p : ℕ) → is_free (taken.page_table p) ≡ true → (taken.page_table p).words_used ≡ 0
  taken_free p f = elim (Bool-cases (in_run p)) [
    | inl e ↦
        let kind : (taken.page_table p).type_ ≡ bit_or 16 page_type =
          ap (λ (q : Pte). q.type_) (taken-table p) ∙ rw e (new_type p) in
        absurd (bit_or_flag 4 page_type (ground (arith, kind, f)))
    | inr e ↦
        let kind : (taken.page_table p).type_ ≡ (h.page_table p).type_ =
          ap (λ (q : Pte). q.type_) (taken-table p) ∙ rw e refl in
        taken_words p e ∙ b.free_unused p (ground (arith, kind, f))
  ]

  pub taken-generation : taken.generations gen ≡ h.generations gen + nbytes
  taken-generation = let e : (gen == gen) ≡ true = ground arith in taken_generations gen ∙ rw e refl

  pub taken-IsBalanced : IsBalanced s taken
  unfolding take_large
  taken-IsBalanced = record {
    pages = λ g lt. ground (arith, taken_pages g, taken_generations g, b.pages g lt);
    total = omega (
      arith,
      sum_below-assign s.num_generations gen h.generations (h.generations gen + nbytes) valid,
      b.total,
    );
    free_unused = taken_free;
    above_unused = λ p ge. taken_words p (ground arith) ∙ b.above_unused p ge;
    top = b.top;
  }
