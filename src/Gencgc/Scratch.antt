-- ===== src/Gencgc/Scratch.antt =====
-- The end of a collection without promotion: the survivors come back from the scratch generation.
use cl.Common.{
  ℕ, ◌+◌, ◌-◌, ◌<◌, ◌≡◌, ◌≢◌, refl, ap, sym, ◌∙◌, arith, inl, inr, Bool, true, false, ◌&&◌, not,
  Bool-cases, ltb, leb, ◌==◌, if◌then◌else◌, Returns, sum_below, sum_below-ext, sum_below-assign,
  assign, update_range, update_range_lem,
}
use cl.Gencgc.{GenSpace, DynamicSpace, Pte, is_free}
use cl.Gencgc.Release.{free_oldspace, leave_scratch, release_from_space}
use cl.Gencgc.Balance.{used_in, IsBalanced}
use cl.Gencgc.Oldspace.{
  sum_below-zero, sum_below-+, oldspace-IsBalanced, oldspace-generations, oldspace-next_free_page,
  oldspace_kept, oldspace_emptied, oldspace-bytes_allocated,
}

abbrev back : ℕ → ℕ → Pte → Pte
back scratch generation p = record p { gen = if p.gen == scratch then generation else p.gen }

-- The heap after the pages of the scratch generation have the number of the generation collected.
abbrev pub returned : DynamicSpace → ℕ → ℕ → DynamicSpace
returned h generation scratch = record h {
  page_table = update_range (λ _ p. back scratch generation p) h.next_free_page 0 h.page_table;
  generations = assign (assign h.generations generation (h.generations scratch)) scratch 0;
}

module _ (s : GenSpace) (h : DynamicSpace) (generation scratch : ℕ) (b : IsBalanced s h)
    (valid : generation < s.num_generations) (valid_scratch : scratch < s.num_generations)
    (apart : generation ≢ scratch) (none_left : h.generations generation ≡ 0) where
  abbrev after : DynamicSpace
  after = returned h generation scratch

  page_back :
      (i : ℕ)
      → after.page_table i ≡ (
          if ltb i h.next_free_page
          then back scratch generation (h.page_table i)
          else h.page_table i)
  page_back i =
      let start : leb 0 i ≡ true = ground arith in
      let none_before : 0 + h.next_free_page ≡ h.next_free_page = omega arith in
      update_range_lem (λ _ p. back scratch generation p) h.next_free_page 0 h.page_table i
      ∙ rw (start, none_before) refl

  words_back : (i : ℕ) → (after.page_table i).words_used ≡ (h.page_table i).words_used
  words_back i =
      ap (λ (p : Pte). p.words_used) (page_back i)
      ∙ elim (Bool-cases (ltb i h.next_free_page)) [ inl e ↦ rw e refl | inr e ↦ rw e refl ]

  type_back : (i : ℕ) → (after.page_table i).type_ ≡ (h.page_table i).type_
  type_back i =
      ap (λ (p : Pte). p.type_) (page_back i)
      ∙ elim (Bool-cases (ltb i h.next_free_page)) [ inl e ↦ rw e refl | inr e ↦ rw e refl ]

  gen_back :
      (i : ℕ)
      → i < h.next_free_page
      → (after.page_table i).gen
        ≡ (if (h.page_table i).gen == scratch then generation else (h.page_table i).gen)
  gen_back i lt =
      let e : ltb i h.next_free_page ≡ true = ground arith in
      ap (λ (p : Pte). p.gen) (page_back i) ∙ rw e refl

  used_back :
      (g i : ℕ)
      → used_in after g i ≡ (
          if g == generation
          then used_in h generation i + used_in h scratch i
          else if g == scratch
          then 0
          else used_in h g i)
  used_back g i = elim (Bool-cases (ltb i h.next_free_page)) [
    | inl below ↦ ground (arith, words_back i, gen_back i, apart, below)
    | inr beyond ↦ ground (arith, words_back i, b.above_unused i, beyond)
  ]

  generations_back :
      (g : ℕ)
      → after.generations g ≡ (
          if g == generation
          then h.generations scratch
          else if g == scratch
          then 0
          else h.generations g)
  generations_back g = ground (arith, apart)

  pages_back :
      (g : ℕ)
      → g < s.num_generations
      → sum_below s.page_table_pages (used_in after g) ≡ after.generations g
  pages_back g lt = elim (Bool-cases (g == generation)) [
    | inl e ↦
        let both =
          sum_below-+ s.page_table_pages (used_in after g) (used_in h generation)
            (used_in h scratch) (λ i less. used_back g i ∙ rw e refl) in
        ground (
          arith,
          both,
          b.pages generation valid,
          b.pages scratch valid_scratch,
          none_left,
          generations_back g,
          e,
        )
    | inr e ↦ elim (Bool-cases (g == scratch)) [
      | inl f ↦
          sum_below-zero s.page_table_pages (used_in after g)
            (λ i less. used_back g i ∙ rw (e, f) refl)
          ∙ sym (generations_back g ∙ rw (e, f) refl)
      | inr f ↦
          sum_below-ext s.page_table_pages (used_in after g) (used_in h g)
            (λ i less. used_back g i ∙ rw (e, f) refl)
          ∙ b.pages g lt
          ∙ sym (generations_back g ∙ rw (e, f) refl)
    ]
  ]

  total_back : sum_below s.num_generations after.generations ≡ h.bytes_allocated
  total_back =
      let moved : ℕ → ℕ = assign h.generations generation (h.generations scratch) in
      let first =
        sum_below-assign s.num_generations generation h.generations (h.generations scratch) valid in
      let second = sum_below-assign s.num_generations scratch moved 0 valid_scratch in
      let kept : moved scratch ≡ h.generations scratch = ground (arith, apart) in
      omega (arith, first, second, kept, none_left, b.total)

  pub returned-IsBalanced : IsBalanced s after
  returned-IsBalanced = record {
    pages = pages_back;
    total = total_back;
    free_unused = λ p e. words_back p ∙ b.free_unused p (ground (arith, type_back p, e));
    above_unused = λ p ge. words_back p ∙ b.above_unused p ge;
    top = b.top;
  }

-- What `release_from_space` leaves: true accounts, without the bytes of the generation that was
-- collected; pages of other generations as they were but for the number of the scratch generation, and its own pages free.
pub record IsReleasedSpace (s : GenSpace) (h : DynamicSpace) (generation : ℕ) (raise : Bool)
    (scratch : ℕ) (r : DynamicSpace) : Type 0 where
  pub balanced : IsBalanced s r
  pub freed : r.bytes_allocated ≡ h.bytes_allocated - h.generations generation
  pub generations :
      (g : ℕ)
      → r.generations g ≡ (
          if g == generation
          then (if raise then 0 else h.generations scratch)
          else if not raise && g == scratch
          then 0
          else h.generations g)
  pub emptied :
      (p : ℕ)
      → p < h.next_free_page
      → (h.page_table p).gen ≡ generation
      → is_free (r.page_table p) ≡ true
  pub survivors :
      (p : ℕ)
      → p < h.next_free_page
      → (h.page_table p).gen ≢ generation
      → r.page_table p
        ≡ (if raise then h.page_table p else back scratch generation (h.page_table p))

-- On a heap with true accounts, the end of a collection frees the bytes of the generation that was
-- collected, and no others. Without promotion it gets the pages and the bytes of the scratch
-- generation, and the assertion that it is empty holds. The accounts stay true. The generation and
-- the scratch generation are two generations of the heap.
pub release_from_space-IsReleasedSpace :
    (s : GenSpace) (h : DynamicSpace) (generation : ℕ) (raise : Bool) (scratch : ℕ)
    → generation < s.num_generations
    → scratch < s.num_generations
    → generation ≢ scratch
    → IsBalanced s h
    → Returns
        (release_from_space s h generation raise scratch)
        (IsReleasedSpace s h generation raise scratch)
unfolding release_from_space leave_scratch
release_from_space-IsReleasedSpace s h generation true scratch lt lt_scratch apart b = record {
  balanced = oldspace-IsBalanced s h generation b lt;
  freed = oldspace-bytes_allocated s h generation b lt;
  generations = λ g. oldspace-generations s h generation b lt g;
  emptied = oldspace_emptied s h generation b lt;
  survivors = oldspace_kept s h generation b lt;
}
release_from_space-IsReleasedSpace s h generation false scratch lt lt_scratch apart b =
    let freed = free_oldspace s h generation in
    let true_accounts = oldspace-IsBalanced s h generation b lt in
    let none_left : freed.generations generation ≡ 0 =
      ground (arith, oldspace-generations s h generation b lt generation) in
    let holds : (freed.generations generation == 0) ≡ true = ground (arith, none_left) in
    let below = λ (p : ℕ) (less : p < h.next_free_page).
      let e : ltb p freed.next_free_page ≡ true =
        ground (arith, oldspace-next_free_page s h generation b lt) in
      page_back s freed generation scratch true_accounts lt lt_scratch apart none_left p
      ∙ rw e refl in
    rw holds (record {
      balanced =
          returned-IsBalanced s freed generation scratch true_accounts lt lt_scratch apart
            none_left;
      freed = oldspace-bytes_allocated s h generation b lt;
      generations = λ g. ground (
        arith,
        apart,
        oldspace-generations s h generation b lt scratch,
        oldspace-generations s h generation b lt g,
      );
      emptied = λ p less own.
          ap (λ (q : Pte). is_free q) (below p less)
          ∙ oldspace_emptied s h generation b lt p less own;
      survivors = λ p less other.
          below p less
          ∙ ap (back scratch generation) (oldspace_kept s h generation b lt p less other);
    })
