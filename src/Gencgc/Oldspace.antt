-- ===== src/Gencgc/Oldspace.antt =====
-- The end of a collection of a generation: `free_oldspace`, and the scratch generation is left.
use cl.Common.{
  ℕ, zero, suc, ◌+◌, ◌-◌, ◌≤◌, ◌<◌, ◌≡◌, ◌≢◌, refl, ap, ◌∙◌, arith, inl, inr, Bool, true, false,
  ◌&&◌, Bool-cases, ltb, leb, ◌==◌, if◌then◌else◌, sum_below, sum_below_change,
}
use cl.Gencgc.{GenSpace, DynamicSpace, Pte, is_free, bytes_used}
use cl.Gencgc.Release.{free_rounds, deduct, free_oldspace}
use cl.Gencgc.Balance.{
  used_in, IsBalanced, freed_pte, freed_between, IsFreed, free_rounds-IsFreed, free_rounds_bytes,
}

pub sum_below-zero : (n : ℕ) (f : ℕ → ℕ) → ((i : ℕ) → i < n → f i ≡ 0) → sum_below n f ≡ 0
sum_below-zero zero f h = refl
sum_below-zero (suc n) f h =
    omega (arith, h n (omega arith), sum_below-zero n f (λ i lt. h i (omega arith)))

pub sum_below-+ :
    (n : ℕ) (f g k : ℕ → ℕ)
    → ((i : ℕ) → i < n → f i ≡ g i + k i)
    → sum_below n f ≡ sum_below n g + sum_below n k
sum_below-+ zero f g k h = refl
sum_below-+ (suc n) f g k h =
    omega (arith, h n (omega arith), sum_below-+ n f g k (λ i lt. h i (omega arith)))

module _ (s : GenSpace) (frees : Pte → Bool) (h : DynamicSpace) (page n gen : ℕ)
    (b : IsBalanced s h) (valid : gen < s.num_generations)
    (of_gen : (i : ℕ)
      → page ≤ i
      → i < page + n
      → frees (h.page_table i) ≡ true
      → (h.page_table i).gen ≡ gen)
    (le : page + n ≤ s.page_table_pages) where
  abbrev rounds : DynamicSpace × ℕ
  rounds = free_rounds n s frees h page 0

  abbrev pub deducted : DynamicSpace
  deducted = deduct rounds gen

  freed : IsFreed frees h rounds.0 page n
  freed = free_rounds-IsFreed s frees n h page 0

  freed_bytes :
      (g : ℕ)
      → sum_below s.page_table_pages (used_in rounds.0 g) + (if g == gen then rounds.1 else 0)
        ≡ sum_below s.page_table_pages (used_in h g)
  freed_bytes g =
      let sums = free_rounds_bytes s frees n h page 0 gen g of_gen le in ground (arith, sums)

  freed_of_gen : sum_below s.page_table_pages (used_in rounds.0 gen) + rounds.1 ≡ h.generations gen
  freed_of_gen =
      let sums = freed_bytes gen in
      let e : (gen == gen) ≡ true = ground arith in omega (arith, rw e at sums, b.pages gen valid)

  pub deducted-table : (i : ℕ) → deducted.page_table i ≡ freed_between s frees h page (page + n) i
  unfolding deduct
  deducted-table i = freed.table i

  pub deducted-generations :
      (g : ℕ)
      → deducted.generations g
        ≡ (if g == gen then h.generations gen - rounds.1 else h.generations g)
  unfolding deduct
  deducted-generations g = rw freed.generations refl

  pub deducted-bytes_allocated : deducted.bytes_allocated ≡ h.bytes_allocated - rounds.1
  unfolding deduct
  deducted-bytes_allocated = rw freed.bytes_allocated refl

  pub deducted-next_free_page : deducted.next_free_page ≡ h.next_free_page
  unfolding deduct
  deducted-next_free_page = freed.next_free_page

  deducted_words :
      (i : ℕ) → (h.page_table i).words_used ≡ 0 → (deducted.page_table i).words_used ≡ 0
  deducted_words i e =
      ap (λ (p : Pte). p.words_used) (deducted-table i)
      ∙ elim (Bool-cases (leb page i && ltb i (page + n) && frees (h.page_table i))) [
        | inl c ↦ rw c refl
        | inr c ↦ rw c e
      ]

  deducted_free :
      (i : ℕ) → is_free (deducted.page_table i) ≡ true → (deducted.page_table i).words_used ≡ 0
  deducted_free i =
      rw (deducted-table i)
        (elim (Bool-cases (leb page i && ltb i (page + n) && frees (h.page_table i))) [
          | inl c ↦ rw c (λ _. refl)
          | inr c ↦ rw c (b.free_unused i)
        ])

  deducted_sum :
      (g : ℕ)
      → sum_below s.page_table_pages (used_in deducted g)
        ≡ sum_below s.page_table_pages (used_in rounds.0 g)
  unfolding deduct
  deducted_sum g = refl

  deducted_total : sum_below s.num_generations deducted.generations ≡ deducted.bytes_allocated
  deducted_total =
      let change =
        sum_below_change s.num_generations gen deducted.generations h.generations valid
          (λ j other. ground (arith, deducted-generations j, other)) in
      ground
        (arith, change, deducted-generations gen, deducted-bytes_allocated, freed_of_gen, b.total)

  deducted_pages :
      (g : ℕ)
      → g < s.num_generations
      → sum_below s.page_table_pages (used_in deducted g) ≡ deducted.generations g
  deducted_pages g lt =
      ground
        (arith, deducted_sum g, freed_bytes g, freed_of_gen, b.pages g lt, deducted-generations g)

  pub deducted-IsBalanced : IsBalanced s deducted
  deducted-IsBalanced = record {
    pages = deducted_pages;
    total = deducted_total;
    free_unused = deducted_free;
    above_unused =
        λ p ge. deducted_words p (b.above_unused p (omega (arith, deducted-next_free_page)));
    top = omega (arith, deducted-next_free_page, b.top);
  }

-- `free_oldspace` on a heap with true accounts.
module _ (s : GenSpace) (h : DynamicSpace) (from_space : ℕ) (b : IsBalanced s h)
    (valid : from_space < s.num_generations) where
  abbrev is_old : Pte → Bool
  is_old p = p.gen == from_space

  abbrev pub oldspace : DynamicSpace
  oldspace = free_oldspace s h from_space

  old_of_gen :
      (i : ℕ)
      → 0 ≤ i
      → i < 0 + h.next_free_page
      → is_old (h.page_table i) ≡ true
      → (h.page_table i).gen ≡ from_space
  old_of_gen i ge lt e = ground arith

  inside : 0 + h.next_free_page ≤ s.page_table_pages
  inside = omega (arith, b.top)

  pub oldspace-IsBalanced : IsBalanced s oldspace
  unfolding free_oldspace
  oldspace-IsBalanced =
      deducted-IsBalanced s is_old h 0 h.next_free_page from_space b valid old_of_gen inside

  pub oldspace-table :
      (i : ℕ)
      → oldspace.page_table i ≡ (
          if ltb i h.next_free_page && (h.page_table i).gen == from_space
          then freed_pte (h.page_table i)
          else h.page_table i)
  unfolding free_oldspace
  oldspace-table i =
      deducted-table s is_old h 0 h.next_free_page from_space b valid old_of_gen inside i
      ∙ (let start : leb 0 i ≡ true = ground arith in
          let none_before : 0 + h.next_free_page ≡ h.next_free_page = omega arith in
          rw (start, none_before) refl)

  other_generations : (g : ℕ) → (g == from_space) ≡ false → oldspace.generations g ≡ h.generations g
  unfolding free_oldspace
  other_generations g e =
      deducted-generations s is_old h 0 h.next_free_page from_space b valid old_of_gen inside g
      ∙ rw e refl

  unused : (i : ℕ) → used_in oldspace from_space i ≡ 0
  unused i =
      ap (λ (p : Pte). if p.gen == from_space then bytes_used p else 0) (oldspace-table i)
      ∙ elim (Bool-cases (ltb i h.next_free_page)) [
        | inr above ↦ rw above (ground (arith, b.above_unused i))
        | inl below ↦ elim (Bool-cases ((h.page_table i).gen == from_space)) [
          | inl old ↦ rw (below, old) (ground arith)
          | inr other ↦ rw (below, other) (ground (arith, other))
        ]
      ]

  -- All of the generation is freed, and nothing else.
  pub oldspace-generations :
      (g : ℕ) → oldspace.generations g ≡ (if g == from_space then 0 else h.generations g)
  oldspace-generations g = elim (Bool-cases (g == from_space)) [
    | inl e ↦
        let same : g ≡ from_space = ground arith in
        let none_left =
          sum_below-zero s.page_table_pages (used_in oldspace from_space) (λ i lt. unused i) in
        rw (e, same) (omega (arith, none_left, oldspace-IsBalanced.pages from_space valid))
    | inr e ↦ rw e (ground (arith, other_generations g, e))
  ]

  pub oldspace-bytes_allocated :
      oldspace.bytes_allocated ≡ h.bytes_allocated - h.generations from_space
  oldspace-bytes_allocated =
      let change =
        sum_below_change s.num_generations from_space oldspace.generations h.generations valid
          (λ j other. ground (arith, oldspace-generations j, other)) in
      let zero_left : oldspace.generations from_space ≡ 0 =
        ground (arith, oldspace-generations from_space) in
      omega (arith, change, zero_left, oldspace-IsBalanced.total, b.total)

  pub oldspace-next_free_page : oldspace.next_free_page ≡ h.next_free_page
  unfolding free_oldspace
  oldspace-next_free_page =
      deducted-next_free_page s is_old h 0 h.next_free_page from_space b valid old_of_gen inside

  pub oldspace_kept :
      (p : ℕ)
      → p < h.next_free_page
      → (h.page_table p).gen ≢ from_space
      → oldspace.page_table p ≡ h.page_table p
  oldspace_kept p lt other =
      let e : ((h.page_table p).gen == from_space) ≡ false = ground (arith, other) in
      let below : ltb p h.next_free_page ≡ true = ground arith in
      oldspace-table p ∙ rw (below, e) refl

  pub oldspace_emptied :
      (p : ℕ)
      → p < h.next_free_page
      → (h.page_table p).gen ≡ from_space
      → is_free (oldspace.page_table p) ≡ true
  oldspace_emptied p lt own =
      let e : ((h.page_table p).gen == from_space) ≡ true = ground (arith, own) in
      let below : ltb p h.next_free_page ≡ true = ground arith in
      ap (λ (q : Pte). is_free q) (oldspace-table p) ∙ rw (below, e) refl
