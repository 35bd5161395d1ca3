-- ===== src/Gencgc/Balance.antt =====
-- The accounts of the generational collector, and what the release of pages does to them.
use cl.Common.{
  ℕ, zero, suc, ◌+◌, ◌≤◌, ◌<◌, ◌≡◌, ◌≢◌, refl, ap, ◌∙◌, arith, inl, inr, Bool, true, false, ◌&&◌,
  Bool-cases, ltb, leb, ◌==◌, if◌then◌else◌, compare_cases, sum_below, sum_below_change,
}
use cl.Gencgc.{GenSpace, DynamicSpace, Pte, is_free, bytes_used}
use cl.Gencgc.Release.{free_page, reset_page_flags, free_rounds}

-- The bytes on a page, if it belongs to the generation.
abbrev pub used_in : DynamicSpace → ℕ → ℕ → ℕ
used_in h gen p = if (h.page_table p).gen == gen then bytes_used (h.page_table p) else 0

-- Each generation accounts for the bytes on its pages, and all of them for the bytes allocated.
-- Free pages and those at or above `next_free_page` are not used.
pub record IsBalanced (s : GenSpace) (h : DynamicSpace) : Type 0 where
  pub pages :
      (g : ℕ) → g < s.num_generations → sum_below s.page_table_pages (used_in h g) ≡ h.generations g
  pub total : sum_below s.num_generations h.generations ≡ h.bytes_allocated
  pub free_unused : (p : ℕ) → is_free (h.page_table p) ≡ true → (h.page_table p).words_used ≡ 0
  pub above_unused : (p : ℕ) → h.next_free_page ≤ p → (h.page_table p).words_used ≡ 0
  pub top : h.next_free_page ≤ s.page_table_pages

-- A page after `free_page`.
abbrev pub freed_pte : Pte → Pte
freed_pte p = record {
  scan_start_offset = 0;
  need_zerofill = if p.words_used == 0 then p.need_zerofill else true;
  words_used = 0;
  type_ = 0;
  gen = p.gen;
}

free_page-table :
    (s : GenSpace) (h : DynamicSpace) (page i : ℕ)
    → (free_page s h page).page_table i
      ≡ (if i == page then freed_pte (h.page_table page) else h.page_table i)
unfolding free_page reset_page_flags
free_page-table s h page i =
    let here : (page == page) ≡ true = ground arith in
    elim (Bool-cases (i == page)) [ inl e ↦ rw (e, here) refl | inr e ↦ rw e refl ]

-- The rest of a heap that `free_rounds` makes, and its pages.
pub record IsFreed (frees : Pte → Bool) (h h' : DynamicSpace) (page n : ℕ) : Type 0 where
  pub generations : h'.generations ≡ h.generations
  pub bytes_allocated : h'.bytes_allocated ≡ h.bytes_allocated
  pub next_free_page : h'.next_free_page ≡ h.next_free_page
  pub table :
      (i : ℕ)
      → h'.page_table i ≡ (
          if leb page i && ltb i (page + n) && frees (h.page_table i)
          then freed_pte (h.page_table i)
          else h.page_table i)

free_page-rest :
    (s : GenSpace) (h : DynamicSpace) (page : ℕ)
    → ((free_page s h page).generations ≡ h.generations)
      × ((free_page s h page).bytes_allocated ≡ h.bytes_allocated)
      × ((free_page s h page).next_free_page ≡ h.next_free_page)
unfolding free_page reset_page_flags
free_page-rest s h page = (refl, refl, refl)

free_page-other :
    (s : GenSpace) (h : DynamicSpace) (page i : ℕ)
    → i ≢ page
    → (free_page s h page).page_table i ≡ h.page_table i
free_page-other s h page i other =
    let e : (i == page) ≡ false = ground (arith, other) in free_page-table s h page i ∙ rw e refl

free_page-same :
    (s : GenSpace) (h : DynamicSpace) (page : ℕ)
    → (free_page s h page).page_table page ≡ freed_pte (h.page_table page)
free_page-same s h page =
    let e : (page == page) ≡ true = ground arith in free_page-table s h page page ∙ rw e refl

module _ (s : GenSpace) (frees : Pte → Bool) where
  abbrev pub freed_between : DynamicSpace → ℕ → ℕ → ℕ → Pte
  freed_between h first last i =
      if leb first i && ltb i last && frees (h.page_table i)
      then freed_pte (h.page_table i)
      else h.page_table i

  freed_between-step :
      (h : DynamicSpace) (page n i : ℕ)
      → frees (h.page_table page) ≡ true
      → freed_between (free_page s h page) (page + 1) (page + 1 + n) i
        ≡ freed_between h page (page + suc n) i
  freed_between-step h page n i e =
      let shift : page + 1 + n ≡ page + suc n = omega arith in
      elim (compare_cases i page) [
        | inl here ↦
            let now : leb page page ≡ true = ground arith in
            let later : leb (page + 1) page ≡ false = ground arith in
            let lt : ltb page (page + suc n) ≡ true = ground arith in
            rw (here, later, now, lt, e) (free_page-same s h page)
        | inr (inl below) ↦
            let now : leb page i ≡ false = ground arith in
            let later : leb (page + 1) i ≡ false = ground arith in
            rw (later, now) (free_page-other s h page i (λ x. omega arith))
        | inr (inr above) ↦
            let now : leb page i ≡ true = ground arith in
            let later : leb (page + 1) i ≡ true = ground arith in
            rw (shift, later, now, free_page-other s h page i (λ x. omega arith)) refl
      ]

  freed_between-skip :
      (h : DynamicSpace) (page n i : ℕ)
      → frees (h.page_table page) ≡ false
      → freed_between h (page + 1) (page + 1 + n) i ≡ freed_between h page (page + suc n) i
  freed_between-skip h page n i e =
      let shift : page + 1 + n ≡ page + suc n = omega arith in
      elim (compare_cases i page) [
        | inl here ↦
            let now : leb page page ≡ true = ground arith in
            let later : leb (page + 1) page ≡ false = ground arith in
            let lt : ltb page (page + suc n) ≡ true = ground arith in
            rw (here, later, now, lt, e) refl
        | inr (inl below) ↦
            let now : leb page i ≡ false = ground arith in
            let later : leb (page + 1) i ≡ false = ground arith in rw (later, now) refl
        | inr (inr above) ↦
            let now : leb page i ≡ true = ground arith in
            let later : leb (page + 1) i ≡ true = ground arith in rw (shift, later, now) refl
      ]

  pub free_rounds-IsFreed :
      (n : ℕ) (h : DynamicSpace) (page bytes : ℕ)
      → IsFreed frees h (free_rounds n s frees h page bytes).0 page n
  unfolding free_rounds
  free_rounds-IsFreed zero h page bytes = record {
    generations = refl;
    bytes_allocated = refl;
    next_free_page = refl;
    table = λ i. elim (Bool-cases (leb page i)) [
      | inl e ↦ let lt : ltb i (page + 0) ≡ false = ground arith in rw (e, lt) refl
      | inr e ↦ rw e refl
    ];
  }
  free_rounds-IsFreed (suc n) h page bytes = elim (Bool-cases (frees (h.page_table page))) [
    | inl e ↦
        let rest =
          free_rounds-IsFreed n (free_page s h page) (page + 1)
            (bytes + bytes_used (h.page_table page)) in
        let here = free_page-rest s h page in
        rw e (record {
          generations = rest.generations ∙ here.0;
          bytes_allocated = rest.bytes_allocated ∙ here.1;
          next_free_page = rest.next_free_page ∙ here.2;
          table = λ i. rest.table i ∙ freed_between-step h page n i e;
        })
    | inr e ↦
        let rest = free_rounds-IsFreed n h (page + 1) bytes in
        rw e (record {
          generations = rest.generations;
          bytes_allocated = rest.bytes_allocated;
          next_free_page = rest.next_free_page;
          table = λ i. rest.table i ∙ freed_between-skip h page n i e;
        })
  ]

  free_page_bytes :
      (h : DynamicSpace) (page gen g : ℕ)
      → (h.page_table page).gen ≡ gen
      → page < s.page_table_pages
      → sum_below s.page_table_pages (used_in (free_page s h page) g)
          + (if g == gen then bytes_used (h.page_table page) else 0)
        ≡ sum_below s.page_table_pages (used_in h g)
  free_page_bytes h page gen g e lt =
      let after = free_page s h page in
      let change =
        sum_below_change s.page_table_pages page (used_in after g) (used_in h g) lt (λ j other.
          ap (λ (p : Pte). if p.gen == g then bytes_used p else 0)
            (free_page-other s h page j other)) in
      let zero_after : used_in after g page ≡ 0 =
        ap (λ (p : Pte). if p.gen == g then bytes_used p else 0) (free_page-same s h page)
        ∙ ground arith in
      ground (arith, change, zero_after, e)

  -- The bytes counted are missing on the pages of the generation.
  pub free_rounds_bytes :
      (n : ℕ) (h : DynamicSpace) (page bytes gen g : ℕ)
      → ((i : ℕ)
          → page ≤ i
          → i < page + n
          → frees (h.page_table i) ≡ true
          → (h.page_table i).gen ≡ gen)
      → page + n ≤ s.page_table_pages
      → sum_below s.page_table_pages (used_in (free_rounds n s frees h page bytes).0 g)
          + (if g == gen then (free_rounds n s frees h page bytes).1 else 0)
        ≡ sum_below s.page_table_pages (used_in h g) + (if g == gen then bytes else 0)
  unfolding free_rounds
  free_rounds_bytes zero h page bytes gen g of_gen le = refl
  free_rounds_bytes (suc n) h page bytes gen g of_gen le =
      elim (Bool-cases (frees (h.page_table page))) [
        | inl e ↦
            let here =
              free_page_bytes h page gen g (of_gen page (omega arith) (omega arith) e)
                (omega arith) in
            let rest =
              free_rounds_bytes n (free_page s h page) (page + 1)
                (bytes + bytes_used (h.page_table page)) gen g (later e) (omega arith) in
            rw e (ground (arith, rest, here))
        | inr e ↦ rw e (
            free_rounds_bytes n h (page + 1) bytes gen g
              (λ i ge lt. of_gen i (omega arith) (omega arith)) (omega arith))
      ]
    where
      later :
          frees (h.page_table page) ≡ true
          → (i : ℕ) → page + 1 ≤ i
          → i < page + 1 + n
          → frees ((free_page s h page).page_table i) ≡ true
          → ((free_page s h page).page_table i).gen ≡ gen
      later e i ge lt =
          rw (free_page-other s h page i (λ x. omega arith)) (of_gen i (omega arith) (omega arith))
