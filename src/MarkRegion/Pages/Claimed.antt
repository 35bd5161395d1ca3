-- ===== src/MarkRegion/Pages/Claimed.antt =====
-- What the claim of a page, or of the pages of a large object, writes into the heap: the updates of
-- `generations`, `bytes_allocated`, `next_free_page` and the page table in src/runtime/mark-region.c.
use cl.Common.{
  ℕ, ◌+◌, ◌-◌, ◌*◌, ◌/◌, ◌%◌, ◌≤◌, ◌<◌, ◌≡◌, ◌≢◌, refl, ap, ◌∙◌, arith, ◌⊎◌, Bool, true, false,
  ◌&&◌, ltb, leb, ◌==◌, if◌then◌else◌, bit_or, update_range-to,
}
use cl.MarkRegion.{Space}
use cl.MarkRegion.Pages.{Heap, Page, suitable, claim_page, claim_large, large_page}

module _ (s : Space) (h : Heap) where
  -- The page has room for the object, is no target of the compaction, and is free where free pages
  -- are allowed, or has the type of the object and is not pseudo-static.
  pub record Suits (nbytes page_type : ℕ) (allow : Bool) (p : ℕ) : Type 0 where
    pub room : (h.page_table p).words_used * 8 + nbytes ≤ s.page_bytes
    pub not_target : h.target_pages p ≡ false
    pub kind :
        (allow ≡ true) × ((h.page_table p).type_ ≡ 0)
        ⊎ ((h.page_table p).type_ ≡ page_type) × ((h.page_table p).gen ≢ s.pseudo_static_generation)

  pub suitable-Suits :
      (nbytes page_type : ℕ) (allow : Bool) (p : ℕ)
      → suitable s h nbytes page_type allow p ≡ true
      → Suits nbytes page_type allow p
  unfolding suitable
  suitable-Suits nbytes page_type allow p e = record {
    room = ground arith;
    not_target = ground arith;
    kind = ground arith;
  }

  pub Suits-suitable :
      (nbytes page_type : ℕ) (allow : Bool) (p : ℕ)
      → Suits nbytes page_type allow p
      → suitable s h nbytes page_type allow p ≡ true
  unfolding suitable
  Suits-suitable nbytes page_type allow p f = ground (arith, f.room, f.not_target, f.kind)

  -- Bytes are added to one generation and to the total, and pages up to `end` are in use.
  pub record Accounted (gen bytes end : ℕ) (r : Heap) : Type 0 where
    pub in_generation : r.generations gen ≡ h.generations gen + bytes
    pub in_others : (g : ℕ) → g ≢ gen → r.generations g ≡ h.generations g
    pub total : r.bytes_allocated ≡ h.bytes_allocated + bytes
    pub covers : end ≤ r.next_free_page
    pub tight : (r.next_free_page ≡ h.next_free_page) ⊎ (r.next_free_page ≡ end)
    pub grows : h.next_free_page ≤ r.next_free_page
    pub targets : r.target_pages ≡ h.target_pages

  -- The page is open and full, in generation 0, and what was not used of it is accounted.
  pub record PageClaimed (page_type gen page : ℕ) (lines : ℕ → ℕ) (r : Heap) : Type 0 where
    pub accounts : Accounted gen (s.page_bytes - (h.page_table page).words_used * 8) (page + 1) r
    pub line_bytes : r.line_bytemap ≡ lines
    pub words : (r.page_table page).words_used ≡ s.page_bytes / 8
    pub open_type : (r.page_table page).type_ ≡ bit_or page_type 32
    pub in_nursery : (r.page_table page).gen ≡ 0
    pub scan_start : (r.page_table page).scan_start_offset ≡ 0
    pub others : (p : ℕ) → p ≢ page → r.page_table p ≡ h.page_table p

  pub claim_page-PageClaimed :
      (page_type gen page : ℕ) (lines : ℕ → ℕ)
      → PageClaimed page_type gen page lines (claim_page s h page_type gen page lines)
  unfolding claim_page
  claim_page-PageClaimed page_type gen page lines = record {
    accounts = record {
      in_generation = ground arith;
      in_others = λ g other. ground (arith, other);
      total = refl;
      covers = ground arith;
      tight = ground arith;
      grows = ground arith;
      targets = refl;
    };
    line_bytes = refl;
    words = ground arith;
    open_type = ground arith;
    in_nursery = ground arith;
    scan_start = ground arith;
    others = λ p other. ground (arith, other);
  }

  -- Exactly the pages from `first` on hold the object: all of them are full but for the rest on
  -- the last one, their type is that of a single object and they point back to the first one.
  pub record LargeClaimed (nbytes page_type gen first pages : ℕ) (r : Heap) : Type 0 where
    pub accounts : Accounted gen nbytes (first + pages) r
    pub line_bytes : r.line_bytemap ≡ h.line_bytemap
    pub full :
        (p : ℕ) → first ≤ p → p + 1 < first + pages → (r.page_table p).words_used ≡ s.page_bytes / 8
    pub last_words :
        (r.page_table (first + pages - 1)).words_used
        ≡ (if nbytes % s.page_bytes == 0 then s.page_bytes else nbytes % s.page_bytes) / 8
    pub kind :
        (p : ℕ)
        → first ≤ p
        → p < first + pages
        → ((r.page_table p).type_ ≡ bit_or 16 page_type)
          × ((r.page_table p).gen ≡ gen)
          × ((r.page_table p).scan_start_offset ≡ s.page_bytes * (p - first))
    pub others : (p : ℕ) → (p < first) ⊎ (first + pages ≤ p) → r.page_table p ≡ h.page_table p

  module _ (nbytes page_type gen first pages : ℕ) (pos : 0 < pages) where
    written :
        (p : ℕ)
        → (claim_large s h nbytes page_type gen first pages).page_table p ≡ (
            if leb first p && ltb p (first + pages)
            then large_page s nbytes page_type gen first (first + pages - 1) p
            else h.page_table p)
    unfolding claim_large
    written p =
        let e : first + pages - 1 + 1 ≡ first + pages = omega arith in
        update_range-to (λ q _. large_page s nbytes page_type gen first (first + pages - 1) q) first
          (first + pages - 1 + 1) h.page_table p (omega arith)
        ∙ ap
            (λ t.
              if leb first p && ltb p t
              then large_page s nbytes page_type gen first (first + pages - 1) p
              else h.page_table p)
            e

    inner :
        (p : ℕ)
        → first ≤ p
        → p < first + pages
        → (claim_large s h nbytes page_type gen first pages).page_table p
          ≡ large_page s nbytes page_type gen first (first + pages - 1) p
    inner p ge lt = ground (arith, written p)

    large_accounts :
        Accounted gen nbytes (first + pages) (claim_large s h nbytes page_type gen first pages)
    unfolding claim_large
    large_accounts = record {
      in_generation = ground arith;
      in_others = λ g other. ground (arith, other);
      total = refl;
      covers = ground (arith, pos);
      tight = ground (arith, pos);
      grows = ground (arith, pos);
      targets = refl;
    }

    lines_kept : (claim_large s h nbytes page_type gen first pages).line_bytemap ≡ h.line_bytemap
    unfolding claim_large
    lines_kept = refl

    page_words :
        (p : ℕ)
        → (large_page s nbytes page_type gen first (first + pages - 1) p).words_used
          ≡ (if p == first + pages - 1 && ltb 0 (nbytes % s.page_bytes)
              then nbytes % s.page_bytes
              else s.page_bytes)
            / 8
    unfolding large_page
    page_words p = refl

    page_kind :
        (p : ℕ)
        → ((large_page s nbytes page_type gen first (first + pages - 1) p).type_
            ≡ bit_or 16 page_type)
          × ((large_page s nbytes page_type gen first (first + pages - 1) p).gen ≡ gen)
          × ((large_page s nbytes page_type gen first (first + pages - 1) p).scan_start_offset
              ≡ s.page_bytes * (p - first))
    unfolding large_page
    page_kind p = (refl, refl, refl)

    pub claim_large-LargeClaimed :
        LargeClaimed nbytes page_type gen first pages
          (claim_large s h nbytes page_type gen first pages)
    claim_large-LargeClaimed = record {
      accounts = large_accounts;
      line_bytes = lines_kept;
      full = λ p ge lt.
          ap (λ (q : Page). q.words_used) (inner p ge (omega arith)) ∙ page_words p ∙ ground arith;
      last_words =
          ap (λ (q : Page). q.words_used)
            (inner (first + pages - 1) (omega (arith, pos)) (omega (arith, pos)))
          ∙ page_words (first + pages - 1)
          ∙ ground arith;
      kind = λ p ge lt. rw (inner p ge lt) (page_kind p);
      others = λ p out. ground (arith, written p, out);
    }
