-- ===== src/MarkRegion/Pages/SmallFromPages.antt =====
-- What `try_allocate_small_from_pages` finds.
use cl.Common.{
  ℕ, zero, suc, ◌+◌, ◌-◌, ◌%◌, ◌≤◌, ◌<◌, ◌≡◌, ◌≢◌, refl, sym, arith, inl, inr, Bool, true, false,
  Bool-cases, Option, none, some, ◌==◌, if◌then◌else◌, compare_cases, Outcome, ok, Returns,
  Returns-mono, Returns->>=,
}
use mathlib.Core.Path.{subst}
use native.Mathlib.Nat.{add-mul}
use cl.MarkRegion.{Space, AllocRegion, page_to_line, lines_per_page, lines_of}
use cl.MarkRegion.Small.{Claims, Allocated, try_allocate_small-Allocated}
use cl.MarkRegion.Runs.{NoRun}
use cl.MarkRegion.Pages.{
  Heap, AllocatorState, Search, suitable, claim_page, page_rounds, try_allocate_small_from_pages,
}
use cl.MarkRegion.Pages.Claimed.{
  Suits, PageClaimed, suitable-Suits, Suits-suitable, claim_page-PageClaimed,
}
use cl.MarkRegion.Pages.Accounts.{IsAccounted, claim_page-IsAccounted}

next_page : (s : Space) (p : ℕ) → page_to_line s p ≤ page_to_line s (p + 1)
next_page s p = rw (add-mul p 1 (lines_per_page s)) (omega arith)

module _ (s : Space) (h : Heap) (nbytes page_type gen : ℕ) where
  -- The region stands on a page that suits the object, and the heap has the page claimed.
  pub record Placed (allow : Bool) (from end : ℕ) (region : AllocRegion) (r : Search) : Type 0 where
    pub page : ℕ
    pub after : ℕ → ℕ
    pub low : from ≤ page
    pub high : page < end
    pub suits : Suits s h nbytes page_type allow page
    pub claims :
        Claims s h.gc_active nbytes h.line_bytemap
          (page_to_line s page)
          (page_to_line s (page + 1))
          region
          after
    pub heap : r.heap ≡ claim_page s h page_type gen page after
    pub claimed : PageClaimed s h page_type gen page after r.heap
    pub start : r.start.page ≡ page + 1

  -- No suitable page has a run of enough free lines.
  abbrev pub Exhausted : Bool → ℕ → ℕ → Type 0
  Exhausted allow from end =
      (p : ℕ)
      → from ≤ p
      → p < end
      → Suits s h nbytes page_type allow p
      → NoRun h.line_bytemap (lines_of nbytes) (page_to_line s p) (page_to_line s (p + 1))

  abbrev pub Found : Bool → ℕ → ℕ → Option AllocRegion → Search → Type 0
  Found allow from end none r = (r.heap ≡ h) × Exhausted allow from end
  Found allow from end (some region) r = Placed allow from end region r

  Found-later :
      (allow : Bool) (from end : ℕ) (o : Option AllocRegion) (r : Search)
      → (Suits s h nbytes page_type allow from
          → NoRun h.line_bytemap
              (lines_of nbytes)
              (page_to_line s from)
              (page_to_line s (from + 1)))
      → Found allow (from + 1) end o r
      → Found allow from end o r
  Found-later allow from end none r here (same, later) = (same, λ p ge lt fits. at p ge lt fits)
    where
      at : Exhausted allow from end
      at p ge lt fits = elim (compare_cases p from) [
        | inl e ↦
            subst
              (λ q.
                NoRun h.line_bytemap (lines_of nbytes) (page_to_line s q) (page_to_line s (q + 1)))
              (sym e) (here (rw e at fits))
        | inr (inl less) ↦ absurd (omega arith)
        | inr (inr more) ↦ later p (omega arith) lt fits
      ]
  Found-later allow from end (some region) r here p = record {
    page = p.page;
    after = p.after;
    low = omega (arith, p.low);
    high = p.high;
    suits = p.suits;
    claims = p.claims;
    heap = p.heap;
    claimed = p.claimed;
    start = p.start;
  }

  page_rounds-Found :
      (n : ℕ) (start : AllocatorState) (from end : ℕ)
      → from + n ≡ end
      → Returns
          (page_rounds n s h nbytes page_type gen start from)
          (λ r. Found start.allow_free_pages from end r.region r)
  unfolding page_rounds
  page_rounds-Found zero start from end e = (refl, λ p ge lt fits. absurd (omega arith))
  page_rounds-Found (suc n) start from end e =
      let rest = page_rounds-Found n start (from + 1) end (omega arith) in
      elim (Bool-cases (suitable s h nbytes page_type start.allow_free_pages from)) [
        | inl fits ↦ rw fits (
            Returns->>=
              (Allocated s h.gc_active nbytes h.line_bytemap (page_to_line s from)
                (page_to_line s (from + 1)))
              _ _ _
              (try_allocate_small-Allocated s h.gc_active nbytes h.line_bytemap
                (page_to_line s from) (page_to_line s (from + 1)) (next_page s from))
              (tried fits rest))
        | inr unfit ↦ rw unfit (
            Returns-mono _ _ _
              (λ r. Found-later start.allow_free_pages from end r.region r (λ fits.
                let fit = Suits-suitable s h nbytes page_type start.allow_free_pages from fits in
                cc))
              rest)
      ]
    where
      tried :
          suitable s h nbytes page_type start.allow_free_pages from ≡ true
          → Returns
              (page_rounds n s h nbytes page_type gen start (from + 1))
              (λ r. Found start.allow_free_pages (from + 1) end r.region r)
          → (r : Option AllocRegion × (ℕ → ℕ))
          → Allocated s h.gc_active nbytes h.line_bytemap
              (page_to_line s from)
              (page_to_line s (from + 1))
              r
          → Returns
              (elim r.0 as (λ _. Outcome Search) [
                | none ↦ page_rounds n s h nbytes page_type gen start (from + 1)
                | some region ↦ ok (record {
                  region = some region;
                  start = record start { page = from + 1 };
                  heap = claim_page s h page_type gen from r.1;
                })
              ])
              (λ r. Found start.allow_free_pages from end r.region r)
      tried fits rest (none, after) (same, no_run) =
          Returns-mono _ _ _
            (λ r. Found-later start.allow_free_pages from end r.region r (λ _. no_run)) rest
      tried fits rest (some region, after) c = record {
        page = from;
        after = after;
        low = omega arith;
        high = omega arith;
        suits = suitable-Suits s h nbytes page_type start.allow_free_pages from fits;
        claims = c;
        heap = refl;
        claimed = claim_page-PageClaimed s h page_type gen from after;
        start = refl;
      }

  Suits-anywhere :
      (allow : Bool) (p : ℕ)
      → Suits s h nbytes page_type allow p
      → Suits s h nbytes page_type true p
  Suits-anywhere allow p f = record {
    room = f.room;
    not_target = f.not_target;
    kind = elim f.kind [ inl free ↦ inl (refl, free.1) | inr same ↦ inr same ];
  }

  -- What the allocation of a small object gives: pages before `from` are not looked at where the
  -- search is the last one.
  abbrev pub Result : ℕ → ℕ → Option AllocRegion → Search → Type 0
  Result from end none r = (r.heap ≡ h) × Exhausted true from end
  Result from end (some region) r = Placed true 0 end region r

  Result-Found :
      (allow : Bool) (from end : ℕ) (region : AllocRegion) (r : Search)
      → Placed allow from end region r
      → Placed true 0 end region r
  Result-Found allow from end region r p = record {
    page = p.page;
    after = p.after;
    low = omega arith;
    high = p.high;
    suits = Suits-anywhere allow p.page p.suits;
    claims = p.claims;
    heap = p.heap;
    claimed = p.claimed;
    start = p.start;
  }

  first_from : AllocatorState → ℕ
  first_from start = if start.allow_free_pages then start.page else 0

  anywhere_Result :
      (from end : ℕ) (o : Option AllocRegion) (r : Search) → Found true 0 end o r → Result 0 end o r
  anywhere_Result from end none r f = f
  anywhere_Result from end (some region) r f = f

  searched :
      (start : AllocatorState) (end : ℕ) (allow : Bool) (o : Option AllocRegion) (r : Search)
      → r.region ≡ o
      → Found allow start.page end o r
      → Returns
          (elim o as (λ _. Outcome Search) [
            | some region ↦ ok r
            | none ↦
                if allow
                then ok r
                else page_rounds end s h nbytes page_type gen
                    (record { page = 0; allow_free_pages = true })
                    0
          ])
          (λ t. Result (if allow then start.page else 0) end t.region t)
  searched start end allow (some region) r e f =
      subst (λ o. Result (if allow then start.page else 0) end o r) (sym e)
        (Result-Found allow start.page end region r f)
  searched start end true none r e f = subst (λ o. Result start.page end o r) (sym e) f
  searched start end false none r e f =
      Returns-mono _ _ _ (λ t. anywhere_Result 0 end t.region t)
        (page_rounds-Found end (record { page = 0; allow_free_pages = true }) 0 end (omega arith))

-- For a generation other than the scratch one, and a first page that is not behind the last,
-- `try_allocate_small_from_pages` always returns. A region stands on a page that has room for the
-- object, is no target page, and is free or of the object's type and not pseudo-static, on lines
-- that were free and are now claimed. That page is now full, open and of generation 0, what was not
-- used of it is added to the bytes of the generation and to the total, and the other pages and
-- generations are unchanged. If there is no region, the heap is unchanged, and no page with these
-- properties has a run of enough free lines: none from the first page on if free pages were allowed
-- from the start, and none at all if they were not.
pub try_allocate_small_from_pages-Result :
    (s : Space) (h : Heap) (nbytes page_type gen : ℕ) (start : AllocatorState) (end : ℕ)
    → gen ≢ s.pseudo_static_generation + 1
    → start.page ≤ end
    → Returns (try_allocate_small_from_pages s h nbytes page_type gen start end) (λ r.
      Result s h nbytes page_type gen
        (if start.allow_free_pages then start.page else 0)
        end
        r.region
        r)
unfolding try_allocate_small_from_pages
try_allocate_small_from_pages-Result s h nbytes page_type gen start end good le =
    let accepted : (gen == s.pseudo_static_generation + 1) ≡ false = ground (arith, good) in
    rw accepted (
      Returns->>=
        (λ r. Found s h nbytes page_type gen start.allow_free_pages start.page end r.region r) _ _ _
        (page_rounds-Found s h nbytes page_type gen (end - start.page) start start.page end
          (omega arith))
        (λ r f.
          searched s h nbytes page_type gen start end start.allow_free_pages r.region r refl f))

kept_accounts :
    (s : Space) (n : ℕ) (h : Heap) (nbytes page_type gen from end : ℕ) (o : Option AllocRegion)
    (r : Search)
    → s.page_bytes % 8 ≡ 0
    → gen < s.pseudo_static_generation + 2
    → end ≤ n
    → IsAccounted s n h
    → Result s h nbytes page_type gen from end o r
    → IsAccounted s n r.heap
kept_accounts s n h nbytes page_type gen from end none r words lt le a (same, _) =
    subst (IsAccounted s n) (sym same) a
kept_accounts s n h nbytes page_type gen from end (some region) r words lt le a p =
    subst (IsAccounted s n) (sym p.heap)
      (claim_page-IsAccounted s n h page_type gen p.page p.after words lt (omega (arith, p.high)) a)

-- Where pages are whole words, the accounts of the heap still hold afterwards: the bytes used on
-- all pages and those of all generations are the bytes allocated.
pub try_allocate_small_from_pages-IsAccounted :
    (s : Space) (n : ℕ) (h : Heap) (nbytes page_type gen : ℕ) (start : AllocatorState) (end : ℕ)
    → s.page_bytes % 8 ≡ 0
    → gen ≤ s.pseudo_static_generation
    → start.page ≤ end
    → end ≤ n
    → IsAccounted s n h
    → Returns
        (try_allocate_small_from_pages s h nbytes page_type gen start end)
        (λ r. IsAccounted s n r.heap)
try_allocate_small_from_pages-IsAccounted s n h nbytes page_type gen start end words low le inside
      a =
    Returns-mono _ _ _
      (λ r. kept_accounts s n h nbytes page_type gen _ end r.region r words (omega arith) inside a)
      (try_allocate_small_from_pages-Result s h nbytes page_type gen start end (λ e. omega arith)
        le)
