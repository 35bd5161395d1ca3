-- ===== src/MarkRegion/Pages/Large.antt =====
-- What `try_allocate_large` finds.
use cl.Common.{
  ℕ, zero, suc, ◌+◌, ◌-◌, ◌≤◌, ◌<◌, ◌≡◌, ◌≢◌, refl, arith, inl, inr, false, Bool-cases, Option,
  Option-cases, none, some, leb, leb→le, ◌==◌, Returns, Returns-mono, FirstIndex,
  first_index-FirstIndex,
}
use mathlib.Core.Path.{subst}
use native.Mathlib.Nat.{le-div_iff_mul-le}
use cl.MarkRegion.{Space, find_used_line}
use cl.MarkRegion.Runs.{Chunk, chunk, find_used_line-Stop, NoRun, too_small-NoRun, NoRun-end}
use cl.MarkRegion.Pages.Claimed.{LargeClaimed, claim_large-LargeClaimed}
use cl.MarkRegion.Pages.{
  Heap, AllocatorState, LargeSearch, page_free_p, find_free_page, find_used_page, pages_of,
  claim_large, large_rounds, try_allocate_large,
}

-- 0 for the free pages.
abbrev pub types : Heap → ℕ → ℕ
types h p = (h.page_table p).type_

module _ (s : Space) (h : Heap) (nbytes page_type gen end : ℕ) where
  -- The pages are the first of a run of free ones.
  pub record LargePlaced (from : ℕ) (first : ℕ) (r : LargeSearch) : Type 0 where
    pub low : from ≤ first
    pub high : first + pages_of s nbytes ≤ end
    pub free : (p : ℕ) → first ≤ p → p < first + pages_of s nbytes → types h p ≡ 0
    pub heap : r.heap ≡ claim_large s h nbytes page_type gen first (pages_of s nbytes)
    pub claimed : LargeClaimed s h nbytes page_type gen first (pages_of s nbytes) r.heap
    pub start : r.start.page ≡ first + pages_of s nbytes

  abbrev pub LargeFound : ℕ → Option ℕ → LargeSearch → Type 0
  LargeFound from none r = (r.heap ≡ h) × NoRun (types h) (pages_of s nbytes) from end
  LargeFound from (some first) r = LargePlaced from first r

  free_pages-Chunk :
      (from first : ℕ)
      → from ≤ end
      → FirstIndex (λ p. page_free_p (h.page_table p)) (end - from) from (some first)
      → Chunk (types h) from end first (find_used_page h first end)
  unfolding find_used_page find_used_line
  free_pages-Chunk from first le (ge, lt, hit, before) =
      chunk (types h) from end first (find_used_line (types h) first end)
        (record { low = ge; high = omega arith; passed = before; found = λ _. hit })
        (find_used_line-Stop (types h) first end (omega arith))

  none_free :
      (from : ℕ)
      → 0 < pages_of s nbytes
      → FirstIndex (λ p. page_free_p (h.page_table p)) (end - from) from none
      → NoRun (types h) (pages_of s nbytes) from end
  none_free from pos absent a ge le = (a, omega arith, omega arith, ground (arith, absent a ge))

  LargeFound-wider :
      (from first last : ℕ) (o : Option ℕ) (r : LargeSearch)
      → Chunk (types h) from end first last
      → last - first < pages_of s nbytes
      → LargeFound last o r
      → LargeFound from o r
  LargeFound-wider from first last none r c small (same, no_run) =
      (same, too_small-NoRun (types h) (pages_of s nbytes) end from first last c small no_run)
  LargeFound-wider from first last (some p) r c small f = record {
    low = omega (arith, c.low, c.order, f.low);
    high = f.high;
    free = f.free;
    heap = f.heap;
    claimed = f.claimed;
    start = f.start;
  }

  placed :
      (from first last : ℕ) (start : AllocatorState)
      → Chunk (types h) from end first last
      → pages_of s nbytes ≤ last - first
      → 0 < pages_of s nbytes
      → LargePlaced from first (record {
        page = some first;
        largest_hole = none;
        start = record start { page = first + pages_of s nbytes };
        heap = claim_large s h nbytes page_type gen first (pages_of s nbytes);
      })
  placed from first last start c large pos = record {
    low = c.low;
    high = omega (arith, c.order, c.high);
    free = λ p ge lt. c.free p ge (omega (arith, c.order));
    heap = refl;
    claimed = claim_large-LargeClaimed s h nbytes page_type gen first (pages_of s nbytes) pos;
    start = refl;
  }

  index :
      (from : ℕ) (o : Option ℕ)
      → find_free_page h from end ≡ o
      → FirstIndex (λ p. page_free_p (h.page_table p)) (end - from) from o
  unfolding find_free_page
  index from o e =
      subst (FirstIndex (λ p. page_free_p (h.page_table p)) (end - from) from) e
        (first_index-FirstIndex _ (end - from) from)

  before_end : (last : ℕ) → (last == end) ≡ false → last ≢ end
  before_end last e f = ground arith

  large_rounds-LargeFound :
      (fuel : ℕ) (start : AllocatorState) (from seen : ℕ)
      → 0 < pages_of s nbytes
      → from ≤ end
      → end - from < fuel
      → Returns
          (large_rounds fuel s h nbytes page_type gen start end from seen)
          (λ r. LargeFound from r.page r)
  unfolding large_rounds
  large_rounds-LargeFound zero start from seen pos le lt = absurd (omega arith)
  large_rounds-LargeFound (suc fuel) start from seen pos le lt =
      elim (Option-cases (find_free_page h from end)) [
        | inl e ↦ rw (Returns, e) (refl, none_free from pos (index from none e))
        | inr (first, e) ↦
            let at = index from (some first) e in
            let c = free_pages-Chunk from first le at in
            let last = find_used_page h first end in
            elim (Bool-cases (leb (pages_of s nbytes) (last - first))) [
              | inl large ↦
                  rw (Returns, e, large) (placed from first last start c (leb→le _ _ large) pos)
              | inr small ↦
                  let less : last - first < pages_of s nbytes = ground arith in
                  elim (Bool-cases (last == end)) [
                    | inl at_end ↦
                        rw (Returns, e, small, at_end)
                          (
                            refl,
                            let same : last ≡ end = ground arith in
                                too_small-NoRun (types h) (pages_of s nbytes) end from first last c
                                  less (rw same (NoRun-end (types h) (pages_of s nbytes) end pos)),
                          )
                    | inr more ↦
                        rw (Returns, e, small, more)
                          (Returns-mono _ _ _
                            (λ r. LargeFound-wider from first last r.page r c less)
                            (large_rounds-LargeFound fuel start last _ pos c.high (
                              omega
                                (arith, at.0, at.1, c.not_empty, c.high, before_end last more))))
                  ]
            ]
      ]

pub pages_of-pos : (s : Space) (nbytes : ℕ) → 0 < s.page_bytes → 0 < nbytes → 0 < pages_of s nbytes
pages_of-pos s nbytes page pos = (le-div_iff_mul-le page).1 (omega arith)

-- For an object of at least a byte, a generation other than the scratch one and a first page that
-- is not behind the last, `try_allocate_large` always returns. A page is the first of a run of free
-- pages that hold the object. Exactly these are claimed: each is a full page of the generation, of
-- the type of a single object, with its distance from the first as scan start, but for the words of
-- the last one, which are what is left of the object; lines and all other pages are unchanged, and
-- the bytes of the object are added to the generation and to the total. If there is no such page,
-- the heap is unchanged and there is no run of enough free pages from the first page on.
pub try_allocate_large-LargeFound :
    (s : Space) (h : Heap) (nbytes page_type gen : ℕ) (start : AllocatorState) (end : ℕ)
    → 0 < s.page_bytes
    → 0 < nbytes
    → gen ≢ s.pseudo_static_generation + 1
    → start.page ≤ end
    → Returns
        (try_allocate_large s h nbytes page_type gen start end)
        (λ r. LargeFound s h nbytes page_type gen end start.page r.page r)
unfolding try_allocate_large
try_allocate_large-LargeFound s h nbytes page_type gen start end page pos good le =
    let accepted : (gen == s.pseudo_static_generation + 1) ≡ false = ground (arith, good) in
    rw accepted (
      large_rounds-LargeFound s h nbytes page_type gen end (end - start.page + 1) start start.page 0
        (pages_of-pos s nbytes page pos) le (omega arith))
