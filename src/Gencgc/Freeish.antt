-- ===== src/Gencgc/Freeish.antt =====
-- `gc_find_freeish_pages` finds a run of pages with room for the object, or there is none.
pub mod Grow
pub mod Search
use cl.Common.{
  ℕ, zero, suc, ◌+◌, ◌-◌, ◌*◌, ◌≤◌, ◌<◌, ◌≡◌, refl, arith, ◌⊎◌, inl, inr, Bool, true, false, not,
  ◌&&◌, Bool-cases, ltb, leb, ◌==◌, if◌then◌else◌, Outcome, ok, fault, lost, Returns, Returns-ok,
  ltb→lt,
}
use native.Mathlib.Nat.{mul-le-mul_right}
use cl.Gencgc.{
  GenSpace, DynamicSpace, Most, Candidate, start, too_few, unusable, PageRun, is_free, bytes_used,
  page_extensible_p, is_code, grow, more, candidate, freeish_rounds, freeish_goal, freeish_result,
  gc_find_freeish_pages,
}
use cl.Gencgc.Freeish.Grow.{AllFree}
use cl.Gencgc.Freeish.Search.{IsRun, Searched, Ended, rounds-Ended}

-- What the search ends in: the pages of a run with room enough, and the high water mark; or a
-- loss, and then no run of free pages is large enough.
abbrev pub FreeishFound : GenSpace → DynamicSpace → ℕ → ℕ → ℕ → Bool → ℕ → Outcome PageRun → Type 0
FreeishFound s h restart nbytes page_type single gen (ok r) =
    (bytes : ℕ) × (nbytes ≤ bytes)
    × IsRun s h restart (freeish_goal s nbytes single) (not single) page_type gen r.first_page
        (r.last_page + 1) bytes
    × (r.heap ≡ record h {
      next_free_page =
          if ltb h.next_free_page (r.last_page + 1) then r.last_page + 1 else h.next_free_page;
    })
FreeishFound s h restart nbytes page_type single gen lost =
    (a k : ℕ) → restart ≤ a → a + k ≤ s.page_table_pages → AllFree h a k → k * s.page_bytes < nbytes
FreeishFound s h restart nbytes page_type single gen fault = ⊥

FreeishFound-end :
    (s : GenSpace) (h : DynamicSpace) (restart nbytes page_type : ℕ) (single : Bool) (gen first : ℕ)
    (m : Most)
    → 0 < nbytes
    → Ended s h restart (freeish_goal s nbytes single) (not single) page_type gen nbytes (first, m)
    → FreeishFound s h restart nbytes page_type single gen (freeish_result s h nbytes (first, m))
unfolding freeish_result
FreeishFound-end s h restart nbytes page_type single gen first m pos (inl (enough, run)) =
    let e : ltb m.bytes nbytes ≡ false = ground arith in
    let some_pages : (m.to == 0) ≡ false = ground (arith, run.end) in
    let last : m.to - 1 + 1 ≡ m.to = omega (arith, run.end) in
    rw (e, some_pages, last) (m.bytes, enough, run, refl)
FreeishFound-end s h restart nbytes page_type single gen first m pos (inr (less, at_end, small)) =
    let e : ltb m.bytes nbytes ≡ true = ground arith in
    let past : leb s.page_table_pages (first + 1) ≡ true = ground arith in rw (e, past) fewer
  where
    fewer :
        (a k : ℕ)
        → restart ≤ a
        → a + k ≤ s.page_table_pages
        → AllFree h a k
        → k * s.page_bytes < nbytes
    fewer a zero low inside free = omega arith
    fewer a (suc k) low inside free = omega (arith, small a k low (omega arith) inside free)

-- From a page of the table, and for at least one byte, `gc_find_freeish_pages` finds a run from
-- there on: it starts on a free page or, unless it is for a single object, on a page with room left
-- that is of the type and the generation and has all cards marked; its further pages are free, it
-- ends in the table, and has the bytes asked for; for objects that share pages,
-- those of a region if there are so many; its last page, if it has several, is needed for that. The high water mark of used pages includes it. If
-- the search loses instead, each run of free pages from there on has fewer bytes.
pub gc_find_freeish_pages-FreeishFound :
    (s : GenSpace) (h : DynamicSpace) (restart nbytes page_type : ℕ) (single : Bool) (gen : ℕ)
    → restart ≤ s.page_table_pages
    → 0 < nbytes
    → FreeishFound s h restart nbytes page_type single gen
        (gc_find_freeish_pages s h restart nbytes page_type single gen)
unfolding gc_find_freeish_pages freeish_goal
gc_find_freeish_pages-FreeishFound s h restart nbytes page_type single gen le pos =
    let goal = freeish_goal s nbytes single in
    let multi_goal : nbytes ≤ goal = ground arith in
    let none_yet : Most = record { bytes = 0; from = 0; to = 0 } in
    let fuel : ℕ = s.page_table_pages - restart + 1 in
    let (r, e, end) =
      Returns-ok (Ended s h restart goal (not single) page_type gen nbytes)
        (freeish_rounds fuel s h nbytes goal (not single) page_type gen restart none_yet)
        (rounds-Ended s h restart goal (not single) page_type gen nbytes fuel restart none_yet
          multi_goal (omega arith) (omega arith) le
          (record { run = inl pos; small = λ a k low high. absurd (omega arith) })) in
    rw e (FreeishFound-end s h restart nbytes page_type single gen r.0 r.1 pos end)
