-- ===== src/MarkRegion/Tests.antt =====
-- Concrete runs of the collector that marks lines, and the theorems at concrete inputs.
use cl.Common.{
  ◌+◌, ◌*◌, ◌≡◌, refl, arith, inl, inr, false, Bool-cases, ◌==◌, if◌then◌else◌, ok, ◌>>=◌, Returns,
  update_range, first_index,
}
use cl.MarkRegion.{Space, try_allocate_small, find_free_line, find_used_line}
use cl.MarkRegion.Small.{Allocated, try_allocate_small-Allocated}
use cl.MarkRegion.Pages.PreSearch.{
  line_rounds, has_space, pre_search_rounds, pre_search_for_small_space,
  pre_search_for_small_space-equivalent,
}
use cl.MarkRegion.Pages.{suitable}
use cl.MarkRegion.Pages.{
  Page, Heap, AllocatorState, try_allocate_small_from_pages, try_allocate_large,
}
use cl.MarkRegion.Pages.Accounts.{IsAccounted}
use cl.MarkRegion.Pages.SmallFromPages.{Result, try_allocate_small_from_pages-Result}
use cl.MarkRegion.Pages.Large.{LargeFound, try_allocate_large-LargeFound}
use cl.MarkRegion.Pages.LargeAccounts.{try_allocate_large-IsAccounted}
use cl.MarkRegion.Sweep.{
  Collection, count_dead, count_dead_bytes, swept_line, sweep_small_page, sweep_page, sweep_range,
  sweep_claims, sweep_lines,
}
use cl.MarkRegion.Sweep.Counts.{count_used}
use cl.MarkRegion.Sweep.Accounts.{IsCounted, SweptCount, sweep_page-SweptCount}
use cl.MarkRegion.Sweep.Claims.{Unswept, sweep_lines-Unswept}

-- Two lines on a page.
abbrev space : Space
space = record { dynamic_space_start = 0; page_bytes = 256; pseudo_static_generation = 6 }

abbrev free_page : Page
free_page = record { words_used = 0; type_ = 0; gen = 0; scan_start_offset = 0 }

-- Line 0 is in use, and the pages from 1 on are free.
abbrev heap : Heap
heap = record {
  line_bytemap = λ l. if l == 0 then 1 else 0;
  page_table = λ p.
      if p == 0
      then record { words_used = 16; type_ = 1; gen = 0; scan_start_offset = 0 }
      else free_page;
  target_pages = λ _. false;
  generations = λ g. if g == 0 then 128 else 0;
  bytes_allocated = 128;
  next_free_page = 1;
  gc_active = false;
}

heap-IsAccounted : IsAccounted space 4 heap
heap-IsAccounted = record {
  pages = refl;
  generations = refl;
  free_empty = λ p e. elim (Bool-cases (p == 0)) [
    | inl a ↦ absurd (ground (arith, a, (rw a at e)))
    | inr a ↦ rw a refl
  ];
  within =
      λ p. elim (Bool-cases (p == 0)) [ inl a ↦ rw a (omega arith) | inr a ↦ rw a (omega arith) ];
}

abbrev from_first : AllocatorState
from_first = record { page = 0; allow_free_pages = false }

try_allocate_small-Allocated_example :
    Returns
      (try_allocate_small space false 100 heap.line_bytemap 0 4)
      (Allocated space false 100 heap.line_bytemap 0 4)
try_allocate_small-Allocated_example =
    try_allocate_small-Allocated space false 100 heap.line_bytemap 0 4 (omega arith)

try_allocate_small_from_pages-Result_example :
    Returns
      (try_allocate_small_from_pages space heap 100 1 0 from_first 4)
      (λ r. Result space heap 100 1 0 0 4 r.region r)
try_allocate_small_from_pages-Result_example =
    try_allocate_small_from_pages-Result space heap 100 1 0 from_first 4 (λ e. omega arith)
      (omega arith)

try_allocate_large-LargeFound_example :
    Returns
      (try_allocate_large space heap 400 1 0 from_first 4)
      (λ r. LargeFound space heap 400 1 0 4 0 r.page r)
try_allocate_large-LargeFound_example =
    try_allocate_large-LargeFound space heap 400 1 0 from_first 4 (omega arith) (omega arith)
      (λ e. omega arith) (omega arith)

try_allocate_large-IsAccounted_example :
    Returns (try_allocate_large space heap 400 1 0 from_first 4) (λ r. IsAccounted space 4 r.heap)
try_allocate_large-IsAccounted_example =
    try_allocate_large-IsAccounted space 4 heap 400 1 0 from_first 4 refl refl (omega arith)
      (omega arith) (omega arith) (omega arith) (omega arith) heap-IsAccounted

-- Generation 1 is collected; on page 0 line 0 is marked and line 1 is dead.
abbrev collection : Collection
collection = record {
  heap = record heap {
    line_bytemap = λ l. if l == 0 then 18 else if l == 1 then 2 else 0;
    page_table = λ p.
        if p == 0
        then record { words_used = 32; type_ = 1; gen = 0; scan_start_offset = 0 }
        else free_page;
  };
  mark_bitmap = λ l. if l == 0 then 5 else 0;
  allocation_bitmap = λ l. if l == 0 then 7 else 0;
  need_to_zero = λ _. false;
  generation_to_collect = 1;
}

collection-IsCounted : IsCounted space collection.heap 0
unfolding count_used
collection-IsCounted = refl

sweep_page-SweptCount_example : SweptCount space collection 0 (sweep_page space collection 0)
sweep_page-SweptCount_example =
    sweep_page-SweptCount space collection 0 (omega arith) (λ i ge lt. ground arith)
      collection-IsCounted

sweep_lines-Unswept_example : Unswept space 0 collection (sweep_lines space 1 collection)
sweep_lines-Unswept_example = sweep_lines-Unswept space 1 collection

-- The last of one page is not swept, and of two pages the first is.
sweep_lines_one : (sweep_lines space 1 collection >>= λ c. ok (c.heap.line_bytemap 1)) ≡ ok 2
unfolding sweep_lines sweep_claims sweep_range
sweep_lines_one = refl

sweep_lines_two :
    (sweep_lines space 2 collection >>= λ c.
    ok (c.heap.line_bytemap 0 * 100 + c.heap.line_bytemap 1))
    ≡ ok 200
unfolding sweep_lines sweep_claims sweep_range sweep_page sweep_small_page count_dead_bytes
    count_dead swept_line update_range
sweep_lines_two = refl

pre_search_for_small_space-equivalent_example :
    Returns (pre_search_for_small_space space heap 100 1 from_first 4) (λ state.
      try_allocate_small_from_pages space heap 100 1 0 state 4
      ≡ try_allocate_small_from_pages space heap 100 1 0 from_first 4)
pre_search_for_small_space-equivalent_example =
    pre_search_for_small_space-equivalent space heap 100 1 0 from_first 4 (omega arith)

pre_search_stops :
    (pre_search_for_small_space space heap 100 1 from_first 4 >>= λ state. ok (state.page)) ≡ ok 0
unfolding pre_search_for_small_space pre_search_rounds has_space line_rounds suitable find_free_line
    find_used_line first_index
pre_search_stops = refl
