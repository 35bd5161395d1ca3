-- ===== src/MarkRegion/Pages.antt =====
-- Allocation from pages in src/runtime/mark-region.c. What `prepare_pages` does, to zero memory,
-- is not part of the state.
pub mod Accounts
pub mod Claimed
pub mod PreSearch
pub mod SmallFromPages
pub mod Large
pub mod LargeAccounts
use cl.Common.{
  ℕ, zero, suc, ◌+◌, ◌-◌, ◌*◌, ◌/◌, ◌%◌, ◌≡◌, bit_and, bit_or, Bool, true, false, not, ◌&&◌, ◌||◌,
  Option, none, some, ltb, leb, ◌==◌, if◌then◌else◌, Outcome, ok, fault, lost, ◌>>=◌, ◌>>◌,
  gc_assert, first_index, update_range, assign,
}
use cl.MarkRegion.{
  Space, AllocRegion, page_to_line, try_allocate_small, or_end, lines_per_page, unmark_gen,
  copy_mark, encode_gen, empty_region, address_line, mark_gen,
}

-- `struct page`; the scan start is an offset in bytes.
pub record Page : Type 0 where
  pub words_used : ℕ
  pub type_ : ℕ
  pub gen : ℕ
  pub scan_start_offset : ℕ

-- `generations` holds the field `bytes_allocated` of each generation.
pub record Heap : Type 0 where
  pub line_bytemap : ℕ → ℕ
  pub page_table : ℕ → Page
  pub target_pages : ℕ → Bool
  pub generations : ℕ → ℕ
  pub bytes_allocated : ℕ
  pub next_free_page : ℕ
  pub gc_active : Bool

-- `struct allocator_state`
pub record AllocatorState : Type 0 where
  pub page : ℕ
  pub allow_free_pages : Bool

abbrev pub single_object_flag : ℕ
single_object_flag = 16

abbrev pub open_region_page_flag : ℕ
open_region_page_flag = 32

abbrev pub page_type_code : ℕ
page_type_code = 7

abbrev pub page_free_p : Page → Bool
page_free_p p = p.type_ == 0

abbrev pub page_bytes_used : Page → ℕ
page_bytes_used p = p.words_used * 8

abbrev pub words_of : ℕ → ℕ
words_of bytes = bytes / 8

-- The test of a page for small objects, which stands in the search before the lock too.
unfoldable pub suitable : Space → Heap → ℕ → ℕ → Bool → ℕ → Bool
suitable s h nbytes page_type allow_free_pages where_ =
    let p = h.page_table where_ in
    leb (page_bytes_used p + nbytes) s.page_bytes
    && not (h.target_pages where_)
    && ((allow_free_pages && page_free_p p)
        || (p.type_ == page_type && not (p.gen == s.pseudo_static_generation)))

-- The page becomes open, and all of it counts as used.
unfoldable pub claim_page : Space → Heap → ℕ → ℕ → ℕ → (ℕ → ℕ) → Heap
claim_page s h page_type gen where_ lines =
    let claimed : ℕ = s.page_bytes - page_bytes_used (h.page_table where_) in
    record h {
      line_bytemap = lines;
      page_table = assign h.page_table where_ (record {
        words_used = words_of s.page_bytes;
        type_ = bit_or page_type open_region_page_flag;
        gen = 0;
        scan_start_offset = 0;
      });
      generations = assign h.generations gen (h.generations gen + claimed);
      bytes_allocated = h.bytes_allocated + claimed;
      next_free_page = if leb (where_ + 1) h.next_free_page then h.next_free_page else where_ + 1;
    }

-- What a search of pages leaves: the region if there is one, the state and the heap.
pub record Search : Type 0 where
  pub region : Option AllocRegion
  pub start : AllocatorState
  pub heap : Heap

-- The `for` loop of `try_allocate_small_from_pages`, over `n` pages.
unfoldable pub page_rounds : ℕ → Space → Heap → ℕ → ℕ → ℕ → AllocatorState → ℕ → Outcome Search
page_rounds zero s h nbytes page_type gen start where_ =
    ok (record { region = none; start = start; heap = h })
page_rounds (suc n) s h nbytes page_type gen start where_ =
    let next = page_rounds n s h nbytes page_type gen start (where_ + 1) in
    let try =
      (try_allocate_small s h.gc_active nbytes h.line_bytemap (page_to_line s where_)
          (page_to_line s (where_ + 1))
        >>= λ r. elim r.0 [
          | none ↦ next
          | some region ↦ ok (record {
            region = some region;
            start = record start { page = where_ + 1 };
            heap = claim_page s h page_type gen where_ r.1;
          })
        ]) in
    if suitable s h nbytes page_type start.allow_free_pages where_ then try else next

unfoldable pub try_allocate_small_from_pages :
    Space → Heap → ℕ → ℕ → ℕ → AllocatorState → ℕ → Outcome Search
try_allocate_small_from_pages s h nbytes page_type gen start end =
    gc_assert (not (gen == s.pseudo_static_generation + 1))
    >> (page_rounds (end - start.page) s h nbytes page_type gen start start.page >>= λ r.
        elim r.region [
          | some region ↦ ok r
          | none ↦
              let anywhere : AllocatorState = record { page = 0; allow_free_pages = true } in
              let again = page_rounds end s h nbytes page_type gen anywhere 0 in
              if start.allow_free_pages then ok r else again
        ])

unfoldable pub find_free_page : Heap → ℕ → ℕ → Option ℕ
find_free_page h start end = first_index (λ p. page_free_p (h.page_table p)) (end - start) start

unfoldable pub find_used_page : Heap → ℕ → ℕ → ℕ
find_used_page h start end =
    or_end (first_index (λ p. not (page_free_p (h.page_table p))) (end - start) start) end

-- The result of `try_allocate_large`: the page, or none for -1, and what is stored in `largest_hole`.
pub record LargeSearch : Type 0 where
  pub page : Option ℕ
  pub largest_hole : Option ℕ
  pub start : AllocatorState
  pub heap : Heap

unfoldable pub large_page : Space → ℕ → ℕ → ℕ → ℕ → ℕ → ℕ → Page
large_page s nbytes page_type gen chunk_start last_page p =
    let remainder : ℕ = nbytes % s.page_bytes in
    record {
      words_used = words_of (if p == last_page && ltb 0 remainder then remainder else s.page_bytes);
      type_ = bit_or single_object_flag page_type;
      gen = gen;
      scan_start_offset = s.page_bytes * (p - chunk_start);
    }

unfoldable pub claim_large : Space → Heap → ℕ → ℕ → ℕ → ℕ → ℕ → Heap
claim_large s h nbytes page_type gen chunk_start pages_needed =
    let last_page : ℕ = chunk_start + pages_needed - 1 in
    record h {
      page_table =
          update_range (λ p _. large_page s nbytes page_type gen chunk_start last_page p)
            (last_page + 1 - chunk_start) chunk_start h.page_table;
      generations = assign h.generations gen (h.generations gen + nbytes);
      bytes_allocated = h.bytes_allocated + nbytes;
      next_free_page =
          if leb (last_page + 1) h.next_free_page then h.next_free_page else last_page + 1;
    }

abbrev pub pages_of : Space → ℕ → ℕ
pages_of s nbytes = (nbytes + (s.page_bytes - 1)) / s.page_bytes

-- The loop of `try_allocate_large`, on fuel for its rounds.
unfoldable pub large_rounds :
    ℕ → Space → Heap → ℕ → ℕ → ℕ → AllocatorState → ℕ → ℕ → ℕ → Outcome LargeSearch
large_rounds zero s h nbytes page_type gen start end where_ largest_hole_seen = fault
large_rounds (suc fuel) s h nbytes page_type gen start end where_ largest_hole_seen =
    elim (find_free_page h where_ end) [
      | none ↦ ok (record { page = none; largest_hole = none; start = start; heap = h })
      | some chunk_start ↦
          let chunk_end = find_used_page h chunk_start end in
          let hole_size : ℕ = chunk_end - chunk_start in
          let seen = if ltb largest_hole_seen hole_size then hole_size else largest_hole_seen in
          let next = large_rounds fuel s h nbytes page_type gen start end chunk_end seen in
          if leb (pages_of s nbytes) hole_size
          then ok (record {
            page = some chunk_start;
            largest_hole = none;
            start = record start { page = chunk_start + pages_of s nbytes };
            heap = claim_large s h nbytes page_type gen chunk_start (pages_of s nbytes);
          })
          else if chunk_end == end
          then ok (record {
            page = none;
            largest_hole = some (seen * s.page_bytes);
            start = start;
            heap = h;
          })
          else next
    ]

unfoldable pub try_allocate_large :
    Space → Heap → ℕ → ℕ → ℕ → AllocatorState → ℕ → Outcome LargeSearch
try_allocate_large s h nbytes page_type gen start end =
    gc_assert (not (gen == s.pseudo_static_generation + 1))
    >> large_rounds (end - start.page + 1) s h nbytes page_type gen start end start.page 0

-- `mr_update_closed_region`, for a region on page `the_page`.
unfoldable pub close_line : ℕ → ℕ → ℕ
close_line gen line = if unmark_gen line == 0 then copy_mark line (encode_gen gen) else line

unfoldable pub mr_update_closed_region :
    Space → Heap → AllocRegion → ℕ → Outcome (Heap × AllocRegion)
mr_update_closed_region s h region gen =
    let the_page : ℕ = (region.start_addr - s.dynamic_space_start) / s.page_bytes in
    let p = h.page_table the_page in
    if bit_and p.type_ open_region_page_flag == 0
    then lost
    else ok (
      record h {
        line_bytemap =
            update_range (λ _ l. close_line gen l) (lines_per_page s) (page_to_line s the_page)
              h.line_bytemap;
        page_table =
            assign h.page_table the_page
              (record p { type_ = bit_and p.type_ (255 - open_region_page_flag) });
      },
      empty_region,
    )
