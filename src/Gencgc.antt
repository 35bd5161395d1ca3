-- ===== src/Gencgc.antt =====
-- src/runtime/gencgc.c with gencgc-impl.h: the page table of the generational collector and the
-- search for space. The page table and the card marks are functions of the index, memory itself
-- and its zeroing are not part of the state.
pub mod Freeish
pub mod Release
pub mod Balance
pub mod Oldspace
pub mod Scratch
pub mod Counts
pub mod Regions
pub mod LargeBalance
pub mod Large
pub mod Collection
pub mod FreeLarge
mod Tests
use cl.Common.{
  ℕ, zero, suc, ◌+◌, ◌-◌, ◌*◌, ◌/◌, bit_and, Bool, true, false, not, ◌&&◌, ltb, leb, ◌==◌,
  if◌then◌else◌, Outcome, ok, fault, lost, ◌>>=◌, ◌>>◌, gc_assert, update_range, assign,
}

-- DYNAMIC_SPACE_START, the number of pages and of generations, the constants of the build, and
-- `gencgc_alloc_granularity`. The test of a row of card marks is generated by the build.
pub record GenSpace : Type 0 where
  pub dynamic_space_start : ℕ
  pub page_bytes : ℕ
  pub page_table_pages : ℕ
  pub num_generations : ℕ
  pub alloc_granularity : ℕ
  pub card_bytes : ℕ
  pub card_table_mask : ℕ
  pub cardseq_all_marked_nonsticky : (ℕ → ℕ) → ℕ → Bool

-- `struct page`; the scan start is an offset in bytes.
pub record Pte : Type 0 where
  pub scan_start_offset : ℕ
  pub need_zerofill : Bool
  pub words_used : ℕ
  pub type_ : ℕ
  pub gen : ℕ

-- `struct new_area`
pub record NewArea : Type 0 where
  pub page : ℕ
  pub offset : ℕ
  pub size : ℕ

-- The state of the allocator. `generations` holds the field `bytes_allocated` of each generation.
pub record DynamicSpace : Type 0 where
  pub page_table : ℕ → Pte
  pub gc_page_pins : ℕ → ℕ
  pub gc_card_mark : ℕ → ℕ
  pub generations : ℕ → ℕ
  pub bytes_allocated : ℕ
  pub next_free_page : ℕ
  pub alloc_start_pages : ℕ → ℕ
  pub max_alloc_start_page : ℕ
  pub new_areas : ℕ → NewArea
  pub new_areas_index : ℕ
  pub record_new_regions_below : ℕ

abbrev pub boxed : ℕ
boxed = 2

abbrev pub mixed : ℕ
mixed = 3

abbrev pub small_mixed : ℕ
small_mixed = 4

abbrev pub code : ℕ
code = 7

abbrev pub single_object : ℕ
single_object = 16

abbrev pub is_code : ℕ → Bool
is_code page_type = bit_and page_type 15 == code

abbrev pub is_free : Pte → Bool
is_free p = p.type_ == 0

abbrev pub bytes_used : Pte → ℕ
bytes_used p = p.words_used * 8

abbrev pub page_address : GenSpace → ℕ → ℕ
page_address s p = s.dynamic_space_start + p * s.page_bytes

abbrev pub page_to_card_index : GenSpace → ℕ → ℕ
page_to_card_index s p = bit_and (page_address s p / s.card_bytes) s.card_table_mask

-- The type and the generation are compared as one number of 16 bits.
abbrev pub page_extensible_p : GenSpace → DynamicSpace → ℕ → ℕ → ℕ → Bool
page_extensible_p s h index gen page_type =
    (h.page_table index).type_ == page_type
    && (h.page_table index).gen == gen
    && s.cardseq_all_marked_nonsticky h.gc_card_mark (page_to_card_index s index)

-- The free pages from `last_page` on are taken until there are `goal` bytes.
unfoldable pub grow : ℕ → GenSpace → DynamicSpace → ℕ → ℕ → ℕ → ℕ × ℕ
grow zero s h goal last_page bytes_found = (last_page, bytes_found)
grow (suc fuel) s h goal last_page bytes_found =
    let next = grow fuel s h goal (last_page + 1) (bytes_found + s.page_bytes) in
    if ltb bytes_found goal && is_free (h.page_table last_page) && ltb last_page s.page_table_pages
    then next
    else (last_page, bytes_found)

-- `most_bytes_found`, `most_bytes_found_from` and `most_bytes_found_to`
pub record Most : Type 0 where
  pub bytes : ℕ
  pub from : ℕ
  pub to : ℕ

unfoldable pub more : Most → ℕ → ℕ → ℕ → Most
more most bytes_found first_page last_page =
    if ltb most.bytes bytes_found
    then record { bytes = bytes_found; from = first_page; to = last_page }
    else most

-- What a page is for the search: the start of a run, with some bytes; a page with bytes that are
-- too few; or no use.
pub data Candidate : Type 0 where
  start : ℕ → Candidate
  too_few : ℕ → Candidate
  unusable : Candidate

unfoldable pub candidate : GenSpace → DynamicSpace → ℕ → Bool → ℕ → ℕ → ℕ → Candidate
candidate s h nbytes multi_object page_type gen first_page =
    let rest : ℕ = s.page_bytes - bytes_used (h.page_table first_page) in
    if is_free (h.page_table first_page)
    then start s.page_bytes
    else if multi_object && ltb 0 rest && page_extensible_p s h first_page gen page_type
    then if ltb rest nbytes && not (is_code page_type) then too_few rest else start rest
    else unusable

-- The `while` loop of `gc_find_freeish_pages`, on fuel for its rounds. It leaves `first_page` and
-- the most that it found.
unfoldable pub freeish_rounds :
    ℕ → GenSpace → DynamicSpace → ℕ → ℕ → Bool → ℕ → ℕ → ℕ → Most → Outcome (ℕ × Most)
freeish_rounds zero s h nbytes goal multi_object page_type gen first_page most = fault
freeish_rounds (suc fuel) s h nbytes goal multi_object page_type gen first_page most =
    let round : Outcome (ℕ × Most) =
      elim (candidate s h nbytes multi_object page_type gen first_page) [
        | start bytes_found ↦
            let run =
              grow (s.page_table_pages - (first_page + 1)) s h goal (first_page + 1) bytes_found in
            let best = more most run.1 first_page run.0 in
            let next = freeish_rounds fuel s h nbytes goal multi_object page_type gen run.0 best in
            if leb goal run.1 then ok (first_page, best) else next
        | too_few bytes_found ↦
            freeish_rounds fuel s h nbytes goal multi_object page_type gen (first_page + 1)
              (record most {
                bytes = if ltb most.bytes bytes_found then bytes_found else most.bytes;
              })
        | unusable ↦
            freeish_rounds fuel s h nbytes goal multi_object page_type gen (first_page + 1) most
      ] in
    if ltb first_page s.page_table_pages then round else ok (first_page, most)

-- The result: `*restart_page_ptr`, the page returned and the state. The call that reports an
-- exhausted heap does not return.
pub record PageRun : Type 0 where
  pub first_page : ℕ
  pub last_page : ℕ
  pub heap : DynamicSpace

-- Small objects get a region of `gencgc_alloc_granularity` bytes, if there is one.
unfoldable pub freeish_goal : GenSpace → ℕ → Bool → ℕ
freeish_goal s nbytes single =
    if not single && ltb nbytes s.alloc_granularity then s.alloc_granularity else nbytes

unfoldable pub freeish_result : GenSpace → DynamicSpace → ℕ → ℕ × Most → Outcome PageRun
freeish_result s h nbytes end =
    let most = end.1 in
    if ltb most.bytes nbytes
    then gc_assert (leb s.page_table_pages (end.0 + 1)) >> lost
    else gc_assert (not (most.to == 0))
      >> ok (record {
        first_page = most.from;
        last_page = most.to - 1;
        heap = record h {
          next_free_page = if ltb h.next_free_page most.to then most.to else h.next_free_page;
        };
      })

-- The type and the flag SINGLE_OBJECT_FLAG of the argument `page_type` are two arguments.
unfoldable pub gc_find_freeish_pages :
    GenSpace → DynamicSpace → ℕ → ℕ → ℕ → Bool → ℕ → Outcome PageRun
gc_find_freeish_pages s h restart_page nbytes page_type single gen =
    freeish_rounds (s.page_table_pages - restart_page + 1) s h nbytes (freeish_goal s nbytes single)
      (not single) page_type gen restart_page (record { bytes = 0; from = 0; to = 0 })
    >>= freeish_result s h nbytes
