-- ===== src/MarkRegion.antt =====
-- src/runtime/mark-region.c and mark-region.h: lines of memory, the slow path of allocation and
-- sweeping, in the collector that marks lines. The line bytemap, the page table and the bitmaps
-- are arrays, functions of the index; a byte is a number below 256.
pub mod Runs
pub mod Small
pub mod Pages
pub mod Sweep
mod Tests
use cl.Common.{
  ℕ, zero, suc, ◌+◌, ◌-◌, ◌*◌, ◌/◌, ◌%◌, ◌≡◌, bit_and, bit_or, Bool, true, false, not, ◌&&◌, ◌||◌,
  Option, none, some, ltb, leb, ◌==◌, if◌then◌else◌, Outcome, ok, fault, lost, ◌>>=◌, ◌>>◌,
  gc_assert, first_index, update_range,
}

-- DYNAMIC_SPACE_START and two constants of the build. LINE_SIZE is 8 << N_LOWTAG_BITS, and a cons is two
-- words, so that a pointer has 4 tag bits.
pub record Space : Type 0 where
  pub dynamic_space_start : ℕ
  pub page_bytes : ℕ
  pub pseudo_static_generation : ℕ

abbrev pub line_size : ℕ
line_size = 128

abbrev pub lines_per_page : Space → ℕ
lines_per_page s = s.page_bytes / line_size

abbrev pub line_address : Space → ℕ → ℕ
line_address s line = s.dynamic_space_start + line * line_size

abbrev pub address_line : Space → ℕ → ℕ
address_line s address = (address - s.dynamic_space_start) / line_size

abbrev pub page_to_line : Space → ℕ → ℕ
page_to_line s p = p * lines_per_page s

-- The bits of a line byte.
abbrev pub mark_gen : ℕ → ℕ
mark_gen l = bit_or l 16

abbrev pub freshen_gen : ℕ → ℕ
freshen_gen l = bit_or l 32

abbrev pub unmark_gen : ℕ → ℕ
unmark_gen l = bit_and l 15

abbrev pub unfreshen_gen : ℕ → ℕ
unfreshen_gen l = bit_and l 31

abbrev pub encode_gen : ℕ → ℕ
encode_gen g = g + 1

abbrev pub copy_mark : ℕ → ℕ → ℕ
copy_mark from to = bit_or (bit_and from 0x30) to

-- `struct alloc_region`
pub record AllocRegion : Type 0 where
  pub free_pointer : ℕ
  pub end_addr : ℕ
  pub start_addr : ℕ

abbrev pub empty_region : AllocRegion
empty_region = record { free_pointer = 0x1000; end_addr = 0x1000; start_addr = 0 }

abbrev pub or_end {ℓ} : {A : Type ℓ} → Option A → A → A
or_end none end = end
or_end (some a) end = a

unfoldable pub find_free_line : (ℕ → ℕ) → ℕ → ℕ → ℕ
find_free_line lines start end = or_end (first_index (λ l. lines l == 0) (end - start) start) end

unfoldable pub find_used_line : (ℕ → ℕ) → ℕ → ℕ → ℕ
find_used_line lines start end =
    or_end (first_index (λ l. not (lines l == 0)) (end - start) start) end

-- `ALIGN_UP(nbytes, LINE_SIZE) / LINE_SIZE`
abbrev pub lines_of : ℕ → ℕ
lines_of nbytes = (nbytes + (line_size - 1)) / line_size

-- A region over the lines from `first` to before `last`.
abbrev pub region_of : Space → ℕ → ℕ → ℕ → AllocRegion
region_of s nbytes first last = record {
  start_addr = line_address s first;
  free_pointer = line_address s first + nbytes;
  end_addr = line_address s last;
}

-- `gc_active_p ? 0 : FRESHEN_GEN(0)`
abbrev pub claimed_line : Bool → ℕ
claimed_line gc_active = if gc_active then 0 else freshen_gen 0

-- The loop of `try_allocate_small`, on fuel for its rounds. `find_free_line` never returns -1, and
-- the test for that is left out.
unfoldable pub small_rounds :
    ℕ → Space → Bool → ℕ → (ℕ → ℕ) → ℕ → ℕ → Outcome (Option AllocRegion × (ℕ → ℕ))
small_rounds zero s gc_active nbytes lines where_ end = fault
small_rounds (suc fuel) s gc_active nbytes lines where_ end =
    let chunk_start = find_free_line lines where_ end in
    let chunk_end = find_used_line lines chunk_start end in
    let next = small_rounds fuel s gc_active nbytes lines chunk_end end in
    if leb (lines_of nbytes) (chunk_end - chunk_start)
    then ok (
      some (region_of s nbytes chunk_start chunk_end),
      update_range (λ _ _. claimed_line gc_active) (chunk_end - chunk_start) chunk_start lines,
    )
    else if chunk_end == end
    then ok (none, lines)
    else next

-- The region and the lines afterwards; no region is the result `false`.
unfoldable pub try_allocate_small :
    Space → Bool → ℕ → (ℕ → ℕ) → ℕ → ℕ → Outcome (Option AllocRegion × (ℕ → ℕ))
try_allocate_small s gc_active nbytes lines start end =
    small_rounds (end - start + 1) s gc_active nbytes lines start end

-- `PTR_ALIGN_UP(end_addr, GENCGC_PAGE_BYTES)`
abbrev pub page_end : Space → ℕ → ℕ
page_end s address = (address + (s.page_bytes - 1)) / s.page_bytes * s.page_bytes

unfoldable pub try_allocate_small_after_region :
    Space → Bool → ℕ → AllocRegion → (ℕ → ℕ) → Outcome (Option AllocRegion × (ℕ → ℕ))
try_allocate_small_after_region s gc_active nbytes region lines =
    if region.start_addr == 0
    then ok (none, lines)
    else try_allocate_small s gc_active nbytes lines (address_line s region.end_addr)
        (address_line s (page_end s region.end_addr))
