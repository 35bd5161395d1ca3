-- ===== src/Hopscotch/Cache.antt =====
-- The reserve of memory for tables in src/runtime/hopscotch.c: `hopscotch_init`, `cached_allocate`,
-- `cached_deallocate`. A block is the address behind its header; the headers are a table of the
-- usable sizes. Contents of blocks are not part of the state.
pub mod Blocks
mod Tests
use cl.Common.{
  ℕ, ◌+◌, ◌-◌, ◌*◌, ◌/◌, ◌%◌, ◌^◌, ◌≡◌, Bool, true, false, not, ◌&&◌, ◌||◌, List, [], ◌∷◌, ltb, leb,
  ◌==◌, if◌then◌else◌, Outcome, ok, lost, ◌>>=◌, ◌>>◌, gc_assert, assign,
}

-- `cached_alloc[0]` and `cached_alloc[1]`, 0 for a null pointer, and the header of each block.
pub record Cache : Type 0 where
  pub cached_alloc0 : ℕ
  pub cached_alloc1 : ℕ
  pub usable_size : ℕ → ℕ

abbrev pub hh_allocation_granularity : ℕ
hh_allocation_granularity = 4096

abbrev pub allocation_overhead : ℕ
allocation_overhead = 8

abbrev pub align_up : ℕ → ℕ → ℕ
align_up n unit = (n + (unit - 1)) / unit * unit

-- The header is an `unsigned int`.
unfoldable pub write_header : Cache → ℕ → ℕ → Cache
write_header c block size = record c { usable_size = assign c.usable_size block (size % 2 ^ 32) }

-- `os_allocate` gives the address of as many bytes as it is asked for, or 0.
unfoldable pub hopscotch_init : (ℕ → ℕ) → ℕ → Cache → Outcome Cache
hopscotch_init os_allocate os_reported_page_size c =
    let mem : ℕ = os_allocate (2 * os_reported_page_size) in
    let first : ℕ = mem + allocation_overhead in
    let second : ℕ = first + os_reported_page_size in
    let filled : Cache = record c { cached_alloc0 = first; cached_alloc1 = second } in
    let usable : ℕ = os_reported_page_size - allocation_overhead in
    gc_assert (not (mem == 0)) >> ok (write_header (write_header filled first usable) second usable)

unfoldable pub new_block : (ℕ → ℕ) → ℕ → Cache → Outcome (ℕ × Cache)
new_block os_allocate nbytes c =
    let rounded : ℕ = align_up nbytes hh_allocation_granularity in
    let result : ℕ = os_allocate rounded in
    let block : ℕ = result + allocation_overhead in
    gc_assert (not (result == 0))
    >> ok (block, write_header c block (rounded - allocation_overhead))

-- A cached block that is large enough.
abbrev pub serves : Cache → ℕ → ℕ → Bool
serves c block nbytes = not (block == 0) && leb nbytes (c.usable_size block)

unfoldable pub cached_allocate : (ℕ → ℕ) → ℕ → Cache → Outcome (ℕ × Cache)
cached_allocate os_allocate nbytes c =
    if serves c c.cached_alloc0 nbytes
    then ok (c.cached_alloc0, record c { cached_alloc0 = 0 })
    else if serves c c.cached_alloc1 nbytes
    then ok (c.cached_alloc1, record c { cached_alloc1 = 0 })
    else new_block os_allocate nbytes c

-- The order of two sizes that are read as `int`: the sign bit turned over.
abbrev pub int_below : ℕ → ℕ → Bool
int_below a b = ltb ((a + 2 ^ 31) % 2 ^ 32) ((b + 2 ^ 31) % 2 ^ 32)

-- What `hopscotch_deallocate` is called with for a block.
abbrev pub whole_block : Cache → ℕ → ℕ × ℕ
whole_block c block = (block - allocation_overhead, c.usable_size block + allocation_overhead)

-- The cache, and what is given back to the system.
unfoldable pub cached_deallocate : ℕ → Cache → Cache × List (ℕ × ℕ)
cached_deallocate mem c =
    let this_size = c.usable_size mem in
    let cached_size0 = c.usable_size c.cached_alloc0 in
    let cached_size1 = c.usable_size c.cached_alloc1 in
    if c.cached_alloc0 == 0
    then (record c { cached_alloc0 = mem }, [])
    else if c.cached_alloc1 == 0
    then (record c { cached_alloc1 = mem }, [])
    else if not (int_below cached_size0 this_size || int_below cached_size1 this_size)
    then (c, whole_block c mem ∷ [])
    else if int_below cached_size1 cached_size0
    then (record c { cached_alloc1 = mem }, whole_block c c.cached_alloc1 ∷ [])
    else (record c { cached_alloc0 = mem }, whole_block c c.cached_alloc0 ∷ [])
