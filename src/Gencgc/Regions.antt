-- ===== src/Gencgc/Regions.antt =====
-- Allocation on pages in src/runtime/gencgc.c: the areas to scavenge again, and `gc_alloc_large`.
-- Locks, and the bytes of the memory, are left out.
use cl.Common.{
  ℕ, zero, suc, ◌+◌, ◌-◌, ◌*◌, ◌/◌, bit_or, Bool, true, not, ◌||◌, Option, none, some, ltb, leb,
  ◌==◌, if◌then◌else◌, Outcome, ok, lost, ◌>>=◌, first_index, update_range, assign,
}
use cl.Gencgc.{
  GenSpace, DynamicSpace, Pte, NewArea, page_address, boxed, mixed, small_mixed, single_object,
  gc_find_freeish_pages,
}

abbrev pub num_new_areas : ℕ
num_new_areas = 512

-- The area that ends at the address, among the last `c` below `i`.
unfoldable pub adjacent_area : ℕ → GenSpace → (ℕ → NewArea) → ℕ → ℕ → Option ℕ
adjacent_area zero s areas start i = none
adjacent_area (suc c) s areas start zero = none
adjacent_area (suc c) s areas start (suc i) =
    let a = areas i in
    let before = adjacent_area c s areas start i in
    if a.page * s.page_bytes + a.offset + a.size == start then some i else before

unfoldable pub add_new_area : GenSpace → DynamicSpace → ℕ → ℕ → ℕ → DynamicSpace
add_new_area s h first_page offset size =
    let longer = λ (i : ℕ). record h {
      new_areas =
          assign h.new_areas i (record (h.new_areas i) { size = (h.new_areas i).size + size });
    } in
    let added = record h {
      new_areas =
          assign h.new_areas h.new_areas_index
            (record { page = first_page; offset = offset; size = size });
      new_areas_index = h.new_areas_index + 1;
    } in
    let extended =
      elim (adjacent_area 8 s h.new_areas (first_page * s.page_bytes + offset) h.new_areas_index)
        as (λ _. DynamicSpace) [ some i ↦ longer i | none ↦ added ] in
    if not (ltb first_page h.record_new_regions_below)
    then h
    else if leb num_new_areas h.new_areas_index
    then h
    else extended

abbrev pub boxed_type_p : ℕ → Bool
boxed_type_p page_type = ltb 1 page_type

-- A page of a large object.
unfoldable pub large_pte : GenSpace → ℕ → ℕ → ℕ → ℕ → ℕ → ℕ → Pte → Pte
large_pte s gen nbytes page_type first_page last_page page p = record p {
  scan_start_offset = s.page_bytes * (page - first_page);
  words_used =
      (if page == last_page then nbytes - s.page_bytes * (last_page - first_page) else s.page_bytes)
      / 8;
  type_ = bit_or single_object page_type;
  gen = gen;
}

unfoldable pub take_large : GenSpace → DynamicSpace → ℕ → ℕ → ℕ → ℕ → ℕ → DynamicSpace
take_large s h gen nbytes page_type first_page last_page = record h {
  page_table =
      update_range (large_pte s gen nbytes page_type first_page last_page)
        (last_page + 1 - first_page) first_page h.page_table;
  generations = assign h.generations gen (h.generations gen + nbytes);
  bytes_allocated = h.bytes_allocated + nbytes;
  max_alloc_start_page = last_page;
}

-- A page of the run is in use, against the assertion.
unfoldable pub used_page : DynamicSpace → ℕ → ℕ → Option ℕ
used_page h first_page last_page =
    first_index (λ p. not ((h.page_table p).words_used == 0)) (last_page + 1 - first_page)
      first_page

abbrev pub large_type : ℕ → ℕ
large_type page_type = if page_type == boxed || page_type == small_mixed then mixed else page_type

-- The address of the object and the state; `gen` is `gc_alloc_generation`.
unfoldable pub gc_alloc_large : GenSpace → DynamicSpace → ℕ → ℕ → ℕ → Outcome (ℕ × DynamicSpace)
gc_alloc_large s h gen nbytes page_type =
    let kind = large_type page_type in
    gc_find_freeish_pages s h h.max_alloc_start_page nbytes kind true gen >>= λ r.
    let taken = take_large s r.heap gen nbytes kind r.first_page r.last_page in
    let recorded = add_new_area s taken r.first_page 0 nbytes in
    elim (used_page r.heap r.first_page r.last_page) [
      | some _ ↦ lost
      | none ↦ ok (page_address s r.first_page, if boxed_type_p kind then recorded else taken)
    ]
