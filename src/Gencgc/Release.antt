-- ===== src/Gencgc/Release.antt =====
-- The release of pages in src/runtime/gencgc.c: `free_oldspace`, `free_large_object`, the end of a
-- cycle without promotion, and the counts of what is used.
use cl.Common.{
  ℕ, zero, suc, ◌+◌, ◌-◌, ◌*◌, ◌/◌, bit_and, Bool, true, not, ◌&&◌, ◌||◌, Option, none, some, ltb,
  leb, ◌==◌, if◌then◌else◌, Outcome, ok, lost, ◌>>=◌, ◌>>◌, gc_assert, deref, first_index,
  update_range, assign,
}
use cl.Gencgc.{
  GenSpace, DynamicSpace, Pte, is_free, bytes_used, page_address, page_to_card_index, single_object,
}

-- A page outside the table is -1.
unfoldable pub find_page_index : GenSpace → ℕ → Option ℕ
find_page_index s addr =
    let index : ℕ = (addr - s.dynamic_space_start) / s.page_bytes in
    if leb s.dynamic_space_start addr && ltb index s.page_table_pages then some index else none

-- All cards of the page are marked, and the generation stays as it was.
unfoldable pub reset_page_flags : GenSpace → DynamicSpace → ℕ → DynamicSpace
reset_page_flags s h page = record h {
  page_table =
      assign h.page_table page (record (h.page_table page) { scan_start_offset = 0; type_ = 0 });
  gc_page_pins = assign h.gc_page_pins page 0;
  gc_card_mark =
      update_range (λ _ _. 0) (s.page_bytes / s.card_bytes) (page_to_card_index s page)
        h.gc_card_mark;
}

-- The body of the loops that free pages.
unfoldable pub free_page : GenSpace → DynamicSpace → ℕ → DynamicSpace
free_page s h page =
    let p = h.page_table page in
    let emptied : Pte = record p {
      need_zerofill = if p.words_used == 0 then p.need_zerofill else true;
      words_used = 0;
    } in
    reset_page_flags s (record h { page_table = assign h.page_table page emptied }) page

-- The pages from `page` on that `frees` picks are freed. The bytes on them are added up.
unfoldable pub free_rounds : ℕ → GenSpace → (Pte → Bool) → DynamicSpace → ℕ → ℕ → DynamicSpace × ℕ
free_rounds zero s frees h page bytes_freed = (h, bytes_freed)
free_rounds (suc n) s frees h page bytes_freed =
    let freed =
      free_rounds n s frees (free_page s h page) (page + 1)
        (bytes_freed + bytes_used (h.page_table page)) in
    let kept = free_rounds n s frees h (page + 1) bytes_freed in
    if frees (h.page_table page) then freed else kept

unfoldable pub deduct : DynamicSpace × ℕ → ℕ → DynamicSpace
deduct freed gen =
    let h = freed.0 in
    record h {
      generations = assign h.generations gen (h.generations gen - freed.1);
      bytes_allocated = h.bytes_allocated - freed.1;
    }

unfoldable pub free_oldspace : GenSpace → DynamicSpace → ℕ → DynamicSpace
free_oldspace s h from_space =
    deduct (free_rounds h.next_free_page s (λ p. p.gen == from_space) h 0 0) from_space

unfoldable pub page_ends_contiguous_block_p : GenSpace → DynamicSpace → ℕ → Bool
page_ends_contiguous_block_p s h page =
    ltb (h.page_table page).words_used (s.page_bytes / 8)
    || (h.page_table (page + 1)).scan_start_offset == 0

-- The assertions of `free_large_object` about a page of the object.
unfoldable pub is_of_large_object : GenSpace → DynamicSpace → ℕ → ℕ → ℕ → Bool
is_of_large_object s h gen where_ page =
    let p = h.page_table page in
    not (bit_and p.type_ single_object == 0)
    && p.gen == gen
    && (page_address s page - p.scan_start_offset) == where_

-- The pages are freed, unless one of them is not of the object.
abbrev pub free_unless : GenSpace → DynamicSpace → ℕ → ℕ → Option ℕ → Outcome DynamicSpace
free_unless s h first last (some _) = lost
free_unless s h first last none =
    ok (deduct (free_rounds (last + 1 - first) s (λ _. true) h first 0) (h.page_table first).gen)

unfoldable pub free_large_object : GenSpace → DynamicSpace → ℕ → ℕ → Outcome DynamicSpace
free_large_object s h where_ end = deref (find_page_index s where_) >>= λ first.
    deref (find_page_index s (end - 1)) >>= λ last.
    let gen : ℕ = (h.page_table first).gen in
    gc_assert (page_ends_contiguous_block_p s h last)
    >> free_unless s h first last
        (first_index (λ p. not (is_of_large_object s h gen where_ p)) (last + 1 - first) first)

-- The pages of the scratch generation get the number of the generation that was collected.
unfoldable pub leave_scratch : GenSpace → DynamicSpace → ℕ → ℕ → Outcome DynamicSpace
leave_scratch s h generation scratch =
    gc_assert (h.generations generation == 0)
    >> ok (record h {
      page_table =
          update_range (λ _ p. record p { gen = if p.gen == scratch then generation else p.gen })
            h.next_free_page 0 h.page_table;
      generations = assign (assign h.generations generation (h.generations scratch)) scratch 0;
    })

-- The end of `garbage_collect_generation`: oldspace is freed, and without promotion the survivors
-- come back from the scratch generation.
unfoldable pub release_from_space : GenSpace → DynamicSpace → ℕ → Bool → ℕ → Outcome DynamicSpace
release_from_space s h generation raise scratch =
    let freed = free_oldspace s h generation in
    if raise then ok freed else leave_scratch s freed generation scratch

-- The words of the pages below `n`.
unfoldable pub count_words : ℕ → DynamicSpace → ℕ → ℕ
count_words zero h gen = 0
count_words (suc i) h gen =
    let result = count_words i h gen in
    if not (is_free (h.page_table i)) && (h.page_table i).gen == gen
    then result + (h.page_table i).words_used
    else result

unfoldable pub count_generation_bytes_allocated : DynamicSpace → ℕ → ℕ
count_generation_bytes_allocated h gen = count_words h.next_free_page h gen * 8

-- One page beyond the last used page of those below `n`.
unfoldable pub used_below : ℕ → DynamicSpace → ℕ
used_below zero h = 0
used_below (suc i) h =
    let before = used_below i h in if (h.page_table i).words_used == 0 then before else i + 1

unfoldable pub find_next_free_page : DynamicSpace → ℕ
find_next_free_page h = used_below h.next_free_page h
