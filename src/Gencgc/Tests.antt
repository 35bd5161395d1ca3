-- ===== src/Gencgc/Tests.antt =====
-- Concrete runs of the generational collector, and the theorems at concrete inputs.
use cl.Common.{
  ℕ, ◌+◌, ◌*◌, ◌≡◌, refl, not, ◌&&◌, ltb, Option, none, some, lost, arith, Bool, true, false, ◌==◌,
  if◌then◌else◌, ok, ◌>>=◌, Returns, update_range, first_index,
}
use cl.Gencgc.{
  GenSpace, DynamicSpace, Pte, mixed, grow, more, candidate, freeish_goal, freeish_rounds,
  freeish_result, gc_find_freeish_pages,
}
use cl.Gencgc.Freeish.{FreeishFound, gc_find_freeish_pages-FreeishFound}
use cl.Gencgc.Release.{
  free_page, reset_page_flags, free_rounds, deduct, free_oldspace, leave_scratch,
  release_from_space, find_next_free_page, find_page_index, page_ends_contiguous_block_p,
  is_of_large_object, free_large_object,
}
use cl.Gencgc.Balance.{IsBalanced}
use cl.Gencgc.Scratch.{returned, IsReleasedSpace, release_from_space-IsReleasedSpace}
use cl.Gencgc.Counts.{IsRecounted, find_next_free_page-IsRecounted}
use cl.Gencgc.Regions.{
  gc_alloc_large, large_type, take_large, large_pte, used_page, add_new_area, adjacent_area,
}
use cl.Gencgc.FreeLarge.{FreedObject, free_large_object-FreedObject}
use cl.Gencgc.Large.{LargeAllocated, gc_alloc_large-LargeAllocated}
use cl.Gencgc.Collection.Ends.{Ends}
use cl.Gencgc.Collection.{
  Collector, Policy, collect_generations, collect_rounds, collect_one, garbage_collect_generation,
  end_of_cycle, choose_raise, goes_on, write_check,
}

-- Five pages of 64 bytes.
abbrev five_pages : GenSpace
five_pages = record {
  dynamic_space_start = 4096;
  page_bytes = 64;
  page_table_pages = 5;
  num_generations = 8;
  alloc_granularity = 0;
  card_bytes = 16;
  card_table_mask = 255;
  cardseq_all_marked_nonsticky = λ marks i. marks i == 0;
}

abbrev page_of : ℕ → ℕ → Pte
page_of gen words = record {
  scan_start_offset = 0;
  need_zerofill = false;
  words_used = words;
  type_ = if words == 0 then 0 else mixed;
  gen = gen;
}

-- The first page is full and of generation 0, the second has two words of the scratch generation.
abbrev two_used : DynamicSpace
two_used = record {
  page_table = λ p. if p == 0 then page_of 0 8 else if p == 1 then page_of 7 2 else page_of 0 0;
  gc_page_pins = λ _. 0;
  gc_card_mark = λ _. 0;
  generations = λ g. if g == 0 then 64 else if g == 7 then 16 else 0;
  bytes_allocated = 80;
  next_free_page = 2;
  alloc_start_pages = λ _. 0;
  max_alloc_start_page = 0;
  new_areas = λ _. record { page = 0; offset = 0; size = 0 };
  new_areas_index = 0;
  record_new_regions_below = 6;
}

two_used-IsBalanced : IsBalanced five_pages two_used
two_used-IsBalanced = record {
  pages = λ g lt. ground arith;
  total = refl;
  free_unused = λ p e. ground (arith, e);
  above_unused = λ p le. ground (arith, le);
  top = omega arith;
}

gc_find_freeish_pages-FreeishFound_example :
    FreeishFound five_pages two_used 0 40 mixed false 7
      (gc_find_freeish_pages five_pages two_used 0 40 mixed false 7)
gc_find_freeish_pages-FreeishFound_example =
    gc_find_freeish_pages-FreeishFound five_pages two_used 0 40 mixed false 7 (omega arith)
      (omega arith)

-- The rest of the second page is taken.
second_page :
    (gc_find_freeish_pages five_pages two_used 0 40 mixed false 7 >>= λ r.
    ok (r.first_page * 10 + r.last_page))
    ≡ ok 11
unfolding gc_find_freeish_pages freeish_rounds freeish_goal candidate grow more freeish_result
second_page = refl

release_from_space-IsReleasedSpace_example :
    Returns
      (release_from_space five_pages two_used 0 false 7)
      (IsReleasedSpace five_pages two_used 0 false 7)
release_from_space-IsReleasedSpace_example =
    release_from_space-IsReleasedSpace five_pages two_used 0 false 7 (omega arith) (omega arith)
      (λ e. omega arith) two_used-IsBalanced

-- The survivors are of generation 0 again.
scratch_left :
    (release_from_space five_pages two_used 0 false 7 >>= λ r.
    ok (r.generations 0 * 1000 + r.generations 7 * 100 + (r.page_table 1).gen))
    ≡ ok 16_000
unfolding release_from_space free_oldspace free_rounds free_page reset_page_flags deduct
    leave_scratch update_range
scratch_left = refl

find_next_free_page-IsRecounted_example :
    IsRecounted five_pages two_used (find_next_free_page two_used)
find_next_free_page-IsRecounted_example =
    find_next_free_page-IsRecounted five_pages two_used two_used-IsBalanced

gc_alloc_large-LargeAllocated_example :
    LargeAllocated five_pages two_used 1 72
      (large_type 2)
      (gc_alloc_large five_pages two_used 1 72 2)
gc_alloc_large-LargeAllocated_example =
    gc_alloc_large-LargeAllocated five_pages two_used 1 72 2 refl refl (omega arith) (omega arith)
      (omega arith) two_used-IsBalanced

third_page :
    (gc_alloc_large five_pages two_used 1 72 2 >>= λ r. ok (
      r.0 * 10_000
      + r.1.generations 1 * 100
      + (r.1.page_table 3).words_used * 10
      + r.1.next_free_page))
    ≡ ok (42_240_000 + 7_200 + 10 + 4)
unfolding gc_alloc_large gc_find_freeish_pages freeish_rounds freeish_goal candidate grow more
    freeish_result take_large large_pte used_page add_new_area adjacent_area update_range
    first_index
third_page = refl

abbrev new_space : ℕ → Bool → ℕ
new_space gen raise = if raise then gen + 1 else 7

-- A move in which all survive and stay in place, as pinned objects do, and get the number of the new
-- space. It loses where the new space is not empty.
abbrev may_move : ℕ → ℕ → Collector → Bool
may_move gen new c = ltb gen 8 && ltb new 8 && not (new == gen) && c.heap.generations new == 0

abbrev all_pinned : ℕ → Bool → Collector → Option DynamicSpace
all_pinned gen raise c =
    let new = new_space gen raise in
    if may_move gen new c then some (returned c.heap new gen) else none

abbrev two_rounds : Policy
two_rounds = record {
  space = five_pages;
  oldest_gen_to_gc = 5;
  highest_normal_generation = 5;
  pseudo_static_generation = 6;
  scratch_generation = 7;
  gencgc_alloc_start_page = 0;
  dynamic_space_size = 1000;
  old_enough = λ _ _. true;
  move_survivors = all_pinned;
}

-- The first page is of generation 0, the second of generation 3.
abbrev no_scratch : DynamicSpace
no_scratch = record two_used {
  page_table = λ p. if p == 0 then page_of 0 8 else if p == 1 then page_of 3 2 else page_of 0 0;
  generations = λ g. if g == 0 then 64 else if g == 3 then 16 else 0;
}

abbrev before_collection : Collector
before_collection = record {
  heap = no_scratch;
  generation = λ _. record {
    gc_trigger = 100;
    bytes_consed_between_gc = 50;
    num_gc = 0;
    number_of_gcs_before_promotion = 1;
    cum_sum_bytes_allocated = 0;
  };
  large_allocation = 0;
}

-- Generations 0 and 1 are collected, and the object of generation 0 ends in generation 2.
generations_0_and_1 :
    (collect_generations two_rounds 2 before_collection >>= λ r.
    ok (r.gen * 1000 + r.collector.heap.generations 2 * 10 + (r.collector.heap.page_table 0).gen))
    ≡ ok 2642
unfolding collect_generations collect_rounds collect_one garbage_collect_generation end_of_cycle
    choose_raise goes_on write_check first_index release_from_space free_oldspace free_rounds
    free_page reset_page_flags deduct leave_scratch update_range
generations_0_and_1 = refl

-- With the next generation in use the move of the survivors loses.
full_generation_3 : collect_generations two_rounds 4 before_collection ≡ lost
unfolding collect_generations collect_rounds collect_one garbage_collect_generation end_of_cycle
    choose_raise goes_on write_check first_index release_from_space free_oldspace free_rounds
    free_page reset_page_flags deduct leave_scratch update_range
full_generation_3 = refl

-- The third and the fourth page hold an object.
abbrev with_object : DynamicSpace
with_object = record {
  page_table = λ p.
      if p == 2
      then record {
        scan_start_offset = 0;
        need_zerofill = false;
        words_used = 8;
        type_ = 19;
        gen = 1;
      }
      else if p == 3
      then record {
        scan_start_offset = 64;
        need_zerofill = false;
        words_used = 1;
        type_ = 19;
        gen = 1;
      }
      else page_of 0 0;
  gc_page_pins = λ _. 0;
  gc_card_mark = λ _. 0;
  generations = λ g. if g == 1 then 72 else 0;
  bytes_allocated = 72;
  next_free_page = 4;
  alloc_start_pages = λ _. 0;
  max_alloc_start_page = 3;
  new_areas = λ _. record { page = 0; offset = 0; size = 0 };
  new_areas_index = 0;
  record_new_regions_below = 0;
}

with_object-IsBalanced : IsBalanced five_pages with_object
with_object-IsBalanced = record {
  pages = λ g lt. ground arith;
  total = refl;
  free_unused = λ p e. ground (arith, e);
  above_unused = λ p le. ground (arith, le);
  top = omega arith;
}

free_large_object-FreedObject_example :
    FreedObject five_pages with_object 4224 2 3 (free_large_object five_pages with_object 4224 4296)
unfolding find_page_index
free_large_object-FreedObject_example =
    free_large_object-FreedObject five_pages with_object 4224 4296 2 3 refl refl (omega arith)
      (omega arith) (omega arith) with_object-IsBalanced

-- A large object on two pages is freed.
freed_object :
    (gc_alloc_large five_pages two_used 1 72 2 >>= λ r.
    free_large_object five_pages r.1 r.0 (r.0 + 72) >>= λ h.
    ok (h.generations 1 * 100 + (h.page_table 2).type_ * 10 + (h.page_table 3).words_used))
    ≡ ok 0
unfolding gc_alloc_large gc_find_freeish_pages freeish_rounds freeish_goal candidate grow more
    freeish_result take_large large_pte used_page add_new_area adjacent_area update_range
    first_index free_large_object find_page_index page_ends_contiguous_block_p is_of_large_object
    free_rounds free_page reset_page_flags deduct
freed_object = refl
