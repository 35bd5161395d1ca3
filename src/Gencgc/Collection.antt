-- ===== src/Gencgc/Collection.antt =====
-- The loop of `collect_garbage` in src/runtime/gencgc.c, which collects one generation after the
-- other, and the check behind it. Of the collection of a generation the assertions at the start and
-- all that follows the release of the old space are here. What lies between, which moves the objects
-- that it reaches from roots and works on raw memory, and the comparison of ages, which are
-- floating-point numbers, are given.
pub mod Ends
pub mod Round
pub mod Rounds
use cl.Common.{
  ℕ, zero, suc, ◌+◌, ◌-◌, ◌*◌, ◌≤◌, ◌<◌, ◌≡◌, refl, sym, arith, ◌⊎◌, inl, inr, Bool, true, false,
  not, ◌&&◌, ◌||◌, Bool-cases, Option, Option-cases, none, some, ltb, leb, ◌==◌, if◌then◌else◌,
  compare_cases, Outcome, ok, fault, lost, ◌>>=◌, ◌>>◌, gc_assert, Returns, Returns->>=, assign,
  first_index, first_index-FirstIndex,
}
use mathlib.Core.Path.{subst}
use cl.Gencgc.{GenSpace, DynamicSpace}
use cl.Gencgc.Release.{release_from_space}

-- `struct generation`, without `bytes_allocated`, which stands in the heap, and the ages.
pub record Generation : Type 0 where
  pub gc_trigger : ℕ
  pub bytes_consed_between_gc : ℕ
  pub num_gc : ℕ
  pub number_of_gcs_before_promotion : ℕ
  pub cum_sum_bytes_allocated : ℕ

pub record Collector : Type 0 where
  pub heap : DynamicSpace
  pub generation : ℕ → Generation
  pub large_allocation : ℕ

-- `old_enough` is the comparison of `generation_average_age` with `minimum_age_before_gc`.
-- `move_survivors gen raise` is `garbage_collect_generation` from where it sets `from_space` and
-- `new_space` to `free_oldspace`: the heap when all that is alive has left the old space, or none
-- where it loses.
pub record Policy : Type 0 where
  pub space : GenSpace
  pub oldest_gen_to_gc : ℕ
  pub highest_normal_generation : ℕ
  pub pseudo_static_generation : ℕ
  pub scratch_generation : ℕ
  pub gencgc_alloc_start_page : ℕ
  pub dynamic_space_size : ℕ
  pub old_enough : Collector → ℕ → Bool
  pub move_survivors : ℕ → Bool → Collector → Option DynamicSpace

abbrev pub bytes_of : Collector → ℕ → ℕ
bytes_of c gen = c.heap.generations gen

-- `raise` and `more`
unfoldable pub choose_raise : Policy → Collector → ℕ → ℕ → Bool → Bool × Bool
choose_raise p c last_gen gen more =
    let g = c.generation gen in
    let raise = ltb gen last_gen || leb g.number_of_gcs_before_promotion g.num_gc in
    let low = leb (p.dynamic_space_size - c.heap.bytes_allocated) (2 * c.large_allocation) in
    if more || leb p.oldest_gen_to_gc gen
    then (false, false)
    else if not raise && gen == last_gen
    then (low, low)
    else (raise, more)

abbrev pub set_cum_sum : Collector → ℕ → ℕ → Collector
set_cum_sum c gen sum = record c {
  generation =
      assign c.generation gen (record (c.generation gen) { cum_sum_bytes_allocated = sum });
}

-- `RESET_ALLOC_START_PAGES`
abbrev pub reset_alloc_start_pages : Policy → DynamicSpace → DynamicSpace
reset_alloc_start_pages p h = record h {
  alloc_start_pages = λ _. p.gencgc_alloc_start_page;
  max_alloc_start_page = p.gencgc_alloc_start_page;
}

-- The end of `garbage_collect_generation`, on the heap that the release of the old space left.
unfoldable pub end_of_cycle : Policy → Collector → ℕ → Bool → DynamicSpace → Collector
end_of_cycle p c gen raise h =
    let g = c.generation gen in
    record c {
      heap = reset_alloc_start_pages p h;
      generation = assign c.generation gen (record g {
        gc_trigger = h.generations gen + g.bytes_consed_between_gc;
        num_gc = if raise then 0 else 1 + g.num_gc;
      });
    }

abbrev pub or_lost : Option DynamicSpace → Outcome DynamicSpace
or_lost none = lost
or_lost (some h) = ok h

-- For a generation below the pseudo-static one. The list of weak hash tables, which must be empty, is
-- not part of the state.
unfoldable pub garbage_collect_generation : Policy → Collector → ℕ → Bool → Outcome Collector
garbage_collect_generation p c gen raise =
    gc_assert (leb gen p.pseudo_static_generation)
    >> gc_assert (not raise || ltb gen p.highest_normal_generation)
    >> gc_assert (raise || bytes_of c p.scratch_generation == 0)
    >> (or_lost (p.move_survivors gen raise c) >>= λ h.
        release_from_space p.space h gen raise p.scratch_generation >>= λ h'.
        ok (end_of_cycle p c gen raise h'))

-- The older generation that is filled gets its age, and the one collected loses it.
unfoldable pub collect_one : Policy → Collector → ℕ → Bool → Outcome Collector
collect_one p c gen raise =
    let aged =
      set_cum_sum c (gen + 1)
        ((c.generation (gen + 1)).cum_sum_bytes_allocated + bytes_of c (gen + 1)) in
    garbage_collect_generation p (if raise then aged else c) gen raise >>= λ after.
    ok (set_cum_sum after gen 0)

-- The condition of the loop, for the generation that would be next.
unfoldable pub goes_on : Policy → Collector → ℕ → ℕ → Bool → Bool → Bool
goes_on p c last_gen gen raise more =
    leb gen p.oldest_gen_to_gc
    && (ltb gen last_gen
        || more
        || (raise && ltb (c.generation gen).gc_trigger (bytes_of c gen) && p.old_enough c gen))

-- What the loop leaves: `gen`, `raise` and the state.
pub record Collected : Type 0 where
  pub gen : ℕ
  pub raise : Bool
  pub collector : Collector

unfoldable pub collect_rounds : ℕ → Policy → ℕ → Collector → ℕ → Bool → Outcome Collected
collect_rounds zero p last_gen c gen more = fault
collect_rounds (suc fuel) p last_gen c gen more =
    let choice = choose_raise p c last_gen gen more in
    collect_one p c gen choice.0 >>= λ after.
    let next = collect_rounds fuel p last_gen after (gen + 1) choice.1 in
    if goes_on p after last_gen (gen + 1) choice.0 choice.1
    then next
    else ok (record { gen = gen + 1; raise = choice.0; collector = after })

abbrev pub gen_to_wp : Collected → ℕ
gen_to_wp r = if r.raise then r.gen else r.gen - 1

-- The check that the generations below the one that is to be protected are empty, where the
-- protection of pages is enabled.
abbrev pub unless_nonempty : Collected → Option ℕ → Outcome Collected
unless_nonempty r (some _) = lost
unless_nonempty r none = ok r

unfoldable pub write_check : Collected → Outcome Collected
write_check r =
    unless_nonempty r (first_index (λ i. not (bytes_of r.collector i == 0)) (gen_to_wp r) 0)

unfoldable pub collect_generations : Policy → ℕ → Collector → Outcome Collected
collect_generations p last_gen c =
    collect_rounds (p.oldest_gen_to_gc + 1) p last_gen c 0 false >>= write_check
