-- ===== src/MarkRegion/Sweep.antt =====
-- Sweeping in src/runtime/mark-region.c: lines that were not marked become free. The bitmaps are
-- arrays of bytes, one for each line.
pub mod Line
pub mod Counts
pub mod Accounts
pub mod Claims
use cl.Common.{
  ℕ, zero, suc, ◌+◌, ◌-◌, ◌*◌, ◌/◌, ◌≡◌, bit_and, bit_or, Bool, true, false, not, ◌&&◌, ◌||◌, ltb,
  leb, ◌==◌, if◌then◌else◌, Outcome, ok, fault, lost, ◌>>=◌, update_range, assign,
}
use cl.MarkRegion.{
  Space, line_size, lines_per_page, page_to_line, mark_gen, unmark_gen, unfreshen_gen, encode_gen,
}
use cl.MarkRegion.Pages.{Heap, Page, page_free_p, page_bytes_used, words_of, single_object_flag}

pub record Collection : Type 0 where
  pub heap : Heap
  pub mark_bitmap : ℕ → ℕ
  pub allocation_bitmap : ℕ → ℕ
  pub need_to_zero : ℕ → Bool
  pub generation_to_collect : ℕ

abbrev pub page_single_obj_p : Page → Bool
page_single_obj_p p = not (bit_and p.type_ single_object_flag == 0)

-- The lines of `n` from `l` on that belong to the dead generation.
unfoldable pub count_dead : ℕ → (ℕ → ℕ) → ℕ → ℕ → ℕ
count_dead zero lines dead l = 0
count_dead (suc n) lines dead l =
    let rest = count_dead n lines dead (l + 1) in
    if unfreshen_gen (lines l) == dead then rest + 1 else rest

unfoldable pub count_dead_bytes : Space → Collection → ℕ → ℕ
count_dead_bytes s c p =
    count_dead (lines_per_page s) c.heap.line_bytemap (encode_gen c.generation_to_collect)
      (page_to_line s p)
    * line_size

unfoldable pub swept_allocs : ℕ → ℕ → ℕ → ℕ → ℕ
swept_allocs unmarked line new old = if unmark_gen line == unmarked then new else old

unfoldable pub swept_line : ℕ → ℕ → ℕ
swept_line unmarked l =
    let line = unfreshen_gen l in
    if line == unmarked then 0 else if line == mark_gen unmarked then unmarked else line

-- Three loops over the lines of the page.
unfoldable pub sweep_small_page : Space → Collection → ℕ → Collection
sweep_small_page s c p =
    let unmarked : ℕ = encode_gen c.generation_to_collect in
    let n = lines_per_page s in
    let first = page_to_line s p in
    let allocs =
      update_range (λ l old. swept_allocs unmarked (c.heap.line_bytemap l) (c.mark_bitmap l) old) n
        first c.allocation_bitmap in
    let lines = update_range (λ _ l. swept_line unmarked l) n first c.heap.line_bytemap in
    let marks = update_range (λ _ _. 0) n first c.mark_bitmap in
    record c {
      heap = record (c.heap) { line_bytemap = lines };
      allocation_bitmap = allocs;
      mark_bitmap = marks;
    }

abbrev pub set_bytes_used : Heap → ℕ → ℕ → Heap
set_bytes_used h p bytes = record h {
  page_table = assign h.page_table p (record (h.page_table p) { words_used = words_of bytes });
}

-- A line in a collection of everything.
unfoldable pub fully_swept_line : ℕ → ℕ
fully_swept_line l = if bit_and l 16 == 0 then 0 else unmark_gen l

-- The bytes of `n` lines from `l` on, by generation and in all.
unfoldable pub account_lines : ℕ → (ℕ → ℕ) → ℕ → (ℕ → ℕ) → ℕ → (ℕ → ℕ) × ℕ
account_lines zero lines l generations used = (generations, used)
account_lines (suc n) lines l generations used =
    let gen : ℕ = unmark_gen (lines l) - 1 in
    let free = lines l == 0 in
    account_lines n lines (l + 1)
      (if free then generations else assign generations gen (generations gen + line_size))
      (if free then used else used + line_size)

unfoldable pub sweep_page_fully : Space → Collection → ℕ → Collection
sweep_page_fully s c p =
    let n = lines_per_page s in
    let first = page_to_line s p in
    let lines = update_range (λ _ l. fully_swept_line l) n first c.heap.line_bytemap in
    let (generations, used) = account_lines n lines first c.heap.generations 0 in
    record c {
      heap =
          set_bytes_used (record (c.heap) { line_bytemap = lines; generations = generations }) p
            used;
      allocation_bitmap = update_range (λ l _. c.mark_bitmap l) n first c.allocation_bitmap;
      mark_bitmap = update_range (λ _ _. 0) n first c.mark_bitmap;
    }

-- A page of the loop in `sweep_lines`, with the bytes that the generation loses.
unfoldable pub sweep_page : Space → Collection → ℕ → Outcome (Collection × ℕ)
sweep_page s c p =
    let page = c.heap.page_table p in
    let decrement = count_dead_bytes s c p in
    let smaller =
      (let counted = record c {
        heap = set_bytes_used c.heap p (page_bytes_used page - decrement);
      } in
        ok (sweep_small_page s counted p, decrement)) in
    if page_free_p page || page_single_obj_p page
    then ok (c, 0)
    else if c.generation_to_collect == s.pseudo_static_generation
    then ok (sweep_page_fully s c p, 0)
    else if page.gen == s.pseudo_static_generation
    then ok (c, 0)
    else if ltb (page_bytes_used page) decrement
    then lost
    else smaller

-- `for (p = claim; p < limit; p++)`, over `n` pages.
unfoldable pub sweep_range : ℕ → Space → Collection → ℕ → ℕ → Outcome (Collection × ℕ)
sweep_range zero s c p total = ok (c, total)
sweep_range (suc n) s c p total =
    sweep_page s c p >>= λ r. sweep_range n s r.0 (p + 1) (total + r.1)

abbrev pub pages_claimed_per_thread : ℕ
pages_claimed_per_thread = 128

-- `for_each_claim`, on fuel for the claims, one after the other. The source runs them on several
-- threads: each has its own pages, and they share the bytes of the generations, which they add to
-- and subtract from atomically (`bytes_allocated` is `_Atomic`).
unfoldable pub sweep_claims : ℕ → ℕ → Space → Collection → ℕ → ℕ → Outcome (Collection × ℕ)
sweep_claims zero pages s c claim total = fault
sweep_claims (suc fuel) pages s c claim total =
    let above : ℕ = claim + pages_claimed_per_thread in
    let limit : ℕ = if leb pages above then pages - 1 else above in
    let body =
      (sweep_range (limit - claim) s c claim total >>= λ r.
      sweep_claims fuel pages s r.0 above r.1) in
    if ltb claim pages then body else ok (c, total)

-- `pages` is `page_table_pages`.
-- The subtraction stops at 0, where the source's would wrap around.
unfoldable pub sweep_lines : Space → ℕ → Collection → Outcome Collection
sweep_lines s pages c = sweep_claims (pages + 1) pages s c 0 0 >>= λ r.
    let h = r.0.heap in
    let gen = c.generation_to_collect in
    ok (record (r.0) {
      heap = record h { generations = assign h.generations gen (h.generations gen - r.1) };
    })

-- `raise_survivors`: the lines and the large objects of the generation go to the next one.
unfoldable pub raise_line : ℕ → ℕ → ℕ
raise_line gen l = if l == encode_gen gen then encode_gen (gen + 1) else l

unfoldable pub raise_lines : ℕ → Space → Heap → ℕ → ℕ → (ℕ → ℕ) → ℕ → ℕ
raise_lines zero s h gen p lines = lines
raise_lines (suc n) s h gen p lines =
    let raised =
      update_range (λ _ l. raise_line gen l) (lines_per_page s) (page_to_line s p) lines in
    raise_lines n s h gen (p + 1) (if page_free_p (h.page_table p) then lines else raised)

unfoldable pub raise_page : ℕ → Page → Page
raise_page gen p = if p.gen == gen && page_single_obj_p p then record p { gen = p.gen + 1 } else p

unfoldable pub raise_survivors : Space → Collection → Collection
raise_survivors s c =
    let h = c.heap in
    let gen = c.generation_to_collect in
    let moved = assign h.generations (gen + 1) (h.generations (gen + 1) + h.generations gen) in
    record c {
      heap = record h {
        line_bytemap = raise_lines h.next_free_page s h gen 0 h.line_bytemap;
        page_table = update_range (λ _ p. raise_page gen p) h.next_free_page 0 h.page_table;
        generations = assign moved gen 0;
      };
    }
