-- ===== src/Gencgc/Large.antt =====
-- `gc_alloc_large` takes free pages for the object, if there are enough in a row.
use cl.Common.{
  ℕ, ◌+◌, ◌-◌, ◌*◌, ◌%◌, ◌≤◌, ◌<◌, ◌≡◌, refl, ap, sym, ◌∙◌, arith, ◌⊎◌, inl, inr, Bool, true, ◌&&◌,
  not, Bool-cases, Option, Option-cases, none, some, ltb, leb, ◌==◌, if◌then◌else◌, Outcome, ok,
  fault, lost, ◌>>=◌, first_index, first_index-FirstIndex,
}
use mathlib.Core.Path.{subst}
use cl.Gencgc.{
  GenSpace, DynamicSpace, Pte, PageRun, is_free, page_address, freeish_goal, gc_find_freeish_pages,
}
use cl.Gencgc.Freeish.Grow.{AllFree}
use cl.Gencgc.Freeish.{FreeishFound, gc_find_freeish_pages-FreeishFound}
use cl.Gencgc.Regions.{
  large_pte, take_large, add_new_area, used_page, gc_alloc_large, large_type, boxed_type_p,
}
use cl.Gencgc.Balance.{IsBalanced}
use cl.Gencgc.LargeBalance.{
  taken, taken-table, taken-generation, taken-IsBalanced, SamePages, add_new_area-SamePages,
  SamePages-IsBalanced,
}

-- The object is on free pages, of which the last is needed, and the accounts are true again.
pub record IsLargeObject (s : GenSpace) (h : DynamicSpace) (gen nbytes page_type : ℕ)
    (r : ℕ × DynamicSpace) : Type 0 where
  pub first : ℕ
  pub extra : ℕ
  pub address : r.0 ≡ page_address s first
  pub low : h.max_alloc_start_page ≤ first
  pub inside : first + extra < s.page_table_pages
  pub free : AllFree h first (extra + 1)
  pub needed : extra * s.page_bytes < nbytes
  pub enough : nbytes ≤ s.page_bytes + extra * s.page_bytes
  pub pages :
      (p : ℕ)
      → r.1.page_table p ≡ (
          if leb first p && ltb p (first + extra + 1)
          then large_pte s gen nbytes page_type first (first + extra) p (h.page_table p)
          else h.page_table p)
  pub generation : r.1.generations gen ≡ h.generations gen + nbytes
  pub balanced : IsBalanced s r.1

-- An object, or no run of free pages with room for one.
abbrev pub LargeAllocated :
    GenSpace → DynamicSpace → ℕ → ℕ → ℕ → Outcome (ℕ × DynamicSpace) → Type 0
LargeAllocated s h gen nbytes page_type (ok r) = IsLargeObject s h gen nbytes page_type r
LargeAllocated s h gen nbytes page_type lost =
    (a k : ℕ)
    → h.max_alloc_start_page ≤ a
    → a + k ≤ s.page_table_pages
    → AllFree h a k
    → k * s.page_bytes < nbytes
LargeAllocated s h gen nbytes page_type fault = ⊥

module _ (s : GenSpace) (h : DynamicSpace) (gen nbytes kind : ℕ) (b : IsBalanced s h)
    (words : s.page_bytes % 8 ≡ 0) (bytes : nbytes % 8 ≡ 0) (pos : 0 < nbytes)
    (valid : gen < s.num_generations) where
  marked-IsBalanced :
      (top : ℕ)
      → h.next_free_page ≤ top
      → top ≤ s.page_table_pages
      → IsBalanced s (record h { next_free_page = top })
  marked-IsBalanced top ge le = record {
    pages = b.pages;
    total = b.total;
    free_unused = b.free_unused;
    above_unused = λ p q. b.above_unused p (omega arith);
    top = le;
  }

  -- What follows the search in `gc_alloc_large`.
  abbrev after_search : PageRun → DynamicSpace
  after_search r = take_large s r.heap gen nbytes kind r.first_page r.last_page

  abbrev take_unless : PageRun → Option ℕ → Outcome (ℕ × DynamicSpace)
  take_unless r (some _) = lost
  take_unless r none = ok (
    page_address s r.first_page,
    if boxed_type_p kind
        then add_new_area s (after_search r) r.first_page 0 nbytes
        else after_search r,
  )

  abbrev take : PageRun → Outcome (ℕ × DynamicSpace)
  take r = take_unless r (used_page r.heap r.first_page r.last_page)

  module _ (first extra top : ℕ) (low : h.max_alloc_start_page ≤ first)
      (free : AllFree h first (extra + 1)) (needed : extra * s.page_bytes < nbytes)
      (enough : nbytes ≤ s.page_bytes + extra * s.page_bytes) (inside : first + extra < top)
      (mark : h.next_free_page ≤ top) (le : top ≤ s.page_table_pages) where
    abbrev marked : DynamicSpace
    marked = record h { next_free_page = top }

    unused : (p : ℕ) → first ≤ p → p ≤ first + extra → (h.page_table p).words_used ≡ 0
    unused p ge less = b.free_unused p (free p ge (omega arith))

    abbrev after : DynamicSpace
    after =
        taken s marked gen nbytes kind first extra (marked-IsBalanced top mark le) words bytes valid
          inside unused needed enough

    none_used : used_page marked first (first + extra) ≡ none
    unfolding used_page
    none_used =
        let test : ℕ → Bool = λ p. not ((h.page_table p).words_used == 0) in
        let count : ℕ = first + extra + 1 - first in
        let search = first_index-FirstIndex test count first in
        elim (Option-cases (first_index test count first)) [
          | inl e ↦ e
          | inr (p, e) ↦
              let (ge, less, hit, _) = rw e at search in
              absurd (ground (arith, unused p ge (omega arith), hit))
        ]

    object :
        (h' : DynamicSpace)
        → SamePages after h'
        → IsLargeObject s h gen nbytes kind (page_address s first, h')
    object h' same = record {
      first = first;
      extra = extra;
      address = refl;
      low = low;
      inside = omega (arith, inside, le);
      free = free;
      needed = needed;
      enough = enough;
      pages = λ p.
          ap (λ (t : ℕ → Pte). t p) same.page_table
          ∙ taken-table s marked gen nbytes kind first extra (marked-IsBalanced top mark le) words
              bytes valid inside unused needed enough p;
      generation =
          ap (λ (f : ℕ → ℕ). f gen) same.generations
          ∙ taken-generation s marked gen nbytes kind first extra (marked-IsBalanced top mark le)
              words bytes valid inside unused needed enough;
      balanced = SamePages-IsBalanced s after h' same (
          taken-IsBalanced s marked gen nbytes kind first extra (marked-IsBalanced top mark le)
            words bytes valid inside unused needed enough);
    }

    taken-LargeAllocated :
        LargeAllocated s h gen nbytes kind
          (take (record { first_page = first; last_page = first + extra; heap = marked }))
    taken-LargeAllocated =
        let run : PageRun = record {
          first_page = first;
          last_page = first + extra;
          heap = marked;
        } in
        subst (λ o. LargeAllocated s h gen nbytes kind (take_unless run o)) (sym none_used)
          (object _ (elim (Bool-cases (boxed_type_p kind)) [
            | inl e ↦ rw e (add_new_area-SamePages s after first 0 nbytes)
            | inr e ↦ rw e (record {
              page_table = refl;
              generations = refl;
              bytes_allocated = refl;
              next_free_page = refl;
            })
          ]))

  take-LargeAllocated :
      (o : Outcome PageRun)
      → FreeishFound s h h.max_alloc_start_page nbytes kind true gen o
      → LargeAllocated s h gen nbytes kind (o >>= take)
  unfolding freeish_goal
  take-LargeAllocated (ok r) (room, enough, run, heap) =
      let last : r.last_page ≡ r.first_page + run.extra = omega (arith, run.end) in
      let at_first : is_free (h.page_table r.first_page) ≡ true = elim run.first [
        | inl f ↦ f
        | inr (several, _, _) ↦ absurd (ground (arith, several))
      ] in
      let whole : room ≡ s.page_bytes + run.extra * s.page_bytes = run.size ∙ rw at_first refl in
      rw (heap, last)
        (taken-LargeAllocated r.first_page run.extra
          (if ltb h.next_free_page (r.first_page + run.extra + 1)
            then r.first_page + run.extra + 1
            else h.next_free_page)
          run.low (λ p ge lt. ground (arith, at_first, run.free p)) (needed run.tight whole)
          (omega (arith, enough, whole)) (ground arith) (ground arith)
          (ground (arith, b.top, run.inside)))
    where
      needed :
          (run.extra ≡ 0) ⊎ (room < nbytes + s.page_bytes)
          → room ≡ s.page_bytes + run.extra * s.page_bytes
          → run.extra * s.page_bytes < nbytes
      needed (inl e) whole = rw e (omega arith)
      needed (inr less) whole = omega arith
  take-LargeAllocated lost none_free = none_free
  take-LargeAllocated fault e = e

-- On a heap with true accounts, with pages and an object of whole words, `gc_alloc_large` for at least
-- one byte and a generation of the heap starts at `max_alloc_start_page`, a page of the table. It takes free
-- pages in a row, no more than the object needs, for the type that it chooses, and the accounts are
-- true again; or the search loses, and then each run of free pages from there on has fewer bytes.
-- The assertion that the pages are not used holds.
pub gc_alloc_large-LargeAllocated :
    (s : GenSpace) (h : DynamicSpace) (gen nbytes page_type : ℕ)
    → s.page_bytes % 8 ≡ 0
    → nbytes % 8 ≡ 0
    → 0 < nbytes
    → gen < s.num_generations
    → h.max_alloc_start_page ≤ s.page_table_pages
    → IsBalanced s h
    → LargeAllocated s h gen nbytes (large_type page_type) (gc_alloc_large s h gen nbytes page_type)
unfolding gc_alloc_large
gc_alloc_large-LargeAllocated s h gen nbytes page_type words bytes pos valid le b =
    let kind = large_type page_type in
    take-LargeAllocated s h gen nbytes kind b words bytes pos valid
      (gc_find_freeish_pages s h h.max_alloc_start_page nbytes kind true gen)
      (gc_find_freeish_pages-FreeishFound s h h.max_alloc_start_page nbytes kind true gen le pos)
