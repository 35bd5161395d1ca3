-- ===== src/MarkRegion/Sweep/Claims.antt =====
-- The claims of `sweep_lines` in src/runtime/mark-region.c.
use cl.Common.{
  ℕ, zero, suc, ◌+◌, ◌-◌, ◌*◌, ◌≤◌, ◌<◌, ◌≡◌, refl, ◌∙◌, arith, inl, inr, Bool, true, false,
  Bool-cases, ◌&&◌, ◌||◌, ◌==◌, if◌then◌else◌, leb, ltb, update_range, update_range_lem, Outcome,
  ok, lost, ◌>>=◌, assign,
}
use native.Mathlib.Nat.{mul-le-mul_right}
use cl.MarkRegion.{Space, lines_per_page, page_to_line}
use cl.MarkRegion.Pages.{page_free_p, page_bytes_used}
use cl.MarkRegion.Sweep.{
  Collection, page_single_obj_p, count_dead_bytes, sweep_page, sweep_page_fully, sweep_small_page,
  sweep_range, sweep_claims, sweep_lines, pages_claimed_per_thread, set_bytes_used,
}

-- What the sweep leaves on page `q`.
pub record SamePage (s : Space) (q : ℕ) (c c' : Collection) : Type 0 where
  pub entry : c'.heap.page_table q ≡ c.heap.page_table q
  pub lines :
      (i : ℕ)
      → page_to_line s q ≤ i
      → i < page_to_line s q + lines_per_page s
      → c'.heap.line_bytemap i ≡ c.heap.line_bytemap i
  pub allocs :
      (i : ℕ)
      → page_to_line s q ≤ i
      → i < page_to_line s q + lines_per_page s
      → c'.allocation_bitmap i ≡ c.allocation_bitmap i
  pub marks :
      (i : ℕ)
      → page_to_line s q ≤ i
      → i < page_to_line s q + lines_per_page s
      → c'.mark_bitmap i ≡ c.mark_bitmap i

SamePage-trans :
    {s : Space} {q : ℕ} {a b c : Collection}
    → SamePage s q a b
    → SamePage s q b c
    → SamePage s q a c
SamePage-trans x y = record {
  entry = y.entry ∙ x.entry;
  lines = λ i ge lt. y.lines i ge lt ∙ x.lines i ge lt;
  allocs = λ i ge lt. y.allocs i ge lt ∙ x.allocs i ge lt;
  marks = λ i ge lt. y.marks i ge lt ∙ x.marks i ge lt;
}

SamePage-refl : {s : Space} {q : ℕ} (c : Collection) → SamePage s q c c
SamePage-refl c = record {
  entry = refl;
  lines = λ i ge lt. refl;
  allocs = λ i ge lt. refl;
  marks = λ i ge lt. refl;
}

-- An update of a page leaves what stands on a later one.
update_range-later :
    (s : Space) {p q : ℕ} (g : ℕ → ℕ → ℕ) (f : ℕ → ℕ) (i : ℕ)
    → p < q
    → page_to_line s q ≤ i
    → update_range g (lines_per_page s) (page_to_line s p) f i ≡ f i
update_range-later s {p} {q} g f i lt le =
    let product : suc p * lines_per_page s ≤ q * lines_per_page s =
      mul-le-mul_right (lines_per_page s) lt in
    let past : page_to_line s p + lines_per_page s ≤ i = omega (arith, product, le) in
    let e : (leb (page_to_line s p) i && ltb i (page_to_line s p + lines_per_page s)) ≡ false =
      ground (arith, past) in
    update_range_lem g (lines_per_page s) (page_to_line s p) f i ∙ (rw e refl)

assign-later : {A : Type 0} {p q : ℕ} (f : ℕ → A) (a : A) → p < q → assign f p a q ≡ f q
assign-later {p = p} {q = q} f a lt = let e : (q == p) ≡ false = ground arith in rw e refl

sweep_small_page-SamePage :
    (s : Space) (c : Collection) (p q bytes : ℕ)
    → p < q
    → SamePage s q c (sweep_small_page s (record c { heap = set_bytes_used c.heap p bytes }) p)
unfolding sweep_small_page
sweep_small_page-SamePage s c p q bytes lt = record {
  entry = assign-later c.heap.page_table _ lt;
  lines = λ i ge _. update_range-later s _ c.heap.line_bytemap i lt ge;
  allocs = λ i ge _. update_range-later s _ c.allocation_bitmap i lt ge;
  marks = λ i ge _. update_range-later s _ c.mark_bitmap i lt ge;
}

sweep_page_fully-SamePage :
    (s : Space) (c : Collection) (p q : ℕ) → p < q → SamePage s q c (sweep_page_fully s c p)
unfolding sweep_page_fully
sweep_page_fully-SamePage s c p q lt = record {
  entry = assign-later c.heap.page_table _ lt;
  lines = λ i ge _. update_range-later s _ c.heap.line_bytemap i lt ge;
  allocs = λ i ge _. update_range-later s _ c.allocation_bitmap i lt ge;
  marks = λ i ge _. update_range-later s _ c.mark_bitmap i lt ge;
}

-- A sweep either calls `lose`, or leaves page `q`; it does not run out of fuel.
pub data Kept (s : Space) (q : ℕ) (c : Collection) : Outcome (Collection × ℕ) → Type 0 where
  kept : {c' : Collection} {total : ℕ} → SamePage s q c c' → Kept s q c (ok (c', total))
  stopped : Kept s q c lost

-- A test between two sweeps.
Kept-if :
    {s : Space} {q : ℕ} {c : Collection} (b : Bool) {x y : Outcome (Collection × ℕ)}
    → Kept s q c x
    → Kept s q c y
    → Kept s q c (if b then x else y)
Kept-if true x y = x
Kept-if false x y = y

sweep_page-Kept : (s : Space) (c : Collection) (p q : ℕ) → p < q → Kept s q c (sweep_page s c p)
unfolding sweep_page
sweep_page-Kept s c p q lt =
    let page = c.heap.page_table p in
    let left : ℕ = page_bytes_used page - count_dead_bytes s c p in
    Kept-if (page_free_p page || page_single_obj_p page) (kept {total = 0} (SamePage-refl c)) (
      Kept-if (c.generation_to_collect == s.pseudo_static_generation)
        (kept {total = 0} (sweep_page_fully-SamePage s c p q lt))
        (Kept-if (page.gen == s.pseudo_static_generation) (kept {total = 0} (SamePage-refl c)) (
          Kept-if (ltb (page_bytes_used page) (count_dead_bytes s c p)) stopped
            (kept {total = count_dead_bytes s c p} (sweep_small_page-SamePage s c p q left lt)))))

Kept-trans :
    {s : Space} {q : ℕ} {a b : Collection} {o : Outcome (Collection × ℕ)}
    → SamePage s q a b
    → Kept s q b o
    → Kept s q a o
Kept-trans same stopped = stopped
Kept-trans same (kept more) = kept (SamePage-trans same more)

Kept-then :
    {s : Space} {q : ℕ} {c : Collection} {o : Outcome (Collection × ℕ)}
    (f : Collection × ℕ → Outcome (Collection × ℕ))
    → Kept s q c o
    → ((r : Collection × ℕ) → Kept s q (r.0) (f r))
    → Kept s q c (o >>= f)
Kept-then f stopped next = stopped
Kept-then f (kept {c' = c'} {total = total} same) next = Kept-trans same (next (c', total))

sweep_range-Kept :
    (n : ℕ) (s : Space) (c : Collection) (p q total : ℕ)
    → p + n ≤ q
    → Kept s q c (sweep_range n s c p total)
unfolding sweep_range
sweep_range-Kept zero s c p q total le = kept (SamePage-refl c)
sweep_range-Kept (suc n) s c p q total le =
    Kept-then _ (sweep_page-Kept s c p q (omega arith))
      (λ r. sweep_range-Kept n s r.0 (p + 1) q (total + r.1) (omega arith))

limit_below :
    (pages claim : ℕ)
    → claim < pages
    → claim + ((if leb pages (claim + 128) then pages - 1 else claim + 128) - claim) ≤ pages - 1
limit_below pages claim lt = ground arith

sweep_claims-Kept :
    (fuel pages : ℕ) (s : Space) (c : Collection) (claim total : ℕ)
    → 0 < fuel
    → pages < claim + fuel
    → Kept s (pages - 1) c (sweep_claims fuel pages s c claim total)
unfolding sweep_claims
sweep_claims-Kept zero pages s c claim total some lt = absurd (omega (arith, some))
sweep_claims-Kept (suc fuel) pages s c claim total _ lt = elim (Bool-cases (ltb claim pages)) [
  | inl e ↦ rw e (
      Kept-then _
        (sweep_range-Kept _ s c claim (pages - 1) total
          (limit_below pages claim (ground (arith, e))))
        (λ r.
          sweep_claims-Kept fuel pages s r.0 (claim + pages_claimed_per_thread) r.1
            (ground (arith, e, lt)) (omega (arith, lt))))
  | inr e ↦ rw e (kept {total = total} (SamePage-refl c))
]

-- What `sweep_lines` leaves of a page: it calls `lose`, or the page is as it was.
pub data Unswept (s : Space) (q : ℕ) (c : Collection) : Outcome Collection → Type 0 where
  unswept : {c' : Collection} → SamePage s q c c' → Unswept s q c (ok c')
  gave_up : Unswept s q c lost

-- Whatever is on the last page of the table, `sweep_lines` runs to its end or calls `lose`, and in the
-- first case the entry, the lines, the allocation bits and the mark bits of that page are as they
-- were.
pub sweep_lines-Unswept :
    (s : Space) (pages : ℕ) (c : Collection) → Unswept s (pages - 1) c (sweep_lines s pages c)
unfolding sweep_lines
sweep_lines-Unswept s pages c =
    finish (sweep_claims-Kept (pages + 1) pages s c 0 0 (omega arith) (omega arith))
  where
    finish :
        {o : Outcome (Collection × ℕ)}
        → Kept s (pages - 1) c o
        → Unswept s (pages - 1) c (
            o >>= λ r. ok (record (r.0) {
              heap = record (r.0.heap) {
                generations =
                    assign r.0.heap.generations c.generation_to_collect
                      (r.0.heap.generations c.generation_to_collect - r.1);
              };
            }))
    finish stopped = gave_up
    finish (kept same) = unswept (record {
      entry = same.entry;
      lines = same.lines;
      allocs = same.allocs;
      marks = same.marks;
    })
