-- ===== src/MarkRegion/Sweep/Accounts.antt =====
-- The bytes that `sweep_page` counts on a page, as the sweep of src/runtime/mark-region.c leaves them.
use cl.Common.{
  ℕ, ◌+◌, ◌-◌, ◌*◌, ◌/◌, ◌%◌, ◌≤◌, ◌<◌, ◌≡◌, ◌≢◌, refl, ap, ◌∙◌, arith, Bool, true, false, ◌&&◌,
  ◌||◌, ◌==◌, if◌then◌else◌, leb, ltb, update_range, update_range_lem, Outcome, ok, lost,
}
use cl.MarkRegion.{Space, line_size, lines_per_page, page_to_line, encode_gen}
use cl.MarkRegion.Pages.{Heap, page_free_p, page_bytes_used}
use cl.MarkRegion.Sweep.Counts.{
  count_used, count_used-ext, IsClosedLine, count_dead-count_used, account_lines-used, count_of,
  account_lines-generations, kept_line,
}
use cl.MarkRegion.Sweep.{
  Collection, page_single_obj_p, count_dead, count_dead_bytes, swept_line, sweep_small_page,
  fully_swept_line, account_lines, sweep_page_fully, sweep_page, set_bytes_used,
}

-- The bytes of a page are those of its lines that are not free.
abbrev pub IsCounted : Space → Heap → ℕ → Type 0
IsCounted s h p =
    page_bytes_used (h.page_table p)
    ≡ count_used (lines_per_page s) h.line_bytemap (page_to_line s p) * line_size

abbrev ClosedPage : Space → Heap → ℕ → Type 0
ClosedPage s h p =
    (i : ℕ)
    → page_to_line s p ≤ i
    → i < page_to_line s p + lines_per_page s
    → IsClosedLine (h.line_bytemap i)

-- The pages that the sweep passes over: the free ones and those of large objects.
abbrev pub passed_over : Collection → ℕ → Bool
passed_over c p = page_free_p (c.heap.page_table p) || page_single_obj_p (c.heap.page_table p)

-- What the sweep of a page leaves. `c` is the state before, `r` the one afterwards.
pub record IsSwept (s : Space) (c : Collection) (p : ℕ) (r : Collection) (decrement : ℕ)
    : Type 0 where
  pub counted : IsCounted s r.heap p
  pub passed : passed_over c p ≡ true → (r ≡ c) × (decrement ≡ 0)
  pub lost_bytes :
      c.generation_to_collect ≢ s.pseudo_static_generation
      → page_bytes_used (r.heap.page_table p) + decrement ≡ page_bytes_used (c.heap.page_table p)
  pub kept_generations :
      c.generation_to_collect ≢ s.pseudo_static_generation → r.heap.generations ≡ c.heap.generations
  pub full_decrement : c.generation_to_collect ≡ s.pseudo_static_generation → decrement ≡ 0
  pub full_lines :
      c.generation_to_collect ≡ s.pseudo_static_generation
      → passed_over c p ≡ false
      → (i : ℕ) → page_to_line s p ≤ i
      → i < page_to_line s p + lines_per_page s
      → r.heap.line_bytemap i
        ≡ (if c.heap.line_bytemap i / 16 % 2 == 0 then 0 else c.heap.line_bytemap i % 16)
  pub full_generations :
      c.generation_to_collect ≡ s.pseudo_static_generation
      → passed_over c p ≡ false
      → (g : ℕ)
      → r.heap.generations g
        ≡ c.heap.generations g
          + count_of (lines_per_page s) r.heap.line_bytemap (page_to_line s p) g * line_size

pub data SweptCount (s : Space) (c : Collection) (p : ℕ) : Outcome (Collection × ℕ) → Type 0 where
  swept_count :
      {r : Collection} {decrement : ℕ}
      → IsSwept s c p r decrement
      → SweptCount s c p (ok (r, decrement))

SweptCount-if :
    {s : Space} {c : Collection} {p : ℕ} (b : Bool) {x y : Outcome (Collection × ℕ)}
    → (b ≡ true → SweptCount s c p x)
    → (b ≡ false → SweptCount s c p y)
    → SweptCount s c p (if b then x else y)
SweptCount-if true x y = x refl
SweptCount-if false x y = y refl

set_bytes_used-read :
    (h : Heap) (p k : ℕ)
    → page_bytes_used ((set_bytes_used h p (k * line_size)).page_table p) ≡ k * line_size
set_bytes_used-read h p k = let e : (p == p) ≡ true = ground arith in rw e (omega arith)

count_used-swept :
    (s : Space) (f g : ℕ → ℕ) (p : ℕ)
    → count_used
        (lines_per_page s)
        (update_range (λ _ l. g l) (lines_per_page s) (page_to_line s p) f)
        (page_to_line s p)
      ≡ count_used (lines_per_page s) (λ i. g (f i)) (page_to_line s p)
count_used-swept s f g p = count_used-ext (lines_per_page s) _ _ (page_to_line s p) (λ i ge lt.
    let e : (leb (page_to_line s p) i && ltb i (page_to_line s p + lines_per_page s)) ≡ true =
      ground (arith, ge, lt) in
    update_range_lem (λ _ l. g l) (lines_per_page s) (page_to_line s p) f i ∙ (rw e refl))

SweptCount-full :
    (s : Space) (c : Collection) (p : ℕ)
    → c.generation_to_collect ≡ s.pseudo_static_generation
    → passed_over c p ≡ false
    → ClosedPage s c.heap p
    → SweptCount s c p (ok (sweep_page_fully s c p, 0))
unfolding sweep_page_fully
SweptCount-full s c p all looked closed = swept_count (record {
  counted =
      ap (λ t. page_bytes_used ((set_bytes_used c.heap p t).page_table p)) total
      ∙ set_bytes_used-read c.heap p (count_used (lines_per_page s) lines (page_to_line s p));
  passed = λ e. absurd (ground (arith, e, looked));
  lost_bytes = λ other. absurd (other all);
  kept_generations = λ other. absurd (other all);
  full_decrement = λ _. refl;
  full_lines = λ _ _. line_left;
  full_generations = λ _ _ g.
      account_lines-generations (lines_per_page s) lines (page_to_line s p) c.heap.generations 0 g
        small_line;
})
  where
    lines : ℕ → ℕ
    lines =
        update_range (λ _ l. fully_swept_line l) (lines_per_page s) (page_to_line s p)
          c.heap.line_bytemap

    total :
        (account_lines (lines_per_page s) lines (page_to_line s p) c.heap.generations 0).1
        ≡ count_used (lines_per_page s) lines (page_to_line s p) * line_size
    total =
        omega (
          arith,
          account_lines-used (lines_per_page s) lines (page_to_line s p) c.heap.generations 0,
        )

    line_left :
        (i : ℕ)
        → page_to_line s p ≤ i
        → i < page_to_line s p + lines_per_page s
        → lines i ≡ (if c.heap.line_bytemap i / 16 % 2 == 0 then 0 else c.heap.line_bytemap i % 16)
    line_left i ge lt =
        let e : (leb (page_to_line s p) i && ltb i (page_to_line s p + lines_per_page s)) ≡ true =
          ground (arith, ge, lt) in
        update_range_lem (λ _ l. fully_swept_line l) (lines_per_page s) (page_to_line s p)
          c.heap.line_bytemap i
        ∙ rw e (kept_line (c.heap.line_bytemap i) (closed i ge lt).0)

    small_line :
        (i : ℕ) → page_to_line s p ≤ i → i < page_to_line s p + lines_per_page s → lines i < 16
    small_line i ge lt = ground (arith, line_left i ge lt)

-- The lines that are dead and those that stay are the lines that were in use.
dead_and_left :
    (s : Space) (c : Collection) (p : ℕ)
    → c.generation_to_collect < 15
    → ClosedPage s c.heap p
    → count_dead
          (lines_per_page s)
          c.heap.line_bytemap
          (encode_gen c.generation_to_collect)
          (page_to_line s p)
        + count_used
            (lines_per_page s)
            (update_range
              (λ _ l. swept_line (encode_gen c.generation_to_collect) l)
              (lines_per_page s)
              (page_to_line s p)
              c.heap.line_bytemap)
            (page_to_line s p)
      ≡ count_used (lines_per_page s) c.heap.line_bytemap (page_to_line s p)
dead_and_left s c p small closed =
    let u : ℕ = encode_gen c.generation_to_collect in
    let dead : ℕ = count_dead (lines_per_page s) c.heap.line_bytemap u (page_to_line s p) in
    ap (λ t. dead + t) (count_used-swept s c.heap.line_bytemap (swept_line u) p)
    ∙ count_dead-count_used (lines_per_page s) c.heap.line_bytemap u (page_to_line s p)
        (omega arith) (omega (arith, small)) closed

SweptCount-small :
    (s : Space) (c : Collection) (p : ℕ)
    → c.generation_to_collect ≢ s.pseudo_static_generation
    → passed_over c p ≡ false
    → c.generation_to_collect < 15
    → ClosedPage s c.heap p
    → IsCounted s c.heap p
    → SweptCount s c p (
        ok (
          sweep_small_page s
              (record c {
                heap =
                    set_bytes_used c.heap p
                      (page_bytes_used (c.heap.page_table p) - count_dead_bytes s c p);
              })
              p,
          count_dead_bytes s c p,
        ))
unfolding sweep_small_page count_dead_bytes
SweptCount-small s c p part looked small closed counted =
    let here : (p == p) ≡ true = ground arith in
    let sum = dead_and_left s c p small closed in
    swept_count (record {
      counted = rw here (omega (arith, sum, counted));
      passed = λ e. absurd (ground (arith, e, looked));
      lost_bytes = λ _. rw here (omega (arith, sum, counted));
      kept_generations = λ _. refl;
      full_decrement = λ all. absurd (part all);
      full_lines = λ all. absurd (part all);
      full_generations = λ all. absurd (part all);
    })

enough_bytes :
    (s : Space) (c : Collection) (p : ℕ)
    → c.generation_to_collect < 15
    → ClosedPage s c.heap p
    → IsCounted s c.heap p
    → ltb (page_bytes_used (c.heap.page_table p)) (count_dead_bytes s c p) ≢ true
unfolding count_dead_bytes
enough_bytes s c p small closed counted less =
    let sum = dead_and_left s c p small closed in ground (arith, sum, counted, less)

-- In a collection of a generation below 15, let the lines of the page be bytes, a line without a
-- generation be free, and the page count the bytes of its lines that are in use. Then
-- `sweep_page` does not call `lose`, and the page afterwards counts the bytes of its lines that are
-- in use. A page that is free or of a large object is left as it is. When it is not everything that
-- is collected, the bytes that the generation is to lose are those that the page has lost, and the
-- bytes of the generations are not changed yet. When everything is collected, the generation is to
-- lose nothing; on a page that is swept a marked line keeps its generation and any other is free,
-- and each generation gains the bytes of the lines that are left to it.
pub sweep_page-SweptCount :
    (s : Space) (c : Collection) (p : ℕ)
    → c.generation_to_collect < 15
    → ((i : ℕ)
        → page_to_line s p ≤ i
        → i < page_to_line s p + lines_per_page s
        → IsClosedLine (c.heap.line_bytemap i))
    → IsCounted s c.heap p
    → SweptCount s c p (sweep_page s c p)
unfolding sweep_page
sweep_page-SweptCount s c p small closed counted =
    let page = c.heap.page_table p in
    SweptCount-if (passed_over c p)
      (λ e. swept_count (record {
        counted = counted;
        passed = λ _. (refl, refl);
        lost_bytes = λ _. omega arith;
        kept_generations = λ _. refl;
        full_decrement = λ _. refl;
        full_lines = λ _ f. absurd (ground (arith, e, f));
        full_generations = λ _ f. absurd (ground (arith, e, f));
      }))
      (λ looked.
        SweptCount-if (c.generation_to_collect == s.pseudo_static_generation)
          (λ e. SweptCount-full s c p (ground (arith, e)) looked closed)
          (λ e.
            let part : c.generation_to_collect ≢ s.pseudo_static_generation = ground (arith, e) in
            SweptCount-if (page.gen == s.pseudo_static_generation) (λ _. kept part looked)
              (λ _.
                SweptCount-if (ltb (page_bytes_used page) (count_dead_bytes s c p)) enough
                  (λ _. SweptCount-small s c p part looked small closed counted))))
  where
    kept :
        c.generation_to_collect ≢ s.pseudo_static_generation
        → passed_over c p ≡ false
        → SweptCount s c p (ok (c, 0))
    kept part looked = swept_count (record {
      counted = counted;
      passed = λ e. (refl, refl);
      lost_bytes = λ _. omega arith;
      kept_generations = λ _. refl;
      full_decrement = λ _. refl;
      full_lines = λ all. absurd (part all);
      full_generations = λ all. absurd (part all);
    })

    enough :
        ltb (page_bytes_used (c.heap.page_table p)) (count_dead_bytes s c p) ≡ true
        → SweptCount s c p lost
    enough less = absurd (enough_bytes s c p small closed counted less)
