-- ===== src/MarkRegion/Sweep/Line.antt =====
-- A line in `sweep_small_page` of src/runtime/mark-region.c.
use cl.Common.{
  ◌⊎◌, ℕ, ◌+◌, ◌%◌, ◌≤◌, ◌<◌, ◌≡◌, ◌≢◌, refl, arith, inl, inr, true, false, Bool-cases, ◌&&◌, ◌==◌,
  ==_iff, if◌then◌else◌, leb, ltb, bit_or, update_range_lem,
}
use cl.Common.Bits.{every_below, every_below_sound, byte_eq}
use cl.MarkRegion.{
  Space, lines_per_page, page_to_line, mark_gen, unmark_gen, unfreshen_gen, encode_gen,
}
use cl.MarkRegion.Sweep.{Collection, swept_allocs, swept_line, sweep_small_page}

-- The low five and four bits of a byte, and a mark on a generation.
pub unfreshen_rem : (l : ℕ) → l < 256 → unfreshen_gen l ≡ l % 32
unfolding every_below
unfreshen_rem = byte_eq _ _ refl

pub unmark_rem : (l : ℕ) → l < 256 → unmark_gen l ≡ l % 16
unfolding every_below
unmark_rem = byte_eq _ _ refl

pub mark_sum : (u : ℕ) → u < 16 → mark_gen u ≡ u + 16
unfolding every_below
mark_sum u lt = (==_iff _ _).0 (every_below_sound 16 (λ u. bit_or u 16 == u + 16) u refl lt)

-- What a line byte, the allocation byte and the mark byte of a line become when the generation
-- of byte `u` is swept: a dead line is free, a marked one loses its mark, the others only lose
-- that they are fresh; the marks of the generation become its allocations.
pub data SweptLine (u line alloc mark : ℕ) : ℕ → ℕ → Type 0 where
  dead : line % 32 ≡ u → SweptLine u line alloc mark 0 mark
  survivor : line % 32 ≡ u + 16 → SweptLine u line alloc mark u mark
  other : line % 16 ≢ u → SweptLine u line alloc mark (line % 32) alloc

swept_cases :
    (u line alloc mark : ℕ)
    → u < 16
    → line < 256
    → SweptLine u line alloc mark (swept_line u line) (swept_allocs u line mark alloc)
unfolding swept_line swept_allocs
swept_cases u line alloc mark small byte = rw (unfreshen_rem line byte) (
    rw (unmark_rem line byte) (
      rw (mark_sum u small) (
        cases (Bool-cases (line % 32 == u)) (Bool-cases (line % 32 == u + 16))
          (Bool-cases (line % 16 == u)))))
  where
    cases :
        ((line % 32 == u) ≡ true) ⊎ ((line % 32 == u) ≡ false)
        → ((line % 32 == u + 16) ≡ true) ⊎ ((line % 32 == u + 16) ≡ false)
        → ((line % 16 == u) ≡ true) ⊎ ((line % 16 == u) ≡ false)
        → SweptLine u line alloc mark
            (if line % 32 == u then 0 else if line % 32 == u + 16 then u else line % 32)
            (if line % 16 == u then mark else alloc)
    cases (inl a) b (inl c) = rw a (rw c (dead (ground arith)))
    cases (inl a) b (inr c) = absurd (ground arith)
    cases (inr a) (inl b) (inl c) = rw a (rw b (rw c (survivor (ground arith))))
    cases (inr a) (inl b) (inr c) = absurd (ground arith)
    cases (inr a) (inr b) (inl c) = absurd (ground arith)
    cases (inr a) (inr b) (inr c) = rw a (rw b (rw c (other (ground arith))))

-- The lines of page `p`.
abbrev pub OnPage : Space → ℕ → ℕ → Type 0
OnPage s p i = (page_to_line s p ≤ i) × (i < page_to_line s p + lines_per_page s)

-- All that `sweep_small_page` does to line `i`.
abbrev pub SweptPage : Space → Collection → ℕ → Collection → ℕ → Type 0
SweptPage s c p c' i =
    (OnPage s p i
      → SweptLine (encode_gen c.generation_to_collect) (c.heap.line_bytemap i)
          (c.allocation_bitmap i) (c.mark_bitmap i) (c'.heap.line_bytemap i)
          (c'.allocation_bitmap i)
        × (c'.mark_bitmap i ≡ 0))
    × (¬ OnPage s p i
        → (c'.heap.line_bytemap i ≡ c.heap.line_bytemap i)
          × (c'.allocation_bitmap i ≡ c.allocation_bitmap i)
          × (c'.mark_bitmap i ≡ c.mark_bitmap i))

-- In a collection of a generation below 15, where every line is a byte, `sweep_small_page` sweeps
-- each line of the page: a line that belongs to the generation becomes free if it has no mark and
-- loses its mark if it has one, and its allocation bits become its mark bits; another line keeps
-- its generation, its mark and its allocation bits and is no longer fresh; the mark bits become
-- 0. The lines, allocation bits and mark bits outside the page stay.
pub sweep_small_page-SweptPage :
    (s : Space) (c : Collection) (p : ℕ)
    → c.generation_to_collect < 15
    → ((i : ℕ) → c.heap.line_bytemap i < 256)
    → (i : ℕ) → SweptPage s c p (sweep_small_page s c p) i
unfolding sweep_small_page
sweep_small_page-SweptPage s c p small bytes i =
    rw
      (update_range_lem
        (λ l old.
          swept_allocs (encode_gen c.generation_to_collect) (c.heap.line_bytemap l)
            (c.mark_bitmap l) old)
        (lines_per_page s) (page_to_line s p) c.allocation_bitmap i)
      (rw
        (update_range_lem (λ _ l. swept_line (encode_gen c.generation_to_collect) l)
          (lines_per_page s) (page_to_line s p) c.heap.line_bytemap i)
        (rw (update_range_lem (λ _ _. 0) (lines_per_page s) (page_to_line s p) c.mark_bitmap i) (
          λ on.
              (let e : (leb (page_to_line s p) i && ltb i (page_to_line s p + lines_per_page s))
                    ≡ true =
                  ground (arith, on) in
                rw e (
                  swept_cases (encode_gen c.generation_to_collect) (c.heap.line_bytemap i)
                      (c.allocation_bitmap i) (c.mark_bitmap i) (omega (arith, small)) (bytes i),
                  refl,
                )),
          λ off.
              (let e : (leb (page_to_line s p) i && ltb i (page_to_line s p + lines_per_page s))
                    ≡ false =
                  ground (arith, off) in
                rw e (refl, refl, refl)),
        )))
