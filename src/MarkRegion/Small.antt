-- ===== src/MarkRegion/Small.antt =====
-- What `try_allocate_small` claims.
use cl.Common.{
  ℕ, zero, suc, ◌+◌, ◌-◌, ◌≤◌, ◌<◌, ◌≡◌, refl, arith, inl, inr, Bool, ◌&&◌, Bool-cases, Option,
  none, some, ltb, leb, ◌==◌, if◌then◌else◌, Returns, Returns-mono, leb→le, update_range,
  update_range-to,
}
use cl.MarkRegion.Runs.{Chunk, following, NoRun, too_small-NoRun, NoRun-end}
use cl.MarkRegion.{
  Space, AllocRegion, region_of, claimed_line, lines_of, find_free_line, find_used_line,
  small_rounds, try_allocate_small,
}

-- The lines from `first` to before `last`, which were free and are now claimed.
pub record Claims (s : Space) (gc_active : Bool) (nbytes : ℕ) (lines : ℕ → ℕ) (start end : ℕ)
    (region : AllocRegion) (after : ℕ → ℕ) : Type 0 where
  pub first : ℕ
  pub last : ℕ
  pub low : start ≤ first
  pub high : last ≤ end
  pub shape : region ≡ region_of s nbytes first last
  pub fits : region.free_pointer ≤ region.end_addr
  pub free : (i : ℕ) → first ≤ i → i < last → lines i ≡ 0
  pub claimed :
      (i : ℕ) → after i ≡ (if leb first i && ltb i last then claimed_line gc_active else lines i)

abbrev pub Allocated : Space → Bool → ℕ → (ℕ → ℕ) → ℕ → ℕ → Option AllocRegion × (ℕ → ℕ) → Type 0
Allocated s gc_active nbytes lines start end (none, after) =
    (after ≡ lines) × NoRun lines (lines_of nbytes) start end
Allocated s gc_active nbytes lines start end (some region, after) =
    Claims s gc_active nbytes lines start end region after

module _ (s : Space) (gc_active : Bool) (nbytes : ℕ) (lines : ℕ → ℕ) (end : ℕ) where
  claim :
      (start first last : ℕ)
      → Chunk lines start end first last
      → lines_of nbytes ≤ last - first
      → Claims s gc_active nbytes lines start end
          (region_of s nbytes first last)
          (update_range (λ _ _. claimed_line gc_active) (last - first) first lines)
  claim start first last c large = record {
    first = first;
    last = last;
    low = c.low;
    high = c.high;
    shape = refl;
    fits = omega (arith, c.order);
    free = c.free;
    claimed =
        λ i. update_range-to {A = ℕ} (λ _ _. claimed_line gc_active) first last lines i c.order;
  }

  wider :
      (start first last : ℕ)
      → Chunk lines start end first last
      → last - first < lines_of nbytes
      → (r : Option AllocRegion × (ℕ → ℕ)) → Allocated s gc_active nbytes lines last end r
      → Allocated s gc_active nbytes lines start end r
  wider start first last c small (none, after) (same, no_run) =
      (same, too_small-NoRun lines (lines_of nbytes) end start first last c small no_run)
  wider start first last c small (some region, after) r = record {
    first = r.first;
    last = r.last;
    low = omega (arith, c.low, c.order, r.low);
    high = r.high;
    shape = r.shape;
    fits = r.fits;
    free = r.free;
    claimed = r.claimed;
  }

  small_rounds-Allocated :
      (fuel start : ℕ)
      → start ≤ end
      → end - start < fuel
      → Returns
          (small_rounds fuel s gc_active nbytes lines start end)
          (Allocated s gc_active nbytes lines start end)
  unfolding small_rounds
  small_rounds-Allocated zero start le h = absurd (omega arith)
  small_rounds-Allocated (suc fuel) start le h =
      let c = following lines start end le in
      let first = find_free_line lines start end in
      let last = find_used_line lines first end in
      elim (Bool-cases (leb (lines_of nbytes) (last - first))) [
        | inl large ↦ rw large (claim start first last c (leb→le _ _ large))
        | inr small ↦
            let less : last - first < lines_of nbytes = ground arith in
            elim (Bool-cases (last == end)) [
              | inl at_end ↦
                  let e : last ≡ end = ground arith in
                  rw (small, at_end)
                    (wider start first last c less (none, lines)
                      (refl, rw e (NoRun-end lines (lines_of nbytes) end (omega arith))))
              | inr more ↦
                  let inside : last < end = ground (arith, c.high) in
                  rw (small, more)
                    (Returns-mono _ _ _ (wider start first last c less) (
                      small_rounds-Allocated fuel last c.high
                        (omega (arith, c.low, c.order, c.not_empty (omega (arith, c.order))))))
            ]
      ]

-- `try_allocate_small` always returns. If it makes a region, that is a chunk of lines between
-- `start` and `end` that were all free, large enough for `nbytes` and starting at its first line;
-- exactly these lines are claimed. If it does not, every run of enough lines has one in use, and
-- the lines are unchanged.
pub try_allocate_small-Allocated :
    (s : Space) (gc_active : Bool) (nbytes : ℕ) (lines : ℕ → ℕ) (start end : ℕ)
    → start ≤ end
    → Returns
        (try_allocate_small s gc_active nbytes lines start end)
        (Allocated s gc_active nbytes lines start end)
unfolding try_allocate_small
try_allocate_small-Allocated s gc_active nbytes lines start end le =
    small_rounds-Allocated s gc_active nbytes lines end (end - start + 1) start le (omega arith)
