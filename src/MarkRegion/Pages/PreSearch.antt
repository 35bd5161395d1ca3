-- ===== src/MarkRegion/Pages/PreSearch.antt =====
-- `pre_search_for_small_space` in src/runtime/mark-region.c, the search for a page before the lock is
-- taken, and the search under the lock that starts where it stops.
use cl.Common.{
  ℕ, zero, suc, ◌+◌, ◌-◌, ◌≤◌, ◌<◌, ◌≡◌, ◌≢◌, refl, ap, ◌∙◌, arith, ◌⊎◌, inl, inr, Bool, true,
  false, not, Bool-cases, Option, none, some, ltb, leb, ◌==◌, if◌then◌else◌, Outcome, ok, fault,
  ◌>>=◌, Returns, Returns-mono, Returns-ok, ltb→lt, leb→le,
}
use cl.MarkRegion.{
  Space, AllocRegion, lines_of, find_free_line, find_used_line, page_to_line, lines_per_page,
  try_allocate_small,
}
use cl.MarkRegion.Runs.{Chunk, following, NoRun, too_small-NoRun}
use cl.MarkRegion.Small.{Allocated, try_allocate_small-Allocated}
use cl.MarkRegion.Pages.{
  Heap, AllocatorState, Search, suitable, claim_page, page_rounds, try_allocate_small_from_pages,
}

-- The `while` loop over the lines of a page, on fuel for its rounds: whether there is a chunk of
-- enough lines. `find_free_line` never returns -1, and the test for that is left out.
unfoldable pub line_rounds : ℕ → ℕ → (ℕ → ℕ) → ℕ → ℕ → Outcome Bool
line_rounds zero nbytes lines where_ last_line = fault
line_rounds (suc fuel) nbytes lines where_ last_line =
    let chunk_start = find_free_line lines where_ last_line in
    let chunk_end = find_used_line lines chunk_start last_line in
    let next = line_rounds fuel nbytes lines (chunk_end + 1) last_line in
    let round = if leb (lines_of nbytes) (chunk_end - chunk_start) then ok true else next in
    if ltb where_ last_line then round else ok false

unfoldable pub has_space : Space → Heap → ℕ → ℕ → Outcome Bool
has_space s h nbytes page =
    line_rounds (lines_per_page s + 1) nbytes h.line_bytemap (page_to_line s page)
      (page_to_line s page + lines_per_page s)

-- The `for` loop over `n` pages.
unfoldable pub pre_search_rounds :
    ℕ → Space → Heap → ℕ → ℕ → AllocatorState → ℕ → Outcome AllocatorState
pre_search_rounds zero s h nbytes page_type state page = ok state
pre_search_rounds (suc n) s h nbytes page_type state page =
    let next = pre_search_rounds n s h nbytes page_type state (page + 1) in
    let try = has_space s h nbytes page >>= λ found.
    if found then ok (record state { page = page }) else next in
    if suitable s h nbytes page_type state.allow_free_pages page then try else next

unfoldable pub pre_search_for_small_space :
    Space → Heap → ℕ → ℕ → AllocatorState → ℕ → Outcome AllocatorState
pre_search_for_small_space s h nbytes page_type state end =
    pre_search_rounds (end - state.page) s h nbytes page_type state state.page

-- Some run of `n` free lines.
record HasRun (lines : ℕ → ℕ) (n start end : ℕ) : Type 0 where
  at : ℕ
  low : start ≤ at
  high : at + n ≤ end
  free : (i : ℕ) → at ≤ i → i < at + n → lines i ≡ 0

abbrev Scanned : (ℕ → ℕ) → ℕ → ℕ → ℕ → Bool → Type 0
Scanned lines n start end true = HasRun lines n start end
Scanned lines n start end false = NoRun lines n start end

module _ (nbytes : ℕ) (pos : 0 < nbytes) (lines : ℕ → ℕ) (end : ℕ) where
  abbrev wanted : ℕ
  wanted = lines_of nbytes

  some_lines : 0 < wanted
  some_lines = omega arith

  skip_end :
      (last : ℕ)
      → last ≤ end
      → (last < end → lines last ≢ 0)
      → NoRun lines wanted (last + 1) end
      → NoRun lines wanted last end
  skip_end last le used rest a ge high = elim (Bool-cases (a == last)) [
    | inl e ↦
        let here : a ≡ last = ground arith in
        (last, omega arith, omega (arith, some_lines), used (omega (arith, some_lines)))
    | inr e ↦ rest a (ground (arith, e)) high
  ]

  Scanned-later :
      (start first last : ℕ) (b : Bool)
      → Chunk lines start end first last
      → last - first < wanted
      → Scanned lines wanted (last + 1) end b
      → Scanned lines wanted start end b
  Scanned-later start first last true c small r = record {
    at = r.at;
    low = omega (arith, c.low, c.order, r.low);
    high = r.high;
    free = r.free;
  }
  Scanned-later start first last false c small r =
      too_small-NoRun lines wanted end start first last c small
        (skip_end last c.high c.used_at_end r)

  line_rounds-Scanned :
      (fuel start : ℕ)
      → end < start + fuel
      → start ≤ end + 1
      → 0 < fuel
      → Returns (line_rounds fuel nbytes lines start end) (Scanned lines wanted start end)
  unfolding line_rounds
  line_rounds-Scanned zero start enough le some_fuel = absurd (omega arith)
  line_rounds-Scanned (suc fuel) start enough le some_fuel = elim (Bool-cases (ltb start end)) [
    | inr done ↦ rw done (λ a ge high. absurd (ground (arith, some_lines, done)))
    | inl inside ↦
        let c = following lines start end (ground (arith, inside)) in
        let first = find_free_line lines start end in
        let last = find_used_line lines first end in
        elim (Bool-cases (leb wanted (last - first))) [
          | inl large ↦
              rw (inside, large)
                (record {
                  at = first;
                  low = c.low;
                  high = omega (arith, leb→le _ _ large, c.high, c.order);
                  free = λ i ge lt. c.free i ge (omega (arith, leb→le _ _ large, c.order));
                })
          | inr small ↦
              rw (inside, small)
                (Returns-mono (Scanned lines wanted (last + 1) end) (Scanned lines wanted start end)
                  (line_rounds fuel nbytes lines (last + 1) end)
                  (λ b. Scanned-later start first last b c (ground (arith, small)))
                  (line_rounds-Scanned fuel (last + 1) (omega (arith, c.low, c.order))
                    (omega (arith, c.high)) (omega (arith, ltb→lt start end inside))))
        ]
  ]

-- `has_space` foretells whether `try_allocate_small` claims lines of the page.
module _ (s : Space) (h : Heap) (nbytes : ℕ) (pos : 0 < nbytes) where
  abbrev try_page : ℕ → Outcome (Option AllocRegion × (ℕ → ℕ))
  try_page page =
      try_allocate_small s h.gc_active nbytes h.line_bytemap (page_to_line s page)
        (page_to_line s (page + 1))

  Foretold : ℕ → Bool → Type 0
  Foretold page true =
      (region : AllocRegion) × (after : ℕ → ℕ) × (try_page page ≡ ok (some region, after))
  Foretold page false = try_page page ≡ ok (none, h.line_bytemap)

  next_line : (page : ℕ) → page_to_line s page + lines_per_page s ≡ page_to_line s (page + 1)
  next_line page = omega arith

  foretold :
      (page : ℕ) (b : Bool) (r : Option AllocRegion × (ℕ → ℕ))
      → try_page page ≡ ok r
      → Allocated s h.gc_active nbytes h.line_bytemap
          (page_to_line s page)
          (page_to_line s (page + 1))
          r
      → Scanned h.line_bytemap (lines_of nbytes) (page_to_line s page) (page_to_line s (page + 1)) b
      → Foretold page b
  unfolding Foretold
  foretold page true (some region, after) e claims run = (region, after, e)
  foretold page true (none, after) e (same, no_run) run =
      let (i, ge, lt, used) = no_run run.at run.low run.high in absurd (used (run.free i ge lt))
  foretold page false (none, after) e (same, no_run) nothing = e ∙ rw same refl
  foretold page false (some region, after) e claims nothing =
      let fits = rw claims.shape at claims.fits in
      let (i, ge, lt, used) = nothing claims.first claims.low (omega (arith, fits, claims.high)) in
      absurd (used (claims.free i ge (omega (arith, fits))))

  has_space-Foretold : (page : ℕ) → Returns (has_space s h nbytes page) (Foretold page)
  unfolding has_space
  has_space-Foretold page =
      let start = page_to_line s page in
      let end = page_to_line s (page + 1) in
      let (r, e, allocated) =
        Returns-ok (Allocated s h.gc_active nbytes h.line_bytemap start end) (try_page page) (
          try_allocate_small-Allocated s h.gc_active nbytes h.line_bytemap start end
            (omega arith)) in
      rw (next_line page) (
        Returns-mono (Scanned h.line_bytemap (lines_of nbytes) start end) (Foretold page)
          (line_rounds (lines_per_page s + 1) nbytes h.line_bytemap start end)
          (λ b. foretold page b r e allocated)
          (line_rounds-Scanned nbytes pos h.line_bytemap end (lines_per_page s + 1) start
            (omega arith) (omega arith) (omega arith)))

-- The search under the lock, over `n` pages, from where the search before it stopped.
module _ (s : Space) (h : Heap) (nbytes page_type gen : ℕ) (pos : 0 < nbytes) where
  -- The state is unchanged, or at a page where the search makes the same region.
  IsAhead : AllocatorState → ℕ → ℕ → AllocatorState → Type 0
  IsAhead start page n state =
      (state ≡ start)
      ⊎ ((target : ℕ) × (rest : ℕ) × (page + n ≡ target + suc rest)
          × (page ≤ target)
          × (state ≡ record start { page = target })
          × (r : Search) × (page_rounds n s h nbytes page_type gen start page ≡ ok r)
          × ((region : AllocRegion) × (r.region ≡ some region))
          × (page_rounds (suc rest) s h nbytes page_type gen (record start { page = target }) target
              ≡ ok r))

  abbrev Passes : AllocatorState → ℕ → ℕ → Type 0
  Passes start page n =
      page_rounds (suc n) s h nbytes page_type gen start page
      ≡ page_rounds n s h nbytes page_type gen start (page + 1)

  passed_unsuitable :
      (start : AllocatorState) (page n : ℕ)
      → suitable s h nbytes page_type start.allow_free_pages page ≡ false
      → Passes start page n
  unfolding page_rounds
  passed_unsuitable start page n other = rw other refl

  passed_full :
      (start : AllocatorState) (page n : ℕ)
      → suitable s h nbytes page_type start.allow_free_pages page ≡ true
      → Foretold s h nbytes pos page false
      → Passes start page n
  unfolding page_rounds Foretold
  passed_full start page n fits e = rw (fits, e) refl

  IsAhead-later :
      (start : AllocatorState) (page n : ℕ) (state : AllocatorState)
      → Passes start page n
      → IsAhead start (page + 1) n state
      → IsAhead start page (suc n) state
  unfolding IsAhead
  IsAhead-later start page n state skip (inl same) = inl same
  IsAhead-later start page n state skip (inr (target, rest, size, le, at, r, e, region, f)) =
      inr (target, rest, omega (arith, size), omega arith, at, r, skip ∙ e, region, f)

  IsAhead-found :
      (start : AllocatorState) (page n : ℕ)
      → suitable s h nbytes page_type start.allow_free_pages page ≡ true
      → Foretold s h nbytes pos page true
      → IsAhead start page (suc n) (record start { page = page })
  unfolding IsAhead Foretold page_rounds
  IsAhead-found start page n fits (region, after, e) = inr (
    page,
    n,
    refl,
    omega arith,
    refl,
    record {
      region = some region;
      start = record start { page = page + 1 };
      heap = claim_page s h page_type gen page after;
    },
    rw (fits, e) refl,
    (region, refl),
    rw (fits, e) refl,
  )

  rounds-IsAhead :
      (n : ℕ) (start : AllocatorState) (page : ℕ)
      → Returns (pre_search_rounds n s h nbytes page_type start page) (IsAhead start page n)
  unfolding pre_search_rounds IsAhead
  rounds-IsAhead zero start page = inl refl
  rounds-IsAhead (suc n) start page =
      let rest = rounds-IsAhead n start (page + 1) in
      let later = λ (skip : Passes start page n).
        Returns-mono (IsAhead start (page + 1) n) (IsAhead start page (suc n))
          (pre_search_rounds n s h nbytes page_type start (page + 1))
          (λ state. IsAhead-later start page n state skip) rest in
      elim (Bool-cases (suitable s h nbytes page_type start.allow_free_pages page)) [
        | inr other ↦ rw other (later (passed_unsuitable start page n other))
        | inl fits ↦
            let (b, e, f) =
              Returns-ok (Foretold s h nbytes pos page) (has_space s h nbytes page)
                (has_space-Foretold s h nbytes pos page) in
            elim (Bool-cases b) [
              | inl t ↦ rw (fits, e, t) (IsAhead-found start page n fits (rw t at f))
              | inr t ↦ rw (fits, e, t) (later (passed_full start page n fits (rw t at f)))
            ]
      ]

  same_search :
      (start : AllocatorState) (end : ℕ) (state : AllocatorState)
      → IsAhead start start.page (end - start.page) state
      → try_allocate_small_from_pages s h nbytes page_type gen state end
        ≡ try_allocate_small_from_pages s h nbytes page_type gen start end
  unfolding IsAhead try_allocate_small_from_pages
  same_search start end state (inl same) =
      ap (λ t. try_allocate_small_from_pages s h nbytes page_type gen t end) same
  same_search start end state (inr (target, rest, size, le, at, r, e, (region, g), f)) =
      let count : end - target ≡ suc rest = omega (arith, size) in
      elim (Bool-cases (not (gen == s.pseudo_static_generation + 1))) [
        | inr lose ↦ rw lose refl
        | inl passes ↦ rw (passes, at, count, f, e, g) refl
      ]

-- For at least one byte, `pre_search_for_small_space` returns, and `try_allocate_small_from_pages`
-- on the same heap does from the page where it stopped what it does from the page where it started:
-- the same region if there is one, the same state of the allocator and the same heap.
pub pre_search_for_small_space-equivalent :
    (s : Space) (h : Heap) (nbytes page_type gen : ℕ) (start : AllocatorState) (end : ℕ)
    → 0 < nbytes
    → Returns (pre_search_for_small_space s h nbytes page_type start end) (λ state.
      try_allocate_small_from_pages s h nbytes page_type gen state end
      ≡ try_allocate_small_from_pages s h nbytes page_type gen start end)
unfolding pre_search_for_small_space try_allocate_small_from_pages
pre_search_for_small_space-equivalent s h nbytes page_type gen start end pos =
    Returns-mono (IsAhead s h nbytes page_type gen pos start start.page (end - start.page)) _
      (pre_search_rounds (end - start.page) s h nbytes page_type start start.page)
      (same_search s h nbytes page_type gen pos start end)
      (rounds-IsAhead s h nbytes page_type gen pos (end - start.page) start start.page)
