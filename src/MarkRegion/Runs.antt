-- ===== src/MarkRegion/Runs.antt =====
-- Runs of free lines, or of free pages: where the searches stop.
use cl.Common.{
  ℕ, ◌+◌, ◌-◌, ◌≤◌, ◌<◌, ◌≡◌, ◌≢◌, arith, Bool, true, false, not, Option, none, some, ◌==◌,
  FirstIndex, first_index-FirstIndex,
}
use native.Mathlib.Decide.{dec_lt}
use cl.MarkRegion.{or_end, find_free_line, find_used_line}

-- A chunk of free lines, from the first one on, that ends at a line in use or at the end.
pub record Chunk (lines : ℕ → ℕ) (start end first last : ℕ) : Type 0 where
  pub low : start ≤ first
  pub order : first ≤ last
  pub high : last ≤ end
  pub used_before : (i : ℕ) → start ≤ i → i < first → lines i ≢ 0
  pub free : (i : ℕ) → first ≤ i → i < last → lines i ≡ 0
  pub used_at_end : last < end → lines last ≢ 0
  pub not_empty : first < end → first < last

-- Where a search of lines stops: `stops` is what it looks for.
pub record Stop (stops : ℕ → Bool) (start end r : ℕ) : Type 0 where
  pub low : start ≤ r
  pub high : r ≤ end
  pub passed : (i : ℕ) → start ≤ i → i < r → stops i ≡ false
  pub found : r < end → stops r ≡ true

or_end-Stop :
    (stops : ℕ → Bool) (start end : ℕ) (o : Option ℕ)
    → start ≤ end
    → FirstIndex stops (end - start) start o
    → Stop stops start end (or_end o end)
or_end-Stop stops start end none le none_found = record {
  low = le;
  high = omega arith;
  passed = λ i ge lt. none_found i ge (omega arith);
  found = λ lt. absurd (omega arith);
}
or_end-Stop stops start end (some r) le (ge, lt, hit, before) = record {
  low = ge;
  high = omega arith;
  passed = before;
  found = λ _. hit;
}

find_free_line-Stop :
    (lines : ℕ → ℕ) (start end : ℕ)
    → start ≤ end
    → Stop (λ l. lines l == 0) start end (find_free_line lines start end)
unfolding find_free_line
find_free_line-Stop lines start end le =
    or_end-Stop _ start end _ le (first_index-FirstIndex _ (end - start) start)

pub find_used_line-Stop :
    (lines : ℕ → ℕ) (start end : ℕ)
    → start ≤ end
    → Stop (λ l. not (lines l == 0)) start end (find_used_line lines start end)
unfolding find_used_line
find_used_line-Stop lines start end le =
    or_end-Stop _ start end _ le (first_index-FirstIndex _ (end - start) start)

pub chunk :
    (lines : ℕ → ℕ) (start end first last : ℕ)
    → Stop (λ l. lines l == 0) start end first
    → Stop (λ l. not (lines l == 0)) first end last
    → Chunk lines start end first last
chunk lines start end first last f u = record {
  low = f.low;
  order = u.low;
  high = u.high;
  used_before = λ i ge lt. ground (arith, f.passed i ge lt);
  free = λ i ge lt. ground (arith, u.passed i ge lt);
  used_at_end = λ lt. ground (arith, u.found lt);
  not_empty = λ lt. ground (arith, f.found lt, u.low, u.found);
}

pub following :
    (lines : ℕ → ℕ) (start end : ℕ)
    → start ≤ end
    → Chunk lines start end
        (find_free_line lines start end)
        (find_used_line lines (find_free_line lines start end) end)
following lines start end le =
    let f = find_free_line-Stop lines start end le in
    chunk lines start end _ _ f
      (find_used_line-Stop lines (find_free_line lines start end) end f.high)

-- Every run of `n` lines between `start` and `end` holds a line in use.
abbrev pub NoRun : (ℕ → ℕ) → ℕ → ℕ → ℕ → Type 0
NoRun lines n start end =
    (a : ℕ) → start ≤ a → a + n ≤ end → (i : ℕ) × (a ≤ i) × (i < a + n) × (lines i ≢ 0)

pub too_small-NoRun :
    (lines : ℕ → ℕ) (n end start first last : ℕ)
    → Chunk lines start end first last
    → last - first < n
    → NoRun lines n last end
    → NoRun lines n start end
too_small-NoRun lines n end start first last c small rest a ge le = elim (dec_lt a first) [
  | yes lt ↦ (a, omega arith, omega arith, c.used_before a ge lt)
  | no not_lt ↦ elim (dec_lt a last) [
    | yes lt ↦ (last, omega arith, omega (arith, c.order), c.used_at_end (omega arith))
    | no past ↦ rest a (omega arith) le
  ]
]

pub NoRun-end : (lines : ℕ → ℕ) (n end : ℕ) → 0 < n → NoRun lines n end end
NoRun-end lines n end pos a ge le = absurd (omega arith)
