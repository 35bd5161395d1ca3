-- ===== src/MarkRegion/Sweep/Counts.antt =====
-- The lines of a page, counted by generation, under the sweep of src/runtime/mark-region.c.
use cl.Common.{
  ◌⊎◌, ℕ, zero, suc, ◌+◌, ◌-◌, ◌*◌, ◌/◌, ◌%◌, ◌≤◌, ◌<◌, ◌≡◌, refl, ◌∙◌, arith, inl, inr, true,
  false, Bool-cases, ◌==◌, if◌then◌else◌,
}
use cl.MarkRegion.{line_size, unmark_gen, unfreshen_gen}
use cl.MarkRegion.Sweep.{count_dead, swept_line, fully_swept_line, account_lines}
use cl.MarkRegion.Sweep.Line.{unfreshen_rem, unmark_rem, mark_sum}
use cl.Common.Bits.{every_below, byte_eq}

-- The lines of `n` from `l` on that are not free.
unfoldable pub count_used : ℕ → (ℕ → ℕ) → ℕ → ℕ
count_used zero lines l = 0
count_used (suc n) lines l =
    let rest = count_used n lines (l + 1) in if lines l == 0 then rest else rest + 1

pub count_used-ext :
    (n : ℕ) (f g : ℕ → ℕ) (l : ℕ)
    → ((i : ℕ) → l ≤ i → i < l + n → f i ≡ g i)
    → count_used n f l ≡ count_used n g l
unfolding count_used
count_used-ext zero f g l same = refl
count_used-ext (suc n) f g l same =
    rw (same l (omega arith) (omega arith))
      (rw (count_used-ext n f g (l + 1) (λ i ge lt. same i (omega arith) (omega arith))) refl)

-- A line that says what it is: a byte, and free if it has no generation.
abbrev pub IsClosedLine : ℕ → Type 0
IsClosedLine l = (l < 256) × (l % 32 ≡ 0 → l ≡ 0)

-- A line is in use before the sweep if it is dead or in use afterwards, and never both.
swept_line_use :
    (u l : ℕ)
    → 0 < u
    → u < 16
    → IsClosedLine l
    → ((l == 0) ≡ true) × ((swept_line u l == 0) ≡ true) × ((unfreshen_gen l == u) ≡ false)
      ⊎ (((l == 0) ≡ false) × ((swept_line u l == 0) ≡ true) × ((unfreshen_gen l == u) ≡ true)
          ⊎ ((l == 0) ≡ false) × ((swept_line u l == 0) ≡ false) × ((unfreshen_gen l == u) ≡ false))
unfolding swept_line
swept_line_use u l pos small (byte, closed) =
    rw (unfreshen_rem l byte) (rw (mark_sum u small) (ground (arith, closed, pos, small)))

pub count_dead-count_used :
    (n : ℕ) (lines : ℕ → ℕ) (u l : ℕ)
    → 0 < u
    → u < 16
    → ((i : ℕ) → l ≤ i → i < l + n → IsClosedLine (lines i))
    → count_dead n lines u l + count_used n (λ i. swept_line u (lines i)) l ≡ count_used n lines l
unfolding count_used count_dead
count_dead-count_used zero lines u l pos small closed = refl
count_dead-count_used (suc n) lines u l pos small closed =
    let rest =
      count_dead-count_used n lines u (l + 1) pos small
        (λ i ge lt. closed i (omega arith) (omega arith)) in
    elim (swept_line_use u (lines l) pos small (closed l (omega arith) (omega arith))) [
      | inl (a, b, c) ↦ rw a (rw b (rw c rest))
      | inr (inl (a, b, c)) ↦ rw a (rw b (rw c (omega (arith, rest))))
      | inr (inr (a, b, c)) ↦ rw a (rw b (rw c (omega (arith, rest))))
    ]

pub account_lines-used :
    (n : ℕ) (lines : ℕ → ℕ) (l : ℕ) (generations : ℕ → ℕ) (used : ℕ)
    → (account_lines n lines l generations used).1 ≡ used + count_used n lines l * line_size
unfolding count_used account_lines
account_lines-used zero lines l generations used = omega arith
account_lines-used (suc n) lines l generations used =
    account_lines-used n lines (l + 1) _ (if lines l == 0 then used else used + line_size)
    ∙ (elim (Bool-cases (lines l == 0)) [ inl e ↦ rw e refl | inr e ↦ rw e (omega arith) ])

-- The lines of `n` from `l` on that say generation `g`.
unfoldable pub count_of : ℕ → (ℕ → ℕ) → ℕ → ℕ → ℕ
count_of zero lines l g = 0
count_of (suc n) lines l g =
    let rest = count_of n lines (l + 1) g in if lines l == g + 1 then rest + 1 else rest

pub account_lines-generations :
    (n : ℕ) (lines : ℕ → ℕ) (l : ℕ) (generations : ℕ → ℕ) (used g : ℕ)
    → ((i : ℕ) → l ≤ i → i < l + n → lines i < 16)
    → (account_lines n lines l generations used).0 g
      ≡ generations g + count_of n lines l g * line_size
unfolding count_of account_lines
account_lines-generations zero lines l generations used g small = omega arith
account_lines-generations (suc n) lines l generations used g small =
    let gen : ℕ = unmark_gen (lines l) - 1 in
    let here = small l (omega arith) (omega arith) in
    let low : unmark_gen (lines l) ≡ lines l =
      unmark_rem (lines l) (omega (arith, here)) ∙ omega (arith, here) in
    account_lines-generations n lines (l + 1) _ _ g (λ i ge lt. small i (omega arith) (omega arith))
    ∙ elim (Bool-cases (lines l == 0)) [
      | inl free ↦
          let other : (lines l == g + 1) ≡ false = ground (arith, free) in rw (free, other) refl
      | inr used_line ↦ elim (Bool-cases (lines l == g + 1)) [
        | inl own ↦
            let same : (g == gen) ≡ true = ground (arith, low, own) in
            let at : gen ≡ g = ground (arith, low, own) in
            rw (used_line, own, same, at) (omega arith)
        | inr other ↦
            let apart : (g == gen) ≡ false = ground (arith, low, other, used_line) in
            rw (used_line, other, apart) refl
      ]
    ]

-- In a collection of everything a line with a mark keeps its generation, and any other is free.
pub kept_line : (l : ℕ) → l < 256 → fully_swept_line l ≡ (if l / 16 % 2 == 0 then 0 else l % 16)
unfolding fully_swept_line every_below
kept_line = byte_eq _ _ refl
