-- ===== src/MarkRegion/Pages/Accounts.antt =====
-- The accounts of the heap: what counts as used on pages and in generations.
use cl.Common.{
  ℕ, ◌+◌, ◌-◌, ◌%◌, ◌≤◌, ◌<◌, ◌≡◌, ◌≢◌, ap, arith, true, ◌==◌, if◌then◌else◌, bit_or, sum_below,
  sum_below_change, sum_below-assign,
}
use cl.Common.Digits.{digit, digit-bit_or, digit-two-pow, digit_of_zero}
use cl.MarkRegion.{Space}
use cl.MarkRegion.Pages.{Heap, page_bytes_used, page_free_p, claim_page}

abbrev pub used : Heap → ℕ → ℕ
used h p = page_bytes_used (h.page_table p)

-- The pages and the generations account for all that is allocated; a free page has nothing on it,
-- and no page has more than its size. `n` is `page_table_pages`.
pub record IsAccounted (s : Space) (n : ℕ) (h : Heap) : Type 0 where
  pub pages : sum_below n (used h) ≡ h.bytes_allocated
  pub generations : sum_below (s.pseudo_static_generation + 2) h.generations ≡ h.bytes_allocated
  pub free_empty : (p : ℕ) → page_free_p (h.page_table p) ≡ true → used h p ≡ 0
  pub within : (p : ℕ) → used h p ≤ s.page_bytes

bit_or-ne-zero : (t : ℕ) → bit_or t 32 ≢ 0
bit_or-ne-zero t e =
    absurd (omega (arith, digit-bit_or 5 t 32, ap (digit 5) e, digit_of_zero 5, five))
  where
    five : digit 5 32 ≡ 1
    five = digit-two-pow 5 5

claimed_used :
    (s : Space) (h : Heap) (page_type gen where_ : ℕ) (lines : ℕ → ℕ) (p : ℕ)
    → s.page_bytes % 8 ≡ 0
    → used (claim_page s h page_type gen where_ lines) p
      ≡ (if p == where_ then s.page_bytes else used h p)
unfolding claim_page
claimed_used s h page_type gen where_ lines p words = ground arith

pub claim_page-IsAccounted :
    (s : Space) (n : ℕ) (h : Heap) (page_type gen where_ : ℕ) (lines : ℕ → ℕ)
    → s.page_bytes % 8 ≡ 0
    → gen < s.pseudo_static_generation + 2
    → where_ < n
    → IsAccounted s n h
    → IsAccounted s n (claim_page s h page_type gen where_ lines)
unfolding claim_page
claim_page-IsAccounted s n h page_type gen where_ lines words lt_gen lt a = record {
  pages = omega (arith, change, here, a.pages, a.within where_);
  generations = omega (
    arith,
    sum_below-assign (s.pseudo_static_generation + 2) gen h.generations
        (h.generations gen + (s.page_bytes - used h where_)) lt_gen,
    a.generations,
  );
  free_empty = λ p f. ground (arith, a.free_empty p, bit_or-ne-zero page_type, f);
  within = λ p. ground (arith, claimed_used s h page_type gen where_ lines p words, a.within p);
}
  where
    after : Heap
    after = claim_page s h page_type gen where_ lines

    here : used after where_ ≡ s.page_bytes
    here = ground (arith, claimed_used s h page_type gen where_ lines where_ words)

    elsewhere : (p : ℕ) → p ≢ where_ → used after p ≡ used h p
    elsewhere p other = ground (arith, claimed_used s h page_type gen where_ lines p words, other)

    change : sum_below n (used after) + used h where_ ≡ sum_below n (used h) + used after where_
    change = sum_below_change n where_ (used after) (used h) lt elsewhere
