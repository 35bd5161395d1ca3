-- ===== src/MarkRegion/Pages/LargeAccounts.antt =====
-- The accounts of the heap after `try_allocate_large`.
use cl.Common.{
  ℕ, zero, suc, ◌+◌, ◌-◌, ◌*◌, ◌/◌, ◌%◌, ◌≤◌, ◌<◌, ◌≡◌, ◌≢◌, refl, ap, sym, ◌∙◌, arith, inl, inr,
  Bool, true, false, ◌&&◌, Bool-cases, Option, none, some, ltb, leb, ◌==◌, if◌then◌else◌, ltb→lt,
  bit_or, Returns, Returns-mono, update_range-to, sum_below, sum_below-assign, sum_block,
}
use mathlib.Core.Path.{subst}
use native.Mathlib.Nat.{
  le-div_iff_mul-le, div-lt_iff_lt-mul, mul_comm, mul-zero, mul-suc, div-add-mod, mod-lt, add-mul,
}
use cl.Common.Digits.{digit, digit-bit_or, digit-two-pow, digit_of_zero, eight_times}
use cl.MarkRegion.{Space}
use cl.MarkRegion.Pages.{
  Heap, Page, AllocatorState, LargeSearch, page_free_p, pages_of, claim_large, large_page,
  try_allocate_large, words_of,
}
use cl.MarkRegion.Pages.Accounts.{used, IsAccounted}
use cl.MarkRegion.Pages.Large.{types, LargeFound, pages_of-pos, try_allocate_large-LargeFound}

quotient : (b y t : ℕ) → 0 < b → t * b ≤ y → y < (t + 1) * b → y / b ≡ t
quotient b y t pos low high =
    let up = (le-div_iff_mul-le {k = b} {x = t} {y = y} pos).1 low in
    let down = (div-lt_iff_lt-mul {k = b} {x = y} {y = t + 1} pos).1 high in omega (arith, up, down)

-- The number of blocks of `b` that hold `x`.
blocks :
    (b x q r : ℕ)
    → 0 < b
    → b * q + r ≡ x
    → r < b
    → (x + (b - 1)) / b ≡ (if ltb 0 r then q + 1 else q)
blocks b x q r pos e lt = elim (Bool-cases (ltb 0 r)) [
  | inl more ↦ rw more (
      quotient b (x + (b - 1)) (q + 1) pos
        (omega (arith, mul_comm b q, add-mul q 1 b, ltb→lt 0 r more))
        (omega (arith, mul_comm b q, add-mul q 1 b, add-mul (q + 1) 1 b)))
  | inr exact ↦
      let zero_r : r ≡ 0 = ground arith in
      rw exact (
        quotient b (x + (b - 1)) q pos (omega (arith, mul_comm b q))
          (omega (arith, mul_comm b q, add-mul q 1 b)))
]

last_block :
    (b x q r : ℕ)
    → 0 < x
    → b * q + r ≡ x
    → ((if ltb 0 r then q + 1 else q) - 1) * b + (if ltb 0 r then r else b) ≡ x
last_block b x zero r pos e = elim (Bool-cases (ltb 0 r)) [
  | inl more ↦ let f : 0 + 1 - 1 ≡ 0 = omega arith in rw (more, f) (omega arith)
  | inr exact ↦ absurd (ground (arith, exact, mul-zero b))
]
last_block b x (suc q) r pos e = elim (Bool-cases (ltb 0 r)) [
  | inl more ↦
      let f : suc q + 1 - 1 ≡ suc q = omega arith in
      rw (more, f) (omega (arith, mul_comm b (suc q)))
  | inr exact ↦
      let f : suc q - 1 ≡ q = omega arith in
      let z : r ≡ 0 = ground arith in rw (exact, f) (omega (arith, mul_comm b q, mul-suc b q))
]

module _ (s : Space) (n : ℕ) (h : Heap) (nbytes page_type gen first : ℕ)
    (words : s.page_bytes % 8 ≡ 0) (bytes : nbytes % 8 ≡ 0) (page : 0 < s.page_bytes)
    (pos : 0 < nbytes) (free : (p : ℕ) → first ≤ p → p < first + pages_of s nbytes → types h p ≡ 0)
    (inside : first + pages_of s nbytes ≤ n) (a : IsAccounted s n h) where
  after : Heap
  after = claim_large s h nbytes page_type gen first (pages_of s nbytes)

  last_bytes : ℕ
  last_bytes = if ltb 0 (nbytes % s.page_bytes) then nbytes % s.page_bytes else s.page_bytes

  whole : (pages_of s nbytes - 1) * s.page_bytes + last_bytes ≡ nbytes
  unfolding last_bytes
  whole =
      rw
        (blocks s.page_bytes nbytes (nbytes / s.page_bytes) (nbytes % s.page_bytes) page
          (div-add-mod nbytes s.page_bytes) (mod-lt nbytes page))
        (last_block s.page_bytes nbytes (nbytes / s.page_bytes) (nbytes % s.page_bytes) pos
          (div-add-mod nbytes s.page_bytes))

  words_kept : (x : ℕ) → x % 8 ≡ 0 → words_of x * 8 ≡ x
  words_kept x e = omega arith

  rest_words : nbytes % s.page_bytes % 8 ≡ 0
  rest_words =
      let q : ℕ = nbytes / s.page_bytes in
      let m : s.page_bytes * q ≡ 8 * (s.page_bytes / 8 * q) = eight_times s.page_bytes q words in
      omega (arith, m, div-add-mod nbytes s.page_bytes)

  block_pos : 0 < pages_of s nbytes
  block_pos = pages_of-pos s nbytes page pos

  last_page : ℕ
  last_page = first + pages_of s nbytes - 1

  new_page : ℕ → Page
  new_page p = large_page s nbytes page_type gen first last_page p

  in_block : ℕ → Bool
  in_block p = leb first p && ltb p (first + pages_of s nbytes)

  written : (p : ℕ) → after.page_table p ≡ (if in_block p then new_page p else h.page_table p)
  unfolding after claim_large last_page new_page in_block
  written p =
      let e : first + pages_of s nbytes - 1 + 1 ≡ first + pages_of s nbytes =
        omega (arith, block_pos) in
      update_range-to (λ q _. new_page q) first (last_page + 1) h.page_table p
        (omega (arith, block_pos))
      ∙ ap (λ t. if leb first p && ltb p t then new_page p else h.page_table p) e

  block_bytes : ℕ → ℕ
  block_bytes p = if p == last_page then last_bytes else s.page_bytes

  new_page_used : (p : ℕ) → (new_page p).words_used * 8 ≡ block_bytes p
  unfolding new_page large_page block_bytes last_bytes
  new_page_used p =
      ground (arith, words_kept s.page_bytes words, words_kept (nbytes % s.page_bytes) rest_words)

  large_used : (p : ℕ) → used after p ≡ (if in_block p then block_bytes p else used h p)
  large_used p =
      ap (λ (q : Page). q.words_used * 8) (written p)
      ∙ elim (Bool-cases (in_block p)) [ inl e ↦ rw e (new_page_used p) | inr e ↦ rw e refl ]

  outside : (p : ℕ) → in_block p ≡ false → used after p ≡ used h p
  outside p e = large_used p ∙ rw e refl

  inner : (p : ℕ) → first ≤ p → p < last_page → (used after p ≡ s.page_bytes) × (used h p ≡ 0)
  unfolding in_block last_page block_bytes
  inner p ge lt =
      (ground (arith, large_used p), a.free_empty p (ground (arith, free p ge (omega arith))))

  at_last : (used after last_page ≡ last_bytes) × (used h last_page ≡ 0)
  unfolding in_block last_page block_bytes
  at_last = (
    ground (arith, large_used last_page, block_pos),
    a.free_empty last_page (ground (arith, block_pos, free last_page)),
  )

  pages_sum : sum_below n (used after) ≡ sum_below n (used h) + nbytes
  unfolding last_page in_block
  pages_sum =
      let d : ℕ = pages_of s nbytes - 1 in
      let e : first + d ≡ last_page = omega (arith, block_pos) in
      omega (
        arith,
        whole,
        sum_block (used after) (used h) first s.page_bytes last_bytes d n (omega (arith, block_pos))
            (λ i lt. outside i (ground arith)) (λ i ge lt. inner i ge (omega (arith, block_pos)))
            (rw e at_last) (λ i ge. outside i (ground (arith, block_pos))),
      )

  tagged : (p : ℕ) → bit_or 16 page_type ≢ 0
  tagged p e = absurd (
      omega
        (arith, digit-bit_or 4 16 page_type, ap (digit 4) e, digit_of_zero 4, digit-two-pow 4 4))

  new_type : (p : ℕ) → in_block p ≡ true → (after.page_table p).type_ ≡ bit_or 16 page_type
  unfolding new_page large_page
  new_type p e = ap (λ (q : Page). q.type_) (written p) ∙ rw e refl

  old_type : (p : ℕ) → in_block p ≡ false → (after.page_table p).type_ ≡ types h p
  old_type p e = ap (λ (q : Page). q.type_) (written p) ∙ rw e refl

  new_free_empty : (p : ℕ) → page_free_p (after.page_table p) ≡ true → used after p ≡ 0
  new_free_empty p f = elim (Bool-cases (in_block p)) [
    | inl e ↦ absurd (tagged p (ground (arith, new_type p e, f)))
    | inr e ↦ outside p e ∙ a.free_empty p (ground (arith, old_type p e, f))
  ]

  last_bytes-le : last_bytes ≤ s.page_bytes
  unfolding last_bytes
  last_bytes-le = ground (arith, mod-lt nbytes page)

  new_within : (p : ℕ) → used after p ≤ s.page_bytes
  unfolding block_bytes
  new_within p = ground (arith, large_used p, last_bytes-le, a.within p)

  claim_large-IsAccounted : gen < s.pseudo_static_generation + 2 → IsAccounted s n after
  unfolding after claim_large
  claim_large-IsAccounted lt = record {
    pages = omega (arith, pages_sum, a.pages);
    generations = omega (
      arith,
      sum_below-assign (s.pseudo_static_generation + 2) gen h.generations
          (h.generations gen + nbytes) lt,
      a.generations,
    );
    free_empty = new_free_empty;
    within = new_within;
  }

large_accounts :
    (s : Space) (n : ℕ) (h : Heap) (nbytes page_type gen from end : ℕ) (o : Option ℕ)
    (r : LargeSearch)
    → s.page_bytes % 8 ≡ 0
    → nbytes % 8 ≡ 0
    → 0 < s.page_bytes
    → 0 < nbytes
    → gen < s.pseudo_static_generation + 2
    → end ≤ n
    → IsAccounted s n h
    → LargeFound s h nbytes page_type gen end from o r
    → IsAccounted s n r.heap
unfolding after claim_large
large_accounts s n h nbytes page_type gen from end none r words bytes page pos lt le a (same, _) =
    subst (IsAccounted s n) (sym same) a
large_accounts s n h nbytes page_type gen from end (some first) r words bytes page pos lt le a p =
    subst (IsAccounted s n) (sym p.heap) (
      claim_large-IsAccounted s n h nbytes page_type gen first words bytes page pos p.free
        (omega (arith, p.high)) a lt)

-- For an object of some whole words, where pages are whole words, the accounts of the heap still
-- hold after `try_allocate_large`: the bytes used on all pages, and those of all generations, are
-- the bytes allocated.
pub try_allocate_large-IsAccounted :
    (s : Space) (n : ℕ) (h : Heap) (nbytes page_type gen : ℕ) (start : AllocatorState) (end : ℕ)
    → s.page_bytes % 8 ≡ 0
    → nbytes % 8 ≡ 0
    → 0 < s.page_bytes
    → 0 < nbytes
    → gen ≤ s.pseudo_static_generation
    → start.page ≤ end
    → end ≤ n
    → IsAccounted s n h
    → Returns (try_allocate_large s h nbytes page_type gen start end) (λ r. IsAccounted s n r.heap)
try_allocate_large-IsAccounted s n h nbytes page_type gen start end words bytes page pos low le
      inside a =
    Returns-mono _ _ _
      (λ r.
        large_accounts s n h nbytes page_type gen start.page end r.page r words bytes page pos
          (omega arith) inside a)
      (try_allocate_large-LargeFound s h nbytes page_type gen start end page pos (λ e. omega arith)
        le)
