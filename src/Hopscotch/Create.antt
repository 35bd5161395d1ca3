-- ===== src/Hopscotch/Create.antt =====
-- A table that was just created.
use cl.Common.{
  ℕ, zero, suc, ◌+◌, ◌-◌, ◌%◌, ◌≤◌, ◌<◌, ◌≡◌, ◌⊎◌, refl, ap, arith, Option, some, ◌==◌, Bool, true,
  get_or, get_or-replicate, length-replicate, replicate, ok, bit_and,
}
use cl.Common.Digits.{digit, digit_of_zero}
use cl.Hopscotch.{HopscotchTable, choose_hop_range, hopscotch_realloc}
use cl.Hopscotch.Insert.{
  VectorFunctions, hash_of_code, good_value_size, hopscotch_create, no_memory,
}
use cl.Hopscotch.Cells.{Integrity}
use cl.Hopscotch.Table.{key_at, IsValid}

-- The hop ranges that the program chooses itself.
choose_hop_range_values :
    (size : ℕ)
    → (choose_hop_range size 0 ≡ 8)
      ⊎ ((choose_hop_range size 0 ≡ 16) ⊎ (choose_hop_range size 0 ≡ 32))
unfolding choose_hop_range
choose_hop_range_values size = ground arith

-- Valid, with no key, and with a hop range that suits the probing loops.
pub record IsFresh (t : HopscotchTable) : Type 0 where
  pub valid : IsValid t
  pub empty : (i : ℕ) → key_at t i ≡ 0
  pub eights : t.hop_range % 8 ≡ 0

zero_cells :
    (bin : ℕ → ℕ) (hop n m : ℕ)
    → Integrity bin hop
        (λ i. get_or (replicate n 0) i 0)
        (λ b d. digit d (get_or (replicate m 0) b 0))
zero_cells bin hop n m = record {
  near = λ i h. absurd (h (get_or-replicate n i 0));
  claimed = λ i h. absurd (h (get_or-replicate n i 0));
  short = λ b d h. absurd (none_owned b d h);
  filled = λ b d h. absurd (none_owned b d h);
  home = λ b d h. absurd (none_owned b d h);
  once = λ i j h e. absurd (h (get_or-replicate n i 0));
}
  where
    none_owned : (b d : ℕ) → digit d (get_or (replicate m 0) b 0) ≡ 1 → ⊥
    none_owned b d h = ground (arith, ap (digit d) (get_or-replicate m b 0), digit_of_zero d)

pub hopscotch_realloc-IsFresh :
    (ht : HopscotchTable) (size : ℕ) → 0 < size → IsFresh (hopscotch_realloc ht size 0)
unfolding hopscotch_realloc
hopscotch_realloc-IsFresh ht size pos = record {
  valid = record {
    cells = omega (arith, length-replicate {A = ℕ} (size + (range - 1)) 0, range_facts);
    bins = omega (arith, length-replicate {A = ℕ} size 0);
    room = omega (arith, range_facts);
    word = omega (arith, range_facts);
    integrity = zero_cells _ _ _ _;
  };
  empty = λ i. get_or-replicate (size + (range - 1)) i 0;
  eights = range_facts.2;
}
  where
    range : ℕ
    range = choose_hop_range size 0

    range_facts : (2 ≤ range) × (range ≤ 32) × (range % 8 ≡ 0)
    range_facts = ground (arith, choose_hop_range_values size)

known_code :
    (v : VectorFunctions) (code : ℕ)
    → 0 < code
    → code ≤ 4
    → (h : Option (ℕ → ℕ)) × (c : Option (ℕ → ℕ → Bool)) × (hash_of_code v code ≡ some (h, c))
known_code v zero lo hi = absurd (omega arith)
known_code v (suc zero) lo hi = (_, _, refl)
known_code v (suc (suc zero)) lo hi = (_, _, refl)
known_code v (suc (suc (suc zero))) lo hi = (_, _, refl)
known_code v (suc (suc (suc (suc zero)))) lo hi = (_, _, refl)
known_code v (suc (suc (suc (suc (suc n))))) lo hi = absurd (omega arith)

no_count : (ht : HopscotchTable) (size : ℕ) → (hopscotch_realloc ht size 0).count ≡ ht.count
unfolding hopscotch_realloc
no_count ht size = refl

-- With a size above 0 that is a power of two (size & (size - 1) is 0), a hash code from 1 to 4, a
-- value size of 0, 1, 2, 4 or 8 bytes and the hop range left to it, hopscotch_create makes a valid
-- table with no key, no count and a hop range that is a multiple of eight.
pub hopscotch_create-IsFresh :
    (v : VectorFunctions) (card_shift hashfun bytes_per_value size : ℕ)
    → 0 < size
    → bit_and size (size - 1) ≡ 0
    → 0 < hashfun
    → hashfun ≤ 4
    → good_value_size bytes_per_value ≡ true
    → (t : HopscotchTable) × (hopscotch_create v card_shift hashfun bytes_per_value size 0 ≡ ok t)
      × IsFresh t
      × (t.count ≡ 0)
unfolding hopscotch_create
hopscotch_create-IsFresh v card_shift hashfun bytes_per_value size pos pow lo hi good =
    let (h, c, code) = known_code v hashfun lo hi in
    let accepted : (bit_and size (size - 1) == 0) ≡ true = ground arith in
    let blank = no_memory h c card_shift hashfun bytes_per_value size in
    (
      hopscotch_realloc blank size 0,
      rw (accepted, code, good) refl,
      hopscotch_realloc-IsFresh blank size pos,
      no_count blank size,
    )
