-- ===== src/Hopscotch/Victim.antt =====
-- The search for a key that can make room.
use cl.Common.{
  ℕ, zero, suc, ◌+◌, ◌-◌, ◌/◌, ◌%◌, ◌^◌, ◌≤◌, ◌<◌, ◌≡◌, ◌≢◌, refl, arith, bit_and, Option, none,
  some, inl, inr, ◌==◌, Bool-cases, true, length, get_or, get_elem?, get_elem?-eq-get_or, Returns,
  Returns-mono,
}
use native.Mathlib.Nat.{pow-suc, mod-lt, one-le-pow, le_trans, pow-le-pow_right}
use cl.Common.Bits.{every_below, every_below_sound, bit_and_ones}
use cl.Common.Digits.{digit, digit-bit_and, digit-lt-two, digit-eq-zero}
use cl.Hopscotch.{HopscotchTable, lowest_bit, bitmask_of_width, find_victim}
use cl.Hopscotch.Table.{owner_at}

-- `bitmask_of_width` for the widths that occur.
bitmask_table : every_below 33 (λ n. bitmask_of_width n == 2 ^ n - 1) ≡ true
unfolding every_below bitmask_of_width
bitmask_table = refl

bitmask_ones : (n : ℕ) → n < 33 → bitmask_of_width n ≡ 2 ^ n - 1
bitmask_ones n h =
    ground (arith, every_below_sound 33 (λ n. bitmask_of_width n == 2 ^ n - 1) n bitmask_table)

-- `ffs(bits) - 1` is a digit that is set.
digit-lowest_bit : (n x : ℕ) → x ≢ 0 → x < 2 ^ n → digit (lowest_bit n x) x ≡ 1
unfolding lowest_bit digit
digit-lowest_bit zero x h lt = absurd (h (omega arith))
digit-lowest_bit (suc n) x h lt = elim (Bool-cases (x % 2 == 1)) [
  | inl e ↦ rw e (ground arith)
  | inr e ↦ rw e (digit-lowest_bit n (x / 2) (λ z. h (ground arith)) (omega (arith, pow-suc 2 n)))
]

-- A victim stands before the free cell and belongs to its bin.
abbrev pub Victim : HopscotchTable → ℕ → ℕ → ℕ → Option (ℕ × ℕ) → Type 0
Victim ht free low rounds none = Unit
Victim ht free low rounds (some (b, v)) =
    (low ≤ b) × (b < low + rounds) × (owner_at ht b v ≡ 1) × (b + v < free)

-- The lowest set bit among the low `n` bits of a mask.
masked_bit :
    (n w : ℕ)
    → n < 33
    → bit_and w (bitmask_of_width n) ≢ 0
    → (digit (lowest_bit 32 (bit_and w (bitmask_of_width n))) w ≡ 1)
      × (lowest_bit 32 (bit_and w (bitmask_of_width n)) < n)
masked_bit n w small h = (set_here, below)
  where
    m : ℕ
    m = bit_and w (bitmask_of_width n)

    v : ℕ
    v = lowest_bit 32 m

    as_mod : m ≡ w % 2 ^ n
    as_mod = rw (bitmask_ones n small) (bit_and_ones n w)

    fits : m < 2 ^ n
    fits = rw as_mod (mod-lt w (one-le-pow n 2 (omega arith)))

    fits_word : m < 2 ^ 32
    fits_word =
        let wider : 2 ^ n ≤ 2 ^ 32 =
          pow-le-pow_right (omega arith) {i = n} {j = 32} (omega arith) in
        le_trans fits wider

    bit : digit v m ≡ 1
    bit = digit-lowest_bit 32 m h fits_word

    set_here : digit v w ≡ 1
    set_here = ground (arith, bit, digit-bit_and v w (bitmask_of_width n), digit-lt-two v w)

    below : v < n
    below = ground (arith, bit, digit-eq-zero n v m fits)

Victim-widen :
    (ht : HopscotchTable) (free low rounds : ℕ) (o : Option (ℕ × ℕ))
    → Victim ht free (low + 1) rounds o
    → Victim ht free low (suc rounds) o
Victim-widen ht free low rounds none v = tt
Victim-widen ht free low rounds (some (b, x)) (p, q, r, t) = (omega arith, omega arith, r, t)

pub find_victim-Victim :
    (ht : HopscotchTable) (rounds free low : ℕ)
    → low + rounds ≤ length ht.hops
    → low + rounds ≤ free
    → free < low + 33
    → Returns (find_victim rounds ht free low) (Victim ht free low rounds)
unfolding find_victim
find_victim-Victim ht zero free low inside before near = tt
find_victim-Victim ht (suc rounds) free low inside before near =
    rw read (elim (Bool-cases (bit_and w (bitmask_of_width (free - low)) == 0)) [
      | inl e ↦ rw e (
          Returns-mono _ _ _ (Victim-widen ht free low rounds)
            (find_victim-Victim ht rounds free (low + 1) (omega arith) (omega arith) (omega arith)))
      | inr e ↦ rw e (
          let (here, below) = masked_bit (free - low) w (omega arith) (ground arith) in
          (omega arith, omega arith, here, omega arith))
    ])
  where
    w : ℕ
    w = get_or ht.hops low 0

    read : get_elem? ht.hops low ≡ some w
    read = get_elem?-eq-get_or ht.hops low 0 (omega arith)
