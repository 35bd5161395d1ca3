-- ===== src/Hopscotch/Walk.antt =====
-- The walk over the set bits of a hop mask.
use cl.Common.{
  ℕ, zero, suc, ◌+◌, ◌/◌, ◌%◌, ◌^◌, ◌≤◌, ◌<◌, ◌≡◌, ap, arith, Option, none, some, inl, inr, ◌==◌,
  Bool, Bool-cases, List, true, false, length, get_or, get_elem?-eq-get_or, Returns, Returns-mono,
}
use native.Mathlib.Nat.{pow-suc, pow-zero}
use cl.Common.Digits.{digit, digit_of_zero}
use cl.Hopscotch.Lookup.{walk_bits}

module _ (same : ℕ → Bool) (keys : List ℕ) where
  -- The cell found is that of a set bit and is the same; or no cell of a set bit is.
  abbrev pub Walked : ℕ → ℕ → Option ℕ → Type 0
  Walked bits index none = (d : ℕ) → digit d bits ≡ 1 → same (get_or keys (index + d) 0) ≡ false
  Walked bits index (some i) =
      (d : ℕ) × (i ≡ index + d) × (digit d bits ≡ 1) × (same (get_or keys i 0) ≡ true)

  no_cell_of_next :
      (bits index : ℕ)
      → (bits % 2 ≡ 1 → same (get_or keys index 0) ≡ false)
      → Walked (bits / 2) (index + 1) none
      → (d : ℕ) → digit d bits ≡ 1
      → same (get_or keys (index + d) 0) ≡ false
  unfolding digit
  no_cell_of_next bits index low high zero h =
      let e : index + 0 ≡ index = omega arith in rw e (low h)
  no_cell_of_next bits index low high (suc d) h =
      let e : index + suc d ≡ index + 1 + d = omega arith in rw e (high d h)

  Walked-next :
      (bits index : ℕ) (o : Option ℕ)
      → (bits % 2 ≡ 1 → same (get_or keys index 0) ≡ false)
      → Walked (bits / 2) (index + 1) o
      → Walked bits index o
  unfolding digit
  Walked-next bits index none low high = no_cell_of_next bits index low high
  Walked-next bits index (some i) low (d, e, f, g) = (suc d, omega arith, f, g)

  no_set_bit : (bits index : ℕ) → bits ≡ 0 → Walked bits index none
  no_set_bit bits index e d h = absurd (ground (arith, ap (digit d) e, digit_of_zero d, h))

  first_cell :
      (bits index : ℕ)
      → bits % 2 ≡ 1
      → same (get_or keys index 0) ≡ true
      → Walked bits index (some index)
  unfolding digit
  first_cell bits index e f = (zero, omega arith, e, f)

  pub walk_bits-Walked :
      (n fuel bits index : ℕ)
      → n ≤ fuel
      → bits < 2 ^ n
      → index + n ≤ length keys
      → Returns (walk_bits fuel same keys bits index) (Walked bits index)
  unfolding walk_bits
  walk_bits-Walked zero zero bits index le small inside =
      let e : bits ≡ 0 = omega (arith, pow-zero 2) in
      let t : (bits == 0) ≡ true = ground arith in rw t (no_set_bit bits index e)
  walk_bits-Walked zero (suc fuel) bits index le small inside =
      let e : bits ≡ 0 = omega (arith, pow-zero 2) in
      let t : (bits == 0) ≡ true = ground arith in rw t (no_set_bit bits index e)
  walk_bits-Walked (suc n) zero bits index le small inside = absurd (omega arith)
  walk_bits-Walked (suc n) (suc fuel) bits index le small inside =
      let rest =
        walk_bits-Walked n fuel (bits / 2) (index + 1) (omega arith) (omega (arith, pow-suc 2 n))
          (omega arith) in
      elim (Bool-cases (bits == 0)) [
        | inl z ↦ rw z (no_set_bit bits index (ground arith))
        | inr more ↦ elim (Bool-cases (bits % 2 == 0)) [
          | inl clear ↦
              rw (more, clear)
                (Returns-mono _ _ _ (λ o. Walked-next bits index o (λ odd. absurd (ground arith)))
                  rest)
          | inr odd ↦
              rw (more, odd, get_elem?-eq-get_or keys index 0 (omega arith))
                (elim (Bool-cases (same (get_or keys index 0))) [
                  | inl hit ↦ rw hit (first_cell bits index (ground arith) hit)
                  | inr miss ↦
                      rw miss (Returns-mono _ _ _ (λ o. Walked-next bits index o (λ _. miss)) rest)
                ])
        ]
      ]
