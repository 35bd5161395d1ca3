-- ===== src/Hopscotch/Contains.antt =====
-- Membership: what the probing loops find in a valid table.
use cl.Common.{
  ℕ, zero, suc, ◌+◌, ◌-◌, ◌*◌, ◌/◌, ◌%◌, ◌^◌, ◌≤◌, ◌<◌, ◌≡◌, ◌≢◌, refl, ap, sym, ◌∙◌, arith, Option,
  none, some, inl, inr, ◌==◌, Bool, Bool-cases, List, true, false, length, get_or, get_elem?,
  get_elem?-eq-get_or, Outcome, ok, Returns, Returns-mono, Returns->>=,
}
use cl.Common.Digits.{
  digit, digit_of_zero, digit-eq-zero_of_mod, digit-div-two-pow, lt-two-pow_of_digits,
}
use native.Mathlib.Decide.{dec_lt}
use native.Mathlib.Nat.{mul-suc, pow-suc, pow-zero, div-lt_iff_lt-mul, one-le-pow}
use cl.Hopscotch.{HopscotchTable, desired_index}
use cl.Hopscotch.Lookup.{probe_group, probe_groups, hopscotch_containsp}
use cl.Hopscotch.Cells.{Present}
use cl.Hopscotch.Table.{key_at, IsValid, desired_index-le}

-- The key stands in the cell found, or in none of the next `n` cells.
abbrev Probed : List ℕ → ℕ → ℕ → ℕ → Option ℕ → Type 0
Probed keys key index n none = (d : ℕ) → d < n → get_or keys (index + d) 0 ≢ key
Probed keys key index n (some i) = get_or keys i 0 ≡ key

none_of_cons :
    (keys : List ℕ) (key index n : ℕ)
    → get_or keys index 0 ≢ key
    → Probed keys key (index + 1) n none
    → Probed keys key index (suc n) none
none_of_cons keys key index n other rest zero lt =
    let e : index + 0 ≡ index = omega arith in rw e other
none_of_cons keys key index n other rest (suc d) lt =
    let e : index + suc d ≡ index + 1 + d = omega arith in rw e (rest d (omega arith))

Probed-cons :
    (keys : List ℕ) (key index n : ℕ) (o : Option ℕ)
    → get_or keys index 0 ≢ key
    → Probed keys key (index + 1) n o
    → Probed keys key index (suc n) o
Probed-cons keys key index n none other rest = none_of_cons keys key index n other rest
Probed-cons keys key index n (some i) other e = e

probe_group-Probed :
    (n : ℕ) (keys : List ℕ) (key index : ℕ)
    → index + n ≤ length keys
    → Returns (probe_group n keys key index) (Probed keys key index n)
unfolding probe_group
probe_group-Probed zero keys key index h = λ d lt. absurd (omega arith)
probe_group-Probed (suc n) keys key index h =
    rw (get_elem?-eq-get_or keys index 0 (omega arith))
      (elim (Bool-cases (get_or keys index 0 == key)) [
        | inl e ↦ rw e (ground arith)
        | inr e ↦ rw e (
            Returns-mono _ _ _ (λ o. Probed-cons keys key index n o (ground arith))
              (probe_group-Probed n keys key (index + 1) (omega arith)))
      ])

-- The key stands in the cell found, or in no cell whose bit is set.
abbrev Searched : List ℕ → ℕ → ℕ → ℕ → Option ℕ → Type 0
Searched keys key bits index none = (d : ℕ) → digit d bits ≡ 1 → get_or keys (index + d) 0 ≢ key
Searched keys key bits index (some i) = get_or keys i 0 ≡ key

module _ (width : ℕ) (keys : List ℕ) (key : ℕ) where
  none_of_groups :
      (bits index : ℕ)
      → ((d : ℕ) → d < width → digit d bits ≡ 1 → get_or keys (index + d) 0 ≢ key)
      → Searched keys key (bits / 2 ^ width) (index + width) none
      → Searched keys key bits index none
  none_of_groups bits index low high d h = elim (dec_lt d width) [
    | yes lt ↦ low d lt h
    | no ge ↦
        let e : width + (d - width) ≡ d = omega arith in
        let f : index + width + (d - width) ≡ index + d = omega arith in
        rw f at (high (d - width) (digit-div-two-pow width (d - width) bits ∙ rw e h))
  ]

  Searched-next :
      (bits index : ℕ) (o : Option ℕ)
      → ((d : ℕ) → d < width → digit d bits ≡ 1 → get_or keys (index + d) 0 ≢ key)
      → Searched keys key (bits / 2 ^ width) (index + width) o
      → Searched keys key bits index o
  Searched-next bits index none low high = none_of_groups bits index low high
  Searched-next bits index (some i) low e = e

  no_bits : (bits index : ℕ) → bits ≡ 0 → Searched keys key bits index none
  no_bits bits index e d h = absurd (ground (arith, ap (digit d) e, digit_of_zero d, h))

  next_small : (bits n : ℕ) → bits < (2 ^ width) ^ suc n → bits / 2 ^ width < (2 ^ width) ^ n
  next_small bits n h = (div-lt_iff_lt-mul (one-le-pow width 2 (omega arith))).1 (rw (← pow-suc) h)

  after_group :
      (fuel bits index : ℕ)
      → Returns
          (probe_groups fuel width keys key (bits / 2 ^ width) (index + width))
          (Searched keys key (bits / 2 ^ width) (index + width))
      → (o : Option ℕ) → Probed keys key index width o
      → Returns
          (elim o as (λ _. Outcome (Option ℕ)) [
            | none ↦ probe_groups fuel width keys key (bits / 2 ^ width) (index + width)
            | some i ↦ ok (some i)
          ])
          (Searched keys key bits index)
  after_group fuel bits index rest none p =
      Returns-mono _ _ _ (λ o. Searched-next bits index o (λ d lt h. p d lt)) rest
  after_group fuel bits index rest (some i) p = p

  -- Fuel for `n` groups and one more test is enough for a mask of `n` groups.
  probe_groups-Searched :
      (n fuel bits index : ℕ)
      → n ≤ fuel
      → bits < (2 ^ width) ^ n
      → index + width * n ≤ length keys
      → Returns (probe_groups fuel width keys key bits index) (Searched keys key bits index)
  unfolding probe_groups
  probe_groups-Searched zero zero bits index le small inside =
      let e : bits ≡ 0 = omega (arith, pow-zero (2 ^ width)) in
      let t : (bits == 0) ≡ true = ground arith in rw t (no_bits bits index e)
  probe_groups-Searched zero (suc fuel) bits index le small inside =
      let e : bits ≡ 0 = omega (arith, pow-zero (2 ^ width)) in
      let t : (bits == 0) ≡ true = ground arith in rw t (no_bits bits index e)
  probe_groups-Searched (suc n) zero bits index le small inside = absurd (omega arith)
  probe_groups-Searched (suc n) (suc fuel) bits index le small inside =
      let rest =
        probe_groups-Searched n fuel (bits / 2 ^ width) (index + width) (omega arith)
          (next_small bits n small) (omega arith) in
      elim (Bool-cases (bits == 0)) [
        | inl z ↦ rw z (no_bits bits index (ground arith))
        | inr more ↦ elim (Bool-cases (bits % 2 ^ width == 0)) [
          | inl quiet ↦
              rw (more, quiet)
                (Returns-mono _ _ _
                  (λ o.
                    Searched-next bits index o
                      (λ d lt h. absurd (ground (arith, digit-eq-zero_of_mod width d bits))))
                  rest)
          | inr probes ↦
              rw (more, probes)
                (Returns->>= (Probed keys key index width) _ _ _
                  (probe_group-Probed width keys key index (omega arith))
                  (after_group fuel bits index rest))
        ]
      ]

two-pow_sum : (m n : ℕ) → 2 ^ (m + n) ≡ 2 ^ m * 2 ^ n
two-pow_sum zero n = let e : 0 + n ≡ n = omega arith in rw (pow-zero 2, e) (omega arith)
two-pow_sum (suc m) n =
    let e : suc m + n ≡ suc (m + n) = omega arith in
    rw (e, pow-suc 2 (m + n), pow-suc 2 m) (omega (arith, two-pow_sum m n))

-- The bits of a mask fill groups.
groups_bound : (width n : ℕ) → (2 ^ width) ^ n ≡ 2 ^ (width * n)
groups_bound width zero =
    let e : width * 0 ≡ 0 = omega arith in rw (e, pow-zero (2 ^ width)) (sym (pow-zero 2))
groups_bound width (suc n) =
    let e : width * suc n ≡ width * n + width = omega (arith, mul-suc width n) in
    rw (e, pow-suc (2 ^ width) n, two-pow_sum (width * n) width, groups_bound width n) refl

-- The key stands in the cell found, or nowhere.
abbrev pub Located : HopscotchTable → ℕ → Option ℕ → Type 0
Located ht key none = (i : ℕ) → key_at ht i ≢ key
Located ht key (some i) = key_at ht i ≡ key

module _ (ht : HopscotchTable) (key : ℕ) (valid : IsValid ht) (nonzero : key ≢ 0) where
  abbrev pub bin_of_key : ℕ
  bin_of_key = desired_index ht key

  abbrev pub mask_of_bin : ℕ
  mask_of_bin = get_or ht.hops bin_of_key 0

  pub read_mask : get_elem? ht.hops bin_of_key ≡ some mask_of_bin
  read_mask =
      get_elem?-eq-get_or ht.hops bin_of_key 0 (omega (arith, valid.bins, desired_index-le ht key))

  filled : (i : ℕ) → key_at ht i ≡ key → key_at ht i ≢ 0
  filled i e z = nonzero (sym e ∙ z)

  pub claim : (i : ℕ) → key_at ht i ≡ key → digit (i - bin_of_key) mask_of_bin ≡ 1
  claim i e = rw e at (valid.integrity.claimed i (filled i e))

  pub own_cell :
      (i : ℕ) → key_at ht i ≡ key → key_at ht (bin_of_key + (i - bin_of_key)) ≡ key_at ht i
  own_cell i e =
      let near = rw e at (valid.integrity.near i (filled i e)) in
      ap (key_at ht) (omega (arith, near.0))

  Located-Searched :
      (o : Option ℕ) → Searched ht.keys key mask_of_bin bin_of_key o → Located ht key o
  Located-Searched (some i) e = e
  Located-Searched none absent = λ i e. absent (i - bin_of_key) (claim i e) (own_cell i e ∙ e)

  pub low_mask : mask_of_bin < 2 ^ ht.hop_range
  low_mask =
      lt-two-pow_of_digits mask_of_bin ht.hop_range mask_of_bin (omega arith)
        (λ i ge h. absurd (omega (arith, valid.integrity.short bin_of_key i h)))

  -- The probes of all groups of the key's bin.
  pub probe_groups-Located :
      (width n fuel : ℕ)
      → width * n ≡ ht.hop_range
      → n ≤ fuel
      → Returns (probe_groups fuel width ht.keys key mask_of_bin bin_of_key) (Located ht key)
  probe_groups-Located width n fuel e le = Returns-mono _ _ _ Located-Searched (
      probe_groups-Searched width ht.keys key n fuel mask_of_bin bin_of_key le
        (rw (groups_bound width n, e) low_mask)
        (omega (arith, valid.cells, desired_index-le ht key)))

-- Whether the key was found is whether the table has it.
abbrev pub Decides : HopscotchTable → ℕ → Bool → Type 0
Decides ht key b = (b ≡ true → Present (key_at ht) key) × (Present (key_at ht) key → b ≡ true)

-- In a valid hopscotch table of which the hop range is a multiple of eight, and which has no
-- comparison function, hopscotch_containsp returns whether a key other than 0 is in the table.
pub hopscotch_containsp-Decides :
    (ht : HopscotchTable) (key : ℕ)
    → IsValid ht
    → ht.compare_fun ≡ none
    → ht.hop_range % 8 ≡ 0
    → key ≢ 0
    → Returns (hopscotch_containsp ht key) (Decides ht key)
unfolding hopscotch_containsp
hopscotch_containsp-Decides ht key valid plain eights nonzero =
    rw (read_mask ht key valid nonzero, plain)
      (Returns->>= (Located ht key) (Decides ht key) _ _
        (probe_groups-Located ht key valid nonzero 8 (ht.hop_range / 8) 4 (omega arith)
          (omega (arith, valid.word)))
        answer)
  where
    answer :
        (o : Option ℕ)
        → Located ht key o
        → Returns (ok (elim o as (λ _. Bool) [ none ↦ false | some _ ↦ true ])) (Decides ht key)
    answer (some i) e = (λ _. (i, e), λ _. refl)
    answer none absent = (λ h. cc, λ (i, e). absurd (absent i e))
