-- ===== src/Hopscotch/Cells.antt =====
-- The integrity of a hopscotch table, over cells as functions: `keys i` is the key in cell `i` and
-- `owns b d` digit `d` of the hop mask of bin `b`.
use cl.Common.{
  ℕ, ◌+◌, ◌-◌, ◌≤◌, ◌<◌, ◌≡◌, ◌≢◌, arith, inl, inr, ◌==◌, if◌then◌else◌, Bool-cases, fun_ext,
}
use mathlib.Core.Path.{subst₂}

pub record Integrity (bin : ℕ → ℕ) (hop_range : ℕ) (keys : ℕ → ℕ) (owns : ℕ → ℕ → ℕ) : Type 0 where
  -- Every key stands in reach of its bin, whose mask says so.
  pub near : (i : ℕ) → keys i ≢ 0 → (bin (keys i) ≤ i) × (i < bin (keys i) + hop_range)
  pub claimed : (i : ℕ) → keys i ≢ 0 → owns (bin (keys i)) (i - bin (keys i)) ≡ 1
  -- Every bit of a mask stands for a key of its bin.
  pub short : (b d : ℕ) → owns b d ≡ 1 → d < hop_range
  pub filled : (b d : ℕ) → owns b d ≡ 1 → keys (b + d) ≢ 0
  pub home : (b d : ℕ) → owns b d ≡ 1 → bin (keys (b + d)) ≡ b
  -- No key stands twice.
  pub once : (i j : ℕ) → keys i ≢ 0 → keys i ≡ keys j → i ≡ j

abbrev pub Present : (ℕ → ℕ) → ℕ → Type 0
Present keys k = (i : ℕ) × (keys i ≡ k)

-- A key goes into an empty cell of its neighbourhood.
abbrev pub put_key : (ℕ → ℕ) → ℕ → ℕ → ℕ → ℕ
put_key keys free key i = if i == free then key else keys i

abbrev pub put_owner : (ℕ → ℕ → ℕ) → ℕ → ℕ → ℕ → ℕ → ℕ
put_owner owns bin d b x = if b == bin then (if x == d then 1 else owns b x) else owns b x

module _ {bin : ℕ → ℕ} {hop : ℕ} {keys : ℕ → ℕ} {owns : ℕ → ℕ → ℕ}
    (inv : Integrity bin hop keys owns) where
  module _ (free key : ℕ) (nonzero : key ≢ 0) (new : (i : ℕ) → keys i ≢ key) (empty : keys free ≡ 0)
      (reach : bin key ≤ free) (close : free < bin key + hop) where
    pub put_key-Integrity :
        Integrity bin hop (put_key keys free key) (put_owner owns (bin key) (free - bin key))
    put_key-Integrity = record {
      near = λ i h. ground (arith, inv.near i);
      claimed = λ i h. ground (arith, inv.claimed i, inv.near i);
      short = λ b d h. ground (arith, inv.short b d);
      filled = λ b d h. ground (arith, inv.filled b d);
      home = λ b d h. ground (arith, inv.home b d, inv.filled b d);
      once = λ i j h e. ground (arith, inv.once i j, new i, new j);
    }

-- The key of cell `b + v` goes to the empty cell `b + d`, and its bin's mask follows.
abbrev pub move_key : (ℕ → ℕ) → ℕ → ℕ → ℕ → ℕ
move_key keys from to i = if i == from then 0 else if i == to then keys from else keys i

abbrev pub move_owner : (ℕ → ℕ → ℕ) → ℕ → ℕ → ℕ → ℕ → ℕ → ℕ
move_owner owns bin v d b x =
    if b == bin then (if x == d then 1 else if x == v then 0 else owns b x) else owns b x

module _ {bin : ℕ → ℕ} {hop : ℕ} {keys : ℕ → ℕ} {owns : ℕ → ℕ → ℕ}
    (inv : Integrity bin hop keys owns) where
  module _ (b v d : ℕ) (owned : owns b v ≡ 1) (before : v < d) (close : d < hop)
      (empty : keys (b + d) ≡ 0) where
    pub move_key-Integrity :
        Integrity bin hop (move_key keys (b + v) (b + d)) (move_owner owns b v d)
    move_key-Integrity = record {
      near = λ i h. ground (arith, inv.near i, inv.home b v, inv.filled b v);
      claimed = λ i h. ground (arith, inv.claimed i, inv.near i, inv.home b v, inv.once i (b + v));
      short = λ c x h. ground (arith, inv.short c x);
      filled = λ c x h. ground (arith, inv.filled c x, inv.home c x, inv.home b v, inv.filled b v);
      home = λ c x h. ground (arith, inv.home c x, inv.filled c x, inv.home b v);
      once = λ i j h e.
          ground (arith, inv.once i j, inv.once (b + v) j, inv.once i (b + v), inv.filled b v);
    }

    -- The same keys are in the table afterwards.
    pub move_key-Present :
        (k : ℕ) → k ≢ 0 → Present keys k → Present (move_key keys (b + v) (b + d)) k
    move_key-Present k h (i, e) = elim (Bool-cases (i == b + v)) [
      | inl same ↦ (b + d, ground (arith, inv.filled b v))
      | inr other ↦ (i, ground arith)
    ]

    pub Present-move_key :
        (k : ℕ) → k ≢ 0 → Present (move_key keys (b + v) (b + d)) k → Present keys k
    Present-move_key k h (i, e) = elim (Bool-cases (i == b + d)) [
      | inl same ↦ (b + v, ground arith)
      | inr other ↦ (i, ground arith)
    ]

-- The invariant over other functions with the same values.
pub Integrity-ext :
    {bin : ℕ → ℕ} {hop : ℕ} (k k' : ℕ → ℕ) (o o' : ℕ → ℕ → ℕ)
    → ((i : ℕ) → k i ≡ k' i)
    → ((b d : ℕ) → o b d ≡ o' b d)
    → Integrity bin hop k o
    → Integrity bin hop k' o'
Integrity-ext {bin} {hop} k k' o o' ek eo inv =
    subst₂ (λ x y. Integrity bin hop x y) (fun_ext ek) (fun_ext (λ b. fun_ext (eo b))) inv
