-- ===== src/Hopscotch/Reset/Emptied.antt =====
-- A table after `hopscotch_reset` of src/runtime/hopscotch.c.
use cl.Common.{
  ℕ, ◌+◌, ◌-◌, ◌*◌, ◌/◌, ◌≤◌, ◌<◌, ◌≡◌, ◌≢◌, refl, ap, ◌∙◌, arith, inl, inr, Bool, true, false,
  Bool-cases, Option, none, leb, ◌==◌, if◌then◌else◌, length, get_or-replicate, length-replicate,
  ok, ◌>>=◌, Returns, Returns->>=,
}
use native.Mathlib.Nat.{mul-le-mul_left}
use cl.Common.Digits.{digit, digit_of_zero}
use cl.Hopscotch.{HopscotchTable, choose_hop_range, hopscotch_realloc}
use cl.Hopscotch.Cells.{Integrity}
use cl.Hopscotch.Table.{IsValid, key_at}
use cl.Hopscotch.Create.{hopscotch_realloc-IsFresh}
use cl.Hopscotch.Reset.{
  need_to_zero, clear, table_size, downsizes, realloc_within, hash_fun_default, hopscotch_reset,
}

-- With no key and no bit of a mask every function that picks bins will do.
no_keys-Integrity :
    (bin : ℕ → ℕ) (hop : ℕ) (keys : ℕ → ℕ) (owns : ℕ → ℕ → ℕ)
    → ((i : ℕ) → keys i ≡ 0)
    → ((b d : ℕ) → owns b d ≢ 1)
    → Integrity bin hop keys owns
no_keys-Integrity bin hop keys owns empty unowned = record {
  near = λ i h. absurd (h (empty i));
  claimed = λ i h. absurd (h (empty i));
  short = λ b d h. absurd (unowned b d h);
  filled = λ b d h. absurd (unowned b d h);
  home = λ b d h. absurd (unowned b d h);
  once = λ i j h e. absurd (h (empty i));
}

-- A valid table without keys, whatever its hash function.
pub record IsEmptied (t : HopscotchTable) : Type 0 where
  pub valid : IsValid t
  pub empty : (i : ℕ) → key_at t i ≡ 0
  pub count : t.count ≡ 0

-- The last assignments of `hopscotch_reset` keep that.
IsEmptied-rehash :
    (t : HopscotchTable) (size : ℕ) (h : Option (ℕ → ℕ))
    → IsEmptied t
    → IsEmptied (record t { prev_size = size; resized = false; hash_fun = h })
IsEmptied-rehash t size h e = record {
  valid = record {
    cells = e.valid.cells;
    bins = e.valid.bins;
    room = e.valid.room;
    word = e.valid.word;
    integrity =
        no_keys-Integrity _ _ _ _ e.empty
          (λ b d owned. e.valid.integrity.filled b d owned (e.empty (b + d)));
  };
  empty = e.empty;
  count = e.count;
}

clear-IsEmptied : (ht : HopscotchTable) → IsValid ht → IsEmptied (clear ht)
unfolding clear
clear-IsEmptied ht v = record {
  valid = record {
    cells = length-replicate {A = ℕ} (length ht.keys) 0 ∙ v.cells;
    bins = length-replicate {A = ℕ} (length ht.hops) 0 ∙ v.bins;
    room = v.room;
    word = v.word;
    integrity =
        no_keys-Integrity _ _ _ _ (λ i. get_or-replicate (length ht.keys) i 0)
          (λ b d owned.
            ground (
              arith,
              owned,
              ap (digit d) (get_or-replicate (length ht.hops) b 0),
              digit_of_zero d,
            ));
  };
  empty = λ i. get_or-replicate (length ht.keys) i 0;
  count = refl;
}

-- The smaller table fits where the larger one stood.
half_fits :
    (usable size value hop range : ℕ)
    → range ≤ hop
    → (8 + value) * (size + (hop - 1)) + 4 * size ≤ usable
    → (8 + value) * (size / 2 + (range - 1)) + 4 * (size / 2) ≤ usable
half_fits usable size value hop range le room =
    let product : (8 + value) * (size / 2 + (range - 1)) ≤ (8 + value) * (size + (hop - 1)) =
      mul-le-mul_left (8 + value) (omega arith) in
    omega (arith, product, room)

realloc_within-IsEmptied :
    (usable : ℕ) (ht t : HopscotchTable)
    → t.count ≡ 0
    → t.value_size ≡ ht.value_size
    → 1 < table_size ht
    → choose_hop_range (table_size ht / 2) 0 ≤ ht.hop_range
    → (8 + ht.value_size) * (table_size ht + (ht.hop_range - 1)) + 4 * table_size ht ≤ usable
    → Returns
        (realloc_within usable t (table_size ht / 2))
        (λ t. IsEmptied t × (table_size t ≡ table_size ht / 2))
unfolding realloc_within hopscotch_realloc
realloc_within-IsEmptied usable ht t none_left same two range room =
    let hop : ℕ = choose_hop_range (table_size ht / 2) 0 in
    let fits : leb ((8 + t.value_size) * (table_size ht / 2 + (hop - 1)) + 4 * (table_size ht / 2))
          usable
        ≡ true =
      rw same (
        ground
          (arith, half_fits usable (table_size ht) ht.value_size ht.hop_range hop range room)) in
    let fresh = hopscotch_realloc-IsFresh t (table_size ht / 2) (omega (arith, two)) in
    rw fits
      (record { valid = fresh.valid; empty = fresh.empty; count = none_left }, omega (arith, two))

zeroed-IsEmptied :
    (ht : HopscotchTable)
    → IsValid ht
    → (ht.count ≡ 0 → (i : ℕ) → key_at ht i ≡ 0)
    → IsEmptied (if need_to_zero ht then clear ht else ht)
zeroed-IsEmptied ht v counted = elim (Bool-cases (ht.count == 0)) [
  | inl e ↦ rw e (
      let none_left : ht.count ≡ 0 = ground (arith, e) in
      record { valid = v; empty = counted none_left; count = none_left })
  | inr e ↦ rw e (clear-IsEmptied ht v)
]

-- The size and the size of values stay.
zeroed-shape :
    (ht : HopscotchTable)
    → let t = if need_to_zero ht then clear ht else ht in
      (t.mask ≡ ht.mask) × (t.value_size ≡ ht.value_size)
unfolding clear
zeroed-shape ht = elim (Bool-cases (ht.count == 0)) [
  | inl e ↦ rw e (refl, refl)
  | inr e ↦ rw e (refl, refl)
]

-- Let a table be valid and have no key if its count is 0, more than one bin, a hop range that is
-- not below what the program chooses for half its bins, and so much memory as its arrays take. Then
-- `hopscotch_reset` returns; the table is valid with no key and no count, has half the bins if it
-- was to be made smaller and as many as before otherwise, and records the number of before.
pub hopscotch_reset-IsEmptied :
    (usable : ℕ) (ht : HopscotchTable)
    → IsValid ht
    → (ht.count ≡ 0 → (i : ℕ) → key_at ht i ≡ 0)
    → 1 < table_size ht
    → choose_hop_range (table_size ht / 2) 0 ≤ ht.hop_range
    → (8 + ht.value_size) * (table_size ht + (ht.hop_range - 1)) + 4 * table_size ht ≤ usable
    → Returns (hopscotch_reset usable ht) (λ t.
      IsEmptied t
      × (table_size t ≡ (if downsizes ht then table_size ht / 2 else table_size ht))
      × (t.prev_size ≡ table_size ht))
unfolding hopscotch_reset
hopscotch_reset-IsEmptied usable ht v counted two range room =
    finish (downsizes ht) (zeroed-IsEmptied ht v counted) (zeroed-shape ht)
  where
    zeroed : HopscotchTable
    zeroed = if need_to_zero ht then clear ht else ht

    finish :
        (b : Bool)
        → IsEmptied zeroed
        → (zeroed.mask ≡ ht.mask) × (zeroed.value_size ≡ ht.value_size)
        → Returns
            ((if b then realloc_within usable zeroed (table_size ht / 2) else ok zeroed) >>= λ t.
              ok (record t {
                prev_size = table_size ht;
                resized = false;
                hash_fun = if t.hashfun == hash_fun_default then none else t.hash_fun;
              }))
            (λ t.
              IsEmptied t
              × (table_size t ≡ (if b then table_size ht / 2 else table_size ht))
              × (t.prev_size ≡ table_size ht))
    finish true e (_, same) =
        Returns->>= _ _ (realloc_within usable zeroed (table_size ht / 2)) _
          (realloc_within-IsEmptied usable ht zeroed e.count same two range room)
          (λ t r. (IsEmptied-rehash t _ _ r.0, r.1, refl))
    finish false e (m, _) = (IsEmptied-rehash zeroed _ _ e, omega (arith, m), refl)
