-- ===== src/Hopscotch/Delete.antt =====
-- `hopscotch_delete` on a valid table.
use cl.Common.{
  ℕ, ◌+◌, ◌-◌, ◌^◌, ◌≤◌, ◌≡◌, ◌≢◌, ◌⊎◌, refl, fun_ext, ap, sym, arith, Option, none, some, inl, inr,
  ◌==◌, if◌then◌else◌, Bool, Bool-cases, get_or, set, get_or-set, length-set, Outcome, ok, bit_xor,
  Returns, Returns->>=,
}
use cl.Common.Digits.{digit, digit-lt-two, digit-bit_xor, digit-two-pow}
use cl.Hopscotch.{HopscotchTable, desired_index, hash, set_val}
use cl.Hopscotch.Lookup.{same_key, hopscotch_delete}
use cl.Hopscotch.Cells.{Integrity, Present, Integrity-ext}
use cl.Hopscotch.Table.{key_at, owner_at, IsValid, SameBins, desired_index-le}
use mathlib.Core.Path.{subst}
use cl.Hopscotch.Contains.{read_mask, claim, own_cell, low_mask}
use cl.Hopscotch.Walk.{Walked, walk_bits-Walked}

abbrev clear_key : (ℕ → ℕ) → ℕ → ℕ → ℕ
clear_key keys at i = if i == at then 0 else keys i

abbrev clear_owner : (ℕ → ℕ → ℕ) → ℕ → ℕ → ℕ → ℕ → ℕ
clear_owner owns bin v b x = if b == bin then (if x == v then 0 else owns b x) else owns b x

clear_key-Integrity :
    {bin : ℕ → ℕ} {hop : ℕ} {keys : ℕ → ℕ} {owns : ℕ → ℕ → ℕ} (inv : Integrity bin hop keys owns)
    (b v : ℕ)
    → owns b v ≡ 1
    → Integrity bin hop (clear_key keys (b + v)) (clear_owner owns b v)
clear_key-Integrity inv b v owned = record {
  near = λ i h. ground (arith, inv.near i);
  claimed = λ i h. ground (arith, inv.claimed i, inv.near i);
  short = λ c x h. ground (arith, inv.short c x);
  filled = λ c x h. ground (arith, inv.filled c x, inv.home c x, inv.home b v);
  home = λ c x h. ground (arith, inv.home c x, inv.home b v, inv.filled c x);
  once = λ i j h e. ground (arith, inv.once i j);
}

-- The table that a deletion leaves.
unfoldable pub deleted : HopscotchTable → ℕ → ℕ → HopscotchTable
unfolding set_val
deleted ht b v = record (set_val (record ht { keys = set ht.keys (b + v) 0 }) (b + v) 0) {
  hops = set ht.hops b (bit_xor (get_or ht.hops b 0) (2 ^ (b + v - b)));
  count = ht.count - 1;
}

deleted-SameBins : (ht : HopscotchTable) (b v : ℕ) → SameBins ht (deleted ht b v)
unfolding deleted desired_index hash
deleted-SameBins ht b v = record {
  bin = λ k. refl;
  mask = refl;
  hop_range = refl;
  rehashing = refl;
  compare_fun = refl;
}

module _ (ht : HopscotchTable) (valid : IsValid ht) (b v : ℕ) (low : b ≤ ht.mask)
    (owned : owner_at ht b v ≡ 1) where
  deleted_key : (i : ℕ) → clear_key (key_at ht) (b + v) i ≡ key_at (deleted ht b v) i
  unfolding deleted
  deleted_key i =
      ground (arith, get_or-set ht.keys (b + v) i 0 0, valid.cells, valid.integrity.short b v)

  deleted_owner : (c x : ℕ) → clear_owner (owner_at ht) b v c x ≡ owner_at (deleted ht b v) c x
  unfolding deleted
  deleted_owner c x = elim (Bool-cases (c == b)) [
    | inl e ↦ rw (written, e) (ground (arith, here))
    | inr e ↦ rw (written, e) refl
  ]
    where
      w : ℕ
      w = get_or ht.hops b 0

      written :
          get_or (set ht.hops b (bit_xor w (2 ^ (b + v - b)))) c 0
          ≡ (if c == b then bit_xor w (2 ^ (b + v - b)) else get_or ht.hops c 0)
      written = get_or-set ht.hops b c _ 0 (omega (arith, valid.bins))

      same : b + v - b ≡ v
      same = omega arith

      here : digit x (bit_xor w (2 ^ (b + v - b))) ≡ (if x == v then 0 else digit x w)
      here = ground (
        arith,
        owned,
        same,
        digit-bit_xor x w (2 ^ (b + v - b)),
        digit-two-pow x (b + v - b),
        digit-lt-two x w,
      )

  deleted-IsValid : IsValid (deleted ht b v)
  unfolding deleted desired_index hash
  deleted-IsValid = record {
    cells = omega (arith, length-set ht.keys (b + v) 0, valid.cells);
    bins = omega (arith, length-set ht.hops b _, valid.bins);
    room = valid.room;
    word = valid.word;
    integrity =
        Integrity-ext _ _ _ _ deleted_key deleted_owner
          (clear_key-Integrity valid.integrity b v owned);
  }

-- The key is gone, and the others stay.
pub record Removed (ht : HopscotchTable) (key : ℕ) (t : HopscotchTable) : Type 0 where
  pub valid : IsValid t
  pub same : SameBins ht t
  pub counted : t.count ≡ ht.count - 1
  pub was : Present (key_at ht) key
  pub gone : (i : ℕ) → key_at t i ≢ key
  pub kept : (k : ℕ) → k ≢ 0 → k ≢ key → Present (key_at ht) k → Present (key_at t) k
  pub nothing_else : (k : ℕ) → k ≢ 0 → Present (key_at t) k → Present (key_at ht) k

same_key_plain :
    (ht : HopscotchTable) (key : ℕ) → ht.compare_fun ≡ none → same_key ht key ≡ (λ k. k == key)
unfolding same_key
same_key_plain ht key plain = fun_ext (λ k. ap (λ c. compared c k key) plain)
  where
    compared : Option (ℕ → ℕ → Bool) → ℕ → ℕ → Bool
    compared c k key = elim c [ none ↦ k == key | some same ↦ same k key ]

-- What `hopscotch_delete` may return.
abbrev pub Deleted : HopscotchTable → ℕ → HopscotchTable × ℕ → Type 0
Deleted ht key r =
    (((i : ℕ) → key_at ht i ≢ key) × (r ≡ (ht, 0))) ⊎ (Removed ht key r.0 × (r.1 ≡ 1))

deleted-Removed :
    (ht : HopscotchTable) (key b v : ℕ)
    → IsValid ht
    → key ≢ 0
    → b ≤ ht.mask
    → owner_at ht b v ≡ 1
    → key_at ht (b + v) ≡ key
    → Removed ht key (deleted ht b v)
unfolding deleted
deleted-Removed ht key b v valid nonzero low owned here = record {
  valid = deleted-IsValid ht valid b v low owned;
  same = deleted-SameBins ht b v;
  counted = refl;
  was = (b + v, here);
  gone = λ i e.
      ground (arith, deleted_key ht valid b v low owned i, valid.integrity.once i (b + v), e);
  kept = λ k z other (i, e). (i, ground (arith, deleted_key ht valid b v low owned i, e));
  nothing_else = λ k z (i, e). (i, ground (arith, deleted_key ht valid b v low owned i, e));
}

-- For a key other than 0, hopscotch_delete in a valid hopscotch table with no comparison function
-- returns 0 and leaves the table if the key is absent; otherwise it returns 1, the table stays
-- valid with one key less in its count, the key is gone and the other keys stay.
pub hopscotch_delete-Deleted :
    (ht : HopscotchTable) (key : ℕ)
    → IsValid ht
    → ht.compare_fun ≡ none
    → key ≢ 0
    → Returns (hopscotch_delete ht key) (Deleted ht key)
unfolding hopscotch_delete deleted set_val
hopscotch_delete-Deleted ht key valid plain nonzero =
    rw (read_mask ht key valid nonzero, same_key_plain ht key plain)
      (Returns->>= (Walked (λ k. k == key) ht.keys bits bin) (Deleted ht key) _ _
        (walk_bits-Walked (λ k. k == key) ht.keys ht.hop_range 32 bits bin valid.word
          (low_mask ht key valid nonzero) (omega (arith, low, valid.cells)))
        answer)
  where
    bin : ℕ
    bin = desired_index ht key

    low : bin ≤ ht.mask
    low = desired_index-le ht key

    bits : ℕ
    bits = get_or ht.hops bin 0

    absent : Walked (λ k. k == key) ht.keys bits bin none → (i : ℕ) → key_at ht i ≢ key
    absent none_here i e = ground (
      arith,
      none_here (i - bin) (claim ht key valid nonzero i e),
      own_cell ht key valid nonzero i e,
      e,
    )

    emptied : ℕ → HopscotchTable
    emptied i = record (set_val (record ht { keys = set ht.keys i 0 }) i 0) {
      hops = set ht.hops bin (bit_xor bits (2 ^ (i - bin)));
      count = ht.count - 1;
    }

    removed :
        (d : ℕ) → digit d bits ≡ 1 → key_at ht (bin + d) ≡ key → Removed ht key (emptied (bin + d))
    removed d owned here = deleted-Removed ht key bin d valid nonzero low owned here

    answer :
        (o : Option ℕ)
        → Walked (λ k. k == key) ht.keys bits bin o
        → Returns
            (elim o as (λ _. Outcome (HopscotchTable × ℕ)) [
              | none ↦ ok (ht, 0)
              | some i ↦ ok (emptied i, 1)
            ])
            (Deleted ht key)
    answer none none_here = inl (absent none_here, refl)
    answer (some i) (d, e, owned, same) =
        let here : key_at ht (bin + d) ≡ key = ground (arith, e, same) in
        inr (subst (λ j. Removed ht key (emptied j)) (sym e) (removed d owned here), refl)
