-- ===== src/Hopscotch/Attempts.antt =====
-- What an attempt at an insertion owes, and that its two writes give it.
use cl.Common.{
  ℕ, ◌+◌, ◌≤◌, ◌<◌, ◌≡◌, ◌≢◌, ◌⊎◌, refl, sym, ◌∙◌, arith, inl, inr, ◌==◌, if◌then◌else◌, Bool-cases,
  length,
}
use cl.Hopscotch.{HopscotchTable, desired_index, Attempt, placed, full}
use cl.Hopscotch.Cells.{Present}
use cl.Hopscotch.Table.{
  key_at, owner_at, IsValid, SameBins, occupied, vacated, occupied-SameBins, vacated-SameBins,
  occupied-IsValid, occupied_key, vacated-IsValid, vacated-keeps,
}

-- `t` is valid and has the bins of `ht`, the keys of `ht`, and the key `key` too if it was added.
pub record Inserted (ht : HopscotchTable) (key : ℕ) (t : HopscotchTable) : Type 0 where
  pub valid : IsValid t
  pub same : SameBins ht t
  pub counted : t.count ≡ ht.count + 1
  pub added : Present (key_at t) key
  pub kept : (k : ℕ) → k ≢ 0 → Present (key_at ht) k → Present (key_at t) k
  pub nothing_else : (k : ℕ) → k ≢ 0 → Present (key_at t) k → (k ≡ key) ⊎ Present (key_at ht) k

pub record Rearranged (ht t : HopscotchTable) : Type 0 where
  pub valid : IsValid t
  pub same : SameBins ht t
  pub counted : t.count ≡ ht.count
  pub kept : (k : ℕ) → k ≢ 0 → Present (key_at ht) k → Present (key_at t) k
  pub nothing_else : (k : ℕ) → k ≢ 0 → Present (key_at t) k → Present (key_at ht) k

abbrev pub Tried : HopscotchTable → ℕ → Attempt → Type 0
Tried ht key (placed t) = Inserted ht key t
Tried ht key (full t) = Rearranged ht t

SameBins-trans : {a b c : HopscotchTable} → SameBins a b → SameBins b c → SameBins a c
SameBins-trans s t = record {
  bin = λ k. t.bin k ∙ s.bin k;
  mask = t.mask ∙ s.mask;
  hop_range = t.hop_range ∙ s.hop_range;
  rehashing = t.rehashing ∙ s.rehashing;
  compare_fun = t.compare_fun ∙ s.compare_fun;
}

pub Tried-trans :
    (ht t : HopscotchTable) (key : ℕ) (a : Attempt)
    → Rearranged ht t
    → Tried t key a
    → Tried ht key a
Tried-trans ht t key (placed u) r i = record {
  valid = i.valid;
  same = SameBins-trans r.same i.same;
  counted = omega (arith, r.counted, i.counted);
  added = i.added;
  kept = λ k z p. i.kept k z (r.kept k z p);
  nothing_else =
      λ k z p. elim (i.nothing_else k z p) [ inl e ↦ inl e | inr q ↦ inr (r.nothing_else k z q) ];
}
Tried-trans ht t key (full u) r i = record {
  valid = i.valid;
  same = SameBins-trans r.same i.same;
  counted = omega (arith, r.counted, i.counted);
  kept = λ k z p. i.kept k z (r.kept k z p);
  nothing_else = λ k z p. r.nothing_else k z (i.nothing_else k z p);
}

pub Rearranged-self : (ht : HopscotchTable) → IsValid ht → Rearranged ht ht
Rearranged-self ht valid = record {
  valid = valid;
  same = record {
    bin = λ k. refl;
    mask = refl;
    hop_range = refl;
    rehashing = refl;
    compare_fun = refl;
  };
  counted = refl;
  kept = λ k z p. p;
  nothing_else = λ k z p. p;
}

module _ {ht : HopscotchTable} (valid : IsValid ht) where
  pub occupied-Inserted :
      (free key val : ℕ) (nonzero : key ≢ 0) (new : (i : ℕ) → key_at ht i ≢ key)
      (empty : key_at ht free ≡ 0) (reach : desired_index ht key ≤ free)
      (close : free < desired_index ht key + ht.hop_range)
      → Inserted ht key (occupied ht free key val)
  occupied-Inserted free key val nonzero new empty reach close = record {
    valid = occupied-IsValid valid free key val nonzero new empty reach close;
    same = occupied-SameBins ht free key val;
    counted = unfold occupied in refl;
    added = (free, sym (at free) ∙ ground arith);
    kept = λ k z (i, e). (i, sym (at i) ∙ ground arith);
    nothing_else = λ k z (i, e). elim (Bool-cases (i == free)) [
      | inl same ↦ inl (sym e ∙ sym (at i) ∙ ground arith)
      | inr other ↦ inr (i, ground (arith, at i))
    ];
  }
    where
      at : (i : ℕ) → (if i == free then key else key_at ht i) ≡ key_at (occupied ht free key val) i
      at i = occupied_key valid free key val nonzero new empty reach close i

  pub vacated-Rearranged :
      (b v d : ℕ) (owned : owner_at ht b v ≡ 1) (before : v < d) (close : d < ht.hop_range)
      (bin : b ≤ ht.mask) (inside : b + d < length ht.keys) (empty : key_at ht (b + d) ≡ 0)
      → Rearranged ht (vacated ht (b + d) b v)
  vacated-Rearranged b v d owned before close bin inside empty = record {
    valid = vacated-IsValid valid b v d owned before close bin inside empty;
    same = vacated-SameBins ht (b + d) b v;
    counted = unfold vacated in refl;
    kept = λ k z. (vacated-keeps valid b v d owned before close bin inside empty k z).0;
    nothing_else = λ k z. (vacated-keeps valid b v d owned before close bin inside empty k z).1;
  }
