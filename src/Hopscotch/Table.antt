-- ===== src/Hopscotch/Table.antt =====
-- When a table is valid, and the two writes that keep it so.
use Prim.Native.Nat.{bit_xor}
use cl.Common.{
  ℕ, ◌+◌, ◌-◌, ◌^◌, ◌≤◌, ◌<◌, ◌≡◌, ◌≢◌, refl, sym, ◌∙◌, arith, bit_or, inl, inr, ◌==◌,
  if◌then◌else◌, Bool-cases, length, get_or, set, get_or-set, length-set, get_elem?-eq-get_or, ok,
}
use cl.Common.Digits.{digit, digit-bit_or, digit-bit_xor, digit-two-pow, digit-lt-two, bit_and-le}
use cl.Hopscotch.{
  HopscotchTable, hash, desired_index, set_hop_bit, set_val, get_val, put_pair, placed, occupy,
  move_victim,
}
use cl.Hopscotch.Cells.{
  Integrity, Present, put_key, put_owner, put_key-Integrity, move_key, move_owner,
  move_key-Integrity, move_key-Present, Present-move_key, Integrity-ext,
}

abbrev pub key_at : HopscotchTable → ℕ → ℕ
key_at ht i = get_or ht.keys i 0

abbrev pub owner_at : HopscotchTable → ℕ → ℕ → ℕ
owner_at ht b d = digit d (get_or ht.hops b 0)

pub record IsValid (ht : HopscotchTable) : Type 0 where
  pub cells : length ht.keys ≡ ht.mask + ht.hop_range
  pub bins : length ht.hops ≡ ht.mask + 1
  pub room : 2 ≤ ht.hop_range
  pub word : ht.hop_range ≤ 32
  pub integrity : Integrity (desired_index ht) ht.hop_range (key_at ht) (owner_at ht)

-- Both tables put every key into the same bin.
pub record SameBins (ht t : HopscotchTable) : Type 0 where
  pub bin : (k : ℕ) → desired_index t k ≡ desired_index ht k
  pub mask : t.mask ≡ ht.mask
  pub hop_range : t.hop_range ≡ ht.hop_range
  pub rehashing : t.rehashing ≡ ht.rehashing
  pub compare_fun : t.compare_fun ≡ ht.compare_fun

pub desired_index-le : (ht : HopscotchTable) (key : ℕ) → desired_index ht key ≤ ht.mask
unfolding desired_index
desired_index-le ht key = bit_and-le (hash ht key) ht.mask

-- The table that `occupy` leaves.
unfoldable pub occupied : HopscotchTable → ℕ → ℕ → ℕ → HopscotchTable
unfolding put_pair set_val
occupied ht free key val =
    let bin = desired_index ht key in
    record (put_pair ht free key val) {
      hops = set ht.hops bin (bit_or (get_or ht.hops bin 0) (2 ^ (free - bin)));
      count = ht.count + 1;
    }

-- The table that `move_victim` leaves.
unfoldable pub vacated : HopscotchTable → ℕ → ℕ → ℕ → HopscotchTable
unfolding put_pair set_val
vacated ht free b v =
    record (put_pair (put_pair ht free (key_at ht (b + v)) (get_val ht (b + v))) (b + v) 0 0) {
      hops = set ht.hops b (bit_xor (get_or ht.hops b 0) (bit_or (2 ^ (free - b)) (2 ^ v)));
    }

pub occupied-SameBins :
    (ht : HopscotchTable) (free key val : ℕ) → SameBins ht (occupied ht free key val)
unfolding occupied desired_index hash
occupied-SameBins ht free key val = record {
  bin = λ k. refl;
  mask = refl;
  hop_range = refl;
  rehashing = refl;
  compare_fun = refl;
}

pub vacated-SameBins : (ht : HopscotchTable) (free b v : ℕ) → SameBins ht (vacated ht free b v)
unfolding vacated desired_index hash
vacated-SameBins ht free b v = record {
  bin = λ k. refl;
  mask = refl;
  hop_range = refl;
  rehashing = refl;
  compare_fun = refl;
}

module _ {ht : HopscotchTable} (valid : IsValid ht) where
  module _ (free key val : ℕ) (nonzero : key ≢ 0) (new : (i : ℕ) → key_at ht i ≢ key)
      (empty : key_at ht free ≡ 0) (reach : desired_index ht key ≤ free)
      (close : free < desired_index ht key + ht.hop_range) where
    pub occupy-eq-occupied :
        occupy ht free (desired_index ht key) key val ≡ ok (placed (occupied ht free key val))
    unfolding occupy occupied set_hop_bit
    occupy-eq-occupied = ground (
      arith,
      get_elem?-eq-get_or ht.hops (desired_index ht key) 0,
      desired_index-le ht key,
      valid.bins,
    )

    pub occupied_key :
        (i : ℕ) → put_key (key_at ht) free key i ≡ key_at (occupied ht free key val) i
    unfolding occupied
    occupied_key i =
        ground (arith, get_or-set ht.keys free i key 0, valid.cells, desired_index-le ht key)

    occupied_owner :
        (b d : ℕ)
        → put_owner (owner_at ht) (desired_index ht key) (free - desired_index ht key) b d
          ≡ owner_at (occupied ht free key val) b d
    unfolding occupied
    occupied_owner b d = elim (Bool-cases (b == desired_index ht key)) [
      | inl e ↦ rw (written, e) (ground (arith, here))
      | inr e ↦ rw (written, e) refl
    ]
      where
        k : ℕ
        k = free - desired_index ht key

        w : ℕ
        w = get_or ht.hops (desired_index ht key) 0

        written :
            get_or (set ht.hops (desired_index ht key) (bit_or w (2 ^ k))) b 0
            ≡ (if b == desired_index ht key then bit_or w (2 ^ k) else get_or ht.hops b 0)
        written =
            get_or-set ht.hops (desired_index ht key) b _ 0
              (omega (arith, desired_index-le ht key, valid.bins))

        here : digit d (bit_or w (2 ^ k)) ≡ (if d == k then 1 else digit d w)
        here = ground (arith, digit-bit_or d w (2 ^ k), digit-two-pow d k, digit-lt-two d w)

    pub occupied-IsValid : IsValid (occupied ht free key val)
    unfolding occupied desired_index hash
    occupied-IsValid = record {
      cells = omega (arith, length-set ht.keys free key, valid.cells);
      bins = omega (arith, length-set ht.hops (desired_index ht key) _, valid.bins);
      room = valid.room;
      word = valid.word;
      integrity =
          Integrity-ext _ _ _ _ occupied_key occupied_owner
            (put_key-Integrity valid.integrity free key nonzero new empty reach close);
    }

  module _ (b v d : ℕ) (owned : owner_at ht b v ≡ 1) (before : v < d) (close : d < ht.hop_range)
      (bin : b ≤ ht.mask) (inside : b + d < length ht.keys) (empty : key_at ht (b + d) ≡ 0) where
    pub move_victim-eq-vacated : move_victim ht (b + d) b v ≡ ok (vacated ht (b + d) b v)
    unfolding move_victim vacated
    move_victim-eq-vacated =
        ground (
          arith,
          get_elem?-eq-get_or ht.keys (b + v) 0,
          get_elem?-eq-get_or ht.hops b 0,
          valid.bins,
        )

    pub vacated_key :
        (i : ℕ) → move_key (key_at ht) (b + v) (b + d) i ≡ key_at (vacated ht (b + d) b v) i
    unfolding vacated
    vacated_key i = ground (
      arith,
      get_or-set ht.keys (b + d) i (key_at ht (b + v)) 0,
      get_or-set (set ht.keys (b + d) (key_at ht (b + v))) (b + v) i 0 0,
      length-set ht.keys (b + d) (key_at ht (b + v)),
    )

    vacated_owner :
        (c x : ℕ) → move_owner (owner_at ht) b v d c x ≡ owner_at (vacated ht (b + d) b v) c x
    unfolding vacated
    vacated_owner c x = elim (Bool-cases (c == b)) [
      | inl e ↦ rw (written, e) (ground (arith, here))
      | inr e ↦ rw (written, e) refl
    ]
      where
        w : ℕ
        w = get_or ht.hops b 0

        flips : ℕ
        flips = bit_or (2 ^ (b + d - b)) (2 ^ v)

        written :
            get_or (set ht.hops b (bit_xor w flips)) c 0
            ≡ (if c == b then bit_xor w flips else get_or ht.hops c 0)
        written = get_or-set ht.hops b c _ 0 (omega (arith, valid.bins))

        clear : digit d w ≡ 0
        clear = ground (arith, digit-lt-two d w, valid.integrity.filled b d)

        apart : b + d - b ≡ d
        apart = omega arith

        here : digit x (bit_xor w flips) ≡ (if x == d then 1 else if x == v then 0 else digit x w)
        here = ground (
          arith,
          clear,
          owned,
          apart,
          digit-bit_xor x w flips,
          digit-bit_or x (2 ^ (b + d - b)) (2 ^ v),
          digit-two-pow x (b + d - b),
          digit-two-pow x v,
          digit-lt-two x w,
        )

    pub vacated-IsValid : IsValid (vacated ht (b + d) b v)
    unfolding vacated desired_index hash
    vacated-IsValid = record {
      cells = omega (
        arith,
        length-set ht.keys (b + d) _,
        length-set (set ht.keys (b + d) _) (b + v) 0,
        valid.cells,
      );
      bins = omega (arith, length-set ht.hops b _, valid.bins);
      room = valid.room;
      word = valid.word;
      integrity =
          Integrity-ext _ _ _ _ vacated_key vacated_owner
            (move_key-Integrity valid.integrity b v d owned before close empty);
    }

    -- The keys of the table are the same.
    pub vacated-keeps :
        (k : ℕ)
        → k ≢ 0
        → (Present (key_at ht) k → Present (key_at (vacated ht (b + d) b v)) k)
          × (Present (key_at (vacated ht (b + d) b v)) k → Present (key_at ht) k)
    vacated-keeps k nonzero = (
      λ (i, e).
          let (j, f) =
            move_key-Present valid.integrity b v d owned before close empty k nonzero (i, e) in
          (j, sym (vacated_key j) ∙ f),
      λ (i, e).
          Present-move_key valid.integrity b v d owned before close empty k nonzero
            (i, vacated_key i ∙ e),
    )
