-- ===== src/Hopscotch.antt =====
-- src/runtime/hopscotch.c: the hash table of pinned objects and of weak tables under collection.
-- A key belongs to a bin and stands in one of the `hop_range` cells from there on; bit `d` of the
-- bin's hop mask says that cell `d` holds one of its keys. The arrays are lists, and an access
-- past the end of one is a fault. A word, a value and a hop mask are bit patterns.
pub mod Insert
pub mod Lookup
pub mod Cells
pub mod Table
pub mod Victim
pub mod Attempts
pub mod Place
pub mod TryInsert
pub mod Contains
pub mod Get
pub mod Walk
pub mod Delete
pub mod Create
pub mod Cache
pub mod Reset
mod Tests
use Prim.Native.Nat.{bit_xor}
use cl.Common.{
  ℕ, zero, suc, ◌+◌, ◌-◌, ◌*◌, ◌/◌, ◌%◌, ◌^◌, ◌≡◌, bit_and, bit_or, Bool, true, false, not, ◌&&◌,
  Option, none, some, List, [], ◌∷◌, ltb, leb, ◌==◌, if◌then◌else◌, length, get_elem?, get_or, set,
  drop, replicate, Outcome, ok, lost, fault, ◌>>=◌, ◌>>◌, deref, gc_assert,
}

-- `struct hopscotch_table`, without the statistics and the copy of the value getter. A null
-- function pointer is `none`. `card_shift` is GENCGC_CARD_SHIFT, a constant of the build.
pub record HopscotchTable : Type 0 where
  pub keys : List ℕ
  pub hops : List ℕ
  pub values : List ℕ
  pub hash_fun : Option (ℕ → ℕ)
  pub compare_fun : Option (ℕ → ℕ → Bool)
  pub mask : ℕ
  pub hop_range : ℕ
  pub count : ℕ
  pub threshold : ℕ
  pub prev_size : ℕ
  pub mem_size : ℕ
  pub value_size : ℕ
  pub hashfun : ℕ
  pub resized : Bool
  pub rehashing : Bool
  pub card_shift : ℕ

-- The result is a `uint32_t`.
unfoldable pub hash : HopscotchTable → ℕ → ℕ
hash ht x = elim ht.hash_fun [
  | none ↦ bit_xor (x / 2 ^ ht.card_shift) (x / 2 ^ 4) % 2 ^ 32
  | some f ↦ f x % 2 ^ 32
]

unfoldable pub hopscotch_hmix : ℕ → ℕ
hopscotch_hmix key =
    let a : ℕ = key / 2 ^ 4 % 2 ^ 32 in
    let b = bit_xor a (a / 2 ^ 16) * 0x85ebca6b % 2 ^ 32 in
    let c = bit_xor b (b / 2 ^ 13) * 0xc2b2ae35 % 2 ^ 32 in bit_xor c (c / 2 ^ 16)

-- The bin that a key belongs to.
unfoldable pub desired_index : HopscotchTable → ℕ → ℕ
desired_index ht key = bit_and (hash ht key) ht.mask

unfoldable pub set_hop_bit : HopscotchTable → ℕ → ℕ → Outcome HopscotchTable
set_hop_bit ht index bit = do
  bits ← deref (get_elem? ht.hops index)
  ok (record ht { hops = set ht.hops index (bit_or bits (2 ^ bit)) })

-- Stores `value_size` bytes; a hash set has none.
unfoldable pub set_val : HopscotchTable → ℕ → ℕ → HopscotchTable
set_val ht index val = record ht {
  values =
      if ht.value_size == 0 then ht.values else set ht.values index (val % 2 ^ (8 * ht.value_size));
}

-- A stored value, sign-extended to a word; for a hash set the index + 1.
unfoldable pub get_val : HopscotchTable → ℕ → ℕ
get_val ht index =
    let v = get_or ht.values index 0 in
    let top : ℕ = 2 ^ (8 * ht.value_size) in
    if ht.value_size == 0 then index + 1 else if ltb (2 * v) top then v else v + 2 ^ 64 - top

unfoldable pub put_pair : HopscotchTable → ℕ → ℕ → ℕ → HopscotchTable
put_pair ht i k v = set_val (record ht { keys = set ht.keys i k }) i v

abbrev pub max_key_index : HopscotchTable → ℕ
max_key_index ht = ht.mask + ht.hop_range - 1

-- The selection of the hop range in `hopscotch_realloc`.
unfoldable pub choose_hop_range : ℕ → ℕ → ℕ
choose_hop_range size hop_range =
    if hop_range == 0
    then (if leb size 1023 then 8 else if leb size 16384 then 16 else 32)
    else hop_range

-- On a table with no memory, or with memory that is all zero.
unfoldable pub hopscotch_realloc : HopscotchTable → ℕ → ℕ → HopscotchTable
hopscotch_realloc ht size hop_range =
    let range = choose_hop_range size hop_range in
    let n_keys = size + (range - 1) in
    record ht {
      keys = replicate n_keys 0;
      hops = replicate size 0;
      values = if ht.value_size == 0 then [] else replicate n_keys 0;
      mem_size = (8 + ht.value_size) * n_keys + 4 * size;
      mask = size - 1;
      hop_range = range;
      threshold = n_keys * 13 / 16;
    }

-- What one pass of `hopscotch_insert` ends in: the pair stands in the table, or there is no room.
pub data Attempt : Type 0 where
  placed : HopscotchTable → Attempt
  full : HopscotchTable → Attempt

-- `put_pair`, `set_hop_bit` and `++ht->count`
unfoldable pub occupy : HopscotchTable → ℕ → ℕ → ℕ → ℕ → Outcome Attempt
occupy ht free_index desired key val =
    set_hop_bit (put_pair ht free_index key val) desired (free_index - desired) >>= λ t.
    ok (placed (record t { count = t.count + 1 }))

-- `while (ht->keys[++free_index] != 0) if (free_index == limit)`, over the cells from `index` on.
unfoldable pub scan_free : List ℕ → ℕ → ℕ → Outcome (Option ℕ)
scan_free [] index limit = fault
scan_free (k ∷ rest) index limit =
    let more = scan_free rest (index + 1) limit in
    if k == 0 then ok (some index) else if index == limit then ok none else more

-- `ffs(bits) - 1` of a 32-bit pattern that is not 0.
unfoldable pub lowest_bit : ℕ → ℕ → ℕ
lowest_bit zero bits = 0
lowest_bit (suc n) bits =
    let rest = lowest_bit n (bits / 2) in if bits % 2 == 1 then 0 else suc rest

unfoldable pub bitmask_of_width : ℕ → ℕ
bitmask_of_width n = (2 ^ 32 - 1) / 2 ^ (32 - n)

-- The bins from `logical_bin` to `limit`, whose number is `rounds`: the first one that owns a cell
-- before `free_index`, and the lowest such bit of its mask.
unfoldable pub find_victim : ℕ → HopscotchTable → ℕ → ℕ → Outcome (Option (ℕ × ℕ))
find_victim zero ht free_index logical_bin = ok none
find_victim (suc rounds) ht free_index logical_bin =
    let rest = find_victim rounds ht free_index (logical_bin + 1) in
    deref (get_elem? ht.hops logical_bin) >>= λ bits.
    let masked = bit_and bits (bitmask_of_width (free_index - logical_bin)) in
    if masked == 0 then rest else ok (some (logical_bin, lowest_bit 32 masked))

-- The contents of the victim's cell go to `free_index`, and its bin's mask follows.
unfoldable pub move_victim : HopscotchTable → ℕ → ℕ → ℕ → Outcome HopscotchTable
move_victim ht free_index logical_bin victim = do
  let displacement = free_index - logical_bin
  let physical_elt = logical_bin + victim
  k ← deref (get_elem? ht.keys physical_elt)
  bits ← deref (get_elem? ht.hops logical_bin)
  let moved = put_pair (put_pair ht free_index k (get_val ht physical_elt)) physical_elt 0 0
  ok (record moved {
    hops = set moved.hops logical_bin (bit_xor bits (bit_or (2 ^ displacement) (2 ^ victim)));
  })
