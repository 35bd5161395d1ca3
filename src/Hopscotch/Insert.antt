-- ===== src/Hopscotch/Insert.antt =====
-- Insertion and resizing of src/runtime/hopscotch.c.
use cl.Common.{
  ℕ, zero, suc, ◌+◌, ◌-◌, ◌*◌, ◌^◌, bit_and, Bool, true, false, not, ◌&&◌, Option, none, some, [],
  ltb, leb, ◌==◌, if◌then◌else◌, get_elem?, drop, Outcome, ok, lost, fault, ◌>>=◌, ◌>>◌, deref,
  gc_assert,
}
use cl.Hopscotch.{
  HopscotchTable, Attempt, placed, full, desired_index, occupy, scan_free, find_victim, move_victim,
  max_key_index, hopscotch_realloc, hopscotch_hmix, get_val,
}

abbrev pub last_bin : HopscotchTable → ℕ → ℕ
last_bin ht free_index = if leb ht.mask (free_index - 1) then ht.mask else free_index - 1

-- The block from `retry` on. Each round ends with a smaller `free_index`.
unfoldable pub place : ℕ → HopscotchTable → ℕ → ℕ → ℕ → ℕ → Outcome Attempt
place zero ht desired key val free_index = fault
place (suc fuel) ht desired key val free_index =
    let logical_bin = free_index - (ht.hop_range - 1) in
    let displace =
      (find_victim (last_bin ht free_index + 1 - logical_bin) ht free_index logical_bin >>= λ found.
      elim found [
        | none ↦ ok (full ht)
        | some (bin, victim) ↦ move_victim ht free_index bin victim >>= λ t.
            place fuel t desired key val (bin + victim)
      ]) in
    if ltb (free_index - desired) ht.hop_range
    then occupy ht free_index desired key val
    else displace

-- `hopscotch_insert` without the calls of `hopscotch_resize_up`.
unfoldable pub try_insert : HopscotchTable → ℕ → ℕ → Outcome Attempt
try_insert ht key val =
    let desired = desired_index ht key in
    deref (get_elem? ht.keys desired) >>= λ k.
    if k == 0
    then occupy ht desired desired key val
    else if not ht.rehashing && leb ht.threshold ht.count
    then ok (full ht)
    else (scan_free (drop (desired + 1) ht.keys) (desired + 1) (max_key_index ht) >>= λ found.
        elim found [
          | none ↦ ok (full ht)
          | some free_index ↦ place (suc free_index) ht desired key val free_index
        ])

-- `size & (size - 1)` is 0, and the codes of hash functions are those of hopscotch.h. The two
-- hashes and the comparison of Lisp vectors read the heap, and are given as functions.
pub record VectorFunctions : Type 0 where
  pub sxhash_simple_string : ℕ → ℕ
  pub vector_sxhash : ℕ → ℕ
  pub vector_eql : ℕ → ℕ → Bool

abbrev pub hash_of_code : VectorFunctions → ℕ → Option (Option (ℕ → ℕ) × Option (ℕ → ℕ → Bool))
hash_of_code v code =
    if code == 1
    then some (none, none)
    else if code == 2
    then some (some hopscotch_hmix, none)
    else if code == 3
    then some (some v.sxhash_simple_string, some v.vector_eql)
    else if code == 4
    then some (some v.vector_sxhash, some v.vector_eql)
    else none

abbrev pub good_value_size : ℕ → Bool
good_value_size n =
    if n == 0
    then true
    else if n == 1
    then true
    else if n == 2
    then true
    else if n == 4
    then true
    else n == 8

-- The fields that `hopscotch_create` fills before it calls `hopscotch_realloc`.
abbrev pub no_memory : Option (ℕ → ℕ) → Option (ℕ → ℕ → Bool) → ℕ → ℕ → ℕ → ℕ → HopscotchTable
no_memory h c card_shift hashfun bytes_per_value size = record {
  keys = [];
  hops = [];
  values = [];
  hash_fun = h;
  compare_fun = c;
  mask = 0;
  hop_range = 0;
  count = 0;
  threshold = 0;
  prev_size = size;
  mem_size = 0;
  value_size = bytes_per_value;
  hashfun = hashfun;
  resized = false;
  rehashing = false;
  card_shift = card_shift;
}

unfoldable pub hopscotch_create : VectorFunctions → ℕ → ℕ → ℕ → ℕ → ℕ → Outcome HopscotchTable
hopscotch_create v card_shift hashfun bytes_per_value size hop_range =
    gc_assert (bit_and size (size - 1) == 0) >> elim (hash_of_code v hashfun) [
      | none ↦ lost
      | some (h, c) ↦
          gc_assert (good_value_size bytes_per_value)
          >> ok (
              hopscotch_realloc (no_memory h c card_shift hashfun bytes_per_value size) size
                hop_range)
    ]

-- The copying loop of `hopscotch_resize_up`, over the cells below `n`; `none` is its `break`.
unfoldable pub reinsert : ℕ → HopscotchTable → HopscotchTable → Outcome (Option HopscotchTable)
reinsert zero ht copy = ok (some copy)
reinsert (suc i) ht copy = deref (get_elem? ht.keys i) >>= λ k. elim (k == 0) [
  | true ↦ reinsert i ht copy
  | false ↦ try_insert copy k (if ht.value_size == 0 then 1 else get_val ht i) >>= λ attempt.
      elim attempt [ placed copy' ↦ reinsert i ht copy' | full _ ↦ ok none ]
]

-- The `do` loop, on fuel for its rounds. A size that no longer fits an `int` is a fault.
unfoldable pub resize_rounds : ℕ → VectorFunctions → HopscotchTable → ℕ → Outcome HopscotchTable
resize_rounds zero v ht size = fault
resize_rounds (suc fuel) v ht size =
    let again = resize_rounds fuel v ht (size * 2) in
    if leb (2 ^ 31) (size * 2)
    then fault
    else (hopscotch_create v ht.card_shift ht.hashfun ht.value_size (size * 2) 0 >>= λ created.
        let dumb : Bool = elim created.hash_fun [ none ↦ true | some _ ↦ false ] in
        let mixed =
          if ltb 16 created.hop_range && dumb
          then record created { hash_fun = some hopscotch_hmix }
          else created in
        reinsert (max_key_index ht + 1) ht (record mixed { rehashing = true }) >>= λ result.
        elim result [ none ↦ again | some copy ↦ ok copy ])

-- A size doubles at most 31 times before it leaves the range of an `int`.
unfoldable pub hopscotch_resize_up : VectorFunctions → HopscotchTable → Outcome HopscotchTable
hopscotch_resize_up v ht = resize_rounds 32 v ht (ht.mask + 1) >>= λ copy. ok (record ht {
  hash_fun = copy.hash_fun;
  mem_size = copy.mem_size;
  mask = copy.mask;
  hop_range = copy.hop_range;
  threshold = copy.threshold;
  keys = copy.keys;
  hops = copy.hops;
  values = copy.values;
  resized = true;
})

-- On fuel for the tables that are tried. The number is what `hopscotch_insert` returns.
unfoldable pub hopscotch_insert :
    VectorFunctions → ℕ → HopscotchTable → ℕ → ℕ → Outcome (HopscotchTable × ℕ)
hopscotch_insert v zero ht key val = fault
hopscotch_insert v (suc fuel) ht key val = try_insert ht key val >>= λ attempt. elim attempt [
  | placed t ↦ ok (t, t.count)
  | full t ↦ elim t.rehashing [
    | true ↦ ok (t, 0)
    | false ↦ hopscotch_resize_up v t >>= λ larger. hopscotch_insert v fuel larger key val
  ]
]
