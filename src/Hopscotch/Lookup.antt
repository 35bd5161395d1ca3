-- ===== src/Hopscotch/Lookup.antt =====
-- The searches of src/runtime/hopscotch.c, and what rests on them.
use Prim.Native.Nat.{bit_xor}
use cl.Common.{
  ℕ, zero, suc, ◌+◌, ◌-◌, ◌/◌, ◌%◌, ◌^◌, Bool, true, false, Option, none, some, List, ◌==◌,
  if◌then◌else◌, get_elem?, set, Outcome, ok, fault, ◌>>=◌, deref,
}
use cl.Hopscotch.{HopscotchTable, desired_index, set_val, get_val}
use cl.Hopscotch.Insert.{VectorFunctions, hopscotch_insert}

-- The first of `n` neighbouring cells with the key: a group of calls of `probe`.
unfoldable pub probe_group : ℕ → List ℕ → ℕ → ℕ → Outcome (Option ℕ)
probe_group zero keys key index = ok none
probe_group (suc n) keys key index =
    let rest = probe_group n keys key (index + 1) in
    deref (get_elem? keys index) >>= λ k. if k == key then ok (some index) else rest

-- `for (; bits; bits >>= width, index += width)`: a group of `width` cells is probed if one of its
-- bits is set. Fuel for the groups of a 32-bit mask.
unfoldable pub probe_groups : ℕ → ℕ → List ℕ → ℕ → ℕ → ℕ → Outcome (Option ℕ)
probe_groups zero width keys key bits index = if bits == 0 then ok none else fault
probe_groups (suc fuel) width keys key bits index =
    let next = probe_groups fuel width keys key (bits / 2 ^ width) (index + width) in
    if bits == 0
    then ok none
    else if bits % 2 ^ width == 0
    then next
    else (probe_group width keys key index >>= λ found. elim found [
      | none ↦ next
      | some i ↦ ok (some i)
    ])

-- `for (; bits; bits >>= 1, ++index) if ((bits & 1) && same(keys[index]))`
unfoldable pub walk_bits : ℕ → (ℕ → Bool) → List ℕ → ℕ → ℕ → Outcome (Option ℕ)
walk_bits zero same keys bits index = if bits == 0 then ok none else fault
walk_bits (suc fuel) same keys bits index =
    let next = walk_bits fuel same keys (bits / 2) (index + 1) in
    if bits == 0
    then ok none
    else if bits % 2 == 0
    then next
    else (deref (get_elem? keys index) >>= λ k. if same k then ok (some index) else next)

-- The cell of a key as `hopscotch_get`, `hopscotch_get_ref` and `hopscotch_put` look for it.
unfoldable pub find_cell : HopscotchTable → ℕ → Outcome (Option ℕ)
find_cell ht key =
    let index = desired_index ht key in
    deref (get_elem? ht.hops index) >>= λ bits. elim ht.compare_fun [
      | none ↦ probe_groups 8 4 ht.keys key bits index
      | some same ↦ walk_bits 32 (λ k. same k key) ht.keys bits index
    ]

unfoldable pub hopscotch_containsp : HopscotchTable → ℕ → Outcome Bool
hopscotch_containsp ht key =
    let index = desired_index ht key in
    deref (get_elem? ht.hops index) >>= λ bits.
    elim ht.compare_fun [
      | none ↦ probe_groups 4 8 ht.keys key bits index
      | some same ↦ walk_bits 32 (λ k. same k key) ht.keys bits index
    ]
    >>= λ found. ok (elim found [ none ↦ false | some _ ↦ true ])

unfoldable pub hopscotch_get : HopscotchTable → ℕ → ℕ → Outcome ℕ
hopscotch_get ht key notfound = find_cell ht key >>= λ found.
    ok (elim found [ none ↦ notfound | some index ↦ get_val ht index ])

-- The pointer returned is the index of the value; it is null for a hash set.
unfoldable pub hopscotch_get_ref :
    VectorFunctions → ℕ → ℕ → HopscotchTable → ℕ → Outcome (HopscotchTable × Option ℕ)
hopscotch_get_ref v tries zero ht key = fault
hopscotch_get_ref v tries (suc fuel) ht key = find_cell ht key >>= λ found. elim found [
  | none ↦ hopscotch_insert v tries ht key 0 >>= λ r. hopscotch_get_ref v tries fuel r.0 key
  | some index ↦ ok (ht, (if ht.value_size == 0 then none else some index))
]

unfoldable pub hopscotch_put :
    VectorFunctions → ℕ → HopscotchTable → ℕ → ℕ → Outcome (HopscotchTable × ℕ)
hopscotch_put v tries ht key val = find_cell ht key >>= λ found. elim found [
  | none ↦ hopscotch_insert v tries ht key val
  | some index ↦ ok (set_val ht index val, 0)
]

-- The comparison of a stored key: `ht->compare` or `==`.
unfoldable pub same_key : HopscotchTable → ℕ → ℕ → Bool
same_key ht key k = elim ht.compare_fun [ none ↦ k == key | some same ↦ same k key ]

-- The count stays 0 where the source's would become -1: a table with a key has a count above 0.
unfoldable pub hopscotch_delete : HopscotchTable → ℕ → Outcome (HopscotchTable × ℕ)
hopscotch_delete ht key =
    let logical_index = desired_index ht key in
    deref (get_elem? ht.hops logical_index) >>= λ bits.
    walk_bits 32 (same_key ht key) ht.keys bits logical_index >>= λ found. elim found [
      | none ↦ ok (ht, 0)
      | some physical_index ↦
          let emptied =
            set_val (record ht { keys = set ht.keys physical_index 0 }) physical_index 0 in
          ok (
            record emptied {
              hops =
                  set ht.hops logical_index (bit_xor bits (2 ^ (physical_index - logical_index)));
              count = ht.count - 1;
            },
            1,
          )
    ]
