-- ===== src/Hopscotch/Tests.antt =====
-- Concrete runs of the hopscotch table, and the theorems at concrete inputs.
use cl.Common.{
  ◌/◌, if◌then◌else◌, ℕ, ◌%◌, ◌≡◌, refl, arith, none, List, [], ◌∷◌, false, Outcome, ok, ◌>>=◌,
  Returns,
}
use cl.Hopscotch.{
  HopscotchTable, hash, desired_index, occupy, set_hop_bit, set_val, put_pair, get_val, scan_free,
  choose_hop_range, hopscotch_realloc,
}
use cl.Hopscotch.Insert.{
  VectorFunctions, no_memory, place, try_insert, hopscotch_create, hopscotch_insert,
}
use cl.Hopscotch.Lookup.{
  probe_group, probe_groups, find_cell, hopscotch_containsp, hopscotch_get, hopscotch_put,
  hopscotch_delete, same_key, walk_bits,
}
use cl.Hopscotch.Delete.{Deleted, hopscotch_delete-Deleted}
use cl.Hopscotch.Table.{IsValid, occupied, occupied-IsValid}
use cl.Hopscotch.Get.{Got, hopscotch_get-Got, hopscotch_put-hopscotch_get}
use cl.Hopscotch.Attempts.{Tried}
use cl.Hopscotch.Reset.{hopscotch_reset, downsizes, table_size}
use cl.Hopscotch.Reset.Emptied.{IsEmptied, hopscotch_reset-IsEmptied}
use cl.Hopscotch.TryInsert.{try_insert-Tried}
use cl.Hopscotch.Contains.{Decides, hopscotch_containsp-Decides}
use cl.Hopscotch.Create.{IsFresh, hopscotch_realloc-IsFresh, hopscotch_create-IsFresh}

abbrev vectors : VectorFunctions
vectors = record {
  sxhash_simple_string = λ x. x;
  vector_sxhash = λ x. x;
  vector_eql = λ x y. false;
}

-- Eight bins, byte-sized values, addresses hashed.
abbrev new_table : HopscotchTable
new_table = hopscotch_realloc (no_memory none none 9 1 1 8) 8 0

abbrev insert_all : List ℕ → HopscotchTable → Outcome HopscotchTable
insert_all [] t = ok t
insert_all (k ∷ ks) t =
    insert_all ks t >>= λ s. hopscotch_insert vectors 4 s k (k % 100) >>= λ r. ok r.0

-- The three keys have the same bin.
abbrev keys : List ℕ
keys = 0x10000 ∷ 0x20000 ∷ 0x30000 ∷ []

insert_and_get : (insert_all keys new_table >>= λ t. hopscotch_get t 0x20000 0) ≡ ok 72
unfolding hopscotch_insert try_insert hopscotch_get hopscotch_realloc choose_hop_range desired_index
    hash occupy set_hop_bit put_pair set_val scan_free place find_cell probe_groups probe_group
    get_val
insert_and_get = refl

new_table-IsFresh : IsFresh new_table
new_table-IsFresh = hopscotch_realloc-IsFresh _ 8 (omega arith)

try_insert-Tried_example : Returns (try_insert new_table 0x10000 7) (Tried new_table 0x10000)
try_insert-Tried_example =
    try_insert-Tried new_table 0x10000 7 new_table-IsFresh.valid (omega arith)
      (λ i e. absurd (omega (arith, new_table-IsFresh.empty i, e)))

hopscotch_containsp-Decides_example :
    Returns (hopscotch_containsp new_table 0x10000) (Decides new_table 0x10000)
unfolding hopscotch_realloc
hopscotch_containsp-Decides_example =
    hopscotch_containsp-Decides new_table 0x10000 new_table-IsFresh.valid refl
      new_table-IsFresh.eights (omega arith)

hopscotch_create-IsFresh_example :
    (t : HopscotchTable) × (hopscotch_create vectors 9 1 8 16 0 ≡ ok t) × IsFresh t × (t.count ≡ 0)
hopscotch_create-IsFresh_example =
    hopscotch_create-IsFresh vectors 9 1 8 16 (omega arith) refl (omega arith) (omega arith) refl

hopscotch_get-Got_example : Returns (hopscotch_get new_table 0x10000 3) (Got new_table 0x10000 3)
unfolding hopscotch_realloc
hopscotch_get-Got_example =
    hopscotch_get-Got new_table 0x10000 3 new_table-IsFresh.valid refl new_table-IsFresh.eights
      (omega arith)

-- A table of words with one key, which stands in the first cell.
abbrev empty_map : HopscotchTable
empty_map = hopscotch_realloc (no_memory none none 9 1 8 8) 8 0

abbrev one_key : HopscotchTable
one_key = occupied empty_map 0 0x10000 7

empty_map-IsFresh : IsFresh empty_map
empty_map-IsFresh = hopscotch_realloc-IsFresh _ 8 (omega arith)

empty_map_bin : desired_index empty_map 0x10000 ≡ 0
unfolding desired_index hash hopscotch_realloc
empty_map_bin = refl

one_key-IsValid : IsValid one_key
one_key-IsValid =
    occupied-IsValid empty_map-IsFresh.valid 0 0x10000 7 (omega arith)
      (λ i e. absurd (omega (arith, empty_map-IsFresh.empty i, e))) (empty_map-IsFresh.empty 0)
      (omega (arith, empty_map_bin)) (omega (arith, empty_map_bin, empty_map-IsFresh.valid.room))

hopscotch_put-hopscotch_get_example : Returns (hopscotch_put vectors 4 one_key 0x10000 99) (λ r.
    (r.1 ≡ 0)
    × IsValid r.0
    × (r.0.keys ≡ one_key.keys)
    × Returns (hopscotch_get r.0 0x10000 3) (λ x. x ≡ 99))
unfolding hopscotch_realloc occupied choose_hop_range
hopscotch_put-hopscotch_get_example =
    hopscotch_put-hopscotch_get vectors 4 one_key 0x10000 99 3 one_key-IsValid refl refl
      (omega arith) refl refl (omega arith) (0, refl)

hopscotch_delete-Deleted_example :
    Returns (hopscotch_delete one_key 0x10000) (Deleted one_key 0x10000)
unfolding hopscotch_realloc occupied
hopscotch_delete-Deleted_example =
    hopscotch_delete-Deleted one_key 0x10000 one_key-IsValid refl (omega arith)

-- The table counts no key any more.
delete_runs : (hopscotch_delete one_key 0x10000 >>= λ r. ok r.0.count) ≡ ok 0
unfolding hopscotch_delete same_key walk_bits set_val hopscotch_realloc occupied choose_hop_range
    desired_index hash
delete_runs = refl

hopscotch_reset-IsEmptied_example : Returns (hopscotch_reset 4088 one_key) (λ t.
    IsEmptied t
    × (table_size t ≡ (if downsizes one_key then table_size one_key / 2 else table_size one_key))
    × (t.prev_size ≡ table_size one_key))
unfolding hopscotch_realloc choose_hop_range occupied
hopscotch_reset-IsEmptied_example =
    hopscotch_reset-IsEmptied 4088 one_key one_key-IsValid (λ e. absurd (omega (arith, e)))
      (omega arith) (omega arith) (omega arith)
