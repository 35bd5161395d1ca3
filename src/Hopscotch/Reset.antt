-- ===== src/Hopscotch/Reset.antt =====
-- The end of a use of a table in src/runtime/hopscotch.c: `hopscotch_destroy`, `hopscotch_reset`.
pub mod Emptied
use cl.Common.{
  ℕ, ◌+◌, ◌-◌, ◌*◌, ◌/◌, ◌≡◌, Bool, true, false, not, ◌&&◌, ◌||◌, Option, none, some, List, [], ◌∷◌,
  ltb, leb, ◌==◌, if◌then◌else◌, length, replicate, Outcome, ok, ◌>>=◌, ◌>>◌, gc_assert,
}
use cl.Hopscotch.{HopscotchTable, hopscotch_realloc}
use cl.Hopscotch.Cache.{Cache, cached_deallocate}

abbrev pub need_to_zero : HopscotchTable → Bool
need_to_zero ht = not (ht.count == 0)

-- The block of the keys is at `mem`; what the system gets back is the last part of the result.
unfoldable pub hopscotch_destroy :
    ℕ → HopscotchTable → Cache → HopscotchTable × (Cache × List (ℕ × ℕ))
hopscotch_destroy mem ht c =
    if ht.mem_size == 0
    then (ht, (c, []))
    else (record ht { keys = []; hops = []; values = [] }, cached_deallocate mem c)

-- `memset(ht->keys, 0, ht->mem_size)`, which takes in the three arrays
unfoldable pub clear : HopscotchTable → HopscotchTable
clear ht = record ht {
  keys = replicate (length ht.keys) 0;
  hops = replicate (length ht.hops) 0;
  values = replicate (length ht.values) 0;
  count = 0;
}

abbrev pub table_size : HopscotchTable → ℕ
table_size ht = ht.mask + 1

-- Whether the table is made smaller; a size fits an `int`, and no shift leaves it.
unfoldable pub downsizes : HopscotchTable → Bool
downsizes ht =
    let size = table_size ht in
    ltb (ht.prev_size * 2) size || (size == ht.prev_size && not ht.resized && ltb 8 size)

-- `hopscotch_realloc` of a table that has memory, of which `usable` bytes are usable.
unfoldable pub realloc_within : ℕ → HopscotchTable → ℕ → Outcome HopscotchTable
realloc_within usable ht size =
    let t = hopscotch_realloc ht size 0 in gc_assert (leb t.mem_size usable) >> ok t

abbrev pub hash_fun_default : ℕ
hash_fun_default = 1

unfoldable pub hopscotch_reset : ℕ → HopscotchTable → Outcome HopscotchTable
hopscotch_reset usable ht =
    let zeroed = if need_to_zero ht then clear ht else ht in
    let half = realloc_within usable zeroed (table_size ht / 2) in
    (if downsizes ht then half else ok zeroed) >>= λ t. ok (record t {
      prev_size = table_size ht;
      resized = false;
      hash_fun = if t.hashfun == hash_fun_default then none else t.hash_fun;
    })
