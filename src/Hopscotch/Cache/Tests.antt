-- ===== src/Hopscotch/Cache/Tests.antt =====
-- Concrete runs of the reserve of memory, and the theorems at concrete inputs.
use cl.Common.{ℕ, ◌≡◌, refl, arith, inl, [], ◌∷◌, ok, ◌>>=◌, ◌==◌, if◌then◌else◌}
use cl.Hopscotch.Cache.{
  Cache, write_header, hopscotch_init, new_block, cached_allocate, cached_deallocate,
}
use cl.Hopscotch.Cache.Blocks.{
  Granted, cached_allocate-Granted, Retained, cached_deallocate-Retained,
}

abbrev high_memory : ℕ → ℕ
high_memory size = 0x100000

-- A small block, a large one, and one of a size in between that is not in the reserve.
abbrev reserve : Cache
reserve = record {
  cached_alloc0 = 0x1008;
  cached_alloc1 = 0x2008;
  usable_size = λ b. if b == 0x1008 then 1000 else if b == 0x2008 then 9000 else 5000;
}

cached_allocate-Granted_example :
    Granted high_memory 10000 reserve (cached_allocate high_memory 10000 reserve)
cached_allocate-Granted_example =
    cached_allocate-Granted high_memory 10000 reserve (omega arith) (omega arith)

cached_deallocate-Retained_example : Retained reserve 0x9008 (cached_deallocate 0x9008 reserve)
cached_deallocate-Retained_example =
    cached_deallocate-Retained 0x9008 reserve (λ e. omega (arith, e)) (λ i. ground (arith, i))
      (inl (λ e. omega (arith, e))) (omega arith) (omega arith) (omega arith)

evicted : (cached_deallocate 0x9008 reserve).1 ≡ (0x1000, 1008) ∷ []
unfolding cached_deallocate
evicted = refl

-- The two blocks of a new reserve, and 8 bytes too few for a request of 4096.
second_of_new : (hopscotch_init high_memory 4096 reserve >>= λ c. ok c.cached_alloc1) ≡ ok 0x101008
unfolding hopscotch_init write_header
second_of_new = refl

too_few : (new_block high_memory 4096 reserve >>= λ r. ok (r.1.usable_size r.0)) ≡ ok 4088
unfolding new_block write_header
too_few = refl
