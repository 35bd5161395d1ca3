-- ===== src/Suballocator/Tests.antt =====
-- Concrete runs of the suballocator, and the theorems at concrete inputs.
use cl.Common.{◌⊎◌, ◌≤◌, ℕ, ◌+◌, ◌*◌, ◌^◌, ◌≡◌, ◌≢◌, refl, arith, inl, inr, [], ◌∷◌, ok, ◌>>=◌}
use cl.Suballocator.{
  Chunk, Suballocator, new_suballocator, with_chunk, next_chunk, take_block, suballoc_allocate,
  suballoc_release, release_chunks, release_step,
}
use cl.Suballocator.Chunks.{
  IsChunk, IsValid, new_suballocator-IsValid, with_chunk-every, with_chunk-Apart,
}
use cl.Suballocator.Growth.{IsFresh}
use cl.Suballocator.Allocate.{Allocation, suballoc_allocate-Allocation}
use cl.Suballocator.Release.{IsReleased, suballoc_release-IsReleased}

-- Memory from 2^40 on, and at other times below it.
abbrev high_memory : ℕ → ℕ
high_memory size = 2 ^ 40

abbrev first_chunk : Chunk
first_chunk = record { start = 0x100000; free = 0x102000; size = 64 * 8192; age = 10 }

-- One block of a chunk that was not reset for ten releases.
abbrev one_block : Suballocator
one_block = with_chunk (record new_suballocator { current_chunk = 1 }) 1 first_chunk

one_block-IsValid : IsValid one_block
one_block-IsValid = record {
  current = omega arith;
  chunk = λ i le.
      with_chunk-every (λ _ c. IsChunk c) (record new_suballocator { current_chunk = 1 }) 1
        first_chunk
        (record {
          taken = 1;
          blocks = 64;
          order = omega arith;
          free = omega arith;
          size = omega arith;
          absent = λ e. absurd (omega (arith, e));
        })
        i (λ _. new_suballocator-IsValid.chunk i le);
  apart =
      with_chunk-Apart (record new_suballocator { current_chunk = 1 }) 1 first_chunk
        (λ j le ne. inr (omega arith)) new_suballocator-IsValid.apart;
  later = λ i lt le.
      with_chunk-every (λ i c. i ≢ 1 → c.free ≡ c.start)
        (record new_suballocator { current_chunk = 1 }) 1 first_chunk (λ ne. absurd (ne refl)) i
        (λ _ _. refl) (λ e. omega arith);
}

one_block-IsFresh : IsFresh high_memory one_block
one_block-IsFresh size i given le =
    with_chunk-every (λ _ c. (c.start + c.size ≤ 2 ^ 40) ⊎ (2 ^ 40 + size ≤ c.start))
      (record new_suballocator { current_chunk = 1 }) 1 first_chunk (inl (omega arith)) i
      (λ _. inl (omega arith))

suballoc_allocate-Allocation_example :
    Allocation high_memory one_block (suballoc_allocate high_memory one_block)
suballoc_allocate-Allocation_example =
    suballoc_allocate-Allocation high_memory one_block one_block-IsValid one_block-IsFresh

suballoc_release-IsReleased_example : IsReleased one_block (suballoc_release one_block)
suballoc_release-IsReleased_example = suballoc_release-IsReleased one_block one_block-IsValid

-- The second block stands behind the first, and a new suballocator asks for a chunk.
second_block : (suballoc_allocate high_memory one_block >>= λ r. ok r.0) ≡ ok 0x102000
unfolding suballoc_allocate take_block
second_block = refl

block_of_new :
    (suballoc_allocate high_memory new_suballocator >>= λ r. ok (r.1.chunks 1).size) ≡ ok 0x80000
unfolding suballoc_allocate take_block next_chunk
block_of_new = refl

chunk_returned : (suballoc_release one_block).given_back ≡ (0x100000, 0x80000) ∷ []
unfolding suballoc_release release_chunks release_step
chunk_returned = refl
