-- ===== src/Suballocator.antt =====
-- src/runtime/queue-suballocator.h: blocks for the queues of the collector, cut from chunks of memory
-- of which each is twice as large as the one before. The lock is held all through an allocation,
-- and the contents of blocks are not part of the state.
pub mod Chunks
pub mod Blocks
pub mod Growth
pub mod Allocate
pub mod Release
mod Tests
use cl.Common.{
  ℕ, zero, suc, ◌+◌, ◌-◌, ◌*◌, ◌^◌, ◌≡◌, Bool, true, false, not, ltb, leb, ◌==◌, if◌then◌else◌,
  List, [], ◌∷◌, Outcome, ok, fault, lost, ◌>>=◌, ◌>>◌, gc_assert, assign,
}

-- QBLOCK_BYTES: 1024 words
abbrev pub qblock_bytes : ℕ
qblock_bytes = 8192

abbrev pub initial_size : ℕ
initial_size = qblock_bytes * 32

abbrev pub chunks_limit : ℕ
chunks_limit = 20

abbrev pub age_limit : ℕ
age_limit = 10

-- `struct suballocator_chunk`
pub record Chunk : Type 0 where
  pub start : ℕ
  pub free : ℕ
  pub size : ℕ
  pub age : ℕ

-- `struct suballocator`, which has chunks 0 to CHUNKS.
pub record Suballocator : Type 0 where
  pub chunks : ℕ → Chunk
  pub current_chunk : ℕ
  pub hwm : ℕ

-- SUBALLOCATOR_INITIALIZER
abbrev pub new_suballocator : Suballocator
new_suballocator = record {
  chunks = λ _. record { start = 0; free = 0; size = 0; age = 0 };
  current_chunk = 0;
  hwm = 0;
}

abbrev pub with_chunk : Suballocator → ℕ → Chunk → Suballocator
with_chunk s i c = record s { chunks = assign s.chunks i c }

abbrev pub has_space : Chunk → Bool
has_space c = ltb c.free (c.start + c.size)

abbrev pub chunk_has_space : Suballocator → ℕ → Bool
chunk_has_space s index = has_space (s.chunks index)

-- What `suballoc_release` does to a chunk that has memory.
unfoldable pub release_chunk : Chunk → Chunk
release_chunk c =
    if leb age_limit c.age
    then record c { start = 0; free = 0; size = 0 }
    else record c { age = c.age + 1; free = c.start }

-- The state, the bytes that were used, and what `os_deallocate` was called with.
pub record Released : Type 0 where
  pub suballocator : Suballocator
  pub used : ℕ
  pub given_back : List (ℕ × ℕ)

unfoldable pub release_step : ℕ → Released → Released
release_step i r =
    let c = r.suballocator.chunks i in
    if c.start == 0 then r else record {
      suballocator = with_chunk r.suballocator i (release_chunk c);
      used = r.used + c.size;
      given_back = if leb age_limit c.age then (c.start, c.size) ∷ r.given_back else r.given_back;
    }

unfoldable pub release_chunks : ℕ → ℕ → Released → Released
release_chunks zero i r = r
release_chunks (suc n) i r = release_chunks n (i + 1) (release_step i r)

unfoldable pub suballoc_release : Suballocator → Released
suballoc_release s =
    let r =
      release_chunks chunks_limit 0 (record { suballocator = s; used = 0; given_back = [] }) in
    let a = r.suballocator in
    record r {
      suballocator = record a {
        hwm = if ltb a.hwm r.used then r.used else a.hwm;
        current_chunk = 0;
      };
    }

-- `os_allocate` gives the address of as many bytes as it is asked for, or 0.
unfoldable pub next_chunk : (ℕ → ℕ) → Suballocator → Outcome Suballocator
next_chunk os_allocate s =
    let i : ℕ = s.current_chunk + 1 in
    let size : ℕ = initial_size * 2 ^ i in
    let moved : Suballocator = record s { current_chunk = i } in
    if s.current_chunk == chunks_limit
    then lost
    else if chunk_has_space s i
    then ok (with_chunk moved i (record (s.chunks i) { age = 0 }))
    else if os_allocate size == 0
    then lost
    else ok (
        with_chunk moved i
          (record { start = os_allocate size; free = os_allocate size; size = size; age = 0 }))

-- A block from the current chunk.
unfoldable pub take_block : Suballocator → Outcome (ℕ × Suballocator)
take_block s =
    let chunk = s.chunks s.current_chunk in
    gc_assert (not (chunk.free == 0))
    >> ok (
      chunk.free,
      with_chunk s s.current_chunk (record chunk { free = chunk.free + qblock_bytes }),
    )

unfoldable pub suballoc_allocate : (ℕ → ℕ) → Suballocator → Outcome (ℕ × Suballocator)
suballoc_allocate os_allocate s =
    let moved = (next_chunk os_allocate s >>= λ n. take_block n) in
    if chunk_has_space s s.current_chunk then take_block s else moved
