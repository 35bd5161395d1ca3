-- ===== src/Suballocator/Allocate.antt =====
-- `suballoc_allocate` of src/runtime/queue-suballocator.h: blocks that are in use do not overlap.
use cl.Common.{
  ◌⊎◌, ℕ, ◌+◌, ◌*◌, ◌^◌, ◌≡◌, inl, inr, Bool-cases, Outcome, ok, lost, fault, ◌>>=◌, Returns,
  Returns-mono,
}
use cl.Suballocator.{
  Suballocator, initial_size, chunks_limit, chunk_has_space, take_block, suballoc_allocate,
}
use cl.Suballocator.Chunks.{IsValid, Spans, InUse}
use cl.Suballocator.Blocks.{Takes, InBlock, take_block-Takes}
use cl.Suballocator.Growth.{
  IsFresh, Forgotten, Advanced, Step, advanced, no_chunk, no_memory, next_chunk-Step,
}

-- A block at `w` that overlaps none in use, and what is in use afterwards.
pub record Allocated (s : Suballocator) (w : ℕ) (s' : Suballocator) : Type 0 where
  pub valid : IsValid s'
  pub inside : (x : ℕ) → InBlock w x → Spans (s'.chunks s'.current_chunk) x
  pub unused : (x : ℕ) → InBlock w x → ¬ InUse s x
  pub taken : (x : ℕ) → InBlock w x → InUse s' x
  pub kept : (x : ℕ) → InUse s x → InUse s' x ⊎ Forgotten s x
  pub only : (x : ℕ) → InUse s' x → InUse s x ⊎ InBlock w x

pub data Allocation (os_allocate : ℕ → ℕ) (s : Suballocator)
    : Outcome (ℕ × Suballocator) → Type 0 where
  allocated : {w : ℕ} {s' : Suballocator} → Allocated s w s' → Allocation os_allocate s (ok (w, s'))
  out_of_chunks : s.current_chunk ≡ chunks_limit → Allocation os_allocate s lost
  out_of_memory :
      os_allocate (initial_size * 2 ^ (s.current_chunk + 1)) ≡ 0 → Allocation os_allocate s lost

Takes-Allocated : (s : Suballocator) (w : ℕ) (s' : Suballocator) → Takes s w s' → Allocated s w s'
Takes-Allocated s w s' t = record {
  valid = t.valid;
  inside = t.inside;
  unused = t.unused;
  taken = t.taken;
  kept = λ x u. inl (t.kept x u);
  only = t.only;
}

Advanced-Allocated :
    (s n : Suballocator) (w : ℕ) (s' : Suballocator)
    → Advanced s n
    → Takes n w s'
    → Allocated s w s'
Advanced-Allocated s n w s' a t = record {
  valid = t.valid;
  inside = t.inside;
  unused = λ x block u. elim (a.kept x u) [
    | inl v ↦ t.unused x block v
    | inr (_, off) ↦ off (t.before x block)
  ];
  taken = t.taken;
  kept = λ x u. elim (a.kept x u) [ inl v ↦ inl (t.kept x v) | inr (f, _) ↦ inr f ];
  only = λ x u. elim (t.only x u) [ inl v ↦ inl (a.only x v) | inr block ↦ inr block ];
}

Returns-Allocation :
    (os_allocate : ℕ → ℕ) (s : Suballocator) (o : Outcome (ℕ × Suballocator))
    → Returns o (λ r. Allocated s r.0 r.1)
    → Allocation os_allocate s o
Returns-Allocation os_allocate s (ok (w, s')) a = allocated a
Returns-Allocation os_allocate s lost a = elim a [ ]
Returns-Allocation os_allocate s fault a = elim a [ ]

Step-Allocation :
    (os_allocate : ℕ → ℕ) (s : Suballocator) {o : Outcome Suballocator}
    → Step os_allocate s o
    → Allocation os_allocate s (o >>= λ n. take_block n)
Step-Allocation os_allocate s (no_chunk e) = out_of_chunks e
Step-Allocation os_allocate s (no_memory e) = out_of_memory e
Step-Allocation os_allocate s (advanced {n = n} a) =
    Returns-Allocation os_allocate s (take_block n) (
      Returns-mono {A = ℕ × Suballocator} _ _ _ (λ r t. Advanced-Allocated s n r.0 r.1 a t)
        (take_block-Takes n a.valid a.space))

-- In a valid suballocator, where the system gives memory apart from the chunks or none,
-- `suballoc_allocate` calls `lose` only if the current chunk is the last one or the system has no
-- memory. Otherwise it returns a block inside the current chunk, of which no byte was in use; the
-- suballocator is valid; in use are the block and what was in use, only that the blocks of the last
-- chunk may be forgotten if the chunk before it was the current one.
pub suballoc_allocate-Allocation :
    (os_allocate : ℕ → ℕ) (s : Suballocator)
    → IsValid s
    → IsFresh os_allocate s
    → Allocation os_allocate s (suballoc_allocate os_allocate s)
unfolding suballoc_allocate
suballoc_allocate-Allocation os_allocate s v fresh =
    elim (Bool-cases (chunk_has_space s s.current_chunk)) [
      | inl space ↦ rw space (
          Returns-Allocation os_allocate s (take_block s) (
            Returns-mono {A = ℕ × Suballocator} _ _ _ (λ r t. Takes-Allocated s r.0 r.1 t)
              (take_block-Takes s v space)))
      | inr full ↦ rw full (Step-Allocation os_allocate s (next_chunk-Step os_allocate s v fresh))
    ]
