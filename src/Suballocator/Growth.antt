-- ===== src/Suballocator/Growth.antt =====
-- The step to the next chunk in `suballoc_allocate` of src/runtime/queue-suballocator.h.
use cl.Common.{
  ◌⊎◌, ℕ, ◌+◌, ◌*◌, ◌^◌, ◌≤◌, ◌<◌, ◌≡◌, ◌≢◌, sym, arith, inl, inr, true, false, Bool-cases, ◌==◌,
  compare_cases, Outcome, ok, lost,
}
use mathlib.Core.Path.{subst}
use native.Mathlib.Nat.{one-le-pow}
use cl.Suballocator.{
  Chunk, Suballocator, initial_size, chunks_limit, with_chunk, chunk_has_space, next_chunk,
}
use cl.Suballocator.Chunks.{
  IsChunk, Apart, IsValid, TakenIn, Spans, InUse, in_use, with_chunk-here, with_chunk-other,
  with_chunk-every, with_chunk-Apart,
}

-- `os_allocate` returns 0 or memory apart from all chunks that it gave before.
abbrev pub IsFresh : (ℕ → ℕ) → Suballocator → Type 0
IsFresh os_allocate s =
    (size i : ℕ)
    → os_allocate size ≢ 0
    → i ≤ chunks_limit
    → ((s.chunks i).start + (s.chunks i).size ≤ os_allocate size)
      ⊎ (os_allocate size + size ≤ (s.chunks i).start)

-- The last chunk, full already, makes way for a new one, and its blocks are forgotten.
abbrev pub Forgotten : Suballocator → ℕ → Type 0
Forgotten s x = (s.current_chunk + 1 ≡ chunks_limit) × TakenIn (s.chunks chunks_limit) x

-- A suballocator whose current chunk has space, with the blocks in use of `s`.
pub record Advanced (s n : Suballocator) : Type 0 where
  pub valid : IsValid n
  pub space : chunk_has_space n n.current_chunk ≡ true
  pub only : (x : ℕ) → InUse n x → InUse s x
  pub kept :
      (x : ℕ) → InUse s x → InUse n x ⊎ (Forgotten s x × ¬ Spans (n.chunks n.current_chunk) x)

-- The step to the next chunk: `lost` only if there is none or the system has no memory.
pub data Step (os_allocate : ℕ → ℕ) (s : Suballocator) : Outcome Suballocator → Type 0 where
  advanced : {n : Suballocator} → Advanced s n → Step os_allocate s (ok n)
  no_chunk : s.current_chunk ≡ chunks_limit → Step os_allocate s lost
  no_memory : os_allocate (initial_size * 2 ^ (s.current_chunk + 1)) ≡ 0 → Step os_allocate s lost

module _ (s : Suballocator) (v : IsValid s) (below : s.current_chunk < chunks_limit) where
  abbrev index : ℕ
  index = s.current_chunk + 1

  abbrev moved : Suballocator
  moved = record s { current_chunk = index }

  later_unused :
      (s' : Suballocator)
      → ((i : ℕ) → i ≢ index → s'.chunks i ≡ s.chunks i)
      → (i : ℕ) → index < i
      → i < chunks_limit
      → (s'.chunks i).free ≡ (s'.chunks i).start
  later_unused s' same i lt le =
      let e = same i (λ e. omega arith) in
      subst (λ c. c.free ≡ c.start) (sym e) (v.later i (omega arith) le)

  -- The next chunk has memory already.
  reuse :
      chunk_has_space s index ≡ true
      → Advanced s (with_chunk moved index (record (s.chunks index) { age = 0 }))
  reuse space = record {
    valid = record {
      current = omega arith;
      chunk = λ i le.
          with_chunk-every (λ _ c. IsChunk c) moved index young young-IsChunk i (λ _. v.chunk i le);
      apart =
          with_chunk-Apart moved index young
            (λ j le ne. v.apart index j (omega arith) le (λ e. ne (sym e))) v.apart;
      later = later_unused (with_chunk moved index young) (with_chunk-other moved index young);
    };
    space = rw (with_chunk-here moved index young) space;
    only = λ x u. elim u [
      | in_use j le t ↦ in_use j le (
          with_chunk-every (λ j c. TakenIn c x → TakenIn (s.chunks j) x) moved index young (λ t. t)
            j (λ _ t. t) t)
    ];
    kept = λ x u. elim u [
      | in_use j le t ↦ inl (
          in_use j le (
            with_chunk-every (λ j c. TakenIn (s.chunks j) x → TakenIn c x) moved index young
              (λ t. t) j (λ _ t. t) t))
    ];
  }
    where
      young : Chunk
      young = record (s.chunks index) { age = 0 }

      young-IsChunk : IsChunk young
      young-IsChunk =
          let c = v.chunk index (omega arith) in
          record {
            taken = c.taken;
            blocks = c.blocks;
            order = c.order;
            free = c.free;
            size = c.size;
            absent = c.absent;
          }

  -- The next chunk is a new one, at `address`.
  module _ (address : ℕ) (full : chunk_has_space s index ≡ false) (pos : address ≢ 0)
      (fresh : (i : ℕ)
        → i ≤ chunks_limit
        → ((s.chunks i).start + (s.chunks i).size ≤ address)
          ⊎ (address + initial_size * 2 ^ index ≤ (s.chunks i).start)) where
    abbrev grown : Chunk
    grown = record { start = address; free = address; size = initial_size * 2 ^ index; age = 0 }

    grown-IsChunk : IsChunk grown
    grown-IsChunk = record {
      taken = 0;
      blocks = 32 * 2 ^ index;
      order = omega arith;
      free = omega arith;
      size = omega arith;
      absent = λ e. absurd (pos e);
    }

    -- A chunk without space that is not the last has no blocks in use.
    old_blocks : (x : ℕ) → TakenIn (s.chunks index) x → Forgotten s x
    old_blocks x t = elim (compare_cases index chunks_limit) [
      | inl e ↦ (e, subst (λ i. TakenIn (s.chunks i) x) e t)
      | inr (inl lt) ↦ absurd (omega (arith, t.0, t.1, v.later index (omega arith) lt))
      | inr (inr gt) ↦ absurd (omega arith)
    ]

    new_chunk : Advanced s (with_chunk moved index grown)
    new_chunk = record {
      valid = record {
        current = omega arith;
        chunk = λ i le.
            with_chunk-every (λ _ c. IsChunk c) moved index grown grown-IsChunk i
              (λ _. v.chunk i le);
        apart = with_chunk-Apart moved index grown (λ j le _. other_side j (fresh j le)) v.apart;
        later = later_unused (with_chunk moved index grown) (with_chunk-other moved index grown);
      };
      space =
          rw (with_chunk-here moved index grown)
            (let some : 1 ≤ 2 ^ index = one-le-pow index 2 (omega arith) in ground (arith, some));
      only = λ x u. elim u [
        | in_use j le t ↦
            with_chunk-every (λ j c. j ≤ chunks_limit → TakenIn c x → InUse s x) moved index grown
              (λ _ t. absurd (omega (arith, t.0, t.1))) j (λ _ le t. in_use j le t) le t
      ];
      kept = λ x u. elim u [
        | in_use j le t ↦ elim (compare_cases j index) [
          | inl e ↦
              (let old = subst (λ i. TakenIn (s.chunks i) x) e t in
                inr (
                  old_blocks x old,
                  λ new.
                      elsewhere x old
                        (subst (λ c. Spans c x) (with_chunk-here moved index grown) new),
                ))
          | inr (inl lt) ↦ inl (still x j le (λ e. omega arith) t)
          | inr (inr gt) ↦ inl (still x j le (λ e. omega arith) t)
        ]
      ];
    }
      where
        elsewhere : (x : ℕ) → TakenIn (s.chunks index) x → ¬ Spans grown x
        elsewhere x t new =
            let c = v.chunk index (omega arith) in
            elim (fresh index (omega arith)) [
              | inl a ↦ omega (arith, c.order, c.free, c.size, a, t.1, new.0)
              | inr b ↦ omega (arith, b, t.0, new.1)
            ]

        other_side :
            (j : ℕ)
            → ((s.chunks j).start + (s.chunks j).size ≤ address)
              ⊎ (address + initial_size * 2 ^ index ≤ (s.chunks j).start)
            → Apart grown (s.chunks j)
        other_side j (inl a) = inr a
        other_side j (inr b) = inl b

        still :
            (x j : ℕ)
            → j ≤ chunks_limit
            → j ≢ index
            → TakenIn (s.chunks j) x
            → InUse (with_chunk moved index grown) x
        still x j le ne t =
            in_use j le (subst (λ c. TakenIn c x) (sym (with_chunk-other moved index grown j ne)) t)

pub next_chunk-Step :
    (os_allocate : ℕ → ℕ) (s : Suballocator)
    → IsValid s
    → IsFresh os_allocate s
    → Step os_allocate s (next_chunk os_allocate s)
unfolding next_chunk
next_chunk-Step os_allocate s v fresh = elim (Bool-cases (s.current_chunk == chunks_limit)) [
  | inl e ↦ rw e (no_chunk (ground (arith, e)))
  | inr more ↦
      let below : s.current_chunk < chunks_limit = ground (arith, more, v.current) in
      rw more (elim (Bool-cases (chunk_has_space s (s.current_chunk + 1))) [
        | inl space ↦ rw space (advanced (reuse s v below space))
        | inr full ↦
            rw full
              (elim (Bool-cases (os_allocate (initial_size * 2 ^ (s.current_chunk + 1)) == 0)) [
                | inl none_left ↦ rw none_left (no_memory (ground (arith, none_left)))
                | inr given ↦
                    let pos : os_allocate (initial_size * 2 ^ (s.current_chunk + 1)) ≢ 0 =
                      ground (arith, given) in
                    rw given (
                      advanced (
                        new_chunk s v below (os_allocate (initial_size * 2 ^ (s.current_chunk + 1)))
                          full pos
                          (λ i le. fresh (initial_size * 2 ^ (s.current_chunk + 1)) i pos le)))
              ])
      ])
]
