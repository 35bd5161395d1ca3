-- ===== src/Suballocator/Blocks.antt =====
-- A block from the current chunk in src/runtime/queue-suballocator.h: blocks that are in use do not overlap.
use cl.Common.{
  ◌⊎◌, ℕ, ◌+◌, ◌≤◌, ◌<◌, ◌≡◌, ◌≢◌, sym, arith, inl, inr, true, false, Bool-cases, ltb, ◌==◌,
  compare_cases, Returns,
}
use mathlib.Core.Path.{subst}
use cl.Suballocator.{
  Chunk, Suballocator, qblock_bytes, chunks_limit, with_chunk, chunk_has_space, take_block,
}
use cl.Suballocator.Chunks.{
  IsChunk, IsValid, TakenIn, Spans, InUse, in_use, with_chunk-here, with_chunk-every,
  with_chunk-Apart,
}

abbrev pub InBlock : ℕ → ℕ → Type 0
InBlock w x = (w ≤ x) × (x < w + qblock_bytes)

-- A block at `w` that was not in use and now is.
pub record Takes (s : Suballocator) (w : ℕ) (s' : Suballocator) : Type 0 where
  pub valid : IsValid s'
  pub before : (x : ℕ) → InBlock w x → Spans (s.chunks s.current_chunk) x
  pub inside : (x : ℕ) → InBlock w x → Spans (s'.chunks s'.current_chunk) x
  pub unused : (x : ℕ) → InBlock w x → ¬ InUse s x
  pub taken : (x : ℕ) → InBlock w x → InUse s' x
  pub kept : (x : ℕ) → InUse s x → InUse s' x
  pub only : (x : ℕ) → InUse s' x → InUse s x ⊎ InBlock w x

module _ (s : Suballocator) (v : IsValid s) (space : chunk_has_space s s.current_chunk ≡ true) where
  abbrev here : Chunk
  here = s.chunks s.current_chunk

  abbrev after : Chunk
  after = record here { free = here.free + qblock_bytes }

  room : here.free + qblock_bytes ≤ here.start + here.size
  room = let c = v.chunk s.current_chunk v.current in ground (arith, c.order, c.free, c.size, space)

  present : (here.free == 0) ≡ false
  present =
      let c = v.chunk s.current_chunk v.current in
      ground (arith, c.order, c.free, c.size, c.absent, space)

  within : (x : ℕ) → InBlock here.free x → Spans here x
  within x block =
      let c = v.chunk s.current_chunk v.current in
      (omega (arith, c.free, block.0), omega (arith, room, block.1))

  after-IsChunk : IsChunk after
  after-IsChunk = record {
    taken = old.taken + 1;
    blocks = old.blocks;
    order = omega (arith, room, old.free, old.size);
    free = omega (arith, old.free);
    size = old.size;
    absent = old.absent;
  }
    where
      old : IsChunk here
      old = v.chunk s.current_chunk v.current

  others_unused : (x j : ℕ) → j ≤ chunks_limit → InBlock here.free x → ¬ TakenIn (s.chunks j) x
  others_unused x j le block taken = elim (compare_cases j s.current_chunk) [
    | inl e ↦
        (let t = subst (λ k. TakenIn (s.chunks k) x) e taken in
          absurd (omega (arith, t.1, block.0)))
    | inr (inl lt) ↦ different (λ e. omega arith)
    | inr (inr gt) ↦ different (λ e. omega arith)
  ]
    where
      different : j ≢ s.current_chunk → ⊥
      different ne =
          let c = v.chunk j le in
          let d = v.chunk s.current_chunk v.current in
          elim (v.apart j s.current_chunk le v.current ne) [
            | inl below ↦
                absurd
                  (omega (arith, c.order, c.free, c.size, d.order, d.free, below, block.0, taken.1))
            | inr above ↦
                absurd (omega (arith, c.order, c.free, c.size, room, above, block.1, taken.0))
          ]

  taken_block : Takes s here.free (with_chunk s s.current_chunk after)
  taken_block = record {
    valid = record {
      current = v.current;
      chunk = λ i le.
          with_chunk-every (λ _ c. IsChunk c) s s.current_chunk after after-IsChunk i
            (λ _. v.chunk i le);
      apart =
          with_chunk-Apart s s.current_chunk after
            (λ j le ne. v.apart s.current_chunk j v.current le (λ e. ne (sym e))) v.apart;
      later = λ i lt le.
          with_chunk-every (λ i c. s.current_chunk < i → i < chunks_limit → c.free ≡ c.start) s
            s.current_chunk after (λ less _. absurd (omega arith)) i (λ _. v.later i) lt le;
    };
    before = within;
    inside = λ x block. rw (with_chunk-here s s.current_chunk after) (within x block);
    unused = λ x block u. elim u [ in_use j le taken ↦ others_unused x j le block taken ];
    taken = λ x block.
        let c = v.chunk s.current_chunk v.current in
        in_use s.current_chunk v.current (
          subst (λ c. TakenIn c x) (sym (with_chunk-here s s.current_chunk after))
            (omega (arith, c.free, block.0), block.1));
    kept = λ x u. elim u [
      | in_use j le taken ↦ in_use j le (
          with_chunk-every (λ j c. TakenIn (s.chunks j) x → TakenIn c x) s s.current_chunk after
            (λ t. (t.0, omega (arith, t.1))) j (λ _ t. t) taken)
    ];
    only = λ x u. elim u [
      | in_use j le taken ↦
          with_chunk-every (λ j c. j ≤ chunks_limit → TakenIn c x → InUse s x ⊎ InBlock here.free x)
            s s.current_chunk after (λ le t. old_or_new x t) j (λ _ le t. inl (in_use j le t)) le
            taken
    ];
  }
    where
      old_or_new : (x : ℕ) → TakenIn after x → InUse s x ⊎ InBlock here.free x
      old_or_new x t = elim (Bool-cases (ltb x here.free)) [
        | inl lt ↦ inl (in_use s.current_chunk v.current (t.0, ground (arith, lt)))
        | inr ge ↦ inr (ground (arith, ge), t.1)
      ]

  pub take_block-Takes : Returns (take_block s) (λ r. Takes s r.0 r.1)
  unfolding take_block
  take_block-Takes = rw present taken_block
