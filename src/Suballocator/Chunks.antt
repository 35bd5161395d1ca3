-- ===== src/Suballocator/Chunks.antt =====
-- The well-formed suballocators of src/runtime/queue-suballocator.h, and the memory that is in use.
use cl.Common.{
  ◌⊎◌, ℕ, ◌+◌, ◌*◌, ◌≤◌, ◌<◌, ◌≡◌, ◌≢◌, refl, sym, arith, inl, inr, true, false, ◌==◌,
  compare_cases,
}
use mathlib.Core.Path.{subst}
use cl.Suballocator.{Chunk, Suballocator, qblock_bytes, chunks_limit, new_suballocator, with_chunk}

-- A chunk of `blocks` blocks, of which `taken` are taken.
pub record IsChunk (c : Chunk) : Type 0 where
  pub taken : ℕ
  pub blocks : ℕ
  pub order : taken ≤ blocks
  pub free : c.free ≡ c.start + taken * qblock_bytes
  pub size : c.size ≡ blocks * qblock_bytes
  pub absent : c.start ≡ 0 → blocks ≡ 0

-- Two stretches of memory.
abbrev pub Apart : Chunk → Chunk → Type 0
Apart c d = (c.start + c.size ≤ d.start) ⊎ (d.start + d.size ≤ c.start)

-- There are CHUNKS + 1 chunks. Those behind the current one are unused, all but the last, which
-- `suballoc_release` does not reset.
pub record IsValid (s : Suballocator) : Type 0 where
  pub current : s.current_chunk ≤ chunks_limit
  pub chunk : (i : ℕ) → i ≤ chunks_limit → IsChunk (s.chunks i)
  pub apart :
      (i j : ℕ) → i ≤ chunks_limit → j ≤ chunks_limit → i ≢ j → Apart (s.chunks i) (s.chunks j)
  pub later :
      (i : ℕ) → s.current_chunk < i → i < chunks_limit → (s.chunks i).free ≡ (s.chunks i).start

abbrev pub TakenIn : Chunk → ℕ → Type 0
TakenIn c x = (c.start ≤ x) × (x < c.free)

abbrev pub Spans : Chunk → ℕ → Type 0
Spans c x = (c.start ≤ x) × (x < c.start + c.size)

-- Address `x` lies in a block that was handed out.
pub data InUse (s : Suballocator) (x : ℕ) : Type 0 where
  in_use : (i : ℕ) → i ≤ chunks_limit → TakenIn (s.chunks i) x → InUse s x

pub new_suballocator-IsValid : IsValid new_suballocator
new_suballocator-IsValid = record {
  current = omega arith;
  chunk = λ i le. record {
    taken = 0;
    blocks = 0;
    order = omega arith;
    free = omega arith;
    size = omega arith;
    absent = λ _. refl;
  };
  apart = λ i j _ _ ne. inl (omega arith);
  later = λ i _ _. refl;
}

pub with_chunk-here : (s : Suballocator) (i : ℕ) (c : Chunk) → (with_chunk s i c).chunks i ≡ c
with_chunk-here s i c = let e : (i == i) ≡ true = ground arith in rw e refl

pub with_chunk-other :
    (s : Suballocator) (i : ℕ) (c : Chunk) (j : ℕ)
    → j ≢ i
    → (with_chunk s i c).chunks j ≡ s.chunks j
with_chunk-other s i c j ne = let e : (j == i) ≡ false = ground (arith, ne) in rw e refl

-- A family of statements on the chunks holds after one of them is replaced.
pub with_chunk-every :
    (P : ℕ → Chunk → Type 0) (s : Suballocator) (i : ℕ) (c : Chunk)
    → P i c
    → (j : ℕ) → (j ≢ i → P j (s.chunks j))
    → P j ((with_chunk s i c).chunks j)
with_chunk-every P s i c here j others = elim (compare_cases j i) [
  | inl e ↦
      subst (λ k. P k ((with_chunk s i c).chunks k)) (sym e)
        (subst (P i) (sym (with_chunk-here s i c)) here)
  | inr (inl lt) ↦
      (let ne : j ≢ i = λ e. omega arith in
        subst (P j) (sym (with_chunk-other s i c j ne)) (others ne))
  | inr (inr gt) ↦
      (let ne : j ≢ i = λ e. omega arith in
        subst (P j) (sym (with_chunk-other s i c j ne)) (others ne))
]

pub Apart-flip : (c d : Chunk) → Apart c d → Apart d c
Apart-flip c d (inl a) = inr a
Apart-flip c d (inr b) = inl b

-- The chunks stay apart when one of them is replaced by one that is apart from the others.
pub with_chunk-Apart :
    (s : Suballocator) (i : ℕ) (c : Chunk)
    → ((j : ℕ) → j ≤ chunks_limit → j ≢ i → Apart c (s.chunks j))
    → ((j k : ℕ) → j ≤ chunks_limit → k ≤ chunks_limit → j ≢ k → Apart (s.chunks j) (s.chunks k))
    → (j k : ℕ) → j ≤ chunks_limit
    → k ≤ chunks_limit
    → j ≢ k
    → Apart ((with_chunk s i c).chunks j) ((with_chunk s i c).chunks k)
with_chunk-Apart s i c new old j k jle kle ne =
    with_chunk-every (λ j d. j ≢ k → Apart d ((with_chunk s i c).chunks k)) s i c
      (λ ik.
        with_chunk-every (λ k e. i ≢ k → Apart c e) s i c (λ ii. absurd (ii refl)) k
          (λ ki _. new k kle ki) ik)
      j
      (λ ji jk.
        with_chunk-every (λ k e. j ≢ k → Apart (s.chunks j) e) s i c
          (λ _. Apart-flip c (s.chunks j) (new j jle ji)) k (λ _ jk. old j k jle kle jk) jk)
      ne
