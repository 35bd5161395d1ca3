-- ===== src/Suballocator/Release.antt =====
-- `suballoc_release` of src/runtime/queue-suballocator.h.
use cl.Common.{
  ℕ, zero, suc, ◌+◌, ◌≤◌, ◌<◌, ◌≡◌, ◌≢◌, refl, ap, sym, ◌∙◌, arith, inl, inr, true, false,
  Bool-cases, ltb, leb, ◌&&◌, ◌==◌, if◌then◌else◌, compare_cases, List, [], ◌∷◌, sum_below,
  sum_below_change,
}
use mathlib.Core.Path.{subst}
use cl.Suballocator.{
  Chunk, Suballocator, chunks_limit, age_limit, with_chunk, release_chunk, Released, release_step,
  release_chunks, suballoc_release,
}
use cl.Suballocator.Chunks.{
  IsChunk, Apart, IsValid, TakenIn, with_chunk-here, with_chunk-other, Apart-flip,
}

-- What becomes of a chunk, if it has memory or not.
abbrev chunk_after : Chunk → Chunk
chunk_after c = if c.start == 0 then c else release_chunk c

release_step-chunks :
    (i : ℕ) (r : Released) (j : ℕ)
    → (release_step i r).suballocator.chunks j
      ≡ (if j == i then chunk_after (r.suballocator.chunks j) else r.suballocator.chunks j)
unfolding release_step
release_step-chunks i r j = elim (compare_cases j i) [
  | inl e ↦
      (let same : (i == i) ≡ true = ground arith in
        rw e (
          rw same (elim (Bool-cases ((r.suballocator.chunks i).start == 0)) [
            | inl z ↦ rw z refl
            | inr z ↦ rw (z, same) refl
          ])))
  | inr (inl lt) ↦ other (ground arith)
  | inr (inr gt) ↦ other (ground arith)
]
  where
    other :
        (j == i) ≡ false
        → (release_step i r).suballocator.chunks j
          ≡ (if j == i then chunk_after (r.suballocator.chunks j) else r.suballocator.chunks j)
    other e = rw e (elim (Bool-cases ((r.suballocator.chunks i).start == 0)) [
      | inl z ↦ rw z refl
      | inr z ↦ rw (z, e) refl
    ])

release_chunks-chunks :
    (n i : ℕ) (r : Released) (j : ℕ)
    → (release_chunks n i r).suballocator.chunks j ≡ (
        if leb i j && ltb j (i + n)
        then chunk_after (r.suballocator.chunks j)
        else r.suballocator.chunks j)
unfolding release_chunks
release_chunks-chunks zero i r j =
    let e : (leb i j && ltb j (i + 0)) ≡ false = ground arith in rw e refl
release_chunks-chunks (suc n) i r j =
    release_chunks-chunks n (i + 1) (release_step i r) j
    ∙ (rw (release_step-chunks i r j) (elim (compare_cases j i) [
      | inl e ↦
          (let a : (leb (i + 1) j && ltb j (i + 1 + n)) ≡ false = ground arith in
            let b : (leb i j && ltb j (i + suc n)) ≡ true = ground arith in
            let c : (j == i) ≡ true = ground arith in rw a (rw b (rw c refl)))
      | inr (inl lt) ↦
          (let a : (leb (i + 1) j && ltb j (i + 1 + n)) ≡ false = ground arith in
            let b : (leb i j && ltb j (i + suc n)) ≡ false = ground arith in
            let c : (j == i) ≡ false = ground arith in rw a (rw b (rw c refl)))
      | inr (inr gt) ↦
          (let a : (leb (i + 1) j && ltb j (i + 1 + n)) ≡ (leb i j && ltb j (i + suc n)) =
              ground arith in
            let c : (j == i) ≡ false = ground arith in rw a (rw c refl))
    ]))

-- The bytes of the first `n` chunks, and those that were given back.
abbrev pub bytes : ℕ → Suballocator → ℕ
bytes n s = sum_below n (λ i. (s.chunks i).size)

abbrev pub bytes_of : List (ℕ × ℕ) → ℕ
bytes_of [] = 0
bytes_of ((start, size) ∷ rest) = size + bytes_of rest

with_chunk-bytes :
    (n : ℕ) (s : Suballocator) (i : ℕ) (c : Chunk)
    → i < n
    → bytes n (with_chunk s i c) + (s.chunks i).size ≡ bytes n s + c.size
with_chunk-bytes n s i c lt =
    sum_below_change n i (λ j. ((with_chunk s i c).chunks j).size) (λ j. (s.chunks j).size) lt
      (λ j ne. ap (λ (d : Chunk). d.size) (with_chunk-other s i c j ne))
    ∙ ap (λ (d : Chunk). bytes n s + d.size) (with_chunk-here s i c)

release_step-bytes :
    (n i : ℕ) (r : Released)
    → i < n
    → bytes n (release_step i r).suballocator + bytes_of (release_step i r).given_back
      ≡ bytes n r.suballocator + bytes_of r.given_back
unfolding release_step release_chunk
release_step-bytes n i r lt =
    let change = with_chunk-bytes n r.suballocator i (release_chunk (r.suballocator.chunks i)) lt in
    elim (Bool-cases ((r.suballocator.chunks i).start == 0)) [
      | inl e ↦ rw e refl
      | inr e ↦ elim (Bool-cases (leb age_limit (r.suballocator.chunks i).age)) [
        | inl old ↦ rw (e, old) (omega (arith, (rw old at change)))
        | inr young ↦ rw (e, young) (omega (arith, (rw young at change)))
      ]
    ]

release_chunks-bytes :
    (n m i : ℕ) (r : Released)
    → i + m ≤ n
    → bytes n (release_chunks m i r).suballocator + bytes_of (release_chunks m i r).given_back
      ≡ bytes n r.suballocator + bytes_of r.given_back
unfolding release_chunks
release_chunks-bytes n zero i r le = refl
release_chunks-bytes n (suc m) i r le =
    release_chunks-bytes n m (i + 1) (release_step i r) (omega arith)
    ∙ release_step-bytes n i r (omega arith)

-- A chunk below the last after a release: nothing in it is in use; it is as large as before, and a
-- release older, or it was too old and is gone.
pub data Emptied : Chunk → Chunk → Type 0 where
  absent : {c : Chunk} → c.start ≡ 0 → Emptied c c
  older : {c : Chunk} → c.age < age_limit → Emptied c (record c { age = c.age + 1; free = c.start })
  gone : {c : Chunk} → age_limit ≤ c.age → Emptied c (record c { start = 0; free = 0; size = 0 })

chunk_after-Emptied : (c : Chunk) → Emptied c (chunk_after c)
unfolding release_chunk
chunk_after-Emptied c = elim (Bool-cases (c.start == 0)) [
  | inl e ↦ rw e (absent (ground (arith, e)))
  | inr e ↦ elim (Bool-cases (leb age_limit c.age)) [
    | inl old ↦ rw (e, old) (gone (ground (arith, old)))
    | inr young ↦ rw (e, young) (older (ground (arith, young)))
  ]
]

Emptied-IsChunk : (c d : Chunk) → Emptied c d → IsChunk c → IsChunk d
Emptied-IsChunk c d (absent _) k = k
Emptied-IsChunk c d (older _) k = record {
  taken = 0;
  blocks = k.blocks;
  order = omega arith;
  free = omega arith;
  size = k.size;
  absent = k.absent;
}
Emptied-IsChunk c d (gone _) k = record {
  taken = 0;
  blocks = 0;
  order = omega arith;
  free = omega arith;
  size = omega arith;
  absent = λ _. refl;
}

Emptied-free : (c d : Chunk) → Emptied c d → IsChunk c → d.free ≡ d.start
Emptied-free c d (absent e) k = omega (arith, e, k.order, k.free, k.absent e)
Emptied-free c d (older _) k = refl
Emptied-free c d (gone _) k = refl

-- A smaller chunk, or none, is apart from what the chunk was apart from.
Emptied-Apart : (c d e : Chunk) → Emptied c d → Apart c e → Apart d e
Emptied-Apart c d e (absent _) a = a
Emptied-Apart c d e (older _) a = a
Emptied-Apart c d e (gone _) a = inl (omega arith)

-- What `suballoc_release` does to the chunks. The last one is left as it is.
pub record IsReleased (s : Suballocator) (r : Released) : Type 0 where
  pub valid : IsValid r.suballocator
  pub first : r.suballocator.current_chunk ≡ 0
  pub emptied : (i : ℕ) → i < chunks_limit → Emptied (s.chunks i) (r.suballocator.chunks i)
  pub unused : (i x : ℕ) → i < chunks_limit → ¬ TakenIn (r.suballocator.chunks i) x
  pub last : r.suballocator.chunks chunks_limit ≡ s.chunks chunks_limit
  pub memory : bytes chunks_limit r.suballocator + bytes_of r.given_back ≡ bytes chunks_limit s

module _ (s : Suballocator) (v : IsValid s) where
  abbrev chunks' : ℕ → Chunk
  chunks' i = (suballoc_release s).suballocator.chunks i

  below_last : (i : ℕ) → i < chunks_limit → Emptied (s.chunks i) (chunks' i)
  unfolding suballoc_release
  below_last i lt =
      let e : (leb 0 i && ltb i (0 + chunks_limit)) ≡ true = ground arith in
      rw
        (release_chunks-chunks chunks_limit 0
          (record { suballocator = s; used = 0; given_back = [] }) i)
        (rw e (chunk_after-Emptied (s.chunks i)))

  at_last : chunks' chunks_limit ≡ s.chunks chunks_limit
  unfolding suballoc_release
  at_last =
      release_chunks-chunks chunks_limit 0 (record { suballocator = s; used = 0; given_back = [] })
        chunks_limit

  -- A statement on a chunk that emptying keeps.
  every :
      (P : Chunk → Type 0) (i : ℕ)
      → i ≤ chunks_limit
      → ((d : Chunk) → Emptied (s.chunks i) d → P (s.chunks i) → P d)
      → P (s.chunks i)
      → P (chunks' i)
  every P i le step p = elim (compare_cases i chunks_limit) [
    | inl e ↦
        subst (λ j. P (chunks' j)) (sym e) (subst P (sym at_last) (subst (λ j. P (s.chunks j)) e p))
    | inr (inl lt) ↦ step (chunks' i) (below_last i lt) p
    | inr (inr gt) ↦ absurd (omega arith)
  ]

  apart' : (i j : ℕ) → i ≤ chunks_limit → j ≤ chunks_limit → i ≢ j → Apart (chunks' i) (chunks' j)
  apart' i j ile jle ne =
      every (λ c. Apart c (chunks' j)) i ile (λ d e a. Emptied-Apart (s.chunks i) d (chunks' j) e a)
        (Apart-flip (chunks' j) (s.chunks i) (
          every (λ c. Apart c (s.chunks i)) j jle
            (λ d e a. Emptied-Apart (s.chunks j) d (s.chunks i) e a)
            (v.apart j i jle ile (λ e. ne (sym e)))))

  free' : (i : ℕ) → i < chunks_limit → (chunks' i).free ≡ (chunks' i).start
  free' i lt = Emptied-free (s.chunks i) (chunks' i) (below_last i lt) (v.chunk i (omega arith))

-- In a valid suballocator, `suballoc_release` leaves a valid one, with the first chunk current. Of
-- the chunks but the last one, each is as large as before, a release older and not in use,
-- or it was not used for ten releases and is gone, or there was none; the bytes given back to
-- the system are those by which these chunks shrink. The last chunk stays as it was, with its
-- blocks in use.
pub suballoc_release-IsReleased : (s : Suballocator) → IsValid s → IsReleased s (suballoc_release s)
unfolding suballoc_release
suballoc_release-IsReleased s v = record {
  valid = record {
    current = omega arith;
    chunk =
        λ i le. every s v IsChunk i le (λ d e k. Emptied-IsChunk (s.chunks i) d e k) (v.chunk i le);
    apart = apart' s v;
    later = λ i _ lt. free' s v i lt;
  };
  first = refl;
  emptied = below_last s v;
  unused = λ i x lt t. let e = free' s v i lt in omega (arith, e, t.0, t.1);
  last = at_last s v;
  memory =
      release_chunks-bytes chunks_limit chunks_limit 0
        (record { suballocator = s; used = 0; given_back = [] }) (omega arith)
      ∙ omega arith;
}
