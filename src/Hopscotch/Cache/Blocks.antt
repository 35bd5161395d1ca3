-- ===== src/Hopscotch/Cache/Blocks.antt =====
-- The blocks that src/runtime/hopscotch.c keeps in reserve.
use cl.Common.{
  ◌⊎◌, ◌↔◌, ℕ, ◌+◌, ◌-◌, ◌%◌, ◌^◌, ◌≤◌, ◌<◌, ◌≡◌, ◌≢◌, refl, arith, inl, inr, true, false, not,
  ◌||◌, Bool-cases, List, [], ◌∷◌, ◌==◌, Outcome, ok, lost, assign,
}
use cl.Hopscotch.Cache.{
  Cache, hh_allocation_granularity, allocation_overhead, align_up, write_header, new_block, serves,
  cached_allocate, whole_block, cached_deallocate, int_below,
}

-- A block for `nbytes`, from the cache or from the system, and the cache without it.
pub data Granted (os_allocate : ℕ → ℕ) (nbytes : ℕ) (c : Cache) : Outcome (ℕ × Cache) → Type 0 where
  from_first :
      c.cached_alloc0 ≢ 0
      → nbytes ≤ c.usable_size c.cached_alloc0
      → Granted os_allocate nbytes c (ok (c.cached_alloc0, record c { cached_alloc0 = 0 }))
  from_second :
      c.cached_alloc1 ≢ 0
      → nbytes ≤ c.usable_size c.cached_alloc1
      → Granted os_allocate nbytes c (ok (c.cached_alloc1, record c { cached_alloc1 = 0 }))
  from_system :
      {usable : ℕ → ℕ} {size : ℕ}
      → os_allocate size ≢ 0
      → usable (os_allocate size + allocation_overhead) + allocation_overhead ≡ size
      → nbytes ≤ size
      → size < nbytes + hh_allocation_granularity
      → (nbytes % 4096 ≢ 0
          → nbytes % 4096 ≤ 4088
          → nbytes ≤ usable (os_allocate size + allocation_overhead))
      → ((b : ℕ) → b ≢ os_allocate size + allocation_overhead → usable b ≡ c.usable_size b)
      → Granted os_allocate nbytes c
          (ok (os_allocate size + allocation_overhead, record c { usable_size = usable }))
  no_memory :
      os_allocate (align_up nbytes hh_allocation_granularity) ≡ 0
      → Granted os_allocate nbytes c lost

new_block-Granted :
    (os_allocate : ℕ → ℕ) (nbytes : ℕ) (c : Cache)
    → 0 < nbytes
    → nbytes < 2 ^ 31
    → Granted os_allocate nbytes c (new_block os_allocate nbytes c)
unfolding new_block write_header
new_block-Granted os_allocate nbytes c pos small = elim (Bool-cases (os_allocate size == 0)) [
  | inl e ↦ rw e (no_memory (ground (arith, e)))
  | inr e ↦ rw e (from_system (ground (arith, e)) header (omega arith) (omega arith) enough others)
]
  where
    size : ℕ
    size = align_up nbytes hh_allocation_granularity

    block : ℕ
    block = os_allocate size + allocation_overhead

    here :
        assign c.usable_size block ((size - allocation_overhead) % 2 ^ 32) block
        ≡ (size - allocation_overhead) % 2 ^ 32
    here = let same : (block == block) ≡ true = ground arith in rw same refl

    header :
        assign c.usable_size block ((size - allocation_overhead) % 2 ^ 32) block
          + allocation_overhead
        ≡ size
    header = omega (arith, here)

    enough :
        nbytes % 4096 ≢ 0
        → nbytes % 4096 ≤ 4088
        → nbytes ≤ assign c.usable_size block ((size - allocation_overhead) % 2 ^ 32) block
    enough a b = ground (arith, here, a, b)

    others :
        (b : ℕ)
        → b ≢ block
        → assign c.usable_size block ((size - allocation_overhead) % 2 ^ 32) b ≡ c.usable_size b
    others b ne = let off : (b == block) ≡ false = ground (arith, ne) in rw off refl

-- For 1 to 2 ^ 31 - 1 bytes `cached_allocate` calls `lose` only if the system has no memory.
-- Otherwise it returns a block of the reserve that has so many usable bytes, and takes it out of
-- the reserve, or one of at least so many bytes from the system, less
-- than 4096 more. The usable bytes of
-- that, which are 8 less, are enough if the remainder by 4096 is neither 0 nor above 4088.
pub cached_allocate-Granted :
    (os_allocate : ℕ → ℕ) (nbytes : ℕ) (c : Cache)
    → 0 < nbytes
    → nbytes < 2 ^ 31
    → Granted os_allocate nbytes c (cached_allocate os_allocate nbytes c)
unfolding cached_allocate
cached_allocate-Granted os_allocate nbytes c pos small =
    elim (Bool-cases (serves c c.cached_alloc0 nbytes)) [
      | inl a ↦ rw a (from_first (ground (arith, a)) (ground (arith, a)))
      | inr a ↦ rw a (elim (Bool-cases (serves c c.cached_alloc1 nbytes)) [
        | inl b ↦ rw b (from_second (ground (arith, b)) (ground (arith, b)))
        | inr b ↦ rw b (new_block-Granted os_allocate nbytes c pos small)
      ])
    ]

abbrev pub InCache : Cache → ℕ → Type 0
InCache c b = (b ≢ 0) × ((b ≡ c.cached_alloc0) ⊎ (b ≡ c.cached_alloc1))

-- What the reserve holds when a block was handed back, and what goes to the system.
pub data Retained (c : Cache) (mem : ℕ) : Cache × List (ℕ × ℕ) → Type 0 where
  room :
      {c' : Cache}
      → (c.cached_alloc0 ≡ 0) ⊎ (c.cached_alloc1 ≡ 0)
      → ((b : ℕ) → InCache c' b ↔ (InCache c b ⊎ (b ≡ mem)))
      → Retained c mem (c', [])
  smallest :
      {c' : Cache} (out : ℕ)
      → InCache c out ⊎ (out ≡ mem)
      → ((b : ℕ) → InCache c' b ↔ ((InCache c b ⊎ (b ≡ mem)) × (b ≢ out)))
      → ((b : ℕ) → InCache c' b → c.usable_size out ≤ c.usable_size b)
      → Retained c mem (c', whole_block c out ∷ [])

abbrev Small : ℕ → Type 0
Small n = n < 2 ^ 31

least : (f : ℕ → ℕ) (out x y b : ℕ) → (b ≡ x) ⊎ (b ≡ y) → f out ≤ f x → f out ≤ f y → f out ≤ f b
least f out x y b (inl e) le _ = rw e le
least f out x y b (inr e) _ le = rw e le

-- Two full places, with three different blocks.
full_cache :
    (c : Cache) (mem : ℕ)
    → mem ≢ 0
    → mem ≢ c.cached_alloc0
    → mem ≢ c.cached_alloc1
    → c.cached_alloc0 ≢ c.cached_alloc1
    → Small (c.usable_size mem)
    → Small (c.usable_size c.cached_alloc0)
    → Small (c.usable_size c.cached_alloc1)
    → c.cached_alloc0 ≢ 0
    → c.cached_alloc1 ≢ 0
    → Retained c mem (cached_deallocate mem c)
unfolding cached_deallocate
full_cache c mem some new0 new1 differ small small0 small1 z0 z1 =
    let a : (c.cached_alloc0 == 0) ≡ false = ground (arith, z0) in
    let b : (c.cached_alloc1 == 0) ≡ false = ground (arith, z1) in
    rw (a, b)
      (elim (Bool-cases (
        not (
          int_below (c.usable_size c.cached_alloc0) (c.usable_size mem)
          || int_below (c.usable_size c.cached_alloc1) (c.usable_size mem)))) [
            | inl e ↦ rw e (
                smallest mem (inr refl) (λ b. ground (arith, some, new0, new1, differ, z0, z1))
                  (λ b inside.
                    least c.usable_size mem c.cached_alloc0 c.cached_alloc1 b (inside.1)
                      (ground (arith, e, small, small0)) (ground (arith, e, small, small1))))
            | inr e ↦
                rw e
                  (elim (Bool-cases
                    (int_below (c.usable_size c.cached_alloc1) (c.usable_size c.cached_alloc0))) [
                      | inl f ↦ rw f (
                          smallest c.cached_alloc1 (inl (z1, inr refl))
                            (λ b. ground (arith, some, new0, new1, differ, z0, z1))
                            (λ b inside.
                              least c.usable_size c.cached_alloc1 c.cached_alloc0 mem b (inside.1)
                                (ground (arith, f, small0, small1))
                                (ground (arith, e, f, small, small0, small1))))
                      | inr f ↦ rw f (
                          smallest c.cached_alloc0 (inl (z0, inl refl))
                            (λ b. ground (arith, some, new0, new1, differ, z0, z1))
                            (λ b inside.
                              least c.usable_size c.cached_alloc0 mem c.cached_alloc1 b (inside.1)
                                (ground (arith, e, f, small, small0, small1))
                                (ground (arith, f, small0, small1))))
                    ])
          ])

-- Let a block be handed back that is not null and not in the reserve, whose two blocks, if it has
-- two, differ, and let the three sizes be below 2 ^ 31. If the reserve has room, `cached_deallocate` keeps
-- the block there and gives nothing back. Otherwise the whole of one block goes back to the
-- system, one of the least size among the three, and the reserve has the other two.
pub cached_deallocate-Retained :
    (mem : ℕ) (c : Cache)
    → mem ≢ 0
    → ¬ InCache c mem
    → c.cached_alloc0 ≢ c.cached_alloc1 ⊎ (c.cached_alloc0 ≡ 0)
    → Small (c.usable_size mem)
    → Small (c.usable_size c.cached_alloc0)
    → Small (c.usable_size c.cached_alloc1)
    → Retained c mem (cached_deallocate mem c)
unfolding cached_deallocate
cached_deallocate-Retained mem c some new differ small small0 small1 =
    elim (Bool-cases (c.cached_alloc0 == 0)) [
      | inl e ↦ rw e (room (inl (ground (arith, e))) (λ b. ground (arith, some, e)))
      | inr e ↦ elim (Bool-cases (c.cached_alloc1 == 0)) [
        | inl f ↦ rw (e, f) (room (inr (ground (arith, f))) (λ b. ground (arith, some, f)))
        | inr f ↦
            full_cache c mem some (ground (arith, new, some)) (ground (arith, new, some))
              (ground (arith, differ, e)) small small0 small1 (ground (arith, e))
              (ground (arith, f))
      ]
    ]
