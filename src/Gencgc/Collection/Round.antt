-- ===== src/Gencgc/Collection/Round.antt =====
-- The collection of one generation in src/runtime/gencgc.c: it fails only where the move of the
-- survivors does, and leaves a generation that is raised empty.
use cl.Common.{
  compare_cases, ℕ, ◌+◌, ◌≤◌, ◌<◌, ◌≡◌, ◌≢◌, refl, ◌∙◌, arith, inl, inr, Bool, true, false, not,
  ◌||◌, Bool-cases, Option-cases, some, ltb, leb, ◌==◌, if◌then◌else◌,
}
use cl.Gencgc.{DynamicSpace}
use cl.Gencgc.Balance.{IsBalanced}
use cl.Gencgc.Release.{release_from_space}
use cl.Gencgc.Scratch.{IsReleasedSpace, release_from_space-IsReleasedSpace}
use cl.Gencgc.Collection.Ends.{Ends, Ends->>=, Returns-Ends}
use cl.Gencgc.Collection.{
  Collector, Policy, bytes_of, end_of_cycle, garbage_collect_generation, collect_one, set_cum_sum,
}

-- The order of the generations: behind the normal ones the pseudo-static one, and behind it the scratch
-- generation, which is one of the heap.
pub record IsSetUp (p : Policy) : Type 0 where
  pub normal : p.oldest_gen_to_gc ≤ p.highest_normal_generation
  pub pseudo_static : p.highest_normal_generation < p.pseudo_static_generation
  pub scratch : p.pseudo_static_generation < p.scratch_generation
  pub inside : p.scratch_generation < p.space.num_generations

-- The move of the survivors keeps the accounts true, and allocates only in `new_space`, which is the
-- next generation or the scratch one: any other generation that is empty stays so.
pub record IsMoving (p : Policy) : Type 0 where
  pub balanced :
      (gen : ℕ) (raise : Bool) (c : Collector) (h : DynamicSpace)
      → IsBalanced p.space c.heap
      → p.move_survivors gen raise c ≡ some h
      → IsBalanced p.space h
  pub to_new_space :
      (gen : ℕ) (raise : Bool) (c : Collector) (h : DynamicSpace) (i : ℕ)
      → p.move_survivors gen raise c ≡ some h
      → i ≢ (if raise then gen + 1 else p.scratch_generation)
      → bytes_of c i ≡ 0
      → h.generations i ≡ 0

module _ (p : Policy) where
  -- True accounts, and nothing in the generations below `below` and in the scratch generation.
  pub record IsClear (below : ℕ) (c : Collector) : Type 0 where
    pub accounts : IsBalanced p.space c.heap
    pub empty : (i : ℕ) → i < below → bytes_of c i ≡ 0
    pub scratch_empty : bytes_of c p.scratch_generation ≡ 0

  -- The trigger of a generation that was collected is as far above its bytes as it is to be, and its
  -- age is forgotten.
  pub record IsRenewed (c : Collector) (i : ℕ) : Type 0 where
    pub trigger :
        (c.generation i).gc_trigger ≡ bytes_of c i + (c.generation i).bytes_consed_between_gc
    pub age : (c.generation i).cum_sum_bytes_allocated ≡ 0

  -- The generations below `below` were raised: the count of their collections starts again.
  abbrev pub AreRaised : ℕ → Collector → Type 0
  AreRaised below c = (i : ℕ) → i < below → IsRenewed c i × ((c.generation i).num_gc ≡ 0)

  -- What the collection of a generation does to the records of the generations.
  record IsCycle (gen : ℕ) (raise : Bool) (c after : Collector) : Type 0 where
    trigger :
        (after.generation gen).gc_trigger
        ≡ bytes_of after gen + (after.generation gen).bytes_consed_between_gc
    count : (after.generation gen).num_gc ≡ (if raise then 0 else 1 + (c.generation gen).num_gc)
    others : (i : ℕ) → i ≢ gen → after.generation i ≡ c.generation i

  end_of_cycle-IsCycle :
      (h : DynamicSpace) (c : Collector) (gen : ℕ) (raise : Bool)
      → IsCycle gen raise c (end_of_cycle p c gen raise h)
  unfolding end_of_cycle
  end_of_cycle-IsCycle h c gen raise =
      let here : (gen == gen) ≡ true = ground arith in
      record {
        trigger = rw here refl;
        count = rw here refl;
        others = λ i other. (let off : (i == gen) ≡ false = ground (arith, other) in rw off refl);
      }

  end_of_cycle-IsBalanced :
      (h : DynamicSpace) (c : Collector) (gen : ℕ) (raise : Bool)
      → IsBalanced p.space h
      → IsBalanced p.space (end_of_cycle p c gen raise h).heap
  unfolding end_of_cycle
  end_of_cycle-IsBalanced h c gen raise b = record {
    pages = b.pages;
    total = b.total;
    free_unused = b.free_unused;
    above_unused = b.above_unused;
    top = b.top;
  }

  bytes_after :
      (h : DynamicSpace) (c : Collector) (gen : ℕ) (raise : Bool) (i : ℕ)
      → bytes_of (end_of_cycle p c gen raise h) i ≡ h.generations i
  unfolding end_of_cycle
  bytes_after h c gen raise i = refl

  module _ (set_up : IsSetUp p) (moving : IsMoving p) where
    released-IsClear :
        (c : Collector) (gen : ℕ) (raise : Bool) (h r : DynamicSpace)
        → gen ≤ p.oldest_gen_to_gc
        → (raise ≡ true → gen < p.oldest_gen_to_gc)
        → IsClear gen c
        → p.move_survivors gen raise c ≡ some h
        → IsReleasedSpace p.space h gen raise p.scratch_generation r
        → IsClear (if raise then gen + 1 else gen) (end_of_cycle p c gen raise r)
    released-IsClear c gen true h r le young clear e d = record {
      accounts = end_of_cycle-IsBalanced r c gen true d.balanced;
      empty = λ i lt. bytes_after r c gen true i ∙ d.generations i ∙ elim (Bool-cases (i == gen)) [
        | inl here ↦ rw here refl
        | inr other ↦ rw other (
            moving.to_new_space gen true c h i e (λ f. omega arith)
              (clear.empty i (ground (arith, other))))
      ];
      scratch_empty =
          let off : (p.scratch_generation == gen) ≡ false =
            ground (arith, set_up.normal, set_up.pseudo_static, set_up.scratch, le) in
          bytes_after r c gen true p.scratch_generation
          ∙ d.generations p.scratch_generation
          ∙ rw off (
              moving.to_new_space gen true c h p.scratch_generation e
                (λ f.
                  omega (arith, set_up.normal, set_up.pseudo_static, set_up.scratch, young refl))
                clear.scratch_empty);
    }
    released-IsClear c gen false h r le young clear e d = record {
      accounts = end_of_cycle-IsBalanced r c gen false d.balanced;
      empty = λ i lt.
          let off : (i == gen) ≡ false = ground arith in
          let away : (i == p.scratch_generation) ≡ false =
            ground (arith, set_up.normal, set_up.pseudo_static, set_up.scratch, le) in
          bytes_after r c gen false i
          ∙ d.generations i
          ∙ rw (off, away)
              (moving.to_new_space gen false c h i e (ground (arith, away)) (clear.empty i lt));
      scratch_empty =
          let off : (p.scratch_generation == gen) ≡ false =
            ground (arith, set_up.normal, set_up.pseudo_static, set_up.scratch, le) in
          let here : (p.scratch_generation == p.scratch_generation) ≡ true = ground arith in
          bytes_after r c gen false p.scratch_generation
          ∙ d.generations p.scratch_generation
          ∙ rw (off, here) refl;
    }

    collection-IsClear :
        (c : Collector) (gen : ℕ) (raise : Bool)
        → gen ≤ p.oldest_gen_to_gc
        → (raise ≡ true → gen < p.oldest_gen_to_gc)
        → IsClear gen c
        → Ends p
            (garbage_collect_generation p c gen raise)
            (λ after. IsClear (if raise then gen + 1 else gen) after × IsCycle gen raise c after)
    unfolding garbage_collect_generation
    collection-IsClear c gen raise le young clear =
        let zeroth : leb gen p.pseudo_static_generation ≡ true =
          ground (arith, le, set_up.normal, set_up.pseudo_static) in
        let first : (not raise || ltb gen p.highest_normal_generation) ≡ true =
          ground (arith, young, set_up.normal) in
        let second : (raise || bytes_of c p.scratch_generation == 0) ≡ true =
          ground (arith, clear.scratch_empty) in
        rw (zeroth, first, second)
          (elim (Option-cases (p.move_survivors gen raise c)) [
            | inl e ↦
                rw (Ends, e)
                  (record {
                    gen = gen;
                    raise = raise;
                    collector = c;
                    true_accounts = clear.accounts;
                    fails = e;
                  })
            | inr (h, e) ↦ rw e (
                Ends->>= p (IsReleasedSpace p.space h gen raise p.scratch_generation) _
                  (release_from_space p.space h gen raise p.scratch_generation) _
                  (Returns-Ends p (IsReleasedSpace p.space h gen raise p.scratch_generation)
                    (release_from_space p.space h gen raise p.scratch_generation)
                    (release_from_space-IsReleasedSpace p.space h gen raise p.scratch_generation
                      (omega
                        (arith, set_up.normal, set_up.pseudo_static, set_up.scratch, set_up.inside))
                      set_up.inside
                      (λ f. omega (arith, set_up.normal, set_up.pseudo_static, set_up.scratch))
                      (moving.balanced gen raise c h clear.accounts e)))
                  (λ r d. (
                    released-IsClear c gen raise h r le young clear e d,
                    end_of_cycle-IsCycle r c gen raise,
                  )))
          ])

    -- What a round leaves. The generation that was collected is renewed, raised or not.
    pub record IsRound (gen : ℕ) (raise : Bool) (after : Collector) : Type 0 where
      pub clear : IsClear (if raise then gen + 1 else gen) after
      pub raised : AreRaised (if raise then gen + 1 else gen) after
      pub last : IsRenewed after gen

    -- The age of the generation is set to 0 at the end. `aged` is the state in which the collection
    -- starts.
    set_cum_sum-IsRound :
        (c aged after : Collector) (gen : ℕ) (raise : Bool)
        → ((i : ℕ) → i < gen → aged.generation i ≡ c.generation i)
        → IsClear gen c
        → AreRaised gen c
        → IsClear (if raise then gen + 1 else gen) after
        → IsCycle gen raise aged after
        → IsRound gen raise (set_cum_sum after gen 0)
    set_cum_sum-IsRound c aged after gen raise same clear raised left cycle = record {
      clear = record {
        accounts = left.accounts;
        empty = left.empty;
        scratch_empty = left.scratch_empty;
      };
      raised = λ i lt. elim (compare_cases i gen) [
        | inl e ↦ rw e (
          here,
          elim (Bool-cases raise) [
            | inl up ↦ rw at (cycle.count ∙ rw up refl)
            | inr down ↦ absurd (ground (arith, lt, e, down))
          ],
        )
        | inr (inl less) ↦ before i less (left.empty i lt)
        | inr (inr more) ↦ absurd (ground (arith, lt, more))
      ];
      last = here;
    }
      where
        at : (gen == gen) ≡ true
        at = ground arith

        here : IsRenewed (set_cum_sum after gen 0) gen
        here = record { trigger = rw at cycle.trigger; age = rw at refl }

        before :
            (i : ℕ)
            → i < gen
            → bytes_of after i ≡ 0
            → IsRenewed (set_cum_sum after gen 0) i
              × (((set_cum_sum after gen 0).generation i).num_gc ≡ 0)
        before i less none_left =
            let off : (i == gen) ≡ false = ground arith in
            let kept : after.generation i ≡ c.generation i =
              cycle.others i (λ e. omega arith) ∙ same i less in
            let (renewed, count) = raised i less in
            (
              record {
                trigger =
                    rw (off, kept) (omega (arith, renewed.trigger, none_left, clear.empty i less));
                age = rw (off, kept) renewed.age;
              },
              rw (off, kept) count,
            )

    pub collect_one-IsRound :
        (c : Collector) (gen : ℕ) (raise : Bool)
        → gen ≤ p.oldest_gen_to_gc
        → (raise ≡ true → gen < p.oldest_gen_to_gc)
        → IsClear gen c
        → AreRaised gen c
        → Ends p (collect_one p c gen raise) (IsRound gen raise)
    unfolding collect_one
    collect_one-IsRound c gen true le young clear raised =
        let aged =
          set_cum_sum c (gen + 1)
            ((c.generation (gen + 1)).cum_sum_bytes_allocated + bytes_of c (gen + 1)) in
        Ends->>= p (λ after. IsClear (gen + 1) after × IsCycle gen true aged after) _ _ _
          (collection-IsClear aged gen true le young (record {
            accounts = clear.accounts;
            empty = clear.empty;
            scratch_empty = clear.scratch_empty;
          }))
          (λ after d.
            set_cum_sum-IsRound c aged after gen true
              (λ i lt. (let off : (i == gen + 1) ≡ false = ground arith in rw off refl)) clear
              raised d.0 d.1)
    collect_one-IsRound c gen false le young clear raised =
        Ends->>= p (λ after. IsClear gen after × IsCycle gen false c after) _ _ _
          (collection-IsClear c gen false le young clear)
          (λ after d. set_cum_sum-IsRound c c after gen false (λ i lt. refl) clear raised d.0 d.1)
