-- ===== src/ThreadPool/Invariant.antt =====
-- What holds of the thread pool of src/runtime/gc-thread-pool.c between any two steps.
use cl.Common.{
  ℕ, zero, suc, ◌+◌, ◌-◌, ◌≤◌, ◌<◌, ◌≡◌, ◌≢◌, refl, ap, ◌∙◌, arith, inl, inr, Bool-cases, ltb, ◌==◌,
  compare_cases, some, [], ◌∷◌, assign, sum_below, sum_below-assign,
}
use cl.ThreadPool.{
  sleeping, awake, acted, MainPc, outside, waking, joining, Worker, Pool, with_worker, forget,
  WorkerStep, takes, acts, posts,
}

abbrev pub idle : Worker
idle = record { pc = sleeping; start_semaphore = 0; calls = [] }

-- A worker that was woken to call `act`, and 1 if it has posted the join semaphore.
pub data Woken (act : ℕ) (w : Worker) (f : ℕ) : Type 0 where
  posted : w ≡ record { pc = sleeping; start_semaphore = 1; calls = [] } → f ≡ 0 → Woken act w f
  at_work : w ≡ record { pc = awake; start_semaphore = 0; calls = [] } → f ≡ 0 → Woken act w f
  called :
      w ≡ record { pc = acted; start_semaphore = 0; calls = some act ∷ [] } → f ≡ 0 → Woken act w f
  finished :
      w ≡ record { pc = sleeping; start_semaphore = 0; calls = some act ∷ [] }
      → f ≡ 1
      → Woken act w f

-- During a call: the workers below `posted` are woken, and `joined` of the finished ones were
-- waited for.
pub record IsBusy (n : ℕ) (s : Pool) (act posted joined : ℕ) : Type 0 where
  pub finished : ℕ → ℕ
  pub action : s.action ≡ some act
  pub woken : (i : ℕ) → i < n → i < posted → Woken act (s.workers i) (finished i)
  pub others : (i : ℕ) → i < n → posted ≤ i → (s.workers i ≡ idle) × (finished i ≡ 0)
  pub count : s.join_semaphore + joined ≡ sum_below n finished

abbrev pub IsResting : ℕ → Pool → Type 0
IsResting n s = (s.join_semaphore ≡ 0) × ((i : ℕ) → i < n → forget (s.workers i) ≡ idle)

abbrev pub InvariantAt : ℕ → Pool → MainPc → Type 0
InvariantAt n s outside = IsResting n s
InvariantAt n s (waking act i) = (i ≤ n) × IsBusy n s act i 0
InvariantAt n s (joining act i) = (i ≤ n) × IsBusy n s act n i

abbrev pub Invariant : ℕ → Pool → Type 0
Invariant n s = InvariantAt n s s.main

-- Worker `i` becomes `w`, and its share of the finished ones `f`.
module _ (n : ℕ) (s : Pool) (act posted joined i : ℕ) (lt : i < n)
    (b : IsBusy n s act posted joined) where
  pub replaced :
      (w : Worker) (f posted' join : ℕ)
      → (i < posted' → Woken act w f)
      → i < posted'
      → ((j : ℕ) → j ≢ i → j < posted' → j < posted)
      → ((j : ℕ) → j ≢ i → posted' ≤ j → posted ≤ j)
      → join + b.finished i ≡ s.join_semaphore + f
      → IsBusy n (record (with_worker s i w) { join_semaphore = join }) act posted' joined
  replaced w f posted' join new at below above balance = record {
    finished = assign b.finished i f;
    action = b.action;
    woken = λ j less early. elim (Bool-cases (j == i)) [
      | inl e ↦ rw e (new at)
      | inr e ↦ rw e (b.woken j less (below j (ground (arith, e)) early))
    ];
    others = λ j less late. elim (Bool-cases (j == i)) [
      | inl e ↦ absurd (ground (arith, e, at, late))
      | inr e ↦ rw e (b.others j less (above j (ground (arith, e)) late))
    ];
    count = omega (arith, b.count, balance, sum_below-assign n i b.finished f lt);
  }

-- What a step of a woken worker finds.
can_take :
    (act : ℕ) (w : Worker) (f : ℕ)
    → Woken act w f
    → w.pc ≡ sleeping
    → 0 < w.start_semaphore
    → (w ≡ record { pc = sleeping; start_semaphore = 1; calls = [] }) × (f ≡ 0)
can_take act w f (posted e z) pc sem = (e, z)
can_take act w f (at_work e z) pc sem = absurd (cc (pc, e))
can_take act w f (called e z) pc sem = absurd (cc (pc, e))
can_take act w f (finished e z) pc sem =
    absurd (omega (arith, sem, ap (λ (w : Worker). w.start_semaphore) e))

can_act :
    (act : ℕ) (w : Worker) (f : ℕ)
    → Woken act w f
    → w.pc ≡ awake
    → (w ≡ record { pc = awake; start_semaphore = 0; calls = [] }) × (f ≡ 0)
can_act act w f (posted e z) pc = absurd (cc (pc, e))
can_act act w f (at_work e z) pc = (e, z)
can_act act w f (called e z) pc = absurd (cc (pc, e))
can_act act w f (finished e z) pc = absurd (cc (pc, e))

can_post :
    (act : ℕ) (w : Worker) (f : ℕ)
    → Woken act w f
    → w.pc ≡ acted
    → (w ≡ record { pc = acted; start_semaphore = 0; calls = some act ∷ [] }) × (f ≡ 0)
can_post act w f (posted e z) pc = absurd (cc (pc, e))
can_post act w f (at_work e z) pc = absurd (cc (pc, e))
can_post act w f (called e z) pc = (e, z)
can_post act w f (finished e z) pc = absurd (cc (pc, e))

module _ (n : ℕ) (s : Pool) (act posted joined i : ℕ) (lt : i < n)
    (b : IsBusy n s act posted joined) where
  -- A worker that is not idle was woken.
  is_woken : ((s.workers i ≡ idle) → ⊥) → i < posted
  is_woken busy = elim (Bool-cases (ltb i posted)) [
    | inl lt ↦ ground (arith, lt)
    | inr ge ↦ absurd (busy (b.others i lt (ground (arith, ge))).0)
  ]

  pub worker-IsBusy : {s' : Pool} → WorkerStep s i s' → IsBusy n s' act posted joined
  worker-IsBusy (takes pc sem) =
      let at = is_woken (λ e. omega (arith, sem, ap (λ (w : Worker). w.start_semaphore) e)) in
      let (e, z) = can_take act (s.workers i) (b.finished i) (b.woken i lt at) pc sem in
      replaced n s act posted joined i lt b _ 0 posted s.join_semaphore
        (λ _.
          at_work
            (ap (λ (w : Worker). record w { pc = awake; start_semaphore = w.start_semaphore - 1 })
              e)
            refl)
        at (λ j _ h. h) (λ j _ h. h) (omega (arith, z))
  worker-IsBusy (acts pc) =
      let at = is_woken (λ e. absurd (cc (pc, e))) in
      let (e, z) = can_act act (s.workers i) (b.finished i) (b.woken i lt at) pc in
      replaced n s act posted joined i lt b _ 0 posted s.join_semaphore
        (λ _.
          called
            (ap (λ (w : Worker). record w { pc = acted; calls = s.action ∷ w.calls }) e
              ∙ ap (λ a. record { pc = acted; start_semaphore = 0; calls = a ∷ [] }) b.action)
            refl)
        at (λ j _ h. h) (λ j _ h. h) (omega (arith, z))
  worker-IsBusy (posts pc) =
      let at = is_woken (λ e. absurd (cc (pc, e))) in
      let (e, z) = can_post act (s.workers i) (b.finished i) (b.woken i lt at) pc in
      replaced n s act posted joined i lt b _ 1 posted (s.join_semaphore + 1)
        (λ _. finished (ap (λ (w : Worker). record w { pc = sleeping }) e) refl) at (λ j _ h. h)
        (λ j _ h. h) (omega (arith, z))

-- Workers at rest take no step.
pub resting_worker :
    (n : ℕ) (s : Pool) (i : ℕ) {s' : Pool} → i < n → IsResting n s → WorkerStep s i s' → ⊥
resting_worker n s i lt (_, rest) (takes pc sem) =
    omega (arith, sem, ap (λ (w : Worker). w.start_semaphore) (rest i lt))
resting_worker n s i lt (_, rest) (acts pc) =
    absurd (cc (pc, ap (λ (w : Worker). w.pc) (rest i lt)))
resting_worker n s i lt (_, rest) (posts pc) =
    absurd (cc (pc, ap (λ (w : Worker). w.pc) (rest i lt)))

pub sum_below-zero : (n : ℕ) → sum_below n (λ _. 0) ≡ 0
sum_below-zero zero = refl
sum_below-zero (suc n) = omega (arith, sum_below-zero n)

pub sum_below-le : (n : ℕ) (f : ℕ → ℕ) → ((i : ℕ) → i < n → f i ≤ 1) → sum_below n f ≤ n
sum_below-le zero f le = omega arith
sum_below-le (suc n) f le =
    omega (arith, le n (omega arith), sum_below-le n f (λ i lt. le i (omega arith)))

sum_below_full :
    (n : ℕ) (f : ℕ → ℕ)
    → ((i : ℕ) → i < n → f i ≤ 1)
    → n ≤ sum_below n f
    → (i : ℕ) → i < n
    → f i ≡ 1
sum_below_full zero f le full i lt = absurd (omega arith)
sum_below_full (suc n) f le full i lt =
    let below = sum_below-le n f (λ i lt. le i (omega arith)) in
    elim (compare_cases i n) [
      | inl e ↦ rw e (omega (arith, le n (omega arith), below, full))
      | inr (inl less) ↦
          sum_below_full n f (λ i lt. le i (omega arith)) (omega (arith, le n (omega arith), full))
            i less
      | inr (inr more) ↦ absurd (omega arith)
    ]

Woken-le : (act : ℕ) (w : Worker) (f : ℕ) → Woken act w f → f ≤ 1
Woken-le act w f (posted _ z) = omega arith
Woken-le act w f (at_work _ z) = omega arith
Woken-le act w f (called _ z) = omega arith
Woken-le act w f (finished _ z) = omega arith

pub finished-le :
    (n : ℕ) (s : Pool) (act joined : ℕ) (b : IsBusy n s act n joined) (i : ℕ)
    → i < n
    → b.finished i ≤ 1
finished-le n s act joined b i lt = Woken-le act (s.workers i) (b.finished i) (b.woken i lt lt)

-- A worker that has finished.
abbrev pub Finished : ℕ → Worker → Type 0
Finished act w = w ≡ record { pc = sleeping; start_semaphore = 0; calls = some act ∷ [] }

Woken-Finished : (act : ℕ) (w : Worker) (f : ℕ) → Woken act w f → f ≡ 1 → Finished act w
Woken-Finished act w f (posted _ z) one = absurd (omega arith)
Woken-Finished act w f (at_work _ z) one = absurd (omega arith)
Woken-Finished act w f (called _ z) one = absurd (omega arith)
Woken-Finished act w f (finished e _) one = e

-- When all waits are over, all workers have finished.
pub IsBusy-Finished :
    (n : ℕ) (s : Pool) (act : ℕ)
    → IsBusy n s act n n
    → (s.join_semaphore ≡ 0) × ((i : ℕ) → i < n → Finished act (s.workers i))
IsBusy-Finished n s act b = (
  omega (arith, b.count, sum_below-le n b.finished (finished-le n s act n b)),
  λ i lt.
      Woken-Finished act (s.workers i) (b.finished i) (b.woken i lt lt)
        (sum_below_full n b.finished (finished-le n s act n b) (omega (arith, b.count)) i lt),
)
