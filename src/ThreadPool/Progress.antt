-- ===== src/ThreadPool/Progress.antt =====
-- `run_on_thread_pool` of src/runtime/gc-thread-pool.c calls the function once on every worker, and
-- does not get stuck.
use cl.Common.{
  ℕ, zero, suc, ◌+◌, ◌≤◌, ◌<◌, ◌≡◌, ◌≢◌, refl, ap, sym, ◌∙◌, arith, inl, inr, Bool-cases, ◌==◌,
  compare_cases, none, some, sum_below,
}
use mathlib.Core.Path.{subst}
use cl.ThreadPool.{
  awake, MainPc, outside, waking, joining, Worker, Pool, with_worker, forget, WorkerStep, takes,
  acts, posts, Step, enter, post, acts_too, wait, leave, worker, Reach, start, step,
}
use cl.ThreadPool.Invariant.{
  Woken, posted, at_work, called, finished, IsBusy, IsResting, InvariantAt, Invariant, replaced,
  worker-IsBusy, resting_worker, sum_below-zero, finished-le, Finished, IsBusy-Finished,
}

entered :
    (n : ℕ) (s : Pool) (act : ℕ)
    → IsResting n s
    → IsBusy n
        (record s { main = waking act 0; action = some act; workers = λ i. forget (s.workers i) })
        act
        0
        0
entered n s act (join, rest) = record {
  finished = λ _. 0;
  action = refl;
  woken = λ i _ lt. absurd (omega arith);
  others = λ i lt _. (rest i lt, refl);
  count = omega (arith, join, sum_below-zero n);
}

-- The next worker is woken.
posted_next :
    (n : ℕ) (s : Pool) (act i : ℕ)
    → i < n
    → IsBusy n s act i 0
    → IsBusy n
        (with_worker s i
          (record (s.workers i) { start_semaphore = (s.workers i).start_semaphore + 1 }))
        act
        (i + 1)
        0
posted_next n s act i lt b =
    let (e, z) = b.others i lt (omega arith) in
    replaced n s act i 0 i lt b _ 0 (i + 1) s.join_semaphore
      (λ _.
        posted (ap (λ (w : Worker). record w { start_semaphore = w.start_semaphore + 1 }) e) refl)
      (omega arith) (λ j ne h. omega (arith, ne)) (λ j ne h. omega arith) (omega (arith, z))

Invariant-worker :
    (n : ℕ) (s : Pool) (i : ℕ) {s' : Pool} (m : MainPc)
    → i < n
    → WorkerStep s i s'
    → InvariantAt n s m
    → InvariantAt n s' m
Invariant-worker n s i outside lt w v = absurd (resting_worker n s i lt v w)
Invariant-worker n s i (waking act k) lt w (le, b) = (le, worker-IsBusy n s act k 0 i lt b w)
Invariant-worker n s i (joining act k) lt w (le, b) = (le, worker-IsBusy n s act n k i lt b w)

WorkerStep-main : {s : Pool} {i : ℕ} {s' : Pool} → WorkerStep s i s' → s'.main ≡ s.main
WorkerStep-main (takes _ _) = refl
WorkerStep-main (acts _) = refl
WorkerStep-main (posts _) = refl

Invariant-Step : (n : ℕ) (s s' : Pool) → Invariant n s → Step n s s' → Invariant n s'
Invariant-Step n s _ v (enter act at) =
    (omega arith, entered n s act (subst (InvariantAt n s) at v))
Invariant-Step n s _ v (post {act = act} {i = i} at lt) =
    let (le, b) = subst (InvariantAt n s) at v in
    let c = posted_next n s act i lt b in
    (
      omega arith,
      record {
        finished = c.finished;
        action = c.action;
        woken = c.woken;
        others = c.others;
        count = c.count;
      },
    )
Invariant-Step n s _ v (acts_too {act = act} at) =
    let (le, b) = subst (InvariantAt n s) at v in
    (
      omega arith,
      record {
        finished = b.finished;
        action = b.action;
        woken = b.woken;
        others = b.others;
        count = b.count;
      },
    )
Invariant-Step n s _ v (wait {act = act} {i = i} at lt some_left) =
    let (le, b) = subst (InvariantAt n s) at v in
    (
      omega arith,
      record {
        finished = b.finished;
        action = b.action;
        woken = b.woken;
        others = b.others;
        count = omega (arith, b.count, some_left);
      },
    )
Invariant-Step n s _ v (leave {act = act} at) =
    let (le, b) = subst (InvariantAt n s) at v in
    let (join, all) = IsBusy-Finished n s act b in (join, λ i lt. ap forget (all i lt))
Invariant-Step n s s' v (worker i lt w) =
    subst (InvariantAt n s') (sym (WorkerStep-main w)) (Invariant-worker n s i s.main lt w v)

pub Reach-Invariant : {n : ℕ} {s : Pool} → Reach n s → Invariant n s
Reach-Invariant start = (refl, λ i lt. refl)
Reach-Invariant {n} (step {s = s} {s' = s'} r st) = Invariant-Step n s s' (Reach-Invariant r) st

-- A worker that has not finished.
unfinished :
    (n : ℕ) (f : ℕ → ℕ)
    → ((i : ℕ) → i < n → f i ≤ 1)
    → sum_below n f < n
    → (i : ℕ) × (i < n) × (f i ≡ 0)
unfinished zero f le less = absurd (omega arith)
unfinished (suc n) f le less = elim (Bool-cases (f n == 0)) [
  | inl e ↦ (n, omega arith, ground (arith, e))
  | inr e ↦
      let (i, lt, z) = unfinished n f (λ i lt. le i (omega arith)) (ground (arith, e, less)) in
      (i, omega arith, z)
]

woken_steps :
    (n : ℕ) (s : Pool) (act i f : ℕ)
    → i < n
    → Woken act (s.workers i) f
    → f ≡ 0
    → (s' : Pool) × Step n s s'
woken_steps n s act i f lt (posted e _) z = (
  _,
  worker i lt (
      takes (ap (λ (w : Worker). w.pc) e)
        (omega (arith, ap (λ (w : Worker). w.start_semaphore) e))),
)
woken_steps n s act i f lt (at_work e _) z = (_, worker i lt (acts (ap (λ (w : Worker). w.pc) e)))
woken_steps n s act i f lt (called e _) z = (_, worker i lt (posts (ap (λ (w : Worker). w.pc) e)))
woken_steps n s act i f lt (finished _ one) z = absurd (omega (arith, one, z))

next_step :
    (n : ℕ) (s : Pool) (m : MainPc)
    → s.main ≡ m
    → m ≢ outside
    → InvariantAt n s m
    → (s' : Pool) × Step n s s'
next_step n s outside at busy v = absurd (busy refl)
next_step n s (waking act i) at _ (le, b) = elim (compare_cases i n) [
  | inl e ↦ (_, acts_too (at ∙ ap (waking act) e))
  | inr (inl lt) ↦ (_, post at lt)
  | inr (inr gt) ↦ absurd (omega arith)
]
next_step n s (joining act k) at _ (le, b) = elim (compare_cases k n) [
  | inl e ↦ (_, leave (at ∙ ap (joining act) e))
  | inr (inl lt) ↦ elim (Bool-cases (s.join_semaphore == 0)) [
    | inl none_left ↦
        let (i, less, z) =
          unfinished n b.finished (finished-le n s act k b) (ground (arith, b.count, none_left)) in
        woken_steps n s act i (b.finished i) less (b.woken i less less) z
    | inr some_left ↦ (_, wait at lt (ground (arith, some_left)))
  ]
  | inr (inr gt) ↦ absurd (omega arith)
]

never_null :
    (n : ℕ) (s : Pool) (i : ℕ) (m : MainPc)
    → i < n
    → (s.workers i).pc ≡ awake
    → InvariantAt n s m
    → s.action ≢ none
never_null n s i outside lt pc (_, rest) = absurd (cc (pc, ap (λ (w : Worker). w.pc) (rest i lt)))
never_null n s i (waking act k) lt pc (_, b) = λ e. absurd (cc (e, b.action))
never_null n s i (joining act k) lt pc (_, b) = λ e. absurd (cc (e, b.action))

-- How a call of `run_on_thread_pool` goes, in any order of the steps.
pub record Completes (n : ℕ) (s : Pool) : Type 0 where
  pub returned :
      {act : ℕ}
      → s.main ≡ joining act n
      → (s.join_semaphore ≡ 0) × ((i : ℕ) → i < n → Finished act (s.workers i))
  pub action : {i : ℕ} → i < n → (s.workers i).pc ≡ awake → s.action ≢ none
  pub moves : s.main ≢ outside → (s' : Pool) × Step n s s'

-- In every state that the pool reaches: when the waits of `run_on_thread_pool` are over, each worker
-- has called the function once and nothing else, all workers are back in their waits and all
-- semaphores are at 0; no worker that is about to call the function finds a null pointer; and
-- until `run_on_thread_pool` returns some thread has a step to take.
pub Reach-Completes : {n : ℕ} {s : Pool} → Reach n s → Completes n s
Reach-Completes {n} {s} r =
    let v = Reach-Invariant r in
    record {
      returned = λ {act} at. IsBusy-Finished n s act ((subst (InvariantAt n s) at v).1);
      action = λ {i} lt pc. never_null n s i s.main lt pc v;
      moves = λ busy. next_step n s s.main refl busy v;
    }
