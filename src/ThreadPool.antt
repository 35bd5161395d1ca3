-- ===== src/ThreadPool.antt =====
-- src/runtime/gc-thread-pool.c: the threads that run a function for the collector, interleaved at
-- every access of a semaphore. Functions are numbers, and a null pointer is `none`.
pub mod Invariant
pub mod Progress
mod Tests
use cl.Common.{ℕ, ◌+◌, ◌-◌, ◌≤◌, ◌<◌, ◌≡◌, Option, none, some, List, [], ◌∷◌, assign}

-- Where a worker stands in its loop.
pub data WorkerPc : Type 0 where
  sleeping : WorkerPc  -- in `os_sem_wait(start_semaphores + i)`
  awake : WorkerPc  -- before `action()`
  acted : WorkerPc  -- before `os_sem_post(&join_semaphore)`

-- Where the thread of the collector stands. `act` is the argument of `run_on_thread_pool`.
pub data MainPc : Type 0 where
  outside : MainPc
  waking : (act i : ℕ) → MainPc  -- in `wake_gc_threads`, at worker `i`
  joining : (act i : ℕ) → MainPc  -- in `join_gc_threads`, after `i` waits

-- A worker: its place, its start semaphore, and the functions that it called since
-- `run_on_thread_pool` was entered.
pub record Worker : Type 0 where
  pub pc : WorkerPc
  pub start_semaphore : ℕ
  pub calls : List (Option ℕ)

pub record Pool : Type 0 where
  pub main : MainPc
  pub workers : ℕ → Worker
  pub join_semaphore : ℕ
  pub action : Option ℕ

abbrev pub with_worker : Pool → ℕ → Worker → Pool
with_worker s i w = record s { workers = assign s.workers i w }

-- The workers forget their calls when `run_on_thread_pool` is entered.
abbrev pub forget : Worker → Worker
forget w = record w { calls = [] }

-- A step of one of the `n` workers, worker `i`. A semaphore is waited for until it is above 0.
pub data WorkerStep (s : Pool) (i : ℕ) : Pool → Type 0 where
  takes :
      (s.workers i).pc ≡ sleeping
      → 0 < (s.workers i).start_semaphore
      → WorkerStep s i (
          with_worker s i (record (s.workers i) {
            pc = awake;
            start_semaphore = (s.workers i).start_semaphore - 1;
          }))
  acts :
      (s.workers i).pc ≡ awake
      → WorkerStep s i (
          with_worker s i
            (record (s.workers i) { pc = acted; calls = s.action ∷ (s.workers i).calls }))
  posts :
      (s.workers i).pc ≡ acted
      → WorkerStep s i (record (with_worker s i (record (s.workers i) { pc = sleeping })) {
        join_semaphore = s.join_semaphore + 1;
      })

-- A step of the pool of `n` workers. The collector's own call of the function comes after all posts.
pub data Step (n : ℕ) (s : Pool) : Pool → Type 0 where
  enter :
      (act : ℕ)
      → s.main ≡ outside
      → Step n s
          (record s { main = waking act 0; action = some act; workers = λ i. forget (s.workers i) })
  post :
      {act i : ℕ}
      → s.main ≡ waking act i
      → i < n
      → Step n s
          (record (with_worker s i
            (record (s.workers i) { start_semaphore = (s.workers i).start_semaphore + 1 })) {
              main = waking act (i + 1);
            })
  acts_too : {act : ℕ} → s.main ≡ waking act n → Step n s (record s { main = joining act 0 })
  wait :
      {act i : ℕ}
      → s.main ≡ joining act i
      → i < n
      → 0 < s.join_semaphore
      → Step n s (record s { main = joining act (i + 1); join_semaphore = s.join_semaphore - 1 })
  leave : {act : ℕ} → s.main ≡ joining act n → Step n s (record s { main = outside; action = none })
  worker : {s' : Pool} (i : ℕ) → i < n → WorkerStep s i s' → Step n s s'

-- After `thread_pool_init`.
abbrev pub initial : Pool
initial = record {
  main = outside;
  workers = λ _. record { pc = sleeping; start_semaphore = 0; calls = [] };
  join_semaphore = 0;
  action = none;
}

pub data Reach (n : ℕ) : Pool → Type 0 where
  start : Reach n initial
  step : {s s' : Pool} → Reach n s → Step n s s' → Reach n s'
