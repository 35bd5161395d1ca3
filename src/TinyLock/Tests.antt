-- ===== src/TinyLock/Tests.antt =====
-- Runs of two threads, and the theorems at reachable states.
use cl.Common.{ℕ, ◌≡◌, ◌≢◌, refl, arith, ◌⊎◌, true, false}
use cl.TinyLock.{
  idle, looping, waiting, asleep, critical, exchanged, differs, first, mark, sleep, update, System,
  pick, Reach, start, later,
}
use cl.TinyLock.Invariant.{owns, alert}
use cl.TinyLock.Safety.{mutual_exclusion, no_lost_wake}

abbrev one_in : System
one_in = record { grabbed = 1; pc = update (λ _. idle) 0 critical }

thread_zero_in : Reach false one_in
thread_zero_in = later start (pick 0 (first (exchanged {r = 0} refl refl refl)))

-- Thread 1 finds the lock taken, marks the word and goes to sleep.
abbrev one_sleeps : System
one_sleeps = record {
  grabbed = 2;
  pc = update (update (update one_in.pc 1 (looping 1)) 1 waiting) 1 asleep;
}

thread_one_sleeps : Reach false one_sleeps
thread_one_sleeps =
    later
      (later (later thread_zero_in (pick 1 (first (differs {r = 1} (omega arith) refl refl))))
        (pick 1 (mark (omega arith) (exchanged {r = 1} refl refl refl))))
      (pick 1 (sleep refl))

mutual_exclusion_example : ◌≡◌ {A = ℕ} 0 0
mutual_exclusion_example = mutual_exclusion 0 0 thread_one_sleeps refl refl

no_lost_wake_example :
    (j : ℕ) × (j ≢ 1) × ((owns (one_sleeps.pc j) ≡ true) ⊎ (alert (one_sleeps.pc j) ≡ true))
no_lost_wake_example = no_lost_wake 1 thread_one_sleeps refl
