-- ===== src/TinyLock.antt =====
-- src/runtime/tiny-lock.h with futexes: threads that take and release one lock, interleaved at
-- every access of its word.
pub mod Invariant
pub mod Safety
mod Tests
use cl.Common.{ℕ, ◌+◌, ◌-◌, ◌%◌, ◌^◌, ◌≡◌, ◌≢◌, Bool, true, false, ◌==◌, if◌then◌else◌}

-- Where a thread stands, with its local variable `c`.
pub data Pc : Type 0 where
  idle : Pc  -- outside: `acquire_lock` or `try_acquire_lock` may follow
  looping : (c : ℕ) → Pc  -- head of the `do` loop
  waiting : Pc  -- before the call of `futex_wait`
  asleep : Pc  -- in the kernel, in that call
  retry : Pc  -- before the `cmpxchg(l, 0, 2)` of the loop's test
  critical : Pc  -- the lock is taken
  reset : Pc  -- `release_lock`, before `l->grabbed = 0`
  wake : Pc  -- `release_lock`, before `futex_wake`

-- `cmpxchg`: the word afterwards, and the value of `old` that it returns. A weak exchange may fail
-- although the word is the expected one, and then `old` still holds the expected value.
pub data Cmpxchg (weak : Bool) (word : ℕ) (old new : ℕ) : ℕ → ℕ → Type 0 where
  exchanged : {w r : ℕ} → word ≡ old → w ≡ new → r ≡ old → Cmpxchg weak word old new w r
  differs : {w r : ℕ} → word ≢ old → w ≡ word → r ≡ word → Cmpxchg weak word old new w r
  spurious :
      {w r : ℕ} → weak ≡ true → word ≡ old → w ≡ word → r ≡ old → Cmpxchg weak word old new w r

-- The test behind a `cmpxchg` that tries to take the lock: it is taken if the result is 0.
abbrev pub taken_or_looping : ℕ → Pc
taken_or_looping c = if c == 0 then critical else looping c

-- One step of one thread: the word and the thread's place, before and after. The word is a 32-bit
-- pattern, and `atomic_fetch_sub` wraps around.
pub data Move (weak : Bool) (word : ℕ) : Pc → ℕ → Pc → Type 0 where
  first : {w r : ℕ} → Cmpxchg weak word 0 1 w r → Move weak word idle w (taken_or_looping r)
  is_two : {c : ℕ} → c ≡ 2 → Move weak word (looping c) word waiting
  mark :
      {c w r : ℕ}
      → c ≢ 2
      → Cmpxchg weak word 1 2 w r
      → Move weak word (looping c) w (if r == 0 then retry else waiting)
  sleep : word ≡ 2 → Move weak word waiting word asleep
  no_sleep : word ≢ 2 → Move weak word waiting word retry
  interrupted : Move weak word asleep word retry
  again : {w r : ℕ} → Cmpxchg weak word 0 2 w r → Move weak word retry w (taken_or_looping r)
  release :
      Move weak word critical ((word + 2 ^ 32 - 1) % 2 ^ 32) (if word == 1 then idle else reset)
  clear : Move weak word reset 0 wake
  try_win : word ≡ 0 → Move weak word idle 1 critical
  try_lose : word ≢ 0 → Move weak word idle word idle

abbrev pub update : (ℕ → Pc) → ℕ → Pc → ℕ → Pc
update pc i p j = if i == j then p else pc j

pub record System : Type 0 where
  pub grabbed : ℕ
  pub pc : ℕ → Pc

-- `futex_wake(&l->grabbed, 1)` lets one sleeping thread return from `futex_wait`, if any sleeps.
pub data Step (weak : Bool) (s : System) : System → Type 0 where
  pick :
      (i : ℕ) {w : ℕ} {p : Pc}
      → Move weak s.grabbed (s.pc i) w p
      → Step weak s (record { grabbed = w; pc = update s.pc i p })
  wake_one :
      (i j : ℕ)
      → s.pc i ≡ wake
      → s.pc j ≡ asleep
      → Step weak s (record { grabbed = s.grabbed; pc = update (update s.pc i idle) j retry })
  wake_none :
      (i : ℕ)
      → s.pc i ≡ wake
      → ((j : ℕ) → s.pc j ≢ asleep)
      → Step weak s (record { grabbed = s.grabbed; pc = update s.pc i idle })

-- `LOCK_INITIALIZER`
abbrev pub initial : System
initial = record { grabbed = 0; pc = λ _. idle }

pub data Reach (weak : Bool) : System → Type 0 where
  start : Reach weak initial
  later : {s t : System} → Reach weak s → Step weak s t → Reach weak t
