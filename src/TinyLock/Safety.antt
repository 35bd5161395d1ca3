-- ===== src/TinyLock/Safety.antt =====
-- What holds of the lock in every reachable state, and what a spurious failure of a weak exchange
-- breaks.
use cl.Common.{ℕ, ◌≡◌, ◌≢◌, refl, arith, ◌⊎◌, inl, inr, true, false}
use cl.TinyLock.{idle, asleep, critical, spurious, first, update, System, pick, Reach, start, later}
use cl.TinyLock.Invariant.{owns, alert, Reach-Inv}

-- If no exchange fails spuriously, two threads are never past `acquire_lock` or a successful
-- `try_acquire_lock` and before `l->grabbed = 0` of `release_lock` together.
pub mutual_exclusion :
    {s : System} (i j : ℕ) → Reach false s → owns (s.pc i) ≡ true → owns (s.pc j) ≡ true → i ≡ j
mutual_exclusion i j r hi hj = (Reach-Inv r).unique i j hi hj

-- If no exchange fails spuriously, no wake-up is lost: while a thread sleeps in `futex_wait`, some
-- other thread owns the lock or has still to look at its word or to wake a sleeper.
pub no_lost_wake :
    {s : System} (i : ℕ)
    → Reach false s
    → s.pc i ≡ asleep
    → (j : ℕ) × (j ≢ i) × ((owns (s.pc j) ≡ true) ⊎ (alert (s.pc j) ≡ true))
no_lost_wake {s} i r h = elim ((Reach-Inv r).watched i h) [
  | inl e ↦ let (j, o) = (Reach-Inv r).owned (omega arith) in (j, ground arith, inl o)
  | inr (j, a) ↦ (j, ground arith, inr a)
]

-- `cmpxchg` returns `old`, which a weak exchange that fails spuriously leaves at 0: the caller
-- takes that for success, and two threads hold the lock at once.
pub weak_exchange_breaks_exclusion :
    ¬ ((s : System) (i j : ℕ) → Reach true s → owns (s.pc i) ≡ true → owns (s.pc j) ≡ true → i ≡ j)
weak_exchange_breaks_exclusion all = cc (all _ 0 1 both refl refl)
  where
    both :
        Reach true (record { grabbed = 0; pc = update (update (λ _. idle) 0 critical) 1 critical })
    both =
        later (later start (pick 0 (first (spurious {r = 0} refl refl refl refl))))
          (pick 1 (first (spurious {r = 0} refl refl refl refl)))
