-- ===== src/TinyLock/Invariant.antt =====
-- Mutual exclusion and the absence of lost wake-ups, for exchanges that do not fail spuriously.
use cl.Common.{
  ℕ, ◌+◌, ◌-◌, ◌%◌, ◌^◌, ◌≤◌, ◌<◌, ◌≡◌, ◌≢◌, refl, arith, ◌⊎◌, inl, inr, Bool, true, false, ◌==◌,
  if◌then◌else◌, Bool-cases, compare_cases,
}
use cl.TinyLock.{
  Pc, idle, looping, waiting, asleep, retry, critical, reset, wake, Cmpxchg, exchanged, differs,
  spurious, taken_or_looping, Move, first, is_two, mark, sleep, no_sleep, interrupted, again,
  release, clear, try_win, try_lose, update, System, Step, pick, wake_one, wake_none, Reach, start,
  later,
}

-- The thread owns the lock.
abbrev pub owns : Pc → Bool
owns critical = true
owns reset = true
owns _ = false

-- The thread will look at the word again, or wake another.
abbrev pub alert : Pc → Bool
alert (looping c) = true
alert waiting = true
alert retry = true
alert reset = true
alert wake = true
alert _ = false

-- Why a sleeping thread is not forgotten.
abbrev pub Watched : ℕ → (ℕ → Pc) → Type 0
Watched word pc = (word ≡ 2) ⊎ ((j : ℕ) × (alert (pc j) ≡ true))

pub record Inv (word : ℕ) (pc : ℕ → Pc) : Type 0 where
  pub small : word ≤ 2
  pub held : (i : ℕ) → owns (pc i) ≡ true → 0 < word
  pub unique : (i j : ℕ) → owns (pc i) ≡ true → owns (pc j) ≡ true → i ≡ j
  pub owned : 0 < word → (i : ℕ) × (owns (pc i) ≡ true)
  pub watched : (i : ℕ) → pc i ≡ asleep → Watched word pc

-- What a move does to ownership and to the watch over sleeping threads.
data Effect (word : ℕ) (p : Pc) (w : ℕ) (p' : Pc) : Type 0 where
  take :
      owns p ≡ false
      → word ≡ 0
      → 0 < w
      → w ≤ 2
      → p' ≡ critical
      → (w ≡ 2) ⊎ (alert p ≡ false)
      → Effect word p w p'
  stay :
      owns p ≡ false
      → owns p' ≡ false
      → w ≡ word
      → (alert p' ≡ true) ⊎ (((p' ≡ asleep) × (w ≡ 2)) ⊎ ((alert p ≡ false) × (p' ≡ idle)))
      → Effect word p w p'
  set_two : owns p ≡ false → word ≡ 1 → w ≡ 2 → p' ≡ waiting → Effect word p w p'
  drop : p ≡ critical → word ≡ 1 → w ≡ 0 → p' ≡ idle → Effect word p w p'
  half : p ≡ critical → word ≡ 2 → w ≡ 1 → p' ≡ reset → Effect word p w p'
  cleared : p ≡ reset → w ≡ 0 → p' ≡ wake → Effect word p w p'

module _ {word : ℕ} (small : word ≤ 2) where
  acquire_effect :
      {p : Pc} {new w r : ℕ}
      → owns p ≡ false
      → 0 < new
      → new ≤ 2
      → (new ≡ 2) ⊎ (alert p ≡ false)
      → Cmpxchg false word 0 new w r
      → Effect word p w (taken_or_looping r)
  acquire_effect o pos le watch (exchanged a b c) =
      take o a (omega arith) (omega arith) (ground arith) (ground arith)
  acquire_effect o pos le watch (differs a b c) = stay o (ground arith) b (inl (ground arith))
  acquire_effect o pos le watch (spurious s a b c) = cc

  mark_effect :
      {c w r : ℕ}
      → Cmpxchg false word 1 2 w r
      → Effect word (looping c) w (if r == 0 then retry else waiting)
  mark_effect (exchanged a b c) = set_two refl a b (ground arith)
  mark_effect (differs a b c) = stay refl (ground arith) b (inl (ground arith))
  mark_effect (spurious s a b c) = cc

  release_effect :
      0 < word
      → Effect word critical ((word + 2 ^ 32 - 1) % 2 ^ 32) (if word == 1 then idle else reset)
  release_effect pos = elim (Bool-cases (word == 1)) [
    | inl e ↦ drop refl (ground arith) (ground arith) (ground arith)
    | inr e ↦ half refl (ground arith) (ground arith) (ground arith)
  ]

  Move-Effect :
      {p p' : Pc} {w : ℕ} → (owns p ≡ true → 0 < word) → Move false word p w p' → Effect word p w p'
  Move-Effect held (first x) = acquire_effect refl (omega arith) (omega arith) (inr refl) x
  Move-Effect held (is_two c) = stay refl refl refl (inl refl)
  Move-Effect held (mark n x) = mark_effect x
  Move-Effect held (sleep h) = stay refl refl refl (inr (inl (refl, h)))
  Move-Effect held (no_sleep h) = stay refl refl refl (inl refl)
  Move-Effect held interrupted = stay refl refl refl (inl refl)
  Move-Effect held (again x) = acquire_effect refl (omega arith) (omega arith) (inl refl) x
  Move-Effect held release = release_effect (held refl)
  Move-Effect held clear = cleared refl refl refl
  Move-Effect held (try_win h) = take refl h (omega arith) (omega arith) refl (inr refl)
  Move-Effect held (try_lose h) = stay refl refl refl (inr (inr (refl, refl)))

-- The thread that watched before, if it was another one.
other_watches :
    {word v : ℕ} {pc : ℕ → Pc} (p : Pc) (inv : Inv word pc) (i : ℕ)
    → word ≢ 2
    → (alert (pc i) ≡ false) ⊎ (v ≡ 2)
    → (k : ℕ) → pc k ≡ asleep
    → Watched v (update pc i p)
other_watches p inv i n c k h = elim (inv.watched k h) [
  | inl e ↦ absurd (n e)
  | inr (j, a) ↦ elim c [ inl quiet ↦ inr (j, ground arith) | inr e ↦ inl e ]
]

module _ {word w : ℕ} {pc : ℕ → Pc} {p : Pc} (inv : Inv word pc) (i : ℕ) where
  Effect-small : Effect word (pc i) w p → w ≤ 2
  Effect-small (take a b c d e f) = d
  Effect-small (stay a b c d) = omega (arith, inv.small)
  Effect-small (set_two a b c d) = omega arith
  Effect-small (drop a b c d) = omega arith
  Effect-small (half a b c d) = omega arith
  Effect-small (cleared a b c) = omega arith

  Effect-held : Effect word (pc i) w p → (j : ℕ) → owns (update pc i p j) ≡ true → 0 < w
  Effect-held (take a b c d e f) j h = c
  Effect-held (stay a b c d) j h = ground (arith, inv.held j)
  Effect-held (set_two a b c d) j h = omega arith
  Effect-held (drop a b c d) j h = ground (arith, inv.unique i j)
  Effect-held (half a b c d) j h = omega arith
  Effect-held (cleared a b c) j h = ground (arith, inv.unique i j)

  Effect-unique :
      Effect word (pc i) w p
      → (j k : ℕ) → owns (update pc i p j) ≡ true
      → owns (update pc i p k) ≡ true
      → j ≡ k
  Effect-unique (take a b c d e f) j k hj hk = ground (arith, inv.held j, inv.held k)
  Effect-unique (stay a b c d) j k hj hk = ground (arith, inv.unique j k)
  Effect-unique (set_two a b c d) j k hj hk = ground (arith, inv.unique j k)
  Effect-unique (drop a b c d) j k hj hk = ground (arith, inv.unique j k)
  Effect-unique (half a b c d) j k hj hk =
      ground (arith, inv.unique j k, inv.unique i j, inv.unique i k)
  Effect-unique (cleared a b c) j k hj hk = ground (arith, inv.unique j k)

  Effect-owned : Effect word (pc i) w p → 0 < w → (j : ℕ) × (owns (update pc i p j) ≡ true)
  Effect-owned (take a b c d e f) h = (i, ground arith)
  Effect-owned (stay a b c d) h = let (j, o) = inv.owned (omega arith) in (j, ground arith)
  Effect-owned (set_two a b c d) h = let (j, o) = inv.owned (omega arith) in (j, ground arith)
  Effect-owned (drop a b c d) h = absurd (omega arith)
  Effect-owned (half a b c d) h = (i, ground arith)
  Effect-owned (cleared a b c) h = absurd (omega arith)

  Effect-Watched :
      Effect word (pc i) w p → (k : ℕ) → update pc i p k ≡ asleep → Watched w (update pc i p)
  Effect-Watched (take a b c d e (inl f)) k h = inl f
  Effect-Watched (take a b c d e (inr f)) k h =
      other_watches p inv i (omega arith) (inl f) k (ground arith)
  Effect-Watched (stay a b c (inl d)) k h = inr (i, ground arith)
  Effect-Watched (stay a b c (inr (inl d))) k h = inl d.1
  Effect-Watched (stay a b c (inr (inr d))) k h = elim (compare_cases word 2) [
    | inl e ↦ inl (omega arith)
    | inr (inl lt) ↦ other_watches p inv i (omega arith) (inl d.0) k (ground arith)
    | inr (inr gt) ↦ other_watches p inv i (omega arith) (inl d.0) k (ground arith)
  ]
  Effect-Watched (set_two a b c d) k h = inl c
  Effect-Watched (drop a b c d) k h =
      other_watches p inv i (omega arith) (inl (ground arith)) k (ground arith)
  Effect-Watched (half a b c d) k h = inr (i, ground arith)
  Effect-Watched (cleared a b c) k h = inr (i, ground arith)

  Effect-Inv : Effect word (pc i) w p → Inv w (update pc i p)
  Effect-Inv f = record {
    small = Effect-small f;
    held = Effect-held f;
    unique = Effect-unique f;
    owned = Effect-owned f;
    watched = Effect-Watched f;
  }

module _ {word : ℕ} {pc : ℕ → Pc} (inv : Inv word pc) (i j : ℕ) where
  wake_one-Inv : pc i ≡ wake → pc j ≡ asleep → Inv word (update (update pc i idle) j retry)
  wake_one-Inv wi aj = record {
    small = inv.small;
    held = λ k h. ground (arith, inv.held k);
    unique = λ k l hk hl. ground (arith, inv.unique k l);
    owned = λ h. let (k, o) = inv.owned h in (k, ground arith);
    watched = λ k h. inr (j, ground arith);
  }

wake_none-Inv :
    {word : ℕ} {pc : ℕ → Pc} (i : ℕ)
    → Inv word pc
    → pc i ≡ wake
    → ((j : ℕ) → pc j ≢ asleep)
    → Inv word (update pc i idle)
wake_none-Inv i inv wi quiet = record {
  small = inv.small;
  held = λ k h. ground (arith, inv.held k);
  unique = λ k l hk hl. ground (arith, inv.unique k l);
  owned = λ h. let (k, o) = inv.owned h in (k, ground arith);
  watched = λ k h. absurd (ground (arith, quiet k));
}

-- Every step of threads whose exchanges do not fail spuriously keeps the invariant.
pub Step-Inv : {s t : System} → Step false s t → Inv s.grabbed s.pc → Inv t.grabbed t.pc
Step-Inv (pick i m) inv = Effect-Inv inv i (Move-Effect inv.small (inv.held i) m)
Step-Inv (wake_one i j a b) inv = wake_one-Inv inv i j a b
Step-Inv (wake_none i a b) inv = wake_none-Inv i inv a b

pub Reach-Inv : {s : System} → Reach false s → Inv s.grabbed s.pc
Reach-Inv start = record {
  small = omega arith;
  held = λ i h. cc;
  unique = λ i j h. cc;
  owned = λ h. absurd (omega arith);
  watched = λ i h. cc;
}
Reach-Inv (later r st) = Step-Inv st (Reach-Inv r)
