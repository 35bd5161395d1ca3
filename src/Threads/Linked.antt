-- ===== src/Threads/Linked.antt =====
-- The links of the threads stand for a list of threads.
use cl.Common.{ℕ, ◌≡◌, ◌≢◌, refl, sym, ◌∙◌, arith, List, [], ◌∷◌, ◌++◌}
use cl.Threads.{Threads, link_thread, unlink_thread}

-- The thread is none of the list.
abbrev pub Apart : ℕ → List ℕ → Type 0
Apart th [] = Unit
Apart th (x ∷ xs) = (th ≢ x) × Apart th xs

abbrev pub AllApart : List ℕ → Type 0
AllApart [] = Unit
AllApart (x ∷ xs) = Apart x xs × AllApart xs

-- From `first` on, with `before` in front of it, the links go through the list and end in null.
abbrev pub IsChain : Threads → ℕ → ℕ → List ℕ → Type 0
IsChain s before first [] = first ≡ 0
IsChain s before first (x ∷ xs) =
    (first ≡ x) × (x ≢ 0) × (s.prev x ≡ before) × IsChain s x (s.next x) xs

abbrev pub SameLinks : Threads → Threads → List ℕ → Type 0
SameLinks s s' [] = Unit
SameLinks s s' (x ∷ xs) = (s'.next x ≡ s.next x) × (s'.prev x ≡ s.prev x) × SameLinks s s' xs

pub IsChain-same :
    (s s' : Threads) (before first : ℕ) (xs : List ℕ)
    → SameLinks s s' xs
    → IsChain s before first xs
    → IsChain s' before first xs
IsChain-same s s' before first [] same c = c
IsChain-same s s' before first (x ∷ xs) (n, p, same) (e, pos, at, rest) =
    (e, pos, p ∙ at, rw n (IsChain-same s s' x (s.next x) xs same rest))

pub Apart-append : (th : ℕ) (xs ys : List ℕ) → Apart th (xs ++ ys) → Apart th xs × Apart th ys
Apart-append th [] ys a = (tt, a)
Apart-append th (x ∷ xs) ys (ne, a) = let (l, r) = Apart-append th xs ys a in ((ne, l), r)

pub append-Apart : (th : ℕ) (xs ys : List ℕ) → Apart th xs → Apart th ys → Apart th (xs ++ ys)
append-Apart th [] ys a b = b
append-Apart th (x ∷ xs) ys (ne, a) b = (ne, append-Apart th xs ys a b)

pub AllApart-remove :
    (xs : List ℕ) (th : ℕ) (ys : List ℕ) → AllApart (xs ++ (th ∷ ys)) → AllApart (xs ++ ys)
AllApart-remove [] th ys (a, rest) = rest
AllApart-remove (x ∷ xs) th ys (a, rest) =
    let (l, (ne, r)) = Apart-append x xs (th ∷ ys) a in
    (append-Apart x xs ys l r, AllApart-remove xs th ys rest)

module _ (s : Threads) (th : ℕ) where
  link_same :
      (xs : List ℕ) → Apart th xs → Apart s.all_threads xs → SameLinks s (link_thread s th) xs
  unfolding link_thread
  link_same [] a b = tt
  link_same (x ∷ xs) (ne, a) (ne', b) =
      (ground (arith, ne), ground (arith, ne, ne'), link_same xs a b)

  pub link_thread-IsChain :
      (xs : List ℕ)
      → th ≢ 0
      → Apart th xs
      → AllApart xs
      → IsChain s 0 s.all_threads xs
      → IsChain (link_thread s th) 0 th (th ∷ xs)
  unfolding link_thread
  link_thread-IsChain [] pos a apart c = (refl, pos, ground arith, ground (arith, c))
  link_thread-IsChain (x ∷ xs) pos (ne, a) (here, others) (first, some_thread, at, rest) =
      let next_x : (link_thread s th).next x ≡ s.next x = ground (arith, ne) in
      let same = link_same xs a (rw first here) in
      (
        refl,
        pos,
        ground arith,
        (
          ground (arith, first),
          some_thread,
          ground (arith, first, ne, some_thread),
          rw next_x (IsChain-same s (link_thread s th) x (s.next x) xs same rest),
        ),
      )

  unlink_same :
      (xs : List ℕ)
      → Apart (s.prev th) xs
      → Apart (s.next th) xs
      → SameLinks s (unlink_thread s th) xs
  unfolding unlink_thread
  unlink_same [] a b = tt
  unlink_same (x ∷ xs) (ne, a) (ne', b) =
      (ground (arith, ne), ground (arith, ne'), unlink_same xs a b)

  unlinked_after :
      (before : ℕ) (ys : List ℕ)
      → s.prev th ≡ before
      → Apart before ys
      → AllApart ys
      → IsChain s th (s.next th) ys
      → IsChain (unlink_thread s th) before (s.next th) ys
  unfolding unlink_thread
  unlinked_after before [] at apart others c = c
  unlinked_after before (y ∷ ys) at (ne, apart) (own, others) (e, pos, prev_y, rest) =
      let next_y : (unlink_thread s th).next y ≡ s.next y = ground (arith, at, ne) in
      let same = unlink_same ys (rw at apart) (rw e own) in
      (
        e,
        pos,
        ground (arith, e, at, pos),
        rw next_y (IsChain-same s (unlink_thread s th) y (s.next y) ys same rest),
      )

  -- The thread in front of the one that is taken out is one of the list, if it is not the first.
  pub prev_in :
      (y before first x : ℕ) (xs ys : List ℕ)
      → IsChain s before first (x ∷ (xs ++ (th ∷ ys)))
      → Apart y (x ∷ (xs ++ (th ∷ ys)))
      → s.prev th ≢ y
  prev_in y before first x [] ys (_, _, _, (_, _, at, _)) (ne, _) same = ne (sym same ∙ at)
  prev_in y before first x (x' ∷ xs) ys (_, _, _, rest) (_, apart) same =
      prev_in y x (s.next x) x' xs ys rest apart same

  next_in :
      (y before first : ℕ) (xs ys : List ℕ)
      → y ≢ 0
      → IsChain s before first (xs ++ (th ∷ ys))
      → Apart y (xs ++ (th ∷ ys))
      → s.next th ≢ y
  next_in y before first [] [] pos (_, _, _, e) apart same = pos (sym same ∙ e)
  next_in y before first [] (y' ∷ ys) pos (_, _, _, (e, _, _, _)) (_, (ne, _)) same =
      ne (sym same ∙ e)
  next_in y before first (x ∷ xs) ys pos (_, _, _, rest) (_, apart) same =
      next_in y x (s.next x) xs ys pos rest apart same

  -- The first of a chain without the thread.
  abbrev entry : ℕ → List ℕ → ℕ
  entry first [] = s.next th
  entry first (x ∷ xs) = first

  next_entry :
      (x : ℕ) (xs ys : List ℕ)
      → x ≢ 0
      → IsChain s x (s.next x) (xs ++ (th ∷ ys))
      → Apart x (xs ++ (th ∷ ys))
      → (unlink_thread s th).next x ≡ entry (s.next x) xs
  unfolding unlink_thread
  next_entry x [] ys pos (_, _, at, _) apart = ground (arith, at, pos)
  next_entry x (x' ∷ xs) ys pos c apart = ground (arith, prev_in x x (s.next x) x' xs ys c apart)

  prev_kept : (z : ℕ) → s.next th ≢ z → (unlink_thread s th).prev z ≡ s.prev z
  unfolding unlink_thread
  prev_kept z ne = ground (arith, ne)

  pub next_kept : (z : ℕ) → s.prev th ≢ z → (unlink_thread s th).next z ≡ s.next z
  unfolding unlink_thread
  next_kept z ne = ground (arith, ne)

  unlinked :
      (before first : ℕ) (xs ys : List ℕ)
      → IsChain s before first (xs ++ (th ∷ ys))
      → Apart before (xs ++ (th ∷ ys))
      → AllApart (xs ++ (th ∷ ys))
      → IsChain (unlink_thread s th) before (entry first xs) (xs ++ ys)
  unlinked before first [] ys (e, pos, at, rest) (ne, apart) (own, others) =
      unlinked_after before ys at apart others rest
  unlinked before first (x ∷ xs) ys (e, pos, at, rest) (ne, apart) (own, others) =
      let next_x = next_entry x xs ys pos rest own in
      (
        e,
        pos,
        prev_kept x (next_in x x (s.next x) xs ys pos rest own) ∙ at,
        rw next_x (unlinked x (s.next x) xs ys rest own others),
      )

  above_null : (before first : ℕ) (xs : List ℕ) → IsChain s before first xs → Apart 0 xs
  above_null before first [] c = tt
  above_null before first (x ∷ xs) (e, pos, at, rest) =
      (λ z. pos (sym z), above_null x (s.next x) xs rest)

  all_threads_entry :
      (xs ys : List ℕ)
      → IsChain s 0 s.all_threads (xs ++ (th ∷ ys))
      → (unlink_thread s th).all_threads ≡ entry s.all_threads xs
  unfolding unlink_thread
  all_threads_entry [] ys (e, pos, at, rest) = ground (arith, at)
  all_threads_entry (x ∷ xs) ys c =
      let null_apart = above_null 0 s.all_threads (x ∷ (xs ++ (th ∷ ys))) c in
      ground (arith, prev_in 0 0 s.all_threads x xs ys c null_apart)

  pub unlink_thread-IsChain :
      (xs ys : List ℕ)
      → IsChain s 0 s.all_threads (xs ++ (th ∷ ys))
      → AllApart (xs ++ (th ∷ ys))
      → IsChain (unlink_thread s th) 0 (unlink_thread s th).all_threads (xs ++ ys)
  unlink_thread-IsChain xs ys c apart =
      rw (all_threads_entry xs ys c)
        (unlinked 0 s.all_threads xs ys c (above_null 0 s.all_threads (xs ++ (th ∷ ys)) c) apart)
