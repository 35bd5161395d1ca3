-- ===== src/Threads/Lists.antt =====
-- The operations on the threads are operations on two lists: of all threads, and of those to use again.
use cl.Common.{ℕ, ◌≡◌, ◌≢◌, refl, sym, ◌∙◌, arith, true, false, ◌==◌, List, [], ◌∷◌, ◌++◌}
use cl.Threads.{Threads, link_thread, unlink_thread, get_recyclebin_item, put_recyclebin_item}
use cl.Threads.Linked.{
  Apart, AllApart, IsChain, IsChain-same, SameLinks, Apart-append, append-Apart, AllApart-remove,
  link_thread-IsChain, unlink_thread-IsChain, prev_in, next_kept,
}

-- From `first` on, `next` goes through the list and ends in null.
abbrev pub IsBin : Threads → ℕ → List ℕ → Type 0
IsBin s first [] = first ≡ 0
IsBin s first (y ∷ ys) = (first ≡ y) × (y ≢ 0) × IsBin s (s.next y) ys

-- No thread of the second list is in the first.
abbrev pub NoneShared : List ℕ → List ℕ → Type 0
NoneShared xs [] = Unit
NoneShared xs (y ∷ ys) = Apart y xs × NoneShared xs ys

-- The state stands for the list of all threads and for the bin.
pub record Represents (s : Threads) (xs bin : List ℕ) : Type 0 where
  pub chain : IsChain s 0 s.all_threads xs
  pub apart : AllApart xs
  pub recycled : IsBin s s.recyclebin_threads bin
  pub recycled_apart : AllApart bin
  pub separate : NoneShared xs bin

pub data Operation : Type 0 where
  link : ℕ → Operation
  unlink : ℕ → Operation
  put : ℕ → Operation
  get : Operation

abbrev pub perform : Threads → Operation → Threads
perform s (link th) = link_thread s th
perform s (unlink th) = unlink_thread s th
perform s (put th) = put_recyclebin_item s th
perform s get = (get_recyclebin_item s).1

-- What the operations are to do to the lists. A thread that is linked or put is in none of them.
pub data Specified : List ℕ → List ℕ → Operation → List ℕ → List ℕ → Type 0 where
  linked :
      {xs bin : List ℕ} {th : ℕ}
      → th ≢ 0
      → Apart th xs
      → Apart th bin
      → Specified xs bin (link th) (th ∷ xs) bin
  unlinked :
      (xs ys : List ℕ) {bin : List ℕ} {th : ℕ}
      → Specified (xs ++ (th ∷ ys)) bin (unlink th) (xs ++ ys) bin
  recycled :
      {xs bin : List ℕ} {th : ℕ}
      → th ≢ 0
      → Apart th xs
      → Apart th bin
      → Specified xs bin (put th) xs (th ∷ bin)
  reused : {xs bin : List ℕ} {th : ℕ} → Specified xs (th ∷ bin) get xs bin
  none_left : {xs : List ℕ} → Specified xs [] get xs []

abbrev SameNext : Threads → Threads → List ℕ → Type 0
SameNext s s' [] = Unit
SameNext s s' (x ∷ xs) = (s'.next x ≡ s.next x) × SameNext s s' xs

IsBin-same :
    (s s' : Threads) (first : ℕ) (xs : List ℕ)
    → SameNext s s' xs
    → IsBin s first xs
    → IsBin s' first xs
IsBin-same s s' first [] same b = b
IsBin-same s s' first (x ∷ xs) (n, same) (e, pos, rest) =
    (e, pos, rw n (IsBin-same s s' (s.next x) xs same rest))

NoneShared-link :
    (th : ℕ) (xs bin : List ℕ) → Apart th bin → NoneShared xs bin → NoneShared (th ∷ xs) bin
NoneShared-link th xs [] a n = tt
NoneShared-link th xs (y ∷ ys) (ne, a) (b, n) = ((λ e. ne (sym e), b), NoneShared-link th xs ys a n)

NoneShared-remove :
    (xs : List ℕ) (th : ℕ) (ys bin : List ℕ)
    → NoneShared (xs ++ (th ∷ ys)) bin
    → NoneShared (xs ++ ys) bin
NoneShared-remove xs th ys [] n = tt
NoneShared-remove xs th ys (y ∷ bin) (a, n) =
    let (l, (ne, r)) = Apart-append y xs (th ∷ ys) a in
    (append-Apart y xs ys l r, NoneShared-remove xs th ys bin n)

module _ (s : Threads) (th : ℕ) where
  link_bin : (bin : List ℕ) → Apart th bin → SameNext s (link_thread s th) bin
  unfolding link_thread
  link_bin [] a = tt
  link_bin (y ∷ ys) (ne, a) = (ground (arith, ne), link_bin ys a)

  put_bin : (bin : List ℕ) → Apart th bin → SameNext s (put_recyclebin_item s th) bin
  unfolding put_recyclebin_item
  put_bin [] a = tt
  put_bin (y ∷ ys) (ne, a) = (ground (arith, ne), put_bin ys a)

  put_links : (xs : List ℕ) → Apart th xs → SameLinks s (put_recyclebin_item s th) xs
  unfolding put_recyclebin_item
  put_links [] a = tt
  put_links (x ∷ xs) (ne, a) = (ground (arith, ne), refl, put_links xs a)

  unlink_bin :
      (xs ys bin : List ℕ) (first : ℕ)
      → IsChain s 0 s.all_threads (xs ++ (th ∷ ys))
      → NoneShared (xs ++ (th ∷ ys)) bin
      → IsBin s first bin
      → SameNext s (unlink_thread s th) bin
  unlink_bin xs ys [] first c n b = tt
  unlink_bin xs ys (y ∷ bin) first c (a, n) (e, pos, rest) =
      (next_kept s th y (not_before xs c a), unlink_bin xs ys bin (s.next y) c n rest)
    where
      not_before :
          (zs : List ℕ)
          → IsChain s 0 s.all_threads (zs ++ (th ∷ ys))
          → Apart y (zs ++ (th ∷ ys))
          → s.prev th ≢ y
      not_before [] (_, _, at, _) apart same = pos (sym same ∙ at)
      not_before (z ∷ zs) chain apart same = prev_in s th y 0 s.all_threads z zs ys chain apart same

module _ (s : Threads) (first : ℕ) where
  abbrev rebinned : Threads
  rebinned = record s { recyclebin_threads = first }

  rebinned_next : (xs : List ℕ) → SameNext s rebinned xs
  rebinned_next [] = tt
  rebinned_next (x ∷ xs) = (refl, rebinned_next xs)

  rebinned_links : (xs : List ℕ) → SameLinks s rebinned xs
  rebinned_links [] = tt
  rebinned_links (x ∷ xs) = (refl, refl, rebinned_links xs)

  rebinned-Represents :
      (xs bin bin' : List ℕ)
      → Represents s xs bin
      → IsBin s first bin'
      → AllApart bin'
      → NoneShared xs bin'
      → Represents rebinned xs bin'
  rebinned-Represents xs bin bin' r b apart separate = record {
    chain = IsChain-same s rebinned 0 s.all_threads xs (rebinned_links xs) r.chain;
    apart = r.apart;
    recycled = IsBin-same s rebinned first bin' (rebinned_next bin') b;
    recycled_apart = apart;
    separate = separate;
  }

-- The thread on top of the bin, or null.
abbrev pub top_of : List ℕ → ℕ
top_of [] = 0
top_of (x ∷ xs) = x

get_recyclebin_item-top :
    (s : Threads) (bin : List ℕ)
    → IsBin s s.recyclebin_threads bin
    → (get_recyclebin_item s).0 ≡ top_of bin
unfolding get_recyclebin_item
get_recyclebin_item-top s [] e = e
get_recyclebin_item-top s (y ∷ ys) (e, _, _) = e

performed :
    (s : Threads) (xs bin : List ℕ) (op : Operation) (xs' bin' : List ℕ)
    → Specified xs bin op xs' bin'
    → Represents s xs bin
    → Represents (perform s op) xs' bin'
unfolding link_thread unlink_thread put_recyclebin_item get_recyclebin_item
performed s xs bin _ _ _ (linked {th = th} pos a b) r = record {
  chain = link_thread-IsChain s th xs pos a r.apart r.chain;
  apart = (a, r.apart);
  recycled =
      IsBin-same s (link_thread s th) s.recyclebin_threads bin (link_bin s th bin b) r.recycled;
  recycled_apart = r.recycled_apart;
  separate = NoneShared-link th xs bin b r.separate;
}
performed s _ bin _ _ _ (unlinked xs ys {th = th}) r = record {
  chain = unlink_thread-IsChain s th xs ys r.chain r.apart;
  apart = AllApart-remove xs th ys r.apart;
  recycled =
      IsBin-same s (unlink_thread s th) s.recyclebin_threads bin
        (unlink_bin s th xs ys bin s.recyclebin_threads r.chain r.separate r.recycled) r.recycled;
  recycled_apart = r.recycled_apart;
  separate = NoneShared-remove xs th ys bin r.separate;
}
performed s xs bin _ _ _ (recycled {th = th} pos a b) r = record {
  chain =
      IsChain-same s (put_recyclebin_item s th) 0 s.all_threads xs (put_links s th xs a) r.chain;
  apart = r.apart;
  recycled = (
    refl,
    pos,
    (let first : (put_recyclebin_item s th).next th ≡ s.recyclebin_threads = ground arith in
        rw first (
          IsBin-same s (put_recyclebin_item s th) s.recyclebin_threads bin (put_bin s th bin b)
            r.recycled)),
  );
  recycled_apart = (b, r.recycled_apart);
  separate = (a, r.separate);
}
performed s xs _ _ _ _ (reused {bin = bin} {th = th}) r =
    let (first, pos, rest) = r.recycled in
    let some_thread : (s.recyclebin_threads == 0) ≡ false = ground (arith, first, pos) in
    let (_, apart) = r.recycled_apart in
    let (_, separate) = r.separate in
    rw some_thread (
      rebinned-Represents s (s.next s.recyclebin_threads) xs (th ∷ bin) bin r (rw first rest) apart
        separate)
performed s xs _ _ _ _ none_left r =
    let none : (s.recyclebin_threads == 0) ≡ true = ground (arith, r.recycled) in rw none r

-- On a state that stands for a list of all threads and a bin, `link_thread` puts a thread in front
-- of the list, `unlink_thread` takes a thread out of it, `put_recyclebin_item` puts a thread on top of
-- the bin, and `get_recyclebin_item` takes the one on top; the state stands for these lists
-- afterwards. `get_recyclebin_item` finds the thread on top of the bin, or null. A thread that is
-- linked or put is not null and in none of the two.
pub perform-Represents :
    (s : Threads) (xs bin : List ℕ) (op : Operation) (xs' bin' : List ℕ)
    → Specified xs bin op xs' bin'
    → Represents s xs bin
    → Represents (perform s op) xs' bin' × ((get_recyclebin_item s).0 ≡ top_of bin)
perform-Represents s xs bin op xs' bin' how r =
    (performed s xs bin op xs' bin' how r, get_recyclebin_item-top s bin r.recycled)
