-- ===== src/Threads/Tests.antt =====
-- Concrete runs on the lists of threads, and the theorem at a concrete input.
use cl.Common.{◌+◌, ◌*◌, ◌≡◌, refl, arith, ◌==◌, if◌then◌else◌, [], ◌∷◌}
use cl.Threads.{Threads, unlink_thread, get_recyclebin_item}
use cl.Threads.Lists.{Represents, unlink, perform, unlinked, top_of, perform-Represents}

-- Threads 1, 2 and 3 are linked, and 7 is in the bin.
abbrev three : Threads
three = record {
  next = λ t. if t == 1 then 2 else if t == 2 then 3 else 0;
  prev = λ t. if t == 2 then 1 else if t == 3 then 2 else 0;
  all_threads = 1;
  recyclebin_threads = 7;
}

three-Represents : Represents three (1 ∷ 2 ∷ 3 ∷ []) (7 ∷ [])
three-Represents = record {
  chain = (
    refl,
    (λ e. omega arith),
    refl,
    (refl, (λ e. omega arith), refl, (refl, (λ e. omega arith), refl, refl)),
  );
  apart = (((λ e. omega arith), ((λ e. omega arith), tt)), (((λ e. omega arith), tt), (tt, tt)));
  recycled = (refl, (λ e. omega arith), refl);
  recycled_apart = (tt, tt);
  separate = (((λ e. omega arith), ((λ e. omega arith), ((λ e. omega arith), tt))), tt);
}

perform-Represents_example :
    Represents (perform three (unlink 2)) (1 ∷ 3 ∷ []) (7 ∷ [])
    × ((get_recyclebin_item three).0 ≡ top_of (7 ∷ []))
perform-Represents_example =
    perform-Represents three (1 ∷ 2 ∷ 3 ∷ []) (7 ∷ []) (unlink 2) (1 ∷ 3 ∷ []) (7 ∷ [])
      (unlinked (1 ∷ []) (3 ∷ [])) three-Represents

linked_around : (unlink_thread three 2).next 1 * 10 + (unlink_thread three 2).prev 3 ≡ 31
unfolding unlink_thread
linked_around = refl
