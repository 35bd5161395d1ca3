-- ===== src/Threads.antt =====
-- src/runtime/thread.c: the list of all threads and the bin of threads to use again. A pointer to a
-- `struct thread` is a number, 0 is null. Each operation holds its lock from start to end.
pub mod Linked
pub mod Lists
mod Tests
use cl.Common.{ℕ, ◌==◌, if◌then◌else◌, not, assign}

-- The fields `next` and `prev` of the threads, and the two variables.
pub record Threads : Type 0 where
  pub next : ℕ → ℕ
  pub prev : ℕ → ℕ
  pub all_threads : ℕ
  pub recyclebin_threads : ℕ

unfoldable pub link_thread : Threads → ℕ → Threads
link_thread s th = record s {
  prev = assign (if s.all_threads == 0 then s.prev else assign s.prev s.all_threads th) th 0;
  next = assign s.next th s.all_threads;
  all_threads = th;
}

-- The links of the thread itself stay as they are.
unfoldable pub unlink_thread : Threads → ℕ → Threads
unlink_thread s th =
    let before : ℕ = s.prev th in
    let after : ℕ = s.next th in
    record s {
      next = if before == 0 then s.next else assign s.next before after;
      all_threads = if before == 0 then after else s.all_threads;
      prev = if after == 0 then s.prev else assign s.prev after before;
    }

-- The thread that is taken out, of which the code returns `os_address`; 0 where there is none.
unfoldable pub get_recyclebin_item : Threads → ℕ × Threads
get_recyclebin_item s =
    let result : ℕ = s.recyclebin_threads in
    (result, if result == 0 then s else record s { recyclebin_threads = s.next result })

unfoldable pub put_recyclebin_item : Threads → ℕ → Threads
put_recyclebin_item s th = record s {
  next = assign s.next th s.recyclebin_threads;
  recyclebin_threads = th;
}
