-- ===== src/ThreadPool/Tests.antt =====
-- A run of the thread pool with one worker, and the theorem at its last state but one.
use cl.Common.{◌≡◌, refl, arith, some, [], ◌∷◌}
use cl.ThreadPool.{
  sleeping, awake, acted, waking, joining, Pool, with_worker, forget, takes, acts, posts, enter,
  post, acts_too, wait, worker, initial, Reach, start, step,
}
use cl.ThreadPool.Progress.{Completes, Reach-Completes}

abbrev entered : Pool
entered = record initial {
  main = waking 5 0;
  action = some 5;
  workers = λ i. forget (initial.workers i);
}

abbrev woken : Pool
woken = record (with_worker entered 0 (record (entered.workers 0) { start_semaphore = 1 })) {
  main = waking 5 1;
}

abbrev took : Pool
took = with_worker woken 0 (record (woken.workers 0) { pc = awake; start_semaphore = 0 })

abbrev ready : Pool
ready = record took { main = joining 5 0 }

abbrev ran : Pool
ran = with_worker ready 0 (record (ready.workers 0) { pc = acted; calls = some 5 ∷ [] })

abbrev over : Pool
over = record (with_worker ran 0 (record (ran.workers 0) { pc = sleeping })) { join_semaphore = 1 }

abbrev waited : Pool
waited = record over { main = joining 5 1; join_semaphore = 0 }

waited-Reach : Reach 1 waited
waited-Reach =
    step
      (step
        (step
          (step
            (step (step (step start (enter 5 refl)) (post refl (omega arith)))
              (worker 0 (omega arith) (takes refl (omega arith))))
            (acts_too refl))
          (worker 0 (omega arith) (acts refl)))
        (worker 0 (omega arith) (posts refl)))
      (wait refl (omega arith) (omega arith))

Reach-Completes_example : Completes 1 waited
Reach-Completes_example = Reach-Completes waited-Reach

calls_of_worker : (waited.workers 0).calls ≡ some 5 ∷ []
calls_of_worker = refl
