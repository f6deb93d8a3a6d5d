-- ===== src/Tests/Threads.antt =====
-- src/thread.cc and src/thread_pool.cc: a pool whose first thread cannot be created, and a thread that
-- is started and stopped.
use myjfm_spider.Prelude.{ℕ, zero, suc, ◌≡◌, refl, false, [], ◌∷◌, arith, done}
use myjfm_spider.ResCode.{ResCode, value, s_ok, s_join_failed}
use myjfm_spider.Thread.{
  thread_new, Pthreads, create, cancel, join, stop, start_thread, join_thread, stop_blocking,
}
use myjfm_spider.Thread.Calls.{constructed, starts, stops, IsSafe, Reachable-IsSafe}
use myjfm_spider.ThreadPool.{ThreadPool, thread_pool_new, add_worker, init_loop, init_pool}
use myjfm_spider.ThreadPool.Starting.{IsStarted, init_pool-IsStarted}

abbrev pub answers : Pthreads
answers = record {
  attr_init = 0;
  attr_setdetachstate = λ b. 0;
  created = 0;
  cancelled = 0;
  joined = 0;
  is_self = false;
}

-- EAGAIN at the first call.
abbrev pub late : ℕ → Pthreads
late zero = record answers { created = 11 }
late (suc k) = answers

init_pool-IsStarted_example :
    (r : ResCode × ThreadPool) × (init_pool late (thread_pool_new 2) ≡ done r)
    × IsStarted 2 (thread_pool_new 2) r
init_pool-IsStarted_example = init_pool-IsStarted late (thread_pool_new 2) refl (omega arith)

two_threads :
    init_pool late (thread_pool_new 2)
    ≡ done (
      s_ok,
      record (thread_pool_new 2) {
        threads =
            (start_thread answers (thread_new false)).1
            ∷ (start_thread answers (thread_new false)).1
            ∷ [];
      },
    )
unfolding init_pool init_loop add_worker start_thread
two_threads = refl

Reachable-IsSafe_example :
    IsSafe (stop_blocking answers (start_thread answers (thread_new false)).1).1
Reachable-IsSafe_example =
    Reachable-IsSafe (stop_blocking answers (start_thread answers (thread_new false)).1).1
      (stops answers (starts answers (constructed false)))

-- The thread is joined, and the result is S_JOIN_FAILED.
stopped_thread : stop_blocking answers (start_thread answers (thread_new false)).1 ≡ (
  s_join_failed,
  record { state = stop; detached = false; calls = join 0 ∷ cancel 0 ∷ create 0 ∷ [] },
)
unfolding start_thread stop_blocking join_thread value
stopped_thread = refl
