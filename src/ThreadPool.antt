-- ===== src/ThreadPool.antt =====
-- src/thread_pool.h and src/thread_pool.cc. A task is a pointer, `none` when it is NULL. `calls k` is how
-- the pthread library answers at the k-th thread.
pub mod Starting
use myjfm_spider.Prelude.{
  ℕ, zero, suc, ◌+◌, ◌-◌, ◌%◌, ◌^◌, Bool, true, false, not, ◌&&◌, Option, none, some, List, [], ◌∷◌,
  ◌++◌, ltb, leb, if◌then◌else◌, Run, done, out_of_fuel,
}
use myjfm_spider.ResCode.{
  ResCode, s_ok, s_fail, s_thread_create_failed, s_not_constructed, s_bad_arg, is_ok,
}
use myjfm_spider.Squeue.{SQueue, squeue_new, push, pop}
use myjfm_spider.Thread.{Thread, thread_new, Pthreads, start_thread, stop_blocking}

-- `is_constructed` is `_state == CONSTRUCTED`.
pub record ThreadPool : Type 0 where
  pub n : ℕ
  pub is_constructed : Bool
  pub threads : List Thread
  pub tasks : SQueue (Option ℕ)

abbrev pub thread_pool_new : ℕ → ThreadPool
thread_pool_new n = record { n = n; is_constructed = true; threads = []; tasks = squeue_new }

-- `ThreadFactory::create_thread`, for a task that is not NULL.
abbrev pub create_thread : Pthreads → Option Thread
create_thread a = let r = start_thread a (thread_new false) in if is_ok r.0 then some r.1 else none

abbrev pub keep_thread : Option Thread → ThreadPool → ResCode × ThreadPool
keep_thread none p = (s_thread_create_failed, p)
keep_thread (some t) p = (s_ok, record p { threads = p.threads ++ t ∷ [] })

unfoldable pub add_worker : Pthreads → ThreadPool → ResCode × ThreadPool
add_worker a p = keep_thread (create_thread a) p

-- `++i` and `i--` on 32 bits.
abbrev pub next : ℕ → ℕ
next i = (i + 1) % 2 ^ 32

abbrev pub previous : ℕ → ℕ
previous i = (i + 2 ^ 32 - 1) % 2 ^ 32

-- The loop's body behind `add_worker`; `again` is the next round.
abbrev pub after_worker :
    (ℕ → ℕ → ThreadPool → Run (ResCode × ThreadPool))
    → ℕ
    → ℕ
    → ResCode × ThreadPool
    → Run (ResCode × ThreadPool)
after_worker again i retry r =
    let rest =
      again (next (if is_ok r.0 then i else previous i)) (if is_ok r.0 then retry else next retry)
        r.1 in
    if not (is_ok r.0) && leb 10 retry then done (s_fail, r.1) else rest

unfoldable pub init_loop : ℕ → (ℕ → Pthreads) → ℕ → ℕ → ℕ → ThreadPool → Run (ResCode × ThreadPool)
init_loop zero calls k i retry p = out_of_fuel
init_loop (suc fuel) calls k i retry p =
    let next_round = after_worker (init_loop fuel calls (suc k)) i retry (add_worker (calls k) p) in
    if ltb i p.n then next_round else done (s_ok, p)

-- A round adds a thread or counts a retry, of which there are at most MAX_RETRY.
unfoldable pub init_pool : (ℕ → Pthreads) → ThreadPool → Run (ResCode × ThreadPool)
init_pool calls p =
    if p.is_constructed then init_loop (p.n + 12) calls 0 0 0 p else done (s_not_constructed, p)

abbrev pub stop_all : (ℕ → Pthreads) → ℕ → List Thread → List Thread
stop_all calls k [] = []
stop_all calls k (t ∷ ts) = (stop_blocking (calls k) t).1 ∷ stop_all calls (suc k) ts

unfoldable pub stop_pool : (ℕ → Pthreads) → ThreadPool → ResCode × ThreadPool
stop_pool calls p = (s_ok, record p { threads = stop_all calls 0 p.threads })

abbrev pub size : ThreadPool → ResCode × ℕ
size p = (s_ok, p.n)

unfoldable pub add_task : Option ℕ → ThreadPool → ResCode × ThreadPool
add_task none p = (s_bad_arg, p)
add_task (some t) p = let r = push (some t) p.tasks in (r.0, record p { tasks = r.1 })

-- The task is `none` where the thread sleeps.
unfoldable pub get_task : ThreadPool → Option (Option ℕ) × ThreadPool
get_task p = let r = pop p.tasks in (r.0, record p { tasks = r.1 })
