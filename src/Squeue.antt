-- ===== src/Squeue.antt =====
-- src/squeue.h with src/conditional.h: the queue that the threads share. Every call runs with the
-- mutex locked; `wait` gives the mutex up, so `pop` is the part up to the wait and the part behind it.
pub mod Fifo
pub mod Vectors
use myjfm_spider.Prelude.{
  ℕ, zero, suc, ◌+◌, ◌-◌, ◌%◌, ◌^◌, Bool, true, false, Option, none, some, List, [], ◌∷◌, ◌++◌,
  length,
}
use myjfm_spider.ResCode.{ResCode, s_ok, s_fail}

-- The elements, the number of threads that sleep in `wait`, and the number of those that are woken
-- and have not got the mutex yet.
pub record SQueue (T : Type 0) : Type 0 where
  pub queue : List T
  pub waiting : ℕ
  pub woken : ℕ

abbrev pub squeue_new : {T : Type 0} → SQueue T
squeue_new = record { queue = []; waiting = 0; woken = 0 }

-- `pthread_cond_signal` wakes one thread that sleeps, where there is one.
unfoldable pub signal : {T : Type 0} → ℕ → SQueue T → SQueue T
signal zero q = q
signal (suc w) q = record q { waiting = w; woken = suc q.woken }

unfoldable pub push : {T : Type 0} → T → SQueue T → ResCode × SQueue T
push t q = (s_ok, signal q.waiting (record q { queue = q.queue ++ t ∷ [] }))

-- `while (_queue.empty()) wait` at its test: the thread sleeps, or takes the front element.
unfoldable pub test_and_take : {T : Type 0} → List T → SQueue T → Option T × SQueue T
test_and_take [] q = (none, record q { waiting = suc q.waiting })
test_and_take (t ∷ ts) q = (some t, record q { queue = ts })

-- `pop` until it returns or sleeps, and from its waking on.
unfoldable pub pop : {T : Type 0} → SQueue T → Option T × SQueue T
pop q = test_and_take q.queue q

unfoldable pub pop_woken : {T : Type 0} → SQueue T → Option T × SQueue T
pop_woken q = test_and_take q.queue (record q { woken = q.woken - 1 })

abbrev pub front_of : {T : Type 0} → List T → SQueue T → (ResCode × Option T) × SQueue T
front_of [] q = ((s_fail, none), q)
front_of (t ∷ ts) q = ((s_ok, some t), record q { queue = ts })

unfoldable pub try_pop : {T : Type 0} → SQueue T → (ResCode × Option T) × SQueue T
try_pop q = front_of q.queue q

unfoldable pub size : {T : Type 0} → SQueue T → ℕ × ResCode
size q = (length q.queue % 2 ^ 32, s_ok)
