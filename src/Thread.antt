-- ===== src/Thread.antt =====
-- src/thread.h and src/thread.cc. The pthread library answers as a record says; `calls` keeps the calls
-- that name the thread, with their results, the last one first. The semaphore, by which `start` waits
-- until the new thread has copied its arguments, and what the thread executes are not modelled.
pub mod Calls
use myjfm_spider.Prelude.{ℕ, Bool, true, false, not, List, [], ◌∷◌, ◌==◌, if◌then◌else◌}
use myjfm_spider.ResCode.{
  ResCode, value, s_ok, s_has_started, s_set_attr_failed, s_thread_create_failed, s_not_running,
  s_join_failed, s_cancel_failed,
}

-- `_enum_state`.
pub data ThreadState : Type 0 where
  init running stop : ThreadState

pub data PthreadCall : Type 0 where
  create cancel join : ℕ → PthreadCall

pub record Thread : Type 0 where
  pub state : ThreadState
  pub detached : Bool
  pub calls : List PthreadCall

abbrev pub thread_new : Bool → Thread
thread_new detached = record { state = init; detached = detached; calls = [] }

-- What the calls of one operation return, 0 for success, and whether the caller is the thread itself.
pub record Pthreads : Type 0 where
  pub attr_init : ℕ
  pub attr_setdetachstate : Bool → ℕ
  pub created : ℕ
  pub cancelled : ℕ
  pub joined : ℕ
  pub is_self : Bool

-- The call, with its result.
abbrev pub called : PthreadCall → Thread → Thread
called c t = record t { calls = c ∷ t.calls }

abbrev pub after_create : Pthreads → Thread → ResCode × Thread
after_create a t =
    if a.created == 0
    then (s_ok, record (called (create a.created) t) { state = running })
    else (s_thread_create_failed, called (create a.created) t)

abbrev pub start_at : ThreadState → Pthreads → Thread → ResCode × Thread
start_at init a t =
    if not (a.attr_init == 0)
    then (s_set_attr_failed, t)
    else if not (a.attr_setdetachstate t.detached == 0)
    then (s_set_attr_failed, t)
    else after_create a t
start_at running a t = (s_has_started, t)
start_at stop a t = (s_has_started, t)

unfoldable pub start_thread : Pthreads → Thread → ResCode × Thread
start_thread a t = start_at t.state a t

abbrev pub after_join : Pthreads → Thread → ResCode × Thread
after_join a t =
    if a.joined == 0
    then (s_ok, record (called (join a.joined) t) { state = stop })
    else (s_join_failed, called (join a.joined) t)

abbrev pub join_at : ThreadState → Pthreads → Thread → ResCode × Thread
join_at init a t = (s_not_running, t)
join_at stop a t = (s_not_running, t)
join_at running a t = if a.is_self then (s_ok, t) else after_join a t

unfoldable pub join_thread : Pthreads → Thread → ResCode × Thread
join_thread a t = join_at t.state a t

abbrev pub stop_nonblocking_at : ThreadState → Pthreads → Thread → ResCode × Thread
stop_nonblocking_at init a t = (s_not_running, t)
stop_nonblocking_at stop a t = (s_not_running, t)
stop_nonblocking_at running a t =
    let t' = called (cancel a.cancelled) t in
    if a.cancelled == 0 then (s_ok, record t' { state = stop }) else (s_cancel_failed, t')

unfoldable pub stop_nonblocking : Pthreads → Thread → ResCode × Thread
stop_nonblocking a t = stop_nonblocking_at t.state a t

-- `if (join())`: the result is tested as a number.
abbrev pub after_cancel : Pthreads → Thread → ResCode × Thread
after_cancel a t =
    let r = join_thread a t in if not (value r.0 == 0) then (s_join_failed, r.1) else (s_ok, r.1)

abbrev pub stop_blocking_at : ThreadState → Pthreads → Thread → ResCode × Thread
stop_blocking_at init a t = (s_not_running, t)
stop_blocking_at stop a t = (s_not_running, t)
stop_blocking_at running a t =
    let t' = called (cancel a.cancelled) t in
    if a.cancelled == 0 then after_cancel a t' else (s_cancel_failed, t')

unfoldable pub stop_blocking : Pthreads → Thread → ResCode × Thread
stop_blocking a t = stop_blocking_at t.state a t

-- The destructor.
unfoldable pub delete_thread : Pthreads → Thread → Thread
delete_thread a t = record (join_thread a t).1 { state = stop }
