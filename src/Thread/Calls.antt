-- ===== src/Thread/Calls.antt =====
-- src/thread.cc: the calls of the pthread library, over all sequences of a thread's operations.
use myjfm_spider.Prelude.{
  Bool, true, false, Option, none, some, List, [], ◌∷◌, ◌≡◌, refl, sym, ap, ◌∙◌, ◌==◌, not,
  if◌then◌else◌,
}
use mathlib.Core.Bool.{false≢true}
use myjfm_spider.ResCode.{
  ResCode, value, s_ok, s_set_attr_failed, s_thread_create_failed, s_join_failed, s_cancel_failed,
}
use myjfm_spider.Thread.{
  ThreadState, init, running, stop, PthreadCall, create, cancel, join, Thread, thread_new, Pthreads,
  start_at, start_thread, join_at, join_thread, stop_nonblocking_at, stop_nonblocking,
  stop_blocking_at, stop_blocking, delete_thread, called,
}

-- A thread as the library sees it: not created, created, and joined.
pub data Phase : Type 0 where
  unborn live gone : Phase

-- What a call makes of it; `none` is a call that the library does not allow.
abbrev pub follow : Phase → PthreadCall → Option Phase
follow unborn (create r) = some (if r == 0 then live else unborn)
follow unborn (cancel r) = none
follow unborn (join r) = none
follow live (create r) = none
follow live (cancel r) = some live
follow live (join r) = some (if r == 0 then gone else live)
follow gone c = none

abbrev pub follow_some : Option Phase → PthreadCall → Option Phase
follow_some none c = none
follow_some (some p) c = follow p c

abbrev pub phase_of : List PthreadCall → Option Phase
phase_of [] = some unborn
phase_of (c ∷ cs) = follow_some (phase_of cs) c

abbrev pub state_fits : ThreadState → Phase → Bool
state_fits init unborn = true
state_fits init live = false
state_fits init gone = false
state_fits running unborn = false
state_fits running live = true
state_fits running gone = false
state_fits stop p = true

abbrev pub IsSafe : Thread → Type 0
IsSafe t = (p : Phase) × (phase_of t.calls ≡ some p) × (state_fits t.state p ≡ true)

-- Any sequence of operations on one thread.
pub data Reachable : Thread → Type 0 where
  constructed : (detached : Bool) → Reachable (thread_new detached)
  starts : {t : Thread} (a : Pthreads) → Reachable t → Reachable (start_thread a t).1
  joins : {t : Thread} (a : Pthreads) → Reachable t → Reachable (join_thread a t).1
  cancels : {t : Thread} (a : Pthreads) → Reachable t → Reachable (stop_nonblocking a t).1
  stops : {t : Thread} (a : Pthreads) → Reachable t → Reachable (stop_blocking a t).1
  deletes : {t : Thread} (a : Pthreads) → Reachable t → Reachable (delete_thread a t)

IsSafe-stop : (t : Thread) → IsSafe t → IsSafe (record t { state = stop })
IsSafe-stop t (p, e, f) = (p, e, refl)

-- The library's phase behind one more call, for a result that is tested by `b`.
create-IsSafe :
    (b : Bool) (t : Thread)
    → t.state ≡ init
    → phase_of t.calls ≡ some (if b then live else unborn)
    → IsSafe
        (if◌then◌else◌ {A = ResCode × Thread} b
          (s_ok, record t { state = running })
          (s_thread_create_failed, t)).1
create-IsSafe true t s e = (live, e, refl)
create-IsSafe false t s e = (unborn, e, ap (λ u. state_fits u unborn) s)

join-IsSafe :
    (b : Bool) (t : Thread)
    → t.state ≡ running
    → phase_of t.calls ≡ some (if b then gone else live)
    → IsSafe
        (if◌then◌else◌ {A = ResCode × Thread} b
          (s_ok, record t { state = stop })
          (s_join_failed, t)).1
join-IsSafe true t s e = (gone, e, refl)
join-IsSafe false t s e = (live, e, ap (λ u. state_fits u live) s)

live-IsSafe : (t : Thread) → t.state ≡ running → phase_of t.calls ≡ some live → IsSafe t
live-IsSafe t s e = (live, e, ap (λ u. state_fits u live) s)

-- The phase of a thread whose state is known.
running-live : (t : Thread) → t.state ≡ running → IsSafe t → phase_of t.calls ≡ some live
running-live t s (unborn, e, f) = absurd (false≢true (ap (λ u. state_fits u unborn) (sym s) ∙ f))
running-live t s (live, e, f) = e
running-live t s (gone, e, f) = absurd (false≢true (ap (λ u. state_fits u gone) (sym s) ∙ f))

init-unborn : (t : Thread) → t.state ≡ init → IsSafe t → phase_of t.calls ≡ some unborn
init-unborn t s (unborn, e, f) = e
init-unborn t s (live, e, f) = absurd (false≢true (ap (λ u. state_fits u live) (sym s) ∙ f))
init-unborn t s (gone, e, f) = absurd (false≢true (ap (λ u. state_fits u gone) (sym s) ∙ f))

if-IsSafe :
    (b : Bool) (r r' : ResCode × Thread) → IsSafe r.1 → IsSafe r'.1 → IsSafe (if b then r else r').1
if-IsSafe true r r' x y = x
if-IsSafe false r r' x y = y

start_at-IsSafe :
    (s : ThreadState) (a : Pthreads) (t : Thread)
    → t.state ≡ s
    → IsSafe t
    → IsSafe (start_at s a t).1
start_at-IsSafe running a t e is = is
start_at-IsSafe stop a t e is = is
start_at-IsSafe init a t e is =
    let t' = called (create a.created) t in
    let born = ap (λ o. follow_some o (create a.created)) (init-unborn t e is) in
    if-IsSafe (not (a.attr_init == 0)) (s_set_attr_failed, t) _ is
      (if-IsSafe (not (a.attr_setdetachstate t.detached == 0)) (s_set_attr_failed, t) _ is
        (create-IsSafe (a.created == 0) t' e born))

join_at-IsSafe :
    (s : ThreadState) (a : Pthreads) (t : Thread)
    → t.state ≡ s
    → IsSafe t
    → IsSafe (join_at s a t).1
join_at-IsSafe init a t e is = is
join_at-IsSafe stop a t e is = is
join_at-IsSafe running a t e is =
    let joined = ap (λ o. follow_some o (join a.joined)) (running-live t e is) in
    if-IsSafe a.is_self (s_ok, t) _ is
      (join-IsSafe (a.joined == 0) (called (join a.joined) t) e joined)

join_thread-IsSafe : (a : Pthreads) (t : Thread) → IsSafe t → IsSafe (join_thread a t).1
unfolding join_thread
join_thread-IsSafe a t is = join_at-IsSafe t.state a t refl is

cancelled-IsSafe :
    (a : Pthreads) (t : Thread)
    → t.state ≡ running
    → IsSafe t
    → IsSafe (called (cancel a.cancelled) t)
cancelled-IsSafe a t e is =
    live-IsSafe (called (cancel a.cancelled) t) e
      (ap (λ o. follow_some o (cancel a.cancelled)) (running-live t e is))

stop_nonblocking_at-IsSafe :
    (s : ThreadState) (a : Pthreads) (t : Thread)
    → t.state ≡ s
    → IsSafe t
    → IsSafe (stop_nonblocking_at s a t).1
stop_nonblocking_at-IsSafe init a t e is = is
stop_nonblocking_at-IsSafe stop a t e is = is
stop_nonblocking_at-IsSafe running a t e is =
    let t' = called (cancel a.cancelled) t in
    let is' = cancelled-IsSafe a t e is in
    if-IsSafe (a.cancelled == 0) (s_ok, record t' { state = stop }) (s_cancel_failed, t')
      (IsSafe-stop t' is') is'

stop_blocking_at-IsSafe :
    (s : ThreadState) (a : Pthreads) (t : Thread)
    → t.state ≡ s
    → IsSafe t
    → IsSafe (stop_blocking_at s a t).1
stop_blocking_at-IsSafe init a t e is = is
stop_blocking_at-IsSafe stop a t e is = is
stop_blocking_at-IsSafe running a t e is =
    let t' = called (cancel a.cancelled) t in
    let is' = cancelled-IsSafe a t e is in
    let r = join_thread a t' in
    let joined = join_thread-IsSafe a t' is' in
    if-IsSafe (a.cancelled == 0) _ (s_cancel_failed, t')
      (if-IsSafe (not (value r.0 == 0)) (s_join_failed, r.1) (s_ok, r.1) joined joined) is'

-- Whatever the library answers and whatever operations run on a thread, in any order: the calls that
-- name the thread are such that it is created at most once, that it is cancelled and joined only
-- behind a creation that succeeded, and that nothing is called behind a join that succeeded; and where
-- the state is INIT it has not been created, where it is RUNNING it has been created and not joined.
pub Reachable-IsSafe : (t : Thread) → Reachable t → IsSafe t
unfolding start_thread stop_nonblocking stop_blocking delete_thread
Reachable-IsSafe t (constructed d) = (unborn, refl, refl)
Reachable-IsSafe t (starts {t = u} a r) = start_at-IsSafe u.state a u refl (Reachable-IsSafe u r)
Reachable-IsSafe t (joins {t = u} a r) = join_thread-IsSafe a u (Reachable-IsSafe u r)
Reachable-IsSafe t (cancels {t = u} a r) =
    stop_nonblocking_at-IsSafe u.state a u refl (Reachable-IsSafe u r)
Reachable-IsSafe t (stops {t = u} a r) =
    stop_blocking_at-IsSafe u.state a u refl (Reachable-IsSafe u r)
Reachable-IsSafe t (deletes {t = u} a r) =
    IsSafe-stop (join_thread a u).1 (join_thread-IsSafe a u (Reachable-IsSafe u r))
