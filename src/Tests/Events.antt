-- ===== src/Tests/Events.antt =====
-- src/event_loop.cc: a descriptor whose events are added one after another and then deleted.
use myjfm_spider.Prelude.{ℕ, true, false, ◌≡◌, refl, ap, subst, Option, none, some, [], ◌∷◌, done}
use myjfm_spider.ResCode.{s_ok, s_fail}
use myjfm_spider.EventLoop.{
  is_dummy, Handler, handler_new, Event, EventLoop, destroyed, event_loop_new, init_epoll, add_at,
  del_at, add_event, del_event, stop_loop,
}
use myjfm_spider.EventLoop.Looping.{dispatch, loop_rounds, event_loop}
use myjfm_spider.EventLoop.Registering.{
  Reachable, start, inits, adds, deletes, IsRegistered, Reachable-IsRegistered,
}

abbrev calls : ℕ → Handler
calls f = record handler_new { callback_func = some f }

abbrev on_reading : Event
on_reading = record {
  event_fd = some 5;
  mask = record { reads = true; writes = false; errors = false };
  on_read = calls 7;
  on_write = handler_new;
  on_error = handler_new;
}

abbrev on_writing : Event
on_writing = record {
  event_fd = some 5;
  mask = record { reads = false; writes = true; errors = false };
  on_read = handler_new;
  on_write = calls 8;
  on_error = handler_new;
}

abbrev begun : EventLoop
begun = (init_epoll (some 3) event_loop_new).1

abbrev reading : EventLoop
reading = (add_at true on_reading 5 begun).1

abbrev both : EventLoop
both = (add_at true on_writing 5 reading).1

abbrev only_writing : EventLoop
only_writing = (del_at true on_reading 5 both).1

-- Where epoll_ctl succeeds the answer is S_FAIL.
added : add_event true (some on_reading) begun ≡ done (s_fail, reading)
unfolding add_event init_epoll
added = refl

-- The second event takes the handler of the first one away.
handler_lost : (both.events 5).on_read ≡ handler_new
unfolding init_epoll is_dummy
handler_lost = refl

-- A function that stops the loop.
stops_loop :
    event_loop
      (λ c l. (stop_loop l).1)
      ((record { ready_fd = 5; is_in = true; is_out = false; is_err = false } ∷ []) ∷ [])
      reading
    ≡ done (s_ok, record reading { state = destroyed; is_stop = true })
unfolding event_loop loop_rounds dispatch stop_loop init_epoll is_dummy
stops_loop = refl

abbrev number : Option ℕ → ℕ
number none = 0
number (some fd) = fd

is_registered : Reachable only_writing
unfolding add_event del_event init_epoll is_dummy
is_registered =
    deletes on_reading s_fail only_writing
      (adds on_writing s_fail both (adds on_reading s_fail reading (inits (some 3) start) refl refl)
        refl refl)
      (λ fd e. subst (λ i. is_dummy (both.events i).mask ≡ false) (ap number e) refl) refl

Reachable-IsRegistered_example : IsRegistered only_writing
Reachable-IsRegistered_example = Reachable-IsRegistered only_writing is_registered
