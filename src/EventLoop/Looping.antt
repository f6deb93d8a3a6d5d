-- ===== src/EventLoop/Looping.antt =====
-- src/event_loop.cc: loop. `run` is what a handler does to the event loop.
use myjfm_spider.Prelude.{
  ℕ, Bool, true, false, Option, none, some, List, [], ◌∷◌, if◌then◌else◌, Run, done, fault,
  out_of_fuel, ◌>>=◌,
}
use myjfm_spider.ResCode.{ResCode, s_ok, s_fail}
use myjfm_spider.EventLoop.{Handler, LoopState, initialized, looping, destroyed, EventLoop}

abbrev can_loop : LoopState → Bool
can_loop initialized = true
can_loop s = false

-- What epoll_wait says of a descriptor.
pub record Ready : Type 0 where
  pub ready_fd : ℕ
  pub is_in : Bool
  pub is_out : Bool
  pub is_err : Bool

-- What is called: an object, or a function with a descriptor and an argument.
pub data Called : Type 0 where
  called_object : ℕ → Called
  called_func : ℕ → ℕ → Option ℕ → Called

module _ (run : Called → EventLoop → EventLoop) where
  abbrev pub call_object : Option ℕ → EventLoop → Run EventLoop
  call_object none l = fault
  call_object (some a) l = done (run (called_object a) l)

  abbrev pub call_func : Option ℕ → ℕ → Option ℕ → EventLoop → Run EventLoop
  call_func none fd arg l = done l
  call_func (some f) fd arg l = done (run (called_func f fd arg) l)

  abbrev pub call_handler : Bool → ℕ → Handler → EventLoop → Run EventLoop
  call_handler is_ready fd h l =
      if is_ready
      then (if h.use_callback
          then call_object h.callback l
          else call_func h.callback_func fd h.arg l)
      else done l

  -- The body of the inner loop. Every handler is read behind the calls before it.
  unfoldable pub dispatch : Ready → EventLoop → Run EventLoop
  dispatch r l =
      let fd = r.ready_fd in
      call_handler r.is_in fd (l.events fd).on_read l
      >>= (λ l1. call_handler r.is_out fd (l1.events fd).on_write l1)
      >>= (λ l2. call_handler r.is_err fd (l2.events fd).on_error l2)

  abbrev pub dispatch_all : List Ready → EventLoop → Run EventLoop
  dispatch_all [] l = done l
  dispatch_all (r ∷ rs) l = dispatch r l >>= dispatch_all rs

  -- What each epoll_wait gives; the last list is followed by the end of the fuel.
  unfoldable pub loop_rounds : List (List Ready) → EventLoop → Run EventLoop
  loop_rounds [] l = if l.is_stop then done (record l { state = destroyed }) else out_of_fuel
  loop_rounds (rs ∷ waits) l =
      let round = dispatch_all rs l >>= loop_rounds waits in
      if l.is_stop then done (record l { state = destroyed }) else round

  unfoldable pub event_loop : List (List Ready) → EventLoop → Run (ResCode × EventLoop)
  event_loop waits l =
      if can_loop l.state
      then (loop_rounds waits (record l { state = looping; is_stop = false }) >>= λ l'.
          done (s_ok, l'))
      else done (s_fail, l)
