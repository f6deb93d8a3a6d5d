-- ===== src/EventLoop.antt =====
-- src/event_loop.h, src/event_loop.cc and src/callback.h: the handlers of descriptors. Of a mask the
-- three bits of the enumeration are modelled. A pointer is the address that it holds, `none` for NULL.
-- The answers of epoll are arguments; `ctls` has the calls of epoll_ctl, the last one first.
pub mod Registering
pub mod Looping
use myjfm_spider.Prelude.{
  ℕ, Bool, true, false, not, ◌&&◌, ◌||◌, Option, none, some, List, [], ◌∷◌, ltb, ◌==◌,
  if◌then◌else◌, Run, done, fault, out_of_fuel, ◌>>=◌,
}
use myjfm_spider.ResCode.{ResCode, s_ok, s_fail, s_epoll_create_failed}

pub record Mask : Type 0 where
  pub reads : Bool
  pub writes : Bool
  pub errors : Bool

abbrev pub event_dummy : Mask
event_dummy = record { reads = false; writes = false; errors = false }

unfoldable pub is_dummy : Mask → Bool
is_dummy m = not m.reads && (not m.writes && not m.errors)

-- `a | b` and `a & ~b`.
abbrev pub with_bits : Mask → Mask → Mask
with_bits a b = record {
  reads = a.reads || b.reads;
  writes = a.writes || b.writes;
  errors = a.errors || b.errors;
}

abbrev pub without_bits : Mask → Mask → Mask
without_bits a b = record {
  reads = a.reads && not b.reads;
  writes = a.writes && not b.writes;
  errors = a.errors && not b.errors;
}

-- A callback object or a function with its argument.
pub record Handler : Type 0 where
  pub use_callback : Bool
  pub callback : Option ℕ
  pub callback_func : Option ℕ
  pub arg : Option ℕ

abbrev pub handler_new : Handler
handler_new = record { use_callback = false; callback = none; callback_func = none; arg = none }

pub record Event : Type 0 where
  pub event_fd : Option ℕ
  pub mask : Mask
  pub on_read : Handler
  pub on_write : Handler
  pub on_error : Handler

abbrev pub event_new : Event
event_new = record {
  event_fd = none;
  mask = event_dummy;
  on_read = handler_new;
  on_write = handler_new;
  on_error = handler_new;
}

pub data LoopState : Type 0 where
  unconstructed constructed initialized looping destroyed : LoopState

pub data CtlOp : Type 0 where
  ctl_add ctl_mod ctl_del : CtlOp

pub record Ctl : Type 0 where
  pub op : CtlOp
  pub fd : ℕ
  pub interest : Mask

pub record EventLoop : Type 0 where
  pub state : LoopState
  pub is_stop : Bool
  pub epoll_fd : Option ℕ
  pub events : ℕ → Event
  pub ctls : List Ctl

abbrev pub event_loop_new : EventLoop
event_loop_new = record {
  state = constructed;
  is_stop = true;
  epoll_fd = none;
  events = λ fd. event_new;
  ctls = [];
}

abbrev pub is_constructed : LoopState → Bool
is_constructed constructed = true
is_constructed s = false

-- INITIALIZED or LOOP.
abbrev pub is_open : LoopState → Bool
is_open initialized = true
is_open looping = true
is_open s = false

abbrev pub epoll_created : Option ℕ → EventLoop → ResCode × EventLoop
epoll_created none l = (s_epoll_create_failed, record l { epoll_fd = none })
epoll_created (some fd) l = (s_ok, record l { epoll_fd = some fd; state = initialized })

-- `created` is what epoll_create returns.
unfoldable pub init_epoll : Option ℕ → EventLoop → ResCode × EventLoop
init_epoll created l = if is_constructed l.state then epoll_created created l else (s_fail, l)

unfoldable pub destroy : EventLoop → ResCode × EventLoop
destroy l =
    if is_open l.state then (s_ok, record l { state = destroyed; is_stop = true }) else (s_fail, l)

unfoldable pub stop_loop : EventLoop → ResCode × EventLoop
stop_loop l = (s_ok, record l { is_stop = true })

abbrev pub set_event : ℕ → Event → (ℕ → Event) → ℕ → Event
set_event fd e events i = if fd == i then e else events i

-- Only one of the callback and the function is taken.
abbrev pub set_handler : Bool → Handler → Handler → Handler
set_handler asked new old =
    if asked
    then (if new.use_callback
        then record old { use_callback = true; callback = new.callback }
        else record old { callback_func = new.callback_func; arg = new.arg })
    else old

-- `if (!epoll_ctl(...))`: epoll_ctl returns 0 where it succeeds.
abbrev pub ctl_answer : Bool → ResCode
ctl_answer succeeds = if succeeds then s_fail else s_ok

abbrev pub added_mask : Mask → Mask → Mask
added_mask new old = if is_dummy old then new else with_bits new old

abbrev pub added_event : Mask → Event → Event → Event
added_event mask e old = record old {
  mask = mask;
  on_read = set_handler mask.reads e.on_read old.on_read;
  on_write = set_handler mask.writes e.on_write old.on_write;
  on_error = set_handler mask.errors e.on_error old.on_error;
}

abbrev pub add_at : Bool → Event → ℕ → EventLoop → ResCode × EventLoop
add_at succeeds e fd l =
    let old = l.events fd in
    let mask = added_mask e.mask old.mask in
    let op = if is_dummy old.mask then ctl_add else ctl_mod in
    (
      ctl_answer succeeds,
      record l {
        events = set_event fd (added_event mask e old) l.events;
        ctls = record { op = op; fd = fd; interest = mask } ∷ l.ctls;
      },
    )

-- EPOLLERR is not asked for.
abbrev pub del_at : Bool → Event → ℕ → EventLoop → ResCode × EventLoop
del_at succeeds e fd l =
    let old = l.events fd in
    let mask = without_bits old.mask e.mask in
    let op = if is_dummy mask then ctl_del else ctl_mod in
    (
      ctl_answer succeeds,
      record l {
        events = set_event fd (record old { mask = mask }) l.events;
        ctls = record { op = op; fd = fd; interest = record mask { errors = false } } ∷ l.ctls;
      },
    )

-- `_events[fd]`, which has 65535 elements.
abbrev pub at_fd :
    (ℕ → EventLoop → ResCode × EventLoop) → Option ℕ → EventLoop → Run (ResCode × EventLoop)
at_fd change none l = fault
at_fd change (some fd) l = if ltb fd 65535 then done (change fd l) else fault

-- The tests at the front of both operations.
abbrev pub change_event :
    (Event → ℕ → EventLoop → ResCode × EventLoop)
    → Option Event
    → EventLoop
    → Run (ResCode × EventLoop)
change_event change none l = done (s_fail, l)
change_event change (some e) l =
    if is_open l.state then at_fd (change e) e.event_fd l else done (s_fail, l)

-- `succeeds` says whether epoll_ctl does.
unfoldable pub add_event : Bool → Option Event → EventLoop → Run (ResCode × EventLoop)
add_event succeeds e l = change_event (add_at succeeds) e l

unfoldable pub del_event : Bool → Option Event → EventLoop → Run (ResCode × EventLoop)
del_event succeeds e l = change_event (del_at succeeds) e l
