-- ===== src/EventLoop/Registering.antt =====
-- src/event_loop.cc: what epoll is asked for, over all sequences of operations.
use myjfm_spider.Prelude.{
  ℕ, Bool, true, false, ◌≡◌, refl, sym, ap, ◌∙◌, subst, Option, none, some, List, [], ◌∷◌, ltb,
  ◌==◌, if◌then◌else◌, Run, done, fault, out_of_fuel, Bool-cases, inl, inr,
}
use native.Mathlib.Omega.{arith}
use myjfm_spider.ResCode.{ResCode, s_ok, s_fail}
use myjfm_spider.EventLoop.{
  Mask, is_dummy, with_bits, without_bits, Event, LoopState, initialized, destroyed, is_constructed,
  is_open, CtlOp, ctl_add, ctl_mod, ctl_del, Ctl, EventLoop, event_loop_new, init_epoll,
  epoll_created, destroy, stop_loop, set_event, added_mask, added_event, add_at, del_at, at_fd,
  change_event, add_event, del_event,
}

-- The reading and writing that epoll watches for behind a successful call, `none` for a descriptor
-- that it does not know.
abbrev pub of_ctl : CtlOp → Mask → Option (Bool × Bool)
of_ctl ctl_del m = none
of_ctl ctl_add m = some (m.reads, m.writes)
of_ctl ctl_mod m = some (m.reads, m.writes)

abbrev pub watched : List Ctl → ℕ → Option (Bool × Bool)
watched [] fd = none
watched (c ∷ cs) fd = if c.fd == fd then of_ctl c.op c.interest else watched cs fd

-- epoll adds a descriptor that it does not know, and changes or deletes one that it does.
abbrev pub is_allowed : CtlOp → Option (Bool × Bool) → Bool
is_allowed ctl_add none = true
is_allowed ctl_add (some w) = false
is_allowed ctl_mod none = false
is_allowed ctl_mod (some w) = true
is_allowed ctl_del none = false
is_allowed ctl_del (some w) = true

abbrev pub AllAllowed : List Ctl → Type 0
AllAllowed [] = Unit {0}
AllAllowed (c ∷ cs) = (is_allowed c.op (watched cs c.fd) ≡ true) × AllAllowed cs

-- What a mask asks epoll for; errors are always reported.
abbrev pub asked : Mask → Option (Bool × Bool)
asked m = if is_dummy m then none else some (m.reads, m.writes)

pub record IsRegistered (l : EventLoop) : Type 0 where
  pub matches : (fd : ℕ) → watched l.ctls fd ≡ asked (l.events fd).mask
  pub allowed : AllAllowed l.ctls

-- The operations with an epoll that does what it is asked for.
pub data Reachable : EventLoop → Type 0 where
  start : Reachable event_loop_new
  inits : {l : EventLoop} (created : Option ℕ) → Reachable l → Reachable (init_epoll created l).1
  destroys : {l : EventLoop} → Reachable l → Reachable (destroy l).1
  stops : {l : EventLoop} → Reachable l → Reachable (stop_loop l).1
  adds :
      {l : EventLoop} (e : Event) (r : ResCode) (l' : EventLoop)
      → Reachable l
      → is_dummy e.mask ≡ false
      → add_event true (some e) l ≡ done (r, l')
      → Reachable l'
  deletes :
      {l : EventLoop} (e : Event) (r : ResCode) (l' : EventLoop)
      → Reachable l
      → ((fd : ℕ) → e.event_fd ≡ some fd → is_dummy (l.events fd).mask ≡ false)
      → del_event true (some e) l ≡ done (r, l')
      → Reachable l'

-- A call of epoll_ctl with the event that goes with it.
abbrev recorded : CtlOp → ℕ → Mask → Event → EventLoop → EventLoop
recorded op fd m e l = record l {
  events = set_event fd e l.events;
  ctls = record { op = op; fd = fd; interest = m } ∷ l.ctls;
}

choose-asked :
    (b : Bool) (w v : Option (Bool × Bool)) (e d : Event)
    → w ≡ asked e.mask
    → v ≡ asked d.mask
    → (if b then w else v) ≡ asked (if b then e else d).mask
choose-asked true w v e d p q = p
choose-asked false w v e d p q = q

recorded-IsRegistered :
    (op : CtlOp) (fd : ℕ) (m : Mask) (e : Event) (l : EventLoop)
    → IsRegistered l
    → is_allowed op (asked (l.events fd).mask) ≡ true
    → of_ctl op m ≡ asked e.mask
    → IsRegistered (recorded op fd m e l)
recorded-IsRegistered op fd m e l h ok same = record {
  matches = λ i.
      choose-asked (fd == i) (of_ctl op m) (watched l.ctls i) e (l.events i) same (h.matches i);
  allowed = (ap (is_allowed op) (h.matches fd) ∙ ok, h.allowed);
}

-- The operation is chosen by whether there is a mask, before or behind the change.
add_op :
    (b : Bool) (m : Mask) → of_ctl (if b then ctl_add else ctl_mod) m ≡ some (m.reads, m.writes)
add_op true m = refl
add_op false m = refl

add_op_allowed :
    (b : Bool) (w : Bool × Bool)
    → is_allowed (if b then ctl_add else ctl_mod) (if b then none else some w) ≡ true
add_op_allowed true w = refl
add_op_allowed false w = refl

del_op :
    (b : Bool) (m : Mask)
    → of_ctl (if b then ctl_del else ctl_mod) m ≡ (if b then none else some (m.reads, m.writes))
del_op true m = refl
del_op false m = refl

del_op_allowed :
    (b : Bool) (w : Bool × Bool) → is_allowed (if b then ctl_del else ctl_mod) (some w) ≡ true
del_op_allowed true w = refl
del_op_allowed false w = refl

asked-some : (m : Mask) → is_dummy m ≡ false → asked m ≡ some (m.reads, m.writes)
asked-some m e = ap (λ b. if b then none else some (m.reads, m.writes)) e

with_bits_full : (a b : Mask) → is_dummy a ≡ false → is_dummy (with_bits a b) ≡ false
unfolding is_dummy
with_bits_full a b e = ground (arith, e)

added_mask_full : (new old : Mask) → is_dummy new ≡ false → is_dummy (added_mask new old) ≡ false
added_mask_full new old e = elim (Bool-cases (is_dummy old)) [
  | inl p ↦ ap (λ b. is_dummy (if b then new else with_bits new old)) p ∙ e
  | inr p ↦ ap (λ b. is_dummy (if b then new else with_bits new old)) p ∙ with_bits_full new old e
]

add_at-IsRegistered :
    (e : Event) (fd : ℕ) (l : EventLoop)
    → is_dummy e.mask ≡ false
    → IsRegistered l
    → IsRegistered (add_at true e fd l).1
add_at-IsRegistered e fd l full h =
    let old = l.events fd in
    let m = added_mask e.mask old.mask in
    let b = is_dummy old.mask in
    recorded-IsRegistered (if b then ctl_add else ctl_mod) fd m (added_event m e old) l h
      (add_op_allowed b (old.mask.reads, old.mask.writes))
      (add_op b m ∙ sym (asked-some m (added_mask_full e.mask old.mask full)))

del_at-IsRegistered :
    (e : Event) (fd : ℕ) (l : EventLoop)
    → is_dummy (l.events fd).mask ≡ false
    → IsRegistered l
    → IsRegistered (del_at true e fd l).1
del_at-IsRegistered e fd l full h =
    let old = l.events fd in
    let m = without_bits old.mask e.mask in
    let b = is_dummy m in
    let op = if b then ctl_del else ctl_mod in
    recorded-IsRegistered op fd (record m { errors = false }) (record old { mask = m }) l h
      (ap (is_allowed op) (asked-some old.mask full)
        ∙ del_op_allowed b (old.mask.reads, old.mask.writes))
      (del_op b (record m { errors = false }))

-- Whatever state an operation returns.
abbrev Keeps : Run (ResCode × EventLoop) → Type 0
Keeps (done p) = IsRegistered p.1
Keeps fault = Unit {0}
Keeps out_of_fuel = Unit {0}

if-Keeps :
    (b : Bool) (p q : Run (ResCode × EventLoop)) → Keeps p → Keeps q → Keeps (if b then p else q)
if-Keeps true p q h k = h
if-Keeps false p q h k = k

if-IsRegistered :
    (b : Bool) (p q : ResCode × EventLoop)
    → IsRegistered p.1
    → IsRegistered q.1
    → IsRegistered (if b then p else q).1
if-IsRegistered true p q h k = h
if-IsRegistered false p q h k = k

module _ (change : ℕ → EventLoop → ResCode × EventLoop) (l : EventLoop) where
  at_fd-Keeps :
      (o : Option ℕ)
      → ((fd : ℕ) → o ≡ some fd → IsRegistered (change fd l).1)
      → Keeps (at_fd change o l)
  at_fd-Keeps none h = tt
  at_fd-Keeps (some fd) h = if-Keeps (ltb fd 65535) (done (change fd l)) fault (h fd refl) tt

change_event-Keeps :
    (change : Event → ℕ → EventLoop → ResCode × EventLoop) (e : Event) (l : EventLoop)
    → IsRegistered l
    → ((fd : ℕ) → e.event_fd ≡ some fd → IsRegistered (change e fd l).1)
    → Keeps (change_event change (some e) l)
change_event-Keeps change e l h at =
    if-Keeps (is_open l.state) (at_fd (change e) e.event_fd l) (done (s_fail, l))
      (at_fd-Keeps (change e) l e.event_fd at) h

module _ (l : EventLoop) (h : IsRegistered l) where
  of_state :
      (s : LoopState) (b : Bool) (e : Option ℕ)
      → IsRegistered (record l { state = s; is_stop = b; epoll_fd = e })
  of_state s b e = record { matches = h.matches; allowed = h.allowed }

  epoll_created-IsRegistered : (created : Option ℕ) → IsRegistered (epoll_created created l).1
  epoll_created-IsRegistered none = of_state l.state l.is_stop none
  epoll_created-IsRegistered (some fd) = of_state initialized l.is_stop (some fd)

  init_epoll-IsRegistered : (created : Option ℕ) → IsRegistered (init_epoll created l).1
  unfolding init_epoll
  init_epoll-IsRegistered created =
      if-IsRegistered (is_constructed l.state) (epoll_created created l) (s_fail, l)
        (epoll_created-IsRegistered created) h

  destroy-IsRegistered : IsRegistered (destroy l).1
  unfolding destroy
  destroy-IsRegistered =
      if-IsRegistered (is_open l.state) (s_ok, record l { state = destroyed; is_stop = true })
        (s_fail, l) (of_state destroyed true l.epoll_fd) h

  stop_loop-IsRegistered : IsRegistered (stop_loop l).1
  unfolding stop_loop
  stop_loop-IsRegistered = of_state l.state true l.epoll_fd

  module _ (e : Event) where
    add_event-Keeps : is_dummy e.mask ≡ false → Keeps (add_event true (some e) l)
    unfolding add_event
    add_event-Keeps full =
        change_event-Keeps (add_at true) e l h (λ fd p. add_at-IsRegistered e fd l full h)

    del_event-Keeps :
        ((fd : ℕ) → e.event_fd ≡ some fd → is_dummy (l.events fd).mask ≡ false)
        → Keeps (del_event true (some e) l)
    unfolding del_event
    del_event-Keeps full =
        change_event-Keeps (del_at true) e l h (λ fd p. del_at-IsRegistered e fd l (full fd p) h)

-- However the event loop is initialised, destroyed and stopped, and events with a mask are added and
-- events of descriptors that have a mask deleted, in any order, where every epoll_ctl succeeds: for
-- every descriptor, the reading and writing that epoll was last asked to watch for are those of the
-- mask in the loop's table, and none where that is empty; and every call of epoll_ctl adds a descriptor
-- that epoll does not know, or changes or deletes one that it knows.
pub Reachable-IsRegistered : (l : EventLoop) → Reachable l → IsRegistered l
Reachable-IsRegistered l start = unfold is_dummy in record { matches = λ fd. refl; allowed = tt }
Reachable-IsRegistered l (inits {l = k} created a) =
    init_epoll-IsRegistered k (Reachable-IsRegistered k a) created
Reachable-IsRegistered l (destroys {l = k} a) = destroy-IsRegistered k (Reachable-IsRegistered k a)
Reachable-IsRegistered l (stops {l = k} a) = stop_loop-IsRegistered k (Reachable-IsRegistered k a)
Reachable-IsRegistered l (adds {l = k} e r l' a full ran) =
    subst Keeps ran (add_event-Keeps k (Reachable-IsRegistered k a) e full)
Reachable-IsRegistered l (deletes {l = k} e r l' a full ran) =
    subst Keeps ran (del_event-Keeps k (Reachable-IsRegistered k a) e full)
