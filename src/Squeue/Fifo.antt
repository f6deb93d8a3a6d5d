-- ===== src/Squeue/Fifo.antt =====
-- src/squeue.h: the order of the elements and the waking of the threads, over all interleavings.
use myjfm_spider.Prelude.{
  ℕ, zero, suc, ◌-◌, ◌≤◌, ◌<◌, ◌≡◌, refl, sym, ap, ◌∙◌, Option, none, some, List, [], ◌∷◌, ◌++◌,
  append_assoc, arith, length, length-append,
}
use myjfm_spider.Squeue.{
  SQueue, squeue_new, signal, push, test_and_take, pop, pop_woken, try_pop, front_of,
}

signal-queue : {T : Type 0} (w : ℕ) (q : SQueue T) → (signal w q).queue ≡ q.queue
unfolding signal
signal-queue zero q = refl
signal-queue (suc w) q = refl

pub push-queue : {T : Type 0} (x : T) (q : SQueue T) → (push x q).1.queue ≡ q.queue ++ x ∷ []
unfolding push
push-queue x q = signal-queue q.waiting (record q { queue = q.queue ++ x ∷ [] })

-- What a call that takes adds to the elements taken.
abbrev pub taken : {T : Type 0} → Option T → List T → List T
taken none ts = ts
taken (some t) ts = ts ++ t ∷ []

-- The runs of any number of threads: the queue, the elements pushed and those taken, both in order.
-- POSIX lets a thread wake up without a signal.
pub data Reachable (T : Type 0) : SQueue T → List T → List T → Type 0 where
  start : Reachable T squeue_new [] []
  pushes :
      {q : SQueue T} {ins outs : List T} (t : T)
      → Reachable T q ins outs
      → Reachable T (push t q).1 (ins ++ t ∷ []) outs
  pops :
      {q : SQueue T} {ins outs : List T}
      → Reachable T q ins outs
      → Reachable T (pop q).1 ins (taken (pop q).0 outs)
  goes_on :
      {q : SQueue T} {ins outs : List T}
      → Reachable T q ins outs
      → 0 < q.woken
      → Reachable T (pop_woken q).1 ins (taken (pop_woken q).0 outs)
  tries :
      {q : SQueue T} {ins outs : List T}
      → Reachable T q ins outs
      → Reachable T (try_pop q).1 ins (taken (try_pop q).0.1 outs)
  wakes_alone :
      {q : SQueue T} {ins outs : List T}
      → Reachable T q ins outs
      → 0 < q.waiting
      → Reachable T (signal q.waiting q) ins outs

-- The elements pushed are those taken and then those in the queue; while a thread sleeps, at least as
-- many threads are woken as there are elements.
pub record IsFair {T : Type 0} (q : SQueue T) (ins outs : List T) : Type 0 where
  pub in_order : ins ≡ outs ++ q.queue
  pub no_lost_signal : 0 < q.waiting → length q.queue ≤ q.woken

module _ {T : Type 0} (ins outs : List T) where
  signal-IsFair :
      (w : ℕ) (q : SQueue T)
      → q.waiting ≡ w
      → ins ≡ outs ++ q.queue
      → (1 < w → length q.queue ≤ suc q.woken)
      → (w ≡ 0 → 0 < q.waiting → length q.queue ≤ q.woken)
      → IsFair (signal w q) ins outs
  unfolding signal
  signal-IsFair zero q e order more none_ = record { in_order = order; no_lost_signal = none_ refl }
  signal-IsFair (suc w) q e order more none_ = record {
    in_order = order;
    no_lost_signal = λ pos. more (omega arith);
  }

  test_and_take-IsFair :
      (ts : List T) (q : SQueue T)
      → q.queue ≡ ts
      → ins ≡ outs ++ q.queue
      → (0 < q.waiting → length ts ≤ suc q.woken)
      → IsFair (test_and_take ts q).1 ins (taken (test_and_take ts q).0 outs)
  unfolding test_and_take
  test_and_take-IsFair [] q e order bound = record {
    in_order = order;
    no_lost_signal = λ pos. rw e (omega arith);
  }
  test_and_take-IsFair (t ∷ ts) q e order bound = record {
    in_order = order ∙ ap (◌++◌ outs) e ∙ sym (append_assoc outs (t ∷ []) ts);
    no_lost_signal = λ pos. omega (arith, bound pos);
  }

  front_of-IsFair :
      (ts : List T) (q : SQueue T)
      → q.queue ≡ ts
      → IsFair q ins outs
      → IsFair (front_of ts q).1 ins (taken (front_of ts q).0.1 outs)
  front_of-IsFair [] q e fair = fair
  front_of-IsFair (t ∷ ts) q e fair = record {
    in_order = fair.in_order ∙ ap (◌++◌ outs) e ∙ sym (append_assoc outs (t ∷ []) ts);
    no_lost_signal = λ pos. omega (arith, fair.no_lost_signal pos, ap length e);
  }

push-IsFair :
    {T : Type 0} (t : T) (q : SQueue T) (ins outs : List T)
    → IsFair q ins outs
    → IsFair (push t q).1 (ins ++ t ∷ []) outs
unfolding push
push-IsFair t q ins outs fair =
    let q' = record q { queue = q.queue ++ t ∷ [] } in
    let grown = length-append q.queue (t ∷ []) in
    signal-IsFair (ins ++ t ∷ []) outs q.waiting q' refl
      (ap (λ l. l ++ t ∷ []) fair.in_order ∙ append_assoc outs q.queue (t ∷ []))
      (λ more. omega (arith, fair.no_lost_signal (omega arith), grown))
      (λ none_ pos. absurd (omega arith))

module _ {T : Type 0} (q : SQueue T) (ins outs : List T) (fair : IsFair q ins outs) where
  pop-IsFair : IsFair (pop q).1 ins (taken (pop q).0 outs)
  unfolding pop
  pop-IsFair =
      test_and_take-IsFair ins outs q.queue q refl fair.in_order
        (λ pos. omega (arith, fair.no_lost_signal pos))

  pop_woken-IsFair : 0 < q.woken → IsFair (pop_woken q).1 ins (taken (pop_woken q).0 outs)
  unfolding pop_woken
  pop_woken-IsFair woken =
      test_and_take-IsFair ins outs q.queue (record q { woken = q.woken - 1 }) refl fair.in_order
        (λ pos. omega (arith, fair.no_lost_signal pos))

  try_pop-IsFair : IsFair (try_pop q).1 ins (taken (try_pop q).0.1 outs)
  unfolding try_pop
  try_pop-IsFair = front_of-IsFair ins outs q.queue q refl fair

  wake-IsFair : IsFair (signal q.waiting q) ins outs
  wake-IsFair =
      signal-IsFair ins outs q.waiting q refl fair.in_order
        (λ more. omega (arith, fair.no_lost_signal (omega arith)))
        (λ none_ pos. absurd (omega arith))

-- Whatever the threads do, in any order: the elements that pop and try_pop gave are the first ones
-- that were pushed, in their order, and the others are in the queue in theirs; and while a thread
-- sleeps in pop, at least as many threads are woken as there are elements, so that no signal is lost.
pub Reachable-IsFair :
    (T : Type 0) (q : SQueue T) (ins outs : List T) → Reachable T q ins outs → IsFair q ins outs
Reachable-IsFair T q ins outs start = record {
  in_order = refl;
  no_lost_signal = λ pos. absurd (omega (arith, pos));
}
Reachable-IsFair T q ins outs (pushes t r) = push-IsFair t _ _ _ (Reachable-IsFair T _ _ _ r)
Reachable-IsFair T q ins outs (pops r) = pop-IsFair _ _ _ (Reachable-IsFair T _ _ _ r)
Reachable-IsFair T q ins outs (goes_on r pos) =
    pop_woken-IsFair _ _ _ (Reachable-IsFair T _ _ _ r) pos
Reachable-IsFair T q ins outs (tries r) = try_pop-IsFair _ _ _ (Reachable-IsFair T _ _ _ r)
Reachable-IsFair T q ins outs (wakes_alone r pos) = wake-IsFair _ _ _ (Reachable-IsFair T _ _ _ r)
