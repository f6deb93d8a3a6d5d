-- ===== src/ThreadPool/Starting.antt =====
-- src/thread_pool.cc: `init`, whatever the pthread library answers.
use myjfm_spider.Prelude.{
  ℕ, zero, suc, ◌+◌, ◌-◌, ◌^◌, ◌≤◌, ◌<◌, ◌≡◌, refl, sym, ap, ◌∙◌, subst, ◌⊎◌, inl, inr, Bool, true,
  false, not, ◌&&◌, ◌||◌, none, some, List, [], ◌∷◌, ◌++◌, append-nil, append_assoc, arith, ltb,
  leb, ◌==◌, if◌then◌else◌, length, Run, done, Bool-cases,
}
use myjfm_spider.ResCode.{
  ResCode, s_ok, s_fail, s_set_attr_failed, s_thread_create_failed, s_not_constructed, is_ok,
}
use myjfm_spider.Thread.{
  Thread, ThreadState, init, running, stop, thread_new, Pthreads, start_thread, called, create,
}
use myjfm_spider.ThreadPool.{
  ThreadPool, keep_thread, add_worker, next, previous, after_worker, init_loop, init_pool,
}

abbrev pub is_running : ThreadState → Bool
is_running init = false
is_running running = true
is_running stop = false

abbrev pub all_running : List Thread → Bool
all_running [] = true
all_running (t ∷ ts) = is_running t.state && all_running ts

-- A thread that was started, if it was, runs.
abbrev IsRight : ResCode × Thread → Type 0
IsRight r = (not (is_ok r.0) || is_running r.1.state) ≡ true

if-IsRight :
    (b : Bool) (r r' : ResCode × Thread) → IsRight r → IsRight r' → IsRight (if b then r else r')
if-IsRight true r r' x y = x
if-IsRight false r r' x y = y

start_thread-IsRight : (a : Pthreads) → IsRight (start_thread a (thread_new false))
unfolding start_thread
start_thread-IsRight a =
    let t = thread_new false in
    if-IsRight (not (a.attr_init == 0)) (s_set_attr_failed, t) _ refl
      (if-IsRight (not (a.attr_setdetachstate false == 0)) (s_set_attr_failed, t) _ refl
        (if-IsRight (a.created == 0)
          (s_ok, record (called (create a.created) t) { state = running })
          (s_thread_create_failed, called (create a.created) t) refl refl))

-- A round of the loop adds a thread that runs, or nothing.
abbrev Adds : ThreadPool → ResCode × ThreadPool → Type 0
Adds p r =
    (r ≡ (s_thread_create_failed, p))
    ⊎ ((t : Thread) × (is_running t.state ≡ true)
        × (r ≡ (s_ok, record p { threads = p.threads ++ t ∷ [] })))

keep_thread-Adds :
    (b : Bool) (t : Thread) (p : ThreadPool)
    → (not b || is_running t.state) ≡ true
    → Adds p (keep_thread (if b then some t else none) p)
keep_thread-Adds true t p e = inr (t, e, refl)
keep_thread-Adds false t p e = inl refl

add_worker-Adds : (a : Pthreads) (p : ThreadPool) → Adds p (add_worker a p)
unfolding add_worker
add_worker-Adds a p =
    let r = start_thread a (thread_new false) in
    keep_thread-Adds (is_ok r.0) r.1 p (start_thread-IsRight a)

-- What a loop that has `m` threads to add gives.
pub record IsStarted (m : ℕ) (p : ThreadPool) (r : ResCode × ThreadPool) : Type 0 where
  pub added : List Thread
  pub pool : r.1 ≡ record p { threads = p.threads ++ added }
  pub run : all_running added ≡ true
  pub number : ((r.0 ≡ s_ok) × (length added ≡ m)) ⊎ ((r.0 ≡ s_fail) × (length added < m))

abbrev Ends : ℕ → ThreadPool → Run (ResCode × ThreadPool) → Type 0
Ends m p o = (r : ResCode × ThreadPool) × (o ≡ done r) × IsStarted m p r

Ends-zero : (p : ThreadPool) → Ends 0 p (done (s_ok, p))
Ends-zero p = (
  (s_ok, p),
  refl,
  record {
    added = [];
    pool = ap (λ ts. record p { threads = ts }) (sym (append-nil p.threads));
    run = refl;
    number = inl (refl, refl);
  },
)

Ends-fail : (m : ℕ) (p : ThreadPool) → 0 < m → Ends m p (done (s_fail, p))
Ends-fail m p pos = (
  (s_fail, p),
  refl,
  record {
    added = [];
    pool = ap (λ ts. record p { threads = ts }) (sym (append-nil p.threads));
    run = refl;
    number = inr (refl, pos);
  },
)

Ends-suc :
    (m : ℕ) (p : ThreadPool) (t : Thread) (o : Run (ResCode × ThreadPool))
    → is_running t.state ≡ true
    → Ends m (record p { threads = p.threads ++ t ∷ [] }) o
    → Ends (suc m) p o
Ends-suc m p t o e (r, f, is) = (
  r,
  f,
  record {
    added = t ∷ is.added;
    pool =
        is.pool ∙ ap (λ ts. record p { threads = ts }) (append_assoc p.threads (t ∷ []) is.added);
    run = ap (λ b. b && all_running is.added) e ∙ is.run;
    number = elim is.number [
      | inl (a, b) ↦ inl (a, ap suc b)
      | inr (a, b) ↦ inr (a, omega (arith, b))
    ];
  },
)

round_trip : (i : ℕ) → i < 2 ^ 32 → next (previous i) ≡ i
round_trip i small = omega (arith, small)

init_loop-Ends :
    (fuel : ℕ) (calls : ℕ → Pthreads) (k i m retry : ℕ) (p : ThreadPool)
    → i + m ≡ p.n
    → p.n < 2 ^ 32
    → retry ≤ 10
    → m + 11 - retry < fuel
    → Ends m p (init_loop fuel calls k i retry p)
unfolding init_loop
init_loop-Ends zero calls k i m retry p s small few f = absurd (omega (arith, f))
init_loop-Ends (suc fuel) calls k i zero retry p s small few f =
    let no : ltb i p.n ≡ false = ground (arith, s) in
    subst (Ends 0 p)
      (sym (
        ap
          (λ b.
            if b
            then after_worker (init_loop fuel calls (suc k)) i retry (add_worker (calls k) p)
            else done (s_ok, p))
          no))
      (Ends-zero p)
init_loop-Ends (suc fuel) calls k i (suc m) retry p s small few f =
    let yes : ltb i p.n ≡ true = ground (arith, s) in
    let again = init_loop fuel calls (suc k) in
    subst (Ends (suc m) p)
      (sym (
        ap (λ b. if b then after_worker again i retry (add_worker (calls k) p) else done (s_ok, p))
          yes))
      (elim (add_worker-Adds (calls k) p) [
        | inl e ↦
            subst (λ r. Ends (suc m) p (after_worker again i retry r)) (sym e)
              (elim (Bool-cases (leb 10 retry)) [
                | inl full ↦
                    subst
                      (λ b.
                        Ends (suc m) p (
                          if b then done (s_fail, p) else again (next (previous i)) (next retry) p))
                      (sym full) (Ends-fail (suc m) p (omega arith))
                | inr more ↦
                    let here = round_trip i (omega (arith, s, small)) in
                    let counted : next retry ≡ suc retry = omega (arith, few) in
                    let few' : suc retry ≤ 10 = ground (arith, few, more) in
                    let ih =
                      init_loop-Ends fuel calls (suc k) i (suc m) (suc retry) p s small few'
                        (omega (arith, f, few')) in
                    subst
                      (λ b.
                        Ends (suc m) p (
                          if b then done (s_fail, p) else again (next (previous i)) (next retry) p))
                      (sym more)
                      (subst (λ j. Ends (suc m) p (again j (next retry) p)) (sym here)
                        (subst (λ j. Ends (suc m) p (again i j p)) (sym counted) ih))
              ])
        | inr (t, e, f') ↦
            let grown = record p { threads = p.threads ++ t ∷ [] } in
            let here : next i ≡ suc i = omega (arith, s, small) in
            let ih =
              init_loop-Ends fuel calls (suc k) (suc i) m retry grown (omega (arith, s)) small few
                (omega (arith, f)) in
            subst (λ r. Ends (suc m) p (after_worker again i retry r)) (sym f')
              (subst (λ j. Ends (suc m) p (again j retry grown)) (sym here)
                (Ends-suc m p t (again (suc i) retry grown) e ih))
      ])

-- A pool that is constructed, of less than 2 ^ 32 threads: whatever the library answers, `init` ends.
-- The pool has then got threads behind those it had, all of them running, and nothing else of it is
-- changed; `init` returns S_OK where they are as many as the pool is for, and S_FAIL where they are
-- fewer.
pub init_pool-IsStarted :
    (calls : ℕ → Pthreads) (p : ThreadPool)
    → p.is_constructed ≡ true
    → p.n < 2 ^ 32
    → (r : ResCode × ThreadPool) × (init_pool calls p ≡ done r) × IsStarted p.n p r
unfolding init_pool
init_pool-IsStarted calls p e small =
    subst
      (λ b.
        Ends p.n p (if b then init_loop (p.n + 12) calls 0 0 0 p else done (s_not_constructed, p)))
      (sym e)
      (init_loop-Ends (p.n + 12) calls 0 0 p.n 0 p (omega arith) small (omega arith) (omega arith))
