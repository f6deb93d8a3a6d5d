-- ===== src/Spider/Ready.antt =====
-- src/myjfm_spider.cc: init_modules, whatever the pthread library answers.
use myjfm_spider.Prelude.{
  ℕ, ◌^◌, ◌<◌, ◌≡◌, refl, sym, ap, ◌∙◌, subst, ◌⊎◌, inl, inr, Bool, true, Option, List, [], ◌++◌,
  if◌then◌else◌, length, Run, done, fault, ◌>>=◌, Bool-cases,
}
use mathlib.Core.Bool.{false≢true}
use myjfm_spider.ResCode.{ResCode, is_ok}
use myjfm_spider.Global.{Global}
use myjfm_spider.Thread.{Pthreads}
use myjfm_spider.ThreadPool.{ThreadPool, thread_pool_new, init_pool}
use myjfm_spider.ThreadPool.Starting.{all_running, init_pool-IsStarted}
use myjfm_spider.Spider.{
  Spider, with_pools, add_tasks, shut_down, or_shut_down, Answers, add_dnser_tasks,
  add_scheduler_tasks, add_extractor_tasks, add_all_tasks, init_dnsers, init_schedulers,
  init_extractors, init_pools, init_modules,
}
use myjfm_spider.Spider.Filling.{tasks_from, add_tasks-Fills}

-- A pool of `n` threads, all of them running, with these tasks.
pub record Holds (n : ℕ) (tasks : List (Option ℕ)) (p : ThreadPool) : Type 0 where
  pub run : all_running p.threads ≡ true
  pub number : length p.threads ≡ n
  pub queue : p.tasks.queue ≡ tasks

-- Every pool has its threads and a task for each of them.
pub record AreReady (g : Global) (s : Spider) : Type 0 where
  pub downloaders : Holds g.downloader_num (tasks_from 0 g.downloader_num) s.downloaders
  pub extractors : Holds g.extractor_num (tasks_from 0 g.extractor_num) s.extractors
  pub schedulers : Holds g.scheduler_num (tasks_from 0 g.scheduler_num) s.schedulers
  pub dnsers : Holds g.dnser_num (tasks_from 0 g.dnser_num) s.dnsers
  pub global : s.global ≡ (with_pools g).global

init_pool-Holds :
    (calls : ℕ → Pthreads) (n : ℕ)
    → n < 2 ^ 32
    → (r : ResCode × ThreadPool) × (init_pool calls (thread_pool_new n) ≡ done r)
      × (is_ok r.0 ≡ true → Holds n [] r.1)
init_pool-Holds calls n small =
    let (r, e, is) = init_pool-IsStarted calls (thread_pool_new n) refl small in
    (
      r,
      e,
      λ ok. elim is.number [
        | inl (code, size) ↦
            subst (Holds n []) (sym is.pool) (record { run = is.run; number = size; queue = refl })
        | inr (code, size) ↦ absurd (false≢true (sym (ap is_ok code) ∙ ok))
      ],
    )

add_tasks-Holds :
    (n : ℕ) (p : ThreadPool) → Holds n [] p → Holds n (tasks_from 0 n) (add_tasks n 0 p).1
add_tasks-Holds n p h =
    let (p', e, f) = add_tasks-Fills n 0 p in
    subst (Holds n (tasks_from 0 n)) (sym (ap (λ (r : ResCode × ThreadPool). r.1) e)) (record {
      run = ap all_running f.threads ∙ h.run;
      number = ap length f.threads ∙ h.number;
      queue = f.tasks ∙ ap (λ q. q ++ tasks_from 0 n) h.queue;
    })

module _ (g : Global) where
  Good : Run Spider → Type 0
  Good o = (s : Spider) × (o ≡ done s) × ((s.global.to_be_shutdown ≡ true) ⊎ AreReady g s)

  or_shut_down-Good :
      (r : ResCode × Spider) (k : Spider → Run Spider)
      → (is_ok r.0 ≡ true → Good (k r.1))
      → Good (or_shut_down r k)
  unfolding Good
  or_shut_down-Good r k h = elim (Bool-cases (is_ok r.0)) [
    | inl e ↦ subst Good (sym (ap (λ b. if b then k r.1 else done (shut_down r.1)) e)) (h e)
    | inr e ↦ (shut_down r.1, ap (λ b. if b then k r.1 else done (shut_down r.1)) e, inl refl)
  ]

  bind-Good :
      {A : Type 0} {m : Run A} {a : A} (k : A → Run Spider)
      → m ≡ done a
      → Good (k a)
      → Good (m >>= k)
  bind-Good k e h = subst (λ o. Good (o >>= k)) (sym e) h

  -- The program with these pools.
  abbrev having : ThreadPool → ThreadPool → ThreadPool → ThreadPool → Spider
  having d e c r = record {
    global = (with_pools g).global;
    downloaders = d;
    extractors = e;
    schedulers = c;
    dnsers = r;
  }

  add_all_tasks-Good :
      (d e c r : ThreadPool)
      → Holds g.downloader_num [] d
      → Holds g.extractor_num [] e
      → Holds g.scheduler_num [] c
      → Holds g.dnser_num [] r
      → Good (add_all_tasks (having d e c r))
  unfolding add_all_tasks Good
  add_all_tasks-Good d e c r hd he hc hr =
      let d' = add_tasks g.downloader_num 0 d in
      let e' = add_tasks g.extractor_num 0 e in
      let c' = add_tasks g.scheduler_num 0 c in
      let r' = add_tasks g.dnser_num 0 r in
      or_shut_down-Good (d'.0, having d'.1 e c r) add_extractor_tasks
        (λ _.
          or_shut_down-Good (e'.0, having d'.1 e'.1 c r) add_scheduler_tasks
            (λ _.
              or_shut_down-Good (c'.0, having d'.1 e'.1 c'.1 r) add_dnser_tasks
                (λ _.
                  or_shut_down-Good (r'.0, having d'.1 e'.1 c'.1 r'.1) done
                    (λ _. (
                      having d'.1 e'.1 c'.1 r'.1,
                      refl,
                      inr (record {
                        downloaders = add_tasks-Holds g.downloader_num d hd;
                        extractors = add_tasks-Holds g.extractor_num e he;
                        schedulers = add_tasks-Holds g.scheduler_num c hc;
                        dnsers = add_tasks-Holds g.dnser_num r hr;
                        global = refl;
                      }),
                    )))))

  init_pools-Good :
      (a : Answers)
      → g.downloader_num < 2 ^ 32
      → g.extractor_num < 2 ^ 32
      → g.scheduler_num < 2 ^ 32
      → g.dnser_num < 2 ^ 32
      → Good (init_pools a (with_pools g))
  unfolding init_pools
  init_pools-Good a nd ne nc nr =
      let (d, ran_d, hd) = init_pool-Holds a.to_downloaders g.downloader_num nd in
      let (e, ran_e, he) = init_pool-Holds a.to_extractors g.extractor_num ne in
      let (c, ran_c, hc) = init_pool-Holds a.to_schedulers g.scheduler_num nc in
      let (r, ran_r, hr) = init_pool-Holds a.to_dnsers g.dnser_num nr in
      let s = with_pools g in
      bind-Good (λ q. or_shut_down (q.0, record s { downloaders = q.1 }) (init_extractors a)) ran_d
        (or_shut_down-Good (d.0, record s { downloaders = d.1 }) (init_extractors a)
          (λ ok_d.
            bind-Good
              (λ q. or_shut_down (q.0, having d.1 q.1 s.schedulers s.dnsers) (init_schedulers a))
              ran_e
              (or_shut_down-Good (e.0, having d.1 e.1 s.schedulers s.dnsers) (init_schedulers a)
                (λ ok_e.
                  bind-Good (λ q. or_shut_down (q.0, having d.1 e.1 q.1 s.dnsers) (init_dnsers a))
                    ran_c
                    (or_shut_down-Good (c.0, having d.1 e.1 c.1 s.dnsers) (init_dnsers a)
                      (λ ok_c.
                        bind-Good (λ q. or_shut_down (q.0, having d.1 e.1 c.1 q.1) add_all_tasks)
                          ran_r
                          (or_shut_down-Good (r.0, having d.1 e.1 c.1 r.1) add_all_tasks
                            (λ ok_r.
                              add_all_tasks-Good d.1 e.1 c.1 r.1 (hd ok_d) (he ok_e) (hc ok_c)
                                (hr ok_r)))))))))

-- An initialised global object with fewer than 2^32 threads of each kind: whatever the pthread library
-- answers, init_modules ends. Then the program is to be shut down; or every pool has as many threads,
-- all of them running, as the object has for its kind, and the tasks of all ids below that number in
-- their order, where no thread has taken one yet, and nothing of the object but its pointers to the
-- pools is changed.
pub init_modules-AreReady :
    (a : Answers) (g : Global)
    → g.has_init ≡ true
    → g.downloader_num < 2 ^ 32
    → g.extractor_num < 2 ^ 32
    → g.scheduler_num < 2 ^ 32
    → g.dnser_num < 2 ^ 32
    → (s : Spider) × (init_modules a g ≡ done s) × ((s.global.to_be_shutdown ≡ true) ⊎ AreReady g s)
unfolding init_modules Good
init_modules-AreReady a g e nd ne nc nr =
    let (s, ran, good) = init_pools-Good g a nd ne nc nr in
    (s, ap (λ (b : Bool). if b then init_pools a (with_pools g) else fault) e ∙ ran, good)
