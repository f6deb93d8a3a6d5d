-- ===== src/Spider/Filling.antt =====
-- src/myjfm_spider.cc: the tasks that the pools get.
use myjfm_spider.Prelude.{
  ℕ, zero, suc, ◌≡◌, refl, sym, ap, ◌∙◌, Option, some, List, [], ◌∷◌, ◌++◌, append-nil,
  append_assoc, if◌then◌else◌,
}
use myjfm_spider.ResCode.{s_ok, is_ok}
use myjfm_spider.Squeue.{push}
use myjfm_spider.Squeue.Fifo.{push-queue}
use myjfm_spider.ThreadPool.{ThreadPool, add_task}
use myjfm_spider.Spider.{add_tasks}

-- The ids from `i` on.
abbrev pub tasks_from : ℕ → ℕ → List (Option ℕ)
tasks_from i zero = []
tasks_from i (suc n) = some i ∷ tasks_from (suc i) n

-- The pool with these tasks behind those that it has.
pub record Fills (p : ThreadPool) (more : List (Option ℕ)) (p' : ThreadPool) : Type 0 where
  pub threads : p'.threads ≡ p.threads
  pub tasks : p'.tasks.queue ≡ p.tasks.queue ++ more

add_task-Fills :
    (i : ℕ) (p : ThreadPool)
    → ((add_task (some i) p).0 ≡ s_ok) × Fills p (some i ∷ []) (add_task (some i) p).1
unfolding add_task
add_task-Fills i p =
    (unfold push in refl, record { threads = refl; tasks = push-queue (some i) p.tasks })

add_tasks-suc :
    (n i : ℕ) (p : ThreadPool)
    → add_tasks (suc n) i p ≡ (
        if is_ok (add_task (some i) p).0
        then add_tasks n (suc i) (add_task (some i) p).1
        else add_task (some i) p)
unfolding add_tasks
add_tasks-suc n i p = refl

pub add_tasks-Fills :
    (n i : ℕ) (p : ThreadPool)
    → (p' : ThreadPool) × (add_tasks n i p ≡ (s_ok, p')) × Fills p (tasks_from i n) p'
add_tasks-Fills zero i p =
    (p, unfold add_tasks in refl, record { threads = refl; tasks = sym (append-nil p.tasks.queue) })
add_tasks-Fills (suc n) i p =
    let (ran, one) = add_task-Fills i p in
    let r = add_task (some i) p in
    let (p', rest, all) = add_tasks-Fills n (suc i) r.1 in
    (
      p',
      add_tasks-suc n i p ∙ ap (λ c. if is_ok c then add_tasks n (suc i) r.1 else r) ran ∙ rest,
      record {
        threads = all.threads ∙ one.threads;
        tasks =
            all.tasks
            ∙ ap (λ q. q ++ tasks_from (suc i) n) one.tasks
            ∙ append_assoc p.tasks.queue (some i ∷ []) (tasks_from (suc i) n);
      },
    )
