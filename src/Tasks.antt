-- ===== src/Tasks.antt =====
-- The init of src/downloader_task.cc, src/extractor_task.cc, src/scheduler_task.cc and
-- src/dnser_task.cc: how the tasks get their queues from the global object. A shared pointer to a queue
-- is the queue's index in the object's vector, `none` where it is NULL; a call of abort is `fault`.
pub mod Connected
use myjfm_spider.Prelude.{
  ℕ, zero, suc, Bool, false, Option, none, some, List, [], ◌∷◌, ◌++◌, if◌then◌else◌, Run, done,
  fault, ◌>>=◌,
}
use myjfm_spider.ResCode.{ResCode, s_ok, s_fail, is_ok}
use myjfm_spider.Global.{Global}
use myjfm_spider.Global.Access.{
  queue_of, get_downloader_num, get_extractor_num, get_scheduler_num, get_dnser_num, get_save_path,
  get_create_connection_timeout, get_send_timeout, get_recv_timeout, get_dns_cache,
}

-- The queue that the task takes from, and those that it gives to.
pub record Queues : Type 0 where
  pub own : Option ℕ
  pub others : List (Option ℕ)

abbrev pub queues_new : Queues
queues_new = record { own = none; others = [] }

-- The indices from `i` on, as many as there are elements.
abbrev pub indices : {A : Type 0} → ℕ → List A → List ℕ
indices i [] = []
indices i (x ∷ xs) = i ∷ indices (suc i) xs

abbrev pub or_abort {ℓ} : {A : Type ℓ} → Option A → Run A
or_abort none = fault
or_abort (some a) = done a

abbrev pub or_abort_run {ℓ} : {A : Type ℓ} → Option (Run A) → Run A
or_abort_run none = fault
or_abort_run (some r) = r

-- `get_downloader_queue` and its fellows, for the pointer to the queue.
unfoldable pub pointer_at : {A : Type 0} → Global → ℕ → List A → ℕ → Run (ResCode × Option ℕ)
pointer_at g num queues id = or_abort_run (queue_of g num id (indices 0 queues))

-- The loop that copies the queues from `i` on; the result of the getter is not looked at.
unfoldable pub copy_queues :
    (ℕ → Run (ResCode × Option ℕ)) → ℕ → ℕ → List (Option ℕ) → Run (List (Option ℕ))
copy_queues get zero i queues = done queues
copy_queues get (suc n) i queues = get i >>= λ r. copy_queues get n (suc i) (queues ++ r.1 ∷ [])

-- Behind the getter of the task's own queue.
abbrev pub own_of {ℓ} : {A : Type ℓ} → ResCode × Option ℕ → A → (Option ℕ → Run A) → Run A
own_of r stops k = if is_ok r.0 then k r.1 else done stops

abbrev pub wired : Option ℕ → List (Option ℕ) → ResCode × Queues
wired own others = (s_ok, record { own = own; others = others })

abbrev pub failed : ResCode × Queues
failed = (s_fail, queues_new)

-- With the three timeouts behind the queues.
unfoldable pub init_downloader : ℕ → Global → Run (ResCode × Queues × List ℕ)
init_downloader id g = pointer_at g g.downloader_num g.downloader_queues id >>= λ r.
    own_of r (s_fail, queues_new, [])
      (λ own. or_abort (get_extractor_num g) >>= λ num.
        copy_queues (pointer_at g g.extractor_num g.extractor_queues) num 0 [] >>= λ others.
        or_abort (get_create_connection_timeout g) >>= λ create.
        or_abort (get_send_timeout g) >>= λ send. or_abort (get_recv_timeout g) >>= λ recv.
        done (s_ok, record { own = own; others = others }, create ∷ send ∷ recv ∷ []))

-- With the directory for pages behind the queues.
unfoldable pub init_extractor : ℕ → Global → Run (ResCode × Queues × List ℕ)
init_extractor id g = or_abort (get_dnser_num g) >>= λ num.
    pointer_at g g.extractor_num g.extractor_queues id >>= λ r.
    own_of r (s_fail, queues_new, [])
      (λ own. or_abort (get_save_path g) >>= λ save_path.
        copy_queues (pointer_at g g.dnser_num g.dnser_queues) num 0 [] >>= λ others.
        done (s_ok, record { own = own; others = others }, save_path))

unfoldable pub init_scheduler : ℕ → Global → Run (ResCode × Queues)
init_scheduler id g = or_abort (get_downloader_num g) >>= λ num.
    pointer_at g g.scheduler_num g.scheduler_queues id >>= λ r. own_of r failed (λ own.
      copy_queues (pointer_at g g.downloader_num g.downloader_queues) num 0 [] >>= λ others.
      done (wired own others))

-- `adns_init` returns 0 where `has_adns` holds. The cache, which is set or not, is got in front of it.
unfoldable pub init_dnser : Bool → ℕ → Global → Run (ResCode × Queues × Bool)
init_dnser has_adns id g = pointer_at g g.dnser_num g.dnser_queues id >>= λ r.
    own_of r (s_fail, queues_new, false)
      (λ own. or_abort (get_scheduler_num g) >>= λ num.
        copy_queues (pointer_at g g.scheduler_num g.scheduler_queues) num 0 [] >>= λ others.
        or_abort (get_dns_cache g) >>= λ cache.
        done (if has_adns then s_ok else s_fail, record { own = own; others = others }, cache))
