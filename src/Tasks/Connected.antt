-- ===== src/Tasks/Connected.antt =====
-- The queues of the tasks, where the global object has as many as it says.
use myjfm_spider.Prelude.{
  ℕ, zero, suc, ◌+◌, ◌<◌, ◌≡◌, refl, sym, ap, ◌∙◌, Bool, true, false, Option, none, some, List, [],
  ◌∷◌, ◌++◌, append-nil, append_assoc, arith, leb, if◌then◌else◌, length, length-replicate, Run,
  done, ◌>>=◌,
}
use myjfm_spider.ResCode.{ResCode, s_ok, s_out_range}
use myjfm_spider.Md5.{Md5Caculator}
use myjfm_spider.Squeue.{squeue_new}
use myjfm_spider.Global.Starting.{with_paths, configure, init_global}
use myjfm_spider.Global.Started.{init_global-IsStarted}
use myjfm_spider.Global.{Global, global_new, checked}
use myjfm_spider.Global.Access.{
  queue_at_id, queue_of, get_extractor_num, get_downloader_num, get_scheduler_num, get_dnser_num,
  get_save_path, get_create_connection_timeout, get_send_timeout, get_recv_timeout, get_dns_cache,
}
use myjfm_spider.Tasks.{
  indices, or_abort, or_abort_run, pointer_at, copy_queues, init_downloader, init_extractor,
  init_scheduler, init_dnser,
}

-- The pointers to the queues from `i` on.
abbrev pub all_from : ℕ → ℕ → List (Option ℕ)
all_from i zero = []
all_from i (suc n) = some i ∷ all_from (suc i) n

queue_at_id-indices :
    {A : Type 0} (xs : List A) (i k : ℕ)
    → k < length xs
    → queue_at_id (indices i xs) k ≡ done (s_ok, some (i + k))
queue_at_id-indices [] i k h = absurd (omega arith)
queue_at_id-indices (x ∷ xs) i zero h = ap (λ j. done (s_ok, some j)) (omega arith)
queue_at_id-indices (x ∷ xs) i (suc k) h =
    queue_at_id-indices xs (suc i) k (omega (arith, h))
    ∙ ap (λ j. done (s_ok, some j)) (omega arith)

module _ {A : Type 0} (g : Global) (num : ℕ) (queues : List A) (init : g.has_init ≡ true)
    (size : length queues ≡ num) where
  pub pointer_at-some : (k : ℕ) → k < num → pointer_at g num queues k ≡ done (s_ok, some k)
  unfolding pointer_at queue_of
  pointer_at-some k h =
      let small : leb num k ≡ false = ground (arith, h) in
      ap
        (λ b. or_abort_run (
          if b
          then some
              (if leb num k then done (s_out_range, none) else queue_at_id (indices 0 queues) k)
          else none))
        init
      ∙ ap (λ b. if b then done (s_out_range, none) else queue_at_id (indices 0 queues) k) small
      ∙ queue_at_id-indices queues 0 k (omega (arith, h, size))
      ∙ ap (λ j. done (s_ok, some j)) (omega arith)

  copy_queues-suc :
      (get : ℕ → Run (ResCode × Option ℕ)) (n i : ℕ) (qs : List (Option ℕ))
      → copy_queues get (suc n) i qs ≡ (get i >>= λ r. copy_queues get n (suc i) (qs ++ r.1 ∷ []))
  unfolding copy_queues
  copy_queues-suc get n i qs = refl

  pub copy_queues-all :
      (n i : ℕ) (qs : List (Option ℕ))
      → i + n ≡ num
      → copy_queues (pointer_at g num queues) n i qs ≡ done (qs ++ all_from i n)
  copy_queues-all zero i qs e = unfold copy_queues in ap done (sym (append-nil qs))
  copy_queues-all (suc n) i qs e =
      copy_queues-suc (pointer_at g num queues) n i qs
      ∙ ap (λ o. o >>= λ r. copy_queues (pointer_at g num queues) n (suc i) (qs ++ r.1 ∷ []))
          (pointer_at-some i (omega (arith, e)))
      ∙ copy_queues-all n (suc i) (qs ++ some i ∷ []) (omega (arith, e))
      ∙ ap done (append_assoc qs (some i ∷ []) (all_from (suc i) n))

-- A step that ends, and what follows.
runs :
    {A B : Type 0} {m : Run A} {a : A} (k : A → Run B) {o : Run B}
    → m ≡ done a
    → k a ≡ o
    → (m >>= k) ≡ o
runs k e f = ap (λ m. m >>= k) e ∙ f

-- What the tasks of every kind get: each its own queue, and all the queues of the next kind.
pub record AreConnected (g : Global) : Type 0 where
  pub downloaders :
      (id : ℕ)
      → id < g.downloader_num
      → init_downloader id g
        ≡ done (
          s_ok,
          record { own = some id; others = all_from 0 g.extractor_num },
          g.create_connection_timeout ∷ g.send_timeout ∷ g.recv_timeout ∷ [],
        )
  pub extractors :
      (id : ℕ)
      → id < g.extractor_num
      → init_extractor id g
        ≡ done (s_ok, record { own = some id; others = all_from 0 g.dnser_num }, g.save_path)
  pub schedulers :
      (id : ℕ)
      → id < g.scheduler_num
      → init_scheduler id g
        ≡ done (s_ok, record { own = some id; others = all_from 0 g.downloader_num })
  pub dnsers :
      (id : ℕ)
      → id < g.dnser_num
      → init_dnser true id g
        ≡ done (s_ok, record { own = some id; others = all_from 0 g.scheduler_num }, true)

module _ (g : Global) (init : g.has_init ≡ true)
    (e_size : length g.extractor_queues ≡ g.extractor_num)
    (d_size : length g.downloader_queues ≡ g.downloader_num)
    (s_size : length g.scheduler_queues ≡ g.scheduler_num)
    (r_size : length g.dnser_queues ≡ g.dnser_num) where
  got : {A : Type 0} (a : A) → or_abort (checked g a) ≡ done a
  got a = ap (λ b. or_abort (if b then some a else none)) init

  init_downloader-own :
      (id : ℕ)
      → id < g.downloader_num
      → init_downloader id g
        ≡ done (
          s_ok,
          record { own = some id; others = all_from 0 g.extractor_num },
          g.create_connection_timeout ∷ g.send_timeout ∷ g.recv_timeout ∷ [],
        )
  unfolding init_downloader get_extractor_num get_create_connection_timeout get_send_timeout
      get_recv_timeout
  init_downloader-own id h =
      runs _ (pointer_at-some g g.downloader_num g.downloader_queues init d_size id h) (
        runs _ (got g.extractor_num) (
          runs _
            (copy_queues-all g g.extractor_num g.extractor_queues init e_size g.extractor_num 0 []
              (omega arith))
            (runs _ (got g.create_connection_timeout)
              (runs _ (got g.send_timeout) (runs _ (got g.recv_timeout) refl)))))

  init_extractor-own :
      (id : ℕ)
      → id < g.extractor_num
      → init_extractor id g
        ≡ done (s_ok, record { own = some id; others = all_from 0 g.dnser_num }, g.save_path)
  unfolding init_extractor get_dnser_num get_save_path
  init_extractor-own id h = runs _ (got g.dnser_num) (
      runs _ (pointer_at-some g g.extractor_num g.extractor_queues init e_size id h) (
        runs _ (got g.save_path) (
          runs _
            (copy_queues-all g g.dnser_num g.dnser_queues init r_size g.dnser_num 0 []
              (omega arith))
            refl)))

  init_scheduler-own :
      (id : ℕ)
      → id < g.scheduler_num
      → init_scheduler id g
        ≡ done (s_ok, record { own = some id; others = all_from 0 g.downloader_num })
  unfolding init_scheduler get_downloader_num
  init_scheduler-own id h = runs _ (got g.downloader_num) (
      runs _ (pointer_at-some g g.scheduler_num g.scheduler_queues init s_size id h) (
        runs _
          (copy_queues-all g g.downloader_num g.downloader_queues init d_size g.downloader_num 0 []
            (omega arith))
          refl))

  init_dnser-own :
      (id : ℕ)
      → id < g.dnser_num
      → init_dnser true id g
        ≡ done (s_ok, record { own = some id; others = all_from 0 g.scheduler_num }, g.dns_cache)
  unfolding init_dnser get_scheduler_num get_dns_cache
  init_dnser-own id h = runs _ (pointer_at-some g g.dnser_num g.dnser_queues init r_size id h) (
      runs _ (got g.scheduler_num) (
        runs _
          (copy_queues-all g g.scheduler_num g.scheduler_queues init s_size g.scheduler_num 0 []
            (omega arith))
          (runs _ (got g.dns_cache) refl)))

-- A new object with a name that is not empty, and files whose configuration is read to the end, with
-- one resolver or more: init returns S_OK with an object in which every task, by the id that is below
-- the number of its kind, gets S_OK from its own init, with its own queue of that id and all the queues
-- of the kind that it gives to, in their order: a downloader those of the extractors, with the
-- timeouts; an extractor those of the resolvers, with the directory for pages; a scheduler those of the
-- downloaders; a resolver, where adns starts, those of the schedulers, with the cache.
pub init_global-AreConnected :
    (files : List ℕ → Option (List ℕ)) (access : List ℕ → Bool) (stack : Md5Caculator)
    (path name : List ℕ) (g : Global)
    → 0 < length name
    → configure files access (with_paths path name global_new) ≡ some g
    → 0 < g.dnser_num
    → (g' : Global) × (init_global files access stack path name global_new ≡ some (done (s_ok, g')))
      × AreConnected g'
init_global-AreConnected files access stack path name g some_ e pos =
    let (g', ran, is) = init_global-IsStarted files access stack path name g some_ e pos in
    let (e_num, d_num, s_num, r_num) = is.numbers in
    let e_size =
      ap length is.extractors ∙ length-replicate g.extractor_num squeue_new ∙ sym e_num in
    let d_size =
      ap length is.downloaders ∙ length-replicate g.downloader_num squeue_new ∙ sym d_num in
    let s_size =
      ap length is.schedulers ∙ length-replicate g.scheduler_num squeue_new ∙ sym s_num in
    let r_size = is.dnsers ∙ sym r_num in
    (
      g',
      ran,
      record {
        downloaders = init_downloader-own g' is.init e_size d_size s_size r_size;
        extractors = init_extractor-own g' is.init e_size d_size s_size r_size;
        schedulers = init_scheduler-own g' is.init e_size d_size s_size r_size;
        dnsers = λ id h.
            init_dnser-own g' is.init e_size d_size s_size r_size id h
            ∙ ap
                (λ c.
                  done (s_ok, record { own = some id; others = all_from 0 g'.scheduler_num }, c))
                is.cache;
      },
    )
