-- ===== src/Spider.antt =====
-- src/myjfm_spider.cc: the program's start, from its arguments to the thread pools with their tasks. A
-- task is the id that it is made with; `none` is the end of the process by exit or abort.
pub mod Filling
pub mod Ready
use myjfm_spider.Prelude.{
  ℕ, zero, suc, Bool, true, false, ◌||◌, Option, none, some, List, [], ◌∷◌, ◌++◌, if◌then◌else◌,
  codes, bytes_eq, Run, done, fault, ◌>>=◌,
}
use myjfm_spider.ResCode.{ResCode, s_ok, is_ok}
use myjfm_spider.Md5.{Md5Caculator}
use myjfm_spider.Utility.Paths.{get_file_full_path}
use myjfm_spider.Global.{Global}
use myjfm_spider.Global.Starting.{init_global}
use myjfm_spider.Thread.{Pthreads}
use myjfm_spider.ThreadPool.{ThreadPool, thread_pool_new, init_pool, add_task, stop_pool}

-- What the arguments ask for: a configuration file, or the usage and the end of the process.
pub data Asked : Type 0 where
  asked_file : Run (List ℕ) → Asked
  asked_usage : ℕ → Asked

abbrev pub usage_for : List ℕ → Asked
usage_for arg =
    if bytes_eq arg (codes "-h") || bytes_eq arg (codes "--help")
    then asked_usage 0
    else asked_usage 1

-- `argv` without the program's name; `cwd` and `home` as for get_file_full_path.
unfoldable pub asked_for : Option (List ℕ) → Option (List ℕ) → List ℕ → List (List ℕ) → Asked
asked_for cwd home cur_path [] = asked_file (done (cur_path ++ codes "/myjfm_spider.conf"))
asked_for cwd home cur_path (arg ∷ []) = usage_for arg
asked_for cwd home cur_path (arg ∷ name ∷ []) =
    if bytes_eq arg (codes "-f")
    then asked_file (get_file_full_path cwd home name)
    else asked_usage 1
asked_for cwd home cur_path (arg ∷ name ∷ other ∷ args) = asked_usage 1

-- `none` where the file cannot be read: the process ends. The result of `init` is not looked at.
unfoldable pub load_config :
    (List ℕ → Bool)
    → (List ℕ → Option (List ℕ))
    → (List ℕ → Bool)
    → Md5Caculator
    → List ℕ
    → List ℕ
    → Global
    → Option (Run (ResCode × Global))
load_config readable files access stack cur_path name g =
    if readable name then init_global files access stack cur_path name g else none

-- The program with its four thread pools; the global object has pointers to them.
pub record Spider : Type 0 where
  pub global : Global
  pub downloaders : ThreadPool
  pub extractors : ThreadPool
  pub schedulers : ThreadPool
  pub dnsers : ThreadPool

-- `set_downloader_threadpool` and its fellows, which succeed, since no pointer is NULL; the address of
-- a pool is its place in the record.
abbrev pub with_pools : Global → Spider
with_pools g = record {
  global = record g {
    downloader_threadpool = some 0;
    extractor_threadpool = some 1;
    scheduler_threadpool = some 2;
    dnser_threadpool = some 3;
  };
  downloaders = thread_pool_new g.downloader_num;
  extractors = thread_pool_new g.extractor_num;
  schedulers = thread_pool_new g.scheduler_num;
  dnsers = thread_pool_new g.dnser_num;
}

-- `add_task` for the ids from `i` on, up to the first that fails.
unfoldable pub add_tasks : ℕ → ℕ → ThreadPool → ResCode × ThreadPool
add_tasks zero i p = (s_ok, p)
add_tasks (suc n) i p =
    let r = add_task (some i) p in
    let rest = add_tasks n (suc i) r.1 in if is_ok r.0 then rest else r

-- Behind the label `failed`.
abbrev pub shut_down : Spider → Spider
shut_down s = record s { global = record s.global { to_be_shutdown = true } }

-- A step that may fail, and what follows.
abbrev pub or_shut_down : ResCode × Spider → (Spider → Run Spider) → Run Spider
or_shut_down r k = if is_ok r.0 then k r.1 else done (shut_down r.1)

-- The pthread library's answers to the pools.
pub record Answers : Type 0 where
  pub to_downloaders : ℕ → Pthreads
  pub to_extractors : ℕ → Pthreads
  pub to_schedulers : ℕ → Pthreads
  pub to_dnsers : ℕ → Pthreads

-- The tasks of the resolvers; those of the schedulers and then these; and so on, the last part first.
abbrev pub add_dnser_tasks : Spider → Run Spider
add_dnser_tasks s =
    let r = add_tasks s.global.dnser_num 0 s.dnsers in
    or_shut_down (r.0, record s { dnsers = r.1 }) done

abbrev pub add_scheduler_tasks : Spider → Run Spider
add_scheduler_tasks s =
    let r = add_tasks s.global.scheduler_num 0 s.schedulers in
    or_shut_down (r.0, record s { schedulers = r.1 }) add_dnser_tasks

abbrev pub add_extractor_tasks : Spider → Run Spider
add_extractor_tasks s =
    let r = add_tasks s.global.extractor_num 0 s.extractors in
    or_shut_down (r.0, record s { extractors = r.1 }) add_scheduler_tasks

unfoldable pub add_all_tasks : Spider → Run Spider
add_all_tasks s =
    let r = add_tasks s.global.downloader_num 0 s.downloaders in
    or_shut_down (r.0, record s { downloaders = r.1 }) add_extractor_tasks

-- The pool of the resolvers with all that follows, and so on.
abbrev pub init_dnsers : Answers → Spider → Run Spider
init_dnsers a s = init_pool a.to_dnsers s.dnsers >>= λ r.
    or_shut_down (r.0, record s { dnsers = r.1 }) add_all_tasks

abbrev pub init_schedulers : Answers → Spider → Run Spider
init_schedulers a s = init_pool a.to_schedulers s.schedulers >>= λ r.
    or_shut_down (r.0, record s { schedulers = r.1 }) (init_dnsers a)

abbrev pub init_extractors : Answers → Spider → Run Spider
init_extractors a s = init_pool a.to_extractors s.extractors >>= λ r.
    or_shut_down (r.0, record s { extractors = r.1 }) (init_schedulers a)

unfoldable pub init_pools : Answers → Spider → Run Spider
init_pools a s = init_pool a.to_downloaders s.downloaders >>= λ r.
    or_shut_down (r.0, record s { downloaders = r.1 }) (init_extractors a)

-- The getters and setters abort where the object is not initialised.
unfoldable pub init_modules : Answers → Global → Run Spider
init_modules a g = if g.has_init then init_pools a (with_pools g) else fault

-- `shutdown`: every pool is stopped, in this order. The pid file and the end of the global object are
-- not modelled.
unfoldable pub stop_pools : Answers → Spider → Spider
stop_pools a s = record s {
  downloaders = (stop_pool a.to_downloaders s.downloaders).1;
  extractors = (stop_pool a.to_extractors s.extractors).1;
  schedulers = (stop_pool a.to_schedulers s.schedulers).1;
  dnsers = (stop_pool a.to_dnsers s.dnsers).1;
}
