-- ===== src/Scheduler.antt =====
-- src/scheduler_task.h and src/scheduler_task.cc. A url is passed by a shared pointer; `none` is the
-- null pointer. The queue of the scheduler is the one of `pop`'s thread, so a call of `pop` that
-- sleeps ends the step.
pub mod Placing
use myjfm_spider.Prelude.{
  Run, done, ◌>>=◌, ℕ, suc, ◌+◌, Option, none, some, List, [], ◌∷◌, length, set, get_or, Bool, true,
  false,
}
use myjfm_spider.ResCode.{ResCode, s_ok, s_fail}
use myjfm_spider.Md5.{Md5Caculator, shuffle}
use myjfm_spider.Url.{Url, get_md5}
use myjfm_spider.Squeue.Vectors.{push_at_index}
use myjfm_spider.Squeue.{SQueue, squeue_new, push, pop}

pub record SchedulerTask : Type 0 where
  pub downloader_num : ℕ
  pub downloader_queues : List (SQueue Url)

-- `init`: the queues of the downloaders that the global object has.
unfoldable pub init : List (SQueue Url) → SchedulerTask
init queues = record { downloader_num = length queues; downloader_queues = queues }

-- Behind `shuffle` and behind `get_md5`. The queue at `index` gets the url.
abbrev pub push_at : Option ℕ → Url → SchedulerTask → Run ((ResCode × Url) × SchedulerTask)
push_at none u s = done ((s_fail, u), s)
push_at (some index) u s = push_at_index index u s.downloader_queues >>= λ queues.
    done ((s_ok, u), record s { downloader_queues = queues })

abbrev pub place : ResCode × List ℕ → Url → SchedulerTask → Run ((ResCode × Url) × SchedulerTask)
place (s_ok, value) u s = push_at (shuffle value s.downloader_num 0) u s
place (r, value) u s = done ((s_fail, u), s)

-- `put_url_into_downloader`: the result and the url, whose MD5 is kept in it from now on.
unfoldable pub put_url_into_downloader :
    Md5Caculator → Url → SchedulerTask → Run ((ResCode × Url) × SchedulerTask)
put_url_into_downloader stack u s = place (get_md5 stack u).0 (get_md5 stack u).1 s

abbrev pub schedule_url : Md5Caculator → Option (Option Url) → SchedulerTask → Run SchedulerTask
schedule_url stack none s = done s
schedule_url stack (some none) s = done s
schedule_url stack (some (some u)) s = put_url_into_downloader stack u s >>= λ r. done r.1

-- One round of `operator()`.
unfoldable pub schedule_next :
    Md5Caculator → SQueue (Option Url) × SchedulerTask → Run (SQueue (Option Url) × SchedulerTask)
schedule_next stack (q, s) = schedule_url stack (pop q).0 s >>= λ s'. done ((pop q).1, s')
