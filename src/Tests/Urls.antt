-- ===== src/Tests/Urls.antt =====
-- Runs of src/url.cc, src/squeue.h and src/scheduler_task.cc, and the theorems on them applied.
use myjfm_spider.Md5.{Md5Caculator}
use myjfm_spider.Prelude.{
  ℕ, ◌<◌, ◌≡◌, ◌↔◌, refl, none, some, [], ◌∷◌, arith, codes, length, bytes_eq, done, true,
}
use myjfm_spider.ResCode.{s_ok}
use myjfm_spider.Utility.{str2integer, read_unsigned, ltrim, read_digits, is_space, is_digit}
use myjfm_spider.Url.{url_new, find, c_str, parsed, canonical, get_md5}
use myjfm_spider.Url.Finding.{print_url, port_or_80, file_or_slash, IsSite}
use myjfm_spider.Url.Parsing.{url_new-print_url}
use myjfm_spider.Url.Canonical.{Parts, IsParts, Same, text_of, canonical-url_new_iff}
use myjfm_spider.Squeue.{SQueue, squeue_new, push, pop, pop_woken, signal, test_and_take}
use myjfm_spider.Squeue.Fifo.{Reachable, start, pushes, pops, goes_on, IsFair, Reachable-IsFair}
use myjfm_spider.Scheduler.{SchedulerTask, put_url_into_downloader}
use myjfm_spider.Scheduler.Placing.{pushed_at, put_url_into_downloader-Same}
use myjfm_spider.Tests.Digests.{any_memory}

port_8080 : (url_new (codes "http://a.b:8080/c")).port ≡ 8080
unfolding url_new find c_str bytes_eq str2integer read_unsigned ltrim read_digits is_space is_digit
port_8080 = refl

abbrev parts_a : Parts
parts_a = record { site = codes "ab"; port = none; file = none }

abbrev parts_b : Parts
parts_b = record { site = codes "ab"; port = some 0; file = some [] }

name-IsSite : IsSite (codes "ab")
name-IsSite = (omega arith, (omega arith, (omega arith, tt)), (omega arith, (omega arith, tt)))

parts_a-IsParts : IsParts parts_a
parts_a-IsParts = (name-IsSite, tt)

parts_b-IsParts : IsParts parts_b
parts_b-IsParts = (name-IsSite, omega arith)

parts_a-Same : Same parts_a parts_b
parts_a-Same = (refl, refl, refl)

url_new-print_url_example :
    url_new (print_url (codes "ab") (some 8080) (some (codes "x:/y")))
    ≡ parsed
        (print_url (codes "ab") (some 8080) (some (codes "x:/y")))
        (codes "ab")
        (port_or_80 (some 8080))
        (file_or_slash (some (codes "x:/y")))
url_new-print_url_example =
    url_new-print_url (codes "ab") (some 8080) (some (codes "x:/y")) name-IsSite (omega arith)

canonical-url_new_iff_example :
    (canonical (url_new (text_of parts_a)) ≡ canonical (url_new (text_of parts_b)))
    ↔ Same parts_a parts_b
canonical-url_new_iff_example =
    canonical-url_new_iff parts_a parts_b parts_a-IsParts parts_b-IsParts

-- One thread sleeps, an element comes, and the thread goes on and takes it.
abbrev asleep : SQueue ℕ
asleep = (pop squeue_new).1

abbrev signalled : SQueue ℕ
signalled = (push 5 asleep).1

one_woken : 0 < signalled.woken
unfolding pop test_and_take push signal
one_woken = omega arith

went_on : Reachable ℕ (pop_woken signalled).1 (5 ∷ []) (5 ∷ [])
unfolding pop test_and_take push signal pop_woken
went_on = goes_on (pushes 5 (pops start)) one_woken

Reachable-IsFair_example : IsFair (pop_woken signalled).1 (5 ∷ []) (5 ∷ [])
Reachable-IsFair_example = Reachable-IsFair ℕ (pop_woken signalled).1 (5 ∷ []) (5 ∷ []) went_on

abbrev task_two : SchedulerTask
task_two = record { downloader_num = 2; downloader_queues = squeue_new ∷ squeue_new ∷ [] }

abbrev other_memory : Md5Caculator
other_memory = record any_memory { count0 = 5; finished = true }

put_url_into_downloader-Same_example :
    (i : ℕ) × (i < length task_two.downloader_queues)
    × (i < length task_two.downloader_queues)
    × (put_url_into_downloader any_memory (url_new (text_of parts_a)) task_two
        ≡ done (
          (s_ok, (get_md5 any_memory (url_new (text_of parts_a))).1),
          pushed_at i (get_md5 any_memory (url_new (text_of parts_a))).1 task_two,
        ))
    × (put_url_into_downloader other_memory (url_new (text_of parts_b)) task_two
        ≡ done (
          (s_ok, (get_md5 other_memory (url_new (text_of parts_b))).1),
          pushed_at i (get_md5 other_memory (url_new (text_of parts_b))).1 task_two,
        ))
put_url_into_downloader-Same_example =
    put_url_into_downloader-Same any_memory other_memory parts_a parts_b task_two task_two refl refl
      parts_a-IsParts parts_b-IsParts parts_a-Same refl refl refl (omega arith)
