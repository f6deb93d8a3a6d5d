-- ===== src/Scheduler/Placing.antt =====
-- src/scheduler_task.cc and `MD5::shuffle`: the queue that a url goes to.
use myjfm_spider.Prelude.{
  ℕ, zero, suc, ◌%◌, ◌<◌, ◌≡◌, refl, sym, ◌∙◌, Option, some, List, arith, length, take, ap, done,
  ◌>>=◌,
}
use myjfm_spider.ResCode.{ResCode, s_ok}
use myjfm_spider.Md5.{Md5Caculator, calculator_of, digest, shuffle, decode, add_shares}
use myjfm_spider.Url.{Url, url_new, canonical, get_md5}
use myjfm_spider.Url.Canonical.{Parts, IsParts, Same, text_of, get_md5-Same, get_md5-url_new}
use myjfm_spider.Md5.Digest.{digest-calculator_of}
use myjfm_spider.Squeue.Vectors.{push_into, push_at_index-push_into}
use myjfm_spider.Scheduler.{SchedulerTask, push_at, place, put_url_into_downloader}

-- The index that `shuffle` comes to.
abbrev pub IsIndex : ℕ → Option ℕ → Type 0
IsIndex x r = (i : ℕ) × (r ≡ some i) × (i < x)

-- For x > 0, `shuffle` succeeds with an index below x, whatever the digest and the start of the sum
-- are.
pub shuffle-IsIndex : (value : List ℕ) (x index : ℕ) → 0 < x → IsIndex x (shuffle value x index)
unfolding shuffle
shuffle-IsIndex value zero index pos = absurd (omega arith)
shuffle-IsIndex value (suc zero) index pos = (0, refl, omega arith)
shuffle-IsIndex value (suc (suc x)) index pos =
    let sum = add_shares (suc (suc x)) (take 4 (decode value)) index in
    (sum % suc (suc x), refl, omega arith)

-- The task with the url pushed to the queue `i`, and no other change.
abbrev pub pushed_at : ℕ → Url → SchedulerTask → SchedulerTask
pushed_at i u s = record s { downloader_queues = push_into i u s.downloader_queues }

place-pushed_at :
    (r : ResCode × List ℕ) (value : List ℕ) (u : Url) (s : SchedulerTask) (i : ℕ)
    → r ≡ (s_ok, value)
    → shuffle value s.downloader_num 0 ≡ some i
    → i < length s.downloader_queues
    → place r u s ≡ done ((s_ok, u), pushed_at i u s)
place-pushed_at r value u s i e f fits =
    ap (λ x. place x u s) e
    ∙ ap (λ o. push_at o u s) f
    ∙ ap (λ x. x >>= λ queues. done ((s_ok, u), record s { downloader_queues = queues }))
        (push_at_index-push_into i u s.downloader_queues fits)

-- Two new urls of the same address (the port 80 and "/" where they are missing, and port 80 for 0),
-- whatever stands in the 64 bytes of either calculator's buffer and the rest of its memory, and two
-- schedulers with the same number of downloaders, at least one, each with as many queues:
-- put_url_into_downloader returns S_OK for both, and pushes both to the queue of one and the same index,
-- which is in range of both, and changes nothing else.
pub put_url_into_downloader-Same :
    (stack stack' : Md5Caculator) (x y : Parts) (s t : SchedulerTask)
    → length stack.buffer ≡ 64
    → length stack'.buffer ≡ 64
    → IsParts x
    → IsParts y
    → Same x y
    → s.downloader_num ≡ length s.downloader_queues
    → t.downloader_num ≡ length t.downloader_queues
    → t.downloader_num ≡ s.downloader_num
    → 0 < s.downloader_num
    → (i : ℕ) × (i < length s.downloader_queues)
      × (i < length t.downloader_queues)
      × (put_url_into_downloader stack (url_new (text_of x)) s
          ≡ done (
            (s_ok, (get_md5 stack (url_new (text_of x))).1),
            pushed_at i (get_md5 stack (url_new (text_of x))).1 s,
          ))
      × (put_url_into_downloader stack' (url_new (text_of y)) t
          ≡ done (
            (s_ok, (get_md5 stack' (url_new (text_of y))).1),
            pushed_at i (get_md5 stack' (url_new (text_of y))).1 t,
          ))
unfolding put_url_into_downloader
put_url_into_downloader-Same stack stack' x y s t full full' okx oky same counted counted' alike
      some_ =
    let text = canonical (url_new (text_of x)) in
    let value = (digest (calculator_of stack text)).0 in
    let (i, e, small) = shuffle-IsIndex value s.downloader_num 0 some_ in
    let fits : i < length s.downloader_queues = omega (arith, small, counted) in
    let fits' : i < length t.downloader_queues = omega (arith, small, alike, counted') in
    let first = get_md5-url_new stack x okx in
    let one_digest : (digest (calculator_of stack' text)).0 ≡ value =
      digest-calculator_of stack' text full' ∙ sym (digest-calculator_of stack text full) in
    let second =
      sym (get_md5-Same stack' x y okx oky same)
      ∙ get_md5-url_new stack' x okx
      ∙ ap (λ v. (s_ok, v)) one_digest in
    (
      i,
      fits,
      fits',
      place-pushed_at (get_md5 stack (url_new (text_of x))).0 value
          (get_md5 stack (url_new (text_of x))).1 s i first e fits,
      place-pushed_at (get_md5 stack' (url_new (text_of y))).0 value
          (get_md5 stack' (url_new (text_of y))).1 t i second (rw alike e) fits',
    )
