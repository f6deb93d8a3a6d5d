-- ===== src/Dnser/Forever.antt =====
-- src/dnser_task.cc: a site whose query adns does not take.
use myjfm_spider.Prelude.{
  or_else, ℕ, ◌<◌, ◌≡◌, refl, sym, ap, ◌∙◌, subst, true, false, Option, none, some, List, [], ◌∷◌,
  ◌++◌, arith, ◌==◌, if◌then◌else◌, done, length, bytes_eq_refl, ◌>>=◌, Run,
}
use myjfm_spider.ResCode.{is_ok}
use myjfm_spider.SiteMap.{SiteMap, find_key, store_key}
use myjfm_spider.SiteMap.Laws.{find_key-store_key}
use myjfm_spider.Url.{Url, get_status, set_ip}
use myjfm_spider.Squeue.{SQueue, push, pop, try_pop}
use myjfm_spider.DnsCache.{find_site}
use myjfm_spider.Dnser.{
  DnserTask, Calls, put_url_into_scheduler, submit_once, with_waiting, await_site, url_site,
  resolve_url, is_initialized, take_url, check_once, take_popped, dns_round, check_answer,
}
use myjfm_spider.Dnser.Entries.{IsKeyed, IsStuck, store-IsKeyed, StuckIn, is_asked}
use myjfm_spider.Dnser.Stuck.{
  StuckAfter, AnswersAsked, check_answer-StuckAfter, StuckAfter-bind, take_popped-StuckAfter,
}

-- What the round takes off the queue, and the task when it comes to `check_once`.
abbrev pub popped_now : DnserTask → Option (Option Url) × SQueue (Option Url)
popped_now d =
    if length d.is_dnsing_lutable == 0
    then pop d.url_queue
    else ((try_pop d.url_queue).0.1, (try_pop d.url_queue).1)

abbrev pub at_check : Calls → DnserTask → Run DnserTask
at_check calls d = take_popped calls (popped_now d).0 (record d { url_queue = (popped_now d).1 })

-- The states that the thread comes to from `d0`, with pushes of other threads between its rounds, where
-- adns answers for entries that it holds a query for.
pub data Runs (d0 : DnserTask) : DnserTask → Type 0 where
  start : Runs d0 d0
  pushes :
      {d : DnserTask} (u : Option Url)
      → Runs d0 d
      → Runs d0 (record d { url_queue = (push u d.url_queue).1 })
  rounds :
      {d d' : DnserTask} (calls : Calls)
      → Runs d0 d
      → ((e : DnserTask) → at_check calls d ≡ done e → AnswersAsked calls.answer e)
      → dns_round calls d ≡ done d'
      → Runs d0 d'

module _ (site : List ℕ) (us : List Url) where
  has_entry : (t : SiteMap (List Url)) → find_key site t ≡ some us → (length t == 0) ≡ false
  unfolding find_key
  has_entry [] e = absurd (ground (arith, e))
  has_entry (x ∷ t) e = ground arith

round-at_check :
    (calls : Calls) (d : DnserTask)
    → (length d.is_dnsing_lutable == 0) ≡ false
    → dns_round calls d ≡ (at_check calls d >>= check_once calls)
unfolding dns_round
round-at_check calls d e = rw e refl

module _ (site : List ℕ) (us : List Url) (some_ : 0 < length us) where
  dns_round-StuckAfter :
      (calls : Calls) (d : DnserTask)
      → ((e : DnserTask) → at_check calls d ≡ done e → AnswersAsked calls.answer e)
      → StuckIn site us d
      → StuckAfter site us (dns_round calls d)
  unfolding check_once
  dns_round-StuckAfter calls d ok is =
      let e = has_entry site (us ++ is.more) d.is_dnsing_lutable is.entry in
      subst (StuckAfter site us) (sym (round-at_check calls d e)) (
        StuckAfter-bind site us (at_check calls d) (λ e. check_answer calls calls.answer e)
          (take_popped-StuckAfter site us calls (popped_now d).0
            (record d { url_queue = (popped_now d).1 }) some_ is)
          (λ e ran is'. check_answer-StuckAfter site us calls calls.answer e (ok e ran) is'))

  Runs-StuckIn : (d0 d : DnserTask) → Runs d0 d → StuckIn site us d0 → StuckIn site us d
  Runs-StuckIn d0 _ start is = is
  Runs-StuckIn d0 _ (pushes u r) is = Runs-StuckIn d0 _ r is
  Runs-StuckIn d0 _ (rounds {d} calls r ok e) is =
      subst (StuckAfter site us) e (dns_round-StuckAfter calls d ok (Runs-StuckIn d0 d r is))

-- The state behind a url whose site is neither in the cache nor in the table.
abbrev pub left_waiting : Calls → Url → DnserTask → DnserTask
left_waiting calls u d = await_site calls.takes_query (url_site u) u d

take_url-await_site :
    (calls : Calls) (u : Url) (d : DnserTask)
    → is_initialized (get_status u) ≡ true
    → is_ok (find_site (url_site u) [] d.dns_cache).0 ≡ false
    → take_url calls u d ≡ done (left_waiting calls u d)
unfolding take_url
take_url-await_site calls u d init unknown =
    let r = find_site (url_site u) [] d.dns_cache in
    ap (λ b. if b then resolve_url calls r u d else done d) init
    ∙ ap
        (λ b.
          if b
          then put_url_into_scheduler calls.stack (set_ip r.1 u).1 d
          else done (left_waiting calls u d))
        unknown

refused-StuckIn :
    (calls : Calls) (u : Url) (d : DnserTask)
    → find_key (url_site u) d.is_dnsing_lutable ≡ none
    → is_asked (url_site u) d.asked ≡ false
    → IsKeyed d.is_dnsing_lutable
    → calls.takes_query ≡ false
    → StuckIn (url_site u) (u ∷ []) (left_waiting calls u d)
unfolding await_site submit_once
refused-StuckIn calls u d fresh unasked keyed refused =
    let s = url_site u in
    let stored : IsStuck s (u ∷ []) (store_key s (u ∷ []) d.is_dnsing_lutable) d.asked = record {
      more = [];
      entry =
          find_key-store_key d.is_dnsing_lutable s (u ∷ []) s
          ∙ ap (λ b. if b then some (u ∷ []) else find_key s d.is_dnsing_lutable) (bytes_eq_refl s);
      unasked = unasked;
      keyed = store-IsKeyed d.is_dnsing_lutable s (u ∷ []) keyed (refl, tt);
    } in
    subst
      (λ o. StuckIn s (u ∷ []) (
        if length (or_else [] o) == 0
        then submit_once calls.takes_query s (with_waiting s (u ∷ []) d)
        else with_waiting s (or_else [] o ++ u ∷ []) d))
      (sym fresh)
      (subst (λ b. StuckIn s (u ∷ []) (submit_once b s (with_waiting s (u ∷ []) d))) (sym refused)
        stored)

-- A url that is initialised, of a site that the cache does not have, in a table without an entry of
-- that site, where every entry has urls of its own site, and whose query adns does not take: take_url
-- returns, and in every state that the thread comes to later, whatever urls come and whatever adns
-- answers for the entries that it holds a query for, the url still stands in front of the site's entry,
-- and there is no query for it.
pub Runs-refused :
    (calls : Calls) (u : Url) (d0 d : DnserTask)
    → is_initialized (get_status u) ≡ true
    → is_ok (find_site (url_site u) [] d0.dns_cache).0 ≡ false
    → find_key (url_site u) d0.is_dnsing_lutable ≡ none
    → is_asked (url_site u) d0.asked ≡ false
    → IsKeyed d0.is_dnsing_lutable
    → calls.takes_query ≡ false
    → Runs (left_waiting calls u d0) d
    → (take_url calls u d0 ≡ done (left_waiting calls u d0))
      × (us : List Url) × (find_key (url_site u) d.is_dnsing_lutable ≡ some (u ∷ us))
      × (is_asked (url_site u) d.asked ≡ false)
Runs-refused calls u d0 d init unknown fresh unasked keyed refused runs =
    let is =
      Runs-StuckIn (url_site u) (u ∷ []) (omega arith) (left_waiting calls u d0) d runs
        (refused-StuckIn calls u d0 fresh unasked keyed refused) in
    (take_url-await_site calls u d0 init unknown, is.more, is.entry, is.unasked)
