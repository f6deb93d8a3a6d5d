-- ===== src/Dnser.antt =====
-- src/dnser_task.h and src/dnser_task.cc: the resolver of addresses. The library adns is outside: a
-- round is given whether `adns_submit` takes a query, and what `adns_check` answers. The address that a
-- query carries as its context is that of an entry of the table, here the entry's key.
pub mod Resolving
pub mod Entries
pub mod Stuck
pub mod Forever
use myjfm_spider.Prelude.{
  or_else, ℕ, zero, suc, ◌+◌, Bool, true, false, not, Option, none, some, List, [], ◌∷◌, ◌++◌, ◌==◌,
  if◌then◌else◌, Run, done, fault, ◌>>=◌, length, set, get_or, bytes_eq,
}
use myjfm_spider.ResCode.{ResCode, s_ok, s_fail, is_ok}
use myjfm_spider.SiteMap.{SiteMap, find_key, store_key, erase_key}
use myjfm_spider.Md5.{Md5Caculator, shuffle}
use myjfm_spider.Url.{
  Url, EnumStatus, uninitialized, initialized, dnsed, get_status, get_site, set_ip, get_md5,
}
use myjfm_spider.Squeue.Vectors.{push_at_index}
use myjfm_spider.Squeue.{SQueue, squeue_new, push, pop, try_pop}
use myjfm_spider.DnsCache.{DnsCache, find_site, insert_site}

-- `asked` is no member: the entries that adns holds a query for, in the order of the calls.
pub record DnserTask : Type 0 where
  pub url_queue : SQueue (Option Url)
  pub scheduler_num : ℕ
  pub scheduler_queues : List (SQueue Url)
  pub dns_cache : DnsCache
  pub is_dnsing_lutable : SiteMap (List Url)
  pub asked : List (List ℕ)

-- What adns answers: addresses with the length of one in bytes, an alias, or an error.
pub data Answer : Type 0 where
  found_addresses : ℕ → List ℕ → Answer
  prohibited_cname : List ℕ → Answer
  other_status : Answer

-- What one round gets back from outside: whether the queries are taken (by the round and by
-- `check_once`), the answer with its context, and what stands on the stack in the place of an MD5
-- calculator.
pub record Calls : Type 0 where
  pub takes_query : Bool
  pub takes_alias : Bool
  pub answer : Option (List ℕ × Answer)
  pub stack : Md5Caculator

abbrev pub is_initialized : EnumStatus → Bool
is_initialized uninitialized = false
is_initialized initialized = true
is_initialized dnsed = false

-- Behind `get_md5`, whose digest the url keeps, and behind `shuffle`.
abbrev pub push_to_scheduler : Option ℕ → Url → DnserTask → Run DnserTask
push_to_scheduler none u d = done d
push_to_scheduler (some index) u d = push_at_index index u d.scheduler_queues >>= λ queues.
    done (record d { scheduler_queues = queues })

-- The callers do not look at the result.
unfoldable pub put_url_into_scheduler : Md5Caculator → Url → DnserTask → Run DnserTask
put_url_into_scheduler stack u d =
    let r = get_md5 stack u in
    if is_ok r.0.0 then push_to_scheduler (shuffle r.0.1 d.scheduler_num 0) r.1 d else done d

-- A submit that fails is only logged.
unfoldable pub submit_once : Bool → List ℕ → DnserTask → DnserTask
submit_once takes site d = if takes then record d { asked = d.asked ++ site ∷ [] } else d

-- `_is_dnsing_lutable[site]`: a site that is missing gets an empty vector.
abbrev pub waiting_at : List ℕ → DnserTask → List Url
waiting_at site d = or_else [] (find_key site d.is_dnsing_lutable)

abbrev pub with_waiting : List ℕ → List Url → DnserTask → DnserTask
with_waiting site us d = record d { is_dnsing_lutable = store_key site us d.is_dnsing_lutable }

-- A url whose site the cache does not have.
unfoldable pub await_site : Bool → List ℕ → Url → DnserTask → DnserTask
await_site takes site u d =
    if length (waiting_at site d) == 0
    then submit_once takes site (with_waiting site (u ∷ []) d)
    else with_waiting site (waiting_at site d ++ u ∷ []) d

abbrev pub url_site : Url → List ℕ
url_site u = or_else [] (get_site u)

-- Behind the lookup in the cache.
abbrev pub resolve_url : Calls → ResCode × List ℕ → Url → DnserTask → Run DnserTask
resolve_url calls r u d =
    if is_ok r.0
    then put_url_into_scheduler calls.stack (set_ip r.1 u).1 d
    else done (await_site calls.takes_query (url_site u) u d)

unfoldable pub take_url : Calls → Url → DnserTask → Run DnserTask
take_url calls u d =
    if is_initialized (get_status u)
    then resolve_url calls (find_site (url_site u) [] d.dns_cache) u d
    else done d

-- The loop over the urls that wait for the answer.
unfoldable pub resolve_all : Md5Caculator → List ℕ → List Url → DnserTask → Run DnserTask
resolve_all stack ips [] d = done d
resolve_all stack ips (u ∷ us) d =
    put_url_into_scheduler stack (set_ip ips u).1 d >>= resolve_all stack ips us

abbrev pub forget_site : List ℕ → DnserTask → DnserTask
forget_site site d = record d { is_dnsing_lutable = erase_key site d.is_dnsing_lutable }

abbrev pub remember_site : List ℕ → List ℕ → DnserTask → DnserTask
remember_site site ips d = record d { dns_cache = (insert_site site ips d.dns_cache).1 }

-- The answer for the urls `us`, whose first one is of the site `site`; `context` is their entry.
unfoldable pub answer_urls : Calls → List ℕ → List ℕ → List Url → Answer → DnserTask → Run DnserTask
answer_urls calls context site us (found_addresses len ips) d =
    if len == 4
    then (resolve_all calls.stack ips us d >>= λ d'.
        done (remember_site site ips (forget_site site d')))
    else done (forget_site site d)
answer_urls calls context site us (prohibited_cname name) d =
    done (submit_once calls.takes_alias site (with_waiting site (waiting_at site d) d))
answer_urls calls context site us other_status d = done (forget_site site d)

-- The first query of the entry is answered.
abbrev pub remove_first : List ℕ → List (List ℕ) → List (List ℕ)
remove_first site [] = []
remove_first site (s ∷ ss) =
    let rest = remove_first site ss in if bytes_eq s site then ss else s ∷ rest

-- An entry that is gone, or empty, is read all the same: undefined behaviour.
abbrev pub answer_entry : Calls → List ℕ → Answer → Option (List Url) → DnserTask → Run DnserTask
answer_entry calls context a none d = fault
answer_entry calls context a (some []) d = fault
answer_entry calls context a (some (u ∷ us)) d = answer_urls calls context (url_site u) (u ∷ us) a d

abbrev pub check_answer : Calls → Option (List ℕ × Answer) → DnserTask → Run DnserTask
check_answer calls none d = done d
check_answer calls (some (context, a)) d =
    answer_entry calls context a (find_key context d.is_dnsing_lutable)
      (record d { asked = remove_first context d.asked })

unfoldable pub check_once : Calls → DnserTask → Run DnserTask
check_once calls d = check_answer calls calls.answer d

-- Behind `pop` or `try_pop`: a null pointer is passed over.
abbrev pub take_popped : Calls → Option (Option Url) → DnserTask → Run DnserTask
take_popped calls none d = done d
take_popped calls (some none) d = done d
take_popped calls (some (some u)) d = take_url calls u d

-- `pop` where the table is empty: where the queue is empty too, the thread sleeps and the round ends.
abbrev pub after_pop : Calls → Option (Option Url) → DnserTask → Run DnserTask
after_pop calls none d = done d
after_pop calls (some u) d = take_popped calls (some u) d >>= check_once calls

-- One round of `main_loop`.
unfoldable pub dns_round : Calls → DnserTask → Run DnserTask
dns_round calls d =
    if length d.is_dnsing_lutable == 0
    then after_pop calls (pop d.url_queue).0 (record d { url_queue = (pop d.url_queue).1 })
    else (take_popped calls (try_pop d.url_queue).0.1
          (record d { url_queue = (try_pop d.url_queue).1 })
        >>= check_once calls)
