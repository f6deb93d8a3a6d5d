-- ===== src/Tests/Resolver.antt =====
-- src/dnser_task.cc at concrete urls and answers, and the theorems on it applied.
use myjfm_spider.Prelude.{
  ℕ, ◌≡◌, refl, true, false, none, some, List, [], ◌∷◌, arith, codes, done, bytes_eq,
}
use myjfm_spider.SiteMap.{find_key, store_key}
use myjfm_spider.Url.{Url, url_empty, initialized, http, get_status, get_site}
use myjfm_spider.Squeue.{squeue_new, push, try_pop, signal}
use myjfm_spider.DnsCache.{find_site}
use myjfm_spider.Dnser.{
  DnserTask, Calls, found_addresses, take_url, await_site, submit_once, check_once, dns_round,
}
use myjfm_spider.Dnser.Entries.{is_asked}
use myjfm_spider.Dnser.Resolving.{IsResolved, check_once-resolves}
use myjfm_spider.Dnser.Forever.{start, pushes, rounds, Runs-refused, left_waiting}
use myjfm_spider.Tests.Digests.{any_memory}

abbrev url_of : List ℕ → Url
url_of file = record url_empty {
  status = initialized;
  protocol = http;
  port = 80;
  site = codes "a.b";
  file = file;
}

abbrev no_answer : Calls
no_answer = record { takes_query = false; takes_alias = true; answer = none; stack = any_memory }

abbrev idle : DnserTask
idle = record {
  url_queue = squeue_new;
  scheduler_num = 2;
  scheduler_queues = squeue_new ∷ squeue_new ∷ [];
  dns_cache = [];
  is_dnsing_lutable = [];
  asked = [];
}

abbrev waiting : DnserTask
waiting = record idle {
  is_dnsing_lutable = (codes "a.b", url_of (codes "/") ∷ url_of (codes "/x") ∷ []) ∷ [];
  asked = codes "a.b" ∷ [];
}

abbrev addresses : Calls
addresses = record no_answer { answer = some (codes "a.b", found_addresses 4 (7 ∷ 9 ∷ [])) }

check_once-resolves_example :
    (d : DnserTask) × (check_once addresses waiting ≡ done d)
    × IsResolved any_memory
        (codes "a.b")
        (7 ∷ 9 ∷ [])
        (url_of (codes "/") ∷ url_of (codes "/x") ∷ [])
        waiting
        d
unfolding find_key bytes_eq get_site
check_once-resolves_example =
    check_once-resolves addresses waiting (codes "a.b") (7 ∷ 9 ∷ []) (url_of (codes "/"))
      (url_of (codes "/x") ∷ []) refl refl refl (omega arith) (omega arith) refl

-- The query of the first url is not taken; another url of the site comes.
abbrev refused : DnserTask
refused = left_waiting no_answer (url_of (codes "/")) idle

abbrev pushed : DnserTask
pushed = record refused { url_queue = (push (some (url_of (codes "/x"))) refused.url_queue).1 }

abbrev both_wait : DnserTask
both_wait = await_site false (codes "a.b") (url_of (codes "/x")) refused

next_round : dns_round no_answer pushed ≡ done both_wait
unfolding dns_round take_url await_site submit_once find_site get_status find_key store_key
    check_once get_site try_pop push signal
next_round = refl

Runs-refused_example :
    (take_url no_answer (url_of (codes "/")) idle ≡ done refused)
    × (us : List Url) × (find_key (codes "a.b") both_wait.is_dnsing_lutable
        ≡ some (url_of (codes "/") ∷ us))
    × (is_asked (codes "a.b") both_wait.asked ≡ false)
unfolding get_site get_status find_site find_key
Runs-refused_example =
    Runs-refused no_answer (url_of (codes "/")) idle both_wait refl refl refl refl
      (λ key vs e. absurd (ground (arith, e))) refl
      (rounds no_answer (pushes (some (url_of (codes "/x"))) start) (λ e ran. tt) next_round)
