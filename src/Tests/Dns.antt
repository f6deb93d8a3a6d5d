-- ===== src/Tests/Dns.antt =====
-- src/dns_cache.cc: the theorem on it applied.
use myjfm_spider.Prelude.{◌≡◌, [], ◌∷◌, arith, codes, bytes_eq, if◌then◌else◌}
use myjfm_spider.ResCode.{s_ok}
use myjfm_spider.DnsCache.{DnsCache, find_site, insert_site}
use myjfm_spider.DnsCache.Caching.{find_site-insert_site}

abbrev cache_one : DnsCache
cache_one = (codes "a.b", 1 ∷ []) ∷ []

find_site-insert_site_example :
    ((insert_site (codes "c") (2 ∷ 3 ∷ []) cache_one).0 ≡ s_ok)
    × (find_site (codes "a.b") [] (insert_site (codes "c") (2 ∷ 3 ∷ []) cache_one).1 ≡ (
        if bytes_eq (codes "c") (codes "a.b")
        then (s_ok, 2 ∷ 3 ∷ [])
        else find_site (codes "a.b") [] cache_one))
find_site-insert_site_example =
    find_site-insert_site cache_one (codes "c") (2 ∷ 3 ∷ []) (codes "a.b") (omega arith)
      (omega arith) (omega arith)
