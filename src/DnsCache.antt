-- ===== src/DnsCache.antt =====
-- src/dns_cache.h and src/dns_cache.cc: the map from sites to addresses. Every call runs under the
-- read-write lock.
pub mod Caching
use myjfm_spider.Prelude.{
  ℕ, Bool, true, false, ◌||◌, not, Option, none, some, List, [], ◌∷◌, if◌then◌else◌, bytes_eq,
}
use myjfm_spider.SiteMap.{SiteMap, find_key, store_key}
use myjfm_spider.ResCode.{ResCode, s_ok, s_fail, s_not_found}

abbrev pub is_empty : List ℕ → Bool
is_empty [] = true
is_empty (x ∷ xs) = false

abbrev pub DnsCache : Type 0
DnsCache = SiteMap (List ℕ)

abbrev pub found : Option (List ℕ) → List ℕ → ResCode × List ℕ
found none ips = (s_not_found, ips)
found (some found_ips) ips = (s_ok, found_ips)

-- The result and the out parameter, of which `ips` is the value before.
unfoldable pub find_site : List ℕ → List ℕ → DnsCache → ResCode × List ℕ
find_site site ips dns =
    if is_empty site || not (is_empty ips) then (s_fail, ips) else found (find_key site dns) ips

unfoldable pub insert_site : List ℕ → List ℕ → DnsCache → ResCode × DnsCache
insert_site site ips dns =
    if is_empty site || is_empty ips then (s_fail, dns) else (s_ok, store_key site ips dns)
