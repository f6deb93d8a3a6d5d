-- ===== src/DnsCache/Caching.antt =====
-- src/dns_cache.cc: what a lookup finds after an insertion.
use myjfm_spider.Prelude.{
  ℕ, ◌<◌, ◌≡◌, refl, Bool, true, false, Option, some, List, [], ◌∷◌, arith, if◌then◌else◌, bytes_eq,
  length,
}
use myjfm_spider.SiteMap.{find_key}
use myjfm_spider.SiteMap.Laws.{find_key-store_key}
use myjfm_spider.ResCode.{s_ok}
use myjfm_spider.DnsCache.{DnsCache, is_empty, found, find_site, insert_site}

found-if :
    (b : Bool) (ips : List ℕ) (o : Option (List ℕ))
    → found (if b then some ips else o) [] ≡ (if b then (s_ok, ips) else found o [])
found-if true ips o = refl
found-if false ips o = refl

is_empty-pos : (s : List ℕ) → 0 < length s → is_empty s ≡ false
is_empty-pos [] pos = absurd (omega arith)
is_empty-pos (c ∷ s) pos = refl

-- Inserting addresses, at least one, for a site that is not empty returns S_OK; a lookup of a site
-- that is not empty, with an empty out parameter, then finds these addresses for that site, and for
-- any other site what it found before.
pub find_site-insert_site :
    (dns : DnsCache) (site ips other : List ℕ)
    → 0 < length site
    → 0 < length ips
    → 0 < length other
    → ((insert_site site ips dns).0 ≡ s_ok)
      × (find_site other [] (insert_site site ips dns).1
          ≡ (if bytes_eq site other then (s_ok, ips) else find_site other [] dns))
unfolding find_site insert_site
find_site-insert_site dns site ips other a b c =
    let stored = find_key-store_key dns site ips other in
    (
      rw (is_empty-pos site a, is_empty-pos ips b) refl,
      rw (is_empty-pos site a, is_empty-pos ips b, is_empty-pos other c, stored)
          (found-if (bytes_eq site other) ips (find_key other dns)),
    )
