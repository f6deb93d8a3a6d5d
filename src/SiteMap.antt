-- ===== src/SiteMap.antt =====
-- `Map<String, A>` of src/downloader_task.h and src/dnser_task.h: a `std::map` from sites, as an
-- association list.
pub mod Laws
use myjfm_spider.Prelude.{ℕ, Option, none, some, List, [], ◌∷◌, if◌then◌else◌, bytes_eq}

abbrev pub SiteMap : Type 0 → Type 0
SiteMap A = List (List ℕ × A)

module _ {A : Type 0} where
  unfoldable pub find_key : List ℕ → SiteMap A → Option A
  find_key site [] = none
  find_key site ((key, a) ∷ m) = if bytes_eq key site then some a else find_key site m

  -- `map[site] = a`.
  unfoldable pub store_key : List ℕ → A → SiteMap A → SiteMap A
  store_key site a [] = (site, a) ∷ []
  store_key site a ((key, old) ∷ m) =
      let rest = store_key site a m in if bytes_eq key site then (key, a) ∷ m else (key, old) ∷ rest

  -- `map.erase(site)`: no entry of the site is left.
  unfoldable pub erase_key : List ℕ → SiteMap A → SiteMap A
  erase_key site [] = []
  erase_key site ((key, a) ∷ m) =
      let rest = erase_key site m in if bytes_eq key site then rest else (key, a) ∷ rest
