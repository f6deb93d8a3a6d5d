-- ===== src/Header/Endless.antt =====
-- src/page.h: a line that `HttpResponseHeader::analysis` does not get past.
use myjfm_spider.Prelude.{ℕ, ◌≡◌, ◌⊎◌, List, [], ◌∷◌, ◌++◌}
use myjfm_spider.Header.Written.{NoColon}

-- A line without a colon, or with nothing behind its first colon.
abbrev pub LacksValue : List ℕ → Type 0
LacksValue l = NoColon l ⊎ (name : List ℕ) × NoColon name × (l ≡ name ++ b':' ∷ [])
