-- ===== src/Extractor/Delivered.antt =====
-- src/extractor_task.cc: a round of main_loop with a compressed page.
use myjfm_spider.Prelude.{
  Run, ℕ, ◌*◌, ◌%◌, ◌^◌, ◌≤◌, ◌<◌, ◌≡◌, true, some, List, ◌∷◌, ◌++◌, codes, length, done,
}
use myjfm_spider.ResCode.{ResCode, s_ok}
use myjfm_spider.Utility.Splitting.{AllTokens, join}
use myjfm_spider.Page.{Page}
use myjfm_spider.Extractor.Inflating.{Windows, Inflates}
use myjfm_spider.Extractor.Saving.{Files, Disk, default_file}
use myjfm_spider.Extractor.Saved.{CanEnter, all_but_last}
use myjfm_spider.Extractor.Links.{LinkLexer}
use myjfm_spider.Extractor.Rounds.{ExtractorTask, Calls}

-- zlib reads the content of the page to its end and gives these bytes.
pub record Reads (calls : Calls) (source : Page) (bytes : List ℕ) : Type 0 where
  pub window : ℕ
  pub stream : calls.zlib.Stream
  pub rounds : ℕ
  pub windows : Windows source.encoding window
  pub init : calls.zlib.inflate_init window ≡ some stream
  pub inflates :
      Inflates calls.zlib (some (source.page_size * 2 % 2 ^ 32)) stream source.content bytes rounds
  pub fuel : rounds ≤ calls.fuel
  pub memory : (m : ℕ) → calls.alloc m ≡ true
  pub size : length bytes < 2 ^ 32

-- The file of a page of the site can be written, with the directories on the way to it.
pub record CanSave (f : Files) (save_path site file : List ℕ) (t : List ℕ) (ts : List (List ℕ))
    (n : ℕ) : Type 0 where
  pub names : default_file file ≡ b'/' ∷ join b'/' (t ∷ ts)
  pub tokens : AllTokens (codes "/") (t ∷ ts)
  pub enters : CanEnter f save_path (site ∷ all_but_last t ts)
  pub opens : f.can_open (save_path ++ b'/' ∷ (site ++ default_file file)) ≡ true
  pub room : n ≤ f.takes (save_path ++ b'/' ∷ (site ++ default_file file))

-- The end of the round, behind the automaton.
abbrev scanned_all : LinkLexer × List (List ℕ) → Run (ResCode × LinkLexer × List (List ℕ))
scanned_all r = done (s_ok, r.0, r.1)

abbrev round_end : ExtractorTask → Disk → ResCode × LinkLexer × List (List ℕ) → Run ExtractorTask
round_end e disk r = done (record e { disk = disk; link_lexer = r.1 })

abbrev lexer_end : ExtractorTask → Disk → LinkLexer × List (List ℕ) → Run ExtractorTask
lexer_end e disk r = done (record e { link_lexer = r.0; disk = disk })
