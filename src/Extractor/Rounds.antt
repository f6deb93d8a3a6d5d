-- ===== src/Extractor/Rounds.antt =====
-- src/extractor_task.cc: the task and main_loop.
use myjfm_spider.Prelude.{ℕ, Bool, Option, none, some, List, Run, done, ◌>>=◌}
use myjfm_spider.ResCode.{ResCode, s_ok}
use myjfm_spider.Url.{Url}
use myjfm_spider.Extractor.Links.{LinkLexer, extract_links}
use myjfm_spider.Page.{Page}
use myjfm_spider.Squeue.{SQueue, pop}
use myjfm_spider.Extractor.{Zlib, decompress_page}
use myjfm_spider.Extractor.Saving.{Files, Disk, save_page}

pub record ExtractorTask : Type 0 where
  pub id : ℕ
  pub dnser_num : ℕ
  pub save_path : List ℕ
  pub page_queue : SQueue (Option Page)
  pub dnser_queues : List (SQueue Url)
  pub link_lexer : LinkLexer
  pub disk : Disk

-- What a round gets from outside: zlib and its rounds, the memory, the files, and the automaton.
pub record Calls : Type 1 where
  pub zlib : Zlib
  pub fuel : ℕ
  pub alloc : ℕ → Bool
  pub files : Files
  pub scan : List ℕ → LinkLexer → Run (LinkLexer × List (List ℕ))

-- Behind `save_page`, whose result is not looked at. The links go with the end of the round.
abbrev pub after_save : Calls → Page → ExtractorTask → ResCode × Disk → Run ExtractorTask
after_save calls p e (code, disk) = extract_links calls.scan p e.link_lexer >>= λ r.
    done (record e { disk = disk; link_lexer = r.1 })

abbrev pub after_decompress : Calls → ExtractorTask → ResCode × Option Page → Run ExtractorTask
after_decompress calls e (code, none) = done e
after_decompress calls e (s_ok, some p) =
    save_page calls.files e.save_path p e.disk >>= after_save calls p e
after_decompress calls e (code, some p) = done e

-- Behind `pop`; where the queue is empty the thread sleeps and the round ends.
abbrev pub after_page_pop : Calls → Option (Option Page) → ExtractorTask → Run ExtractorTask
after_page_pop calls none e = done e
after_page_pop calls (some none) e = done e
after_page_pop calls (some (some p)) e =
    decompress_page calls.zlib calls.alloc calls.fuel (some p) >>= after_decompress calls e

-- One round of `main_loop`.
unfoldable pub extract_round : Calls → ExtractorTask → Run ExtractorTask
extract_round calls e =
    after_page_pop calls (pop e.page_queue).0 (record e { page_queue = (pop e.page_queue).1 })
