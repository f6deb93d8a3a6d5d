-- ===== src/Global/Starting.antt =====
-- src/global.cc: `init`. `none` where the process ends, by abort or exit.
use myjfm_spider.Prelude.{
  ℕ, zero, suc, Bool, true, Option, none, some, List, [], ◌∷◌, ◌++◌, ◌==◌, if◌then◌else◌, Run, done,
  fault, ◌>>=◌, length, replicate,
}
use myjfm_spider.ResCode.{ResCode, s_ok, s_has_init, is_ok}
use myjfm_spider.Md5.{Md5Caculator, shuffle}
use myjfm_spider.Url.{Url, url_new, get_md5}
use myjfm_spider.Squeue.{SQueue, squeue_new, push}
use myjfm_spider.Global.{Global}
use myjfm_spider.Global.Access.{load_default_file_types, assemble_request_header}
use myjfm_spider.Global.Config.{and_then, parse_config}

-- The members in front of `load_default_file_types`.
abbrev pub with_paths : List ℕ → List ℕ → Global → Global
with_paths path name g = record g {
  has_init = true;
  cur_path = path;
  save_path = path;
  config_file = name;
  depth = 5;
  downloader_num = 5;
  extractor_num = 5;
  scheduler_num = 1;
  dnser_num = 1;
  seed_urls = [];
}

-- The configuration, with the request's header.
unfoldable pub configure : (List ℕ → Option (List ℕ)) → (List ℕ → Bool) → Global → Option Global
configure files access g =
    and_then (load_default_file_types g)
      λ g1. and_then (parse_config files access g1) assemble_request_header

-- One new queue for each thread.
abbrev pub with_queues : Global → Global
with_queues g = record g {
  extractor_queues = g.extractor_queues ++ replicate g.extractor_num squeue_new;
  downloader_queues = g.downloader_queues ++ replicate g.downloader_num squeue_new;
  scheduler_queues = g.scheduler_queues ++ replicate g.scheduler_num squeue_new;
  dnser_queues = g.dnser_queues ++ replicate g.dnser_num squeue_new;
}

-- `_dnser_queues[index]->push(url_p)`; an index out of range is undefined behaviour.
unfoldable pub push_seed : ℕ → Url → List (SQueue Url) → Run (List (SQueue Url))
push_seed i u [] = fault
push_seed zero u (q ∷ qs) = done ((push u q).1 ∷ qs)
push_seed (suc i) u (q ∷ qs) = push_seed i u qs >>= λ rest. done (q ∷ rest)

-- The index stays 0 where `shuffle` fails.
abbrev pub index_or_zero : Option ℕ → ℕ
index_or_zero none = 0
index_or_zero (some i) = i

unfoldable pub place_seed : Md5Caculator → ℕ → List ℕ → List (SQueue Url) → Run (List (SQueue Url))
place_seed stack num url qs =
    let r = get_md5 stack (url_new url) in
    if is_ok r.0.0 then push_seed (index_or_zero (shuffle r.0.1 num 0)) r.1 qs else done qs

unfoldable pub place_seeds :
    Md5Caculator → ℕ → List (List ℕ) → List (SQueue Url) → Run (List (SQueue Url))
place_seeds stack num [] qs = done qs
place_seeds stack num (url ∷ urls) qs =
    place_seed stack num url qs >>= λ qs'. place_seeds stack num urls qs'

unfoldable pub start_queues : Md5Caculator → Global → Run (ResCode × Global)
start_queues stack g =
    place_seeds stack g.dnser_num g.seed_urls (with_queues g).dnser_queues >>= λ qs.
    done (s_ok, record (with_queues g) { dnser_queues = qs; dns_cache = true })

abbrev pub start_configured : Md5Caculator → Option Global → Option (Run (ResCode × Global))
start_configured stack none = none
start_configured stack (some g) = some (start_queues stack g)

-- `files` is what a file of a name holds, `access` whether a path can be read, written and searched.
unfoldable pub init_global :
    (List ℕ → Option (List ℕ))
    → (List ℕ → Bool)
    → Md5Caculator
    → List ℕ
    → List ℕ
    → Global
    → Option (Run (ResCode × Global))
init_global files access stack path name g =
    if g.has_init
    then some (done (s_has_init, g))
    else if length name == 0
    then none
    else start_configured stack (configure files access (with_paths path name g))
