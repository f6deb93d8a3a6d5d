-- ===== src/Global.antt =====
-- src/global.h and src/global.cc: the class Global, with the configuration and the queues that the
-- threads share. `none` is the abort of CHECK_HAS_INIT. A thread pool is the address behind its shared
-- pointer. The logger is left out.
pub mod Access
pub mod Config
pub mod Lines
pub mod Entries
pub mod Printed
pub mod Settings
pub mod Starting
pub mod Seeds
pub mod Started
use myjfm_spider.Prelude.{
  ℕ, zero, suc, ◌+◌, ◌-◌, ◌*◌, ◌%◌, ◌^◌, Bool, true, false, Option, none, some, List, [], ◌∷◌, ◌++◌,
  ltb, leb, ◌==◌, if◌then◌else◌, tail, codes, Run, done, fault,
}
use myjfm_spider.ResCode.{ResCode, s_ok, s_out_range, s_bad_arg}
use myjfm_spider.Utility.{is_space, is_digit}
use myjfm_spider.Page.{Page}
use myjfm_spider.Url.{Url}
use myjfm_spider.Squeue.{SQueue, squeue_new}

pub record Global : Type 0 where
  pub has_init : Bool
  pub config_file : List ℕ
  pub cur_path : List ℕ
  pub save_path : List ℕ
  pub log_path : List ℕ
  pub err_path : List ℕ
  pub depth : ℕ
  pub downloader_num : ℕ
  pub extractor_num : ℕ
  pub scheduler_num : ℕ
  pub dnser_num : ℕ
  pub to_be_shutdown : Bool
  pub file_types : List (List ℕ)
  pub seed_urls : List (List ℕ)
  pub extractor_queues : List (SQueue Page)
  pub dnser_queues : List (SQueue Url)
  pub scheduler_queues : List (SQueue Url)
  pub downloader_queues : List (SQueue Url)
  pub downloader_threadpool : Option ℕ
  pub extractor_threadpool : Option ℕ
  pub scheduler_threadpool : Option ℕ
  pub dnser_threadpool : Option ℕ
  pub create_connection_timeout : ℕ
  pub send_timeout : ℕ
  pub recv_timeout : ℕ
  pub request_header : List ℕ
  pub user_agent : List ℕ
  pub sender : List ℕ
  pub dns_cache : Bool

-- The constructor. `dns_cache` says whether the pointer to the cache is set.
abbrev pub global_new : Global
global_new = record {
  has_init = false;
  config_file = [];
  cur_path = [];
  save_path = [];
  log_path = [];
  err_path = [];
  depth = 5;
  downloader_num = 5;
  extractor_num = 5;
  scheduler_num = 1;
  dnser_num = 1;
  to_be_shutdown = false;
  file_types = [];
  seed_urls = [];
  extractor_queues = [];
  dnser_queues = [];
  scheduler_queues = [];
  downloader_queues = [];
  downloader_threadpool = none;
  extractor_threadpool = none;
  scheduler_threadpool = none;
  dnser_threadpool = none;
  create_connection_timeout = 2;
  send_timeout = 5;
  recv_timeout = 30;
  request_header = [];
  user_agent = codes "myjfm_spider";
  sender = codes "myjfm_spider@xxx.com";
  dns_cache = false;
}

-- `::atoi` of the C library, converted to `uint32_t`: white space, a sign, and the digits up to the
-- first other byte, 0 where there are none.
unfoldable pub digits_value : ℕ → List ℕ → ℕ
digits_value v [] = v
digits_value v (c ∷ s) = if is_digit c then digits_value (v * 10 + c - b'0') s else v

unfoldable pub atoi_sign : List ℕ → ℕ
unfolding digits_value
atoi_sign [] = 0
atoi_sign (c ∷ s) =
    if c == b'-'
    then (2 ^ 32 - digits_value 0 s % 2 ^ 32) % 2 ^ 32
    else if c == b'+'
    then digits_value 0 s % 2 ^ 32
    else digits_value 0 (c ∷ s) % 2 ^ 32

unfoldable pub atoi : List ℕ → ℕ
unfolding atoi_sign
atoi [] = 0
atoi (c ∷ s) = if is_space c then atoi s else atoi_sign (c ∷ s)

-- CHECK_HAS_INIT.
abbrev pub checked {ℓ} : {A : Type ℓ} → Global → A → Option A
checked g a = if g.has_init then some a else none
