-- ===== src/Global/Entries.antt =====
-- src/global.cc: the entries of a configuration file, and what each sets.
use myjfm_spider.Prelude.{ℕ, ◌^◌, ◌<◌, ◌≢◌, List, [], ◌∷◌, codes}
use myjfm_spider.Utility.{integer2str}
use myjfm_spider.Global.{Global}
use myjfm_spider.Global.Lines.{ConfigLine}

-- The keys of numbers and of paths.
pub data NumberKey : Type 0 where
  depth : NumberKey
  downloaders : NumberKey
  extractors : NumberKey
  schedulers : NumberKey
  dnsers : NumberKey
  create_timeout : NumberKey
  send_limit : NumberKey
  recv_limit : NumberKey

pub data PathKey : Type 0 where
  saved_pages : PathKey
  log_file : PathKey
  err_file : PathKey

pub data Entry : Type 0 where
  blank : Entry
  comment : List ℕ → List (List ℕ) → Entry
  number : NumberKey → ℕ → Entry
  path : PathKey → List ℕ → Entry
  types : List ℕ → List (List ℕ) → Entry
  seeds : List ℕ → List (List ℕ) → Entry
  bare : List ℕ → Entry
  other : List ℕ → List ℕ → List (List ℕ) → Entry

abbrev pub number_text : NumberKey → List ℕ
number_text depth = codes "DEPTH"
number_text downloaders = codes "DOWNLOADERS"
number_text extractors = codes "EXTRACTORS"
number_text schedulers = codes "SCHEDULERS"
number_text dnsers = codes "DNSERS"
number_text create_timeout = codes "CREATE_CONNECTION_TIMEOUT"
number_text send_limit = codes "SEND_TIMEOUT"
number_text recv_limit = codes "RECV_TIMEOUT"

abbrev pub path_text : PathKey → List ℕ
path_text saved_pages = codes "SAVEPATH"
path_text log_file = codes "LOGFILEPATH"
path_text err_file = codes "ERRFILEPATH"

abbrev pub words_of : Entry → List (List ℕ)
words_of blank = []
words_of (comment w ws) = (b'#' ∷ w) ∷ ws
words_of (number k n) = number_text k ∷ integer2str n ∷ []
words_of (path k value) = path_text k ∷ value ∷ []
words_of (types w ws) = codes "FILETYPES" ∷ w ∷ ws
words_of (seeds w ws) = codes "SEEDURLS" ∷ w ∷ ws
words_of (bare key) = key ∷ []
words_of (other key w ws) = key ∷ w ∷ ws

abbrev pub put_number : NumberKey → ℕ → Global → Global
put_number depth n g = record g { depth = n }
put_number downloaders n g = record g { downloader_num = n }
put_number extractors n g = record g { extractor_num = n }
put_number schedulers n g = record g { scheduler_num = n }
put_number dnsers n g = record g { dnser_num = n }
put_number create_timeout n g = record g { create_connection_timeout = n }
put_number send_limit n g = record g { send_timeout = n }
put_number recv_limit n g = record g { recv_timeout = n }

abbrev pub put_path : PathKey → List ℕ → Global → Global
put_path saved_pages value g = record g { save_path = value }
put_path log_file value g = record g { log_path = value }
put_path err_file value g = record g { err_path = value }

-- What an entry sets.
abbrev pub put_entry : Entry → Global → Global
put_entry (number k n) g = put_number k n g
put_entry (path k value) g = put_path k value g
put_entry (types w ws) g = record g { file_types = w ∷ ws }
put_entry (seeds w ws) g = record g { seed_urls = w ∷ ws }
put_entry e g = g

abbrev pub Differs : List ℕ → List (List ℕ) → Type 0
Differs key [] = Unit {0}
Differs key (k ∷ ks) = (key ≢ k) × Differs key ks

abbrev pub known_keys : List (List ℕ)
known_keys =
    codes "SAVEPATH"
    ∷ codes "LOGFILEPATH"
    ∷ codes "ERRFILEPATH"
    ∷ codes "DEPTH"
    ∷ codes "DOWNLOADERS"
    ∷ codes "EXTRACTORS"
    ∷ codes "SCHEDULERS"
    ∷ codes "DNSERS"
    ∷ codes "FILETYPES"
    ∷ codes "SEEDURLS"
    ∷ codes "CREATE_CONNECTION_TIMEOUT"
    ∷ codes "SEND_TIMEOUT"
    ∷ codes "RECV_TIMEOUT"
    ∷ []

-- Numbers have 32 bits, and the other keys are none of the known ones.
abbrev pub IsEntry : Entry → Type 0
IsEntry (number k n) = n < 2 ^ 32
IsEntry (other key w ws) = Differs key known_keys
IsEntry e = Unit {0}

-- An entry with the white space around it.
pub record EntryLine : Type 0 where
  pub front : List ℕ
  pub entry : Entry
  pub back : List ℕ

abbrev pub line_of : EntryLine → ConfigLine
line_of l = record { front = l.front; words = words_of l.entry; back = l.back }

abbrev pub lines_of : List EntryLine → List ConfigLine
lines_of [] = []
lines_of (l ∷ ls) = line_of l ∷ lines_of ls

abbrev pub AllEntries : List EntryLine → Type 0
AllEntries [] = Unit {0}
AllEntries (l ∷ ls) = IsEntry l.entry × AllEntries ls

abbrev pub put_all : List EntryLine → Global → Global
put_all [] g = g
put_all (l ∷ ls) g = put_all ls (put_entry l.entry g)
