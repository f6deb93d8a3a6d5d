-- ===== src/Global/Config.antt =====
-- src/global.cc: `parse_config`, line by line. `none` where the process ends, by abort or exit.
use myjfm_spider.Prelude.{
  ℕ, ◌-◌, Bool, true, ◌||◌, Option, none, some, List, [], ◌∷◌, ◌++◌, ◌==◌, if◌then◌else◌, length,
  codes, bytes_eq,
}
use myjfm_spider.Utility.{trim, split}
use myjfm_spider.Url.{c_str}
use myjfm_spider.Global.{Global}
use myjfm_spider.Global.Access.{
  set_save_path, set_log_path, set_err_path, set_depth, set_downloader_num, set_extractor_num,
  set_scheduler_num, set_dnser_num, set_file_types, set_seed_urls, set_create_connection_timeout,
  set_send_timeout, set_recv_timeout,
}

-- `fgets(buffer, 1023, file)` to the end of the file: the contents of the buffer each time. `room` is
-- how many bytes it still takes, and `cur` what it has.
unfoldable pub fgets_all : ℕ → List ℕ → List ℕ → List (List ℕ)
fgets_all room [] [] = []
fgets_all room (b ∷ cur) [] = (b ∷ cur) ∷ []
fgets_all room cur (c ∷ s) =
    let next = fgets_all 1022 [] s in
    let more = fgets_all (room - 1) (cur ++ c ∷ []) s in
    if c == b'\n' || room == 1 then (cur ++ c ∷ []) ∷ next else more

-- What a line with a key does, the value being its second word.
unfoldable pub set_key : List ℕ → List ℕ → List (List ℕ) → Global → Option Global
set_key key value words g =
    if bytes_eq key (codes "SAVEPATH")
    then set_save_path g value
    else if bytes_eq key (codes "LOGFILEPATH")
    then set_log_path g value
    else if bytes_eq key (codes "ERRFILEPATH")
    then set_err_path g value
    else if bytes_eq key (codes "DEPTH")
    then set_depth g value
    else if bytes_eq key (codes "DOWNLOADERS")
    then set_downloader_num g value
    else if bytes_eq key (codes "EXTRACTORS")
    then set_extractor_num g value
    else if bytes_eq key (codes "SCHEDULERS")
    then set_scheduler_num g value
    else if bytes_eq key (codes "DNSERS")
    then set_dnser_num g value
    else if bytes_eq key (codes "FILETYPES")
    then some (set_file_types g words)
    else if bytes_eq key (codes "SEEDURLS")
    then some (set_seed_urls g words)
    else if bytes_eq key (codes "CREATE_CONNECTION_TIMEOUT")
    then set_create_connection_timeout g value
    else if bytes_eq key (codes "SEND_TIMEOUT")
    then set_send_timeout g value
    else if bytes_eq key (codes "RECV_TIMEOUT")
    then set_recv_timeout g value
    else some g

abbrev pub set_words : List (List ℕ) → Global → Option Global
set_words [] g = some g
set_words (key ∷ []) g = some g
set_words (key ∷ value ∷ words) g = set_key key value (key ∷ value ∷ words) g

-- Empty lines and comments.
abbrev pub is_skipped : List ℕ → Bool
is_skipped [] = true
is_skipped (c ∷ line) = c == b'#'

abbrev pub set_line : List ℕ → Global → Option Global
set_line line g = if is_skipped line then some g else set_words (split line (codes " \t")) g

abbrev pub and_then : {A B : Type 0} → Option A → (A → Option B) → Option B
and_then none k = none
and_then (some a) k = k a

-- The loop over what `fgets` gives.
unfoldable pub config_loop : List (List ℕ) → Global → Option Global
config_loop [] g = some g
config_loop (buffer ∷ rest) g = and_then (set_line (trim (c_str buffer)) g) (config_loop rest)

-- Behind the loop: without seed urls, or without access to the path, the process ends.
abbrev pub has_work : (List ℕ → Bool) → List (List ℕ) → Global → Option Global
has_work access [] g = none
has_work access (url ∷ urls) g = if access g.save_path then some g else none

-- `file` is what the file of that name holds, `none` where it cannot be opened; `access` says whether
-- a path can be read, written and searched.
unfoldable pub parse_file : (List ℕ → Bool) → Option (List ℕ) → Global → Option Global
parse_file access none g = none
parse_file access (some bytes) g =
    and_then (config_loop (fgets_all 1022 [] bytes) g) (λ g'. has_work access g'.seed_urls g')

unfoldable pub parse_config : (List ℕ → Option (List ℕ)) → (List ℕ → Bool) → Global → Option Global
parse_config files access g =
    if g.has_init
    then (if length g.config_file == 0 then none else parse_file access (files g.config_file) g)
    else none
