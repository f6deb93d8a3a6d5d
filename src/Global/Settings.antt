-- ===== src/Global/Settings.antt =====
-- src/global.cc: what a configuration file sets, by its entries.
use myjfm_spider.Prelude.{
  ℕ, ◌≡◌, refl, ap, ◌∙◌, sym, Bool, true, false, none, some, List, [], ◌∷◌, arith, if◌then◌else◌,
  codes, bytes_eq, bytes_eq-differs, Bool-cases, inl, inr,
}
use myjfm_spider.Utility.{integer2str}
use myjfm_spider.Utility.Splitting.{join}
use myjfm_spider.Global.{Global, atoi}
use myjfm_spider.Global.Access.{
  set_save_path, set_log_path, set_err_path, set_depth, set_downloader_num, set_extractor_num,
  set_scheduler_num, set_dnser_num, set_file_types, set_seed_urls, set_create_connection_timeout,
  set_send_timeout, set_recv_timeout,
}
use myjfm_spider.Global.Config.{fgets_all, set_key, set_words, is_skipped, and_then, config_loop}
use myjfm_spider.Global.Lines.{AllConfigLines, print_config, obey, config_loop-print_config}
use myjfm_spider.Global.Entries.{
  NumberKey, depth, downloaders, extractors, schedulers, dnsers, create_timeout, send_limit,
  recv_limit, PathKey, saved_pages, log_file, err_file, Entry, blank, comment, number, path, types,
  seeds, bare, other, number_text, path_text, words_of, put_number, put_path, put_entry, Differs,
  known_keys, IsEntry, EntryLine, lines_of, AllEntries, put_all,
}
use myjfm_spider.Global.Printed.{atoi-integer2str}

set_key-unknown :
    (key value : List ℕ) (words : List (List ℕ)) (g : Global)
    → Differs key known_keys
    → set_key key value words g ≡ some g
unfolding set_key
set_key-unknown key value words g p =
    rw
      (
        bytes_eq-differs key (codes "SAVEPATH") (p.0),
        bytes_eq-differs key (codes "LOGFILEPATH") (p.1.0),
        bytes_eq-differs key (codes "ERRFILEPATH") (p.1.1.0),
        bytes_eq-differs key (codes "DEPTH") (p.1.1.1.0),
        bytes_eq-differs key (codes "DOWNLOADERS") (p.1.1.1.1.0),
        bytes_eq-differs key (codes "EXTRACTORS") (p.1.1.1.1.1.0),
        bytes_eq-differs key (codes "SCHEDULERS") (p.1.1.1.1.1.1.0),
        bytes_eq-differs key (codes "DNSERS") (p.1.1.1.1.1.1.1.0),
        bytes_eq-differs key (codes "FILETYPES") (p.1.1.1.1.1.1.1.1.0),
        bytes_eq-differs key (codes "SEEDURLS") (p.1.1.1.1.1.1.1.1.1.0),
        bytes_eq-differs key (codes "CREATE_CONNECTION_TIMEOUT") (p.1.1.1.1.1.1.1.1.1.1.0),
        bytes_eq-differs key (codes "SEND_TIMEOUT") (p.1.1.1.1.1.1.1.1.1.1.1.0),
        bytes_eq-differs key (codes "RECV_TIMEOUT") (p.1.1.1.1.1.1.1.1.1.1.1.1.0),
      )
      refl

set_key-number :
    (k : NumberKey) (value : List ℕ) (words : List (List ℕ)) (g : Global)
    → g.has_init ≡ true
    → set_key (number_text k) value words g ≡ some (put_number k (atoi value) g)
unfolding set_key bytes_eq set_depth set_downloader_num set_extractor_num set_scheduler_num
    set_dnser_num set_create_connection_timeout set_send_timeout set_recv_timeout
set_key-number depth value words g e =
    ap (λ b. if b then some (put_number depth (atoi value) g) else none) e
set_key-number downloaders value words g e =
    ap (λ b. if b then some (put_number downloaders (atoi value) g) else none) e
set_key-number extractors value words g e =
    ap (λ b. if b then some (put_number extractors (atoi value) g) else none) e
set_key-number schedulers value words g e =
    ap (λ b. if b then some (put_number schedulers (atoi value) g) else none) e
set_key-number dnsers value words g e =
    ap (λ b. if b then some (put_number dnsers (atoi value) g) else none) e
set_key-number create_timeout value words g e =
    ap (λ b. if b then some (put_number create_timeout (atoi value) g) else none) e
set_key-number send_limit value words g e =
    ap (λ b. if b then some (put_number send_limit (atoi value) g) else none) e
set_key-number recv_limit value words g e =
    ap (λ b. if b then some (put_number recv_limit (atoi value) g) else none) e

set_key-path :
    (k : PathKey) (value : List ℕ) (words : List (List ℕ)) (g : Global)
    → g.has_init ≡ true
    → set_key (path_text k) value words g ≡ some (put_path k value g)
unfolding set_key bytes_eq set_save_path set_log_path set_err_path
set_key-path saved_pages value words g e =
    ap (λ b. if b then some (put_path saved_pages value g) else none) e
set_key-path log_file value words g e =
    ap (λ b. if b then some (put_path log_file value g) else none) e
set_key-path err_file value words g e =
    ap (λ b. if b then some (put_path err_file value g) else none) e

set_words-put_entry :
    (e : Entry) (g : Global)
    → IsEntry e
    → is_skipped (join b' ' (words_of e)) ≡ false
    → g.has_init ≡ true
    → set_words (words_of e) g ≡ some (put_entry e g)
set_words-put_entry blank g is kept ready = refl
set_words-put_entry (comment w []) g is kept ready = refl
set_words-put_entry (comment w (v ∷ ws)) g is kept ready =
    absurd (unfold join in ground (arith, kept))
set_words-put_entry (number k n) g is kept ready =
    set_key-number k (integer2str n) (words_of (number k n)) g ready
    ∙ ap (λ m. some (put_number k m g)) (atoi-integer2str n is)
set_words-put_entry (path k value) g is kept ready =
    set_key-path k value (words_of (path k value)) g ready
set_words-put_entry (types w ws) g is kept ready = unfold set_key bytes_eq set_file_types in refl
set_words-put_entry (seeds w ws) g is kept ready = unfold set_key bytes_eq set_seed_urls in refl
set_words-put_entry (bare key) g is kept ready = refl
set_words-put_entry (other key w ws) g is kept ready = set_key-unknown key w (key ∷ w ∷ ws) g is

-- A known key is no comment.
number-kept : (k : NumberKey) (v : List ℕ) → is_skipped (join b' ' (number_text k ∷ v ∷ [])) ≡ false
unfolding join
number-kept depth v = refl
number-kept downloaders v = refl
number-kept extractors v = refl
number-kept schedulers v = refl
number-kept dnsers v = refl
number-kept create_timeout v = refl
number-kept send_limit v = refl
number-kept recv_limit v = refl

path-kept : (k : PathKey) (v : List ℕ) → is_skipped (join b' ' (path_text k ∷ v ∷ [])) ≡ false
unfolding join
path-kept saved_pages v = refl
path-kept log_file v = refl
path-kept err_file v = refl

apart : (b : Bool) → b ≡ false → b ≡ true → ⊥
apart b e f = ground (arith, e, f)

put_entry-skipped :
    (e : Entry) (g : Global) → is_skipped (join b' ' (words_of e)) ≡ true → put_entry e g ≡ g
put_entry-skipped blank g s = refl
put_entry-skipped (comment w ws) g s = refl
put_entry-skipped (number k n) g s = absurd (apart _ (number-kept k (integer2str n)) s)
put_entry-skipped (path k value) g s = absurd (apart _ (path-kept k value) s)
put_entry-skipped (types w ws) g s = absurd (unfold join in ground (arith, s))
put_entry-skipped (seeds w ws) g s = absurd (unfold join in ground (arith, s))
put_entry-skipped (bare key) g s = refl
put_entry-skipped (other key w ws) g s = refl

entry-put_entry :
    (e : Entry) (g : Global)
    → IsEntry e
    → g.has_init ≡ true
    → (if is_skipped (join b' ' (words_of e)) then some g else set_words (words_of e) g)
      ≡ some (put_entry e g)
entry-put_entry e g is ready = elim (Bool-cases (is_skipped (join b' ' (words_of e)))) [
  | inl s ↦
      ap (λ b. if b then some g else set_words (words_of e) g) s
      ∙ ap some (sym (put_entry-skipped e g s))
  | inr s ↦
      ap (λ b. if b then some g else set_words (words_of e) g) s
      ∙ set_words-put_entry e g is s ready
]

put_number-has_init :
    (k : NumberKey) (n : ℕ) (g : Global) → (put_number k n g).has_init ≡ g.has_init
put_number-has_init depth n g = refl
put_number-has_init downloaders n g = refl
put_number-has_init extractors n g = refl
put_number-has_init schedulers n g = refl
put_number-has_init dnsers n g = refl
put_number-has_init create_timeout n g = refl
put_number-has_init send_limit n g = refl
put_number-has_init recv_limit n g = refl

put_path-has_init : (k : PathKey) (v : List ℕ) (g : Global) → (put_path k v g).has_init ≡ g.has_init
put_path-has_init saved_pages v g = refl
put_path-has_init log_file v g = refl
put_path-has_init err_file v g = refl

put_entry-has_init : (e : Entry) (g : Global) → (put_entry e g).has_init ≡ g.has_init
put_entry-has_init blank g = refl
put_entry-has_init (comment w ws) g = refl
put_entry-has_init (number k n) g = put_number-has_init k n g
put_entry-has_init (path k value) g = put_path-has_init k value g
put_entry-has_init (types w ws) g = refl
put_entry-has_init (seeds w ws) g = refl
put_entry-has_init (bare key) g = refl
put_entry-has_init (other key w ws) g = refl

obey-put_all :
    (ls : List EntryLine) (g : Global)
    → AllEntries ls
    → g.has_init ≡ true
    → obey (lines_of ls) g ≡ some (put_all ls g)
unfolding obey
obey-put_all [] g all ready = refl
obey-put_all (l ∷ ls) g all ready =
    ap (λ o. and_then o (obey (lines_of ls))) (entry-put_entry l.entry g all.0 ready)
    ∙ obey-put_all ls (put_entry l.entry g) all.1 (put_entry-has_init l.entry g ∙ ready)

-- A file of entries, one to a line, in a Global that has been initialised. A line has LF behind it,
-- less than 1022 bytes and no NUL, white space around its words or none, and exactly one blank between
-- any two of them; the words are not empty and have no blank and no tab. Then the loop of parse_config
-- sets, one entry after another, the field of each number below 2 ^ 32 (DEPTH, DOWNLOADERS, EXTRACTORS,
-- SCHEDULERS, DNSERS and the three timeouts), of each path (SAVEPATH, LOGFILEPATH, ERRFILEPATH), the
-- file types and the seed urls, all the words behind their key; it sets nothing for empty lines,
-- comments, keys without a value and other keys.
pub config_loop-put_all :
    (ls : List EntryLine) (g : Global)
    → AllConfigLines (lines_of ls)
    → AllEntries ls
    → g.has_init ≡ true
    → config_loop (fgets_all 1022 [] (print_config (lines_of ls))) g ≡ some (put_all ls g)
config_loop-put_all ls g lines all ready =
    config_loop-print_config (lines_of ls) g lines ∙ obey-put_all ls g all ready
