-- ===== src/Tests/Configs.antt =====
-- src/global.cc: a configuration file, and the theorem on its lines applied.
use myjfm_spider.Url.{c_str}
use myjfm_spider.Prelude.{
  Option, done, ℕ, ◌≡◌, refl, Bool, true, not, ◌&&◌, ◌==◌, some, List, [], ◌∷◌, arith, codes,
  bytes_eq,
}
use myjfm_spider.Utility.{
  integer2str, print_digits, is_space, trim, ltrim, rtrim, split, split_loop, is_separator,
  is_digit,
}
use myjfm_spider.Utility.Splitting.{IsToken, join}
use myjfm_spider.Header.Fields.{IsLine}
use myjfm_spider.Global.{Global, global_new, atoi, atoi_sign, digits_value}
use myjfm_spider.Global.Access.{
  load_default_file_types, assemble_request_header, set_depth, set_seed_urls,
}
use myjfm_spider.Tests.Digests.{any_memory}
use myjfm_spider.ResCode.{s_ok}
use myjfm_spider.Global.Starting.{with_paths, configure, init_global}
use myjfm_spider.Global.Started.{IsStarted, init_global-IsStarted}
use myjfm_spider.Global.Config.{parse_config, parse_file, fgets_all, config_loop, set_key}
use myjfm_spider.Global.Lines.{ConfigLine, IsConfigLine, NoNul, print_line, print_config}
use myjfm_spider.Global.Entries.{EntryLine, number, depth, seeds, line_of, lines_of, put_all}
use myjfm_spider.Global.Settings.{config_loop-put_all}

abbrev depth_entry : EntryLine
depth_entry = record { front = codes " "; entry = number depth 7; back = [] }

abbrev depth_line : ConfigLine
depth_line = line_of depth_entry

abbrev seeds_entry : EntryLine
seeds_entry = record { front = []; entry = seeds (codes "http://a.b") []; back = codes "\r" }

abbrev seeds_line : ConfigLine
seeds_line = line_of seeds_entry

-- Whether a byte does not stand in a text.
abbrev lacks : ℕ → List ℕ → Bool
lacks d [] = true
lacks d (c ∷ s) = not (c == d) && lacks d s

lacks-IsLine : (s : List ℕ) → lacks b'\n' s ≡ true → IsLine s
lacks-IsLine [] e = tt
lacks-IsLine (c ∷ s) e =
    let rest : lacks b'\n' s ≡ true = ground (arith, e) in (ground (arith, e), lacks-IsLine s rest)

lacks-NoNul : (s : List ℕ) → lacks 0 s ≡ true → NoNul s
lacks-NoNul [] e = tt
lacks-NoNul (c ∷ s) e =
    let rest : lacks 0 s ≡ true = ground (arith, e) in (ground (arith, e), lacks-NoNul s rest)

lacks-IsToken : (s : List ℕ) → lacks b' ' s ≡ true → lacks b'\t' s ≡ true → IsToken (codes " \t") s
unfolding is_separator
lacks-IsToken [] e f = tt
lacks-IsToken (c ∷ s) e f =
    let rest : lacks b' ' s ≡ true = ground (arith, e) in
    let rest' : lacks b'\t' s ≡ true = ground (arith, f) in
    (ground (arith, e, f), lacks-IsToken s rest rest')

depth_line-IsConfigLine : IsConfigLine depth_line
unfolding is_space join integer2str print_digits
depth_line-IsConfigLine = record {
  front_spaces = (refl, tt);
  back_spaces = tt;
  words_apart = (
    λ e. absurd (ground (arith, e)),
    lacks-IsToken (codes "DEPTH") refl refl,
    (λ e. absurd (ground (arith, e)), lacks-IsToken (codes "7") refl refl, tt),
  );
  starts = refl;
  ends = refl;
  one_line = lacks-IsLine (print_line depth_line) refl;
  no_nul = lacks-NoNul (print_line depth_line) refl;
  fits = omega arith;
}

seeds_line-IsConfigLine : IsConfigLine seeds_line
unfolding is_space join
seeds_line-IsConfigLine = record {
  front_spaces = tt;
  back_spaces = (refl, tt);
  words_apart = (
    λ e. absurd (ground (arith, e)),
    lacks-IsToken (codes "SEEDURLS") refl refl,
    (λ e. absurd (ground (arith, e)), lacks-IsToken (codes "http://a.b") refl refl, tt),
  );
  starts = refl;
  ends = refl;
  one_line = lacks-IsLine (print_line seeds_line) refl;
  no_nul = lacks-NoNul (print_line seeds_line) refl;
  fits = omega arith;
}

abbrev started : Global
started = record global_new { has_init = true }

config_loop-put_all_example :
    config_loop
      (fgets_all 1022 [] (print_config (lines_of (depth_entry ∷ seeds_entry ∷ []))))
      started
    ≡ some (put_all (depth_entry ∷ seeds_entry ∷ []) started)
config_loop-put_all_example =
    config_loop-put_all (depth_entry ∷ seeds_entry ∷ []) started
      (depth_line-IsConfigLine, (seeds_line-IsConfigLine, tt)) (omega arith, (tt, tt)) refl

-- What the two lines say.
entries_are_put :
    put_all (depth_entry ∷ seeds_entry ∷ []) started
    ≡ record started { depth = 7; seed_urls = codes "http://a.b" ∷ [] }
entries_are_put = refl

abbrev pub files : List ℕ → Option (List ℕ)
files name = some (codes "DEPTH 7\nSEEDURLS http://a.b\n")

abbrev pub configured : Global
configured = record (with_paths [] (codes "f") global_new) {
  file_types = codes ".htm" ∷ codes ".html" ∷ [];
  depth = 7;
  seed_urls = codes "http://a.b" ∷ [];
  request_header =
      codes
        "User-Agent: myjfm_spider myjfm_spider@xxx.com\r\nAccept: */*\r\nAccept-Charset: utf-8\r\nAccept-Encoding: gzip,deflate\r\nAccept-Language: en,zh\r\nConnection: keep-alive\r\n\r\n";
}

pub is_configured :
    configure files (λ path. true) (with_paths [] (codes "f") global_new) ≡ some configured
unfolding configure parse_config parse_file config_loop fgets_all c_str trim ltrim rtrim split
    split_loop is_separator set_key set_depth set_seed_urls bytes_eq atoi atoi_sign digits_value
    is_space is_digit load_default_file_types assemble_request_header
is_configured = refl

init_global-IsStarted_example :
    (g : Global) × (init_global files (λ path. true) any_memory [] (codes "f") global_new
      ≡ some (done (s_ok, g)))
    × IsStarted any_memory configured g
init_global-IsStarted_example =
    init_global-IsStarted files (λ path. true) any_memory [] (codes "f") configured (omega arith)
      is_configured (omega arith)
