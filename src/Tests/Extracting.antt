-- ===== src/Tests/Extracting.antt =====
-- src/extractor_task.cc: pages of two bytes, with a stand-in for zlib that gives a byte of its input at
-- each call.
use myjfm_spider.Prelude.{
  ℕ, ◌≡◌, ◌≢◌, refl, inl, true, Option, none, some, List, [], ◌∷◌, codes, done, fault, bytes_eq,
}
use myjfm_spider.ResCode.{s_ok, s_fail}
use myjfm_spider.Utility.{split, split_loop, is_separator}
use myjfm_spider.Page.{Encoding, http_encoding_txt, http_encoding_gzip, http_encoding_deflate, Page}
use myjfm_spider.Squeue.{squeue_new}
use myjfm_spider.Extractor.{
  z_ok, z_stream_end, z_buf_error, z_other, Inflated, Zlib, decompress_page,
}
use myjfm_spider.Extractor.Inflating.{Inflates, ends, goes, of_deflate}
use myjfm_spider.Extractor.Stuck.{here, there, decompress_page-hangs}
use myjfm_spider.Extractor.Saving.{Files, Disk, add_file, enter_dirs, save_page}
use myjfm_spider.Uri.{uri_new}
use myjfm_spider.Extractor.Rounds.{ExtractorTask, Calls}

-- `at_end` is what it says where the input has come to its end.
abbrev step_through :
    (Option (List ℕ) → Inflated (Unit {0})) → Option (List ℕ) → Inflated (Unit {0})
step_through at_end none = record { code = z_other; bytes = []; left = none; stream = tt }
step_through at_end (some []) = at_end (some [])
step_through at_end (some (b ∷ bs)) = record {
  code = z_ok;
  bytes = b ∷ [];
  left = some bs;
  stream = tt;
}

abbrev whole : Zlib
whole = record {
  Stream = Unit {0};
  inflate_init = λ n. some tt;
  inflate = λ out input s.
      step_through (λ i. record { code = z_stream_end; bytes = []; left = i; stream = tt }) input;
  inflate_reset = λ s. s;
}

abbrev truncated : Zlib
truncated = record {
  Stream = Unit {0};
  inflate_init = λ n. some tt;
  inflate = λ out input s.
      step_through (λ i. record { code = z_buf_error; bytes = []; left = i; stream = tt }) input;
  inflate_reset = λ s. s;
}

abbrev sent : Encoding → Page
sent c = record {
  content = some (codes "ab");
  page_size = 2;
  site = codes "a.b";
  port = 80;
  file = codes "/x/y";
  charset = [];
  encoding = c;
}

abbrev runs : Inflates whole (some 4) tt (some (codes "ab")) (codes "ab") 3
runs =
    goes tt (some (codes "ab")) (inl refl)
      (goes tt (some (codes "b")) (inl refl) (ends tt (some []) refl))

at_end :
    (input : Option (List ℕ))
    → input ≡ some []
    → (truncated.inflate none input tt).code ≡ z_buf_error
at_end none e = cc
at_end (some []) e = refl
at_end (some (b ∷ bs)) e = cc

stays_at_end :
    (input : Option (List ℕ)) → input ≡ some [] → (truncated.inflate none input tt).left ≡ some []
stays_at_end none e = cc
stays_at_end (some []) e = refl
stays_at_end (some (b ∷ bs)) e = cc

decompress_page-hangs_example :
    decompress_page truncated (λ n. true) 100 (some (sent http_encoding_deflate))
    ≢ done (s_fail, none)
decompress_page-hangs_example =
    decompress_page-hangs truncated (λ n. true) 100 15 (sent http_encoding_deflate) tt tt (some [])
      (λ s input. input ≡ some []) of_deflate refl
      (record { says = λ s input e. at_end input e; stays = λ s input e. stays_at_end input e })
      (there tt (some (codes "ab")) (inl refl)
        (there tt (some (codes "b")) (inl refl) (here tt (some []))))
      refl (s_fail, none)

abbrev open_disk : Files
open_disk = record {
  can_access = λ p. bytes_eq p (codes "/s/a.b");
  can_mkdir = λ p. true;
  can_open = λ p. true;
  takes = λ p. 100;
}

abbrev empty_disk : Disk
empty_disk = record { made = []; files = [] }

abbrev calls : Calls
calls = record {
  zlib = whole;
  fuel = 3;
  alloc = λ n. true;
  files = open_disk;
  scan = λ text l. done (l, codes "http://c/" ∷ []);
}

abbrev task : ExtractorTask
task = record {
  id = 0;
  dnser_num = 0;
  save_path = codes "/s";
  page_queue = record squeue_new { queue = some (sent http_encoding_gzip) ∷ [] };
  dnser_queues = [];
  link_lexer = record { page = none; base_uri = uri_new; base_flag = true };
  disk = empty_disk;
}

-- A path of slashes only has no name.
only_slashes :
    save_page open_disk
      (codes "/s")
      (record (sent http_encoding_txt) { file = codes "//" })
      empty_disk
    ≡ fault
unfolding save_page split split_loop is_separator bytes_eq enter_dirs
only_slashes = refl

-- The names of the path are taken as they are.
above_save_path :
    save_page open_disk
      (codes "/s")
      (record (sent http_encoding_txt) { file = codes "/../../y" })
      empty_disk
    ≡ done (
      s_ok,
      add_file
          (codes "/s/a.b/../../y")
          (codes "ab")
          (record empty_disk { made = codes "/s/a.b/.." ∷ codes "/s/a.b/../.." ∷ [] }),
    )
unfolding save_page split split_loop is_separator bytes_eq enter_dirs
above_save_path = refl
