-- ===== src/Tests/Starting.antt =====
-- src/myjfm_spider.cc and the init of the tasks: a program with one thread of each kind.
use myjfm_spider.Prelude.{◌≡◌, ◌⊎◌, refl, true, none, some, [], ◌∷◌, codes, arith, bytes_eq, done}
use myjfm_spider.ResCode.{s_ok}
use myjfm_spider.Utility.Paths.{get_file_full_path}
use myjfm_spider.Global.{Global, global_new}
use myjfm_spider.Global.Starting.{init_global}
use myjfm_spider.Tests.Digests.{any_memory}
use myjfm_spider.Tests.Configs.{files, configured, is_configured}
use myjfm_spider.Tests.Threads.{late}
use myjfm_spider.Tasks.Connected.{AreConnected, init_global-AreConnected}
use myjfm_spider.Spider.{Spider, Answers, asked_file, asked_usage, asked_for, init_modules}
use myjfm_spider.Spider.Ready.{AreReady, init_modules-AreReady}

abbrev small : Global
small = record global_new { has_init = true; downloader_num = 1; extractor_num = 1 }

abbrev all_late : Answers
all_late = record {
  to_downloaders = late;
  to_extractors = late;
  to_schedulers = late;
  to_dnsers = late;
}

init_modules-AreReady_example :
    (s : Spider) × (init_modules all_late small ≡ done s)
    × ((s.global.to_be_shutdown ≡ true) ⊎ AreReady small s)
init_modules-AreReady_example =
    init_modules-AreReady all_late small refl (omega arith) (omega arith) (omega arith)
      (omega arith)

init_global-AreConnected_example :
    (g : Global) × (init_global files (λ path. true) any_memory [] (codes "f") global_new
      ≡ some (done (s_ok, g)))
    × AreConnected g
init_global-AreConnected_example =
    init_global-AreConnected files (λ path. true) any_memory [] (codes "f") configured (omega arith)
      is_configured (omega arith)

-- The configuration file beside the directory.
asked_above :
    asked_for (some (codes "/a/b")) none (codes "/a/b") (codes "-f" ∷ codes "../c" ∷ [])
    ≡ asked_file (done (codes "/a/c"))
unfolding asked_for get_file_full_path bytes_eq
asked_above = refl

asked_help : asked_for none none [] (codes "-h" ∷ []) ≡ asked_usage 0
unfolding asked_for bytes_eq
asked_help = refl
