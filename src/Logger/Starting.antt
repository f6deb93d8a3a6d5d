-- ===== src/Logger/Starting.antt =====
-- src/logger.cc: `init`. `opens` says whether a path can be opened for writing, and `is_started`
-- whether the thread starts; `none` is the abort of a global object that is not initialised.
use myjfm_spider.Prelude.{ℕ, Bool, true, false, Option, some, List, [], ◌++◌, if◌then◌else◌, codes}
use myjfm_spider.ResCode.{ResCode, s_ok, s_failed_to_log_on_disk}
use myjfm_spider.Global.{Global}
use myjfm_spider.Global.Config.{and_then}
use myjfm_spider.Global.Access.{
  get_log_path, get_err_path, get_cur_path, set_log_path, set_err_path,
}
use myjfm_spider.Logger.{Logger}

-- The second try, in the current path, and the terminal; whether it is the terminal.
abbrev pub open_in :
    (List ℕ → Bool) → (List ℕ → Global → Option Global) → List ℕ → Global → Option (Bool × Global)
open_in opens set_path name g = and_then (get_cur_path g) λ path. and_then (set_path path g) λ g1.
    if opens (path ++ name)
    then some (false, g1)
    else and_then (set_path [] g1) (λ g2. some (true, g2))

abbrev pub open_log : (List ℕ → Bool) → Global → Option (Bool × Global)
open_log opens g = and_then (get_log_path g) λ path.
    if opens (path ++ codes "/log.txt")
    then some (false, g)
    else open_in opens (λ p h. set_log_path h p) (codes "/log.txt") g

abbrev pub open_err : (List ℕ → Bool) → Global → Option (Bool × Global)
open_err opens g = and_then (get_err_path g) λ path.
    if opens (path ++ codes "/err.txt")
    then some (false, g)
    else open_in opens (λ p h. set_err_path h p) (codes "/err.txt") g

unfoldable pub init_logger :
    (List ℕ → Bool) → Bool → Global → Logger → Option (ResCode × Logger × Global)
init_logger opens is_started g l = and_then (open_log opens g) λ (is_cout, g1).
    and_then (open_err opens g1) λ (is_cerr, g2). some (
      if is_started then s_ok else s_failed_to_log_on_disk,
      record l { primary = []; secondary = []; log_is_cout = is_cout; err_is_cerr = is_cerr },
      g2,
    )
