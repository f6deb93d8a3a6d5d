-- ===== src/Logger.antt =====
-- src/logger.h, src/logger.cc and src/logger_task.cc: two buffers of messages and the thread that
-- writes the second one to the files. `posts` is the value of the semaphore. The calls of `log` behind
-- the switch run under the mutex of the first buffer.
pub mod Starting
pub mod Streams
pub mod Waiting
pub mod Logging
pub mod Writing
use myjfm_spider.Prelude.{
  ℕ, suc, ◌-◌, Bool, true, false, Option, none, some, List, [], ◌∷◌, ◌++◌, ltb, if◌then◌else◌,
  length, codes,
}
use myjfm_spider.ResCode.{ResCode, s_ok, s_invalid_log, s_is_logging}

-- `LOG_LEVEL`.
pub data LogLevel : Type 0 where
  log_dummy info error warning fatal : LogLevel

pub record Message : Type 0 where
  pub level : LogLevel
  pub msg : List ℕ

-- The lines that the streams of `_log` and `_err` have got; they may be those of the terminal.
pub record Logger : Type 0 where
  pub log_lines : List (List ℕ)
  pub err_lines : List (List ℕ)
  pub log_is_cout : Bool
  pub err_is_cerr : Bool
  pub threshold : ℕ
  pub primary : List Message
  pub secondary : List Message
  pub posts : ℕ

abbrev pub logger_new : ℕ → Logger
logger_new threshold = record {
  log_lines = [];
  err_lines = [];
  log_is_cout = false;
  err_is_cerr = false;
  threshold = threshold;
  primary = [];
  secondary = [];
  posts = 0;
}

abbrev pub level_label : LogLevel → List ℕ
level_label log_dummy = []
level_label info = codes "[INFO] "
level_label error = codes "[ERROR] "
level_label warning = codes "[WARNING] "
level_label fatal = codes "[FATAL] "

abbrev pub line : Message → List ℕ
line m = level_label m.level ++ m.msg

abbrev pub to_log : Message → Logger → Logger
to_log m l = record l { log_lines = l.log_lines ++ line m ∷ [] }

abbrev pub to_err : Message → Logger → Logger
to_err m l = record l { err_lines = l.err_lines ++ line m ∷ [] }

-- Behind `_primary.size() > _threshold`.
abbrev pub swap_at : List Message → Logger → ResCode × Logger
swap_at (m ∷ ms) l = (s_is_logging, l)
swap_at [] l = (s_ok, record l { primary = []; secondary = l.primary; posts = suc l.posts })

unfoldable pub keep_message : Message → Logger → ResCode × Logger
keep_message m l =
    let l' = record l { primary = l.primary ++ m ∷ [] } in
    if ltb l.threshold (length l'.primary) then swap_at l.secondary l' else (s_ok, l')

abbrev pub log_error : Message → Logger → ResCode × Logger
log_error m l = if l.err_is_cerr then (s_ok, to_err m l) else keep_message m l

abbrev pub log_at : LogLevel → Message → Logger → ResCode × Logger
log_at log_dummy m l = (s_invalid_log, l)
log_at info m l = if l.log_is_cout then (s_ok, to_log m l) else keep_message m l
log_at error m l = log_error m l
log_at warning m l = log_error m l
log_at fatal m l = log_error m l

unfoldable pub log : Message → Logger → ResCode × Logger
log m l = log_at m.level m l

-- The writer: one turn of its inner loop.
abbrev pub write_at : LogLevel → Message → Logger → Logger
write_at log_dummy m l = l
write_at info m l = to_log m l
write_at error m l = to_err m l
write_at warning m l = to_err m l
write_at fatal m l = to_err m l

-- The logger with its thread: what its iterator has before it, `none` where it waits.
pub record System : Type 0 where
  pub logger : Logger
  pub rest : Option (List Message)

-- Behind `wait`, where the semaphore is not zero.
unfoldable pub wake : System → System
wake s = record {
  logger = record s.logger { posts = s.logger.posts - 1 };
  rest = some s.logger.secondary;
}

unfoldable pub write_next : Message → List Message → System → System
write_next m ms s = record { logger = write_at m.level m s.logger; rest = some ms }

-- `_secondary.clear()`.
unfoldable pub clear : System → System
clear s = record { logger = record s.logger { secondary = [] }; rest = none }
