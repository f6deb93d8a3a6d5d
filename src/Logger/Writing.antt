-- ===== src/Logger/Writing.antt =====
-- src/logger.cc and src/logger_task.cc: what becomes of the messages, over all interleavings of the
-- threads that log with the thread that writes.
use myjfm_spider.Prelude.{
  ℕ, ◌<◌, ◌≡◌, refl, subst, Bool, Option, none, some, List, [], ◌∷◌, ◌++◌, if◌then◌else◌,
}
use myjfm_spider.Logger.{
  LogLevel, log_dummy, info, error, warning, fatal, Message, Logger, logger_new, line, log,
  write_at, System, wake, write_next, clear,
}
use myjfm_spider.Logger.Streams.{is_info, is_error, Keeps, Keeps-written}
use myjfm_spider.Logger.Waiting.{unwritten, Alert, IsKept, Alert-wake, Alert-next, Alert-clear}
use myjfm_spider.Logger.Logging.{log_at-IsKept}

-- Any threads log messages, and the writer wakes up, writes and clears; with the messages logged.
pub data Reachable : List Message → System → Type 0 where
  begins :
      (threshold : ℕ) (is_cout is_cerr : Bool)
      → Reachable [] (record {
        logger = record (logger_new threshold) { log_is_cout = is_cout; err_is_cerr = is_cerr };
        rest = none;
      })
  logs :
      {ms : List Message} {s : System} (m : Message)
      → Reachable ms s
      → Reachable (ms ++ m ∷ []) (record s { logger = (log m s.logger).1 })
  wakes :
      {ms : List Message} {s : System}
      → Reachable ms s
      → s.rest ≡ none
      → 0 < s.logger.posts
      → Reachable ms (wake s)
  writes :
      {ms : List Message} {s : System} (m : Message) (rest : List Message)
      → Reachable ms s
      → s.rest ≡ some (m ∷ rest)
      → Reachable ms (write_next m rest s)
  clears :
      {ms : List Message} {s : System} → Reachable ms s → s.rest ≡ some [] → Reachable ms (clear s)

write_at_lem :
    (level : LogLevel) (m : Message) (l : Logger)
    → record l {
      log_lines = if is_info level then l.log_lines ++ line m ∷ [] else l.log_lines;
      err_lines = if is_error level then l.err_lines ++ line m ∷ [] else l.err_lines;
    }
      ≡ write_at level m l
write_at_lem log_dummy m l = refl
write_at_lem info m l = refl
write_at_lem error m l = refl
write_at_lem warning m l = refl
write_at_lem fatal m l = refl

-- The iterator of the writer is known.
Keeps-at :
    (p : LogLevel → Bool) (direct : Bool) (lines : List (List ℕ))
    (ms secondary primary : List Message) {r r' : Option (List Message)}
    → r ≡ r'
    → Keeps p direct lines ms (unwritten r secondary ++ primary)
    → Keeps p direct lines ms (unwritten r' secondary ++ primary)
Keeps-at p direct lines ms secondary primary e k =
    subst (λ r. Keeps p direct lines ms (unwritten r secondary ++ primary)) e k

module _ (ms : List Message) (s : System) (k : IsKept ms s) where
  -- Both streams, at a known iterator.
  log_at_rest :
      {r : Option (List Message)}
      → s.rest ≡ r
      → Keeps is_info s.logger.log_is_cout s.logger.log_lines ms
          (unwritten r s.logger.secondary ++ s.logger.primary)
  log_at_rest e =
      let l = s.logger in
      Keeps-at is_info l.log_is_cout l.log_lines ms l.secondary l.primary e k.log_kept

  err_at_rest :
      {r : Option (List Message)}
      → s.rest ≡ r
      → Keeps is_error s.logger.err_is_cerr s.logger.err_lines ms
          (unwritten r s.logger.secondary ++ s.logger.primary)
  err_at_rest e =
      let l = s.logger in
      Keeps-at is_error l.err_is_cerr l.err_lines ms l.secondary l.primary e k.err_kept

  write_next-IsKept :
      (m : Message) (rest : List Message)
      → s.rest ≡ some (m ∷ rest)
      → IsKept ms (write_next m rest s)
  unfolding write_next
  write_next-IsKept m rest e =
      let l = s.logger in
      let waiting = rest ++ l.primary in
      subst (λ l'. IsKept ms (record { logger = l'; rest = some rest })) (write_at_lem m.level m l)
        (record {
          log_kept = Keeps-written is_info m l.log_lines ms waiting l.log_is_cout (log_at_rest e);
          err_kept = Keeps-written is_error m l.err_lines ms waiting l.err_is_cerr (err_at_rest e);
          alert =
              Alert-next (m ∷ rest) rest l.secondary l.posts
                (subst (λ r. Alert r l.secondary l.posts) e k.alert);
        })

  wake-IsKept : s.rest ≡ none → 0 < s.logger.posts → IsKept ms (wake s)
  unfolding wake
  wake-IsKept e pos =
      let l = s.logger in
      record {
        log_kept = (log_at_rest e);
        err_kept = (err_at_rest e);
        alert = Alert-wake s.rest l.secondary l.posts e pos k.alert;
      }

  clear-IsKept : s.rest ≡ some [] → IsKept ms (clear s)
  unfolding clear
  clear-IsKept e =
      let l = s.logger in
      record {
        log_kept = (log_at_rest e);
        err_kept = (err_at_rest e);
        alert =
            Alert-clear [] l.secondary l.posts (subst (λ r. Alert r l.secondary l.posts) e k.alert);
      }

-- Whatever messages the threads log, and however the writer's steps come between: the stream of _log
-- holds the lines of the INFO messages and that of _err those of the errors, warnings and fatal
-- messages, each in the order of the calls, but for the messages that still wait in the buffers, whose
-- lines follow; for a stream that is the terminal none waits. And while the second buffer is not empty,
-- the writer is at work, or it waits at a semaphore that is not zero.
pub Reachable-IsKept : (ms : List Message) (s : System) → Reachable ms s → IsKept ms s
unfolding log
Reachable-IsKept ms s (begins threshold is_cout is_cerr) = record {
  log_kept = record { order = refl; at_once = λ d. refl };
  err_kept = record { order = refl; at_once = λ d. refl };
  alert = refl;
}
Reachable-IsKept ms s (logs {ms = us} {s = t} m r) =
    log_at-IsKept us m t (Reachable-IsKept us t r) m.level refl
Reachable-IsKept ms s (wakes {s = t} r e pos) = wake-IsKept ms t (Reachable-IsKept ms t r) e pos
Reachable-IsKept ms s (writes {s = t} m rest r e) =
    write_next-IsKept ms t (Reachable-IsKept ms t r) m rest e
Reachable-IsKept ms s (clears {s = t} r e) = clear-IsKept ms t (Reachable-IsKept ms t r) e
