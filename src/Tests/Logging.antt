-- ===== src/Tests/Logging.antt =====
-- src/logger.cc: a logger whose buffer is full with the second message.
use myjfm_spider.Prelude.{◌≡◌, refl, false, none, [], ◌∷◌, codes, arith}
use myjfm_spider.Logger.{
  info, warning, Message, logger_new, System, log, keep_message, wake, write_next,
}
use myjfm_spider.Logger.Waiting.{IsKept}
use myjfm_spider.Logger.Writing.{Reachable, begins, logs, wakes, writes, Reachable-IsKept}

abbrev said : Message
said = record { level = info; msg = codes "a" }

abbrev warned : Message
warned = record { level = warning; msg = codes "b" }

abbrev first : System
first = record { logger = logger_new 1; rest = none }

abbrev logged : System
logged = record { logger = (log warned (log said first.logger).1).1; rest = none }

reached : Reachable (said ∷ warned ∷ []) (write_next said (warned ∷ []) (wake logged))
unfolding log keep_message wake write_next
reached =
    writes said (warned ∷ [])
      (wakes (logs warned (logs said (begins 1 false false))) refl (omega arith)) refl

Reachable-IsKept_example : IsKept (said ∷ warned ∷ []) (write_next said (warned ∷ []) (wake logged))
Reachable-IsKept_example =
    Reachable-IsKept (said ∷ warned ∷ []) (write_next said (warned ∷ []) (wake logged)) reached

-- The line of the first message is written, and the second one is before the writer.
one_line : (write_next said (warned ∷ []) (wake logged)).logger.log_lines ≡ codes "[INFO] a" ∷ []
unfolding log keep_message wake write_next
one_line = refl
