-- ===== src/Logger/Logging.antt =====
-- src/logger.cc: log, on each of its branches.
use myjfm_spider.Prelude.{
  suc, ◌≡◌, refl, sym, ap, ◌∙◌, subst, ◌⊎◌, inl, inr, Bool, true, false, Option, List, [], ◌∷◌,
  ◌++◌, append-nil, append_assoc, ltb, if◌then◌else◌, length, Bool-cases,
}
use myjfm_spider.ResCode.{ResCode, s_ok}
use myjfm_spider.Logger.{
  LogLevel, log_dummy, info, error, warning, fatal, Message, Logger, to_log, to_err, swap_at,
  keep_message, log_error, log_at, System,
}
use myjfm_spider.Logger.Streams.{is_info, is_error, Keeps, Keeps-other, Keeps-direct, Keeps-kept}
use myjfm_spider.Logger.Waiting.{pending, unwritten, Alert, IsKept, Alert-empty, Alert-append}

if-IsKept :
    (ms : List Message) (rest : Option (List Message)) (b : Bool) (r r' : ResCode × Logger)
    → IsKept ms (record { logger = r.1; rest = rest })
    → IsKept ms (record { logger = r'.1; rest = rest })
    → IsKept ms (record { logger = (if◌then◌else◌ {A = ResCode × Logger} b r r').1; rest = rest })
if-IsKept ms rest true r r' x y = x
if-IsKept ms rest false r r' x y = y

-- The streams that the message does not go to at once.
Waits : Message → Logger → Type 0
Waits m l =
    ((is_info m.level ≡ false) ⊎ (l.log_is_cout ≡ false))
    × ((is_error m.level ≡ false) ⊎ (l.err_is_cerr ≡ false))

module _ (ms : List Message) (m : Message) (s : System) (w : Waits m s.logger)
    (k : IsKept ms s) where
  extended-IsKept :
      IsKept
        (ms ++ m ∷ [])
        (record s { logger = record s.logger { primary = s.logger.primary ++ m ∷ [] } })
  unfolding Waits
  extended-IsKept =
      let l = s.logger in
      let e = append_assoc (unwritten s.rest l.secondary) l.primary (m ∷ []) in
      record {
        log_kept =
            subst (Keeps is_info l.log_is_cout l.log_lines (ms ++ m ∷ [])) e
              (Keeps-kept is_info m l.log_lines ms (pending s) l.log_is_cout w.0 k.log_kept);
        err_kept =
            subst (Keeps is_error l.err_is_cerr l.err_lines (ms ++ m ∷ [])) e
              (Keeps-kept is_error m l.err_lines ms (pending s) l.err_is_cerr w.1 k.err_kept);
        alert = k.alert;
      }

  swapped-IsKept :
      s.logger.secondary ≡ []
      → IsKept (ms ++ m ∷ []) (record s {
        logger = record s.logger {
          primary = [];
          secondary = s.logger.primary ++ m ∷ [];
          posts = suc s.logger.posts;
        };
      })
  unfolding Waits
  swapped-IsKept empty =
      let l = s.logger in
      let all = l.primary ++ m ∷ [] in
      let (idle, zero_) = Alert-empty s.rest l.secondary l.posts empty k.alert in
      let e : pending s ++ m ∷ [] ≡ unwritten s.rest all ++ [] =
        ap (λ r. (unwritten r l.secondary ++ l.primary) ++ m ∷ []) idle
        ∙ ap (λ sec. (sec ++ l.primary) ++ m ∷ []) empty
        ∙ sym (append-nil all)
        ∙ sym (ap (λ r. unwritten r all ++ []) idle) in
      record {
        log_kept =
            subst (Keeps is_info l.log_is_cout l.log_lines (ms ++ m ∷ [])) e
              (Keeps-kept is_info m l.log_lines ms (pending s) l.log_is_cout w.0 k.log_kept);
        err_kept =
            subst (Keeps is_error l.err_is_cerr l.err_lines (ms ++ m ∷ [])) e
              (Keeps-kept is_error m l.err_lines ms (pending s) l.err_is_cerr w.1 k.err_kept);
        alert =
            subst (λ r. Alert r all (suc l.posts)) (sym idle)
              (Alert-append l.primary m (suc l.posts) (ap suc zero_));
      }

  swap_at-IsKept :
      (secondary : List Message)
      → s.logger.secondary ≡ secondary
      → IsKept (ms ++ m ∷ []) (record s {
        logger = (swap_at secondary (record s.logger { primary = s.logger.primary ++ m ∷ [] })).1;
      })
  swap_at-IsKept [] e = swapped-IsKept e
  swap_at-IsKept (x ∷ xs) e = extended-IsKept

  keep_message-IsKept : IsKept (ms ++ m ∷ []) (record s { logger = (keep_message m s.logger).1 })
  unfolding keep_message
  keep_message-IsKept =
      let l' = record s.logger { primary = s.logger.primary ++ m ∷ [] } in
      if-IsKept (ms ++ m ∷ []) s.rest (ltb s.logger.threshold (length l'.primary))
        (swap_at s.logger.secondary l') (s_ok, l') (swap_at-IsKept s.logger.secondary refl)
        extended-IsKept

module _ (ms : List Message) (m : Message) (s : System) (k : IsKept ms s) where
  log_error-IsKept :
      is_info m.level ≡ false
      → is_error m.level ≡ true
      → IsKept (ms ++ m ∷ []) (record s { logger = (log_error m s.logger).1 })
  log_error-IsKept no_info is =
      let l = s.logger in
      let State = λ (b : Bool). IsKept (ms ++ m ∷ []) (record s {
        logger = (if◌then◌else◌ {A = ResCode × Logger} b (s_ok, to_err m l) (keep_message m l)).1;
      }) in
      elim (Bool-cases l.err_is_cerr) [
        | inl e ↦
            let now : State true = record {
              log_kept =
                  Keeps-other is_info m l.log_lines ms (pending s) l.log_is_cout no_info k.log_kept;
              err_kept =
                  Keeps-direct is_error m l.err_lines ms (pending s) l.err_is_cerr is e k.err_kept;
              alert = k.alert;
            } in
            subst State (sym e) now
        | inr e ↦
            subst State (sym e)
              (keep_message-IsKept ms m s (unfold Waits in (inl no_info, inr e)) k)
      ]

  log_info-IsKept :
      m.level ≡ info → IsKept (ms ++ m ∷ []) (record s { logger = (log_at info m s.logger).1 })
  log_info-IsKept level =
      let l = s.logger in
      let is = ap is_info level in
      let no_error = ap is_error level in
      let State = λ (b : Bool). IsKept (ms ++ m ∷ []) (record s {
        logger = (if◌then◌else◌ {A = ResCode × Logger} b (s_ok, to_log m l) (keep_message m l)).1;
      }) in
      elim (Bool-cases l.log_is_cout) [
        | inl e ↦
            let now : State true = record {
              log_kept =
                  Keeps-direct is_info m l.log_lines ms (pending s) l.log_is_cout is e k.log_kept;
              err_kept =
                  Keeps-other is_error m l.err_lines ms (pending s) l.err_is_cerr no_error
                    k.err_kept;
              alert = k.alert;
            } in
            subst State (sym e) now
        | inr e ↦
            subst State (sym e)
              (keep_message-IsKept ms m s (unfold Waits in (inr e, inl no_error)) k)
      ]

  pub log_at-IsKept :
      (level : LogLevel)
      → m.level ≡ level
      → IsKept (ms ++ m ∷ []) (record s { logger = (log_at level m s.logger).1 })
  log_at-IsKept info e = log_info-IsKept e
  log_at-IsKept error e = log_error-IsKept (ap is_info e) (ap is_error e)
  log_at-IsKept warning e = log_error-IsKept (ap is_info e) (ap is_error e)
  log_at-IsKept fatal e = log_error-IsKept (ap is_info e) (ap is_error e)
  log_at-IsKept log_dummy e =
      let l = s.logger in
      record {
        log_kept =
            Keeps-other is_info m l.log_lines ms (pending s) l.log_is_cout (ap is_info e)
              k.log_kept;
        err_kept =
            Keeps-other is_error m l.err_lines ms (pending s) l.err_is_cerr (ap is_error e)
              k.err_kept;
        alert = k.alert;
      }
