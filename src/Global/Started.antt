-- ===== src/Global/Started.antt =====
-- src/global.cc: `init` of a new object.
use myjfm_spider.Prelude.{
  ℕ, ◌<◌, ◌≡◌, refl, sym, ap, ◌∙◌, subst, Bool, true, false, Option, none, some, List, [], ◌∷◌,
  ◌++◌, arith, ◌==◌, if◌then◌else◌, done, ◌>>=◌, length, replicate, length-replicate,
  get_or-replicate, bytes_eq, codes,
}
use myjfm_spider.ResCode.{s_ok}
use myjfm_spider.Utility.{trim, split}
use myjfm_spider.Url.{Url, c_str}
use myjfm_spider.Md5.{Md5Caculator}
use myjfm_spider.Squeue.{SQueue, squeue_new}
use myjfm_spider.Global.{Global, global_new}
use myjfm_spider.Global.Access.{
  set_save_path, set_log_path, set_err_path, set_depth, set_downloader_num, set_extractor_num,
  set_scheduler_num, set_dnser_num, set_file_types, set_seed_urls, set_create_connection_timeout,
  set_send_timeout, set_recv_timeout, load_default_file_types, assemble_request_header,
}
use myjfm_spider.Global.Config.{
  set_key, set_words, is_skipped, set_line, and_then, config_loop, has_work, parse_file,
  parse_config, fgets_all,
}
use myjfm_spider.Global.Starting.{
  with_paths, configure, with_queues, start_queues, start_configured, init_global,
}
use myjfm_spider.Squeue.Vectors.{queue_in}
use myjfm_spider.Global.Seeds.{seeds_at, place_seeds-Places}

-- No queue was made.
abbrev pub NoQueues : Global → Type 0
NoQueues g =
    (g.extractor_queues ≡ [])
    × (g.downloader_queues ≡ [])
    × (g.scheduler_queues ≡ [])
    × (g.dnser_queues ≡ [])

abbrev After : Option Global → Type 0
After none = Unit {0}
After (some g) = NoQueues g

After-if : (b : Bool) (x y : Option Global) → After x → After y → After (if b then x else y)
After-if true x y p q = p
After-if false x y p q = q

After-and_then :
    (o : Option Global) (k : Global → Option Global)
    → After o
    → ((g : Global) → NoQueues g → After (k g))
    → After (and_then o k)
After-and_then none k p q = tt
After-and_then (some g) k p q = q g p

program : Unit {0}
unfolding set_save_path set_log_path set_err_path set_depth set_downloader_num set_extractor_num
    set_scheduler_num set_dnser_num set_file_types set_seed_urls set_create_connection_timeout
    set_send_timeout set_recv_timeout load_default_file_types assemble_request_header
program = tt

set_key-After :
    (key value : List ℕ) (words : List (List ℕ)) (g : Global)
    → NoQueues g
    → After (set_key key value words g)
unfolding set_key program
set_key-After key value words g p =
    After-if (bytes_eq key (codes "SAVEPATH")) _ _ (After-if g.has_init _ none p tt) (
      After-if (bytes_eq key (codes "LOGFILEPATH")) _ _ (After-if g.has_init _ none p tt) (
        After-if (bytes_eq key (codes "ERRFILEPATH")) _ _ (After-if g.has_init _ none p tt) (
          After-if (bytes_eq key (codes "DEPTH")) _ _ (After-if g.has_init _ none p tt) (
            After-if (bytes_eq key (codes "DOWNLOADERS")) _ _ (After-if g.has_init _ none p tt) (
              After-if (bytes_eq key (codes "EXTRACTORS")) _ _ (After-if g.has_init _ none p tt) (
                After-if (bytes_eq key (codes "SCHEDULERS")) _ _ (After-if g.has_init _ none p tt) (
                  After-if (bytes_eq key (codes "DNSERS")) _ _ (After-if g.has_init _ none p tt) (
                    After-if (bytes_eq key (codes "FILETYPES")) _ _ p (
                      After-if (bytes_eq key (codes "SEEDURLS")) _ _ p (
                        After-if (bytes_eq key (codes "CREATE_CONNECTION_TIMEOUT")) _ _
                          (After-if g.has_init _ none p tt)
                          (After-if (bytes_eq key (codes "SEND_TIMEOUT")) _ _
                            (After-if g.has_init _ none p tt)
                            (After-if (bytes_eq key (codes "RECV_TIMEOUT")) _ _
                              (After-if g.has_init _ none p tt) p))))))))))))

set_words-After : (words : List (List ℕ)) (g : Global) → NoQueues g → After (set_words words g)
set_words-After [] g p = p
set_words-After (key ∷ []) g p = p
set_words-After (key ∷ value ∷ words) g p = set_key-After key value (key ∷ value ∷ words) g p

set_line-After : (line : List ℕ) (g : Global) → NoQueues g → After (set_line line g)
set_line-After line g p =
    After-if (is_skipped line) (some g) (set_words (split line (codes " \t")) g) p
      (set_words-After (split line (codes " \t")) g p)

config_loop-next :
    (buffer : List ℕ) (rest : List (List ℕ)) (g : Global)
    → config_loop (buffer ∷ rest) g ≡ and_then (set_line (trim (c_str buffer)) g) (config_loop rest)
unfolding config_loop
config_loop-next buffer rest g = refl

config_loop-After :
    (buffers : List (List ℕ)) (g : Global) → NoQueues g → After (config_loop buffers g)
config_loop-After [] g p = unfold config_loop in p
config_loop-After (buffer ∷ rest) g p = subst After (sym (config_loop-next buffer rest g)) (
    After-and_then (set_line (trim (c_str buffer)) g) (config_loop rest)
      (set_line-After (trim (c_str buffer)) g p) (λ g' q. config_loop-After rest g' q))

has_work-After :
    (access : List ℕ → Bool) (urls : List (List ℕ)) (g : Global)
    → NoQueues g
    → After (has_work access urls g)
has_work-After access [] g p = tt
has_work-After access (url ∷ urls) g p = After-if (access g.save_path) (some g) none p tt

parse_file-After :
    (access : List ℕ → Bool) (o : Option (List ℕ)) (g : Global)
    → NoQueues g
    → After (parse_file access o g)
unfolding parse_file
parse_file-After access none g p = tt
parse_file-After access (some bytes) g p =
    After-and_then (config_loop (fgets_all 1022 [] bytes) g) (λ g'. has_work access g'.seed_urls g')
      (config_loop-After (fgets_all 1022 [] bytes) g p)
      (λ g' q. has_work-After access g'.seed_urls g' q)

configure-After :
    (files : List ℕ → Option (List ℕ)) (access : List ℕ → Bool) (g : Global)
    → NoQueues g
    → After (configure files access g)
unfolding configure parse_config load_default_file_types assemble_request_header
configure-After files access g p =
    After-and_then (load_default_file_types g)
      (λ g1. and_then (parse_config files access g1) assemble_request_header)
      (After-if g.has_init _ none p tt)
      (λ g1 p1.
        After-and_then (parse_config files access g1) assemble_request_header
          (After-if g1.has_init _ none
            (After-if (length g1.config_file == 0) none
              (parse_file access (files g1.config_file) g1) tt
              (parse_file-After access (files g1.config_file) g1 p1))
            tt)
          (λ g2 p2. After-if g2.has_init _ none p2 tt))

abbrev HasInit : Option Global → Type 0
HasInit none = Unit {0}
HasInit (some g) = g.has_init ≡ true

and_then-HasInit :
    (o : Option Global) (k : Global → Option Global)
    → ((g : Global) → HasInit (k g))
    → HasInit (and_then o k)
and_then-HasInit none k h = tt
and_then-HasInit (some g) k h = h g

checked-HasInit : (b : Bool) (x : Global) → x.has_init ≡ b → HasInit (if b then some x else none)
checked-HasInit true x e = e
checked-HasInit false x e = tt

assemble-HasInit : (g : Global) → HasInit (assemble_request_header g)
unfolding assemble_request_header
assemble-HasInit g = checked-HasInit g.has_init _ refl

configure-HasInit :
    (files : List ℕ → Option (List ℕ)) (access : List ℕ → Bool) (g : Global)
    → HasInit (configure files access g)
unfolding configure
configure-HasInit files access g =
    and_then-HasInit (load_default_file_types g)
      (λ g1. and_then (parse_config files access g1) assemble_request_header)
      (λ g1.
        and_then-HasInit (parse_config files access g1) assemble_request_header
          (λ g2. assemble-HasInit g2))

-- The queues of an object that has started: as many of each kind as there are threads, empty but for
-- the seeds in those of the resolvers.
pub record IsStarted (stack : Md5Caculator) (g g' : Global) : Type 0 where
  pub extractors : g'.extractor_queues ≡ replicate g.extractor_num squeue_new
  pub downloaders : g'.downloader_queues ≡ replicate g.downloader_num squeue_new
  pub schedulers : g'.scheduler_queues ≡ replicate g.scheduler_num squeue_new
  pub dnsers : length g'.dnser_queues ≡ g.dnser_num
  pub init : g'.has_init ≡ true
  pub numbers :
      (g'.extractor_num ≡ g.extractor_num)
      × (g'.downloader_num ≡ g.downloader_num)
      × (g'.scheduler_num ≡ g.scheduler_num)
      × (g'.dnser_num ≡ g.dnser_num)
  pub cache : g'.dns_cache ≡ true
  pub seeds : (i : ℕ) → queue_in i g'.dnser_queues ≡ seeds_at stack g.dnser_num i g.seed_urls

start_queues-IsStarted :
    (stack : Md5Caculator) (g : Global)
    → NoQueues g
    → g.has_init ≡ true
    → 0 < g.dnser_num
    → (g' : Global) × (start_queues stack g ≡ done (s_ok, g')) × IsStarted stack g g'
unfolding start_queues
start_queues-IsStarted stack g p init pos =
    let new : (with_queues g).dnser_queues ≡ replicate g.dnser_num squeue_new =
      ap (λ qs. qs ++ replicate g.dnser_num squeue_new) p.3 in
    let size : length (with_queues g).dnser_queues ≡ g.dnser_num =
      ap length new ∙ length-replicate g.dnser_num squeue_new in
    let r =
      place_seeds-Places stack g.dnser_num pos g.seed_urls (with_queues g).dnser_queues size in
    let none_ : (i : ℕ) → queue_in i (with_queues g).dnser_queues ≡ [] = λ i.
      ap (queue_in i) new
      ∙ ap (λ (q : SQueue Url). q.queue) (get_or-replicate g.dnser_num i squeue_new) in
    (
      record (with_queues g) { dnser_queues = r.after; dns_cache = true },
      ap
          (λ z.
            z >>= λ qs. done (s_ok, record (with_queues g) { dnser_queues = qs; dns_cache = true }))
          r.ran,
      record {
        extractors = ap (λ qs. qs ++ replicate g.extractor_num squeue_new) p.0;
        downloaders = ap (λ qs. qs ++ replicate g.downloader_num squeue_new) p.1;
        schedulers = ap (λ qs. qs ++ replicate g.scheduler_num squeue_new) p.2;
        dnsers = r.size ∙ size;
        init = init;
        numbers = (refl, refl, refl, refl);
        cache = refl;
        seeds = λ i. r.gets i ∙ ap (λ z. z ++ seeds_at stack g.dnser_num i g.seed_urls) (none_ i);
      },
    )

-- A new object, a name that is not empty, and files whose configuration `g` is read to the end, with
-- one resolver or more: init returns S_OK, with as many queues of each kind as the configuration has
-- threads, the numbers being the configuration's and the cache made, all empty but for those of the
-- resolvers, which hold the seed urls that have an MD5, each in the one that its MD5 chooses, in the
-- order of the configuration.
pub init_global-IsStarted :
    (files : List ℕ → Option (List ℕ)) (access : List ℕ → Bool) (stack : Md5Caculator)
    (path name : List ℕ) (g : Global)
    → 0 < length name
    → configure files access (with_paths path name global_new) ≡ some g
    → 0 < g.dnser_num
    → (g' : Global) × (init_global files access stack path name global_new ≡ some (done (s_ok, g')))
      × IsStarted stack g g'
unfolding init_global
init_global-IsStarted files access stack path name g some_ e pos =
    let p : NoQueues g =
      subst After e
        (configure-After files access (with_paths path name global_new) (refl, refl, refl, refl)) in
    let init : g.has_init ≡ true =
      subst HasInit e (configure-HasInit files access (with_paths path name global_new)) in
    let (g', ran, is) = start_queues-IsStarted stack g p init pos in
    let ne : (length name == 0) ≡ false = ground (arith, some_) in
    (
      g',
      ap
            (λ b.
              if b
              then none
              else start_configured stack
                  (configure files access (with_paths path name global_new)))
            ne
          ∙ ap (start_configured stack) e
          ∙ ap some ran,
      is,
    )
