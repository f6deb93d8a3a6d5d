-- ===== src/Dnser/Stuck.antt =====
-- src/dnser_task.cc: an entry of the table that has no query, over all rounds.
use myjfm_spider.Squeue.Vectors.{push_at_index}
use myjfm_spider.Squeue.{SQueue}
use myjfm_spider.Prelude.{
  or_else, ℕ, ◌+◌, ◌<◌, ◌≡◌, refl, sym, ap, ◌∙◌, subst, Bool, true, false, Option, none, some, List,
  [], ◌∷◌, ◌++◌, arith, ◌==◌, if◌then◌else◌, Run, done, fault, out_of_fuel, length, length-append,
  bytes_eq, bytes_eq_iff, Bool-cases, Option-cases, inl, inr, ◌>>=◌,
}
use myjfm_spider.ResCode.{is_ok}
use myjfm_spider.SiteMap.{find_key, store_key}
use myjfm_spider.Md5.{Md5Caculator, shuffle}
use myjfm_spider.Url.{Url, get_status, set_ip, get_md5}
use myjfm_spider.DnsCache.{find_site}
use myjfm_spider.Dnser.{
  DnserTask, Calls, Answer, found_addresses, prohibited_cname, other_status, push_to_scheduler,
  put_url_into_scheduler, submit_once, waiting_at, with_waiting, await_site, url_site,
  is_initialized, take_url, resolve_all, forget_site, remember_site, answer_urls, remove_first,
  answer_entry, check_answer, take_popped,
}
use myjfm_spider.Dnser.Entries.{
  is_asked, AllSite, IsStuck, StuckIn, store-IsStuck, ask-IsStuck, erase-IsStuck, append-IsStuck,
  is_asked-remove_first, asked-apart, AllSite-append,
}

-- The table and the queries are the same.
abbrev SameTable : DnserTask → DnserTask → Type 0
SameTable d d' = (d'.is_dnsing_lutable ≡ d.is_dnsing_lutable) × (d'.asked ≡ d.asked)

-- A step that returns has left them so.
abbrev SameAfter : DnserTask → Run DnserTask → Type 0
SameAfter d (done d') = SameTable d d'
SameAfter d fault = Unit {0}
SameAfter d out_of_fuel = Unit {0}

queues-SameAfter :
    (d : DnserTask) (r : Run (List (SQueue Url)))
    → SameAfter d (r >>= λ queues. done (record d { scheduler_queues = queues }))
queues-SameAfter d (done queues) = (refl, refl)
queues-SameAfter d fault = tt
queues-SameAfter d out_of_fuel = tt

push_to_scheduler-SameAfter :
    (o : Option ℕ) (u : Url) (d : DnserTask) → SameAfter d (push_to_scheduler o u d)
push_to_scheduler-SameAfter none u d = (refl, refl)
push_to_scheduler-SameAfter (some i) u d = queues-SameAfter d (push_at_index i u d.scheduler_queues)

SameAfter-if :
    (b : Bool) (d : DnserTask) (x y : Run DnserTask)
    → SameAfter d x
    → SameAfter d y
    → SameAfter d (if b then x else y)
SameAfter-if true d x y p q = p
SameAfter-if false d x y p q = q

put_url_into_scheduler-SameAfter :
    (stack : Md5Caculator) (u : Url) (d : DnserTask)
    → SameAfter d (put_url_into_scheduler stack u d)
unfolding put_url_into_scheduler
put_url_into_scheduler-SameAfter stack u d =
    let r = get_md5 stack u in
    let o = shuffle r.0.1 d.scheduler_num 0 in
    SameAfter-if (is_ok r.0.0) d (push_to_scheduler o r.1 d) (done d)
      (push_to_scheduler-SameAfter o r.1 d) (refl, refl)

SameTable-SameAfter :
    (d e : DnserTask) (r : Run DnserTask) → SameTable d e → SameAfter e r → SameAfter d r
SameTable-SameAfter d e (done f) p q = (q.0 ∙ p.0, q.1 ∙ p.1)
SameTable-SameAfter d e fault p q = tt
SameTable-SameAfter d e out_of_fuel p q = tt

SameAfter-bind :
    (d : DnserTask) (r : Run DnserTask) (k : DnserTask → Run DnserTask)
    → SameAfter d r
    → ((e : DnserTask) → SameAfter e (k e))
    → SameAfter d (r >>= k)
SameAfter-bind d (done e) k p q = SameTable-SameAfter d e (k e) p (q e)
SameAfter-bind d fault k p q = tt
SameAfter-bind d out_of_fuel k p q = tt

resolve_all-next :
    (stack : Md5Caculator) (ips : List ℕ) (u : Url) (us : List Url) (d : DnserTask)
    → resolve_all stack ips (u ∷ us) d
      ≡ (put_url_into_scheduler stack (set_ip ips u).1 d >>= resolve_all stack ips us)
unfolding resolve_all
resolve_all-next stack ips u us d = refl

resolve_all-SameAfter :
    (stack : Md5Caculator) (ips : List ℕ) (us : List Url) (d : DnserTask)
    → SameAfter d (resolve_all stack ips us d)
resolve_all-SameAfter stack ips [] d = unfold resolve_all in (refl, refl)
resolve_all-SameAfter stack ips (u ∷ us) d =
    subst (SameAfter d) (sym (resolve_all-next stack ips u us d)) (
      SameAfter-bind d (put_url_into_scheduler stack (set_ip ips u).1 d) (resolve_all stack ips us)
        (put_url_into_scheduler-SameAfter stack (set_ip ips u).1 d)
        (λ e. resolve_all-SameAfter stack ips us e))

-- A step that returns leaves the entry as it should be.
abbrev pub StuckAfter : List ℕ → List Url → Run DnserTask → Type 0
StuckAfter site us (done d) = StuckIn site us d
StuckAfter site us fault = Unit {0}
StuckAfter site us out_of_fuel = Unit {0}

-- adns answers for entries that it holds a query for.
abbrev pub AnswersAsked : Option (List ℕ × Answer) → DnserTask → Type 0
AnswersAsked none d = Unit {0}
AnswersAsked (some (context, a)) d = is_asked context d.asked ≡ true

module _ (site : List ℕ) (us : List Url) where
  StuckIn-SameTable : (d d' : DnserTask) → SameTable d d' → StuckIn site us d → StuckIn site us d'
  StuckIn-SameTable d d' same is =
      subst (λ t. IsStuck site us t d'.asked) (sym same.0)
        (subst (λ a. IsStuck site us d.is_dnsing_lutable a) (sym same.1) is)

  -- A step that leaves the table as it is.
  StuckAfter-same :
      (d : DnserTask) (r : Run DnserTask) → SameAfter d r → StuckIn site us d → StuckAfter site us r
  StuckAfter-same d (done e) same is = StuckIn-SameTable d e same is
  StuckAfter-same d fault same is = tt
  StuckAfter-same d out_of_fuel same is = tt

  pub StuckAfter-bind :
      (r : Run DnserTask) (k : DnserTask → Run DnserTask)
      → StuckAfter site us r
      → ((e : DnserTask) → r ≡ done e → StuckIn site us e → StuckAfter site us (k e))
      → StuckAfter site us (r >>= k)
  StuckAfter-bind (done e) k p q = q e refl p
  StuckAfter-bind fault k p q = tt
  StuckAfter-bind out_of_fuel k p q = tt

  StuckAfter-if :
      (b : Bool) (x y : Run DnserTask)
      → StuckAfter site us x
      → StuckAfter site us y
      → StuckAfter site us (if b then x else y)
  StuckAfter-if true x y p q = p
  StuckAfter-if false x y p q = q

  pub submit_once-StuckIn :
      (takes : Bool) (s : List ℕ) (d : DnserTask)
      → bytes_eq s site ≡ false
      → StuckIn site us d
      → StuckIn site us (submit_once takes s d)
  unfolding submit_once
  submit_once-StuckIn true s d ne is = ask-IsStuck site us d.is_dnsing_lutable d.asked is s ne
  submit_once-StuckIn false s d ne is = is

  waiting_at-AllSite : (s : List ℕ) (d : DnserTask) → StuckIn site us d → AllSite s (waiting_at s d)
  waiting_at-AllSite s d is = elim (Option-cases (find_key s d.is_dnsing_lutable)) [
    | inl e ↦ subst (λ o. AllSite s (or_else [] o)) (sym e) tt
    | inr (vs, e) ↦ subst (λ o. AllSite s (or_else [] o)) (sym e) (is.keyed s vs e)
  ]

  pub StuckIn-if :
      (b : Bool) (x y : DnserTask)
      → (b ≡ true → StuckIn site us x)
      → (b ≡ false → StuckIn site us y)
      → StuckIn site us (if b then x else y)
  StuckIn-if true x y p q = p refl
  StuckIn-if false x y p q = q refl

  -- The entry's own site, and any other one.
  await_own :
      (takes : Bool) (s : List ℕ) (u : Url) (d : DnserTask)
      → 0 < length us
      → bytes_eq s site ≡ true
      → url_site u ≡ s
      → StuckIn site us d
      → StuckIn site us (await_site takes s u d)
  unfolding await_site
  await_own takes s u d pos e same is =
      let here : s ≡ site = (bytes_eq_iff s site).0 e in
      let waits : waiting_at s d ≡ us ++ is.more =
        ap (or_else []) (ap (λ k. find_key k d.is_dnsing_lutable) here ∙ is.entry) in
      let size : length (waiting_at s d) ≡ length us + length is.more =
        ap length waits ∙ length-append us is.more in
      StuckIn-if (length (waiting_at s d) == 0) _ _
        (λ zero_. absurd (ground (arith, zero_, size, pos)))
        (λ _.
          subst (λ vs. IsStuck site us (store_key s (vs ++ u ∷ []) d.is_dnsing_lutable) d.asked)
            (sym waits) (append-IsStuck site us d.is_dnsing_lutable d.asked is s u e same))

  await_other :
      (takes : Bool) (s : List ℕ) (u : Url) (d : DnserTask)
      → bytes_eq s site ≡ false
      → url_site u ≡ s
      → StuckIn site us d
      → StuckIn site us (await_site takes s u d)
  unfolding await_site
  await_other takes s u d ne same is =
      StuckIn-if (length (waiting_at s d) == 0) _ _
        (λ _.
          submit_once-StuckIn takes s (with_waiting s (u ∷ []) d) ne
            (store-IsStuck site us d.is_dnsing_lutable d.asked is s (u ∷ []) ne (same, tt)))
        (λ _.
          store-IsStuck site us d.is_dnsing_lutable d.asked is s (waiting_at s d ++ u ∷ []) ne
            (AllSite-append s (waiting_at s d) (u ∷ []) (waiting_at-AllSite s d is) (same, tt)))

  take_url-StuckAfter :
      (calls : Calls) (u : Url) (d : DnserTask)
      → 0 < length us
      → StuckIn site us d
      → StuckAfter site us (take_url calls u d)
  unfolding take_url
  take_url-StuckAfter calls u d pos is =
      let r = find_site (url_site u) [] d.dns_cache in
      let known = put_url_into_scheduler calls.stack (set_ip r.1 u).1 d in
      let asks = await_site calls.takes_query (url_site u) u d in
      StuckAfter-if (is_initialized (get_status u)) (if is_ok r.0 then known else done asks)
        (done d)
        (StuckAfter-if (is_ok r.0) known (done asks)
          (StuckAfter-same d known (put_url_into_scheduler-SameAfter calls.stack (set_ip r.1 u).1 d)
            is)
          (elim (Bool-cases (bytes_eq (url_site u) site)) [
            | inl e ↦ await_own calls.takes_query (url_site u) u d pos e refl is
            | inr e ↦ await_other calls.takes_query (url_site u) u d e refl is
          ]))
        is

  answer_urls-StuckAfter :
      (calls : Calls) (context : List ℕ) (vs : List Url) (a : Answer) (d : DnserTask)
      → bytes_eq context site ≡ false
      → StuckIn site us d
      → StuckAfter site us (answer_urls calls context context vs a d)
  unfolding answer_urls
  answer_urls-StuckAfter calls context vs (found_addresses len ips) d ne is =
      let r = resolve_all calls.stack ips vs d in
      StuckAfter-if (len == 4)
        (r >>= λ d'. done (remember_site context ips (forget_site context d')))
        (done (forget_site context d))
        (StuckAfter-bind r (λ d'. done (remember_site context ips (forget_site context d')))
          (StuckAfter-same d r (resolve_all-SameAfter calls.stack ips vs d) is)
          (λ e _ is'. erase-IsStuck site us e.is_dnsing_lutable e.asked is' context ne))
        (erase-IsStuck site us d.is_dnsing_lutable d.asked is context ne)
  answer_urls-StuckAfter calls context vs (prohibited_cname name) d ne is =
      submit_once-StuckIn calls.takes_alias context (with_waiting context (waiting_at context d) d)
        ne
        (store-IsStuck site us d.is_dnsing_lutable d.asked is context (waiting_at context d) ne
          (waiting_at-AllSite context d is))
  answer_urls-StuckAfter calls context vs other_status d ne is =
      erase-IsStuck site us d.is_dnsing_lutable d.asked is context ne

  answer_entry-StuckAfter :
      (calls : Calls) (context : List ℕ) (a : Answer) (o : Option (List Url)) (d : DnserTask)
      → find_key context d.is_dnsing_lutable ≡ o
      → bytes_eq context site ≡ false
      → StuckIn site us d
      → StuckAfter site us (answer_entry calls context a o d)
  answer_entry-StuckAfter calls context a none d e ne is = tt
  answer_entry-StuckAfter calls context a (some []) d e ne is = tt
  answer_entry-StuckAfter calls context a (some (u ∷ vs)) d e ne is =
      let same : url_site u ≡ context = (is.keyed context (u ∷ vs) e).0 in
      subst (λ s. StuckAfter site us (answer_urls calls context s (u ∷ vs) a d)) (sym same)
        (answer_urls-StuckAfter calls context (u ∷ vs) a d ne is)

  pub check_answer-StuckAfter :
      (calls : Calls) (o : Option (List ℕ × Answer)) (d : DnserTask)
      → AnswersAsked o d
      → StuckIn site us d
      → StuckAfter site us (check_answer calls o d)
  check_answer-StuckAfter calls none d ok is = is
  check_answer-StuckAfter calls (some (context, a)) d ok is =
      answer_entry-StuckAfter calls context a (find_key context d.is_dnsing_lutable)
        (record d { asked = remove_first context d.asked }) refl
        (asked-apart site context d.asked is.unasked ok)
        (record {
          more = is.more;
          entry = is.entry;
          unasked = is_asked-remove_first site context d.asked is.unasked;
          keyed = is.keyed;
        })

  pub take_popped-StuckAfter :
      (calls : Calls) (o : Option (Option Url)) (d : DnserTask)
      → 0 < length us
      → StuckIn site us d
      → StuckAfter site us (take_popped calls o d)
  take_popped-StuckAfter calls none d pos is = is
  take_popped-StuckAfter calls (some none) d pos is = is
  take_popped-StuckAfter calls (some (some u)) d pos is = take_url-StuckAfter calls u d pos is
