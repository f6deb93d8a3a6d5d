-- ===== src/Dnser/Resolving.antt =====
-- src/dnser_task.cc: what an answer with addresses does.
use myjfm_spider.Scheduler.Placing.{shuffle-IsIndex}
use myjfm_spider.Prelude.{
  ℕ, ◌<◌, ◌≡◌, refl, sym, ap, subst, ◌∙◌, Bool, false, Option, none, some, List, [], ◌∷◌, ◌++◌,
  append_assoc, append-nil, arith, ◌==◌, if◌then◌else◌, done, length, length-set, bytes_eq,
  Bool-cases, inl, inr, zero, suc, true, ◌>>=◌,
}
use myjfm_spider.ResCode.{s_ok, is_ok, ResCode}
use myjfm_spider.SiteMap.{find_key, erase_key}
use myjfm_spider.SiteMap.Laws.{find_key-erase_key}
use myjfm_spider.Md5.{Md5Caculator, shuffle}
use myjfm_spider.Url.{
  Url, set_ip, get_md5, dnsed, Protocol, pro_dummy, ftp, http, is_uninitialized, md5_by_protocol,
}
use myjfm_spider.Squeue.Vectors.{queue_in, queue_in-push_into, push_into, push_at_index-push_into}
use myjfm_spider.DnsCache.{find_site, insert_site}
use myjfm_spider.DnsCache.Caching.{find_site-insert_site}
use myjfm_spider.Dnser.{
  DnserTask, Calls, found_addresses, push_to_scheduler, put_url_into_scheduler, resolve_all,
  answer_urls, url_site, forget_site, remember_site, remove_first, answer_entry, check_answer,
  check_once,
}

-- A url that gets the addresses, and its MD5 with it.
abbrev pub resolved : Md5Caculator → List ℕ → Url → Url
resolved stack ips u = (get_md5 stack (set_ip ips u).1).1

-- The scheduler that it goes to.
abbrev pub scheduler_of : Md5Caculator → ℕ → List ℕ → Url → Option ℕ
scheduler_of stack n ips u =
    let r = (get_md5 stack (set_ip ips u).1).0 in if is_ok r.0 then shuffle r.1 n 0 else none

abbrev pub is_at : ℕ → Option ℕ → Bool
is_at i none = false
is_at i (some j) = j == i

-- The urls of a list that go to the scheduler `i`, resolved, in their order.
unfoldable pub share : Md5Caculator → ℕ → List ℕ → ℕ → List Url → List Url
share stack n ips i [] = []
share stack n ips i (u ∷ us) =
    let rest = share stack n ips i us in
    if is_at i (scheduler_of stack n ips u) then resolved stack ips u ∷ rest else rest

abbrev pub urls_at : ℕ → DnserTask → List Url
urls_at i d = queue_in i d.scheduler_queues

-- The task with the url pushed to the queue of its scheduler, which there is.
pushed_to : Option ℕ → Url → DnserTask → DnserTask
pushed_to none u d = d
pushed_to (some j) u d = record d { scheduler_queues = push_into j u d.scheduler_queues }

urls_at-pushed_to :
    (i : ℕ) (o : Option ℕ) (u : Url) (d : DnserTask)
    → i < length d.scheduler_queues
    → urls_at i (pushed_to o u d) ≡ urls_at i d ++ (if is_at i o then u ∷ [] else [])
unfolding pushed_to
urls_at-pushed_to i none u d h = sym (append-nil (urls_at i d))
urls_at-pushed_to i (some j) u d h =
    queue_in-push_into j i u d.scheduler_queues (λ e. omega (arith, e, h))

-- An index that is none or has a queue.
InRange : Option ℕ → DnserTask → Type 0
InRange none d = Unit {0}
InRange (some j) d = j < length d.scheduler_queues

push_to_scheduler-pushed_to :
    (o : Option ℕ) (u : Url) (d : DnserTask)
    → InRange o d
    → push_to_scheduler o u d ≡ done (pushed_to o u d)
unfolding pushed_to InRange
push_to_scheduler-pushed_to none u d h = refl
push_to_scheduler-pushed_to (some j) u d h =
    ap (λ r. r >>= λ queues. done (record d { scheduler_queues = queues }))
      (push_at_index-push_into j u d.scheduler_queues h)

-- The rest of the task, and the number of queues.
abbrev Rest : DnserTask → DnserTask → Type 0
Rest d d' =
    (d'.scheduler_num ≡ d.scheduler_num)
    × (length d'.scheduler_queues ≡ length d.scheduler_queues)
    × (d'.is_dnsing_lutable ≡ d.is_dnsing_lutable)
    × (d'.dns_cache ≡ d.dns_cache)
    × (d'.asked ≡ d.asked)
    × (d'.url_queue ≡ d.url_queue)

pushed_to-Rest : (o : Option ℕ) (u : Url) (d : DnserTask) → Rest d (pushed_to o u d)
unfolding pushed_to
pushed_to-Rest none u d = (refl, refl, refl, refl, refl, refl)
pushed_to-Rest (some i) u d = (refl, length-set d.scheduler_queues i _, refl, refl, refl, refl)

-- `shuffle` gives no index where there is no scheduler, and one in range where there are some.
shuffle-InRange :
    (value : List ℕ) (n : ℕ) (d : DnserTask)
    → n ≡ length d.scheduler_queues
    → InRange (shuffle value n 0) d
unfolding InRange
shuffle-InRange value zero d counted = unfold shuffle in tt
shuffle-InRange value (suc n) d counted =
    let (i, e, small) = shuffle-IsIndex value (suc n) 0 (omega arith) in
    subst (λ o. InRange o d) (sym e) (omega (arith, small, counted))

scheduler_of-InRange :
    (stack : Md5Caculator) (ips : List ℕ) (u : Url) (d : DnserTask)
    → d.scheduler_num ≡ length d.scheduler_queues
    → InRange (scheduler_of stack d.scheduler_num ips u) d
scheduler_of-InRange stack ips u d counted =
    let r = (get_md5 stack (set_ip ips u).1).0 in
    elim (Bool-cases (is_ok r.0)) [
      | inl e ↦
          subst (λ b. InRange (if b then shuffle r.1 d.scheduler_num 0 else none) d) (sym e)
            (shuffle-InRange r.1 d.scheduler_num d counted)
      | inr e ↦
          subst (λ b. InRange (if b then shuffle r.1 d.scheduler_num 0 else none) d) (sym e)
            (unfold InRange in tt)
    ]

put_url_into_scheduler-push_to_scheduler :
    (stack : Md5Caculator) (ips : List ℕ) (u : Url) (d : DnserTask)
    → put_url_into_scheduler stack (set_ip ips u).1 d
      ≡ push_to_scheduler (scheduler_of stack d.scheduler_num ips u) (resolved stack ips u) d
unfolding put_url_into_scheduler
put_url_into_scheduler-push_to_scheduler stack ips u d =
    elim (Bool-cases (is_ok (get_md5 stack (set_ip ips u).1).0.0)) [
      | inl e ↦ rw e refl
      | inr e ↦ rw e refl
    ]

put_url_into_scheduler-pushed_to :
    (stack : Md5Caculator) (ips : List ℕ) (u : Url) (d : DnserTask)
    → d.scheduler_num ≡ length d.scheduler_queues
    → put_url_into_scheduler stack (set_ip ips u).1 d
      ≡ done (pushed_to (scheduler_of stack d.scheduler_num ips u) (resolved stack ips u) d)
put_url_into_scheduler-pushed_to stack ips u d counted =
    let o = scheduler_of stack d.scheduler_num ips u in
    put_url_into_scheduler-push_to_scheduler stack ips u d
    ∙ push_to_scheduler-pushed_to o (resolved stack ips u) d
        (scheduler_of-InRange stack ips u d counted)

Rest-trans : (d e f : DnserTask) → Rest d e → Rest e f → Rest d f
Rest-trans d e f p q = (q.0 ∙ p.0, q.1 ∙ p.1, q.2 ∙ p.2, q.3 ∙ p.3, q.4 ∙ p.4, q.5 ∙ p.5)

module _ (stack : Md5Caculator) (ips : List ℕ) where
  -- The task behind the first url, and behind all of them.
  abbrev put_first : Url → DnserTask → DnserTask
  put_first u d = pushed_to (scheduler_of stack d.scheduler_num ips u) (resolved stack ips u) d

  put_all : List Url → DnserTask → DnserTask
  put_all [] d = d
  put_all (u ∷ us) d = put_all us (put_first u d)

  resolve_all-first :
      (u : Url) (us : List Url) (d : DnserTask)
      → d.scheduler_num ≡ length d.scheduler_queues
      → resolve_all stack ips (u ∷ us) d ≡ resolve_all stack ips us (put_first u d)
  unfolding resolve_all
  resolve_all-first u us d counted =
      ap (λ r. r >>= resolve_all stack ips us)
        (put_url_into_scheduler-pushed_to stack ips u d counted)

  resolve_all-put_all :
      (us : List Url) (d : DnserTask)
      → d.scheduler_num ≡ length d.scheduler_queues
      → resolve_all stack ips us d ≡ done (put_all us d)
  resolve_all-put_all [] d counted = unfold resolve_all put_all in refl
  resolve_all-put_all (u ∷ us) d counted =
      let kept =
        pushed_to-Rest (scheduler_of stack d.scheduler_num ips u) (resolved stack ips u) d in
      resolve_all-first u us d counted
      ∙ resolve_all-put_all us (put_first u d) (kept.0 ∙ counted ∙ sym kept.1)
      ∙ unfold put_all in refl

  put_all-Rest : (us : List Url) (d : DnserTask) → Rest d (put_all us d)
  unfolding put_all
  put_all-Rest [] d = (refl, refl, refl, refl, refl, refl)
  put_all-Rest (u ∷ us) d =
      Rest-trans d (put_first u d) (put_all us (put_first u d))
        (pushed_to-Rest (scheduler_of stack d.scheduler_num ips u) (resolved stack ips u) d)
        (put_all-Rest us (put_first u d))

  share-cons :
      (n i : ℕ) (u : Url) (us : List Url)
      → share stack n ips i (u ∷ us)
        ≡ (if is_at i (scheduler_of stack n ips u) then resolved stack ips u ∷ [] else [])
          ++ share stack n ips i us
  unfolding share
  share-cons n i u us = elim (Bool-cases (is_at i (scheduler_of stack n ips u))) [
    | inl e ↦ rw e refl
    | inr e ↦ rw e refl
  ]

  put_all-next :
      (u : Url) (us : List Url) (d : DnserTask) (i : ℕ)
      → urls_at i (put_all (u ∷ us) d) ≡ urls_at i (put_all us (put_first u d))
  unfolding put_all
  put_all-next u us d i = refl

  put_all-urls_at :
      (us : List Url) (d : DnserTask) (i : ℕ)
      → i < length d.scheduler_queues
      → urls_at i (put_all us d) ≡ urls_at i d ++ share stack d.scheduler_num ips i us
  put_all-urls_at [] d i h = unfold put_all share in sym (append-nil (urls_at i d))
  put_all-urls_at (u ∷ us) d i h =
      let o = scheduler_of stack d.scheduler_num ips u in
      let r = resolved stack ips u in
      let kept = pushed_to-Rest o r d in
      let h' : i < length (put_first u d).scheduler_queues = omega (arith, h, kept.1) in
      let mine = if is_at i o then r ∷ [] else [] in
      put_all-next u us d i
      ∙ put_all-urls_at us (put_first u d) i h'
      ∙ ap (λ n. urls_at i (put_first u d) ++ share stack n ips i us) kept.0
      ∙ ap (λ z. z ++ share stack d.scheduler_num ips i us) (urls_at-pushed_to i o r d h)
      ∙ append_assoc (urls_at i d) mine (share stack d.scheduler_num ips i us)
      ∙ ap (λ z. urls_at i d ++ z) (sym (share-cons d.scheduler_num i u us))

-- The addresses are set.
abbrev pub AllAddressed : List ℕ → List Url → Type 0
AllAddressed ips [] = Unit {0}
AllAddressed ips (u ∷ us) = (u.ips ≡ ips) × (u.status ≡ dnsed) × AllAddressed ips us

-- What an answer for the entry `context` with the urls `us` leaves.
pub record IsResolved (stack : Md5Caculator) (context ips : List ℕ) (us : List Url)
    (d d' : DnserTask) : Type 0 where
  pub queues :
      (i : ℕ)
      → i < length d.scheduler_queues
      → urls_at i d' ≡ urls_at i d ++ share stack d.scheduler_num ips i us
  pub addressed : (i : ℕ) → AllAddressed ips (share stack d.scheduler_num ips i us)
  pub entries :
      (site : List ℕ)
      → find_key site d'.is_dnsing_lutable
        ≡ (if bytes_eq context site then none else find_key site d.is_dnsing_lutable)
  pub cached :
      (site : List ℕ)
      → 0 < length site
      → find_site site [] d'.dns_cache
        ≡ (if bytes_eq context site then (s_ok, ips) else find_site site [] d.dns_cache)
  pub others : (d'.asked ≡ remove_first context d.asked) × (d'.url_queue ≡ d.url_queue)

-- get_md5 leaves the addresses and the status.
abbrev SameAddress : Url → (ResCode × List ℕ) × Url → Type 0
SameAddress u r = (r.1.ips ≡ u.ips) × (r.1.status ≡ u.status)

if-SameAddress :
    (u : Url) (b : Bool) (x y : (ResCode × List ℕ) × Url)
    → SameAddress u x
    → SameAddress u y
    → SameAddress u (if b then x else y)
if-SameAddress u true x y p q = p
if-SameAddress u false x y p q = q

md5_by_protocol-SameAddress :
    (stack : Md5Caculator) (p : Protocol) (u : Url) → SameAddress u (md5_by_protocol stack p u)
md5_by_protocol-SameAddress stack pro_dummy u = (refl, refl)
md5_by_protocol-SameAddress stack ftp u = (refl, refl)
md5_by_protocol-SameAddress stack http u = (refl, refl)

get_md5-SameAddress : (stack : Md5Caculator) (u : Url) → SameAddress u (get_md5 stack u)
unfolding get_md5
get_md5-SameAddress stack u =
    if-SameAddress u (is_uninitialized u.status) _ _ (refl, refl)
      (if-SameAddress u u.has_get_md5 _ _ (refl, refl)
        (md5_by_protocol-SameAddress stack u.protocol u))

abbrev HasAddress : List ℕ → Url → Type 0
HasAddress ips u = (u.ips ≡ ips) × (u.status ≡ dnsed)

get_md5-fails :
    (stack : Md5Caculator) (u : Url)
    → is_uninitialized u.status ≡ true
    → is_ok (get_md5 stack u).0.0 ≡ false
unfolding get_md5
get_md5-fails stack u e = rw e refl

set_ip-HasAddress :
    (ips : List ℕ) (u : Url) → is_uninitialized u.status ≡ false → HasAddress ips (set_ip ips u).1
unfolding set_ip
set_ip-HasAddress ips u e = rw e (refl, refl)

set_ip-fails : (ips : List ℕ) (u : Url) → is_uninitialized u.status ≡ true → (set_ip ips u).1 ≡ u
unfolding set_ip
set_ip-fails ips u e = rw e refl

-- A url that has an MD5 behind set_ip has the addresses.
resolved-HasAddress :
    (stack : Md5Caculator) (ips : List ℕ) (u : Url)
    → is_ok (get_md5 stack (set_ip ips u).1).0.0 ≡ true
    → HasAddress ips (resolved stack ips u)
resolved-HasAddress stack ips u ok =
    let same = get_md5-SameAddress stack (set_ip ips u).1 in
    elim (Bool-cases (is_uninitialized u.status)) [
      | inl e ↦
          let bad =
            ap (λ v. is_ok (get_md5 stack v).0.0) (set_ip-fails ips u e)
            ∙ get_md5-fails stack u e in
          absurd (ground (arith, ok, bad))
      | inr e ↦ let has = set_ip-HasAddress ips u e in (same.0 ∙ has.0, same.1 ∙ has.1)
    ]

if-AllAddressed :
    (ips : List ℕ) (b : Bool) (u : Url) (us : List Url)
    → HasAddress ips u
    → AllAddressed ips us
    → AllAddressed ips ((if b then u ∷ [] else []) ++ us)
if-AllAddressed ips true u us h rest = (h.0, h.1, rest)
if-AllAddressed ips false u us h rest = rest

share-AllAddressed :
    (stack : Md5Caculator) (n : ℕ) (ips : List ℕ) (i : ℕ) (us : List Url)
    → AllAddressed ips (share stack n ips i us)
share-AllAddressed stack n ips i [] = unfold share in tt
share-AllAddressed stack n ips i (u ∷ us) =
    let rest = share-AllAddressed stack n ips i us in
    let r = (get_md5 stack (set_ip ips u).1).0 in
    subst (AllAddressed ips) (sym (share-cons stack ips n i u us)) (elim (Bool-cases (is_ok r.0)) [
      | inl ok ↦
          let has = resolved-HasAddress stack ips u ok in
          if-AllAddressed ips (is_at i (scheduler_of stack n ips u)) (resolved stack ips u)
            (share stack n ips i us) has rest
      | inr bad ↦
          subst
            (λ b. AllAddressed ips (
              (if is_at i (if b then shuffle r.1 n 0 else none)
                then resolved stack ips u ∷ []
                else [])
              ++ share stack n ips i us))
            (sym bad) rest
    ])

abbrev answered : Md5Caculator → List ℕ → List ℕ → List Url → DnserTask → DnserTask
answered stack context ips us d =
    remember_site context ips (
      forget_site context
        (put_all stack ips us (record d { asked = remove_first context d.asked })))

answered-IsResolved :
    (stack : Md5Caculator) (context ips : List ℕ) (us : List Url) (d : DnserTask)
    → 0 < length context
    → 0 < length ips
    → IsResolved stack context ips us d (answered stack context ips us d)
answered-IsResolved stack context ips us d a b =
    let d' = record d { asked = remove_first context d.asked } in
    let kept = put_all-Rest stack ips us d' in
    record {
      queues = λ i h. put_all-urls_at stack ips us d' i h;
      addressed = λ i. share-AllAddressed stack d.scheduler_num ips i us;
      entries = λ site.
          ap (λ t. find_key site (erase_key context t)) kept.2
          ∙ find_key-erase_key d.is_dnsing_lutable context site;
      cached = λ site c.
          ap (λ t. find_site site [] (insert_site context ips t).1) kept.3
          ∙ (find_site-insert_site d.dns_cache context ips site a b c).1;
      others = (kept.4, kept.5);
    }

-- An answer of IPv4 addresses, at least one, for an entry of the table with urls of its site, which is
-- not empty, with as many queues as schedulers: check_once returns; every scheduler's queue has got, in
-- their order and behind what it had, those of the urls whose MD5 sends them there, each with exactly
-- these addresses and the status DNSED; the entry is gone from the table and no other one is; the cache
-- finds the addresses for the site, and for other sites what it found before; and the queue of urls is
-- as it was.
pub check_once-resolves :
    (calls : Calls) (d : DnserTask) (context ips : List ℕ) (u : Url) (us : List Url)
    → calls.answer ≡ some (context, found_addresses 4 ips)
    → find_key context d.is_dnsing_lutable ≡ some (u ∷ us)
    → url_site u ≡ context
    → 0 < length context
    → 0 < length ips
    → d.scheduler_num ≡ length d.scheduler_queues
    → (d' : DnserTask) × (check_once calls d ≡ done d')
      × IsResolved calls.stack context ips (u ∷ us) d d'
unfolding check_once answer_urls
check_once-resolves calls d context ips u us e f same a b counted =
    let answer = found_addresses 4 ips in
    let d' = record d { asked = remove_first context d.asked } in
    (
      answered calls.stack context ips (u ∷ us) d,
      ap (λ o. check_answer calls o d) e
          ∙ ap (λ o. answer_entry calls context answer o d') f
          ∙ ap (λ s. answer_urls calls context s (u ∷ us) answer d') same
          ∙ ap (λ r. r >>= λ x. done (remember_site context ips (forget_site context x)))
              (resolve_all-put_all calls.stack ips (u ∷ us) d' counted),
      answered-IsResolved calls.stack context ips (u ∷ us) d a b,
    )
