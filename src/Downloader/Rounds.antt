-- ===== src/Downloader/Rounds.antt =====
-- src/downloader_task.cc: how many rounds of `main_loop` the urls of a queue take.
use myjfm_spider.Prelude.{
  ℕ, suc, ◌+◌, ◌-◌, ◌%◌, ◌^◌, ◌≤◌, ◌<◌, ◌≡◌, ◌⊎◌, inl, inr, refl, sym, ap, ◌∙◌, subst, Bool, true,
  false, Option, none, some, List, [], ◌∷◌, ◌++◌, arith, leb, if◌then◌else◌, Run, done, fault,
  out_of_fuel, ◌>>=◌, length,
}
use myjfm_spider.SiteMap.{find_key}
use myjfm_spider.Url.{Url, get_status, is_dnsed, get_retries, inc_retries}
use myjfm_spider.Squeue.{SQueue, pop, test_and_take}
use myjfm_spider.Global.{Global}
use myjfm_spider.Downloader.Round.{
  connect_and_fetch, give_up, max_num_of_retries, serve_url, serve, round_of,
}
use myjfm_spider.Downloader.Task.{DownloaderTask, Calls, site_of}
use myjfm_spider.Downloader.Retries.{Leaves, Returned, connect_and_fetch-Returned, give_up-urls}

-- The rounds that a queue can be worth: each url once, and once more for each retry that it has left.
abbrev pub tries_left : List (Option Url) → ℕ
tries_left [] = 0
tries_left (none ∷ q) = suc (tries_left q)
tries_left (some u ∷ q) = suc (max_num_of_retries - u.retries + tries_left q)

tries_left-append :
    (q : List (Option Url)) (u : Url)
    → tries_left (q ++ some u ∷ []) ≡ tries_left q + suc (max_num_of_retries - u.retries)
tries_left-append [] u = omega arith
tries_left-append (none ∷ q) u = omega (arith, tries_left-append q u)
tries_left-append (some v ∷ q) u = omega (arith, tries_left-append q u)

abbrev pub Lowers : ℕ → Run DownloaderTask → Type 0
Lowers n (done t) = tries_left t.url_queue.queue < n
Lowers n fault = Unit {0}
Lowers n out_of_fuel = Unit {0}

Leaves-lower :
    (u : Url) (q : List (Option Url)) (t : DownloaderTask)
    → u.retries < max_num_of_retries
    → Leaves u q t
    → tries_left t.url_queue.queue < tries_left (some u ∷ q)
unfolding inc_retries
Leaves-lower u q t few (inl e) = omega (arith, ap tries_left e)
Leaves-lower u q t few (inr e) =
    let next : (u.retries + 1) % 2 ^ 32 ≡ u.retries + 1 = omega (arith, few) in
    omega (arith, few, next, ap tries_left e, tries_left-append q (inc_retries u))

Returned-Lowers :
    (u : Url) (q : List (Option Url)) (r : Run DownloaderTask)
    → u.retries < max_num_of_retries
    → Returned u q r
    → Lowers (tries_left (some u ∷ q)) r
Returned-Lowers u q (done t) few p = Leaves-lower u q t few p
Returned-Lowers u q fault few p = tt
Returned-Lowers u q out_of_fuel few p = tt

Lowers-if :
    (n : ℕ) (b : Bool) (x y : Run DownloaderTask)
    → (b ≡ true → Lowers n x)
    → (b ≡ false → Lowers n y)
    → Lowers n (if b then x else y)
Lowers-if n true x y p r = p refl
Lowers-if n false x y p r = r refl

serve_url-Lowers :
    (g : Global) (calls : Calls) (u : Url) (q : List (Option Url)) (t : DownloaderTask)
    → t.url_queue.queue ≡ q
    → Lowers (tries_left (some u ∷ q)) (serve_url g calls u t)
unfolding serve_url get_retries
serve_url-Lowers g calls u q t e =
    let n = tries_left (some u ∷ q) in
    let o = find_key (site_of u) t.sock_fd_map in
    let same : tries_left t.url_queue.queue ≡ tries_left q = ap tries_left e in
    let given_up : tries_left (give_up u o t).url_queue.queue ≡ tries_left q =
      ap tries_left (give_up-urls u q o t e) in
    Lowers-if n (is_dnsed (get_status u)) _ (done t)
      (λ _.
        Lowers-if n (leb max_num_of_retries u.retries) (done (give_up u o t))
          (connect_and_fetch g calls u o t) (λ _. omega (arith, given_up))
          (λ few.
            Returned-Lowers u q (connect_and_fetch g calls u o t) (ground (arith, few))
              (connect_and_fetch-Returned u q g calls o t e)))
      (λ _. omega (arith, same))

module _ (g : Global) (calls : Calls) (t : DownloaderTask) where
  taken-Lowers :
      (qs : List (Option Url))
      → t.url_queue.queue ≡ qs
      → 0 < length qs
      → Lowers (tries_left qs) (
          serve g calls
            (test_and_take qs t.url_queue).0
            (record t { url_queue = (test_and_take qs t.url_queue).1 }))
  unfolding test_and_take
  taken-Lowers [] e pos = absurd (omega arith)
  taken-Lowers (none ∷ qs) e pos = omega arith
  taken-Lowers (some u ∷ qs) e pos =
      serve_url-Lowers g calls u qs (record t { url_queue = record (t.url_queue) { queue = qs } })
        refl

  round_of-Lowers :
      0 < length t.url_queue.queue → Lowers (tries_left t.url_queue.queue) (round_of g calls t)
  unfolding round_of pop
  round_of-Lowers pos = taken-Lowers t.url_queue.queue refl pos

-- The rounds of a thread, one after another.
unfoldable pub main_loop : Global → List Calls → DownloaderTask → Run DownloaderTask
main_loop g [] t = done t
main_loop g (calls ∷ rest) t = round_of g calls t >>= λ t'. main_loop g rest t'

abbrev Empties : Run DownloaderTask → Type 0
Empties (done t) = t.url_queue.queue ≡ []
Empties fault = Unit {0}
Empties out_of_fuel = Unit {0}

main_loop-cons :
    (g : Global) (calls : Calls) (rest : List Calls) (t : DownloaderTask)
    → main_loop g (calls ∷ rest) t ≡ (round_of g calls t >>= λ t'. main_loop g rest t')
unfolding main_loop
main_loop-cons g calls rest t = refl

Empties-bind :
    (n : ℕ) (r : Run DownloaderTask) (k : DownloaderTask → Run DownloaderTask)
    → Lowers n r
    → ((t : DownloaderTask) → tries_left t.url_queue.queue < n → Empties (k t))
    → Empties (r >>= k)
Empties-bind n (done t) k low next = next t low
Empties-bind n fault k low next = tt
Empties-bind n out_of_fuel k low next = tt

tries_left-zero : (q : List (Option Url)) → tries_left q ≤ 0 → q ≡ []
tries_left-zero [] h = refl
tries_left-zero (none ∷ q) h = absurd (omega arith)
tries_left-zero (some u ∷ q) h = absurd (omega arith)

-- A round at an empty queue goes to sleep.
round_of-nil :
    (g : Global) (calls : Calls) (t : DownloaderTask)
    → t.url_queue.queue ≡ []
    → round_of g calls t ≡ done (record t { url_queue = (test_and_take [] t.url_queue).1 })
unfolding round_of pop test_and_take
round_of-nil g calls t e =
    ap
      (λ l.
        serve g calls (test_and_take l t.url_queue).0
          (record t { url_queue = (test_and_take l t.url_queue).1 }))
      e

asleep-nil : {T : Type 0} (q : SQueue T) → q.queue ≡ [] → (test_and_take [] q).1.queue ≡ []
unfolding test_and_take
asleep-nil q e = e

length-pos : (q : List (Option Url)) → (q ≡ []) ⊎ (0 < length q)
length-pos [] = inl refl
length-pos (x ∷ q) = inr (omega arith)

-- The queue is empty at the end.
main_loop-Empties :
    (g : Global) (rounds : List Calls) (t : DownloaderTask)
    → tries_left t.url_queue.queue ≤ length rounds
    → Empties (main_loop g rounds t)
main_loop-Empties g [] t few = unfold main_loop in tries_left-zero t.url_queue.queue few
main_loop-Empties g (calls ∷ rest) t few = elim (length-pos t.url_queue.queue) [
  | inl e ↦
      let t' = record t { url_queue = (test_and_take [] t.url_queue).1 } in
      let e' : t'.url_queue.queue ≡ [] = asleep-nil t.url_queue e in
      subst Empties
        (sym (
          main_loop-cons g calls rest t
          ∙ ap (λ r. r >>= λ x. main_loop g rest x) (round_of-nil g calls t e)))
        (main_loop-Empties g rest t'
          (subst (λ l. tries_left l ≤ length rest) (sym e') (omega arith)))
  | inr pos ↦ subst Empties (sym (main_loop-cons g calls rest t)) (
      Empties-bind (tries_left t.url_queue.queue) (round_of g calls t) (λ x. main_loop g rest x)
        (round_of-Lowers g calls t pos)
        (λ x low. main_loop-Empties g rest x (omega (arith, few, low))))
]

-- Whatever the system's calls and the peers answer in each round: as many rounds as there are tries
-- left in the queue (one for each url, and one more for each retry below three that it has left),
-- and more, leave the queue empty, where all of them return and no other thread pushes a url.
pub main_loop-empty :
    (g : Global) (rounds : List Calls) (t t' : DownloaderTask)
    → tries_left t.url_queue.queue ≤ length rounds
    → main_loop g rounds t ≡ done t'
    → t'.url_queue.queue ≡ []
main_loop-empty g rounds t t' few e = subst Empties e (main_loop-Empties g rounds t few)
