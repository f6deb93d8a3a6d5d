-- ===== src/Global/Seeds.antt =====
-- src/global.cc: `init` of a new object, its queues and the seed urls in them.
use myjfm_spider.Prelude.{
  ℕ, zero, suc, ◌<◌, ◌≡◌, refl, sym, ap, ◌∙◌, subst, Bool, false, List, [], ◌∷◌, ◌++◌, append_assoc,
  append-nil, arith, ◌==◌, if◌then◌else◌, Run, done, ◌>>=◌, length, get_or, length-set, Bool-cases,
  inl, inr,
}
use myjfm_spider.ResCode.{is_ok}
use myjfm_spider.Md5.{Md5Caculator, shuffle}
use myjfm_spider.Url.{Url, url_new, get_md5}
use myjfm_spider.Squeue.{SQueue, squeue_new, push}
use myjfm_spider.Squeue.Vectors.{push_into, queue_in, queue_in-push_into}
use myjfm_spider.Scheduler.Placing.{shuffle-IsIndex}
use myjfm_spider.Global.Starting.{push_seed, index_or_zero, place_seed, place_seeds}

-- The seed as it is pushed, and whether it goes to the queue `i` of `n`: it needs an MD5.
abbrev pub seed : Md5Caculator → List ℕ → Url
seed stack url = (get_md5 stack (url_new url)).1

abbrev pub goes_to : Md5Caculator → ℕ → ℕ → List ℕ → Bool
goes_to stack n i url =
    let r = (get_md5 stack (url_new url)).0 in
    if is_ok r.0 then index_or_zero (shuffle r.1 n 0) == i else false

-- The seeds that go to the queue `i`, in their order.
unfoldable pub seeds_at : Md5Caculator → ℕ → ℕ → List (List ℕ) → List Url
seeds_at stack n i [] = []
seeds_at stack n i (url ∷ urls) =
    let rest = seeds_at stack n i urls in
    if goes_to stack n i url then seed stack url ∷ rest else rest

push_seed-cons :
    (i : ℕ) (u : Url) (q : SQueue Url) (qs : List (SQueue Url))
    → push_seed (suc i) u (q ∷ qs) ≡ (push_seed i u qs >>= λ rest. done (q ∷ rest))
unfolding push_seed
push_seed-cons i u q qs = refl

push_seed-push_into :
    (i : ℕ) (u : Url) (qs : List (SQueue Url))
    → i < length qs
    → push_seed i u qs ≡ done (push_into i u qs)
push_seed-push_into i u [] h = absurd (omega arith)
push_seed-push_into zero u (q ∷ qs) h = unfold push_seed in refl
push_seed-push_into (suc i) u (q ∷ qs) h =
    push_seed-cons i u q qs
    ∙ ap (λ r. r >>= λ rest. done (q ∷ rest)) (push_seed-push_into i u qs (omega (arith, h)))

index_lt : (value : List ℕ) (n : ℕ) → 0 < n → index_or_zero (shuffle value n 0) < n
index_lt value n pos =
    let (i, e, small) = shuffle-IsIndex value n 0 pos in
    subst (λ o. index_or_zero o < n) (sym e) small

-- What `qs` becomes, with `more` at each queue.
pub record Places (r : Run (List (SQueue Url))) (qs : List (SQueue Url)) (more : ℕ → List Url)
    : Type 0 where
  pub after : List (SQueue Url)
  pub ran : r ≡ done after
  pub size : length after ≡ length qs
  pub gets : (j : ℕ) → queue_in j after ≡ queue_in j qs ++ more j

module _ (stack : Md5Caculator) (n : ℕ) (some_ : 0 < n) where
  place_seed-Places :
      (url : List ℕ) (qs : List (SQueue Url))
      → length qs ≡ n
      → Places
          (place_seed stack n url qs)
          qs
          (λ j. if goes_to stack n j url then seed stack url ∷ [] else [])
  unfolding place_seed
  place_seed-Places url qs len =
      let r = get_md5 stack (url_new url) in
      let i = index_or_zero (shuffle r.0.1 n 0) in
      let h : i < length qs = omega (arith, index_lt r.0.1 n some_, len) in
      elim (Bool-cases (is_ok r.0.0)) [
        | inl e ↦ record {
          after = push_into i r.1 qs;
          ran = rw e (push_seed-push_into i r.1 qs h);
          size = length-set qs i (push r.1 (get_or qs i squeue_new)).1;
          gets = λ j. rw e (queue_in-push_into i j r.1 qs (λ _. h));
        }
        | inr e ↦ record {
          after = qs;
          ran = rw e refl;
          size = refl;
          gets = λ j. rw e (sym (append-nil (queue_in j qs)));
        }
      ]

  place_seeds-cons :
      (url : List ℕ) (urls : List (List ℕ)) (qs : List (SQueue Url))
      → place_seeds stack n (url ∷ urls) qs
        ≡ (place_seed stack n url qs >>= λ qs'. place_seeds stack n urls qs')
  unfolding place_seeds
  place_seeds-cons url urls qs = refl

  seeds_at-cons :
      (i : ℕ) (url : List ℕ) (urls : List (List ℕ))
      → seeds_at stack n i (url ∷ urls)
        ≡ (if goes_to stack n i url then seed stack url ∷ [] else []) ++ seeds_at stack n i urls
  unfolding seeds_at
  seeds_at-cons i url urls = elim (Bool-cases (goes_to stack n i url)) [
    | inl e ↦ rw e refl
    | inr e ↦ rw e refl
  ]

  pub place_seeds-Places :
      (urls : List (List ℕ)) (qs : List (SQueue Url))
      → length qs ≡ n
      → Places (place_seeds stack n urls qs) qs (λ j. seeds_at stack n j urls)
  place_seeds-Places [] qs len = record {
    after = qs;
    ran = unfold place_seeds in refl;
    size = refl;
    gets = λ j. unfold seeds_at in sym (append-nil (queue_in j qs));
  }
  place_seeds-Places (url ∷ urls) qs len =
      let p = place_seed-Places url qs len in
      let q = place_seeds-Places urls p.after (p.size ∙ len) in
      record {
        after = q.after;
        ran =
            place_seeds-cons url urls qs
            ∙ ap (λ r. r >>= λ qs'. place_seeds stack n urls qs') p.ran
            ∙ q.ran;
        size = q.size ∙ p.size;
        gets = λ j.
            let mine = if goes_to stack n j url then seed stack url ∷ [] else [] in
            q.gets j
            ∙ ap (λ z. z ++ seeds_at stack n j urls) (p.gets j)
            ∙ append_assoc (queue_in j qs) mine (seeds_at stack n j urls)
            ∙ ap (λ z. queue_in j qs ++ z) (sym (seeds_at-cons j url urls));
      }
