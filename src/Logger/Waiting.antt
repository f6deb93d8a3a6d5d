-- ===== src/Logger/Waiting.antt =====
-- src/logger.cc and src/logger_task.cc: the buffers, the writer and its semaphore.
use myjfm_spider.Prelude.{ℕ, ◌-◌, ◌<◌, ◌≡◌, refl, Option, none, some, List, [], ◌∷◌, ◌++◌, arith}
use myjfm_spider.Logger.{Message, System}
use myjfm_spider.Logger.Streams.{is_info, is_error, Keeps}

-- What has been given to the logger and not been written.
abbrev pub unwritten : Option (List Message) → List Message → List Message
unwritten none secondary = secondary
unwritten (some rest) secondary = rest

abbrev pub pending : System → List Message
pending s = unwritten s.rest s.logger.secondary ++ s.logger.primary

-- The second buffer is empty exactly where the writer waits and the semaphore is zero; else it waits
-- at a semaphore of one, or it is at work and the semaphore is zero.
abbrev pub Alert : Option (List Message) → List Message → ℕ → Type 0
Alert none [] posts = posts ≡ 0
Alert none (m ∷ ms) posts = posts ≡ 1
Alert (some rest) [] posts = ⊥
Alert (some rest) (m ∷ ms) posts = posts ≡ 0

pub record IsKept (logged : List Message) (s : System) : Type 0 where
  pub log_kept : Keeps is_info s.logger.log_is_cout s.logger.log_lines logged (pending s)
  pub err_kept : Keeps is_error s.logger.err_is_cerr s.logger.err_lines logged (pending s)
  pub alert : Alert s.rest s.logger.secondary s.logger.posts

pub Alert-empty :
    (rest : Option (List Message)) (secondary : List Message) (posts : ℕ)
    → secondary ≡ []
    → Alert rest secondary posts
    → (rest ≡ none) × (posts ≡ 0)
Alert-empty none [] posts e a = (refl, a)
Alert-empty none (m ∷ ms) posts e a = cc
Alert-empty (some rest) [] posts e a = absurd a
Alert-empty (some rest) (m ∷ ms) posts e a = cc

pub Alert-append :
    (xs : List Message) (m : Message) (posts : ℕ) → posts ≡ 1 → Alert none (xs ++ m ∷ []) posts
Alert-append [] m posts e = e
Alert-append (x ∷ xs) m posts e = e

pub Alert-wake :
    (rest : Option (List Message)) (secondary : List Message) (posts : ℕ)
    → rest ≡ none
    → 0 < posts
    → Alert rest secondary posts
    → Alert (some secondary) secondary (posts - 1)
Alert-wake none [] posts e pos a = absurd (omega (arith, pos, a))
Alert-wake none (m ∷ ms) posts e pos a = omega (arith, a)
Alert-wake (some rest) secondary posts e pos a = cc

pub Alert-next :
    (rest next : List Message) (secondary : List Message) (posts : ℕ)
    → Alert (some rest) secondary posts
    → Alert (some next) secondary posts
Alert-next rest next [] posts a = a
Alert-next rest next (m ∷ ms) posts a = a

pub Alert-clear :
    (rest : List Message) (secondary : List Message) (posts : ℕ)
    → Alert (some rest) secondary posts
    → posts ≡ 0
Alert-clear rest [] posts a = absurd a
Alert-clear rest (m ∷ ms) posts a = a
