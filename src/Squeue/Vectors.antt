-- ===== src/Squeue/Vectors.antt =====
-- Vectors of the queues of src/squeue.h, as the tasks and the global object keep them.
use myjfm_spider.Prelude.{
  ℕ, ◌<◌, ◌≡◌, Run, done, fault, ltb, true, ◌≢◌, sym, ap, ◌∙◌, List, [], ◌∷◌, ◌++◌, append-nil,
  arith, ◌==◌, if◌then◌else◌, length, set, get_or, get_or-set_self, get_or-set_ne, Bool-cases, inl,
  inr,
}
use myjfm_spider.Squeue.{SQueue, squeue_new, push}
use myjfm_spider.Squeue.Fifo.{push-queue}

module _ {T : Type 0} where
  -- The queues after a push to one of them.
  abbrev pub push_into : ℕ → T → List (SQueue T) → List (SQueue T)
  push_into i t qs = set qs i (push t (get_or qs i squeue_new)).1

  -- `queues[index]->push(t)`. An index out of range is undefined behaviour.
  unfoldable pub push_at_index : ℕ → T → List (SQueue T) → Run (List (SQueue T))
  push_at_index i t qs =
      if ltb i (length qs) then done (set qs i (push t (get_or qs i squeue_new)).1) else fault

  pub push_at_index-push_into :
      (i : ℕ) (t : T) (qs : List (SQueue T))
      → i < length qs
      → push_at_index i t qs ≡ done (push_into i t qs)
  unfolding push_at_index
  push_at_index-push_into i t qs h =
      let e : ltb i (length qs) ≡ true = ground (arith, h) in
      ap (λ b. if b then done (push_into i t qs) else fault) e

  -- The elements of one queue.
  abbrev pub queue_in : ℕ → List (SQueue T) → List T
  queue_in i qs = (get_or qs i squeue_new).queue

  queue_in-push_self :
      (i : ℕ) (t : T) (qs : List (SQueue T))
      → i < length qs
      → queue_in i (push_into i t qs) ≡ queue_in i qs ++ t ∷ []
  queue_in-push_self i t qs h =
      let q = get_or qs i squeue_new in
      ap (λ (r : SQueue T). r.queue) (get_or-set_self qs i (push t q).1 squeue_new h)
      ∙ push-queue t q

  pub queue_in-push_into :
      (i j : ℕ) (t : T) (qs : List (SQueue T))
      → (i ≡ j → i < length qs)
      → queue_in j (push_into i t qs) ≡ queue_in j qs ++ (if i == j then t ∷ [] else [])
  queue_in-push_into i j t qs h = elim (Bool-cases (i == j)) [
    | inl e ↦
        let same : i ≡ j = ground (arith, e) in
        ap (λ k. queue_in k (push_into i t qs)) (sym same)
        ∙ queue_in-push_self i t qs (h same)
        ∙ ap (λ k. queue_in k qs ++ t ∷ []) same
        ∙ ap (λ b. queue_in j qs ++ (if b then t ∷ [] else [])) (sym e)
    | inr e ↦
        let ne : i ≢ j = ground (arith, e) in
        ap (λ (r : SQueue T). r.queue)
          (get_or-set_ne qs i j (push t (get_or qs i squeue_new)).1 squeue_new ne)
        ∙ sym (append-nil (queue_in j qs))
        ∙ ap (λ b. queue_in j qs ++ (if b then t ∷ [] else [])) (sym e)
  ]
