-- ===== src/Hash/Laws.antt =====
-- src/hash.h: what a sequence of insertions leaves in the table.
use myjfm_spider.Prelude.{
  ℕ, zero, suc, ◌≤◌, ◌<◌, ◌≡◌, inl, inr, true, List, [], ◌∷◌, arith, Bool-cases, length, get_or,
  set, length-set, get_or-replicate, length-replicate, ◌∙◌,
}
use myjfm_spider.ResCode.{s_exist, s_already_exist}
use myjfm_spider.Hash.{
  is_exist, HashKey, Hash, prime_list, pick_prime, new, get_key, bucket, chain_has, link, insert,
}

-- `operator==` is an equality and the functor respects it.
pub record IsLawful {ℓ} {A : Type ℓ} (key : HashKey A) : Type ℓ where
  pub equals_refl : (a : A) → key.equals a a ≡ true
  pub equals_symm : (a b : A) → key.equals a b ≡ key.equals b a
  pub equals_trans : (a b c : A) → key.equals a b ≡ true → key.equals a c ≡ key.equals b c
  pub hasher-equals : (a b : A) → key.equals a b ≡ true → key.hasher a ≡ key.hasher b

-- Buckets hold one node at most, and the vector has the size that the modulus says.
pub record IsFlat {ℓ} {A : Type ℓ} (h : Hash A) : Type ℓ where
  pub sized : length h.buckets ≡ h.buckets_size
  pub pos : 0 < h.buckets_size
  pub flat : (i : ℕ) → length (get_or h.buckets i []) ≤ 1

abbrev get_last_or : ℕ → List ℕ → ℕ
get_last_or d [] = d
get_last_or d (x ∷ xs) = get_last_or x xs

abbrev AllGe : ℕ → List ℕ → Type 0
AllGe m [] = Unit {0}
AllGe m (x ∷ xs) = (m ≤ x) × AllGe m xs

pick_prime-ge :
    (m last : ℕ) (ps : List ℕ) (n : ℕ) → m ≤ last → AllGe m ps → m ≤ pick_prime last ps n
unfolding pick_prime
pick_prime-ge m last [] n h a = h
pick_prime-ge m last (p ∷ ps) n h a = ground (arith, pick_prime-ge m p ps n)

lt-pick_prime :
    (last : ℕ) (ps : List ℕ) (n : ℕ) → n < get_last_or last ps → n < pick_prime last ps n
unfolding pick_prime
lt-pick_prime last [] n h = h
lt-pick_prime last (p ∷ ps) n h = ground (arith, lt-pick_prime p ps n)

pub record IsFresh {ℓ} {A : Type ℓ} (n : ℕ) (h : Hash A) : Type ℓ where
  pub flat : IsFlat h
  pub roomy : 53 ≤ h.buckets_size
  pub above : n < 4294967291 → n < h.buckets_size
  pub empty : (i : ℕ) → get_or h.buckets i [] ≡ []

-- A new table has at least 53 buckets, more than `n` of them as long as `n` is below the largest
-- listed prime, and every bucket is empty.
pub new-IsFresh {ℓ} : {A : Type ℓ} (n : ℕ) → IsFresh n (new {A = A} n)
unfolding new
new-IsFresh n =
    let ge = pick_prime-ge 53 53 prime_list n (omega arith) (omega arith) in
    record {
      flat = record {
        sized = length-replicate _ [];
        pos = omega arith;
        flat = λ i. rw get_or-replicate (omega arith);
      };
      roomy = ge;
      above = λ lt. lt-pick_prime 53 prime_list n lt;
      empty = λ i. get_or-replicate _ i [];
    }

module _ {ℓ} {A : Type ℓ} ⦃key : HashKey A⦄ where
  length-link : (v : A) (b : List A) → length b ≤ 1 → length (link v b) ≤ 1
  unfolding link
  length-link v [] le = omega arith
  length-link v (x ∷ xs) le = omega arith

  get_or-set-le :
      (bs : List (List A)) (i j : ℕ) (b : List A)
      → length b ≤ 1
      → length (get_or bs j []) ≤ 1
      → length (get_or (set bs i b) j []) ≤ 1
  get_or-set-le [] i j b lb le = le
  get_or-set-le (x ∷ bs) zero zero b lb le = lb
  get_or-set-le (x ∷ bs) zero (suc j) b lb le = le
  get_or-set-le (x ∷ bs) (suc i) zero b lb le = le
  get_or-set-le (x ∷ bs) (suc i) (suc j) b lb le = get_or-set-le bs i j b lb le

  -- An insertion never makes a bucket longer than one node.
  pub insert-IsFlat : (v : A) (h : Hash A) → IsFlat h → IsFlat (insert v h).1
  unfolding insert
  insert-IsFlat v h f = elim (Bool-cases (chain_has v (bucket h (get_key h v)))) [
    | inl e ↦ rw e f
    | inr e ↦ rw e (record {
      sized = length-set h.buckets _ _ ∙ f.sized;
      pos = f.pos;
      flat = λ i. get_or-set-le h.buckets _ i _ (length-link v _ (f.flat (get_key h v))) (f.flat i);
    })
  ]

  pub insert_all : List A → Hash A → Hash A
  insert_all [] h = h
  insert_all (v ∷ vs) h = insert_all vs (insert v h).1

  insert_all-IsFlat : (vs : List A) (h : Hash A) → IsFlat h → IsFlat (insert_all vs h)
  unfolding insert_all
  insert_all-IsFlat [] h f = f
  insert_all-IsFlat (v ∷ vs) h f = insert_all-IsFlat vs _ (insert-IsFlat v h f)

  -- After any insertions into a new table of any requested size, no bucket holds two nodes.
  insert_all-new-IsFlat : (n : ℕ) (vs : List A) → IsFlat (insert_all vs (new n))
  insert_all-new-IsFlat n vs = insert_all-IsFlat vs (new n) (new-IsFresh n).flat

  -- Inserting a value that the table holds returns S_ALREADY_EXIST and changes nothing.
  insert_present : (h : Hash A) (v : A) → is_exist v h ≡ s_exist → insert v h ≡ (s_already_exist, h)
  unfolding is_exist insert
  insert_present h v found = ground arith
