-- ===== src/Hash.antt =====
-- src/hash.h: the chained hash set `Hash<T, HashFunc>` and the hash functor of strings.
-- `operator==` of T and the functor `HashFunc` are the interface `HashKey`. A bucket is the list of
-- the values of its nodes, the first node first. The write and read guards of the `_safe` variants
-- make a call atomic, so that these are the plain variants here.
pub mod Laws
pub mod Lookup
use myjfm_spider.Prelude.{
  ℕ, ◌+◌, ◌-◌, ◌*◌, ◌%◌, ◌^◌, Bool, true, false, ◌||◌, List, [], ◌∷◌, ltb, if◌then◌else◌, get_or,
  set, replicate, tail,
}
use myjfm_spider.ResCode.{ResCode, s_ok, s_exist, s_not_exist, s_already_exist}

abbrev pub prime_list : List ℕ
prime_list =
    53 ∷ 97 ∷ 193 ∷ 389 ∷ 769 ∷ 1543 ∷ 3079 ∷ 6151 ∷ 12289 ∷ 24593 ∷ 49157 ∷ 98317 ∷ 196613 ∷ 393241
    ∷ 786433 ∷ 1572869 ∷ 3145739 ∷ 6291469 ∷ 12582917 ∷ 25165843 ∷ 50331653 ∷ 100663319 ∷ 201326611
    ∷ 402653189 ∷ 805306457 ∷ 1610612741 ∷ 3221225473 ∷ 4294967291 ∷ []

-- `h = 5 * h + s[i]` in 64 bits; a `char` above 127 is negative and is sign-extended.
unfoldable pub char_to_size : ℕ → ℕ
char_to_size c = if ltb c 128 then c else c + 2 ^ 64 - 256

string_hash_from : ℕ → List ℕ → ℕ
string_hash_from h [] = h
string_hash_from h (c ∷ s) = string_hash_from ((5 * h + char_to_size c) % 2 ^ 64) s

unfoldable pub string_hash : List ℕ → ℕ
unfolding string_hash_from char_to_size
string_hash s = string_hash_from 0 s

-- What the template asks of T and HashFunc.
pub record HashKey {ℓ} (A : Type ℓ) : Type ℓ where
  pub equals : A → A → Bool
  pub hasher : A → ℕ

pub record Hash {ℓ} (A : Type ℓ) : Type ℓ where
  pub buckets : List (List A)
  pub buckets_size : ℕ

-- The first prime of the list that is above `n`, else the last one.
unfoldable pub pick_prime : ℕ → List ℕ → ℕ → ℕ
pick_prime last [] n = last
pick_prime last (p ∷ ps) n = if ltb n p then p else pick_prime p ps n

unfoldable pub new {ℓ} : {A : Type ℓ} → ℕ → Hash A
unfolding pick_prime
new n = let m = pick_prime 53 prime_list n in record { buckets = replicate m []; buckets_size = m }

unfoldable pub size {ℓ} : {A : Type ℓ} → Hash A → ResCode × ℕ
size h = (s_ok, h.buckets_size)

module _ {ℓ} {A : Type ℓ} ⦃key : HashKey A⦄ where
  unfoldable pub get_key : Hash A → A → ℕ
  get_key h v = key.hasher v % h.buckets_size

  abbrev pub bucket : Hash A → ℕ → List A
  bucket h i = get_or h.buckets i []

  -- The walk along a chain, `*(nodep->_value) == value` at each node.
  unfoldable pub chain_has : A → List A → Bool
  chain_has v [] = false
  chain_has v (x ∷ xs) = key.equals x v || chain_has v xs

  -- A new node in front of an occupied bucket takes over the `_next` of the first node.
  unfoldable pub link : A → List A → List A
  link v [] = v ∷ []
  link v (x ∷ xs) = v ∷ xs

  unfoldable pub insert : A → Hash A → ResCode × Hash A
  unfolding get_key chain_has link
  insert v h =
      let i = get_key h v in
      let b = bucket h i in
      if chain_has v b
      then (s_already_exist, h)
      else (s_ok, record h { buckets = set h.buckets i (link v b) })

  unfoldable pub insert_safe : A → Hash A → ResCode × Hash A
  unfolding insert
  insert_safe v h = insert v h

  unfoldable pub is_exist : A → Hash A → ResCode
  unfolding get_key chain_has
  is_exist v h = if chain_has v (bucket h (get_key h v)) then s_exist else s_not_exist

  unfoldable pub is_exist_safe : A → Hash A → ResCode
  unfolding is_exist
  is_exist_safe v h = is_exist v h
