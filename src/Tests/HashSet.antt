-- ===== src/Tests/HashSet.antt =====
-- src/hash.h at byte strings: "a" and "," fall into one of the 53 buckets of a small table.
use myjfm_spider.Prelude.{
  ℕ, ◌≡◌, refl, true, List, [], ◌∷◌, arith, codes, bytes_eq, bytes_eq_iff, bytes_eq_refl,
}
use myjfm_spider.ResCode.{s_ok, s_not_exist}
use myjfm_spider.Hash.{HashKey, Hash, new, insert, is_exist, string_hash}
use myjfm_spider.Hash.Laws.{IsLawful, IsFlat, IsFresh, new-IsFresh, insert-IsFlat}
use myjfm_spider.Hash.Lookup.{is_exist-insert}

instance abbrev string_key : HashKey (List ℕ)
string_key = record { equals = bytes_eq; hasher = string_hash }

bytes_eq_congr : (a b c : List ℕ) → bytes_eq a b ≡ true → bytes_eq a c ≡ bytes_eq b c
bytes_eq_congr a b c e = let same : a ≡ b = (bytes_eq_iff a b).0 e in rw same

bytes_eq_symm : (a b : List ℕ) → bytes_eq a b ≡ bytes_eq b a
unfolding bytes_eq
bytes_eq_symm [] [] = refl
bytes_eq_symm [] (y ∷ ys) = refl
bytes_eq_symm (x ∷ xs) [] = refl
bytes_eq_symm (x ∷ xs) (y ∷ ys) = ground (arith, bytes_eq_symm xs ys)

string_key-IsLawful : IsLawful string_key
string_key-IsLawful = record {
  equals_refl = bytes_eq_refl;
  equals_symm = bytes_eq_symm;
  equals_trans = bytes_eq_congr;
  hasher-equals = λ a b e. let same : a ≡ b = (bytes_eq_iff a b).0 e in rw same;
}

abbrev first : List ℕ
first = codes "a"

abbrev second : List ℕ
second = codes ","

abbrev small : Hash (List ℕ)
small = new 10

abbrev one : Hash (List ℕ)
one = (insert first small).1

small-size : small.buckets_size ≡ 53
unfolding new
small-size = refl

-- A byte above 127 is sign-extended.
string_hash_high : string_hash (0xe4 ∷ []) ≡ 0xffff_ffff_ffff_ffe4
unfolding string_hash
string_hash_high = refl

-- A value is lost by the next insertion into its bucket.
one_lost : is_exist first (insert second one).1 ≡ s_not_exist
unfolding new insert is_exist string_hash bytes_eq
one_lost = refl

new-IsFresh_example : IsFresh 10 small
new-IsFresh_example = new-IsFresh 10

one-IsFlat : IsFlat one
one-IsFlat = insert-IsFlat first small (new-IsFresh 10).flat

is_exist-insert_example :
    ((insert second one).0 ≡ s_ok) × (is_exist first (insert second one).1 ≡ s_not_exist)
unfolding new insert is_exist string_hash bytes_eq
is_exist-insert_example = is_exist-insert string_key-IsLawful one second first one-IsFlat refl
