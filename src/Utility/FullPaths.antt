-- ===== src/Utility/FullPaths.antt =====
-- src/utility.cc: the paths that get_file_full_path gives.
use myjfm_spider.Prelude.{
  ℕ, zero, suc, ◌+◌, ◌-◌, ◌<◌, ◌≤◌, ◌≡◌, ◌≢◌, refl, ap, ◌∙◌, true, false, ◌&&◌, Option, none, some,
  List, [], ◌∷◌, ◌++◌, arith, ltb, ◌==◌, if◌then◌else◌, length, length-append, take, drop, bytes_eq,
  done, fault,
}
use myjfm_spider.Utility.Paths.{
  write_behind, in_front, before_slash, full_parent, full_path, get_file_full_path,
}

-- A name of a directory.
abbrev pub NoSlash : List ℕ → Type 0
NoSlash [] = Unit {0}
NoSlash (c ∷ s) = (c ≢ b'/') × NoSlash s

before_slash-none : (s : List ℕ) → NoSlash s → before_slash s ≡ none
before_slash-none [] h = refl
before_slash-none (c ∷ s) h =
    let other : (c == b'/') ≡ false = ground (arith, h.0) in
    ap (in_front c s) (before_slash-none s h.1) ∙ ap (λ b. if b then some [] else none) other

before_slash-last :
    (dir name : List ℕ) → NoSlash name → before_slash (dir ++ b'/' ∷ name) ≡ some dir
before_slash-last [] name h = ap (in_front b'/' name) (before_slash-none name h)
before_slash-last (c ∷ dir) name h =
    ap (in_front c (dir ++ b'/' ∷ name)) (before_slash-last dir name h)

write_behind-fits :
    (front bytes : List ℕ)
    → length front + length bytes < 512
    → write_behind front bytes ≡ done (front ++ bytes)
write_behind-fits front bytes h =
    let fits : ltb (length front + length bytes) 512 ≡ true = ground (arith, h) in
    ap (λ b. if b then done (front ++ bytes) else fault) fits

-- For a current directory `dir ++ "/" ++ name`, a home directory and a relative path `c ∷ s` of at least
-- a byte.
pub record FullPaths (dir name home : List ℕ) (c : ℕ) (s : List ℕ) : Type 0 where
  pub absolute :
      get_file_full_path (some (dir ++ b'/' ∷ name)) (some home) (b'/' ∷ c ∷ s)
      ≡ done (b'/' ∷ c ∷ s)
  pub plain :
      c ≢ b'/'
      → c ≢ b'.'
      → c ≢ b'~'
      → get_file_full_path (some (dir ++ b'/' ∷ name)) (some home) (c ∷ s)
        ≡ done ((dir ++ b'/' ∷ name) ++ b'/' ∷ c ∷ s)
  pub upwards :
      length dir + length (c ∷ s) + 1 < 512
      → length dir ≢ 1
      → get_file_full_path (some (dir ++ b'/' ∷ name)) (some home) (b'.' ∷ b'.' ∷ b'/' ∷ c ∷ s)
        ≡ done (dir ++ b'/' ∷ c ∷ s)
  pub at_home :
      length home + length (c ∷ s) + 1 < 512
      → get_file_full_path (some (dir ++ b'/' ∷ name)) (some home) (b'~' ∷ b'/' ∷ c ∷ s)
        ≡ done (home ++ b'/' ∷ c ∷ s)
  pub here :
      length dir + length name + length (c ∷ s) + 1 < 512
      → get_file_full_path (some (dir ++ b'/' ∷ name)) (some home) (b'.' ∷ b'/' ∷ c ∷ s)
        ≡ done ((dir ++ take (length name) (b'/' ∷ name)) ++ b'/' ∷ c ∷ s)

take-front :
    (dir name : List ℕ)
    → take (length dir + length name) (dir ++ b'/' ∷ name) ≡ dir ++ take (length name) (b'/' ∷ name)
take-front [] name = ap (λ n. take n (b'/' ∷ name)) (omega arith)
take-front (c ∷ dir) name =
    let e : length (c ∷ dir) + length name ≡ suc (length dir + length name) = omega arith in
    ap (λ n. take n (c ∷ (dir ++ b'/' ∷ name))) e ∙ ap (◌∷◌ c) (take-front dir name)

take-before_last :
    (dir name : List ℕ)
    → take (length (dir ++ b'/' ∷ name) - 1) (dir ++ b'/' ∷ name)
      ≡ dir ++ take (length name) (b'/' ∷ name)
take-before_last dir name =
    ap (λ n. take n (dir ++ b'/' ∷ name)) (omega (arith, length-append dir (b'/' ∷ name)))
    ∙ take-front dir name

length-take_le : (n : ℕ) (xs : List ℕ) → length (take n xs) ≤ n
length-take_le zero xs = omega arith
length-take_le (suc n) [] = omega arith
length-take_le (suc n) (x ∷ xs) = omega (arith, length-take_le n xs)

-- Behind the tests on `..`.
full_parent-front :
    (dir s : List ℕ) (c : ℕ)
    → length dir + length (c ∷ s) + 1 < 512
    → length dir ≢ 1
    → full_parent (b'.' ∷ b'.' ∷ b'/' ∷ c ∷ s) (some dir) ≡ done (dir ++ b'/' ∷ c ∷ s)
unfolding bytes_eq
full_parent-front [] s c small one = write_behind-fits (b'/' ∷ []) (c ∷ s) (omega (arith, small))
full_parent-front (d ∷ dir) s c small one =
    let deeper : (length (d ∷ dir) == 1) ≡ false = ground (arith, one) in
    ap (λ b. write_behind (d ∷ dir) (drop (if b then 3 else 2) (b'.' ∷ b'.' ∷ b'/' ∷ c ∷ s))) deeper
    ∙ write_behind-fits (d ∷ dir) (b'/' ∷ c ∷ s) (omega (arith, small))

get_file_full_path-cons :
    (cwd home : Option (List ℕ)) (c : ℕ) (s : List ℕ)
    → get_file_full_path cwd home (c ∷ s) ≡ full_path cwd home (c ∷ s)
unfolding get_file_full_path
get_file_full_path-cons cwd home c s =
    let some_ : (length (c ∷ s) == 0) ≡ false = ground arith in
    ap (λ b. if b then done [] else full_path cwd home (c ∷ s)) some_

module _ (dir name home : List ℕ) (c : ℕ) (s : List ℕ) (h : NoSlash name) where
  plain_lem :
      c ≢ b'/'
      → c ≢ b'.'
      → c ≢ b'~'
      → get_file_full_path (some (dir ++ b'/' ∷ name)) (some home) (c ∷ s)
        ≡ done ((dir ++ b'/' ∷ name) ++ b'/' ∷ c ∷ s)
  unfolding get_file_full_path bytes_eq
  plain_lem no_slash no_dot no_tilde = ground arith

-- With a current directory that is the root or not, whose last name has no slash in it: an absolute path
-- is taken as it is, and a plain one goes behind the current directory; one behind ../ goes behind the
-- directory above, and one behind ~/ behind the home directory, where they fit into 512 bytes. One
-- behind ./ goes behind the current directory without its last byte.
pub get_file_full_path-FullPaths :
    (dir name home : List ℕ) (c : ℕ) (s : List ℕ) → NoSlash name → FullPaths dir name home c s
unfolding bytes_eq
get_file_full_path-FullPaths dir name home c s h =
    let first = get_file_full_path-cons (some (dir ++ b'/' ∷ name)) (some home) in
    record {
      absolute = first b'/' (c ∷ s);
      plain = plain_lem dir name home c s h;
      upwards = λ small one.
          let long : ltb 2 (length (b'.' ∷ b'.' ∷ b'/' ∷ c ∷ s)) ≡ true = ground arith in
          first b'.' (b'.' ∷ b'/' ∷ c ∷ s)
          ∙ ap
              (λ b.
                if b && true
                then full_parent (b'.' ∷ b'.' ∷ b'/' ∷ c ∷ s) (before_slash (dir ++ b'/' ∷ name))
                else done ((dir ++ b'/' ∷ name) ++ b'/' ∷ b'.' ∷ b'.' ∷ b'/' ∷ c ∷ s))
              long
          ∙ ap (full_parent (b'.' ∷ b'.' ∷ b'/' ∷ c ∷ s)) (before_slash-last dir name h)
          ∙ full_parent-front dir s c small one;
      at_home = λ small.
          let long : ltb 2 (length (b'~' ∷ b'/' ∷ c ∷ s)) ≡ true = ground arith in
          first b'~' (b'/' ∷ c ∷ s)
          ∙ ap
              (λ b.
                if b && false
                then full_parent (b'~' ∷ b'/' ∷ c ∷ s) (before_slash (dir ++ b'/' ∷ name))
                else write_behind home (b'/' ∷ c ∷ s))
              long
          ∙ write_behind-fits home (b'/' ∷ c ∷ s) (omega (arith, small));
      here = λ small.
          let front = take-before_last dir name in
          let le = length-take_le (length name) (b'/' ∷ name) in
          let size = length-append dir (take (length name) (b'/' ∷ name)) in
          first b'.' (b'/' ∷ c ∷ s)
          ∙ ap (λ f. write_behind f (b'/' ∷ c ∷ s)) front
          ∙ write_behind-fits (dir ++ take (length name) (b'/' ∷ name)) (b'/' ∷ c ∷ s)
              (omega (arith, small, le, size));
    }
