-- ===== src/Utility/Paths.antt =====
-- src/utility.cc: get_file_full_path, strdup and strdupn. `cwd` is what `getcwd` writes into 512 bytes
-- and `home` what `getenv` gives, `none` where they fail. A write behind the buffer is a `fault`.
use myjfm_spider.Prelude.{
  ℕ, zero, suc, ◌+◌, ◌-◌, Bool, ◌&&◌, ◌||◌, Option, none, some, List, [], ◌∷◌, ◌++◌, ltb, leb, ◌==◌,
  if◌then◌else◌, length, take, drop, codes, bytes_eq, Run, done, fault, ◌>>=◌,
}

abbrev pub or_fault : Option (List ℕ) → Run (List ℕ)
or_fault none = fault
or_fault (some s) = done s

-- The bytes behind those that stay in the buffer, and the NUL.
abbrev pub write_behind : List ℕ → List ℕ → Run (List ℕ)
write_behind front bytes =
    if ltb (length front + length bytes) 512 then done (front ++ bytes) else fault

-- What stands in front of the last slash.
abbrev pub in_front : ℕ → List ℕ → Option (List ℕ) → Option (List ℕ)
in_front c s (some front) = some (c ∷ front)
in_front c s none = if c == b'/' then some [] else none

abbrev pub before_slash : List ℕ → Option (List ℕ)
before_slash [] = none
before_slash (c ∷ s) = in_front c s (before_slash s)

-- `path[i] == c`, with the NUL behind the text.
abbrev pub has_at : ℕ → ℕ → List ℕ → Bool
has_at i c [] = c == 0
has_at zero c (d ∷ s) = d == c
has_at (suc i) c (d ∷ s) = has_at i c s

-- The root keeps its slash.
abbrev pub parent : List ℕ → List ℕ
parent [] = b'/' ∷ []
parent (c ∷ s) = c ∷ s

abbrev pub full_parent : List ℕ → Option (List ℕ) → Run (List ℕ)
full_parent path none = fault
full_parent path (some front) =
    if bytes_eq path (codes "..")
    then done (parent front)
    else write_behind (parent front) (drop (if length (parent front) == 1 then 3 else 2) path)

-- A path that is not empty.
abbrev pub full_path : Option (List ℕ) → Option (List ℕ) → List ℕ → Run (List ℕ)
full_path cwd home path =
    if has_at 0 b'/' path
    then done path
    else if bytes_eq path (codes ".") || bytes_eq path (codes "./")
    then or_fault cwd
    else if has_at 0 b'.' path && has_at 1 b'/' path
    then (or_fault cwd >>= λ dir. write_behind (take (length dir - 1) dir) (drop 1 path))
    else if bytes_eq path (codes "..")
        || (ltb 2 (length path)
            && (has_at 0 b'.' path && (has_at 1 b'.' path && has_at 2 b'/' path)))
    then (or_fault cwd >>= λ dir. full_parent path (before_slash dir))
    else if bytes_eq path (codes "~") || bytes_eq path (codes "~/")
    then or_fault home
    else if has_at 0 b'~' path && has_at 1 b'/' path
    then (or_fault home >>= λ dir. write_behind dir (drop 1 path))
    else or_fault cwd >>= λ dir. done (dir ++ b'/' ∷ path)

unfoldable pub get_file_full_path : Option (List ℕ) → Option (List ℕ) → List ℕ → Run (List ℕ)
get_file_full_path cwd home path = if length path == 0 then done [] else full_path cwd home path

-- `src` up to its NUL; fewer than `n` bytes there are read behind the text: undefined behaviour. The
-- length is an `int`, and `new` does not return NULL.
unfoldable pub strdupn : Option (List ℕ) → ℕ → Run (Option (List ℕ))
strdupn none n = done none
strdupn (some s) n = if leb n (length s + 1) then done (some (take n s)) else fault

unfoldable pub strdup : Option (List ℕ) → Option (List ℕ)
strdup none = none
strdup (some s) = some s
