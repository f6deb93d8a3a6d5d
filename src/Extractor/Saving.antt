-- ===== src/Extractor/Saving.antt =====
-- src/extractor_task.cc: save_page. The system's answers on a path are a record; `Disk` has the
-- directories that were made and the files that were written.
use myjfm_spider.Prelude.{
  ℕ, Bool, ◌||◌, Option, none, some, List, [], ◌∷◌, ◌++◌, ◌==◌, if◌then◌else◌, length, take, codes,
  bytes_eq, Run, done, fault,
}
use myjfm_spider.ResCode.{ResCode, s_ok, s_fail}
use myjfm_spider.Utility.{split}
use myjfm_spider.Page.{Page}

-- What `access`, `mkdir` and `open` say, and how many bytes the file takes of what is written.
pub record Files : Type 0 where
  pub can_access : List ℕ → Bool
  pub can_mkdir : List ℕ → Bool
  pub can_open : List ℕ → Bool
  pub takes : List ℕ → ℕ

pub record Disk : Type 0 where
  pub made : List (List ℕ)
  pub files : List (List ℕ × List ℕ)

abbrev pub default_file : List ℕ → List ℕ
default_file file =
    if (length file == 0) || bytes_eq file (codes "/") then codes "/index.html" else file

-- The loop over the directories, `none` where one cannot be made. A path that was made is not asked
-- for again, since every path is longer than the one before.
unfoldable pub enter_dirs : Files → List (List ℕ) → List ℕ → Disk → Option (List ℕ) × Disk
enter_dirs f [] path d = (some path, d)
enter_dirs f (dir ∷ dirs) path d =
    let path' = path ++ b'/' ∷ dir in
    let there = f.can_access path' in
    let rest =
      enter_dirs f dirs path' (if there then d else record d { made = d.made ++ path' ∷ [] }) in
    if there || f.can_mkdir path' then rest else (none, d)

abbrev pub last : List (List ℕ) → Option (List ℕ)
last [] = none
last (x ∷ []) = some x
last (x ∷ y ∷ xs) = last (y ∷ xs)

abbrev pub add_file : List ℕ → List ℕ → Disk → Disk
add_file path bytes d = record d { files = d.files ++ (path, bytes) ∷ [] }

-- `fs.write`, whose success is not looked at. Without content the file is left empty.
abbrev pub write_content : Files → List ℕ → Option (List ℕ) → ℕ → Disk → ResCode × Disk
write_content f path none n d = (s_fail, add_file path [] d)
write_content f path (some bytes) n d = (s_ok, add_file path (take (f.takes path) (take n bytes)) d)

-- `dirs[dirs.size() - 1]` of an empty vector is undefined behaviour.
abbrev pub write_file : Files → Option (List ℕ) → List ℕ → Page → Disk → Run (ResCode × Disk)
write_file f none path p d = fault
write_file f (some name) path p d =
    let path' = path ++ b'/' ∷ name in
    done (if f.can_open path' then write_content f path' p.content p.page_size d else (s_fail, d))

abbrev pub save_in : Files → List (List ℕ) → Page → Option (List ℕ) × Disk → Run (ResCode × Disk)
save_in f dirs p (none, d) = done (s_fail, d)
save_in f dirs p (some path, d) = write_file f (last dirs) path p d

unfoldable pub save_page : Files → List ℕ → Page → Disk → Run (ResCode × Disk)
save_page f save_path p d =
    let dirs = split (default_file p.file) (codes "/") in
    save_in f dirs p (enter_dirs f (take (length dirs) (p.site ∷ dirs)) save_path d)
