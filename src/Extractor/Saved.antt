-- ===== src/Extractor/Saved.antt =====
-- src/extractor_task.cc: where save_page puts a page.
use myjfm_spider.Prelude.{
  ℕ, zero, suc, ◌≤◌, ◌≡◌, refl, sym, ap, ◌∙◌, Bool, true, false, ◌||◌, Option, none, some, List, [],
  ◌∷◌, ◌++◌, append-nil, append_assoc, arith, if◌then◌else◌, length, take, codes, done,
}
use myjfm_spider.ResCode.{s_ok, s_fail}
use myjfm_spider.Utility.{is_separator, split}
use myjfm_spider.Utility.Splitting.{AllTokens, join, split-join, split_loop-separator}
use myjfm_spider.Page.{Page}
use myjfm_spider.Extractor.Saving.{
  Files, Disk, default_file, enter_dirs, last, add_file, write_content, write_file, save_in,
  save_page,
}

-- The names with a slash in front of each.
abbrev pub slashed : List (List ℕ) → List ℕ
slashed [] = []
slashed (t ∷ ts) = b'/' ∷ (t ++ slashed ts)

-- The directories on the way that are not there.
abbrev pub missing : Files → List ℕ → List (List ℕ) → List (List ℕ)
missing f path [] = []
missing f path (dir ∷ dirs) =
    let path' = path ++ b'/' ∷ dir in
    (if f.can_access path' then [] else path' ∷ []) ++ missing f path' dirs

-- All names but the last.
abbrev pub all_but_last : List ℕ → List (List ℕ) → List (List ℕ)
all_but_last t [] = []
all_but_last t (u ∷ ts) = t ∷ all_but_last u ts

take-all_but_last :
    (t : List ℕ) (ts : List (List ℕ)) → take (length ts) (t ∷ ts) ≡ all_but_last t ts
take-all_but_last t [] = refl
take-all_but_last t (u ∷ ts) = ap (◌∷◌ t) (take-all_but_last u ts)

last_of : List ℕ → List (List ℕ) → List ℕ
last_of t [] = t
last_of t (u ∷ ts) = last_of u ts

last-some : (t : List ℕ) (ts : List (List ℕ)) → last (t ∷ ts) ≡ some (last_of t ts)
unfolding last_of
last-some t [] = refl
last-some t (u ∷ ts) = last-some u ts

slashed-last :
    (t : List ℕ) (ts : List (List ℕ))
    → slashed (all_but_last t ts) ++ b'/' ∷ last_of t ts ≡ slashed (t ∷ ts)
unfolding last_of
slashed-last t [] = ap (◌∷◌ b'/') (sym (append-nil t))
slashed-last t (u ∷ ts) = ap (◌∷◌ b'/') (
    append_assoc t (slashed (all_but_last u ts)) (b'/' ∷ last_of u ts)
    ∙ ap (◌++◌ t) (slashed-last u ts))

slashed-join : (t : List ℕ) (ts : List (List ℕ)) → slashed (t ∷ ts) ≡ b'/' ∷ join b'/' (t ∷ ts)
unfolding join
slashed-join t [] = ap (◌∷◌ b'/') (append-nil t)
slashed-join t (u ∷ ts) = ap (λ s. b'/' ∷ (t ++ s)) (slashed-join u ts)

-- Every directory is there or can be made.
abbrev pub CanEnter : Files → List ℕ → List (List ℕ) → Type 0
CanEnter f path [] = Unit {0}
CanEnter f path (dir ∷ dirs) =
    let path' = path ++ b'/' ∷ dir in
    ((f.can_access path' || f.can_mkdir path') ≡ true) × CanEnter f path' dirs

made_if :
    (b : Bool) (path : List ℕ) (more : List (List ℕ)) (d : Disk)
    → (let d' = if b then d else record d { made = d.made ++ path ∷ [] } in
        record d' { made = d'.made ++ more })
      ≡ record d { made = d.made ++ ((if b then [] else path ∷ []) ++ more) }
made_if true path more d = refl
made_if false path more d = ap (λ ps. record d { made = ps }) (append_assoc d.made (path ∷ []) more)

enter_dirs-made :
    (f : Files) (dirs : List (List ℕ)) (path : List ℕ) (d : Disk)
    → CanEnter f path dirs
    → enter_dirs f dirs path d
      ≡ (some (path ++ slashed dirs), record d { made = d.made ++ missing f path dirs })
unfolding enter_dirs
enter_dirs-made f [] path d can =
    ap (λ p. (some p, d)) (sym (append-nil path))
    ∙ ap (λ ps. (some (path ++ []), record d { made = ps })) (sym (append-nil d.made))
enter_dirs-made f (dir ∷ dirs) path d can =
    let path' = path ++ b'/' ∷ dir in
    let d' = if f.can_access path' then d else record d { made = d.made ++ path' ∷ [] } in
    ap (λ (b : Bool). if b then enter_dirs f dirs path' d' else (none, d)) can.0
    ∙ enter_dirs-made f dirs path' d' can.1
    ∙ ap (λ p. (some p, record d' { made = d'.made ++ missing f path' dirs }))
        (append_assoc path (b'/' ∷ dir) (slashed dirs))
    ∙ ap (λ e. (some (path ++ slashed (dir ∷ dirs)), e))
        (made_if (f.can_access path') path' (missing f path' dirs) d)

-- `split` of such a path gives its names.
split-path :
    (t : List ℕ) (ts : List (List ℕ))
    → AllTokens (codes "/") (t ∷ ts)
    → split (b'/' ∷ join b'/' (t ∷ ts)) (codes "/") ≡ t ∷ ts
unfolding split is_separator
split-path t ts a =
    split_loop-separator (codes "/") [] (join b'/' (t ∷ ts)) b'/' refl
    ∙ split-join b'/' b'/' [] (t ∷ ts) refl a

dirs_taken :
    (t : List ℕ) (ts : List (List ℕ)) (site : List ℕ)
    → take (length (t ∷ ts)) (site ∷ t ∷ ts) ≡ site ∷ all_but_last t ts
dirs_taken t ts site = ap (◌∷◌ site) (take-all_but_last t ts)

take_all : (n : ℕ) (xs : List ℕ) → length xs ≤ n → take n xs ≡ xs
take_all zero [] h = refl
take_all zero (x ∷ xs) h = absurd (omega (arith, h))
take_all (suc n) [] h = refl
take_all (suc n) (x ∷ xs) h = ap (◌∷◌ x) (take_all n xs (omega (arith, h)))

-- Where the page belongs.
abbrev pub target : List ℕ → Page → List ℕ
target save_path p = save_path ++ b'/' ∷ (p.site ++ default_file p.file)

path-target :
    (save_path site file t : List ℕ) (ts : List (List ℕ))
    → file ≡ b'/' ∷ join b'/' (t ∷ ts)
    → (save_path ++ slashed (site ∷ all_but_last t ts)) ++ b'/' ∷ last_of t ts
      ≡ save_path ++ b'/' ∷ (site ++ file)
path-target save_path site file t ts e =
    append_assoc save_path (slashed (site ∷ all_but_last t ts)) (b'/' ∷ last_of t ts)
    ∙ ap (λ s. save_path ++ b'/' ∷ s)
        (append_assoc site (slashed (all_but_last t ts)) (b'/' ∷ last_of t ts)
          ∙ ap (◌++◌ site) (slashed-last t ts ∙ slashed-join t ts ∙ sym e))

write_content-all :
    (f : Files) (path bytes : List ℕ) (content : Option (List ℕ)) (n : ℕ) (d : Disk)
    → content ≡ some bytes
    → n ≡ length bytes
    → length bytes ≤ f.takes path
    → write_content f path content n d ≡ (s_ok, add_file path bytes d)
write_content-all f path bytes content n d e size room =
    let all : take n bytes ≡ bytes = take_all n bytes (omega (arith, size)) in
    ap (λ c. write_content f path c n d) e
    ∙ ap (λ bs. (s_ok, add_file path bs d))
        (ap (take (f.takes path)) all ∙ take_all (f.takes path) bytes room)

-- A page with content whose file is a path of names, each with a slash in front, or nothing or a slash,
-- which is /index.html: where each directory on the way is there or can be made, and the file can be
-- opened and takes the content, save_page returns S_OK, the content is in the file of that path under
-- the site under the directory for pages, and the directories made are those on the way that were not
-- there.
pub save_page-saves :
    (f : Files) (save_path : List ℕ) (p : Page) (d : Disk) (t : List ℕ) (ts : List (List ℕ))
    (bytes : List ℕ)
    → default_file p.file ≡ b'/' ∷ join b'/' (t ∷ ts)
    → AllTokens (codes "/") (t ∷ ts)
    → CanEnter f save_path (p.site ∷ all_but_last t ts)
    → f.can_open (target save_path p) ≡ true
    → length bytes ≤ f.takes (target save_path p)
    → p.content ≡ some bytes
    → p.page_size ≡ length bytes
    → save_page f save_path p d
      ≡ done (
        s_ok,
        add_file
            (target save_path p)
            bytes
            (record d { made = d.made ++ missing f save_path (p.site ∷ all_but_last t ts) }),
      )
unfolding save_page
save_page-saves f save_path p d t ts bytes e a can opens room content size =
    let way = all_but_last t ts in
    let path = save_path ++ slashed (p.site ∷ way) in
    let d' = record d { made = d.made ++ missing f save_path (p.site ∷ way) } in
    let write = λ (q : List ℕ). write_content f q p.content p.page_size d' in
    ap (λ ds. save_in f ds p (enter_dirs f (take (length ds) (p.site ∷ ds)) save_path d))
      (ap (λ s. split s (codes "/")) e ∙ split-path t ts a)
    ∙ ap (λ ds. save_in f (t ∷ ts) p (enter_dirs f ds save_path d)) (dirs_taken t ts p.site)
    ∙ ap (save_in f (t ∷ ts) p) (enter_dirs-made f (p.site ∷ way) save_path d can)
    ∙ ap (λ n. write_file f n path p d') (last-some t ts)
    ∙ ap (λ q. done (if f.can_open q then write q else (s_fail, d')))
        (path-target save_path p.site (default_file p.file) t ts e)
    ∙ ap (λ (b : Bool). done (if b then write (target save_path p) else (s_fail, d'))) opens
    ∙ ap done
        (write_content-all f (target save_path p) bytes p.content p.page_size d' content size room)
