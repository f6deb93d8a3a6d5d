-- ===== src/Uri/Merging.antt =====
-- src/uri_lexer.l: path_merge, against a reading of the names from the right.
use myjfm_spider.Prelude.{
  ℕ, zero, suc, Bool, true, false, ◌≡◌, refl, sym, ap, ◌∙◌, subst, some, List, [], ◌∷◌, ◌++◌,
  append-nil, if◌then◌else◌, codes, bytes_eq,
}
use myjfm_spider.ResCode.{s_ok}
use myjfm_spider.Uri.{
  segments, pop_dir, push_dir, push_dirs, push_file, push_base, push_relative, concat_stack,
  merged_path, path_merge,
}
use myjfm_spider.Uri.Naming.{IsName, AllNames, slashed, joined, segments-joined}

-- What is kept of directories, and how many in front of them are to be left out.
pub record Kept : Type 0 where
  pub ups : ℕ
  pub kept : List (List ℕ)

abbrev pub keep_named : List ℕ → ℕ → List (List ℕ) → Kept
keep_named d zero k = record { ups = zero; kept = d ∷ k }
keep_named d (suc n) k = record { ups = n; kept = k }

abbrev pub keep_dir : List ℕ → Kept → Kept
keep_dir d r =
    if bytes_eq d (codes "../")
    then record r { ups = suc r.ups }
    else if bytes_eq d (codes "./")
    then r
    else keep_named d r.ups r.kept

-- From the right to the left: every ".." leaves out the next name that is not left out yet.
abbrev pub resolve : List (List ℕ) → ℕ → Kept
resolve [] n = record { ups = n; kept = [] }
resolve (d ∷ dirs) n = keep_dir d (resolve dirs n)

-- What a last name ".." leaves out, and what is written for a last name.
abbrev pub file_ups : List ℕ → ℕ
file_ups file = if bytes_eq file (codes "..") then 1 else 0

abbrev pub file_text : List ℕ → List ℕ
file_text file =
    if bytes_eq file (codes "..") then [] else if bytes_eq file (codes ".") then [] else file

-- A stack with the root at its bottom.
IsRooted : List (List ℕ) → Type 0
IsRooted [] = ⊥
IsRooted (s ∷ []) = s ≡ b'/' ∷ []
IsRooted (s ∷ t ∷ stack) = IsRooted (t ∷ stack)

pop_dirs : ℕ → List (List ℕ) → List (List ℕ)
pop_dirs zero stack = stack
pop_dirs (suc n) stack = pop_dirs n (pop_dir stack)

push_all : List (List ℕ) → List (List ℕ) → List (List ℕ)
push_all [] stack = stack
push_all (d ∷ dirs) stack = push_all dirs (d ∷ stack)

-- What directories do to a stack.
after : Kept → List (List ℕ) → List (List ℕ)
after r stack = push_all r.kept (pop_dirs r.ups stack)

push-IsRooted : (s : List ℕ) (stack : List (List ℕ)) → IsRooted stack → IsRooted (s ∷ stack)
unfolding IsRooted
push-IsRooted s [] h = absurd h
push-IsRooted s (t ∷ stack) h = h

pop_dir-IsRooted : (stack : List (List ℕ)) → IsRooted stack → IsRooted (pop_dir stack)
unfolding IsRooted bytes_eq
pop_dir-IsRooted [] h = h
pop_dir-IsRooted (s ∷ []) h = subst (λ t. IsRooted (pop_dir (t ∷ []))) (sym h) refl
pop_dir-IsRooted (s ∷ t ∷ stack) h = h

module _ (d : List ℕ) where
  after-keep_named :
      (n : ℕ) (k stack : List (List ℕ))
      → IsRooted stack
      → after (record { ups = n; kept = k }) (d ∷ stack) ≡ after (keep_named d n k) stack
  unfolding after pop_dirs push_all IsRooted
  after-keep_named zero k stack h = refl
  after-keep_named (suc n) k [] h = absurd h
  after-keep_named (suc n) k (t ∷ stack) h = refl

  after-cases :
      (up here : Bool) (r : Kept) (stack : List (List ℕ))
      → IsRooted stack
      → after r (if up then pop_dir stack else if here then stack else d ∷ stack)
        ≡ after
            (if up
              then record r { ups = suc r.ups }
              else if here
              then r
              else keep_named d r.ups r.kept)
            stack
  after-cases true here r stack h = unfold after pop_dirs in refl
  after-cases false true r stack h = refl
  after-cases false false r stack h = after-keep_named r.ups r.kept stack h

  push_cases-IsRooted :
      (up here : Bool) (stack : List (List ℕ))
      → IsRooted stack
      → IsRooted (if up then pop_dir stack else if here then stack else d ∷ stack)
  push_cases-IsRooted true here stack h = pop_dir-IsRooted stack h
  push_cases-IsRooted false true stack h = h
  push_cases-IsRooted false false stack h = push-IsRooted d stack h

pop_dirs-push_dirs :
    (n : ℕ) (dirs stack : List (List ℕ))
    → IsRooted stack
    → pop_dirs n (push_dirs stack dirs) ≡ after (resolve dirs n) stack
pop_dirs-push_dirs n [] stack h = unfold after push_all in refl
pop_dirs-push_dirs n (d ∷ dirs) stack h =
    let up = bytes_eq d (codes "../") in
    let here = bytes_eq d (codes "./") in
    pop_dirs-push_dirs n dirs (push_dir stack d) (push_cases-IsRooted d up here stack h)
    ∙ after-cases d up here (resolve dirs n) stack h

push_dirs-append :
    (stack dirs rest : List (List ℕ))
    → push_dirs stack (dirs ++ rest) ≡ push_dirs (push_dirs stack dirs) rest
push_dirs-append stack [] rest = refl
push_dirs-append stack (d ∷ dirs) rest = push_dirs-append (push_dir stack d) dirs rest

concat_stack-push_all :
    (dirs stack : List (List ℕ)) (text : List ℕ)
    → concat_stack (push_all dirs stack) text ≡ concat_stack stack (joined dirs text)
unfolding push_all
concat_stack-push_all [] stack text = refl
concat_stack-push_all (d ∷ dirs) stack text = concat_stack-push_all dirs (d ∷ stack) text

pop_dirs-root : (n : ℕ) → pop_dirs n ((b'/' ∷ []) ∷ []) ≡ (b'/' ∷ []) ∷ []
unfolding pop_dirs bytes_eq
pop_dirs-root zero = refl
pop_dirs-root (suc n) = pop_dirs-root n

push_dirs-IsRooted : (dirs stack : List (List ℕ)) → IsRooted stack → IsRooted (push_dirs stack dirs)
push_dirs-IsRooted [] stack h = h
push_dirs-IsRooted (d ∷ dirs) stack h =
    push_dirs-IsRooted dirs (push_dir stack d)
      (push_cases-IsRooted d (bytes_eq d (codes "../")) (bytes_eq d (codes "./")) stack h)

-- The text of a rooted stack in front of another.
text_of : ℕ → List (List ℕ) → List ℕ → List ℕ
text_of n stack text = concat_stack (pop_dirs n stack) text

merged_path-rooted :
    (stack : List (List ℕ)) → IsRooted stack → merged_path stack ≡ some (concat_stack stack [])
unfolding IsRooted
merged_path-rooted [] h = absurd h
merged_path-rooted (s ∷ stack) h = refl

file-cases :
    (up here : Bool) (stack : List (List ℕ)) (file : List ℕ)
    → IsRooted stack
    → merged_path (if up then pop_dir stack else if here then stack else file ∷ stack)
      ≡ some (text_of (if up then 1 else 0) stack (if up then [] else if here then [] else file))
unfolding text_of pop_dirs
file-cases true here stack file h = merged_path-rooted (pop_dir stack) (pop_dir-IsRooted stack h)
file-cases false true stack file h = merged_path-rooted stack h
file-cases false false stack file h = ap (λ t. some (concat_stack stack t)) (append-nil file)

root : List (List ℕ)
root = (b'/' ∷ []) ∷ []

push_base-root :
    (names : List (List ℕ)) (file : List ℕ)
    → AllNames names
    → IsName file
    → push_base (b'/' ∷ joined (slashed names) file) ≡ push_dirs root (slashed names)
unfolding root segments bytes_eq
push_base-root names file h f = ap (λ s. push_dirs root s.dirs) (segments-joined names file h f)

text_of-push_dirs :
    (n : ℕ) (dirs : List (List ℕ)) (text : List ℕ)
    → text_of n (push_dirs root dirs) text ≡ b'/' ∷ joined (resolve dirs n).kept text
unfolding text_of root after IsRooted
text_of-push_dirs n dirs text =
    let r = resolve dirs n in
    ap (λ s. concat_stack s text) (pop_dirs-push_dirs n dirs root refl)
    ∙ (ap (λ s. concat_stack (push_all r.kept s) text) (pop_dirs-root r.ups)
        ∙ concat_stack-push_all r.kept root text)

-- For a base that begins with a slash and a relative path that does not have to, each a list of names
-- with a slash behind every name and a last name, none of which has a slash: path_merge answers S_OK and
-- gives a slash, the directories that are kept when those of both paths are read from the right to the
-- left, a "." left out and a ".." with the next name in front of it, and the relative path's last name,
-- of which "." and ".." count as directories.
pub path_merge-resolve :
    (base rel : List (List ℕ)) (base_file file : List ℕ)
    → AllNames base
    → IsName base_file
    → AllNames rel
    → IsName file
    → path_merge (some (joined (slashed rel) file)) (some (b'/' ∷ joined (slashed base) base_file))
      ≡ (
        s_ok,
        some (
            b'/'
            ∷ joined (resolve (slashed base ++ slashed rel) (file_ups file)).kept (file_text file)),
      )
unfolding path_merge IsRooted root
path_merge-resolve base rel base_file file b bf r f =
    let up = bytes_eq file (codes "..") in
    let here = bytes_eq file (codes ".") in
    let dirs = slashed base ++ slashed rel in
    let stack = push_dirs root dirs in
    let pushed : push_relative (push_base (b'/' ∷ joined (slashed base) base_file))
          (some (joined (slashed rel) file))
        ≡ push_file stack file =
      ap (λ s. push_relative s (some (joined (slashed rel) file)))
        (push_base-root base base_file b bf)
      ∙ (ap (λ s. push_file (push_dirs (push_dirs root (slashed base)) s.dirs) s.file)
            (segments-joined rel file r f)
          ∙ ap (λ s. push_file s file)
              (sym (push_dirs-append root (slashed base) (slashed rel)))) in
    ap (λ s. (s_ok, merged_path s)) pushed
    ∙ (ap (λ s. (s_ok, s)) (file-cases up here stack file (push_dirs-IsRooted dirs root refl))
        ∙ ap (λ s. (s_ok, some s)) (text_of-push_dirs (file_ups file) dirs (file_text file)))
