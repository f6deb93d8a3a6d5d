-- ===== src/Uri.antt =====
-- src/uri.h and the functions of src/uri_lexer.l behind its automaton: URIs of parts, and how a relative
-- one is merged with a base. A part is `none` where its pointer is NULL. `new` does not return NULL.
pub mod Naming
pub mod Merging
pub mod Referring
use myjfm_spider.Prelude.{
  ℕ, Bool, true, false, Option, none, some, List, [], ◌∷◌, ◌++◌, ◌==◌, if◌then◌else◌, codes,
  bytes_eq, Run, done, fault, ◌>>=◌,
}
use myjfm_spider.ResCode.{ResCode, s_ok, s_fail}
use myjfm_spider.Utility.Paths.{strdup}

pub data Authority : Type 0 where
  server : Option (List ℕ) → Option (List ℕ) → Option (List ℕ) → Authority
  reg_name : Option (List ℕ) → Authority

pub record Uri : Type 0 where
  pub scheme : Option (List ℕ)
  pub path : Option (List ℕ)
  pub authority : Option Authority
  pub query : Option (List ℕ)
  pub fragment : Option (List ℕ)

-- The constructor, and `reinit`.
abbrev pub uri_new : Uri
uri_new = record { scheme = none; path = none; authority = none; query = none; fragment = none }

unfoldable pub get_copy : Authority → Authority
get_copy (server userinfo host port) = server (strdup userinfo) (strdup host) (strdup port)
get_copy (reg_name name) = reg_name (strdup name)

-- `p->get_copy()`, which for NULL is undefined behaviour.
abbrev pub copy_authority : Option Authority → Run (Option Authority)
copy_authority none = fault
copy_authority (some a) = done (some (get_copy a))

unfoldable pub copy_from : Uri → Run (ResCode × Uri)
copy_from uri = copy_authority uri.authority >>= λ authority. done (
  s_ok,
  record {
    scheme = strdup uri.scheme;
    path = strdup uri.path;
    authority = authority;
    query = strdup uri.query;
    fragment = strdup uri.fragment;
  },
)

-- A path as its segments, each with its slash, and what follows the last slash; `pre` is what stands in
-- front of the position since the last slash.
pub record Segments : Type 0 where
  pub dirs : List (List ℕ)
  pub file : List ℕ

abbrev pub add_dir : List ℕ → Segments → Segments
add_dir dir s = record s { dirs = dir ∷ s.dirs }

unfoldable pub segments : List ℕ → List ℕ → Segments
segments pre [] = record { dirs = []; file = pre }
segments pre (c ∷ s) = elim (c == b'/') [
  | true ↦ add_dir (pre ++ b'/' ∷ []) (segments [] s)
  | false ↦ segments (pre ++ c ∷ []) s
]

-- The stack, its top first. The root stays where it is the only segment.
abbrev pub pop_dir : List (List ℕ) → List (List ℕ)
pop_dir [] = []
pop_dir (s ∷ []) = if bytes_eq s (codes "/") then s ∷ [] else []
pop_dir (s ∷ t ∷ stack) = t ∷ stack

abbrev pub push_dir : List (List ℕ) → List ℕ → List (List ℕ)
push_dir stack dir =
    if bytes_eq dir (codes "../")
    then pop_dir stack
    else if bytes_eq dir (codes "./")
    then stack
    else dir ∷ stack

abbrev pub push_dirs : List (List ℕ) → List (List ℕ) → List (List ℕ)
push_dirs stack [] = stack
push_dirs stack (dir ∷ dirs) = push_dirs (push_dir stack dir) dirs

abbrev pub push_file : List (List ℕ) → List ℕ → List (List ℕ)
push_file stack file =
    if bytes_eq file (codes "..")
    then pop_dir stack
    else if bytes_eq file (codes ".")
    then stack
    else file ∷ stack

-- The segments of the base without its file, then those of the relative path.
abbrev pub push_base : List ℕ → List (List ℕ)
push_base base = push_dirs [] (segments [] base).dirs

abbrev pub push_relative : List (List ℕ) → Option (List ℕ) → List (List ℕ)
push_relative stack none = stack
push_relative stack (some rel) =
    let parts = segments [] rel in push_file (push_dirs stack parts.dirs) parts.file

abbrev pub concat_stack : List (List ℕ) → List ℕ → List ℕ
concat_stack [] text = text
concat_stack (s ∷ stack) text = concat_stack stack (s ++ text)

abbrev pub merged_path : List (List ℕ) → Option (List ℕ)
merged_path [] = none
merged_path (s ∷ stack) = some (concat_stack (s ∷ stack) [])

-- Without a base the relative path is not looked at.
abbrev pub merged_stack : Option (List ℕ) → Option (List ℕ) → List (List ℕ)
merged_stack rel none = []
merged_stack rel (some base) = push_relative (push_base base) rel

unfoldable pub path_merge : Option (List ℕ) → Option (List ℕ) → ResCode × Option (List ℕ)
path_merge rel base = (s_ok, merged_path (merged_stack rel base))

abbrev pub or_base : {A : Type 0} → Option A → Option A → Option A
or_base none base = base
or_base (some a) base = some a

-- The authority of the relative URI, else that of the base, which is copied without a look at NULL.
abbrev pub merge_authority : Option Authority → Option Authority → Run (Option Authority)
merge_authority none base = copy_authority base
merge_authority (some a) base = done (some (get_copy a))

-- Behind `while (0)`.
abbrev pub uri_failed : ResCode × Uri
uri_failed = (s_fail, uri_new)

-- The code breaks behind path_merge, whatever it answers.
abbrev pub break_behind : ResCode × Option (List ℕ) → Option (List ℕ)
break_behind r = none

-- `_base_uri->_path ? _base_uri->_path : "/"`.
abbrev pub path_or_root : Option (List ℕ) → List ℕ
path_or_root none = codes "/"
path_or_root (some path) = path

abbrev pub merge_relative : List ℕ → Option (List ℕ) → Option (List ℕ)
merge_relative path base = break_behind (path_merge (some path) (some (path_or_root base)))

-- The path of the result; `none` where the code breaks.
abbrev pub merge_path : Option (List ℕ) → Option (List ℕ) → Option (List ℕ)
merge_path none base = strdup base
merge_path (some []) base = merge_relative [] base
merge_path (some (c ∷ s)) base =
    if c == b'/' then strdup (some (c ∷ s)) else merge_relative (c ∷ s) base

abbrev pub with_path : Uri → Option (List ℕ) → Uri → ResCode × Uri
with_path uri none result = uri_failed
with_path uri (some path) result = (
  s_ok,
  record result { path = some path; query = strdup uri.query; fragment = strdup uri.fragment },
)

abbrev pub with_scheme : Uri → Uri → Option (List ℕ) → Run (ResCode × Uri)
with_scheme uri base none = done uri_failed
with_scheme uri base (some scheme) = merge_authority uri.authority base.authority >>= λ authority.
    done (
      with_path uri (merge_path uri.path base.path)
        (record uri_new { scheme = some scheme; authority = authority }))

-- For a result that is not NULL.
unfoldable pub uri_merge : Uri → Uri → Run (ResCode × Uri)
uri_merge uri base = with_scheme uri base (strdup (or_base uri.scheme base.scheme))

-- The parts that the flags ask for.
pub record Flags : Type 0 where
  pub c_scheme : Bool
  pub c_authority : Bool
  pub c_userinfo : Bool
  pub c_host : Bool
  pub c_port : Bool
  pub c_reg_name : Bool
  pub c_path : Bool
  pub c_query : Bool
  pub c_fragment : Bool

-- A part with what stands in front of it and behind it.
abbrev pub part : Bool → List ℕ → Option (List ℕ) → List ℕ → List ℕ
part asked front none back = []
part asked front (some s) back = if asked then front ++ (s ++ back) else []

abbrev pub combine_server : Flags → Authority → List ℕ
combine_server f (server userinfo host port) =
    part f.c_userinfo [] userinfo (codes "@")
    ++ (part f.c_host [] host [] ++ part f.c_port (codes ":") port [])
combine_server f (reg_name name) = part f.c_reg_name [] name []

abbrev pub combine_authority : Flags → Option Authority → List ℕ
combine_authority f none = []
combine_authority f (some a) = if f.c_authority then codes "//" ++ combine_server f a else []

unfoldable pub uri_combine : Flags → Uri → List ℕ
uri_combine f uri =
    part f.c_scheme [] uri.scheme (codes ":")
    ++ (combine_authority f uri.authority
        ++ (part f.c_path [] uri.path []
            ++ (part f.c_query (codes "?") uri.query []
                ++ part f.c_fragment (codes "#") uri.fragment [])))
