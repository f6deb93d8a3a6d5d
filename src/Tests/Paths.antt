-- ===== src/Tests/Paths.antt =====
-- src/utility.cc: paths and URI texts.
use myjfm_spider.Prelude.{◌≡◌, refl, some, none, codes, arith, bytes_eq, done}
use myjfm_spider.Utility.Paths.{get_file_full_path}
use myjfm_spider.Utility.FullPaths.{FullPaths, get_file_full_path-FullPaths}
use myjfm_spider.Utility.Escaping.{
  escape, is_uri_chr, upper_hex_char, unescape, at_char, AllUri, unescape-escape,
}

get_file_full_path-FullPaths_example :
    FullPaths (codes "/usr") (codes "bin") (codes "/home") b'c' (codes "onf")
get_file_full_path-FullPaths_example =
    get_file_full_path-FullPaths (codes "/usr") (codes "bin") (codes "/home") b'c' (codes "onf")
      (omega arith, (omega arith, (omega arith, tt)))

-- The last byte of the current directory is written over.
dot_path :
    get_file_full_path (some (codes "/usr/bin")) none (codes "./conf") ≡ done (codes "/usr/bi/conf")
unfolding get_file_full_path bytes_eq
dot_path = refl

unescape-escape_example :
    AllUri (escape (codes "a %")) × (unescape at_char (escape (codes "a %")) ≡ codes "a %")
unescape-escape_example =
    unescape-escape (codes "a %") (omega arith, (omega arith, (omega arith, tt)))

escaped : escape (codes "a %") ≡ codes "a%20%25"
unfolding escape is_uri_chr upper_hex_char
escaped = refl
