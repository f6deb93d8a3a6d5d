-- ===== src/Tests/Uris.antt =====
-- src/uri_lexer.l: the example of its comment, and references that fail.
use myjfm_spider.Prelude.{
  ℕ, ◌≡◌, ◌≢◌, refl, none, some, [], ◌∷◌, ◌++◌, arith, codes, bytes_eq, done, fault,
}
use myjfm_spider.ResCode.{s_ok, s_fail}
use myjfm_spider.Utility.Paths.{strdup}
use myjfm_spider.Uri.{
  server, Uri, uri_new, get_copy, segments, path_merge, uri_merge, uri_combine, copy_from,
}
use myjfm_spider.Uri.Naming.{IsName, slashed, joined}
use myjfm_spider.Uri.Merging.{resolve, file_ups, file_text, path_merge-resolve}
use myjfm_spider.Uri.Referring.{all_parts, server_parts, base_uri, reference, uri_merge-uri_combine}

of_comment :
    path_merge
      (some (codes "../././../game/../document/rfc/rfc2616.pdf"))
      (some (codes "/pub/incoming/./software/linux/nasm.tar.gz"))
    ≡ (s_ok, some (codes "/pub/incoming/document/rfc/rfc2616.pdf"))
unfolding path_merge segments bytes_eq
of_comment = refl

above_root : path_merge (some (codes "../../a/..")) (some (codes "/b")) ≡ (s_ok, some (codes "/"))
unfolding path_merge segments bytes_eq
above_root = refl

no_base : path_merge (some (codes "a")) none ≡ (s_ok, none)
unfolding path_merge
no_base = refl

abbrev base : Uri
base =
    base_uri (codes "http") (server none (some (codes "a.b")) (some (codes "81")))
      (some (codes "/x/y")) none none

relative_fails : uri_merge (reference (codes "z") none none) base ≡ done (s_fail, uri_new)
unfolding uri_merge get_copy strdup path_merge segments bytes_eq
relative_fails = refl

no_authority : copy_from uri_new ≡ fault
unfolding copy_from
no_authority = refl

no_slash : (c : ℕ) → c ≢ b'/' → IsName (c ∷ [])
no_slash c h = (h, tt)

path_merge-resolve_example :
    path_merge
      (some (joined (slashed (codes ".." ∷ codes "c" ∷ [])) (codes "d")))
      (some (b'/' ∷ joined (slashed (codes "a" ∷ codes "b" ∷ [])) []))
    ≡ (
      s_ok,
      some (
          b'/'
          ∷ joined
              (resolve
                (slashed (codes "a" ∷ codes "b" ∷ []) ++ slashed (codes ".." ∷ codes "c" ∷ []))
                (file_ups (codes "d"))).kept
              (file_text (codes "d"))),
    )
path_merge-resolve_example =
    path_merge-resolve (codes "a" ∷ codes "b" ∷ []) (codes ".." ∷ codes "c" ∷ []) [] (codes "d")
      (no_slash b'a' (ground arith), (no_slash b'b' (ground arith), tt)) tt
      ((ground arith, (ground arith, tt)), (no_slash b'c' (ground arith), tt))
      (no_slash b'd' (ground arith))

uri_merge-uri_combine_example :
    (result : Uri) × (uri_merge (reference (codes "/z") (some (codes "q")) none) base
      ≡ done (s_ok, result))
    × (uri_combine all_parts result
        ≡ uri_combine server_parts base
          ++ uri_combine all_parts (reference (codes "/z") (some (codes "q")) none))
uri_merge-uri_combine_example =
    uri_merge-uri_combine (codes "http") (server none (some (codes "a.b")) (some (codes "81")))
      (some (codes "/x/y")) none none (codes "z") (some (codes "q")) none
