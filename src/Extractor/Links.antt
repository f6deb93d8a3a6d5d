-- ===== src/Extractor/Links.antt =====
-- src/link_lexer.h and the functions of src/link_lexer.l behind its automaton, with extract_links of
-- src/extractor_task.cc. The automaton, which flex generates, is a parameter: what it does to the lexer
-- for a text, and the links that it puts into the vector. The members that only the automaton uses, and
-- the pointer to the vector, which `init` sets in front of every `lex`, are left out.
use mathlib.Core.Option
use myjfm_spider.Prelude.{
  ℕ, suc, ◌≡◌, refl, sym, ap, ◌∙◌, Bool, false, Option, none, some, List, [], ◌∷◌, ◌==◌,
  if◌then◌else◌, take, drop, codes, bytes_eq, Run, done, fault, ◌>>=◌,
}
use myjfm_spider.ResCode.{ResCode, s_ok}
use myjfm_spider.Utility.{integer2str}
use myjfm_spider.Utility.Paths.{strdup}
use myjfm_spider.Url.{find, c_str}
use myjfm_spider.Page.{Page}
use myjfm_spider.Uri.{Authority, server, Uri, uri_new, copy_authority, copy_from}
use myjfm_spider.Uri.Referring.{strdup_lem, get_copy_lem}

pub record LinkLexer : Type 0 where
  pub page : Option Page
  pub base_uri : Uri
  pub base_flag : Bool

unfoldable pub init_lexer : Page → LinkLexer → LinkLexer
init_lexer p l = record { page = some p; base_uri = uri_new; base_flag = false }

-- The path and the query of a file, `skip` bytes of it being left out in front of the query.
abbrev pub with_query : ℕ → Option ℕ → List ℕ → Uri → Uri
with_query skip none file uri = record uri { path = some (c_str file) }
with_query skip (some pos) file uri = record uri {
  path = some (c_str (take pos file));
  query = some (c_str (drop skip (drop pos file)));
}

abbrev pub with_fragment : Option ℕ → List ℕ → Uri → Uri
with_fragment none file uri = with_query 1 (find b'?' file) file uri
with_fragment (some pos) file uri =
    with_query 0 (find b'?' (take pos file)) (take pos file)
      (record uri { fragment = some (c_str (drop (suc pos) file)) })

unfoldable pub generate_uri : List ℕ → List ℕ → List ℕ → Uri
generate_uri site port file = with_fragment (find b'#' file) file (record uri_new {
  scheme = some (codes "http");
  authority = some (
      server none (some (c_str site))
        (if bytes_eq port (codes "80") then none else some (c_str port)));
})

-- The text in front of the first NUL, `none` where there is none.
unfoldable pub c_text : List ℕ → Option (List ℕ)
c_text [] = none
c_text (c ∷ s) = if c == 0 then some [] else Option.map (◌∷◌ c) (c_text s)

-- A page without a NUL is read behind its end.
abbrev pub scan_text :
    (List ℕ → LinkLexer → Run (LinkLexer × List (List ℕ)))
    → Option (List ℕ)
    → LinkLexer
    → Run (LinkLexer × List (List ℕ))
scan_text scan none l = fault
scan_text scan (some text) l = scan text l

-- `yylex(content)`, whose content may be NULL.
abbrev pub scan_content :
    (List ℕ → LinkLexer → Run (LinkLexer × List (List ℕ)))
    → Option (List ℕ)
    → LinkLexer
    → Run (LinkLexer × List (List ℕ))
scan_content scan none l = fault
scan_content scan (some bytes) l = scan_text scan (c_text bytes) l

abbrev pub lex_page :
    (List ℕ → LinkLexer → Run (LinkLexer × List (List ℕ)))
    → Option Page
    → LinkLexer
    → Run (LinkLexer × List (List ℕ))
lex_page scan none l = done (l, [])
lex_page scan (some p) l = copy_from (generate_uri p.site (integer2str p.port) p.file) >>= λ r.
    scan_content scan p.content (record l { base_uri = r.1 })

unfoldable pub lex :
    (List ℕ → LinkLexer → Run (LinkLexer × List (List ℕ)))
    → LinkLexer
    → Run (LinkLexer × List (List ℕ))
lex scan l = lex_page scan l.page l

-- The result of `lex` is not looked at; the vector of links is empty in front of the call.
unfoldable pub extract_links :
    (List ℕ → LinkLexer → Run (LinkLexer × List (List ℕ)))
    → Page
    → LinkLexer
    → Run (ResCode × LinkLexer × List (List ℕ))
extract_links scan p l = lex scan (init_lexer p l) >>= λ r. done (s_ok, r.0, r.1)

-- The lexer when it comes to the automaton.
abbrev pub lexer_at : Page → LinkLexer
lexer_at p = record {
  page = some p;
  base_uri = generate_uri p.site (integer2str p.port) p.file;
  base_flag = false;
}

-- The end of `copy_from`.
abbrev copied :
    Option (List ℕ)
    → Option (List ℕ)
    → Option Authority
    → Option (List ℕ)
    → Option (List ℕ)
    → Run (ResCode × Uri)
copied s p x q f =
    done (s_ok, record { scheme = s; path = p; authority = x; query = q; fragment = f })

copy_from-authority :
    (u : Uri) (a : Authority) → u.authority ≡ some a → copy_from u ≡ done (s_ok, u)
unfolding copy_from
copy_from-authority u a e =
    ap
      (λ o. copy_authority o >>= λ x.
        copied (strdup u.scheme) (strdup u.path) x (strdup u.query) (strdup u.fragment))
      e
    ∙ ap
        (λ b.
          copied (strdup u.scheme) (strdup u.path) (some b) (strdup u.query) (strdup u.fragment))
        (get_copy_lem a)
    ∙ ap (λ s. copied s (strdup u.path) (some a) (strdup u.query) (strdup u.fragment))
        (strdup_lem u.scheme)
    ∙ ap (λ s. copied u.scheme s (some a) (strdup u.query) (strdup u.fragment)) (strdup_lem u.path)
    ∙ ap (λ s. copied u.scheme u.path (some a) s (strdup u.fragment)) (strdup_lem u.query)
    ∙ ap (λ s. copied u.scheme u.path (some a) u.query s) (strdup_lem u.fragment)
    ∙ ap (λ x. copied u.scheme u.path x u.query u.fragment) (sym e)

with_query-authority :
    (skip : ℕ) (o : Option ℕ) (file : List ℕ) (u : Uri)
    → (with_query skip o file u).authority ≡ u.authority
with_query-authority skip none file u = refl
with_query-authority skip (some pos) file u = refl

with_fragment-authority :
    (o : Option ℕ) (file : List ℕ) (u : Uri) → (with_fragment o file u).authority ≡ u.authority
with_fragment-authority none file u = with_query-authority 1 (find b'?' file) file u
with_fragment-authority (some pos) file u =
    with_query-authority 0 (find b'?' (take pos file)) (take pos file)
      (record u { fragment = some (c_str (drop (suc pos) file)) })

authority-generate_uri :
    (site port file : List ℕ) → (a : Authority) × ((generate_uri site port file).authority ≡ some a)
authority-generate_uri site port file =
    let host =
      server none (some (c_str site))
        (if bytes_eq port (codes "80") then none else some (c_str port)) in
    (host, unfold generate_uri in with_fragment-authority (find b'#' file) file _)

pub extract_links-scan_text :
    (scan : List ℕ → LinkLexer → Run (LinkLexer × List (List ℕ))) (p : Page) (l : LinkLexer)
    (bytes : List ℕ)
    → p.content ≡ some bytes
    → extract_links scan p l
      ≡ (scan_text scan (c_text bytes) (lexer_at p) >>= λ r. done (s_ok, r.0, r.1))
unfolding extract_links lex init_lexer
extract_links-scan_text scan p l bytes e =
    let (a, has) = authority-generate_uri p.site (integer2str p.port) p.file in
    ap
      (λ u.
        u
        >>= (λ r. scan_content scan p.content (record (init_lexer p l) { base_uri = r.1 }))
        >>= λ r. done (s_ok, r.0, r.1))
      (copy_from-authority (generate_uri p.site (integer2str p.port) p.file) a has)
    ∙ ap (λ c. scan_content scan c (lexer_at p) >>= λ r. done (s_ok, r.0, r.1)) e
