-- ===== src/Uri/Referring.antt =====
-- src/uri_lexer.l: uri_merge with uri_combine, for references within the base's server.
use myjfm_spider.Prelude.{
  ℕ, false, true, ◌≡◌, refl, sym, ap, ◌∙◌, Option, none, some, List, [], ◌∷◌, ◌++◌, append_assoc,
  append-nil, codes, done,
}
use myjfm_spider.ResCode.{s_ok}
use myjfm_spider.Utility.Paths.{strdup}
use myjfm_spider.Uri.{
  Authority, server, reg_name, Uri, get_copy, Flags, part, combine_server, uri_merge, uri_combine,
}

abbrev pub all_parts : Flags
all_parts = record {
  c_scheme = true;
  c_authority = true;
  c_userinfo = true;
  c_host = true;
  c_port = true;
  c_reg_name = true;
  c_path = true;
  c_query = true;
  c_fragment = true;
}

-- What stands in front of the path.
abbrev pub server_parts : Flags
server_parts = record all_parts { c_path = false; c_query = false; c_fragment = false }

abbrev pub base_uri : List ℕ → Authority → Option (List ℕ) → Option (List ℕ) → Option (List ℕ) → Uri
base_uri scheme authority path query fragment = record {
  scheme = some scheme;
  path = path;
  authority = some authority;
  query = query;
  fragment = fragment;
}

-- A reference without a scheme and an authority.
abbrev pub reference : List ℕ → Option (List ℕ) → Option (List ℕ) → Uri
reference path query fragment = record {
  scheme = none;
  path = some path;
  authority = none;
  query = query;
  fragment = fragment;
}

pub strdup_lem : (s : Option (List ℕ)) → strdup s ≡ s
unfolding strdup
strdup_lem none = refl
strdup_lem (some s) = refl

pub get_copy_lem : (a : Authority) → get_copy a ≡ a
unfolding get_copy strdup
get_copy_lem (server userinfo host port) =
    ap (λ s. server s (strdup host) (strdup port)) (strdup_lem userinfo)
    ∙ (ap (λ s. server userinfo s (strdup port)) (strdup_lem host)
        ∙ ap (server userinfo host) (strdup_lem port))
get_copy_lem (reg_name name) = ap reg_name (strdup_lem name)

part-masked : (front : List ℕ) (s : Option (List ℕ)) (back : List ℕ) → part false front s back ≡ []
part-masked front none back = refl
part-masked front (some s) back = refl

combine_server-server_parts :
    (a : Authority) → combine_server server_parts a ≡ combine_server all_parts a
combine_server-server_parts (server userinfo host port) = refl
combine_server-server_parts (reg_name name) = refl

-- The text of a URI up to its authority.
front_text : List ℕ → Authority → List ℕ
front_text scheme authority =
    (scheme ++ codes ":") ++ (codes "//" ++ combine_server all_parts authority)

uri_combine-server_parts :
    (scheme : List ℕ) (authority : Authority) (path query fragment : Option (List ℕ))
    → uri_combine server_parts (base_uri scheme authority path query fragment)
      ≡ front_text scheme authority
unfolding uri_combine front_text
uri_combine-server_parts scheme authority path query fragment =
    let start = scheme ++ codes ":" in
    let named = λ (a : List ℕ). codes "//" ++ a in
    let empty : part false [] path []
          ++ (part false (codes "?") query [] ++ part false (codes "#") fragment [])
        ≡ [] =
      rw (
        part-masked [] path [],
        part-masked (codes "?") query [],
        part-masked (codes "#") fragment [],
      ) in
    ap (λ t. start ++ (named (combine_server server_parts authority) ++ t)) empty
    ∙ (ap (λ a. start ++ (named a ++ [])) (combine_server-server_parts authority)
        ∙ ap (λ a. start ++ a) (append-nil (named (combine_server all_parts authority))))

uri_combine-all_parts :
    (scheme : List ℕ) (authority : Authority) (path : List ℕ) (query fragment : Option (List ℕ))
    → uri_combine all_parts (base_uri scheme authority (some path) query fragment)
      ≡ front_text scheme authority ++ uri_combine all_parts (reference path query fragment)
unfolding uri_combine front_text
uri_combine-all_parts scheme authority path query fragment = sym (
    append_assoc (scheme ++ codes ":") (codes "//" ++ combine_server all_parts authority)
      (uri_combine all_parts (reference path query fragment)))

uri_merge-reference :
    (scheme : List ℕ) (authority : Authority) (path query fragment : Option (List ℕ)) (rel : List ℕ)
    (rel_query rel_fragment : Option (List ℕ))
    → uri_merge
        (reference (b'/' ∷ rel) rel_query rel_fragment)
        (base_uri scheme authority path query fragment)
      ≡ done (s_ok, base_uri scheme authority (some (b'/' ∷ rel)) rel_query rel_fragment)
unfolding uri_merge strdup
uri_merge-reference scheme authority path query fragment rel rel_query rel_fragment =
    let merged = λ (a : Authority) (q f : Option (List ℕ)).
      done (s_ok, base_uri scheme a (some (b'/' ∷ rel)) q f) in
    ap (λ a. merged a (strdup rel_query) (strdup rel_fragment)) (get_copy_lem authority)
    ∙ (ap (λ q. merged authority q (strdup rel_fragment)) (strdup_lem rel_query)
        ∙ ap (merged authority rel_query) (strdup_lem rel_fragment))

-- For a base with a scheme and an authority and a reference with neither, whose path begins with a
-- slash: uri_merge answers S_OK, and the text of its result is that of the base up to its authority,
-- followed by the text of the reference.
pub uri_merge-uri_combine :
    (scheme : List ℕ) (authority : Authority) (path query fragment : Option (List ℕ)) (rel : List ℕ)
    (rel_query rel_fragment : Option (List ℕ))
    → let base = base_uri scheme authority path query fragment in
      let ref = reference (b'/' ∷ rel) rel_query rel_fragment in
      (result : Uri) × (uri_merge ref base ≡ done (s_ok, result))
      × (uri_combine all_parts result ≡ uri_combine server_parts base ++ uri_combine all_parts ref)
uri_merge-uri_combine scheme authority path query fragment rel rel_query rel_fragment = (
  base_uri scheme authority (some (b'/' ∷ rel)) rel_query rel_fragment,
  uri_merge-reference scheme authority path query fragment rel rel_query rel_fragment,
  uri_combine-all_parts scheme authority (b'/' ∷ rel) rel_query rel_fragment
      ∙ ap (◌++ uri_combine all_parts (reference (b'/' ∷ rel) rel_query rel_fragment))
          (sym (uri_combine-server_parts scheme authority path query fragment)),
)
