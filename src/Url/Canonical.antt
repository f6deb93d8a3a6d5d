-- ===== src/Url/Canonical.antt =====
-- src/url.cc: the text of which get_md5 takes the digest.
use myjfm_spider.Prelude.{
  ℕ, ◌^◌, ◌<◌, ◌≡◌, ◌↔◌, refl, sym, ap, ◌∙◌, Option, none, some, List, [], ◌∷◌, ◌++◌, arith, ◌==◌,
  if◌then◌else◌, codes,
}
use myjfm_spider.ResCode.{ResCode, s_ok}
use myjfm_spider.Md5.{Md5Caculator, calculator_of, digest}
use myjfm_spider.Url.{Url, parsed, url_new, port_text, canonical, get_md5}
use myjfm_spider.Url.Finding.{print_port, print_url, port_or_80, file_or_slash, IsSite, IsPort}
use myjfm_spider.Url.Parsing.{url_new-print_url}

-- Port 0 counts as port 80.
abbrev pub effective : ℕ → ℕ
effective p = if p == 0 then 80 else p

abbrev shown : ℕ → Option ℕ
shown p = if p == 0 then none else if p == 80 then none else some p

port_text-shown : (p : ℕ) → port_text p ≡ print_port (shown p)
port_text-shown p = ground arith

port_or_80-shown : (p : ℕ) → port_or_80 (shown p) ≡ effective p
port_or_80-shown p = ground arith

IsPort-shown : (p : ℕ) → p < 2 ^ 16 → IsPort (shown p)
IsPort-shown p small = ground arith

-- The same port, effectively, is shown in the same way.
shown_eq : (p q : ℕ) → effective p ≡ effective q → shown p ≡ shown q
shown_eq p q e = ground (arith, e)

-- What a url is written from.
pub record Parts : Type 0 where
  pub site : List ℕ
  pub port : Option ℕ
  pub file : Option (List ℕ)

abbrev pub IsParts : Parts → Type 0
IsParts x = IsSite x.site × IsPort x.port

abbrev pub text_of : Parts → List ℕ
text_of x = print_url x.site x.port x.file

abbrev pub path_of : Option (List ℕ) → List ℕ
path_of none = []
path_of (some path) = path

abbrev canonical_parts : Parts → Parts
canonical_parts x = record {
  site = x.site;
  port = shown (port_or_80 x.port);
  file = some (path_of x.file);
}

file_or_slash-path_of : (file : Option (List ℕ)) → file_or_slash file ≡ b'/' ∷ path_of file
file_or_slash-path_of none = refl
file_or_slash-path_of (some path) = refl

canonical-url_new :
    (x : Parts) → IsParts x → canonical (url_new (text_of x)) ≡ text_of (canonical_parts x)
unfolding canonical print_url
canonical-url_new x ok =
    rw
      (
        url_new-print_url x.site x.port x.file ok.0 ok.1,
        port_text-shown (port_or_80 x.port),
        file_or_slash-path_of x.file,
      )
      refl

IsPort-port_or_80 : (port : Option ℕ) → IsPort port → port_or_80 port < 2 ^ 16
IsPort-port_or_80 none ok = omega arith
IsPort-port_or_80 (some p) ok = ok

url_new-canonical_parts :
    (x : Parts)
    → IsParts x
    → url_new (text_of (canonical_parts x))
      ≡ parsed
          (text_of (canonical_parts x))
          x.site
          (port_or_80 (shown (port_or_80 x.port)))
          (b'/' ∷ path_of x.file)
url_new-canonical_parts x ok =
    url_new-print_url x.site (shown (port_or_80 x.port)) (some (path_of x.file)) ok.0
      (IsPort-shown (port_or_80 x.port) (IsPort-port_or_80 x.port ok.1))

-- The same address: the site, the port with 80 for none and for 0, the file with "/" for none.
abbrev pub Same : Parts → Parts → Type 0
Same x y =
    (x.site ≡ y.site)
    × (effective (port_or_80 x.port) ≡ effective (port_or_80 y.port))
    × (file_or_slash x.file ≡ file_or_slash y.file)

address : List ℕ → Option ℕ → List ℕ → List ℕ
address site port file = codes "http://" ++ (site ++ (print_port port ++ file))

canonical-url_new_parts :
    (x : Parts)
    → IsParts x
    → canonical (url_new (text_of x))
      ≡ address x.site (shown (port_or_80 x.port)) (file_or_slash x.file)
unfolding canonical address
canonical-url_new_parts x ok =
    rw (url_new-print_url x.site x.port x.file ok.0 ok.1, port_text-shown (port_or_80 x.port)) refl

address_eq :
    (x y : Parts)
    → Same x y
    → address x.site (shown (port_or_80 x.port)) (file_or_slash x.file)
      ≡ address y.site (shown (port_or_80 y.port)) (file_or_slash y.file)
address_eq x y same =
    let shown = shown_eq (port_or_80 x.port) (port_or_80 y.port) same.1 in
    cc (same.0, shown, same.2)

get_md5-parsed :
    (stack : Md5Caculator) (u : Url) (raw site : List ℕ) (port : ℕ) (file : List ℕ)
    → u ≡ parsed raw site port file
    → (get_md5 stack u).0 ≡ (s_ok, (digest (calculator_of stack (canonical u))).0)
unfolding get_md5
get_md5-parsed stack u raw site port file e = rw e refl

pub get_md5-url_new :
    (stack : Md5Caculator) (x : Parts)
    → IsParts x
    → (get_md5 stack (url_new (text_of x))).0
      ≡ (s_ok, (digest (calculator_of stack (canonical (url_new (text_of x))))).0)
get_md5-url_new stack x ok =
    get_md5-parsed stack (url_new (text_of x)) (text_of x) x.site (port_or_80 x.port)
      (file_or_slash x.file) (url_new-print_url x.site x.port x.file ok.0 ok.1)

-- Two urls written from a site, a port or none, and a path or none: the texts of which get_md5 takes
-- the digest are equal exactly when the sites are, the files are (with "/" for none), and the ports
-- are, where none and 0 count as 80.
pub canonical-url_new_iff :
    (x y : Parts)
    → IsParts x
    → IsParts y
    → (canonical (url_new (text_of x)) ≡ canonical (url_new (text_of y))) ↔ Same x y
canonical-url_new_iff x y okx oky =
    let read : text_of (canonical_parts x) ≡ text_of (canonical_parts y) → Same x y = λ e.
      let urls =
        sym (url_new-canonical_parts x okx) ∙ ap url_new e ∙ url_new-canonical_parts y oky in
      (
        ap (λ (u : Url). u.site) urls,
        sym (port_or_80-shown (port_or_80 x.port))
            ∙ ap (λ (u : Url). u.port) urls
            ∙ port_or_80-shown (port_or_80 y.port),
        file_or_slash-path_of x.file
            ∙ ap (λ (u : Url). u.file) urls
            ∙ sym (file_or_slash-path_of y.file),
      ) in
    (
      λ e. read (sym (canonical-url_new x okx) ∙ e ∙ canonical-url_new y oky),
      λ same.
          canonical-url_new_parts x okx ∙ address_eq x y same ∙ sym (canonical-url_new_parts y oky),
    )

-- New urls of the same address have the same result of get_md5, whatever stands in the memory of the
-- calculator.
pub get_md5-Same :
    (stack : Md5Caculator) (x y : Parts)
    → IsParts x
    → IsParts y
    → Same x y
    → (get_md5 stack (url_new (text_of x))).0 ≡ (get_md5 stack (url_new (text_of y))).0
get_md5-Same stack x y okx oky same =
    let value : List ℕ → ResCode × List ℕ = λ c. (s_ok, (digest (calculator_of stack c)).0) in
    get_md5-url_new stack x okx
    ∙ ap value ((canonical-url_new_iff x y okx oky).1 same)
    ∙ sym (get_md5-url_new stack y oky)
