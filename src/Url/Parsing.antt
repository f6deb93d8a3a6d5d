-- ===== src/Url/Parsing.antt =====
-- src/url.cc: the constructor reads back the urls that are written from a site, a port and a file.
use myjfm_spider.Prelude.{
  ℕ, ◌+◌, ◌-◌, ◌^◌, ◌<◌, ◌≡◌, inl, inr, sym, ap, ◌∙◌, true, false, Option, none, some, List, ◌∷◌,
  ◌++◌, append-nil, append_assoc, arith, ltb, leb, length, length-append, drop, take-length,
  drop-length, codes, bytes_eq_refl,
}
use myjfm_spider.Utility.{integer2str}
use myjfm_spider.Url.{find, parsed, parse, url_new}
use myjfm_spider.Url.Finding.{
  print_url, port_or_80, file_or_slash, IsSite, IsPort, find-Free, find-append, AllDigits-Free,
  AllDigits-integer2str, read_port-integer2str, Free-append, drop-suc, find-cases, find-pos,
}

module _ (url site : List ℕ) (ok : IsSite site) where
  -- No port and no file.
  parse-site : parse url (find b'/' site) site ≡ parsed url site 80 (codes "/")
  parse-site = rw (find-Free b'/' site ok.1, find-Free b':' site ok.2)

  -- A port and no file.
  parse-site_port :
      (p : ℕ)
      → p < 2 ^ 16
      → parse url (find b'/' (site ++ b':' ∷ integer2str p)) (site ++ b':' ∷ integer2str p)
        ≡ parsed url site p (codes "/")
  parse-site_port p small =
      let digits = AllDigits-integer2str p in
      let s = site ++ b':' ∷ integer2str p in
      let slash : find b'/' s ≡ none = find-Free b'/' s (
        Free-append b'/' site (b':' ∷ integer2str p) ok.1
          (omega arith, AllDigits-Free b'/' (integer2str p) (inl (omega arith)) digits)) in
      let colon : find b':' s ≡ some (length site) = find-append b':' site (integer2str p) ok.2 in
      rw (
        slash,
        colon,
        take-length site (b':' ∷ integer2str p),
        drop-suc site b':' (integer2str p),
        read_port-integer2str p small,
      )

  -- A file and no port.
  parse-site_file :
      (path : List ℕ)
      → parse url (find b'/' (site ++ b'/' ∷ path)) (site ++ b'/' ∷ path)
        ≡ parsed url site 80 (b'/' ∷ path)
  parse-site_file path =
      let s = site ++ b'/' ∷ path in
      let slash : find b'/' s ≡ some (length site) = find-append b'/' site path ok.1 in
      elim (find-cases b':' site (b'/' ∷ path) ok.2) [
        | inl e ↦ rw (slash, e, take-length site (b'/' ∷ path), drop-length site (b'/' ∷ path))
        | inr (j, e, f) ↦
            let pos = find-pos b':' b'/' path j (omega arith) f in
            let lt : ltb (length site) (length site + j) ≡ true = ground arith in
            rw (slash, e, lt, take-length site (b'/' ∷ path), drop-length site (b'/' ∷ path))
      ]

  -- A port and a file.
  parse-whole :
      (p : ℕ) (path : List ℕ)
      → p < 2 ^ 16
      → parse url
          (find b'/' (site ++ b':' ∷ (integer2str p ++ b'/' ∷ path)))
          (site ++ b':' ∷ (integer2str p ++ b'/' ∷ path))
        ≡ parsed url site p (b'/' ∷ path)
  parse-whole p path small =
      let ds = integer2str p in
      let back = b'/' ∷ path in
      let s = site ++ b':' ∷ (ds ++ back) in
      let front = site ++ b':' ∷ ds in
      let whole : s ≡ front ++ back = sym (append_assoc site (b':' ∷ ds) back) in
      let no_slash =
        Free-append b'/' site (b':' ∷ ds) ok.1
          (omega arith, AllDigits-Free b'/' ds (inl (omega arith)) (AllDigits-integer2str p)) in
      let slash : find b'/' s ≡ some (length front) =
        ap (find b'/') whole ∙ find-append b'/' front path no_slash in
      let colon : find b':' s ≡ some (length site) = find-append b':' site (ds ++ back) ok.2 in
      let size = length-append site (b':' ∷ ds) in
      let after : ltb (length front) (length site) ≡ false = ground (arith, size) in
      let digits : length front - length site - 1 ≡ length ds = omega (arith, size) in
      let tail : drop (length front) s ≡ back =
        ap (drop (length front)) whole ∙ drop-length front back in
      rw (
        slash,
        colon,
        after,
        take-length site (b':' ∷ (ds ++ back)),
        drop-suc site b':' (ds ++ back),
        digits,
        take-length ds back,
        read_port-integer2str p small,
        tail,
      )

url_new-http :
    (s : List ℕ)
    → 0 < length s
    → url_new (codes "http://" ++ s) ≡ parse (codes "http://" ++ s) (find b'/' s) s
unfolding url_new
url_new-http s some_site =
    let long : leb (length (codes "http://" ++ s)) 7 ≡ false = ground arith in
    rw (long, bytes_eq_refl (codes "http://"))

IsSite-pos : (site back : List ℕ) → IsSite site → 0 < length (site ++ back)
IsSite-pos site back ok = omega (arith, length-append site back, ok.0)

-- For a site that is not empty and has no slash and no colon, a port below 2 ^ 16 or none, and a
-- path or none: the url written from them is read back as that site, with the port or 80 and with the
-- path behind its slash or "/".
pub url_new-print_url :
    (site : List ℕ) (port : Option ℕ) (file : Option (List ℕ))
    → IsSite site
    → IsPort port
    → url_new (print_url site port file)
      ≡ parsed (print_url site port file) site (port_or_80 port) (file_or_slash file)
unfolding print_url
url_new-print_url site none none ok small =
    rw (append-nil site) (url_new-http site ok.0 ∙ parse-site (codes "http://" ++ site) site ok)
url_new-print_url site none (some path) ok small =
    let s = site ++ b'/' ∷ path in
    url_new-http s (IsSite-pos site (b'/' ∷ path) ok)
    ∙ parse-site_file (codes "http://" ++ s) site ok path
url_new-print_url site (some p) none ok small =
    let s = site ++ b':' ∷ integer2str p in
    rw (append-nil (integer2str p)) (
      url_new-http s (IsSite-pos site (b':' ∷ integer2str p) ok)
      ∙ parse-site_port (codes "http://" ++ s) site ok p small)
url_new-print_url site (some p) (some path) ok small =
    let s = site ++ b':' ∷ (integer2str p ++ b'/' ∷ path) in
    url_new-http s (IsSite-pos site (b':' ∷ (integer2str p ++ b'/' ∷ path)) ok)
    ∙ parse-whole (codes "http://" ++ s) site ok p path small
