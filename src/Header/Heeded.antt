-- ===== src/Header/Heeded.antt =====
-- src/page.h: `HttpResponseHeader::analysis` on headers whose fields are known.
use myjfm_spider.Prelude.{
  zero, ℤ, ◌==◌, ◌-◌, ◌/◌, ◌%◌, Bool-cases, if◌then◌else◌, ℕ, suc, ◌+◌, ◌<◌, ◌≡◌, refl, ap, ◌∙◌,
  Bool, true, not, ◌&&◌, ◌^◌, some, List, [], ◌∷◌, ◌++◌, arith, done, length, length-append,
  bytes_eq, bytes_eq-differs, codes, inl, inr, ltb, pos, negsuc, to_int32, drop,
}
use myjfm_spider.ResCode.{s_ok}
use myjfm_spider.Utility.{print_digits, to_lower, lower_char, integer2str, str2integer}
use myjfm_spider.Utility.Numbers.{str2integer-integer2str}
use myjfm_spider.Header.{
  HttpResponseHeader, set_field, has_value, key_of, value_of, analysis, before, length_of,
}
use myjfm_spider.Header.Fields.{AllLines, read_lines, read_lines-some}
use myjfm_spider.Header.Analysis.{
  StatusLine, IsStatusLine, print_header, with_status, analysis-read_lines,
}
use myjfm_spider.Header.Written.{
  Field, content_length, chunked, gzip, deflate, close, keep_alive, location, other, name_of,
  content_of, line_of, lines_of, heed, heed_all, IsLower, NoColon, IsUnknown, IsField, AllFields,
}

to_lower-IsLower : (s : List ℕ) → IsLower s → to_lower s ≡ s
unfolding to_lower lower_char
to_lower-IsLower [] p = refl
to_lower-IsLower (c ∷ s) p = ground (arith, to_lower-IsLower s p.1, p.0)

-- A name and a value apart.
pub before-colon : (name rest : List ℕ) → NoColon name → before b':' (name ++ b':' ∷ rest) ≡ name
unfolding before
before-colon [] rest p = refl
before-colon (c ∷ name) rest p = ground (arith, before-colon name rest p.1, p.0)

drop-name : (name value : List ℕ) → drop (length name + 2) (name ++ b':' ∷ b' ' ∷ value) ≡ value
drop-name [] value = refl
drop-name (c ∷ name) value =
    let e : length (c ∷ name) + 2 ≡ suc (length name + 2) = omega arith in
    ap (λ k. drop k ((c ∷ name) ++ b':' ∷ b' ' ∷ value)) e ∙ drop-name name value

module _ (name value : List ℕ) (free : NoColon name) where
  line-has_value : has_value (name ++ b':' ∷ b' ' ∷ value) ≡ true
  unfolding has_value
  line-has_value =
      ap (λ n. ltb (length n + 1) (length (name ++ b':' ∷ b' ' ∷ value)))
        (before-colon name (b' ' ∷ value) free)
      ∙ ground (arith, length-append name (b':' ∷ b' ' ∷ value))

  line-set_field :
      (h : HttpResponseHeader)
      → set_field (key_of (name ++ b':' ∷ b' ' ∷ value)) (value_of (name ++ b':' ∷ b' ' ∷ value)) h
        ≡ set_field (to_lower name) (to_lower value) h
  line-set_field h =
      let colon = before-colon name (b' ' ∷ value) free in
      ap
        (λ n.
          set_field (to_lower n) (to_lower (drop (length n + 2) (name ++ b':' ∷ b' ' ∷ value))) h)
        colon
      ∙ ap (λ v. set_field (to_lower name) (to_lower v) h) (drop-name name value)

IsLower-append : (s t : List ℕ) → IsLower s → IsLower t → IsLower (s ++ t)
IsLower-append [] t p q = q
IsLower-append (c ∷ s) t p q = (p.0, IsLower-append s t p.1 q)

IsLower-print_digits : (fuel n : ℕ) → IsLower (print_digits fuel n)
unfolding print_digits
IsLower-print_digits zero n = tt
IsLower-print_digits (suc fuel) n = elim (Bool-cases (ltb n 10)) [
  | inl e ↦ rw e (inl (ground (arith, e)), tt)
  | inr e ↦ rw e (
      IsLower-append (print_digits fuel (n / 10)) ((b'0' + n % 10) ∷ [])
        (IsLower-print_digits fuel (n / 10)) (inl (omega arith), tt))
]

-- The number of a content length is read back.
length_of-integer2str :
    (n : ℕ) (old : ℤ)
    → n < 2 ^ 31
    → length_of (str2integer (2 ^ 32 - 1) (some (to_lower (integer2str n)))) old ≡ pos n
length_of-integer2str n old small =
    let digits : IsLower (integer2str n) = unfold integer2str in IsLower-print_digits (suc n) n in
    let e : ltb n (2 ^ 31) ≡ true = ground (arith, small) in
    ap (λ s. length_of (str2integer (2 ^ 32 - 1) (some s)) old)
      (to_lower-IsLower (integer2str n) digits)
    ∙ ap (λ o. length_of o old) (str2integer-integer2str (2 ^ 32 - 1) n (omega (arith, small)))
    ∙ unfold to_int32 in ap (λ b. if b then pos n else negsuc (2 ^ 32 - n - 1)) e

set_field-other :
    (name value : List ℕ) (h : HttpResponseHeader)
    → IsUnknown name
    → set_field name value h ≡ some h
unfolding set_field
set_field-other name value h is =
    rw
      (
        bytes_eq-differs name (codes "content-length") is.not_length,
        bytes_eq-differs name (codes "content-type") is.not_type,
        bytes_eq-differs name (codes "content-encoding") is.not_encoding,
        bytes_eq-differs name (codes "transfer-encoding") is.not_transfer,
        bytes_eq-differs name (codes "location") is.not_location,
        bytes_eq-differs name (codes "connection") is.not_connection,
      )
      refl

set_field-heed :
    (f : Field) (h : HttpResponseHeader)
    → IsField f
    → set_field (to_lower (name_of f)) (to_lower (content_of f)) h ≡ some (heed f h)
unfolding set_field bytes_eq to_lower lower_char
set_field-heed (content_length n) h is =
    ap (λ z. some (record h { content_length = z })) (length_of-integer2str n h.content_length is)
set_field-heed chunked h is = refl
set_field-heed gzip h is = refl
set_field-heed deflate h is = refl
set_field-heed close h is = refl
set_field-heed keep_alive h is = refl
set_field-heed (location url) h is =
    ap (λ u. some (record h { location = u })) (to_lower-IsLower url is)
set_field-heed (other name value) h is =
    ap (λ n. set_field n (to_lower value) h) (to_lower-IsLower name is.lower)
    ∙ set_field-other name (to_lower value) h is

-- Whether a name has no colon.
abbrev lacks_colon : List ℕ → Bool
lacks_colon [] = true
lacks_colon (c ∷ s) = not (c == b':') && lacks_colon s

lacks_colon-NoColon : (s : List ℕ) → lacks_colon s ≡ true → NoColon s
lacks_colon-NoColon [] e = tt
lacks_colon-NoColon (c ∷ s) e =
    let rest : lacks_colon s ≡ true = ground (arith, e) in
    (ground (arith, e), lacks_colon-NoColon s rest)

IsField-NoColon : (f : Field) → IsField f → NoColon (name_of f)
IsField-NoColon (content_length n) is = lacks_colon-NoColon (codes "Content-Length") refl
IsField-NoColon chunked is = lacks_colon-NoColon (codes "Transfer-Encoding") refl
IsField-NoColon gzip is = lacks_colon-NoColon (codes "Content-Encoding") refl
IsField-NoColon deflate is = lacks_colon-NoColon (codes "Content-Encoding") refl
IsField-NoColon close is = lacks_colon-NoColon (codes "Connection") refl
IsField-NoColon keep_alive is = lacks_colon-NoColon (codes "Connection") refl
IsField-NoColon (location url) is = lacks_colon-NoColon (codes "Location") refl
IsField-NoColon (other name value) is = is.no_colon

line-pos : (f : Field) → 0 < length (line_of f)
line-pos f = omega (arith, length-append (name_of f) (b':' ∷ b' ' ∷ content_of f))

AllFields-AllLines : (fs : List Field) → AllFields fs → AllLines (lines_of fs)
AllFields-AllLines [] all = tt
AllFields-AllLines (f ∷ fs) all = (line-pos f, all.1, AllFields-AllLines fs all.2)

length-lines_of : (fs : List Field) → length (lines_of fs) ≡ length fs
length-lines_of [] = refl
length-lines_of (f ∷ fs) = omega (arith, length-lines_of fs)

read_lines-heed_all :
    (fs : List Field) (h : HttpResponseHeader)
    → AllFields fs
    → read_lines (lines_of fs) h ≡ done (s_ok, heed_all fs h)
read_lines-heed_all [] h all = unfold read_lines in refl
read_lines-heed_all (f ∷ fs) h all =
    let free = IsField-NoColon f all.0 in
    read_lines-some (line_of f) (lines_of fs) h (heed f h)
      (line-has_value (name_of f) (content_of f) free)
      (line-set_field (name_of f) (content_of f) free h ∙ set_field-heed f h all.0)
    ∙ read_lines-heed_all fs (heed f h) all.2

-- A header of a status line and fields, each a name, a colon, a blank and a value, the last without a
-- line feed: content lengths below 2 ^ 31, the transfer coding chunked, the content encodings gzip and
-- deflate, the connections close and Keep-Alive, locations without a letter of upper case, and fields
-- of other names in lower case. With fuel for more rounds than there are fields, analysis returns S_OK
-- with the version and the status of the first line and what the fields say one after another (a
-- length or none, an encoding, a connection to be closed, a location), the header being valid whatever
-- the status is.
pub analysis-heed_all :
    (fuel : ℕ) (s : StatusLine) (fs : List Field) (h : HttpResponseHeader)
    → IsStatusLine s
    → AllFields fs
    → length fs < fuel
    → analysis fuel (some (print_header s (lines_of fs))) h
      ≡ done (s_ok, heed_all fs (with_status s h))
analysis-heed_all fuel s fs h ok all enough =
    analysis-read_lines fuel s (lines_of fs) h ok (AllFields-AllLines fs all)
      (omega (arith, length-lines_of fs, enough))
    ∙ read_lines-heed_all fs (with_status s h) all
