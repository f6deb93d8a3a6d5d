-- ===== src/Header/Analysis.antt =====
-- src/page.h: `HttpResponseHeader::analysis` on whole headers.
use myjfm_spider.Prelude.{
  ℕ, ◌+◌, ◌*◌, ◌≤◌, ◌<◌, ◌≡◌, refl, ◌∙◌, Bool, true, false, Option, some, List, [], ◌∷◌, ◌++◌,
  arith, done, out_of_fuel, length, length-append, bytes_eq, bytes_eq_refl, codes, inl, inr,
  if◌then◌else◌, ltb,
}
use myjfm_spider.ResCode.{s_ok}
use myjfm_spider.Header.{
  HttpResponseHeader, set_field, has_value, key_of, value_of, line_loop, analysis, analysis_status,
  status_of, behind,
}
use myjfm_spider.Utility.{is_digit}
use myjfm_spider.Header.Fields.{
  AllLines, IsLine, text, read_lines, line_loop-Follows, read_lines-some, read_lines-stuck,
  behind-line,
}

-- The result is a header with the version and the status of `h`.
abbrev pub Keeps : HttpResponseHeader → Option HttpResponseHeader → Type 0
Keeps h r =
    (x : HttpResponseHeader) × (r ≡ some x)
    × (x.http_version ≡ h.http_version)
    × (x.status_code ≡ h.status_code)

if-Keeps :
    (h : HttpResponseHeader) (b : Bool) (x : HttpResponseHeader) (r : Option HttpResponseHeader)
    → x.http_version ≡ h.http_version
    → x.status_code ≡ h.status_code
    → Keeps h r
    → Keeps h (if b then some x else r)
if-Keeps h false x r p q s = s
if-Keeps h true x r p q s = (x, refl, p, q)

-- A field that does not concern the transfer coding is always taken.
set_field-Keeps :
    (key value : List ℕ) (h : HttpResponseHeader)
    → bytes_eq key (codes "transfer-encoding") ≡ false
    → Keeps h (set_field key value h)
unfolding set_field
set_field-Keeps key value h other = rw other (
    if-Keeps h (bytes_eq key (codes "content-length")) _ _ refl refl (
      if-Keeps h (bytes_eq key (codes "content-type")) _ _ refl refl (
        if-Keeps h (bytes_eq key (codes "content-encoding")) _ _ refl refl (
          if-Keeps h (bytes_eq key (codes "location")) _ _ refl refl
            (if-Keeps h (bytes_eq key (codes "connection")) _ _ refl refl (h, refl, refl, refl))))))

-- A line with a value whose field is not the transfer coding.
abbrev pub IsAccepted : List ℕ → Type 0
IsAccepted l = (has_value l ≡ true) × (bytes_eq (key_of l) (codes "transfer-encoding") ≡ false)

abbrev pub AllAccepted : List (List ℕ) → Type 0
AllAccepted [] = Unit {0}
AllAccepted (l ∷ ls) = IsAccepted l × AllAccepted ls

read_lines-accepted :
    (ls : List (List ℕ)) (h : HttpResponseHeader)
    → AllAccepted ls
    → (x : HttpResponseHeader) × (read_lines ls h ≡ done (s_ok, x))
      × (x.is_valid ≡ true)
      × (x.http_version ≡ h.http_version)
      × (x.status_code ≡ h.status_code)
read_lines-accepted [] h all =
    (record h { is_valid = true }, unfold read_lines in refl, refl, refl, refl)
read_lines-accepted (l ∷ ls) h all =
    let (h', e, v, s) = set_field-Keeps (key_of l) (value_of l) h all.0.1 in
    let (x, r, valid, v', s') = read_lines-accepted ls h' all.1 in
    (x, read_lines-some l ls h h' all.0.0 e ∙ r, valid, v' ∙ v, s' ∙ s)

read_lines-hangs :
    (ls : List (List ℕ)) (bad : List ℕ) (rest : List (List ℕ)) (h : HttpResponseHeader)
    → AllAccepted ls
    → has_value bad ≡ false
    → read_lines (ls ++ bad ∷ rest) h ≡ out_of_fuel
read_lines-hangs [] bad rest h all v = read_lines-stuck bad rest h v
read_lines-hangs (l ∷ ls) bad rest h all v =
    let (h', e, _, _) = set_field-Keeps (key_of l) (value_of l) h all.0.1 in
    read_lines-some l (ls ++ bad ∷ rest) h h' all.0.0 e ∙ read_lines-hangs ls bad rest h' all.1 v

-- A status line: the version 1.1 or 1.0, any byte, three digits, a space and the reason.
abbrev pub version_text : Bool → List ℕ
version_text false = codes "HTTP/1.0"
version_text true = codes "HTTP/1.1"

abbrev pub minor : Bool → ℕ
minor false = 0
minor true = 1

pub record StatusLine : Type 0 where
  pub is_1_1 : Bool
  pub gap : ℕ
  pub digit1 : ℕ
  pub digit2 : ℕ
  pub digit3 : ℕ
  pub reason : List ℕ

-- Digits below 10, and a reason of two bytes or more.
abbrev pub IsStatusLine : StatusLine → Type 0
IsStatusLine s =
    (s.digit1 < 10) × (s.digit2 < 10) × (s.digit3 < 10) × IsLine s.reason × (2 ≤ length s.reason)

-- A whole header: the status line and the lines, as they come from the socket.
abbrev pub print_status : StatusLine → List ℕ → List ℕ
print_status s rest =
    (b'0' + s.digit1) ∷ (b'0' + s.digit2) ∷ (b'0' + s.digit3) ∷ b' ' ∷ (s.reason ++ b'\n' ∷ rest)

unfoldable pub print_header : StatusLine → List (List ℕ) → List ℕ
print_header s ls = version_text s.is_1_1 ++ s.gap ∷ print_status s (text ls)

-- The header after its first line.
abbrev pub with_status : StatusLine → HttpResponseHeader → HttpResponseHeader
with_status s h = record h {
  http_version = minor s.is_1_1;
  status_code = 100 * s.digit1 + 10 * s.digit2 + s.digit3;
}

status_of-print :
    (s : StatusLine) (rest : List ℕ)
    → IsStatusLine s
    → status_of (print_status s rest) ≡ some (100 * s.digit1 + 10 * s.digit2 + s.digit3)
unfolding status_of is_digit
status_of-print s rest ok = ground (arith, ok.0, ok.1, ok.2)

behind-print :
    (s : StatusLine) (rest : List ℕ)
    → IsStatusLine s
    → behind b'\n' (print_status s rest) ≡ some rest
behind-print s rest ok =
    behind-line ((b'0' + s.digit1) ∷ (b'0' + s.digit2) ∷ (b'0' + s.digit3) ∷ b' ' ∷ s.reason) rest
      (omega arith, (omega arith, (omega arith, (omega arith, ok.3))))

analysis_status-loop :
    (fuel : ℕ) (s : StatusLine) (rest : List ℕ) (h : HttpResponseHeader)
    → IsStatusLine s
    → analysis_status fuel h (print_status s rest)
      ≡ line_loop fuel
          (record h { status_code = 100 * s.digit1 + 10 * s.digit2 + s.digit3 })
          rest
          (length rest)
unfolding analysis_status
analysis_status-loop fuel s rest h ok =
    rw (analysis_status, status_of-print s rest ok, behind-print s rest ok)

length-print : (s : StatusLine) (rest : List ℕ) → IsStatusLine s → 7 ≤ length (print_status s rest)
length-print s rest ok = omega (arith, length-append s.reason (b'\n' ∷ rest))

analysis_version :
    (v : Bool) (fuel gap : ℕ) (rest : List ℕ) (h : HttpResponseHeader)
    → 7 ≤ length rest
    → analysis fuel (some (version_text v ++ gap ∷ rest)) h
      ≡ analysis_status fuel (record h { http_version = minor v }) rest
unfolding analysis
analysis_version true fuel gap rest h long =
    let size : ltb (length (version_text true ++ gap ∷ rest)) 16 ≡ false = ground arith in
    rw (size, bytes_eq_refl (codes "HTTP/1.1"))
analysis_version false fuel gap rest h long =
    let size : ltb (length (version_text false ++ gap ∷ rest)) 16 ≡ false = ground arith in
    let new : bytes_eq (codes "HTTP/1.0") (codes "HTTP/1.1") ≡ false = unfold bytes_eq in refl in
    rw (size, new, bytes_eq_refl (codes "HTTP/1.0"))

-- With any fuel, `analysis` comes to the loop over the lines.
analysis-loop :
    (fuel : ℕ) (s : StatusLine) (ls : List (List ℕ)) (h : HttpResponseHeader)
    → IsStatusLine s
    → analysis fuel (some (print_header s ls)) h
      ≡ line_loop fuel (with_status s h) (text ls) (length (text ls))
unfolding print_header
analysis-loop fuel s ls h ok =
    analysis_version s.is_1_1 fuel s.gap (print_status s (text ls)) h (length-print s (text ls) ok)
    ∙ analysis_status-loop fuel s (text ls) (record h { http_version = minor s.is_1_1 }) ok

-- A header of a status line and lines, the last without a line feed: with fuel for more rounds than
-- there are lines, `analysis` comes to reading the lines in turn with the version and the status of
-- the first line.
pub analysis-read_lines :
    (fuel : ℕ) (s : StatusLine) (ls : List (List ℕ)) (h : HttpResponseHeader)
    → IsStatusLine s
    → AllLines ls
    → length ls < fuel
    → analysis fuel (some (print_header s ls)) h ≡ read_lines ls (with_status s h)
analysis-read_lines fuel s ls h ok all enough =
    elim (line_loop-Follows ls fuel (with_status s h) all) [
      | inl e ↦ analysis-loop fuel s ls h ok ∙ e
      | inr (few, e) ↦ absurd (omega arith)
    ]

-- A header whose lines all have a value and leave the transfer coding alone: with fuel for more
-- rounds than there are lines, `analysis` returns S_OK with a valid header that has the version and
-- the status of the first line.
analysis-accepted :
    (fuel : ℕ) (s : StatusLine) (ls : List (List ℕ)) (h : HttpResponseHeader)
    → IsStatusLine s
    → AllLines ls
    → AllAccepted ls
    → length ls < fuel
    → (x : HttpResponseHeader) × (analysis fuel (some (print_header s ls)) h ≡ done (s_ok, x))
      × (x.is_valid ≡ true)
      × (x.http_version ≡ minor s.is_1_1)
      × (x.status_code ≡ 100 * s.digit1 + 10 * s.digit2 + s.digit3)
analysis-accepted fuel s ls h ok all accepted enough =
    let (x, e, valid, version, status) = read_lines-accepted ls (with_status s h) accepted in
    (x, analysis-read_lines fuel s ls h ok all enough ∙ e, valid, version, status)

-- A header in which accepted lines come first and then a line without a colon, or with nothing
-- behind its first colon: `analysis` runs out of fuel whatever the fuel is, so the loop of
-- the code never ends.
pub analysis-hangs :
    (fuel : ℕ) (s : StatusLine) (ls : List (List ℕ)) (bad : List ℕ) (rest : List (List ℕ))
    (h : HttpResponseHeader)
    → IsStatusLine s
    → AllLines (ls ++ bad ∷ rest)
    → AllAccepted ls
    → has_value bad ≡ false
    → analysis fuel (some (print_header s (ls ++ bad ∷ rest))) h ≡ out_of_fuel
analysis-hangs fuel s ls bad rest h ok all accepted v =
    analysis-loop fuel s (ls ++ bad ∷ rest) h ok
    ∙ elim (line_loop-Follows (ls ++ bad ∷ rest) fuel (with_status s h) all) [
      | inl e ↦ e ∙ read_lines-hangs ls bad rest (with_status s h) accepted v
      | inr (few, e) ↦ e
    ]
