-- ===== src/Tests/Headers.antt =====
-- Runs of `HttpResponseHeader::analysis` of src/page.h, and the theorems on it applied.
use myjfm_spider.Prelude.{
  Bool, not, ◌&&◌, ◌||◌, ◌==◌, ltb, ℕ, ◌≡◌, refl, true, false, some, List, [], ◌∷◌, done, arith,
  codes, bytes_eq, to_int32,
}
use myjfm_spider.ResCode.{s_ok}
use myjfm_spider.Utility.{
  integer2str, print_digits, to_lower, lower_char, is_digit, str2integer, read_unsigned, ltrim,
  read_digits, is_space,
}
use myjfm_spider.Header.{
  HttpResponseHeader, header_new, analysis, analysis_status, status_of, line_loop, has_value,
  before, behind, set_field,
}
use myjfm_spider.Header.Fields.{AllLines, IsLine}
use myjfm_spider.Header.Analysis.{StatusLine, IsStatusLine, print_header, with_status}
use myjfm_spider.Header.Written.{
  Field, content_length, chunked, gzip, close, location, other, IsLower, IsUnknown, AllFields,
  line_of, lines_of, heed_all,
}
use myjfm_spider.Header.Heeded.{analysis-heed_all}

abbrev status_ok : StatusLine
status_ok = record {
  is_1_1 = false;
  gap = b' ';
  digit1 = 2;
  digit2 = 0;
  digit3 = 0;
  reason = codes "OK";
}

abbrev line_a : List ℕ
line_a = codes "A: 1"

abbrev line_length : List ℕ
line_length = codes "Content-Length: 42"

abbrev line_bad : List ℕ
line_bad = codes "B"

-- A header with a length is read to its end.
length_is_read :
    (h : HttpResponseHeader) × (analysis 9
        (some (codes "HTTP/1.1 200 OK\nContent-Length: 42\nA: 1"))
        header_new
      ≡ done (s_ok, h))
    × (h.content_length ≡ to_int32 42)
    × (h.status_code ≡ 200)
unfolding analysis analysis_status status_of line_loop has_value before behind set_field bytes_eq
    to_lower is_digit str2integer read_unsigned ltrim read_digits is_space lower_char
length_is_read = (
  record header_new { is_valid = true; status_code = 200; content_length = to_int32 42 },
  refl,
  refl,
  refl,
)

status_ok-IsStatusLine : IsStatusLine status_ok
status_ok-IsStatusLine =
    (omega arith, omega arith, omega arith, (omega arith, (omega arith, tt)), omega arith)

line_a-IsLine : IsLine line_a
line_a-IsLine = (omega arith, (omega arith, (omega arith, (omega arith, tt))))

some_lines : AllLines (line_a ∷ [])
some_lines = (omega arith, line_a-IsLine, tt)

abbrev fields : List Field
fields =
    content_length 42
    ∷ gzip
    ∷ close
    ∷ location (codes "http://a.b/")
    ∷ other (codes "a") (codes "1")
    ∷ chunked
    ∷ []

-- Whether a byte does not stand in a text.
abbrev lacks_line_feed : List ℕ → Bool
lacks_line_feed [] = true
lacks_line_feed (c ∷ s) = not (c == b'\n') && lacks_line_feed s

lacks_line_feed-IsLine : (s : List ℕ) → lacks_line_feed s ≡ true → IsLine s
lacks_line_feed-IsLine [] e = tt
lacks_line_feed-IsLine (c ∷ s) e =
    let rest : lacks_line_feed s ≡ true = ground (arith, e) in
    (ground (arith, e), lacks_line_feed-IsLine s rest)

abbrev all_small : List ℕ → Bool
all_small [] = true
all_small (c ∷ s) = (ltb c b'A' || ltb b'Z' c) && all_small s

all_small-IsLower : (s : List ℕ) → all_small s ≡ true → IsLower s
all_small-IsLower [] e = tt
all_small-IsLower (c ∷ s) e =
    let rest : all_small s ≡ true = ground (arith, e) in
    (ground (arith, e), all_small-IsLower s rest)

name_a-IsUnknown : IsUnknown (codes "a")
name_a-IsUnknown = record {
  lower = all_small-IsLower (codes "a") refl;
  no_colon = (omega arith, tt);
  not_length = λ e. cc;
  not_type = λ e. cc;
  not_encoding = λ e. cc;
  not_transfer = λ e. cc;
  not_location = λ e. cc;
  not_connection = λ e. cc;
}

fields-AllFields : AllFields fields
unfolding integer2str print_digits
fields-AllFields = (
  omega arith,
  lacks_line_feed-IsLine (line_of (content_length 42)) refl,
  (
    tt,
    lacks_line_feed-IsLine (line_of (gzip)) refl,
    (
      tt,
      lacks_line_feed-IsLine (line_of (close)) refl,
      (
        all_small-IsLower (codes "http://a.b/") refl,
        lacks_line_feed-IsLine (line_of (location (codes "http://a.b/"))) refl,
        (
          name_a-IsUnknown,
          lacks_line_feed-IsLine (line_of (other (codes "a") (codes "1"))) refl,
          (tt, lacks_line_feed-IsLine (line_of (chunked)) refl, tt),
        ),
      ),
    ),
  ),
)

analysis-heed_all_example :
    analysis 7 (some (print_header status_ok (lines_of fields))) header_new
    ≡ done (s_ok, heed_all fields (with_status status_ok header_new))
analysis-heed_all_example =
    analysis-heed_all 7 status_ok fields header_new status_ok-IsStatusLine fields-AllFields
      (omega arith)
