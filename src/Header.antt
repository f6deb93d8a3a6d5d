-- ===== src/Header.antt =====
-- src/page.h: the class HttpResponseHeader. A header is the C string in the receive buffer. The
-- loop over the lines runs on fuel that the caller gives, since the source's loop need not end.
pub mod Fields
pub mod Analysis
pub mod Reading
pub mod Written
pub mod Heeded
pub mod Endless
use myjfm_spider.Prelude.{
  ℕ, zero, suc, ◌+◌, ◌-◌, ◌*◌, ◌^◌, Bool, true, false, not, ◌&&◌, ◌||◌, Option, none, some, List,
  [], ◌∷◌, ltb, ◌==◌, if◌then◌else◌, ℤ, pos, negsuc, to_int32, Run, done, out_of_fuel, length, take,
  drop, codes, bytes_eq,
}
use myjfm_spider.ResCode.{ResCode, s_ok, s_fail}
use myjfm_spider.Utility.{to_lower, split, is_digit, str2integer}
use myjfm_spider.Page.{
  Encoding, http_encoding_unknown, http_encoding_txt, http_encoding_gzip, http_encoding_deflate,
}

pub record HttpResponseHeader : Type 0 where
  pub is_valid : Bool
  pub http_version : ℕ
  pub status_code : ℕ
  pub content_type : List ℕ
  pub charset : List ℕ
  pub content_length : ℤ
  pub content_encoding : Encoding
  pub connection : Bool
  pub location : List ℕ

abbrev pub header_new : HttpResponseHeader
header_new = record {
  is_valid = false;
  http_version = 1;
  status_code = 0;
  content_type = [];
  charset = [];
  content_length = negsuc 0;
  content_encoding = http_encoding_txt;
  connection = true;
  location = [];
}

module _ (h : HttpResponseHeader) where
  -- The getters: the out parameter and the result.
  unfoldable pub get_http_version : ℤ × ResCode
  get_http_version = if h.is_valid then (pos h.http_version, s_ok) else (negsuc 0, s_fail)

  unfoldable pub get_status_code : ℤ × ResCode
  get_status_code = if h.is_valid then (pos h.status_code, s_ok) else (negsuc 0, s_fail)

  unfoldable pub get_content_type : List ℕ × ResCode
  get_content_type = if h.is_valid then (h.content_type, s_ok) else ([], s_fail)

  unfoldable pub get_charset : List ℕ × ResCode
  get_charset = if h.is_valid then (h.charset, s_ok) else ([], s_fail)

  unfoldable pub get_content_length : ℤ × ResCode
  get_content_length = if h.is_valid then (h.content_length, s_ok) else (negsuc 0, s_fail)

  unfoldable pub get_content_encoding : Encoding × ResCode
  get_content_encoding =
      if h.is_valid then (h.content_encoding, s_ok) else (http_encoding_unknown, s_fail)

  unfoldable pub get_connection : Bool × ResCode
  get_connection = if h.is_valid then (h.connection, s_ok) else (false, s_fail)

  unfoldable pub get_location : List ℕ × ResCode
  get_location = if h.is_valid then (h.location, s_ok) else ([], s_fail)

-- The text in front of the first byte `d`, or all of it, and the text behind that byte.
unfoldable pub before : ℕ → List ℕ → List ℕ
before d [] = []
before d (c ∷ s) = if c == d then [] else c ∷ before d s

unfoldable pub behind : ℕ → List ℕ → Option (List ℕ)
behind d [] = none
behind d (c ∷ s) = if c == d then some s else behind d s

-- The parameter "charset=..." of a content type, split at "=".
unfoldable pub charset_of : List (List ℕ) → List ℕ
charset_of (name ∷ charset ∷ []) = if bytes_eq name (codes "charset") then charset else []
charset_of items = []

-- The type and the charset, from the value split at "; ".
unfoldable pub content_type_of : List (List ℕ) → List ℕ × List ℕ
unfolding charset_of
content_type_of [] = ([], [])
content_type_of (t ∷ []) = (t, [])
content_type_of (t ∷ c ∷ []) = (t, charset_of (split c (codes "=")))
content_type_of (t ∷ c ∷ d ∷ ts) = (t, [])

unfoldable pub encoding_of : List ℕ → Encoding
encoding_of value =
    if bytes_eq value (codes "gzip")
    then http_encoding_gzip
    else if bytes_eq value (codes "deflate")
    then http_encoding_deflate
    else http_encoding_unknown

abbrev pub length_of : Option ℕ → ℤ → ℤ
length_of none old = old
length_of (some n) old = to_int32 n

abbrev pub set_content_type : List ℕ × List ℕ → HttpResponseHeader → HttpResponseHeader
set_content_type parts h = record h { content_type = parts.0; charset = parts.1 }

-- What one header line changes; `none` where the code gives up on a transfer coding.
unfoldable pub set_field : List ℕ → List ℕ → HttpResponseHeader → Option HttpResponseHeader
unfolding content_type_of encoding_of
set_field key value h =
    if bytes_eq key (codes "content-length")
    then some (record h {
      content_length = length_of (str2integer (2 ^ 32 - 1) (some value)) h.content_length;
    })
    else if bytes_eq key (codes "content-type")
    then some (set_content_type (content_type_of (split value (codes "; "))) h)
    else if bytes_eq key (codes "content-encoding")
    then some (record h { content_encoding = encoding_of value })
    else if bytes_eq key (codes "transfer-encoding")
    then (if bytes_eq value (codes "chunked")
        then some (record h { content_length = negsuc 0 })
        else none)
    else if bytes_eq key (codes "location")
    then some (record h { location = value })
    else if bytes_eq key (codes "connection")
    then some (record h { connection = not (bytes_eq value (codes "close")) && h.connection })
    else some h

-- The rest of the header behind its first line.
abbrev pub next_lines : Option (List ℕ) → List ℕ
next_lines none = []
next_lines (some s) = s

-- `j < i - 1`, with i the length of the line and j the place of its first colon.
unfoldable pub has_value : List ℕ → Bool
unfolding before
has_value line = ltb (length (before b':' line) + 1) (length line)

abbrev pub key_of : List ℕ → List ℕ
key_of line = to_lower (before b':' line)

abbrev pub value_of : List ℕ → List ℕ
value_of line = to_lower (drop (length (before b':' line) + 2) line)

-- `while (header_len > 0)`. The line's end is overwritten by NUL; the pointer moves on only behind a
-- line that has a value.
unfoldable pub line_loop : ℕ → HttpResponseHeader → List ℕ → ℕ → Run (ResCode × HttpResponseHeader)
line_loop zero h header len = out_of_fuel
line_loop (suc fuel) h header zero = done (s_ok, record h { is_valid = true })
line_loop (suc fuel) h header (suc len) =
    let line = before b'\n' header in
    elim (has_value line) [
      | false ↦ line_loop fuel h line (suc len)
      | true ↦ elim (set_field (key_of line) (value_of line) h) [
        | none ↦ done (s_fail, record h { is_valid = false })
        | some h' ↦
            line_loop fuel h' (next_lines (behind b'\n' header)) (suc len - (length line + 1))
      ]
    ]

-- The three digits behind the version, and the space behind them.
unfoldable pub status_of : List ℕ → Option ℕ
status_of (a ∷ b ∷ c ∷ d ∷ s) =
    if is_digit a && (is_digit b && (is_digit c && d == b' '))
    then some (100 * a + 10 * b + c - 111 * b'0')
    else none
status_of s = none

-- The header behind the version, of which 9 bytes and `len` in all.
unfoldable pub analysis_status :
    ℕ → HttpResponseHeader → List ℕ → Run (ResCode × HttpResponseHeader)
analysis_status fuel h header = elim (status_of header) [
  | none ↦ done (s_fail, record h { is_valid = false })
  | some n ↦ elim (behind b'\n' header) [
    | none ↦ done (s_fail, record h { status_code = n; is_valid = false })
    | some lines ↦ line_loop fuel (record h { status_code = n }) lines (length lines)
  ]
]

unfoldable pub analysis :
    ℕ → Option (List ℕ) → HttpResponseHeader → Run (ResCode × HttpResponseHeader)
analysis fuel none h = done (s_fail, record h { is_valid = false })
analysis fuel (some header) h =
    if ltb (length header) 16
    then done (s_fail, record h { is_valid = false })
    else if bytes_eq (take 8 header) (codes "HTTP/1.1")
    then analysis_status fuel (record h { http_version = 1 }) (drop 9 header)
    else if bytes_eq (take 8 header) (codes "HTTP/1.0")
    then analysis_status fuel (record h { http_version = 0 }) (drop 9 header)
    else done (s_fail, record h { is_valid = false })
