-- ===== src/Header/Written.antt =====
-- src/page.h: the fields of a header, and what each says.
use myjfm_spider.Prelude.{
  ℕ, ◌<◌, ◌≢◌, ◌⊎◌, true, false, ◌^◌, List, [], ◌∷◌, ◌++◌, codes, pos, negsuc,
}
use myjfm_spider.Page.{http_encoding_gzip, http_encoding_deflate}
use myjfm_spider.Utility.{integer2str}
use myjfm_spider.Header.{HttpResponseHeader}
use myjfm_spider.Header.Fields.{IsLine}

-- A field that the code knows, or another one.
pub data Field : Type 0 where
  content_length : ℕ → Field
  chunked : Field
  gzip : Field
  deflate : Field
  close : Field
  keep_alive : Field
  location : List ℕ → Field
  other : List ℕ → List ℕ → Field

abbrev pub name_of : Field → List ℕ
name_of (content_length n) = codes "Content-Length"
name_of chunked = codes "Transfer-Encoding"
name_of gzip = codes "Content-Encoding"
name_of deflate = codes "Content-Encoding"
name_of close = codes "Connection"
name_of keep_alive = codes "Connection"
name_of (location url) = codes "Location"
name_of (other name value) = name

abbrev pub content_of : Field → List ℕ
content_of (content_length n) = integer2str n
content_of chunked = codes "chunked"
content_of gzip = codes "gzip"
content_of deflate = codes "deflate"
content_of close = codes "close"
content_of keep_alive = codes "Keep-Alive"
content_of (location url) = url
content_of (other name value) = value

abbrev pub line_of : Field → List ℕ
line_of f = name_of f ++ b':' ∷ b' ' ∷ content_of f

abbrev pub lines_of : List Field → List (List ℕ)
lines_of [] = []
lines_of (f ∷ fs) = line_of f ∷ lines_of fs

-- What a field says of the response.
abbrev pub heed : Field → HttpResponseHeader → HttpResponseHeader
heed (content_length n) h = record h { content_length = pos n }
heed chunked h = record h { content_length = negsuc 0 }
heed gzip h = record h { content_encoding = http_encoding_gzip }
heed deflate h = record h { content_encoding = http_encoding_deflate }
heed close h = record h { connection = false }
heed keep_alive h = h
heed (location url) h = record h { location = url }
heed (other name value) h = h

abbrev pub heed_all : List Field → HttpResponseHeader → HttpResponseHeader
heed_all [] h = record h { is_valid = true }
heed_all (f ∷ fs) h = heed_all fs (heed f h)

-- No letter of upper case.
abbrev pub IsLower : List ℕ → Type 0
IsLower [] = Unit {0}
IsLower (c ∷ s) = ((c < b'A') ⊎ (b'Z' < c)) × IsLower s

abbrev pub NoColon : List ℕ → Type 0
NoColon [] = Unit {0}
NoColon (c ∷ s) = (c ≢ b':') × NoColon s

-- The name of a field that the code does not know.
pub record IsUnknown (name : List ℕ) : Type 0 where
  pub lower : IsLower name
  pub no_colon : NoColon name
  pub not_length : name ≢ codes "content-length"
  pub not_type : name ≢ codes "content-type"
  pub not_encoding : name ≢ codes "content-encoding"
  pub not_transfer : name ≢ codes "transfer-encoding"
  pub not_location : name ≢ codes "location"
  pub not_connection : name ≢ codes "connection"

abbrev pub IsField : Field → Type 0
IsField (content_length n) = n < 2 ^ 31
IsField (location url) = IsLower url
IsField (other name value) = IsUnknown name
IsField f = Unit {0}

abbrev pub AllFields : List Field → Type 0
AllFields [] = Unit {0}
AllFields (f ∷ fs) = IsField f × IsLine (line_of f) × AllFields fs
