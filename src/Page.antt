-- ===== src/Page.antt =====
-- src/page.h: the class Page, a piece of memory with the request that it answers.
-- `content` is NULL as `none`, else the bytes written so far; `page_size` is what was allocated.
use myjfm_spider.Prelude.{ℕ, Bool, false, Option, none, some, List, [], ◌==◌, if◌then◌else◌}

pub data Encoding : Type 0 where
  http_encoding_unknown http_encoding_txt http_encoding_gzip http_encoding_deflate : Encoding

pub record Page : Type 0 where
  pub content : Option (List ℕ)
  pub page_size : ℕ
  pub site : List ℕ
  pub port : ℕ
  pub file : List ℕ
  pub charset : List ℕ
  pub encoding : Encoding

-- The constructor. `alloc n` says whether the memory pool has n bytes to give. The port and the
-- encoding of a new page are indeterminate in the source; nothing reads them before they are set.
unfoldable pub page_new : (ℕ → Bool) → ℕ → Page
page_new alloc n =
    let got = if n == 0 then false else alloc n in
    record {
      content = if got then some [] else none;
      page_size = if got then n else 0;
      site = [];
      port = 0;
      file = [];
      charset = [];
      encoding = http_encoding_unknown;
    }

-- The bytes written to the page's memory.
abbrev pub written : Option (List ℕ) → List ℕ
written none = []
written (some bs) = bs

abbrev pub page_bytes : Page → List ℕ
page_bytes p = written p.content

module _ (p : Page) where
  -- The getters: the out parameter, with S_OK.
  unfoldable pub get_page_size : ℕ
  get_page_size = p.page_size

  unfoldable pub get_page_content : Option (List ℕ)
  get_page_content = p.content

  unfoldable pub get_page_site : List ℕ
  get_page_site = p.site

  unfoldable pub get_page_port : ℕ
  get_page_port = p.port

  unfoldable pub get_page_file : List ℕ
  get_page_file = p.file

  unfoldable pub get_page_charset : List ℕ
  get_page_charset = p.charset

  unfoldable pub get_page_encoding : Encoding
  get_page_encoding = p.encoding

unfoldable pub set_site : List ℕ → Page → Page
set_site site p = record p { site = site }

unfoldable pub set_port : ℕ → Page → Page
set_port port p = record p { port = port }

unfoldable pub set_file : List ℕ → Page → Page
set_file file p = record p { file = file }

unfoldable pub set_charset : List ℕ → Page → Page
set_charset charset p = record p { charset = charset }

unfoldable pub set_encoding : Encoding → Page → Page
set_encoding encoding p = record p { encoding = encoding }
