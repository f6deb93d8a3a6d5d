-- ===== src/Extractor.antt =====
-- src/extractor_task.cc: decompress_page. zlib is a parameter, as a record of its operations on a
-- stream of a type of its own; the memory of the cache and of a page is only asked for.
pub mod Inflating
pub mod Stuck
pub mod Saving
pub mod Saved
pub mod Links
pub mod Rounds
pub mod Delivered
use myjfm_spider.Prelude.{
  ℕ, zero, suc, ◌+◌, ◌-◌, ◌*◌, ◌/◌, ◌%◌, ◌^◌, Bool, true, false, Option, none, some, List, [], ◌∷◌,
  ◌++◌, ltb, ◌==◌, if◌then◌else◌, length, Run, done, fault, out_of_fuel, ◌>>=◌,
}
use myjfm_spider.ResCode.{ResCode, s_ok, s_fail}
use myjfm_spider.Page.{
  Encoding, http_encoding_unknown, http_encoding_txt, http_encoding_gzip, http_encoding_deflate,
  Page, page_new, page_bytes, set_site, set_port, set_file, set_charset, set_encoding,
}

-- What `inflate` returns, as far as the source tells it apart.
pub data ZCode : Type 0 where
  z_ok z_stream_end z_buf_error z_data_error z_other : ZCode

-- A call of `inflate`: its result, the bytes that it wrote, what it left of the input, and the stream.
pub record Inflated (S : Type 0) : Type 0 where
  pub code : ZCode
  pub bytes : List ℕ
  pub left : Option (List ℕ)
  pub stream : S

-- `inflate_init n` is `inflateInit2` with n, and `inflateInit` where n is 15; `none` for an error. The
-- room for the output is `none` where `next_out` is NULL, and so is the input where `next_in` is.
pub record Zlib : Type 1 where
  pub Stream : Type 0
  pub inflate_init : ℕ → Option Stream
  pub inflate : Option ℕ → Option (List ℕ) → Stream → Inflated Stream
  pub inflate_reset : Stream → Stream

-- `dummy_head`: 0x78 and a byte that makes a multiple of 31 of both.
abbrev pub dummy_head : List ℕ
dummy_head = (0x8 + 0x7 * 0x10) ∷ ((((0x8 + 0x7 * 0x10) * 0x100 + 30) / 31 * 31) % 0x100) ∷ []

-- `memcpy` to the content of the new page; NULL, or a size that has wrapped, is undefined behaviour.
abbrev pub copy_into : ℕ → List ℕ → Option (List ℕ) → Page → Run Page
copy_into n bytes none p = fault
copy_into n bytes (some old) p =
    if ltb p.page_size n then fault else done (record p { content = some bytes })

-- A page with what there is and the bytes of the cache behind it; none where no byte was written.
unfoldable pub append_bytes : (ℕ → Bool) → List ℕ → Page → Run Page
append_bytes alloc [] p = done p
append_bytes alloc (b ∷ bs) p =
    let n = p.page_size + length (b ∷ bs) in
    let tmp = page_new alloc (n % 2 ^ 32) in copy_into n (page_bytes p ++ b ∷ bs) tmp.content tmp

-- The members that the decompressed page takes from the other one.
unfoldable pub copy_members : Page → Page → Page
copy_members from p =
    set_encoding from.encoding
      (set_charset from.charset (set_file from.file (set_port from.port (set_site from.site p))))

abbrev pub failed : Run (ResCode × Option Page)
failed = done (s_fail, none)

-- `cache_len`.
abbrev pub cache_len : Page → ℕ
cache_len p = p.page_size * 2 % 2 ^ 32

abbrev pub is_z_ok : ZCode → Bool
is_z_ok z_ok = true
is_z_ok z_stream_end = false
is_z_ok z_buf_error = false
is_z_ok z_data_error = false
is_z_ok z_other = false

-- The room behind what the last call wrote.
abbrev pub room_left : Option ℕ → List ℕ → Option ℕ
room_left none bytes = none
room_left (some n) bytes = some (n - length bytes)

module _ (z : Zlib) (alloc : ℕ → Bool) (source : Page) where
  open z use {Stream, inflate, inflate_reset, inflate_init}

  -- The cache, or NULL.
  abbrev pub room : Option ℕ
  room = if alloc (cache_len source) then some (cache_len source) else none

  -- The call on `dummy_head` behind a data error.
  abbrev pub try_dummy : Inflated Stream → Inflated Stream
  try_dummy r = inflate (room_left room r.bytes) (some dummy_head) (inflate_reset r.stream)

  -- A round behind its call of `inflate`; `again` is the next one, with its stream, its input, the page
  -- and the flag.
  abbrev pub after_inflate :
      (Stream → Option (List ℕ) → Page → Bool → Run (ResCode × Option Page))
      → ZCode
      → Inflated Stream
      → Page
      → Bool
      → Run (ResCode × Option Page)
  after_inflate again z_ok r p dummy =
      append_bytes alloc r.bytes p >>= λ p'. again r.stream r.left p' dummy
  after_inflate again z_buf_error r p dummy =
      append_bytes alloc r.bytes p >>= λ p'. again r.stream r.left p' dummy
  after_inflate again z_stream_end r p dummy =
      append_bytes alloc r.bytes p >>= λ p'. done (s_ok, some (copy_members source p'))
  after_inflate again z_data_error r p dummy =
      let rest = again (try_dummy r).stream source.content p true in
      if is_z_ok (try_dummy r).code then (if dummy then failed else rest) else failed
  after_inflate again z_other r p dummy = failed

  unfoldable pub inflate_loop :
      ℕ → Stream → Option (List ℕ) → Page → Bool → Run (ResCode × Option Page)
  inflate_loop zero s input p dummy = out_of_fuel
  inflate_loop (suc fuel) s input p dummy =
      after_inflate (inflate_loop fuel) (inflate room input s).code (inflate room input s) p dummy

  -- Behind the switch on the encoding; the stream is `none` where its initialisation fails.
  abbrev pub start_inflate : ℕ → Option Stream → Run (ResCode × Option Page)
  start_inflate fuel none = failed
  start_inflate fuel (some s) = inflate_loop fuel s source.content (page_new alloc 0) false

  abbrev pub decompress_as : ℕ → Encoding → Run (ResCode × Option Page)
  decompress_as fuel http_encoding_txt = done (s_ok, some source)
  decompress_as fuel http_encoding_gzip = start_inflate fuel (inflate_init 47)
  decompress_as fuel http_encoding_deflate = start_inflate fuel (inflate_init 15)
  decompress_as fuel http_encoding_unknown = failed

unfoldable pub decompress_page : Zlib → (ℕ → Bool) → ℕ → Option Page → Run (ResCode × Option Page)
decompress_page z alloc fuel none = failed
decompress_page z alloc fuel (some p) = decompress_as z alloc p fuel p.encoding
