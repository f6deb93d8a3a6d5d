-- ===== src/Tests/ReceivingHeader.antt =====
-- src/downloader_task.cc at a header that arrives in pieces, and the theorem on it applied.
use myjfm_spider.Prelude.{◌≡◌, ◌<◌, refl, true, done, some, [], ◌∷◌, ◌+◌, arith, codes, length}
use myjfm_spider.ResCode.{s_ok}
use myjfm_spider.Socket.{Socket, read, flat, Flows, weight}
use myjfm_spider.Header.Fields.{text}
use myjfm_spider.Downloader.HeaderEnd.{
  recv_http_response_header, header_loop, next_end, max_header_size,
}
use myjfm_spider.Downloader.HeaderText.{AllHeaderLines, crlf_lines, recv_http_response_header-text}

abbrev header_pieces : Socket
header_pieces = codes "A: " ∷ codes "1\r" ∷ codes "\nB: 2\r\n\r" ∷ codes "\nxyz" ∷ []

header_is_read :
    recv_http_response_header (some 3) true header_pieces
    ≡ done (s_ok, codes "A: 1\nB: 2", codes "xyz" ∷ [])
unfolding recv_http_response_header header_loop next_end read weight
header_is_read = refl

header_lines : AllHeaderLines (codes "A: 1" ∷ codes "B: 2" ∷ [])
header_lines = (
  omega arith,
  (
    omega arith,
    omega arith,
    (omega arith, omega arith, (omega arith, omega arith, (omega arith, omega arith, tt))),
  ),
  (
    omega arith,
    (
      omega arith,
      omega arith,
      (omega arith, omega arith, (omega arith, omega arith, (omega arith, omega arith, tt))),
    ),
    tt,
  ),
)

pieces_are_lines :
    flat header_pieces ≡ crlf_lines (codes "A: 1" ∷ codes "B: 2" ∷ []) (b'\r' ∷ b'\n' ∷ codes "xyz")
unfolding flat
pieces_are_lines = refl

pieces-Flows : Flows header_pieces
pieces-Flows = tt

short_header : length (text (codes "A: 1" ∷ codes "B: 2" ∷ [])) + 2 < max_header_size
unfolding text
short_header = omega arith

recv_http_response_header-text_example :
    (s' : Socket) × (recv_http_response_header (some 3) true header_pieces
      ≡ done (s_ok, text (codes "A: 1" ∷ codes "B: 2" ∷ []), s'))
    × (flat s' ≡ codes "xyz")
    × Flows s'
recv_http_response_header-text_example =
    recv_http_response_header-text 3 (codes "A: 1") (codes "B: 2" ∷ []) (codes "xyz") header_pieces
      header_lines short_header pieces-Flows pieces_are_lines
