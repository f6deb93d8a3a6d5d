-- ===== src/Tests/Receiving.antt =====
-- src/downloader_task.cc at a chunked body that arrives in pieces.
use myjfm_spider.Prelude.{
  ℕ, ◌≡◌, ◌⊎◌, refl, true, Bool, Option, some, List, [], ◌∷◌, ◌++◌, arith, codes, Run, ◌>>=◌, done,
  Returns,
}
use mathlib.Core.Option
use myjfm_spider.ResCode.{ResCode, s_ok, s_fail}
use myjfm_spider.Socket.{Socket, read, flat, weight, Flows}
use myjfm_spider.Page.{Page, page_new, page_bytes}
use myjfm_spider.Utility.{is_hex_digit}
use myjfm_spider.Downloader.{
  recvn_loop, recvn, size_step, size_loop, line_end_loop, recv_chunk_size, recv_and_discard,
  append_chunk, recv_chunk, recv_last, recv_by_chunk_loop, recv_by_chunk,
}
use myjfm_spider.Downloader.Receive.{Takes, Ends, recvn_lem, recvn-Ends}
use myjfm_spider.Downloader.Sizes.{IsSizeLine}
use myjfm_spider.Utility.Numbers.{is_hex, hex_value, hex_digit_value}
use myjfm_spider.Downloader.Chunks.{Chunk, IsChunk, crlf, print_body, body}
use myjfm_spider.Downloader.Body.{recv_by_chunk-print_body}

abbrev always : ℕ → Bool
always n = true

program : Unit {0}
unfolding read flat weight page_new is_hex_digit recvn_loop recvn size_step size_loop line_end_loop
    recv_chunk_size recv_and_discard append_chunk recv_chunk recv_last recv_by_chunk_loop
    recv_by_chunk is_hex hex_value hex_digit_value print_body body
program = tt

abbrev pieces : Socket
pieces =
    codes "5;a"
    ∷ (b'\r' ∷ [])
    ∷ (b'\n' ∷ codes "he")
    ∷ (codes "llo" ++ crlf (codes "0"))
    ∷ crlf (crlf (codes "HTTP"))
    ∷ []

abbrev pub hello : Chunk
hello = record { digits = codes "5"; extension = codes ";a"; bytes = codes "hello" }

hello-line : IsSizeLine (codes "5") (codes ";a")
unfolding program
hello-line = record { hex = (refl, tt); plain = omega arith; apart = (refl, omega arith) }

pub hello-IsChunk : IsChunk hello
unfolding program
hello-IsChunk = record {
  line = hello-line;
  size = refl;
  some_bytes = omega arith;
  small = omega arith;
}

abbrev received : ResCode × Option Page × Socket → Run (ResCode × Option (List ℕ) × Socket)
received r = done (r.0, Option.map page_bytes r.1, r.2)

-- The whole body, received from six segments.
recv_by_chunk-pieces :
    recv_by_chunk always (some 3) pieces >>= received
    ≡ done (s_ok, some (codes "hello"), codes "HTTP" ∷ [])
unfolding program
recv_by_chunk-pieces = refl

recvn_lem_example :
    (bs : List ℕ) × (s' : Socket) × (recvn (some 3) 4 true pieces ≡ done (s_ok, bs, s'))
    × Takes 4 pieces bs s'
unfolding program
recvn_lem_example = recvn_lem 3 4 pieces (omega arith) tt (omega arith)

recvn-Ends_example :
    Returns
      (recvn (some 3) 60 true pieces)
      λ r. Ends 60 r ⊎ (◌≡◌ {A = ℕ} 60 0 × (r.0 ≡ s_fail) × (r.2 ≡ pieces))
recvn-Ends_example = recvn-Ends (some 3) 60 true pieces

recv_by_chunk-print_body_example :
    (p : Page) × (s' : Socket) × (recv_by_chunk always (some 3) pieces ≡ done (s_ok, some p, s'))
    × (page_bytes p ≡ codes "hello")
    × (p.page_size ≡ 5)
    × (flat s' ≡ codes "HTTP")
    × Flows s'
unfolding program
recv_by_chunk-print_body_example =
    recv_by_chunk-print_body always (λ n. refl) 2 (hello ∷ []) (codes "HTTP") pieces
      (hello-IsChunk, tt) (omega arith) tt refl
