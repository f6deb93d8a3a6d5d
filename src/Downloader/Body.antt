-- ===== src/Downloader/Body.antt =====
-- `recv_by_chunk` of src/downloader_task.cc against the chunked transfer coding.
use myjfm_spider.Prelude.{
  ℕ, zero, suc, ◌+◌, ◌^◌, ◌<◌, ◌≡◌, refl, sym, ◌∙◌, Bool, true, false, some, List, [], ◌∷◌, ◌++◌,
  append_assoc, append-nil, arith, ◌==◌, length, length-append, done, ◌>>=◌,
}
use myjfm_spider.ResCode.{s_ok}
use myjfm_spider.Socket.{Socket, flat, weight, Flows}
use myjfm_spider.Page.{Page, page_new, page_bytes}
use myjfm_spider.Downloader.{
  recv_and_discard, recv_chunk_size, recv_chunk, recv_last, recv_by_chunk_loop, recv_by_chunk,
}
use myjfm_spider.Downloader.Lines.{Leaves, Leaves-trans, recv_and_discard_lem}
use myjfm_spider.Downloader.Sizes.{IsSizeLine, recv_chunk_size_value}
use myjfm_spider.Utility.Numbers.{is_hex, hex_value, hex_digit_value}
use myjfm_spider.Downloader.Chunks.{
  Chunk, AllChunks, crlf, print_body, body, GetsChunk, recv_chunk-GetsChunk,
}

zero_line : IsSizeLine (b'0' ∷ []) []
unfolding is_hex
zero_line = record { hex = (refl, tt); plain = tt; apart = tt }

module _ (alloc : ℕ → Bool) (total : (n : ℕ) → alloc n ≡ true) (fd : ℕ) where
  loop-chunk :
      (fuel n : ℕ) (buffer p : Page) (s t u : Socket)
      → 0 < n
      → recv_chunk_size (some (suc fd)) s ≡ done (s_ok, n, t)
      → recv_chunk alloc (some (suc fd)) buffer n t ≡ done (some p, u)
      → recv_by_chunk_loop alloc (suc fuel) (some (suc fd)) buffer s
        ≡ recv_by_chunk_loop alloc fuel (some (suc fd)) p u
  unfolding recv_by_chunk_loop
  loop-chunk fuel n buffer p s t u pos a b =
      let ne : (n == 0) ≡ false = ground arith in rw (a, ◌>>=◌, ne, b) refl

  loop-last :
      (fuel : ℕ) (buffer : Page) (s t u : Socket)
      → recv_chunk_size (some (suc fd)) s ≡ done (s_ok, 0, t)
      → recv_and_discard (some (suc fd)) t ≡ done (s_ok, u)
      → recv_by_chunk_loop alloc (suc fuel) (some (suc fd)) buffer s ≡ done (s_ok, some buffer, u)
  unfolding recv_by_chunk_loop recv_last
  loop-last fuel buffer s t u a b = rw (a, ◌>>=◌, b) refl

  record GetsBody (fuel : ℕ) (buffer : Page) (cs : List Chunk) (rest : List ℕ) (s : Socket)
      (p : Page) (s' : Socket) : Type 0 where
    ran : recv_by_chunk_loop alloc fuel (some (suc fd)) buffer s ≡ done (s_ok, some p, s')
    data_bytes : page_bytes p ≡ page_bytes buffer ++ body cs
    size : p.page_size ≡ buffer.page_size + length (body cs)
    left : Leaves s rest s'

  GetsBody-last :
      (fuel : ℕ) (buffer : Page) (rest : List ℕ) (s : Socket)
      → Flows s
      → flat s ≡ print_body [] rest
      → (s' : Socket) × GetsBody (suc fuel) buffer [] rest s buffer s'
  unfolding print_body body
  GetsBody-last fuel buffer rest s f e =
      let (t, ran, left) =
        recv_chunk_size_value (suc fd) 0 (b'0' ∷ []) [] (crlf rest) s zero_line
          (unfold hex_value hex_digit_value in refl) (omega arith) f e in
      let (u, ran', left') = recv_and_discard_lem fd [] rest t tt left.flows left.stream in
      (
        u,
        record {
          ran = loop-last fuel buffer s t u ran ran';
          data_bytes = sym (append-nil (page_bytes buffer));
          size = omega arith;
          left = Leaves-trans left left';
        },
      )

  GetsBody-more :
      (fuel : ℕ) (buffer p : Page) (c : Chunk) (cs : List Chunk) (rest : List ℕ) {s t u v : Socket}
      {q : Page}
      → 0 < length c.bytes
      → recv_chunk_size (some (suc fd)) s ≡ done (s_ok, length c.bytes, t)
      → weight t < weight s
      → GetsChunk alloc total fd buffer c.bytes (print_body cs rest) t p u
      → GetsBody fuel p cs rest u q v
      → GetsBody (suc fuel) buffer (c ∷ cs) rest s q v
  unfolding body
  GetsBody-more fuel buffer p c cs rest {s} {t} {u} {v} {q} pos ran lighter g b = record {
    ran = loop-chunk fuel (length c.bytes) buffer p s t u pos ran g.ran ∙ b.ran;
    data_bytes =
        b.data_bytes ∙ rw g.data_bytes (append_assoc (page_bytes buffer) c.bytes (body cs));
    size = omega (arith, b.size, g.size, length-append c.bytes (body cs));
    left = record {
      flows = b.left.flows;
      stream = b.left.stream;
      lighter = omega (arith, b.left.lighter, g.left.lighter);
    };
  }

  recv_by_chunk_loop-GetsBody :
      (cs : List Chunk) (fuel : ℕ) (buffer : Page) (rest : List ℕ) (s : Socket)
      → AllChunks cs
      → buffer.page_size + length (body cs) < 2 ^ 32
      → Flows s
      → flat s ≡ print_body cs rest
      → weight s < fuel
      → (p : Page) × (s' : Socket) × GetsBody fuel buffer cs rest s p s'
  unfolding print_body body
  recv_by_chunk_loop-GetsBody cs zero buffer rest s good room f e enough = absurd (omega arith)
  recv_by_chunk_loop-GetsBody [] (suc fuel) buffer rest s good room f e enough =
      let (s', b) = GetsBody-last fuel buffer rest s f e in (buffer, s', b)
  recv_by_chunk_loop-GetsBody (c ∷ cs) (suc fuel) buffer rest s good room f e enough =
      let (t, ran, line) =
        recv_chunk_size_value (suc fd) (length c.bytes) c.digits c.extension _ s good.0.line
          good.0.size (omega (arith, good.0.small)) f e in
      let total_size = length-append c.bytes (body cs) in
      let (p, u, g) =
        recv_chunk-GetsChunk alloc total fd buffer c.bytes (print_body cs rest) t good.0.some_bytes
          good.0.small (omega arith) line.flows line.stream in
      let (q, v, b) =
        recv_by_chunk_loop-GetsBody cs fuel p rest u good.1 (omega (arith, g.size)) g.left.flows
          g.left.stream (omega (arith, line.lighter, g.left.lighter)) in
      (q, v, GetsBody-more fuel buffer p c cs rest good.0.some_bytes ran line.lighter g b)

  -- A peer that sends any chunks (sizes in hexadecimal digits of either case, with extensions or
  -- without), each of fewer than 2^32 - 2 bytes and less than 4 GiB in all, gets through:
  -- `recv_by_chunk` returns S_OK with a page of
  -- exactly the chunks' bytes, and what the peer sent behind the body stays unread. This holds
  -- however the bytes are cut into segments, on a descriptor above 0, when every page gets its
  -- memory.
  pub recv_by_chunk-print_body :
      (cs : List Chunk) (rest : List ℕ) (s : Socket)
      → AllChunks cs
      → length (body cs) < 2 ^ 32
      → Flows s
      → flat s ≡ print_body cs rest
      → (p : Page) × (s' : Socket) × (recv_by_chunk alloc (some (suc fd)) s
          ≡ done (s_ok, some p, s'))
        × (page_bytes p ≡ body cs)
        × (p.page_size ≡ length (body cs))
        × (flat s' ≡ rest)
        × Flows s'
  unfolding recv_by_chunk page_new
  recv_by_chunk-print_body cs rest s good room f e =
      let (p, s', b) =
        recv_by_chunk_loop-GetsBody cs (suc (weight s)) (page_new alloc 0) rest s good (omega arith)
          f e (omega arith) in
      (p, s', b.ran, b.data_bytes, omega (arith, b.size), b.left.stream, b.left.flows)
