-- ===== src/Downloader/Chunks.antt =====
-- src/downloader_task.cc: one chunk of the chunked transfer coding is received.
use myjfm_spider.Prelude.{
  ℕ, suc, ◌+◌, ◌%◌, ◌^◌, ◌≤◌, ◌<◌, ◌≡◌, refl, ap, ◌∙◌, Bool, true, some, List, [], ◌∷◌, ◌++◌, arith,
  length, length-append, take, drop, done, ◌>>=◌, Returns,
}
use myjfm_spider.ResCode.{s_ok}
use myjfm_spider.Socket.{Socket, flat, Flows}
use myjfm_spider.Page.{Page, page_new, page_bytes}
use myjfm_spider.Downloader.{fits, append_chunk, recvn, recv_chunk}
use myjfm_spider.Downloader.Receive.{recvn_lem}
use myjfm_spider.Downloader.Lines.{Leaves}
use myjfm_spider.Downloader.Sizes.{IsSizeLine}
use myjfm_spider.Utility.Numbers.{hex_value}

-- A chunk of the transfer coding: its size line and its data.
pub record Chunk : Type 0 where
  pub digits : List ℕ
  pub extension : List ℕ
  pub bytes : List ℕ

pub record IsChunk (c : Chunk) : Type 0 where
  pub line : IsSizeLine c.digits c.extension
  pub size : hex_value 0 c.digits ≡ length c.bytes
  pub some_bytes : 0 < length c.bytes
  pub small : length c.bytes + 2 < 2 ^ 32

abbrev pub AllChunks : List Chunk → Type 0
AllChunks [] = Unit {0}
AllChunks (c ∷ cs) = IsChunk c × AllChunks cs

abbrev pub crlf : List ℕ → List ℕ
crlf rest = b'\r' ∷ b'\n' ∷ rest

-- The chunks as they are sent, with the chunk of size 0 and no trailer behind them.
unfoldable pub print_body : List Chunk → List ℕ → List ℕ
print_body [] rest = b'0' ∷ crlf (crlf rest)
print_body (c ∷ cs) rest = c.digits ++ (c.extension ++ crlf (c.bytes ++ crlf (print_body cs rest)))

unfoldable pub body : List Chunk → List ℕ
body [] = []
body (c ∷ cs) = c.bytes ++ body cs

append_chunk_lem :
    (alloc : ℕ → Bool) (buffer chunk : Page) (got : List ℕ) (size : ℕ)
    → alloc (buffer.page_size + size) ≡ true
    → 0 < size
    → size ≤ chunk.page_size
    → buffer.page_size + size < 2 ^ 32
    → Returns (append_chunk alloc buffer chunk got size) λ p.
      (page_bytes p ≡ page_bytes buffer ++ take size got) × (p.page_size ≡ buffer.page_size + size)
unfolding append_chunk fits page_new
append_chunk_lem alloc buffer chunk got size a pos le small =
    let e : (buffer.page_size + size) % 2 ^ 32 ≡ buffer.page_size + size = omega arith in
    (
      record (page_new alloc (buffer.page_size + size)) {
        content = some (page_bytes buffer ++ take size got);
      },
      rw e (ground (arith, a)),
      (refl, ground (arith, a)),
    )

module _ (alloc : ℕ → Bool) (total : (n : ℕ) → alloc n ≡ true) (fd : ℕ) where
  page_new-content :
      (n : ℕ) → 0 < n → ((page_new alloc n).content ≡ some []) × ((page_new alloc n).page_size ≡ n)
  unfolding page_new
  page_new-content n pos = ground (arith, total n)

  recv_chunk-ran :
      (buffer p : Page) (size : ℕ) (got : List ℕ) (s s' : Socket)
      → 0 < size
      → size + 2 < 2 ^ 32
      → recvn (some (suc fd)) (size + 2) true s ≡ done (s_ok, got, s')
      → append_chunk alloc buffer (page_new alloc (size + 2)) got size ≡ done p
      → recv_chunk alloc (some (suc fd)) buffer size s ≡ done (some p, s')
  unfolding recv_chunk
  recv_chunk-ran buffer p size got s s' pos small r a =
      let whole : (size + 2) % 2 ^ 32 ≡ size + 2 = omega arith in
      rw (whole, (page_new-content (size + 2) (omega arith)).0, r, ◌>>=◌, whole, a) refl

  data_front :
      (bytes rest : List ℕ)
      → take (length bytes) (take (length bytes + 2) (bytes ++ crlf rest)) ≡ bytes
  data_front [] rest = refl
  data_front (b ∷ bs) rest =
      let e : suc (length bs) + 2 ≡ suc (length bs + 2) = omega arith in
      rw e (ap (◌∷◌ b) (data_front bs rest))

  data_rest : (bytes rest : List ℕ) → drop (length bytes + 2) (bytes ++ crlf rest) ≡ rest
  data_rest [] rest = refl
  data_rest (b ∷ bs) rest =
      let e : suc (length bs) + 2 ≡ suc (length bs + 2) = omega arith in rw e (data_rest bs rest)

  -- One chunk's data and the line end behind it are appended to the buffer page.
  pub record GetsChunk (buffer : Page) (bytes rest : List ℕ) (s : Socket) (p : Page) (s' : Socket)
      : Type 0 where
    pub ran : recv_chunk alloc (some (suc fd)) buffer (length bytes) s ≡ done (some p, s')
    pub data_bytes : page_bytes p ≡ page_bytes buffer ++ bytes
    pub size : p.page_size ≡ buffer.page_size + length bytes
    pub left : Leaves s rest s'

  pub recv_chunk-GetsChunk :
      (buffer : Page) (bytes rest : List ℕ) (s : Socket)
      → 0 < length bytes
      → length bytes + 2 < 2 ^ 32
      → buffer.page_size + length bytes < 2 ^ 32
      → Flows s
      → flat s ≡ bytes ++ crlf rest
      → (p : Page) × (s' : Socket) × GetsChunk buffer bytes rest s p s'
  recv_chunk-GetsChunk buffer bytes rest s pos small room f e =
      let (content, size) = page_new-content (length bytes + 2) (omega arith) in
      let (got, s', ran, t) =
        recvn_lem (suc fd) (length bytes + 2) s (omega arith) f
          (omega (arith, ap length e, length-append bytes (crlf rest))) in
      let (p, ran', (bytes', size')) =
        append_chunk_lem alloc buffer (page_new alloc (length bytes + 2)) got (length bytes)
          (total _) pos (omega arith) room in
      (
        p,
        s',
        record {
          ran = recv_chunk-ran buffer p (length bytes) got s s' pos small ran ran';
          data_bytes =
              bytes' ∙ ap (◌++◌ (page_bytes buffer)) (rw (t.front, e) (data_front bytes rest));
          size = size';
          left = record {
            flows = t.flows;
            stream = t.rest ∙ rw e (data_rest bytes rest);
            lighter = t.lighter;
          };
        },
      )
