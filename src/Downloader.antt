-- ===== src/Downloader.antt =====
-- src/downloader_task.cc: receiving a response.
-- A file descriptor is `none` when it is negative. The loops run on fuel that the callers choose by
-- the number of reads a socket can serve (`weight`) or by the bytes wanted.
pub mod Receive
pub mod Lines
pub mod Sizes
pub mod Chunks
pub mod Body
pub mod HeaderEnd
pub mod HeaderText
pub mod Request
pub mod Connect
pub mod Task
pub mod Round
pub mod Ready
pub mod Reply
pub mod Delivery
pub mod Served
pub mod Refused
pub mod Retries
pub mod Rounds
use myjfm_spider.Prelude.{
  ℕ, zero, suc, ◌+◌, ◌-◌, ◌*◌, ◌%◌, ◌^◌, Bool, true, false, not, ◌&&◌, ◌||◌, Option, none, some,
  List, [], ◌∷◌, ◌++◌, ℤ, pos, negsuc, Run, done, fault, out_of_fuel, ◌>>=◌, ltb, leb, ◌==◌,
  if◌then◌else◌, length, take,
}
use myjfm_spider.ResCode.{ResCode, s_ok, s_fail, s_should_close_connection, is_ok}
use myjfm_spider.Socket.{Socket, read, weight}
use myjfm_spider.Utility.{within, is_hex_digit}
use myjfm_spider.Page.{Page, page_new, page_bytes}

abbrev pub Fd : Type 0
Fd = Option ℕ

-- `fd < 0` and `fd <= 0`.
abbrev pub is_negative : Fd → Bool
is_negative none = true
is_negative (some n) = false

abbrev pub not_positive : Fd → Bool
not_positive none = true
not_positive (some n) = n == 0

abbrev pub is_null {ℓ} : {A : Type ℓ} → Option A → Bool
is_null none = true
is_null (some a) = false

-- `read_len == (int)remain_n` compares as below since one read returns fewer than 2 ^ 31 bytes.
unfoldable pub recvn_loop : ℕ → ℕ → List ℕ → Socket → Run (ResCode × List ℕ × Socket)
recvn_loop zero n got s = out_of_fuel
recvn_loop (suc fuel) n got s = elim ((read n s).0) [
  | none ↦ done (s_fail, got, (read n s).1)
  | some bs ↦
      let rest = recvn_loop fuel (n - length bs) (got ++ bs) (read n s).1 in
      if length bs == n then done (s_ok, got ++ bs, (read n s).1) else rest
]

-- The bytes written to `buffer`, with the result; `buffer` says whether the pointer is set.
unfoldable pub recvn : Fd → ℕ → Bool → Socket → Run (ResCode × List ℕ × Socket)
recvn fd n buffer s =
    if is_negative fd || (n == 0 || not buffer) then done (s_fail, [], s) else recvn_loop n n [] s

-- One hexadecimal digit of a chunk size, in 32 bits.
unfoldable pub size_step : ℕ → ℕ → ℕ
size_step size c =
    if within b'0' b'9' c
    then (size * 16 + c - b'0') % 2 ^ 32
    else if within b'a' b'f' c
    then (size * 16 + c - b'a' + 10) % 2 ^ 32
    else if within b'A' b'F' c
    then (size * 16 + c - b'A' + 10) % 2 ^ 32
    else size

-- The first loop of `recv_chunk_size`: the byte that ended it, `none` after a failed read, and the
-- size so far.
unfoldable pub size_loop : ℕ → ℕ → Socket → Run (Option ℕ × ℕ × Socket)
unfolding size_step is_hex_digit
size_loop zero size s = out_of_fuel
size_loop (suc fuel) size s = elim ((read 1 s).0) [
  | none ↦ done (none, size, (read 1 s).1)
  | some [] ↦ done (none, size, (read 1 s).1)
  | some (c ∷ _) ↦
      let next = size_loop fuel (if is_hex_digit c then size_step size c else size) (read 1 s).1 in
      if is_hex_digit c || c == b' ' then next else done (some c, size, (read 1 s).1)
]

-- The loop that reads up to a line feed behind a carriage return.
unfoldable pub line_end_loop : ℕ → Bool → Socket → Run (ResCode × Socket)
line_end_loop zero flag s = out_of_fuel
line_end_loop (suc fuel) flag s = elim ((read 1 s).0) [
  | none ↦ done (s_fail, (read 1 s).1)
  | some [] ↦ done (s_fail, (read 1 s).1)
  | some (c ∷ _) ↦
      let next = line_end_loop fuel (c == b'\r') (read 1 s).1 in
      if not (c == b'\r') && (c == b'\n' && flag) then done (s_ok, (read 1 s).1) else next
]

unfoldable pub recv_chunk_size : Fd → Socket → Run (ResCode × ℕ × Socket)
recv_chunk_size fd s =
    if is_negative fd
    then done (s_fail, 0, s)
    else size_loop (suc (weight s)) 0 s >>= λ r. elim r.0 [
      | none ↦ done (s_fail, r.1, r.2)
      | some c ↦ line_end_loop (suc (weight r.2)) (c == b'\r') r.2 >>= λ e. done (e.0, r.1, e.1)
    ]

unfoldable pub recv_and_discard : Fd → Socket → Run (ResCode × Socket)
recv_and_discard fd s =
    if not_positive fd then done (s_fail, s) else line_end_loop (suc (weight s)) false s

-- `memcpy` of `n` bytes to the offset `at` of a page: the page is NULL or too small, or it fits.
unfoldable pub fits : Page → ℕ → ℕ → Bool
fits p at n = not (is_null p.content) && leb (at + n) p.page_size

-- The new buffer page: what `buffer` holds, then the first `size` bytes of the chunk page.
unfoldable pub append_chunk : (ℕ → Bool) → Page → Page → List ℕ → ℕ → Run Page
unfolding fits
append_chunk alloc buffer chunk got size =
    let tmp = page_new alloc ((buffer.page_size + size) % 2 ^ 32) in
    if fits tmp buffer.page_size size && leb size chunk.page_size
    then done (record tmp { content = some (page_bytes buffer ++ take size got) })
    else fault

-- One round of `recv_by_chunk`: `none` where the code returns S_SHOULD_CLOSE_CONNECTION.
unfoldable pub recv_chunk : (ℕ → Bool) → Fd → Page → ℕ → Socket → Run (Option Page × Socket)
recv_chunk alloc fd buffer size s =
    let chunk = page_new alloc ((size + 2) % 2 ^ 32) in
    recvn fd ((size + 2) % 2 ^ 32) (not (is_null chunk.content)) s >>= λ g. elim (is_ok g.0) [
      | true ↦ append_chunk alloc buffer chunk g.1 size >>= λ p. done (some p, g.2)
      | false ↦ done (none, g.2)
    ]

-- The end of the body, behind a chunk of size 0.
unfoldable pub recv_last : Fd → Page → Socket → Run (ResCode × Option Page × Socket)
recv_last fd buffer s = recv_and_discard fd s >>= λ e. elim (is_ok e.0) [
  | true ↦ done (s_ok, some buffer, e.1)
  | false ↦ done (s_should_close_connection, none, e.1)
]

unfoldable pub recv_by_chunk_loop :
    (ℕ → Bool) → ℕ → Fd → Page → Socket → Run (ResCode × Option Page × Socket)
recv_by_chunk_loop alloc zero fd buffer s = out_of_fuel
recv_by_chunk_loop alloc (suc fuel) fd buffer s = recv_chunk_size fd s >>= λ r. elim (is_ok r.0) [
  | false ↦ done (s_should_close_connection, none, r.2)
  | true ↦ elim (r.1 == 0) [
    | true ↦ recv_last fd buffer r.2
    | false ↦ recv_chunk alloc fd buffer r.1 r.2 >>= λ g. elim g.0 [
      | none ↦ done (s_should_close_connection, none, g.1)
      | some buffer' ↦ recv_by_chunk_loop alloc fuel fd buffer' g.1
    ]
  ]
]

unfoldable pub recv_by_chunk : (ℕ → Bool) → Fd → Socket → Run (ResCode × Option Page × Socket)
recv_by_chunk alloc fd s = recv_by_chunk_loop alloc (suc (weight s)) fd (page_new alloc 0) s

-- The page argument is a pointer, `none` when NULL.
unfoldable pub recv_by_content_length :
    Fd → ℕ → Option Page → Socket → Run (ResCode × Option Page × Socket)
recv_by_content_length fd n none s = done (s_should_close_connection, none, s)
recv_by_content_length fd n (some p) s =
    if not_positive fd || is_null p.content
    then done (s_should_close_connection, some p, s)
    else recvn fd n true s >>= λ g.
        let p' = record p { content = some g.1 } in
        done (if is_ok g.0 then s_ok else s_should_close_connection, some p', g.2)

unfoldable pub recv_http_response_body :
    (ℕ → Bool) → Fd → ℕ → ℤ → Socket → Run (ResCode × Option Page × Socket)
recv_http_response_body alloc fd status (negsuc zero) s =
    if is_negative fd || not (status == 200)
    then done (s_fail, none, s)
    else recv_by_chunk alloc fd s
recv_http_response_body alloc fd status (negsuc (suc n)) s = done (s_fail, none, s)
recv_http_response_body alloc fd status (pos zero) s = done (s_fail, none, s)
recv_http_response_body alloc fd status (pos (suc n)) s =
    if is_negative fd || not (status == 200)
    then done (s_fail, none, s)
    else recv_by_content_length fd (suc n) (some (page_new alloc (suc n))) s
