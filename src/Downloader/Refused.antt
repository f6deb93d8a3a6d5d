-- ===== src/Downloader/Refused.antt =====
-- src/downloader_task.cc: rounds of `main_loop` on responses of a status other than 200.
use myjfm_spider.Prelude.{
  ℕ, zero, suc, ◌+◌, ◌*◌, ◌<◌, ◌≡◌, ◌≢◌, refl, sym, ap, ◌∙◌, Bool, true, false, Option, none, some,
  List, ◌∷◌, arith, ◌==◌, ℤ, pos, negsuc, done, ◌>>=◌, length,
}
use myjfm_spider.ResCode.{value, s_fail}
use myjfm_spider.Socket.{Socket, flat, Flows}
use myjfm_spider.Downloader.Round.{to_uint32}
use myjfm_spider.Header.{HttpResponseHeader, get_status_code, get_content_length}
use myjfm_spider.Header.Analysis.{StatusLine}
use myjfm_spider.Url.{Url}
use myjfm_spider.Global.{Global}
use myjfm_spider.Downloader.{recv_http_response_body}
use myjfm_spider.Downloader.HeaderText.{crlf_lines}
use myjfm_spider.Downloader.Ready.{IsHeader, IsReady, status_line}
use myjfm_spider.Downloader.Reply.{at_header, receive_body, round_of-receive_body}
use myjfm_spider.Downloader.Round.{with_input, body_received, page_received, round_of}
use myjfm_spider.Downloader.Task.{DownloaderTask, Calls, end_connection}
use myjfm_spider.Downloader.Delivery.{get_connection-valid, get_status_code-valid, reads-valid}
use myjfm_spider.Downloader.Served.{IsServed, IsServed-end}

body-refused :
    (alloc : ℕ → Bool) (fd status : ℕ) (len : ℤ) (s : Socket)
    → status ≢ 200
    → recv_http_response_body alloc (some fd) status len s ≡ done (s_fail, none, s)
unfolding recv_http_response_body
body-refused alloc fd status (negsuc zero) s ne =
    let e : (status == 200) ≡ false = ground (arith, ne) in rw e refl
body-refused alloc fd status (negsuc (suc n)) s ne = refl
body-refused alloc fd status (pos zero) s ne = refl
body-refused alloc fd status (pos (suc n)) s ne =
    let e : (status == 200) ≡ false = ground (arith, ne) in rw e refl

receive_body-refused :
    (calls : Calls) (u : Url) (fd : ℕ) (h : HttpResponseHeader) (t : DownloaderTask) (s : Socket)
    → h.is_valid ≡ true
    → h.status_code < 1000
    → h.status_code ≢ 200
    → receive_body calls u fd h t s ≡ done (end_connection h.connection u fd (with_input fd s t))
unfolding body_received page_received value
receive_body-refused calls u fd h t s valid small ne =
    let code : to_uint32 (get_status_code h).0 ≡ h.status_code =
      ap (λ r. to_uint32 r.0) (get_status_code-valid h valid) ∙ omega (arith, small) in
    let ne' : to_uint32 (get_status_code h).0 ≢ 200 = λ e. ne (sym code ∙ e) in
    ap (λ z. z >>= λ r. body_received calls u fd h r.0 r.1 (with_input fd r.2 t))
      (body-refused calls.alloc fd (to_uint32 (get_status_code h).0) (get_content_length h).0 s ne')
    ∙ ap (λ c. done (end_connection c.0 u fd (with_input fd s t))) (get_connection-valid h valid)

module _ (g : Global) (calls : Calls) (u : Url) (fd : ℕ) (t : DownloaderTask)
    (q : List (Option Url)) (s : StatusLine) (l : List ℕ) (ls : List (List ℕ))
    (h : HttpResponseHeader) where
  -- A round with a url of protocol http in front of the queue, whose addresses are known, with less
  -- than three retries, an open connection that takes the whole request, system calls that succeed,
  -- and a peer that sends a header and any bytes behind it, however cut into segments. The header has
  -- a status line of a status other than 200 and one or more lines, none empty, without CR, LF and
  -- NUL, that fit the buffer and that analysis reads to the end with S_OK, so each has something
  -- behind its first colon. Then the request is sent and the round returns
  -- with the url gone and no page for an extractor, and every byte behind the header is unread. Where
  -- the header keeps the connection open, it stays in the map, so the next url of that site reads
  -- these bytes.
  pub round_of-refuses :
      (rest : List ℕ)
      → t.url_queue.queue ≡ some u ∷ q
      → IsReady g calls u fd t
      → IsHeader s l ls h
      → suc (length ls) < calls.header_fuel
      → 100 * s.digit1 + 10 * s.digit2 + s.digit3 ≢ 200
      → Flows (t.peers fd).input
      → flat (t.peers fd).input ≡ crlf_lines (status_line s ∷ l ∷ ls) (b'\r' ∷ b'\n' ∷ rest)
      → (t' : DownloaderTask) × (round_of g calls t ≡ done t')
        × IsServed g u fd t q h.connection rest t'
        × (t'.extractor_queues ≡ t.extractor_queues)
  round_of-refuses rest e ready is enough ne f st =
      let (valid, status) = reads-valid s l ls h is in
      let (s', ran, left, flows) =
        round_of-receive_body g calls u fd t q s l ls h rest e ready is enough f st in
      let ends =
        IsServed-end g u fd t q h.connection rest s' s' t.extractor_queues ready.connected left in
      (
        end_connection h.connection u fd (with_input fd s' (at_header g u fd t q s')),
        ran
            ∙ receive_body-refused calls u fd h (at_header g u fd t q s') s' valid
                (omega (arith, status, is.status.0, is.status.1, is.status.2))
                (λ z. ne (sym status ∙ z)),
        ends.0,
        ends.1,
      )
