-- ===== src/Downloader/Reply.antt =====
-- src/downloader_task.cc: a round of `main_loop` up to the header of the response.
use myjfm_spider.Prelude.{
  ℕ, suc, ◌<◌, ◌≡◌, ap, ◌∙◌, true, Option, some, List, ◌∷◌, ◌++◌, arith, leb, Run, done, ◌>>=◌,
  length,
}
use myjfm_spider.ResCode.{value, ResCode, s_ok}
use myjfm_spider.Socket.{Socket, flat, Flows}
use myjfm_spider.Header.{
  HttpResponseHeader, header_new, analysis, get_status_code, get_content_length,
}
use myjfm_spider.Header.Fields.{text}
use myjfm_spider.Header.Analysis.{StatusLine}
use myjfm_spider.Url.{Url, c_str}
use myjfm_spider.Global.{Global}
use myjfm_spider.Downloader.{recv_http_response_body}
use myjfm_spider.Downloader.HeaderEnd.{recv_http_response_header}
use myjfm_spider.Downloader.HeaderText.{crlf_lines, recv_http_response_header-text}
use myjfm_spider.Downloader.Request.{
  send_http_request, send_http_request_lem, code_of, capacity, take-all,
}
use myjfm_spider.Downloader.Round.{
  with_input, with_output, to_uint32, header_analysed, header_received, receive, request_sent,
  send_request, round_of, body_received,
}
use myjfm_spider.Downloader.Task.{DownloaderTask, Calls}
use myjfm_spider.Downloader.Ready.{
  IsHeader, IsReady, status_line, request_of, popped, set_peer_self, round_of-cons,
  serve_url-fetch_page, fetch_page-send_request, analysis-text,
}

-- The bytes sent and the writes that the socket has left.
abbrev pub sent_of : Global → Url → ℕ → DownloaderTask → List ℕ × List ℕ
sent_of g u fd t =
    (request_of g u, (send_http_request (some fd) (request_of g u) (t.peers fd).accepts).2)

-- The task when the header is read: the request sent, and `s` left to read.
abbrev pub at_header :
    Global → Url → ℕ → DownloaderTask → List (Option Url) → Socket → DownloaderTask
at_header g u fd t q s = with_input fd s (with_output fd (sent_of g u fd (popped q t)) (popped q t))

abbrev pub receive_body :
    Calls → Url → ℕ → HttpResponseHeader → DownloaderTask → Socket → Run DownloaderTask
receive_body calls u fd h t s =
    recv_http_response_body calls.alloc (some fd) (to_uint32 (get_status_code h).0)
      (get_content_length h).0 s
    >>= λ r. body_received calls u fd h r.0 r.1 (with_input fd r.2 t)

module _ (g : Global) (calls : Calls) (u : Url) (fd : ℕ) where
  length-request_of : 0 < length (request_of g u)
  length-request_of = omega arith

  send_request-receive :
      (t : DownloaderTask)
      → IsReady g calls u fd t
      → send_request calls u fd (request_of g u) t
        ≡ receive calls u fd (with_output fd (sent_of g u fd t) t)
  unfolding send_request request_sent value
  send_request-receive t r =
      let accepts = (t.peers fd).accepts in
      let whole = send_http_request_lem fd (request_of g u) accepts length-request_of in
      let fits : leb (length (request_of g u)) (capacity accepts) ≡ true =
        ground (arith, r.takes) in
      let code : (send_http_request (some fd) (request_of g u) accepts).0 ≡ s_ok =
        whole.0 ∙ ap code_of fits in
      let all = whole.1 ∙ take-all (capacity accepts) (request_of g u) r.takes in
      let left = (send_http_request (some fd) (request_of g u) accepts).2 in
      ap
        (λ c.
          request_sent calls u fd c
            (with_output fd ((send_http_request (some fd) (request_of g u) accepts).1, left) t))
        code
      ∙ ap (λ b. receive calls u fd (with_output fd (b, left) t)) all

  receive-header_analysed :
      (t : DownloaderTask) (s s' : Socket) (header : List ℕ) (h : HttpResponseHeader)
      → (t.peers fd).input ≡ s
      → calls.header_memory ≡ true
      → recv_http_response_header (some fd) true s ≡ done (s_ok, header, s')
      → analysis calls.header_fuel (some (c_str header)) header_new ≡ done (s_ok, h)
      → receive calls u fd t ≡ header_analysed calls u fd (s_ok, h) (with_input fd s' t)
  unfolding receive header_received value
  receive-header_analysed t s s' header h e m a b =
      let k = λ (r : ResCode × List ℕ × Socket).
        header_received calls u fd r.0 r.1 (with_input fd r.2 t) in
      ap (λ z. recv_http_response_header (some fd) calls.header_memory z >>= k) e
      ∙ ap (λ z. recv_http_response_header (some fd) z s >>= k) m
      ∙ ap (λ z. z >>= k) a
      ∙ ap (λ z. z >>= λ x. header_analysed calls u fd x (with_input fd s' t)) b

  header_analysed-receive_body :
      (h : HttpResponseHeader) (t : DownloaderTask) (s : Socket)
      → header_analysed calls u fd (s_ok, h) (with_input fd s t)
        ≡ receive_body calls u fd h (with_input fd s t) s
  unfolding header_analysed
  header_analysed-receive_body h t s =
      ap
        (λ p.
          recv_http_response_body calls.alloc (some fd) (to_uint32 (get_status_code h).0)
            (get_content_length h).0 p.input
          >>= λ r. body_received calls u fd h r.0 r.1 (with_input fd r.2 (with_input fd s t)))
        (set_peer_self fd (record (t.peers fd) { input = s }) t.peers)

  -- A round with a url in front of the queue, an open connection that takes the request, and a peer
  -- that sends a header: the round comes to receiving the body, with what stands behind the header.
  pub round_of-receive_body :
      (t : DownloaderTask) (q : List (Option Url)) (s : StatusLine) (l : List ℕ)
      (ls : List (List ℕ)) (h : HttpResponseHeader) (rest : List ℕ)
      → t.url_queue.queue ≡ some u ∷ q
      → IsReady g calls u fd t
      → IsHeader s l ls h
      → suc (length ls) < calls.header_fuel
      → Flows (t.peers fd).input
      → flat (t.peers fd).input ≡ crlf_lines (status_line s ∷ l ∷ ls) (b'\r' ∷ b'\n' ∷ rest)
      → (s' : Socket) × (round_of g calls t
          ≡ receive_body calls u fd h (at_header g u fd t q s') s')
        × (flat s' ≡ rest)
        × Flows s'
  round_of-receive_body t q s l ls h rest e r is enough f st =
      let input = (t.peers fd).input in
      let (s', got, left, flows) =
        recv_http_response_header-text fd (status_line s) (l ∷ ls) rest input is.plain is.short f
          st in
      let ready : IsReady g calls u fd (popped q t) = record {
        initialized = r.initialized;
        resolved = r.resolved;
        few_retries = r.few_retries;
        has_site = r.has_site;
        connected = r.connected;
        send_option = r.send_option;
        recv_option = r.recv_option;
        takes = r.takes;
        header_memory = r.header_memory;
      } in
      let sent = with_output fd (sent_of g u fd (popped q t)) (popped q t) in
      let same : (sent.peers fd).input ≡ input =
        ap (λ p. p.input)
          (set_peer_self fd
            (record (t.peers fd) {
              accepts = (sent_of g u fd (popped q t)).1;
              output = (t.peers fd).output ++ (sent_of g u fd (popped q t)).0;
            })
            t.peers) in
      (
        s',
        round_of-cons g calls u fd t q e
            ∙ serve_url-fetch_page g calls u fd (popped q t) ready
            ∙ fetch_page-send_request g calls u fd (popped q t) ready
            ∙ send_request-receive (popped q t) ready
            ∙ receive-header_analysed sent input s' (text (status_line s ∷ l ∷ ls)) h same
                r.header_memory got (analysis-text s l ls h is calls.header_fuel enough)
            ∙ header_analysed-receive_body h sent s',
        left,
        flows,
      )
